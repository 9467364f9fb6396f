-- ===== src/Storage/Log/Find.antt =====
-- Searching a page for an item, in src/storage.c, against the log on the page.
use ch582_water_jinru.Common.{
  ℕ, zero, suc, ◌+◌, ◌*◌, ◌≤◌, ◌<◌, ◌≡◌, sym, ap, ◌∙◌, Bool, true, false, ◌||◌, not, Option, some,
  none, List, [], ◌∷◌, ◌++◌, length, arith, ◌⊎◌, inl, inr, ◌==◌, if◌then◌else◌, lt→ltb, le→ltb, u16,
}
use ch582_water_jinru.Storage.{
  Eeprom, St, M, guard, get, pure, ◌>>=◌, ◌>>◌, page_of, page_valid, page_max, page_size,
  page_header_size, Header, Item, header_bytes, header_size, item_size, item_idx_valid, active,
  full, erased, unavailable,
}
use ch582_water_jinru.Storage.Flash.{IsFlash, span}
use ch582_water_jinru.Storage.Pages.{st_page_read}
use ch582_water_jinru.Storage.Items.{st_item_verify, page_fuel}
use ch582_water_jinru.Storage.Search.{find_loop, st_page_find_item}
use ch582_water_jinru.Storage.Log.{log_size, Stored, Stored-at, header_of-header_bytes}

abbrev pub content_at : ℕ → ℕ → ℕ
content_at idx offset = idx * page_size + page_header_size + offset

module _ (E : Eeprom) (F : IsFlash E) where
  -- A read that ends before the last byte of a page succeeds and changes nothing.
  pub st_page_read_lem :
      (idx offset n : ℕ) (s : St E) (bs : List ℕ)
      → idx < page_max
      → offset + n ≤ 254
      → span (F.byte s.dev) (content_at idx offset) n ≡ bs
      → st_page_read E idx offset n s ≡ (some bs, s)
  unfolding st_page_read
  st_page_read_lem idx offset n s bs hi hn e = rw (
    lt→ltb idx page_max hi,
    lt→ltb (offset + n + page_header_size) page_size (omega arith),
    F.read_span (content_at idx offset) n s.dev (omega arith),
    e,
  )

  -- The item at an offset is not the one that is looked for.
  abbrev Other : ℕ → Item → Type 0
  Other target item = (item.header.idx == 0 || not (item.header.idx == target)) ≡ true

  find_skip :
      (f idx offset cnt : ℕ) (result : Option Item) (s : St E) (item : Item) (items : List Item)
      → idx < page_max
      → (page_of s idx).bytes_used ≤ 254
      → Stored (F.byte s.dev) (content_at idx offset) (item ∷ items)
      → offset + item_size item.header ≤ (page_of s idx).bytes_used
      → Other s.item_idx item
      → find_loop E (suc f) idx offset cnt result s
        ≡ find_loop E f idx (offset + item_size item.header) cnt result s
  unfolding find_loop
  find_skip f idx offset cnt result s item items hi hu (a, b, c) ho hn =
      let wrap : u16 (offset + item_size item.header) ≡ offset + item_size item.header =
        omega arith in
      rw (
        lt→ltb offset (page_of s idx).bytes_used (omega arith),
        st_page_read_lem idx offset header_size s (header_bytes item.header) hi (omega arith) a,
        header_of-header_bytes item.header,
        hn,
        wrap,
      )

  abbrev pub NoneOf : ℕ → List Item → Type 0
  NoneOf target [] = Unit {0}
  NoneOf target (item ∷ items) = Other target item × NoneOf target items

  find_none :
      (f idx offset cnt : ℕ) (result : Option Item) (s : St E) (items : List Item)
      → idx < page_max
      → (page_of s idx).bytes_used ≤ 254
      → length items < f
      → Stored (F.byte s.dev) (content_at idx offset) items
      → offset + log_size items ≡ (page_of s idx).bytes_used
      → NoneOf s.item_idx items
      → find_loop E f idx offset cnt result s ≡ (some (cnt, result), s)
  unfolding find_loop
  find_none zero idx offset cnt result s items hi hu hf st ho hn = absurd (omega arith)
  find_none (suc f) idx offset cnt result s [] hi hu hf st ho hn =
      rw (le→ltb offset (page_of s idx).bytes_used (omega arith))
  find_none (suc f) idx offset cnt result s (item ∷ items) hi hu hf (a, b, c) ho (other, others) =
      find_skip f idx offset cnt result s item items hi hu (a, b, c) (omega arith) other
      ∙ find_none f idx (offset + item_size item.header) cnt result s items hi hu (omega arith)
          (Stored-at _ _ _ items (omega arith) c) (omega arith) others

  -- What the search notes when it has found a record.
  abbrev pub noted : ℕ → ℕ → Header → St E → St E
  noted idx offset h s = record s {
    last_location = record { page = idx; offset = offset };
    last_header = h;
  }

  find_take :
      (f idx offset cnt : ℕ) (result : Option Item) (s : St E) (item : Item) (items : List Item)
      → idx < page_max
      → (page_of s idx).bytes_used ≤ 254
      → Stored (F.byte s.dev) (content_at idx offset) (item ∷ items)
      → offset + item_size item.header ≤ (page_of s idx).bytes_used
      → (item.header.idx == 0 || not (item.header.idx == s.item_idx)) ≡ false
      → st_item_verify item ≡ true
      → page_valid s.last_location.page ≡ false
      → find_loop E (suc f) idx offset cnt result s
        ≡ find_loop E f idx
            (offset + item_size item.header)
            (cnt + 1)
            (some item)
            (noted idx offset item.header s)
  unfolding find_loop
  find_take f idx offset cnt result s item items hi hu (a, b, c) ho hn hv hl =
      let wrap : u16 (offset + item_size item.header) ≡ offset + item_size item.header =
        omega arith in
      let wrap4 : u16 (offset + header_size) ≡ offset + header_size = omega arith in
      let at4 : content_at idx offset + header_size ≡ content_at idx (offset + header_size) =
        omega arith in
      rw (
        lt→ltb offset (page_of s idx).bytes_used (omega arith),
        st_page_read_lem idx offset header_size s (header_bytes item.header) hi (omega arith) a,
        header_of-header_bytes item.header,
        hn,
        wrap,
        wrap4,
        st_page_read_lem idx (offset + header_size) item.header.len s item.content hi (omega arith)
            (ap (λ x. span (F.byte s.dev) x item.header.len) (sym at4) ∙ b),
        hv,
        hl,
      )

  find_one :
      (f idx offset cnt : ℕ) (result : Option Item) (s : St E) (before after : List Item)
      (item : Item)
      → idx < page_max
      → (page_of s idx).bytes_used ≤ 254
      → length (before ++ (item ∷ after)) < f
      → Stored (F.byte s.dev) (content_at idx offset) (before ++ (item ∷ after))
      → offset + log_size (before ++ (item ∷ after)) ≡ (page_of s idx).bytes_used
      → NoneOf s.item_idx before
      → NoneOf s.item_idx after
      → (item.header.idx == 0 || not (item.header.idx == s.item_idx)) ≡ false
      → st_item_verify item ≡ true
      → page_valid s.last_location.page ≡ false
      → find_loop E f idx offset cnt result s
        ≡ (some (cnt + 1, some item), noted idx (offset + log_size before) item.header s)
  find_one zero idx offset cnt result s before after item hi hu hf st ho hb ha hn hv hl =
      absurd (omega arith)
  find_one (suc f) idx offset cnt result s [] after item hi hu hf (a, b, c) ho hb ha hn hv hl =
      let at : offset + 0 ≡ offset = omega arith in
      find_take f idx offset cnt result s item after hi hu (a, b, c) (omega arith) hn hv hl
      ∙ find_none f idx (offset + item_size item.header) (cnt + 1) (some item)
          (noted idx offset item.header s) after hi hu (omega arith)
          (Stored-at _ _ _ after (omega arith) c) (omega arith) ha
      ∙ rw at
  find_one (suc f) idx offset cnt result s (first ∷ before) after item hi hu hf (a, b, c) ho
        (other, others) ha hn hv hl =
      let at : offset + item_size first.header + log_size before
          ≡ offset + log_size (first ∷ before) =
        omega arith in
      find_skip f idx offset cnt result s first (before ++ (item ∷ after)) hi hu (a, b, c)
        (omega arith) other
      ∙ find_one f idx (offset + item_size first.header) cnt result s before after item hi hu
          (omega arith) (Stored-at _ _ _ (before ++ (item ∷ after)) (omega arith) c) (omega arith)
          others ha hn hv hl
      ∙ rw at

  length-log_size : (items : List Item) → 4 * length items ≤ log_size items
  length-log_size [] = omega arith
  length-log_size (item ∷ items) = omega (arith, length-log_size items)

-- The tests before a search, with any search after them.
ready :
    {E : Eeprom} {A : Type 0} (a : Bool) (b c : St E → Bool) (x : A) (search_page : M E A)
    (s : St E)
    → a ≡ true
    → b s ≡ true
    → c s ≡ false
    → (guard a >> (get >>= (λ t. guard (b t) >> (if c t then pure x else search_page)))) s
      ≡ search_page s
ready a b c x search_page s ha hb hc = rw (ha, hb, hc)

-- `s` holds the items on page `idx`: they take all its used bytes, 254 at most.
pub record HasLog (E : Eeprom) (F : IsFlash E) (s : St E) (idx : ℕ) (items : List Item)
    : Type 0 where
  pub on_page : idx < page_max
  pub loaded : length s.pages ≡ page_max
  pub used : log_size items ≡ (page_of s idx).bytes_used
  pub fits : (page_of s idx).bytes_used ≤ 254
  pub stored : Stored (F.byte s.dev) (content_at idx 0) items

-- On a page, active or full, whose log holds exactly one record with the index that is looked for,
-- and whose check sum is right, `st_page_find_item` of a search that has found nothing before
-- returns 1 and this record, notes its page and offset, and changes nothing else.
pub st_page_find_item_lem :
    (E : Eeprom) (F : IsFlash E) (s : St E) (idx : ℕ) (before after : List Item) (item : Item)
    → HasLog E F s idx (before ++ (item ∷ after))
    → ((page_of s idx).status ≡ active) ⊎ ((page_of s idx).status ≡ full)
    → item_idx_valid s.item_idx ≡ true
    → item.header.idx ≡ s.item_idx
    → NoneOf E F s.item_idx before
    → NoneOf E F s.item_idx after
    → st_item_verify item ≡ true
    → page_valid s.last_location.page ≡ false
    → st_page_find_item E idx s
      ≡ (some (1, some item), noted E F idx (log_size before) item.header s)
unfolding st_page_find_item
st_page_find_item_lem E F s idx before after item l hs hv hi hb ha ok hl =
    let live : ((page_of s idx).status == erased || (page_of s idx).status == unavailable) ≡ false =
      elim hs [ inl e ↦ rw e | inr e ↦ rw e ] in
    let self : (item.header.idx == 0 || not (item.header.idx == s.item_idx)) ≡ false =
      ground arith in
    ready (page_valid idx) (λ t. item_idx_valid t.item_idx)
      (λ t. (page_of t idx).status == erased || (page_of t idx).status == unavailable) (0, none)
      (find_loop E page_fuel idx 0 0 none) s (lt→ltb idx page_max l.on_page) hv live
    ∙ find_one E F page_fuel idx 0 0 none s before after item l.on_page l.fits
        (omega (arith, length-log_size E F (before ++ (item ∷ after)), l.used, l.fits)) l.stored
        (omega (arith, l.used)) hb ha self ok hl
    ∙ ap (λ n. (some (1, some item), noted E F idx n item.header s)) (omega arith)
