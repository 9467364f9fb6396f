-- ===== src/Storage/Log/ScanItem.antt =====
-- One round of the loop of `st_page_scan` in src/storage.c: an item is read and counted, or the
-- erased flash after the last item ends the loop.
use mathlib.Core.Path.{subst}
use ch582_water_jinru.Common.{
  ℕ, suc, ◌+◌, ◌≤◌, ◌<◌, ◌≡◌, refl, sym, ap, ◌∙◌, Bool, true, false, some, List, [], ◌∷◌, length,
  arith, ◌⊎◌, inl, inr, if◌then◌else◌, lt→ltb, u16, Bool-cases, ==_ne, get_or-set_self, length-set,
}
use ch582_water_jinru.Storage.{
  Eeprom, St, Page, zero_page, ◌>>◌, page_of, with_page, page_max, page_content_max, Item,
  header_bytes, header_of, header_size, item_size, item_idx_valid,
}
use ch582_water_jinru.Storage.Flash.{IsFlash, span}
use ch582_water_jinru.Storage.Items.{st_item_verify}
use ch582_water_jinru.Storage.Scan.{scan_item, scan_loop}
use ch582_water_jinru.Storage.Log.{header_of-header_bytes}
use ch582_water_jinru.Storage.Log.Find.{content_at, st_page_read_lem}

-- The check sum is right, or the item is marked as deleted.
abbrev pub IsIntact : Item → Type 0
IsIntact item = (item_idx_valid item.header.idx ≡ false) ⊎ (st_item_verify item ≡ true)

abbrev pub AllIntact : List Item → Type 0
AllIntact [] = Unit {0}
AllIntact (item ∷ items) = (item.header.len < 255) × IsIntact item × AllIntact items

-- The items that are not marked as deleted.
abbrev pub live : List Item → ℕ
live [] = 0
live (item ∷ items) = if item_idx_valid item.header.idx then suc (live items) else live items

intact_ok :
    (item : Item)
    → item_idx_valid item.header.idx ≡ true
    → IsIntact item
    → st_item_verify item ≡ true
intact_ok item v (inl dead) = absurd (ground arith)
intact_ok item v (inr ok) = ok

pub live_cons :
    (item : Item) (items : List Item)
    → live (item ∷ items) ≡ (if item_idx_valid item.header.idx then 1 else 0) + live items
live_cons item items = elim (Bool-cases (item_idx_valid item.header.idx)) [
  | inl e ↦ rw e (omega arith)
  | inr e ↦ rw e (omega arith)
]

pub live_le : (items : List Item) → live items ≤ length items
live_le [] = omega arith
live_le (item ∷ items) = elim (Bool-cases (item_idx_valid item.header.idx)) [
  | inl e ↦ rw e (omega (arith, live_le items))
  | inr e ↦ rw e (omega (arith, live_le items))
]

module _ (E : Eeprom) (F : IsFlash E) where
  -- The page after `n` bytes with `k` live items were read; the flash is as it was.
  pub record Scanned (idx n k : ℕ) (s t : St E) : Type 0 where
    pub dev : t.dev ≡ s.dev
    pub loaded : length t.pages ≡ length s.pages
    pub used : (page_of t idx).bytes_used ≡ (page_of s idx).bytes_used + n
    pub count : (page_of t idx).item_cnt ≡ (page_of s idx).item_cnt + k
    pub status : (page_of t idx).status ≡ (page_of s idx).status

  scan_dead :
      (idx : ℕ) (item : Item) (s : St E)
      → idx < length s.pages
      → (page_of s idx).bytes_used + item_size item.header ≤ 254
      → item_idx_valid item.header.idx ≡ false
      → (t : St E) × (scan_item E idx item.header s ≡ (some tt, t))
        × Scanned idx (item_size item.header) 0 s t
  unfolding scan_item
  scan_dead idx item s hl hn hv =
      let p = record (page_of s idx) {
        bytes_used = u16 ((page_of s idx).bytes_used + item_size item.header);
      } in
      let e : page_of (with_page s idx p) idx ≡ p = get_or-set_self s.pages idx p zero_page hl in
      (
        with_page s idx p,
        rw hv,
        record {
          dev = refl;
          loaded = length-set s.pages idx p;
          used = ap (λ (q : Page). q.bytes_used) e ∙ omega (arith, hn);
          count = ap (λ (q : Page). q.item_cnt) e ∙ omega arith;
          status = ap (λ (q : Page). q.status) e;
        },
      )

  scan_live :
      (idx : ℕ) (item : Item) (s : St E)
      → idx < page_max
      → idx < length s.pages
      → (page_of s idx).bytes_used + item_size item.header ≤ 254
      → (page_of s idx).item_cnt < 65535
      → span
          (F.byte s.dev)
          (content_at idx (page_of s idx).bytes_used + header_size)
          item.header.len
        ≡ item.content
      → item_idx_valid item.header.idx ≡ true
      → st_item_verify item ≡ true
      → (t : St E) × (scan_item E idx item.header s ≡ (some tt, t))
        × Scanned idx (item_size item.header) 1 s t
  unfolding scan_item
  scan_live idx item s hi hl hn hc st hv ok =
      let old = page_of s idx in
      let p = record old {
        bytes_available = u16 (old.bytes_available + item_size item.header);
        item_cnt = u16 (old.item_cnt + 1);
      } in
      let s₁ = with_page s idx p in
      let q = record (page_of s₁ idx) {
        bytes_used = u16 ((page_of s₁ idx).bytes_used + item_size item.header);
      } in
      let e₁ : page_of s₁ idx ≡ p = get_or-set_self s.pages idx p zero_page hl in
      let e : page_of (with_page s₁ idx q) idx ≡ q =
        get_or-set_self s₁.pages idx q zero_page (omega (arith, hl, length-set s.pages idx p)) in
      let wrap : u16 (old.bytes_used + header_size) ≡ old.bytes_used + header_size = omega arith in
      let at : content_at idx (old.bytes_used + header_size)
          ≡ content_at idx old.bytes_used + header_size =
        omega arith in
      let content =
        st_page_read_lem E F idx (old.bytes_used + header_size) item.header.len s item.content hi
          (omega arith) (ap (λ x. span (F.byte s.dev) x item.header.len) at ∙ st) in
      (
        with_page s₁ idx q,
        rw (hv, wrap, content, ok),
        record {
          dev = refl;
          loaded = length-set s₁.pages idx q ∙ length-set s.pages idx p;
          used =
              ap (λ (x : Page). x.bytes_used) e
              ∙ ap (λ (x : Page). u16 (x.bytes_used + item_size item.header)) e₁
              ∙ omega (arith, hn);
          count =
              ap (λ (x : Page). x.item_cnt) e
              ∙ ap (λ (x : Page). x.item_cnt) e₁
              ∙ omega (arith, hc);
          status = ap (λ (x : Page). x.status) e ∙ ap (λ (x : Page). x.status) e₁;
        },
      )

  -- What scanning an item comes to, if it is live or not.
  abbrev pub OneScanned : ℕ → Item → St E → Bool → Type 0
  OneScanned idx item s b =
      (t : St E) × (scan_item E idx item.header s ≡ (some tt, t))
      × Scanned idx (item_size item.header) (if b then 1 else 0) s t

  pub scan_one :
      (idx : ℕ) (item : Item) (s : St E)
      → idx < page_max
      → idx < length s.pages
      → (page_of s idx).bytes_used + item_size item.header ≤ 254
      → (page_of s idx).item_cnt < 65535
      → span
          (F.byte s.dev)
          (content_at idx (page_of s idx).bytes_used + header_size)
          item.header.len
        ≡ item.content
      → IsIntact item
      → OneScanned idx item s (item_idx_valid item.header.idx)
  scan_one idx item s hi hl hn hc st intact = elim (Bool-cases (item_idx_valid item.header.idx)) [
    | inl v ↦
        subst (OneScanned idx item s) (sym v)
          (scan_live idx item s hi hl hn hc st v (intact_ok item v intact))
    | inr dead ↦ subst (OneScanned idx item s) (sym dead) (scan_dead idx item s hl hn dead)
  ]

  pub Scanned-trans :
      (idx n k m j : ℕ) (s t u : St E)
      → Scanned idx n k s t
      → Scanned idx m j t u
      → Scanned idx (n + m) (k + j) s u
  Scanned-trans idx n k m j s t u a b = record {
    dev = b.dev ∙ a.dev;
    loaded = b.loaded ∙ a.loaded;
    used = omega (arith, a.used, b.used);
    count = omega (arith, a.count, b.count);
    status = b.status ∙ a.status;
  }

  pub scan_end :
      (f idx : ℕ) (s : St E)
      → idx < page_max
      → (page_of s idx).bytes_used ≤ 250
      → F.byte s.dev (content_at idx (page_of s idx).bytes_used) ≡ 0xff
      → scan_loop E (suc f) idx s ≡ (some tt, s)
  unfolding scan_loop header_of
  scan_end f idx s hi hn blank = rw (
    lt→ltb (page_of s idx).bytes_used page_content_max (omega arith),
    st_page_read_lem E F idx (page_of s idx).bytes_used header_size s _ hi (omega arith) refl,
    blank,
  )

  pub scan_next :
      (f idx : ℕ) (item : Item) (s : St E)
      → idx < page_max
      → (page_of s idx).bytes_used ≤ 250
      → item.header.len < 255
      → span (F.byte s.dev) (content_at idx (page_of s idx).bytes_used) header_size
        ≡ header_bytes item.header
      → scan_loop E (suc f) idx s ≡ (scan_item E idx item.header >> scan_loop E f idx) s
  unfolding scan_loop
  scan_next f idx item s hi hn hlen st = rw (
    lt→ltb (page_of s idx).bytes_used page_content_max (omega arith),
    st_page_read_lem E F idx (page_of s idx).bytes_used header_size s (header_bytes item.header) hi
        (omega arith) st,
    header_of-header_bytes item.header,
    ==_ne item.header.len 0xff (omega arith),
  )
