-- ===== src/Storage/Log/Reload.antt =====
-- Loading a page at start (`st_page_scan` of src/storage.c), against the log on the page.
use mathlib.Core.Path.{subst}
use ch582_water_jinru.Common.{
  ℕ, zero, suc, ◌+◌, ◌*◌, ◌≤◌, ◌<◌, ◌≡◌, refl, sym, ap, ◌∙◌, Bool, true, false, ◌&&◌, Option, some,
  none, List, [], ◌∷◌, length, arith, ◌⊎◌, inl, inr, leb, ◌==◌, if◌then◌else◌, lt→ltb, le→ltb,
  lt→leb, get_or-set_self, length-set,
}
use ch582_water_jinru.Storage.{
  Eeprom, St, Page, M, attempt, get, pure, bind_of, ◌>>=◌, ◌>>◌, page_of, with_page, page_max,
  page_size, page_header_size, page_content_max, Item, header_size, item_idx_valid, active, full,
}
use ch582_water_jinru.Storage.Flash.{IsFlash}
use ch582_water_jinru.Storage.Pages.{st_page_status_update, st_page_read}
use ch582_water_jinru.Storage.Items.{page_fuel, update_page, erase_if_empty}
use ch582_water_jinru.Storage.Scan.{scan_item, scan_loop, st_page_scan}
use ch582_water_jinru.Storage.Log.{log_size, Stored, Stored-at}
use ch582_water_jinru.Storage.Log.Find.{content_at}
use ch582_water_jinru.Storage.Log.Write.{then_step}
use ch582_water_jinru.Storage.Log.ScanItem.{
  AllIntact, live, live_cons, Scanned, Scanned-trans, scan_one, scan_end, scan_next,
}

length-log_size : (items : List Item) → 4 * length items ≤ log_size items
length-log_size [] = omega arith
length-log_size (item ∷ items) = omega (arith, length-log_size items)

one_at_most : (b : Bool) → (if b then 1 else 0) ≤ 1
one_at_most true = omega arith
one_at_most false = omega arith

not_emptied :
    (cnt status old k : ℕ)
    → cnt ≡ k
    → status ≡ old
    → (old ≡ active) ⊎ (0 < k)
    → (cnt == 0 && status == full) ≡ false
not_emptied cnt status old k p q (inl h) = ground arith
not_emptied cnt status old k p q (inr h) = ground arith

module _ (E : Eeprom) (F : IsFlash E) where
  Stored-in :
      (d d' : E.Dev) (a b : ℕ) (items : List Item)
      → d' ≡ d
      → a ≡ b
      → Stored (F.byte d) a items
      → Stored (F.byte d') b items
  Stored-in d d' a b items e p st =
      subst (λ x. Stored (F.byte x) b items) (sym e) (Stored-at (F.byte d) a b items p st)

  scan_log :
      (f idx : ℕ) (items : List Item) (s : St E)
      → idx < page_max
      → idx < length s.pages
      → length items < f
      → (page_of s idx).bytes_used + log_size items ≤ 254
      → (page_of s idx).item_cnt + length items < 65536
      → Stored (F.byte s.dev) (content_at idx (page_of s idx).bytes_used) items
      → AllIntact items
      → (t : St E) × (g : ℕ) × (scan_loop E f idx s ≡ scan_loop E (suc g) idx t)
        × Scanned E F idx (log_size items) (live items) s t
  scan_log zero idx items s hi hl hf hn hc st intact = absurd (omega arith)
  scan_log (suc f) idx [] s hi hl hf hn hc st intact = (
    s,
    f,
    refl,
    record { dev = refl; loaded = refl; used = omega arith; count = omega arith; status = refl },
  )
  scan_log (suc f) idx (item ∷ items) s hi hl hf hn hc (a, b, c) (small, intact, rest) =
      let (t, e, one) = scan_one E F idx item s hi hl (omega arith) (omega arith) b intact in
      let (u, g, e', more) =
        scan_log f idx items t hi (omega (arith, one.loaded)) (omega arith)
          (omega (arith, one.used))
          (omega (arith, one.count, one_at_most (item_idx_valid item.header.idx)))
          (Stored-in s.dev t.dev _ (content_at idx (page_of t idx).bytes_used) items one.dev
            (omega (arith, one.used)) c)
          rest in
      (
        u,
        g,
        scan_next E F f idx item s hi (omega arith) small a
            ∙ then_step (scan_item E idx item.header) (scan_loop E f idx) e
            ∙ e',
        subst (λ k. Scanned E F idx (log_size (item ∷ items)) k s u) (sym (live_cons item items))
            (Scanned-trans E F idx _ _ _ _ s t u one more),
      )

  -- What loading a page comes to: the page's fields are those of the log, and the flash is as it was.
  pub record Reloaded (s : St E) (idx : ℕ) (items : List Item) (r : Option (Unit {0}) × St E)
      : Type 0 where
    pub succeeds : r.0 ≡ some tt
    pub dev : r.1.dev ≡ s.dev
    pub used : (page_of r.1 idx).bytes_used ≡ log_size items
    pub count : (page_of r.1 idx).item_cnt ≡ live items
    pub status : (page_of r.1 idx).status ≡ (page_of s idx).status

  abbrev reset : ℕ → St E → St E
  reset idx s = with_page s idx (record (page_of s idx) { bytes_used = 0; item_cnt = 0 })

  -- What `st_page_scan` does after its loop.
  abbrev finish : ℕ → M E (Unit {0})
  finish idx = do
    s ← get
    if leb page_content_max (page_of s idx).bytes_used
        then (do attempt (st_page_status_update E idx full); pure tt)
        else pure tt
    erase_if_empty E idx

  scan_run :
      (idx : ℕ) (s t : St E)
      → scan_loop E page_fuel idx (reset idx s) ≡ (some tt, t)
      → (page_of t idx).bytes_used < page_content_max
      → ((page_of t idx).item_cnt == 0 && (page_of t idx).status == full) ≡ false
      → st_page_scan E idx s ≡ (some tt, t)
  unfolding st_page_scan
  scan_run idx s t e hu hs =
      then_step (update_page E idx (λ p. record p { bytes_used = 0; item_cnt = 0 }))
        (scan_loop E page_fuel idx >> finish idx) {t = reset idx s} refl
      ∙ then_step (scan_loop E page_fuel idx) (finish idx) {s = reset idx s} e
      ∙ rw (lt→leb page_content_max (page_of t idx).bytes_used hu, hs)

-- After the items of the log, the loop stands at its end with the log's size and live items.
scan_fresh :
    (E : Eeprom) (F : IsFlash E) (s : St E) (idx : ℕ) (items : List Item)
    → idx < page_max
    → length s.pages ≡ page_max
    → log_size items ≤ 254
    → Stored (F.byte s.dev) (content_at idx 0) items
    → AllIntact items
    → (t : St E) × (g : ℕ) × (scan_loop E page_fuel idx (reset E F idx s)
        ≡ scan_loop E (suc g) idx t)
      × Reloaded E F s idx items (some tt, t)
scan_fresh E F s idx items hi hl hn st intact =
    let fresh : page_of (reset E F idx s) idx
        ≡ record (page_of s idx) { bytes_used = 0; item_cnt = 0 } =
      get_or-set_self s.pages idx _ _ (omega (arith, hi, hl)) in
    let used : (page_of (reset E F idx s) idx).bytes_used ≡ 0 =
      ap (λ (p : Page). p.bytes_used) fresh in
    let count : (page_of (reset E F idx s) idx).item_cnt ≡ 0 =
      ap (λ (p : Page). p.item_cnt) fresh in
    let few = length-log_size items in
    let (t, g, e, r) =
      scan_log E F page_fuel idx items (reset E F idx s) hi
        (omega (
          arith,
          length-set s.pages idx (record (page_of s idx) { bytes_used = 0; item_cnt = 0 }),
          hl,
        ))
        (omega (arith, few, hn)) (omega (arith, used, hn)) (omega (arith, few, count, hn))
        (Stored-at (F.byte s.dev) _ _ items (omega (arith, used)) st) intact in
    (
      t,
      g,
      e,
      record {
        succeeds = refl;
        dev = r.dev;
        used = omega (arith, r.used, used);
        count = omega (arith, r.count, count);
        status = r.status ∙ ap (λ (p : Page). p.status) fresh;
      },
    )

-- A page that is active, or full with a live item, whose flash holds a log of at most 250 bytes in
-- which every item has the right check sum or is marked as deleted, followed by an erased byte:
-- whatever its fields in memory were, `st_page_scan` succeeds, gives the page the size of the log
-- and the number of its live items, and leaves the status and the flash as they were.
pub st_page_scan_lem :
    (E : Eeprom) (F : IsFlash E) (s : St E) (idx : ℕ) (items : List Item)
    → idx < page_max
    → length s.pages ≡ page_max
    → ((page_of s idx).status ≡ active) ⊎ (0 < live items)
    → log_size items ≤ 250
    → Stored (F.byte s.dev) (content_at idx 0) items
    → F.byte s.dev (content_at idx (log_size items)) ≡ 0xff
    → AllIntact items
    → Reloaded E F s idx items (st_page_scan E idx s)
st_page_scan_lem E F s idx items hi hl hs hn st blank intact =
    let (t, g, e, r) = scan_fresh E F s idx items hi hl (omega arith) st intact in
    let at_end = scan_end E F g idx t hi (omega (arith, r.used, hn)) (
      ap (λ d. F.byte d (content_at idx (page_of t idx).bytes_used)) r.dev
      ∙ ap (λ n. F.byte s.dev (content_at idx n)) {x = (page_of t idx).bytes_used}
          {y = log_size items} r.used
      ∙ blank) in
    let kept =
      not_emptied (page_of t idx).item_cnt (page_of t idx).status (page_of s idx).status
        (live items) r.count r.status hs in
    subst (Reloaded E F s idx items)
      (sym (scan_run E F idx s t (e ∙ at_end) (omega (arith, r.used, hn)) kept)) r

scan_stuck :
    (E : Eeprom) (f idx : ℕ) (s : St E)
    → idx < page_max
    → 250 < (page_of s idx).bytes_used
    → (page_of s idx).bytes_used < page_content_max
    → scan_loop E (suc f) idx s ≡ (none, s)
unfolding scan_loop st_page_read
scan_stuck E f idx s hi hn hu = rw (
  lt→ltb (page_of s idx).bytes_used page_content_max hu,
  lt→ltb idx page_max hi,
  le→ltb ((page_of s idx).bytes_used + header_size + page_header_size) page_size (omega arith),
)

scan_run_stuck :
    (E : Eeprom) (F : IsFlash E) (idx : ℕ) (s t : St E)
    → scan_loop E page_fuel idx (reset E F idx s) ≡ (none, t)
    → (st_page_scan E idx s).0 ≡ none
unfolding st_page_scan
scan_run_stuck E F idx s t e = ap (λ r. (bind_of r (λ _. finish E F idx)).0) e

-- A page whose log takes 251 to 254 bytes, such as one that `st_page_write_item` has made full with
-- 252 to 254 bytes used, cannot be loaded: `st_page_scan` returns -1, since it asks for one more
-- header and the read is refused.
pub full_page_not_loaded :
    (E : Eeprom) (F : IsFlash E) (s : St E) (idx : ℕ) (items : List Item)
    → idx < page_max
    → length s.pages ≡ page_max
    → 250 < log_size items
    → log_size items ≤ 254
    → Stored (F.byte s.dev) (content_at idx 0) items
    → AllIntact items
    → (st_page_scan E idx s).0 ≡ none
full_page_not_loaded E F s idx items hi hl lo hn st intact =
    let (t, g, e, r) = scan_fresh E F s idx items hi hl hn st intact in
    scan_run_stuck E F idx s t
      (e ∙ scan_stuck E g idx t hi (omega (arith, r.used, lo)) (omega (arith, r.used, hn)))
