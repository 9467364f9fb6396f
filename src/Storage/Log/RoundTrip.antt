-- ===== src/Storage/Log/RoundTrip.antt =====
-- What is appended to a page is found on it, and a page with no room refuses an item (src/storage.c).
use mathlib.Core.Path.{subst}
use ch582_water_jinru.Common.{
  ℕ, ◌+◌, ◌-◌, ◌%◌, ◌≤◌, ◌<◌, ◌≡◌, refl, sym, ap, ◌∙◌, true, some, none, List, [], ◌++◌, length,
  arith, ◌⊎◌, inl, inr, ltb, ◌==◌, lt→ltb, le→ltb, Bool-cases, length-append, ◌^◌,
}
use ch582_water_jinru.Storage.{
  Eeprom, St, M, guard, bind_of, ◌>>◌, page_of, page_valid, page_max, page_size, page_header_size,
  page_content_max, Item, header_bytes, header_size, item_size, item_idx_valid, active, full,
  erased,
}
use ch582_water_jinru.Storage.Flash.{IsFlash}
use ch582_water_jinru.Storage.Pages.{st_page_write, st_page_get_freesize}
use ch582_water_jinru.Storage.Items.{accepts, status_after, st_item_verify, st_page_write_item}
use ch582_water_jinru.Storage.Search.{start_search, st_page_find_item}
use ch582_water_jinru.Storage.Log.{IsItem, log_size}
use ch582_water_jinru.Storage.Log.Find.{HasLog, NoneOf, noted, st_page_find_item_lem}
use ch582_water_jinru.Storage.Log.Write.{Works, then_step}
use ch582_water_jinru.Storage.Log.Append.{IsBlank, st_page_write_item_lem}

-- The state does not matter but for its pages and its flash.
searching :
    {E : Eeprom} {F : IsFlash E} {s : St E} {idx : ℕ} {items : List Item} (target : ℕ)
    → HasLog E F s idx items
    → HasLog E F (start_search E target s) idx items
searching target l = record {
  on_page = l.on_page;
  loaded = l.loaded;
  used = l.used;
  fits = l.fits;
  stored = l.stored;
}

status_after_lem :
    (status used : ℕ)
    → accepts status ≡ true
    → (status_after status used ≡ active) ⊎ (status_after status used ≡ full)
status_after_lem status used h =
    elim (Bool-cases (ltb ((2 ^ 32 + page_content_max - used) % 2 ^ 32) header_size)) [
      | inl e ↦ inr (rw e)
      | inr e ↦ elim (Bool-cases (status == erased)) [
        | inl e' ↦ inl (rw (e, e'))
        | inr e' ↦ inl (rw (e, e') (ground arith))
      ]
    ]

-- After an item has been appended to a page as in the theorem on `st_page_write_item`, a new search
-- for its index on that page returns 1 and the item, at the offset where the log ended, if no
-- earlier item of the log has the same index and the item's check sum is right.
pub find_after_write :
    (E : Eeprom) (F : IsFlash E) (W : Works E) (s : St E) (idx : ℕ) (items : List Item)
    (item : Item)
    → HasLog E F s idx items
    → IsBlank (F.byte s.dev) idx (page_of s idx).bytes_used
    → IsItem item
    → item_idx_valid item.header.idx ≡ true
    → accepts (page_of s idx).status ≡ true
    → (page_of s idx).bytes_used + item_size item.header ≤ 254
    → NoneOf E F item.header.idx items
    → st_item_verify item ≡ true
    → let t = start_search E item.header.idx (st_page_write_item E idx item s).1 in
      st_page_find_item E idx t
      ≡ (some (1, some item), noted E F idx (log_size items) item.header t)
find_after_write E F W s idx items item l blank v hv ha hn none_before ok =
    let r = st_page_write_item E idx item s in
    let appended = st_page_write_item_lem E F W s idx items item l blank v hv ha hn in
    let status : (((page_of r.1 idx).status ≡ active) ⊎ ((page_of r.1 idx).status ≡ full)) =
      subst (λ x. (x ≡ active) ⊎ (x ≡ full)) (sym appended.status)
        (status_after_lem (page_of s idx).status
          ((page_of s idx).bytes_used + item_size item.header) ha) in
    st_page_find_item_lem E F (start_search E item.header.idx r.1) idx items [] item
      (searching item.header.idx appended.log) status hv refl none_before tt ok refl

then_fail :
    {E : Eeprom} {A B : Type 0} (m : M E A) (k : M E B) {s : St E}
    → m s ≡ (none, s)
    → (m >> k) s ≡ (none, s)
then_fail m k e = ap (λ r. bind_of r (λ _. k)) e

st_page_write_refused :
    (E : Eeprom) (idx offset : ℕ) (buf : List ℕ) (s : St E)
    → idx < page_max
    → 255 ≤ offset + length buf
    → st_page_write E idx offset buf s ≡ (none, s)
unfolding st_page_write
st_page_write_refused E idx offset buf s hi hn = rw (
  lt→ltb idx page_max hi,
  le→ltb (offset + length buf + page_header_size) page_size (omega arith),
)

-- An active page whose free size is exactly that of an item: `st_page_get_freesize` reports this
-- size, and yet `st_page_write_item` returns -1 and changes nothing.
pub exact_fit_refused :
    (E : Eeprom) (s : St E) (idx : ℕ) (item : Item)
    → idx < page_max
    → IsItem item
    → item_idx_valid item.header.idx ≡ true
    → (page_of s idx).status ≡ active
    → (page_of s idx).bytes_used + item_size item.header ≡ page_content_max
    → (st_page_get_freesize E s idx ≡ some (item_size item.header))
      × (st_page_write_item E idx item s ≡ (none, s))
unfolding st_page_get_freesize st_page_write_item header_bytes
exact_fit_refused E s idx item hi v hv hs hn =
    let size : (2 ^ 32 + page_content_max - (page_of s idx).bytes_used) % 2 ^ 32
        ≡ item_size item.header =
      omega (arith, hn) in
    let bytes = header_bytes item.header ++ item.content in
    let refused =
      st_page_write_refused E idx (page_of s idx).bytes_used bytes s hi
        (omega (arith, length-append (header_bytes item.header) item.content, v.sized, hn)) in
    (
      rw (lt→ltb idx page_max hi, hs, size),
      then_step (guard (page_valid idx)) _ (ap (λ b. guard b s) (lt→ltb idx page_max hi))
          ∙ then_step (guard (item_idx_valid item.header.idx)) _ (ap (λ b. guard b s) hv)
          ∙ then_step (guard (accepts (page_of s idx).status)) _ (ap (λ x. guard (accepts x) s) hs)
          ∙ then_fail (st_page_write E idx (page_of s idx).bytes_used bytes) _ refused,
    )
