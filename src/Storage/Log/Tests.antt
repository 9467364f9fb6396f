-- ===== src/Storage/Log/Tests.antt =====
-- The theorems on the log of a page at a page with one item.
use ch582_water_jinru.Common.{
  ℕ, zero, suc, ◌<◌, ◌≡◌, refl, inl, inr, some, none, [], ◌∷◌, get_or, get_or_beyond, replicate,
  arith,
}
use ch582_water_jinru.Crc.{crc_check}
use ch582_water_jinru.Storage.{St, Page, zero_page, Item, header_bytes, erased, active, page_max}
use ch582_water_jinru.Storage.Flash.{memory, memory-IsFlash, zero_state}
use ch582_water_jinru.Storage.Pages.{st_page_get_freesize}
use ch582_water_jinru.Storage.Items.{st_item_verify, st_page_write_item}
use ch582_water_jinru.Storage.Search.{start_search, st_page_find_item}
use ch582_water_jinru.Storage.Scan.{st_page_scan}
use ch582_water_jinru.Storage.Log.Reload.{Reloaded, st_page_scan_lem, full_page_not_loaded}
use ch582_water_jinru.Storage.Log.{IsItem}
use ch582_water_jinru.Storage.Log.Find.{HasLog, noted, st_page_find_item_lem}
use ch582_water_jinru.Storage.Log.Write.{Works}
use ch582_water_jinru.Storage.Log.Append.{Appended, IsBlank, st_page_write_item_lem}
use ch582_water_jinru.Storage.Log.RoundTrip.{find_after_write, exact_fit_refused}

memory-Works : Works memory
memory-Works = record { write_ok = λ addr bs d h. refl }

abbrev address_item : Item
address_item = record { header = record { len = 1; crc = 252; idx = 1 }; content = 20 ∷ [] }

abbrev other_item : Item
other_item = record { header = record { len = 1; crc = 162; idx = 2 }; content = 21 ∷ [] }

-- A page that is active and holds the item for the address.
abbrev one_byte : ℕ → ℕ
one_byte x = get_or (0xfe ∷ 1 ∷ 252 ∷ 1 ∷ 0 ∷ 20 ∷ []) x 0xff

abbrev page_with : ℕ → Page
page_with used = record { status = active; item_cnt = 1; bytes_used = used; bytes_available = used }

abbrev erased_page : Page
erased_page = record zero_page { status = erased }

abbrev one_item : St memory
one_item = record (zero_state memory one_byte) {
  item_idx = 1;
  last_location = record { page = page_max; offset = 0 };
  pages = page_with 5 ∷ erased_page ∷ erased_page ∷ erased_page ∷ [];
}

abbrev nearly_full : St memory
nearly_full = record one_item {
  pages = page_with 250 ∷ erased_page ∷ erased_page ∷ erased_page ∷ [];
}

one_item-HasLog : HasLog memory memory-IsFlash one_item 0 (address_item ∷ [])
unfolding header_bytes memory-IsFlash
one_item-HasLog = record {
  on_page = omega arith;
  loaded = refl;
  used = refl;
  fits = omega arith;
  stored = (refl, refl, tt);
}

rest-IsBlank : IsBlank (memory-IsFlash.byte one_item.dev) 0 5
unfolding memory-IsFlash
rest-IsBlank x p q = get_or_beyond (0xfe ∷ 1 ∷ 252 ∷ 1 ∷ 0 ∷ 20 ∷ []) x 0xff (omega arith)

other_item-IsItem : IsItem other_item
other_item-IsItem = record {
  sized = refl;
  len_byte = omega arith;
  crc_byte = omega arith;
  idx_word = omega arith;
  content_bytes = small;
}
  where
    small : (i : ℕ) → get_or (21 ∷ []) i 0 < 256
    small zero = omega arith
    small (suc i) = omega arith

st_page_find_item_lem_example :
    st_page_find_item memory 0 one_item
    ≡ (some (1, some address_item), noted memory memory-IsFlash 0 0 address_item.header one_item)
unfolding st_item_verify crc_check
st_page_find_item_lem_example =
    st_page_find_item_lem memory memory-IsFlash one_item 0 [] [] address_item one_item-HasLog
      (inl refl) refl refl tt tt refl refl

st_page_write_item_lem_example :
    Appended memory memory-IsFlash memory-Works one_item 0
      (address_item ∷ [])
      other_item
      (st_page_write_item memory 0 other_item one_item)
st_page_write_item_lem_example =
    st_page_write_item_lem memory memory-IsFlash memory-Works one_item 0 (address_item ∷ [])
      other_item one_item-HasLog rest-IsBlank other_item-IsItem refl refl (omega arith)

find_after_write_example :
    (let t = start_search memory 2 (st_page_write_item memory 0 other_item one_item).1 in
      st_page_find_item memory 0 t
      ≡ (some (1, some other_item), noted memory memory-IsFlash 0 5 other_item.header t))
unfolding st_item_verify crc_check
find_after_write_example =
    find_after_write memory memory-IsFlash memory-Works one_item 0 (address_item ∷ []) other_item
      one_item-HasLog rest-IsBlank other_item-IsItem refl refl (omega arith) (refl, tt) refl

exact_fit_refused_example :
    (st_page_get_freesize memory nearly_full 0 ≡ some 5)
    × (st_page_write_item memory 0 other_item nearly_full ≡ (none, nearly_full))
exact_fit_refused_example =
    exact_fit_refused memory nearly_full 0 other_item (omega arith) other_item-IsItem refl refl refl

st_page_scan_lem_example :
    Reloaded memory memory-IsFlash one_item 0 (address_item ∷ []) (st_page_scan memory 0 one_item)
unfolding st_item_verify crc_check memory-IsFlash header_bytes
st_page_scan_lem_example =
    st_page_scan_lem memory memory-IsFlash one_item 0 (address_item ∷ []) (omega arith) refl
      (inl refl) (omega arith) (refl, refl, tt) refl (omega arith, inr refl, tt)

-- One deleted item of 248 bytes, on a page that is full.
abbrev long_item : Item
long_item = record { header = record { len = 248; crc = 0; idx = 0 }; content = replicate 248 0xff }

abbrev long_log : St memory
long_log = record (zero_state memory (λ x. get_or (0xfc ∷ 248 ∷ 0 ∷ 0 ∷ 0 ∷ []) x 0xff)) {
  pages = page_with 252 ∷ erased_page ∷ erased_page ∷ erased_page ∷ [];
}

full_page_not_loaded_example : (st_page_scan memory 0 long_log).0 ≡ none
unfolding memory-IsFlash header_bytes
full_page_not_loaded_example =
    full_page_not_loaded memory memory-IsFlash long_log 0 (long_item ∷ []) (omega arith) refl
      (omega arith) (omega arith) (refl, refl, tt) (omega arith, inl refl, tt)
