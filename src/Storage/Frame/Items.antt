-- ===== src/Storage/Frame/Items.antt =====
-- The frame of the functions on items, on searching and on loading (src/storage.c).
use ch582_water_jinru.Common.{ℕ, zero, suc, Option, none, some, refl}
use ch582_water_jinru.Storage.{Eeprom, Page, Header, Item, Location, M, page_of, modify}
use ch582_water_jinru.Storage.Flash.{IsFlash}
use ch582_water_jinru.Storage.Frame.{
  Frame, Frame-refl, Keeps, frame_rules, modify-Keeps, with_page-Keeps, st_page_write-Keeps,
  st_page_read-Keeps, st_page_erase-Keeps, st_page_status_update-Keeps, st_page_erase_check-Keeps,
}
use ch582_water_jinru.Storage.Items.{
  update_page, st_page_write_item, erase_if_empty, mark_deleted, st_delete_item_with_loc,
  delete_loop, st_page_delete_item,
}
use ch582_water_jinru.Storage.Pages.{st_page_last}
use ch582_water_jinru.Storage.Search.{
  find_loop, st_page_find_item, Found, take_page, visit, pages_loop, start_search, st_find_item,
}
use ch582_water_jinru.Storage.Scan.{scan_item, scan_loop, st_page_scan}

module _ (E : Eeprom) (F : IsFlash E) where
  pub update_page-Keeps : (idx : ℕ) (f : Page → Page) → Keeps E F (update_page E idx f)
  update_page-Keeps idx f = with_page-Keeps E F idx (λ s. f (page_of s idx))

  pub ruleset item_rules = (
    frame_rules, update_page-Keeps, st_page_write-Keeps, st_page_read-Keeps, st_page_erase-Keeps,
    st_page_status_update-Keeps,
  )

  pub st_page_write_item-Keeps : (idx : ℕ) (item : Item) → Keeps E F (st_page_write_item E idx item)
  unfolding st_page_write_item
  st_page_write_item-Keeps idx item = search item_rules depth 14

  pub erase_if_empty-Keeps : (idx : ℕ) → Keeps E F (erase_if_empty E idx)
  erase_if_empty-Keeps idx = search item_rules depth 6

  pub st_delete_item_with_loc-Keeps :
      (item_idx : ℕ) (loc : Location) → Keeps E F (st_delete_item_with_loc E item_idx loc)
  unfolding st_delete_item_with_loc mark_deleted
  st_delete_item_with_loc-Keeps item_idx loc = search item_rules depth 14

  pub match-Keeps :
      {A : Type 0} (o : Option ℕ) {m : M E A} {k : ℕ → M E A}
      → Keeps E F m
      → ((j : ℕ) → Keeps E F (k j))
      → Keeps E F (elim o [ none ↦ m | some j ↦ k j ])
  match-Keeps none h k = h
  match-Keeps (some j) h k = k j

  located-Keeps :
      (loc : Location) (h : Header)
      → Keeps E F (modify (λ t. record t { last_location = loc; last_header = h }))
  located-Keeps loc h =
      modify-Keeps E F _ (λ s. record { start = refl; count = refl; outside = λ x hx. refl })

  start_search-Keeps : (item_idx : ℕ) → Keeps E F (modify (start_search E item_idx))
  start_search-Keeps item_idx =
      modify-Keeps E F (start_search E item_idx)
        (λ s. record { start = refl; count = refl; outside = λ x hx. refl })

  delete_loop-Keeps :
      (f idx item_idx offset cnt : ℕ) → Keeps E F (delete_loop E f idx item_idx offset cnt)
  unfolding delete_loop
  delete_loop-Keeps zero idx item_idx offset cnt = search item_rules
  delete_loop-Keeps (suc f) idx item_idx offset cnt =
      search (item_rules, delete_loop-Keeps f) depth 12

  pub st_page_delete_item-Keeps :
      (idx item_idx : ℕ) → Keeps E F (st_page_delete_item E idx item_idx)
  unfolding st_page_delete_item
  st_page_delete_item-Keeps idx item_idx = search (item_rules, delete_loop-Keeps) depth 12

  find_loop-Keeps :
      (f idx offset cnt : ℕ) (result : Option Item)
      → Keeps E F (find_loop E f idx offset cnt result)
  unfolding find_loop
  find_loop-Keeps zero idx offset cnt result = search item_rules
  find_loop-Keeps (suc f) idx offset cnt result =
      search (item_rules, find_loop-Keeps f, st_delete_item_with_loc-Keeps, located-Keeps) depth 16

  pub st_page_find_item-Keeps : (idx : ℕ) → Keeps E F (st_page_find_item E idx)
  unfolding st_page_find_item
  st_page_find_item-Keeps idx = search (item_rules, find_loop-Keeps) depth 10

  take_page-Keeps :
      (item_idx : ℕ) (found : Found) (r : ℕ × Option Item)
      → Keeps E F (take_page E item_idx found r)
  unfolding take_page
  take_page-Keeps item_idx found (n, item) =
      search (item_rules, st_delete_item_with_loc-Keeps) depth 8

  visit-Keeps : (item_idx : ℕ) (found : Found) (i : ℕ) → Keeps E F (visit E item_idx found i)
  visit-Keeps item_idx found i =
      search (item_rules, take_page-Keeps, st_page_find_item-Keeps) depth 8

  pages_loop-Keeps :
      (f item_idx start i : ℕ) (found : Found) → Keeps E F (pages_loop E f item_idx start i found)
  unfolding pages_loop
  pages_loop-Keeps zero item_idx start i found = search item_rules
  pages_loop-Keeps (suc f) item_idx start i found =
      search (item_rules, visit-Keeps, match-Keeps (st_page_last i), pages_loop-Keeps f) depth 8

  pub st_find_item-Keeps : (item_idx : ℕ) → Keeps E F (st_find_item E item_idx)
  unfolding st_find_item
  st_find_item-Keeps item_idx = search (item_rules, start_search-Keeps, pages_loop-Keeps) depth 8

  scan_item-Keeps : (idx : ℕ) (h : Header) → Keeps E F (scan_item E idx h)
  unfolding scan_item
  scan_item-Keeps idx h = search item_rules depth 12

  scan_loop-Keeps : (f idx : ℕ) → Keeps E F (scan_loop E f idx)
  unfolding scan_loop
  scan_loop-Keeps zero idx = search item_rules
  scan_loop-Keeps (suc f) idx = search (item_rules, scan_item-Keeps, scan_loop-Keeps f) depth 10

  pub st_page_scan-Keeps : (idx : ℕ) → Keeps E F (st_page_scan E idx)
  unfolding st_page_scan
  st_page_scan-Keeps idx = search (item_rules, scan_loop-Keeps, erase_if_empty-Keeps) depth 10
