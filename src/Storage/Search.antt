-- ===== src/Storage/Search.antt =====
-- Looking an item up, in src/storage.c. The search deletes as it goes: of an item that it meets
-- twice, it deletes the record it met before.
use ch582_water_jinru.Common.{
  ℕ, zero, suc, ◌+◌, not, ◌||◌, Option, none, some, ltb, ◌==◌, if◌then◌else◌, u16,
}
use ch582_water_jinru.Storage.{
  Eeprom, St, Item, Location, header_bytes, header_of, item_size, M, ◌>>=◌, ◌>>◌, pure, fail, guard,
  get, modify, attempt, page_of, page_max, header_size, page_valid, item_idx_valid, erased, active,
  full, unavailable,
}
use ch582_water_jinru.Storage.Pages.{st_page_write, st_page_read, st_page_last}
use ch582_water_jinru.Storage.Items.{st_item_verify, erased_idx, st_delete_item_with_loc, page_fuel}

-- What `st_find_item` has found: the count, `*result` and `*location`.
pub record Found : Type 0 where
  pub cnt : ℕ
  pub result : Option Item
  pub location : Option Location

module _ (E : Eeprom) where
  -- "delete last record if exist"
  abbrev pub delete_last : M E (Unit {0})
  delete_last = do
    s ← get
    if page_valid s.last_location.page
        then st_delete_item_with_loc E s.item_idx s.last_location
        else pure tt

  -- The loop of `st_page_find_item`: the count so far, and what is in `*result`.
  unfoldable pub find_loop : ℕ → ℕ → ℕ → ℕ → Option Item → M E (ℕ × Option Item)
  find_loop zero idx offset cnt result = fail
  find_loop (suc f) idx offset cnt result = do
    s ← get
    if ltb offset (page_of s idx).bytes_used
        then (do
          bs ← st_page_read E idx offset header_size
          let h = header_of bs
          let next = u16 (offset + item_size h)
          if h.idx == 0 || not (h.idx == s.item_idx) then find_loop f idx next cnt result else (do
            content ← st_page_read E idx (u16 (offset + header_size)) h.len
            let item : Item = record { header = h; content = content }
            if st_item_verify item
                then (do
                  delete_last
                  modify (λ t. record t {
                    last_location = record { page = idx; offset = offset };
                    last_header = h;
                  })
                  find_loop f idx next (cnt + 1) (some item))
                else (do
                  attempt (st_page_write E idx offset (header_bytes (erased_idx h)))
                  find_loop f idx next cnt result)))
        else pure (cnt, result)

  -- The result is the last match on the page.
  unfoldable pub st_page_find_item : ℕ → M E (ℕ × Option Item)
  unfolding find_loop
  st_page_find_item idx = do
    guard (page_valid idx)
    s ← get
    guard (item_idx_valid s.item_idx)
    if (page_of s idx).status == erased || (page_of s idx).status == unavailable
        then pure (0, none)
        else find_loop page_fuel idx 0 0 none

  -- After a page with `n` matches: the result is kept from the first page that had one; the
  -- location is taken while the count is 1; from the second match on, the record met last is
  -- deleted too.
  unfoldable pub take_page : ℕ → Found → ℕ × Option Item → M E Found
  take_page item_idx found (n, item) = do
    s ← get
    let cnt = found.cnt + n
    let result = if found.cnt == 0 then item else found.result
    let location = if cnt == 1 then some s.last_location else found.location
    if ltb 1 cnt then st_delete_item_with_loc E item_idx s.last_location else pure tt
    pure (record { cnt = cnt; result = result; location = location })

  -- The body of the `do … while` for page `i`.
  abbrev pub visit : ℕ → Found → ℕ → M E Found
  visit item_idx found i = do
    s ← get
    if (page_of s i).status == full || (page_of s i).status == active
        then (do r ← st_page_find_item i; take_page item_idx found r)
        else pure found

  -- Four rounds go through all pages, backwards from the first.
  unfoldable pub pages_loop : ℕ → ℕ → ℕ → ℕ → Found → M E Found
  pages_loop zero item_idx start i found = fail
  pages_loop (suc f) item_idx start i found = do
    found' ← visit item_idx found i
    elim (st_page_last i) [
      | none ↦ fail
      | some j ↦ if j == start then pure found' else pages_loop f item_idx start j found'
    ]

  abbrev pub start_search : ℕ → St E → St E
  start_search item_idx s = record s {
    item_idx = item_idx;
    last_location = record s.last_location { page = page_max };
  }

  unfoldable pub st_find_item : ℕ → M E Found
  unfolding take_page st_page_last pages_loop
  st_find_item item_idx = do
    guard (item_idx_valid item_idx)
    s ← get
    let start = if page_valid s.page_active then s.page_active else 0
    modify (start_search item_idx)
    pages_loop page_max item_idx start start (record { cnt = 0; result = none; location = none })
