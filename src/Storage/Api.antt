-- ===== src/Storage/Api.antt =====
-- Finding room, moving items off a full page, and the calls that other modules make, in
-- src/storage.c.
use ch582_water_jinru.Common.{
  ℕ, zero, suc, ◌+◌, Bool, false, not, ◌&&◌, ◌||◌, Option, none, some, List, [], ltb, leb, ◌==◌,
  if◌then◌else◌, u16, length, min, take,
}
use ch582_water_jinru.Crc.{crc_check, crc8_maxim}
use ch582_water_jinru.Storage.{
  Eeprom, St, Header, Item, Location, header_bytes, header_of, item_size, M, ◌>>=◌, ◌>>◌, pure,
  fail, guard, get, modify, attempt, page_of, page_max, header_size, max_content_len, page_valid,
  item_idx_valid, erased, active, full, as_unsigned, as_u16,
}
use ch582_water_jinru.Storage.Pages.{
  st_page_write, st_page_read, st_page_erase, st_page_status, st_page_status_update,
  st_page_get_freesize, st_page_next, st_first_page,
}
use ch582_water_jinru.Storage.Items.{
  st_item_verify, erased_idx, count_down, update_page, page_fuel, st_page_write_item,
  st_delete_item_with_loc, st_page_delete_item,
}
use ch582_water_jinru.Storage.Search.{st_find_item}

module _ (E : Eeprom) where
  -- Of the active page, if it has no room for `n` bytes: it becomes full and an erased page active.
  unfoldable pub next_page : ℕ → M E (Unit {0})
  next_page n = do
    s ← get
    if ltb (as_unsigned (st_page_get_freesize E s s.page_active)) n
        then (do
          let new = as_u16 (st_first_page s s.page_active erased)
          guard (page_valid new)
          attempt (st_page_status_update E s.page_active full)
          attempt (st_page_status_update E new active)
          pure tt)
        else pure tt

  -- The loop of `st_page_realign`. A header with check sum 0 or index 0 is passed over.
  unfoldable pub realign_loop : ℕ → ℕ → ℕ → M E (Unit {0})
  unfolding next_page
  realign_loop zero idx offset = fail
  realign_loop (suc f) idx offset = do
    s ← get
    if ltb offset (page_of s idx).bytes_used
        then (do
          bs ← st_page_read E idx offset header_size
          let h = header_of bs
          let next = u16 (offset + item_size h)
          if h.crc == 0 || h.idx == 0 then realign_loop f idx next else (do
            content ← st_page_read E idx (u16 (offset + header_size)) h.len
            let item : Item = record { header = h; content = content }
            if st_item_verify item
                then (do
                  next_page (item_size h)
                  t ← get
                  st_page_write_item E t.page_active item
                  realign_loop f idx next)
                else (do
                  attempt (st_page_write E idx offset (header_bytes (erased_idx h)))
                  update_page E idx (λ p. record p { item_cnt = count_down p.item_cnt })
                  realign_loop f idx next)))
        else pure tt

  unfoldable pub st_page_realign : ℕ → M E (Unit {0})
  unfolding realign_loop
  st_page_realign idx = do realign_loop page_fuel idx 0; st_page_erase E idx

  -- The full page with the fewest items, the first one found of several; `page_max` is none.
  unfoldable pub fewest_loop : ℕ → ℕ → ℕ → ℕ → St E → ℕ
  fewest_loop zero start i best s = best
  fewest_loop (suc f) start i best s =
      let best' =
        if (page_of s i).status == full
        then (if page_valid best
            then (if ltb (page_of s i).item_cnt (page_of s best).item_cnt then i else best)
            else i)
        else best in
      elim (st_page_next i) [
        | none ↦ best'
        | some j ↦ if j == start then best' else fewest_loop f start j best' s
      ]

  unfoldable pub st_realign : M E (Unit {0})
  unfolding fewest_loop st_page_next
  st_realign = do
    s ← get
    let start = if page_valid s.page_active then s.page_active else 0
    let idx = fewest_loop page_max start start page_max s
    if page_valid idx then (do attempt (st_page_realign idx); pure tt) else pure tt

  unfoldable pub has_room : St E → ℕ → ℕ → Bool
  has_room s idx data_len =
      leb (data_len + header_size) (as_unsigned (st_page_get_freesize E s idx))

  -- An erased page, from `from` on, made active.
  unfoldable pub open_page : ℕ → M E ℕ
  open_page from = do
    s ← get
    let idx = as_u16 (st_first_page s from erased)
    guard (page_valid idx)
    st_page_status_update E idx active
    pure idx

  unfoldable pub close_and_open : ℕ → M E ℕ
  unfolding open_page
  close_and_open idx = do st_page_status_update E idx full; open_page idx

  unfoldable pub st_get_available_page : ℕ → M E ℕ
  unfolding has_room close_and_open
  st_get_available_page data_len = do
    guard (leb (data_len + header_size) max_content_len)
    s ← get
    let idx = if page_valid s.page_active then s.page_active else as_u16 (st_first_page s 0 active)
    if page_valid idx
        then (if has_room s idx data_len
            then pure idx
            else if leb s.page_erased 2
            then (do
              st_realign
              t ← get
              if has_room t t.page_active data_len
                  then pure t.page_active
                  else close_and_open t.page_active)
            else close_and_open idx)
        else open_page 0

  unfoldable pub delete_old : ℕ → Option Location → M E (Unit {0})
  delete_old item_idx none = pure tt
  delete_old item_idx (some loc) =
      if page_valid loc.page then st_delete_item_with_loc E item_idx loc else pure tt

  -- `buf` is not NULL; its length is `len`.
  unfoldable pub st_write_item : ℕ → List ℕ → M E (Unit {0})
  unfolding delete_old
  st_write_item item_idx buf = do
    guard (ltb 0 (length buf) && leb (length buf) max_content_len)
    guard (item_idx_valid item_idx)
    found ← st_find_item E item_idx
    let h : Header = record { len = length buf; crc = crc_check crc8_maxim buf; idx = item_idx }
    idx ← st_get_available_page (length buf)
    guard (page_valid idx)
    st_page_write_item E idx (record { header = h; content = buf })
    modify (λ s. if (page_of s idx).status == active then record s { page_active = idx } else s)
    delete_old item_idx found.location

  -- The bytes copied into `buf`, whose number is the result.
  unfoldable pub st_read_item : ℕ → ℕ → M E (List ℕ)
  st_read_item item_idx len = do
    s ← get
    guard (not (s.flag_init == 0))
    guard (ltb 0 len)
    guard (item_idx_valid item_idx)
    found ← st_find_item E item_idx
    pure (elim found.result [ none ↦ [] | some item ↦ take (min len item.header.len) item.content ])

  -- The `for` of `st_delete_item`: it ends where the page after `i` is `page_start` (`none` is -1).
  unfoldable pub next_is : ℕ → ℕ → Bool
  next_is i start = elim (st_page_next i) [ none ↦ false | some j ↦ j == start ]

  unfoldable pub status_is_erased : St E → ℕ → Bool
  status_is_erased s i = elim (st_page_status E s i) [
    | none ↦ false
    | some status ↦ status == erased
  ]

  unfoldable pub delete_pages : ℕ → ℕ → ℕ → ℕ → M E ℕ
  unfolding next_is status_is_erased
  delete_pages zero item_idx i cnt = fail
  delete_pages (suc f) item_idx i cnt = do
    s ← get
    if next_is i s.page_start
        then pure cnt
        else (if status_is_erased s i then pure cnt else (do
          n ← st_page_delete_item E i item_idx
          delete_pages f item_idx (as_u16 (st_page_next i)) (cnt + n)))

  unfoldable pub st_delete_item : ℕ → M E ℕ
  unfolding delete_pages st_page_next
  st_delete_item item_idx = do
    guard (item_idx_valid item_idx)
    s ← get
    delete_pages page_max item_idx s.page_start 0
