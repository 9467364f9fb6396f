-- ===== src/Storage/Scan.antt =====
-- Loading the pages at start, in src/storage.c.
use ch582_water_jinru.Common.{
  ℕ, zero, suc, ◌+◌, ◌*◌, ◌||◌, ltb, leb, ◌==◌, if◌then◌else◌, u16, get_or,
}
use ch582_water_jinru.Storage.{
  Eeprom, zero_page, Header, header_bytes, header_of, item_size, M, ◌>>=◌, ◌>>◌, pure, fail, get,
  modify, attempt, page_of, with_page, page_max, page_size, page_content_max, header_size,
  item_idx_valid, erased, active, full, unavailable,
}
use ch582_water_jinru.Storage.Pages.{
  eeprom_read, st_page_write, st_page_read, st_page_erase, st_page_erase_check,
  st_page_status_update,
}
use ch582_water_jinru.Storage.Items.{
  st_item_verify, erased_idx, update_page, page_fuel, erase_if_empty,
}

module _ (E : Eeprom) where
  abbrev pub skip : ℕ → Header → M E (Unit {0})
  skip idx h = update_page E idx (λ p. record p { bytes_used = u16 (p.bytes_used + item_size h) })

  -- One item of the scan, whose header is at `bytes_used`.
  unfoldable pub scan_item : ℕ → Header → M E (Unit {0})
  scan_item idx h = do
    s ← get
    if item_idx_valid h.idx
        then (do
          content ← st_page_read E idx (u16 ((page_of s idx).bytes_used + header_size)) h.len
          if st_item_verify (record { header = h; content = content })
              then (do
                update_page E idx (λ p. record p {
                  bytes_available = u16 (p.bytes_available + item_size h);
                  item_cnt = u16 (p.item_cnt + 1);
                })
                skip idx h)
              else (do
                attempt
                    (st_page_write E idx (page_of s idx).bytes_used (header_bytes (erased_idx h)))
                skip idx h))
        else skip idx h

  -- The `while`: it stops at the end of the page or at a header of erased flash.
  unfoldable pub scan_loop : ℕ → ℕ → M E (Unit {0})
  scan_loop zero idx = fail
  scan_loop (suc f) idx = do
    s ← get
    if ltb (page_of s idx).bytes_used page_content_max
        then (do
          bs ← st_page_read E idx (page_of s idx).bytes_used header_size
          let h = header_of bs
          if h.len == 0xff then pure tt else (do scan_item idx h; scan_loop f idx))
        else pure tt

  unfoldable pub st_page_scan : ℕ → M E (Unit {0})
  unfolding scan_loop scan_item
  st_page_scan idx = do
    update_page E idx (λ p. record p { bytes_used = 0; item_cnt = 0 })
    scan_loop page_fuel idx
    s ← get
    if leb page_content_max (page_of s idx).bytes_used
        then (do attempt (st_page_status_update E idx full); pure tt)
        else pure tt
    erase_if_empty E idx

  abbrev pub count_erased : M E (Unit {0})
  count_erased = modify (λ s. record s { page_erased = u16 (s.page_erased + 1) })

  -- The `switch` on the status byte that was read. The page that `st_page_erase` is asked to erase
  -- "again" is marked as erased, so that call does nothing.
  unfoldable pub load_page : ℕ → ℕ → M E (Unit {0})
  load_page idx status =
      if status == unavailable
      then pure tt
      else if status == erased
      then (do
        clean ← st_page_erase_check E idx
        if clean == 0 then st_page_erase E idx else pure tt
        count_erased)
      else if status == full || status == active
      then (do st_page_scan idx; modify (λ s. record s { page_active = idx }))
      else (do st_page_erase E idx; update_page E idx (λ p. record p { status = erased }))

  unfoldable pub clear_page : ℕ → M E (Unit {0})
  clear_page idx = modify (λ s. with_page s idx zero_page)

  unfoldable pub init_loop : ℕ → ℕ → M E (Unit {0})
  init_loop zero idx = pure tt
  init_loop (suc rest) idx = do
    clear_page idx
    bs ← eeprom_read E (idx * page_size) 1
    let status = get_or bs 0 0
    update_page E idx (λ p. record p { status = status })
    load_page idx status
    init_loop rest (idx + 1)

  unfoldable pub st_page_init : M E (Unit {0})
  unfolding init_loop load_page clear_page
  st_page_init = init_loop page_max 0

  unfoldable pub erase_loop : ℕ → ℕ → M E (Unit {0})
  erase_loop zero idx = pure tt
  erase_loop (suc rest) idx = do
    s ← get
    if (page_of s idx).status == erased then pure tt else st_page_erase E idx
    erase_loop rest (idx + 1)

  unfoldable pub st_erase_all : M E (Unit {0})
  unfolding erase_loop
  st_erase_all = do erase_loop page_max 0; modify (λ s. record s { page_active = page_max })

  -- The result of `st_page_init` is not looked at.
  unfoldable pub st_init : M E (Unit {0})
  st_init = do
    modify (λ s. record s { page_start = page_max; page_active = page_max })
    attempt st_page_init
    modify (λ s. record s { flag_init = 1 })
