-- ===== src/Storage/Items.antt =====
-- Items on a page, in src/storage.c: the check sum, appending an item, and marking one as deleted.
use ch582_water_jinru.Common.{
  ℕ, zero, suc, ◌+◌, ◌-◌, ◌%◌, ◌^◌, Bool, false, not, ◌&&◌, ◌||◌, ◌++◌, ltb, ◌==◌, if◌then◌else◌,
  u16,
}
use ch582_water_jinru.Crc.{crc_check, crc8_maxim}
use ch582_water_jinru.Storage.{
  Eeprom, Page, Header, Item, Location, header_bytes, header_of, item_size, M, ◌>>=◌, ◌>>◌, pure,
  fail, guard, get, modify, attempt, page_of, with_page, page_content_max, header_size, page_valid,
  item_idx_valid, erased, active, full, unavailable,
}
use ch582_water_jinru.Storage.Pages.{
  st_page_write, st_page_read, st_page_erase, st_page_status_update,
}

-- `crc_check` with CRC8_MAXIM_INIT, against the byte in the header.
unfoldable pub st_item_verify : Item → Bool
st_item_verify item = crc_check crc8_maxim item.content == item.header.crc

-- The states that let an item in.
abbrev pub accepts : ℕ → Bool
accepts status =
    if status == full
    then false
    else if status == unavailable
    then false
    else status == erased || status == active

-- The state after an item: an erased page becomes active, and a page with no room for another
-- header becomes full (a used size over the page's wraps in `size_t`).
abbrev pub status_after : ℕ → ℕ → ℕ
status_after status used =
    if ltb ((2 ^ 32 + page_content_max - used) % 2 ^ 32) header_size
    then full
    else if status == erased
    then active
    else status

abbrev pub erased_idx : Header → Header
erased_idx h = record h { idx = 0 }

abbrev pub count_down : ℕ → ℕ
count_down n = if n == 0 then n else n - 1

-- Fuel: every item takes four bytes at least, and no header is read from offset 251 on.
abbrev pub page_fuel : ℕ
page_fuel = 65

module _ (E : Eeprom) where
  abbrev pub update_page : ℕ → (Page → Page) → M E (Unit {0})
  update_page idx f = modify (λ s. with_page s idx (f (page_of s idx)))

  unfoldable pub st_page_write_item : ℕ → Item → M E (Unit {0})
  st_page_write_item idx item = do
    guard (page_valid idx)
    guard (item_idx_valid item.header.idx)
    s ← get
    guard (accepts (page_of s idx).status)
    st_page_write E idx (page_of s idx).bytes_used (header_bytes item.header ++ item.content)
    update_page idx (λ p. record p {
      bytes_used = u16 (p.bytes_used + item_size item.header);
      bytes_available = u16 (p.bytes_available + item_size item.header);
    })
    t ← get
    let p = page_of t idx
    let next = status_after p.status p.bytes_used
    if next == p.status then pure tt else st_page_status_update E idx next
    update_page idx (λ q. record q { item_cnt = u16 (q.item_cnt + 1) })

  -- `if (!page->item_cnt && ST_PAGE_S_FULL == page->status) st_page_erase(…)`
  abbrev pub erase_if_empty : ℕ → M E (Unit {0})
  erase_if_empty idx = do
    s ← get
    if (page_of s idx).item_cnt == 0 && (page_of s idx).status == full
        then st_page_erase E idx
        else pure tt

  unfoldable pub mark_deleted : ℕ → Location → M E (Unit {0})
  mark_deleted item_idx loc = do
    bs ← st_page_read E loc.page loc.offset header_size
    let h = header_of bs
    guard (h.idx == item_idx)
    st_page_write E loc.page loc.offset (header_bytes (erased_idx h))
    update_page loc.page (λ p. record p { item_cnt = count_down p.item_cnt })
    erase_if_empty loc.page

  unfoldable pub st_delete_item_with_loc : ℕ → Location → M E (Unit {0})
  unfolding mark_deleted
  st_delete_item_with_loc item_idx loc = do
    guard (page_valid loc.page)
    s ← get
    if (page_of s loc.page).item_cnt == 0 then pure tt else mark_deleted item_idx loc

  -- The loop of `st_page_delete_item` from an offset, with the count so far.
  unfoldable pub delete_loop : ℕ → ℕ → ℕ → ℕ → ℕ → M E ℕ
  delete_loop zero idx item_idx offset cnt = fail
  delete_loop (suc f) idx item_idx offset cnt = do
    s ← get
    if ltb offset (page_of s idx).bytes_used
        then (do
          bs ← st_page_read E idx offset header_size
          let h = header_of bs
          let next = u16 (offset + item_size h)
          if h.idx == 0 || not (h.idx == item_idx) then delete_loop f idx item_idx next cnt else (do
            st_page_write E idx offset (header_bytes (erased_idx h))
            update_page idx (λ p. if p.item_cnt == 0 then p else record p {
              item_cnt = p.item_cnt - 1;
              bytes_available = u16 (p.bytes_available + 65536 - item_size h);
            })
            delete_loop f idx item_idx next (cnt + 1)))
        else pure cnt

  unfoldable pub st_page_delete_item : ℕ → ℕ → M E ℕ
  unfolding delete_loop
  st_page_delete_item idx item_idx = do
    guard (page_valid idx)
    guard (item_idx_valid item_idx)
    s ← get
    if (page_of s idx).status == erased || (page_of s idx).status == unavailable
        then pure 0
        else (do
          cnt ← delete_loop page_fuel idx item_idx 0 0
          attempt (erase_if_empty idx)
          pure cnt)
