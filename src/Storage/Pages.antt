-- ===== src/Storage/Pages.antt =====
-- The page functions of src/storage.c: bounded reads and writes in a page, its state byte, and
-- the walk over the pages.
use ch582_water_jinru.Common.{
  ℕ, zero, suc, ◌+◌, ◌-◌, ◌%◌, ◌*◌, ◌^◌, Bool, true, false, ◌&&◌, Option, none, some, List, [], ◌∷◌,
  ltb, ◌==◌, if◌then◌else◌, get_or, length, take, min, u16,
}
use ch582_water_jinru.Storage.{
  Eeprom, St, Page, zero_page, M, ◌>>=◌, ◌>>◌, pure, fail, guard, get, modify, page_of, with_page,
  page_size, page_max, page_header_size, page_content_max, page_valid, erased, active, full,
  unavailable,
}

module _ (E : Eeprom) where
  abbrev pub eeprom_read : ℕ → ℕ → M E (List ℕ)
  eeprom_read addr n s = (E.read addr n s.dev, s)

  abbrev pub done : Bool × E.Dev → St E → Option (Unit {0}) × St E
  done (true, d) s = (some tt, record s { dev = d })
  done (false, d) s = (none, record s { dev = d })

  abbrev pub eeprom_write : ℕ → List ℕ → M E (Unit {0})
  eeprom_write addr bs s = done (E.write addr bs s.dev) s

  abbrev pub eeprom_erase : ℕ → ℕ → M E (Unit {0})
  eeprom_erase addr n s = done (E.erase addr n s.dev) s

  -- The loop over chunks of at most a page; `buf` is not moved on. It runs once at most, since the
  -- caller's test keeps the length below a page, so fuel 2 is enough.
  unfoldable pub write_chunks : ℕ → ℕ → List ℕ → ℕ → M E (Unit {0})
  write_chunks zero addr buf remain = fail
  write_chunks (suc f) addr buf remain = if remain == 0 then pure tt else (do
    let n = min page_size remain
    eeprom_write addr (take n buf)
    write_chunks f (addr + n) buf (remain - n))

  unfoldable pub st_page_write : ℕ → ℕ → List ℕ → M E (Unit {0})
  unfolding write_chunks
  st_page_write idx offset buf = do
    guard (page_valid idx)
    guard (ltb (offset + length buf + page_header_size) page_size)
    write_chunks 2 (idx * page_size + page_header_size + offset) buf (length buf)

  unfoldable pub st_page_read : ℕ → ℕ → ℕ → M E (List ℕ)
  st_page_read idx offset n = do
    guard (page_valid idx)
    guard (ltb (offset + n + page_header_size) page_size)
    eeprom_read (idx * page_size + page_header_size + offset) n

  -- The `int` result; `none` is -1. A used size over the page's wraps in `size_t`.
  unfoldable pub st_page_get_freesize : St E → ℕ → Option ℕ
  st_page_get_freesize s idx =
      if page_valid idx
      then (let p = page_of s idx in
          if p.status == erased
          then some 0
          else if p.status == full
          then some 0
          else if p.status == unavailable
          then some 0
          else if p.status == active
          then some ((2 ^ 32 + page_content_max - p.bytes_used) % 2 ^ 32)
          else none)
      else none

  -- The part of `st_page_erase` for a page that is not marked as erased.
  abbrev pub note_erased : ℕ → St E → St E
  note_erased idx t =
      record (with_page t idx
        (record (page_of t idx) { bytes_used = 0; item_cnt = 0; status = erased })) {
          page_erased = u16 (t.page_erased + 1);
        }

  unfoldable pub erase_now : ℕ → M E (Unit {0})
  erase_now idx = do eeprom_erase (idx * page_size) page_size; modify (note_erased idx)

  unfoldable pub st_page_erase : ℕ → M E (Unit {0})
  unfolding erase_now
  st_page_erase idx = do
    guard (page_valid idx)
    s ← get
    if (page_of s idx).status == erased then pure tt else erase_now idx

  -- What `st_page_status_update` does to the context once the byte is written.
  unfoldable pub note_status : ℕ → ℕ → St E → St E
  note_status idx status t =
      let p = page_of t idx in
      let erased_cnt =
        if p.status == erased
        then (if t.page_erased == 0 then t.page_erased else t.page_erased - 1)
        else t.page_erased in
      let act = if p.status == active then page_max else t.page_active in
      record (with_page t idx (record p { status = status })) {
        page_erased = erased_cnt;
        page_active = if status == active then idx else act;
      }

  unfoldable pub write_status : ℕ → ℕ → M E (Unit {0})
  unfolding note_status
  write_status idx status = do
    eeprom_write (idx * page_size) (status ∷ [])
    modify (note_status idx status)

  unfoldable pub st_page_status_update : ℕ → ℕ → M E (Unit {0})
  unfolding write_status
  st_page_status_update idx status = do
    guard (page_valid idx)
    s ← get
    if status == (page_of s idx).status then pure tt else write_status idx status

  all_erased : List ℕ → Bool
  all_erased [] = true
  all_erased (b ∷ bs) = b == 0xff && all_erased bs

  -- The loop of `st_page_erase_check`; `addr` is not moved on, and one round reads the whole page.
  unfoldable pub erase_check_loop : ℕ → ℕ → ℕ → M E ℕ
  unfolding all_erased
  erase_check_loop zero addr remain = fail
  erase_check_loop (suc f) addr remain = if remain == 0 then pure 1 else (do
    let n = min page_size remain
    buf ← eeprom_read addr n
    if all_erased buf then erase_check_loop f addr (remain - n) else pure 0)

  unfoldable pub st_page_erase_check : ℕ → M E ℕ
  unfolding erase_check_loop
  st_page_erase_check idx = do
    guard (page_valid idx)
    erase_check_loop 2 (idx * page_size) page_size

  unfoldable pub st_page_status : St E → ℕ → Option ℕ
  st_page_status s idx = if page_valid idx then some (page_of s idx).status else none

-- The next page and the one before, going round; `none` is -1.
unfoldable pub st_page_next : ℕ → Option ℕ
st_page_next idx =
    if page_valid idx then (if page_valid (idx + 1) then some (idx + 1) else some 0) else none

-- `idx - 1` is an `int`, so at page 0 it is negative.
unfoldable pub st_page_last : ℕ → Option ℕ
st_page_last idx =
    if page_valid idx then (if idx == 0 then some (page_max - 1) else some (idx - 1)) else none

-- The `do … while` of `st_first_page`, with fuel for the four pages.
unfoldable pub first_page_loop : ℕ → ℕ → ℕ → ℕ → List Page → ℕ
first_page_loop zero start i status pages = page_max
first_page_loop (suc f) start i status pages =
    if (get_or pages i zero_page).status == status then i else (elim (st_page_next i) [
      | none ↦ page_max
      | some j ↦ if j == start then page_max else first_page_loop f start j status pages
    ])

-- `page_max` is "not found"; a start that is no page gives -1, `none`.
unfoldable pub st_first_page : {E : Eeprom} → St E → ℕ → ℕ → Option ℕ
unfolding first_page_loop st_page_next
st_first_page s from status =
    if page_valid from then some (first_page_loop page_max from from status s.pages) else none
