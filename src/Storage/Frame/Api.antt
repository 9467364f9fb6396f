-- ===== src/Storage/Frame/Api.antt =====
-- The calls of src/storage.c that other modules make stay within the four pages, and
-- `st_delete_item` never deletes.
use mathlib.Core.Path.{subst}
use ch582_water_jinru.Common.{
  sym, ℕ, zero, suc, ◌*◌, ◌≤◌, ◌≡◌, ◌∙◌, Option, none, some, List, [], ◌∷◌, refl, ◌==◌, Bool-cases,
  inl, inr, if◌then◌else◌,
}
use ch582_water_jinru.Storage.{
  Eeprom, St, zero_page, Location, page_of, modify, page_max, page_size, item_idx_valid,
}
use ch582_water_jinru.Storage.Flash.{IsFlash}
use ch582_water_jinru.Storage.Frame.{
  Frame, Frame-refl, Frame-trans, Keeps, modify-Keeps, with_page-Keeps, st_page_erase_check-Keeps,
}
use ch582_water_jinru.Storage.Frame.Items.{
  item_rules, st_page_write_item-Keeps, st_delete_item_with_loc-Keeps, st_page_delete_item-Keeps,
  st_find_item-Keeps, st_page_scan-Keeps,
}
use ch582_water_jinru.Storage.Pages.{st_page_next, st_page_status}
use ch582_water_jinru.Storage.Items.{st_page_delete_item}
use ch582_water_jinru.Storage.Scan.{
  load_page, clear_page, init_loop, count_erased, st_page_init, st_init,
}
use ch582_water_jinru.Storage.Api.{
  next_page, realign_loop, st_page_realign, st_realign, open_page, close_and_open,
  st_get_available_page, delete_old, st_write_item, st_read_item, delete_pages, st_delete_item,
}

module _ (E : Eeprom) (F : IsFlash E) where
  count_erased-Keeps : Keeps E F (count_erased E)
  count_erased-Keeps =
      modify-Keeps E F _ (λ s. record { start = refl; count = refl; outside = λ x h. refl })

  active-Keeps : (idx : ℕ) → Keeps E F (modify (λ s. record s { page_active = idx }))
  active-Keeps idx =
      modify-Keeps E F _ (λ s. record { start = refl; count = refl; outside = λ x h. refl })

  load_page-Keeps : (idx status : ℕ) → Keeps E F (load_page E idx status)
  unfolding load_page
  load_page-Keeps idx status =
      search
        (
          item_rules, st_page_erase_check-Keeps, st_page_scan-Keeps, count_erased-Keeps,
          active-Keeps,
        )
        depth 12

  clear_page-Keeps : (idx : ℕ) → Keeps E F (clear_page E idx)
  unfolding clear_page
  clear_page-Keeps idx = with_page-Keeps E F idx (λ s. zero_page)

  init_loop-Keeps : (f idx : ℕ) → Keeps E F (init_loop E f idx)
  unfolding init_loop
  init_loop-Keeps zero idx = search item_rules
  init_loop-Keeps (suc f) idx =
      search (item_rules, clear_page-Keeps, load_page-Keeps, init_loop-Keeps f) depth 12

  st_page_init-Keeps : Keeps E F (st_page_init E)
  unfolding st_page_init
  st_page_init-Keeps = init_loop-Keeps page_max 0

  next_page-Keeps : (n : ℕ) → Keeps E F (next_page E n)
  unfolding next_page
  next_page-Keeps n = search item_rules depth 12

  realign_loop-Keeps : (f idx offset : ℕ) → Keeps E F (realign_loop E f idx offset)
  unfolding realign_loop
  realign_loop-Keeps zero idx offset = search item_rules
  realign_loop-Keeps (suc f) idx offset =
      search (item_rules, next_page-Keeps, st_page_write_item-Keeps, realign_loop-Keeps f) depth 16

  st_realign-Keeps : Keeps E F (st_realign E)
  unfolding st_realign st_page_realign
  st_realign-Keeps = search (item_rules, realign_loop-Keeps) depth 12

  open_page-Keeps : (from : ℕ) → Keeps E F (open_page E from)
  unfolding open_page
  open_page-Keeps from = search item_rules depth 10

  st_get_available_page-Keeps : (n : ℕ) → Keeps E F (st_get_available_page E n)
  unfolding st_get_available_page close_and_open
  st_get_available_page-Keeps n = search (item_rules, st_realign-Keeps, open_page-Keeps) depth 16

  delete_old-Keeps : (item_idx : ℕ) (o : Option Location) → Keeps E F (delete_old E item_idx o)
  unfolding delete_old
  delete_old-Keeps item_idx none = search item_rules
  delete_old-Keeps item_idx (some loc) = search (item_rules, st_delete_item_with_loc-Keeps)

  note_active-Keeps :
      (idx status : ℕ)
      → Keeps E F (
          modify
            (λ s. if (page_of s idx).status == status then record s { page_active = idx } else s))
  note_active-Keeps idx status = modify-Keeps E F _ (λ s.
      elim (Bool-cases ((page_of s idx).status == status)) [
        | inl e ↦ rw e (record { start = refl; count = refl; outside = λ x h. refl })
        | inr e ↦ rw e (Frame-refl E F s)
      ])

  st_write_item-Keeps : (item_idx : ℕ) (buf : List ℕ) → Keeps E F (st_write_item E item_idx buf)
  unfolding st_write_item
  st_write_item-Keeps item_idx buf =
      search
        (
          item_rules, st_find_item-Keeps, st_get_available_page-Keeps, st_page_write_item-Keeps,
          note_active-Keeps, delete_old-Keeps,
        )
        depth 16

  st_read_item-Keeps : (item_idx n : ℕ) → Keeps E F (st_read_item E item_idx n)
  unfolding st_read_item
  st_read_item-Keeps item_idx n = search (item_rules, st_find_item-Keeps) depth 12

  delete_pages-Keeps : (f item_idx i cnt : ℕ) → Keeps E F (delete_pages E f item_idx i cnt)
  unfolding delete_pages
  delete_pages-Keeps zero item_idx i cnt = search item_rules
  delete_pages-Keeps (suc f) item_idx i cnt =
      search (item_rules, st_page_delete_item-Keeps, delete_pages-Keeps f) depth 12

  st_delete_item-Keeps : (item_idx : ℕ) → Keeps E F (st_delete_item E item_idx)
  unfolding st_delete_item
  st_delete_item-Keeps item_idx = search (item_rules, delete_pages-Keeps) depth 8

-- The calls that other modules make after `st_init`.
pub data Call : Type 0 where
  write : ℕ → List ℕ → Call
  read : ℕ → ℕ → Call
  delete : ℕ → Call

-- The state after a call, whatever it returns.
unfoldable pub call : (E : Eeprom) → Call → St E → St E
call E (write item_idx buf) s = (st_write_item E item_idx buf s).1
call E (read item_idx n) s = (st_read_item E item_idx n s).1
call E (delete item_idx) s = (st_delete_item E item_idx s).1

unfoldable pub calls : (E : Eeprom) → List Call → St E → St E
unfolding call
calls E [] s = s
calls E (c ∷ cs) s = calls E cs (call E c s)

call-Frame : (E : Eeprom) (F : IsFlash E) (c : Call) (s : St E) → Frame E F s (call E c s)
unfolding call
call-Frame E F (write item_idx buf) s = (st_write_item-Keeps E F item_idx buf).apply s
call-Frame E F (read item_idx n) s = (st_read_item-Keeps E F item_idx n).apply s
call-Frame E F (delete item_idx) s = (st_delete_item-Keeps E F item_idx).apply s

calls-Frame : (E : Eeprom) (F : IsFlash E) (cs : List Call) (s : St E) → Frame E F s (calls E cs s)
unfolding calls
calls-Frame E F [] s = Frame-refl E F s
calls-Frame E F (c ∷ cs) s =
    Frame-trans E F s (call E c s) _ (call-Frame E F c s) (calls-Frame E F cs (call E c s))

init-start : (E : Eeprom) (F : IsFlash E) (s : St E) → (st_init E s).1.page_start ≡ page_max
unfolding st_init
init-start E F s = ((st_page_init-Keeps E F).apply _).start

-- On a flash with the documented behaviour, `st_init` followed by any calls of `st_write_item`,
-- `st_read_item` and `st_delete_item`, with any arguments, whether they succeed or not, leaves
-- every byte of the flash from address 1024 on as it was.
pub storage_confined :
    (E : Eeprom) (F : IsFlash E) (cs : List Call) (s : St E) (x : ℕ)
    → page_max * page_size ≤ x
    → F.byte (calls E cs (st_init E s).1).dev x ≡ F.byte s.dev x
unfolding st_init
storage_confined E F cs s x h =
    (calls-Frame E F cs (st_init E s).1).outside x h
    ∙ ((st_page_init-Keeps E F).apply _).outside x h

delete_pages_at_max :
    (E : Eeprom) (f item_idx cnt : ℕ) (s : St E)
    → s.page_start ≡ page_max
    → delete_pages E (suc f) item_idx page_max cnt s ≡ (none, s)
unfolding delete_pages st_page_delete_item st_page_next st_page_status
delete_pages_at_max E f item_idx cnt s e = rw e

delete_pages_from :
    (E : Eeprom) (f item_idx i cnt : ℕ) (s : St E)
    → i ≡ page_max
    → s.page_start ≡ page_max
    → delete_pages E (suc f) item_idx i cnt s ≡ (none, s)
delete_pages_from E f item_idx i cnt s p e =
    subst (λ j. delete_pages E (suc f) item_idx j cnt s ≡ (none, s)) (sym p)
      (delete_pages_at_max E f item_idx cnt s e)

st_delete_item_at_max :
    (E : Eeprom) (item_idx : ℕ) (s : St E)
    → s.page_start ≡ page_max
    → st_delete_item E item_idx s ≡ (none, s)
unfolding st_delete_item
st_delete_item_at_max E item_idx s e = elim (Bool-cases (item_idx_valid item_idx)) [
  | inl v ↦ rw v (delete_pages_from E 3 item_idx s.page_start 0 s e e)
  | inr v ↦ rw v
]

-- `st_init` leaves `page_start` at ST_PAGE_MAX and nothing sets it later, so after `st_init` and
-- any calls `st_delete_item` returns -1 for every item index, and leaves the state as it was.
pub st_delete_item_fails :
    (E : Eeprom) (F : IsFlash E) (cs : List Call) (s : St E) (item_idx : ℕ)
    → let t = calls E cs (st_init E s).1 in st_delete_item E item_idx t ≡ (none, t)
st_delete_item_fails E F cs s item_idx =
    st_delete_item_at_max E item_idx _
      ((calls-Frame E F cs (st_init E s).1).start ∙ init-start E F s)
