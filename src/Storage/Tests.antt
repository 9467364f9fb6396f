-- ===== src/Storage/Tests.antt =====
-- Runs of src/storage.c on a memory, and the theorems on the storage at concrete inputs.
use ch582_water_jinru.Common.{ℕ, false, ◌≡◌, refl, Option, none, some, List, [], ◌∷◌, arith}
use ch582_water_jinru.Crc.{crc_check}
use ch582_water_jinru.Storage.{
  Header, header_bytes, header_of, St, Page, zero_page, erased, page_max, ◌>>◌,
}
use ch582_water_jinru.Storage.Flash.{memory, memory-IsFlash, zero_state, span}
use ch582_water_jinru.Storage.Pages.{
  st_first_page, st_page_status_update, st_page_write, st_page_read, st_page_get_freesize,
}
use ch582_water_jinru.Storage.Items.{st_page_write_item, st_item_verify, st_delete_item_with_loc}
use ch582_water_jinru.Storage.Search.{st_find_item, st_page_find_item}
use ch582_water_jinru.Storage.Scan.{st_init}
use ch582_water_jinru.Storage.Api.{
  st_get_available_page, st_write_item, st_read_item, st_delete_item,
}
use ch582_water_jinru.Storage.Integrity.{changed_item_refused}
use ch582_water_jinru.Storage.Frame.Api.{Call, calls, storage_confined, st_delete_item_fails}

abbrev blank : ℕ → ℕ
blank x = 0xff

abbrev started : St memory
started = zero_state memory blank

abbrev one_write : List Call
one_write = Call.write 1 (20 ∷ []) ∷ []

abbrev erased_page : Page
erased_page = record zero_page { status = erased }

-- What `st_init` makes of a blank flash.
abbrev ready : St memory
ready = record started {
  flag_init = 1;
  page_erased = 4;
  page_active = page_max;
  page_start = page_max;
  pages = erased_page ∷ erased_page ∷ erased_page ∷ erased_page ∷ [];
}

unfoldable second_write : Option (List ℕ) × St memory
second_write =
    (do st_write_item memory 1 (20 ∷ []); st_write_item memory 1 (21 ∷ []); st_read_item memory 1 5)
      ready

-- An update is read back, and the old record has its index cleared.
update_read_back : second_write.0 ≡ some (21 ∷ [])
unfolding second_write st_write_item st_find_item st_get_available_page st_first_page
    st_page_status_update st_page_write_item st_page_write header_bytes st_page_find_item
    st_page_read header_of st_item_verify crc_check st_page_get_freesize st_delete_item_with_loc
    st_read_item
update_read_back = refl

old_record_cleared :
    span second_write.1.dev 0 11 ≡ 0xfe ∷ 1 ∷ 252 ∷ 0 ∷ 0 ∷ 20 ∷ 1 ∷ 162 ∷ 1 ∷ 0 ∷ 21 ∷ []
unfolding second_write st_write_item st_find_item st_get_available_page st_first_page
    st_page_status_update st_page_write_item st_page_write header_bytes st_page_find_item
    st_page_read header_of st_item_verify crc_check st_page_get_freesize st_delete_item_with_loc
    st_read_item
old_record_cleared = refl

storage_confined_example :
    memory-IsFlash.byte (calls memory one_write (st_init memory started).1).dev 5000
    ≡ memory-IsFlash.byte started.dev 5000
storage_confined_example =
    storage_confined memory memory-IsFlash one_write started 5000 (omega arith)

st_delete_item_fails_example :
    st_delete_item memory 1 (calls memory one_write (st_init memory started).1)
    ≡ (none, calls memory one_write (st_init memory started).1)
st_delete_item_fails_example = st_delete_item_fails memory memory-IsFlash one_write started 1

abbrev address_header : Header
address_header = record { len = 1; crc = 252; idx = 1 }

changed_item_refused_example :
    st_item_verify (record { header = address_header; content = 21 ∷ [] }) ≡ false
unfolding st_item_verify crc_check
changed_item_refused_example =
    changed_item_refused address_header [] [] 20 21 tt tt (omega arith) (omega arith) (omega arith)
      refl
