-- ===== src/Config/Tests.antt =====
-- The theorems on the configuration at concrete inputs, and what starting it on a blank flash gives.
use ch582_water_jinru.Common.{◌≡◌, refl, true, some, [], ◌∷◌, ◌&&◌, if◌then◌else◌, replicate}
use ch582_water_jinru.Storage.{St, Page, zero_page, erased, page_max, header_bytes}
use ch582_water_jinru.Storage.Pages.{st_first_page, st_page_status_update, st_page_write}
use ch582_water_jinru.Storage.Items.{st_page_write_item}
use ch582_water_jinru.Storage.Search.{st_find_item}
use ch582_water_jinru.Storage.Api.{st_get_available_page, st_write_item}
use ch582_water_jinru.Storage.Flash.{memory, zero_state}
use ch582_water_jinru.Config.{Cfg, cfg_mb_addr, cfg_update_mb_addr, cfg_save_item, update, fetch}
use ch582_water_jinru.Config.Laws.{succeeded, same_idx, fetch-update}
use ch582_water_jinru.Config.Updates.{mb_addr, mb_uart, perform, perform_all, repeated}

abbrev erased_page : Page
erased_page = record zero_page { status = erased }

abbrev ready : St memory
ready = record (zero_state memory (λ x. 0xff)) {
  flag_init = 1;
  page_erased = 4;
  page_active = page_max;
  page_start = page_max;
  pages = erased_page ∷ erased_page ∷ erased_page ∷ erased_page ∷ [];
}

abbrev started : Cfg memory
started = record {
  mb_addr = 20 ∷ [];
  mb_uart = replicate 8 0;
  ota = replicate 48 0;
  flag_init = 1;
  st = ready;
}

fetch-update_example :
    (let r = update memory cfg_mb_addr (21 ∷ []) started in
      fetch memory cfg_mb_addr r.1 ≡ (
        if succeeded r.0 && same_idx cfg_mb_addr cfg_mb_addr
        then some (21 ∷ [])
        else fetch memory cfg_mb_addr started))
fetch-update_example = fetch-update memory cfg_mb_addr cfg_mb_addr (21 ∷ []) started

-- The address is written to the flash.
address_set : succeeded (perform memory (mb_addr 21) started).0 ≡ true
unfolding perform cfg_update_mb_addr update cfg_save_item st_write_item st_find_item
    st_get_available_page st_first_page st_page_status_update st_page_write_item st_page_write
    header_bytes
address_set = refl

repeated_example :
    (let after =
        perform_all memory
          (mb_uart (replicate 8 1) ∷ mb_uart [] ∷ [])
          (perform memory (mb_addr 21) started).1 in
      perform memory (mb_addr 21) after ≡ (some tt, after))
repeated_example =
    repeated memory (mb_addr 21) (mb_uart (replicate 8 1) ∷ mb_uart [] ∷ []) started
      (refl, (refl, tt)) address_set
