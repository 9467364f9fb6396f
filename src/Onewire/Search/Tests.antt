-- ===== src/Onewire/Search/Tests.antt =====
-- Runs of `onewire_search` (src/onewire.c) on a simulated line, and its theorems at such a run.
use ch582_water_jinru.Common.{◌≡◌, refl, Bool, true, false, [], ◌∷◌, replicate, arith}
use ch582_water_jinru.Onewire.Bus.{onewire_reset, check_ack, onewire_writebyte, onewire_readbit}
use ch582_water_jinru.Onewire.RomSearch.Simulation.{Sim, sim_line, chips, idle, asking}
use ch582_water_jinru.Onewire.Search.{
  Device, fresh_scan, take_bit, scan_loop, accept, conclude, onewire_search, onewire_first,
  onewire_next,
}
use ch582_water_jinru.Onewire.Search.Outcome.{Concluded, scan_loop_ends, onewire_search-Concluded}

abbrev new_device : Device
new_device = record {
  last_discrepancy = 0;
  last_family_discrepancy = 0;
  last_device_flag = false;
  crc8 = 0;
  rom_no = replicate 8 0;
}

abbrev first_found : (Bool × Device) × Sim
first_found = onewire_first (sim_line chips) new_device idle

abbrev second_found : (Bool × Device) × Sim
second_found = onewire_next (sim_line chips) first_found.0.1 first_found.1

abbrev third_found : (Bool × Device) × Sim
third_found = onewire_next (sim_line chips) second_found.0.1 second_found.1

-- Three calls find the three chips, in the order of `Search_ROM`.
first_code : first_found.0.1.rom_no ≡ 0x28 ∷ 0x04 ∷ 0x01 ∷ 0 ∷ 0 ∷ 0 ∷ 0 ∷ 0xa2 ∷ []
unfolding onewire_first onewire_search scan_loop take_bit accept conclude onewire_reset check_ack
    onewire_writebyte onewire_readbit
first_code = refl

third_code : third_found.0.1.rom_no ≡ 0x28 ∷ 0x02 ∷ 0x03 ∷ 0 ∷ 0 ∷ 0 ∷ 0 ∷ 0x17 ∷ []
unfolding onewire_first onewire_next onewire_search scan_loop take_bit accept conclude onewire_reset
    check_ack onewire_writebyte onewire_readbit
third_code = refl

third_last : third_found.0.1.last_device_flag ≡ true
unfolding onewire_first onewire_next onewire_search scan_loop take_bit accept conclude onewire_reset
    check_ack onewire_writebyte onewire_readbit
third_last = refl

scan_loop_ends_example :
    scan_loop (sim_line chips) 100 (fresh_scan new_device) (asking chips chips)
    ≡ scan_loop (sim_line chips) 64 (fresh_scan new_device) (asking chips chips)
scan_loop_ends_example =
    scan_loop_ends (sim_line chips) 100 new_device (asking chips chips) (omega arith)

onewire_search-Concluded_example :
    Concluded
      (onewire_search (sim_line chips) new_device idle).0.0
      (onewire_search (sim_line chips) new_device idle).0.1
onewire_search-Concluded_example = onewire_search-Concluded (sim_line chips) new_device idle
