-- ===== src/Onewire/RomSearch/Tests.antt =====
-- Runs of `Search_ROM` (src/onewire.c) on a simulated line, and its theorems at such a run.
use ch582_water_jinru.Common.{
  ◌+◌, ◌<◌, ◌≤◌, ◌≡◌, refl, true, false, List, [], ◌∷◌, length, take, get_or, set, arith,
}
use ch582_water_jinru.Onewire.Bus.{onewire_resetcheck, onewire_writebyte, onewire_read2bits}
use ch582_water_jinru.Onewire.RomSearch.{Search, search_bit, search_rom, search_bytes, fresh}
use ch582_water_jinru.Onewire.RomSearch.Bounds.{Rounds, start, round, Rounds_in_bounds}
use ch582_water_jinru.Onewire.RomSearch.Tree.{Code, paths}
use ch582_water_jinru.Onewire.RomSearch.Codes.{Sized, tree_of}
use ch582_water_jinru.Onewire.RomSearch.Listing.{has, IsAscending}
use ch582_water_jinru.Onewire.RomSearch.Complete.{put_rows, search_rom_complete}
use ch582_water_jinru.Onewire.RomSearch.Simulation.{
  sim_line, sim_slaves, asking, chips, no_rows, idle,
}

chips-Sized : Sized 64 chips
chips-Sized = record { some_code = λ e. cc; size = omega arith }

-- The codes in the order in which the search finds them.
search_run : (search_rom (sim_line chips) no_rows idle).0 ≡ (
  3,
  (0x28 ∷ 0x04 ∷ 0x01 ∷ 0 ∷ 0 ∷ 0 ∷ 0 ∷ 0xa2 ∷ [])
      ∷ (0x28 ∷ 0x04 ∷ 0x01 ∷ 0 ∷ 0 ∷ 0 ∷ 0 ∷ 0xa1 ∷ [])
      ∷ (0x28 ∷ 0x02 ∷ 0x03 ∷ 0 ∷ 0 ∷ 0 ∷ 0 ∷ 0x17 ∷ [])
      ∷ []
      ∷ [],
)
unfolding search_rom search_bytes onewire_resetcheck onewire_writebyte onewire_read2bits
search_run = refl

search_rom_complete_example :
    ((search_rom (sim_line chips) no_rows idle).0 ≡ (
      length (take 100 (paths (tree_of 64 chips))),
      put_rows 0 (take 100 (paths (tree_of 64 chips))) no_rows,
    ))
    × IsAscending (paths (tree_of 64 chips))
    × ((w : Code) → length w ≡ 64 → has w (paths (tree_of 64 chips)) ≡ has w chips)
search_rom_complete_example =
    search_rom_complete (sim_line chips) chips (sim_slaves chips) chips-Sized no_rows idle tt

abbrev opposite : List Code
opposite = (true ∷ []) ∷ (false ∷ []) ∷ []

abbrev one_place : Search
one_place = record fresh { l = 1; buffer = set fresh.buffer 1 1 }

-- Two slaves that differ in the first bit.
one_round : Rounds (sim_line opposite) one_place
unfolding search_bit onewire_read2bits
one_round = round 0 (asking opposite opposite) start (omega arith) refl

Rounds_in_bounds_example :
    (one_place.l + 1 < length one_place.buffer)
    × (get_or one_place.buffer one_place.l 0 ≤ 64)
    × (length one_place.id ≡ 64)
Rounds_in_bounds_example = Rounds_in_bounds (sim_line opposite) one_place one_round
