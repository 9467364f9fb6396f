-- ===== src/Onewire/RomSearch.antt =====
-- `Search_ROM` of src/onewire.c: the search with a stack of the bits where slaves disagree.
pub mod Bounds
pub mod Tree
pub mod Order
pub mod Slaves
pub mod Stack
pub mod Step
pub mod Pass
pub mod Codes
pub mod Listing
pub mod Complete
pub mod Simulation
mod Tests
use Prim.Native.Nat.{bit_and, bit_or}
use ch582_water_jinru.Common.{
  ℕ, zero, suc, ◌+◌, ◌*◌, ◌/◌, ◌^◌, List, [], ◌∷◌, get_or, set, replicate, ltb, leb, ◌==◌,
  if◌then◌else◌, u8,
}
use ch582_water_jinru.Onewire.Bus.{
  Line, M, ◌>>=◌, ◌>>◌, pure, onewire_resetcheck, onewire_writebit, onewire_writebyte,
  onewire_read2bits,
}

-- The local variables that live from one pass to the next: `BUFFER` and its index `l`, the bits of
-- the last pass, and the byte that is put together.
pub record Search : Type 0 where
  pub buffer : List ℕ
  pub l : ℕ
  pub id : List ℕ
  pub s : ℕ

-- `MAXNUM_SWITCH_DEVICE_OUT`
abbrev pub maxnum_switch_device_out : ℕ
maxnum_switch_device_out = 100

-- Only `BUFFER` is set to zero; a bit of `id` is read only after a pass has written it.
abbrev pub fresh : Search
fresh = record { buffer = replicate 99 0; l = 0; id = replicate 64 0; s = 0 }

module _ (line : Line) where
  open line use {W}

  -- All slaves that take part agree on the bit.
  unfoldable pub agreed : ℕ → ℕ → Search → M W Search
  agreed i bit t = do
    onewire_writebit line bit
    pure (record t { s = if bit == 0 then t.s / 2 else bit_or (t.s / 2) 0x80; id = set t.id i bit })

  -- They disagree: a new place takes 0, one below the top of the stack goes as the last time, and
  -- the top takes 1 and leaves the stack.
  unfoldable pub conflict : ℕ → Search → M W Search
  conflict i t =
      let place = u8 (i + 1) in
      let top = get_or t.buffer t.l 0 in
      let old = get_or t.id i 0 in
      if ltb top place
      then (do
        onewire_writebit line 0
        let l = u8 (t.l + 1)
        pure (record t { s = t.s / 2; id = set t.id i 0; l = l; buffer = set t.buffer l place }))
      else if ltb place top
      then (do
        onewire_writebit line old
        pure (record t { s = bit_or (t.s / 2) (u8 (bit_and old 1 * 2 ^ 7)) }))
      else (do
        onewire_writebit line 1
        pure (record t { s = bit_or (t.s / 2) 0x80; id = set t.id i 1; l = u8 (t.l + 255) }))

  -- What follows a read of the two bits `k`. Where no slave answers, only `s` moves on.
  unfoldable pub answer : ℕ → ℕ → Search → M W Search
  unfolding agreed conflict
  answer k i t =
      if k == 2
      then agreed i 0 t
      else if k == 1
      then agreed i 1 t
      else if k == 0
      then conflict i t
      else pure (record t { s = t.s / 2 })

  -- The body of the inner loop for bit `i`.
  unfoldable pub search_bit : ℕ → Search → M W Search
  unfolding answer
  search_bit i t = do read ← onewire_read2bits line; answer (bit_and read 3) i t

  -- `n` bits from bit `i` on.
  unfoldable pub search_bits : ℕ → ℕ → Search → M W Search
  unfolding search_bit
  search_bits zero i t = pure t
  search_bits (suc n) i t = do t' ← search_bit i t; search_bits n (i + 1) t'

  -- `n` bytes from byte `m` on, each kept in the row of the table.
  unfoldable pub search_bytes : ℕ → ℕ → Search → M W (List ℕ × Search)
  unfolding search_bits
  search_bytes zero m t = pure ([], t)
  search_bytes (suc n) m t = do
    t' ← search_bits 8 (m * 8) t
    rest ← search_bytes n (m + 1) t'
    pure (t'.s ∷ rest.0, rest.1)

  -- At most `n` more passes; `num` devices are known. A pass that finds no presence gives 0.
  unfoldable pub search_passes : ℕ → ℕ → Search → List (List ℕ) → M W (ℕ × List (List ℕ))
  search_passes zero num t rom_id = pure (num, rom_id)
  search_passes (suc n) num t rom_id = do
    flag ← onewire_resetcheck line
    if flag == 0
        then (do
          onewire_writebyte line 0xf0
          row ← search_bytes 8 0 t
          let found = set rom_id num row.0
          let more = search_passes n (num + 1) row.1 found
          if get_or row.1.buffer row.1.l 0 == 0 then pure (num + 1, found) else more)
        else pure (0, rom_id)

  unfoldable pub search_rom : List (List ℕ) → M W (ℕ × List (List ℕ))
  unfolding search_passes
  search_rom rom_id = search_passes maxnum_switch_device_out 0 fresh rom_id
