-- ===== src/Onewire/Checksum.antt =====
-- `onewire_crc8` of src/onewire.c.
pub mod Dow
use Prim.Native.Nat.{bit_and, bit_or, bit_xor}
use ch582_water_jinru.Common.{ℕ, zero, suc, ◌/◌, List, [], ◌∷◌, ◌==◌, if◌then◌else◌}

-- The body of the inner loop on `crc8`, with the value of `pDataBuf`.
unfoldable pub crc8_bit : ℕ → ℕ → ℕ
crc8_bit crc p =
    if bit_and (bit_xor crc p) 1 == 0 then crc / 2 else bit_or (bit_xor crc 0x18 / 2) 0x80

-- `n` rounds; `pDataBuf` is moved right each time.
unfoldable pub crc8_bits : ℕ → ℕ → ℕ → ℕ × ℕ
unfolding crc8_bit
crc8_bits zero crc p = (crc, p)
crc8_bits (suc n) crc p = crc8_bits n (crc8_bit crc p) (p / 2)

unfoldable pub crc8_bytes : List ℕ → ℕ → ℕ → ℕ
crc8_bytes [] crc p = crc
crc8_bytes (b ∷ buf) crc p = let r = crc8_bits 8 (bit_xor crc b) p in crc8_bytes buf r.0 r.1

-- `pDataBuf` is never set: `junk` is what the variable holds at the start.
unfoldable pub onewire_crc8 : ℕ → List ℕ → ℕ
unfolding crc8_bytes crc8_bits
onewire_crc8 junk buf = crc8_bytes buf 0 junk
