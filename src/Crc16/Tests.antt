-- ===== src/Crc16/Tests.antt =====
-- Runs of src/utils/crc16.c, and its theorems at an input.
use Prim.Native.Nat.{bit_xor}
use ch582_water_jinru.Common.{List, [], ◌∷◌, ◌++◌, ℕ, ◌≡◌, refl, arith}
use ch582_water_jinru.Crc.{step_right, feed}
use ch582_water_jinru.Crc16.{crc16_init, crc16_update, crc16, crc_hi, crc_lo}
use ch582_water_jinru.Crc16.Bitwise.{crc16-eq-feed, crc16_update-append}

abbrev digits : List ℕ
digits = 0x31 ∷ 0x32 ∷ 0x33 ∷ 0x34 ∷ 0x35 ∷ 0x36 ∷ 0x37 ∷ 0x38 ∷ 0x39 ∷ []

-- The check value of CRC-16/MODBUS.
crc16-digits : crc16 digits ≡ 0x4b37
unfolding crc16 crc_hi crc_lo
crc16-digits = refl

crc16-eq-feed_example : crc16 digits ≡ feed bit_xor (step_right 0xa001) digits 0xffff
crc16-eq-feed_example = crc16-eq-feed digits (omega arith) (omega arith)

crc16_update-append_example :
    crc16_update (0x32 ∷ 0x33 ∷ []) (crc16_update (0x31 ∷ []) crc16_init)
    ≡ crc16_update ((0x31 ∷ []) ++ (0x32 ∷ 0x33 ∷ [])) crc16_init
unfolding crc16_init
crc16_update-append_example =
    crc16_update-append (0x31 ∷ []) (0x32 ∷ 0x33 ∷ []) crc16_init (omega arith)
