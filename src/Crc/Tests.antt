-- ===== src/Crc/Tests.antt =====
-- The checks of src/utils/crc.c on the bytes of "123456789".
use ch582_water_jinru.Common.{ℕ, ◌≡◌, ◌≢◌, arith, refl, true, List, [], ◌∷◌}
use ch582_water_jinru.Crc.Detection.{one_byte_detected}
use ch582_water_jinru.Crc.{crc_check, crc8_maxim, check_crc16, check_crc32, check_crc5}

abbrev digits : List ℕ
digits = 0x31 ∷ 0x32 ∷ 0x33 ∷ 0x34 ∷ 0x35 ∷ 0x36 ∷ 0x37 ∷ 0x38 ∷ 0x39 ∷ []

crc8_maxim-digits : crc_check crc8_maxim digits ≡ 0xa1
unfolding crc_check
crc8_maxim-digits = refl

crc16_modbus_digits : check_crc16 0x8005 0xffff true true 0 digits ≡ 0x4b37
unfolding check_crc16
crc16_modbus_digits = refl

crc32_digits : check_crc32 0x04c11db7 0xffffffff true true 0xffffffff digits ≡ 0xcbf43926
unfolding check_crc32
crc32_digits = refl

crc5_itu_digits : check_crc5 0x15 0 true true 0 digits ≡ 7
unfolding check_crc5
crc5_itu_digits = refl

one_byte_detected_example :
    crc_check crc8_maxim (1 ∷ 2 ∷ 3 ∷ []) ≢ crc_check crc8_maxim (1 ∷ 7 ∷ 3 ∷ [])
one_byte_detected_example =
    one_byte_detected (1 ∷ []) (3 ∷ []) 2 7 (omega arith) (omega arith) (omega arith) (omega arith)
      (omega arith)
