-- ===== src/Crc.antt =====
-- src/utils/crc.c: the parametrised bitwise CRCs, over bytes.
pub mod Detection
mod Tests
use Prim.Native.Nat.{bit_and, bit_or, bit_xor}
use ch582_water_jinru.Common.{
  ℕ, zero, suc, ◌+◌, ◌*◌, ◌/◌, ◌%◌, ◌^◌, Bool, true, false, List, [], ◌∷◌, ◌==◌, if◌then◌else◌, u8,
  u16, u32,
}

-- `REFLECTED_MODE`
pub data Mode : Type 0 where
  ref_4bit ref_5bit ref_6bit ref_7bit ref_8bit ref_16bit ref_32bit : Mode

-- One line of the swaps: the masked bits move right and left by the width.
swap_bits : ℕ → ℕ → ℕ → ℕ → ℕ
swap_bits high low width x = bit_or (bit_and x high / 2 ^ width) (u32 (bit_and x low * 2 ^ width))

-- The five swaps turn the 32 bits round.
turned : ℕ → ℕ
unfolding swap_bits
turned x =
    let a = swap_bits 0xffff0000 0x0000ffff 16 x in
    let b = swap_bits 0xff00ff00 0x00ff00ff 8 a in
    let c = swap_bits 0xf0f0f0f0 0x0f0f0f0f 4 b in
    let d = swap_bits 0xcccccccc 0x33333333 2 c in swap_bits 0xaaaaaaaa 0x55555555 1 d

-- The arms of the `switch`; those for 6 and 7 bits have the same mask.
shifted : Mode → ℕ → ℕ
shifted ref_32bit x = x
shifted ref_16bit x = bit_and (x / 2 ^ 16) 0xffff
shifted ref_8bit x = bit_and (x / 2 ^ 24) 0xff
shifted ref_7bit x = bit_and (x / 2 ^ 25) 0x7f
shifted ref_6bit x = bit_and (x / 2 ^ 26) 0x7f
shifted ref_5bit x = bit_and (x / 2 ^ 27) 0x1f
shifted ref_4bit x = bit_and (x / 2 ^ 28) 0x0f

unfoldable pub reflected_data : ℕ → Mode → ℕ
unfolding turned shifted
reflected_data x mode = shifted mode (turned x)

-- `if (crc & 0x01) { crc >>= 1; crc ^= poly; } else { crc >>= 1; }`
unfoldable pub step_right : ℕ → ℕ → ℕ
step_right poly crc = if bit_and crc 1 == 0 then crc / 2 else bit_xor (crc / 2) poly

-- `if (crc & top) { crc <<= 1; crc ^= poly; } else { crc <<= 1; }` in a word of `w` bits.
unfoldable pub step_left : ℕ → ℕ → ℕ → ℕ
step_left w poly crc =
    if bit_and crc (2 ^ w / 2) == 0 then crc * 2 % 2 ^ w else bit_xor (crc * 2 % 2 ^ w) poly

-- The inner loop, `n` rounds.
unfoldable pub rounds : ℕ → (ℕ → ℕ) → ℕ → ℕ
rounds zero step crc = crc
rounds (suc n) step crc = rounds n step (step crc)

-- The outer loop: `join` takes a byte into the remainder.
unfoldable pub feed : (ℕ → ℕ → ℕ) → (ℕ → ℕ) → List ℕ → ℕ → ℕ
unfolding rounds
feed join step [] crc = crc
feed join step (b ∷ buffer) crc = feed join step buffer (rounds 8 step (join crc b))

-- The common text of `check_crc4` to `check_crc7`: they differ in the reflection and in the shift,
-- which is 8 less the width. `refout` is not read.
check_small : Mode → ℕ → ℕ → ℕ → Bool → ℕ → List ℕ → ℕ
unfolding reflected_data step_right step_left feed
check_small mode shift poly init refin xor_out buffer =
    if refin
    then bit_xor (feed bit_xor (step_right (u8 (reflected_data poly mode))) buffer init) xor_out
    else bit_xor
        (feed bit_xor (step_left 8 (u8 (poly * 2 ^ shift))) buffer (u8 (init * 2 ^ shift))
          / 2 ^ shift)
        xor_out

unfoldable pub check_crc4 : ℕ → ℕ → Bool → Bool → ℕ → List ℕ → ℕ
unfolding check_small
check_crc4 poly init refin refout xor_out buffer =
    check_small ref_4bit 4 poly init refin xor_out buffer

unfoldable pub check_crc5 : ℕ → ℕ → Bool → Bool → ℕ → List ℕ → ℕ
unfolding check_small
check_crc5 poly init refin refout xor_out buffer =
    check_small ref_5bit 3 poly init refin xor_out buffer

unfoldable pub check_crc6 : ℕ → ℕ → Bool → Bool → ℕ → List ℕ → ℕ
unfolding check_small
check_crc6 poly init refin refout xor_out buffer =
    check_small ref_6bit 2 poly init refin xor_out buffer

unfoldable pub check_crc7 : ℕ → ℕ → Bool → Bool → ℕ → List ℕ → ℕ
unfolding check_small
check_crc7 poly init refin refout xor_out buffer =
    check_small ref_7bit 1 poly init refin xor_out buffer

-- The common text of `check_crc8`, `check_crc16` and `check_crc32` in a word of `w` bits.
unfoldable pub check_wide : ℕ → Mode → ℕ → ℕ → Bool → Bool → ℕ → List ℕ → ℕ
unfolding reflected_data step_left feed
check_wide w mode poly init refin refout xor_out buffer =
    let join = λ (crc b : ℕ).
      bit_xor crc ((if refin then reflected_data b ref_8bit else b) * (2 ^ w / 256)) in
    let crc = feed join (step_left w poly) buffer init in
    bit_xor (if refout then reflected_data crc mode else crc) xor_out

unfoldable pub check_crc8 : ℕ → ℕ → Bool → Bool → ℕ → List ℕ → ℕ
unfolding check_wide
check_crc8 poly init refin refout xor_out buffer =
    check_wide 8 ref_8bit poly init refin refout xor_out buffer

unfoldable pub check_crc16 : ℕ → ℕ → Bool → Bool → ℕ → List ℕ → ℕ
unfolding check_wide
check_crc16 poly init refin refout xor_out buffer =
    check_wide 16 ref_16bit poly init refin refout xor_out buffer

unfoldable pub check_crc32 : ℕ → ℕ → Bool → Bool → ℕ → List ℕ → ℕ
unfolding check_wide
check_crc32 poly init refin refout xor_out buffer =
    check_wide 32 ref_32bit poly init refin refout xor_out buffer

-- `crc_type_t`
pub record CrcType : Type 0 where
  pub width : ℕ
  pub poly : ℕ
  pub init : ℕ
  pub refin : Bool
  pub refout : Bool
  pub xor_out : ℕ

-- `CRC8_MAXIM_INIT`
abbrev pub crc8_maxim : CrcType
crc8_maxim = record { width = 8; poly = 0x31; init = 0; refin = true; refout = true; xor_out = 0 }

-- The narrow functions take their parameters as uint8_t, `check_crc16` as uint16_t.
unfoldable pub crc_check : CrcType → List ℕ → ℕ
unfolding check_crc4 check_crc5 check_crc6 check_crc7 check_crc8 check_crc16 check_crc32
crc_check t buffer =
    if t.width == 4
    then check_crc4 (u8 t.poly) (u8 t.init) t.refin t.refout (u8 t.xor_out) buffer
    else if t.width == 5
    then check_crc5 (u8 t.poly) (u8 t.init) t.refin t.refout (u8 t.xor_out) buffer
    else if t.width == 6
    then check_crc6 (u8 t.poly) (u8 t.init) t.refin t.refout (u8 t.xor_out) buffer
    else if t.width == 7
    then check_crc7 (u8 t.poly) (u8 t.init) t.refin t.refout (u8 t.xor_out) buffer
    else if t.width == 8
    then check_crc8 (u8 t.poly) (u8 t.init) t.refin t.refout (u8 t.xor_out) buffer
    else if t.width == 16
    then check_crc16 (u16 t.poly) (u16 t.init) t.refin t.refout (u16 t.xor_out) buffer
    else if t.width == 32
    then check_crc32 t.poly t.init t.refin t.refout t.xor_out buffer
    else 0
