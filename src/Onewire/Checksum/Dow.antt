-- ===== src/Onewire/Checksum/Dow.antt =====
-- `onewire_crc8` of src/onewire.c is the CRC of the 1-Wire line, but for its first byte.
use Prim.Native.Nat.{bit_xor, bit_xor-bitwise}
use mathlib.Core.Path.{subst}
use ch582_water_jinru.Common.{
  ℕ, zero, suc, ◌/◌, ◌<◌, ◌≡◌, refl, sym, ap, ◌∙◌, Bool, true, ◌&&◌, List, [], ◌∷◌, ltb, ltb→lt,
  ◌==◌, ==_iff, and_left, and_right, arith,
}
use ch582_water_jinru.Common.Bits.{true_upto, true_upto_lem}
use ch582_water_jinru.Crc.{step_right, rounds, feed}
use ch582_water_jinru.Crc.Detection.{AllBytes, xor_byte}
use ch582_water_jinru.Crc16.Bitwise.{xor_right_zero}
use ch582_water_jinru.Onewire.Checksum.{crc8_bit, crc8_bits, crc8_bytes, onewire_crc8}

step : ℕ → ℕ
unfolding step_right
step x = step_right 0x8c x

bit_fine : ℕ → ℕ → Bool
unfolding crc8_bit step
bit_fine crc p =
    ltb (crc8_bit crc p) 256 && bit_xor (crc8_bit crc p) (p / 2) == step (bit_xor crc p)

bit_table : true_upto (λ crc. true_upto (bit_fine crc) 256) 256 ≡ true
unfolding bit_fine true_upto
bit_table = refl

bit_fine_lem : (crc p : ℕ) → crc < 256 → p < 256 → bit_fine crc p ≡ true
bit_fine_lem crc p h k =
    true_upto_lem 256 (bit_fine crc) k
      (true_upto_lem 256 (λ x. true_upto (bit_fine x) 256) h bit_table)

-- One round on the remainder and `pDataBuf` is one round on their exclusive or.
bit_byte : (crc p : ℕ) → crc < 256 → p < 256 → crc8_bit crc p < 256
unfolding bit_fine
bit_byte crc p h k = ltb→lt _ _ (and_left _ _ (bit_fine_lem crc p h k))

bit_step :
    (crc p : ℕ) → crc < 256 → p < 256 → bit_xor (crc8_bit crc p) (p / 2) ≡ step (bit_xor crc p)
unfolding bit_fine
bit_step crc p h k = (==_iff _ _).0 (and_right _ _ (bit_fine_lem crc p h k))

-- `p` moved right by `n` bits.
moved : ℕ → ℕ → ℕ
moved zero p = p
moved (suc n) p = moved n (p / 2)

bits_moved : (n crc p : ℕ) → (crc8_bits n crc p).1 ≡ moved n p
unfolding crc8_bits moved
bits_moved zero crc p = refl
bits_moved (suc n) crc p = bits_moved n (crc8_bit crc p) (p / 2)

bits_byte : (n crc p : ℕ) → crc < 256 → p < 256 → (crc8_bits n crc p).0 < 256
unfolding crc8_bits
bits_byte zero crc p h k = h
bits_byte (suc n) crc p h k =
    bits_byte n (crc8_bit crc p) (p / 2) (bit_byte crc p h k) (omega arith)

bits_rounds :
    (n crc p : ℕ)
    → crc < 256
    → p < 256
    → bit_xor (crc8_bits n crc p).0 (crc8_bits n crc p).1 ≡ rounds n step (bit_xor crc p)
unfolding crc8_bits rounds
bits_rounds zero crc p h k = refl
bits_rounds (suc n) crc p h k =
    bits_rounds n (crc8_bit crc p) (p / 2) (bit_byte crc p h k) (omega arith)
    ∙ ap (rounds n step) (bit_step crc p h k)

all_moved : (p : ℕ) → p < 256 → moved 8 p ≡ 0
unfolding moved
all_moved p h = omega arith

-- After a byte nothing is left of `pDataBuf`.
byte_rounds :
    (crc p : ℕ) → crc < 256 → p < 256 → crc8_bits 8 crc p ≡ (rounds 8 step (bit_xor crc p), 0)
byte_rounds crc p h k =
    let r = crc8_bits 8 crc p in
    let gone : r.1 ≡ 0 = bits_moved 8 crc p ∙ all_moved p k in
    let same : r.0 ≡ rounds 8 step (bit_xor crc p) =
      sym (xor_right_zero r.0 r.0 (omega arith))
      ∙ ap (bit_xor r.0) (sym gone)
      ∙ bits_rounds 8 crc p h k in
    λ i. (same i, gone i)

rounds_byte : (crc p : ℕ) → crc < 256 → p < 256 → rounds 8 step (bit_xor crc p) < 256
rounds_byte crc p h k =
    subst (λ x. x < 256) (ap (λ (x : ℕ × ℕ). x.0) (byte_rounds crc p h k)) (bits_byte 8 crc p h k)

feed_cons :
    (b : ℕ) (buf : List ℕ) (crc : ℕ)
    → feed bit_xor step (b ∷ buf) crc ≡ feed bit_xor step buf (rounds 8 step (bit_xor crc b))
unfolding feed
feed_cons b buf crc = refl

byte_step :
    (b : ℕ) (buf : List ℕ) (crc p : ℕ)
    → crc < 256
    → b < 256
    → p < 256
    → crc8_bytes (b ∷ buf) crc p ≡ crc8_bytes buf (rounds 8 step (bit_xor (bit_xor crc b) p)) 0
unfolding crc8_bytes
byte_step b buf crc p h byte k =
    ap (λ (x : ℕ × ℕ). crc8_bytes buf x.0 x.1)
      (byte_rounds (bit_xor crc b) p (xor_byte crc b h byte) k)

bytes_feed :
    (buf : List ℕ) (crc : ℕ)
    → crc < 256
    → AllBytes buf
    → crc8_bytes buf crc 0 ≡ feed bit_xor step buf crc
unfolding crc8_bytes
bytes_feed [] crc h bytes = unfold feed in refl
bytes_feed (b ∷ buf) crc h (byte, bytes) =
    let x = bit_xor crc b in
    let plain = ap (λ y. rounds 8 step y) (xor_right_zero x x (omega arith)) in
    byte_step b buf crc 0 h byte (omega arith)
    ∙ bytes_feed buf _ (rounds_byte x 0 (xor_byte crc b h byte) (omega arith)) bytes
    ∙ ap (feed bit_xor step buf) plain
    ∙ sym (feed_cons b buf crc)

xor_left_zero : (b : ℕ) → bit_xor 0 b ≡ b
xor_left_zero b = bit_xor-bitwise 0 b

-- `onewire_crc8` is the CRC of the 1-Wire line, polynomial 0x8C bit by bit from 0, of the bytes with
-- the first one changed: what the variable `pDataBuf`, which the function never sets, holds at the
-- start goes into it by exclusive or. It is the CRC of the bytes if the variable holds 0.
pub onewire_crc8-eq-feed :
    (junk b : ℕ) (buf : List ℕ)
    → junk < 256
    → b < 256
    → AllBytes buf
    → onewire_crc8 junk (b ∷ buf) ≡ feed bit_xor (step_right 0x8c) (bit_xor b junk ∷ buf) 0
unfolding onewire_crc8 step
onewire_crc8-eq-feed junk b buf k byte bytes =
    let x = bit_xor b junk in
    let first = ap (λ y. rounds 8 step (bit_xor y junk)) (xor_left_zero b) in
    let second = ap (λ y. rounds 8 step y) (sym (xor_left_zero x)) in
    byte_step b buf 0 junk (omega arith) byte k
    ∙ ap (λ crc. crc8_bytes buf crc 0) (first ∙ second)
    ∙ bytes_feed buf _ (rounds_byte 0 x (omega arith) (xor_byte b junk byte k)) bytes
    ∙ sym (feed_cons x buf 0)

bytes_byte : (buf : List ℕ) (crc : ℕ) → crc < 256 → AllBytes buf → crc8_bytes buf crc 0 < 256
unfolding crc8_bytes
bytes_byte [] crc h bytes = h
bytes_byte (b ∷ buf) crc h (byte, bytes) =
    subst (λ x. x < 256) (sym (byte_step b buf crc 0 h byte (omega arith)))
      (bytes_byte buf _ (rounds_byte (bit_xor crc b) 0 (xor_byte crc b h byte) (omega arith)) bytes)

pub onewire_crc8_byte : (buf : List ℕ) → AllBytes buf → onewire_crc8 0 buf < 256
unfolding onewire_crc8
onewire_crc8_byte buf bytes = bytes_byte buf 0 (omega arith) bytes
