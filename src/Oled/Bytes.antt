-- ===== src/Oled/Bytes.antt =====
-- Bit operations on the bytes of the frame buffer of src/oled.c, checked at every value.
use Prim.Native.Nat.{bit_and, bit_or}
use ch582_water_jinru.Common.{ℕ, ◌<◌, ◌≡◌, refl, true, ltb, ltb→lt, ◌==◌, ==_iff}
use ch582_water_jinru.Common.Bits.{bit_at, true_upto, true_upto_lem}

and_table : true_upto (λ b. true_upto (λ m. ltb (bit_and b m) 256) 256) 256 ≡ true
unfolding true_upto
and_table = refl

pub bit_and_lt : (b m : ℕ) → b < 256 → m < 256 → bit_and b m < 256
bit_and_lt b m hb hm = ltb→lt (bit_and b m) 256 (
    true_upto_lem 256 (λ k. ltb (bit_and b k) 256) hm
      (true_upto_lem 256 (λ c. true_upto (λ k. ltb (bit_and c k) 256) 256) hb and_table))

or_table : true_upto (λ b. true_upto (λ m. ltb (bit_or b m) 256) 256) 256 ≡ true
unfolding true_upto
or_table = refl

pub bit_or_lt : (b m : ℕ) → b < 256 → m < 256 → bit_or b m < 256
bit_or_lt b m hb hm = ltb→lt (bit_or b m) 256 (
    true_upto_lem 256 (λ k. ltb (bit_or b k) 256) hm
      (true_upto_lem 256 (λ c. true_upto (λ k. ltb (bit_or c k) 256) 256) hb or_table))

none_table : true_upto (λ b. bit_and b 0 == 0) 256 ≡ true
unfolding true_upto
none_table = refl

pub bit_and_none : (b : ℕ) → b < 256 → bit_and b 0 ≡ 0
bit_and_none b h = (==_iff _ _).0 (true_upto_lem 256 (λ c. bit_and c 0 == 0) h none_table)

dark_table : true_upto (λ j. bit_at 0 j == 0) 8 ≡ true
unfolding true_upto
dark_table = refl

pub bit_at_dark : (j : ℕ) → j < 8 → bit_at 0 j ≡ 0
bit_at_dark j h = (==_iff _ _).0 (true_upto_lem 8 (λ k. bit_at 0 k == 0) h dark_table)
