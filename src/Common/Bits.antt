-- ===== src/Common/Bits.antt =====
-- Bit operations on bytes. The library's `bit_and` and `bit_or` compute at numerals; laws over a
-- byte are checked at every value.
use Prim.Native.Nat.{ℕ, zero, suc, ◌-◌, ◌/◌, ◌%◌, ◌^◌, ◌<◌, bit_and, bit_or}
use mathlib.Core.Path.{◌≡◌, refl}
use mathlib.Core.Bool.{Bool, true, false}
use native.Mathlib.Omega.{arith}
use ch582_water_jinru.Common.Tests.{◌==◌, if◌then◌else◌, ==_iff}

-- `BITS_SET` and, for a byte, `BITS_CLEAR` of include/utils.h.
abbrev pub bits_set : ℕ → ℕ → ℕ
bits_set d mask = bit_or d mask

abbrev pub bits_clear : ℕ → ℕ → ℕ
bits_clear d mask = bit_and d (255 - mask % 256)

-- `(d >> i) & 0x01`
abbrev pub bit_at : ℕ → ℕ → ℕ
bit_at d i = d / 2 ^ i % 2

-- The test holds of the `k` numbers below `k`.
unfoldable pub true_upto : (ℕ → Bool) → ℕ → Bool
true_upto test zero = true
true_upto test (suc k) = if true_upto test k then test k else false

pub true_upto_lem :
    (k : ℕ) (test : ℕ → Bool) {i : ℕ} → i < k → true_upto test k ≡ true → test i ≡ true
unfolding true_upto
true_upto_lem zero test lt h = absurd (omega arith)
true_upto_lem (suc k) test {i = x} lt h = ground (arith, true_upto_lem k test {i = x})

module _ (p : ℕ → ℕ → ℕ → Bool) where
  -- All bytes `d` and all positions `i` and `j`.
  everywhere : Bool
  everywhere = true_upto (λ d. true_upto (λ i. true_upto (λ j. p d i j) 8) 8) 256

  everywhere_sound : (d i j : ℕ) → everywhere ≡ true → d < 256 → i < 8 → j < 8 → p d i j ≡ true
  unfolding everywhere
  everywhere_sound d i j h hd hi hj =
      true_upto_lem 8 (λ m. p d i m) hj
        (true_upto_lem 8 (λ k. true_upto (λ m. p d k m) 8) hi (true_upto_lem 256 _ hd h))

set_table :
    everywhere (λ d i j. bit_at (bits_set d (2 ^ i)) j == (if i == j then 1 else bit_at d j)) ≡ true
unfolding everywhere true_upto
set_table = refl

clear_table :
    everywhere (λ d i j. bit_at (bits_clear d (2 ^ i)) j == (if i == j then 0 else bit_at d j))
    ≡ true
unfolding everywhere true_upto
clear_table = refl

pub bit_at-bits_set :
    (d i j : ℕ)
    → d < 256
    → i < 8
    → j < 8
    → bit_at (bits_set d (2 ^ i)) j ≡ (if i == j then 1 else bit_at d j)
bit_at-bits_set d i j hd hi hj = (==_iff _ _).0 (everywhere_sound _ d i j set_table hd hi hj)

pub bit_at-bits_clear :
    (d i j : ℕ)
    → d < 256
    → i < 8
    → j < 8
    → bit_at (bits_clear d (2 ^ i)) j ≡ (if i == j then 0 else bit_at d j)
bit_at-bits_clear d i j hd hi hj = (==_iff _ _).0 (everywhere_sound _ d i j clear_table hd hi hj)

ones_table : true_upto (λ d. bit_and 0xff d == d) 256 ≡ true
unfolding true_upto
ones_table = refl

-- A mask of eight ones keeps a byte.
pub bit_and_ones : (d : ℕ) → d < 256 → bit_and 0xff d ≡ d
bit_and_ones d h = (==_iff _ d).0 (true_upto_lem 256 _ h ones_table)
