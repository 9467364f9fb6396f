-- ===== src/Onewire/RomSearch/Stack.antt =====
-- The stack and the bits of `Search_ROM` (src/onewire.c), as they lie in its arrays.
use Prim.Native.Nat.{bit_and, bit_or}
use ch582_water_jinru.Common.{
  ℕ, suc, ◌+◌, ◌-◌, ◌*◌, ◌/◌, ◌<◌, ◌^◌, ◌≡◌, refl, sym, ap, ◌∙◌, Bool, ◌&&◌, true, false, List, [],
  ◌∷◌, ◌==◌, ==_iff, and_left, and_right, length, get_or, set, get_or-set_self, get_or-set_ne, u8,
  arith,
}
use ch582_water_jinru.Common.Bits.{true_upto, true_upto_lem}
use ch582_water_jinru.Onewire.RomSearch.Tree.{top, tail}
use ch582_water_jinru.Onewire.RomSearch.Slaves.{value}

-- The array and its index hold the stack, its top first.
abbrev pub Holds : List ℕ → List ℕ → ℕ → Type 0
Holds buf [] l = (l ≡ 0) × (get_or buf 0 0 ≡ 0)
Holds buf (p ∷ st) l = (l ≡ suc (length st)) × (get_or buf l 0 ≡ p) × Holds buf st (length st)

pub Holds-length : (buf st : List ℕ) (l : ℕ) → Holds buf st l → l ≡ length st
Holds-length buf [] l h = h.0
Holds-length buf (p ∷ st) l h = h.0

pub Holds-top : (buf st : List ℕ) (l : ℕ) → Holds buf st l → get_or buf l 0 ≡ top st
Holds-top buf [] l h = ap (λ k. get_or buf k 0) h.0 ∙ h.1
Holds-top buf (p ∷ st) l h = h.1

pub Holds-set : (buf st : List ℕ) (l k p : ℕ) → l < k → Holds buf st l → Holds (set buf k p) st l
Holds-set buf [] l k p less h = (h.0, get_or-set_ne buf k 0 p 0 (λ e. omega arith) ∙ h.1)
Holds-set buf (q ∷ st) l k p less h = (
  h.0,
  get_or-set_ne buf k l p 0 (λ e. omega arith) ∙ h.1,
  Holds-set buf st (length st) k p (omega arith) h.2,
)

pub Holds-push :
    (buf st : List ℕ) (l p : ℕ)
    → l + 1 < length buf
    → Holds buf st l
    → Holds (set buf (l + 1) p) (p ∷ st) (l + 1)
Holds-push buf st l p room h =
    let e : l ≡ length st = Holds-length buf st l h in
    (
      omega arith,
      get_or-set_self buf (l + 1) p 0 room,
      rw (← e) (Holds-set buf st l (l + 1) p (omega arith) h),
    )

pub Holds-pop : (buf st : List ℕ) (l : ℕ) → 0 < l → Holds buf st l → Holds buf (tail st) (l - 1)
Holds-pop buf [] l some_left h = absurd (omega arith)
Holds-pop buf (p ∷ st) l some_left h = let e : l - 1 ≡ length st = omega arith in rw e h.2

-- The bits passed, the last first, before those of the last pass.
abbrev pub behind : {A : Type 0} → List A → List A → List A
behind [] ys = ys
behind (x ∷ past) ys = behind past (x ∷ ys)

pub set-behind :
    {A : Type 0} (past zs : List A) (k i : ℕ) (y : A)
    → length past + k ≡ i
    → set (behind past zs) i y ≡ behind past (set zs k y)
set-behind [] zs k i y e = ap (λ n. set zs n y) (sym (omega arith))
set-behind (x ∷ past) zs k i y e = set-behind past (x ∷ zs) (suc k) i y (omega arith)

pub get_or-behind :
    {A : Type 0} (past zs : List A) (k i : ℕ) (d : A)
    → length past + k ≡ i
    → get_or (behind past zs) i d ≡ get_or zs k d
get_or-behind [] zs k i d e = ap (λ n. get_or zs n d) (sym (omega arith))
get_or-behind (x ∷ past) zs k i d e = get_or-behind past (x ∷ zs) (suc k) i d (omega arith)

or_table : true_upto (λ d. (bit_or d 0x80 == d + 128) && (bit_or d 0 == d)) 128 ≡ true
unfolding true_upto
or_table = refl

pub or_fine : (d : ℕ) → d < 128 → (bit_or d 0x80 ≡ d + 128) × (bit_or d 0 ≡ d)
or_fine d h =
    let both =
      true_upto_lem 128 (λ d. (bit_or d 0x80 == d + 128) && (bit_or d 0 == d)) h or_table in
    ((==_iff _ _).0 (and_left _ _ both), (==_iff _ _).0 (and_right _ _ both))

-- The bit of the last pass, put in at the top of the byte.
pub old_shift :
    (c : Bool) (s : ℕ)
    → s < 256
    → bit_or (s / 2) (u8 (bit_and (value c) 1 * 2 ^ 7)) ≡ s / 2 + 128 * value c
old_shift true s h = (or_fine (s / 2) (omega arith)).0
old_shift false s h = (or_fine (s / 2) (omega arith)).1 ∙ omega arith
