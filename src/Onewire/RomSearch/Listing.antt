-- ===== src/Onewire/RomSearch/Listing.antt =====
-- The codes of the tree are those of the slaves on the line, each once and in order.
use ch582_water_jinru.Common.{
  ℕ, zero, suc, ◌≡◌, refl, sym, ap, ◌∙◌, Bool, true, false, not, ◌||◌, List, [], ◌∷◌, ◌++◌, map,
  length, if◌then◌else◌, arith,
}
use ch582_water_jinru.Onewire.RomSearch.Tree.{Code, Tree, leaf, one, fork, paths}
use ch582_water_jinru.Onewire.RomSearch.Slaves.{narrow}
use ch582_water_jinru.Onewire.RomSearch.Codes.{All, Sized, all_zero, all_one, both, shape, tree_of}

abbrev pub code_eq : Code → Code → Bool
code_eq [] [] = true
code_eq [] (d ∷ v) = false
code_eq (c ∷ w) [] = false
code_eq (true ∷ w) (true ∷ v) = code_eq w v
code_eq (true ∷ w) (false ∷ v) = false
code_eq (false ∷ w) (true ∷ v) = false
code_eq (false ∷ w) (false ∷ v) = code_eq w v

abbrev pub has : Code → List Code → Bool
has w [] = false
has w (v ∷ codes) = code_eq w v || has w codes

-- The first bit that differs is 0.
abbrev pub Before : Code → Code → Type 0
Before [] v = ⊥
Before (c ∷ w) [] = ⊥
Before (true ∷ w) (true ∷ v) = Before w v
Before (true ∷ w) (false ∷ v) = ⊥
Before (false ∷ w) (true ∷ v) = Unit {0}
Before (false ∷ w) (false ∷ v) = Before w v

abbrev pub IsAscending : List Code → Type 0
IsAscending [] = Unit {0}
IsAscending (w ∷ codes) = All (Before w) codes × IsAscending codes

or_assoc : (a b c : Bool) → ((a || b) || c) ≡ (a || (b || c))
or_assoc true b c = refl
or_assoc false b c = refl

has-append : (w : Code) (xs ys : List Code) → has w (xs ++ ys) ≡ (has w xs || has w ys)
has-append w [] ys = refl
has-append w (x ∷ xs) ys =
    rw (has-append w xs ys) (sym (or_assoc (code_eq w x) (has w xs) (has w ys)))

has-map_same : (b : Bool) (w : Code) (xs : List Code) → has (b ∷ w) (map (λ v. b ∷ v) xs) ≡ has w xs
has-map_same b w [] = refl
has-map_same true w (x ∷ xs) = rw (has-map_same true w xs)
has-map_same false w (x ∷ xs) = rw (has-map_same false w xs)

has-map_other :
    (b : Bool) (w : Code) (xs : List Code) → has (b ∷ w) (map (λ v. not b ∷ v) xs) ≡ false
has-map_other b w [] = refl
has-map_other true w (x ∷ xs) = has-map_other true w xs
has-map_other false w (x ∷ xs) = has-map_other false w xs

has-narrow : (b : Bool) (w : Code) (codes : List Code) → has (b ∷ w) codes ≡ has w (narrow b codes)
has-narrow b w [] = refl
has-narrow b w ([] ∷ codes) = has-narrow b w codes
has-narrow true w ((true ∷ v) ∷ codes) = rw (has-narrow true w codes)
has-narrow true w ((false ∷ v) ∷ codes) = has-narrow true w codes
has-narrow false w ((true ∷ v) ∷ codes) = has-narrow false w codes
has-narrow false w ((false ∷ v) ∷ codes) = rw (has-narrow false w codes)

or_false : (b : Bool) → (b || false) ≡ b
or_false true = refl
or_false false = refl

has-both :
    (c : Bool) (w : Code) (xs ys : List Code)
    → has (c ∷ w) (map (λ v. false ∷ v) xs ++ map (λ v. true ∷ v) ys)
      ≡ (if c then has w ys else has w xs)
has-both true w xs ys =
    has-append (true ∷ w) (map (λ v. false ∷ v) xs) (map (λ v. true ∷ v) ys)
    ∙ rw (has-map_other true w xs, has-map_same true w ys)
has-both false w xs ys =
    has-append (false ∷ w) (map (λ v. false ∷ v) xs) (map (λ v. true ∷ v) ys)
    ∙ rw (has-map_other false w ys, has-map_same false w xs) (or_false (has w xs))

has-empty :
    (w : Code) (codes : List Code) (b : Bool) → narrow b codes ≡ [] → has (b ∷ w) codes ≡ false
has-empty w codes b e = has-narrow b w codes ∙ ap (has w) e

-- A code is in the tree if it is one of the codes.
pub has-paths :
    (n : ℕ) (codes : List Code) (w : Code)
    → Sized n codes
    → length w ≡ n
    → has w (paths (tree_of n codes)) ≡ has w codes
unfolding paths tree_of
has-paths zero [] w s e = absurd (s.some_code refl)
has-paths zero ([] ∷ codes) [] s e = refl
has-paths zero ((c ∷ v) ∷ codes) w s e = absurd (omega (arith, s.size.0))
has-paths zero codes (c ∷ w) s e = absurd (omega arith)
has-paths (suc n) codes [] s e = absurd (omega arith)
has-paths (suc n) codes (true ∷ w) s e = elim (shape n codes s) [
  | all_zero none_one _ s0 t ↦
      ap (λ x. has (true ∷ w) (paths x)) t
      ∙ has-map_other true w (paths (tree_of n (narrow false codes)))
      ∙ sym (has-empty w codes true none_one)
  | all_one _ _ s1 t ↦
      ap (λ x. has (true ∷ w) (paths x)) t
      ∙ has-map_same true w (paths (tree_of n (narrow true codes)))
      ∙ has-paths n (narrow true codes) w s1 (omega arith)
      ∙ sym (has-narrow true w codes)
  | both _ _ s0 s1 t ↦
      ap (λ x. has (true ∷ w) (paths x)) t
      ∙ has-both true w (paths (tree_of n (narrow false codes)))
          (paths (tree_of n (narrow true codes)))
      ∙ has-paths n (narrow true codes) w s1 (omega arith)
      ∙ sym (has-narrow true w codes)
]
has-paths (suc n) codes (false ∷ w) s e = elim (shape n codes s) [
  | all_zero _ _ s0 t ↦
      ap (λ x. has (false ∷ w) (paths x)) t
      ∙ has-map_same false w (paths (tree_of n (narrow false codes)))
      ∙ has-paths n (narrow false codes) w s0 (omega arith)
      ∙ sym (has-narrow false w codes)
  | all_one none_zero _ s1 t ↦
      ap (λ x. has (false ∷ w) (paths x)) t
      ∙ has-map_other false w (paths (tree_of n (narrow true codes)))
      ∙ sym (has-empty w codes false none_zero)
  | both _ _ s0 s1 t ↦
      ap (λ x. has (false ∷ w) (paths x)) t
      ∙ has-both false w (paths (tree_of n (narrow false codes)))
          (paths (tree_of n (narrow true codes)))
      ∙ has-paths n (narrow false codes) w s0 (omega arith)
      ∙ sym (has-narrow false w codes)
]

All-append : {A : Type 0} (P : A → Type 0) (xs ys : List A) → All P xs → All P ys → All P (xs ++ ys)
All-append P [] ys a b = b
All-append P (x ∷ xs) ys a b = (a.0, All-append P xs ys a.1 b)

Before-map :
    (b : Bool) (w : Code) (xs : List Code)
    → All (Before w) xs
    → All (Before (b ∷ w)) (map (λ v. b ∷ v) xs)
Before-map b w [] a = tt
Before-map true w (x ∷ xs) a = (a.0, Before-map true w xs a.1)
Before-map false w (x ∷ xs) a = (a.0, Before-map false w xs a.1)

IsAscending-map : (b : Bool) (xs : List Code) → IsAscending xs → IsAscending (map (λ v. b ∷ v) xs)
IsAscending-map b [] a = tt
IsAscending-map b (x ∷ xs) a = (Before-map b x xs a.0, IsAscending-map b xs a.1)

zero-Before_one : (w : Code) (ys : List Code) → All (Before (false ∷ w)) (map (λ v. true ∷ v) ys)
zero-Before_one w [] = tt
zero-Before_one w (y ∷ ys) = (tt, zero-Before_one w ys)

IsAscending-append :
    (xs ys : List Code)
    → IsAscending xs
    → IsAscending ys
    → IsAscending (map (λ v. false ∷ v) xs ++ map (λ v. true ∷ v) ys)
IsAscending-append [] ys a b = IsAscending-map true ys b
IsAscending-append (x ∷ xs) ys a b = (
  All-append (Before (false ∷ x)) _ _ (Before-map false x xs a.0) (zero-Before_one x ys),
  IsAscending-append xs ys a.1 b,
)

pub paths-IsAscending : (t : Tree) → IsAscending (paths t)
unfolding paths
paths-IsAscending leaf = (tt, tt)
paths-IsAscending (one b t) = IsAscending-map b (paths t) (paths-IsAscending t)
paths-IsAscending (fork t u) =
    IsAscending-append (paths t) (paths u) (paths-IsAscending t) (paths-IsAscending u)
