-- ===== src/Onewire/RomSearch/Codes.antt =====
-- The tree of a list of ROM codes, and its codes in order.
use mathlib.Core.Path.{subst}
use ch582_water_jinru.Common.{
  ℕ, zero, suc, ◌≡◌, ◌≢◌, refl, sym, Bool, true, false, not, List, [], ◌∷◌, length, ◌⊎◌, inl, inr,
  arith,
}
use ch582_water_jinru.Onewire.RomSearch.Tree.{Code, Tree, leaf, one, fork, Deep}
use ch582_water_jinru.Onewire.RomSearch.Slaves.{narrow, wired, Fits}

abbrev pub All {ℓ} : {A : Type 0} → (A → Type ℓ) → List A → Type ℓ
All P [] = Unit
All P (x ∷ xs) = P x × All P xs

-- Codes of `n` bits, and at least one.
pub record Sized (n : ℕ) (codes : List Code) : Type 0 where
  pub some_code : codes ≢ []
  pub size : All (λ (w : Code). length w ≡ n) codes

abbrev branch : List Code → List Code → Tree → Tree → Tree
branch [] (w ∷ codes) t u = one true u
branch (w ∷ codes) [] t u = one false t
branch (v ∷ codes0) (w ∷ codes1) t u = fork t u
branch [] [] t u = leaf

unfoldable pub tree_of : ℕ → List Code → Tree
tree_of zero codes = leaf
tree_of (suc n) codes =
    branch (narrow false codes) (narrow true codes) (tree_of n (narrow false codes))
      (tree_of n (narrow true codes))

narrow-size :
    (n : ℕ) (b : Bool) (codes : List Code)
    → All (λ (w : Code). length w ≡ suc n) codes
    → All (λ (w : Code). length w ≡ n) (narrow b codes)
narrow-size n b [] a = tt
narrow-size n b ([] ∷ codes) a = narrow-size n b codes a.1
narrow-size n true ((true ∷ w) ∷ codes) a = (omega arith, narrow-size n true codes a.1)
narrow-size n true ((false ∷ w) ∷ codes) a = narrow-size n true codes a.1
narrow-size n false ((true ∷ w) ∷ codes) a = narrow-size n false codes a.1
narrow-size n false ((false ∷ w) ∷ codes) a = (omega arith, narrow-size n false codes a.1)

-- The line is high at the first bit if no code has a 0, and at the second if none has a 1.
wired_ones : (codes : List Code) → narrow false codes ≡ [] → wired (λ b. b) codes ≡ true
wired_ones [] e = refl
wired_ones ([] ∷ codes) e = wired_ones codes e
wired_ones ((true ∷ w) ∷ codes) e = wired_ones codes e
wired_ones ((false ∷ w) ∷ codes) e = absurd (cc)

wired_zeros : (codes : List Code) → narrow true codes ≡ [] → wired not codes ≡ true
wired_zeros [] e = refl
wired_zeros ([] ∷ codes) e = wired_zeros codes e
wired_zeros ((true ∷ w) ∷ codes) e = absurd (cc)
wired_zeros ((false ∷ w) ∷ codes) e = wired_zeros codes e

wired_low :
    (codes : List Code) (v : Code) (rest : List Code)
    → narrow false codes ≡ v ∷ rest
    → wired (λ b. b) codes ≡ false
wired_low [] v rest e = cc
wired_low ([] ∷ codes) v rest e = wired_low codes v rest e
wired_low ((true ∷ w) ∷ codes) v rest e = wired_low codes v rest e
wired_low ((false ∷ w) ∷ codes) v rest e = refl

wired_low_not :
    (codes : List Code) (v : Code) (rest : List Code)
    → narrow true codes ≡ v ∷ rest
    → wired not codes ≡ false
wired_low_not [] v rest e = cc
wired_low_not ([] ∷ codes) v rest e = wired_low_not codes v rest e
wired_low_not ((true ∷ w) ∷ codes) v rest e = refl
wired_low_not ((false ∷ w) ∷ codes) v rest e = wired_low_not codes v rest e

none_left :
    (n : ℕ) (codes : List Code)
    → All (λ (w : Code). length w ≡ suc n) codes
    → narrow false codes ≡ []
    → narrow true codes ≡ []
    → codes ≡ []
none_left n [] a e e' = refl
none_left n ([] ∷ codes) a e e' = absurd (omega arith)
none_left n ((true ∷ w) ∷ codes) a e e' = absurd (cc)
none_left n ((false ∷ w) ∷ codes) a e e' = absurd (cc)

List-cases : {A : Type 0} (xs : List A) → (xs ≡ []) ⊎ ((x : A) × (ys : List A) × (xs ≡ x ∷ ys))
List-cases [] = inl refl
List-cases (x ∷ ys) = inr (x, ys, refl)

-- What the bits after `codes` look like, and the tree above them.
pub data Shape (n : ℕ) (codes : List Code) : Type 0 where
  all_zero :
      narrow true codes ≡ []
      → wired (λ b. b) codes ≡ false
      → Sized n (narrow false codes)
      → tree_of (suc n) codes ≡ one false (tree_of n (narrow false codes))
      → Shape n codes
  all_one :
      narrow false codes ≡ []
      → wired not codes ≡ false
      → Sized n (narrow true codes)
      → tree_of (suc n) codes ≡ one true (tree_of n (narrow true codes))
      → Shape n codes
  both :
      wired (λ b. b) codes ≡ false
      → wired not codes ≡ false
      → Sized n (narrow false codes)
      → Sized n (narrow true codes)
      → tree_of (suc n) codes
        ≡ fork (tree_of n (narrow false codes)) (tree_of n (narrow true codes))
      → Shape n codes

some_left :
    (n : ℕ) (v : Code) (xs vs : List Code)
    → xs ≡ v ∷ vs
    → All (λ (w : Code). length w ≡ n) xs
    → Sized n xs
some_left n v xs vs e size = record { some_code = λ e'. cc; size = size }

module _ (v w : Code) (xs ys vs ws : List Code) (t u : Tree) where
  branch_zero : xs ≡ v ∷ vs → ys ≡ [] → branch xs ys t u ≡ one false t
  branch_zero e e' = rw (e, e')

  branch_one : xs ≡ [] → ys ≡ w ∷ ws → branch xs ys t u ≡ one true u
  branch_one e e' = rw (e, e')

  branch_both : xs ≡ v ∷ vs → ys ≡ w ∷ ws → branch xs ys t u ≡ fork t u
  branch_both e e' = rw (e, e')

pub shape : (n : ℕ) (codes : List Code) → Sized (suc n) codes → Shape n codes
unfolding tree_of
shape n codes s =
    let size0 = narrow-size n false codes s.size in
    let size1 = narrow-size n true codes s.size in
    elim (List-cases (narrow false codes)) [
      | inl e0 ↦ elim (List-cases (narrow true codes)) [
        | inl e1 ↦ absurd (s.some_code (none_left n codes s.size e0 e1))
        | inr (w, ws, e1) ↦
            all_one e0 (wired_low_not codes w ws e1) (some_left n w _ ws e1 size1)
              (branch_one w w _ _ ws ws _ _ e0 e1)
      ]
      | inr (v, vs, e0) ↦ elim (List-cases (narrow true codes)) [
        | inl e1 ↦
            all_zero e1 (wired_low codes v vs e0) (some_left n v _ vs e0 size0)
              (branch_zero v v _ _ vs vs _ _ e0 e1)
        | inr (w, ws, e1) ↦
            both (wired_low codes v vs e0) (wired_low_not codes w ws e1)
              (some_left n v _ vs e0 size0) (some_left n w _ ws e1 size1)
              (branch_both v w _ _ vs ws _ _ e0 e1)
      ]
    ]

pub Fits-tree_of : (n : ℕ) (codes : List Code) → Sized n codes → Fits codes (tree_of n codes)
unfolding tree_of
Fits-tree_of zero codes s = tt
Fits-tree_of (suc n) codes s = elim (shape n codes s) [
  | all_zero e low s0 t ↦
      subst (Fits codes) (sym t) (low, wired_zeros codes e, Fits-tree_of n (narrow false codes) s0)
  | all_one e low s1 t ↦
      subst (Fits codes) (sym t) (wired_ones codes e, low, Fits-tree_of n (narrow true codes) s1)
  | both low low' s0 s1 t ↦
      subst (Fits codes) (sym t)
        (low, low', Fits-tree_of n (narrow false codes) s0, Fits-tree_of n (narrow true codes) s1)
]

pub Deep-tree_of :
    (n : ℕ) (codes : List Code) (w : Code) → Sized n codes → length w ≡ n → Deep (tree_of n codes) w
unfolding tree_of
Deep-tree_of zero codes [] s e = tt
Deep-tree_of zero codes (c ∷ w) s e = absurd (omega arith)
Deep-tree_of (suc n) codes [] s e = absurd (omega arith)
Deep-tree_of (suc n) codes (c ∷ w) s e = elim (shape n codes s) [
  | all_zero _ _ s0 t ↦
      subst (λ x. Deep x (c ∷ w)) (sym t) (Deep-tree_of n (narrow false codes) w s0 (omega arith))
  | all_one _ _ s1 t ↦
      subst (λ x. Deep x (c ∷ w)) (sym t) (Deep-tree_of n (narrow true codes) w s1 (omega arith))
  | both _ _ s0 s1 t ↦
      subst (λ x. Deep x (c ∷ w)) (sym t)
        (
          Deep-tree_of n (narrow false codes) w s0 (omega arith),
          Deep-tree_of n (narrow true codes) w s1 (omega arith),
        )
]
