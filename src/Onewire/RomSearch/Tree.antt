-- ===== src/Onewire/RomSearch/Tree.antt =====
-- The ROM codes on a 1-Wire line as a tree of bits, and a pass of `Search_ROM` over it.
use ch582_water_jinru.Common.{
  ℕ, ◌+◌, ◌≡◌, refl, Bool, true, false, List, [], ◌∷◌, ◌++◌, map, ltb, if◌then◌else◌,
}

abbrev pub Code : Type 0
Code = List Bool

-- The codes agree on the next bit, or both bits occur.
pub data Tree : Type 0 where
  leaf : Tree
  one : Bool → Tree → Tree
  fork : Tree → Tree → Tree

-- The codes of the tree, those with a 0 first.
unfoldable pub paths : Tree → List Code
paths leaf = [] ∷ []
paths (one b t) = map (λ w. b ∷ w) (paths t)
paths (fork t u) = map (λ w. false ∷ w) (paths t) ++ map (λ w. true ∷ w) (paths u)

abbrev pub first : Tree → Code
first leaf = []
first (one b t) = b ∷ first t
first (fork t u) = false ∷ first t

abbrev pub On : Tree → Code → Type 0
On leaf [] = Unit {0}
On leaf (c ∷ w) = ⊥
On (one b t) [] = ⊥
On (one b t) (c ∷ w) = (b ≡ c) × On t w
On (fork t u) [] = ⊥
On (fork t u) (false ∷ w) = On t w
On (fork t u) (true ∷ w) = On u w

-- Every code is as long as the path.
abbrev pub Deep : Tree → Code → Type 0
Deep leaf [] = Unit {0}
Deep leaf (c ∷ w) = ⊥
Deep (one b t) [] = ⊥
Deep (one b t) (c ∷ w) = Deep t w
Deep (fork t u) [] = ⊥
Deep (fork t u) (c ∷ w) = Deep t w × Deep u w

-- The codes after a code.
unfoldable pub after : Tree → Code → List Code
unfolding paths
after leaf w = []
after (one b t) [] = []
after (one b t) (c ∷ w) = map (λ v. b ∷ v) (after t w)
after (fork t u) [] = []
after (fork t u) (false ∷ w) = map (λ v. false ∷ v) (after t w) ++ map (λ v. true ∷ v) (paths u)
after (fork t u) (true ∷ w) = map (λ v. true ∷ v) (after u w)

-- The places, from `j` on, where the code takes the 0 of two bits, the last first.
unfoldable pub zeros : Tree → ℕ → Code → List ℕ
zeros leaf j w = []
zeros (one b t) j [] = []
zeros (one b t) j (c ∷ w) = zeros t (j + 1) w
zeros (fork t u) j [] = []
zeros (fork t u) j (false ∷ w) = zeros t (j + 1) w ++ (j ∷ [])
zeros (fork t u) j (true ∷ w) = zeros u (j + 1) w

abbrev pub top : List ℕ → ℕ
top [] = 0
top (p ∷ st) = p

abbrev pub tail : List ℕ → List ℕ
tail [] = []
tail (p ∷ st) = st

-- The bit taken at place `j`, where the last code has `c`; what is left of the tree, and the stack.
abbrev pub move : ℕ → Tree → List ℕ → Bool → Bool × Tree × List ℕ
move j leaf st c = (c, leaf, st)
move j (one b t) st c = (b, t, st)
move j (fork t u) st c =
    if ltb (top st) j
    then (false, t, j ∷ st)
    else if ltb j (top st)
    then (c, (if c then u else t), st)
    else (true, u, tail st)

-- A pass, with the last code.
unfoldable pub pass : ℕ → Tree → List ℕ → Code → Code × List ℕ
pass j t st [] = ([], st)
pass j t st (c ∷ w) =
    let m = move j t st c in let rest = pass (j + 1) m.1 m.2 w in (m.0 ∷ rest.0, rest.1)

pub first-On : (t : Tree) → On t (first t)
first-On leaf = tt
first-On (one b t) = (refl, first-On t)
first-On (fork t u) = first-On t

pub paths-eq-first : (t : Tree) → paths t ≡ first t ∷ after t (first t)
unfolding after
paths-eq-first leaf = refl
paths-eq-first (one b t) = rw (paths-eq-first t)
paths-eq-first (fork t u) = rw (paths-eq-first t)
