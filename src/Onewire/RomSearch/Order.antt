-- ===== src/Onewire/RomSearch/Order.antt =====
-- A pass of `Search_ROM` (src/onewire.c) goes from one code of the tree to the next.
use mathlib.Core.List.{append_assoc}
use ch582_water_jinru.Common.{
  length, ℕ, suc, ◌+◌, ◌≤◌, ◌<◌, ◌≡◌, refl, ap, Bool, true, false, List, [], ◌∷◌, ◌++◌, map, lt→ltb,
  le→ltb, inl, inr, ◌⊎◌, arith,
}
use ch582_water_jinru.Onewire.RomSearch.Tree.{
  Code, Tree, leaf, one, fork, paths, first, On, Deep, after, zeros, top, pass, first-On,
  paths-eq-first,
}

-- Where all places of the stack are passed, every conflict is new and takes the 0.
pub pass-first :
    (t : Tree) (j : ℕ) (st : List ℕ) (w : Code)
    → Deep t w
    → top st < j
    → pass j t st w ≡ (first t, zeros t j (first t) ++ st)
unfolding pass zeros
pass-first leaf j st [] d h = refl
pass-first leaf j st (c ∷ w) d h = absurd d
pass-first (one b t) j st [] d h = absurd d
pass-first (one b t) j st (c ∷ w) d h = rw (pass-first t (j + 1) st w d (omega arith))
pass-first (fork t u) j st [] d h = absurd d
pass-first (fork t u) j st (c ∷ w) d h =
    rw (lt→ltb _ _ h, pass-first t (j + 1) (j ∷ st) w d.0 (omega arith))
      (rw (append_assoc (zeros t (j + 1) (first t)) (j ∷ []) st))

-- The pass after `w` finds the next code, since the top of the stack is a place of `w`.
pub record Next (t : Tree) (j : ℕ) (base : List ℕ) (w : Code) : Type 0 where
  pub code : Code
  pub found : pass j t (zeros t j w ++ base) w ≡ (code, zeros t j code ++ base)
  pub next : after t w ≡ code ∷ after t code
  pub on : On t code
  pub within : j ≤ top (zeros t j w ++ base)

abbrev pub IsLast : Tree → ℕ → Code → Type 0
IsLast t j w = (zeros t j w ≡ []) × (after t w ≡ [])

one-Next :
    (b c : Bool) (t : Tree) (j : ℕ) (base : List ℕ) (w : Code)
    → Next t (j + 1) base w
    → Next (one b t) j base (c ∷ w)
unfolding pass zeros after
one-Next b c t j base w n = record {
  code = b ∷ n.code;
  found = rw n.found;
  next = ap (map (λ v. b ∷ v)) n.next;
  on = (refl, n.on);
  within = omega (arith, n.within);
}

-- The first part of the fork is done: the top takes its 1.
turn-Next :
    (t u : Tree) (j : ℕ) (base : List ℕ) (w : Code)
    → Deep u w
    → top base < j
    → IsLast t (j + 1) w
    → Next (fork t u) j base (false ∷ w)
unfolding pass zeros after
turn-Next t u j base w d h (z, a) = record {
  code = true ∷ first u;
  found = rw (z, le→ltb j j (omega arith)) (rw (pass-first u (j + 1) base w d (omega arith)));
  next = rw a (ap (map (λ v. true ∷ v)) (paths-eq-first u));
  on = first-On u;
  within = rw z (omega arith);
}

left-Next :
    (t u : Tree) (j : ℕ) (base : List ℕ) (w : Code)
    → Next t (j + 1) (j ∷ base) w
    → Next (fork t u) j base (false ∷ w)
unfolding pass zeros after
left-Next t u j base w n =
    let above : j < top (zeros t (j + 1) w ++ (j ∷ base)) = omega (arith, n.within) in
    let stays = le→ltb (top (zeros t (j + 1) w ++ (j ∷ base))) j (omega arith) in
    record {
      code = false ∷ n.code;
      found =
          rw
            (
              append_assoc (zeros t (j + 1) w) (j ∷ []) base,
              append_assoc (zeros t (j + 1) n.code) (j ∷ []) base,
              stays,
              lt→ltb _ _ above,
            )
            (rw n.found);
      next = ap (λ l. map (λ v. false ∷ v) l ++ map (λ v. true ∷ v) (paths u)) n.next;
      on = n.on;
      within = rw (append_assoc (zeros t (j + 1) w) (j ∷ []) base) (omega (arith, n.within));
    }

right-Next :
    (t u : Tree) (j : ℕ) (base : List ℕ) (w : Code)
    → Next u (j + 1) base w
    → Next (fork t u) j base (true ∷ w)
unfolding pass zeros after
right-Next t u j base w n =
    let above : j < top (zeros u (j + 1) w ++ base) = omega (arith, n.within) in
    let stays = le→ltb (top (zeros u (j + 1) w ++ base)) j (omega arith) in
    record {
      code = true ∷ n.code;
      found = rw (stays, lt→ltb _ _ above) (rw n.found);
      next = ap (map (λ v. true ∷ v)) n.next;
      on = n.on;
      within = omega (arith, n.within);
    }

pub pass-Next :
    (t : Tree) (j : ℕ) (base : List ℕ) (w : Code)
    → Deep t w
    → On t w
    → top base < j
    → IsLast t j w ⊎ Next t j base w
unfolding zeros after
pass-Next leaf j base [] d o h = inl (refl, refl)
pass-Next leaf j base (c ∷ w) d o h = absurd d
pass-Next (one b t) j base [] d o h = absurd d
pass-Next (one b t) j base (c ∷ w) d o h = elim (pass-Next t (j + 1) base w d o.1 (omega arith)) [
  | inl (z, a) ↦ inl (z, ap (map (λ v. b ∷ v)) a)
  | inr n ↦ inr (one-Next b c t j base w n)
]
pass-Next (fork t u) j base [] d o h = absurd d
pass-Next (fork t u) j base (false ∷ w) d o h =
    elim (pass-Next t (j + 1) (j ∷ base) w d.0 o (omega arith)) [
      | inl last ↦ inr (turn-Next t u j base w d.1 h last)
      | inr n ↦ inr (left-Next t u j base w n)
    ]
pass-Next (fork t u) j base (true ∷ w) d o h =
    elim (pass-Next u (j + 1) base w d.1 o (omega arith)) [
      | inl (z, a) ↦ inl (z, ap (map (λ v. true ∷ v)) a)
      | inr n ↦ inr (right-Next t u j base w n)
    ]

Deep-length : (t : Tree) (w v : Code) → length w ≡ length v → Deep t w → Deep t v
Deep-length leaf [] [] e d = tt
Deep-length leaf [] (c ∷ v) e d = absurd (omega arith)
Deep-length leaf (c ∷ w) v e d = absurd d
Deep-length (one b t) [] v e d = absurd d
Deep-length (one b t) (c ∷ w) [] e d = absurd (omega arith)
Deep-length (one b t) (c ∷ w) (c' ∷ v) e d = Deep-length t w v (omega arith) d
Deep-length (fork t u) [] v e d = absurd d
Deep-length (fork t u) (c ∷ w) [] e d = absurd (omega arith)
Deep-length (fork t u) (c ∷ w) (c' ∷ v) e d =
    (Deep-length t w v (omega arith) d.0, Deep-length u w v (omega arith) d.1)

pub On-length : (t : Tree) (w v : Code) → Deep t w → On t v → length w ≡ length v
On-length leaf [] [] d o = refl
On-length leaf [] (c ∷ v) d o = absurd o
On-length leaf (c ∷ w) v d o = absurd d
On-length (one b t) [] v d o = absurd d
On-length (one b t) (c ∷ w) [] d o = absurd o
On-length (one b t) (c ∷ w) (c' ∷ v) d o = ap suc (On-length t w v d o.1)
On-length (fork t u) [] v d o = absurd d
On-length (fork t u) (c ∷ w) [] d o = absurd o
On-length (fork t u) (c ∷ w) (false ∷ v) d o = ap suc (On-length t w v d.0 o)
On-length (fork t u) (c ∷ w) (true ∷ v) d o = ap suc (On-length u w v d.1 o)

pub On-Deep : (t : Tree) (w v : Code) → Deep t w → On t v → Deep t v
On-Deep t w v d o = Deep-length t w v (On-length t w v d o) d
