-- ===== src/Onewire/RomSearch/Step.antt =====
-- A bit of `Search_ROM` (src/onewire.c) on a line with slaves is a move in their tree.
use Prim.Native.Nat.{bit_and, bit_or}
use mathlib.Core.Path.{subst}
use ch582_water_jinru.Common.{
  ℕ, ◌+◌, ◌-◌, ◌*◌, ◌/◌, ◌≤◌, ◌<◌, ◌^◌, ◌≡◌, sym, ap, ◌∙◌, Bool, true, false, List, ◌∷◌, map, ltb,
  if◌then◌else◌, Bool-cases, inl, inr, length, get_or, set, u8, arith,
}
use ch582_water_jinru.Onewire.Bus.{Line, onewire_writebit}
use ch582_water_jinru.Onewire.RomSearch.{Search, agreed, conflict, search_bit}
use ch582_water_jinru.Onewire.RomSearch.Bounds.{
  IsValid, depth, agreed-IsValid, conflict-IsValid, not_bottom,
}
use ch582_water_jinru.Onewire.RomSearch.Tree.{Code, Tree, leaf, one, fork, Deep, top, tail, move}
use ch582_water_jinru.Onewire.RomSearch.Slaves.{value, narrow, AreSlaves, Fits}
use ch582_water_jinru.Onewire.RomSearch.Stack.{
  Holds, Holds-top, Holds-push, Holds-pop, behind, set-behind, get_or-behind, or_fine, old_shift,
}

-- The local variables where the bits of `past` are taken and those of `w` are left of the last
-- pass.
pub record At (tree : Tree) (st past : List ℕ) (w : Code) (t : Search) : Type 0 where
  pub valid : IsValid t
  pub stack : Holds t.buffer st t.l
  pub old : t.id ≡ behind past (map value w)
  pub deep : Deep tree w
  pub byte : t.s < 256

Fits-branch :
    (codes : List Code) (tr0 tr1 : Tree) (c : Bool)
    → Fits (narrow false codes) tr0
    → Fits (narrow true codes) tr1
    → Fits (narrow c codes) (if c then tr1 else tr0)
Fits-branch codes tr0 tr1 true f0 f1 = f1
Fits-branch codes tr0 tr1 false f0 f1 = f0

Deep-branch :
    (tr0 tr1 : Tree) (w : Code) (c : Bool)
    → Deep tr0 w × Deep tr1 w
    → Deep (if c then tr1 else tr0) w
Deep-branch tr0 tr1 w true d = d.1
Deep-branch tr0 tr1 w false d = d.0

module _ (line : Line) (devices : List Code) (slaves : AreSlaves line devices) where
  open slaves use {Asked, Answered, two_bits, then_wait, taken}

  -- The slaves that have the bit go on.
  pub record Took (codes : List Code) (b : Bool) (tree : Tree) (st past : List ℕ) (w : Code) (s : ℕ)
      (r : Search × line.W) : Type 0 where
    pub at : At tree st (value b ∷ past) w r.0
    pub asked : Asked (narrow b codes) r.1
    pub fits : Fits (narrow b codes) tree
    pub byte : r.0.s ≡ s / 2 + 128 * value b

  module _ (codes : List Code) (u : line.W) (waiting : Answered codes u) (past : List ℕ) (c : Bool)
      (w : Code) (i : ℕ) (e : length past ≡ i) (in_rom : i < 64) (t : Search) where
    value_le : (b : Bool) → value b ≤ 1
    value_le true = omega arith
    value_le false = omega arith

    id_taken :
        (b : Bool) {tree : Tree} {st : List ℕ}
        → At tree st past (c ∷ w) t
        → set t.id i (value b) ≡ behind (value b ∷ past) (map value w)
    id_taken b a =
        ap (λ id. set id i (value b)) a.old
        ∙ set-behind past (map value (c ∷ w)) 0 i (value b) (omega arith)

    shifted : (b : Bool) (s : ℕ) → t.s < 256 → s ≡ t.s / 2 + 128 * value b → s < 256
    shifted b s h e' = omega (arith, value_le b)

    agreed-Took :
        (b : Bool) (tree tree' : Tree) (st : List ℕ)
        → At tree st past (c ∷ w) t
        → Deep tree' w
        → Fits (narrow b codes) tree'
        → Took codes b tree' st past w t.s (agreed line i (value b) t u)
    unfolding agreed
    agreed-Took true tree tree' st a d f =
        let s' = (or_fine (t.s / 2) (omega (arith, a.byte))).0 in
        record {
          at = record {
            valid = unfold agreed in agreed-IsValid line i in_rom t a.valid u 1;
            stack = a.stack;
            old = id_taken true a;
            deep = d;
            byte = shifted true _ a.byte s';
          };
          asked = taken codes true u waiting;
          fits = f;
          byte = s';
        }
    agreed-Took false tree tree' st a d f =
        let s' : t.s / 2 ≡ t.s / 2 + 128 * 0 = omega arith in
        record {
          at = record {
            valid = unfold agreed in agreed-IsValid line i in_rom t a.valid u 0;
            stack = a.stack;
            old = id_taken false a;
            deep = d;
            byte = shifted false _ a.byte s';
          };
          asked = taken codes false u waiting;
          fits = f;
          byte = s';
        }

    abbrev peek : ℕ
    peek = get_or t.buffer t.l 0

    conflict_new :
        t.l ≤ 64
        → ltb peek (i + 1) ≡ true
        → conflict line i t u ≡ (
          record t {
            s = t.s / 2;
            id = set t.id i 0;
            l = t.l + 1;
            buffer = set t.buffer (t.l + 1) (i + 1);
          },
          (onewire_writebit line 0 u).1,
        )
    unfolding conflict
    conflict_new small h =
        let place : u8 (i + 1) ≡ i + 1 = omega arith in
        let up : u8 (t.l + 1) ≡ t.l + 1 = omega arith in rw place (rw (h, up))

    conflict_lower :
        ltb peek (i + 1) ≡ false
        → ltb (i + 1) peek ≡ true
        → conflict line i t u ≡ (
          record t { s = bit_or (t.s / 2) (u8 (bit_and (get_or t.id i 0) 1 * 2 ^ 7)) },
          (onewire_writebit line (get_or t.id i 0) u).1,
        )
    unfolding conflict
    conflict_lower h k = let place : u8 (i + 1) ≡ i + 1 = omega arith in rw place (rw (h, k))

    conflict_top :
        t.l ≤ 64
        → 0 < t.l
        → ltb peek (i + 1) ≡ false
        → ltb (i + 1) peek ≡ false
        → conflict line i t u ≡ (
          record t { s = bit_or (t.s / 2) 0x80; id = set t.id i 1; l = t.l - 1 },
          (onewire_writebit line 1 u).1,
        )
    unfolding conflict
    conflict_top small some_left h k =
        let place : u8 (i + 1) ≡ i + 1 = omega arith in
        let down : u8 (t.l + 255) ≡ t.l - 1 = omega arith in rw place (rw (h, k, down))

    new-Took :
        (tr0 tr1 : Tree) (st : List ℕ)
        → At (fork tr0 tr1) st past (c ∷ w) t
        → Fits (narrow false codes) tr0
        → ltb peek (i + 1) ≡ true
        → Took codes false tr0 ((i + 1) ∷ st) past w t.s (conflict line i t u)
    new-Took tr0 tr1 st a f h =
        let small = depth t a.valid in
        let e = conflict_new small h in
        let s' : t.s / 2 ≡ t.s / 2 + 128 * 0 = omega arith in
        subst (λ r. Took codes false tr0 ((i + 1) ∷ st) past w t.s r) (sym e)
          (record {
            at = record {
              valid = subst (λ r. IsValid r.0) e (conflict-IsValid line i in_rom t a.valid u);
              stack =
                  Holds-push t.buffer st t.l (i + 1) (omega (arith, a.valid.buffer_size)) a.stack;
              old = id_taken false a;
              deep = a.deep.0;
              byte = shifted false _ a.byte s';
            };
            asked = taken codes false u waiting;
            fits = f;
            byte = s';
          })

    top-Took :
        (tr0 tr1 : Tree) (st : List ℕ)
        → At (fork tr0 tr1) st past (c ∷ w) t
        → Fits (narrow true codes) tr1
        → ltb peek (i + 1) ≡ false
        → ltb (i + 1) peek ≡ false
        → Took codes true tr1 (tail st) past w t.s (conflict line i t u)
    top-Took tr0 tr1 st a f h k =
        let small = depth t a.valid in
        let left = not_bottom line i in_rom t a.valid u (ground arith) in
        let e = conflict_top small left h k in
        let s' = (or_fine (t.s / 2) (omega (arith, a.byte))).0 in
        subst (λ r. Took codes true tr1 (tail st) past w t.s r) (sym e)
          (record {
            at = record {
              valid = subst (λ r. IsValid r.0) e (conflict-IsValid line i in_rom t a.valid u);
              stack = Holds-pop t.buffer st t.l left a.stack;
              old = id_taken true a;
              deep = a.deep.1;
              byte = shifted true _ a.byte s';
            };
            asked = taken codes true u waiting;
            fits = f;
            byte = s';
          })

    abbrev branch : Tree → Tree → Tree
    branch tr0 tr1 = if c then tr1 else tr0

    lower-Took :
        (tr0 tr1 : Tree) (st : List ℕ)
        → At (fork tr0 tr1) st past (c ∷ w) t
        → Fits (narrow c codes) (branch tr0 tr1)
        → Deep (branch tr0 tr1) w
        → ltb peek (i + 1) ≡ false
        → ltb (i + 1) peek ≡ true
        → Took codes c (branch tr0 tr1) st past w t.s (conflict line i t u)
    lower-Took tr0 tr1 st a f d h k =
        let bit : get_or t.id i 0 ≡ value c =
          ap (λ id. get_or id i 0) a.old
          ∙ get_or-behind past (map value (c ∷ w)) 0 i 0 (omega arith) in
        let e = conflict_lower h k in
        let s' = old_shift c t.s a.byte in
        let e' : conflict line i t u ≡ (
          record t { s = bit_or (t.s / 2) (u8 (bit_and (value c) 1 * 2 ^ 7)) },
          (onewire_writebit line (value c) u).1,
        ) =
          e
          ∙ ap
              (λ b. (
                record t { s = bit_or (t.s / 2) (u8 (bit_and b 1 * 2 ^ 7)) },
                (onewire_writebit line b u).1,
              ))
              bit in
        subst (λ r. Took codes c (branch tr0 tr1) st past w t.s r) (sym e')
          (record {
            at = record {
              valid = subst (λ r. IsValid r.0) e' (conflict-IsValid line i in_rom t a.valid u);
              stack = a.stack;
              old = a.old;
              deep = d;
              byte = shifted c _ a.byte s';
            };
            asked = taken codes c u waiting;
            fits = f;
            byte = s';
          })

    conflict-Took :
        (tr0 tr1 : Tree) (st : List ℕ)
        → At (fork tr0 tr1) st past (c ∷ w) t
        → Fits (narrow false codes) tr0
        → Fits (narrow true codes) tr1
        → let m = move (i + 1) (fork tr0 tr1) st c in
          Took codes m.0 m.1 m.2 past w t.s (conflict line i t u)
    conflict-Took tr0 tr1 st a f0 f1 =
        let e : get_or t.buffer t.l 0 ≡ top st = Holds-top t.buffer st t.l a.stack in
        rw (← e) (elim (Bool-cases (ltb peek (i + 1))) [
          | inl new ↦ rw new (new-Took tr0 tr1 st a f0 new)
          | inr old ↦ elim (Bool-cases (ltb (i + 1) peek)) [
            | inl lower ↦
                rw (old, lower)
                  (lower-Took tr0 tr1 st a (Fits-branch codes tr0 tr1 c f0 f1)
                    (Deep-branch tr0 tr1 w c a.deep) old lower)
            | inr top_place ↦ rw (old, top_place) (top-Took tr0 tr1 st a f1 old top_place)
          ]
        ])

  -- One round of the inner loop.
  pub search_bit-Took :
      (codes : List Code) (u : line.W)
      → Asked codes u
      → (past : List ℕ) (c : Bool) (w : Code) (i : ℕ) → length past ≡ i
      → i < 64
      → (t : Search) (tree : Tree) (st : List ℕ) → At tree st past (c ∷ w) t
      → Fits codes tree
      → let m = move (i + 1) tree st c in Took codes m.0 m.1 m.2 past w t.s (search_bit line i t u)
  unfolding search_bit
  search_bit-Took codes u asks past c w i e in_rom t leaf st a f = absurd a.deep
  search_bit-Took codes u asks past c w i e in_rom t (one true tree) st a f =
      rw (two_bits codes u asks, f.0, f.1)
        (agreed-Took codes _ (then_wait codes u asks) past c w i e in_rom t true (one true tree)
          tree st a a.deep f.2)
  search_bit-Took codes u asks past c w i e in_rom t (one false tree) st a f =
      rw (two_bits codes u asks, f.0, f.1)
        (agreed-Took codes _ (then_wait codes u asks) past c w i e in_rom t false (one false tree)
          tree st a a.deep f.2)
  search_bit-Took codes u asks past c w i e in_rom t (fork tr0 tr1) st a f =
      rw (two_bits codes u asks, f.0, f.1)
        (conflict-Took codes _ (then_wait codes u asks) past c w i e in_rom t tr0 tr1 st a f.2 f.3)
