-- ===== src/Onewire/RomSearch/Pass.antt =====
-- A pass of `Search_ROM` (src/onewire.c) on a line with slaves is the pass over their tree.
use mathlib.Core.List.{map-append}
use mathlib.Core.Path.{subst}
use ch582_water_jinru.Common.{
  ℕ, zero, suc, ◌+◌, ◌*◌, ◌/◌, ◌≤◌, ◌<◌, ◌≡◌, refl, ap, ◌∙◌, Bool, true, false, List, [], ◌∷◌, ◌++◌,
  map, length, take, drop, take-length-append, arith,
}
use ch582_water_jinru.Onewire.Bus.{Line}
use ch582_water_jinru.Onewire.RomSearch.{Search, search_bit, search_bits, search_bytes}
use ch582_water_jinru.Onewire.RomSearch.Bounds.{IsValid}
use ch582_water_jinru.Onewire.RomSearch.Tree.{Code, Tree, move, pass}
use ch582_water_jinru.Onewire.RomSearch.Slaves.{value, narrow, AreSlaves, Fits}
use ch582_water_jinru.Onewire.RomSearch.Stack.{Holds, behind}
use ch582_water_jinru.Onewire.RomSearch.Step.{At, search_bit-Took}

-- A byte that takes the bits in at its top.
abbrev pub shifts : Code → ℕ → ℕ
shifts [] s = s
shifts (b ∷ q) s = shifts q (s / 2 + 128 * value b)

-- The first `n` bytes of the bits, the lowest bit of each first.
unfoldable pub bytes_of : ℕ → Code → List ℕ
bytes_of zero p = []
bytes_of (suc n) p = shifts (take 8 p) 0 ∷ bytes_of n (drop 8 p)

value_le : (b : Bool) → value b ≤ 1
value_le true = omega arith
value_le false = omega arith

drop-length-append : {A : Type 0} (xs ys : List A) → drop (length xs) (xs ++ ys) ≡ ys
drop-length-append [] ys = refl
drop-length-append (x ∷ xs) ys = drop-length-append xs ys

behind-behind :
    {A : Type 0} (q past ys : List A) → behind (behind q past) ys ≡ behind past (q ++ ys)
behind-behind [] past ys = refl
behind-behind (x ∷ q) past ys = behind-behind q (x ∷ past) ys

length-behind : {A : Type 0} (q past : List A) → length (behind q past) ≡ length q + length past
length-behind [] past = omega arith
length-behind (x ∷ q) past = omega (arith, length-behind q (x ∷ past))

length-values : (q : Code) → length (map value q) ≡ length q
length-values [] = refl
length-values (b ∷ q) = ap suc (length-values q)

-- Eight bits push out what the byte held.
shifts_eight : (q : Code) (s : ℕ) → length q ≡ 8 → s < 256 → shifts q s ≡ shifts q 0
shifts_eight (a ∷ b ∷ c ∷ d ∷ e ∷ f ∷ g ∷ h ∷ []) s n small = omega (
  arith,
  value_le a,
  value_le b,
  value_le c,
  value_le d,
  value_le e,
  value_le f,
  value_le g,
  value_le h,
)
shifts_eight q s n small = absurd (omega arith)

module _ (line : Line) (devices : List Code) (slaves : AreSlaves line devices) where
  open slaves use {Asked}

  -- The bits `q` were taken, up to place `e`.
  record Ran (whole : Tree) (st past : List ℕ) (w : Code) (s k i e : ℕ) (r : Search × line.W)
      : Type 0 where
    q : Code
    codes : List Code
    tree : Tree
    stack : List ℕ
    rest : Code
    size : length q ≡ k
    shorter : length w ≡ k + length rest
    at : At tree stack (behind (map value q) past) rest r.0
    asked : Asked codes r.1
    fits : Fits codes tree
    byte : r.0.s ≡ shifts q s
    route :
        pass (i + 1) whole st w
        ≡ (q ++ (pass (e + 1) tree stack rest).0, (pass (e + 1) tree stack rest).1)

  search_bits-Ran :
      (k : ℕ) (codes : List Code) (u : line.W) (past : List ℕ) (w : Code) (i e : ℕ) (t : Search)
      (whole : Tree) (st : List ℕ)
      → Asked codes u
      → length past ≡ i
      → i + k ≡ e
      → e ≤ 64
      → k ≤ length w
      → At whole st past w t
      → Fits codes whole
      → Ran whole st past w t.s k i e (search_bits line k i t u)
  unfolding search_bits pass
  search_bits-Ran zero codes u past w i e t whole st asks pe ke in_rom long a f = record {
    q = [];
    codes = codes;
    tree = whole;
    stack = st;
    rest = w;
    size = refl;
    shorter = omega arith;
    at = a;
    asked = asks;
    fits = f;
    byte = refl;
    route = ap (λ j. pass (j + 1) whole st w) (omega arith);
  }
  search_bits-Ran (suc k) codes u past [] i e t whole st asks pe ke in_rom long a f =
      absurd (omega arith)
  search_bits-Ran (suc k) codes u past (c ∷ w) i e t whole st asks pe ke in_rom long a f =
      let m = move (i + 1) whole st c in
      let s =
        search_bit-Took line devices slaves codes u asks past c w i pe (omega arith) t whole st a
          f in
      let r =
        search_bits-Ran k (narrow m.0 codes) (search_bit line i t u).1 (value m.0 ∷ past) w (i + 1)
          e (search_bit line i t u).0 m.1 m.2 s.asked (omega arith) (omega arith) in_rom
          (omega arith) s.at s.fits in
      record {
        q = m.0 ∷ r.q;
        codes = r.codes;
        tree = r.tree;
        stack = r.stack;
        rest = r.rest;
        size = ap suc r.size;
        shorter = omega (arith, r.shorter);
        at = r.at;
        asked = r.asked;
        fits = r.fits;
        byte = r.byte ∙ ap (shifts r.q) s.byte;
        route = rw r.route;
      }

  -- The codes that are left all end here, and the locals hold the bits and the stack of the pass.
  pub record Passed (whole : Tree) (st past : List ℕ) (w : Code) (i n : ℕ)
      (r : (List ℕ × Search) × line.W) : Type 0 where
    pub codes : List Code
    pub asked : Asked codes r.1
    pub row : r.0.0 ≡ bytes_of n (pass (i + 1) whole st w).0
    pub valid : IsValid r.0.1
    pub stack : Holds r.0.1.buffer (pass (i + 1) whole st w).1 r.0.1.l
    pub bits : r.0.1.id ≡ behind past (map value (pass (i + 1) whole st w).0)
    pub byte : r.0.1.s < 256

  pub search_bytes-Passed :
      (n m : ℕ) (codes : List Code) (u : line.W) (past : List ℕ) (w : Code) (t : Search)
      (whole : Tree) (st : List ℕ)
      → Asked codes u
      → length past ≡ m * 8
      → m + n ≤ 8
      → length w ≡ n * 8
      → At whole st past w t
      → Fits codes whole
      → Passed whole st past w (m * 8) n (search_bytes line n m t u)
  unfolding search_bytes pass bytes_of
  search_bytes-Passed zero m codes u past [] t whole st asks pe room e a f = record {
    codes = codes;
    asked = asks;
    row = refl;
    valid = a.valid;
    stack = a.stack;
    bits = a.old;
    byte = a.byte;
  }
  search_bytes-Passed zero m codes u past (c ∷ w) t whole st asks pe room e a f =
      absurd (omega arith)
  search_bytes-Passed (suc n) m codes u past w t whole st asks pe room e a f =
      let r =
        search_bits-Ran 8 codes u past w (m * 8) ((m + 1) * 8) t whole st asks pe (omega arith)
          (omega arith) (omega arith) a f in
      let after_byte = search_bits line 8 (m * 8) t u in
      let p =
        search_bytes-Passed n (m + 1) r.codes after_byte.1 (behind (map value r.q) past) r.rest
          after_byte.0 r.tree r.stack r.asked
          (omega (arith, length-behind (map value r.q) past, length-values r.q, r.size))
          (omega arith) (omega (arith, r.shorter)) r.at r.fits in
      let X = pass ((m + 1) * 8 + 1) r.tree r.stack r.rest in
      let take_q = subst (λ k. take k (r.q ++ X.0) ≡ r.q) r.size (take-length-append r.q X.0) in
      let drop_q = subst (λ k. drop k (r.q ++ X.0) ≡ X.0) r.size (drop-length-append r.q X.0) in
      let byte = r.byte ∙ shifts_eight r.q t.s r.size a.byte in
      record {
        codes = p.codes;
        asked = p.asked;
        row = rw r.route (rw (take_q, drop_q) (rw (byte, p.row)));
        valid = p.valid;
        stack = rw r.route p.stack;
        bits = rw r.route (
            rw (map-append value r.q X.0)
              (p.bits ∙ behind-behind (map value r.q) past (map value X.0)));
        byte = p.byte;
      }
