-- ===== src/Onewire/RomSearch/Complete.antt =====
-- `Search_ROM` of src/onewire.c finds all slaves on the line.
use mathlib.Core.Path.{subst}
use ch582_water_jinru.Common.{
  ℕ, zero, suc, ◌+◌, ◌≡◌, ◌≢◌, refl, sym, ap, ◌∙◌, false, List, [], ◌∷◌, ◌++◌, map, length, take,
  set, get_or, replicate, ==_ne, ==_iff, inl, inr, arith,
}
use ch582_water_jinru.Onewire.Bus.{Line, onewire_resetcheck, onewire_writebyte}
use ch582_water_jinru.Onewire.RomSearch.{Search, fresh, search_bytes, search_passes, search_rom}
use ch582_water_jinru.Onewire.RomSearch.Bounds.{fresh-IsValid}
use ch582_water_jinru.Onewire.RomSearch.Tree.{
  Code, Tree, paths, first, On, Deep, after, zeros, top, pass, first-On, paths-eq-first,
}
use ch582_water_jinru.Onewire.RomSearch.Order.{On-length, On-Deep, pass-first, pass-Next, IsLast}
use ch582_water_jinru.Onewire.RomSearch.Slaves.{value, AreSlaves, Fits}
use ch582_water_jinru.Onewire.RomSearch.Stack.{Holds, Holds-top}
use ch582_water_jinru.Onewire.RomSearch.Step.{At}
use ch582_water_jinru.Onewire.RomSearch.Pass.{bytes_of, search_bytes-Passed}
use ch582_water_jinru.Onewire.RomSearch.Codes.{Sized, tree_of, Fits-tree_of, Deep-tree_of}
use ch582_water_jinru.Onewire.RomSearch.Listing.{has, has-paths, IsAscending, paths-IsAscending}

-- The codes as rows of the table, from row `num` on.
unfoldable pub put_rows : ℕ → List Code → List (List ℕ) → List (List ℕ)
put_rows num [] rom_id = rom_id
put_rows num (p ∷ codes) rom_id = put_rows (num + 1) codes (set rom_id num (bytes_of 8 p))

take_none : {A : Type 0} (n : ℕ) → take {A = A} n [] ≡ []
take_none zero = refl
take_none (suc n) = refl

module _ (line : Line) (devices : List Code) (slaves : AreSlaves line devices) (t : Tree)
    (fits : Fits devices t) where
  open slaves use {Ready, Asked, present, search_command, next_search}

  abbrev started : line.W → line.W
  started u = (onewire_writebyte line 0xf0 (onewire_resetcheck line u).1).1

  abbrev peek : Search → ℕ
  peek s = get_or s.buffer s.l 0

  module _ (n num : ℕ) (s : Search) (rom_id : List (List ℕ)) (u : line.W)
      (here : (onewire_resetcheck line u).0 ≡ 0) where
    abbrev passed : (List ℕ × Search) × line.W
    passed = search_bytes line 8 0 s (started u)

    last_pass :
        peek passed.0.1 ≡ 0
        → (search_passes line (suc n) num s rom_id u).0 ≡ (num + 1, set rom_id num passed.0.0)
    unfolding search_passes
    last_pass e = rw here (rw ((==_iff (peek passed.0.1) 0).1 e))

    more_passes :
        peek passed.0.1 ≢ 0
        → (search_passes line (suc n) num s rom_id u).0
          ≡ (search_passes line n (num + 1) passed.0.1 (set rom_id num passed.0.0) passed.1).0
    unfolding search_passes
    more_passes e = rw here (rw (==_ne (peek passed.0.1) 0 e))

  step_rows :
      (n num : ℕ) (p code : Code) (rom_id : List (List ℕ)) (row : List ℕ)
      → row ≡ bytes_of 8 p
      → after t p ≡ code ∷ after t code
      → ◌≡◌ {A = ℕ × List (List ℕ)}
          (
            num + 1 + length (take (suc n) (code ∷ after t code)),
            put_rows (num + 1) (take (suc n) (code ∷ after t code)) (set rom_id num row),
          )
          (
            num + length (take (suc (suc n)) (p ∷ after t p)),
            put_rows num (take (suc (suc n)) (p ∷ after t p)) rom_id,
          )
  unfolding put_rows
  step_rows n num p code rom_id row e next =
      let k = length (take n (after t code)) in
      let count : num + 1 + suc k ≡ num + suc (suc k) = omega arith in rw (next, e, count)

  no_passes :
      (num : ℕ) (s : Search) (rom_id : List (List ℕ)) (u : line.W)
      → (search_passes line 0 num s rom_id u).0 ≡ (num, rom_id)
  unfolding search_passes
  no_passes num s rom_id u = refl

  -- What a pass leaves, in the words of the tree.
  record Found (p : Code) (r : (List ℕ × Search) × line.W) : Type 0 where
    row : r.0.0 ≡ bytes_of 8 p
    at : At t (zeros t 1 p ++ []) [] p r.0.1
    top_of : peek r.0.1 ≡ top (zeros t 1 p ++ [])
    ready : Ready r.1

  pass_found :
      (st : List ℕ) (w p : Code) (s : Search) (u : line.W)
      → Ready u
      → At t st [] w s
      → length w ≡ 64
      → pass 1 t st w ≡ (p, zeros t 1 p ++ [])
      → On t p
      → Found p (search_bytes line 8 0 s (started u))
  pass_found st w p s u ready a size finds o =
      let r = search_bytes line 8 0 s (started u) in
      let d =
        search_bytes-Passed line devices slaves 8 0 devices (started u) [] w s t st
          (search_command u ready) refl (omega arith) size a fits in
      let stack = subst (λ x. Holds r.0.1.buffer x.1 r.0.1.l) finds d.stack in
      record {
        row = d.row ∙ ap (λ x. bytes_of 8 x.0) finds;
        at = record {
          valid = d.valid;
          stack = stack;
          old = d.bits ∙ ap (λ x. map value x.0) finds;
          deep = On-Deep t w p a.deep o;
          byte = d.byte;
        };
        top_of = Holds-top r.0.1.buffer (zeros t 1 p ++ []) r.0.1.l stack;
        ready = next_search d.codes r.1 d.asked;
      }

  search_passes_last :
      (n num : ℕ) (p : Code) (s : Search) (rom_id : List (List ℕ)) (u : line.W)
      → Ready u
      → Found p (search_bytes line 8 0 s (started u))
      → IsLast t 1 p
      → (search_passes line (suc n) num s rom_id u).0 ≡ (
        num + length (take (suc n) (p ∷ after t p)),
        put_rows num (take (suc n) (p ∷ after t p)) rom_id,
      )
  unfolding put_rows
  search_passes_last n num p s rom_id u ready found (z, none_after) =
      last_pass n num s rom_id u (present u ready) (found.top_of ∙ ap (λ ps. top (ps ++ [])) z)
      ∙ rw (none_after, take_none {A = Code} n, found.row)

  -- The passes from the one that finds `p` on, while `n` rows are left after it.
  search_passes_lem :
      (n num : ℕ) (st : List ℕ) (w p : Code) (s : Search) (rom_id : List (List ℕ)) (u : line.W)
      → Ready u
      → At t st [] w s
      → length w ≡ 64
      → pass 1 t st w ≡ (p, zeros t 1 p ++ [])
      → On t p
      → (search_passes line (suc n) num s rom_id u).0 ≡ (
        num + length (take (suc n) (p ∷ after t p)),
        put_rows num (take (suc n) (p ∷ after t p)) rom_id,
      )
  search_passes_lem zero num st w p s rom_id u ready a size finds o =
      let found = pass_found st w p s u ready a size finds o in
      let r = search_bytes line 8 0 s (started u) in
      elim (pass-Next t 1 [] p found.at.deep o (omega arith)) [
        | inl last ↦ search_passes_last 0 num p s rom_id u ready found last
        | inr next ↦
            more_passes 0 num s rom_id u (present u ready)
              (λ e. omega (arith, found.top_of, next.within))
            ∙ no_passes (num + 1) r.0.1 (set rom_id num r.0.0) r.1
            ∙ unfold put_rows in rw found.row
      ]
  search_passes_lem (suc n) num st w p s rom_id u ready a size finds o =
      let found = pass_found st w p s u ready a size finds o in
      let r = search_bytes line 8 0 s (started u) in
      elim (pass-Next t 1 [] p found.at.deep o (omega arith)) [
        | inl last ↦ search_passes_last (suc n) num p s rom_id u ready found last
        | inr next ↦
            let more =
              more_passes (suc n) num s rom_id u (present u ready)
                (λ e. omega (arith, found.top_of, next.within)) in
            more
            ∙ search_passes_lem n (num + 1) (zeros t 1 p ++ []) p next.code r.0.1
                (set rom_id num r.0.0) r.1 found.ready found.at
                (sym (On-length t w p a.deep o) ∙ size) next.found next.on
            ∙ step_rows n num p next.code rom_id r.0.0 found.row next.next
      ]

abbrev no_bits : Code
no_bits = replicate 64 false

module _ (line : Line) (devices : List Code) (slaves : AreSlaves line devices) (t : Tree)
    (fits : Fits devices t) (deep : Deep t no_bits) where
  fresh-At : At t [] [] no_bits fresh
  fresh-At = record {
    valid = fresh-IsValid;
    stack = (refl, refl);
    old = refl;
    deep = deep;
    byte = omega arith;
  }

  search_rom-paths :
      (rom_id : List (List ℕ)) (u : line.W)
      → slaves.Ready u
      → (search_rom line rom_id u).0
        ≡ (length (take 100 (paths t)), put_rows 0 (take 100 (paths t)) rom_id)
  unfolding search_rom
  search_rom-paths rom_id u ready =
      let zero_more : 0 + length (take 100 (first t ∷ after t (first t)))
          ≡ length (take 100 (first t ∷ after t (first t))) =
        omega arith in
      search_passes_lem line devices slaves t fits 99 0 [] no_bits (first t) fresh rom_id u ready
        fresh-At refl (pass-first t 1 [] no_bits deep (omega arith)) (first-On t)
      ∙ rw (paths-eq-first t, zero_more)

-- On a line with slaves of 64-bit codes, `Search_ROM` finds each of them once, in the order of
-- their bits, and nothing else; of more than 100 it finds the first 100. It returns how many it
-- found, and the rows of the table hold the bytes of their codes.
pub search_rom_complete :
    (line : Line) (devices : List Code) (slaves : AreSlaves line devices)
    → Sized 64 devices
    → (rom_id : List (List ℕ)) (u : line.W) → slaves.Ready u
    → let codes = paths (tree_of 64 devices) in
      ((search_rom line rom_id u).0 ≡ (length (take 100 codes), put_rows 0 (take 100 codes) rom_id))
      × IsAscending codes
      × ((w : Code) → length w ≡ 64 → has w codes ≡ has w devices)
search_rom_complete line devices slaves sized rom_id u ready = (
  search_rom-paths line devices slaves (tree_of 64 devices) (Fits-tree_of 64 devices sized)
      (Deep-tree_of 64 devices no_bits sized refl) rom_id u ready,
  paths-IsAscending _,
  λ w e. has-paths 64 devices w sized e,
)
