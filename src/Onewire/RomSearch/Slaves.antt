-- ===== src/Onewire/RomSearch/Slaves.antt =====
-- What `Search_ROM` of src/onewire.c relies on in the slaves of a 1-Wire line.
use ch582_water_jinru.Common.{
  ℕ, ◌+◌, ◌*◌, ◌≡◌, Bool, true, false, not, List, [], ◌∷◌, if◌then◌else◌,
}
use ch582_water_jinru.Onewire.Bus.{
  Line, onewire_resetcheck, onewire_writebit, onewire_writebyte, onewire_read2bits,
}
use ch582_water_jinru.Onewire.RomSearch.Tree.{Code, Tree, leaf, one, fork}

abbrev pub value : Bool → ℕ
value true = 1
value false = 0

-- What is left of the codes that go on with the bit.
abbrev pub narrow : Bool → List Code → List Code
narrow b [] = []
narrow b ([] ∷ codes) = narrow b codes
narrow true ((true ∷ w) ∷ codes) = w ∷ narrow true codes
narrow true ((false ∷ w) ∷ codes) = narrow true codes
narrow false ((true ∷ w) ∷ codes) = narrow false codes
narrow false ((false ∷ w) ∷ codes) = w ∷ narrow false codes

-- The level of the line where each slave sends its next bit, or the complement of it: any 0 pulls
-- it low.
abbrev pub wired : (Bool → Bool) → List Code → Bool
wired sent [] = true
wired sent ([] ∷ codes) = wired sent codes
wired sent ((b ∷ w) ∷ codes) = if sent b then wired sent codes else false

-- The documented behaviour of slaves with the codes `devices`. `Asked` slaves are those that still
-- take part, by what is left of their codes: they send the next bit and its complement, and then
-- wait, `Answered`, for the bit that the master takes; the others drop out.
pub record AreSlaves (line : Line) (devices : List Code) : Type 1 where
  pub Ready : line.W → Type 0
  pub Asked : List Code → line.W → Type 0
  pub Answered : List Code → line.W → Type 0
  pub present : (w : line.W) → Ready w → (onewire_resetcheck line w).0 ≡ 0
  pub search_command :
      (w : line.W)
      → Ready w
      → Asked devices (onewire_writebyte line 0xf0 (onewire_resetcheck line w).1).1
  pub two_bits :
      (codes : List Code) (w : line.W)
      → Asked codes w
      → (onewire_read2bits line w).0 ≡ value (wired (λ b. b) codes) + 2 * value (wired not codes)
  pub then_wait :
      (codes : List Code) (w : line.W) → Asked codes w → Answered codes (onewire_read2bits line w).1
  pub taken :
      (codes : List Code) (b : Bool) (w : line.W)
      → Answered codes w
      → Asked (narrow b codes) (onewire_writebit line (value b) w).1
  pub next_search : (codes : List Code) (w : line.W) → Asked codes w → Ready w

-- The tree holds the codes.
abbrev pub Fits : List Code → Tree → Type 0
Fits codes leaf = Unit {0}
Fits codes (one true t) =
    (wired (λ b. b) codes ≡ true) × (wired not codes ≡ false) × Fits (narrow true codes) t
Fits codes (one false t) =
    (wired (λ b. b) codes ≡ false) × (wired not codes ≡ true) × Fits (narrow false codes) t
Fits codes (fork t u) =
    (wired (λ b. b) codes ≡ false)
    × (wired not codes ≡ false)
    × Fits (narrow false codes) t
    × Fits (narrow true codes) u
