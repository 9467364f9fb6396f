-- ===== src/Onewire/RomSearch/Bounds.antt =====
-- No index of `Search_ROM` leaves its array, whatever the line answers.
use Prim.Native.Nat.{bit_and}
use mathlib.Core.Path.{subst}
use ch582_water_jinru.Common.{
  ◌/◌, ℕ, zero, suc, ◌+◌, ◌≤◌, ◌<◌, ◌≡◌, refl, length, get_or, set, get_or-set_self, get_or-set_ne,
  length-set, ◌∙◌, ◌-◌, ap, u8, ltb, List, ◌==◌, ==_iff, Bool-cases, inl, inr, arith,
}
use ch582_water_jinru.Onewire.Bus.{Line, onewire_read2bits}
use ch582_water_jinru.Onewire.RomSearch.{search_bit, Search, fresh, answer, agreed, conflict}

-- The stack has its places in order above a 0, and they are places of the 64 bits.
pub record IsValid (t : Search) : Type 0 where
  pub buffer_size : length t.buffer ≡ 99
  pub id_size : length t.id ≡ 64
  pub bottom : get_or t.buffer 0 0 ≡ 0
  pub rising : (j k : ℕ) → j < k → k ≤ t.l → get_or t.buffer j 0 < get_or t.buffer k 0
  pub top_place : get_or t.buffer t.l 0 ≤ 64

-- A place of the stack is at least its index.
depth_from : (t : Search) → IsValid t → (j : ℕ) → j ≤ t.l → j ≤ get_or t.buffer j 0
depth_from t v zero h = omega arith
depth_from t v (suc j) h =
    omega (arith, depth_from t v j (omega arith), v.rising j (suc j) (omega arith) h)

-- So the stack never holds more than 64 places, and the array has 99.
pub depth : (t : Search) → IsValid t → t.l ≤ 64
depth t v = omega (arith, v.top_place, depth_from t v t.l (omega arith))

module _ (t : Search) (v : IsValid t) where
  module _ (place : ℕ) (above : get_or t.buffer t.l 0 < place) (bound : place ≤ 64) where
    pushed : Search
    pushed = record t { l = t.l + 1; buffer = set t.buffer (t.l + 1) place }

    at_top : get_or (set t.buffer (t.l + 1) place) (t.l + 1) 0 ≡ place
    at_top = get_or-set_self t.buffer (t.l + 1) place 0 (omega (arith, depth t v, v.buffer_size))

    below_top : (j : ℕ) → j ≤ t.l → get_or (set t.buffer (t.l + 1) place) j 0 ≡ get_or t.buffer j 0
    below_top j h = get_or-set_ne t.buffer (t.l + 1) j place 0 (λ e. omega arith)

    at_most_top : (j : ℕ) → j ≤ t.l → get_or t.buffer j 0 < place
    at_most_top j h = elim (Bool-cases (j == t.l)) [
      | inl same ↦ rw ((==_iff j t.l).0 same) above
      | inr less ↦ omega (arith, v.rising j t.l (ground arith) (omega arith))
    ]

    pushed_rising :
        (j k : ℕ)
        → j < k
        → k ≤ t.l + 1
        → get_or (set t.buffer (t.l + 1) place) j 0 < get_or (set t.buffer (t.l + 1) place) k 0
    pushed_rising j k h m = elim (Bool-cases (k == t.l + 1)) [
      | inl same ↦
          rw ((==_iff k (t.l + 1)).0 same, at_top)
            (omega (arith, below_top j (ground arith), at_most_top j (ground arith)))
      | inr less ↦ omega (
        arith,
        below_top j (ground arith),
        below_top k (ground arith),
        v.rising j k h (ground arith),
      )
    ]

    pushed-IsValid : IsValid pushed
    unfolding pushed
    pushed-IsValid = record {
      buffer_size = length-set _ _ _ ∙ v.buffer_size;
      id_size = v.id_size;
      bottom = below_top 0 (omega arith) ∙ v.bottom;
      rising = pushed_rising;
      top_place = omega (arith, at_top);
    }

  -- The bits and the byte are free, as long as there are 64 bits.
  free-IsValid : (id : List ℕ) (s : ℕ) → length id ≡ 64 → IsValid (record t { id = id; s = s })
  free-IsValid id s e = record {
    buffer_size = v.buffer_size;
    id_size = e;
    bottom = v.bottom;
    rising = v.rising;
    top_place = v.top_place;
  }

  popped-IsValid : 0 < t.l → IsValid (record t { l = t.l - 1 })
  popped-IsValid h = record {
    buffer_size = v.buffer_size;
    id_size = v.id_size;
    bottom = v.bottom;
    rising = λ j k less in_stack. v.rising j k less (omega arith);
    top_place = omega (arith, v.rising (t.l - 1) t.l (omega arith) (omega arith), v.top_place);
  }

module _ (line : Line) (i : ℕ) (in_rom : i < 64) (t : Search) (v : IsValid t) (w : line.W) where
  pub agreed-IsValid : (bit : ℕ) → IsValid (agreed line i bit t w).0
  unfolding agreed
  agreed-IsValid bit = free-IsValid t v _ _ (length-set t.id i bit ∙ v.id_size)

  place_lem : u8 (i + 1) ≡ i + 1
  place_lem = omega arith

  pub not_bottom : get_or t.buffer t.l 0 ≡ i + 1 → 0 < t.l
  not_bottom top = elim (Bool-cases (t.l == 0)) [
    | inl none_left ↦
        let at_bottom = ap (λ k. get_or t.buffer k 0) ((==_iff t.l 0).0 none_left) in
        absurd (omega (arith, v.bottom))
    | inr some_left ↦ ground arith
  ]

  pub conflict-IsValid : IsValid (conflict line i t w).0
  unfolding conflict pushed
  conflict-IsValid = rw place_lem (elim (Bool-cases (ltb (get_or t.buffer t.l 0) (i + 1))) [
    | inl new ↦
        let size = depth t v in
        let up : u8 (t.l + 1) ≡ t.l + 1 = omega arith in
        rw (new, up)
          (free-IsValid _ (pushed-IsValid t v (i + 1) (ground arith) (omega arith)) _ _
            (length-set t.id i 0 ∙ v.id_size))
    | inr old ↦ elim (Bool-cases (ltb (i + 1) (get_or t.buffer t.l 0))) [
      | inl lower ↦ rw (old, lower) (free-IsValid t v _ _ v.id_size)
      | inr top ↦
          let size = depth t v in
          let some_left = not_bottom (ground arith) in
          let down : u8 (t.l + 255) ≡ t.l - 1 = omega arith in
          rw (old, top, down)
            (free-IsValid _ (popped-IsValid t v some_left) _ _ (length-set t.id i 1 ∙ v.id_size))
    ]
  ])

  pub answer-IsValid : (k : ℕ) → IsValid (answer line k i t w).0
  unfolding answer
  answer-IsValid k = elim (Bool-cases (k == 2)) [
    | inl zero_bit ↦ rw zero_bit (agreed-IsValid 0)
    | inr e ↦ elim (Bool-cases (k == 1)) [
      | inl one_bit ↦ rw (e, one_bit) (agreed-IsValid 1)
      | inr e' ↦ elim (Bool-cases (k == 0)) [
        | inl both ↦ rw (e, e', both) conflict-IsValid
        | inr silent ↦ rw (e, e', silent) (free-IsValid t v t.id (t.s / 2) v.id_size)
      ]
    ]
  ]

pub fresh-IsValid : IsValid fresh
fresh-IsValid = record {
  buffer_size = refl;
  id_size = refl;
  bottom = refl;
  rising = λ j k less none_left. absurd (omega arith);
  top_place = omega arith;
}

-- The locals after some rounds of the inner loop, in any order and on any line.
pub data Rounds (line : Line) : Search → Type 0 where
  start : Rounds line fresh
  round :
      {t : Search} {t' : Search} (i : ℕ) (w : line.W)
      → Rounds line t
      → i < 64
      → (search_bit line i t w).0 ≡ t'
      → Rounds line t'

round-IsValid :
    (line : Line) (i : ℕ) (t : Search) (w : line.W)
    → i < 64
    → IsValid t
    → IsValid (search_bit line i t w).0
unfolding search_bit
round-IsValid line i t w in_rom v =
    answer-IsValid line i in_rom t v (onewire_read2bits line w).1
      (bit_and (onewire_read2bits line w).0 3)

Rounds-IsValid : (line : Line) (t : Search) → Rounds line t → IsValid t
Rounds-IsValid line t start = fresh-IsValid
Rounds-IsValid line t (round {t = s} i w before in_rom e) =
    subst IsValid e (round-IsValid line i s w in_rom (Rounds-IsValid line s before))

-- Whatever the line answers, `l` is an index of `BUFFER` after any rounds of the search, and so is
-- the next one, where the search puts a new place; and no place is beyond the 64 bits.
pub Rounds_in_bounds :
    (line : Line) (t : Search)
    → Rounds line t
    → (t.l + 1 < length t.buffer) × (get_or t.buffer t.l 0 ≤ 64) × (length t.id ≡ 64)
Rounds_in_bounds line t r =
    let v = Rounds-IsValid line t r in
    (omega (arith, depth t v, v.buffer_size), v.top_place, v.id_size)
