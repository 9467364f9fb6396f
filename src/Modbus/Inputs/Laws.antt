-- ===== src/Modbus/Inputs/Laws.antt =====
-- The packed bits of src/modbus/discrete_input.c as an array of bits.
use ch582_water_jinru.Common.{
  ℕ, ◌+◌, ◌-◌, ◌/◌, ◌%◌, ◌^◌, ◌<◌, ◌≡◌, refl, inl, inr, ◌&&◌, List, [], ◌∷◌, arith, ◌==◌,
  if◌then◌else◌, Bool-cases, ==_iff, false, length, get_or, set, get_or-set_self, get_or-set_ne,
}
use ch582_water_jinru.Common.Bits.{bits_set, bits_clear, bit_at, bit_at-bits_set, bit_at-bits_clear}
use ch582_water_jinru.Modbus.Inputs.{
  Segment, in_segment, put_bit, modbus_di_read, modbus_di_r_check, modbus_di_update,
}

abbrev pub AllBytes : List ℕ → Type 0
AllBytes [] = Unit {0}
AllBytes (x ∷ xs) = (x < 256) × AllBytes xs

-- Every array holds its `len` bits, in bytes.
abbrev pub IsSized : List Segment → Type 0
IsSized [] = Unit {0}
IsSized (s ∷ segs) = (length s.content ≡ (s.len + 7) / 8) × AllBytes s.content × IsSized segs

get_or-AllBytes : (xs : List ℕ) (i : ℕ) → AllBytes xs → get_or xs i 0 < 256
get_or-AllBytes [] i h = omega arith
get_or-AllBytes (x ∷ xs) ℕ.zero h = h.0
get_or-AllBytes (x ∷ xs) (ℕ.suc i) h = get_or-AllBytes xs i h.1

-- The new byte at the bit `j`.
new_byte :
    (old value i j : ℕ)
    → old < 256
    → i < 8
    → j < 8
    → bit_at (if value == 0 then bits_clear old (2 ^ i) else bits_set old (2 ^ i)) j
      ≡ (if i == j then (if value == 0 then 0 else 1) else bit_at old j)
new_byte old value i j ho hi hj = elim (Bool-cases (value == 0)) [
  | inl e ↦ rw e (bit_at-bits_clear old i j ho hi hj)
  | inr e ↦ rw e (bit_at-bits_set old i j ho hi hj)
]

same_bit : (k m : ℕ) → k / 8 ≡ m / 8 → (k % 8 == m % 8) ≡ (k == m)
same_bit k m e = ground arith

other_bit : (k m : ℕ) → (k / 8 == m / 8) ≡ false → (k == m) ≡ false
other_bit k m e = ground arith

byte_put : ℕ → ℕ → ℕ → ℕ
byte_put old value i = if value == 0 then bits_clear old (2 ^ i) else bits_set old (2 ^ i)

-- Within one array, at the bits `k` (written) and `m` (read).
bit_of_put :
    (content : List ℕ) (k m value : ℕ)
    → AllBytes content
    → k / 8 < length content
    → bit_at
        (get_or (set content (k / 8) (byte_put (get_or content (k / 8) 0) value (k % 8))) (m / 8) 0)
        (m % 8)
      ≡ (if k == m
          then (if value == 0 then 0 else 1)
          else bit_at (get_or content (m / 8) 0) (m % 8))
unfolding byte_put
bit_of_put content k m value hb hk = elim (Bool-cases (k / 8 == m / 8)) [
  | inl e ↦
      let q : k / 8 ≡ m / 8 = (==_iff _ _).0 e in
      rw (← q) (
        rw
          (get_or-set_self content (k / 8) (byte_put (get_or content (k / 8) 0) value (k % 8)) 0 hk)
          (rw (← same_bit k m q) (
            new_byte (get_or content (k / 8) 0) value (k % 8) (m % 8)
              (get_or-AllBytes content (k / 8) hb) (omega arith) (omega arith))))
  | inr e ↦
      rw
        (get_or-set_ne content (k / 8) (m / 8) (byte_put (get_or content (k / 8) 0) value (k % 8)) 0
          (ground arith))
        (rw (other_bit k m e) refl)
]

-- One segment of the loop, with the results for the rest of the table.
put_step :
    (a b value : ℕ) (s : Segment) (old new found : ℕ)
    → length s.content ≡ (s.len + 7) / 8
    → AllBytes s.content
    → new ≡ (if b == a && found == 1 then (if value == 0 then 0 else 1) else old)
    → (let s' = (if in_segment b s then put_bit b value s else s) in
        if in_segment a s'
        then bit_at (get_or s'.content ((a - s'.start) / 8) 0) ((a - s'.start) % 8)
        else new)
      ≡ (if b == a && (if in_segment b s then 1 else found) == 1
          then (if value == 0 then 0 else 1)
          else if in_segment a s
          then bit_at (get_or s.content ((a - s.start) / 8) 0) ((a - s.start) % 8)
          else old)
unfolding byte_put
put_step a b value s old new found hl hb e = elim (Bool-cases (in_segment b s)) [
  | inl p ↦ elim (Bool-cases (in_segment a s)) [
    | inl q ↦
        rw (p, q)
          (rw (bit_of_put s.content (b - s.start) (a - s.start) value hb (ground arith))
            (ground arith))
    | inr q ↦ rw (p, q) (ground arith)
  ]
  | inr p ↦ rw p (ground arith)
]

-- After the firmware has set the discrete input `b`, the input `a` reads as 1 or 0 for the value
-- given, if it is the one set and lies in a segment, and as before if not: bits that share a byte
-- do not disturb one another.
pub modbus_di_read-update :
    (a b value : ℕ) (segs : List Segment)
    → IsSized segs
    → modbus_di_read a (modbus_di_update b value segs) ≡ (
        if b == a && modbus_di_r_check b segs == 1
        then (if value == 0 then 0 else 1)
        else modbus_di_read a segs)
unfolding modbus_di_read modbus_di_update modbus_di_r_check
modbus_di_read-update a b value [] h = ground arith
modbus_di_read-update a b value (s ∷ segs) h =
    put_step a b value s (modbus_di_read a segs) (modbus_di_read a (modbus_di_update b value segs))
      (modbus_di_r_check b segs) h.0 h.1 (modbus_di_read-update a b value segs h.2)
