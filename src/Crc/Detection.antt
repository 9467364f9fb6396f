-- ===== src/Crc/Detection.antt =====
-- What the check sum of the storage (CRC8_MAXIM_INIT, src/utils/crc.c) detects.
use Prim.Native.Nat.{bit_xor}
use ch582_water_jinru.Common.{
  and_left, and_right, ℕ, zero, suc, ◌+◌, ◌*◌, ◌/◌, ◌%◌, ◌<◌, ◌≡◌, ◌≢◌, refl, sym, ap, ◌∙◌, Bool,
  true, ◌&&◌, List, [], ◌∷◌, ◌++◌, ltb, ltb→lt, ◌==◌, ==_iff, if◌then◌else◌, arith,
}
use ch582_water_jinru.Common.Bits.{true_upto, true_upto_lem}
use ch582_water_jinru.Crc.{ref_8bit, reflected_data, step_left, rounds, feed, crc_check, crc8_maxim}

abbrev step : ℕ → ℕ
unfolding step_left
step x = step_left 8 0x31 x

-- The step is undone: the lowest bit tells which case it was.
abbrev undo : ℕ → ℕ
undo y = if y % 2 == 1 then bit_xor y 0x31 / 2 + 128 else y / 2

abbrev step_fine : ℕ → Bool
unfolding step
step_fine x = ltb (step x) 256 && undo (step x) == x

step_table : true_upto step_fine 256 ≡ true
unfolding true_upto step_fine step_left
step_table = refl

abbrev reflect : ℕ → ℕ
unfolding reflected_data
reflect b = reflected_data b ref_8bit

abbrev reflect_fine : ℕ → Bool
unfolding reflect
reflect_fine b = ltb (reflect b) 256 && reflect (reflect b) == b

reflect_table : true_upto reflect_fine 256 ≡ true
unfolding true_upto reflect_fine reflected_data
reflect_table = refl

xor_fine : ℕ → ℕ → Bool
xor_fine a b =
    ltb (bit_xor a b) 256 && (bit_xor (bit_xor a b) b == a && bit_xor (bit_xor a b) a == b)

xor_table : true_upto (λ a. true_upto (xor_fine a) 256) 256 ≡ true
unfolding true_upto xor_fine
xor_table = refl

step_byte : (x : ℕ) → x < 256 → step x < 256
unfolding step_fine
step_byte x h = ltb→lt (step x) 256 (and_left _ _ (true_upto_lem 256 step_fine h step_table))

undo-step : (x : ℕ) → x < 256 → undo (step x) ≡ x
unfolding step_fine
undo-step x h =
    (==_iff (undo (step x)) x).0 (and_right _ _ (true_upto_lem 256 step_fine h step_table))

reflect_byte : (x : ℕ) → x < 256 → reflect x < 256
unfolding reflect_fine
reflect_byte x h =
    ltb→lt (reflect x) 256 (and_left _ _ (true_upto_lem 256 reflect_fine h reflect_table))

reflect_twice : (x : ℕ) → x < 256 → reflect (reflect x) ≡ x
unfolding reflect_fine
reflect_twice x h =
    (==_iff (reflect (reflect x)) x).0
      (and_right _ _ (true_upto_lem 256 reflect_fine h reflect_table))

xor_fine_lem : (a b : ℕ) → a < 256 → b < 256 → xor_fine a b ≡ true
xor_fine_lem a b p q =
    true_upto_lem 256 (xor_fine a) q
      (true_upto_lem 256 (λ x. true_upto (xor_fine x) 256) p xor_table)

pub xor_byte : (a b : ℕ) → a < 256 → b < 256 → bit_xor a b < 256
unfolding xor_fine
xor_byte a b p q = ltb→lt (bit_xor a b) 256 (and_left _ _ (xor_fine_lem a b p q))

xor_right : (a b : ℕ) → a < 256 → b < 256 → bit_xor (bit_xor a b) b ≡ a
unfolding xor_fine
xor_right a b p q =
    (==_iff (bit_xor (bit_xor a b) b) a).0 (and_left _ _ (and_right _ _ (xor_fine_lem a b p q)))

xor_left : (a b : ℕ) → a < 256 → b < 256 → bit_xor (bit_xor a b) a ≡ b
unfolding xor_fine
xor_left a b p q =
    (==_iff (bit_xor (bit_xor a b) a) b).0 (and_right _ _ (and_right _ _ (xor_fine_lem a b p q)))

rounds_byte : (n x : ℕ) → x < 256 → rounds n step x < 256
unfolding rounds
rounds_byte zero x h = h
rounds_byte (suc n) x h = rounds_byte n (step x) (step_byte x h)

rounds_injective : (n x y : ℕ) → x < 256 → y < 256 → rounds n step x ≡ rounds n step y → x ≡ y
unfolding rounds
rounds_injective zero x y p q e = e
rounds_injective (suc n) x y p q e =
    sym (undo-step x p)
    ∙ ap undo (rounds_injective n (step x) (step y) (step_byte x p) (step_byte y q) e)
    ∙ undo-step y q

-- A byte taken into the remainder.
abbrev join : ℕ → ℕ → ℕ
unfolding reflect
join crc b = bit_xor crc (reflect b * 1)

times_one : (n : ℕ) → n * 1 ≡ n
times_one n = omega arith

join_byte : (crc b : ℕ) → crc < 256 → b < 256 → join crc b < 256
unfolding join
join_byte crc b p q = rw (times_one (reflect b)) (xor_byte crc (reflect b) p (reflect_byte b q))

join_crc : (x y b : ℕ) → x < 256 → y < 256 → b < 256 → join x b ≡ join y b → x ≡ y
unfolding join
join_crc x y b p q r e =
    let m = reflect b * 1 in
    let small : m < 256 = omega (arith, reflect_byte b r) in
    sym (xor_right x m p small) ∙ ap (λ z. bit_xor z m) e ∙ xor_right y m q small

join_data : (crc a b : ℕ) → crc < 256 → a < 256 → b < 256 → join crc a ≡ join crc b → a ≡ b
unfolding join
join_data crc a b p q r e =
    let same : reflect a * 1 ≡ reflect b * 1 =
      sym (xor_left crc (reflect a * 1) p (omega (arith, reflect_byte a q)))
      ∙ ap (λ z. bit_xor z crc) e
      ∙ xor_left crc (reflect b * 1) p (omega (arith, reflect_byte b r)) in
    sym (reflect_twice a q)
    ∙ ap reflect (sym (times_one (reflect a)) ∙ same ∙ times_one (reflect b))
    ∙ reflect_twice b r

abbrev pub AllBytes : List ℕ → Type 0
AllBytes [] = Unit {0}
AllBytes (b ∷ bs) = (b < 256) × AllBytes bs

-- One byte of the message.
abbrev advance : ℕ → ℕ → ℕ
unfolding join step
advance crc b = rounds 8 step (join crc b)

advance_byte : (crc b : ℕ) → crc < 256 → b < 256 → advance crc b < 256
unfolding advance
advance_byte crc b p q = rounds_byte 8 (join crc b) (join_byte crc b p q)

-- Different remainders stay different through the same bytes.
feed_injective :
    (bs : List ℕ) (x y : ℕ)
    → AllBytes bs
    → x < 256
    → y < 256
    → feed join step bs x ≡ feed join step bs y
    → x ≡ y
unfolding feed advance
feed_injective [] x y h p q e = e
feed_injective (b ∷ bs) x y (hb, h) p q e = join_crc x y b p q hb (
    rounds_injective 8 (join x b) (join y b) (join_byte x b p hb) (join_byte y b q hb) (
      feed_injective bs (advance x b) (advance y b) h (advance_byte x b p hb)
        (advance_byte y b q hb) e))

feed_detects :
    (before after : List ℕ) (a b crc : ℕ)
    → AllBytes before
    → AllBytes after
    → a < 256
    → b < 256
    → crc < 256
    → feed join step (before ++ (a ∷ after)) crc ≡ feed join step (before ++ (b ∷ after)) crc
    → a ≡ b
unfolding feed advance
feed_detects [] after a b crc hb ha p q r e = join_data crc a b r p q (
    rounds_injective 8 (join crc a) (join crc b) (join_byte crc a r p) (join_byte crc b r q) (
      feed_injective after (advance crc a) (advance crc b) ha (advance_byte crc a r p)
        (advance_byte crc b r q) e))
feed_detects (x ∷ before) after a b crc (hx, hb) ha p q r e =
    feed_detects before after a b (advance crc x) hb ha p q (advance_byte crc x r hx) e

feed_byte : (bs : List ℕ) (crc : ℕ) → AllBytes bs → crc < 256 → feed join step bs crc < 256
unfolding feed advance
feed_byte [] crc h p = p
feed_byte (b ∷ bs) crc (hb, h) p = feed_byte bs (advance crc b) h (advance_byte crc b p hb)

maxim_lem : (bs : List ℕ) → crc_check crc8_maxim bs ≡ bit_xor (reflect (feed join step bs 0)) 0
unfolding crc_check join step reflect
maxim_lem bs = refl

append_bytes : (xs ys : List ℕ) → AllBytes xs → AllBytes ys → AllBytes (xs ++ ys)
append_bytes [] ys h k = k
append_bytes (x ∷ xs) ys (hx, h) k = (hx, append_bytes xs ys h k)

final_injective :
    (x y : ℕ) → x < 256 → y < 256 → bit_xor (reflect x) 0 ≡ bit_xor (reflect y) 0 → x ≡ y
final_injective x y p q e =
    sym (reflect_twice x p)
    ∙ ap reflect (
        sym (xor_right (reflect x) 0 (reflect_byte x p) (omega arith))
        ∙ ap (λ z. bit_xor z 0) e
        ∙ xor_right (reflect y) 0 (reflect_byte y q) (omega arith))
    ∙ reflect_twice y q

-- The check sum of the storage's items detects a change of one byte: two messages that differ in
-- exactly one byte, at whatever place, have different check sums.
pub one_byte_detected :
    (before after : List ℕ) (a b : ℕ)
    → AllBytes before
    → AllBytes after
    → a < 256
    → b < 256
    → a ≢ b
    → crc_check crc8_maxim (before ++ (a ∷ after)) ≢ crc_check crc8_maxim (before ++ (b ∷ after))
one_byte_detected before after a b hb ha p q ne e =
    let first = before ++ (a ∷ after) in
    let second = before ++ (b ∷ after) in
    ne (
      feed_detects before after a b 0 hb ha p q (omega arith) (
        final_injective (feed join step first 0) (feed join step second 0)
          (feed_byte first 0 (append_bytes before (a ∷ after) hb (p, ha)) (omega arith))
          (feed_byte second 0 (append_bytes before (b ∷ after) hb (q, ha)) (omega arith))
          (sym (maxim_lem first) ∙ e ∙ maxim_lem second)))
