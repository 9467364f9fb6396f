-- ===== src/Crc16/Bitwise.antt =====
-- The table driven CRC is the bit by bit one, polynomial 0xA001, of src/utils/crc16.c.
use Prim.Native.Nat.{bit_xor, differ, digits, bit_xor-bitwise}
use ch582_water_jinru.Common.{
  and_left, and_right, ℕ, zero, suc, ◌+◌, ◌*◌, ◌/◌, ◌%◌, ◌<◌, ◌≤◌, ◌≡◌, ◌++◌, length-append, refl,
  sym, ap, ◌∙◌, Bool, true, ◌&&◌, List, [], ◌∷◌, length, get_or, ltb, ltb→lt, ◌==◌, ==_iff, ==_ne,
  if◌then◌else◌, arith,
}
use ch582_water_jinru.Common.Bits.{true_upto, true_upto_lem}
use ch582_water_jinru.Crc.Detection.{AllBytes, xor_byte}
use ch582_water_jinru.Crc.{step_right, rounds, feed}
use ch582_water_jinru.Crc16.{
  Context, crc_hi, crc_lo, crc16_init, update_byte, update_bytes, crc16_update, crc16_value, crc16,
}

step : ℕ → ℕ
unfolding step_right
step x = step_right 0xa001 x

-- Both tables at an index, and the bits that the higher byte leaves alone.
row_fine : ℕ → ℕ → Bool
unfolding step rounds crc_hi crc_lo
row_fine low high =
    (rounds 8 step (low + 256 * high)
      == bit_xor high (get_or crc_hi low 0) + 256 * get_or crc_lo low 0)

rows : true_upto (λ low. true_upto (row_fine low) 256) 256 ≡ true
unfolding row_fine true_upto
rows = refl

entries_fine :
    true_upto (λ i. ltb (get_or crc_hi i 0) 256 && ltb (get_or crc_lo i 0) 256) 256 ≡ true
unfolding true_upto crc_hi crc_lo
entries_fine = refl

entries_byte : (i : ℕ) → i < 256 → (get_or crc_hi i 0 < 256) × (get_or crc_lo i 0 < 256)
entries_byte i h =
    let both =
      true_upto_lem 256 (λ j. ltb (get_or crc_hi j 0) 256 && ltb (get_or crc_lo j 0) 256) h
        entries_fine in
    (ltb→lt _ _ (and_left _ _ both), ltb→lt _ _ (and_right _ _ both))

row_lem :
    (low high : ℕ)
    → low < 256
    → high < 256
    → rounds 8 step (low + 256 * high)
      ≡ bit_xor high (get_or crc_hi low 0) + 256 * get_or crc_lo low 0
unfolding row_fine
row_lem low high p q = (==_iff _ _).0 (
    true_upto_lem 256 (row_fine low) q (true_upto_lem 256 (λ l. true_upto (row_fine l) 256) p rows))

-- A byte taken into the remainder meets its lower byte.
xor_digits : ℕ → ℕ → ℕ → ℕ
xor_digits n a b = digits (λ b. b) differ n a b

xor_digits_fuel : (n m a b : ℕ) → a ≤ n → a ≤ m → xor_digits n a b ≡ xor_digits m a b
unfolding xor_digits
xor_digits_fuel zero zero a b p q = refl
xor_digits_fuel zero (suc m) zero b p q = refl
xor_digits_fuel zero (suc m) (suc a) b p q = absurd (omega arith)
xor_digits_fuel (suc n) zero zero b p q = refl
xor_digits_fuel (suc n) zero (suc a) b p q = absurd (omega arith)
xor_digits_fuel (suc n) (suc m) zero b p q = refl
xor_digits_fuel (suc n) (suc m) (suc a) b p q =
    omega (arith, xor_digits_fuel n m (suc a / 2) (b / 2) (omega arith) (omega arith))

bit_xor_step : (a b : ℕ) → bit_xor a b ≡ bit_xor (a / 2) (b / 2) * 2 + differ (a % 2) (b % 2)
unfolding xor_digits
bit_xor_step zero b = omega (arith, bit_xor-bitwise 0 b, bit_xor-bitwise 0 (b / 2))
bit_xor_step (suc a) b = omega (
  arith,
  bit_xor-bitwise (suc a) b,
  bit_xor-bitwise (suc a / 2) (b / 2),
  xor_digits_fuel a (suc a / 2) (suc a / 2) (b / 2) (omega arith) (omega arith),
)

-- `h` moved left by `k` bits.
scale : ℕ → ℕ → ℕ
scale zero h = h
scale (suc k) h = scale k h * 2

differ_zero : (a : ℕ) → differ a 0 ≡ a
differ_zero zero = refl
differ_zero (suc a) = refl

pub xor_right_zero : (n a : ℕ) → a ≤ n → bit_xor a 0 ≡ a
xor_right_zero zero zero h = refl
xor_right_zero zero (suc a) h = absurd (omega arith)
xor_right_zero (suc n) zero h = refl
xor_right_zero (suc n) (suc a) h = omega (
  arith,
  bit_xor_step (suc a) 0,
  differ_zero (suc a % 2),
  xor_right_zero n (suc a / 2) (omega arith),
)

bit_xor-scale :
    (k l h b : ℕ)
    → l < scale k 1
    → b < scale k 1
    → bit_xor (l + scale k h) b ≡ bit_xor l b + scale k h
unfolding scale
bit_xor-scale zero zero h zero p q = xor_right_zero (0 + h) (0 + h) (omega arith)
bit_xor-scale zero (suc l) h b p q = absurd (omega arith)
bit_xor-scale zero zero h (suc b) p q = absurd (omega arith)
bit_xor-scale (suc k) l h b p q =
    let half : (l + scale k h * 2) / 2 ≡ l / 2 + scale k h = omega arith in
    let odd : (l + scale k h * 2) % 2 ≡ l % 2 = omega arith in
    bit_xor_step (l + scale k h * 2) b
    ∙ rw (half, odd)
        (omega
          (arith, bit_xor_step l b, bit_xor-scale k (l / 2) h (b / 2) (omega arith) (omega arith)))

bit_xor_low :
    (low high b : ℕ)
    → low < 256
    → b < 256
    → bit_xor (low + 256 * high) b ≡ bit_xor low b + 256 * high
unfolding scale
bit_xor_low low high b p q =
    let e : low + 256 * high ≡ low + scale 8 high = omega arith in
    rw e (omega (arith, bit_xor-scale 8 low high b p q))

record IsByteContext (c : Context) : Type 0 where
  low_byte : c.low < 256
  high_byte : c.high < 256

abbrev remainder : Context → ℕ
remainder c = c.low + 256 * c.high

module _ (c : Context) (b : ℕ) (ok : IsByteContext c) (byte : b < 256) where
  update_byte-IsByteContext : IsByteContext (update_byte b c)
  unfolding update_byte
  update_byte-IsByteContext =
      let index = xor_byte c.low b ok.low_byte byte in
      record {
        low_byte = xor_byte _ _ ok.high_byte (entries_byte (bit_xor c.low b) index).0;
        high_byte = (entries_byte (bit_xor c.low b) index).1;
      }

  remainder-update_byte :
      remainder (update_byte b c) ≡ rounds 8 (step_right 0xa001) (bit_xor (remainder c) b)
  unfolding update_byte step
  remainder-update_byte =
      rw (bit_xor_low c.low c.high b ok.low_byte byte)
        (sym (row_lem (bit_xor c.low b) c.high (xor_byte c.low b ok.low_byte byte) ok.high_byte))

remainder-update_bytes :
    (buf : List ℕ) (c : Context)
    → IsByteContext c
    → AllBytes buf
    → remainder (update_bytes buf c) ≡ feed bit_xor (step_right 0xa001) buf (remainder c)
unfolding update_bytes feed
remainder-update_bytes [] c ok bytes = refl
remainder-update_bytes (b ∷ buf) c ok (byte, bytes) =
    remainder-update_bytes buf (update_byte b c) (update_byte-IsByteContext c b ok byte) bytes
    ∙ ap (feed bit_xor (step_right 0xa001) buf) (remainder-update_byte c b ok byte)

update_lem :
    (buf : List ℕ) (c : Context)
    → c.len + length buf < 65536
    → crc16_update buf c ≡ record (update_bytes buf c) { len = c.len + length buf }
unfolding crc16_update
update_lem [] c small = ground arith
update_lem (b ∷ buf) c small = rw (==_ne (length (b ∷ buf)) 0 (λ e. omega arith)) (ground arith)

value_lem : (c : Context) → crc16_value c ≡ (if c.len == 0 then 0 else remainder c)
unfolding crc16_value
value_lem c = refl

crc16_lem :
    (buf : List ℕ)
    → length buf < 65536
    → crc16 buf ≡ (if length buf == 0 then 0 else remainder (update_bytes buf crc16_init))
unfolding crc16_init
crc16_lem buf small =
    let value : crc16 buf ≡ crc16_value (crc16_update buf crc16_init) = unfold crc16 in refl in
    let zero_add : 0 + length buf ≡ length buf = omega arith in
    value ∙ ap crc16_value (update_lem buf crc16_init (omega arith)) ∙ value_lem _ ∙ rw zero_add

-- For a buffer of 1 to 65535 bytes `crc16` is the bit by bit CRC of the polynomial 0xA001 that
-- starts from 0xFFFF, the one of a Modbus line; for the empty buffer it is 0.
pub crc16-eq-feed :
    (buf : List ℕ)
    → AllBytes buf
    → length buf < 65536
    → crc16 buf ≡ (if length buf == 0 then 0 else feed bit_xor (step_right 0xa001) buf 0xffff)
unfolding crc16_init
crc16-eq-feed buf bytes small =
    crc16_lem buf small
    ∙ ap (λ r. if length buf == 0 then 0 else r)
        (remainder-update_bytes buf crc16_init (omega arith) bytes)

update_bytes_len :
    (ys : List ℕ) (c : Context) (n : ℕ)
    → update_bytes ys (record c { len = n }) ≡ record (update_bytes ys c) { len = n }
unfolding update_bytes
update_bytes_len [] c n = refl
update_bytes_len (y ∷ ys) c n = update_bytes_len ys (update_byte y c) n

update_bytes-append :
    (xs ys : List ℕ) (c : Context) → update_bytes (xs ++ ys) c ≡ update_bytes ys (update_bytes xs c)
unfolding update_bytes
update_bytes-append [] ys c = refl
update_bytes-append (x ∷ xs) ys c = update_bytes-append xs ys (update_byte x c)

-- Two updates do what one update does with the bytes of both, as long as the bytes fed to the
-- context are less than 65536.
pub crc16_update-append :
    (xs ys : List ℕ) (c : Context)
    → c.len + length (xs ++ ys) < 65536
    → crc16_update ys (crc16_update xs c) ≡ crc16_update (xs ++ ys) c
crc16_update-append xs ys c small =
    let count = length-append xs ys in
    let halfway : Context = record (update_bytes xs c) { len = c.len + length xs } in
    let total : c.len + length xs + length ys ≡ c.len + length (xs ++ ys) = omega arith in
    let low = update_bytes_len ys (update_bytes xs c) (c.len + length xs) in
    ap (crc16_update ys) (update_lem xs c (omega arith))
    ∙ update_lem ys halfway (omega arith)
    ∙ ap (λ (d : Context). record d { len = c.len + length xs + length ys }) low
    ∙ ap (λ (d : Context). record d { len = c.len + length xs + length ys })
        (sym (update_bytes-append xs ys c))
    ∙ ap (λ n. record (update_bytes (xs ++ ys) c) { len = n }) total
    ∙ sym (update_lem (xs ++ ys) c small)
