-- ===== src/Oled/Pixels.antt =====
-- The pixels of the frame buffer of src/oled.c, and what the drawing of a point changes of them.
use ch582_water_jinru.Common.{
  ℕ, ◌-◌, ◌/◌, ◌%◌, ◌^◌, ◌<◌, ◌≡◌, ◌≢◌, refl, sym, ap, ◌∙◌, true, false, ◌&&◌, ◌||◌, [], length,
  get_or, set, get_or-set_self, get_or-set_ne, ltb, leb, ltb→lt, leb→le, ◌==◌, ==_iff,
  if◌then◌else◌, Bool-cases, inl, inr, arith,
}
use ch582_water_jinru.Common.Bits.{bits_set, bit_at, bit_at-bits_set, true_upto, true_upto_lem}
use ch582_water_jinru.Oled.{Oled, gram_at, gram_set, inverted, point_byte, oled_draw_point}

-- The pixel at `x` and `y`, 1 for a light one.
abbrev pub pixel : ℕ → ℕ → Oled → ℕ
pixel x y o = bit_at (gram_at o x (y / 8)) (y % 8)

-- 144 columns of 8 bytes.
pub record IsGram (o : Oled) : Type 0 where
  pub columns : length o.gram ≡ 144
  pub pages : (x : ℕ) → x < 144 → length (get_or o.gram x []) ≡ 8
  pub bytes : (x i : ℕ) → gram_at o x i < 256

inverted_table :
    true_upto (λ b. true_upto (λ j. bit_at (inverted b) j == 1 - bit_at b j) 8) 256 ≡ true
unfolding true_upto
inverted_table = refl

bit_at-inverted : (b j : ℕ) → b < 256 → j < 8 → bit_at (inverted b) j ≡ 1 - bit_at b j
bit_at-inverted b j hb hj = (==_iff _ _).0 (
    true_upto_lem 8 (λ k. bit_at (inverted b) k == 1 - bit_at b k) hj
      (true_upto_lem 256 (λ c. true_upto (λ k. bit_at (inverted c) k == 1 - bit_at c k) 8) hb
        inverted_table))

set_lt_table : true_upto (λ b. true_upto (λ i. ltb (bits_set b (2 ^ i)) 256) 8) 256 ≡ true
unfolding true_upto
set_lt_table = refl

bits_set_lt : (b i : ℕ) → b < 256 → i < 8 → ltb (bits_set b (2 ^ i)) 256 ≡ true
bits_set_lt b i hb hi =
    true_upto_lem 8 (λ k. ltb (bits_set b (2 ^ k)) 256) hi
      (true_upto_lem 256 (λ c. true_upto (λ k. ltb (bits_set c (2 ^ k)) 256) 8) hb set_lt_table)

-- The byte after the point is drawn, bit by bit.
bit_at-point_byte :
    (t b i j : ℕ)
    → b < 256
    → i < 8
    → j < 8
    → bit_at (point_byte t (2 ^ i) b) j ≡ (if i == j then (if t == 0 then 0 else 1) else bit_at b j)
unfolding point_byte
bit_at-point_byte t b i j hb hi hj = elim (Bool-cases (t == 0)) [
  | inl dark ↦
      let inv : inverted b < 256 = omega arith in
      let lt = ltb→lt (bits_set (inverted b) (2 ^ i)) 256 (bits_set_lt (inverted b) i inv hi) in
      rw
        (
          dark,
          bit_at-inverted (bits_set (inverted b) (2 ^ i)) j lt hj,
          bit_at-bits_set (inverted b) i j inv hi hj,
          bit_at-inverted b j hb hj,
        )
        (elim (Bool-cases (i == j)) [ inl same ↦ rw same | inr apart ↦ rw apart (omega arith) ])
  | inr light ↦ rw light (bit_at-bits_set b i j hb hi hj)
]

point_byte_lt : (t b i : ℕ) → b < 256 → i < 8 → point_byte t (2 ^ i) b < 256
unfolding point_byte
point_byte_lt t b i hb hi = elim (Bool-cases (t == 0)) [
  | inl dark ↦ rw dark (omega arith)
  | inr light ↦ rw light (ltb→lt (bits_set b (2 ^ i)) 256 (bits_set_lt b i hb hi))
]

pub gram_at-set_self :
    (o : Oled) (x i b : ℕ) → IsGram o → x < 144 → i < 8 → gram_at (gram_set x i b o) x i ≡ b
gram_at-set_self o x i b g hx hi =
    rw (get_or-set_self o.gram x (set (get_or o.gram x []) i b) [] (omega (arith, g.columns)))
      (get_or-set_self (get_or o.gram x []) i b 0 (omega (arith, g.pages x hx)))

pub gram_at-set_column :
    (o : Oled) (x i b x' i' : ℕ) → x ≢ x' → gram_at (gram_set x i b o) x' i' ≡ gram_at o x' i'
gram_at-set_column o x i b x' i' other =
    ap (λ c. get_or c i' 0) (get_or-set_ne o.gram x x' (set (get_or o.gram x []) i b) [] other)

pub gram_at-set_page :
    (o : Oled) (x i b i' : ℕ)
    → IsGram o
    → x < 144
    → i ≢ i'
    → gram_at (gram_set x i b o) x i' ≡ gram_at o x i'
gram_at-set_page o x i b i' g hx other =
    rw (get_or-set_self o.gram x (set (get_or o.gram x []) i b) [] (omega (arith, g.columns)))
      (get_or-set_ne (get_or o.gram x []) i i' b 0 other)

abbrev point_put : ℕ → ℕ → ℕ → Oled → Oled
point_put x y t o = gram_set x (y / 8) (point_byte t (2 ^ (y % 8)) (gram_at o x (y / 8))) o

-- In the same page the places of the pixels in it decide.
pixel-point_page :
    (x y t y' : ℕ) (o : Oled)
    → IsGram o
    → x < 144
    → y / 8 ≡ y' / 8
    → y < 64
    → pixel x y' (point_put x y t o) ≡ (if y == y' then (if t == 0 then 0 else 1) else pixel x y' o)
pixel-point_page x y t y' o g hx page hy =
    let same_bit : (y % 8 == y' % 8) ≡ (y == y') = ground (arith, page) in
    ap (λ i. bit_at (gram_at (point_put x y t o) x i) (y' % 8)) (sym page)
    ∙ ap (λ b. bit_at b (y' % 8)) (gram_at-set_self o x (y / 8) _ g hx (omega arith))
    ∙ bit_at-point_byte t (gram_at o x (y / 8)) (y % 8) (y' % 8) (g.bytes x (y / 8)) (omega arith)
        (omega arith)
    ∙ ap (λ c. if c then (if t == 0 then 0 else 1) else bit_at (gram_at o x (y / 8)) (y' % 8))
        same_bit
    ∙ ap (λ i. if y == y' then (if t == 0 then 0 else 1) else bit_at (gram_at o x i) (y' % 8)) page

-- The pixels after a byte of a point is written.
pixel-point :
    (x y t x' y' : ℕ) (o : Oled)
    → IsGram o
    → x < 144
    → y < 64
    → pixel x' y' (point_put x y t o)
      ≡ (if x == x' && y == y' then (if t == 0 then 0 else 1) else pixel x' y' o)
pixel-point x y t x' y' o g hx hy = elim (Bool-cases (x == x')) [
  | inr other ↦ rw other (
      ap (λ b. bit_at b (y' % 8))
        (gram_at-set_column o x (y / 8) _ x' (y' / 8) (λ e. ground arith)))
  | inl same ↦
      rw (same, ← (==_iff x x').0 same)
        (elim (Bool-cases (y / 8 == y' / 8)) [
          | inr apart ↦
              let other : (y == y') ≡ false = ground arith in
              rw other (
                ap (λ b. bit_at b (y' % 8))
                  (gram_at-set_page o x (y / 8) _ (y' / 8) g hx (λ e. ground arith)))
          | inl page ↦ pixel-point_page x y t y' o g hx ((==_iff (y / 8) (y' / 8)).0 page) hy
        ])
]

-- On a buffer of 144 columns of 8 bytes, a point drawn within the display makes that pixel dark if
-- `t` is 0 and light otherwise, and changes no other; one beyond its edge changes nothing.
pub pixel-oled_draw_point :
    (x y t x' y' : ℕ) (o : Oled)
    → IsGram o
    → pixel x' y' (oled_draw_point x y t o) ≡ (
        if leb x 127 && leb y 63 && x == x' && y == y'
        then (if t == 0 then 0 else 1)
        else pixel x' y' o)
unfolding oled_draw_point
pixel-oled_draw_point x y t x' y' o g = elim (Bool-cases (ltb 127 x || ltb 63 y)) [
  | inl off ↦
      let outside : leb x 127 && leb y 63 && x == x' && y == y' ≡ false = ground arith in
      rw (off, outside)
  | inr on ↦
      let left : leb x 127 ≡ true = ground arith in
      let upper : leb y 63 ≡ true = ground arith in
      rw (on, left, upper)
        (pixel-point x y t x' y' o g (omega (arith, leb→le x 127 left))
          (omega (arith, leb→le y 63 upper)))
]
