-- ===== src/Oled/Areas.antt =====
-- What the loops of `OLED_clear_buffer` and `OLED_Clear` (src/oled.c) change of the frame buffer.
use Prim.Native.Nat.{bit_and}
use ch582_water_jinru.Common.{
  ℕ, zero, suc, ◌+◌, ◌-◌, ◌*◌, ◌/◌, ◌%◌, ◌^◌, ◌≤◌, ◌<◌, ◌≡◌, ap, ◌∙◌, Bool, true, false, not, ◌&&◌,
  [], length, get_or, set, get_or-set_self, get_or-set_ne, length-set, ltb, leb, ◌==◌, ==_iff,
  if◌then◌else◌, Bool-cases, inl, inr, and_left, and_right, arith,
}
use ch582_water_jinru.Oled.{
  Oled, OledArea, gram_at, gram_set, change_columns, change_pages, kept_bits, is_off,
  oled_clear_buffer,
}
use ch582_water_jinru.Oled.Bytes.{bit_and_lt, bit_or_lt, bit_and_none, bit_at_dark}
use ch582_water_jinru.Oled.Pixels.{
  IsGram, pixel, gram_at-set_self, gram_at-set_column, gram_at-set_page,
}

-- A byte after another is written.
gram_at-set :
    (o : Oled) (x i b x' i' : ℕ)
    → IsGram o
    → x < 144
    → i < 8
    → gram_at (gram_set x i b o) x' i' ≡ (if x == x' && i == i' then b else gram_at o x' i')
gram_at-set o x i b x' i' g hx hi = elim (Bool-cases (x == x')) [
  | inr other ↦ rw other (gram_at-set_column o x i b x' i' (λ e. ground arith))
  | inl same ↦
      rw (same, ← (==_iff x x').0 same)
        (elim (Bool-cases (i == i')) [
          | inr apart ↦ rw apart (gram_at-set_page o x i b i' g hx (λ e. ground arith))
          | inl page ↦ rw (page, ← (==_iff i i').0 page) (gram_at-set_self o x i b g hx hi)
        ])
]

pub gram_set-IsGram :
    (o : Oled) (x i b : ℕ) → IsGram o → x < 144 → i < 8 → b < 256 → IsGram (gram_set x i b o)
gram_set-IsGram o x i b g hx hi hb = record {
  columns = length-set o.gram x _ ∙ g.columns;
  pages = λ x' h. elim (Bool-cases (x == x')) [
    | inr other ↦
        ap length (get_or-set_ne o.gram x x' (set (get_or o.gram x []) i b) [] (λ e. ground arith))
        ∙ g.pages x' h
    | inl same ↦
        rw
          (
            ← (==_iff x x').0 same,
            get_or-set_self o.gram x (set (get_or o.gram x []) i b) [] (omega (arith, g.columns)),
          )
          (length-set (get_or o.gram x []) i b ∙ g.pages x hx)
  ];
  bytes = λ x' i'. elim (Bool-cases (x == x' && i == i')) [
    | inl here ↦ rw (gram_at-set o x i b x' i' g hx hi, here) hb
    | inr elsewhere ↦ rw (gram_at-set o x i b x' i' g hx hi, elsewhere) (g.bytes x' i')
  ];
}

module _ (f : ℕ → ℕ) (f_lt : (b : ℕ) → b < 256 → f b < 256) where
  change_columns-IsGram :
      (n x i : ℕ) (o : Oled) → x + n ≤ 144 → i < 8 → IsGram o → IsGram (change_columns f n x i o)
  change_columns-IsGram zero x i o hx hi g = g
  change_columns-IsGram (suc n) x i o hx hi g =
      change_columns-IsGram n (x + 1) i _ (omega arith) hi
        (gram_set-IsGram o x i (f (gram_at o x i)) g (omega arith) hi (f_lt _ (g.bytes x i)))

  gram_at-change_columns :
      (n x i x' i' : ℕ) (o : Oled)
      → x + n ≤ 144
      → i < 8
      → IsGram o
      → gram_at (change_columns f n x i o) x' i'
        ≡ (if i == i' && leb x x' && ltb x' (x + n) then f (gram_at o x' i') else gram_at o x' i')
  gram_at-change_columns zero x i x' i' o hx hi g =
      let nowhere : i == i' && leb x x' && ltb x' (x + 0) ≡ false = ground arith in rw nowhere
  gram_at-change_columns (suc n) x i x' i' o hx hi g =
      let o' = gram_set x i (f (gram_at o x i)) o in
      let g' =
        gram_set-IsGram o x i (f (gram_at o x i)) g (omega arith) hi (f_lt _ (g.bytes x i)) in
      rw
        (
          gram_at-change_columns n (x + 1) i x' i' o' (omega arith) hi g',
          gram_at-set o x i (f (gram_at o x i)) x' i' g (omega arith) hi,
        )
        (elim (Bool-cases (x == x' && i == i')) [
          | inl here ↦
              let done : i == i' && leb (x + 1) x' && ltb x' (x + 1 + n) ≡ false = ground arith in
              let inside : i == i' && leb x x' && ltb x' (x + suc n) ≡ true = ground arith in
              let ex = (==_iff x x').0 (and_left _ _ here) in
              let ei = (==_iff i i').0 (and_right _ _ here) in rw (here, done, inside, ← ex, ← ei)
          | inr elsewhere ↦
              let same : (i == i' && leb (x + 1) x' && ltb x' (x + 1 + n))
                  ≡ (i == i' && leb x x' && ltb x' (x + suc n)) =
                ground arith in
              rw (elsewhere, same)
        ])

module _ (f : ℕ → ℕ → ℕ) (f_lt : (i b : ℕ) → b < 256 → f i b < 256) where
  gram_at-change_pages :
      (n columns x i x' i' : ℕ) (o : Oled)
      → x + columns ≤ 144
      → i + n ≤ 8
      → IsGram o
      → gram_at (change_pages f n columns x i o) x' i' ≡ (
          if leb i i' && ltb i' (i + n) && leb x x' && ltb x' (x + columns)
          then f i' (gram_at o x' i')
          else gram_at o x' i')
  gram_at-change_pages zero columns x i x' i' o hx hi g =
      let nowhere : leb i i' && ltb i' (i + 0) && leb x x' && ltb x' (x + columns) ≡ false =
        ground arith in
      rw nowhere
  gram_at-change_pages (suc n) columns x i x' i' o hx hi g =
      let o' = change_columns (f i) columns x i o in
      let g' = change_columns-IsGram (f i) (f_lt i) columns x i o hx (omega arith) g in
      rw
        (
          gram_at-change_pages n columns x (i + 1) x' i' o' hx (omega arith) g',
          gram_at-change_columns (f i) (f_lt i) columns x i x' i' o hx (omega arith) g,
        )
        (elim (Bool-cases (i == i')) [
          | inl here ↦
              let done : leb (i + 1) i' && ltb i' (i + 1 + n) && leb x x' && ltb x' (x + columns)
                  ≡ false =
                ground arith in
              let same : (i == i' && leb x x' && ltb x' (x + columns))
                  ≡ (leb i i' && ltb i' (i + suc n) && leb x x' && ltb x' (x + columns)) =
                ground arith in
              rw (done, same, ← (==_iff i i').0 here)
          | inr elsewhere ↦
              let no_column : i == i' && leb x x' && ltb x' (x + columns) ≡ false = ground arith in
              let same : (leb (i + 1) i' && ltb i' (i + 1 + n) && leb x x' && ltb x' (x + columns))
                  ≡ (leb i i' && ltb i' (i + suc n) && leb x x' && ltb x' (x + columns)) =
                ground arith in
              rw (no_column, same)
        ])

first_lt : (b : Bool) (m : ℕ) → (if b then 255 - m else 0) < 256
first_lt true m = omega arith
first_lt false m = omega arith

kept_bits_lt : (a : OledArea) (i : ℕ) → kept_bits a i < 256
unfolding kept_bits
kept_bits_lt a i = elim (Bool-cases (i == (a.y + a.height) / 8)) [
  | inl end ↦
      rw end (bit_or_lt _ _ (first_lt (i == a.y / 8) (255 * 2 ^ (a.y % 8) % 256)) (omega arith))
  | inr before ↦ rw before (first_lt (i == a.y / 8) (255 * 2 ^ (a.y % 8) % 256))
]

-- An area of whole pages.
pub record IsAligned (a : OledArea) : Type 0 where
  pub top : a.y % 8 ≡ 0
  pub rows : a.height % 8 ≡ 0

kept_bits_none : (a : OledArea) (i : ℕ) → IsAligned a → i < (a.y + a.height) / 8 → kept_bits a i ≡ 0
unfolding kept_bits
kept_bits_none a i al h =
    let before_end : i == (a.y + a.height) / 8 ≡ false = ground arith in
    rw (before_end, al.top)
      (elim (Bool-cases (i == a.y / 8)) [ inl top ↦ rw top | inr below ↦ rw below ])

-- On a buffer of 144 columns of 8 bytes, clearing an area of whole pages makes its pixels dark and
-- leaves all others; an area that is empty or goes beyond the edge of the display changes nothing.
pub pixel-oled_clear_buffer :
    (a : OledArea) (x' y' : ℕ) (o : Oled)
    → IsAligned a
    → IsGram o
    → pixel x' y' (oled_clear_buffer a o) ≡ (
        if not (is_off a)
          && (leb a.y y' && ltb y' (a.y + a.height) && leb a.x x' && ltb x' (a.x + a.width))
        then 0
        else pixel x' y' o)
unfolding oled_clear_buffer
pixel-oled_clear_buffer a x' y' o al g = elim (Bool-cases (is_off a)) [
  | inl off ↦ rw off
  | inr on ↦
      let right : a.x + a.width ≤ 128 = ground arith in
      let lower : a.y + a.height ≤ 64 = ground arith in
      let top = a.y / 8 in
      let pages = (a.y + a.height) / 8 - top in
      let first_row : leb top (y' / 8) ≡ leb a.y y' = ground (arith, al.top) in
      let last_row : ltb (y' / 8) (top + pages) ≡ ltb y' (a.y + a.height) =
        ground (arith, al.top, al.rows) in
      let byte =
        gram_at-change_pages (λ i b. bit_and b (kept_bits a i))
          (λ i b h. bit_and_lt b (kept_bits a i) h (kept_bits_lt a i)) pages a.width a.x top x'
          (y' / 8) o (omega arith) (omega arith) g in
      rw (on, byte, first_row, last_row)
        (elim (Bool-cases
          (leb a.y y' && ltb y' (a.y + a.height) && leb a.x x' && ltb x' (a.x + a.width))) [
            | inl inside ↦
                let row : y' < a.y + a.height = ground arith in
                rw
                  (
                    inside,
                    kept_bits_none a (y' / 8) al (omega (arith, row, al.top, al.rows)),
                    bit_and_none (gram_at o x' (y' / 8)) (g.bytes x' (y' / 8)),
                  )
                  (bit_at_dark (y' % 8) (omega arith))
            | inr outside ↦ rw outside
          ])
]
