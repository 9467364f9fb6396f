-- ===== src/Oled.antt =====
-- The frame buffer of src/oled.c. The bytes that go to the display, each with its line D/C, are kept
-- as a list, in the order in which they are sent.
mod Areas
mod Bytes
mod Pixels
mod Tests
use Prim.Native.Nat.{bit_and, bit_or}
use ch582_water_jinru.Common.{
  ℕ, zero, suc, ◌+◌, ◌-◌, ◌*◌, ◌/◌, ◌%◌, ◌^◌, Bool, true, false, ◌||◌, not, ◌&&◌, List, [], ◌∷◌,
  ◌++◌, get_or, set, replicate, ltb, leb, ◌==◌, if◌then◌else◌, u8,
}
use ch582_water_jinru.Common.Bits.{bits_set}

abbrev pub oled_cmd : ℕ
oled_cmd = 0

abbrev pub oled_data : ℕ
oled_data = 1

pub record OledArea : Type 0 where
  pub x : ℕ
  pub y : ℕ
  pub width : ℕ
  pub height : ℕ

-- `OLED_GRAM`, column by column, and `flag_refresh`.
pub record Oled : Type 0 where
  pub gram : List (List ℕ)
  pub flag_refresh : Bool
  pub sent : List (ℕ × ℕ)

abbrev pub gram_at : Oled → ℕ → ℕ → ℕ
gram_at o x i = get_or (get_or o.gram x []) i 0

abbrev pub gram_set : ℕ → ℕ → ℕ → Oled → Oled
gram_set x i b o = record o { gram = set o.gram x (set (get_or o.gram x []) i b) }

-- `OLED_WR_Byte`, without the clock of the bits.
abbrev pub oled_wr_byte : ℕ → ℕ → Oled → Oled
oled_wr_byte dat cmd o = record o { sent = o.sent ++ (dat, cmd) ∷ [] }

unfoldable pub oled_color_turn : ℕ → Oled → Oled
oled_color_turn i o =
    if i == 0
    then oled_wr_byte 0xa6 oled_cmd o
    else if i == 1
    then oled_wr_byte 0xa7 oled_cmd o
    else o

unfoldable pub oled_display_turn : ℕ → Oled → Oled
oled_display_turn i o =
    if i == 0
    then oled_wr_byte 0xa1 oled_cmd (oled_wr_byte 0xc8 oled_cmd o)
    else if i == 1
    then oled_wr_byte 0xa0 oled_cmd (oled_wr_byte 0xc0 oled_cmd o)
    else o

unfoldable pub oled_display_on : Oled → Oled
oled_display_on o =
    oled_wr_byte 0xaf oled_cmd (oled_wr_byte 0x14 oled_cmd (oled_wr_byte 0x8d oled_cmd o))

unfoldable pub oled_display_off : Oled → Oled
oled_display_off o =
    oled_wr_byte 0xae oled_cmd (oled_wr_byte 0x10 oled_cmd (oled_wr_byte 0x8d oled_cmd o))

-- The loops of `OLED_Refresh`: `n` columns from `x` on of the page `i`, and `n` pages from `i` on.
abbrev pub send_columns : ℕ → ℕ → ℕ → Oled → Oled
send_columns zero x i o = o
send_columns (suc n) x i o = send_columns n (x + 1) i (oled_wr_byte (gram_at o x i) oled_data o)

unfoldable pub send_pages : ℕ → ℕ → Oled → Oled
send_pages zero i o = o
send_pages (suc n) i o = send_pages n (i + 1) (
    send_columns 128 0 i
      (oled_wr_byte 0x10 oled_cmd (oled_wr_byte 0 oled_cmd (oled_wr_byte (0xb0 + i) oled_cmd o))))

unfoldable pub oled_refresh : ℕ → Oled → Oled
unfolding send_pages
oled_refresh force o =
    if force == 0 && not o.flag_refresh
    then o
    else record (send_pages 8 0 o) { flag_refresh = false }

-- The loops that write the function `f` of the old byte: `n` columns from `x` on of the page `i`, and
-- `n` pages from `i` on.
abbrev pub change_columns : (ℕ → ℕ) → ℕ → ℕ → ℕ → Oled → Oled
change_columns f zero x i o = o
change_columns f (suc n) x i o = change_columns f n (x + 1) i (gram_set x i (f (gram_at o x i)) o)

abbrev pub change_pages : (ℕ → ℕ → ℕ) → ℕ → ℕ → ℕ → ℕ → Oled → Oled
change_pages f zero columns x i o = o
change_pages f (suc n) columns x i o =
    change_pages f n columns x (i + 1) (change_columns (f i) columns x i o)

unfoldable pub oled_clear : Oled → Oled
unfolding oled_refresh
oled_clear o = oled_refresh 0 (record (change_pages (λ _ _. 0) 8 128 0 0 o) { flag_refresh = true })

-- The bits of a page that `OLED_clear_buffer` keeps.
unfoldable pub kept_bits : OledArea → ℕ → ℕ
kept_bits area i =
    let first = if i == area.y / 8 then 0xff - u8 (0xff * 2 ^ (area.y % 8)) else 0 in
    if i == (area.y + area.height) / 8
    then bit_or first (u8 (0xff * 2 ^ ((area.y + area.height) % 8 + 1)))
    else first

-- The area has no pixel, or one that is not on the display.
abbrev pub is_off : OledArea → Bool
is_off a =
    a.width == 0
    || a.height == 0
    || not (ltb a.x 128)
    || not (ltb a.y 64)
    || not (ltb (a.x + a.width - 1) 128)
    || not (ltb (a.y + a.height - 1) 64)

unfoldable pub oled_clear_buffer : OledArea → Oled → Oled
unfolding kept_bits
oled_clear_buffer a o =
    if is_off a
    then o
    else record (change_pages (λ i b. bit_and b (kept_bits a i)) ((a.y + a.height) / 8 - a.y / 8)
        a.width a.x (a.y / 8) o) { flag_refresh = true }

-- `~` stored into a byte.
abbrev pub inverted : ℕ → ℕ
inverted b = 255 - b

-- The byte of a pixel after it is set to `t`.
unfoldable pub point_byte : ℕ → ℕ → ℕ → ℕ
point_byte t n b = if t == 0 then inverted (bits_set (inverted b) n) else bits_set b n

unfoldable pub oled_draw_point : ℕ → ℕ → ℕ → Oled → Oled
unfolding point_byte
oled_draw_point x y t o =
    if ltb 127 x || ltb 63 y
    then o
    else record (gram_set x (y / 8) (point_byte t (2 ^ (y % 8)) (gram_at o x (y / 8))) o) {
      flag_refresh = true;
    }
