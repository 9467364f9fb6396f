-- ===== src/Display.antt =====
-- src/display.c: the lines of text on the display. The calls of src/oled.c are kept as a list, in
-- the order in which they are made.
mod Lines
mod Shown
mod Tests
use ch582_water_jinru.Common.{
  ℕ, zero, suc, ◌+◌, ◌-◌, ◌*◌, Bool, true, false, ◌||◌, Option, none, some, List, [], ◌∷◌, ◌++◌,
  length, get_or, set, take, replicate, splice, ltb, leb, ◌==◌, if◌then◌else◌, u8,
}
use ch582_water_jinru.Oled.{OledArea}

abbrev pub display_line_max : ℕ
display_line_max = 4

abbrev pub display_line_len : ℕ
display_line_len = 16

abbrev pub display_font_size : ℕ
display_font_size = 16

abbrev pub display_font_width : ℕ
display_font_width = 8

-- `-1` as an `int`.
abbrev pub display_any_line : ℕ
display_any_line = 0xffffffff

pub data OledCall : Type 0 where
  clear_buffer : OledArea → OledCall
  show_string : (x y : ℕ) (chr : List ℕ) (size1 mode : ℕ) → OledCall
  refresh : ℕ → OledCall

pub record DisplayLine : Type 0 where
  pub len : ℕ
  pub buffer : List ℕ

-- `lines` and `line_idx`, whose pointers into `lines` are indices.
pub record Display : Type 0 where
  pub lines : List DisplayLine
  pub line_idx : List ℕ
  pub calls : List OledCall

abbrev pub zero_line : DisplayLine
zero_line = record { len = 0; buffer = replicate (display_line_len + 1) 0 }

abbrev pub call : OledCall → Display → Display
call c d = record d { calls = d.calls ++ c ∷ [] }

-- `*line_idx[i]`; out of the array there is no line.
abbrev pub line_at : Display → ℕ → DisplayLine
line_at d i = get_or d.lines (get_or d.line_idx i display_line_max) zero_line

-- Before the call all lines are zero, as static variables are.
unfoldable pub display_init : Display → Display
display_init d = record d { line_idx = 0 ∷ 1 ∷ 2 ∷ 3 ∷ [] }

-- The first loop of `display_scroll`, for `n` lines from `i` on.
abbrev pub clear_lines : ℕ → ℕ → Display → List OledCall
clear_lines zero i d = []
clear_lines (suc n) i d =
    (clear_buffer (record {
      x = 0;
      y = u8 (i * display_font_size);
      width = u8 ((line_at d i).len * display_font_width);
      height = display_font_size;
    })
      ∷ clear_lines n (i + 1) d)

-- The second loop: each of `n` places from `i` on takes the pointer after it.
abbrev pub move_up : ℕ → ℕ → List ℕ → List ℕ
move_up zero i idx = idx
move_up (suc n) i idx = move_up n (i + 1) (set idx i (get_or idx (i + 1) display_line_max))

unfoldable pub display_scroll : Display → Display
display_scroll d =
    let tmp = get_or d.line_idx 0 display_line_max in
    record {
      lines = set d.lines tmp (record (get_or d.lines tmp zero_line) { len = 0 });
      line_idx = set (move_up (display_line_max - 1) 0 d.line_idx) (display_line_max - 1) tmp;
      calls = d.calls ++ clear_lines display_line_max 0 d;
    }

-- The loop of `get_empty_line`.
abbrev pub first_empty : ℕ → ℕ → Display → Option ℕ
first_empty zero i d = none
first_empty (suc n) i d =
    let rest = first_empty n (i + 1) d in if (line_at d i).len == 0 then some i else rest

unfoldable pub or_scroll : Option ℕ → Display → ℕ × Display
unfolding display_scroll
or_scroll (some i) d = (i, d)
or_scroll none d = (display_line_max - 1, display_scroll d)

unfoldable pub get_empty_line : Display → ℕ × Display
unfolding or_scroll
get_empty_line d = or_scroll (first_empty display_line_max 0 d) d

-- The loop of `display_refresh`.
abbrev pub show_lines : ℕ → ℕ → Display → List OledCall
show_lines zero i d = []
show_lines (suc n) i d =
    let rest = show_lines n (i + 1) d in
    if (line_at d i).len == 0
    then rest
    else (show_string 0 (u8 (i * display_font_size)) (line_at d i).buffer display_font_size 1
        ∷ rest)

unfoldable pub display_refresh : Display → Display
display_refresh d =
    call (refresh 0) (record d { calls = d.calls ++ show_lines display_line_max 0 d })

-- `snprintf` of the text, which returns the length of the whole text and is never negative; it
-- stores at most 15 characters and a zero.
abbrev pub written : List ℕ → DisplayLine → DisplayLine
written str old = record {
  len = u8 (length str);
  buffer = splice old.buffer 0 (take (display_line_len - 1) str ++ 0 ∷ []);
}

abbrev pub write_line : ℕ → List ℕ → Display → Display
write_line i str d = record d {
  lines = set d.lines (get_or d.line_idx i display_line_max) (written str (line_at d i));
}

-- The rest of a longer text on the line is cleared.
abbrev pub clear_rest : ℕ → List ℕ → Display → Display
clear_rest line str d =
    if ltb (length str) (line_at d line).len
    then call
        (clear_buffer (record {
          x = u8 (length str * display_font_width);
          y = u8 (line * display_font_size);
          width = u8 (((line_at d line).len - length str) * display_font_width);
          height = display_font_size;
        }))
        d
    else d

-- `line < 0 || line > DISPLAY_LINE_MAX`
abbrev pub is_any_line : ℕ → Bool
is_any_line line = leb 0x80000000 line || ltb display_line_max line

-- The line that the text goes to.
unfoldable pub line_for : ℕ → List ℕ → Display → ℕ × Display
unfolding get_empty_line
line_for line str d = if is_any_line line then get_empty_line d else (line, clear_rest line str d)

unfoldable pub display_string : ℕ → Option (List ℕ) → Display → ℕ × Display
unfolding line_for display_refresh
display_string line none d = (0, d)
display_string line (some str) d =
    let t = line_for line str d in (0, display_refresh (write_line t.0 str t.1))

-- `vsnprintf` into 17 bytes cuts the text to 15 characters.
unfoldable pub display_printline : ℕ → List ℕ → Display → ℕ × Display
unfolding display_string
display_printline line text d =
    (0, (display_string line (some (take (display_line_len - 1) text)) d).1)
