-- ===== src/Display/Shown.antt =====
-- What src/display.c shows after texts are written, from `display_init` on.
use ch582_water_jinru.Common.{
  ℕ, ◌+◌, ◌<◌, ◌≡◌, ◌≢◌, refl, ap, ◌∙◌, Option, none, some, List, [], ◌∷◌, ◌++◌, length, replicate,
  u8, ◌*◌, ltb, ◌==◌, if◌then◌else◌, Bool-cases, inl, inr, arith,
}
use ch582_water_jinru.Display.{
  Display, DisplayLine, display_line_max, zero_line, line_at, write_line, clear_rest, or_scroll,
  is_any_line, get_empty_line, display_refresh, display_string, line_for, display_init, OledCall,
  show_string, refresh, show_lines, display_font_size,
}
use ch582_water_jinru.Display.Lines.{
  IsDisplay, Shows, view, put_at, text_put, first_blank, first_blank_lt, length-lines_of, lines_of,
  write_line-Shows, put_scrolled, first_empty-first_blank, four,
}

clear_rest-Shows :
    (line : ℕ) (str : List ℕ) (d : Display)
    → line < display_line_max
    → IsDisplay d
    → Shows (write_line line str (clear_rest line str d)) (put_at (some line) str (view d))
clear_rest-Shows line str d h v = elim (Bool-cases (ltb (length str) (line_at d line).len)) [
  | inl longer ↦ rw longer (
      let w = write_line-Shows line str d h v in
      (record { lines = w.0.lines; idx = w.0.idx; places = w.0.places }, w.1))
  | inr shorter ↦ rw shorter (write_line-Shows line str d h v)
]

empty_line-Shows :
    (r : Option ℕ) (str : List ℕ) (d : Display)
    → first_blank 0 (view d) ≡ r
    → IsDisplay d
    → Shows (write_line (or_scroll r d).0 str (or_scroll r d).1) (put_at r str (view d))
unfolding or_scroll
empty_line-Shows none str d e v = put_scrolled str d v
empty_line-Shows (some i) str d e v =
    let lt = first_blank_lt 0 i (view d) e in
    write_line-Shows i str d (omega (arith, lt, length-lines_of d.lines d.line_idx, v.idx)) v

refresh-Shows : (d : Display) (ls : List DisplayLine) → Shows d ls → Shows (display_refresh d) ls
unfolding display_refresh
refresh-Shows d ls h = (record { lines = h.0.lines; idx = h.0.idx; places = h.0.places }, h.1)

line_for-Shows :
    (line : ℕ) (str : List ℕ) (d : Display)
    → line ≢ display_line_max
    → IsDisplay d
    → Shows
        (write_line (line_for line str d).0 str (line_for line str d).1)
        (text_put line str (view d))
unfolding line_for get_empty_line
line_for-Shows line str d h v = elim (Bool-cases (is_any_line line)) [
  | inl any_line ↦
      rw (any_line, first_empty-first_blank d v)
        (empty_line-Shows (first_blank 0 (view d)) str d refl v)
  | inr own ↦ rw own (clear_rest-Shows line str d (ground arith) v)
]

-- A text written to a line that is not 4 gives the lines that `text_put` says, and the array of
-- pointers stays an order of the four lines.
pub display_string-Shows :
    (line : ℕ) (str : List ℕ) (d : Display)
    → line ≢ display_line_max
    → IsDisplay d
    → Shows (display_string line (some str) d).1 (text_put line str (view d))
unfolding display_string
display_string-Shows line str d h v = refresh-Shows _ _ (line_for-Shows line str d h v)

-- Texts written one after the other, each with its line.
unfoldable pub strings_shown : List (ℕ × List ℕ) → Display → Display
unfolding display_string
strings_shown [] d = d
strings_shown ((line, str) ∷ ts) d = strings_shown ts (display_string line (some str) d).1

abbrev pub texts_put : List (ℕ × List ℕ) → List DisplayLine → List DisplayLine
texts_put [] ls = ls
texts_put ((line, str) ∷ ts) ls = texts_put ts (text_put line str ls)

abbrev pub AreLines : List (ℕ × List ℕ) → Type 0
AreLines [] = Unit {0}
AreLines ((line, _) ∷ ts) = (line ≢ display_line_max) × AreLines ts

strings_shown-Shows :
    (ts : List (ℕ × List ℕ)) (d : Display) (ls : List DisplayLine)
    → AreLines ts
    → Shows d ls
    → Shows (strings_shown ts d) (texts_put ts ls)
unfolding strings_shown
strings_shown-Shows [] d ls a h = h
strings_shown-Shows ((line, str) ∷ ts) d ls a h =
    let next = display_string-Shows line str d a.0 h.0 in
    strings_shown-Shows ts (display_string line (some str) d).1 (text_put line str ls) a.1
      (next.0, next.1 ∙ ap (text_put line str) h.1)

-- From `display_init` on, texts written with any lines but 4 leave the lines, from the top to the
-- bottom, that the texts give when each goes to its own line, or else to the first empty one, or
-- else to the bottom after all lines moved up by one; no two of the four pointers are ever the same.
pub strings_from_init :
    (ts : List (ℕ × List ℕ)) (cs : List OledCall)
    → AreLines ts
    → Shows
        (strings_shown ts (
          display_init
            (record { lines = replicate display_line_max zero_line; line_idx = []; calls = cs })))
        (texts_put ts (replicate display_line_max zero_line))
unfolding display_init
strings_from_init ts cs a = strings_shown-Shows ts _ _ a (
  record {
    lines = refl;
    idx = refl;
    places = (
      omega arith,
      ((λ e. omega arith), ((λ e. omega arith), ((λ e. omega arith), tt))),
      (
        omega arith,
        ((λ e. omega arith), ((λ e. omega arith), tt)),
        (omega arith, ((λ e. omega arith), tt), (omega arith, tt, tt)),
      ),
    );
  },
  refl,
)

-- What is drawn of the lines, from place `i` on.
abbrev drawn : ℕ → List DisplayLine → List OledCall
drawn i [] = []
drawn i (x ∷ xs) =
    let rest = drawn (i + 1) xs in
    if x.len == 0
    then rest
    else show_string 0 (u8 (i * display_font_size)) x.buffer display_font_size 1 ∷ rest

show_lines-drawn : (d : Display) → IsDisplay d → show_lines display_line_max 0 d ≡ drawn 0 (view d)
show_lines-drawn d v =
    four
      (λ idx.
        show_lines display_line_max 0 (record d { line_idx = idx })
        ≡ drawn 0 (lines_of d.lines idx))
      d.line_idx v.idx (λ a b c e. refl)

-- The last calls draw the lines `ls`, each line that has a text at its height, and refresh.
pub record Drew (ls : List DisplayLine) (cs : List OledCall) : Type 0 where
  pub before : List OledCall
  pub last : cs ≡ (before ++ drawn 0 ls) ++ refresh 0 ∷ []

refresh-Drew :
    (d : Display) (ls : List DisplayLine) → Shows d ls → Drew ls (display_refresh d).calls
unfolding display_refresh
refresh-Drew d ls h = record {
  before = d.calls;
  last = ap (λ cs. (d.calls ++ cs) ++ refresh 0 ∷ []) (show_lines-drawn d h.0 ∙ ap (drawn 0) h.1);
}

-- On a display with four lines and one pointer to each: after a text is written with a line that
-- is not 4, the last calls draw the lines that `text_put` gives, each that has a text at 16 times its
-- place, and refresh.
pub display_string-Drew :
    (line : ℕ) (str : List ℕ) (d : Display)
    → line ≢ display_line_max
    → IsDisplay d
    → Drew (text_put line str (view d)) (display_string line (some str) d).1.calls
unfolding display_string
display_string-Drew line str d h v = refresh-Drew _ _ (line_for-Shows line str d h v)
