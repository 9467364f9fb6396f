-- ===== src/Display/Tests.antt =====
-- Runs of src/display.c, and its theorems at such runs.
use ch582_water_jinru.Common.{ℕ, ◌≡◌, refl, List, [], ◌∷◌, map, replicate, some, arith}
use ch582_water_jinru.Display.{
  Display, display_any_line, display_line_max, zero_line, display_init, display_string,
}
use ch582_water_jinru.Display.Lines.{IsDisplay, Shows, view, text_put}
use ch582_water_jinru.Display.Shown.{
  strings_shown, texts_put, Drew, strings_from_init, display_string-Drew,
}

-- Five texts for any line: the first one leaves at the top.
abbrev five_texts : List (ℕ × List ℕ)
five_texts =
    (display_any_line, 0x61 ∷ [])
    ∷ (display_any_line, 0x62 ∷ [])
    ∷ (display_any_line, 0x63 ∷ [])
    ∷ (display_any_line, 0x64 ∷ [])
    ∷ (display_any_line, 0x65 ∷ [])
    ∷ []

abbrev blank_display : Display
blank_display = record { lines = replicate display_line_max zero_line; line_idx = []; calls = [] }

five_lines :
    map (λ l. l.len) (texts_put five_texts (replicate display_line_max zero_line))
    ≡ 1 ∷ 1 ∷ 1 ∷ 1 ∷ []
five_lines = refl

five_places : (strings_shown five_texts (display_init blank_display)).line_idx ≡ 1 ∷ 2 ∷ 3 ∷ 0 ∷ []
unfolding strings_shown display_init display_string
five_places = refl

strings_from_init_example :
    Shows
      (strings_shown five_texts (display_init blank_display))
      (texts_put five_texts (replicate display_line_max zero_line))
strings_from_init_example = strings_from_init five_texts [] (
  (λ e. omega arith),
  ((λ e. omega arith), ((λ e. omega arith), ((λ e. omega arith), ((λ e. omega arith), tt)))),
)

-- One line with a text, at the top.
abbrev one_text : Display
one_text = record {
  lines =
      zero_line ∷ record { len = 1; buffer = 0x61 ∷ replicate 16 0 } ∷ zero_line ∷ zero_line ∷ [];
  line_idx = 1 ∷ 2 ∷ 3 ∷ 0 ∷ [];
  calls = [];
}

one_text-IsDisplay : IsDisplay one_text
one_text-IsDisplay = record {
  lines = refl;
  idx = refl;
  places = (
    omega arith,
    ((λ e. omega arith), ((λ e. omega arith), ((λ e. omega arith), tt))),
    (
      omega arith,
      ((λ e. omega arith), ((λ e. omega arith), tt)),
      (omega arith, ((λ e. omega arith), tt), (omega arith, tt, tt)),
    ),
  );
}

display_string-Drew_example :
    Drew
      (text_put display_any_line (0x62 ∷ []) (view one_text))
      (display_string display_any_line (some (0x62 ∷ [])) one_text).1.calls
display_string-Drew_example =
    display_string-Drew display_any_line (0x62 ∷ []) one_text (λ e. omega arith) one_text-IsDisplay
