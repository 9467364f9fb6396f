-- ===== src/Display/Lines.antt =====
-- src/display.c as a list of lines from the top to the bottom, without the array of pointers.
use ch582_water_jinru.Common.{
  ℕ, zero, suc, ◌+◌, ◌<◌, ◌≡◌, ◌≢◌, refl, sym, ap, ◌∙◌, Option, none, some, List, [], ◌∷◌, ◌++◌,
  map, length, get_or, set, drop, length-set, get_or-set_self, get_or-set_ne, ◌==◌, if◌then◌else◌,
  Bool-cases, inl, inr, arith,
}
use ch582_water_jinru.Display.{
  Display, DisplayLine, display_line_max, zero_line, line_at, written, write_line, first_empty,
  is_any_line, display_scroll,
}

abbrev pub lines_of : List DisplayLine → List ℕ → List DisplayLine
lines_of ls idx = map (λ k. get_or ls k zero_line) idx

-- The lines from the top to the bottom.
abbrev pub view : Display → List DisplayLine
view d = lines_of d.lines d.line_idx

-- No pointer is `k`.
abbrev Fresh : ℕ → List ℕ → Type 0
Fresh k [] = Unit {0}
Fresh k (j ∷ js) = (k ≢ j) × Fresh k js

-- Each pointer is to one of `n` lines, and no two are to the same.
abbrev pub ArePlaces : ℕ → List ℕ → Type 0
ArePlaces n [] = Unit {0}
ArePlaces n (j ∷ js) = (j < n) × Fresh j js × ArePlaces n js

pub record IsDisplay (d : Display) : Type 0 where
  pub lines : length d.lines ≡ display_line_max
  pub idx : length d.line_idx ≡ display_line_max
  pub places : ArePlaces display_line_max d.line_idx

-- The place of the first empty line, counted from `i`.
abbrev pub first_blank : ℕ → List DisplayLine → Option ℕ
first_blank i [] = none
first_blank i (x ∷ xs) = let rest = first_blank (i + 1) xs in if x.len == 0 then some i else rest

abbrev pub put_at : Option ℕ → List ℕ → List DisplayLine → List DisplayLine
put_at (some i) str ls = set ls i (written str (get_or ls i zero_line))
put_at none str ls = drop 1 ls ++ written str (get_or ls 0 zero_line) ∷ []

-- A text with no line of its own goes to the first empty line; with none, all lines move up by one,
-- and it goes to the bottom.
abbrev pub text_put : ℕ → List ℕ → List DisplayLine → List DisplayLine
text_put line str ls = put_at (if is_any_line line then first_blank 0 ls else some line) str ls

get_or-Fresh :
    (k i : ℕ) (js : List ℕ) → i < length js → Fresh k js → k ≢ get_or js i display_line_max
get_or-Fresh k i [] h f = absurd (omega arith)
get_or-Fresh k zero (j ∷ js) h f = f.0
get_or-Fresh k (suc i) (j ∷ js) h f = get_or-Fresh k i js (omega arith) f.1

set-Fresh :
    (ls : List DisplayLine) (k : ℕ) (v : DisplayLine) (js : List ℕ)
    → Fresh k js
    → lines_of (set ls k v) js ≡ lines_of ls js
set-Fresh ls k v [] f = refl
set-Fresh ls k v (j ∷ js) f = rw (get_or-set_ne ls k j v zero_line f.0, set-Fresh ls k v js f.1)

set_place :
    (ls : List DisplayLine) (v : DisplayLine) (n i : ℕ) (js : List ℕ)
    → length ls ≡ n
    → i < length js
    → ArePlaces n js
    → lines_of (set ls (get_or js i display_line_max) v) js ≡ set (lines_of ls js) i v
set_place ls v n i [] e h p = absurd (omega arith)
set_place ls v n zero (j ∷ js) e h p =
    rw (get_or-set_self ls j v zero_line (omega (arith, p.0)), set-Fresh ls j v js p.1)
set_place ls v n (suc i) (j ∷ js) e h p =
    let other = get_or-Fresh j i js (omega arith) p.1 in
    rw (
      get_or-set_ne ls (get_or js i display_line_max) j v zero_line (λ q. other (sym q)),
      set_place ls v n i js e (omega arith) p.2,
    )

get_or-lines :
    (ls : List DisplayLine) (js : List ℕ) (i : ℕ)
    → i < length js
    → get_or ls (get_or js i display_line_max) zero_line ≡ get_or (lines_of ls js) i zero_line
get_or-lines ls [] i h = absurd (omega arith)
get_or-lines ls (j ∷ js) zero h = refl
get_or-lines ls (j ∷ js) (suc i) h = get_or-lines ls js i (omega arith)

pub length-lines_of : (ls : List DisplayLine) (js : List ℕ) → length (lines_of ls js) ≡ length js
length-lines_of ls [] = refl
length-lines_of ls (j ∷ js) = ap suc (length-lines_of ls js)

-- What holds after a text is written to the display `d`.
abbrev pub Shows : Display → List DisplayLine → Type 0
Shows d ls = IsDisplay d × (view d ≡ ls)

pub write_line-Shows :
    (i : ℕ) (str : List ℕ) (d : Display)
    → i < display_line_max
    → IsDisplay d
    → Shows (write_line i str d) (put_at (some i) str (view d))
write_line-Shows i str d h v = (
  record { lines = length-set d.lines _ _ ∙ v.lines; idx = v.idx; places = v.places },
  set_place d.lines (written str (line_at d i)) display_line_max i d.line_idx v.lines
        (omega (arith, v.idx)) v.places
      ∙ ap (λ old. set (view d) i (written str old))
          (get_or-lines d.lines d.line_idx i (omega (arith, v.idx))),
)

pub four :
    (P : List ℕ → Type 0) (idx : List ℕ)
    → length idx ≡ display_line_max
    → ((a b c e : ℕ) → P (a ∷ b ∷ c ∷ e ∷ []))
    → P idx
four P [] h p = absurd (omega arith)
four P (a ∷ []) h p = absurd (omega arith)
four P (a ∷ b ∷ []) h p = absurd (omega arith)
four P (a ∷ b ∷ c ∷ []) h p = absurd (omega arith)
four P (a ∷ b ∷ c ∷ e ∷ []) h p = p a b c e
four P (a ∷ b ∷ c ∷ e ∷ g ∷ rest) h p = absurd (omega arith)

other : {a b : ℕ} → a ≢ b → b ≢ a
other h e = h (sym e)

rotated :
    (a b c e : ℕ)
    → ArePlaces display_line_max (a ∷ b ∷ c ∷ e ∷ [])
    → ArePlaces display_line_max (b ∷ c ∷ e ∷ a ∷ [])
rotated a b c e (la, (ab, (ac, (ae, _))), (lb, (bc, (be, _)), (lc, (ce, _), (le, _, _)))) =
    (lb, (bc, (be, (other ab, tt))), (lc, (ce, (other ac, tt)), (le, (other ae, tt), (la, tt, tt))))

-- Writing the place `a` twice, where the second write keeps nothing of the first one's `len`.
rewritten :
    (str : List ℕ) (ls : List DisplayLine) (a : ℕ) (js : List ℕ) (v : DisplayLine)
    → Fresh a js
    → lines_of (set (set ls a v) a (written str (get_or (set ls a v) a zero_line))) js
      ≡ lines_of ls js
rewritten str ls a js v f =
    set-Fresh (set ls a v) a (written str (get_or (set ls a v) a zero_line)) js f
    ∙ set-Fresh ls a v js f

-- After a scroll the line that was at the top is at the bottom, and it is written over.
pub put_scrolled :
    (str : List ℕ) (d : Display)
    → IsDisplay d
    → Shows (write_line 3 str (display_scroll d)) (put_at none str (view d))
unfolding display_scroll
put_scrolled str d v =
    four
      (λ idx.
        IsDisplay (record d { line_idx = idx })
        → Shows (write_line 3 str (display_scroll (record d { line_idx = idx })))
            (put_at none str (lines_of d.lines idx)))
      d.line_idx v.idx
      (λ a b c e v'.
        let blank : DisplayLine = record (get_or d.lines a zero_line) { len = 0 } in
        let at_a =
          get_or-set_self d.lines a blank zero_line (omega (arith, v.lines, v'.places.0)) in
        let over = written str (get_or (set d.lines a blank) a zero_line) in
        let long = length-set d.lines a blank ∙ v.lines in
        (
          record {
            lines = length-set (set d.lines a blank) a _ ∙ long;
            idx = refl;
            places = rotated a b c e v'.places;
          },
          ap (λ ls. ls ++ get_or (set (set d.lines a blank) a over) a zero_line ∷ [])
                (rewritten str d.lines a (b ∷ c ∷ e ∷ []) blank v'.places.1)
              ∙ ap (λ x. lines_of d.lines (b ∷ c ∷ e ∷ []) ++ x ∷ [])
                  (get_or-set_self (set d.lines a blank) a over zero_line
                      (omega (arith, long, v'.places.0))
                    ∙ ap (written str) at_a),
        ))
      v

pub first_empty-first_blank :
    (d : Display) → IsDisplay d → first_empty display_line_max 0 d ≡ first_blank 0 (view d)
first_empty-first_blank d v =
    four
      (λ idx.
        first_empty display_line_max 0 (record d { line_idx = idx })
        ≡ first_blank 0 (lines_of d.lines idx))
      d.line_idx v.idx (λ a b c e. refl)

pub first_blank_lt :
    (i j : ℕ) (ls : List DisplayLine) → first_blank i ls ≡ some j → j < i + length ls
first_blank_lt i j [] e = cc
first_blank_lt i j (x ∷ xs) e = elim (Bool-cases (x.len == 0)) [
  | inl blank ↦
      let at_i : some i ≡ some j =
        sym (ap (λ b. if b then some i else first_blank (i + 1) xs) blank) ∙ e in
      let same : i ≡ j = cc in omega (arith, same)
  | inr full ↦
      let later : first_blank (i + 1) xs ≡ some j =
        sym (ap (λ b. if b then some i else first_blank (i + 1) xs) full) ∙ e in
      omega (arith, first_blank_lt (i + 1) j xs later)
]
