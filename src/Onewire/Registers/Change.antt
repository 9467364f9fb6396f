-- ===== src/Onewire/Registers/Change.antt =====
-- Reading and changing the parameters of a chip by the commands of src/onewire.c.
use Prim.Native.Nat.{bit_and}
use mathlib.Core.Path.{subst}
use ch582_water_jinru.Common.{
  ℕ, zero, suc, ◌-◌, ◌^◌, ◌/◌, ◌<◌, ◌≤◌, ◌≡◌, refl, sym, ap, ◌∙◌, true, List, [], ◌∷◌, ◌++◌, length,
  take, set, get_or, none, some, ==_iff, if◌then◌else◌, length-append, take-length-append,
  take-length, get_or-append_right, get_or-append_left, arith,
}
use ch582_water_jinru.Crc.Detection.{AllBytes}
use ch582_water_jinru.Onewire.Bus.{Line}
use ch582_water_jinru.Onewire.Checksum.{onewire_crc8}
use ch582_water_jinru.Onewire.Checksum.Dow.{onewire_crc8_byte}
use ch582_water_jinru.Onewire.Registers.{
  parameters_size, read_all, write_all, command, mdc02_readparameters_skiprom,
  mdc02_writeparameters_skiprom, crc_holds, checked_parameters, change_parameters, write_changed,
  readcfbconfig, readcosconfig,
}
use ch582_water_jinru.Onewire.Registers.Chip.{IsChip, read_all_lem, write_all_lem}

AllBytes-append : (xs ys : List ℕ) → AllBytes xs → AllBytes ys → AllBytes (xs ++ ys)
AllBytes-append [] ys a b = b
AllBytes-append (x ∷ xs) ys a b = (a.0, AllBytes-append xs ys a.1 b)

pub AllBytes-set : (xs : List ℕ) (i v : ℕ) → AllBytes xs → v < 256 → AllBytes (set xs i v)
AllBytes-set [] i v a h = tt
AllBytes-set (x ∷ xs) zero v a h = (h, a.1)
AllBytes-set (x ∷ xs) (suc i) v a h = (a.0, AllBytes-set xs i v a.1 h)

module _ (line : Line) (rom : List ℕ) (chip : IsChip line rom) (regs : List ℕ)
    (bytes : AllBytes regs) (size : length regs ≡ 14) where
  open chip use {Holds, read_command, sent_all, write_command, taken_all}

  -- The parameters as they are read.
  abbrev pub sent : List ℕ
  sent = regs ++ (onewire_crc8 0 regs ∷ [])

  pub sent_size : length sent ≡ 15
  sent_size = omega (arith, length-append regs (onewire_crc8 0 regs ∷ []))

  pub sent_bytes : AllBytes sent
  sent_bytes = AllBytes-append regs _ bytes (onewire_crc8_byte regs bytes, tt)

  read_parameters_lem :
      (w : line.W)
      → Holds regs w
      → ((mdc02_readparameters_skiprom line rom w).0 ≡ sent)
        × Holds regs (mdc02_readparameters_skiprom line rom w).1
  unfolding mdc02_readparameters_skiprom
  read_parameters_lem w h =
      let w' = (command line rom 0x8b w).1 in
      let r =
        subst (λ n. ((read_all line n w').0 ≡ sent) × chip.Sends regs [] (read_all line n w').1)
          sent_size (read_all_lem line rom chip regs sent w' sent_bytes (read_command regs w h)) in
      (r.0, sent_all regs _ r.1)

  sent-crc_holds : crc_holds 0 parameters_size sent ≡ true
  unfolding crc_holds
  sent-crc_holds =
      let body = subst (λ n. take n sent ≡ regs) size (take-length-append regs _) in
      (==_iff (get_or sent 14 0) (onewire_crc8 0 (take 14 sent))).1
        (get_or-append_right regs _ 14 0 0 (omega arith) ∙ sym (ap (onewire_crc8 0) body))

  checked_lem :
      (w : line.W)
      → Holds regs w
      → ((checked_parameters line 0 rom w).0 ≡ some sent)
        × Holds regs (checked_parameters line 0 rom w).1
  unfolding checked_parameters
  checked_lem w h =
      let r = read_parameters_lem w h in
      (
        ap (λ scr. if crc_holds 0 parameters_size scr then some scr else none) r.0
            ∙ ap (λ b. if b then some sent else none) sent-crc_holds,
        r.1,
      )

  write_parameters_lem :
      (scr : List ℕ) (w : line.W)
      → AllBytes scr
      → length scr ≡ 15
      → Holds regs w
      → Holds (take 14 scr) (mdc02_writeparameters_skiprom line scr rom w).1
  unfolding mdc02_writeparameters_skiprom
  write_parameters_lem scr w b n h =
      let whole : take 15 scr ≡ scr = subst (λ k. take k scr ≡ scr) n (take-length scr) in
      subst (λ x. Holds (take 14 scr) (write_all line x (command line rom 0xab w).1).1) (sym whole)
        (taken_all scr _ b n (write_all_lem line rom chip scr [] _ b (write_command regs w h)))

  -- A change of the parameters that keeps them bytes is made.
  pub change_parameters_lem :
      (change : List ℕ → List ℕ) (w : line.W)
      → AllBytes (change sent)
      → length (change sent) ≡ 15
      → Holds regs w
      → ((change_parameters line change 0 rom w).0 ≡ true)
        × Holds (take 14 (change sent)) (change_parameters line change 0 rom w).1
  unfolding change_parameters
  change_parameters_lem change w b n h =
      let c = checked_lem w h in
      subst
        (λ found.
          ((write_changed line change rom found (checked_parameters line 0 rom w).1).0 ≡ true)
          × Holds (take 14 (change sent))
              (write_changed line change rom found (checked_parameters line 0 rom w).1).1)
        (sym c.0) (refl, write_parameters_lem (change sent) _ b n c.1)

  pub readcos_lem :
      (w : line.W)
      → Holds regs w
      → (readcosconfig line 0 rom w).0
        ≡ some (bit_and (get_or regs 4 0) (0xff / 2 ^ (3 - get_or regs 9 0 / 2 ^ 6)))
  unfolding readcosconfig
  readcos_lem w h = rw ((checked_lem w h).0) (
      rw (
        get_or-append_left regs (onewire_crc8 0 regs ∷ []) 4 0 (omega arith),
        get_or-append_left regs (onewire_crc8 0 regs ∷ []) 9 0 (omega arith),
      ))

  pub readcfb_lem :
      (w : line.W)
      → Holds regs w
      → (readcfbconfig line 0 rom w).0 ≡ some (bit_and (get_or regs 9 0) 0x3f)
  unfolding readcfbconfig
  readcfb_lem w h =
      rw ((checked_lem w h).0)
        (rw (get_or-append_left regs (onewire_crc8 0 regs ∷ []) 9 0 (omega arith)))

pub AllBytes-get_or : (xs : List ℕ) (i : ℕ) → AllBytes xs → get_or xs i 0 < 256
AllBytes-get_or [] i a = omega arith
AllBytes-get_or (x ∷ xs) zero a = a.0
AllBytes-get_or (x ∷ xs) (suc i) a = AllBytes-get_or xs i a.1

pub AllBytes-take : (n : ℕ) (xs : List ℕ) → AllBytes xs → AllBytes (take n xs)
AllBytes-take zero xs a = tt
AllBytes-take (suc n) [] a = tt
AllBytes-take (suc n) (x ∷ xs) a = (a.0, AllBytes-take n xs a.1)

pub get_or-take : (n i : ℕ) (xs : List ℕ) → i < n → get_or (take n xs) i 0 ≡ get_or xs i 0
get_or-take zero i xs h = absurd (omega arith)
get_or-take (suc n) i [] h = refl
get_or-take (suc n) zero (x ∷ xs) h = refl
get_or-take (suc n) (suc i) (x ∷ xs) h = get_or-take n i xs (omega arith)

pub length-take : (n : ℕ) (xs : List ℕ) → n ≤ length xs → length (take n xs) ≡ n
length-take zero xs h = refl
length-take (suc n) [] h = absurd (omega arith)
length-take (suc n) (x ∷ xs) h = ap suc (length-take n xs (omega arith))
