-- ===== src/Onewire/Registers/Chip.antt =====
-- What the register commands of src/onewire.c rely on in the addressed chip, and the bytes that pass
-- the line.
use Prim.Native.Nat.{bit_and, bit_or}
use mathlib.Core.Path.{subst}
use ch582_water_jinru.Common.{
  ℕ, zero, suc, ◌+◌, ◌*◌, ◌/◌, ◌%◌, ◌<◌, ◌≤◌, ◌≡◌, refl, sym, ap, ◌∙◌, Bool, true, false, List, [],
  ◌∷◌, ◌++◌, length, take, ◌==◌, ==_iff, if◌then◌else◌, arith,
}
use ch582_water_jinru.Common.Bits.{true_upto, true_upto_lem}
use ch582_water_jinru.Crc.Detection.{AllBytes}
use ch582_water_jinru.Onewire.Bus.{
  Line, onewire_readbit, read_bits, onewire_read, onewire_writebit, write_bits, onewire_writebyte,
}
use ch582_water_jinru.Onewire.Checksum.{onewire_crc8}
use ch582_water_jinru.Onewire.Registers.{read_all, write_all, command}
use ch582_water_jinru.Onewire.RomSearch.Slaves.{value}
use ch582_water_jinru.Onewire.RomSearch.Stack.{or_fine}
use ch582_water_jinru.Onewire.RomSearch.Pass.{shifts}

-- The lowest `n` bits, the lowest first.
abbrev pub bits : ℕ → ℕ → List Bool
bits zero d = []
bits (suc n) d = (d % 2 == 1) ∷ bits n (d / 2)

abbrev pub all_bits : List ℕ → List Bool
all_bits [] = []
all_bits (b ∷ scr) = bits 8 b ++ all_bits scr

-- The documented behaviour of the chip with the code `rom`, which holds 14 bytes of parameters: it
-- sends them and their check sum after the read command, bit by bit, and keeps them; it takes the
-- bits of 15 bytes after the write command, and holds the first 14 then, since it makes the check
-- sum itself.
pub record IsChip (line : Line) (rom : List ℕ) : Type 1 where
  pub Holds : List ℕ → line.W → Type 0
  pub Sends : List ℕ → List Bool → line.W → Type 0
  pub Takes : List Bool → line.W → Type 0
  pub read_command :
      (regs : List ℕ) (w : line.W)
      → Holds regs w
      → Sends regs (all_bits (regs ++ (onewire_crc8 0 regs ∷ []))) (command line rom 0x8b w).1
  pub sends_bit :
      (regs : List ℕ) (b : Bool) (rest : List Bool) (w : line.W)
      → Sends regs (b ∷ rest) w
      → (onewire_readbit line w).0 ≡ value b
  pub goes_on :
      (regs : List ℕ) (b : Bool) (rest : List Bool) (w : line.W)
      → Sends regs (b ∷ rest) w
      → Sends regs rest (onewire_readbit line w).1
  pub sent_all : (regs : List ℕ) (w : line.W) → Sends regs [] w → Holds regs w
  pub write_command :
      (regs : List ℕ) (w : line.W) → Holds regs w → Takes [] (command line rom 0xab w).1
  pub takes_bit :
      (taken : List Bool) (b : Bool) (w : line.W)
      → Takes taken w
      → Takes (taken ++ (b ∷ [])) (onewire_writebit line (value b) w).1
  pub taken_all :
      (scr : List ℕ) (w : line.W)
      → AllBytes scr
      → length scr ≡ 15
      → Takes (all_bits scr) w
      → Holds (take 14 scr) w

shifts_table : true_upto (λ x. shifts (bits 8 x) 0 == x) 256 ≡ true
unfolding true_upto
shifts_table = refl

pub shifts_byte : (b : ℕ) → b < 256 → shifts (bits 8 b) 0 ≡ b
shifts_byte b h = (==_iff _ b).0 (true_upto_lem 256 (λ x. shifts (bits 8 x) 0 == x) h shifts_table)

low_table : true_upto (λ d. bit_and d 1 == value (d % 2 == 1)) 256 ≡ true
unfolding true_upto
low_table = refl

low_bit : (d : ℕ) → d < 256 → bit_and d 1 ≡ value (d % 2 == 1)
low_bit d h =
    (==_iff _ _).0 (true_upto_lem 256 (λ d. bit_and d 1 == value (d % 2 == 1)) h low_table)

value_le : (b : Bool) → value b ≤ 1
value_le true = omega arith
value_le false = omega arith

read_bit_case :
    (b : Bool) (x d : ℕ)
    → d < 256
    → x ≡ value b
    → (if x == 0 then d / 2 else bit_or (d / 2) 0x80) ≡ d / 2 + 128 * value b
read_bit_case true x d h e = rw e (or_fine (d / 2) (omega arith)).0
read_bit_case false x d h e = rw e (omega arith)

append_step :
    {A : Type 0} (xs : List A) (y : A) (ys : List A) → (xs ++ (y ∷ [])) ++ ys ≡ xs ++ (y ∷ ys)
append_step [] y ys = refl
append_step (x ∷ xs) y ys = ap (λ l. x ∷ l) (append_step xs y ys)

append_nothing : {A : Type 0} (xs : List A) → xs ++ [] ≡ xs
append_nothing [] = refl
append_nothing (x ∷ xs) = ap (λ l. x ∷ l) (append_nothing xs)

append_regroup : {A : Type 0} (xs ys zs : List A) → (xs ++ ys) ++ zs ≡ xs ++ (ys ++ zs)
append_regroup [] ys zs = refl
append_regroup (x ∷ xs) ys zs = ap (λ l. x ∷ l) (append_regroup xs ys zs)

module _ (line : Line) (rom : List ℕ) (chip : IsChip line rom) where
  open chip use {Sends, Takes, sends_bit, goes_on, takes_bit}

  -- A byte that the chip sends is the byte read.
  module _ (regs : List ℕ) where
    read_bits_lem :
        (q rest : List Bool) (d : ℕ) (w : line.W)
        → d < 256
        → Sends regs (q ++ rest) w
        → ((read_bits line (length q) d w).0 ≡ shifts q d)
          × Sends regs rest (read_bits line (length q) d w).1
    unfolding read_bits
    read_bits_lem [] rest d w h s = (refl, s)
    read_bits_lem (b ∷ q) rest d w h s =
        let bit =
          read_bit_case b (onewire_readbit line w).0 d h (sends_bit regs b (q ++ rest) w s) in
        subst
          (λ x.
            ((read_bits line (length q) x (onewire_readbit line w).1).0
              ≡ shifts q (d / 2 + 128 * value b))
            × Sends regs rest (read_bits line (length q) x (onewire_readbit line w).1).1)
          (sym bit)
          (read_bits_lem q rest (d / 2 + 128 * value b) _ (omega (arith, value_le b))
            (goes_on regs b (q ++ rest) w s))

    read_byte_lem :
        (b : ℕ) (rest : List Bool) (w : line.W)
        → b < 256
        → Sends regs (bits 8 b ++ rest) w
        → ((onewire_read line w).0 ≡ b) × Sends regs rest (onewire_read line w).1
    unfolding onewire_read
    read_byte_lem b rest w h s =
        let r = read_bits_lem (bits 8 b) rest 0 w (omega arith) s in (r.0 ∙ shifts_byte b h, r.1)

    pub read_all_lem :
        (scr : List ℕ) (w : line.W)
        → AllBytes scr
        → Sends regs (all_bits scr) w
        → ((read_all line (length scr) w).0 ≡ scr) × Sends regs [] (read_all line (length scr) w).1
    unfolding read_all
    read_all_lem [] w bytes s = (refl, s)
    read_all_lem (b ∷ scr) w (byte, bytes) s =
        let r = read_byte_lem b (all_bits scr) w byte s in
        let more = read_all_lem scr (onewire_read line w).1 bytes r.1 in
        (λ i. r.0 i ∷ more.0 i, more.1)

  write_bits_lem :
      (n : ℕ) (taken : List Bool) (d : ℕ) (w : line.W)
      → d < 256
      → Takes taken w
      → Takes (taken ++ bits n d) (write_bits line n d w).1
  unfolding write_bits
  write_bits_lem zero taken d w h t = subst (λ l. Takes l w) (sym (append_nothing taken)) t
  write_bits_lem (suc n) taken d w h t =
      let b = d % 2 == 1 in
      let one = takes_bit taken b w t in
      let more =
        write_bits_lem n (taken ++ (b ∷ [])) (d / 2) (onewire_writebit line (value b) w).1
          (omega arith) one in
      subst
        (λ x.
          Takes (taken ++ bits (suc n) d)
            (write_bits line n (d / 2) (onewire_writebit line x w).1).1)
        (sym (low_bit d h))
        (subst (λ l. Takes l (write_bits line n (d / 2) (onewire_writebit line (value b) w).1).1)
          (append_step taken b (bits n (d / 2))) more)

  write_byte_lem :
      (b : ℕ) (taken : List Bool) (w : line.W)
      → b < 256
      → Takes taken w
      → Takes (taken ++ bits 8 b) (onewire_writebyte line b w).1
  unfolding onewire_writebyte
  write_byte_lem b taken w h t = write_bits_lem 8 taken b w h t

  pub write_all_lem :
      (scr : List ℕ) (taken : List Bool) (w : line.W)
      → AllBytes scr
      → Takes taken w
      → Takes (taken ++ all_bits scr) (write_all line scr w).1
  unfolding write_all
  write_all_lem [] taken w bytes t = subst (λ l. Takes l w) (sym (append_nothing taken)) t
  write_all_lem (b ∷ scr) taken w (byte, bytes) t =
      let one = write_byte_lem b taken w byte t in
      let more = write_all_lem scr (taken ++ bits 8 b) (onewire_writebyte line b w).1 bytes one in
      subst (λ l. Takes l (write_all line (b ∷ scr) w).1)
        (append_regroup taken (bits 8 b) (all_bits scr)) more
