-- ===== src/Onewire/Registers/Tests.antt =====
-- A simulated chip, and the register theorems of src/onewire.c at it.
use ch582_water_jinru.Common.{
  ℕ, zero, suc, ◌+◌, ◌*◌, ◌/◌, ◌≡◌, refl, ap, ◌∙◌, Bool, true, false, List, [], ◌∷◌, ◌++◌, length,
  take, drop, replicate, some, ltb, ◌==◌, if◌then◌else◌, arith,
}
use mathlib.Core.Path.{subst}
use Prim.Native.Nat.{bit_xor}
use ch582_water_jinru.Crc.Detection.{AllBytes}
use ch582_water_jinru.Onewire.Bus.{
  Line, onewire_readbit, onewire_writebit, onewire_resetcheck, onewire_writebyte,
}
use ch582_water_jinru.Onewire.Checksum.{onewire_crc8}
use ch582_water_jinru.Onewire.Checksum.Dow.{onewire_crc8-eq-feed}
use ch582_water_jinru.Crc.{step_right, feed}
use ch582_water_jinru.Onewire.Registers.{
  command, send_matchrom, readcfbconfig, readcosconfig, writecosconfig,
}
use ch582_water_jinru.Onewire.Registers.Chip.{IsChip, shifts_byte, all_bits}
use ch582_water_jinru.Onewire.Registers.Offset.{write_then_read_cos}
use ch582_water_jinru.Onewire.RomSearch.Slaves.{value}
use ch582_water_jinru.Onewire.RomSearch.Pass.{shifts}

-- The bytes of bits that came in.
abbrev bytes_in : ℕ → List Bool → List ℕ
bytes_in zero taken = []
bytes_in (suc n) taken = shifts (take 8 taken) 0 ∷ bytes_in n (drop 8 taken)

-- After a reset come 72 bits that select the chip, and 8 of a command.
data Phase : Type 0 where
  selecting : ℕ → List ℕ → Phase
  asked : ℕ → ℕ → List ℕ → Phase
  sending : List Bool → List ℕ → Phase
  taking : List Bool → Phase

-- What the chip holds in a phase.
abbrev held_regs : Phase → List ℕ
held_regs (selecting n regs) = regs
held_regs (asked n byte regs) = regs
held_regs (sending rest regs) = regs
held_regs (taking taken) = take 14 (bytes_in 15 taken)

record Sim : Type 0 where
  driving : Bool
  low : ℕ
  phase : Phase
  levels : List Bool

abbrev level : Bool → List Bool
level true = []
level false = false ∷ []

abbrev after_command : ℕ → List ℕ → Phase
after_command byte regs =
    if byte == 0x8b
    then sending (all_bits (regs ++ (onewire_crc8 0 regs ∷ []))) regs
    else if byte == 0xab
    then taking []
    else selecting 0 regs

abbrev write_slot : Bool → Phase → Phase
write_slot b (selecting n regs) = if n == 71 then asked 0 0 regs else selecting (n + 1) regs
write_slot b (asked n byte regs) =
    let byte' = byte / 2 + 128 * value b in
    if n == 7 then after_command byte' regs else asked (n + 1) byte' regs
write_slot b (sending rest regs) = sending rest regs
write_slot b (taking taken) = taking (taken ++ (b ∷ []))

abbrev read_slot : Phase → Sim → Sim
read_slot (sending (b ∷ rest) regs) s = record s { phase = sending rest regs; levels = level b }
read_slot (sending [] regs) s = s
read_slot (selecting n regs) s = s
read_slot (asked n byte regs) s = s
read_slot (taking taken) s = s

abbrev released : ℕ → Sim → Sim
released low s =
    if ltb low 10
    then read_slot s.phase s
    else if ltb low 480
    then record s { phase = write_slot (ltb low 30) s.phase }
    else record s { phase = selecting 0 (held_regs s.phase); levels = replicate 7 false }

abbrev release : Bool → Sim → Sim
release true s = released s.low (record s { driving = false; low = 0 })
release false s = s

abbrev held : Bool → ℕ → Sim → Sim
held true us s = record s { low = s.low + us }
held false us s = s

abbrev read_level : List Bool → Sim → ℕ × Sim
read_level [] s = (0x1000, s)
read_level (true ∷ levels) s = (0x1000, record s { levels = levels })
read_level (false ∷ levels) s = (0, record s { levels = levels })

abbrev sim_line : Line
sim_line = record {
  W = Sim;
  set_bits = λ s. release s.driving s;
  reset_bits = λ s. record s { driving = true; low = 0 };
  mode_out = λ s. s;
  mode_in = λ s. s;
  read_pin = λ s. read_level s.levels s;
  delay_us = λ us s. held s.driving us s;
  feed_watchdog = λ s. s;
}

abbrev rom : List ℕ
rom = 0x28 ∷ 2 ∷ 3 ∷ 0 ∷ 0 ∷ 0 ∷ 0 ∷ 0 ∷ []

abbrev at_phase : Phase → Sim
at_phase p = record { driving = false; low = 0; phase = p; levels = [] }

sim_read_command :
    (s : Sim)
    → (command sim_line rom 0x8b s).1
      ≡ at_phase (
          sending
            (all_bits (held_regs s.phase ++ (onewire_crc8 0 (held_regs s.phase) ∷ [])))
            (held_regs s.phase))
unfolding command send_matchrom onewire_resetcheck onewire_writebyte
sim_read_command s = refl

sim_write_command : (s : Sim) → (command sim_line rom 0xab s).1 ≡ at_phase (taking [])
unfolding command send_matchrom onewire_resetcheck onewire_writebyte
sim_write_command s = refl

sim_readbit :
    (regs : List ℕ) (b : Bool) (rest : List Bool)
    → onewire_readbit sim_line (at_phase (sending (b ∷ rest) regs))
      ≡ (value b, at_phase (sending rest regs))
unfolding onewire_readbit
sim_readbit regs true rest = refl
sim_readbit regs false rest = refl

sim_writebit :
    (taken : List Bool) (b : Bool)
    → (onewire_writebit sim_line (value b) (at_phase (taking taken))).1
      ≡ at_phase (taking (taken ++ (b ∷ [])))
unfolding onewire_writebit
sim_writebit taken true = refl
sim_writebit taken false = refl

bytes_in-all_bits : (scr : List ℕ) → AllBytes scr → bytes_in (length scr) (all_bits scr) ≡ scr
bytes_in-all_bits [] bytes = refl
bytes_in-all_bits (b ∷ scr) (byte, bytes) =
    λ i. shifts_byte b byte i ∷ bytes_in-all_bits scr bytes i

abbrev sim_chip : IsChip sim_line rom
sim_chip = record {
  Holds = λ regs s. held_regs s.phase ≡ regs;
  Sends = λ regs rest s. s ≡ at_phase (sending rest regs);
  Takes = λ taken s. s ≡ at_phase (taking taken);
  read_command = λ regs s e.
      sim_read_command s
      ∙ ap (λ r. at_phase (sending (all_bits (r ++ (onewire_crc8 0 r ∷ []))) r)) e;
  sends_bit = λ regs b rest s e.
      ap (λ x. (onewire_readbit sim_line x).0) e
      ∙ ap (λ (x : ℕ × Sim). x.0) (sim_readbit regs b rest);
  goes_on = λ regs b rest s e.
      ap (λ x. (onewire_readbit sim_line x).1) e
      ∙ ap (λ (x : ℕ × Sim). x.1) (sim_readbit regs b rest);
  sent_all = λ regs s e. ap (λ (x : Sim). held_regs x.phase) e;
  write_command = λ regs s e. sim_write_command s;
  takes_bit =
      λ taken b s e. ap (λ x. (onewire_writebit sim_line (value b) x).1) e ∙ sim_writebit taken b;
  taken_all = λ scr s bytes n e.
      ap (λ (x : Sim). held_regs x.phase) e
      ∙ ap (take 14) (subst (λ k. bytes_in k (all_bits scr) ≡ scr) n (bytes_in-all_bits scr bytes));
}

-- A chip with the range 0x2a and a short offset.
abbrev some_regs : List ℕ
some_regs = 0 ∷ 0 ∷ 0 ∷ 1 ∷ 3 ∷ 0 ∷ 0 ∷ 0 ∷ 0 ∷ 0x2a ∷ 0 ∷ 0 ∷ 0 ∷ 0 ∷ []

abbrev before_write : Sim
before_write = at_phase (selecting 0 some_regs)

abbrev after_write : Sim
after_write = (writecosconfig sim_line 0x9c 0x80 0 rom before_write).1

write_then_read_cos_example :
    ((writecosconfig sim_line 0x9c 0x80 0 rom before_write).0 ≡ true)
    × ((readcosconfig sim_line 0 rom after_write).0 ≡ some 0x1c)
    × ((readcfbconfig sim_line 0 rom after_write).0 ≡ some 0x2a)
write_then_read_cos_example =
    write_then_read_cos sim_line rom sim_chip some_regs (omega arith) refl 2 0x9c (omega arith)
      (omega arith) before_write refl

-- The check value of the CRC of the 1-Wire line.
abbrev digits : List ℕ
digits = 0x31 ∷ 0x32 ∷ 0x33 ∷ 0x34 ∷ 0x35 ∷ 0x36 ∷ 0x37 ∷ 0x38 ∷ 0x39 ∷ []

onewire_crc8-digits : onewire_crc8 0 digits ≡ 0xa1
unfolding onewire_crc8
onewire_crc8-digits = refl

-- With another value in the variable the check sum is wrong.
onewire_crc8-digits_junk : onewire_crc8 0x20 digits ≡ onewire_crc8 0 (0x11 ∷ drop 1 digits)
unfolding onewire_crc8
onewire_crc8-digits_junk = refl

onewire_crc8-eq-feed_example :
    onewire_crc8 0x20 digits ≡ feed bit_xor (step_right 0x8c) (0x11 ∷ drop 1 digits) 0
onewire_crc8-eq-feed_example =
    onewire_crc8-eq-feed 0x20 0x31 (drop 1 digits) (omega arith) (omega arith) (omega arith)
