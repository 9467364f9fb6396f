-- ===== src/Onewire/RomSearch/Simulation.antt =====
-- A simulated 1-Wire line with slaves that behave as src/onewire.c relies on.
use ch582_water_jinru.Common.{
  ℕ, zero, suc, ◌+◌, ◌*◌, ◌≡◌, refl, ap, ◌∙◌, ◌%◌, ◌/◌, Bool, true, false, not, List, [], ◌∷◌,
  replicate, ltb, ◌==◌, if◌then◌else◌, Bool-cases, inl, inr,
}
use ch582_water_jinru.Onewire.Bus.{
  Line, onewire_resetcheck, onewire_writebit, onewire_writebyte, onewire_read2bits,
}
use ch582_water_jinru.Onewire.RomSearch.Tree.{Code}
use ch582_water_jinru.Onewire.RomSearch.Slaves.{value, narrow, wired, AreSlaves}

-- What the slaves wait for: the bits of a command, a read slot, or the bit of the master.
pub data Phase : Type 0 where
  command : ℕ → Phase
  bit : Phase
  complement : Phase
  direction : Phase

-- How long the master holds the line low, if it does; the slaves that take part; and the levels
-- that the next reads of the pin see, high where none is left.
pub record Sim : Type 0 where
  pub driving : Bool
  pub low : ℕ
  pub phase : Phase
  pub taking : List Code
  pub levels : List Bool

abbrev pub level : Bool → List Bool
level true = []
level false = false ∷ []

-- A slot of 2 us is a read.
abbrev pub read_slot : Phase → Sim → Sim
read_slot (command n) s = s
read_slot bit s = record s { phase = complement; levels = level (wired (λ b. b) s.taking) }
read_slot complement s = record s { phase = direction; levels = level (wired not s.taking) }
read_slot direction s = s

abbrev pub write_slot : Bool → Phase → Sim → Sim
write_slot b (command n) s =
    if n == 7 then record s { phase = bit } else record s { phase = command (n + 1) }
write_slot b bit s = s
write_slot b complement s = s
write_slot b direction s = record s { phase = bit; taking = narrow b s.taking }

module _ (devices : List Code) where
  abbrev pub released : ℕ → Sim → Sim
  released low s =
      if ltb low 10
      then read_slot s.phase s
      else if ltb low 480
      then write_slot (ltb low 30) s.phase s
      else record s { phase = command 0; taking = devices; levels = replicate 7 false }

  abbrev pub release : Bool → Sim → Sim
  release true s = released s.low (record s { driving = false; low = 0 })
  release false s = s

  abbrev pub held : Bool → ℕ → Sim → Sim
  held true us s = record s { low = s.low + us }
  held false us s = s

  abbrev pub read_level : List Bool → Sim → ℕ × Sim
  read_level [] s = (0x1000, s)
  read_level (true ∷ levels) s = (0x1000, record s { levels = levels })
  read_level (false ∷ levels) s = (0, record s { levels = levels })

  abbrev pub sim_line : Line
  sim_line = record {
    W = Sim;
    set_bits = λ s. release s.driving s;
    reset_bits = λ s. record s { driving = true; low = 0 };
    mode_out = λ s. s;
    mode_in = λ s. s;
    read_pin = λ s. read_level s.levels s;
    delay_us = λ us s. held s.driving us s;
    feed_watchdog = λ s. s;
  }

  abbrev pub asking : List Code → Sim
  asking codes = record { driving = false; low = 0; phase = bit; taking = codes; levels = [] }

  abbrev pub waiting : List Code → Sim
  waiting codes = record {
    driving = false;
    low = 0;
    phase = direction;
    taking = codes;
    levels = [];
  }

  pub sim_present : (s : Sim) → (onewire_resetcheck sim_line s).0 ≡ 0
  unfolding onewire_resetcheck
  sim_present s = refl

  pub sim_command :
      (s : Sim)
      → (onewire_writebyte sim_line 0xf0 (onewire_resetcheck sim_line s).1).1 ≡ asking devices
  unfolding onewire_resetcheck onewire_writebyte
  sim_command s = refl

  pub sim_read :
      (codes : List Code)
      → onewire_read2bits sim_line (asking codes)
        ≡ (value (wired (λ b. b) codes) + 2 * value (wired not codes), waiting codes)
  unfolding onewire_read2bits
  sim_read codes = elim (Bool-cases (wired (λ b. b) codes)) [
    | inl high ↦ elim (Bool-cases (wired not codes)) [
      | inl high' ↦ rw (high, high')
      | inr low' ↦ rw (high, low')
    ]
    | inr low ↦ elim (Bool-cases (wired not codes)) [
      | inl high' ↦ rw (low, high')
      | inr low' ↦ rw (low, low')
    ]
  ]

  pub sim_taken :
      (codes : List Code) (b : Bool)
      → (onewire_writebit sim_line (value b) (waiting codes)).1 ≡ asking (narrow b codes)
  unfolding onewire_writebit
  sim_taken codes true = refl
  sim_taken codes false = refl

  abbrev pub sim_slaves : AreSlaves sim_line devices
  sim_slaves = record {
    Ready = λ s. Unit {0};
    Asked = λ codes s. s ≡ asking codes;
    Answered = λ codes s. s ≡ waiting codes;
    present = λ s r. sim_present s;
    search_command = λ s r. sim_command s;
    two_bits =
        λ codes s e. ap (λ x. (onewire_read2bits sim_line x).0) e ∙ ap (λ x. x.0) (sim_read codes);
    then_wait =
        λ codes s e. ap (λ x. (onewire_read2bits sim_line x).1) e ∙ ap (λ x. x.1) (sim_read codes);
    taken =
        λ codes b s e. ap (λ x. (onewire_writebit sim_line (value b) x).1) e ∙ sim_taken codes b;
    next_search = λ codes s e. tt;
  }

abbrev pub bits : ℕ → ℕ → Code
bits zero k = []
bits (suc n) k = (k % 2 == 1) ∷ bits n (k / 2)

-- Three chips of one family, two of which differ in the last byte only.
abbrev pub chips : List Code
chips = bits 64 0x1700000000030228 ∷ bits 64 0xa100000000010428 ∷ bits 64 0xa200000000010428 ∷ []

abbrev pub no_rows : List (List ℕ)
no_rows = replicate 4 []

abbrev pub idle : Sim
idle = record { driving = false; low = 0; phase = command 0; taking = []; levels = [] }
