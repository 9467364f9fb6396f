-- ===== src/Onewire/Registers.antt =====
-- The commands of src/onewire.c to a chip on the line: its registers are read and written as bytes.
pub mod Chip
pub mod Change
pub mod Offset
mod Tests
use Prim.Native.Nat.{bit_and, bit_or}
use ch582_water_jinru.Common.{
  ℕ, zero, suc, ◌+◌, ◌-◌, ◌*◌, ◌/◌, ◌^◌, Bool, true, false, Option, none, some, List, [], ◌∷◌, take,
  drop, get_or, set, ◌==◌, if◌then◌else◌, u16,
}
use ch582_water_jinru.Common.Bits.{bits_set, bits_clear}
use ch582_water_jinru.Onewire.Bus.{
  Line, M, ◌>>=◌, ◌>>◌, pure, act, onewire_resetcheck, onewire_writebyte, onewire_read,
}
use ch582_water_jinru.Onewire.Checksum.{onewire_crc8}

-- Places in `MDC02_SCRPARAMETERS` and `MDC02_SCRATCHPAD_READ`, and their sizes.
abbrev pub ch_sel : ℕ
ch_sel = 3

abbrev pub cos : ℕ
cos = 4

abbrev pub cfb : ℕ
cfb = 9

abbrev pub parameters_size : ℕ
parameters_size = 15

abbrev pub cfg : ℕ
cfg = 6

abbrev pub status : ℕ
status = 7

abbrev pub scratchpad_size : ℕ
scratchpad_size = 9

-- `MDC02_C2C3C4`
abbrev pub c2c3c4_size : ℕ
c2c3c4_size = 6

-- The last of the `n` bytes is the check sum of those before it.
unfoldable pub crc_holds : ℕ → ℕ → List ℕ → Bool
crc_holds junk n scr = get_or scr (n - 1) 0 == onewire_crc8 junk (take (n - 1) scr)

unfoldable pub with_channel : ℕ → List ℕ → List ℕ
with_channel channel scr =
    set scr ch_sel (bit_or (bits_clear (get_or scr ch_sel 0) 7) (bit_and channel 7))

unfoldable pub with_cos : ℕ → ℕ → List ℕ → List ℕ
with_cos coffset cosbits scr =
    set (set scr cos coffset) cfb (bit_or (bits_clear (get_or scr cfb 0) 0xc0) cosbits)

unfoldable pub with_cfb : ℕ → List ℕ → List ℕ
with_cfb value scr = set scr cfb (bit_or (bits_clear (get_or scr cfb 0) 0x3f) value)

unfoldable pub with_config : ℕ → ℕ → List ℕ → List ℕ
with_config mps repeatability scr =
    let c = bit_or (bits_clear (get_or scr cfg 0) 0x03) repeatability in
    set scr cfg (bit_or (bits_clear c 0x1c) mps)

-- Two bytes of a register, the low one first.
abbrev pub word_at : List ℕ → ℕ → ℕ
word_at scr i = bit_or (u16 (get_or scr (i + 1) 0 * 256)) (get_or scr i 0)

-- The loop `*scr++ = onewire_read()`.
module _ (line : Line) where
  open line use {W, feed_watchdog}

  unfoldable pub read_all : ℕ → M W (List ℕ)
  read_all zero = pure []
  read_all (suc n) = do b ← onewire_read line; rest ← read_all n; pure (b ∷ rest)

  -- The loop `onewire_writebyte(*scr++)`.
  unfoldable pub write_all : List ℕ → M W (Unit {0})
  write_all [] = pure tt
  write_all (b ∷ scr) = do onewire_writebyte line b; write_all scr

  -- `rom` is the row `FoundROM[num]`.
  unfoldable pub send_matchrom : List ℕ → M W Bool
  unfolding write_all
  send_matchrom rom = do
    act feed_watchdog
    flag ← onewire_resetcheck line
    if flag == 0 then (do onewire_writebyte line 0x55; write_all rom; pure true) else pure false

  -- What every command does first; the result of `send_matchrom` is not looked at.
  unfoldable pub command : List ℕ → ℕ → M W (Unit {0})
  command rom byte = do send_matchrom rom; onewire_writebyte line byte

  unfoldable pub watched_command : List ℕ → ℕ → M W (Unit {0})
  watched_command rom byte = do send_matchrom rom; act feed_watchdog; onewire_writebyte line byte

  -- These return TRUE always.
  unfoldable pub mdc02_readparameters_skiprom : List ℕ → M W (List ℕ)
  mdc02_readparameters_skiprom rom = do command rom 0x8b; read_all parameters_size

  unfoldable pub mdc02_writeparameters_skiprom : List ℕ → List ℕ → M W (Unit {0})
  mdc02_writeparameters_skiprom scr rom = do command rom 0xab; write_all (take parameters_size scr)

  unfoldable pub mdc02_readscratchpad_skiprom : List ℕ → M W (List ℕ)
  mdc02_readscratchpad_skiprom rom = do watched_command rom 0xbe; read_all scratchpad_size

  unfoldable pub mdc02_writescratchpad_skiprom : List ℕ → List ℕ → M W (Unit {0})
  mdc02_writescratchpad_skiprom scr rom = do command rom 0x4e; write_all (take 3 scr)

  unfoldable pub mdc02_readc2c3c4_skiprom : List ℕ → M W (List ℕ)
  mdc02_readc2c3c4_skiprom rom = do command rom 0xdc; read_all c2c3c4_size

  unfoldable pub convertcap : List ℕ → M W Bool
  convertcap rom = do watched_command rom 0x66; pure true

  unfoldable pub converttemp : List ℕ → M W Bool
  converttemp rom = do command rom 0x44; pure true

  unfoldable pub convert_tempcap1 : List ℕ → M W Bool
  convert_tempcap1 rom = do watched_command rom 0x10; pure true

  -- A read that is checked; `none` is FALSE.
  unfoldable pub checked_parameters : ℕ → List ℕ → M W (Option (List ℕ))
  checked_parameters junk rom = do
    scr ← mdc02_readparameters_skiprom rom
    pure (if crc_holds junk parameters_size scr then some scr else none)

  unfoldable pub checked_scratchpad : ℕ → List ℕ → M W (Option (List ℕ))
  checked_scratchpad junk rom = do
    scr ← mdc02_readscratchpad_skiprom rom
    pure (if crc_holds junk scratchpad_size scr then some scr else none)

  -- What was read, changed and written back, or FALSE.
  unfoldable pub write_changed : (List ℕ → List ℕ) → List ℕ → Option (List ℕ) → M W Bool
  write_changed change rom none = pure false
  write_changed change rom (some scr) = do mdc02_writeparameters_skiprom (change scr) rom; pure true

  -- A change of the registers between a checked read and a write.
  unfoldable pub change_parameters : (List ℕ → List ℕ) → ℕ → List ℕ → M W Bool
  unfolding write_changed
  change_parameters change junk rom = do
    found ← checked_parameters junk rom
    write_changed change rom found

  unfoldable pub readcfbconfig : ℕ → List ℕ → M W (Option ℕ)
  readcfbconfig junk rom = do
    found ← checked_parameters junk rom
    pure (elim found [ none ↦ none | some scr ↦ some (bit_and (get_or scr cfb 0) 0x3f) ])

  unfoldable pub readcosconfig : ℕ → List ℕ → M W (Option ℕ)
  readcosconfig junk rom = do
    found ← checked_parameters junk rom
    pure (elim found [
      | none ↦ none
      | some scr ↦ some (bit_and (get_or scr cos 0) (0xff / 2 ^ (3 - get_or scr cfb 0 / 2 ^ 6)))
    ])

  unfoldable pub setcapchannel : ℕ → ℕ → List ℕ → M W Bool
  setcapchannel channel junk rom = change_parameters (with_channel channel) junk rom

  unfoldable pub writecosconfig : ℕ → ℕ → ℕ → List ℕ → M W Bool
  writecosconfig coffset cosbits junk rom = change_parameters (with_cos coffset cosbits) junk rom

  unfoldable pub writecfbconfig : ℕ → ℕ → List ℕ → M W Bool
  writecfbconfig value junk rom = change_parameters (with_cfb value) junk rom

  -- The three bytes from the fifth on are written back.
  unfoldable pub setconfig : ℕ → ℕ → ℕ → List ℕ → M W Bool
  setconfig mps repeatability junk rom = do
    found ← checked_scratchpad junk rom
    elim found [
      | none ↦ pure false
      | some scr ↦ (do
        mdc02_writescratchpad_skiprom (drop 4 (with_config mps repeatability scr)) rom
        pure true)
    ]

  unfoldable pub readstatusconfig : ℕ → List ℕ → M W (Option (ℕ × ℕ))
  readstatusconfig junk rom = do
    found ← checked_scratchpad junk rom
    pure (elim found [ none ↦ none | some scr ↦ some (get_or scr status 0, get_or scr cfg 0) ])

  unfoldable pub readtempcap1 : ℕ → List ℕ → M W (Option (ℕ × ℕ))
  readtempcap1 junk rom = do
    scr ← mdc02_readscratchpad_skiprom rom
    act feed_watchdog
    pure (if crc_holds junk scratchpad_size scr then some (word_at scr 0, word_at scr 2) else none)

  unfoldable pub read_tempwaiting : ℕ → List ℕ → M W (Option ℕ)
  read_tempwaiting junk rom = do
    found ← checked_scratchpad junk rom
    pure (elim found [ none ↦ none | some scr ↦ some (word_at scr 0) ])

  -- These bytes are not checked.
  unfoldable pub readcapc2c3c4 : List ℕ → M W ℕ
  readcapc2c3c4 rom = do scr ← mdc02_readc2c3c4_skiprom rom; act feed_watchdog; pure (word_at scr 0)

  unfoldable pub read_sampling_mode : ℕ → ℕ → ℕ → List ℕ → M W (Option (ℕ × ℕ))
  read_sampling_mode repeatability mps junk rom = do
    setconfig (bit_and mps 7) (bit_and repeatability 3) junk rom
    readstatusconfig junk rom
