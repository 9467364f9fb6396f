-- ===== src/Onewire/Bus.antt =====
-- The line of src/onewire.c: time slots, bytes, reset and presence. The pin, its direction and the
-- waits are the vendor's functions.
use Prim.Native.Nat.{bit_and, bit_or}
use ch582_water_jinru.Common.{
  ℕ, zero, suc, ◌+◌, ◌*◌, ◌/◌, Bool, true, false, Option, none, some, ◌==◌, ltb, if◌then◌else◌, u8,
}

-- `GPIOB_SetBits`, `GPIOB_ResetBits`, `GPIOB_ModeCfg` (output or input), `GPIOB_ReadPortPin`, all
-- of pin 12, `ow_delay_us` and `WWDG_SetCounter`.
pub record Line : Type 1 where
  pub W : Type 0
  pub set_bits : W → W
  pub reset_bits : W → W
  pub mode_out : W → W
  pub mode_in : W → W
  pub read_pin : W → ℕ × W
  pub delay_us : ℕ → W → W
  pub feed_watchdog : W → W

-- A run on the line returns its result and the line after it.
abbrev pub M : Type 0 → Type 0 → Type 0
M W A = W → A × W

infixl 5 ◌>>=◌ ◌>>◌
abbrev pub ◌>>=◌ : {W A B : Type 0} → M W A → (A → M W B) → M W B
◌>>=◌ m f w = let r = m w in f r.0 r.1

abbrev pub ◌>>◌ : {W A B : Type 0} → M W A → M W B → M W B
m >> k = m >>= λ _. k

abbrev pub pure : {W A : Type 0} → A → M W A
pure a w = (a, w)

-- A step with no result.
abbrev pub act : {W : Type 0} → (W → W) → M W (Unit {0})
act f w = (tt, f w)

-- `-1` as an `int`.
abbrev pub minus_one : ℕ
minus_one = 0xffffffff

module _ (line : Line) where
  open line use {W, set_bits, reset_bits, mode_out, mode_in, read_pin, delay_us}

  unfoldable pub onewire_reset : M W (Unit {0})
  onewire_reset = do act mode_out; act reset_bits; act (delay_us 500); act set_bits; act mode_in

  -- The first loop, `n` rounds before it gives up: is the line pulled low?
  unfoldable pub await_low : ℕ → M W Bool
  await_low zero w = (false, w)
  await_low (suc n) w =
      let r = read_pin w in
      let rest = await_low n (delay_us 1 r.1) in if r.0 == 0 then (true, r.1) else rest

  -- The second loop: how long is it low?
  unfoldable pub await_high : ℕ → ℕ → M W (Option ℕ)
  await_high zero cnt w = (none, w)
  await_high (suc n) cnt w =
      let r = read_pin w in
      let rest = await_high n (cnt + 10) (delay_us 10 r.1) in
      if r.0 == 0 then rest else (some cnt, r.1)

  -- 0 for a pulse of presence, 1 where it is missing, too long or too short.
  unfoldable pub presence : Option ℕ → ℕ
  presence none = 1
  presence (some cnt) = if ltb cnt 60 then 1 else 0

  unfoldable pub check_ack : M W ℕ
  unfolding await_low await_high presence
  check_ack = do
    low ← await_low 60
    if low then (do high ← await_high 24 0; pure (presence high)) else pure 1

  unfoldable pub onewire_resetcheck : M W ℕ
  unfolding onewire_reset check_ack
  onewire_resetcheck = do onewire_reset; flag ← check_ack; act (delay_us 240); pure flag

  unfoldable pub onewire_writebit : ℕ → M W (Unit {0})
  onewire_writebit bit = do
    act mode_out
    act reset_bits
    if bit == 0 then act (delay_us 60) else (do act (delay_us 15); act set_bits; act (delay_us 50))
    act set_bits
    act (delay_us 2)

  -- `n` bits, the lowest first.
  unfoldable pub write_bits : ℕ → ℕ → M W (Unit {0})
  write_bits zero d = pure tt
  write_bits (suc n) d = do onewire_writebit (bit_and d 1); write_bits n (d / 2)

  unfoldable pub onewire_writebyte : ℕ → M W (Unit {0})
  unfolding write_bits onewire_writebit
  onewire_writebyte d = write_bits 8 d

  unfoldable pub onewire_readbit : M W ℕ
  onewire_readbit = do
    act mode_out
    act reset_bits
    act (delay_us 2)
    act set_bits
    act mode_in
    act (delay_us 5)
    j ← read_pin
    if j == 0
        then (do
          act (delay_us 4)
          k ← read_pin
          if k == 0 then pure minus_one else (do act (delay_us 60); pure 0))
        else (do act (delay_us 60); pure 1)

  -- A failed read is not 0, so it counts as 1.
  unfoldable pub read_bits : ℕ → ℕ → M W ℕ
  read_bits zero d = pure d
  read_bits (suc n) d = do
    bit ← onewire_readbit
    read_bits n (if bit == 0 then d / 2 else bit_or (d / 2) 0x80)

  unfoldable pub onewire_read : M W ℕ
  unfolding read_bits onewire_readbit
  onewire_read = read_bits 8 0

  unfoldable pub onewire_read2bits : M W ℕ
  unfolding onewire_readbit
  onewire_read2bits = do
    first ← onewire_readbit
    second ← onewire_readbit
    let d = bit_or 0 (u8 first)
    pure (u8 (bit_or d (u8 second * 2)))
