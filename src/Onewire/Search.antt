-- ===== src/Onewire/Search.antt =====
-- `onewire_search` of src/onewire.c, the search that finds one slave at a call, and its callers.
mod Outcome
mod Tests
use Prim.Native.Nat.{bit_and}
use ch582_water_jinru.Common.{
  ℕ, zero, suc, ◌+◌, ◌*◌, Bool, true, false, not, ◌&&◌, ◌||◌, List, [], ◌∷◌, get_or, set, replicate,
  ltb, ◌==◌, if◌then◌else◌, u8,
}
use ch582_water_jinru.Common.Bits.{bits_set, bits_clear}
use ch582_water_jinru.Onewire.Bus.{
  Line, M, ◌>>=◌, ◌>>◌, pure, check_ack, onewire_reset, onewire_readbit, onewire_writebit,
  onewire_writebyte,
}

-- `onewire_dev` and `ROM_NO`: what one call of the search leaves to the next.
pub record Device : Type 0 where
  pub last_discrepancy : ℕ
  pub last_family_discrepancy : ℕ
  pub last_device_flag : Bool
  pub crc8 : ℕ
  pub rom_no : List ℕ

-- The local variables of the search.
pub record Scan : Type 0 where
  pub dev : Device
  pub id_bit_number : ℕ
  pub last_zero : ℕ
  pub rom_byte_number : ℕ
  pub rom_byte_mask : ℕ

abbrev pub reset_search : Device → Device
reset_search d = record d {
  last_discrepancy = 0;
  last_device_flag = false;
  last_family_discrepancy = 0;
}

-- The bit that the search takes after the two bits read.
unfoldable pub search_direction : ℕ → ℕ → Scan → ℕ
search_direction id_bit cmp_id_bit t =
    if id_bit == cmp_id_bit
    then (if ltb t.id_bit_number t.dev.last_discrepancy
        then (if bit_and (get_or t.dev.rom_no t.rom_byte_number 0) t.rom_byte_mask == 0
            then 0
            else 1)
        else if t.id_bit_number == t.dev.last_discrepancy
        then 1
        else 0)
    else u8 id_bit

-- A conflict where 0 is taken is noted.
unfoldable pub note_zero : Bool → Scan → Scan
note_zero zero_taken t =
    if zero_taken
    then record t {
      last_zero = t.id_bit_number;
      dev = record t.dev {
        last_family_discrepancy =
            if ltb t.id_bit_number 9 then t.id_bit_number else t.dev.last_family_discrepancy;
      };
    }
    else t

unfoldable pub put_rom_bit : ℕ → Scan → List ℕ
put_rom_bit direction t =
    let b = get_or t.dev.rom_no t.rom_byte_number 0 in
    set t.dev.rom_no t.rom_byte_number
      (if direction == 1 then bits_set b t.rom_byte_mask else bits_clear b t.rom_byte_mask)

-- The end of the loop's body: the bit goes into the ROM, and the mask moves on.
unfoldable pub next_bit : ℕ → Scan → Scan
unfolding put_rom_bit
next_bit direction t =
    let mask = u8 (t.rom_byte_mask * 2) in
    record t {
      dev = record t.dev { rom_no = put_rom_bit direction t };
      id_bit_number = t.id_bit_number + 1;
      rom_byte_number = if mask == 0 then t.rom_byte_number + 1 else t.rom_byte_number;
      rom_byte_mask = if mask == 0 then 1 else mask;
    }

abbrev pub fresh_scan : Device → Scan
fresh_scan d = record {
  dev = record d { crc8 = 0 };
  id_bit_number = 1;
  last_zero = 0;
  rom_byte_number = 0;
  rom_byte_mask = 1;
}

-- The search was successful if it went through all bits; `crc8` stays 0.
unfoldable pub accept : Scan → Bool × Device
accept t = if ltb t.id_bit_number 65 || not (t.dev.crc8 == 0) then (false, t.dev) else (
  true,
  record t.dev {
    last_discrepancy = t.last_zero;
    last_device_flag = if t.last_zero == 0 then true else t.dev.last_device_flag;
  },
)

-- With no device found the next search is like a first one.
unfoldable pub conclude : Bool × Device → Bool × Device
conclude (result, d) =
    if not result || get_or d.rom_no 0 0 == 0 then (false, reset_search d) else (result, d)

-- The locals after a round.
unfoldable pub advance : ℕ → ℕ → Scan → Scan
unfolding search_direction note_zero next_bit
advance id_bit cmp_id_bit t =
    let direction = search_direction id_bit cmp_id_bit t in
    next_bit direction (note_zero (id_bit == cmp_id_bit && direction == 0) t)

module _ (line : Line) where
  open line use {W}

  -- Two ones mean that no slave is there; `more` are the rounds to come.
  unfoldable pub take_bit : M W Scan → ℕ → ℕ → Scan → M W Scan
  unfolding advance
  take_bit more id_bit cmp_id_bit t = if id_bit == 1 && cmp_id_bit == 1 then pure t else (do
    onewire_writebit line (search_direction id_bit cmp_id_bit t)
    let t' = advance id_bit cmp_id_bit t
    if ltb t'.rom_byte_number 8 then more else pure t')

  -- The loop, at most `n` rounds: the ROM has 64 bits, and each round moves on by one.
  unfoldable pub scan_loop : ℕ → Scan → M W Scan
  scan_loop zero t = pure t
  scan_loop (suc n) t = do
    id_bit ← onewire_readbit line
    cmp_id_bit ← onewire_readbit line
    take_bit (scan_loop n (advance id_bit cmp_id_bit t)) id_bit cmp_id_bit t

  unfoldable pub onewire_search : Device → M W (Bool × Device)
  onewire_search d =
      if d.last_device_flag then pure (conclude (false, record d { crc8 = 0 })) else (do
        onewire_reset line
        ack ← check_ack line
        if ack == 0
            then (do
              onewire_writebyte line 0xf0
              t ← scan_loop 64 (fresh_scan d)
              pure (conclude (accept t)))
            else pure (false, reset_search (record d { crc8 = 0 })))

  unfoldable pub onewire_first : Device → M W (Bool × Device)
  unfolding onewire_search
  onewire_first d = onewire_search (record (reset_search d) { rom_no = replicate 8 0 })

  unfoldable pub onewire_next : Device → M W (Bool × Device)
  unfolding onewire_search
  onewire_next d = onewire_search d

-- `onewirefamilyskipsetup` and `onewire_familyshipsetup` have the same text.
unfoldable pub family_skip_setup : Device → Device
family_skip_setup d = record d {
  last_discrepancy = d.last_family_discrepancy;
  last_family_discrepancy = 0;
  last_device_flag = if d.last_family_discrepancy == 0 then true else d.last_device_flag;
}

unfoldable pub onewire_targetsetup : ℕ → Device → Device
onewire_targetsetup family_code d = record d {
  rom_no = family_code ∷ replicate 7 0;
  last_discrepancy = 64;
  last_family_discrepancy = 0;
  last_device_flag = false;
}

-- The comparison of two ROM codes.
unfoldable pub same_rom : List ℕ → List ℕ → Bool
same_rom [] ys = true
same_rom (x ∷ xs) [] = true
same_rom (x ∷ xs) (y ∷ ys) = x == y && same_rom xs ys

module _ (line : Line) where
  unfoldable pub onewire_verify : Device → M line.W (Bool × Device)
  unfolding onewire_search same_rom
  onewire_verify d = do
    found ← onewire_search line (record d { last_discrepancy = 64; last_device_flag = false })
    pure (
      found.0 && same_rom d.rom_no found.1.rom_no,
      record found.1 {
        rom_no = d.rom_no;
        last_discrepancy = d.last_discrepancy;
        last_device_flag = d.last_device_flag;
        last_family_discrepancy = d.last_family_discrepancy;
      },
    )
