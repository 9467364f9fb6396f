-- ===== src/Storage/Flash.antt =====
-- What the storage relies on in the data flash, and a flash that behaves so: erased bytes are
-- 0xff, and a write can only clear bits.
use Prim.Native.Nat.{bit_and}
use ch582_water_jinru.Common.{
  ℕ, zero, suc, ◌+◌, ◌-◌, ◌≤◌, ◌≡◌, refl, Bool, true, false, ◌&&◌, some, List, [], ◌∷◌, ltb, leb,
  if◌then◌else◌, length, get_or, arith,
}
use ch582_water_jinru.Storage.{Eeprom, St, zero_page}

-- The `n` bytes from an address on.
abbrev pub span : (ℕ → ℕ) → ℕ → ℕ → List ℕ
span f addr zero = []
span f addr (suc n) = f addr ∷ span f (addr + 1) n

abbrev pub within : ℕ → ℕ → ℕ → Bool
within addr n x = leb addr x && ltb x (addr + n)

abbrev pub eeprom_max_size : ℕ
eeprom_max_size = 32768

-- The documented behaviour of the flash library: reading succeeds inside the data flash and
-- changes nothing; a write or an erase touches no byte outside its range, whether it reports an
-- error or not; a write that succeeds clears bits, and an erase that succeeds sets all to 1.
pub record IsFlash (E : Eeprom) : Type 0 where
  pub byte : E.Dev → ℕ → ℕ
  pub read_span :
      (addr n : ℕ) (d : E.Dev)
      → addr + n ≤ eeprom_max_size
      → E.read addr n d ≡ some (span (byte d) addr n)
  pub write_outside :
      (addr : ℕ) (bs : List ℕ) (d : E.Dev) (x : ℕ)
      → within addr (length bs) x ≡ false
      → byte (E.write addr bs d).1 x ≡ byte d x
  pub write_inside :
      (addr : ℕ) (bs : List ℕ) (d : E.Dev) (x : ℕ)
      → (E.write addr bs d).0 ≡ true
      → within addr (length bs) x ≡ true
      → byte (E.write addr bs d).1 x ≡ bit_and (byte d x) (get_or bs (x - addr) 0)
  pub erase_outside :
      (addr n : ℕ) (d : E.Dev) (x : ℕ)
      → within addr n x ≡ false
      → byte (E.erase addr n d).1 x ≡ byte d x
  pub erase_inside :
      (addr n : ℕ) (d : E.Dev) (x : ℕ)
      → (E.erase addr n d).0 ≡ true
      → within addr n x ≡ true
      → byte (E.erase addr n d).1 x ≡ 0xff

-- A flash whose calls never fail.
abbrev pub memory : Eeprom
memory = record {
  Dev = ℕ → ℕ;
  read = λ addr n d. some (span d addr n);
  write = λ addr bs d. (
    true,
    λ x. if within addr (length bs) x then bit_and (d x) (get_or bs (x - addr) 0) else d x,
  );
  erase = λ addr n d. (true, λ x. if within addr n x then 0xff else d x);
}

pub memory_write_outside :
    (addr : ℕ) (bs : List ℕ) (d : ℕ → ℕ) (x : ℕ)
    → within addr (length bs) x ≡ false
    → (memory.write addr bs d).1 x ≡ d x
memory_write_outside addr bs d x h = ground arith

pub memory_write_inside :
    (addr : ℕ) (bs : List ℕ) (d : ℕ → ℕ) (x : ℕ)
    → within addr (length bs) x ≡ true
    → (memory.write addr bs d).1 x ≡ bit_and (d x) (get_or bs (x - addr) 0)
memory_write_inside addr bs d x h = ground arith

pub memory_erase_outside :
    (addr n : ℕ) (d : ℕ → ℕ) (x : ℕ) → within addr n x ≡ false → (memory.erase addr n d).1 x ≡ d x
memory_erase_outside addr n d x h = ground arith

pub memory_erase_inside :
    (addr n : ℕ) (d : ℕ → ℕ) (x : ℕ) → within addr n x ≡ true → (memory.erase addr n d).1 x ≡ 0xff
memory_erase_inside addr n d x h = ground arith

unfoldable pub memory-IsFlash : IsFlash memory
memory-IsFlash = record {
  byte = λ d. d;
  read_span = λ addr n d h. refl;
  write_outside = memory_write_outside;
  write_inside = λ addr bs d x ok h. memory_write_inside addr bs d x h;
  erase_outside = memory_erase_outside;
  erase_inside = λ addr n d x ok h. memory_erase_inside addr n d x h;
}

-- `static st_ctx_t st_ctx`, zeroed, beside a flash.
abbrev pub zero_state : (E : Eeprom) → E.Dev → St E
zero_state E d = record {
  flag_init = 0;
  page_erased = 0;
  page_active = 0;
  page_start = 0;
  page_cnt = 0;
  pages = zero_page ∷ zero_page ∷ zero_page ∷ zero_page ∷ [];
  item_idx = 0;
  last_header = record { len = 0; crc = 0; idx = 0 };
  last_location = record { page = 0; offset = 0 };
  dev = d;
}
