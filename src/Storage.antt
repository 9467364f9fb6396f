-- ===== src/Storage.antt =====
-- src/storage.c and include/storage.h: a key-value store on four pages of data flash. This file
-- has the data, the interface of the flash, and the monad of functions that fail with -1.
pub mod Pages
pub mod Items
pub mod Search
pub mod Scan
pub mod Api
pub mod Flash
pub mod Frame
pub mod Log
pub mod Integrity
mod Tests
use ch582_water_jinru.Common.{
  ℕ, ◌+◌, ◌-◌, ◌%◌, ◌/◌, ◌*◌, ◌^◌, Bool, true, false, ◌&&◌, Option, none, some, List, [], ◌∷◌, ltb,
  leb, ◌==◌, if◌then◌else◌, get_or, set, length, u16,
}

-- The data flash of the vendor's precompiled library (`FLASH_EEPROM_CMD`): reading, writing and
-- erasing at an address. `none` and `false` are the calls that report an error.
pub record Eeprom : Type 1 where
  pub Dev : Type 0
  pub read : ℕ → ℕ → Dev → Option (List ℕ)
  pub write : ℕ → List ℕ → Dev → Bool × Dev
  pub erase : ℕ → ℕ → Dev → Bool × Dev

-- `ST_PAGE_SIZE` (EEPROM_PAGE_SIZE), `ST_PAGE_MAX`, `ST_PAGE_HEADER_SIZE`, `ST_PAGE_CONTENT_MAX`,
-- `sizeof(st_item_header_t)`, `ST_MAX_CONTENT_LEN` and `ST_ITEM_IDX_MAX`
abbrev pub page_size : ℕ
page_size = 256

abbrev pub page_max : ℕ
page_max = 4

abbrev pub page_header_size : ℕ
page_header_size = 1

abbrev pub page_content_max : ℕ
page_content_max = 255

abbrev pub header_size : ℕ
header_size = 4

abbrev pub max_content_len : ℕ
max_content_len = 248

abbrev pub item_idx_max : ℕ
item_idx_max = 65535

-- The page states of include/storage.h.
abbrev pub erased : ℕ
erased = 0xff

abbrev pub active : ℕ
active = 0xfe

abbrev pub full : ℕ
full = 0xfc

abbrev pub unavailable : ℕ
unavailable = 0x00

-- `ST_PAGE_VALID` and `ST_ITEM_IDX_VALID`
abbrev pub page_valid : ℕ → Bool
page_valid p = ltb p page_max

abbrev pub item_idx_valid : ℕ → Bool
item_idx_valid i = ltb 0 i && ltb i item_idx_max

-- `st_page_t`
pub record Page : Type 0 where
  pub status : ℕ
  pub item_cnt : ℕ
  pub bytes_used : ℕ
  pub bytes_available : ℕ

abbrev pub zero_page : Page
zero_page = record { status = 0; item_cnt = 0; bytes_used = 0; bytes_available = 0 }

-- `st_item_header_t`
pub record Header : Type 0 where
  pub len : ℕ
  pub crc : ℕ
  pub idx : ℕ

-- `st_item_t`: of `content`, the first `header.len` bytes, which are all that is ever read.
pub record Item : Type 0 where
  pub header : Header
  pub content : List ℕ

-- The bytes of a header in memory: `idx` is little-endian.
unfoldable pub header_bytes : Header → List ℕ
header_bytes h = h.len ∷ h.crc ∷ (h.idx % 256) ∷ (h.idx / 256) ∷ []

unfoldable pub header_of : List ℕ → Header
header_of bs = record {
  len = get_or bs 0 0;
  crc = get_or bs 1 0;
  idx = get_or bs 2 0 + 256 * get_or bs 3 0;
}

-- `ST_ITEM_SIZE`, without the struct
abbrev pub item_size : Header → ℕ
item_size h = h.len + header_size

-- `st_item_location_t`
pub record Location : Type 0 where
  pub page : ℕ
  pub offset : ℕ

-- `st_ctx_t`, with `st_search_ctx_t` in it and the flash beside it.
pub record St (E : Eeprom) : Type 0 where
  pub flag_init : ℕ
  pub page_erased : ℕ
  pub page_active : ℕ
  pub page_start : ℕ
  pub page_cnt : ℕ
  pub pages : List Page
  pub item_idx : ℕ
  pub last_header : Header
  pub last_location : Location
  pub dev : E.Dev

-- A function that returns -1 leaves behind what it has changed so far.
abbrev pub M : Eeprom → Type 0 → Type 0
M E A = St E → Option A × St E

abbrev pub bind_of : {E : Eeprom} {A B : Type 0} → Option A × St E → (A → M E B) → Option B × St E
bind_of (none, s) f = (none, s)
bind_of (some a, s) f = f a s

infixl 5 ◌>>=◌ ◌>>◌
abbrev pub ◌>>=◌ : {E : Eeprom} {A B : Type 0} → M E A → (A → M E B) → M E B
◌>>=◌ m f s = bind_of (m s) f

abbrev pub ◌>>◌ : {E : Eeprom} {A B : Type 0} → M E A → M E B → M E B
◌>>◌ m k s = bind_of (m s) (λ _. k)

abbrev pub pure : {E : Eeprom} {A : Type 0} → A → M E A
pure a s = (some a, s)

abbrev pub fail : {E : Eeprom} {A : Type 0} → M E A
fail s = (none, s)

abbrev pub guard : {E : Eeprom} → Bool → M E (Unit {0})
guard true s = (some tt, s)
guard false s = (none, s)

abbrev pub get : {E : Eeprom} → M E (St E)
get s = (some s, s)

abbrev pub modify : {E : Eeprom} → (St E → St E) → M E (Unit {0})
modify f s = (some tt, f s)

-- A call whose result the caller does not look at, or tests itself: `none` is -1.
abbrev pub attempt : {E : Eeprom} {A : Type 0} → M E A → M E (Option A)
attempt m s = let (r, s') = m s in (some r, s')

abbrev pub page_of : {E : Eeprom} → St E → ℕ → Page
page_of s i = get_or s.pages i zero_page

abbrev pub with_page : {E : Eeprom} → St E → ℕ → Page → St E
with_page s i p = record s { pages = set s.pages i p }

-- An `int` compared with a `size_t`: -1 becomes the greatest 32-bit number.
abbrev pub as_unsigned : Option ℕ → ℕ
as_unsigned none = 2 ^ 32 - 1
as_unsigned (some n) = n

-- An `int` stored in a uint16_t.
abbrev pub as_u16 : Option ℕ → ℕ
as_u16 none = 65535
as_u16 (some n) = u16 n
