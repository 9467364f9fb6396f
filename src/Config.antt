-- ===== src/Config.antt =====
-- src/configtool.c and include/configtool.h: a cache of the Modbus address, the line parameters and
-- the record for updates, each of which is an item of the storage.
pub mod Laws
pub mod Updates
mod Tests
use ch582_water_jinru.Common.{
  ℕ, zero, suc, ◌+◌, ◌*◌, ◌%◌, ◌/◌, Bool, true, false, ◌&&◌, Option, none, some, List, [], ◌∷◌,
  ◌++◌, ◌==◌, ltb, leb, if◌then◌else◌, length, take, replicate, splice, min,
}
use ch582_water_jinru.Storage.{Eeprom, St}
use ch582_water_jinru.Storage.Scan.{st_init}
use ch582_water_jinru.Storage.Api.{st_read_item, st_write_item}

-- `memcmp` of two arrays of one size.
abbrev pub same_bytes : List ℕ → List ℕ → Bool
same_bytes [] [] = true
same_bytes (a ∷ xs) (b ∷ bs) = a == b && same_bytes xs bs
same_bytes _ _ = false

-- `cfg_cache_t` as the bytes of its members, `cfg_flag_init`, and the storage beside them.
pub record Cfg (E : Eeprom) : Type 0 where
  pub mb_addr : List ℕ
  pub mb_uart : List ℕ
  pub ota : List ℕ
  pub flag_init : ℕ
  pub st : St E

-- `cfg_idx_t`, and for each the key, the size and the place of its content (`cfg_items`). A
-- `cfg_uart_t` has four bytes of baud rate, one of data bits, one of stop bits and parity, and two of
-- padding; a `cfg_ota_t` has 48 bytes.
pub data Idx : Type 0 where
  cfg_mb_addr cfg_mb_uart cfg_ota : Idx

abbrev pub key : Idx → ℕ
key cfg_mb_addr = 1
key cfg_mb_uart = 2
key cfg_ota = 3

abbrev pub size : Idx → ℕ
size cfg_mb_addr = 1
size cfg_mb_uart = 8
size cfg_ota = 48

abbrev pub content : {E : Eeprom} → Idx → Cfg E → List ℕ
content cfg_mb_addr c = c.mb_addr
content cfg_mb_uart c = c.mb_uart
content cfg_ota c = c.ota

abbrev pub with_content : {E : Eeprom} → Idx → List ℕ → Cfg E → Cfg E
with_content cfg_mb_addr bs c = record c { mb_addr = bs }
with_content cfg_mb_uart bs c = record c { mb_uart = bs }
with_content cfg_ota bs c = record c { ota = bs }

module _ (E : Eeprom) where
  abbrev pub in_storage : Option (Unit {0}) × St E → Cfg E → Option (Unit {0}) × Cfg E
  in_storage (r, s) c = (r, record c { st = s })

  -- No item has an encoder. `buf` is `content`, cut or filled with zeros to the size of the item.
  unfoldable pub cfg_save_item : Idx → List ℕ → Cfg E → Option (Unit {0}) × Cfg E
  cfg_save_item idx buf c =
      let bytes = splice (replicate (size idx) 0) 0 (take (min (size idx) (length buf)) buf) in
      in_storage (st_write_item E (key idx) bytes c.st) c

  abbrev pub keep : Idx → List ℕ → Option (Unit {0}) × Cfg E → Option (Unit {0}) × Cfg E
  keep idx val (none, c) = (none, c)
  keep idx val (some _, c) = (some tt, with_content idx val c)

  -- The common text of `cfg_update_mb_uart`, `cfg_update_ota` and `cfg_update_mb_addr`, after the test
  -- of the last one for the address 0.
  unfoldable pub update : Idx → List ℕ → Cfg E → Option (Unit {0}) × Cfg E
  unfolding cfg_save_item
  update idx val c =
      if c.flag_init == 0
      then (none, c)
      else if same_bytes (content idx c) val
      then (some tt, c)
      else keep idx val (cfg_save_item idx val c)

  unfoldable pub cfg_update_mb_uart : List ℕ → Cfg E → Option (Unit {0}) × Cfg E
  unfolding update
  cfg_update_mb_uart val c = update cfg_mb_uart val c

  unfoldable pub cfg_update_ota : List ℕ → Cfg E → Option (Unit {0}) × Cfg E
  unfolding update
  cfg_update_ota val c = update cfg_ota val c

  -- The address 0 is refused.
  unfoldable pub cfg_update_mb_addr : ℕ → Cfg E → Option (Unit {0}) × Cfg E
  unfolding update
  cfg_update_mb_addr val c = if val == 0 then (none, c) else update cfg_mb_addr (val ∷ []) c

  -- The common text of the three getters, for a result that is not NULL.
  unfoldable pub fetch : Idx → Cfg E → Option (List ℕ)
  fetch idx c = if c.flag_init == 0 then none else some (content idx c)

  unfoldable pub cfg_get_mb_uart : Cfg E → Option (List ℕ)
  unfolding fetch
  cfg_get_mb_uart c = fetch cfg_mb_uart c

  unfoldable pub cfg_get_ota : Cfg E → Option (List ℕ)
  unfolding fetch
  cfg_get_ota c = fetch cfg_ota c

  unfoldable pub cfg_get_mb_addr : Cfg E → Option (List ℕ)
  unfolding fetch
  cfg_get_mb_addr c = fetch cfg_mb_addr c

  -- The address 20, and 9600 baud, 8 data bits, no parity (0) and 1 stop bit (0).
  unfoldable pub cfg_load_default : Cfg E → Cfg E
  cfg_load_default c = record c {
    mb_addr = 20 ∷ [];
    mb_uart = (9600 % 256) ∷ (9600 / 256) ∷ 0 ∷ 0 ∷ 8 ∷ 0 ∷ 0 ∷ 0 ∷ [];
    ota = replicate 48 0;
  }

  -- What `cfg_item_init` does with the result of `st_read_item`: an item that is not there is
  -- written, and one that is there is copied over the default.
  abbrev loaded : Idx → Option (List ℕ) → Cfg E → Cfg E
  loaded idx none c = c
  loaded idx (some []) c = (in_storage (st_write_item E (key idx) (content idx c) c.st) c).1
  loaded idx (some (b ∷ bs)) c = with_content idx (splice (content idx c) 0 (b ∷ bs)) c

  -- Its result is not looked at.
  unfoldable pub cfg_item_init : Idx → Cfg E → Cfg E
  cfg_item_init idx c =
      let r = st_read_item E (key idx) (size idx) c.st in loaded idx r.0 (record c { st = r.1 })

  -- `st_init` returns 0 always.
  unfoldable pub cfg_init : Cfg E → Cfg E
  unfolding cfg_load_default cfg_item_init
  cfg_init c =
      if c.flag_init == 0
      then (let c₁ = cfg_load_default (record c { st = (st_init E c.st).1 }) in
          record (cfg_item_init cfg_ota
            (cfg_item_init cfg_mb_uart (cfg_item_init cfg_mb_addr c₁))) { flag_init = 1 })
      else c
