-- ===== src/Crc16.antt =====
-- src/utils/crc16.c: the table driven CRC of the Modbus line, fed in pieces.
mod Tables
pub mod Bitwise
mod Tests
use Prim.Native.Nat.{bit_xor}
use ch582_water_jinru.Common.{ℕ, ◌+◌, ◌*◌, List, [], ◌∷◌, length, get_or, ◌==◌, if◌then◌else◌, u16}
unfoldable pub use Tables.{crc_hi, crc_lo}

-- `crc16_ctx_t`; `value` is the two bytes of the union, the low one first.
pub record Context : Type 0 where
  pub low : ℕ
  pub high : ℕ
  pub len : ℕ

unfoldable pub crc16_init : Context
crc16_init = record { low = 0xff; high = 0xff; len = 0 }

-- The body of the loop, for one byte.
unfoldable pub update_byte : ℕ → Context → Context
update_byte b ctx =
    let index = bit_xor ctx.low b in
    record ctx { low = bit_xor ctx.high (get_or crc_hi index 0); high = get_or crc_lo index 0 }

unfoldable pub update_bytes : List ℕ → Context → Context
unfolding update_byte
update_bytes [] ctx = ctx
update_bytes (b ∷ buf) ctx = update_bytes buf (update_byte b ctx)

-- With no bytes the function returns at once; the loop and the sum change nothing then either.
unfoldable pub crc16_update : List ℕ → Context → Context
unfolding update_bytes
crc16_update buf ctx =
    let after = update_bytes buf ctx in
    if length buf == 0 then ctx else record after { len = u16 (ctx.len + length buf) }

unfoldable pub crc16_value : Context → ℕ
crc16_value ctx = if ctx.len == 0 then 0 else ctx.low + 256 * ctx.high

unfoldable pub crc16 : List ℕ → ℕ
unfolding crc16_init crc16_update crc16_value
crc16 buf = crc16_value (crc16_update buf crc16_init)
