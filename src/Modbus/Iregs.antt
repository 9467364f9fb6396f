-- ===== src/Modbus/Iregs.antt =====
-- The input registers of src/modbus/iregs.c and include/modbus/iregs.h: one register for the
-- temperature and one for the water level (APP_PID is not 0).
pub mod Laws
use ch582_water_jinru.Common.{
  ℕ, ◌-◌, Bool, ◌&&◌, List, [], ◌∷◌, ltb, leb, ◌==◌, if◌then◌else◌, length, get_or, set, replicate,
}
use ch582_water_jinru.Modbus.Types.{Query, r_check, r, Error, ok, error_index, Args, Out}

-- `mb_ireg_addr_t`
abbrev pub addr_base : ℕ
addr_base = 0

abbrev pub addr_my18b20z : ℕ
addr_my18b20z = 0

abbrev pub addr_max : ℕ
addr_max = 1

abbrev pub addr_water_base : ℕ
addr_water_base = 1

abbrev pub addr_water_level : ℕ
addr_water_level = 1

abbrev pub addr_water_max : ℕ
addr_water_max = 2

-- The two static arrays.
pub record Iregs : Type 0 where
  pub mb_iregs : List ℕ
  pub mb_pr_iregs : List ℕ

abbrev in_base : ℕ → Bool
in_base addr = leb addr_base addr && ltb addr addr_max

abbrev in_water : ℕ → Bool
in_water addr = leb addr_water_base addr && ltb addr addr_water_max

unfoldable pub modbus_ireg_update : ℕ → ℕ → Iregs → Iregs
modbus_ireg_update addr value s =
    let s₁ =
      if in_base addr then record s { mb_iregs = set s.mb_iregs (addr - addr_base) value } else s in
    if in_water addr
    then record s₁ { mb_pr_iregs = set s₁.mb_pr_iregs (addr - addr_water_base) value }
    else s₁

unfoldable pub modbus_ireg_r_check : ℕ → ℕ
modbus_ireg_r_check index = if in_base index then 1 else if in_water index then 1 else 0

unfoldable pub modbus_ireg_read : ℕ → Iregs → ℕ
modbus_ireg_read index s =
    if in_base index
    then get_or s.mb_iregs (index - addr_base) 0
    else if in_water index
    then get_or s.mb_pr_iregs (index - addr_water_base) 0
    else 0

ireg_query : Query → ℕ → Out → Iregs → Error × Out
ireg_query r_check index out s = (if modbus_ireg_r_check index == 0 then error_index else ok, out)
ireg_query r index out s = (ok, record out { value = modbus_ireg_read index s })
ireg_query _ index out s = (error_index, out)

unfoldable pub modbus_ireg_callback : Args → Out → Iregs → Error × Out
unfolding ireg_query
modbus_ireg_callback args out s =
    ireg_query args.query args.index (record out { exception_code = 0 }) s

unfoldable pub modbus_iregs_init : Iregs → Iregs
modbus_iregs_init s = record {
  mb_iregs = replicate (addr_max - addr_base) 0;
  mb_pr_iregs = replicate (addr_water_max - addr_water_base) 0;
}
