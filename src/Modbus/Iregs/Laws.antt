-- ===== src/Modbus/Iregs/Laws.antt =====
-- What a master sees of src/modbus/iregs.c.
use ch582_water_jinru.Common.{
  ℕ, zero, suc, ◌-◌, ◌<◌, ◌≡◌, refl, ◌↔◌, arith, ◌==◌, if◌then◌else◌, ◌&&◌, ltb, length,
  get_or-set_self, length-set,
}
use ch582_water_jinru.Modbus.Types.{
  Query, r_check, w_check, r, w, ok, error_index, input_register, Args, Out,
}
use ch582_water_jinru.Modbus.Iregs.{
  Iregs, modbus_ireg_update, modbus_ireg_r_check, modbus_ireg_read, modbus_ireg_callback,
  modbus_iregs_init,
}

-- The arrays have the lengths of their declarations.
abbrev pub IsSized : Iregs → Type 0
IsSized s = (length s.mb_iregs ≡ 1) × (length s.mb_pr_iregs ≡ 1)

pub modbus_iregs_init-IsSized : (s : Iregs) → IsSized (modbus_iregs_init s)
unfolding modbus_iregs_init
modbus_iregs_init-IsSized s = (refl, refl)

pub modbus_ireg_update-IsSized :
    (a v : ℕ) (s : Iregs) → IsSized s → IsSized (modbus_ireg_update a v s)
unfolding modbus_ireg_update
modbus_ireg_update-IsSized a v s h =
    ground (arith, length-set s.mb_iregs (a - 0) v, length-set s.mb_pr_iregs (a - 1) v)

abbrev pub input : Query → ℕ → ℕ → Args
input q index value = record { type = input_register; query = q; index = index; value = value }

-- After the firmware has updated the input register `b`, a master that reads `a` is answered
-- MODBUS_OK with the value stored, if `a` is `b` and one of the two registers, and otherwise with
-- what it would have read before.
pub modbus_ireg_callback-update :
    (a b value unused : ℕ) (out : Out) (s : Iregs)
    → IsSized s
    → modbus_ireg_callback (input r a unused) out (modbus_ireg_update b value s) ≡ (
        if a == b && ltb a 2
        then (ok, record out { exception_code = 0; value = value })
        else modbus_ireg_callback (input r a unused) out s)
unfolding modbus_ireg_callback modbus_ireg_update modbus_ireg_read
modbus_ireg_callback-update zero zero value unused out s h =
    ground (arith, get_or-set_self s.mb_iregs 0 value 0)
modbus_ireg_callback-update zero (suc zero) value unused out s h = ground arith
modbus_ireg_callback-update (suc zero) zero value unused out s h = ground arith
modbus_ireg_callback-update (suc zero) (suc zero) value unused out s h =
    ground (arith, get_or-set_self s.mb_pr_iregs 0 value 0)
modbus_ireg_callback-update zero (suc (suc b)) value unused out s h = ground arith
modbus_ireg_callback-update (suc zero) (suc (suc b)) value unused out s h = ground arith
modbus_ireg_callback-update (suc (suc a)) b value unused out s h = ground arith

-- Input registers are read-only: the read check answers MODBUS_OK exactly for the addresses 0 and
-- 1, and both write queries answer MODBUS_ERROR_INDEX at every address.
pub input_registers_read_only :
    (index value : ℕ) (out : Out) (s : Iregs)
    → (((modbus_ireg_callback (input r_check index value) out s).0 ≡ ok) ↔ (index < 2))
      × ((modbus_ireg_callback (input w_check index value) out s).0 ≡ error_index)
      × ((modbus_ireg_callback (input w index value) out s).0 ≡ error_index)
unfolding modbus_ireg_callback modbus_ireg_r_check
input_registers_read_only index value out s = (ground arith, refl, refl)
