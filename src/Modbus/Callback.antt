-- ===== src/Modbus/Callback.antt =====
-- `register_callback` of src/modbus.c: the one callback that liblightmodbus calls, over the four
-- banks.
use ch582_water_jinru.Common.{ℕ, ◌≡◌, ◌≢◌, refl, [], List}
use ch582_water_jinru.Modbus.Types.{
  DataType, holding_register, input_register, coil, discrete_input, w_check, Error, ok, Args, Out,
  Callbacks,
}
use ch582_water_jinru.Modbus.Regs.{HasRegs, modbus_reg_callback}
use ch582_water_jinru.Modbus.Iregs.{Iregs, modbus_ireg_callback}
use ch582_water_jinru.Modbus.Inputs.{Segment, modbus_di_callback}
use ch582_water_jinru.Modbus.Coils.{HasCoils, modbus_coil_callback, modbus_coil_w_check}

-- Where the banks lie in the state of the firmware.
pub record Banks (S : Type 0) : Type 0 where
  pub has_regs : HasRegs S
  pub has_coils : HasCoils S
  pub iregs : S → Iregs
  pub inputs : S → List Segment

abbrev pub with_state : {S : Type 0} → Error × Out → S → Error × Out × S
with_state (e, out) s = (e, out, s)

module _ {S : Type 0} (b : Banks S) (cbs : Callbacks S) where
  by_type : DataType → Args → Out → S → Error × Out × S
  by_type holding_register args out s = modbus_reg_callback b.has_regs cbs args out s
  by_type input_register args out s = with_state (modbus_ireg_callback args out (b.iregs s)) s
  by_type coil args out s = modbus_coil_callback b.has_coils cbs args out s
  by_type discrete_input args out s = with_state (modbus_di_callback args out (b.inputs s)) s

  unfoldable pub register_callback : Args → Out → S → Error × Out × S
  unfolding by_type
  register_callback args out s = by_type args.type args (record out { exception_code = 0 }) s

-- The bank has no write access for the type: input registers and discrete inputs never, coils
-- while the table is empty.
abbrev IsReadOnly : {S : Type 0} → Banks S → DataType → S → Type 0
IsReadOnly b holding_register s = ⊥
IsReadOnly b input_register s = Unit {0}
IsReadOnly b coil s = b.has_coils.coils s ≡ []
IsReadOnly b discrete_input s = Unit {0}

-- liblightmodbus asks for write access before it writes: for input registers, for discrete inputs,
-- and for coils while the coil table is empty, the write check never answers MODBUS_OK, whatever
-- the address, the value and the hooks, and it leaves the state as it was.
pub write_check_refused :
    {S : Type 0} (b : Banks S) (cbs : Callbacks S) (type : DataType) (index value : ℕ) (out : Out)
    (s : S)
    → IsReadOnly b type s
    → let result =
        register_callback b cbs
          (record { type = type; query = w_check; index = index; value = value })
          out
          s in
      (result.0 ≢ ok) × (result.2 ≡ s)
unfolding register_callback modbus_ireg_callback modbus_di_callback modbus_coil_callback
    modbus_coil_w_check
write_check_refused b cbs holding_register index value out s h = absurd h
write_check_refused b cbs input_register index value out s h = (λ e. cc, refl)
write_check_refused b cbs coil index value out s h = (rw h (λ e. cc), refl)
write_check_refused b cbs discrete_input index value out s h = (λ e. cc, refl)
