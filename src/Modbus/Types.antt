-- ===== src/Modbus/Types.antt =====
-- The values that liblightmodbus and the register callbacks exchange, and the callback hooks of
-- include/modbus.h.
use ch582_water_jinru.Common.{ℕ, Option, none}

-- `ModbusDataType`
pub data DataType : Type 0 where
  holding_register input_register coil discrete_input : DataType

-- `ModbusRegisterQuery`
pub data Query : Type 0 where
  r_check w_check r w : Query

-- The members of `ModbusError` that the firmware returns or tests.
pub data Error : Type 0 where
  ok error_alloc error_function error_index error_address error_other : Error

-- `ModbusRegisterCallbackArgs`, without `function`, which nothing here reads.
pub record Args : Type 0 where
  pub type : DataType
  pub query : Query
  pub index : ℕ
  pub value : ℕ

-- `ModbusRegisterCallbackResult`; the exception code MODBUS_EXCEP_NONE is 0.
pub record Out : Type 0 where
  pub exception_code : ℕ
  pub value : ℕ

-- A hook of `mb_callback_t`: it may change the whole state, and its result is C's `int`, of
-- which the callers only ask whether it is 0.
abbrev pub Hook : Type 0 → Type 0
Hook S = ℕ → ℕ → S → ℕ × S

-- `mb_callback_t`: an absent hook is a null pointer.
pub record Callbacks (S : Type 0) : Type 0 where
  pub before_reg_write : Option (Hook S)
  pub after_reg_write : Option (Hook S)
  pub before_coil_write : Option (Hook S)
  pub after_coil_write : Option (Hook S)

-- `mb_callback_t cb = {0}`
abbrev pub no_callbacks : (S : Type 0) → Callbacks S
no_callbacks S = record {
  before_reg_write = none;
  after_reg_write = none;
  before_coil_write = none;
  after_coil_write = none;
}
