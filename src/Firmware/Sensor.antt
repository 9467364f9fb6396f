-- ===== src/Firmware/Sensor.antt =====
-- src/sensor.c: the hook that runs after a register write, the operations it triggers, and the main
-- loop of the sensor.
use ch582_water_jinru.Common.{
  ℕ, ◌+◌, ◌-◌, ◌*◌, ◌%◌, ◌/◌, Bool, true, not, ◌&&◌, Option, none, some, List, [], ◌∷◌, ◌++◌, ◌==◌,
  if◌then◌else◌, drop, u16, u32, replicate,
}
use ch582_water_jinru.Modbus.Types.{Error, Hook, Callbacks}
use ch582_water_jinru.Modbus.Regs.{
  addr_app_state, addr_version_h, addr_version_l, addr_app_vid, addr_app_pid, addr_worktime_h,
  addr_worktime_l, addr_opt_ctrl, addr_baudrate_h, addr_baudrate_l, addr_test_1, addr_test_2,
  modbus_reg_update, modbus_reg_get, modbus_reg_update_uid,
}
use ch582_water_jinru.Modbus.Slave.{modbus_sa_ctrl}
use ch582_water_jinru.Storage.{Eeprom}
use ch582_water_jinru.Config.{cfg_get_mb_uart, cfg_update_mb_uart}
use ch582_water_jinru.Firmware.{Firmware, addr_safe_access, modbus_init, modbus_run}

abbrev pub unlock_code : ℕ
unlock_code = 0x3736

abbrev pub test_pattern : ℕ
test_pattern = 0x5aa5

-- A uint32_t as bytes.
abbrev bytes32 : ℕ → List ℕ
bytes32 n = (n % 256) ∷ (n / 256 % 256) ∷ (n / 65536 % 256) ∷ (n / 16777216 % 256) ∷ []

module _ (E : Eeprom) where
  abbrev pub update_reg : ℕ → ℕ → Firmware E → Firmware E
  update_reg addr value f = record f { regs = modbus_reg_update addr value f.regs }

  abbrev pub or_zeros : Option (List ℕ) → List ℕ
  or_zeros none = replicate 8 0
  or_zeros (some bs) = bs

  -- The result of `cfg_update_mb_uart` is not looked at.
  unfoldable pub sensor_save_config : Firmware E → Firmware E
  sensor_save_config f =
      let old = or_zeros (cfg_get_mb_uart E f.cfg) in
      let baudrate =
        u32
          (modbus_reg_get addr_baudrate_h f.regs * 65536 + modbus_reg_get addr_baudrate_l f.regs) in
      record f { cfg = (cfg_update_mb_uart E (bytes32 baudrate ++ drop 4 old) f.cfg).1 }

  -- It is not among the hooks that `mb_init` registers. -1 is 1 here: the caller asks only for 0.
  unfoldable pub mb_reg_before_write : Hook (Firmware E)
  mb_reg_before_write addr value f =
      if addr == addr_safe_access && (not (value == 0) && not (value == unlock_code))
      then (1, f)
      else (0, f)

  unfoldable pub mb_opt_handle : ℕ → Firmware E → Firmware E
  unfolding sensor_save_config
  mb_opt_handle action f =
      if action == 0
      then record f { reset = true }
      else if action == 1
      then sensor_save_config f
      else f

  abbrev pub access_written : ℕ → Firmware E → Firmware E
  access_written value f =
      if value == unlock_code
      then record f { slave = modbus_sa_ctrl f.worktime 1 f.slave }
      else if value == 0
      then record f { slave = modbus_sa_ctrl f.worktime 0 f.slave }
      else f

  unfoldable pub after_write_of : ℕ → ℕ → Firmware E → Firmware E
  unfolding mb_opt_handle
  after_write_of addr value f =
      if addr == addr_test_1
      then (if value == test_pattern then f else update_reg addr_test_1 test_pattern f)
      else if addr == addr_test_2
      then update_reg addr_test_2 (65535 - value) f
      else if addr == addr_opt_ctrl
      then mb_opt_handle value f
      else if addr == addr_safe_access
      then access_written value f
      else f

  unfoldable pub mb_reg_after_write : Hook (Firmware E)
  unfolding after_write_of
  mb_reg_after_write addr value f = (0, after_write_of addr value f)

  -- The hooks that `mb_init` registers.
  abbrev pub mb_cbs : Callbacks (Firmware E)
  mb_cbs = record {
    before_reg_write = none;
    after_reg_write = some mb_reg_after_write;
    before_coil_write = none;
    after_coil_write = none;
  }

  -- `appinfo`: VID_CG, PID_TKS_WIDS, and version 0.0.1 alpha; `uid` are the UID_LENGTH bytes of the
  -- chip's identifier.
  unfoldable pub mb_init : Bool → List ℕ → ℕ → Firmware E → Firmware E
  mb_init lib_ok uid uid_length f =
      let version : ℕ = 17 in
      let f₁ = update_reg addr_app_state 2 (modbus_init E lib_ok f) in
      let f₂ = update_reg addr_app_pid 3 (update_reg addr_app_vid 1 f₁) in
      let f₃ =
        update_reg addr_version_l (u16 version) (update_reg addr_version_h (version / 65536) f₂) in
      let f₄ = record f₃ { regs = modbus_reg_update_uid uid uid_length f₃.regs } in
      update_reg addr_test_1 test_pattern f₄

  unfoldable pub sensor_init : Bool → List ℕ → ℕ → Firmware E → Firmware E
  unfolding mb_init
  sensor_init lib_ok uid uid_length f =
      if f.sensor_init == 0
      then record (mb_init lib_ok uid uid_length (record f { sensor_worktime = 0 })) {
        sensor_init = 1;
      }
      else f

  -- The seconds are divided by 1000 once more before they are stored.
  unfoldable pub sensor_run :
      (ℕ → List ℕ → Firmware E → Error × List ℕ × Firmware E) → Firmware E → Firmware E
  sensor_run parse f =
      let f₁ = modbus_run E parse f in
      let worktime = u32 (f₁.worktime / 1000) in
      if worktime == f₁.sensor_worktime
      then f₁
      else update_reg addr_worktime_l (u16 (worktime / 1000)) (
          update_reg addr_worktime_h (worktime / 1000 / 65536)
            (record f₁ { sensor_worktime = worktime }))
