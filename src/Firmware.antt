-- ===== src/Firmware.antt =====
-- The main loop's side of src/modbus.c: handling a complete frame, the time-out of safe access and
-- the start, over the state of the whole firmware.
pub mod Sensor
pub mod Polling
pub mod Access
pub mod Expiry
mod Tests
use ch582_water_jinru.Common.{
  ℕ, zero, suc, ◌+◌, ◌*◌, ◌%◌, ◌/◌, ◌≡◌, refl, Bool, true, false, not, ◌&&◌, Option, none, some,
  List, [], ◌∷◌, ◌++◌, ◌==◌, ltb, leb, if◌then◌else◌, length, take, get_or, u32, sub64,
}
use ch582_water_jinru.Modbus.Types.{Error, error_address}
use ch582_water_jinru.Modbus.Regs.{RegMap, HasRegs, IsLawful, modbus_reg_update, modbus_regs_init}
use ch582_water_jinru.Modbus.Iregs.{Iregs, modbus_iregs_init}
use ch582_water_jinru.Modbus.Inputs.{Segment, mb_di_init}
use ch582_water_jinru.Modbus.Slave.{
  Status, recv_finish, Slave, modbus_slave_set_idle, modbus_slave_init, modbus_timer_init, cleared,
}
use ch582_water_jinru.Storage.{Eeprom}
use ch582_water_jinru.Config.{Cfg, cfg_get_mb_addr, cfg_get_mb_uart}

-- MB_REG_ADDR_SAFE_ACCESS_CTRL
abbrev pub addr_safe_access : ℕ
addr_safe_access = 134

-- The state of every module that a request can change, what the UART has sent, and the clock.
-- `reset` records that SYS_ResetExecute was called.
pub record Firmware (E : Eeprom) : Type 0 where
  pub slave : Slave
  pub regs : RegMap
  pub iregs : Iregs
  pub inputs : List Segment
  pub coils : List Segment
  pub cfg : Cfg E
  pub sent : List (List ℕ)
  pub worktime : ℕ
  pub reset : Bool
  pub sensor_init : ℕ
  pub sensor_worktime : ℕ

-- The registers and the safe-access flag in this state, for the register callback.
abbrev pub firmware_regs : (E : Eeprom) → HasRegs (Firmware E)
firmware_regs E = record {
  regs = λ f. f.regs;
  with_regs = λ segs f. record f { regs = segs };
  flag_safe_access = λ f. f.slave.flag_safe_access;
}

pub firmware_regs-IsLawful : (E : Eeprom) → IsLawful (firmware_regs E)
firmware_regs-IsLawful E = record { regs_with = λ segs s. refl; flag_with = λ segs s. refl }

-- Four bytes of memory as a uint32_t.
abbrev pub word32 : List ℕ → ℕ
word32 bs = get_or bs 0 0 + 256 * get_or bs 1 0 + 65536 * get_or bs 2 0 + 16777216 * get_or bs 3 0

abbrev first_byte : Option (List ℕ) → Option ℕ
first_byte none = none
first_byte (some bs) = some (get_or bs 0 0)

abbrev first_word : Option (List ℕ) → Option ℕ
first_word none = none
first_word (some bs) = some (word32 bs)

-- `worktime_since`
unfoldable pub worktime_since : ℕ → ℕ → ℕ
worktime_since now from = sub64 now from

module _ (E : Eeprom) where
  -- An empty response is refused with -1, which the caller does not look at.
  unfoldable pub modbus_slave_uart_send : List ℕ → Firmware E → Firmware E
  modbus_slave_uart_send [] f = f
  modbus_slave_uart_send (b ∷ bs) f = record f { sent = f.sent ++ ((b ∷ bs) ∷ []) }

  -- `lib_ok` is the result of `modbusSlaveInit`.
  unfoldable pub modbus_init : Bool → Firmware E → Firmware E
  modbus_init lib_ok f =
      let (ok, slave) =
        modbus_slave_init (first_byte (cfg_get_mb_addr E f.cfg))
          (first_word (cfg_get_mb_uart E f.cfg)) lib_ok (record f.slave { timer_ref = 0 }) in
      record f {
        regs = modbus_regs_init f.regs;
        iregs = modbus_iregs_init f.iregs;
        inputs = mb_di_init f.inputs;
        slave = if ok then modbus_timer_init slave else slave;
      }

  unfoldable pub modbus_deinit : Firmware E → Firmware E
  modbus_deinit f = record f { slave = cleared (record f.slave { timer_running = false }) }

  -- `modbusParseRequestRTU` of liblightmodbus on the address and the frame: its error, the response
  -- (of length 0 if there is none), and what its calls of the register callback do to the state.
  module _ (parse : ℕ → List ℕ → Firmware E → Error × List ℕ × Firmware E) where
    -- A response is sent unless the frame was for another address.
    abbrev pub is_address_error : Error → Bool
    is_address_error error_address = true
    is_address_error _ = false

    abbrev pub respond : Error × List ℕ × Firmware E → Firmware E
    respond (err, response, f) =
        if is_address_error err
        then f
        else if ltb 0 (length response)
        then modbus_slave_uart_send response f
        else f

    abbrev pub handle : Firmware E → Firmware E
    handle f =
        if f.slave.flag_frame_err == 0
        then respond (parse f.slave.address (take f.slave.req_len f.slave.req_buf) f)
        else f

    abbrev pub set_idle : Firmware E → Firmware E
    set_idle f = record f { slave = modbus_slave_set_idle f.slave }

    abbrev pub is_finished : Status → Bool
    is_finished recv_finish = true
    is_finished _ = false

    abbrev pub stamped : Firmware E → Firmware E
    stamped f = record f { slave = record f.slave { lasttime_recv = u32 (f.worktime / 1000) } }

    unfoldable pub modbus_frame_check : Firmware E → Firmware E
    unfolding modbus_slave_uart_send
    modbus_frame_check f = if is_finished f.slave.status then set_idle (handle (stamped f)) else f

    abbrev pub revoke : Firmware E → Firmware E
    revoke f = record f {
      slave = record f.slave { flag_safe_access = 0 };
      regs = modbus_reg_update addr_safe_access 0 f.regs;
    }

    abbrev pub timed_out : Firmware E → Bool
    timed_out f =
        not (f.slave.flag_safe_access == 0)
        && leb 3000 (worktime_since f.worktime f.slave.lasttime_sa)

    unfoldable pub modbus_run : Firmware E → Firmware E
    unfolding modbus_frame_check worktime_since
    modbus_run f = modbus_frame_check (if timed_out f then revoke f else f)
