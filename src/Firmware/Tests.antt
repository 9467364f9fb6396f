-- ===== src/Firmware/Tests.antt =====
-- The theorems on polling and on the hooks at a concrete firmware, with a parser that sends the
-- request back.
use ch582_water_jinru.Common.{ℕ, ◌≡◌, refl, inr, true, false, none, some, List, [], ◌∷◌, arith}
use ch582_water_jinru.Modbus.Types.{Error, ok, error_index, w_check, Out, no_callbacks}
use ch582_water_jinru.Modbus.Regs.{
  mb_reg_segs, addr_test_1, addr_test_2, modbus_reg_get, modbus_reg_callback,
}
use ch582_water_jinru.Modbus.Regs.Laws.{mb_reg_segs-IsSized}
use ch582_water_jinru.Modbus.Regs.Access.{mb_reg_segs-IsTable, holding}
use ch582_water_jinru.Modbus.Slave.{init, Slave, slave_recv, tmr0_irq_handler, modbus_slave_init}
use ch582_water_jinru.Modbus.Slave.Invariant.{IsValid, Reach-IsValid, here}
use ch582_water_jinru.Modbus.Slave.Frames.{ticks, feed}
use ch582_water_jinru.Storage.Flash.{memory, zero_state}
use ch582_water_jinru.Config.{Cfg}
use ch582_water_jinru.Firmware.{
  Firmware, firmware_regs, modbus_frame_check, modbus_run, stamped, addr_safe_access,
  worktime_since,
}
use ch582_water_jinru.Firmware.Polling.{IsIdle, answered, request_answered, protected_after_timeout}
use ch582_water_jinru.Firmware.Expiry.{polled, all_polled, access_lasts}
use ch582_water_jinru.Firmware.Access.{written, check, self_test, safe_access_switched}

abbrev blank_slave : Slave
blank_slave = record {
  address = 0;
  baudrate = 0;
  tcnt = 0;
  flag_frame_err = 0;
  flag_safe_access = 0;
  lasttime_sa = 0;
  status = init;
  req_len = 0;
  req_buf = [];
  lasttime_recv = 0;
  timer_ref = 0;
  timer_running = false;
  timer_period = none;
}

abbrev start_slave : Slave
unfolding modbus_slave_init
start_slave = (modbus_slave_init (some 20) (some 9600) true blank_slave).1

abbrev cfg : Cfg memory
cfg = record {
  mb_addr = [];
  mb_uart = [];
  ota = [];
  flag_init = 0;
  st = zero_state memory (λ x. 0xff);
}

abbrev start : Firmware memory
start = record {
  slave = start_slave;
  regs = mb_reg_segs;
  iregs = record { mb_iregs = 0 ∷ []; mb_pr_iregs = 0 ∷ [] };
  inputs = [];
  coils = [];
  cfg = cfg;
  sent = [];
  worktime = 5000;
  reset = false;
  sensor_init = 0;
  sensor_worktime = 0;
}

abbrev echo : ℕ → List ℕ → Firmware memory → Error × List ℕ × Firmware memory
echo address frame f = (ok, frame, f)

start-IsValid : IsValid start.slave
unfolding start_slave
start-IsValid = Reach-IsValid {clock = 60000000} (some 20) (some 9600) true blank_slave here

abbrev out : Out
out = record { exception_code = 0; value = 0 }

abbrev granted : Firmware memory
granted = record start { slave = record start_slave { flag_safe_access = 1; lasttime_sa = 1000 } }

request_answered_example :
    (let t = record start { slave = ticks 7 (feed 60000000 ((1, 2) ∷ (3, 0) ∷ []) start.slave) } in
      let g = modbus_frame_check memory echo t in
      IsIdle memory echo g.slave
      × (g.sent ≡ answered memory echo (echo t.slave.address (1 ∷ 3 ∷ []) (stamped memory echo t))))
unfolding feed ticks slave_recv tmr0_irq_handler start_slave
request_answered_example =
    request_answered memory echo 60000000 1 2 7 ((3, 0) ∷ []) start start-IsValid (inr refl)
      (omega arith) (omega arith) refl

protected_after_timeout_example :
    (modbus_reg_callback
      (firmware_regs memory)
      (no_callbacks (Firmware memory))
      (record (holding 65501 7) { query = w_check })
      out
      (modbus_run memory echo granted)).0
    ≡ error_index
unfolding worktime_since start_slave
protected_after_timeout_example =
    protected_after_timeout memory echo (no_callbacks (Firmware memory)) 65501 7 out granted
      mb_reg_segs-IsTable refl (omega arith) (omega arith)

self_test_example :
    (modbus_reg_get addr_test_1 (written memory addr_test_1 7 out start).regs ≡ 0x5aa5)
    × (modbus_reg_get addr_test_2 (written memory addr_test_2 7 out start).regs ≡ 65528)
self_test_example = self_test memory 7 out start mb_reg_segs-IsSized mb_reg_segs-IsTable

safe_access_switched_example :
    check memory 65501 out (written memory addr_safe_access 0x3736 out start) ≡ ok
safe_access_switched_example =
    safe_access_switched memory 0x3736 65501 out start mb_reg_segs-IsTable (omega arith)

-- Near the end of the 64 bits of the clock.
abbrev long_after : Firmware memory
long_after = record start { worktime = 0xffffffffffffff00 }

access_lasts_example :
    (let unlocked = written memory addr_safe_access 0x3736 out long_after in
      check memory 65501 out (
        polled memory echo 0xffffffffffffff00 3000
          (all_polled memory echo 0xffffffffffffff00 (100 ∷ 2999 ∷ []) unlocked)))
    ≡ error_index
unfolding start_slave
access_lasts_example =
    access_lasts memory echo 65501 3000 (100 ∷ 2999 ∷ []) out long_after mb_reg_segs-IsTable refl
      (omega arith) (omega arith) (omega arith, (omega arith, tt)) (omega arith)
