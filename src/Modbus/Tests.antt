-- ===== src/Modbus/Tests.antt =====
-- The theorems on the register banks and the frame receiver at concrete inputs.
use ch582_water_jinru.Common.{
  ◌<◌, ◌≡◌, ◌≢◌, ◌↔◌, ◌⊎◌, inr, refl, true, false, none, some, [], ◌∷◌, arith,
}
use ch582_water_jinru.Modbus.Types.{
  coil, r_check, w_check, r, w, ok, error_index, Out, no_callbacks,
}
use ch582_water_jinru.Modbus.Regs.{
  RegMap, mb_reg_segs, HasRegs, IsLawful, modbus_reg_r_check, modbus_reg_callback,
}
use ch582_water_jinru.Modbus.Regs.Laws.{mb_reg_segs-IsSized}
use ch582_water_jinru.Modbus.Regs.Access.{
  InBank, holding, mb_reg_segs-IsTable, w_check_allows, r_check_allows, write_then_read,
}
use ch582_water_jinru.Modbus.Iregs.{Iregs, modbus_ireg_callback, modbus_ireg_update}
use ch582_water_jinru.Modbus.Iregs.Laws.{
  input, modbus_ireg_callback-update, input_registers_read_only,
}
use ch582_water_jinru.Modbus.Inputs.{
  mb_di_list, modbus_di_r_check, modbus_di_read, modbus_di_update,
}
use ch582_water_jinru.Modbus.Inputs.Laws.{modbus_di_read-update}
use ch582_water_jinru.Modbus.Coils.{HasCoils, mb_coils}
use ch582_water_jinru.Modbus.Callback.{Banks, register_callback, write_check_refused}
use ch582_water_jinru.Modbus.Slave.{
  Slave, init, recv_finish, slave_recv, modbus_slave_init, tmr0_irq_handler,
}
use ch582_water_jinru.Modbus.Slave.Invariant.{IsValid, here, next, Step, Reach-IsValid}
use ch582_water_jinru.Modbus.Slave.Frames.{feed, ticks, received, frame_received}
use ch582_water_jinru.Modbus.Slave.Timer.{Dropped, noise_drops_frame}

abbrev out : Out
out = record { exception_code = 0; value = 0 }

-- A state that is the registers, with safe access off.
abbrev only_regs : HasRegs RegMap
only_regs = record { regs = λ s. s; with_regs = λ segs s. segs; flag_safe_access = λ s. 0 }

only_regs-IsLawful : IsLawful only_regs
only_regs-IsLawful = record { regs_with = λ segs s. refl; flag_with = λ segs s. refl }

w_check_allows_example :
    let args = record (holding 130 0) { query = w_check } in
    let writable =
      InBank 128 7 130
      ⊎ (InBank 65500 15 130 × (only_regs.flag_safe_access mb_reg_segs ≢ 0))
      ⊎ InBank 65530 2 130 in
    (((modbus_reg_callback only_regs (no_callbacks RegMap) args out mb_reg_segs).0 ≡ ok) ↔ writable)
    × (¬ writable
        → (modbus_reg_callback only_regs (no_callbacks RegMap) args out mb_reg_segs).0
          ≡ error_index)
    × ((modbus_reg_callback only_regs (no_callbacks RegMap) args out mb_reg_segs).2 ≡ mb_reg_segs)
w_check_allows_example =
    w_check_allows only_regs (no_callbacks RegMap) 130 0 out mb_reg_segs mb_reg_segs-IsTable

r_check_allows_example :
    let args = record (holding 120 0) { query = r_check } in
    let readable = InBank 0 112 120 ⊎ InBank 128 7 120 ⊎ InBank 65500 15 120 ⊎ InBank 65530 2 120 in
    (((modbus_reg_callback only_regs (no_callbacks RegMap) args out mb_reg_segs).0 ≡ ok) ↔ readable)
    × (¬ readable
        → (modbus_reg_callback only_regs (no_callbacks RegMap) args out mb_reg_segs).0
          ≡ error_index)
    × ((modbus_reg_callback only_regs (no_callbacks RegMap) args out mb_reg_segs).2 ≡ mb_reg_segs)
r_check_allows_example =
    r_check_allows only_regs (no_callbacks RegMap) 120 0 out mb_reg_segs mb_reg_segs-IsTable

write_then_read_example :
    let written =
      modbus_reg_callback only_regs
        (no_callbacks RegMap)
        (record (holding 130 77) { query = w })
        out
        mb_reg_segs in
    let result =
      modbus_reg_callback only_regs (no_callbacks RegMap) (holding 130 0) out written.2 in
    (written.0 ≡ ok) × (result.0 ≡ ok) × (result.1.value ≡ 77)
unfolding mb_reg_segs modbus_reg_r_check
write_then_read_example =
    write_then_read only_regs 130 130 77 0 out mb_reg_segs only_regs-IsLawful mb_reg_segs-IsSized

abbrev water : Iregs
water = record { mb_iregs = 5 ∷ []; mb_pr_iregs = 6 ∷ [] }

modbus_ireg_callback-update_example :
    modbus_ireg_callback (input r 1 0) out (modbus_ireg_update 1 42 water)
    ≡ (ok, record out { value = 42 })
modbus_ireg_callback-update_example = modbus_ireg_callback-update 1 1 42 0 out water (refl, refl)

input_registers_read_only_example :
    (((modbus_ireg_callback (input r_check 1 0) out water).0 ≡ ok) ↔ (1 < 2))
    × ((modbus_ireg_callback (input w_check 1 0) out water).0 ≡ error_index)
    × ((modbus_ireg_callback (input w 1 0) out water).0 ≡ error_index)
input_registers_read_only_example = input_registers_read_only 1 0 out water

modbus_di_read-update_example : modbus_di_read 0 (modbus_di_update 0 9 mb_di_list) ≡ 1
unfolding mb_di_list modbus_di_r_check
modbus_di_read-update_example = modbus_di_read-update 0 0 9 mb_di_list (omega arith)

abbrev only_coils : HasCoils RegMap
only_coils = record { coils = λ s. mb_coils; with_coils = λ c s. s }

abbrev only_banks : Banks RegMap
only_banks = record {
  has_regs = only_regs;
  has_coils = only_coils;
  iregs = λ s. water;
  inputs = λ s. [];
}

write_check_refused_example :
    let result =
      register_callback only_banks
        (no_callbacks RegMap)
        (record { type = coil; query = w_check; index = 0; value = 1 })
        out
        [] in
    (result.0 ≢ ok) × (result.2 ≡ [])
write_check_refused_example =
    write_check_refused only_banks (no_callbacks RegMap) coil 0 1 out [] refl

abbrev blank : Slave
blank = record {
  address = 0;
  baudrate = 0;
  tcnt = 0;
  flag_frame_err = 0;
  flag_safe_access = 0;
  lasttime_sa = 0;
  status = init;
  req_len = 0;
  req_buf = [];
  lasttime_recv = 0;
  timer_ref = 0;
  timer_running = false;
  timer_period = none;
}

-- the receiver at start
start : Slave
unfolding modbus_slave_init
start = (modbus_slave_init (some 20) (some 9600) true blank).1

start-IsValid : IsValid start
unfolding start
start-IsValid = Reach-IsValid {clock = 60000000} (some 20) (some 9600) true blank here

Reach-IsValid_example :
    IsValid (slave_recv 60000000 7 (modbus_slave_init (some 20) (some 9600) true blank).1)
Reach-IsValid_example =
    Reach-IsValid {clock = 60000000} (some 20) (some 9600) true blank (next here (Step.byte _ 7))

frame_received_example :
    let t = ticks 7 (feed 60000000 ((1, 2) ∷ (3, 0) ∷ []) start) in
    (t.status ≡ recv_finish) × (t.flag_frame_err ≡ 0) × (received t ≡ 1 ∷ 3 ∷ [])
unfolding feed start ticks slave_recv tmr0_irq_handler
frame_received_example =
    frame_received 60000000 1 2 7 ((3, 0) ∷ []) start start-IsValid (inr refl) (omega arith)
      (omega arith) refl

-- one byte, then four periods of silence
abbrev waiting : Slave
unfolding slave_recv ticks start tmr0_irq_handler
waiting = ticks 4 (slave_recv 60000000 1 start)

waiting-IsValid : IsValid waiting
unfolding waiting
waiting-IsValid = ground arith

noise_drops_frame_example : Dropped (ticks 7 (slave_recv 60000000 2 waiting)) 1
unfolding waiting
noise_drops_frame_example = noise_drops_frame 60000000 2 waiting waiting-IsValid refl
