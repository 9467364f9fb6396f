-- ===== src/Modbus/Slave/Invariant.antt =====
-- What holds of the frame receiver of src/modbus.c between two interrupts, whatever comes in.
use ch582_water_jinru.Common.{
  ℕ, ◌≤◌, ◌<◌, ◌≡◌, Bool, true, arith, length, length-set, length-replicate, Option,
}
use ch582_water_jinru.Modbus.Slave.{
  init, idle, recv, ctrl_and_waiting, recv_finish, Slave, framelen, slave_recv, tmr0_irq_handler,
  modbus_slave_set_idle, modbus_slave_init, modbus_sa_ctrl,
}

-- In the states in which `slave_recv` writes with no test of the index the buffer is empty.
pub record IsValid (s : Slave) : Type 0 where
  pub sized : length s.req_buf ≡ framelen
  pub in_bounds : s.req_len ≤ framelen
  pub init_empty : s.status ≡ init → s.req_len ≡ 0
  pub idle_empty : s.status ≡ idle → s.req_len ≡ 0
  pub recv_some : s.status ≡ recv → 0 < s.req_len
  pub init_clean : s.status ≡ init → s.flag_frame_err ≡ 0
  pub idle_clean : s.status ≡ idle → s.flag_frame_err ≡ 0
  pub recv_clean : s.status ≡ recv → s.flag_frame_err ≡ 0
  pub recv_timed : s.status ≡ recv → s.timer_running ≡ true
  pub waiting_timed : s.status ≡ ctrl_and_waiting → s.timer_running ≡ true

-- What happens to the receiver, in any order: a byte arrives, the timer fires (which it does only
-- while it runs), the main loop has handled a frame, a hook switches safe access.
pub data Step (clock : ℕ) : Slave → Slave → Type 0 where
  byte : (s : Slave) (d : ℕ) → Step clock s (slave_recv clock d s)
  tick : (s : Slave) → s.timer_running ≡ true → Step clock s (tmr0_irq_handler s)
  handled : (s : Slave) → s.status ≡ recv_finish → Step clock s (modbus_slave_set_idle s)
  safe_access : (s : Slave) (now enable : ℕ) → Step clock s (modbus_sa_ctrl now enable s)

pub data Reach (clock : ℕ) (s : Slave) : Slave → Type 0 where
  here : Reach clock s s
  next : {t u : Slave} → Reach clock s t → Step clock t u → Reach clock s u

slave_recv-IsValid : (clock d : ℕ) (s : Slave) → IsValid s → IsValid (slave_recv clock d s)
unfolding slave_recv
slave_recv-IsValid clock d s v = ground (arith, length-set s.req_buf s.req_len d)

tmr0_irq_handler-IsValid : (s : Slave) → IsValid s → IsValid (tmr0_irq_handler s)
unfolding tmr0_irq_handler
tmr0_irq_handler-IsValid s v = ground arith

set_idle-IsValid : (s : Slave) → IsValid s → IsValid (modbus_slave_set_idle s)
unfolding modbus_slave_set_idle
set_idle-IsValid s v = ground arith

sa_ctrl-IsValid : (now enable : ℕ) (s : Slave) → IsValid s → IsValid (modbus_sa_ctrl now enable s)
unfolding modbus_sa_ctrl
sa_ctrl-IsValid now enable s v = ground arith

modbus_slave_init-IsValid :
    (addr baudrate : Option ℕ) (lib_ok : Bool) (s : Slave)
    → IsValid (modbus_slave_init addr baudrate lib_ok s).1
unfolding modbus_slave_init
modbus_slave_init-IsValid addr baudrate lib_ok s =
    ground (arith, length-replicate {A = ℕ} framelen 0)

Step-IsValid : {clock : ℕ} {s t : Slave} → Step clock s t → IsValid s → IsValid t
Step-IsValid (byte s d) v = slave_recv-IsValid _ d s v
Step-IsValid (tick s e) v = tmr0_irq_handler-IsValid s v
Step-IsValid (handled s e) v = set_idle-IsValid s v
Step-IsValid (safe_access s now enable) v = sa_ctrl-IsValid now enable s v

-- From a receiver that `modbus_slave_init` has set up, whatever bytes, timer interrupts, handled
-- frames and safe-access switches follow in whatever order: the frame length never passes the 256
-- bytes of the buffer, it is 0 in the two states in which a byte is stored with no test of the
-- index, the frame-error flag is clear there, and the timer runs while a frame is under way.
pub Reach-IsValid :
    {clock : ℕ} (addr baudrate : Option ℕ) (lib_ok : Bool) (s : Slave) {t : Slave}
    → Reach clock (modbus_slave_init addr baudrate lib_ok s).1 t
    → IsValid t
Reach-IsValid addr baudrate lib_ok s here = modbus_slave_init-IsValid addr baudrate lib_ok s
Reach-IsValid addr baudrate lib_ok s (next run st) =
    Step-IsValid st (Reach-IsValid addr baudrate lib_ok s run)
