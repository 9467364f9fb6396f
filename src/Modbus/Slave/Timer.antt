-- ===== src/Modbus/Slave/Timer.antt =====
-- What a byte in the silence after a frame does to the receiver, and to the count of the users of
-- its timer.
use ch582_water_jinru.Common.{
  ℕ, zero, suc, ◌+◌, ◌<◌, ◌≡◌, refl, ◌∙◌, ◌||◌, Bool, true, not, arith, ◌==◌, leb, if◌then◌else◌,
  u8,
}
use mathlib.Core.Path.{subst}
use ch582_water_jinru.Modbus.Slave.{idle, ctrl_and_waiting, Slave, slave_recv, tmr0_irq_handler}
use ch582_water_jinru.Modbus.Slave.Invariant.{IsValid}
use ch582_water_jinru.Modbus.Slave.Frames.{tick, ticks}

-- `n` periods after a byte that spoiled the frame, with the timer's count of users.
record Spoiled (s : Slave) (ref n : ℕ) : Type 0 where
  waiting : s.status ≡ ctrl_and_waiting
  running : s.timer_running ≡ true
  count : s.tcnt ≡ n
  marked : s.flag_frame_err ≡ 1
  users : s.timer_ref ≡ ref

-- The int8_t with this bit pattern is positive.
abbrev pub is_positive : ℕ → Bool
is_positive ref = not (ref == 0 || leb 128 ref)

pub record Dropped (s : Slave) (ref : ℕ) : Type 0 where
  pub status_idle : s.status ≡ idle
  pub empty : s.req_len ≡ 0
  pub clean : s.flag_frame_err ≡ 0
  pub users : s.timer_ref ≡ ref
  pub running : s.timer_running ≡ is_positive ref

tick-Spoiled : (s : Slave) (ref n : ℕ) → Spoiled s ref n → n < 6 → Spoiled (tick s) ref (n + 1)
unfolding tick tmr0_irq_handler
tick-Spoiled s ref n v h = ground arith

tick-Dropped : (s : Slave) (ref : ℕ) → Spoiled s ref 6 → Dropped (tick s) (u8 (ref + 255))
unfolding tick tmr0_irq_handler
tick-Dropped s ref v = ground arith

ticks-Spoiled :
    (k : ℕ) (s : Slave) (ref n : ℕ)
    → Spoiled s ref n
    → n + suc k ≡ 7
    → Dropped (ticks (suc k) s) (u8 (ref + 255))
unfolding ticks
ticks-Spoiled zero s ref n v h = tick-Dropped s ref (subst (Spoiled s ref) (omega arith) v)
ticks-Spoiled (suc k) s ref n v h =
    ticks-Spoiled k (tick s) ref (n + 1) (tick-Spoiled s ref n v (omega arith)) (omega arith)

recv_spoils :
    (clock d : ℕ) (s : Slave)
    → IsValid s
    → s.status ≡ ctrl_and_waiting
    → Spoiled
        (slave_recv clock d s)
        (if s.req_len == 1 then u8 (s.timer_ref + 1) else s.timer_ref)
        0
unfolding slave_recv
recv_spoils clock d s v e = ground arith

-- A byte that arrives after three and before seven periods of silence spoils the frame: when
-- silence has then lasted seven periods, the receiver is idle and empty with the error flag
-- cleared, and the timer's count of users is one less than before the byte if the frame had not
-- one byte, but as it was (modulo 256) if the frame had one byte; the timer still runs exactly if
-- the new count is positive.
pub noise_drops_frame :
    (clock d : ℕ) (s : Slave)
    → IsValid s
    → s.status ≡ ctrl_and_waiting
    → Dropped
        (ticks 7 (slave_recv clock d s))
        (if s.req_len == 1 then u8 s.timer_ref else u8 (s.timer_ref + 255))
noise_drops_frame clock d s v e =
    subst (Dropped (ticks 7 (slave_recv clock d s))) (ground arith)
      (ticks-Spoiled 6 (slave_recv clock d s) _ 0 (recv_spoils clock d s v e) refl)

-- So a frame of one byte followed by noise leaks a user of the timer: from a count of 1 the
-- receiver is idle after the seven periods and the timer still runs, with the count still at 1;
-- after a frame of more bytes the timer has stopped, with the count at 0.
pub one_byte_frame_leaks_timer :
    (clock d : ℕ) (s : Slave)
    → IsValid s
    → s.status ≡ ctrl_and_waiting
    → s.timer_ref ≡ 1
    → let t = ticks 7 (slave_recv clock d s) in
      (t.status ≡ idle)
      × (t.timer_running ≡ (s.req_len == 1))
      × (t.timer_ref ≡ (if s.req_len == 1 then 1 else 0))
one_byte_frame_leaks_timer clock d s v e r =
    let w = noise_drops_frame clock d s v e in
    (w.status_idle, w.running ∙ ground arith, w.users ∙ ground arith)
