-- ===== src/Modbus/Slave/Frames.antt =====
-- A frame is the bytes that arrive with fewer than three timer periods between them (t1.5), and
-- it ends after seven periods of silence (t3.5).
use mathlib.Core.Path.{subst}
use ch582_water_jinru.Common.{
  ℕ, zero, suc, ◌+◌, ◌≤◌, ◌<◌, ◌≡◌, refl, ap, ◌⊎◌, true, List, [], ◌∷◌, ◌++◌, arith, length, set,
  take, length-set, length-append, ltb, if◌then◌else◌,
}
use mathlib.Core.List.{append-nil, append_assoc}
use native.Mathlib.Numerals.{add-one}
use ch582_water_jinru.Modbus.Slave.{
  init, idle, recv, ctrl_and_waiting, recv_finish, Slave, framelen, slave_recv, tmr0_irq_handler,
}
use ch582_water_jinru.Modbus.Slave.Invariant.{IsValid}

-- The timer's handler runs only while the timer does.
unfoldable pub tick : Slave → Slave
tick s = if s.timer_running then tmr0_irq_handler s else s

unfoldable pub ticks : ℕ → Slave → Slave
unfolding tick
ticks zero s = s
ticks (suc k) s = ticks k (tick s)

-- Each byte with the number of timer periods of silence after it.
unfoldable pub feed : ℕ → List (ℕ × ℕ) → Slave → Slave
unfolding ticks
feed clock [] s = s
feed clock ((d, k) ∷ rest) s = feed clock rest (ticks k (slave_recv clock d s))

abbrev pub bytes : List (ℕ × ℕ) → List ℕ
bytes [] = []
bytes ((d, k) ∷ rest) = d ∷ bytes rest

abbrev pub AllShort : List (ℕ × ℕ) → Type 0
AllShort [] = Unit {0}
AllShort ((d, k) ∷ rest) = (k < 3) × AllShort rest

-- The bytes of the frame so far.
abbrev pub received : Slave → List ℕ
received s = take s.req_len s.req_buf

pub record InFrame (s : Slave) (frame : List ℕ) : Type 0 where
  pub status_recv : s.status ≡ recv
  pub running : s.timer_running ≡ true
  pub quiet : s.tcnt < 3
  pub clean : s.flag_frame_err ≡ 0
  pub sized : length s.req_buf ≡ framelen
  pub counted : s.req_len ≡ length frame
  pub content : received s ≡ frame

take-suc-set :
    (xs : List ℕ) (i v : ℕ) → i < length xs → take (suc i) (set xs i v) ≡ take i xs ++ (v ∷ [])
take-suc-set [] i v h = absurd (omega arith)
take-suc-set (x ∷ xs) zero v h = refl
take-suc-set (x ∷ xs) (suc i) v h = ap (λ r. x ∷ r) (take-suc-set xs i v (omega arith))

take_next-set :
    (xs : List ℕ) (i v : ℕ) → i < length xs → take (i + 1) (set xs i v) ≡ take i xs ++ (v ∷ [])
take_next-set xs i v h = rw add-one (take-suc-set xs i v h)

-- Silence within a frame only counts.
tick_quiet :
    (s : Slave) (frame : List ℕ)
    → InFrame s frame
    → s.tcnt + 1 < 3
    → InFrame (tick s) frame × ((tick s).tcnt ≡ s.tcnt + 1)
unfolding tick tmr0_irq_handler
tick_quiet s frame v h = ground arith

ticks_quiet :
    (k : ℕ) (s : Slave) (frame : List ℕ)
    → InFrame s frame
    → s.tcnt + k < 3
    → InFrame (ticks k s) frame
unfolding ticks
ticks_quiet zero s frame v h = v
ticks_quiet (suc k) s frame v h =
    let (v', e) = tick_quiet s frame v (omega arith) in
    ticks_quiet k (tick s) frame v' (omega arith)

recv_more :
    (clock d : ℕ) (s : Slave) (frame : List ℕ)
    → InFrame s frame
    → 0 < length frame
    → length frame < framelen
    → InFrame (slave_recv clock d s) (frame ++ (d ∷ [])) × ((slave_recv clock d s).tcnt ≡ 0)
unfolding slave_recv
recv_more clock d s frame v p h = ground (
  arith,
  take_next-set s.req_buf s.req_len d,
  length-set s.req_buf s.req_len d,
  length-append frame (d ∷ []),
)

recv_first :
    (clock d : ℕ) (s : Slave)
    → IsValid s
    → (s.status ≡ idle) ⊎ (s.status ≡ init)
    → InFrame (slave_recv clock d s) (d ∷ []) × ((slave_recv clock d s).tcnt ≡ 0)
unfolding slave_recv
recv_first clock d s v h =
    ground (arith, take_next-set s.req_buf 0 d, length-set s.req_buf s.req_len d)

feed_more :
    (clock : ℕ) (rest : List (ℕ × ℕ)) (s : Slave) (frame : List ℕ)
    → InFrame s frame
    → 0 < length frame
    → length frame + length (bytes rest) ≤ framelen
    → AllShort rest
    → InFrame (feed clock rest s) (frame ++ bytes rest)
unfolding feed
feed_more clock [] s frame v p h a = rw append-nil v
feed_more clock ((d, k) ∷ rest) s frame v p h a =
    let (v', e) = recv_more clock d s frame v p (omega arith) in
    let v'' = ticks_quiet k (slave_recv clock d s) (frame ++ (d ∷ [])) v' (omega arith) in
    let whole =
      feed_more clock rest (ticks k (slave_recv clock d s)) (frame ++ (d ∷ [])) v''
        (omega (arith, length-append frame (d ∷ []))) (omega (arith, length-append frame (d ∷ [])))
        a.1 in
    rw append_assoc at whole

-- `n` periods of silence after the last byte of a frame.
record Silent (s : Slave) (frame : List ℕ) (n : ℕ) : Type 0 where
  phase : s.status ≡ (if ltb n 3 then recv else ctrl_and_waiting)
  running : s.timer_running ≡ true
  count : s.tcnt ≡ n
  clean : s.flag_frame_err ≡ 0
  content : received s ≡ frame

tick-Silent :
    (s : Slave) (frame : List ℕ) (n : ℕ) → Silent s frame n → n < 6 → Silent (tick s) frame (n + 1)
unfolding tick tmr0_irq_handler
tick-Silent s frame n v h = ground arith

tick_last :
    (s : Slave) (frame : List ℕ)
    → Silent s frame 6
    → ((tick s).status ≡ recv_finish) × ((tick s).flag_frame_err ≡ 0) × (received (tick s) ≡ frame)
unfolding tick tmr0_irq_handler
tick_last s frame v = ground arith

ticks-Silent :
    (k : ℕ) (s : Slave) (frame : List ℕ) (n : ℕ)
    → Silent s frame n
    → n + suc k ≡ 7
    → let t = ticks (suc k) s in
      (t.status ≡ recv_finish) × (t.flag_frame_err ≡ 0) × (received t ≡ frame)
unfolding ticks
ticks-Silent zero s frame n v h = tick_last s frame (subst (Silent s frame) (omega arith) v)
ticks-Silent (suc k) s frame n v h =
    ticks-Silent k (tick s) frame (n + 1) (tick-Silent s frame n v (omega arith)) (omega arith)

-- `n` more periods of silence, where `n` and the count since the last byte make up seven.
silence_ends :
    (n : ℕ) (s : Slave) (frame : List ℕ)
    → InFrame s frame
    → s.tcnt + n ≡ 7
    → let t = ticks n s in (t.status ≡ recv_finish) × (t.flag_frame_err ≡ 0) × (received t ≡ frame)
silence_ends zero s frame v h = absurd (omega arith)
silence_ends (suc k) s frame v h =
    ticks-Silent k s frame s.tcnt
      (record {
        phase = ground arith;
        running = v.running;
        count = refl;
        clean = v.clean;
        content = v.content;
      })
      h

-- A frame of at most 256 bytes with fewer than three timer periods of silence between the bytes,
-- fed to a receiver that is idle or newly set up, is received whole and in order: when silence has
-- lasted seven periods after the last byte the status is RECV_FINISH, the frame-error flag is
-- clear, and the first `req_len` bytes of the buffer are the bytes sent.
pub frame_received :
    (clock d k n : ℕ) (rest : List (ℕ × ℕ)) (s : Slave)
    → IsValid s
    → (s.status ≡ idle) ⊎ (s.status ≡ init)
    → AllShort ((d, k) ∷ rest)
    → length (bytes ((d, k) ∷ rest)) ≤ framelen
    → (feed clock ((d, k) ∷ rest) s).tcnt + n ≡ 7
    → let t = ticks n (feed clock ((d, k) ∷ rest) s) in
      (t.status ≡ recv_finish) × (t.flag_frame_err ≡ 0) × (received t ≡ bytes ((d, k) ∷ rest))
unfolding feed
frame_received clock d k n rest s v st a h e =
    let (v₁, z) = recv_first clock d s v st in
    let v₂ = ticks_quiet k (slave_recv clock d s) (d ∷ []) v₁ (omega arith) in
    let v₃ =
      feed_more clock rest (ticks k (slave_recv clock d s)) (d ∷ []) v₂ (omega arith) (omega arith)
        a.1 in
    silence_ends n _ _ v₃ e
