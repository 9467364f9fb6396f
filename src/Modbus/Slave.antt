-- ===== src/Modbus/Slave.antt =====
-- The frame receiver of src/modbus.c: the slave context, the timer that counts half characters
-- of silence, and the two interrupt handlers.
pub mod Invariant
pub mod Frames
pub mod Timer
use ch582_water_jinru.Common.{
  ℕ, ◌+◌, ◌-◌, ◌*◌, ◌/◌, ◌%◌, Bool, true, false, ◌||◌, Option, none, some, List, [], ◌∷◌, ltb, leb,
  ◌==◌, if◌then◌else◌, set, replicate, u8, u32,
}
use ch582_water_jinru.Modbus.Types.{Error, ok, error_alloc}

-- `modbus_status_t`
pub data Status : Type 0 where
  init idle recv ctrl_and_waiting recv_finish : Status

-- `mb_slave_ctx_t` without the library's `slave`, its hooks and its response buffer; beside it
-- `mb_timer_ref` (the bit pattern of an int8_t) and the state of the hardware timer TMR0.
pub record Slave : Type 0 where
  pub address : ℕ
  pub baudrate : ℕ
  pub tcnt : ℕ
  pub flag_frame_err : ℕ
  pub flag_safe_access : ℕ
  pub lasttime_sa : ℕ
  pub status : Status
  pub req_len : ℕ
  pub req_buf : List ℕ
  pub lasttime_recv : ℕ
  pub timer_ref : ℕ
  pub timer_running : Bool
  pub timer_period : Option ℕ

-- `sizeof(req_buf)`
abbrev pub framelen : ℕ
framelen = 256

-- The first argument is `GetSysClock()`. A division by the baud rate 0 is undefined: `none`.
unfoldable pub modbus_t05_cnt : ℕ → ℕ → Option ℕ
modbus_t05_cnt clock baudrate =
    if leb baudrate 19200
    then (if baudrate == 0 then none else some (u32 (clock * 5) / baudrate))
    else some (u32 (clock / 1000000 * 750))

-- `TMR0_TimerInit(modbus_t05_cnt(mb_slave_ctx.baudrate))`: it sets the period and starts the count.
unfoldable pub timer_init : ℕ → Slave → Slave
timer_init clock s = record s {
  timer_running = true;
  timer_period = modbus_t05_cnt clock s.baudrate;
}

unfoldable pub modbus_timer_enable : ℕ → Slave → Slave
unfolding timer_init
modbus_timer_enable clock s =
    let s₁ = if s.timer_running then s else timer_init clock s in
    record s₁ { timer_ref = u8 (s₁.timer_ref + 1) }

-- An int8_t is at most 0 if it is 0 or its sign bit is set.
unfoldable pub modbus_timer_disable : Slave → Slave
modbus_timer_disable s =
    let ref = u8 (s.timer_ref + 255) in
    if ref == 0 || leb 128 ref
    then record s { timer_ref = ref; timer_running = false }
    else record s { timer_ref = ref }

unfoldable pub modbus_slave_set_idle : Slave → Slave
modbus_slave_set_idle s = record s { flag_frame_err = 0; tcnt = 0; req_len = 0; status = idle }

-- The `switch` of the timer's handler, after `tcnt ++`.
tick_in : Status → Slave → Slave
tick_in init s = if leb 7 s.tcnt then record s { tcnt = 0; status = idle } else s
tick_in idle s = record s { tcnt = 0 }
tick_in recv_finish s = record s { tcnt = 0 }
tick_in recv s = if leb 3 s.tcnt then record s { status = ctrl_and_waiting } else s
tick_in ctrl_and_waiting s =
    if leb 7 s.tcnt
    then modbus_timer_disable (
        if s.flag_frame_err == 0
        then record s { status = recv_finish }
        else modbus_slave_set_idle s)
    else s

unfoldable pub tmr0_irq_handler : Slave → Slave
unfolding tick_in modbus_timer_disable modbus_slave_set_idle
tmr0_irq_handler s = tick_in s.status (record s { tcnt = u32 (s.tcnt + 1) })

-- The `switch` of `slave_recv`. In the first two states nothing checks the index.
recv_in : Status → ℕ → Slave → Slave
recv_in init d s = record s {
  tcnt = 0;
  status = recv;
  req_buf = set s.req_buf s.req_len d;
  req_len = s.req_len + 1;
}
recv_in idle d s = record s {
  tcnt = 0;
  status = recv;
  req_buf = set s.req_buf s.req_len d;
  req_len = s.req_len + 1;
}
recv_in recv d s =
    if ltb s.req_len framelen
    then record s { tcnt = 0; req_buf = set s.req_buf s.req_len d; req_len = s.req_len + 1 }
    else record s { tcnt = 0 }
recv_in ctrl_and_waiting d s = record s { tcnt = 0; flag_frame_err = 1 }
recv_in recv_finish d s = s

unfoldable pub slave_recv : ℕ → ℕ → Slave → Slave
unfolding recv_in timer_init modbus_timer_enable
slave_recv clock d s =
    let stoped = s.timer_running in
    let s₁ = if stoped then record s { timer_running = false } else s in
    let s₂ = recv_in s₁.status d s₁ in
    let s₃ = if stoped then timer_init clock s₂ else s₂ in
    if s₃.req_len == 1 then modbus_timer_enable clock s₃ else s₃

-- What `UART3_GetITFlag` tells.
pub data UartFlag : Type 0 where
  line_stat recv_rdy recv_tout thr_empty modem_chg other : UartFlag

recv_all : ℕ → List ℕ → Slave → Slave
recv_all clock [] s = s
recv_all clock (d ∷ ds) s = recv_all clock ds (slave_recv clock d s)

-- The list is what the receive FIFO holds until it is empty.
unfoldable pub uart3_irq_handler : ℕ → UartFlag → List ℕ → Slave → Slave
unfolding recv_all
uart3_irq_handler clock recv_rdy fifo s = recv_all clock fifo s
uart3_irq_handler clock recv_tout fifo s = recv_all clock fifo s
uart3_irq_handler clock _ fifo s = s

-- What `buffer->data` becomes: the response buffer, or NULL.
pub data Buffer : Type 0 where
  null resp_buf : Buffer

unfoldable pub modbus_slave_allocator : ℕ → Error × Buffer
modbus_slave_allocator size =
    if size == 0 then (ok, null) else if ltb 256 size then (error_alloc, null) else (ok, resp_buf)

unfoldable pub modbus_is_receiving : Slave → ℕ
modbus_is_receiving s = elim s.status [ recv ↦ 1 | _ ↦ 0 ]

-- `now` is `worktime_get()`.
unfoldable pub modbus_sa_ctrl : ℕ → ℕ → Slave → Slave
modbus_sa_ctrl now enable s =
    let s₁ = record s { flag_safe_access = if enable == 0 then 0 else 1 } in
    if enable == 0 then s₁ else record s₁ { lasttime_sa = now }

unfoldable pub modbus_lasttime_recv : Slave → ℕ
modbus_lasttime_recv s = s.lasttime_recv

-- `memset(&mb_slave_ctx, 0, sizeof(mb_slave_ctx_t))`; the timer and its counter lie outside.
unfoldable pub cleared : Slave → Slave
cleared s = record s {
  address = 0;
  baudrate = 0;
  tcnt = 0;
  flag_frame_err = 0;
  flag_safe_access = 0;
  lasttime_sa = 0;
  status = init;
  req_len = 0;
  req_buf = replicate framelen 0;
  lasttime_recv = 0;
}

-- `addr` and `baudrate` are what the configuration gives (`none` where its getter fails: then the
-- values that the variables were initialised with); `lib_ok` is the result of `modbusSlaveInit`.
unfoldable pub modbus_slave_init : Option ℕ → Option ℕ → Bool → Slave → Bool × Slave
unfolding cleared
modbus_slave_init addr baudrate lib_ok s =
    let a₀ : ℕ = elim addr [ none ↦ 20 | some a ↦ a ] in
    let a = if a₀ == 0 then 20 else a₀ in
    let rate : ℕ = elim baudrate [ none ↦ 0 | some b ↦ b ] in
    let s₁ = record (cleared s) { address = a; baudrate = rate } in (lib_ok, s₁)

-- `modbus_timer_init`: the interrupt is enabled and the counter stopped.
unfoldable pub modbus_timer_init : Slave → Slave
modbus_timer_init s = record s { timer_running = false }
