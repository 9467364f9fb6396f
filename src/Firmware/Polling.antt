-- ===== src/Firmware/Polling.antt =====
-- The polling of src/modbus.c: what happens to a complete frame, and the end of safe access.
use ch582_water_jinru.Common.{
  ℕ, ◌+◌, ◌≤◌, ◌≡◌, refl, sym, ap, ◌∙◌, ◌⊎◌, inl, inr, true, false, List, [], ◌∷◌, ◌++◌, ◌==◌,
  le→leb, ==_iff, if◌then◌else◌, length, arith, Bool-cases,
}
use mathlib.Core.List.{append-nil}
use mathlib.Core.Path.{subst}
use ch582_water_jinru.Modbus.Types.{Error, error_index, w_check, Out, Callbacks}
use ch582_water_jinru.Modbus.Regs.{modbus_reg_callback}
use ch582_water_jinru.Modbus.Regs.Access.{IsTable, headers-update, holding, InBank, w_check_allows}
use ch582_water_jinru.Modbus.Slave.{init, idle, recv_finish, Slave, framelen, modbus_slave_set_idle}
use ch582_water_jinru.Modbus.Slave.Invariant.{IsValid}
use ch582_water_jinru.Modbus.Slave.Frames.{ticks, feed, bytes, AllShort, received, frame_received}
use ch582_water_jinru.Storage.{Eeprom}
use ch582_water_jinru.Firmware.{
  Firmware, firmware_regs, modbus_slave_uart_send, modbus_frame_check, modbus_run, stamped, respond,
  is_address_error, is_finished, timed_out, revoke, worktime_since, addr_safe_access,
}

-- The frames that the UART sends in answer to one request.
abbrev pub reply :
    {E : Eeprom}
    → (ℕ → List ℕ → Firmware E → Error × List ℕ × Firmware E)
    → Error
    → List ℕ
    → List (List ℕ)
reply {E} parse err [] = []
reply {E} parse err (b ∷ bs) = if is_address_error E parse err then [] else (b ∷ bs) ∷ []

module _ (E : Eeprom) (parse : ℕ → List ℕ → Firmware E → Error × List ℕ × Firmware E) where
  abbrev pub answered : Error × List ℕ × Firmware E → List (List ℕ)
  answered (err, response, f) = f.sent ++ reply parse err response

  -- The receiver is ready for the next frame.
  pub record IsIdle (s : Slave) : Type 0 where
    pub status : s.status ≡ idle
    pub empty : s.req_len ≡ 0
    pub clean : s.flag_frame_err ≡ 0

  after_frame-IsIdle : (s : Slave) → IsIdle (modbus_slave_set_idle s)
  unfolding modbus_slave_set_idle
  after_frame-IsIdle s = record { status = refl; empty = refl; clean = refl }

  respond-sent : (r : Error × List ℕ × Firmware E) → (respond E parse r).sent ≡ answered r
  unfolding modbus_slave_uart_send
  respond-sent (err, [], f) = elim (Bool-cases (is_address_error E parse err)) [
    | inl e ↦ rw e (sym (append-nil f.sent))
    | inr e ↦ rw e (sym (append-nil f.sent))
  ]
  respond-sent (err, b ∷ bs, f) = elim (Bool-cases (is_address_error E parse err)) [
    | inl e ↦ rw e (sym (append-nil f.sent))
    | inr e ↦ rw e (ground arith)
  ]

  -- A frame that is complete and has no error goes to the parser of liblightmodbus with the slave's
  -- address, and its response, if there is one and the frame was not for another address, is the
  -- one thing that is sent after what the parser's callbacks sent; a frame with an error sends
  -- nothing. Either way the receiver is ready for the next frame.
  modbus_frame_check_lem :
      (f : Firmware E)
      → f.slave.status ≡ recv_finish
      → let g = modbus_frame_check E parse f in
        IsIdle g.slave
        × (g.sent ≡ (
            if f.slave.flag_frame_err == 0
            then answered (parse f.slave.address (received f.slave) (stamped E parse f))
            else f.sent))
  unfolding modbus_frame_check
  modbus_frame_check_lem f e = elim (Bool-cases (f.slave.flag_frame_err == 0)) [
    | inl clean ↦ rw (e, clean) (after_frame-IsIdle _, respond-sent _)
    | inr broken ↦ rw (e, broken) (after_frame-IsIdle _, refl)
  ]

if_zero : {A : Type 0} (n : ℕ) (x y : A) → n ≡ 0 → (if n == 0 then x else y) ≡ x
if_zero n x y e = rw e

-- A frame of at most 256 bytes with fewer than three timer periods between its bytes, sent to a
-- receiver that is idle or newly set up, and seven periods of silence after it: the next
-- `modbus_frame_check` gives the parser exactly these bytes, sends its answer, and is ready again.
pub request_answered :
    (E : Eeprom) (parse : ℕ → List ℕ → Firmware E → Error × List ℕ × Firmware E) (clock d k n : ℕ)
    (rest : List (ℕ × ℕ)) (f : Firmware E)
    → IsValid f.slave
    → (f.slave.status ≡ idle) ⊎ (f.slave.status ≡ init)
    → AllShort ((d, k) ∷ rest)
    → length (bytes ((d, k) ∷ rest)) ≤ framelen
    → (feed clock ((d, k) ∷ rest) f.slave).tcnt + n ≡ 7
    → let t = record f { slave = ticks n (feed clock ((d, k) ∷ rest) f.slave) } in
      let g = modbus_frame_check E parse t in
      IsIdle E parse g.slave
      × (g.sent
          ≡ answered E parse (parse t.slave.address (bytes ((d, k) ∷ rest)) (stamped E parse t)))
request_answered E parse clock d k n rest f v st a h e =
    let t = record f { slave = ticks n (feed clock ((d, k) ∷ rest) f.slave) } in
    let (finished, clean, content) = frame_received clock d k n rest f.slave v st a h e in
    let (ready, sent) = modbus_frame_check_lem E parse t finished in
    (
      ready,
      sent
          ∙ if_zero t.slave.flag_frame_err _ f.sent clean
          ∙ ap (λ frame. answered E parse (parse t.slave.address frame (stamped E parse t)))
              content,
    )

-- What polling does when no frame is complete.
pub run_idle :
    (E : Eeprom) (parse : ℕ → List ℕ → Firmware E → Error × List ℕ × Firmware E) (f : Firmware E)
    → is_finished E parse f.slave.status ≡ false
    → modbus_run E parse f ≡ (if timed_out E parse f then revoke E parse f else f)
unfolding modbus_run modbus_frame_check
run_idle E parse f h = elim (Bool-cases (timed_out E parse f)) [
  | inl e ↦ rw (e, h)
  | inr e ↦ rw (e, h)
]

abbrev Refused : (E : Eeprom) → Callbacks (Firmware E) → ℕ → ℕ → Out → Firmware E → Type 0
Refused E cbs index value out g =
    (modbus_reg_callback (firmware_regs E) cbs (record (holding index value) { query = w_check })
      out g).0
    ≡ error_index

refused :
    (E : Eeprom) (cbs : Callbacks (Firmware E)) (index value : ℕ) (out : Out) (g : Firmware E)
    → IsTable g.regs
    → g.slave.flag_safe_access ≡ 0
    → InBank 65500 15 index
    → Refused E cbs index value out g
refused E cbs index value out g t off i =
    (w_check_allows (firmware_regs E) cbs index value out g t).1 (λ w. ground arith)

not_late :
    (E : Eeprom) (parse : ℕ → List ℕ → Firmware E → Error × List ℕ × Firmware E) (f : Firmware E)
    → (f.slave.flag_safe_access == 0) ≡ true
    → (if timed_out E parse f then revoke E parse f else f) ≡ f
not_late E parse f off = rw off

pub too_late :
    (E : Eeprom) (parse : ℕ → List ℕ → Firmware E → Error × List ℕ × Firmware E) (f : Firmware E)
    → (f.slave.flag_safe_access == 0) ≡ false
    → 3000 ≤ worktime_since f.worktime f.slave.lasttime_sa
    → (if timed_out E parse f then revoke E parse f else f) ≡ revoke E parse f
too_late E parse f on late =
    rw (on, le→leb 3000 (worktime_since f.worktime f.slave.lasttime_sa) late)

-- Three seconds after safe access was granted, a polling with no complete frame takes it back: the
-- write check of a master then answers MODBUS_ERROR_INDEX for every register of the protected bank.
pub protected_after_timeout :
    (E : Eeprom) (parse : ℕ → List ℕ → Firmware E → Error × List ℕ × Firmware E)
    (cbs : Callbacks (Firmware E)) (index value : ℕ) (out : Out) (f : Firmware E)
    → IsTable f.regs
    → is_finished E parse f.slave.status ≡ false
    → 3000 ≤ worktime_since f.worktime f.slave.lasttime_sa
    → InBank 65500 15 index
    → (modbus_reg_callback
        (firmware_regs E)
        cbs
        (record (holding index value) { query = w_check })
        out
        (modbus_run E parse f)).0
      ≡ error_index
protected_after_timeout E parse cbs index value out f t h late i =
    elim (Bool-cases (f.slave.flag_safe_access == 0)) [
      | inl off ↦
          subst (Refused E cbs index value out)
            (sym (run_idle E parse f h ∙ not_late E parse f off))
            (refused E cbs index value out f t ((==_iff f.slave.flag_safe_access 0).0 off) i)
      | inr on ↦
          subst (Refused E cbs index value out)
            (sym (run_idle E parse f h ∙ too_late E parse f on late))
            (refused E cbs index value out (revoke E parse f)
              (headers-update addr_safe_access 0 f.regs ∙ t) refl i)
    ]
