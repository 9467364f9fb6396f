-- ===== src/Firmware/Expiry.antt =====
-- How long the safe access of src/modbus.c lasts that a master has unlocked, by the clock of
-- src/worktime.c.
use ch582_water_jinru.Common.{
  ℕ, ◌+◌, ◌%◌, ◌^◌, ◌≤◌, ◌<◌, ◌≡◌, refl, sym, ap, ◌∙◌, inl, inr, false, List, [], ◌∷◌, ltb, ltb→lt,
  if◌then◌else◌, arith, Bool-cases,
}
use mathlib.Core.Path.{subst}
use ch582_water_jinru.Modbus.Types.{Error, ok, error_index, Out}
use ch582_water_jinru.Modbus.Regs.Access.{IsTable, headers-update, InBank}
use ch582_water_jinru.Modbus.Slave.{modbus_sa_ctrl}
use ch582_water_jinru.Storage.{Eeprom}
use ch582_water_jinru.Firmware.{
  Firmware, modbus_run, timed_out, revoke, is_finished, worktime_since, addr_safe_access,
}
use ch582_water_jinru.Firmware.Sensor.{unlock_code, after_write_of}
use ch582_water_jinru.Firmware.Access.{written, written_lem, check, verdict, check_flag}
use ch582_water_jinru.Firmware.Polling.{run_idle, too_late}

-- Every polling is less than three seconds after the grant.
abbrev pub AreEarly : List ℕ → Type 0
AreEarly [] = Unit {0}
AreEarly (d ∷ ds) = (d < 3000) × AreEarly ds

module _ (E : Eeprom) (parse : ℕ → List ℕ → Firmware E → Error × List ℕ × Firmware E) where
  -- One polling, `d` milliseconds after the time `since`; the clock has 64 bits.
  unfoldable pub polled : ℕ → ℕ → Firmware E → Firmware E
  polled since d f = modbus_run E parse (record f { worktime = (since + d) % 2 ^ 64 })

  unfoldable pub all_polled : ℕ → List ℕ → Firmware E → Firmware E
  unfolding polled
  all_polled since [] f = f
  all_polled since (d ∷ ds) f = all_polled since ds (polled since d f)

  -- Access was granted at the time `since`, and no frame is complete.
  record IsGranted (since : ℕ) (f : Firmware E) : Type 0 where
    flag : f.slave.flag_safe_access ≡ 1
    time : f.slave.lasttime_sa ≡ since
    waiting : is_finished E parse f.slave.status ≡ false
    table : IsTable f.regs

  elapsed :
      (since d : ℕ) → since < 2 ^ 64 → d < 2 ^ 64 → worktime_since ((since + d) % 2 ^ 64) since ≡ d
  unfolding worktime_since
  elapsed since d hs hd = omega arith

  -- The time since the grant, by the clock and the slave's note of it.
  granted_since :
      (since d : ℕ) (f : Firmware E)
      → since < 2 ^ 64
      → d < 2 ^ 64
      → IsGranted since f
      → worktime_since ((since + d) % 2 ^ 64) f.slave.lasttime_sa ≡ d
  granted_since since d f hs hd g =
      ap (λ t. worktime_since ((since + d) % 2 ^ 64) t) g.time ∙ elapsed since d hs hd

  early_poll :
      (since d : ℕ) (f : Firmware E)
      → since < 2 ^ 64
      → d < 3000
      → IsGranted since f
      → polled since d f ≡ record f { worktime = (since + d) % 2 ^ 64 }
  unfolding polled
  early_poll since d f hs hd g =
      let at = record f { worktime = (since + d) % 2 ^ 64 } in
      let young : timed_out E parse at ≡ false =
        rw (granted_since since d f hs (omega arith) g, g.flag) (ground arith) in
      run_idle E parse at g.waiting ∙ ap (λ b. if b then revoke E parse at else at) young

  late_poll :
      (since d : ℕ) (f : Firmware E)
      → since < 2 ^ 64
      → 3000 ≤ d
      → d < 2 ^ 64
      → IsGranted since f
      → polled since d f ≡ revoke E parse (record f { worktime = (since + d) % 2 ^ 64 })
  unfolding polled
  late_poll since d f hs late hd g =
      let at = record f { worktime = (since + d) % 2 ^ 64 } in
      let old = granted_since since d f hs hd g in
      run_idle E parse at g.waiting ∙ too_late E parse at (rw g.flag) (omega (arith, old, late))

  early_poll-IsGranted :
      (since d : ℕ) (f : Firmware E)
      → since < 2 ^ 64
      → d < 3000
      → IsGranted since f
      → IsGranted since (polled since d f)
  early_poll-IsGranted since d f hs hd g =
      subst (IsGranted since) (sym (early_poll since d f hs hd g))
        (record { flag = g.flag; time = g.time; waiting = g.waiting; table = g.table })

  all_polled-IsGranted :
      (since : ℕ) (ds : List ℕ) (f : Firmware E)
      → since < 2 ^ 64
      → AreEarly ds
      → IsGranted since f
      → IsGranted since (all_polled since ds f)
  unfolding all_polled
  all_polled-IsGranted since [] f hs h g = g
  all_polled-IsGranted since (d ∷ ds) f hs h g =
      all_polled-IsGranted since ds (polled since d f) hs h.1
        (early_poll-IsGranted since d f hs h.0 g)

  unlocked-IsGranted :
      (out : Out) (f : Firmware E)
      → IsTable f.regs
      → is_finished E parse f.slave.status ≡ false
      → IsGranted f.worktime (written E addr_safe_access unlock_code out f)
  unfolding after_write_of modbus_sa_ctrl
  unlocked-IsGranted out f t waiting =
      subst (IsGranted f.worktime) (sym (written_lem E addr_safe_access unlock_code out f))
        (record {
          flag = refl;
          time = refl;
          waiting = waiting;
          table = headers-update addr_safe_access unlock_code f.regs ∙ t;
        })

  check-polled :
      (since index d : ℕ) (out : Out) (f : Firmware E)
      → InBank 65500 15 index
      → since < 2 ^ 64
      → d < 2 ^ 64
      → IsGranted since f
      → check E index out (polled since d f) ≡ (if ltb d 3000 then ok else error_index)
  unfolding verdict
  check-polled since index d out f i hs hd g =
      let at = record f { worktime = (since + d) % 2 ^ 64 } in
      elim (Bool-cases (ltb d 3000)) [
        | inl young ↦
            ap (check E index out) (early_poll since d f hs (ltb→lt d 3000 young) g)
            ∙ check_flag E index out at g.table i
            ∙ rw (young, g.flag)
        | inr old ↦
            ap (check E index out) (late_poll since d f hs (ground arith) hd g)
            ∙ check_flag E index out (revoke E parse at)
                (headers-update addr_safe_access 0 f.regs ∙ g.table) i
            ∙ rw old
      ]

-- Over the table of the source: after a master has unlocked safe access while no frame is complete,
-- and any number of pollings within three seconds of that, a polling `d` milliseconds after it lets a
-- master write the protected bank exactly if `d` is below 3000, also where the 64 bits of the clock
-- wrap around.
pub access_lasts :
    (E : Eeprom) (parse : ℕ → List ℕ → Firmware E → Error × List ℕ × Firmware E) (index d : ℕ)
    (ds : List ℕ) (out : Out) (f : Firmware E)
    → IsTable f.regs
    → is_finished E parse f.slave.status ≡ false
    → f.worktime < 2 ^ 64
    → InBank 65500 15 index
    → AreEarly ds
    → d < 2 ^ 64
    → let unlocked = written E addr_safe_access unlock_code out f in
      check E index out (polled E parse f.worktime d (all_polled E parse f.worktime ds unlocked))
      ≡ (if ltb d 3000 then ok else error_index)
access_lasts E parse index d ds out f t waiting hs i early hd =
    let unlocked = written E addr_safe_access unlock_code out f in
    check-polled E parse f.worktime index d out (all_polled E parse f.worktime ds unlocked) i hs hd
      (all_polled-IsGranted E parse f.worktime ds unlocked hs early
        (unlocked-IsGranted E parse out f t waiting))
