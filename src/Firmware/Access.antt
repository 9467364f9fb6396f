-- ===== src/Firmware/Access.antt =====
-- Writes of a master to the self-test registers and to the safe-access register, through the register
-- callback with the hooks of src/sensor.c.
use ch582_water_jinru.Common.{
  ℕ, ◌-◌, ◌≡◌, refl, sym, ap, ◌∙◌, inl, inr, ◌==◌, ==_iff, if◌then◌else◌, arith, Bool-cases,
}
use ch582_water_jinru.Modbus.Types.{Error, ok, error_index, w_check, w, Out}
use ch582_water_jinru.Modbus.Regs.{
  RegMap, addr_test_1, addr_test_2, modbus_reg_callback, modbus_reg_update, modbus_reg_write,
  modbus_reg_get,
}
use ch582_water_jinru.Modbus.Regs.Laws.{IsSized, modbus_reg_update-IsSized, modbus_reg_get-update}
use ch582_water_jinru.Modbus.Regs.Access.{
  IsTable, headers, headers-update, holding, InBank, w_check_allows, test_bank_readable,
}
use ch582_water_jinru.Modbus.Slave.{modbus_sa_ctrl}
use ch582_water_jinru.Storage.{Eeprom}
use ch582_water_jinru.Firmware.{Firmware, firmware_regs, addr_safe_access}
use ch582_water_jinru.Firmware.Sensor.{
  mb_cbs, mb_reg_after_write, after_write_of, unlock_code, test_pattern,
}

-- A write request of a master, with the hooks that the firmware registers.
abbrev pub written : (E : Eeprom) → ℕ → ℕ → Out → Firmware E → Firmware E
written E addr value out f =
    (modbus_reg_callback (firmware_regs E) (mb_cbs E) (record (holding addr value) { query = w })
      out f).2

module _ (E : Eeprom) where
  pub written_lem :
      (addr value : ℕ) (out : Out) (f : Firmware E)
      → written E addr value out f
        ≡ after_write_of E addr value (record f { regs = modbus_reg_update addr value f.regs })
  unfolding modbus_reg_callback modbus_reg_write mb_reg_after_write
  written_lem addr value out f = refl

  get_updated :
      (addr value : ℕ) (segs : RegMap)
      → IsSized segs
      → IsTable segs
      → InBank 65530 2 addr
      → modbus_reg_get addr (modbus_reg_update addr value segs) ≡ value
  get_updated addr value segs z t i =
      modbus_reg_get-update addr addr value segs z
      ∙ rw (test_bank_readable addr segs i t, (==_iff addr addr).1 refl)

  update_twice :
      (addr first value : ℕ) (segs : RegMap)
      → IsSized segs
      → IsTable segs
      → InBank 65530 2 addr
      → modbus_reg_get addr (modbus_reg_update addr value (modbus_reg_update addr first segs))
        ≡ value
  update_twice addr first value segs z t i =
      get_updated addr value (modbus_reg_update addr first segs)
        (modbus_reg_update-IsSized addr first segs z) (headers-update addr first segs ∙ t) i

  pattern_kept :
      (value : ℕ) (f : Firmware E)
      → IsSized f.regs
      → IsTable f.regs
      → modbus_reg_get addr_test_1
          (after_write_of E addr_test_1 value
            (record f { regs = modbus_reg_update addr_test_1 value f.regs })).regs
        ≡ test_pattern
  unfolding after_write_of
  pattern_kept value f z t = elim (Bool-cases (value == test_pattern)) [
    | inl e ↦
        rw e
          (get_updated addr_test_1 value f.regs z t (omega arith) ∙ (==_iff value test_pattern).0 e)
    | inr e ↦ rw e (update_twice addr_test_1 value test_pattern f.regs z t (omega arith))
  ]

  inverted :
      (value : ℕ) (f : Firmware E)
      → IsSized f.regs
      → IsTable f.regs
      → modbus_reg_get addr_test_2
          (after_write_of E addr_test_2 value
            (record f { regs = modbus_reg_update addr_test_2 value f.regs })).regs
        ≡ 65535 - value
  unfolding after_write_of
  inverted value f z t = update_twice addr_test_2 value (65535 - value) f.regs z t (omega arith)

  flag_of : ℕ → ℕ → ℕ
  flag_of value old = if value == unlock_code then 1 else if value == 0 then 0 else old

  flag_written :
      (value : ℕ) (f : Firmware E)
      → (after_write_of E addr_safe_access value f).slave.flag_safe_access
        ≡ flag_of value f.slave.flag_safe_access
  unfolding after_write_of modbus_sa_ctrl flag_of
  flag_written value f = elim (Bool-cases (value == unlock_code)) [
    | inl e ↦ rw e
    | inr e ↦ elim (Bool-cases (value == 0)) [ inl e' ↦ rw (e, e') | inr e' ↦ rw (e, e') ]
  ]

  pub regs_written :
      (value : ℕ) (f : Firmware E) → (after_write_of E addr_safe_access value f).regs ≡ f.regs
  unfolding after_write_of
  regs_written value f = elim (Bool-cases (value == unlock_code)) [
    | inl e ↦ rw e
    | inr e ↦ elim (Bool-cases (value == 0)) [ inl e' ↦ rw (e, e') | inr e' ↦ rw (e, e') ]
  ]

-- Whatever a master writes, the first self-test register reads 0x5AA5 afterwards, and the second
-- reads the complement of what was written to it.
pub self_test :
    (E : Eeprom) (value : ℕ) (out : Out) (f : Firmware E)
    → IsSized f.regs
    → IsTable f.regs
    → (modbus_reg_get addr_test_1 (written E addr_test_1 value out f).regs ≡ test_pattern)
      × (modbus_reg_get addr_test_2 (written E addr_test_2 value out f).regs ≡ 65535 - value)
self_test E value out f z t = (
  ap (λ g. modbus_reg_get addr_test_1 g.regs) (written_lem E addr_test_1 value out f)
      ∙ pattern_kept E value f z t,
  ap (λ g. modbus_reg_get addr_test_2 g.regs) (written_lem E addr_test_2 value out f)
      ∙ inverted E value f z t,
)

abbrev pub check : (E : Eeprom) → ℕ → Out → Firmware E → Error
check E index out g =
    (modbus_reg_callback (firmware_regs E) (mb_cbs E) (record (holding index 0) { query = w_check })
      out g).0

unfoldable pub verdict : ℕ → Error
verdict flag = if flag == 0 then error_index else ok

-- In the protected bank the write check tells the flag.
pub check_flag :
    (E : Eeprom) (index : ℕ) (out : Out) (g : Firmware E)
    → IsTable g.regs
    → InBank 65500 15 index
    → check E index out g ≡ verdict g.slave.flag_safe_access
unfolding verdict
check_flag E index out g t i =
    let (allowed, refused, _) = w_check_allows (firmware_regs E) (mb_cbs E) index 0 out g t in
    elim (Bool-cases (g.slave.flag_safe_access == 0)) [
      | inl off ↦ rw off (refused (λ w. ground arith))
      | inr on ↦ rw on (allowed.1 (ground arith))
    ]

verdict-flag_of :
    (E : Eeprom) (value old : ℕ)
    → verdict (flag_of E value old)
      ≡ (if value == unlock_code then ok else if value == 0 then error_index else verdict old)
unfolding verdict flag_of
verdict-flag_of E value old = elim (Bool-cases (value == unlock_code)) [
  | inl e ↦ rw e
  | inr e ↦ elim (Bool-cases (value == 0)) [ inl e' ↦ rw (e, e') | inr e' ↦ rw (e, e') ]
]

-- A master that writes 0x3736 to the safe-access register may write every register of the protected
-- bank afterwards, and after it has written 0 none of them; any other value changes neither.
pub safe_access_switched :
    (E : Eeprom) (value index : ℕ) (out : Out) (f : Firmware E)
    → IsTable f.regs
    → InBank 65500 15 index
    → check E index out (written E addr_safe_access value out f) ≡ (
        if value == unlock_code
        then ok
        else if value == 0
        then error_index
        else check E index out f)
safe_access_switched E value index out f t i =
    let stored = record f { regs = modbus_reg_update addr_safe_access value f.regs } in
    let table : IsTable (written E addr_safe_access value out f).regs =
      ap (λ g. headers g.regs) (written_lem E addr_safe_access value out f)
      ∙ ap headers (regs_written E value stored)
      ∙ headers-update addr_safe_access value f.regs
      ∙ t in
    check_flag E index out (written E addr_safe_access value out f) table i
    ∙ ap (λ g. verdict g.slave.flag_safe_access) (written_lem E addr_safe_access value out f)
    ∙ ap verdict (flag_written E value stored)
    ∙ verdict-flag_of E value f.slave.flag_safe_access
    ∙ ap (λ e. if value == unlock_code then ok else if value == 0 then error_index else e)
        (sym (check_flag E index out f t i))
