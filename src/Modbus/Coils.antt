-- ===== src/Modbus/Coils.antt =====
-- The coils of src/modbus/coils.c: the loops of the discrete inputs over the table `mb_coils`,
-- which is empty, and the write query with its hooks.
use ch582_water_jinru.Common.{
  ℕ, ◌-◌, ◌/◌, ◌%◌, Option, none, some, List, [], ◌∷◌, ◌+◌, ◌==◌, if◌then◌else◌, get_or, replicate,
}
use ch582_water_jinru.Common.Bits.{bit_at}
use ch582_water_jinru.Modbus.Types.{
  DataType, coil, Query, r_check, w_check, r, w, Error, ok, error_index, Args, Out, Hook, Callbacks,
}
use ch582_water_jinru.Modbus.Inputs.{Segment, in_segment, put_bit}

-- `mb_coils`
abbrev pub mb_coils : List Segment
mb_coils = []

unfoldable pub mb_coils_init : List Segment → List Segment
mb_coils_init [] = []
mb_coils_init (s ∷ segs) = record s { content = replicate ((s.len + 7) / 8) 0 } ∷ mb_coils_init segs

unfoldable pub modbus_coil_read : ℕ → List Segment → ℕ
modbus_coil_read index [] = 0
modbus_coil_read index (s ∷ segs) =
    if in_segment index s
    then (let idx = index - s.start in bit_at (get_or s.content (idx / 8) 0) (idx % 8))
    else modbus_coil_read index segs

unfoldable pub modbus_coil_write : ℕ → ℕ → List Segment → List Segment
modbus_coil_write index value [] = []
modbus_coil_write index value (s ∷ segs) =
    (if in_segment index s then put_bit index value s else s) ∷ modbus_coil_write index value segs

unfoldable pub modbus_coil_r_check : ℕ → List Segment → ℕ
modbus_coil_r_check index [] = 0
modbus_coil_r_check index (s ∷ segs) =
    if in_segment index s then 1 else modbus_coil_r_check index segs

unfoldable pub modbus_coil_w_check : ℕ → List Segment → ℕ
modbus_coil_w_check index [] = 0
modbus_coil_w_check index (s ∷ segs) =
    if in_segment index s then 1 else modbus_coil_w_check index segs

-- The update that the firmware makes: the loop of `modbus_coil_write`.
unfoldable pub modbus_coil_update : ℕ → ℕ → List Segment → List Segment
modbus_coil_update addr value [] = []
modbus_coil_update addr value (s ∷ segs) =
    (if in_segment addr s then put_bit addr value s else s) ∷ modbus_coil_update addr value segs

-- Where the table lies in the state that the hooks may change.
pub record HasCoils (S : Type 0) : Type 0 where
  pub coils : S → List Segment
  pub with_coils : List Segment → S → S

module _ {S : Type 0} (h : HasCoils S) (cbs : Callbacks S) where
  abbrev call_hook : Option (Hook S) → ℕ → ℕ → S → ℕ × S
  call_hook none addr value s = (0, s)
  call_hook (some f) addr value s = f addr value s

  -- `case MODBUS_REGQ_W` for the type MODBUS_COIL
  abbrev coil_write_query : ℕ → ℕ → S → S
  coil_write_query index value s =
      let (stop, s₁) = call_hook cbs.before_coil_write index value s in
      if stop == 0
      then (call_hook cbs.after_coil_write index value
          (h.with_coils (modbus_coil_write index value (h.coils s₁)) s₁)).1
      else s₁

  coil_write_if : DataType → ℕ → ℕ → S → S
  coil_write_if coil index value s = coil_write_query index value s
  coil_write_if _ index value s = s

  coil_query : Query → DataType → ℕ → ℕ → Out → S → Error × Out × S
  unfolding coil_write_if
  coil_query r_check type index value out s =
      (if modbus_coil_r_check index (h.coils s) == 0 then error_index else ok, out, s)
  coil_query r type index value out s =
      (ok, record out { value = modbus_coil_read index (h.coils s) }, s)
  coil_query w_check type index value out s =
      (if modbus_coil_w_check index (h.coils s) == 0 then error_index else ok, out, s)
  coil_query w type index value out s = (ok, out, coil_write_if type index value s)

  unfoldable pub modbus_coil_callback : Args → Out → S → Error × Out × S
  unfolding coil_query
  modbus_coil_callback args out s = coil_query args.query args.type args.index args.value out s
