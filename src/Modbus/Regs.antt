-- ===== src/Modbus/Regs.antt =====
-- The holding registers of src/modbus/regs.c and include/modbus/regs.h. The segment table
-- `mb_reg_segs` is a list; what a write does is stated in the children.
pub mod Laws
pub mod Access
use ch582_water_jinru.Common.{
  ℕ, ◌+◌, ◌-◌, ◌*◌, ◌/◌, ◌%◌, Bool, true, false, ◌&&◌, Option, none, some, List, [], ◌∷◌, map, ltb,
  leb, ◌==◌, if◌then◌else◌, length, get_or, set, take, replicate, splice, min, ◌≡◌,
}
use ch582_water_jinru.Modbus.Types.{
  DataType, holding_register, Query, r_check, w_check, r, w, Error, ok, error_function, error_index,
  Args, Out, Hook, Callbacks,
}

-- `mb_reg_perm_t`; the union `mb_seg_type_t` keeps the member that is initialised last.
abbrev pub perm_r : ℕ
perm_r = 0

abbrev pub perm_rw : ℕ
perm_rw = 1

abbrev pub perm_rwa : ℕ
perm_rwa = 2

-- `mb_reg_segment_t`
pub record Segment : Type 0 where
  pub access_perm : ℕ
  pub addr_start : ℕ
  pub len : ℕ
  pub content : List ℕ

abbrev pub RegMap : Type 0
RegMap = List Segment

-- The addresses of `mb_reg_addr_t` that the firmware names.
abbrev pub addr_app_state : ℕ
addr_app_state = 0

abbrev pub addr_version_h : ℕ
addr_version_h = 1

abbrev pub addr_version_l : ℕ
addr_version_l = 2

abbrev pub addr_uid_7 : ℕ
addr_uid_7 = 4

abbrev pub addr_uid_0 : ℕ
addr_uid_0 = 11

abbrev pub addr_app_vid : ℕ
addr_app_vid = 12

abbrev pub addr_app_pid : ℕ
addr_app_pid = 13

abbrev pub addr_worktime_h : ℕ
addr_worktime_h = 14

abbrev pub addr_worktime_l : ℕ
addr_worktime_l = 15

abbrev pub addr_opt_ctrl : ℕ
addr_opt_ctrl = 128

abbrev pub addr_safe_access_ctrl : ℕ
addr_safe_access_ctrl = 134

abbrev pub addr_baudrate_h : ℕ
addr_baudrate_h = 65501

abbrev pub addr_baudrate_l : ℕ
addr_baudrate_l = 65502

abbrev pub addr_test_1 : ℕ
addr_test_1 = 65530

abbrev pub addr_test_2 : ℕ
addr_test_2 = 65531

abbrev segment : ℕ → ℕ → ℕ → Segment
segment perm start n = record {
  access_perm = perm;
  addr_start = start;
  len = n;
  content = replicate n 0;
}

-- `mb_reg_segs`, with the static arrays zeroed: the read-only, configuration, protected and test
-- banks. No segment covers MB_REG_ADDR_WARN_RCD_BASE.
unfoldable pub mb_reg_segs : RegMap
mb_reg_segs =
    segment perm_r 0 112
    ∷ segment perm_rw 128 7
    ∷ segment perm_rwa 65500 15
    ∷ segment perm_rw 65530 2
    ∷ []

-- The test that every loop over the table makes.
abbrev pub in_segment : ℕ → Segment → Bool
in_segment addr s = leb s.addr_start addr && ltb addr (s.addr_start + s.len)

-- The store `mb_reg_segs[i].content[addr - mb_reg_segs[i].addr_start] = value`.
abbrev pub store : ℕ → ℕ → Segment → Segment
store addr value s = record s { content = set s.content (addr - s.addr_start) value }

unfoldable pub modbus_reg_update : ℕ → ℕ → RegMap → RegMap
modbus_reg_update addr value [] = []
modbus_reg_update addr value (s ∷ segs) =
    (if in_segment addr s then store addr value s else s) ∷ modbus_reg_update addr value segs

unfoldable pub modbus_reg_get : ℕ → RegMap → ℕ
modbus_reg_get addr [] = 0
modbus_reg_get addr (s ∷ segs) =
    if in_segment addr s then get_or s.content (addr - s.addr_start) 0 else modbus_reg_get addr segs

-- The pointer returned is the number of the segment and the index in its array; `none` is NULL.
buf_addr_from : ℕ → ℕ → RegMap → Option (ℕ × ℕ)
buf_addr_from i addr [] = none
buf_addr_from i addr (s ∷ segs) =
    if in_segment addr s then some (i, addr - s.addr_start) else buf_addr_from (i + 1) addr segs

unfoldable pub modbus_reg_buf_addr : ℕ → RegMap → Option (ℕ × ℕ)
unfolding buf_addr_from
modbus_reg_buf_addr addr segs = buf_addr_from 0 addr segs

-- The write of a master's request: statement for statement the loop of `modbus_reg_update`, with
-- the result 0.
unfoldable pub modbus_reg_write : ℕ → ℕ → RegMap → ℕ × RegMap
modbus_reg_write addr value segs = (0, modbus_reg_update addr value segs)

unfoldable pub modbus_reg_read : ℕ → RegMap → ℕ
modbus_reg_read addr [] = 0
modbus_reg_read addr (s ∷ segs) =
    if in_segment addr s
    then get_or s.content (addr - s.addr_start) 0
    else modbus_reg_read addr segs

-- The `switch` on the permission of the segment found; `flag` is `sctx->flag_safe_access`.
abbrev pub may_write : ℕ → ℕ → ℕ
may_write perm flag =
    if perm == perm_r
    then 0
    else if perm == perm_rw
    then 1
    else if perm == perm_rwa
    then flag
    else 0

unfoldable pub modbus_reg_w_check : ℕ → ℕ → RegMap → ℕ
modbus_reg_w_check index flag [] = 0
modbus_reg_w_check index flag (s ∷ segs) =
    if in_segment index s then may_write s.access_perm flag else modbus_reg_w_check index flag segs

unfoldable pub modbus_reg_r_check : ℕ → RegMap → ℕ
modbus_reg_r_check index [] = 0
modbus_reg_r_check index (s ∷ segs) =
    if in_segment index s then 1 else modbus_reg_r_check index segs

-- What the callback needs of the state that the hooks may change: where the registers and the
-- flag of the slave context lie in it.
pub record HasRegs (S : Type 0) : Type 0 where
  pub regs : S → RegMap
  pub with_regs : RegMap → S → S
  pub flag_safe_access : S → ℕ

-- What a client relies on in the place where the registers lie in its state.
pub record IsLawful {S : Type 0} (h : HasRegs S) : Type 0 where
  pub regs_with : (segs : RegMap) (s : S) → h.regs (h.with_regs segs s) ≡ segs
  pub flag_with :
      (segs : RegMap) (s : S) → h.flag_safe_access (h.with_regs segs s) ≡ h.flag_safe_access s

module _ {S : Type 0} (h : HasRegs S) (cbs : Callbacks S) where
  -- A hook that is null does nothing and reports 0.
  abbrev pub call_hook : Option (Hook S) → ℕ → ℕ → S → ℕ × S
  call_hook none addr value s = (0, s)
  call_hook (some f) addr value s = f addr value s

  -- `case MODBUS_REGQ_W`: the hook before may stop the write; the one after runs last.
  abbrev pub reg_write_query : ℕ → ℕ → S → S
  reg_write_query index value s =
      let (stop, s₁) = call_hook cbs.before_reg_write index value s in
      if stop == 0
      then (let (ret, segs) = modbus_reg_write index value (h.regs s₁) in
          let s₂ = h.with_regs segs s₁ in
          if ret == 0 then (call_hook cbs.after_reg_write index value s₂).1 else s₂)
      else s₁

  -- The body for MODBUS_HOLDING_REGISTER.
  holding_query : Query → ℕ → ℕ → Out → S → Error × Out × S
  holding_query r_check index value out s =
      (if modbus_reg_r_check index (h.regs s) == 0 then error_index else ok, out, s)
  holding_query r index value out s =
      (ok, record out { value = modbus_reg_read index (h.regs s) }, s)
  holding_query w_check index value out s = (
    if modbus_reg_w_check index (h.flag_safe_access s) (h.regs s) == 0 then error_index else ok,
    out,
    s,
  )
  holding_query w index value out s = (ok, out, reg_write_query index value s)

  reg_dispatch : DataType → Query → ℕ → ℕ → Out → S → Error × Out × S
  unfolding holding_query
  reg_dispatch holding_register query index value out s = holding_query query index value out s
  reg_dispatch _ query index value out s = (error_function, out, s)

  -- `sctx` is the slave context, which `modbusSlaveSetUserPointer` has made non-null.
  unfoldable pub modbus_reg_callback : Args → Out → S → Error × Out × S
  unfolding reg_dispatch
  modbus_reg_callback args out s =
      reg_dispatch args.type args.query args.index args.value (record out { exception_code = 0 }) s

-- Two bytes a register, the low one first (the target is little-endian).
abbrev pub bytes_of : List ℕ → List ℕ
bytes_of [] = []
bytes_of (x ∷ xs) = (x % 256) ∷ (x / 256) ∷ bytes_of xs

abbrev pub words_of : List ℕ → List ℕ
words_of (a ∷ b ∷ rest) = (a + 256 * b) ∷ words_of rest
words_of _ = []

abbrev pub uid_maxlen : ℕ
uid_maxlen = (addr_uid_0 - addr_uid_7 + 1) * 2

abbrev put_uid : List ℕ → ℕ → List ℕ → List ℕ
put_uid uid n content =
    let at = if ltb n uid_maxlen then 2 * addr_uid_7 + (uid_maxlen - n) else 2 * addr_uid_7 in
    words_of (splice (bytes_of content) at (take (min n uid_maxlen) uid))

-- It writes into `mb_ro_regs`, the array of the first segment.
unfoldable pub modbus_reg_update_uid : List ℕ → ℕ → RegMap → RegMap
modbus_reg_update_uid uid n [] = []
modbus_reg_update_uid uid n (s ∷ segs) = record s { content = put_uid uid n s.content } ∷ segs

-- `memset` of every array in the table.
unfoldable pub modbus_regs_init : RegMap → RegMap
modbus_regs_init [] = []
modbus_regs_init (s ∷ segs) = record s { content = replicate s.len 0 } ∷ modbus_regs_init segs
