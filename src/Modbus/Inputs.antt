-- ===== src/Modbus/Inputs.antt =====
-- The discrete inputs of src/modbus/discrete_input.c: a table of packed bits, with the one segment
-- of the water-intrusion sensor (APP_PID is not 0).
pub mod Laws
use ch582_water_jinru.Common.{
  ℕ, ◌+◌, ◌-◌, ◌*◌, ◌/◌, ◌%◌, ◌^◌, Bool, ◌&&◌, List, [], ◌∷◌, ltb, leb, ◌==◌, if◌then◌else◌, get_or,
  set, replicate,
}
use ch582_water_jinru.Common.Bits.{bits_set, bits_clear, bit_at}
use ch582_water_jinru.Modbus.Types.{
  Query, r_check, r, Error, ok, error_index, error_function, Args, Out,
}

-- `mb_di_ctx_t`
pub record Segment : Type 0 where
  pub start : ℕ
  pub len : ℕ
  pub content : List ℕ

abbrev pub addr_wids : ℕ
addr_wids = 0

-- `mb_di_list`, with the static array zeroed.
unfoldable pub mb_di_list : List Segment
mb_di_list = record { start = 0; len = 1; content = replicate ((1 + 7) / 8) 0 } ∷ []

abbrev pub in_segment : ℕ → Segment → Bool
in_segment index s = leb s.start index && ltb index (s.start + s.len)

unfoldable pub mb_di_init : List Segment → List Segment
mb_di_init [] = []
mb_di_init (s ∷ segs) = record s { content = replicate ((s.len + 7) / 8) 0 } ∷ mb_di_init segs

unfoldable pub modbus_di_read : ℕ → List Segment → ℕ
modbus_di_read index [] = 0
modbus_di_read index (s ∷ segs) =
    if in_segment index s
    then (let idx = index - s.start in bit_at (get_or s.content (idx / 8) 0) (idx % 8))
    else modbus_di_read index segs

unfoldable pub modbus_di_r_check : ℕ → List Segment → ℕ
modbus_di_r_check index [] = 0
modbus_di_r_check index (s ∷ segs) = if in_segment index s then 1 else modbus_di_r_check index segs

-- The body of the loop for a segment that holds the address.
abbrev pub put_bit : ℕ → ℕ → Segment → Segment
put_bit addr value s =
    let idx = addr - s.start in
    let mask = 2 ^ (idx % 8) in
    let old = get_or s.content (idx / 8) 0 in
    record s {
      content =
          set s.content (idx / 8) (if value == 0 then bits_clear old mask else bits_set old mask);
    }

unfoldable pub modbus_di_update : ℕ → ℕ → List Segment → List Segment
modbus_di_update addr value [] = []
modbus_di_update addr value (s ∷ segs) =
    (if in_segment addr s then put_bit addr value s else s) ∷ modbus_di_update addr value segs

di_query : Query → ℕ → Out → List Segment → Error × Out
di_query r_check index out segs =
    (if modbus_di_r_check index segs == 0 then error_index else ok, out)
di_query r index out segs = (ok, record out { value = modbus_di_read index segs })
di_query _ index out segs = (error_function, out)

unfoldable pub modbus_di_callback : Args → Out → List Segment → Error × Out
unfolding di_query
modbus_di_callback args out segs = di_query args.query args.index out segs
