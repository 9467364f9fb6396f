-- ===== src/Modbus/Regs/Laws.antt =====
-- The loops of src/modbus/regs.c against one array indexed by address.
use ch582_water_jinru.Common.{
  ℕ, ◌-◌, ◌≡◌, inl, inr, ◌&&◌, [], ◌∷◌, arith, ◌==◌, if◌then◌else◌, Bool-cases, length, get_or,
  length-set, get_or-set_self, get_or-set_ne,
}
use ch582_water_jinru.Modbus.Regs.{
  Segment, RegMap, mb_reg_segs, in_segment, store, modbus_reg_update, modbus_reg_get,
  modbus_reg_r_check,
}

-- Every segment's array has the length that the table gives.
abbrev pub IsSized : RegMap → Type 0
IsSized [] = Unit {0}
IsSized (s ∷ segs) = (length s.content ≡ s.len) × IsSized segs

pub mb_reg_segs-IsSized : IsSized mb_reg_segs
unfolding mb_reg_segs
mb_reg_segs-IsSized = omega arith

pub modbus_reg_update-IsSized :
    (addr value : ℕ) (segs : RegMap) → IsSized segs → IsSized (modbus_reg_update addr value segs)
unfolding modbus_reg_update
modbus_reg_update-IsSized addr value [] h = tt
modbus_reg_update-IsSized addr value (s ∷ segs) h = (
  ground (arith, length-set s.content (addr - s.addr_start) value),
  modbus_reg_update-IsSized addr value segs h.1,
)

-- One segment of the loop, with the results for the rest of the table.
get-update_step :
    (a b value : ℕ) (s : Segment) (old new found : ℕ)
    → length s.content ≡ s.len
    → new ≡ (if a == b && found == 1 then value else old)
    → (let s' = (if in_segment b s then store b value s else s) in
        if in_segment a s' then get_or s'.content (a - s'.addr_start) 0 else new)
      ≡ (if a == b && (if in_segment b s then 1 else found) == 1
          then value
          else if in_segment a s
          then get_or s.content (a - s.addr_start) 0
          else old)
get-update_step a b value s old new found h e = elim (Bool-cases (in_segment b s)) [
  | inl p ↦ rw p (
      ground (
        arith,
        get_or-set_self s.content (b - s.addr_start) value 0,
        get_or-set_ne s.content (b - s.addr_start) (a - s.addr_start) value 0,
      ))
  | inr p ↦ rw p (ground arith)
]

-- After an update, an address reads as the value written if it is the one written and lies in a
-- segment, and as before if not.
pub modbus_reg_get-update :
    (a b value : ℕ) (segs : RegMap)
    → IsSized segs
    → modbus_reg_get a (modbus_reg_update b value segs)
      ≡ (if a == b && modbus_reg_r_check b segs == 1 then value else modbus_reg_get a segs)
unfolding modbus_reg_update modbus_reg_get modbus_reg_r_check
modbus_reg_get-update a b value [] h = ground arith
modbus_reg_get-update a b value (s ∷ segs) h =
    get-update_step a b value s (modbus_reg_get a segs)
      (modbus_reg_get a (modbus_reg_update b value segs)) (modbus_reg_r_check b segs) h.0
      (modbus_reg_get-update a b value segs h.1)
