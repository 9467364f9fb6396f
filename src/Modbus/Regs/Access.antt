-- ===== src/Modbus/Regs/Access.antt =====
-- Which addresses the checks of src/modbus/regs.c let through, and what the callback does with a
-- write and a read that follow one another.
use ch582_water_jinru.Common.{
  ℕ, ◌+◌, ◌≤◌, ◌<◌, ◌≡◌, refl, ap, ◌∙◌, ◌≢◌, ◌⊎◌, ◌↔◌, inl, inr, Bool, ◌&&◌, List, [], ◌∷◌, arith,
  ltb, leb, ◌==◌, if◌then◌else◌, Bool-cases,
}
use ch582_water_jinru.Modbus.Types.{
  holding_register, r_check, w_check, r, w, Error, ok, error_index, Args, Out, Callbacks,
  no_callbacks,
}
use ch582_water_jinru.Modbus.Regs.{
  RegMap, perm_r, perm_rw, perm_rwa, mb_reg_segs, in_segment, may_write, modbus_reg_update,
  modbus_reg_get, modbus_reg_write, modbus_reg_read, modbus_reg_w_check, modbus_reg_r_check,
  HasRegs, IsLawful, modbus_reg_callback,
}
use ch582_water_jinru.Modbus.Regs.Laws.{IsSized, modbus_reg_get-update}

-- What no operation changes of a segment.
pub record Header : Type 0 where
  pub perm : ℕ
  pub start : ℕ
  pub size : ℕ

abbrev pub headers : RegMap → List Header
headers [] = []
headers (s ∷ segs) =
    record { perm = s.access_perm; start = s.addr_start; size = s.len } ∷ headers segs

abbrev bank : ℕ → ℕ → ℕ → Header
bank p from n = record { perm = p; start = from; size = n }

abbrev banks : List Header
banks = bank perm_r 0 112 ∷ bank perm_rw 128 7 ∷ bank perm_rwa 65500 15 ∷ bank perm_rw 65530 2 ∷ []

-- The map is the table of the source, with any contents.
abbrev pub IsTable : RegMap → Type 0
IsTable segs = headers segs ≡ banks

pub mb_reg_segs-IsTable : IsTable mb_reg_segs
unfolding mb_reg_segs
mb_reg_segs-IsTable = refl

pub headers-update :
    (addr value : ℕ) (segs : RegMap) → headers (modbus_reg_update addr value segs) ≡ headers segs
unfolding modbus_reg_update
headers-update addr value [] = refl
headers-update addr value (s ∷ segs) = elim (Bool-cases (in_segment addr s)) [
  | inl e ↦ rw (e, headers-update addr value segs)
  | inr e ↦ rw (e, headers-update addr value segs)
]

abbrev covers : ℕ → Header → Bool
covers a h = leb h.start a && ltb a (h.start + h.size)

readable : ℕ → List Header → ℕ
readable a [] = 0
readable a (h ∷ hs) = if covers a h then 1 else readable a hs

writable : ℕ → ℕ → List Header → ℕ
writable a flag [] = 0
writable a flag (h ∷ hs) = if covers a h then may_write h.perm flag else writable a flag hs

r_check-headers : (a : ℕ) (segs : RegMap) → modbus_reg_r_check a segs ≡ readable a (headers segs)
unfolding modbus_reg_r_check readable
r_check-headers a [] = refl
r_check-headers a (s ∷ segs) = rw (r_check-headers a segs)

w_check-headers :
    (a flag : ℕ) (segs : RegMap) → modbus_reg_w_check a flag segs ≡ writable a flag (headers segs)
unfolding modbus_reg_w_check writable
w_check-headers a flag [] = refl
w_check-headers a flag (s ∷ segs) = rw (w_check-headers a flag segs)

abbrev pub InBank : ℕ → ℕ → ℕ → Type 0
InBank start n a = (start ≤ a) × (a < start + n)

readable_ne :
    (a : ℕ)
    → (readable a banks ≢ 0)
      ↔ (InBank 0 112 a ⊎ InBank 128 7 a ⊎ InBank 65500 15 a ⊎ InBank 65530 2 a)
unfolding readable
readable_ne a = ground arith

writable-banks :
    (a flag : ℕ)
    → (writable a flag banks ≢ 0)
      ↔ (InBank 128 7 a ⊎ (InBank 65500 15 a × (flag ≢ 0)) ⊎ InBank 65530 2 a)
unfolding writable
writable-banks a flag = ground arith

abbrev pub holding : ℕ → ℕ → Args
holding index value = record { type = holding_register; query = r; index = index; value = value }

-- The answer of a check is MODBUS_OK exactly where its result is not 0.
answer : ℕ → Error
answer n = if n == 0 then error_index else ok

answer-ok : (n : ℕ) → (answer n ≡ ok) ↔ (n ≢ 0)
unfolding answer
answer-ok n = ground arith

answer-index : (n : ℕ) → ¬ (n ≢ 0) → answer n ≡ error_index
unfolding answer
answer-index n h = ground arith

answer_lem :
    (W : Type 0) (n : ℕ) → ((n ≢ 0) ↔ W) → ((answer n ≡ ok) ↔ W) × (¬ W → answer n ≡ error_index)
answer_lem W n (f, g) = (
  ((λ e. f ((answer-ok n).0 e)), (λ x. (answer-ok n).1 (g x))),
  λ no_w. answer-index n (λ x. no_w (f x)),
)

-- Over the table of the source, the write check of a holding register answers MODBUS_OK exactly
-- for the configuration bank, the test bank, and the protected bank while the safe-access flag is
-- set; it answers MODBUS_ERROR_INDEX for every other address, and the state stays as it was.
pub w_check_allows :
    {S : Type 0} (h : HasRegs S) (cbs : Callbacks S) (index value : ℕ) (out : Out) (s : S)
    → IsTable (h.regs s)
    → let args = record (holding index value) { query = w_check } in
      let writable =
        InBank 128 7 index
        ⊎ (InBank 65500 15 index × (h.flag_safe_access s ≢ 0))
        ⊎ InBank 65530 2 index in
      (((modbus_reg_callback h cbs args out s).0 ≡ ok) ↔ writable)
      × (¬ writable → (modbus_reg_callback h cbs args out s).0 ≡ error_index)
      × ((modbus_reg_callback h cbs args out s).2 ≡ s)
unfolding modbus_reg_callback answer
w_check_allows h cbs index value out s t =
    let n = modbus_reg_w_check index (h.flag_safe_access s) (h.regs s) in
    let e : n ≡ writable index (h.flag_safe_access s) banks =
      w_check-headers index (h.flag_safe_access s) (h.regs s)
      ∙ ap (writable index (h.flag_safe_access s)) t in
    let (a, b) = answer_lem _ n (rw e (writable-banks index (h.flag_safe_access s))) in (a, b, refl)

-- Over the table of the source, the read check of a holding register answers MODBUS_OK exactly for
-- the addresses of the four banks and MODBUS_ERROR_INDEX for every other one, and the state stays
-- as it was.
pub r_check_allows :
    {S : Type 0} (h : HasRegs S) (cbs : Callbacks S) (index value : ℕ) (out : Out) (s : S)
    → IsTable (h.regs s)
    → let args = record (holding index value) { query = r_check } in
      let readable =
        InBank 0 112 index ⊎ InBank 128 7 index ⊎ InBank 65500 15 index ⊎ InBank 65530 2 index in
      (((modbus_reg_callback h cbs args out s).0 ≡ ok) ↔ readable)
      × (¬ readable → (modbus_reg_callback h cbs args out s).0 ≡ error_index)
      × ((modbus_reg_callback h cbs args out s).2 ≡ s)
unfolding modbus_reg_callback answer
r_check_allows h cbs index value out s t =
    let n = modbus_reg_r_check index (h.regs s) in
    let e : n ≡ readable index banks = r_check-headers index (h.regs s) ∙ ap (readable index) t in
    let (a, b) = answer_lem _ n (rw e (readable_ne index)) in (a, b, refl)

modbus_reg_read-get : (a : ℕ) (segs : RegMap) → modbus_reg_read a segs ≡ modbus_reg_get a segs
unfolding modbus_reg_read modbus_reg_get
modbus_reg_read-get a [] = refl
modbus_reg_read-get a (s ∷ segs) = rw (modbus_reg_read-get a segs)

-- With no hooks, a write request to a holding register answers MODBUS_OK, and a read request after
-- it answers MODBUS_OK with the value written, if it is for the same address and a segment holds
-- it, and otherwise with what was there before.
pub write_then_read :
    {S : Type 0} (h : HasRegs S) (a b value unused : ℕ) (out : Out) (s : S)
    → IsLawful h
    → IsSized (h.regs s)
    → let written =
        modbus_reg_callback h (no_callbacks S) (record (holding b value) { query = w }) out s in
      let result = modbus_reg_callback h (no_callbacks S) (holding a unused) out written.2 in
      (written.0 ≡ ok)
      × (result.0 ≡ ok)
      × (result.1.value ≡ (
          if a == b && modbus_reg_r_check b (h.regs s) == 1
          then value
          else modbus_reg_get a (h.regs s)))
unfolding modbus_reg_callback modbus_reg_write
write_then_read h a b value unused out s l z = (
  refl,
  refl,
  rw (l.regs_with, modbus_reg_read-get) (modbus_reg_get-update a b value (h.regs s) z),
)

-- The two registers of the test bank are held by a segment.
pub test_bank_readable :
    (a : ℕ) (segs : RegMap) → InBank 65530 2 a → IsTable segs → modbus_reg_r_check a segs ≡ 1
unfolding readable
test_bank_readable a segs i t = r_check-headers a segs ∙ ap (readable a) t ∙ (ground arith)
