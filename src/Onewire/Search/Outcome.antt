-- ===== src/Onewire/Search/Outcome.antt =====
-- What a call of `onewire_search` (src/onewire.c) leaves, on any line, and that its loop ends.
use ch582_water_jinru.Common.{
  ℕ, zero, suc, ◌+◌, ◌*◌, ◌/◌, ◌%◌, ◌^◌, ◌≤◌, ◌<◌, ◌≡◌, ◌≢◌, refl, sym, ap, ◌∙◌, Bool, true, false,
  not, ◌&&◌, ◌||◌, get_or, ltb, leb, ◌==◌, ==_iff, ==_ne, ltb→lt, leb→le, if◌then◌else◌, Bool-cases,
  inl, inr, u8, arith,
}
use ch582_water_jinru.Common.Bits.{true_upto, true_upto_lem}
use ch582_water_jinru.Onewire.Bus.{Line, M, check_ack, onewire_reset, onewire_readbit}
use ch582_water_jinru.Onewire.Search.{
  Device, Scan, note_zero, next_bit, fresh_scan, advance, take_bit, accept, conclude, scan_loop,
  onewire_search,
}

mask_table : true_upto (λ k. u8 (2 ^ k * 2) == (if k == 7 then 0 else 2 ^ (k + 1))) 8 ≡ true
unfolding true_upto
mask_table = refl

mask_step : (k : ℕ) → k < 8 → u8 (2 ^ k * 2) ≡ (if k == 7 then 0 else 2 ^ (k + 1))
mask_step k h =
    (==_iff _ _).0
      (true_upto_lem 8 (λ k. u8 (2 ^ k * 2) == (if k == 7 then 0 else 2 ^ (k + 1))) h mask_table)

power_table : true_upto (λ k. leb 1 (2 ^ k)) 8 ≡ true
unfolding true_upto
power_table = refl

power_pos : (k : ℕ) → k < 8 → 2 ^ k ≢ 0
power_pos k h e =
    omega (arith, leb→le 1 (2 ^ k) (true_upto_lem 8 (λ k. leb 1 (2 ^ k)) h power_table))

-- Before the round for bit `i`.
record At (i : ℕ) (t : Scan) : Type 0 where
  byte : t.rom_byte_number ≡ i / 8
  mask : t.rom_byte_mask ≡ 2 ^ (i % 8)
  number : t.id_bit_number ≡ i + 1
  zero_place : t.last_zero ≤ 64

note_zero-At : (i : ℕ) (b : Bool) (t : Scan) → i < 64 → At i t → At i (note_zero b t)
unfolding note_zero
note_zero-At i true t h a = record {
  byte = a.byte;
  mask = a.mask;
  number = a.number;
  zero_place = omega (arith, a.number);
}
note_zero-At i false t h a = a

next_bit-At : (i d : ℕ) (t : Scan) → At i t → At (i + 1) (next_bit d t)
unfolding next_bit
next_bit-At i d t a =
    let moved : u8 (t.rom_byte_mask * 2) ≡ (if i % 8 == 7 then 0 else 2 ^ (i % 8 + 1)) =
      ap (λ m. u8 (m * 2)) a.mask ∙ mask_step (i % 8) (omega arith) in
    elim (Bool-cases (i % 8 == 7)) [
      | inl last ↦
          let e : u8 (t.rom_byte_mask * 2) ≡ 0 =
            moved ∙ ap (λ b. if b then 0 else 2 ^ (i % 8 + 1)) last in
          let seven = (==_iff (i % 8) 7).0 last in
          let first : 0 ≡ (i + 1) % 8 = omega arith in
          rw e (record {
            byte = omega (arith, a.byte);
            mask = ap (λ k. 2 ^ k) first;
            number = omega (arith, a.number);
            zero_place = a.zero_place;
          })
      | inr more ↦
          let e : u8 (t.rom_byte_mask * 2) ≡ 2 ^ (i % 8 + 1) =
            moved ∙ ap (λ b. if b then 0 else 2 ^ (i % 8 + 1)) more in
          let k : i % 8 < 7 = ground (arith) in
          let next : i % 8 + 1 ≡ (i + 1) % 8 = omega arith in
          let some_bit = ==_ne (2 ^ (i % 8 + 1)) 0 (power_pos (i % 8 + 1) (omega arith)) in
          rw (e, some_bit)
            (record {
              byte = omega (arith, a.byte);
              mask = ap (λ k. 2 ^ k) next;
              number = omega (arith, a.number);
              zero_place = a.zero_place;
            })
    ]

advance-At :
    (i id_bit cmp_id_bit : ℕ) (t : Scan)
    → i < 64
    → At i t
    → At (i + 1) (advance id_bit cmp_id_bit t)
unfolding advance
advance-At i id_bit cmp_id_bit t h a = next_bit-At i _ _ (note_zero-At i _ t h a)

note_zero_flag :
    (b : Bool) (t : Scan) → (note_zero b t).dev.last_device_flag ≡ t.dev.last_device_flag
unfolding note_zero
note_zero_flag true t = refl
note_zero_flag false t = refl

advance_flag :
    (id_bit cmp_id_bit : ℕ) (t : Scan)
    → (advance id_bit cmp_id_bit t).dev.last_device_flag ≡ t.dev.last_device_flag
unfolding advance
advance_flag id_bit cmp_id_bit t = note_zero_flag _ t

abbrev Kept : Bool → Scan → Type 0
Kept flag t = (t.last_zero ≤ 64) × (t.dev.last_device_flag ≡ flag)

fresh-At : (d : Device) → At 0 (fresh_scan d)
fresh-At d = record { byte = refl; mask = refl; number = refl; zero_place = omega arith }

module _ (line : Line) where
  take_bit_same :
      (m m' : M line.W Scan) (id_bit cmp_id_bit : ℕ) (t : Scan) (w : line.W)
      → (ltb (advance id_bit cmp_id_bit t).rom_byte_number 8 ≡ true → (u : line.W) → m u ≡ m' u)
      → take_bit line m id_bit cmp_id_bit t w ≡ take_bit line m' id_bit cmp_id_bit t w
  unfolding take_bit
  take_bit_same m m' id_bit cmp_id_bit t w same =
      elim (Bool-cases (id_bit == 1 && cmp_id_bit == 1)) [
        | inl nobody ↦ rw nobody
        | inr slaves ↦
            rw slaves (elim (Bool-cases (ltb (advance id_bit cmp_id_bit t).rom_byte_number 8)) [
              | inl inside ↦ rw inside (same inside _)
              | inr outside ↦ rw outside
            ])
      ]

  -- With rounds for all bits that are left, more of them change nothing.
  scan_loop_fuel :
      (f g i : ℕ) (t : Scan) (w : line.W)
      → i < 64
      → 64 ≤ f + i
      → 64 ≤ g + i
      → At i t
      → scan_loop line f t w ≡ scan_loop line g t w
  unfolding scan_loop
  scan_loop_fuel zero g i t w h p q a = absurd (omega arith)
  scan_loop_fuel (suc f) zero i t w h p q a = absurd (omega arith)
  scan_loop_fuel (suc f) (suc g) i t w h p q a =
      let first = onewire_readbit line w in
      let second = onewire_readbit line first.1 in
      let t' = advance first.0 second.0 t in
      let a' = advance-At i first.0 second.0 t h a in
      take_bit_same (scan_loop line f t') (scan_loop line g t') first.0 second.0 t second.1
        (λ inside u.
          scan_loop_fuel f g (i + 1) t' u
            (omega (arith, a'.byte, ltb→lt t'.rom_byte_number 8 inside)) (omega arith) (omega arith)
            a')

  -- The loop of `onewire_search` ends by its own test after at most 64 rounds, whatever the line
  -- answers: with more rounds than 64 it gives the same.
  pub scan_loop_ends :
      (n : ℕ) (d : Device) (w : line.W)
      → 64 ≤ n
      → scan_loop line n (fresh_scan d) w ≡ scan_loop line 64 (fresh_scan d) w
  scan_loop_ends n d w h =
      scan_loop_fuel n 64 0 (fresh_scan d) w (omega arith) (omega arith) (omega arith) (fresh-At d)

  take_bit_holds :
      (P : Scan → Type 0) (m : M line.W Scan) (id_bit cmp_id_bit : ℕ) (t : Scan) (w : line.W)
      → P t
      → P (advance id_bit cmp_id_bit t)
      → (ltb (advance id_bit cmp_id_bit t).rom_byte_number 8 ≡ true → (u : line.W) → P (m u).0)
      → P (take_bit line m id_bit cmp_id_bit t w).0
  unfolding take_bit
  take_bit_holds P m id_bit cmp_id_bit t w now next later =
      elim (Bool-cases (id_bit == 1 && cmp_id_bit == 1)) [
        | inl nobody ↦ rw nobody now
        | inr slaves ↦
            rw slaves (elim (Bool-cases (ltb (advance id_bit cmp_id_bit t).rom_byte_number 8)) [
              | inl inside ↦ rw inside (later inside _)
              | inr outside ↦ rw outside next
            ])
      ]

  scan_loop_keeps :
      (n i : ℕ) (flag : Bool) (t : Scan) (w : line.W)
      → i < 64
      → At i t
      → t.dev.last_device_flag ≡ flag
      → Kept flag (scan_loop line n t w).0
  unfolding scan_loop
  scan_loop_keeps zero i flag t w h a e = (a.zero_place, e)
  scan_loop_keeps (suc n) i flag t w h a e =
      let first = onewire_readbit line w in
      let second = onewire_readbit line first.1 in
      let t' = advance first.0 second.0 t in
      let a' = advance-At i first.0 second.0 t h a in
      let e' = advance_flag first.0 second.0 t ∙ e in
      take_bit_holds (Kept flag) (scan_loop line n t') first.0 second.0 t second.1 (a.zero_place, e)
        (a'.zero_place, e')
        (λ inside u.
          scan_loop_keeps n (i + 1) flag t' u
            (omega (arith, a'.byte, ltb→lt t'.rom_byte_number 8 inside)) a' e')

-- After a call that found nothing the next one starts from the beginning; after one that found a
-- slave, the place to go on from is one of the 64 bits, and the last slave is marked as such.
pub record Concluded (result : Bool) (d : Device) : Type 0 where
  pub nothing :
      result ≡ false
      → (d.last_discrepancy ≡ 0) × (d.last_family_discrepancy ≡ 0) × (d.last_device_flag ≡ false)
  pub found :
      result ≡ true
      → (get_or d.rom_no 0 0 ≢ 0)
        × (d.last_discrepancy ≤ 64)
        × (d.last_device_flag ≡ (d.last_discrepancy == 0))

conclude_lem :
    (result : Bool) (d : Device)
    → (result ≡ true → (d.last_discrepancy ≤ 64) × (d.last_device_flag ≡ (d.last_discrepancy == 0)))
    → Concluded (conclude (result, d)).0 (conclude (result, d)).1
unfolding conclude
conclude_lem false d h = record { nothing = λ e. (refl, refl, refl); found = λ e. cc }
conclude_lem true d h = elim (Bool-cases (get_or d.rom_no 0 0 == 0)) [
  | inl empty ↦ rw empty (record { nothing = λ e. (refl, refl, refl); found = λ e. cc })
  | inr full ↦
      rw full
        (record { nothing = λ e. cc; found = λ e. ((λ z. ground arith), (h refl).0, (h refl).1) })
]

conclude-accept :
    (t : Scan) → Kept false t → Concluded (conclude (accept t)).0 (conclude (accept t)).1
unfolding accept
conclude-accept t k = elim (Bool-cases (ltb t.id_bit_number 65 || not (t.dev.crc8 == 0))) [
  | inl short ↦ rw short (conclude_lem false t.dev (λ e. cc))
  | inr whole ↦ rw whole (elim (Bool-cases (t.last_zero == 0)) [
    | inl last ↦ rw last (conclude_lem true _ (λ e. (k.0, sym last)))
    | inr other ↦ rw other (conclude_lem true _ (λ e. (k.0, k.1 ∙ sym other)))
  ])
]

-- Whatever the line answers: after a call of `onewire_search` that found nothing the next call
-- starts from the beginning; after one that found a slave, the place to go on from is one of the 64
-- bits, the search is marked as ended exactly if there is none, and the code does not start with 0.
pub onewire_search-Concluded :
    (line : Line) (d : Device) (w : line.W)
    → Concluded (onewire_search line d w).0.0 (onewire_search line d w).0.1
unfolding onewire_search
onewire_search-Concluded line d w = elim (Bool-cases d.last_device_flag) [
  | inl ended ↦ rw ended (conclude_lem false _ (λ e. cc))
  | inr open_end ↦ rw open_end (
      let ack = check_ack line (onewire_reset line w).1 in
      elim (Bool-cases (ack.0 == 0)) [
        | inl present ↦ rw present (
            conclude-accept _ (
              scan_loop_keeps line 64 0 false (fresh_scan (record d { last_device_flag = false })) _
                (omega arith) (fresh-At (record d { last_device_flag = false })) refl))
        | inr absent ↦ rw absent (record { nothing = λ e. (refl, refl, refl); found = λ e. cc })
      ])
]
