-- ===== src/Onewire/Registers/Offset.antt =====
-- `writecosconfig` of src/onewire.c, and what is read after it.
use Prim.Native.Nat.{bit_and, bit_or}
use ch582_water_jinru.Common.{
  ℕ, ◌*◌, ◌-◌, ◌^◌, ◌/◌, ◌<◌, ◌≡◌, refl, ap, ◌∙◌, Bool, true, ◌&&◌, List, [], ◌∷◌, length, take,
  set, get_or, some, ltb, ltb→lt, ◌==◌, ==_iff, length-set, get_or-set_self, get_or-set_ne,
  get_or-append_left, and_left, and_right, arith,
}
use ch582_water_jinru.Common.Bits.{true_upto, true_upto_lem, bits_clear}
use ch582_water_jinru.Crc.Detection.{AllBytes}
use ch582_water_jinru.Onewire.Bus.{Line}
use ch582_water_jinru.Onewire.Checksum.{onewire_crc8}
use ch582_water_jinru.Onewire.Registers.{
  cos, cfb, readcfbconfig, readcosconfig, with_cos, writecosconfig,
}
use ch582_water_jinru.Onewire.Registers.Chip.{IsChip}
use ch582_water_jinru.Onewire.Registers.Change.{
  sent, sent_size, sent_bytes, change_parameters_lem, readcos_lem, readcfb_lem, AllBytes-set,
  AllBytes-get_or, AllBytes-take, get_or-take, length-take,
}

-- The width of the offset in the upper two bits of Cfb, and its lower six.
cfb_fine : ℕ → ℕ → Bool
cfb_fine k d =
    let c = bit_or (bits_clear d 0xc0) (k * 64) in
    ltb c 256 && (c / 2 ^ 6 == k && bit_and c 0x3f == bit_and d 0x3f)

cfb_table : true_upto (λ k. true_upto (cfb_fine k) 256) 4 ≡ true
unfolding true_upto cfb_fine
cfb_table = refl

cfb_fine_lem : (k d : ℕ) → k < 4 → d < 256 → cfb_fine k d ≡ true
cfb_fine_lem k d h byte =
    true_upto_lem 256 (cfb_fine k) byte
      (true_upto_lem 4 (λ x. true_upto (cfb_fine x) 256) h cfb_table)

abbrev joined : ℕ → ℕ → ℕ
joined k d = bit_or (bits_clear d 0xc0) (k * 64)

joined_lem :
    (k d : ℕ)
    → k < 4
    → d < 256
    → (joined k d < 256) × (joined k d / 2 ^ 6 ≡ k) × (bit_and (joined k d) 0x3f ≡ bit_and d 0x3f)
unfolding cfb_fine
joined_lem k d h byte =
    let all = cfb_fine_lem k d h byte in
    let rest = and_right _ _ all in
    (
      ltb→lt _ _ (and_left _ _ all),
      (==_iff _ _).0 (and_left _ _ rest),
      (==_iff _ _).0 (and_right _ _ rest),
    )

module _ (line : Line) (rom : List ℕ) (chip : IsChip line rom) (regs : List ℕ)
    (bytes : AllBytes regs) (size : length regs ≡ 14) (k coffset : ℕ) (width : k < 4)
    (byte : coffset < 256) (w : line.W) (h : chip.Holds regs w) where
  abbrev before : List ℕ
  before = sent line rom chip regs bytes size

  abbrev changed : List ℕ
  changed = set (set before cos coffset) cfb (joined k (get_or before cfb 0))

  abbrev new_regs : List ℕ
  new_regs = take 14 changed

  new_size : length (set (set before cos coffset) cfb (joined k (get_or before cfb 0))) ≡ 15
  new_size = length-set _ _ _ ∙ length-set _ _ _ ∙ sent_size line rom chip regs bytes size

  new_cfb : joined k (get_or before cfb 0) < 256
  new_cfb =
      (joined_lem k (get_or before cfb 0) width
        (AllBytes-get_or before cfb (sent_bytes line rom chip regs bytes size))).0

  new_bytes : AllBytes (set (set before cos coffset) cfb (joined k (get_or before cfb 0)))
  new_bytes =
      AllBytes-set _ cfb _
        (AllBytes-set before cos coffset (sent_bytes line rom chip regs bytes size) byte) new_cfb

  written :
      ((writecosconfig line coffset (k * 64) 0 rom w).0 ≡ true)
      × chip.Holds new_regs (writecosconfig line coffset (k * 64) 0 rom w).1
  unfolding writecosconfig with_cos
  written =
      change_parameters_lem line rom chip regs bytes size (with_cos coffset (k * 64)) w new_bytes
        new_size h

  reg_bytes : AllBytes new_regs
  reg_bytes = AllBytes-take 14 _ new_bytes

  reg_size : length new_regs ≡ 14
  reg_size = length-take 14 _ (omega (arith, new_size))

  new_cos_value : get_or new_regs 4 0 ≡ coffset
  new_cos_value =
      get_or-take 14 4 changed (omega arith)
      ∙ get_or-set_ne (set before cos coffset) 9 4 (joined k (get_or before cfb 0)) 0
          (λ e. omega arith)
      ∙ get_or-set_self before 4 coffset 0 (omega (arith, sent_size line rom chip regs bytes size))

  new_cfb_value : get_or new_regs 9 0 ≡ joined k (get_or before 9 0)
  new_cfb_value =
      get_or-take 14 9 changed (omega arith)
      ∙ get_or-set_self (set before cos coffset) 9 (joined k (get_or before cfb 0)) 0
          (omega (arith, length-set before cos coffset, sent_size line rom chip regs bytes size))

  joined_now :
      (get_or new_regs 9 0 / 2 ^ 6 ≡ k)
      × (bit_and (get_or new_regs 9 0) 0x3f ≡ bit_and (get_or regs 9 0) 0x3f)
  joined_now =
      let all =
        joined_lem k (get_or before 9 0) width
          (AllBytes-get_or before 9 (sent_bytes line rom chip regs bytes size)) in
      let same = get_or-append_left regs (onewire_crc8 0 regs ∷ []) 9 0 (omega arith) in
      (
        ap (λ c. c / 2 ^ 6) new_cfb_value ∙ all.1,
        ap (λ c. bit_and c 0x3f) new_cfb_value ∙ all.2 ∙ ap (λ c. bit_and c 0x3f) same,
      )

  -- On a chip with its registers in order, and where `onewire_crc8` finds its variable at 0, an
  -- offset that `writecosconfig` writes, `k` giving its width of 5 to 8 bits, is what
  -- `readcosconfig` reads then, cut to the width; and `readcfbconfig` reads the range that was set
  -- before.
  pub write_then_read_cos :
      ((writecosconfig line coffset (k * 64) 0 rom w).0 ≡ true)
      × ((readcosconfig line 0 rom (writecosconfig line coffset (k * 64) 0 rom w).1).0
          ≡ some (bit_and coffset (0xff / 2 ^ (3 - k))))
      × ((readcfbconfig line 0 rom (writecosconfig line coffset (k * 64) 0 rom w).1).0
          ≡ some (bit_and (get_or regs cfb 0) 0x3f))
  write_then_read_cos =
      let held = written.1 in
      (
        written.0,
        readcos_lem line rom chip new_regs reg_bytes reg_size _ held ∙ λ i.
            some (bit_and (new_cos_value i) (0xff / 2 ^ (3 - joined_now.0 i))),
        readcfb_lem line rom chip new_regs reg_bytes reg_size _ held ∙ ap some joined_now.1,
      )
