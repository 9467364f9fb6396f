-- ===== src/Config/Updates.antt =====
-- Sequences of calls of the three update functions of src/configtool.c.
use ch582_water_jinru.Common.{
  ℕ, ◌≡◌, refl, ap, sym, ◌∙◌, Bool, true, false, ◌&&◌, Option, none, some, List, [], ◌∷◌, ◌==◌,
  if◌then◌else◌, Bool-cases, inl, inr, arith,
}
use mathlib.Core.Option.{none-ne-some, some-injective}
use ch582_water_jinru.Storage.{Eeprom}
use ch582_water_jinru.Config.{
  Cfg, Idx, cfg_mb_addr, cfg_mb_uart, cfg_ota, content, same_bytes, update, fetch,
  cfg_update_mb_addr, cfg_update_mb_uart, cfg_update_ota,
}
use ch582_water_jinru.Config.Laws.{same_idx, succeeded, same_bytes_refl, update_kept, fetch-update}

-- A call of one of the update functions.
pub data Call : Type 0 where
  mb_addr : ℕ → Call
  mb_uart ota : List ℕ → Call

-- The setting that a call changes, and the bytes it sets.
abbrev pub setting : Call → Idx
setting (mb_addr _) = cfg_mb_addr
setting (mb_uart _) = cfg_mb_uart
setting (ota _) = cfg_ota

abbrev pub bytes : Call → List ℕ
bytes (mb_addr a) = a ∷ []
bytes (mb_uart bs) = bs
bytes (ota bs) = bs

-- Every call is for another setting than `i`.
abbrev pub AreElsewhere : Idx → List Call → Type 0
AreElsewhere i [] = Unit {0}
AreElsewhere i (c ∷ cs) = (same_idx i (setting c) ≡ false) × AreElsewhere i cs

same_idx_refl : (i : Idx) → same_idx i i ≡ true
same_idx_refl cfg_mb_addr = refl
same_idx_refl cfg_mb_uart = refl
same_idx_refl cfg_ota = refl

and_false : {A : Type 0} (b : Bool) (x y : A) → (if b && false then x else y) ≡ y
and_false true x y = refl
and_false false x y = refl

-- The address 0 is refused before anything else.
refused : Call → Bool
refused (mb_addr a) = a == 0
refused (mb_uart _) = false
refused (ota _) = false

module _ (E : Eeprom) where
  unfoldable pub perform : Call → Cfg E → Option (Unit {0}) × Cfg E
  unfolding cfg_update_mb_addr cfg_update_mb_uart cfg_update_ota
  perform (mb_addr a) c = cfg_update_mb_addr E a c
  perform (mb_uart bs) c = cfg_update_mb_uart E bs c
  perform (ota bs) c = cfg_update_ota E bs c

  -- The configuration after the calls, whatever their results.
  unfoldable pub perform_all : List Call → Cfg E → Cfg E
  unfolding perform
  perform_all [] c = c
  perform_all (call ∷ calls) c = perform_all calls (perform call c).1

  perform-update :
      (call : Call) (c : Cfg E)
      → perform call c
        ≡ (if refused call then (none, c) else update E (setting call) (bytes call) c)
  unfolding perform refused
  perform-update (mb_addr a) c = refl
  perform-update (mb_uart bs) c = refl
  perform-update (ota bs) c = refl

  accepted :
      (call : Call) (c : Cfg E)
      → refused call ≡ false
      → perform call c ≡ update E (setting call) (bytes call) c
  accepted call c h =
      perform-update call c
      ∙ ap (λ b. if b then (none, c) else update E (setting call) (bytes call) c) h

  refused_fails : (call : Call) (c : Cfg E) → refused call ≡ true → perform call c ≡ (none, c)
  refused_fails call c h =
      perform-update call c
      ∙ ap (λ b. if b then (none, c) else update E (setting call) (bytes call) c) h

  not_refused :
      (call : Call) (c : Cfg E) → succeeded (perform call c).0 ≡ true → refused call ≡ false
  not_refused call c done = elim (Bool-cases (refused call)) [
    | inl zero_address ↦
        let failed : false ≡ true =
          sym (ap (λ r. succeeded r.0) (refused_fails call c zero_address)) ∙ done in
        absurd (ground arith)
    | inr fine ↦ fine
  ]

  others_kept :
      (i : Idx) (call : Call) (c : Cfg E)
      → same_idx i (setting call) ≡ false
      → fetch E i (perform call c).1 ≡ fetch E i c
  others_kept i call c other = elim (Bool-cases (refused call)) [
    | inl zero_address ↦ ap (λ r. fetch E i r.1) (refused_fails call c zero_address)
    | inr fine ↦
        let r = update E (setting call) (bytes call) c in
        ap (λ q. fetch E i q.1) (accepted call c fine)
        ∙ fetch-update E (setting call) i (bytes call) c
        ∙ rw other (and_false (succeeded r.0) (some (bytes call)) (fetch E i c))
  ]

  all_kept :
      (i : Idx) (calls : List Call) (c : Cfg E)
      → AreElsewhere i calls
      → fetch E i (perform_all calls c) ≡ fetch E i c
  unfolding perform_all
  all_kept i [] c h = refl
  all_kept i (call ∷ calls) c h = all_kept i calls (perform call c).1 h.1 ∙ others_kept i call c h.0

  set_by :
      (call : Call) (c : Cfg E)
      → succeeded (perform call c).0 ≡ true
      → fetch E (setting call) (perform call c).1 ≡ some (bytes call)
  set_by call c done =
      let fine = accepted call c (not_refused call c done) in
      let i = setting call in
      let ok = sym (ap (λ r. succeeded r.0) fine) ∙ done in
      ap (λ r. fetch E i r.1) fine
      ∙ fetch-update E i i (bytes call) c
      ∙ ap (λ b. if b && same_idx i i then some (bytes call) else fetch E i c) ok
      ∙ ap (λ b. if b then some (bytes call) else fetch E i c) (same_idx_refl i)

  -- A setting that has the value already is not saved again.
  unchanged :
      (i : Idx) (val : List ℕ) (c : Cfg E)
      → fetch E i c ≡ some val
      → update E i val c ≡ (some tt, c)
  unfolding fetch
  unchanged i val c held = elim (Bool-cases (c.flag_init == 0)) [
    | inl off ↦
        let missing : none ≡ some val =
          sym (ap (λ b. if b then none else some (content i c)) off) ∙ held in
        absurd (none-ne-some val missing)
    | inr on ↦
        let value : some (content i c) ≡ some val =
          sym (ap (λ b. if b then none else some (content i c)) on) ∙ held in
        update_kept E i val c on (
          ap (λ bs. same_bytes bs val) (some-injective (content i c) val value)
          ∙ same_bytes_refl val)
  ]

-- After an update of a setting that succeeded, and any updates of other settings after it, whether
-- they succeeded or not, the same update once more succeeds and changes nothing: neither the cached
-- settings nor the storage and its flash, although the first one may have written it.
pub repeated :
    (E : Eeprom) (call : Call) (others : List Call) (c : Cfg E)
    → AreElsewhere (setting call) others
    → succeeded (perform E call c).0 ≡ true
    → let after = perform_all E others (perform E call c).1 in
      perform E call after ≡ (some tt, after)
repeated E call others c elsewhere done =
    let after = perform_all E others (perform E call c).1 in
    accepted E call after (not_refused E call c done)
    ∙ unchanged E (setting call) (bytes call) after
        (all_kept E (setting call) others (perform E call c).1 elsewhere ∙ set_by E call c done)
