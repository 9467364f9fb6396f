-- ===== src/Config/Laws.antt =====
-- What the getters of src/configtool.c give after an update, and which updates reach the storage.
use mathlib.Core.Path.{subst}
use ch582_water_jinru.Common.{
  ℕ, ◌≡◌, refl, ap, sym, ◌∙◌, Bool, true, false, ◌&&◌, Option, none, some, List, [], ◌∷◌, ◌==◌,
  ==_iff, if◌then◌else◌, Bool-cases, inl, inr, length, take, min, replicate, splice, arith,
}
use ch582_water_jinru.Storage.{Eeprom, St}
use ch582_water_jinru.Storage.Api.{st_write_item}
use ch582_water_jinru.Config.{
  Cfg, Idx, cfg_mb_addr, cfg_mb_uart, cfg_ota, key, size, content, with_content, same_bytes, keep,
  cfg_save_item, update, fetch,
}

abbrev pub same_idx : Idx → Idx → Bool
same_idx cfg_mb_addr cfg_mb_addr = true
same_idx cfg_mb_uart cfg_mb_uart = true
same_idx cfg_ota cfg_ota = true
same_idx _ _ = false

abbrev pub succeeded : Option (Unit {0}) → Bool
succeeded none = false
succeeded (some _) = true

same_bytes_lem : (xs bs : List ℕ) → same_bytes xs bs ≡ true → xs ≡ bs
same_bytes_lem [] [] h = refl
same_bytes_lem [] (b ∷ bs) h = absurd (ground arith)
same_bytes_lem (a ∷ xs) [] h = absurd (ground arith)
same_bytes_lem (a ∷ xs) (b ∷ bs) h = elim (Bool-cases (a == b)) [
  | inl e ↦ rw ((==_iff a b).0 e, same_bytes_lem xs bs (ground arith))
  | inr e ↦ absurd (ground arith)
]

pub same_bytes_refl : (bs : List ℕ) → same_bytes bs bs ≡ true
same_bytes_refl [] = refl
same_bytes_refl (b ∷ bs) = rw ((==_iff b b).1 refl, same_bytes_refl bs)

content-with_content :
    {E : Eeprom} (i j : Idx) (bs : List ℕ) (c : Cfg E)
    → content j (with_content i bs c) ≡ (if same_idx j i then bs else content j c)
content-with_content cfg_mb_addr cfg_mb_addr bs c = refl
content-with_content cfg_mb_addr cfg_mb_uart bs c = refl
content-with_content cfg_mb_addr cfg_ota bs c = refl
content-with_content cfg_mb_uart cfg_mb_addr bs c = refl
content-with_content cfg_mb_uart cfg_mb_uart bs c = refl
content-with_content cfg_mb_uart cfg_ota bs c = refl
content-with_content cfg_ota cfg_mb_addr bs c = refl
content-with_content cfg_ota cfg_mb_uart bs c = refl
content-with_content cfg_ota cfg_ota bs c = refl

same_content :
    {E : Eeprom} (i j : Idx) (bs : List ℕ) (c : Cfg E)
    → content i c ≡ bs
    → content j c ≡ (if same_idx j i then bs else content j c)
same_content cfg_mb_addr cfg_mb_addr bs c e = e
same_content cfg_mb_addr cfg_mb_uart bs c e = refl
same_content cfg_mb_addr cfg_ota bs c e = refl
same_content cfg_mb_uart cfg_mb_addr bs c e = refl
same_content cfg_mb_uart cfg_mb_uart bs c e = e
same_content cfg_mb_uart cfg_ota bs c e = refl
same_content cfg_ota cfg_mb_addr bs c e = refl
same_content cfg_ota cfg_mb_uart bs c e = refl
same_content cfg_ota cfg_ota bs c e = e

content-st :
    {E : Eeprom} (j : Idx) (c : Cfg E) (s : St E) → content j (record c { st = s }) ≡ content j c
content-st cfg_mb_addr c s = refl
content-st cfg_mb_uart c s = refl
content-st cfg_ota c s = refl

flag-with_content :
    {E : Eeprom} (i : Idx) (bs : List ℕ) (c : Cfg E) → (with_content i bs c).flag_init ≡ c.flag_init
flag-with_content cfg_mb_addr bs c = refl
flag-with_content cfg_mb_uart bs c = refl
flag-with_content cfg_ota bs c = refl

some_if :
    {A : Type 0} (b : Bool) (x y : A) → some (if b then x else y) ≡ (if b then some x else some y)
some_if true x y = refl
some_if false x y = refl

abbrev Outcome : (E : Eeprom) → Idx → Idx → List ℕ → Cfg E → Option (Unit {0}) × Cfg E → Type 0
Outcome E i j val c r =
    fetch E j r.1 ≡ (if succeeded r.0 && same_idx j i then some val else fetch E j c)

-- Keeping a value after its item was saved, in a configuration that is initialised.
fetch-keep :
    (E : Eeprom) (i j : Idx) (val : List ℕ) (c : Cfg E) (r : Option (Unit {0})) (s : St E)
    → (c.flag_init == 0) ≡ false
    → Outcome E i j val c (keep E i val (r, record c { st = s }))
unfolding fetch
fetch-keep E i j val c none s h = rw (h, content-st j c s)
fetch-keep E i j val c (some _) s h =
    rw
      (
        flag-with_content i val (record c { st = s }),
        h,
        content-with_content i j val (record c { st = s }),
        content-st j c s,
      )
      (some_if (same_idx j i) val (content j c))

fetch_same :
    (E : Eeprom) (i j : Idx) (val : List ℕ) (c : Cfg E)
    → (c.flag_init == 0) ≡ false
    → content i c ≡ val
    → fetch E j c ≡ (if same_idx j i then some val else fetch E j c)
unfolding fetch
fetch_same E i j val c h e =
    rw h (ap some (same_content i j val c e) ∙ some_if (same_idx j i) val (content j c))

abbrev saved : Idx → List ℕ → List ℕ
saved i val = splice (replicate (size i) 0) 0 (take (min (size i) (length val)) val)

update_off :
    (E : Eeprom) (i : Idx) (val : List ℕ) (c : Cfg E)
    → (c.flag_init == 0) ≡ true
    → update E i val c ≡ (none, c)
unfolding update
update_off E i val c e = rw e

pub update_kept :
    (E : Eeprom) (i : Idx) (val : List ℕ) (c : Cfg E)
    → (c.flag_init == 0) ≡ false
    → same_bytes (content i c) val ≡ true
    → update E i val c ≡ (some tt, c)
unfolding update
update_kept E i val c e same = rw (e, same)

update-saved :
    (E : Eeprom) (i : Idx) (val : List ℕ) (c : Cfg E)
    → (c.flag_init == 0) ≡ false
    → same_bytes (content i c) val ≡ false
    → (let r = st_write_item E (key i) (saved i val) c.st in
        update E i val c ≡ keep E i val (r.0, record c { st = r.1 }))
unfolding update cfg_save_item
update-saved E i val c e differ = rw (e, differ)

-- After an update of a setting by the configuration tool, initialised or not, each getter gives the
-- new value if the update succeeded and it is the getter of this setting, and otherwise what it
-- gave before.
pub fetch-update :
    (E : Eeprom) (i j : Idx) (val : List ℕ) (c : Cfg E)
    → let r = update E i val c in
      fetch E j r.1 ≡ (if succeeded r.0 && same_idx j i then some val else fetch E j c)
fetch-update E i j val c = elim (Bool-cases (c.flag_init == 0)) [
  | inl e ↦ subst (Outcome E i j val c) (sym (update_off E i val c e)) refl
  | inr e ↦ elim (Bool-cases (same_bytes (content i c) val)) [
    | inl same ↦
        subst (Outcome E i j val c) (sym (update_kept E i val c e same))
          (fetch_same E i j val c e (same_bytes_lem (content i c) val same))
    | inr differ ↦
        let r = st_write_item E (key i) (saved i val) c.st in
        subst (Outcome E i j val c) (sym (update-saved E i val c e differ))
          (fetch-keep E i j val c r.0 r.1 e)
  ]
]
