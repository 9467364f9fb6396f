-- ===== src/Storage/Frame.antt =====
-- What no function of src/storage.c changes: the flash outside the four pages, the number of
-- pages, and the field `page_start`. A relation between the states before and after is carried
-- through every function by one rule for each way of composing them.
pub mod Items
pub mod Api
use ch582_water_jinru.Common.{
  ℕ, zero, suc, ◌+◌, ◌-◌, ◌*◌, ◌≤◌, ◌<◌, ◌≡◌, refl, sym, ◌∙◌, inl, inr, Bool, true, false,
  Bool-cases, ◌&&◌, Option, none, some, List, [], ◌∷◌, ltb, leb, ◌==◌, if◌then◌else◌, length,
  length-take_le, set, length-set, take, min, arith,
}
use ch582_water_jinru.Storage.{
  Eeprom, St, Page, zero_page, M, ◌>>=◌, ◌>>◌, bind_of, pure, fail, guard, get, modify, attempt,
  page_of, with_page, page_max, page_size, page_header_size, page_valid, header_size,
}
use ch582_water_jinru.Storage.Flash.{IsFlash, within}
use ch582_water_jinru.Storage.Pages.{
  write_chunks, erase_now, write_status, note_status, erase_check_loop, note_erased, done,
  eeprom_read, eeprom_write, eeprom_erase, st_page_write, st_page_read, st_page_erase,
  st_page_status_update, st_page_erase_check,
}

module _ (E : Eeprom) (F : IsFlash E) where
  open F use {byte, write_outside, erase_outside}

  -- `t` differs from `s` in none of these.
  pub record Frame (s t : St E) : Type 0 where
    pub start : t.page_start ≡ s.page_start
    pub count : length t.pages ≡ length s.pages
    pub outside : (x : ℕ) → page_max * page_size ≤ x → byte t.dev x ≡ byte s.dev x

  pub Frame-refl : (s : St E) → Frame s s
  Frame-refl s = record { start = refl; count = refl; outside = λ x h. refl }

  pub Frame-trans : (s t u : St E) → Frame s t → Frame t u → Frame s u
  Frame-trans s t u f g = record {
    start = g.start ∙ f.start;
    count = g.count ∙ f.count;
    outside = λ x h. g.outside x h ∙ f.outside x h;
  }

  pub record Keeps {A : Type 0} (m : M E A) : Type 0 where
    pub apply : (s : St E) → Frame s (m s).1

  bind_of-Keeps :
      {A B : Type 0} (s : St E) (r : Option A × St E) (f : A → M E B)
      → Frame s r.1
      → ((a : A) → Keeps (f a))
      → Frame s (bind_of r f).1
  bind_of-Keeps s (none, t) f h k = h
  bind_of-Keeps s (some a, t) f h k = Frame-trans s t (f a t).1 h ((k a).apply t)

  pub bind-Keeps :
      {A B : Type 0} {m : M E A} {f : A → M E B}
      → Keeps m
      → ((a : A) → Keeps (f a))
      → Keeps (m >>= f)
  bind-Keeps {m = m} {f = f} h k = record { apply = λ s. bind_of-Keeps s (m s) f (h.apply s) k }

  pub then-Keeps : {A B : Type 0} {m : M E A} {f : M E B} → Keeps m → Keeps f → Keeps (m >> f)
  then-Keeps {m = m} {f = f} h k = record {
    apply = λ s. bind_of-Keeps s (m s) (λ _. f) (h.apply s) (λ _. k);
  }

  pub guard-Keeps : (b : Bool) → Keeps (guard b)
  guard-Keeps true = record { apply = Frame-refl }
  guard-Keeps false = record { apply = Frame-refl }

  -- The test of a guard is known after it.
  pub guarded-Keeps :
      {B : Type 0} (b : Bool) {f : M E B} → (b ≡ true → Keeps f) → Keeps (guard b >> f)
  guarded-Keeps true k = record { apply = (k refl).apply }
  guarded-Keeps false k = record { apply = Frame-refl }

  pub if_Keeps :
      {A : Type 0} (b : Bool) {m n : M E A} → Keeps m → Keeps n → Keeps (if b then m else n)
  if_Keeps true h k = h
  if_Keeps false h k = k

  pub get-Keeps : Keeps get
  get-Keeps = record { apply = Frame-refl }

  pub pure-Keeps : {A : Type 0} (a : A) → Keeps (pure a)
  pure-Keeps a = record { apply = Frame-refl }

  pub fail-Keeps : {A : Type 0} → Keeps {A = A} fail
  fail-Keeps = record { apply = Frame-refl }

  pub attempt-Keeps : {A : Type 0} {m : M E A} → Keeps m → Keeps (attempt m)
  attempt-Keeps h = record { apply = h.apply }

  pub modify-Keeps : (f : St E → St E) → ((s : St E) → Frame s (f s)) → Keeps (modify f)
  modify-Keeps f h = record { apply = h }

  pub read-Keeps : (addr n : ℕ) → Keeps (eeprom_read E addr n)
  read-Keeps addr n = record { apply = Frame-refl }

  done_keeps :
      (s : St E) (r : Bool × E.Dev)
      → ((x : ℕ) → page_max * page_size ≤ x → byte r.1 x ≡ byte s.dev x)
      → Frame s (done E r s).1
  done_keeps s (true, d) h = record { start = refl; count = refl; outside = h }
  done_keeps s (false, d) h = record { start = refl; count = refl; outside = h }

  pub write-Keeps :
      (addr : ℕ) (bs : List ℕ)
      → addr + length bs ≤ page_max * page_size
      → Keeps (eeprom_write E addr bs)
  write-Keeps addr bs h = record {
    apply = λ s.
        done_keeps s (E.write addr bs s.dev) (λ x hx. write_outside addr bs s.dev x (ground arith));
  }

  pub erase-Keeps : (addr n : ℕ) → addr + n ≤ page_max * page_size → Keeps (eeprom_erase E addr n)
  erase-Keeps addr n h = record {
    apply = λ s.
        done_keeps s (E.erase addr n s.dev) (λ x hx. erase_outside addr n s.dev x (ground arith));
  }

  with_page-Frame : (s : St E) (i : ℕ) (p : Page) → Frame s (with_page s i p)
  with_page-Frame s i p = record {
    start = refl;
    count = length-set s.pages i p;
    outside = λ x h. refl;
  }

  pub with_page-Keeps : (i : ℕ) (p : St E → Page) → Keeps (modify (λ s. with_page s i (p s)))
  with_page-Keeps i p = record { apply = λ s. with_page-Frame s i (p s) }

  pub ruleset frame_rules = (
    bind-Keeps, then-Keeps, guard-Keeps, if_Keeps, get-Keeps, pure-Keeps, fail-Keeps, attempt-Keeps,
    read-Keeps,
  )

  write_chunks-Keeps :
      (f addr : ℕ) (buf : List ℕ) (remain : ℕ)
      → addr + remain ≤ page_max * page_size
      → Keeps (write_chunks E f addr buf remain)
  unfolding write_chunks
  write_chunks-Keeps zero addr buf remain h = fail-Keeps
  write_chunks-Keeps (suc f) addr buf remain h =
      let n = min page_size remain in
      if_Keeps (remain == 0) (pure-Keeps tt) (
        then-Keeps (write-Keeps addr (take n buf) (omega (arith, length-take_le n buf)))
          (write_chunks-Keeps f (addr + n) buf (remain - n) (omega arith)))

  pub st_page_write-Keeps : (idx offset : ℕ) (buf : List ℕ) → Keeps (st_page_write E idx offset buf)
  unfolding st_page_write
  st_page_write-Keeps idx offset buf = guarded-Keeps (page_valid idx) (λ v.
      guarded-Keeps (ltb (offset + length buf + page_header_size) page_size) (λ w.
        write_chunks-Keeps 2 (idx * page_size + page_header_size + offset) buf (length buf)
          (ground arith)))

  pub st_page_read-Keeps : (idx offset n : ℕ) → Keeps (st_page_read E idx offset n)
  unfolding st_page_read
  st_page_read-Keeps idx offset n = search frame_rules

  note_erased-Frame : (idx : ℕ) (s : St E) → Frame s (note_erased E idx s)
  note_erased-Frame idx s = record {
    start = refl;
    count = length-set s.pages idx _;
    outside = λ x h. refl;
  }

  pub st_page_erase-Keeps : (idx : ℕ) → Keeps (st_page_erase E idx)
  unfolding st_page_erase
  st_page_erase-Keeps idx = guarded-Keeps (page_valid idx) (λ v. bind-Keeps get-Keeps (λ s.
      if_Keeps _ (pure-Keeps tt) (
        then-Keeps (erase-Keeps (idx * page_size) page_size (ground arith))
          (modify-Keeps (note_erased E idx) (note_erased-Frame idx)))))

  note_status-Frame : (idx status : ℕ) (s : St E) → Frame s (note_status E idx status s)
  unfolding note_status
  note_status-Frame idx status s = record {
    start = refl;
    count = length-set s.pages idx _;
    outside = λ x h. refl;
  }

  pub st_page_status_update-Keeps : (idx status : ℕ) → Keeps (st_page_status_update E idx status)
  unfolding st_page_status_update
  st_page_status_update-Keeps idx status = guarded-Keeps (page_valid idx) (λ v.
      bind-Keeps get-Keeps (λ s. if_Keeps _ (pure-Keeps tt) (
        then-Keeps (write-Keeps (idx * page_size) (status ∷ []) (ground arith))
          (modify-Keeps (note_status E idx status) (note_status-Frame idx status)))))

  erase_check_loop-Keeps : (f addr remain : ℕ) → Keeps (erase_check_loop E f addr remain)
  unfolding erase_check_loop
  erase_check_loop-Keeps zero addr remain = fail-Keeps
  erase_check_loop-Keeps (suc f) addr remain = if_Keeps _ (pure-Keeps 1) (
      bind-Keeps (read-Keeps addr _)
        (λ buf. if_Keeps _ (erase_check_loop-Keeps f addr _) (pure-Keeps 0)))

  pub st_page_erase_check-Keeps : (idx : ℕ) → Keeps (st_page_erase_check E idx)
  unfolding st_page_erase_check
  st_page_erase_check-Keeps idx = search (frame_rules, erase_check_loop-Keeps)
