-- ===== src/Storage/Log/Write.antt =====
-- Writes that the flash reports as successful, in src/storage.c: what `st_page_write` and
-- `st_page_status_update` leave behind, and the bytes of an item.
use Prim.Native.Nat.{bit_and}
use ch582_water_jinru.Common.{
  ℕ, zero, suc, ◌+◌, ◌-◌, ◌*◌, ◌≤◌, ◌<◌, ◌≡◌, ◌≢◌, refl, sym, ap, ◌∙◌, Bool, true, false, some,
  List, [], ◌∷◌, ◌++◌, length, get_or, min, arith, inl, inr, ltb, ◌==◌, if◌then◌else◌, lt→ltb,
  take-length, length-append, get_or-append_left, get_or-append_right, get_or-set_self, length-set,
  Bool-cases, ==_iff,
}
use ch582_water_jinru.Common.Bits.{bit_and_ones}
use ch582_water_jinru.Storage.{
  Eeprom, St, M, guard, pure, modify, bind_of, ◌>>◌, page_of, page_valid, page_max, page_size,
  page_header_size, Item, header_bytes, header_size, item_size,
}
use ch582_water_jinru.Storage.Flash.{IsFlash, span, eeprom_max_size}
use ch582_water_jinru.Storage.Pages.{
  done, eeprom_write, st_page_write, write_chunks, st_page_status_update, write_status, note_status,
}
use ch582_water_jinru.Storage.Log.{IsItem, Stored}
use ch582_water_jinru.Storage.Log.Find.{content_at}

-- The flash reports success of every write inside it.
pub record Works (E : Eeprom) : Type 0 where
  pub write_ok :
      (addr : ℕ) (bs : List ℕ) (d : E.Dev)
      → addr + length bs ≤ eeprom_max_size
      → (E.write addr bs d).0 ≡ true

span_of :
    (f : ℕ → ℕ) (addr : ℕ) (bs : List ℕ)
    → ((i : ℕ) → i < length bs → f (addr + i) ≡ get_or bs i 0)
    → span f addr (length bs) ≡ bs
span_of f addr [] h = refl
span_of f addr (b ∷ bs) h =
    let first : f addr ≡ b = ap f (omega arith) ∙ h 0 (omega arith) in
    rw (first, span_of f (addr + 1) bs (λ i p. ap f (omega arith) ∙ h (suc i) (omega arith)))

abbrev pub item_bytes : Item → List ℕ
item_bytes item = header_bytes item.header ++ item.content

pub length-item_bytes :
    (item : Item) → IsItem item → length (item_bytes item) ≡ item_size item.header
unfolding header_bytes
length-item_bytes item v =
    omega (arith, length-append (header_bytes item.header) item.content, v.sized)

pub item_bytes_lem : (item : Item) → IsItem item → (i : ℕ) → get_or (item_bytes item) i 0 < 256
unfolding header_bytes
item_bytes_lem item v zero = v.len_byte
item_bytes_lem item v (suc zero) = v.crc_byte
item_bytes_lem item v (suc (suc zero)) = omega arith
item_bytes_lem item v (suc (suc (suc zero))) = omega (arith, v.idx_word)
item_bytes_lem item v (suc (suc (suc (suc i)))) = v.content_bytes i

pub Stored-item_bytes :
    (f : ℕ → ℕ) (addr : ℕ) (item : Item)
    → IsItem item
    → ((i : ℕ) → i < item_size item.header → f (addr + i) ≡ get_or (item_bytes item) i 0)
    → Stored f addr (item ∷ [])
unfolding header_bytes
Stored-item_bytes f addr item v h = (
  span_of f addr (header_bytes item.header)
      (λ i p. h i (omega arith) ∙ get_or-append_left (header_bytes item.header) item.content i 0 p),
  ap (span f (addr + header_size)) v.sized
      ∙ span_of f (addr + header_size) item.content (λ i p.
        ap f (omega arith)
        ∙ h (header_size + i) (omega (arith, v.sized))
        ∙ get_or-append_right (header_bytes item.header) item.content (header_size + i) i 0 refl),
  tt,
)

pub then_step :
    {E : Eeprom} {A B : Type 0} (m : M E A) (k : M E B) {a : A} {s t : St E}
    → m s ≡ (some a, t)
    → (m >> k) s ≡ k t
then_step m k e = ap (λ r. bind_of r (λ _. k)) e

done_ok :
    {E : Eeprom} (r : Bool × E.Dev) (s : St E)
    → r.0 ≡ true
    → done E r s ≡ (some tt, record s { dev = r.1 })
done_ok (true, d) s h = refl
done_ok (false, d) s h = absurd (ground arith)

module _ (E : Eeprom) (F : IsFlash E) (W : Works E) where
  abbrev pub after_write : ℕ → List ℕ → St E → St E
  after_write addr bs s = record s { dev = (E.write addr bs s.dev).1 }

  write_chunks_once :
      (addr : ℕ) (buf : List ℕ) (s : St E)
      → 0 < length buf
      → length buf ≤ 254
      → addr + length buf ≤ eeprom_max_size
      → write_chunks E 2 addr buf (length buf) s ≡ (some tt, after_write addr buf s)
  unfolding write_chunks
  write_chunks_once addr buf s hp hn ha =
      let some_left : (length buf == 0) ≡ false = ground arith in
      let all : min page_size (length buf) ≡ length buf = omega arith in
      let none_left : length buf - length buf ≡ 0 = omega arith in
      rw (
        some_left,
        all,
        none_left,
        take-length buf,
        done_ok (E.write addr buf s.dev) s (W.write_ok addr buf s.dev ha),
      )

  pub st_page_write_ok :
      (idx offset : ℕ) (buf : List ℕ) (s : St E)
      → idx < page_max
      → 0 < length buf
      → offset + length buf ≤ 254
      → st_page_write E idx offset buf s ≡ (some tt, after_write (content_at idx offset) buf s)
  unfolding st_page_write
  st_page_write_ok idx offset buf s hi hp hn =
      then_step (guard (page_valid idx)) _ (ap (λ b. guard b s) (lt→ltb idx page_max hi))
      ∙ then_step (guard (ltb (offset + length buf + page_header_size) page_size)) _
          (ap (λ b. guard b s) (lt→ltb _ _ (omega arith)))
      ∙ write_chunks_once (content_at idx offset) buf s hp (omega arith) (omega arith)

  -- A page's state before and after a write that leaves every byte but its first as it was.
  pub record Marked (idx status : ℕ) (t u : St E) : Type 0 where
    pub page : page_of u idx ≡ record (page_of t idx) { status = status }
    pub count : length u.pages ≡ length t.pages
    pub same : (x : ℕ) → x ≢ idx * page_size → F.byte u.dev x ≡ F.byte t.dev x

  if_false :
      {A : Type 0} (b : Bool) (m n : M E A) (t : St E) → b ≡ false → (if b then m else n) t ≡ n t
  if_false b m n t e = rw e

  update_ok :
      (idx next : ℕ) (t : St E)
      → idx < page_max
      → (next == (page_of t idx).status) ≡ false
      → st_page_status_update E idx next t
        ≡ (some tt, note_status E idx next (after_write (idx * page_size) (next ∷ []) t))
  unfolding st_page_status_update write_status
  update_ok idx next t hi e =
      then_step (guard (page_valid idx)) _ (ap (λ b. guard b t) (lt→ltb idx page_max hi))
      ∙ if_false _ (pure tt) (write_status E idx next) t e
      ∙ then_step (eeprom_write E (idx * page_size) (next ∷ [])) (modify (note_status E idx next))
          (done_ok (E.write (idx * page_size) (next ∷ []) t.dev) t (W.write_ok _ _ _ (omega arith)))

  pub status_step :
      (idx next : ℕ) (t : St E)
      → idx < page_max
      → length t.pages ≡ page_max
      → (u : St E) × ((if next == (page_of t idx).status
              then pure tt
              else st_page_status_update E idx next)
            t
          ≡ (some tt, u))
        × Marked idx next t u
  unfolding note_status
  status_step idx next t hi hl = elim (Bool-cases (next == (page_of t idx).status)) [
    | inl e ↦ (
      t,
      rw e,
      record {
        page =
            ap (λ x. record (page_of t idx) { status = x })
              (sym ((==_iff next (page_of t idx).status).0 e));
        count = refl;
        same = λ x h. refl;
      },
    )
    | inr e ↦ (
      note_status E idx next (after_write (idx * page_size) (next ∷ []) t),
      if_false _ _ _ t e ∙ update_ok idx next t hi e,
      record {
        page = get_or-set_self t.pages idx _ _ (omega (arith, hl));
        count = length-set t.pages idx _;
        same = λ x h. F.write_outside (idx * page_size) (next ∷ []) t.dev x (ground arith);
      },
    )
  ]

  pub written_lem :
      (addr : ℕ) (bs : List ℕ) (d : E.Dev)
      → addr + length bs ≤ eeprom_max_size
      → ((x : ℕ) → addr ≤ x → x < addr + length bs → F.byte d x ≡ 0xff)
      → ((i : ℕ) → get_or bs i 0 < 256)
      → (i : ℕ) → i < length bs
      → F.byte (E.write addr bs d).1 (addr + i) ≡ get_or bs i 0
  written_lem addr bs d ha blank hb i hi =
      let at : addr + i - addr ≡ i = omega arith in
      F.write_inside addr bs d (addr + i) (W.write_ok addr bs d ha) (ground arith)
      ∙ ap (λ x. bit_and x (get_or bs (addr + i - addr) 0))
          (blank (addr + i) (omega arith) (omega arith))
      ∙ ap (λ j. bit_and 0xff (get_or bs j 0)) at
      ∙ bit_and_ones (get_or bs i 0) (hb i)
