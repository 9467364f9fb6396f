-- ===== src/Storage/Log/Append.antt =====
-- Appending an item to a page, in src/storage.c, against the log on the page.
use mathlib.Core.Path.{subst}
use ch582_water_jinru.Common.{
  ℕ, ◌+◌, ◌*◌, ◌≤◌, ◌<◌, ◌≡◌, ◌≢◌, refl, sym, ap, ◌∙◌, true, false, Option, some, List, [], ◌∷◌,
  ◌++◌, length, get_or, arith, ◌==◌, if◌then◌else◌, lt→ltb, u16, get_or-set_self, length-set,
}
use ch582_water_jinru.Storage.{
  Eeprom, St, Page, guard, pure, page_of, with_page, page_valid, page_max, page_size, Header, Item,
  item_size, item_idx_valid,
}
use ch582_water_jinru.Storage.Flash.{IsFlash, within}
use ch582_water_jinru.Storage.Pages.{st_page_write, st_page_status_update}
use ch582_water_jinru.Storage.Items.{accepts, status_after, update_page, st_page_write_item}
use ch582_water_jinru.Storage.Log.{IsItem, log_size, Stored-at, Stored-cong, Stored-append}
use ch582_water_jinru.Storage.Log.Find.{content_at, HasLog}
use ch582_water_jinru.Storage.Log.Write.{
  Works, then_step, after_write, Marked, status_step, st_page_write_ok, written_lem, item_bytes,
  length-item_bytes, item_bytes_lem, Stored-item_bytes,
}

log_size-append :
    (items : List Item) (item : Item)
    → log_size (items ++ (item ∷ [])) ≡ log_size items + item_size item.header
log_size-append [] item = omega arith
log_size-append (first ∷ items) item = omega (arith, log_size-append items item)

-- From the end of the log on, the page is erased.
abbrev pub IsBlank : (ℕ → ℕ) → ℕ → ℕ → Type 0
IsBlank f idx used = (x : ℕ) → content_at idx used ≤ x → x < (idx + 1) * page_size → f x ≡ 0xff

module _ (E : Eeprom) (F : IsFlash E) (W : Works E) where
  abbrev add_bytes : Header → Page → Page
  add_bytes h p = record p {
    bytes_used = u16 (p.bytes_used + item_size h);
    bytes_available = u16 (p.bytes_available + item_size h);
  }

  abbrev count_up : Page → Page
  count_up q = record q { item_cnt = u16 (q.item_cnt + 1) }

  abbrev after_bytes : ℕ → Item → St E → St E
  after_bytes idx item s =
      let t = after_write E F W (content_at idx (page_of s idx).bytes_used) (item_bytes item) s in
      with_page t idx (add_bytes item.header (page_of t idx))

  abbrev next_status : ℕ → St E → ℕ
  next_status idx t = status_after (page_of t idx).status (page_of t idx).bytes_used

  write_item_run :
      (s u : St E) (idx : ℕ) (item : Item)
      → idx < page_max
      → IsItem item
      → item_idx_valid item.header.idx ≡ true
      → accepts (page_of s idx).status ≡ true
      → (page_of s idx).bytes_used + item_size item.header ≤ 254
      → (let t = after_bytes idx item s in
          (if next_status idx t == (page_of t idx).status
              then pure tt
              else st_page_status_update E idx (next_status idx t))
            t
          ≡ (some tt, u))
      → st_page_write_item E idx item s ≡ (some tt, with_page u idx (count_up (page_of u idx)))
  unfolding st_page_write_item
  write_item_run s u idx item hi v hv ha hn e =
      then_step (guard (page_valid idx)) _ (ap (λ b. guard b s) (lt→ltb idx page_max hi))
      ∙ then_step (guard (item_idx_valid item.header.idx)) _ (ap (λ b. guard b s) hv)
      ∙ then_step (guard (accepts (page_of s idx).status)) _ (ap (λ b. guard b s) ha)
      ∙ then_step (st_page_write E idx (page_of s idx).bytes_used (item_bytes item)) _ (
          st_page_write_ok E F W idx (page_of s idx).bytes_used (item_bytes item) s hi
            (omega (arith, length-item_bytes item v)) (omega (arith, length-item_bytes item v, hn)))
      ∙ (let t = after_bytes idx item s in
          then_step
            (if next_status idx t == (page_of t idx).status
              then pure tt
              else st_page_status_update E idx (next_status idx t))
            (update_page E idx count_up) {s = t} e)

  -- What appending an item comes to: success, one more item in the log, and the rest of the page
  -- still blank.
  pub record Appended (s : St E) (idx : ℕ) (items : List Item) (item : Item)
      (r : Option (Unit {0}) × St E) : Type 0 where
    pub succeeds : r.0 ≡ some tt
    pub log : HasLog E F r.1 idx (items ++ (item ∷ []))
    pub blank : IsBlank (F.byte r.1.dev) idx (page_of r.1 idx).bytes_used
    pub status :
        (page_of r.1 idx).status
        ≡ status_after (page_of s idx).status ((page_of s idx).bytes_used + item_size item.header)
    pub count : (page_of r.1 idx).item_cnt ≡ u16 ((page_of s idx).item_cnt + 1)

  module _ (s u : St E) (idx : ℕ) (items : List Item) (item : Item) (l : HasLog E F s idx items)
      (v : IsItem item) (blank : IsBlank (F.byte s.dev) idx (page_of s idx).bytes_used)
      (hn : (page_of s idx).bytes_used + item_size item.header ≤ 254)
      (m : Marked E F W idx
        (next_status idx (after_bytes idx item s))
        (after_bytes idx item s)
        u) where
    used : ℕ
    used = (page_of s idx).bytes_used

    end : St E
    end = with_page u idx (count_up (page_of u idx))

    bytes_page : page_of (after_bytes idx item s) idx ≡ add_bytes item.header (page_of s idx)
    bytes_page = get_or-set_self s.pages idx _ _ (omega (arith, l.loaded, l.on_page))

    end_page :
        page_of end idx
        ≡ count_up (record (add_bytes item.header (page_of s idx)) {
          status = next_status idx (after_bytes idx item s);
        })
    unfolding end
    end_page =
        get_or-set_self u.pages idx _ _ (
          omega (
            arith,
            m.count,
            length-set s.pages idx (add_bytes item.header (page_of s idx)),
            l.loaded,
            l.on_page,
          ))
        ∙ ap count_up (
            m.page
            ∙ ap (λ (p : Page). record p { status = next_status idx (after_bytes idx item s) })
                bytes_page)

    end_used : (page_of end idx).bytes_used ≡ used + item_size item.header
    unfolding used
    end_used = ap (λ p. p.bytes_used) end_page ∙ omega arith

    outside :
        (x : ℕ)
        → x ≢ idx * page_size
        → within (content_at idx used) (length (item_bytes item)) x ≡ false
        → F.byte end.dev x ≡ F.byte s.dev x
    unfolding used end
    outside x h w = m.same x h ∙ F.write_outside (content_at idx used) (item_bytes item) s.dev x w

    end-Appended : Appended s idx items item (some tt, end)
    unfolding end used
    end-Appended =
        let bytes : (i : ℕ)
            → i < item_size item.header
            → F.byte end.dev (content_at idx used + i) ≡ get_or (item_bytes item) i 0 =
          λ i p.
            m.same (content_at idx used + i) (omega arith)
            ∙ written_lem E F W (content_at idx used) (item_bytes item) s.dev
                (omega (arith, length-item_bytes item v, hn, l.on_page))
                (λ x p q. blank x p (omega (arith, length-item_bytes item v, hn)))
                (item_bytes_lem item v) i (omega (arith, length-item_bytes item v)) in
        record {
          succeeds = refl;
          log = record {
            on_page = l.on_page;
            loaded = length-set u.pages idx _ ∙ m.count ∙ length-set s.pages idx _ ∙ l.loaded;
            used = log_size-append items item ∙ omega (arith, l.used, end_used);
            fits = omega (arith, end_used, hn);
            stored =
                Stored-append (F.byte end.dev) (content_at idx 0) items item
                  (Stored-cong (F.byte s.dev) (F.byte end.dev) (content_at idx 0) items
                    (λ x p q. outside x (omega arith) (ground (arith, l.used))) l.stored)
                  (Stored-at (F.byte end.dev) (content_at idx used)
                    (content_at idx 0 + log_size items) (item ∷ []) (omega (arith, l.used))
                    (Stored-item_bytes (F.byte end.dev) (content_at idx used) item v bytes));
          };
          blank = λ x p q.
              outside x (omega arith) (ground (arith, end_used, length-item_bytes item v))
              ∙ blank x (omega (arith, end_used)) q;
          status =
              ap (λ (p : Page). p.status) end_page
              ∙ ap (λ (p : Page). status_after p.status p.bytes_used) bytes_page
              ∙ ap (status_after (page_of s idx).status) (omega arith);
          count = ap (λ p. p.item_cnt) end_page;
        }

-- Appending an item to a page that holds a log, is erased from the end of the log on, accepts items
-- and has room for this one (254 bytes used at most after it), on a flash that reports success:
-- `st_page_write_item` succeeds, the page then holds the log with the item at its end and is erased
-- from there on, the items are counted up, and the page is active, or full when it has no room
-- for another header.
pub st_page_write_item_lem :
    (E : Eeprom) (F : IsFlash E) (W : Works E) (s : St E) (idx : ℕ) (items : List Item)
    (item : Item)
    → HasLog E F s idx items
    → IsBlank (F.byte s.dev) idx (page_of s idx).bytes_used
    → IsItem item
    → item_idx_valid item.header.idx ≡ true
    → accepts (page_of s idx).status ≡ true
    → (page_of s idx).bytes_used + item_size item.header ≤ 254
    → Appended E F W s idx items item (st_page_write_item E idx item s)
unfolding end
st_page_write_item_lem E F W s idx items item l blank v hv ha hn =
    let t = after_bytes E F W idx item s in
    let (u, e, m) =
      status_step E F W idx (next_status E F W idx t) t l.on_page
        (length-set s.pages idx _ ∙ l.loaded) in
    subst (Appended E F W s idx items item)
      (sym (write_item_run E F W s u idx item l.on_page v hv ha hn e))
      (end-Appended E F W s u idx items item l v blank hn m)
