-- ===== src/Storage/Log.antt =====
-- A page of src/storage.c as a log: the items that its bytes hold, one after the other.
pub mod Find
pub mod Write
pub mod Append
pub mod RoundTrip
pub mod ScanItem
pub mod Reload
mod Tests
use mathlib.Core.Path.{subst}
use ch582_water_jinru.Common.{
  ℕ, zero, suc, ◌+◌, ◌*◌, ◌%◌, ◌/◌, ◌≤◌, ◌<◌, ◌≡◌, refl, ap, ◌∙◌, List, [], ◌∷◌, ◌++◌, length,
  get_or, arith,
}
use ch582_water_jinru.Storage.{Header, Item, header_bytes, header_of, header_size, item_size}
use ch582_water_jinru.Storage.Flash.{span}

-- What the source's types and its writers guarantee of an item.
pub record IsItem (item : Item) : Type 0 where
  pub sized : item.header.len ≡ length item.content
  pub len_byte : item.header.len < 256
  pub crc_byte : item.header.crc < 256
  pub idx_word : item.header.idx < 65536
  pub content_bytes : (i : ℕ) → get_or item.content i 0 < 256

abbrev pub AllItems : List Item → Type 0
AllItems [] = Unit {0}
AllItems (item ∷ items) = IsItem item × AllItems items

-- The bytes that the items take.
abbrev pub log_size : List Item → ℕ
log_size [] = 0
log_size (item ∷ items) = item_size item.header + log_size items

-- The items stand in the bytes `f` from an address on.
abbrev pub Stored : (ℕ → ℕ) → ℕ → List Item → Type 0
Stored f addr [] = Unit {0}
Stored f addr (item ∷ items) =
    (span f addr header_size ≡ header_bytes item.header)
    × (span f (addr + header_size) item.header.len ≡ item.content)
    × Stored f (addr + item_size item.header) items

pub header_of-header_bytes : (h : Header) → header_of (header_bytes h) ≡ h
unfolding header_of header_bytes
header_of-header_bytes h = ap (λ i. record h { idx = i }) (omega arith)

pub span_cong :
    (f g : ℕ → ℕ) (addr n : ℕ)
    → ((x : ℕ) → addr ≤ x → x < addr + n → g x ≡ f x)
    → span g addr n ≡ span f addr n
span_cong f g addr zero h = refl
span_cong f g addr (suc n) h = rw (
  h addr (omega arith) (omega arith),
  span_cong f g (addr + 1) n (λ x p q. h x (omega arith) (omega arith)),
)

pub Stored-cong :
    (f g : ℕ → ℕ) (addr : ℕ) (items : List Item)
    → ((x : ℕ) → addr ≤ x → x < addr + log_size items → g x ≡ f x)
    → Stored f addr items
    → Stored g addr items
Stored-cong f g addr [] h st = tt
Stored-cong f g addr (item ∷ items) h (a, b, c) = (
  span_cong f g addr 4 (λ x p q. h x p (omega arith)) ∙ a,
  span_cong f g (addr + 4) item.header.len (λ x p q. h x (omega arith) (omega arith)) ∙ b,
  Stored-cong f g (addr + item_size item.header) items (λ x p q. h x (omega arith) (omega arith)) c,
)

pub Stored-at :
    (f : ℕ → ℕ) (a b : ℕ) (items : List Item) → a ≡ b → Stored f a items → Stored f b items
Stored-at f a b items e st = subst (λ x. Stored f x items) e st

pub Stored-append :
    (f : ℕ → ℕ) (addr : ℕ) (items : List Item) (item : Item)
    → Stored f addr items
    → Stored f (addr + log_size items) (item ∷ [])
    → Stored f addr (items ++ (item ∷ []))
Stored-append f addr [] item st one = Stored-at f (addr + 0) addr (item ∷ []) (omega arith) one
Stored-append f addr (first ∷ items) item (a, b, c) one = (
  a,
  b,
  Stored-append f (addr + item_size first.header) items item c (
      Stored-at f _ (addr + item_size first.header + log_size items) (item ∷ []) (omega arith) one),
)
