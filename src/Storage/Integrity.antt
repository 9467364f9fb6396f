-- ===== src/Storage/Integrity.antt =====
-- What the check of an item in src/storage.c refuses.
use ch582_water_jinru.Common.{
  ℕ, ◌<◌, ◌≡◌, ◌≢◌, sym, ◌∙◌, true, false, List, ◌∷◌, ◌++◌, ==_iff, ==_ne,
}
use ch582_water_jinru.Crc.{crc_check, crc8_maxim}
use ch582_water_jinru.Crc.Detection.{AllBytes, one_byte_detected}
use ch582_water_jinru.Storage.{Header}
use ch582_water_jinru.Storage.Items.{st_item_verify}

-- An item that the storage accepts is refused once any one byte of its content has another value:
-- `st_item_verify` then answers 0.
pub changed_item_refused :
    (h : Header) (before after : List ℕ) (a b : ℕ)
    → AllBytes before
    → AllBytes after
    → a < 256
    → b < 256
    → a ≢ b
    → st_item_verify (record { header = h; content = before ++ (a ∷ after) }) ≡ true
    → st_item_verify (record { header = h; content = before ++ (b ∷ after) }) ≡ false
unfolding st_item_verify
changed_item_refused h before after a b hb ha p q ne ok =
    ==_ne (crc_check crc8_maxim (before ++ (b ∷ after))) h.crc
      (λ e. one_byte_detected before after a b hb ha p q ne ((==_iff _ h.crc).0 ok ∙ sym e))
