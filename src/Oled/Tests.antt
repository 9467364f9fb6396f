-- ===== src/Oled/Tests.antt =====
-- The theorems on the frame buffer of src/oled.c at concrete buffers.
use ch582_water_jinru.Common.{
  ℕ, zero, suc, ◌≡◌, ◌<◌, refl, false, [], get_or, length, replicate, arith, length-replicate,
}
use ch582_water_jinru.Oled.{
  Oled, OledArea, gram_set, oled_draw_point, point_byte, oled_clear_buffer, kept_bits,
}
use ch582_water_jinru.Oled.Pixels.{IsGram, pixel, pixel-oled_draw_point}
use ch582_water_jinru.Oled.Areas.{gram_set-IsGram, pixel-oled_clear_buffer}

abbrev dark : Oled
dark = record { gram = replicate 144 (replicate 8 0); flag_refresh = false; sent = [] }

replicate_holds :
    {A : Type 0} (P : A → Type 0) (n i : ℕ) (a d : A) → P a → P d → P (get_or (replicate n a) i d)
replicate_holds P zero i a d pa pd = pd
replicate_holds P (suc n) zero a d pa pd = pa
replicate_holds P (suc n) (suc i) a d pa pd = replicate_holds P n i a d pa pd

get_or-replicate : {A : Type 0} (n i : ℕ) (a d : A) → i < n → get_or (replicate n a) i d ≡ a
get_or-replicate zero i a d h = absurd (omega arith)
get_or-replicate (suc n) zero a d h = refl
get_or-replicate (suc n) (suc i) a d h = get_or-replicate n i a d (omega arith)

dark_column : (x : ℕ) → x < 144 → length (get_or dark.gram x []) ≡ 8
dark_column x h = rw (get_or-replicate 144 x (replicate {A = ℕ} 8 0) [] h)

dark-IsGram : IsGram dark
dark-IsGram = record {
  columns = length-replicate 144 (replicate {A = ℕ} 8 0);
  pages = dark_column;
  bytes = λ x i.
      replicate_holds (λ c. get_or c i 0 < 256) 144 x (replicate {A = ℕ} 8 0) []
        (replicate_holds (λ b. b < 256) 8 i 0 0 (omega arith) (omega arith)) (omega arith);
}

-- Eight light pixels.
abbrev one_byte : Oled
one_byte = gram_set 3 1 0xff dark

abbrev second_page : OledArea
second_page = record { x = 2; y = 8; width = 4; height = 8 }

drawn_light : pixel 5 9 (oled_draw_point 5 9 1 dark) ≡ 1
unfolding oled_draw_point point_byte
drawn_light = refl

-- Of an area that ends within a page, the last rows stay.
rest_stays :
    pixel 3 9 (oled_clear_buffer (record { x = 2; y = 8; width = 4; height = 4 }) one_byte) ≡ 1
unfolding oled_clear_buffer kept_bits
rest_stays = refl

pixel-oled_draw_point_example : pixel 3 9 (oled_draw_point 3 9 0 one_byte) ≡ 0
pixel-oled_draw_point_example =
    pixel-oled_draw_point 3 9 0 3 9 one_byte
      (gram_set-IsGram dark 3 1 0xff dark-IsGram (omega arith) (omega arith) (omega arith))

pixel-oled_clear_buffer_example : pixel 3 9 (oled_clear_buffer second_page one_byte) ≡ 0
pixel-oled_clear_buffer_example =
    pixel-oled_clear_buffer second_page 3 9 one_byte (record { top = refl; rows = refl })
      (gram_set-IsGram dark 3 1 0xff dark-IsGram (omega arith) (omega arith) (omega arith))
