-- ===== src/HumanSize/Tests.antt =====
-- Sizes as they are printed.
use baf.Base.{◌+◌, ◌*◌, ◌≤◌, ◌<◌, ◌≡◌, refl, [], ◌∷◌, none, some, arith}
use baf.HumanSize.{
  digits, decimal, zero_padded, max_prec, scaled_div, approx_int_div, find_unit, human_size,
}
use baf.HumanSize.Rounding.{scaled_div-nearest}

one_and_a_half :
    human_size 1536 none ≡ some (b'1' ∷ b'.' ∷ b'5' ∷ b'0' ∷ b' ' ∷ b'K' ∷ b'i' ∷ b'B' ∷ [])
unfolding human_size find_unit approx_int_div scaled_div max_prec decimal digits zero_padded
one_and_a_half = refl

-- 2000 / 1024 is 1.953125.
scaled_div-nearest_example :
    (2 * (scaled_div 2000 1024 2 * 1024) ≤ 2 * (2000 * max_prec 2) + 1024)
    × (2 * (2000 * max_prec 2) + 1024 < 2 * (scaled_div 2000 1024 2 * 1024) + 2 * 1024)
unfolding max_prec
scaled_div-nearest_example = scaled_div-nearest 2000 1024 2 (omega arith) (omega arith)
