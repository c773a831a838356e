-- ===== src/HumanSize/Rounding.antt =====
-- The rounding of the quotient to its last decimal.
use baf.Base.{ℕ, ◌+◌, ◌*◌, ◌/◌, ◌%◌, ◌^◌, ◌≤◌, ◌<◌, ◌≡◌, ap, ◌∙◌, inl, inr, arith, leb, Bool-cases}
use native.Mathlib.Nat.{mul-le-mul_right, div-add-mod', mod-lt, mod-eq_of_lt}
use baf.HumanSize.{max_prec, round_last, scaled_div}

-- A quotient with one digit more, rounded by that digit, is off by a half at most.
round_lem :
    (y b q : ℕ)
    → q * b ≤ y * 10
    → y * 10 < q * b + b
    → (2 * (round_last q * b) ≤ 2 * y + b) × (2 * y + b < 2 * (round_last q * b) + 2 * b)
round_lem y b q below above =
    let t = q / 10 in
    let r = q % 10 in
    let whole : q ≡ 10 * t + r = omega arith in
    let parts : q * b ≡ 10 * (t * b) + r * b = ap (λ (z : ℕ). z * b) whole ∙ omega arith in
    let small : r * b ≤ 9 * b = mul-le-mul_right b (omega arith) in
    elim (Bool-cases (leb 5 r)) [
      | inl up ↦
          let more : 5 * b ≤ r * b = mul-le-mul_right b (ground (arith, up)) in
          rw up (
            omega (arith, below, above, parts, small, more),
            omega (arith, below, above, parts, small, more),
          )
      | inr down ↦
          let less : r * b ≤ 4 * b = mul-le-mul_right b (ground (arith, down)) in
          rw down
            (omega (arith, below, above, parts, less), omega (arith, below, above, parts, less))
    ]

-- Let the divisor `b` not be 0, and ten times the dividend in units of the last decimal be below
-- 2^128. Then the quotient `d` in these units is the nearest number to the exact one, and the
-- greater of the two where that is halfway between them: with `y` the dividend in these units,
-- 2 * (d * b) ≤ 2 * y + b < 2 * (d * b) + 2 * b.
pub scaled_div-nearest :
    (a b precision : ℕ)
    → 0 < b
    → a * max_prec precision * 10 < 2 ^ 128
    → (2 * (scaled_div a b precision * b) ≤ 2 * (a * max_prec precision) + b)
      × (2 * (a * max_prec precision) + b < 2 * (scaled_div a b precision * b) + 2 * b)
unfolding scaled_div
scaled_div-nearest a b precision some_b fits =
    let x = a * max_prec precision * 10 in
    let q = x / b in
    let whole : q * b + x % b ≡ x = div-add-mod' x b in
    let left : x % b < b = mod-lt x some_b in
    let unwrapped : round_last (x % 2 ^ 128 / b) ≡ round_last q =
      ap (λ n. round_last (n / b)) (mod-eq_of_lt fits) in
    rw unwrapped
      (round_lem (a * max_prec precision) b q (omega (arith, whole)) (omega (arith, whole, left)))
