-- ===== src/HumanSize.antt =====
-- crate-bin/src/utils.rs: sizes for people to read. Text is its bytes.
pub mod Rounding
mod Tests
use baf.Base.{
  ℕ, zero, suc, ◌+◌, ◌*◌, ◌-◌, ◌/◌, ◌%◌, ◌^◌, Bool, true, false, ◌&&◌, ◌||◌, List, [], ◌∷◌, ◌++◌,
  Option, none, some, ltb, leb, ◌==◌, if◌then◌else◌, length, replicate,
}

-- The digits of a number. Each round but the last divides the number by ten, so that rounds in
-- the number of its value and one more are enough.
unfoldable pub digits : ℕ → ℕ → List ℕ
digits zero n = []
digits (suc fuel) n =
    let rest = digits fuel (n / 10) in
    if ltb n 10 then (b'0' + n) ∷ [] else rest ++ ((b'0' + n % 10) ∷ [])

-- `to_string`
unfoldable pub decimal : ℕ → List ℕ
decimal n = digits (suc n) n

-- `{:#0precision$}`
unfoldable pub zero_padded : ℕ → List ℕ → List ℕ
zero_padded width text = replicate (width - length text) b'0' ++ text

-- `10_u128.pow(u32::from(precision.min(38)))`
unfoldable pub max_prec : ℕ → ℕ
max_prec precision = 10 ^ (if leb precision 38 then precision else 38)

-- `(div / 10) + if div % 10 >= 5 { 1 } else { 0 }`
abbrev pub round_last : ℕ → ℕ
round_last div = div / 10 + (if leb 5 (div % 10) then 1 else 0)

-- The quotient in units of the last decimal; the product wraps at 2^128.
unfoldable pub scaled_div : ℕ → ℕ → ℕ → ℕ
scaled_div a b precision = round_last ((a * max_prec precision * 10) % 2 ^ 128 / b)

unfoldable pub approx_int_div : ℕ → ℕ → ℕ → List ℕ
approx_int_div a b precision =
    let div = scaled_div a b precision in
    let int_part = div / max_prec precision in
    let frac_part = div % max_prec precision in
    if ltb 0 frac_part && ltb 0 precision
    then decimal int_part ++ (b'.' ∷ zero_padded precision (decimal frac_part))
    else decimal int_part

-- The units from the greatest one on, with their bases.
abbrev pub units : List (List ℕ × ℕ)
units =
    (b'T' ∷ b'i' ∷ b'B' ∷ [], 1024 ^ 4)
    ∷ (b'G' ∷ b'i' ∷ b'B' ∷ [], 1024 ^ 3)
    ∷ (b'M' ∷ b'i' ∷ b'B' ∷ [], 1024 ^ 2)
    ∷ (b'K' ∷ b'i' ∷ b'B' ∷ [], 1024)
    ∷ (b'B' ∷ [], 1)
    ∷ []

-- `find_map`, whose answer is there because the last base is 1.
unfoldable pub find_unit : ℕ → List (List ℕ × ℕ) → Option (List ℕ × ℕ)
find_unit size [] = none
find_unit size ((unit, base) ∷ rest) =
    let others = find_unit size rest in
    if leb base size || base == 1 then some (unit, base) else others

-- `precision.unwrap_or(2)`
abbrev or_two : Option ℕ → ℕ
or_two none = 2
or_two (some n) = n

unfoldable pub human_size : ℕ → Option ℕ → Option (List ℕ)
human_size size precision = elim (find_unit size units) [
  | none ↦ none
  | some u ↦ some (approx_int_div size u.1 (or_two precision) ++ (b' ' ∷ u.0))
]
