-- ===== src/Archive/Open/NextId.antt =====
-- The next id of an archive that is opened.
use baf.Base.{ℕ, ◌+◌, ◌^◌, ◌≤◌, ◌<◌, ◌≡◌, [], ◌∷◌, some, arith, leb, All, All-map, if◌then◌else◌}
use baf.Base.Maps.{Map, nat_key}
use baf.Archive.Open.{max_key, next_id_after}

max_key-start : {V : Type 0} (m : Map ℕ V) (n : ℕ) → n ≤ max_key m n
unfolding max_key
max_key-start [] n = omega arith
max_key-start ((k, v) ∷ m) n = ground (arith, max_key-start m (if leb n k then k else n))

max_key-bound : {V : Type 0} (m : Map ℕ V) (n : ℕ) → All (λ e. e.0 ≤ max_key m n) m
unfolding max_key
max_key-bound [] n = tt
max_key-bound ((k, v) ∷ m) n = (
  ground (arith, max_key-start m (if leb n k then k else n)),
  max_key-bound m (if leb n k then k else n),
)

-- The id that opening an archive computes from its directories and files is greater than the id of
-- each of them, not 0, and a 64-bit number.
pub next_id_after-max_key :
    {D F : Type 0} (dirs : Map ℕ D) (files : Map ℕ F) (n : ℕ)
    → next_id_after (max_key files (max_key dirs 0)) ≡ some n
    → All (λ e. e.0 < n) dirs × All (λ e. e.0 < n) files × (0 < n) × (n < 2 ^ 64)
unfolding next_id_after
next_id_after-max_key dirs files n e =
    let m = max_key files (max_key dirs 0) in
    let next : n ≡ m + 1 = ground arith in
    let grown = max_key-start files (max_key dirs 0) in
    (
      All-map (λ d h. omega (arith, next, grown, h)) dirs (max_key-bound dirs 0),
      All-map (λ f h. omega (arith, next, h)) files (max_key-bound files (max_key dirs 0)),
      omega (arith, next),
      ground arith,
    )
