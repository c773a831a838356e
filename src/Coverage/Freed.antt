-- ===== src/Coverage/Freed.antt =====
-- Which segments a coverage has after freeing one.
use baf.Base.{ℕ, ◌<◌, ◌≡◌, refl, inl, inr, List, [], ◌∷◌, arith, ltb, Bool-cases}
use baf.Coverage.{Segment, Coverage, is_equal, remove, mark_as_free}
use baf.Coverage.Zones.{Within, IsSound}
use baf.Coverage.Fit.{In}
use baf.Coverage.Mark.{remove-Chain, remove-keeps}

remove-Within :
    (len : ℕ) (x : Segment) (ss : List Segment) → Within len ss → Within len (remove x ss).1
unfolding remove
remove-Within len x [] h = tt
remove-Within len x (s ∷ ss) h = elim (Bool-cases (is_equal x s)) [
  | inl same ↦ rw same h.1
  | inr other ↦ rw other (h.0, remove-Within len x ss h.1)
]

-- A segment that is not the one freed, unless that is empty, stays.
pub mark_as_free-keeps :
    (x z : Segment) (c : Coverage)
    → In z c.segments
    → (0 < x.len → z ≡ x → ⊥)
    → In z (mark_as_free x c).1.segments
unfolding mark_as_free
mark_as_free-keeps x z c i differ = elim (Bool-cases (ltb 0 x.len)) [
  | inl some_len ↦ rw some_len (remove-keeps x z c.segments i (differ (ground (arith, some_len))))
  | inr no_len ↦ rw no_len i
]

pub mark_as_free-IsSound : (x : Segment) (c : Coverage) → IsSound c → IsSound (mark_as_free x c).1
unfolding mark_as_free
mark_as_free-IsSound x c h = elim (Bool-cases (ltb 0 x.len)) [
  | inl some_len ↦ rw some_len (record {
    chain = remove-Chain x 0 c.segments h.chain;
    within = remove-Within c.len x c.segments h.within;
    len = h.len;
  })
  | inr no_len ↦ rw no_len h
]

pub mark_as_free-len : (x : Segment) (c : Coverage) → (mark_as_free x c).1.len ≡ c.len
unfolding mark_as_free
mark_as_free-len x c = elim (Bool-cases (ltb 0 x.len)) [
  | inl some_len ↦ rw some_len refl
  | inr no_len ↦ rw no_len refl
]
