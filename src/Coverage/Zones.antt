-- ===== src/Coverage/Zones.antt =====
-- The free zones of a coverage whose segments are disjoint.
use baf.Base.{
  ℕ, zero, suc, ◌+◌, ◌-◌, ◌^◌, ◌≤◌, ◌<◌, ◌≡◌, refl, inl, inr, Bool, true, false, ◌&&◌, not, List,
  [], ◌∷◌, Option, none, some, arith, ltb, leb, ◌==◌, if◌then◌else◌, length, any, All, Bool-cases,
}
use baf.Coverage.{
  Segment, Coverage, add64, zone, FreeSegmentsIter, find_free_zones, next_loop, next, drain,
  free_zones,
}

-- An address lies in a segment, or in one of several.
abbrev pub contains : ℕ → Segment → Bool
contains a s = leb s.start a && ltb a (s.start + s.len)

abbrev pub covers : ℕ → List Segment → Bool
covers a ss = any (contains a) ss

-- Segments in their order from `p` on, none empty, no two overlapping, all ends below 2^64.
abbrev pub Chain : ℕ → List Segment → Type 0
Chain p [] = Unit {0}
Chain p (s ∷ ss) =
    (p ≤ s.start) × (0 < s.len) × (s.start + s.len < 2 ^ 64) × Chain (s.start + s.len) ss

abbrev pub Within : ℕ → List Segment → Type 0
Within len = All λ s. s.start + s.len ≤ len

-- The zones between the segments from `p` on, and behind the last, up to `len`.
pub gaps : ℕ → ℕ → List Segment → List Segment
gaps len p [] = if ltb p len then zone p len ∷ [] else []
gaps len p (s ∷ ss) =
    let rest = gaps len (s.start + s.len) ss in if s.start == p then rest else zone p s.start ∷ rest

abbrev Yielded : Type 0
Yielded = Option (FreeSegmentsIter × Option Segment)

abbrev iter : ℕ → List Segment → ℕ → Bool → FreeSegmentsIter
iter len ss q done = record { coverage_len = len; rest = ss; prev_end = q; yielded_last = done }

-- What one call of `next` does to the zones that are still to come.
data Step (len p : ℕ) (segs : List Segment) (r : Yielded) : Type 0 where
  between :
      (z : Segment) (q : ℕ) (ss : List Segment)
      → r ≡ some (iter len ss q false, some z)
      → gaps len p segs ≡ z ∷ gaps len q ss
      → Chain q ss
      → length ss < length segs
      → Step len p segs r
  last :
      (z : Segment) (q : ℕ)
      → r ≡ some (iter len [] q true, some z)
      → gaps len p segs ≡ z ∷ []
      → Step len p segs r
  over : (q : ℕ) → r ≡ some (iter len [] q true, none) → gaps len p segs ≡ [] → Step len p segs r

no_wrap : (a b : ℕ) → a + b < 2 ^ 64 → add64 a b ≡ a + b
no_wrap a b h = omega arith

skip-Step :
    (len p : ℕ) (s : Segment) (ss : List Segment) (r : Yielded)
    → s.start ≡ p
    → Step len (s.start + s.len) ss r
    → Step len p (s ∷ ss) r
unfolding gaps
skip-Step len p s ss r e (between z q ss' a b c d) =
    between z q ss' a (ground arith) c (omega arith)
skip-Step len p s ss r e (last z q a b) = last z q a (ground arith)
skip-Step len p s ss r e (over q a b) = over q a (ground arith)

next_loop-Step :
    (len p : ℕ) (segs : List Segment) → Chain p segs → Step len p segs (next_loop len segs p)
unfolding next_loop gaps
next_loop-Step len p [] h = elim (Bool-cases (ltb p len)) [
  | inl e ↦ last (zone p len) p (rw e) (rw e)
  | inr e ↦ over p (rw e) (rw e)
]
next_loop-Step len p (s ∷ ss) h = elim (Bool-cases (s.start == p)) [
  | inl e ↦
      let at_p : s.start ≡ p = ground arith in
      rw (e, ← at_p, no_wrap s.start s.len h.2)
        (skip-Step len s.start s ss _ refl (next_loop-Step len (s.start + s.len) ss h.3))
  | inr e ↦ between (zone p s.start) (s.start + s.len) ss (ground arith) (rw e) h.3 (omega arith)
]

drain_over : (fuel len q : ℕ) → drain fuel (iter len [] q true) ≡ some []
unfolding drain next
drain_over zero len q = refl
drain_over (suc fuel) len q = refl

drain-gaps :
    (fuel len p : ℕ) (segs : List Segment)
    → Chain p segs
    → length segs + 1 ≤ fuel
    → drain fuel (iter len segs p false) ≡ some (gaps len p segs)
drain-gaps zero len p segs h k = absurd (omega arith)
drain-gaps (suc fuel) len p segs h k = go (next_loop-Step len p segs h) (drain-gaps fuel len)
  where
    go :
        Step len p segs (next_loop len segs p)
        → ((q : ℕ) (ss : List Segment)
            → Chain q ss
            → length ss + 1 ≤ fuel
            → drain fuel (iter len ss q false) ≡ some (gaps len q ss))
        → drain (suc fuel) (iter len segs p false) ≡ some (gaps len p segs)
    go (between z q ss e g c l) ih = unfold drain next in rw (e, g, ih q ss c (omega arith))
    go (last z q e g) ih = unfold drain next in rw (e, g, drain_over fuel len q)
    go (over q e g) ih = unfold drain next in rw (e, g)

pub covers-lower : (q a : ℕ) (ss : List Segment) → Chain q ss → covers a ss ≡ true → q ≤ a
covers-lower q a [] h c = absurd (ground arith)
covers-lower q a (s ∷ ss) h c = ground (arith, covers-lower (s.start + s.len) a ss h.3)

covers-gaps :
    (len p a : ℕ) (segs : List Segment)
    → Chain p segs
    → Within len segs
    → covers a (gaps len p segs) ≡ (leb p a && (ltb a len && not (covers a segs)))
unfolding gaps
covers-gaps len p a [] h w = ground arith
covers-gaps len p a (s ∷ ss) h w =
    ground (
      arith,
      covers-gaps len (s.start + s.len) a ss h.3 w.1,
      covers-lower (s.start + s.len) a ss h.3,
    )

pub Chain-weaken : (p q : ℕ) (ss : List Segment) → p ≤ q → Chain q ss → Chain p ss
Chain-weaken p q [] k h = tt
Chain-weaken p q (s ∷ ss) k h = (omega arith, h.1, h.2, h.3)

gaps-Chain :
    (len p : ℕ) (segs : List Segment)
    → len < 2 ^ 64
    → Within len segs
    → Chain p segs
    → Chain p (gaps len p segs)
unfolding gaps
gaps-Chain len p [] hl w h = elim (Bool-cases (ltb p len)) [
  | inl e ↦ rw e (omega arith, ground arith, ground arith, tt)
  | inr e ↦ rw e tt
]
gaps-Chain len p (s ∷ ss) hl w h =
    let rest = gaps-Chain len (s.start + s.len) ss hl w.1 h.3 in
    elim (Bool-cases (s.start == p)) [
      | inl e ↦ rw e (Chain-weaken p (s.start + s.len) _ (omega arith) rest)
      | inr e ↦ rw e (
        omega arith,
        ground arith,
        omega arith,
        Chain-weaken (p + (s.start - p)) (s.start + s.len) _ (omega arith) rest,
      )
    ]

-- What holds of the coverage of every sound archive: its segments are disjoint, and it is no
-- shorter than they reach.
pub record IsSound (c : Coverage) : Type 0 where
  pub chain : Chain 0 c.segments
  pub within : Within c.len c.segments
  pub len : c.len < 2 ^ 64

pub free_zones-gaps : (c : Coverage) → IsSound c → free_zones c ≡ some (gaps c.len 0 c.segments)
unfolding free_zones find_free_zones
free_zones-gaps c h = drain-gaps (length c.segments + 2) c.len 0 c.segments h.chain (omega arith)

-- If the segments are disjoint and lie within the archive, the iterator over the free zones runs to
-- its end without a panic. Its zones are not empty, in order and disjoint, and an address lies in
-- one of them exactly if it lies in the archive and in no segment.
pub free_zones_lem :
    (c : Coverage)
    → IsSound c
    → (zs : List Segment) × (free_zones c ≡ some zs)
      × Chain 0 zs
      × ((a : ℕ) → covers a zs ≡ (ltb a c.len && not (covers a c.segments)))
free_zones_lem c h = (
  gaps c.len 0 c.segments,
  free_zones-gaps c h,
  gaps-Chain c.len 0 c.segments h.len h.within h.chain,
  λ a. ground (arith, covers-gaps c.len 0 a c.segments h.chain h.within),
)
