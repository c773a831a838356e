-- ===== src/Coverage/Overlap.antt =====
-- An overlap that `mark_as_used` lets through. Its first assertion looks at the first segment that
-- starts no later than the new one, which is the very first of all, and not at the nearest.
use baf.Base.{
  ℕ, zero, suc, ◌+◌, ◌^◌, ◌≤◌, ◌<◌, ◌≡◌, refl, subst, sym, ◌⊎◌, inl, inr, true, false, List, [],
  ◌∷◌, Option, none, some, arith, ◌==◌, length, All, Bool-cases,
}
use baf.Coverage.{
  Segment, Coverage, add64, zone, FreeSegmentsIter, insert, fits_prev, fits_next, mark_as_used,
  find_free_zones, next_loop, next, drain, free_zones, find_free_zone_for,
}
use baf.Coverage.Zones.{covers, covers-lower, Chain}
use baf.Coverage.Mark.{insert_after}

-- Somewhere in the list a segment starts before the end of the one in front of it.
abbrev Clashes : ℕ → List Segment → Type 0
Clashes p [] = ⊥
Clashes p (s ∷ ss) =
    (s.start < p) ⊎ ((p ≤ s.start) × (s.start + s.len < 2 ^ 64) × Clashes (s.start + s.len) ss)

abbrev Yielded : Type 0
Yielded = Option (FreeSegmentsIter × Option Segment)

data Step (len : ℕ) (segs : List Segment) (r : Yielded) : Type 0 where
  panics : r ≡ none → Step len segs r
  yields :
      (z : Segment) (q : ℕ) (ss : List Segment)
      → r
        ≡ some
            (record { coverage_len = len; rest = ss; prev_end = q; yielded_last = false }, some z)
      → Clashes q ss
      → length ss < length segs
      → Step len segs r

longer :
    (len : ℕ) (s : Segment) (ss : List Segment) (r : Yielded) → Step len ss r → Step len (s ∷ ss) r
longer len s ss r (panics e) = panics e
longer len s ss r (yields z q ss' e c l) = yields z q ss' e c (omega arith)

next_loop-Step :
    (len p : ℕ) (segs : List Segment) → Clashes p segs → Step len segs (next_loop len segs p)
unfolding next_loop
next_loop-Step len p [] c = absurd c
next_loop-Step len p (s ∷ ss) (inl early) = panics (ground arith)
next_loop-Step len p (s ∷ ss) (inr (k, b, c)) = elim (Bool-cases (s.start == p)) [
  | inl e ↦
      let sum : add64 p s.len ≡ s.start + s.len = ground arith in
      rw (e, sum) (longer len s ss _ (next_loop-Step len (s.start + s.len) ss c))
  | inr e ↦ yields (zone p s.start) (s.start + s.len) ss (ground arith) c (omega arith)
]

drain-Clashes :
    (fuel len p : ℕ) (segs : List Segment)
    → Clashes p segs
    → length segs + 1 ≤ fuel
    → drain fuel (record { coverage_len = len; rest = segs; prev_end = p; yielded_last = false })
      ≡ none
drain-Clashes zero len p segs c k = absurd (omega arith)
drain-Clashes (suc fuel) len p segs c k = go (next_loop-Step len p segs c) (drain-Clashes fuel len)
  where
    go :
        Step len segs (next_loop len segs p)
        → ((q : ℕ) (ss : List Segment)
            → Clashes q ss
            → length ss + 1 ≤ fuel
            → drain fuel
                (record { coverage_len = len; rest = ss; prev_end = q; yielded_last = false })
              ≡ none)
        → drain
            (suc fuel)
            (record { coverage_len = len; rest = segs; prev_end = p; yielded_last = false })
          ≡ none
    go (panics e) ih = unfold drain next in rw e
    go (yields z q ss e c' l) ih = unfold drain next in rw (e, ih q ss c' (omega arith))

insert-Clashes :
    (x : Segment) (p : ℕ) (ss : List Segment)
    → Chain p ss
    → All (λ s. s.start < x.start) ss
    → covers x.start ss ≡ true
    → Clashes p (insert x ss)
insert-Clashes x p [] h l c = absurd (ground arith)
insert-Clashes x p (s ∷ []) h l c =
    subst (Clashes p) (sym (insert_after x s [] l.0))
      (inr (h.0, h.2, unfold insert in inl (ground arith)))
insert-Clashes x p (s ∷ t ∷ ts) h l c =
    subst (Clashes p) (sym (insert_after x s (t ∷ ts) l.0))
      (inr (h.0, h.2, insert-Clashes x (s.start + s.len) (t ∷ ts) h.3 l.1 (ground arith)))

fits_next_last :
    (start len : ℕ) (ss : List Segment)
    → All (λ s. s.start < start) ss
    → fits_next start len ss ≡ true
unfolding fits_next
fits_next_last start len [] h = refl
fits_next_last start len (s ∷ ss) h = ground (arith, fits_next_last start len ss h.1)

fits_prev_first :
    (start : ℕ) (first : Segment) (rest : List Segment)
    → first.start + first.len ≤ start
    → first.start + first.len < 2 ^ 64
    → fits_prev start (first ∷ rest) ≡ true
unfolding fits_prev
fits_prev_first start first rest h b = ground arith

-- Let the segments be disjoint and in ascending order, and let a stretch that is not empty have its
-- first address in one of them that is not the first, and no segment start at that address or later.
-- Then `mark_as_used` accepts the stretch, and on the coverage that results the iterator over the
-- free zones panics, and so does `find_free_zone_for`, for any capacity.
pub mark_as_used_overlap :
    (start len total : ℕ) (first : Segment) (rest : List Segment)
    → Chain 0 (first ∷ rest)
    → 0 < len
    → All (λ s. s.start < start) rest
    → covers start rest ≡ true
    → (c' : Coverage) × (mark_as_used start len (record { len = total; segments = first ∷ rest })
        ≡ some c')
      × (free_zones c' ≡ none)
      × ((capacity : ℕ) → find_free_zone_for capacity c' ≡ none)
unfolding mark_as_used
mark_as_used_overlap start len total first rest h k l c =
    let x : Segment = record { start = start; len = len } in
    let behind : first.start + first.len ≤ start =
      covers-lower (first.start + first.len) start rest h.3 c in
    let starts : first.start < start = omega arith in
    let segments : List Segment = insert x (first ∷ rest) in
    let c' : Coverage = record { len = total; segments = segments } in
    let panics : free_zones c' ≡ none =
      unfold free_zones find_free_zones in
      drain-Clashes (length segments + 2) total 0 segments
        (insert-Clashes x 0 (first ∷ rest) h (starts, l) (ground arith)) (omega arith) in
    (
      c',
      ground (
        arith,
        fits_prev_first start first rest,
        fits_next_last start len (first ∷ rest) (starts, l),
      ),
      panics,
      λ capacity. unfold find_free_zone_for in rw (find_free_zone_for, panics) refl,
    )
