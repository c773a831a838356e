-- ===== src/Coverage/Members.antt =====
-- Which segments a coverage has after marking.
use baf.Base.{
  ℕ, ◌<◌, ◌≡◌, refl, sym, ap, ◌∙◌, ◌⊎◌, inl, inr, true, ◌&&◌, List, [], ◌∷◌, some, some_inj, arith,
  ◌==◌, Bool-cases,
}
use baf.Coverage.{Segment, Coverage, is_less, is_equal, insert, mark_as_used, fits_prev, fits_next}
use baf.Coverage.Fit.{In}

pub same_segment : (x s : Segment) → is_equal x s ≡ true → x ≡ s
unfolding is_equal
same_segment x s e =
    let a : x.start ≡ s.start = ground arith in
    let b : x.len ≡ s.len = ground arith in
    ap (λ n. record { start = n; len = x.len }) a ∙ ap (λ n. record { start = s.start; len = n }) b

insert-In : (x z : Segment) (ss : List Segment) → (z ≡ x) ⊎ In z ss → In z (insert x ss)
unfolding insert
insert-In x z [] h = h
insert-In x z (s ∷ ss) h = elim (Bool-cases (is_less x s)) [
  | inl less ↦ rw less h
  | inr more ↦ elim (Bool-cases (is_equal x s)) [
    | inl same ↦ rw (more, same) (merge h (same_segment x s same))
    | inr differ ↦ rw (more, differ) (later h (insert-In x z ss))
  ]
]
  where
    merge : (z ≡ x) ⊎ In z (s ∷ ss) → x ≡ s → In z (s ∷ ss)
    merge (inl e) same = inl (e ∙ same)
    merge (inr i) same = i

    later :
        (z ≡ x) ⊎ In z (s ∷ ss) → ((z ≡ x) ⊎ In z ss → In z (insert x ss)) → In z (s ∷ insert x ss)
    later (inl e) go = inr (go (inl e))
    later (inr (inl e)) go = inl e
    later (inr (inr i)) go = inr (go (inr i))

marked_case :
    (start len : ℕ) (c c' : Coverage)
    → mark_as_used start len c ≡ some c'
    → (((len ≡ 0) × (c' ≡ c))
        ⊎ (c'.segments ≡ insert (record { start = start; len = len }) c.segments))
unfolding mark_as_used
marked_case start len c c' e = elim (Bool-cases (len == 0)) [
  | inl z ↦ inl (ground arith, sym (some_inj (rw z at e)))
  | inr n ↦ elim (Bool-cases (fits_prev start c.segments && fits_next start len c.segments)) [
    | inl fits ↦ inr (ap (λ (d : Coverage). d.segments) (sym (some_inj (rw (n, fits) at e))))
    | inr over ↦ absurd (ground (arith, n, over, e))
  ]
]

-- Marking keeps the segments, and adds the stretch unless it is empty.
pub mark_as_used-In :
    (start len : ℕ) (c c' : Coverage)
    → mark_as_used start len c ≡ some c'
    → ((z : Segment) → In z c.segments → In z c'.segments)
      × (0 < len → In (record { start = start; len = len }) c'.segments)
mark_as_used-In start len c c' e = elim (marked_case start len c c' e) [
  | inl (z, same) ↦ (λ s i. rw same i, λ h. absurd (omega arith))
  | inr more ↦ (
    λ s i. rw more (insert-In _ s c.segments (inr i)),
    λ h. rw more (insert-In _ _ c.segments (inl refl)),
  )
]
