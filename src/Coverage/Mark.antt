-- ===== src/Coverage/Mark.antt =====
-- Marking a free stretch as used, and a segment as free.
use baf.Base.{
  ℕ, ◌+◌, ◌^◌, ◌≤◌, ◌<◌, ◌≡◌, refl, subst, sym, ap, ◌∙◌, ◌⊎◌, inl, inr, true, false, ◌&&◌, ◌||◌,
  not, List, [], ◌∷◌, some, arith, All, Bool-cases,
}
use baf.Coverage.{
  Segment, Coverage, is_less, is_equal, insert, remove, fits_prev, fits_next, mark_as_used,
  mark_as_free,
}
use baf.Coverage.Zones.{contains, covers, Chain, Chain-weaken}
use baf.Coverage.Fit.{In}
use baf.Coverage.Members.{same_segment}

-- The stretch overlaps no segment.
abbrev pub Clear : ℕ → ℕ → List Segment → Type 0
Clear start len = All λ s. (s.start + s.len ≤ start) ⊎ (start + len ≤ s.start)

fits_prev-Clear :
    (start len p : ℕ) (ss : List Segment)
    → 0 < len
    → Chain p ss
    → Clear start len ss
    → fits_prev start ss ≡ true
unfolding fits_prev
fits_prev-Clear start len p [] k h c = refl
fits_prev-Clear start len p (s ∷ ss) k h c =
    ground (arith, fits_prev-Clear start len (s.start + s.len) ss k h.3 c.1)

fits_next-Clear :
    (start len p : ℕ) (ss : List Segment)
    → 0 < len
    → start + len < 2 ^ 64
    → Chain p ss
    → Clear start len ss
    → fits_next start len ss ≡ true
unfolding fits_next
fits_next-Clear start len p [] k b h c = refl
fits_next-Clear start len p (s ∷ ss) k b h c =
    ground (arith, fits_next-Clear start len (s.start + s.len) ss k b h.3 c.1)

pub insert_before :
    (x s : Segment) (ss : List Segment) → x.start < s.start → insert x (s ∷ ss) ≡ x ∷ s ∷ ss
unfolding insert is_less
insert_before x s ss h = ground arith

pub insert_after :
    (x s : Segment) (ss : List Segment) → s.start < x.start → insert x (s ∷ ss) ≡ s ∷ insert x ss
unfolding insert is_less is_equal
insert_after x s ss h = ground arith

insert-Chain :
    (x : Segment) (p : ℕ) (ss : List Segment)
    → p ≤ x.start
    → 0 < x.len
    → x.start + x.len < 2 ^ 64
    → Chain p ss
    → Clear x.start x.len ss
    → Chain p (insert x ss)
insert-Chain x p [] k l b h c = unfold insert in (k, l, b, tt)
insert-Chain x p (s ∷ ss) k l b h (inr before, c) =
    subst (Chain p) (sym (insert_before x s ss (omega arith))) (k, l, b, (before, h.1, h.2, h.3))
insert-Chain x p (s ∷ ss) k l b h (inl after, c) =
    subst (Chain p) (sym (insert_after x s ss (omega arith)))
      (h.0, h.1, h.2, insert-Chain x (s.start + s.len) ss after l b h.3 c)

covers-insert :
    (x : Segment) (a : ℕ) (ss : List Segment)
    → covers a (insert x ss) ≡ (contains a x || covers a ss)
unfolding insert is_less is_equal
covers-insert x a [] = ground arith
covers-insert x a (s ∷ ss) = ground (arith, covers-insert x a ss)

-- A stretch that is not empty, ends below 2^64 and overlaps no segment is marked without a panic:
-- the segments stay disjoint and in order, and the used addresses are those of before and those
-- of the stretch.
pub mark_as_used_lem :
    (start len : ℕ) (c : Coverage)
    → Chain 0 c.segments
    → 0 < len
    → start + len < 2 ^ 64
    → Clear start len c.segments
    → (c' : Coverage) × (mark_as_used start len c ≡ some c')
      × (c'.len ≡ c.len)
      × Chain 0 c'.segments
      × ((a : ℕ)
          → covers a c'.segments
            ≡ (contains a (record { start = start; len = len }) || covers a c.segments))
unfolding mark_as_used
mark_as_used_lem start len c h k b clear =
    let x : Segment = record { start = start; len = len } in
    (
      record c { segments = insert x c.segments },
      ground (
        arith,
        fits_prev-Clear start len 0 c.segments k h clear,
        fits_next-Clear start len 0 c.segments k b h clear,
      ),
      refl,
      insert-Chain x 0 c.segments (omega arith) k b h clear,
      λ a. covers-insert x a c.segments,
    )

lower : (x : Segment) (q : ℕ) (ss : List Segment) → Chain q ss → In x ss → q ≤ x.start
lower x q [] h i = absurd i
lower x q (s ∷ ss) h (inl e) = ground arith
lower x q (s ∷ ss) h (inr i) = ground (arith, lower x (s.start + s.len) ss h.3 i)

covers-lower_end : (q a : ℕ) (ss : List Segment) → Chain q ss → a < q → covers a ss ≡ false
covers-lower_end q a [] h k = refl
covers-lower_end q a (s ∷ ss) h k = ground (arith, covers-lower_end (s.start + s.len) a ss h.3)

remove-In :
    (x : Segment) (q : ℕ) (ss : List Segment) → Chain q ss → In x ss → (remove x ss).0 ≡ true
unfolding remove is_equal
remove-In x q [] h i = absurd i
remove-In x q (s ∷ ss) h (inl e) = ground arith
remove-In x q (s ∷ ss) h (inr i) = ground (arith, remove-In x (s.start + s.len) ss h.3 i)

pub remove-Chain : (x : Segment) (q : ℕ) (ss : List Segment) → Chain q ss → Chain q (remove x ss).1
unfolding remove
remove-Chain x q [] h = tt
remove-Chain x q (s ∷ ss) h = elim (Bool-cases (is_equal x s)) [
  | inl e ↦ rw e (Chain-weaken q (s.start + s.len) ss (omega arith) h.3)
  | inr e ↦ rw e (h.0, h.1, h.2, remove-Chain x (s.start + s.len) ss h.3)
]

covers-remove :
    (x : Segment) (a q : ℕ) (ss : List Segment)
    → Chain q ss
    → In x ss
    → covers a (remove x ss).1 ≡ (covers a ss && not (contains a x))
unfolding remove is_equal
covers-remove x a q [] h i = absurd i
covers-remove x a q (s ∷ ss) h (inl e) = ground (arith, covers-lower_end (s.start + s.len) a ss h.3)
covers-remove x a q (s ∷ ss) h (inr i) = ground (
  arith,
  covers-remove x a (s.start + s.len) ss h.3 i,
  lower x (s.start + s.len) ss h.3 i,
  covers-lower_end (s.start + s.len) a ss h.3,
)

In-positive : (x : Segment) (q : ℕ) (ss : List Segment) → Chain q ss → In x ss → 0 < x.len
In-positive x q [] h i = absurd i
In-positive x q (s ∷ ss) h (inl e) = ground arith
In-positive x q (s ∷ ss) h (inr i) = In-positive x (s.start + s.len) ss h.3 i

pub remove-keeps :
    (x z : Segment) (ss : List Segment) → In z ss → (z ≡ x → ⊥) → In z (remove x ss).1
unfolding remove
remove-keeps x z [] i differ = absurd i
remove-keeps x z (s ∷ ss) (inl e) differ = elim (Bool-cases (is_equal x s)) [
  | inl same ↦ absurd (differ (e ∙ sym (same_segment x s same)))
  | inr other ↦ rw other (inl e)
]
remove-keeps x z (s ∷ ss) (inr i) differ = elim (Bool-cases (is_equal x s)) [
  | inl same ↦ rw same i
  | inr other ↦ rw other (inr (remove-keeps x z ss i differ))
]

other_segment : (x s : Segment) → is_equal x s ≡ false → x ≡ s → ⊥
unfolding is_equal
other_segment x s other e =
    let starts : x.start ≡ s.start = ap (λ (y : Segment). y.start) e in
    let lens : x.len ≡ s.len = ap (λ (y : Segment). y.len) e in ground (arith, other, starts, lens)

remove-only :
    (x z : Segment) (q : ℕ) (ss : List Segment)
    → Chain q ss
    → In z (remove x ss).1
    → In z ss × (z ≡ x → ⊥)
unfolding remove
remove-only x z q [] h i = absurd i
remove-only x z q (s ∷ ss) h i = elim (Bool-cases (is_equal x s)) [
  | inl same ↦
      let later : In z ss = rw same at i in
      let behind = lower z (s.start + s.len) ss h.3 later in
      (
        inr later,
        λ e. absurd (
            let at : z.start ≡ s.start =
              ap (λ (y : Segment). y.start) (e ∙ same_segment x s same) in
            omega (arith, behind, at, h.1)),
      )
  | inr other ↦
      let kept : In z (s ∷ (remove x ss).1) = rw other at i in
      elim kept [
        | inl e ↦ (inl e, λ is. other_segment x s other (sym is ∙ e))
        | inr i' ↦
            let (was, differ) = remove-only x z (s.start + s.len) ss h.3 i' in (inr was, differ)
      ]
]

-- Let a coverage have disjoint segments in ascending order. Freeing one of them is answered by
-- `true`: the others are the segments of the result, which are disjoint and in order again, and
-- exactly the addresses of the freed one are used no longer.
pub mark_as_free_lem :
    (x : Segment) (c : Coverage)
    → Chain 0 c.segments
    → In x c.segments
    → (c' : Coverage) × (mark_as_free x c ≡ (true, c'))
      × (c'.len ≡ c.len)
      × Chain 0 c'.segments
      × ((z : Segment) → In z c.segments → (z ≡ x → ⊥) → In z c'.segments)
      × ((z : Segment) → In z c'.segments → In z c.segments × (z ≡ x → ⊥))
      × ((a : ℕ) → covers a c'.segments ≡ (covers a c.segments && not (contains a x)))
unfolding mark_as_free
mark_as_free_lem x c h i = (
  record c { segments = (remove x c.segments).1 },
  ground (arith, remove-In x 0 c.segments h i, In-positive x 0 c.segments h i),
  refl,
  remove-Chain x 0 c.segments h,
  λ z. remove-keeps x z c.segments,
  λ z. remove-only x z 0 c.segments h,
  λ a. covers-remove x a 0 c.segments h i,
)
