-- ===== src/Coverage/Fit.antt =====
-- The choice of a free zone for new data.
use baf.Base.{
  ℕ, ◌≤◌, ◌<◌, ◌≡◌, refl, ap, subst, sym, ◌⊎◌, inl, inr, true, false, ◌&&◌, not, List, [], ◌∷◌,
  Option, none, some, arith, ltb, leb, if◌then◌else◌, All, Bool-cases,
}
use baf.Coverage.{
  Segment, Coverage, free_zones, min_by_len, filter_len, smallest, find_free_zone_for,
}
use baf.Coverage.Zones.{contains, covers, IsSound, free_zones_lem}

abbrev pub In : Segment → List Segment → Type 0
In z [] = ⊥
In z (x ∷ xs) = (z ≡ x) ⊎ In z xs

In-covers :
    (a : ℕ) (z : Segment) (zs : List Segment) → In z zs → contains a z ≡ true → covers a zs ≡ true
In-covers a z [] i c = absurd i
In-covers a z (x ∷ xs) (inl e) c = ground arith
In-covers a z (x ∷ xs) (inr i) c = ground (arith, In-covers a z xs i c)

widen :
    (x z : Segment) (xs : List Segment) (n : ℕ)
    → (n ≤ z.len) × In z xs
    → (n ≤ z.len) × In z (x ∷ xs)
widen x z xs n (k, i) = (k, inr i)

kept :
    (capacity : ℕ) (x z : Segment) (ys xs : List Segment)
    → capacity ≤ x.len
    → (In z ys → (capacity ≤ z.len) × In z xs)
    → In z (x ∷ ys)
    → (capacity ≤ z.len) × In z (x ∷ xs)
kept capacity x z ys xs k f (inl e) = (ground arith, inl e)
kept capacity x z ys xs k f (inr j) = widen x z xs capacity (f j)

filter_len-In :
    (capacity : ℕ) (z : Segment) (zs : List Segment)
    → In z (filter_len capacity zs)
    → (capacity ≤ z.len) × In z zs
unfolding filter_len
filter_len-In capacity z [] i = absurd i
filter_len-In capacity z (x ∷ xs) i = elim (Bool-cases (leb capacity x.len)) [
  | inl e ↦
      kept capacity x z (filter_len capacity xs) xs (ground arith) (filter_len-In capacity z xs)
        (rw e at i)
  | inr e ↦ widen x z xs capacity (filter_len-In capacity z xs (rw e at i))
]

min_by_len_less :
    (best z : Segment) (zs : List Segment)
    → ltb z.len best.len ≡ true
    → min_by_len best (z ∷ zs) ≡ min_by_len z zs
unfolding min_by_len
min_by_len_less best z zs e = ap (λ b. min_by_len (if b then z else best) zs) e

min_by_len_more :
    (best z : Segment) (zs : List Segment)
    → ltb z.len best.len ≡ false
    → min_by_len best (z ∷ zs) ≡ min_by_len best zs
unfolding min_by_len
min_by_len_more best z zs e = ap (λ b. min_by_len (if b then z else best) zs) e

insert-In : (x z y : Segment) (zs : List Segment) → In x (y ∷ zs) → In x (y ∷ z ∷ zs)
insert-In x z y zs (inl a) = inl a
insert-In x z y zs (inr b) = inr (inr b)

min_by_len-In : (best : Segment) (zs : List Segment) → In (min_by_len best zs) (best ∷ zs)
min_by_len-In best [] = unfold min_by_len in inl refl
min_by_len-In best (z ∷ zs) = elim (Bool-cases (ltb z.len best.len)) [
  | inl e ↦
      subst (λ m. In m (best ∷ z ∷ zs)) (sym (min_by_len_less best z zs e))
        (inr (min_by_len-In z zs))
  | inr e ↦
      subst (λ m. In m (best ∷ z ∷ zs)) (sym (min_by_len_more best z zs e))
        (insert-In (min_by_len best zs) z best zs (min_by_len-In best zs))
]

All-head :
    (m : ℕ) (x : Segment) (zs : List Segment)
    → All (λ y. m ≤ y.len) (x ∷ zs)
    → (m ≤ x.len) × All (λ y. m ≤ y.len) zs
All-head m x zs h = h

min_by_len-le :
    (best : Segment) (zs : List Segment) → All (λ y. (min_by_len best zs).len ≤ y.len) (best ∷ zs)
min_by_len-le best [] = unfold min_by_len in (omega arith, tt)
min_by_len-le best (z ∷ zs) = elim (Bool-cases (ltb z.len best.len)) [
  | inl e ↦
      let (a, b) = min_by_len-le z zs in
      let less : z.len < best.len = ground arith in
      subst (λ m. All (λ y. m.len ≤ y.len) (best ∷ z ∷ zs)) (sym (min_by_len_less best z zs e))
        (omega arith, (a, b))
  | inr e ↦
      let (a, b) = min_by_len-le best zs in
      let more : best.len ≤ z.len = ground arith in
      subst (λ m. All (λ y. m.len ≤ y.len) (best ∷ z ∷ zs)) (sym (min_by_len_more best z zs e))
        (a, (omega arith, b))
]

-- A bound on the zones that passed the filter is one on all that are large enough.
least-filter :
    (capacity m : ℕ) (zs : List Segment)
    → All (λ y. m ≤ y.len) (filter_len capacity zs)
    → All (λ y. capacity ≤ y.len → m ≤ y.len) zs
unfolding filter_len
least-filter capacity m [] h = tt
least-filter capacity m (x ∷ xs) h = elim (Bool-cases (leb capacity x.len)) [
  | inl e ↦
      let (a, b) = All-head m x (filter_len capacity xs) (rw e at h) in
      (λ _. a, least-filter capacity m xs b)
  | inr e ↦ (λ k. absurd (ground arith), least-filter capacity m xs (rw e at h))
]

none-filter :
    (capacity : ℕ) (zs : List Segment)
    → filter_len capacity zs ≡ []
    → All (λ y. y.len < capacity) zs
unfolding filter_len
none-filter capacity [] h = tt
none-filter capacity (x ∷ xs) h = ground (arith, none-filter capacity xs)

-- What `find_free_zone_for` promises, about the zones that the iterator yields.
pub data Choice (c : Coverage) (capacity : ℕ) (zs : List Segment) : Option Segment → Type 0 where
  full : All (λ y. y.len < capacity) zs → Choice c capacity zs none
  best :
      (z : Segment)
      → In z zs
      → capacity ≤ z.len
      → ((a : ℕ) → contains a z ≡ true → (a < c.len) × (covers a c.segments ≡ false))
      → All (λ y. capacity ≤ y.len → z.len ≤ y.len) zs
      → Choice c capacity zs (some z)

smallest-Choice :
    (c : Coverage) (capacity : ℕ) (zs fits : List Segment)
    → filter_len capacity zs ≡ fits
    → ((a : ℕ) → covers a zs ≡ (ltb a c.len && not (covers a c.segments)))
    → Choice c capacity zs (smallest fits)
unfolding smallest
smallest-Choice c capacity zs [] e h = full (none-filter capacity zs e)
smallest-Choice c capacity zs (y ∷ ys) e h =
    let z = min_by_len y ys in
    let (large, inside) = filter_len-In capacity z zs (rw e (min_by_len-In y ys)) in
    best z inside large (λ a k. ground (arith, In-covers a z zs inside k, h a))
      (least-filter capacity z.len zs (rw e (min_by_len-le y ys)))

-- For a coverage with disjoint segments within the archive, `find_free_zone_for` does not panic.
-- It answers `None` exactly if no free zone has the capacity; a zone that it answers has the
-- capacity, consists of addresses of the archive that no segment uses, and is a smallest such.
pub find_free_zone_for_lem :
    (c : Coverage) (capacity : ℕ)
    → IsSound c
    → (zs : List Segment) × (o : Option Segment) × (free_zones c ≡ some zs)
      × (find_free_zone_for capacity c ≡ some o)
      × Choice c capacity zs o
unfolding find_free_zone_for
find_free_zone_for_lem c capacity h =
    let (zs, e, chain, cover) = free_zones_lem c h in
    (
      zs,
      smallest (filter_len capacity zs),
      e,
      rw e,
      smallest-Choice c capacity zs (filter_len capacity zs) refl cover,
    )
