-- ===== src/Coverage.antt =====
-- crate-lib/src/coverage.rs: which stretches of the archive are in use. The `BTreeSet` of segments
-- is the list of them in its order, by start and then by length. Sums of addresses wrap at 2^64.
-- `none` is the panic of a failed assertion.
pub mod Zones
pub mod Fit
pub mod Mark
pub mod Overlap
pub mod Members
pub mod Freed
mod Tests
use baf.Base.{
  ℕ, zero, suc, ◌+◌, ◌-◌, ◌%◌, ◌^◌, Bool, true, false, ◌&&◌, ◌||◌, not, List, [], ◌∷◌, Option, none,
  some, and_then, ltb, leb, ◌==◌, if◌then◌else◌, length, find,
}

pub record Segment : Type 0 where
  pub start : ℕ
  pub len : ℕ

pub record Coverage : Type 0 where
  pub len : ℕ
  pub segments : List Segment

-- `u64` addition.
abbrev pub add64 : ℕ → ℕ → ℕ
add64 a b = (a + b) % 2 ^ 64

-- `Ord::cmp` on segments: less, and equal.
unfoldable pub is_less : Segment → Segment → Bool
is_less a b = ltb a.start b.start || (a.start == b.start && ltb a.len b.len)

unfoldable pub is_equal : Segment → Segment → Bool
is_equal a b = a.start == b.start && a.len == b.len

-- `BTreeSet::insert` and `BTreeSet::remove`.
unfoldable pub insert : Segment → List Segment → List Segment
insert x [] = x ∷ []
insert x (s ∷ ss) =
    let rest = insert x ss in
    if is_less x s then x ∷ s ∷ ss else if is_equal x s then s ∷ ss else s ∷ rest

unfoldable pub remove : Segment → List Segment → Bool × List Segment
remove x [] = (false, [])
remove x (s ∷ ss) =
    let rest = remove x ss in if is_equal x s then (true, ss) else (rest.0, s ∷ rest.1)

unfoldable pub new : ℕ → Coverage
new len = record { len = len; segments = [] }

unfoldable pub grow_to : ℕ → Coverage → Option Coverage
grow_to new_len c = if leb c.len new_len then some (record c { len = new_len }) else none

-- The two assertions of `mark_as_used`: on the first segment that starts no later, and on the
-- first that starts no earlier.
unfoldable pub fits_prev : ℕ → List Segment → Bool
fits_prev start segments = elim (find (λ s. leb s.start start) segments) [
  | none ↦ true
  | some prev ↦ leb (add64 prev.start prev.len) start
]

unfoldable pub fits_next : ℕ → ℕ → List Segment → Bool
fits_next start len segments = elim (find (λ s. leb start s.start) segments) [
  | none ↦ true
  | some next ↦ leb (add64 start len) next.start
]

unfoldable pub mark_as_used : ℕ → ℕ → Coverage → Option Coverage
mark_as_used start len c =
    if len == 0
    then some c
    else if fits_prev start c.segments && fits_next start len c.segments
    then some (record c { segments = insert (record { start = start; len = len }) c.segments })
    else none

unfoldable pub mark_as_free : Segment → Coverage → Bool × Coverage
mark_as_free segment c =
    if ltb 0 segment.len
    then (let (found, rest) = remove segment c.segments in (found, record c { segments = rest }))
    else (false, c)

-- `FreeSegmentsIter`; `rest` is what `segments_iter` has not yielded.
pub record FreeSegmentsIter : Type 0 where
  pub coverage_len : ℕ
  pub rest : List Segment
  pub prev_end : ℕ
  pub yielded_last : Bool

unfoldable pub find_free_zones : Coverage → FreeSegmentsIter
find_free_zones c = record {
  coverage_len = c.len;
  rest = c.segments;
  prev_end = 0;
  yielded_last = false;
}

abbrev pub zone : ℕ → ℕ → Segment
zone from to = record { start = from; len = to - from }

-- The loop of `next`, over the segments that are left; the iterator that it leaves behind, and
-- the zone that it yields.
unfoldable pub next_loop : ℕ → List Segment → ℕ → Option (FreeSegmentsIter × Option Segment)
next_loop len [] prev_end = some (
  record { coverage_len = len; rest = []; prev_end = prev_end; yielded_last = true },
  (if ltb prev_end len then some (zone prev_end len) else none),
)
next_loop len (s ∷ ss) prev_end =
    let continue = next_loop len ss (add64 prev_end s.len) in
    if s.start == prev_end
    then continue
    else if ltb prev_end s.start
    then some (
      record {
        coverage_len = len;
        rest = ss;
        prev_end = add64 s.start s.len;
        yielded_last = false;
      },
      some (zone prev_end s.start),
    )
    else none

unfoldable pub next : FreeSegmentsIter → Option (FreeSegmentsIter × Option Segment)
next it = if it.yielded_last then some (it, none) else next_loop it.coverage_len it.rest it.prev_end

-- All that the iterator yields. Each call but the last two takes a segment, so that
-- `length rest + 2` rounds are enough.
unfoldable pub drain : ℕ → FreeSegmentsIter → Option (List Segment)
drain zero it = some []
drain (suc fuel) it =
    and_then (next it)
      λ r. elim r.1 [ none ↦ some [] | some z ↦ and_then (drain fuel r.0) λ zs. some (z ∷ zs) ]

unfoldable pub free_zones : Coverage → Option (List Segment)
free_zones c = drain (length c.segments + 2) (find_free_zones c)

-- `.filter(|zone| zone.len >= capacity).min_by_key(|zone| zone.len)`: the first of the least.
unfoldable pub min_by_len : Segment → List Segment → Segment
min_by_len best [] = best
min_by_len best (z ∷ zs) = min_by_len (if ltb z.len best.len then z else best) zs

unfoldable pub filter_len : ℕ → List Segment → List Segment
filter_len capacity [] = []
filter_len capacity (z ∷ zs) =
    let rest = filter_len capacity zs in if leb capacity z.len then z ∷ rest else rest

unfoldable pub smallest : List Segment → Option Segment
smallest [] = none
smallest (z ∷ zs) = some (min_by_len z zs)

unfoldable pub find_free_zone_for : ℕ → Coverage → Option (Option Segment)
find_free_zone_for capacity c =
    and_then (free_zones c) λ zones. some (smallest (filter_len capacity zones))

-- The end of the last segment.
unfoldable pub last_end : List Segment → ℕ
last_end [] = 0
last_end (s ∷ []) = add64 s.start s.len
last_end (s ∷ t ∷ ss) = last_end (t ∷ ss)

unfoldable pub next_writable_addr : Coverage → ℕ
next_writable_addr c = last_end c.segments
