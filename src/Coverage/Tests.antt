-- ===== src/Coverage/Tests.antt =====
-- Concrete coverages, and the theorems at them.
use baf.Base.{
  ℕ, ◌≡◌, refl, inl, inr, true, ◌&&◌, ◌||◌, not, List, [], ◌∷◌, Option, none, some, arith, ltb,
}
use baf.Coverage.{
  Segment, Coverage, mark_as_used, mark_as_free, free_zones, drain, next, next_loop,
  find_free_zones, find_free_zone_for,
}
use baf.Coverage.Zones.{contains, covers, Chain, IsSound, free_zones_lem}
use baf.Coverage.Fit.{In, Choice, find_free_zone_for_lem}
use baf.Coverage.Mark.{mark_as_used_lem, mark_as_free_lem}
use baf.Coverage.Overlap.{mark_as_used_overlap}

abbrev segment : ℕ → ℕ → Segment
segment start len = record { start = start; len = len }

-- A header, a file table, a gap of 10, a file of 20 bytes, and 5 bytes behind it.
abbrev used : Coverage
used = record { len = 335; segments = segment 0 256 ∷ segment 256 44 ∷ segment 310 20 ∷ [] }

used-Chain : Chain 0 used.segments
used-Chain = omega arith

used-IsSound : IsSound used
used-IsSound = record { chain = used-Chain; within = omega arith; len = omega arith }

used_zones : free_zones used ≡ some (segment 300 10 ∷ segment 330 5 ∷ [])
unfolding free_zones drain next next_loop find_free_zones
used_zones = refl

free_zones_lem_example :
    (zs : List Segment) × (free_zones used ≡ some zs)
    × Chain 0 zs
    × ((a : ℕ) → covers a zs ≡ (ltb a 335 && not (covers a used.segments)))
free_zones_lem_example = free_zones_lem used used-IsSound

find_free_zone_for_lem_example :
    (zs : List Segment) × (o : Option Segment) × (free_zones used ≡ some zs)
    × (find_free_zone_for 5 used ≡ some o)
    × Choice used 5 zs o
find_free_zone_for_lem_example = find_free_zone_for_lem used 5 used-IsSound

mark_as_used_lem_example :
    (c' : Coverage) × (mark_as_used 302 8 used ≡ some c')
    × (c'.len ≡ 335)
    × Chain 0 c'.segments
    × ((a : ℕ) → covers a c'.segments ≡ (contains a (segment 302 8) || covers a used.segments))
mark_as_used_lem_example =
    mark_as_used_lem 302 8 used used-Chain (omega arith) (omega arith) (omega arith)

mark_as_free_lem_example :
    (c' : Coverage) × (mark_as_free (segment 256 44) used ≡ (true, c'))
    × (c'.len ≡ 335)
    × Chain 0 c'.segments
    × ((z : Segment) → In z used.segments → (z ≡ segment 256 44 → ⊥) → In z c'.segments)
    × ((z : Segment) → In z c'.segments → In z used.segments × (z ≡ segment 256 44 → ⊥))
    × ((a : ℕ)
        → covers a c'.segments ≡ (covers a used.segments && not (contains a (segment 256 44))))
mark_as_free_lem_example = mark_as_free_lem (segment 256 44) used used-Chain (inr (inl refl))

-- A file whose content begins in the middle of the file table.
mark_as_used_overlap_example :
    (c' : Coverage) × (mark_as_used 270 100
        (record { len = 400; segments = segment 0 256 ∷ segment 256 44 ∷ [] })
      ≡ some c')
    × (free_zones c' ≡ none)
    × ((capacity : ℕ) → find_free_zone_for capacity c' ≡ none)
mark_as_used_overlap_example =
    mark_as_used_overlap 270 100 400 (segment 0 256) (segment 256 44 ∷ []) (omega arith)
      (omega arith) (omega arith) refl
