-- ===== src/Archive/Disk.antt =====
-- What the stream of an archive holds: the header and the segments of the file table, in stretches
-- that the coverage has and that do not overlap.
pub mod Data
pub mod Slot
pub mod Change
pub mod Entry
pub mod Reopened
pub mod Created
pub mod New
pub mod Spot
pub mod Link
pub mod Kept
pub mod Grown
pub mod Items
pub mod Places
pub mod Room
pub mod FileSlot
pub mod AddedFile
pub mod CreatedFile
pub mod ReadBack
pub mod Freed
pub mod Removed
pub mod Replaced
pub mod Renamed
mod Tests
pub mod RemoveTests
use baf.Base.{
  ℕ, zero, suc, ◌+◌, ◌*◌, ◌^◌, ◌≤◌, ◌<◌, ◌≡◌, refl, sym, ap, subst, ◌∙◌, ◌⊎◌, inl, inr, Bool, true,
  false, List, [], ◌∷◌, ◌++◌, Option, none, some, Result, ok, err, arith, length, All, All-map,
  get_elem?, set, drop,
}
use baf.Source.{Source, remaining}
use baf.Source.Window.{Holds, Beside}
use baf.Data.Header.{header_size}
use baf.Data.FtSegment
use baf.Data.FtSegment.{FileTableSegment, encoded_len, addr_value}
use baf.Data.FtSegment.RoundTrip.{IsSegment, segment_bytes, length-segment_bytes}
use baf.Coverage.{Segment, Coverage}
use baf.Coverage.Fit.{In}
use baf.Archive.{Archive}
use baf.Archive.Create.Fresh.{header_bytes}
use baf.Archive.Write.Stored.{IsTracked, stretch}

-- Every segment but the last has the address of the next one; the last has none.
abbrev pub IsChain : List FileTableSegment → Type 0
IsChain [] = ⊥
IsChain (s ∷ []) = s.next_segment_addr ≡ none
IsChain (s ∷ t ∷ rest) = ((addr : ℕ) × (s.next_segment_addr ≡ some addr)) × IsChain (t ∷ rest)

-- The segments with their addresses, the first at `addr`.
abbrev pub placed : ℕ → List FileTableSegment → List (ℕ × FileTableSegment)
placed addr [] = []
placed addr (s ∷ rest) = (addr, s) ∷ placed (addr_value s.next_segment_addr) rest

-- The stretches of the stream that they take.
abbrev pub zones : ℕ → List FileTableSegment → List Segment
zones addr [] = []
zones addr (s ∷ rest) = stretch addr (encoded_len s) ∷ zones (addr_value s.next_segment_addr) rest

abbrev pub IsApart : List Segment → Type 0
IsApart [] = Unit {0}
IsApart (z ∷ zs) = All (λ y. Beside z.start z.len y.start y.len) zs × IsApart zs

abbrev pub IsWritten : List ℕ → ℕ × FileTableSegment → Type 0
IsWritten content p = Holds content p.0 (segment_bytes p.1)

abbrev pub header_zone : Segment
header_zone = stretch 0 256

pub record IsOnDisk (a : Archive) : Type 0 where
  pub tracked : IsTracked a
  pub header : Holds a.source.content 0 header_bytes
  pub chain : IsChain a.file_segments
  pub segments : All IsSegment a.file_segments
  pub written : All (IsWritten a.source.content) (placed 256 a.file_segments)
  pub apart : IsApart (header_zone ∷ zones 256 a.file_segments)
  pub used : All (λ z. In z a.coverage.segments) (header_zone ∷ zones 256 a.file_segments)

-- Nothing of the header and the segments is in the stretch.
abbrev pub IsClear : ℕ → ℕ → Archive → Type 0
IsClear p n a = All (λ z. Beside z.start z.len p n) (header_zone ∷ zones 256 a.file_segments)

-- Bytes that stand in a stretch of their own, which the coverage has in use if it is not empty.
pub record IsKept (p : ℕ) (bytes : List ℕ) (a : Archive) : Type 0 where
  pub held : Holds a.source.content p bytes
  pub used : 0 < length bytes → In (stretch p (length bytes)) a.coverage.segments
  pub clear : 0 < length bytes → IsClear p (length bytes) a

-- What stands in stretches of its own stays there.
abbrev pub Keeps : Archive → Archive → Type 0
Keeps a b = (p : ℕ) (bytes : List ℕ) → IsKept p bytes a → IsKept p bytes b
