-- ===== src/Archive/Slots.antt =====
-- crate-lib/src/archive.rs: finding the slot of an item, and free slots.
pub mod Find
pub mod Free
pub mod Total
use baf.Base.{
  ℕ, zero, suc, Bool, true, false, List, [], ◌∷◌, Option, none, some, and_then, ltb, ◌==◌,
  if◌then◌else◌, length, get_elem?,
}
use baf.Data.Header.{header_size}
use baf.Data.Directory.{Directory}
use baf.Data.File.{File}
use baf.Data.FtSegment.{FileTableSegment, dir_entry_offset, file_entry_offset}
use baf.Coverage.{add64}
use baf.Health.{ItemId, directory, file}

pub data ItemType : Type 0 where
  dir_type file_type : ItemType

pub record SegmentEntry : Type 0 where
  pub segment_index : ℕ
  pub entry_index : ℕ
  pub entry_addr : ℕ

-- `Iterator::position` and `rposition`.
unfoldable pub position : {A : Type 0} → (A → Bool) → List A → Option ℕ
position p [] = none
position p (x ∷ xs) =
    let rest = position p xs in
    if p x then some 0 else elim rest [ none ↦ none | some i ↦ some (suc i) ]

unfoldable pub rposition : {A : Type 0} → (A → Bool) → List A → Option ℕ
rposition p [] = none
rposition p (x ∷ xs) = elim (rposition p xs) [
  | some i ↦ some (suc i)
  | none ↦ if p x then some 0 else none
]

abbrev pub has_dir : ℕ → Option Directory → Bool
has_dir id none = false
has_dir id (some dir) = dir.id == id

abbrev pub has_file : ℕ → Option File → Bool
has_file id none = false
has_file id (some f) = f.id == id

abbrev pub is_none : {A : Type 0} → Option A → Bool
is_none none = true
is_none (some a) = false

-- `none` is the panic of the assertion, or of `unwrap`.
unfoldable pub segment_addr : List FileTableSegment → ℕ → Option ℕ
segment_addr segments zero = if ltb 0 (length segments) then some header_size else none
segment_addr segments (suc i) =
    if ltb (suc i) (length segments)
    then and_then (get_elem? segments i) (λ segment. segment.next_segment_addr)
    else none

unfoldable pub item_index : ItemId → FileTableSegment → Option ℕ
item_index (directory id) segment = position (has_dir id) segment.dirs
item_index (file id) segment = position (has_file id) segment.files

unfoldable pub item_offset : ItemId → FileTableSegment → ℕ → Option ℕ
item_offset (directory id) segment i = dir_entry_offset segment i
item_offset (file id) segment i = file_entry_offset segment i

-- The entry at an index of a segment, whose offset is `offset`; the outer `none` is a panic.
unfoldable pub entry_at : List FileTableSegment → ℕ → ℕ → Option ℕ → Option SegmentEntry
entry_at segments i j offset = and_then (segment_addr segments i) λ addr.
    and_then offset
      λ off. some (record { segment_index = i; entry_index = j; entry_addr = add64 addr off })

-- `find_map` over the segments from index `i` on. The outer `none` is a panic, the inner one the
-- answer that no segment has the item.
unfoldable pub find_item :
    List FileTableSegment → ItemId → ℕ → List FileTableSegment → Option (Option SegmentEntry)
find_item segments id i [] = some none
find_item segments id i (segment ∷ rest) =
    let later = find_item segments id (suc i) rest in
    elim (item_index id segment) [
      | none ↦ later
      | some j ↦ and_then (entry_at segments i j (item_offset id segment j)) λ e. some (some e)
    ]

unfoldable pub get_item_entry : List FileTableSegment → ItemId → Option (Option SegmentEntry)
get_item_entry segments id = find_item segments id 0 segments

unfoldable pub free_index : ItemType → FileTableSegment → Option ℕ
free_index dir_type segment = rposition is_none segment.dirs
free_index file_type segment = rposition is_none segment.files

unfoldable pub type_offset : ItemType → FileTableSegment → ℕ → Option ℕ
type_offset dir_type segment i = dir_entry_offset segment i
type_offset file_type segment i = file_entry_offset segment i

-- `iter().enumerate().rev().find_map(…)`: the last segment with a free slot, and its last one.
unfoldable pub last_free :
    List FileTableSegment → ItemType → ℕ → List FileTableSegment → Option (Option SegmentEntry)
last_free segments type i [] = some none
last_free segments type i (segment ∷ rest) = elim (last_free segments type (suc i) rest) [
  | none ↦ none
  | some (some e) ↦ some (some e)
  | some none ↦ elim (free_index type segment) [
    | none ↦ some none
    | some j ↦ and_then (entry_at segments i j (type_offset type segment j)) λ e. some (some e)
  ]
]
