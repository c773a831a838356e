-- ===== src/Archive/Write.antt =====
-- crate-lib/src/archive.rs: writing data where there is room, new segments, and the checks and
-- searches that the operations begin with. The hash of the `sha3` package is the parameter
-- `sha3_256`, from the bytes that a hasher was fed to its digest; a hasher is these bytes.
pub mod Copy
pub mod Place
pub mod Stored
use baf.Base.{
  ℕ, zero, suc, ◌+◌, ◌-◌, ◌/◌, Bool, true, false, List, [], ◌∷◌, ◌++◌, Option, none, some, ok, err,
  ltb, leb, if◌then◌else◌, length, replicate, get_elem?,
}
use baf.Base.Maps.{lookup, member, nat_key, bytes_key}
use baf.Bytes.{to_le_bytes}
use baf.Source
use baf.Source.{Source, read_exact, write_all, set_position, seek_len}
use baf.Data.Name.{ItemName}
use baf.Data.Directory.{DirectoryIdOrRoot, root, non_root}
use baf.Data.FtSegment
use baf.Data.FtSegment.{FileTableSegment}
use baf.Coverage.{Coverage, find_free_zone_for, next_writable_addr, grow_to, mark_as_used}
use baf.Health.{dir_key}
use baf.Archive.{
  Archive, io, duplicate_name, directory_not_found, ParentText, root_directory, parent_id,
  parent_name, Op, pure, fail, panic, ◌>>=◌, ◌>>◌, this, put, unwrap, ok_or, on_source,
}
use baf.Archive.Slots.{SegmentEntry, ItemType, segment_addr, last_free, entry_at, type_offset}

abbrev pub chunk_size : ℕ
chunk_size = 4096

abbrev min64 : ℕ → ℕ → ℕ
min64 a b = if leb a b then a else b

-- The address of a free zone, or the end of all, and whether the archive grows.
unfoldable pub choose_addr : ℕ → Coverage → Option (ℕ × Bool)
choose_addr len c = elim (find_free_zone_for len c) [
  | none ↦ none
  | some (some z) ↦ some (z.start, false)
  | some none ↦ some (next_writable_addr c, true)
]

-- A round of the loop reads a chunk from the data and writes it; `hashed` is what the hasher was
-- fed. Each round but the last writes 4096 bytes, so that `len / 4096 + 1` rounds are enough.
unfoldable pub copy_chunks : ℕ → ℕ → ℕ → Source → List ℕ → Op (List ℕ)
copy_chunks zero len written source hashed = pure hashed
copy_chunks (suc fuel) len written source hashed = elim (ltb written len) [
  | false ↦ pure hashed
  | true ↦
      let size = min64 chunk_size (len - written) in
      elim (read_exact size source) [
        | err e ↦ fail (io e)
        | ok r ↦ (do
          on_source (write_all r.0)
          copy_chunks fuel len (written + size) r.1 (hashed ++ r.0))
      ]
]

unfoldable pub set_coverage : Option Coverage → Op (Unit {0})
set_coverage none = panic
set_coverage (some c) = λ a. put (record a { coverage = c }) a

-- `if growing { … }`
unfoldable pub grow : Bool → Op (Unit {0})
grow false = pure tt
grow true = do new_len ← on_source seek_len; a ← this; set_coverage (grow_to new_len a.coverage)

-- The data is a stream, read from its beginning.
unfoldable pub write_data_where_possible : List ℕ → Op (ℕ × List ℕ)
write_data_where_possible bytes = do
  let len = length bytes
  a ← this
  choice ← unwrap (choose_addr len a.coverage)
  on_source (set_position choice.0)
  hashed ← copy_chunks (len / chunk_size + 1) len 0 (Source.new bytes) []
  grow choice.1
  b ← this
  set_coverage (mark_as_used choice.0 len b.coverage)
  pure (choice.0, hashed)

-- A segment of empty slots.
unfoldable pub empty_segment : ℕ → ℕ → FileTableSegment
empty_segment dirs files = record {
  next_segment_addr = none;
  dirs = replicate dirs none;
  files = replicate files none;
}

-- `last_mut().unwrap().next_segment_addr = Some(addr)`, then `push(segment)`.
unfoldable pub link : List FileTableSegment → ℕ → FileTableSegment → List FileTableSegment
link [] addr segment = segment ∷ []
link (s ∷ []) addr segment = record s { next_segment_addr = some addr } ∷ segment ∷ []
link (s ∷ t ∷ rest) addr segment = s ∷ link (t ∷ rest) addr segment

-- The answer is the index of the new segment.
unfoldable pub create_segment : Op ℕ
create_segment = do
  a ← this
  let segment =
      empty_segment a.conf.default_dirs_capacity_by_ft_segment
        a.conf.default_files_capacity_by_ft_segment
  bytes ← unwrap (FtSegment.encode segment)
  written ← write_data_where_possible bytes
  b ← this
  prev ← unwrap (segment_addr b.file_segments (length b.file_segments - 1))
  on_source (set_position prev)
  on_source (write_all (to_le_bytes 8 written.0))
  c ← this
  put (record c { file_segments = link c.file_segments written.0 segment })
  pure (length c.file_segments)

-- `self.file_segments.get(index).unwrap()` and the entry at its first slot.
unfoldable pub first_entry : ItemType → ℕ → Archive → Option SegmentEntry
first_entry type index a =
    let segment = get_elem? a.file_segments index in
    elim segment [ none ↦ none | some s ↦ entry_at a.file_segments index 0 (type_offset type s 0) ]

unfoldable pub get_addr_for_item_insert : ItemType → Op SegmentEntry
get_addr_for_item_insert type = do
  a ← this
  found ← unwrap (last_free a.file_segments type 0 a.file_segments)
  elim found [
    | some entry ↦ pure entry
    | none ↦ (do index ← create_segment; b ← this; unwrap (first_entry type index b))
  ]

-- The text about the parent directory.
unfoldable pub parent_text : DirectoryIdOrRoot → Archive → ParentText
parent_text root a = root_directory
parent_text (non_root id) a = elim (lookup id a.dirs) [
  | none ↦ parent_id id
  | some dir ↦ parent_name dir.name
]

unfoldable pub ensure_no_duplicate_name : ItemName → DirectoryIdOrRoot → Op (Unit {0})
ensure_no_duplicate_name name parent_dir = do
  a ← this
  content ← ok_or directory_not_found (lookup parent_dir a.dirs_content)
  if member name content.names
      then fail (duplicate_name name (parent_text parent_dir a))
      else pure tt
