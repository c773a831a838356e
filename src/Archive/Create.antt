-- ===== src/Archive/Create.antt =====
-- crate-lib/src/archive.rs: creating an archive, directories and files.
pub mod Fresh
pub mod Steps
use baf.Base.{
  ℕ, ◌+◌, ◌^◌, Bool, true, false, not, List, [], ◌∷◌, Option, none, some, ltb, if◌then◌else◌,
  length, set, get_elem?,
}
use baf.Base.Maps.{lookup, insert, member, include, nat_key, bytes_key}
use baf.Source
use baf.Source.{write_all, set_position}
use baf.Data.Name.{ItemName}
use baf.Data.Timestamp.{Timestamp}
use baf.Data.Header
use baf.Data.Header.{Header, header_size}
use baf.Data.Directory
use baf.Data.Directory.{Directory, DirectoryId, DirectoryIdOrRoot, root, non_root}
use baf.Data.File
use baf.Data.File.{File, FileId}
use baf.Data.FtSegment
use baf.Data.FtSegment.{FileTableSegment, encoded_len}
use baf.Coverage
use baf.Coverage.{Coverage, mark_as_used}
use baf.Health.{DirContent, no_content, dir_key, filled}
use baf.Archive.{
  Archive, ArchiveConfig, Outcome, Op, pure, panic, ◌>>=◌, ◌>>◌, this, put, assert, unwrap,
  on_source,
}
use baf.Archive.Slots.{SegmentEntry, dir_type, file_type}
use baf.Archive.Write.{
  write_data_where_possible, empty_segment, get_addr_for_item_insert, ensure_no_duplicate_name,
}

-- `compute_coverage`: the header, then each segment and the contents of its files. `none` is a
-- panic of `mark_as_used`.
unfoldable pub mark_files : List File → Coverage → Option Coverage
mark_files [] c = some c
mark_files (f ∷ rest) c = elim (mark_as_used f.content_addr f.content_len c) [
  | none ↦ none
  | some c' ↦ mark_files rest c'
]

unfoldable pub mark_segments : List (ℕ × FileTableSegment) → Coverage → Option Coverage
mark_segments [] c = some c
mark_segments ((addr, segment) ∷ rest) c = elim (mark_as_used addr (encoded_len segment) c) [
  | none ↦ none
  | some c' ↦ elim (mark_files (filled segment.files) c') [
    | none ↦ none
    | some c'' ↦ mark_segments rest c''
  ]
]

unfoldable pub compute_coverage : List (ℕ × FileTableSegment) → ℕ → Option Coverage
compute_coverage segments len = elim (mark_as_used 0 header_size (Coverage.new len)) [
  | none ↦ none
  | some c ↦ mark_segments segments c
]

abbrev pub or_default : Option ℕ → ℕ → ℕ
or_default none d = d
or_default (some n) d = n

-- The first segment of a new archive.
unfoldable pub first_segment : ArchiveConfig → FileTableSegment
first_segment conf =
    empty_segment
      (or_default conf.first_segment_dirs_capacity_override
        conf.default_dirs_capacity_by_ft_segment)
      (or_default conf.first_segment_files_capacity_override
        conf.default_files_capacity_by_ft_segment)

-- `Archive::create` on an open stream.
unfoldable pub create : Source.Source → ArchiveConfig → Outcome Archive
create source conf =
    let segment = first_segment conf in
    let start : Archive = record {
      conf = conf;
      source = source;
      header = Header.default;
      file_segments = segment ∷ [];
      dirs = [];
      files = [];
      dirs_content = (root, no_content) ∷ [];
      coverage = Coverage.new 0;
      next_id = 1;
    } in
    let write : Op Archive = (do
      on_source (set_position 0)
      on_source (write_all (Header.encode Header.default))
      bytes ← unwrap (FtSegment.encode segment)
      on_source (write_all bytes)
      len ← on_source Source.seek_len
      coverage ← unwrap (compute_coverage ((header_size, segment) ∷ []) len)
      a ← this
      pure (record a { coverage = coverage })) in
    (write start).0

-- `NonZero::new(self.next_id.get() + 1).expect("ID overflow")`, after taking the id.
unfoldable pub take_id : Op ℕ
take_id = do
  a ← this
  if ltb (a.next_id + 1) (2 ^ 64)
      then (do put (record a { next_id = a.next_id + 1 }); pure a.next_id)
      else panic

-- The parent's listing with a name and a directory, or a file, more.
unfoldable pub list_name : ItemName → DirContent → DirContent
list_name name content = record content { names = include name content.names }

unfoldable pub list_dir : Directory → Op (Unit {0})
list_dir dir = do
  a ← this
  content ← unwrap (lookup dir.parent_dir a.dirs_content)
  assert (not (member dir.name content.names))
  assert (not (member dir.id content.dirs))
  put (record a {
    dirs_content =
        insert dir.parent_dir
          (record (list_name dir.name content) { dirs = include dir.id content.dirs })
          a.dirs_content;
  })

unfoldable pub list_file : File → Op (Unit {0})
list_file f = do
  a ← this
  content ← unwrap (lookup f.parent_dir a.dirs_content)
  assert (not (member f.name content.names))
  assert (not (member f.id content.files))
  put (record a {
    dirs_content =
        insert f.parent_dir
          (record (list_name f.name content) { files = include f.id content.files }) a.dirs_content;
  })

abbrev is_new : {A : Type 0} → Option A → Bool
is_new none = true
is_new (some a) = false

-- `self.file_segments[i].dirs[j] = slot`, which panics out of bounds.
unfoldable pub set_dir_slot : ℕ → ℕ → Option Directory → Op (Unit {0})
set_dir_slot i j slot = do
  a ← this
  segment ← unwrap (get_elem? a.file_segments i)
  assert (ltb j (length segment.dirs))
  put (record a {
    file_segments = set a.file_segments i (record segment { dirs = set segment.dirs j slot });
  })

unfoldable pub set_file_slot : ℕ → ℕ → Option File → Op (Unit {0})
set_file_slot i j slot = do
  a ← this
  segment ← unwrap (get_elem? a.file_segments i)
  assert (ltb j (length segment.files))
  put (record a {
    file_segments = set a.file_segments i (record segment { files = set segment.files j slot });
  })

-- Writing at an address.
unfoldable pub write_at : ℕ → Option (List ℕ) → Op (Unit {0})
write_at addr bytes = do
  on_source (set_position addr)
  encoded ← unwrap bytes
  on_source (write_all encoded)

-- What `create_dir` does once the slot is found.
unfoldable pub store_dir : SegmentEntry → Directory → Op DirectoryId
store_dir entry dir = do
  write_at entry.entry_addr (Directory.encode dir)
  list_dir dir
  a ← this
  put (record a { dirs_content = insert (non_root dir.id) no_content a.dirs_content })
  set_dir_slot entry.segment_index entry.entry_index (some dir)
  b ← this
  assert (is_new (lookup dir.id b.dirs))
  put (record b { dirs = insert dir.id dir b.dirs })
  pure dir.id

unfoldable pub create_dir : DirectoryIdOrRoot → ItemName → Timestamp → Op DirectoryId
create_dir parent_dir name modif_time = do
  ensure_no_duplicate_name name parent_dir
  entry ← get_addr_for_item_insert dir_type
  id ← take_id
  store_dir entry
      (record { id = id; parent_dir = parent_dir; name = name; modif_time = modif_time })

-- What `create_file` does once the content is written.
unfoldable pub store_file : SegmentEntry → File → Op FileId
store_file entry f = do
  write_at entry.entry_addr (File.encode f)
  list_file f
  set_file_slot entry.segment_index entry.entry_index (some f)
  b ← this
  assert (is_new (lookup f.id b.files))
  put (record b { files = insert f.id f b.files })
  pure f.id

module _ (sha3_256 : List ℕ → List ℕ) where
  unfoldable pub create_file : DirectoryIdOrRoot → ItemName → Timestamp → List ℕ → Op FileId
  create_file parent_dir name modif_time content = do
    ensure_no_duplicate_name name parent_dir
    entry ← get_addr_for_item_insert file_type
    written ← write_data_where_possible content
    id ← take_id
    store_file entry (record {
      id = id;
      parent_dir = parent_dir;
      name = name;
      modif_time = modif_time;
      content_addr = written.0;
      content_len = length content;
      sha3_checksum = sha3_256 written.1;
    })
