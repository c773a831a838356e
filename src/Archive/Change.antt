-- ===== src/Archive/Change.antt =====
-- crate-lib/src/archive.rs: replacing a file's content, and renaming.
use baf.Base.{ℕ, not, List, some, length, get_elem?}
use baf.Base.Maps.{lookup, insert, member, include, exclude, nat_key, bytes_key}
use baf.Data.Name
use baf.Data.Name.{ItemName}
use baf.Data.Timestamp.{Timestamp}
use baf.Data.Directory.{Directory, DirectoryId, DirectoryIdOrRoot, directory_name_offset_in_entry}
use baf.Data.File
use baf.Data.File.{File, FileId, file_name_offset_in_entry}
use baf.Coverage.{add64, mark_as_free}
use baf.Health.{dir_key, ItemId, directory, file}
use baf.Archive.{
  ArchiveError, directory_not_found, file_not_found, Op, ◌>>=◌, ◌>>◌, this, put, assert, unwrap,
  ok_or,
}
use baf.Archive.Slots.{SegmentEntry, get_item_entry}
use baf.Archive.Write.{write_data_where_possible, ensure_no_duplicate_name}
use baf.Archive.Create.{set_dir_slot, set_file_slot, write_at}

-- `self.get_item_entry(id).ok_or(error)?`
unfoldable pub find_entry : ItemId → ArchiveError → Op SegmentEntry
find_entry id error = do
  a ← this
  found ← unwrap (get_item_entry a.file_segments id)
  ok_or error found

-- `file_segments[i].dirs[j].as_mut().unwrap()` and its like for files.
unfoldable pub dir_at : SegmentEntry → Op Directory
dir_at entry = do
  a ← this
  segment ← unwrap (get_elem? a.file_segments entry.segment_index)
  slot ← unwrap (get_elem? segment.dirs entry.entry_index)
  unwrap slot

unfoldable pub file_at : SegmentEntry → Op File
file_at entry = do
  a ← this
  segment ← unwrap (get_elem? a.file_segments entry.segment_index)
  slot ← unwrap (get_elem? segment.files entry.entry_index)
  unwrap slot

-- `let _ = self.coverage.mark_as_free(…)` for a file's content.
unfoldable pub free_content : File → Op (Unit {0})
free_content f = do
  a ← this
  put (record a {
    coverage = (mark_as_free (record { start = f.content_addr; len = f.content_len }) a.coverage).1;
  })

module _ (sha3_256 : List ℕ → List ℕ) where
  unfoldable pub replace_file_content : FileId → Timestamp → List ℕ → Op (Unit {0})
  replace_file_content id new_modif_time new_content = do
    entry ← find_entry (file id) file_not_found
    a ← this
    f ← unwrap (lookup id a.files)
    free_content f
    written ← write_data_where_possible new_content
    b ← this
    old ← unwrap (lookup id b.files)
    let new_file : File = record old {
      content_addr = written.0;
      content_len = length new_content;
      sha3_checksum = sha3_256 written.1;
      modif_time = new_modif_time;
    }
    put (record b { files = insert id new_file b.files })
    write_at entry.entry_addr (File.encode new_file)
    file_at entry >>= λ _. set_file_slot entry.segment_index entry.entry_index (some new_file)

-- The parent's listing with one name in place of another.
unfoldable pub relist : DirectoryIdOrRoot → ItemName → ItemName → Op (Unit {0})
relist parent_dir old_name new_name = do
  a ← this
  content ← unwrap (lookup parent_dir a.dirs_content)
  assert (member old_name content.names)
  let names = exclude old_name content.names
  assert (not (member new_name names))
  put (record a {
    dirs_content =
        insert parent_dir (record content { names = include new_name names }) a.dirs_content;
  })

unfoldable pub rename_directory : DirectoryId → ItemName → Op (Unit {0})
rename_directory id new_name = do
  entry ← find_entry (directory id) directory_not_found
  a ← this
  dir ← unwrap (lookup id a.dirs)
  ensure_no_duplicate_name new_name dir.parent_dir
  write_at (add64 entry.entry_addr directory_name_offset_in_entry) (Name.encode new_name)
  slot ← dir_at entry
  set_dir_slot entry.segment_index entry.entry_index (some (record slot { name = new_name }))
  b ← this
  listed ← unwrap (lookup id b.dirs)
  put (record b { dirs = insert id (record listed { name = new_name }) b.dirs })
  relist dir.parent_dir dir.name new_name

unfoldable pub rename_file : FileId → ItemName → Op (Unit {0})
rename_file id new_name = do
  entry ← find_entry (file id) file_not_found
  a ← this
  f ← unwrap (lookup id a.files)
  ensure_no_duplicate_name new_name f.parent_dir
  write_at (add64 entry.entry_addr file_name_offset_in_entry) (Name.encode new_name)
  slot ← file_at entry
  set_file_slot entry.segment_index entry.entry_index (some (record slot { name = new_name }))
  b ← this
  listed ← unwrap (lookup id b.files)
  put (record b { files = insert id (record listed { name = new_name }) b.files })
  relist f.parent_dir f.name new_name
