-- ===== src/Archive/Refused.antt =====
-- Calls on items that the archive does not have.
use baf.Base.{ℕ, suc, ◌≡◌, refl, List, Option, none, some, get_elem?}
use baf.Base.Maps.{bytes_key}
use baf.Data.Name.{ItemName}
use baf.Data.Timestamp.{Timestamp}
use baf.Data.FtSegment.{FileTableSegment}
use baf.Health.{ItemId, directory, file, dir_key}
use baf.Archive.{Archive, ArchiveError, failed, directory_not_found, file_not_found, ◌>>=◌}
use baf.Archive.Slots.{SegmentEntry}
use baf.Archive.Slots.Find.{IsLinked, HasItem, IsFound, absent, found, get_item_entry_lem}
use baf.Archive.Change.{find_entry, replace_file_content, rename_directory, rename_file}
use baf.Archive.Remove.{remove_file, remove_dir}

-- No slot of the segments has the item.
abbrev pub IsAbsent : List FileTableSegment → ItemId → Type 0
IsAbsent segments id =
    (i j : ℕ) (segment : FileTableSegment)
    → get_elem? segments i ≡ some segment
    → HasItem id segment j
    → ⊥

no_entry :
    (segments : List FileTableSegment) (id : ItemId) (o : Option SegmentEntry)
    → IsAbsent segments id
    → IsFound segments id o
    → o ≡ none
no_entry segments id o h (absent none_has) = refl
no_entry segments id o h (found i j addr off segment at has a b) = absurd (h i j segment at has)

find_entry-absent :
    (id : ItemId) (error : ArchiveError) (a : Archive)
    → IsLinked a.file_segments
    → IsAbsent a.file_segments id
    → find_entry id error a ≡ (failed error, a)
unfolding find_entry
find_entry-absent id error a linked h =
    let (o, e, good) = get_item_entry_lem a.file_segments id linked in
    rw (find_entry, ◌>>=◌, e, no_entry a.file_segments id o h good) refl

module _ (sha3_256 : List ℕ → List ℕ) where
  -- On a file that is in no slot, where every segment but the last has the address of the next,
  -- `remove_file`, `rename_file` and `replace_file_content` fail with `FileNotFound`, and the
  -- archive is left as it was.
  pub absent_file :
      (id : ℕ) (name : ItemName) (time : Timestamp) (content : List ℕ) (a : Archive)
      → IsLinked a.file_segments
      → IsAbsent a.file_segments (file id)
      → (remove_file id a ≡ (failed file_not_found, a))
        × (rename_file id name a ≡ (failed file_not_found, a))
        × (replace_file_content sha3_256 id time content a ≡ (failed file_not_found, a))
  unfolding remove_file rename_file replace_file_content
  absent_file id name time content a linked h =
      let e = find_entry-absent (file id) file_not_found a linked h in
      (
        rw (remove_file, ◌>>=◌, e) refl,
        rw (rename_file, ◌>>=◌, e) refl,
        rw (replace_file_content, ◌>>=◌, e) refl,
      )

-- On a directory that is in no slot, where every segment but the last has the address of the next,
-- `remove_dir` and `rename_directory` fail with `DirectoryNotFound`, and the archive is left as it
-- was.
pub absent_dir :
    (id fuel : ℕ) (name : ItemName) (a : Archive)
    → IsLinked a.file_segments
    → IsAbsent a.file_segments (directory id)
    → (remove_dir (suc fuel) id a ≡ (failed directory_not_found, a))
      × (rename_directory id name a ≡ (failed directory_not_found, a))
unfolding remove_dir rename_directory
absent_dir id fuel name a linked h =
    let e = find_entry-absent (directory id) directory_not_found a linked h in
    (rw (remove_dir, ◌>>=◌, e) refl, rw (rename_directory, ◌>>=◌, e) refl)
