-- ===== src/WithPaths.antt =====
-- crate-lib/src/with_paths.rs: reading an archive by paths. Text is the bytes of its encoding.
pub mod Mut
pub mod RoundTrip
pub mod Circle
pub mod Collision
mod Tests
use baf.Base.{
  ℕ, zero, suc, ◌+◌, List, [], ◌∷◌, ◌++◌, Option, none, some, Result, ok, err, and_then, beq,
  if◌then◌else◌, ◌==◌, length,
}
use baf.Data.Name.{ItemName}
use baf.Data.Directory.{Directory, DirectoryId, DirectoryIdOrRoot}
use baf.Data.Directory
use baf.Data.File.{File, FileId}
use baf.Data.PathInArchive
use baf.Data.PathInArchive.{PathError}
use baf.Archive.{Archive, ArchiveError, directory_not_found, file_not_found}
use baf.Archive.Read
use baf.Archive.Read.{DirEntry, dir_entry, file_entry, get_dir, get_file, read_dir}

pub data ItemIdOrRoot : Type 0 where
  root : ItemIdOrRoot
  non_root_directory : DirectoryId → ItemIdOrRoot
  file : FileId → ItemIdOrRoot

pub data PathAccessError : Type 0 where
  path : PathError → PathAccessError
  archive : ArchiveError → PathAccessError
  file_exists_at_path item_not_found empty_path : PathAccessError
  file_collision file_already_exists file_not_found_at : List ℕ → PathAccessError

-- The loop of `compute_item_path`: the names of the directories above an item, from the nearest.
-- `none` is where the fuel runs out, as it does on directories that contain one another, which the
-- source follows for ever.
unfoldable pub parent_names : ℕ → DirectoryIdOrRoot → Archive → Option (List ItemName)
parent_names zero next a = none
parent_names (suc fuel) Directory.root a = some []
parent_names (suc fuel) (Directory.non_root id) a = elim (get_dir id a) [
  | none ↦ some []
  | some curr ↦ elim (parent_names fuel curr.parent_dir a) [
    | none ↦ none
    | some names ↦ some (curr.name ∷ names)
  ]
]

-- The components in reverse, each with a slash behind it, and the item's name.
unfoldable pub push_components : List ItemName → List ℕ → List ℕ
push_components [] out = out
push_components (c ∷ components) out = push_components components (c ++ (b'/' ∷ out))

unfoldable pub compute_item_path : ℕ → ItemName → DirectoryIdOrRoot → Archive → Option (List ℕ)
compute_item_path fuel item_name first_parent_dir a = elim (parent_names fuel first_parent_dir a) [
  | none ↦ none
  | some components ↦ some (push_components components item_name)
]

unfoldable pub compute_dir_path :
    ℕ → DirectoryId → Archive → Result PathAccessError (Option (List ℕ))
compute_dir_path fuel id a = elim (get_dir id a) [
  | none ↦ err (archive directory_not_found)
  | some dir ↦ ok (compute_item_path fuel dir.name dir.parent_dir a)
]

unfoldable pub compute_file_path : ℕ → FileId → Archive → Result PathAccessError (Option (List ℕ))
compute_file_path fuel id a = elim (get_file id a) [
  | none ↦ err (archive file_not_found)
  | some f ↦ ok (compute_item_path fuel f.name f.parent_dir a)
]

-- `dir_entries.find(|item| item.name() == segment)`; the outer `none` is a panic.
unfoldable pub find_named : ItemName → List (Option DirEntry) → Option (Option DirEntry)
find_named segment [] = some none
find_named segment (none ∷ entries) = none
find_named segment (some e ∷ entries) =
    let rest = find_named segment entries in
    if beq (Read.name e) segment then some (some e) else rest

unfoldable pub item_of : DirEntry → ItemIdOrRoot
item_of (dir_entry dir) = non_root_directory dir.id
item_of (file_entry f) = file f.id

-- The directory to look into; a file has none.
unfoldable pub directory_of : ItemIdOrRoot → Option DirectoryIdOrRoot
directory_of root = some Directory.root
directory_of (non_root_directory id) = some (Directory.non_root id)
directory_of (file id) = none

-- The loop of `get_item_at`; the outer `none` is a panic.
unfoldable pub get_item_from : List ItemName → ItemIdOrRoot → Archive → Option (Option ItemIdOrRoot)
get_item_from [] curr a = some (some curr)
get_item_from (segment ∷ segments) curr a = elim (directory_of curr) [
  | none ↦ some none
  | some dir ↦ elim (read_dir dir a) [
    | err e ↦ some none
    | ok entries ↦ elim (find_named segment entries) [
      | none ↦ none
      | some none ↦ some none
      | some (some e) ↦ get_item_from segments (item_of e) a
    ]
  ]
]

unfoldable pub get_item_at : List ℕ → Archive → Option (Option ItemIdOrRoot)
get_item_at text a = elim (PathInArchive.new text) [
  | err e ↦ some none
  | ok components ↦ get_item_from components root a
]

unfoldable pub dir_of_item : Archive → Option ItemIdOrRoot → Option Directory
dir_of_item a (some (non_root_directory id)) = get_dir id a
dir_of_item a (some root) = none
dir_of_item a (some (file id)) = none
dir_of_item a none = none

unfoldable pub file_of_item : Archive → Option ItemIdOrRoot → Option File
file_of_item a (some (file id)) = get_file id a
file_of_item a (some root) = none
file_of_item a (some (non_root_directory id)) = none
file_of_item a none = none

unfoldable pub get_dir_at : List ℕ → Archive → Option (Option Directory)
get_dir_at text a = and_then (get_item_at text a) λ item. some (dir_of_item a item)

unfoldable pub get_file_at : List ℕ → Archive → Option (Option File)
get_file_at text a = and_then (get_item_at text a) λ item. some (file_of_item a item)

unfoldable pub listing_of :
    Result ArchiveError (List (Option DirEntry)) → Result PathAccessError (List (Option DirEntry))
listing_of (ok entries) = ok entries
listing_of (err e) = err (archive e)

unfoldable pub dir_of :
    Archive → Option ItemIdOrRoot → Result PathAccessError (List (Option DirEntry))
dir_of a none = err item_not_found
dir_of a (some root) = listing_of (read_dir Directory.root a)
dir_of a (some (non_root_directory id)) = listing_of (read_dir (Directory.non_root id) a)
dir_of a (some (file id)) = err file_exists_at_path

unfoldable pub read_dir_at :
    List ℕ → Archive → Option (Result PathAccessError (List (Option DirEntry)))
read_dir_at text a = and_then (get_item_at text a) λ item. some (dir_of a item)
