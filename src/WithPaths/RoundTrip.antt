-- ===== src/WithPaths/RoundTrip.antt =====
-- The path of an item, and the item at that path.
use baf.Base.{ℕ, ◌≡◌, refl, List, [], ◌∷◌, ◌++◌, Option, some, Result, ok}
use baf.Base.Maps.{nat_key}
use baf.Data.Name.{ItemName}
use baf.Data.Directory
use baf.Data.Directory.{Directory, DirectoryId, DirectoryIdOrRoot}
use baf.Data.PathInArchive
use baf.Data.PathInArchive.RoundTrip.{IsName}
use baf.Archive.{Archive}
use baf.Archive.Read.{DirEntry, name, dir_entry, file_entry, get_dir, get_file, read_dir}
use baf.WithPaths.{
  ItemIdOrRoot, PathAccessError, root, non_root_directory, compute_dir_path, compute_file_path,
  find_named, item_of, directory_of, get_item_from,
}

-- The listing of a directory has an entry under its name.
pub record IsListed (a : Archive) (d : DirectoryIdOrRoot) (name : ItemName) (e : DirEntry)
    : Type 0 where
  pub entries : List (Option DirEntry)
  pub read : read_dir d a ≡ ok entries
  pub found : find_named name entries ≡ some (some e)

-- The directory stands below the root at the given names, each listed in the one before.
pub data IsAt (a : Archive) : DirectoryIdOrRoot → List ItemName → Type 0 where
  at_root : IsAt a Directory.root []
  below :
      (names : List ItemName) (dir : Directory)
      → IsAt a dir.parent_dir names
      → get_dir dir.id a ≡ some dir
      → IsName dir.name
      → IsListed a dir.parent_dir dir.name (dir_entry dir)
      → IsAt a (Directory.non_root dir.id) (names ++ (dir.name ∷ []))

abbrev item : DirectoryIdOrRoot → ItemIdOrRoot
item Directory.root = root
item (Directory.non_root id) = non_root_directory id

directory_of-item : (d : DirectoryIdOrRoot) → directory_of (item d) ≡ some d
unfolding directory_of
directory_of-item Directory.root = refl
directory_of-item (Directory.non_root id) = refl

-- A component more is looked up where the ones before it lead.
step :
    (a : Archive) (d : DirectoryIdOrRoot) (name : ItemName) (e : DirEntry) (names : List ItemName)
    → IsListed a d name e
    → get_item_from (name ∷ names) (item d) a ≡ get_item_from names (item_of e) a
unfolding get_item_from
step a d name e names h = rw (get_item_from, directory_of-item d, h.read, h.found) refl

-- The directory that an entry is in, whether the archive has it under its id, and its path.
abbrev pub parent_of : DirEntry → DirectoryIdOrRoot
parent_of (dir_entry dir) = dir.parent_dir
parent_of (file_entry f) = f.parent_dir

abbrev pub IsKnown : Archive → DirEntry → Type 0
IsKnown a (dir_entry dir) = get_dir dir.id a ≡ some dir
IsKnown a (file_entry f) = get_file f.id a ≡ some f

abbrev pub compute_path : ℕ → DirEntry → Archive → Result PathAccessError (Option (List ℕ))
compute_path fuel (dir_entry dir) a = compute_dir_path fuel dir.id a
compute_path fuel (file_entry f) a = compute_file_path fuel f.id a
