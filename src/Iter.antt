-- ===== src/Iter.antt =====
-- crate-lib/src/iter.rs: the iterator over all items below a directory.
pub mod Order
pub mod Traversal
mod Tests
use baf.Base.{
  ℕ, zero, suc, Bool, true, false, ◌&&◌, ◌||◌, List, [], ◌∷◌, ◌++◌, Option, none, some, Result, ok,
  err, ltb, ◌==◌, if◌then◌else◌,
}
use baf.Data.Name.{ItemName}
use baf.Data.Directory.{Directory, DirectoryId, DirectoryIdOrRoot, root, non_root}
use baf.Data.File.{File, FileId}
use baf.Archive.{Archive, ArchiveError}
use baf.Archive.Read.{DirEntry, dir_entry, file_entry, get_dir, get_file, get_dir_content}

-- `String::cmp`: bytes in lexicographic order.
unfoldable pub name_leb : List ℕ → List ℕ → Bool
name_leb [] ys = true
name_leb (x ∷ xs) [] = false
name_leb (x ∷ xs) (y ∷ ys) = ltb x y || ((x == y) && name_leb xs ys)

-- `sort_by(|a, b| a.1.cmp(&b.1))`, which is stable.
unfoldable pub insert_by_name :
    {K : Type 0} → K × ItemName → List (K × ItemName) → List (K × ItemName)
insert_by_name x [] = x ∷ []
insert_by_name x (y ∷ ys) =
    let rest = insert_by_name x ys in if name_leb x.1 y.1 then x ∷ y ∷ ys else y ∷ rest

unfoldable pub sort_by_name : {K : Type 0} → List (K × ItemName) → List (K × ItemName)
sort_by_name [] = []
sort_by_name (x ∷ xs) = insert_by_name x (sort_by_name xs)

-- `filter_map(|id| Some((id, get(id)?.name.clone())))`
unfoldable pub with_names : {K : Type 0} → (K → Option ItemName) → List K → List (K × ItemName)
with_names name_of [] = []
with_names name_of (id ∷ ids) = elim (name_of id) [
  | none ↦ with_names name_of ids
  | some name ↦ (id, name) ∷ with_names name_of ids
]

unfoldable pub ids_of : {K : Type 0} → List (K × ItemName) → List K
ids_of [] = []
ids_of ((id, name) ∷ rest) = id ∷ ids_of rest

unfoldable pub dir_name : Archive → DirectoryId → Option ItemName
dir_name a id = elim (get_dir id a) [ none ↦ none | some dir ↦ some dir.name ]

unfoldable pub file_name : Archive → FileId → Option ItemName
file_name a id = elim (get_file id a) [ none ↦ none | some f ↦ some f.name ]

-- The ids of a listing in the order of their names. The source reverses the vector and pops from
-- its end, which is taking from the front.
unfoldable pub ordered_dirs : Archive → List DirectoryId → List DirectoryId
ordered_dirs a ids = ids_of (sort_by_name (with_names (dir_name a) ids))

unfoldable pub ordered_files : Archive → List FileId → List FileId
ordered_files a ids = ids_of (sort_by_name (with_names (file_name a) ids))

-- `ArchiveIter` with its `IterState`; `dirs` is `curr: None`, `dirs_in` is `curr: Some(…)`.
pub data ArchiveIter : Type 0 where
  dirs : DirectoryIdOrRoot → List DirectoryId → ArchiveIter
  dirs_in : DirectoryIdOrRoot → ArchiveIter → List DirectoryId → ArchiveIter
  files : DirectoryIdOrRoot → List FileId → ArchiveIter

unfoldable pub new : Archive → DirectoryIdOrRoot → Result ArchiveError ArchiveIter
new a dir_id = elim (get_dir_content dir_id a) [
  | err e ↦ err e
  | ok content ↦ ok (dirs dir_id (ordered_dirs a content.0))
]

unfoldable pub next_file : Archive → DirectoryIdOrRoot → List FileId → Option DirEntry × ArchiveIter
next_file a dir_id [] = (none, files dir_id [])
next_file a dir_id (id ∷ ids) = elim (get_file id a) [
  | none ↦ (none, files dir_id ids)
  | some f ↦ (some (file_entry f), files dir_id ids)
]

-- The state for the files, once no directory is left; `stay` is the iterator where it fails.
unfoldable pub start_files :
    Archive → DirectoryIdOrRoot → ArchiveIter → Option DirEntry × ArchiveIter
start_files a dir_id stay = elim (get_dir_content dir_id a) [
  | err e ↦ (none, stay)
  | ok content ↦ next_file a dir_id (ordered_files a content.1)
]

-- What `next` does where `curr` yields nothing: `rest` puts back what is not changed.
unfoldable pub next_dir :
    Archive
    → DirectoryIdOrRoot
    → (List DirectoryId → ArchiveIter)
    → List DirectoryId
    → Option DirEntry × ArchiveIter
next_dir a dir_id rest [] = start_files a dir_id (rest [])
next_dir a dir_id rest (id ∷ ids) = elim (new a (non_root id)) [
  | err e ↦ (none, rest ids)
  | ok child ↦ elim (get_dir id a) [
    | none ↦ (none, dirs_in dir_id child ids)
    | some dir ↦ (some (dir_entry dir), dirs_in dir_id child ids)
  ]
]

unfoldable pub next : Archive → ArchiveIter → Option DirEntry × ArchiveIter
next a (dirs dir_id ids) = next_dir a dir_id (dirs dir_id) ids
next a (dirs_in dir_id curr ids) =
    let r = next a curr in
    elim r.0 [
      | some e ↦ (some e, dirs_in dir_id r.1 ids)
      | none ↦ next_dir a dir_id (dirs_in dir_id r.1) ids
    ]
next a (files dir_id ids) = next_file a dir_id ids

-- A `for` loop over the iterator: what it yields up to the first `None`. The outer `none` is where
-- the fuel runs out.
unfoldable pub collect : ℕ → Archive → ArchiveIter → Option (List DirEntry)
collect zero a it = none
collect (suc fuel) a it =
    let r = next a it in
    elim r.0 [
      | none ↦ some []
      | some e ↦ elim (collect fuel a r.1) [ none ↦ none | some es ↦ some (e ∷ es) ]
    ]

-- `Archive::read_dir_recursive`, and `Archive::items_iter` with its `unwrap`.
unfoldable pub read_dir_recursive : Archive → DirectoryIdOrRoot → Result ArchiveError ArchiveIter
read_dir_recursive a dir_id = new a dir_id

unfoldable pub items_iter : Archive → Option ArchiveIter
items_iter a = elim (new a root) [ err e ↦ none | ok it ↦ some it ]
