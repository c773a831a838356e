-- ===== src/Archive/Read.antt =====
-- crate-lib/src/archive.rs: listings of directories, and reading files. `none` in a listing is the
-- panic of `unwrap` on an id that no index has, at which the iterator stops when it comes to it.
use baf.Base.{ℕ, Bool, true, false, List, [], ◌∷◌, ◌++◌, Option, none, some, Result, ok, err}
use baf.Base.Maps.{lookup, nat_key}
use baf.Source.{set_position}
use baf.Data.Name.{ItemName}
use baf.Data.Directory.{Directory, DirectoryId, DirectoryIdOrRoot}
use baf.Data.File.{File, FileId}
use baf.FileReader
use baf.FileReader.{FileReader, FileReaderError, read_to_vec, read_to_string}
use baf.Health.{ItemId, directory, file, dir_key}
use baf.Archive.{
  Archive, ArchiveError, directory_not_found, file_not_found, file_reader, Op, pure, fail, ◌>>=◌,
  ◌>>◌, this, unwrap, ok_or, on_source,
}

pub data DirEntry : Type 0 where
  dir_entry : Directory → DirEntry
  file_entry : File → DirEntry

unfoldable pub id : DirEntry → ItemId
id (dir_entry dir) = directory dir.id
id (file_entry f) = file f.id

unfoldable pub name : DirEntry → ItemName
name (dir_entry dir) = dir.name
name (file_entry f) = f.name

unfoldable pub is_dir : DirEntry → Bool
is_dir (dir_entry dir) = true
is_dir (file_entry f) = false

unfoldable pub get_dir : DirectoryId → Archive → Option Directory
get_dir id a = lookup id a.dirs

unfoldable pub get_file : FileId → Archive → Option File
get_file id a = lookup id a.files

unfoldable pub get_dir_content :
    DirectoryIdOrRoot → Archive → Result ArchiveError (List DirectoryId × List FileId)
get_dir_content id a = elim (lookup id a.dirs_content) [
  | none ↦ err directory_not_found
  | some content ↦ ok (content.dirs, content.files)
]

unfoldable pub dir_entries : Archive → List DirectoryId → List (Option DirEntry)
dir_entries a [] = []
dir_entries a (id ∷ ids) = elim (get_dir id a) [
  | none ↦ none ∷ dir_entries a ids
  | some dir ↦ some (dir_entry dir) ∷ dir_entries a ids
]

unfoldable pub file_entries : Archive → List FileId → List (Option DirEntry)
file_entries a [] = []
file_entries a (id ∷ ids) = elim (get_file id a) [
  | none ↦ none ∷ file_entries a ids
  | some f ↦ some (file_entry f) ∷ file_entries a ids
]

unfoldable pub read_dir : DirectoryIdOrRoot → Archive → Result ArchiveError (List (Option DirEntry))
read_dir id a = elim (lookup id a.dirs_content) [
  | none ↦ err directory_not_found
  | some content ↦ ok (dir_entries a content.dirs ++ file_entries a content.files)
]

unfoldable pub read_file : FileId → Op FileReader
read_file id = do
  a ← this
  f ← ok_or file_not_found (get_file id a)
  on_source (set_position f.content_addr)
  b ← this
  pure (FileReader.new b.source f.content_len f.sha3_checksum)

abbrev reader_result : {A : Type 0} → Result FileReaderError A → Op A
reader_result (ok x) = pure x
reader_result (err e) = fail (file_reader e)

-- Reading does not change the archive but for the position of its stream, which no later operation
-- depends on: each of them sets it first.
module _ (sha3_256 : List ℕ → List ℕ) (sizes : ℕ → ℕ) where
  unfoldable pub read_file_to_vec : FileId → Op (List ℕ)
  read_file_to_vec id = do
    reader ← read_file id
    result ← unwrap (read_to_vec sha3_256 sizes reader)
    reader_result result

  unfoldable pub read_file_to_string : FileId → Op (List ℕ)
  read_file_to_string id = do
    reader ← read_file id
    result ← unwrap (read_to_string sha3_256 sizes reader)
    reader_result result
