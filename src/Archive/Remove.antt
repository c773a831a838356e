-- ===== src/Archive/Remove.antt =====
-- crate-lib/src/archive.rs: removing files and directories.
use baf.Base.{ℕ, zero, suc, Bool, true, false, List, [], ◌∷◌, Option, none, some, replicate}
use baf.Base.Maps.{lookup, insert, remove, member, exclude, nat_key, bytes_key}
use baf.Data.Directory.{Directory, DirectoryId, non_root, directory_entry_size}
use baf.Data.File.{File, FileId, file_entry_size}
use baf.Health.{DirContent, no_content, dir_key, directory, file}
use baf.Archive.{
  directory_not_found, file_not_found, Op, pure, panic, ◌>>=◌, ◌>>◌, this, put, assert, unwrap,
}
use baf.Archive.Create.{set_dir_slot, set_file_slot, write_at}
use baf.Archive.Change.{find_entry, dir_at, file_at, free_content}

-- `files.remove(&id).unwrap()`, and the listing of the parent without the file.
unfoldable pub unlist_file : FileId → Op File
unlist_file id = do
  a ← this
  f ← unwrap (lookup id a.files)
  put (record a { files = remove id a.files })
  content ← unwrap (lookup f.parent_dir a.dirs_content)
  assert (member f.id content.files)
  assert (member f.name content.names)
  b ← this
  put (record b {
    dirs_content =
        insert f.parent_dir
          (record content {
            files = exclude f.id content.files;
            names = exclude f.name content.names;
          })
          b.dirs_content;
  })
  pure f

unfoldable pub remove_file : FileId → Op File
remove_file id = do
  entry ← find_entry (file id) file_not_found
  write_at entry.entry_addr (some (replicate file_entry_size 0))
  file_at entry >>= λ _. set_file_slot entry.segment_index entry.entry_index none
  f ← unlist_file id
  free_content f
  pure f

unfoldable pub unlist_dir : DirectoryId → Op Directory
unlist_dir id = do
  a ← this
  dir ← unwrap (lookup id a.dirs)
  put (record a { dirs = remove id a.dirs })
  content ← unwrap (lookup dir.parent_dir a.dirs_content)
  assert (member dir.id content.dirs)
  assert (member dir.name content.names)
  b ← this
  put (record b {
    dirs_content =
        insert dir.parent_dir
          (record content {
            dirs = exclude dir.id content.dirs;
            names = exclude dir.name content.names;
          })
          b.dirs_content;
  })
  pure dir

abbrev is_empty : {A : Type 0} → List A → Bool
is_empty [] = true
is_empty (a ∷ l) = false

-- The directory's own listing, which must be empty by now.
unfoldable pub drop_content : DirectoryId → Op (Unit {0})
drop_content id = do
  a ← this
  content ← unwrap (lookup (non_root id) a.dirs_content)
  assert (is_empty content.dirs)
  assert (is_empty content.files)
  assert (is_empty content.names)
  put (record a { dirs_content = remove (non_root id) a.dirs_content })

unfoldable pub for_each : {A : Type 0} → (ℕ → Op A) → List ℕ → Op (Unit {0})
for_each f [] = pure tt
for_each f (id ∷ rest) = f id >>= λ _. for_each f rest

abbrev listing : Option DirContent → DirContent
listing none = no_content
listing (some content) = content

-- The fuel bounds the depth of the recursion, and running out of it is no better than the panic
-- by which it is answered: the source overflows its stack where directories contain one another.
unfoldable pub remove_dir : ℕ → DirectoryId → Op Directory
remove_dir zero id = panic
remove_dir (suc fuel) id = do
  entry ← find_entry (directory id) directory_not_found
  a ← this
  let content = listing (lookup (non_root id) a.dirs_content)
  for_each (remove_dir fuel) content.dirs
  for_each remove_file content.files
  write_at entry.entry_addr (some (replicate directory_entry_size 0))
  dir_at entry >>= λ _. set_dir_slot entry.segment_index entry.entry_index none
  dir ← unlist_dir id
  drop_content dir.id
  pure dir
