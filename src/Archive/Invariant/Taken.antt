-- ===== src/Archive/Invariant/Taken.antt =====
-- Giving the name of a file again in its directory.
use baf.Base.{ℕ, ◌≡◌, refl, List, some}
use baf.Base.Maps.{lookup, nat_key, bytes_key}
use baf.Data.Timestamp.{Timestamp}
use baf.Data.File.{File}
use baf.Health.{dir_key}
use baf.Archive.{Archive, failed, file_not_found, duplicate_name, ◌>>=◌}
use baf.Archive.Write.{ensure_no_duplicate_name, parent_text}
use baf.Archive.Create.{create_dir, create_file}
use baf.Archive.Change.{rename_file}
use baf.Archive.Disk.Removed.{find_entry_lem}
use baf.Archive.Invariant.{IsConsistent}
use baf.Archive.Invariant.RemoveFile.{may_remove}

module _ (sha3_256 : List ℕ → List ℕ) (a : Archive) (h : IsConsistent sha3_256 a) (f : File)
    (indexed : lookup f.id a.files ≡ some f) where
  refused :
      ensure_no_duplicate_name f.name f.parent_dir a
      ≡ (failed (duplicate_name f.name (parent_text f.parent_dir a)), a)
  unfolding ensure_no_duplicate_name
  refused =
      let k = (h.files f.id f indexed).listing in
      rw (ensure_no_duplicate_name, ◌>>=◌, k.listed, k.has_name) refl

  -- Let an archive be consistent, and its index have a file. Then creating a directory or a file
  -- with that file's name in its directory, and renaming a file of the index that is in that
  -- directory, which may be the same one, to that name, each fail with `DuplicateName` for the name
  -- and the directory, and leave the archive as it was: no id is taken, and nothing is written.
  pub taken_name :
      (time : Timestamp) (content : List ℕ) (g : File)
      → lookup g.id a.files ≡ some g
      → g.parent_dir ≡ f.parent_dir
      → (create_dir f.parent_dir f.name time a
          ≡ (failed (duplicate_name f.name (parent_text f.parent_dir a)), a))
        × (create_file sha3_256 f.parent_dir f.name time content a
            ≡ (failed (duplicate_name f.name (parent_text f.parent_dir a)), a))
        × (rename_file g.id f.name a
            ≡ (failed (duplicate_name f.name (parent_text f.parent_dir a)), a))
  unfolding create_dir create_file rename_file
  taken_name time content g g_indexed same =
      let (e, may) = may_remove sha3_256 a h g g_indexed in
      (
        rw (create_dir, ◌>>=◌, refused) refl,
        rw (create_file, ◌>>=◌, refused) refl,
        rw
            (
              rename_file,
              ◌>>=◌,
              find_entry_lem g.id file_not_found e a may.found,
              g_indexed,
              same,
              refused,
            )
            refl,
      )
