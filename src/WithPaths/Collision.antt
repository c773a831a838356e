-- ===== src/WithPaths/Collision.antt =====
-- A file where a path goes through a directory.
use baf.Base.{ℕ, suc, ◌≡◌, refl, List, [], ◌∷◌, ◌++◌, append_assoc, ap, ◌∙◌, Option, none, some, ok}
use baf.Data.Name.{ItemName}
use baf.Data.Timestamp.{Timestamp}
use baf.Data.Directory
use baf.Data.Directory.{Directory, DirectoryIdOrRoot}
use baf.Data.File.{File}
use baf.Data.PathInArchive
use baf.Data.PathInArchive.{join}
use baf.Archive.{Archive}
use baf.Archive.Read.{DirEntry, dir_entry, file_entry}
use baf.WithPaths.{file_collision}
use baf.WithPaths.Mut.{
  done, failed, ◌>>=◌, id_of, parse, child_named, enter, enter_all, get_or_create_dir_at,
}
use baf.WithPaths.RoundTrip.{IsListed, IsAt, at_root, below}

child_named_lem :
    (a : Archive) (d : DirectoryIdOrRoot) (name : ItemName) (e : DirEntry)
    → IsListed a d name e
    → child_named d name a ≡ (done (some e), a)
unfolding child_named
child_named_lem a d name e h = rw (child_named, h.read, h.found) refl

module _ (now : ℕ → Timestamp) where
  -- Existing directories are entered, and nothing is created.
  enter_dir :
      (k : ℕ) (a : Archive) (d : DirectoryIdOrRoot) (curr : Option Directory) (dir : Directory)
      (names more : List ItemName)
      → id_of curr ≡ d
      → IsListed a d dir.name (dir_entry dir)
      → enter_all now k (dir.name ∷ more) curr names a
        ≡ enter_all now (suc k) more (some dir) (names ++ (dir.name ∷ [])) a
  unfolding enter_all enter
  enter_dir k a d curr dir names more same listed =
      rw (enter_all, enter, ◌>>=◌, same, child_named_lem a d dir.name (dir_entry dir) listed) refl

  enter_on :
      (a : Archive) (d : DirectoryIdOrRoot) (names more : List ItemName)
      → IsAt a d names
      → (k : ℕ) × (curr : Option Directory) × (id_of curr ≡ d)
        × (enter_all now 0 (names ++ more) none [] a ≡ enter_all now k more curr names a)
  enter_on a Directory.root [] more at_root = (0, none, refl, refl)
  enter_on a d names' more (below names dir up here valid listed) =
      let (k, curr, same, e) = enter_on a dir.parent_dir names (dir.name ∷ more) up in
      (
        suc k,
        some dir,
        refl,
        ap (λ ns. enter_all now 0 ns none [] a) (append_assoc names (dir.name ∷ []) more)
            ∙ e
            ∙ enter_dir k a dir.parent_dir curr dir names more same listed,
      )

  enter_file :
      (k : ℕ) (a : Archive) (d : DirectoryIdOrRoot) (curr : Option Directory) (name : ItemName)
      (f : File) (names more : List ItemName)
      → id_of curr ≡ d
      → IsListed a d name (file_entry f)
      → enter_all now k (name ∷ more) curr names a ≡ (failed (file_collision (join names)), a)
  unfolding enter_all enter
  enter_file k a d curr name f names more same listed =
      rw (enter_all, enter, ◌>>=◌, same, child_named_lem a d name (file_entry f) listed) refl

  enter_none :
      (k : ℕ) (a : Archive) (curr : Option Directory) (names : List ItemName)
      → enter_all now k [] curr names a ≡ (done curr, a)
  unfolding enter_all
  enter_none k a curr names = refl

  -- Let a path lead through existing directories, each listed in the one before, to a
  -- file, with more components behind it or none. Then `get_or_create_dir_at` fails with
  -- `FileCollision` and creates nothing. The path in the error is the one of the directory that the
  -- file is in, without the file's name.
  pub get_or_create_dir_at-file :
      (text : List ℕ) (a : Archive) (d : DirectoryIdOrRoot) (names more : List ItemName)
      (name : ItemName) (f : File)
      → IsAt a d names
      → IsListed a d name (file_entry f)
      → PathInArchive.new text ≡ ok (names ++ (name ∷ more))
      → get_or_create_dir_at now text a ≡ (failed (file_collision (join names)), a)
  unfolding get_or_create_dir_at
  get_or_create_dir_at-file text a d names more name f h listed parsed =
      let (k, curr, same, e) = enter_on a d names (name ∷ more) h in
      let stops = enter_file k a d curr name f names more same listed in
      rw (get_or_create_dir_at, ◌>>=◌, parse, parsed) (rw (e ∙ stops) refl)

  -- If a path leads through existing directories, each listed in the one before, to an existing
  -- one, then `get_or_create_dir_at` answers it, and leaves the archive as it was.
  pub get_or_create_dir_at-existing :
      (text : List ℕ) (a : Archive) (names : List ItemName) (dir : Directory)
      → IsAt a dir.parent_dir names
      → IsListed a dir.parent_dir dir.name (dir_entry dir)
      → PathInArchive.new text ≡ ok (names ++ (dir.name ∷ []))
      → get_or_create_dir_at now text a ≡ (done dir, a)
  unfolding get_or_create_dir_at
  get_or_create_dir_at-existing text a names dir h listed parsed =
      let (k, curr, same, e) = enter_on a dir.parent_dir names (dir.name ∷ []) h in
      let ends =
        enter_dir k a dir.parent_dir curr dir names [] same listed
        ∙ enter_none (suc k) a (some dir) (names ++ (dir.name ∷ [])) in
      rw (get_or_create_dir_at, ◌>>=◌, parse, parsed) (rw (e ∙ ends) refl)
