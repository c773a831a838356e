-- ===== src/WithPaths/Mut.antt =====
-- crate-lib/src/with_paths_mut.rs: changing an archive by paths. `now k` is the clock's answer when
-- the `k`-th component of a path is created; the hash is a parameter, as in Archive.Create.
use baf.Base.{ℕ, suc, List, [], ◌∷◌, ◌++◌, Option, none, some, ok, err, pop}
use baf.Data.Name.{ItemName}
use baf.Data.Timestamp.{Timestamp}
use baf.Data.Directory.{Directory, DirectoryId, DirectoryIdOrRoot}
use baf.Data.PathInArchive
use baf.Data.PathInArchive.{PathError}
use baf.FileReader.{FileReader}
use baf.Archive.{Archive, Outcome, Op, directory_not_found}
use baf.Archive.Read.{DirEntry, dir_entry, file_entry, read_dir, read_file, get_dir}
use baf.Archive.Create.{create_dir, create_file}
use baf.Archive.Change.{replace_file_content}
use baf.Archive.Remove.{remove_dir, remove_file}
use baf.WithPaths.{
  PathAccessError, path, archive, item_not_found, empty_path, file_collision, file_already_exists,
  file_not_found_at, find_named, get_dir_at, get_file_at,
}

-- What a call ends with.
pub data PathOutcome (A : Type 0) : Type 0 where
  done : A → PathOutcome A
  failed : PathAccessError → PathOutcome A
  panicked : PathOutcome A

abbrev pub PathOp : Type 0 → Type 0
PathOp A = Archive → PathOutcome A × Archive

abbrev pub pure : {A : Type 0} → A → PathOp A
pure x a = (done x, a)

abbrev pub fail : {A : Type 0} → PathAccessError → PathOp A
fail e a = (failed e, a)

abbrev pub bind_outcome :
    {A B : Type 0} → PathOutcome A → Archive → (A → PathOp B) → PathOutcome B × Archive
bind_outcome (done x) a f = f x a
bind_outcome (failed e) a f = (failed e, a)
bind_outcome panicked a f = (panicked, a)

infixl 5 ◌>>=◌ ◌>>◌
abbrev pub ◌>>=◌ : {A B : Type 0} → PathOp A → (A → PathOp B) → PathOp B
◌>>=◌ m f a = bind_outcome (m a).0 (m a).1 f

abbrev pub ◌>>◌ : {B : Type 0} → PathOp (Unit {0}) → PathOp B → PathOp B
m >> k = m >>= λ _. k

-- An operation of the archive, its errors wrapped.
abbrev pub outcome : {A : Type 0} → Outcome A → PathOutcome A
outcome (Outcome.done x) = done x
outcome (Outcome.failed e) = failed (archive e)
outcome Outcome.panicked = panicked

abbrev pub lift : {A : Type 0} → Op A → PathOp A
lift m a = (outcome (m a).0, (m a).1)

-- A question to the archive, `none` being a panic.
abbrev pub ask : {A : Type 0} → (Archive → Option A) → PathOp A
ask f a = elim (f a) [ none ↦ (panicked, a) | some x ↦ (done x, a) ]

abbrev pub ok_or : {A : Type 0} → PathAccessError → Option A → PathOp A
ok_or e none = fail e
ok_or e (some x) = pure x

-- `PathInArchive::new(path)?`
abbrev pub parse : List ℕ → PathOp (List ItemName)
parse text = elim (PathInArchive.new text) [
  | err e ↦ fail (path e)
  | ok components ↦ pure components
]

abbrev pub id_of : Option Directory → DirectoryIdOrRoot
id_of none = DirectoryIdOrRoot.root
id_of (some dir) = DirectoryIdOrRoot.non_root dir.id

-- `read_dir(id)?.find(…)`
unfoldable pub child_named : DirectoryIdOrRoot → ItemName → PathOp (Option DirEntry)
child_named id segment a = elim (read_dir id a) [
  | err e ↦ (failed (archive e), a)
  | ok entries ↦ elim (find_named segment entries) [ none ↦ (panicked, a) | some o ↦ (done o, a) ]
]

module _ (now : ℕ → Timestamp) where
  -- The round of the loop for one component.
  unfoldable pub enter : ℕ → ItemName → Option Directory → List ItemName → PathOp Directory
  enter k segment curr_dir curr_path = do
    item ← child_named (id_of curr_dir) segment
    elim item [
      | some (dir_entry dir) ↦ pure dir
      | some (file_entry f) ↦ fail (file_collision (PathInArchive.to_string curr_path))
      | none ↦ (do
        dir_id ← lift (create_dir (id_of curr_dir) segment (now k))
        dir ← ask (λ a. some (get_dir dir_id a))
        ok_or (archive directory_not_found) dir)
    ]

  unfoldable pub enter_all :
      ℕ → List ItemName → Option Directory → List ItemName → PathOp (Option Directory)
  enter_all k [] curr_dir curr_path = pure curr_dir
  enter_all k (segment ∷ segments) curr_dir curr_path = do
    dir ← enter k segment curr_dir curr_path
    enter_all (suc k) segments (some dir) (curr_path ++ (dir.name ∷ []))

  unfoldable pub get_or_create_dir_at : List ℕ → PathOp Directory
  get_or_create_dir_at text = do
    components ← parse text
    dir ← enter_all 0 components none []
    ok_or empty_path dir

  -- The directory that a new item goes to.
  unfoldable pub parent_of_new : List ItemName → PathOp DirectoryIdOrRoot
  parent_of_new [] = pure DirectoryIdOrRoot.root
  parent_of_new (c ∷ cs) = do
    dir ← get_or_create_dir_at (PathInArchive.to_string (c ∷ cs))
    pure (DirectoryIdOrRoot.non_root dir.id)

  unfoldable pub create_dir_at : List ℕ → Timestamp → PathOp DirectoryId
  create_dir_at text modif_time = do
    components ← parse text
    popped ← ok_or empty_path (pop components)
    parent_dir ← parent_of_new popped.1
    lift (create_dir parent_dir popped.0 modif_time)

  module _ (sha3_256 : List ℕ → List ℕ) where
    -- `write_file_at` where there is no file.
    unfoldable pub write_new_file : List ℕ → List ℕ → Timestamp → PathOp (Unit {0})
    write_new_file text content modif_time = do
      components ← parse text
      popped ← ok_or empty_path (pop components)
      parent_dir ← parent_of_new popped.1
      lift (create_file sha3_256 parent_dir popped.0 modif_time content) >>= λ _. pure tt

    unfoldable pub write_file_at : List ℕ → List ℕ → Timestamp → PathOp (Unit {0})
    write_file_at text content modif_time = do
      file ← ask (get_file_at text)
      elim file [
        | some f ↦ lift (replace_file_content sha3_256 f.id modif_time content)
        | none ↦ write_new_file text content modif_time
      ]

    unfoldable pub create_file_at : List ℕ → List ℕ → Timestamp → PathOp (Unit {0})
    create_file_at text content modif_time = do
      file ← ask (get_file_at text)
      elim file [
        | some f ↦ fail (file_already_exists text)
        | none ↦ write_file_at text content modif_time
      ]

    unfoldable pub update_file_at : List ℕ → List ℕ → Timestamp → PathOp (Unit {0})
    update_file_at text content modif_time = do
      file ← ask (get_file_at text)
      elim file [
        | some f ↦ write_file_at text content modif_time
        | none ↦ fail (file_not_found_at text)
      ]

unfoldable pub read_file_at : List ℕ → PathOp FileReader
read_file_at text = do
  file ← ask (get_file_at text)
  f ← ok_or (file_not_found_at text) file
  lift (read_file f.id)

-- The fuel is that of `remove_dir`.
unfoldable pub remove_dir_at : ℕ → List ℕ → PathOp (Unit {0})
remove_dir_at fuel text = do
  dir ← ask (get_dir_at text)
  d ← ok_or item_not_found dir
  lift (remove_dir fuel d.id) >>= λ _. pure tt

unfoldable pub remove_file_at : List ℕ → PathOp (Unit {0})
remove_file_at text = do
  file ← ask (get_file_at text)
  f ← ok_or (file_not_found_at text) file
  lift (remove_file f.id) >>= λ _. pure tt
