-- ===== src/Archive/Invariant/Steps.antt =====
-- Operations one after another, and what the archive's files have then.
use baf.Base.{
  ℕ, ◌+◌, ◌^◌, ◌<◌, ◌≡◌, refl, sym, false, ap, subst, ◌∙◌, List, [], ◌∷◌, Option, none, some, arith,
  length, All, ◌==◌, if◌then◌else◌,
}
use baf.Base.Maps.{lookup, member, nat_key, bytes_key}
use baf.Bytes.{IsByte}
use baf.Data.Name.{ItemName}
use baf.Data.Timestamp.{Timestamp}
use baf.Data.Directory.{DirectoryIdOrRoot}
use baf.Data.File.{File, FileId}
use baf.Data.FtSegment.{encoded_len}
use baf.Health.{dir_key}
use baf.Archive.{Archive, Outcome, done}
use baf.Archive.Create.{create_dir, create_file}
use baf.Archive.Remove.{remove_file}
use baf.Archive.Change.{replace_file_content, rename_file}
use baf.Data.Name.Valid.{IsItemName}
use baf.Health.{DirContent, dir_key}
use baf.Data.Directory.RoundTrip.{IsU64}
use baf.Archive.Disk.Grown.{new_segment}
use baf.Archive.Invariant.{IsConsistent, CanAdd}
use baf.Archive.Invariant.Contents.{contents}
use baf.Archive.Invariant.AddDir.{create_dir-IsConsistent}
use baf.Archive.Invariant.AddFile.{create_file-IsConsistent}
use baf.Archive.Invariant.RemoveFile.{remove_file-IsConsistent}
use baf.Archive.Invariant.RenameFile.{rename_file-IsConsistent}
use baf.Archive.Invariant.ReplaceFile.{replace_file_content-IsConsistent}

-- What a user sees happen.
pub data Event : Type 0 where
  directory_created : Event
  file_created : FileId → List ℕ → Event
  file_replaced : FileId → List ℕ → Event
  file_renamed : Event
  file_removed : FileId → Event

-- The contents of the files after an event.
abbrev pub after : Event → (FileId → Option (List ℕ)) → FileId → Option (List ℕ)
after directory_created m id = m id
after (file_created new bytes) m id = if id == new then some bytes else m id
after (file_replaced old bytes) m id = if id == old then some bytes else m id
after file_renamed m id = m id
after (file_removed old) m id = if id == old then none else m id

abbrev pub after_all : List Event → (FileId → Option (List ℕ)) → FileId → Option (List ℕ)
after_all [] m id = m id
after_all (e ∷ es) m id = after_all es (after e m) id

after-same :
    (e : Event) (m n : FileId → Option (List ℕ))
    → ((id : FileId) → m id ≡ n id)
    → (id : FileId) → after e m id ≡ after e n id
after-same directory_created m n same id = same id
after-same (file_created new bytes) m n same id =
    ap (λ o. if id == new then some bytes else o) (same id)
after-same (file_replaced old bytes) m n same id =
    ap (λ o. if id == old then some bytes else o) (same id)
after-same file_renamed m n same id = same id
after-same (file_removed old) m n same id = ap (λ o. if id == old then none else o) (same id)

pub after_all-same :
    (es : List Event) (m n : FileId → Option (List ℕ))
    → ((id : FileId) → m id ≡ n id)
    → (id : FileId) → after_all es m id ≡ after_all es n id
after_all-same [] m n same id = same id
after_all-same (e ∷ es) m n same id =
    after_all-same es (after e m) (after e n) (after-same e m n same) id

-- An operation that is called where its arguments are valid, and its event.
pub data Step (sha3_256 : List ℕ → List ℕ) : Archive → Event → Archive → Type 0 where
  dir_step :
      (parent : DirectoryIdOrRoot) (name : ItemName) (time : Timestamp) (id : ℕ) (a b : Archive)
      → CanAdd parent name time a
      → length a.source.content + encoded_len (new_segment a.conf) < 2 ^ 64
      → create_dir parent name time a ≡ (done id, b)
      → Step sha3_256 a directory_created b
  file_step :
      (parent : DirectoryIdOrRoot) (name : ItemName) (time : Timestamp) (bytes : List ℕ) (id : ℕ)
      (a b : Archive)
      → CanAdd parent name time a
      → length a.source.content + encoded_len (new_segment a.conf) + length bytes < 2 ^ 64
      → create_file sha3_256 parent name time bytes a ≡ (done id, b)
      → Step sha3_256 a (file_created id bytes) b
  replace_step :
      (f : File) (time : Timestamp) (bytes : List ℕ) (a b : Archive)
      → lookup f.id a.files ≡ some f
      → IsU64 time
      → length a.source.content + length bytes < 2 ^ 64
      → replace_file_content sha3_256 f.id time bytes a ≡ (done tt, b)
      → Step sha3_256 a (file_replaced f.id bytes) b
  rename_step :
      (f : File) (name : ItemName) (content : DirContent) (a b : Archive)
      → lookup f.id a.files ≡ some f
      → IsItemName name
      → lookup f.parent_dir a.dirs_content ≡ some content
      → member name content.names ≡ false
      → rename_file f.id name a ≡ (done tt, b)
      → Step sha3_256 a file_renamed b
  remove_step :
      (f g : File) (a b : Archive)
      → lookup f.id a.files ≡ some f
      → remove_file f.id a ≡ (done g, b)
      → Step sha3_256 a (file_removed f.id) b

pub data Steps (sha3_256 : List ℕ → List ℕ) : Archive → List Event → Archive → Type 0 where
  stop : (a : Archive) → Steps sha3_256 a [] a
  more :
      (a b c : Archive) (e : Event) (es : List Event)
      → Step sha3_256 a e b
      → Steps sha3_256 b es c
      → Steps sha3_256 a (e ∷ es) c

same_archive :
    {A : Type 0} (x y : A) (a b : Archive)
    → (r : Outcome A × Archive) → r ≡ (done x, a)
    → r ≡ (done y, b)
    → (x ≡ y) × (a ≡ b)
same_archive x y a b r e e' = (done_value (ap (λ p. p.0) (sym e ∙ e')), ap (λ p. p.1) (sym e ∙ e'))
  where
    done_value : done x ≡ done y → x ≡ y
    done_value e = ground arith

module _ (sha3_256 : List ℕ → List ℕ) (digest_size : (bs : List ℕ) → length (sha3_256 bs) ≡ 32)
    (digest_bytes : (bs : List ℕ) → All IsByte (sha3_256 bs)) where
  -- A step keeps an archive consistent, and the contents are those of its event.
  Step-contents :
      (a b : Archive) (e : Event)
      → IsConsistent sha3_256 a
      → Step sha3_256 a e b
      → IsConsistent sha3_256 b × ((id : FileId) → contents b id ≡ after e (contents a) id)
  Step-contents _ _ _ h (dir_step parent name time id a b can bound run) =
      let (b', run', good, entered, same) =
        create_dir-IsConsistent sha3_256 a h parent name time can bound in
      let is = (same_archive a.next_id id b' b _ run' run).1 in
      subst (λ x. IsConsistent sha3_256 x × ((id : FileId) → contents x id ≡ contents a id)) is
        (good, same)
  Step-contents _ _ _ h (file_step parent name time bytes id a b can bound run) =
      let (b', f, run', new_id, good, same) =
        create_file-IsConsistent sha3_256 digest_size digest_bytes a h parent name time bytes can
          bound in
      let (is_id, is) = same_archive f.id id b' b _ run' run in
      subst
        (λ x.
          IsConsistent sha3_256 x
          × ((n : FileId) → contents x n ≡ (if n == id then some bytes else contents a n)))
        is (good, λ n. same n ∙ ap (λ new. if n == new then some bytes else contents a n) is_id)
  Step-contents _ _ _ h (replace_step f time bytes a b indexed in_time bound run) =
      let (b', run', good, same) =
        replace_file_content-IsConsistent sha3_256 digest_size digest_bytes a h f indexed time bytes
          in_time bound in
      let is = ap (λ p. p.1) (sym run' ∙ run) in
      subst
        (λ x.
          IsConsistent sha3_256 x
          × ((n : FileId) → contents x n ≡ (if n == f.id then some bytes else contents a n)))
        is (good, same)
  Step-contents _ _ _ h (rename_step f name content a b indexed valid listed fresh run) =
      let (b', run', good, found, renamed, same) =
        rename_file-IsConsistent sha3_256 a h f indexed name valid content listed fresh in
      let is = ap (λ p. p.1) (sym run' ∙ run) in
      subst (λ x. IsConsistent sha3_256 x × ((n : FileId) → contents x n ≡ contents a n)) is
        (good, same)
  Step-contents _ _ _ h (remove_step f g a b indexed run) =
      let (b', run', good, same) = remove_file-IsConsistent sha3_256 a h f indexed in
      let is = (same_archive f g b' b _ run' run).1 in
      subst
        (λ x.
          IsConsistent sha3_256 x
          × ((n : FileId) → contents x n ≡ (if n == f.id then none else contents a n)))
        is (good, same)

  -- Let operations be called one after another, each where its arguments are valid: `create_dir` and
  -- `create_file` with a listed parent that does not have the name, values that their types allow,
  -- a next id that is not the last one and a stream that with a new segment and the data behind it
  -- ends below 2^64, `replace_file_content` with the id of a file, a time of 64 bits and a stream that
  -- with the data behind it ends below 2^64, `rename_file` with the id of a file and a name that its
  -- type allows and the parent's listing does not have, and `remove_file` with the id of a file; the
  -- digests are of 32 bytes. If the archive was consistent before, it is consistent after them, and
  -- the contents of its files are those that the same events make of a map from ids to contents: a
  -- new file's data under its id, the new data under that of a replaced one, none under that of a
  -- removed one, and all others unchanged.
  pub Steps-contents :
      (a b : Archive) (es : List Event)
      → IsConsistent sha3_256 a
      → Steps sha3_256 a es b
      → IsConsistent sha3_256 b × ((id : FileId) → contents b id ≡ after_all es (contents a) id)
  Steps-contents _ _ _ h (stop a) = (h, λ id. refl)
  Steps-contents _ _ _ h (more a c b e rest step steps) =
      let (good, same) = Step-contents a c e h step in
      let (good', same') = Steps-contents c b rest good steps in
      (good', λ id. same' id ∙ after_all-same rest (contents c) (after e (contents a)) same id)
