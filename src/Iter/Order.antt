-- ===== src/Iter/Order.antt =====
-- The order in which the iterator visits a directory.
use baf.Base.{
  ℕ, ◌≡◌, refl, sym, ap, ◌∙◌, inl, inr, true, false, List, [], ◌∷◌, ◌++◌, Option, none, some,
  some_inj, ok, arith, zero, suc, All, Bool-cases,
}
use mathlib.Core.List.{Perm}
use mathlib.Core.List.Perm
use baf.Data.Name.{ItemName}
use baf.Data.Directory.{Directory, DirectoryId, DirectoryIdOrRoot, non_root}
use baf.Data.File.{File, FileId}
use baf.Archive.{Archive}
use baf.Archive.Read.{DirEntry, dir_entry, file_entry, get_dir, get_file, get_dir_content}
use baf.Iter.{
  name_leb, insert_by_name, sort_by_name, with_names, ids_of, dir_name, file_name, ordered_dirs,
  ordered_files,
}

module _ {K : Type 0} (name_of : K → Option ItemName) where
  -- The ids that have a name.
  unfoldable pub known : List K → List K
  known [] = []
  known (id ∷ ids) = elim (name_of id) [ none ↦ known ids | some name ↦ id ∷ known ids ]

  -- The name of an id is at most that of the first of a list.
  abbrev AtMost : K → List K → Type 0
  AtMost x [] = Unit {0}
  AtMost x (y ∷ ys) =
      (m n : ItemName) → name_of x ≡ some m → name_of y ≡ some n → name_leb m n ≡ true

  abbrev pub InOrder : List K → Type 0
  InOrder [] = Unit {0}
  InOrder (x ∷ xs) = AtMost x xs × InOrder xs

  -- The ids that have a name, each as often as it was there, in the order of their names.
  pub record IsByName (ids ys : List K) : Type 0 where
    pub same : Perm ys (known ids)
    pub in_order : InOrder ys

-- The files of the ids, one after another.
pub data Files (a : Archive) : List FileId → List DirEntry → Type 0 where
  no_files : Files a [] []
  one_file :
      (id : FileId) (ids : List FileId) (f : File) (rest : List DirEntry)
      → get_file id a ≡ some f
      → Files a ids rest
      → Files a (id ∷ ids) (file_entry f ∷ rest)

-- The directories of the ids, one after another, each with what is in it behind it.
pub data Dirs (a : Archive) (inside : DirectoryIdOrRoot → List DirEntry → Type 0)
    : List DirectoryId → List DirEntry → Type 0 where
  no_dirs : Dirs a inside [] []
  one_dir :
      (id : DirectoryId) (ids : List DirectoryId) (dir : Directory) (inner rest : List DirEntry)
      → get_dir id a ≡ some dir
      → inside (non_root id) inner
      → Dirs a inside ids rest
      → Dirs a inside (id ∷ ids) (dir_entry dir ∷ (inner ++ rest))

-- One directory: its subdirectories by name, with what is in them, and then its files by name.
pub record Level (a : Archive) (inside : DirectoryIdOrRoot → List DirEntry → Type 0)
    (d : DirectoryIdOrRoot) (es : List DirEntry) : Type 0 where
  pub dir_ids : List DirectoryId
  pub file_ids : List FileId
  pub listed : get_dir_content d a ≡ ok (dir_ids, file_ids)
  pub dirs : List DirectoryId
  pub files : List FileId
  pub dirs_by_name : IsByName (dir_name a) dir_ids dirs
  pub files_by_name : IsByName (file_name a) file_ids files
  pub dir_items : List DirEntry
  pub file_items : List DirEntry
  pub visited : Dirs a inside dirs dir_items
  pub found : Files a files file_items
  pub all : es ≡ dir_items ++ file_items

-- All that is below a directory, up to a depth.
abbrev pub Visits : ℕ → Archive → DirectoryIdOrRoot → List DirEntry → Type 0
Visits zero a d es = ⊥
Visits (suc depth) a d es = Level a (Visits depth a) d es

name_leb-total : (m n : List ℕ) → name_leb m n ≡ false → name_leb n m ≡ true
unfolding name_leb
name_leb-total [] n h = absurd (ground arith)
name_leb-total (x ∷ m) [] h = refl
name_leb-total (x ∷ m) (y ∷ n) h = ground (arith, name_leb-total m n, h)

module _ {K : Type 0} where
  abbrev Below : ItemName → List (K × ItemName) → Type 0
  Below m [] = Unit {0}
  Below m (p ∷ ps) = name_leb m p.1 ≡ true

  abbrev Sorted : List (K × ItemName) → Type 0
  Sorted [] = Unit {0}
  Sorted (p ∷ ps) = Below p.1 ps × Sorted ps

  insert_by_name-Below :
      (m : ItemName) (x : K × ItemName) (ps : List (K × ItemName))
      → name_leb m x.1 ≡ true
      → Below m ps
      → Below m (insert_by_name x ps)
  unfolding insert_by_name
  insert_by_name-Below m x [] h b = h
  insert_by_name-Below m x (p ∷ ps) h b = elim (Bool-cases (name_leb x.1 p.1)) [
    | inl e ↦ rw e h
    | inr e ↦ rw e b
  ]

  insert_by_name-Sorted :
      (x : K × ItemName) (ps : List (K × ItemName)) → Sorted ps → Sorted (insert_by_name x ps)
  unfolding insert_by_name
  insert_by_name-Sorted x [] s = (tt, tt)
  insert_by_name-Sorted x (p ∷ ps) (b, s) = elim (Bool-cases (name_leb x.1 p.1)) [
    | inl e ↦ rw e (e, (b, s))
    | inr e ↦
        rw e
          (insert_by_name-Below p.1 x ps (name_leb-total x.1 p.1 e) b, insert_by_name-Sorted x ps s)
  ]

  sort_by_name-Sorted : (ps : List (K × ItemName)) → Sorted (sort_by_name ps)
  unfolding sort_by_name
  sort_by_name-Sorted [] = tt
  sort_by_name-Sorted (p ∷ ps) = insert_by_name-Sorted p (sort_by_name ps) (sort_by_name-Sorted ps)

  ids_of-insert :
      (x : K × ItemName) (ps : List (K × ItemName))
      → Perm (ids_of (insert_by_name x ps)) (x.0 ∷ ids_of ps)
  unfolding insert_by_name ids_of
  ids_of-insert x [] = Perm.rfl
  ids_of-insert x (p ∷ ps) = elim (Bool-cases (name_leb x.1 p.1)) [
    | inl e ↦ rw e Perm.rfl
    | inr e ↦ rw e (Perm.trans (Perm.cons p.0 (ids_of-insert x ps)) (Perm.swap x.0 p.0 (ids_of ps)))
  ]

  ids_of-sort : (ps : List (K × ItemName)) → Perm (ids_of (sort_by_name ps)) (ids_of ps)
  unfolding sort_by_name ids_of
  ids_of-sort [] = Perm.rfl
  ids_of-sort (p ∷ ps) =
      Perm.trans (ids_of-insert p (sort_by_name ps)) (Perm.cons p.0 (ids_of-sort ps))

module _ {K : Type 0} (name_of : K → Option ItemName) where
  abbrev Named : List (K × ItemName) → Type 0
  Named = All λ p. name_of p.0 ≡ some p.1

  insert_by_name-Named :
      (x : K × ItemName) (ps : List (K × ItemName))
      → name_of x.0 ≡ some x.1
      → Named ps
      → Named (insert_by_name x ps)
  unfolding insert_by_name
  insert_by_name-Named x [] h n = (h, tt)
  insert_by_name-Named x (p ∷ ps) h (k, n) = elim (Bool-cases (name_leb x.1 p.1)) [
    | inl e ↦ rw e (h, (k, n))
    | inr e ↦ rw e (k, insert_by_name-Named x ps h n)
  ]

  sort_by_name-Named : (ps : List (K × ItemName)) → Named ps → Named (sort_by_name ps)
  unfolding sort_by_name
  sort_by_name-Named [] n = tt
  sort_by_name-Named (p ∷ ps) (k, n) =
      insert_by_name-Named p (sort_by_name ps) k (sort_by_name-Named ps n)

  with_names-known :
      (ids : List K)
      → Named (with_names name_of ids) × (ids_of (with_names name_of ids) ≡ known name_of ids)
  unfolding with_names ids_of known
  with_names-known [] = (tt, refl)
  with_names-known (id ∷ ids) =
      let (named, same) = with_names-known ids in each id ids (name_of id) refl named same
    where
      each :
          (id : K) (ids : List K) (o : Option ItemName)
          → name_of id ≡ o
          → Named (with_names name_of ids)
          → ids_of (with_names name_of ids) ≡ known name_of ids
          → Named (with_names name_of (id ∷ ids))
            × (ids_of (with_names name_of (id ∷ ids)) ≡ known name_of (id ∷ ids))
      each id ids none e named same = rw (with_names, known, e) (named, same)
      each id ids (some name) e named same =
          rw (with_names, known, e) ((e, named), ap (λ l. id ∷ l) same)

  Sorted-InOrder : (ps : List (K × ItemName)) → Named ps → Sorted ps → InOrder name_of (ids_of ps)
  unfolding ids_of
  Sorted-InOrder [] n s = tt
  Sorted-InOrder (p ∷ []) n s = (tt, tt)
  Sorted-InOrder (p ∷ q ∷ ps) (k, (l, n)) (b, s) = (
    λ m m' at at'. rw (some_inj (sym at ∙ k), some_inj (sym at' ∙ l)) b,
    Sorted-InOrder (q ∷ ps) (l, n) s,
  )

  by_name : (ids : List K) → IsByName name_of ids (ids_of (sort_by_name (with_names name_of ids)))
  by_name ids =
      let (named, same) = with_names-known ids in
      let ps = with_names name_of ids in
      record {
        same = rw same at (ids_of-sort ps);
        in_order =
            Sorted-InOrder (sort_by_name ps) (sort_by_name-Named ps named) (sort_by_name-Sorted ps);
      }

pub ordered_dirs-IsByName :
    (a : Archive) (ids : List DirectoryId) → IsByName (dir_name a) ids (ordered_dirs a ids)
unfolding ordered_dirs
ordered_dirs-IsByName a ids = by_name (dir_name a) ids

pub ordered_files-IsByName :
    (a : Archive) (ids : List FileId) → IsByName (file_name a) ids (ordered_files a ids)
unfolding ordered_files
ordered_files-IsByName a ids = by_name (file_name a) ids
