-- ===== src/Iter/Traversal.antt =====
-- The iterator against a plain recursion over the directories.
use baf.Base.{
  ℕ, zero, suc, ◌≡◌, refl, sym, ap, subst, some_inj, ◌∙◌, List, [], ◌∷◌, ◌++◌, append_assoc, Option,
  none, some, and_then, Result, ok, err, arith, length,
}
use baf.Data.Directory.{DirectoryId, DirectoryIdOrRoot, non_root}
use baf.Data.File.{FileId}
use baf.Archive.{Archive}
use baf.Archive.Read.{DirEntry, dir_entry, file_entry, get_dir, get_file, get_dir_content}
use baf.Iter.Order.{
  Visits, Files, Dirs, no_files, one_file, no_dirs, one_dir, ordered_dirs-IsByName,
  ordered_files-IsByName,
}
use baf.Iter
use baf.Iter.{
  ArchiveIter, dirs, dirs_in, files, ordered_dirs, ordered_files, next_file, start_files, next_dir,
  next, collect,
}

-- The items of a directory: each subdirectory with all that is in it behind it, and then the files.
-- `none` is a directory without a listing, or directories nested deeper than the depth.
abbrev Visitor : Type 0
Visitor = DirectoryIdOrRoot → Option (List DirEntry)

unfoldable pub file_items : Archive → List FileId → Option (List DirEntry)
file_items a [] = some []
file_items a (id ∷ ids) =
    and_then (get_file id a) λ f. and_then (file_items a ids) λ rest. some (file_entry f ∷ rest)

unfoldable pub dir_items : Archive → Visitor → List DirectoryId → Option (List DirEntry)
dir_items a visit [] = some []
dir_items a visit (id ∷ ids) = and_then (get_dir id a) λ dir.
    and_then (visit (non_root id))
      λ inner. and_then (dir_items a visit ids) λ rest. some (dir_entry dir ∷ (inner ++ rest))

unfoldable pub items : Archive → Visitor → List DirectoryId × List FileId → Option (List DirEntry)
items a visit content =
    and_then (dir_items a visit (ordered_dirs a content.0))
      λ xs. and_then (file_items a (ordered_files a content.1)) λ ys. some (xs ++ ys)

unfoldable pub traverse : ℕ → Archive → Visitor
traverse zero a d = none
traverse (suc depth) a d = elim (get_dir_content d a) [
  | err e ↦ none
  | ok content ↦ items a (traverse depth a) content
]

-- What the iterator goes on to yield, from the answer of `next`.
abbrev Yields : Archive → Option DirEntry × ArchiveIter → List DirEntry → Type 0
Yields a r [] = r.0 ≡ none
Yields a r (e ∷ es) = (it : ArchiveIter) × (r ≡ (some e, it)) × Yields a (next a it) es

collect_step :
    (fuel : ℕ) (a : Archive) (it it' : ArchiveIter) (e : DirEntry) (es : List DirEntry)
    → next a it ≡ (some e, it')
    → collect fuel a it' ≡ some es
    → collect (suc fuel) a it ≡ some (e ∷ es)
unfolding collect
collect_step fuel a it it' e es h later = rw (collect, h) (rw (h, later) refl)

collect-Yields :
    (a : Archive) (it : ArchiveIter) (es : List DirEntry)
    → Yields a (next a it) es
    → collect (suc (length es)) a it ≡ some es
collect-Yields a it [] e = unfold collect in rw (collect, e) refl
collect-Yields a it (x ∷ es) (it', e, later) =
    collect_step (suc (length es)) a it it' x es e (collect-Yields a it' es later)

and_then-some :
    {A B : Type 0} (o : Option A) (f : A → Option B) (b : B)
    → and_then o f ≡ some b
    → (x : A) × (o ≡ some x) × (f x ≡ some b)
and_then-some none f b e = absurd (ground arith)
and_then-some (some x) f b e = (x, refl, e)

-- A visitor that visits what is below the directories, in the order of names.
abbrev Visiting : ℕ → Archive → Visitor → Type 0
Visiting depth a visit =
    (d : DirectoryIdOrRoot) (es : List DirEntry) → visit d ≡ some es → Visits depth a d es

file_items-Files :
    (a : Archive) (ids : List FileId) (es : List DirEntry)
    → file_items a ids ≡ some es
    → Files a ids es
unfolding file_items
file_items-Files a [] es e = subst (Files a []) (some_inj e) no_files
file_items-Files a (id ∷ ids) es e =
    let (f, found, e') = and_then-some (get_file id a) _ es e in
    let (rest, more, e'') = and_then-some (file_items a ids) _ es e' in
    subst (Files a (id ∷ ids)) (some_inj e'')
      (one_file id ids f rest found (file_items-Files a ids rest more))

dir_items-Dirs :
    (depth : ℕ) (a : Archive) (visit : Visitor) (ids : List DirectoryId) (es : List DirEntry)
    → Visiting depth a visit
    → dir_items a visit ids ≡ some es
    → Dirs a (Visits depth a) ids es
unfolding dir_items
dir_items-Dirs depth a visit [] es visiting e =
    subst (Dirs a (Visits depth a) []) (some_inj e) no_dirs
dir_items-Dirs depth a visit (id ∷ ids) es visiting e =
    let (dir, found, e') = and_then-some (get_dir id a) _ es e in
    let (inner, visited, e'') = and_then-some (visit (non_root id)) _ es e' in
    let (rest, more, e3) = and_then-some (dir_items a visit ids) _ es e'' in
    subst (Dirs a (Visits depth a) (id ∷ ids)) (some_inj e3) (
      one_dir id ids dir inner rest found (visiting (non_root id) inner visited)
        (dir_items-Dirs depth a visit ids rest visiting more))

-- A list that is computed as `some` of an expression.
Yields-at :
    (a : Archive) (r : Option DirEntry × ArchiveIter) (xs es : List DirEntry)
    → some xs ≡ some es
    → Yields a r xs
    → Yields a r es
Yields-at a r xs es e h = subst (Yields a r) (some_inj e) h

files-Yields :
    (a : Archive) (d : DirectoryIdOrRoot) (ids : List FileId) (es : List DirEntry)
    → file_items a ids ≡ some es
    → Yields a (next_file a d ids) es
unfolding file_items next_file next
files-Yields a d [] es e = Yields-at a _ [] es e refl
files-Yields a d (id ∷ ids) es e =
    let (f, found, e') = and_then-some (get_file id a) _ es e in
    let (rest, more, e'') = and_then-some (file_items a ids) _ es e' in
    Yields-at a _ (file_entry f ∷ rest) es e''
      (files d ids, rw (next_file, found) refl, files-Yields a d ids rest more)

-- An iterator that goes through a subdirectory's, and then on.
inner-Yields :
    (a : Archive) (d : DirectoryIdOrRoot) (child : ArchiveIter) (ids : List DirectoryId)
    (inner es : List DirEntry)
    → Yields a (next a child) inner
    → ((it : ArchiveIter) → Yields a (next_dir a d (dirs_in d it) ids) es)
    → Yields a (next a (dirs_in d child ids)) (inner ++ es)
unfolding next
inner-Yields a d child ids [] es e later =
    subst (λ r. Yields a r es) (rw (next, e) refl) (later (next a child).1)
inner-Yields a d child ids (x ∷ inner) es (it, e, more) later =
    (dirs_in d it ids, rw (next, e) (rw e refl), inner-Yields a d it ids inner es more later)

-- A visitor of subdirectories that the iterator agrees with.
abbrev Agrees : Archive → Visitor → Type 0
Agrees a visit =
    (d : DirectoryIdOrRoot) (es : List DirEntry)
    → visit d ≡ some es
    → (it : ArchiveIter) × (Iter.new a d ≡ ok it) × Yields a (next a it) es

dirs-Yields :
    (a : Archive) (visit : Visitor) (d : DirectoryIdOrRoot) (rest : List DirectoryId → ArchiveIter)
    (ids : List DirectoryId) (xs ys : List DirEntry)
    → Agrees a visit
    → dir_items a visit ids ≡ some xs
    → ((it : ArchiveIter) → Yields a (start_files a d it) ys)
    → Yields a (next_dir a d rest ids) (xs ++ ys)
unfolding dir_items next_dir
dirs-Yields a visit d rest [] xs ys agrees e later =
    Yields-at a _ ys (xs ++ ys) (ap (λ l. some (l ++ ys)) (some_inj e)) (later (rest []))
dirs-Yields a visit d rest (id ∷ ids) xs ys agrees e later =
    let (dir, found, e') = and_then-some (get_dir id a) _ xs e in
    let (inner, visited, e'') = and_then-some (visit (non_root id)) _ xs e' in
    let (more, tail, e3) = and_then-some (dir_items a visit ids) _ xs e'' in
    let (child, made, yields) = agrees (non_root id) inner visited in
    Yields-at a _ (dir_entry dir ∷ (inner ++ (more ++ ys))) (xs ++ ys)
      (ap (λ l. some (dir_entry dir ∷ l)) (sym (append_assoc inner more ys))
        ∙ ap (λ l. some (l ++ ys)) (some_inj e3))
      (
        dirs_in d child ids,
        rw (next_dir, made, found) refl,
        inner-Yields a d child ids inner (more ++ ys) yields
            λ it. dirs-Yields a visit d (dirs_in d it) ids more ys agrees tail later,
      )

level :
    (a : Archive) (visit : Visitor) (d : DirectoryIdOrRoot)
    (content : List DirectoryId × List FileId) (es : List DirEntry)
    → Agrees a visit
    → get_dir_content d a ≡ ok content
    → items a visit content ≡ some es
    → (it : ArchiveIter) × (Iter.new a d ≡ ok it) × Yields a (next a it) es
unfolding items Iter.new next start_files
level a visit d content es agrees c e =
    let (xs, inner, e') = and_then-some (dir_items a visit (ordered_dirs a content.0)) _ es e in
    let (ys, outer, e'') = and_then-some (file_items a (ordered_files a content.1)) _ es e' in
    let last = files-Yields a d (ordered_files a content.1) ys outer in
    (
      dirs d (ordered_dirs a content.0),
      rw (Iter.new, c) refl,
      Yields-at a _ (xs ++ ys) es e'' (
          dirs-Yields a visit d (dirs d) (ordered_dirs a content.0) xs ys agrees inner
            λ it. rw (start_files, c) last),
    )

content-some :
    {E A B : Type 0} (r : Result E A) (f : A → Option B) (b : B)
    → elim r as (λ x. Option B) [ err e ↦ none | ok x ↦ f x ] ≡ some b
    → (x : A) × (r ≡ ok x) × (f x ≡ some b)
content-some (err e) f b h = absurd (ground arith)
content-some (ok x) f b h = (x, refl, h)

traverse-Agrees : (depth : ℕ) (a : Archive) → Agrees a (traverse depth a)
unfolding traverse
traverse-Agrees zero a d es e = absurd (ground arith)
traverse-Agrees (suc depth) a d es e =
    let (content, c, e') = content-some (get_dir_content d a) (items a (traverse depth a)) es e in
    level a (traverse depth a) d content es (traverse-Agrees depth a) c e'

traverse-Visits : (depth : ℕ) (a : Archive) → Visiting depth a (traverse depth a)
unfolding traverse items
traverse-Visits zero a d es e = absurd (ground arith)
traverse-Visits (suc depth) a d es e =
    let (content, c, e') = content-some (get_dir_content d a) (items a (traverse depth a)) es e in
    let (xs, inner, e'') =
      and_then-some (dir_items a (traverse depth a) (ordered_dirs a content.0)) _ es e' in
    let (ys, outer, e3) = and_then-some (file_items a (ordered_files a content.1)) _ es e'' in
    record {
      dir_ids = content.0;
      file_ids = content.1;
      listed = c;
      dirs = ordered_dirs a content.0;
      files = ordered_files a content.1;
      dirs_by_name = ordered_dirs-IsByName a content.0;
      files_by_name = ordered_files-IsByName a content.1;
      dir_items = xs;
      file_items = ys;
      visited =
          dir_items-Dirs depth a (traverse depth a) (ordered_dirs a content.0) xs
            (traverse-Visits depth a) inner;
      found = file_items-Files a (ordered_files a content.1) ys outer;
      all = sym (some_inj e3);
    }

-- Let the plain recursion over the directories below a directory succeed at some depth: the
-- directory and those below it have listings, no directory is its own descendant, and ids that the
-- index lacks, which are left out, do not matter. Then a loop over the iterator from that directory
-- ends, after a call of `next` for each item and one more, and has yielded the items of the
-- recursion: the subdirectories that the index has, each of them once for each time that it is
-- listed, sorted by name, each before all that is in it, and behind them the files that the index
-- has, sorted by name.
pub collect-traverse :
    (depth : ℕ) (a : Archive) (d : DirectoryIdOrRoot) (es : List DirEntry)
    → traverse depth a d ≡ some es
    → (it : ArchiveIter) × (Iter.new a d ≡ ok it)
      × (collect (suc (length es)) a it ≡ some es)
      × Visits depth a d es
collect-traverse depth a d es e =
    let (it, made, yields) = traverse-Agrees depth a d es e in
    (it, made, collect-Yields a it es yields, traverse-Visits depth a d es e)
