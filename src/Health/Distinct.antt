-- ===== src/Health/Distinct.antt =====
-- What a file table that passes the check satisfies.
use baf.Base.{
  ◌≡◌, ◌≢◌, refl, sym, subst, Bool, true, false, ◌||◌, inl, inr, List, [], ◌∷◌, ◌++◌, map, ok,
  arith, ◌⊎◌, if◌then◌else◌, All, All-map, All-append, Bool-cases,
}
use baf.Base.Maps.{Key, insert, lookup-insert, member, include, bytes_key, nat_key}
use baf.Data.Name.{ItemName}
use baf.Data.Directory.{Directory, DirectoryIdOrRoot}
use baf.Data.File.{File}
use baf.Data.FtSegment.{FileTableSegment}
use baf.Health.{
  DirContent, FileTableCorrectnessError, Contents, Check, push_if, content_of, list_dir, list_file,
  register_dir, each, verdict, start, all_dirs, all_files, check_file_table_correctness, dir_key,
}

-- An item's place: its parent directory and its name.
abbrev pub Place : Type 0
Place = DirectoryIdOrRoot × ItemName

abbrev pub place_of_dir : Directory → Place
place_of_dir dir = (dir.parent_dir, dir.name)

abbrev pub place_of_file : File → Place
place_of_file f = (f.parent_dir, f.name)

abbrev pub AllDiffer : List Place → Type 0
AllDiffer [] = Unit {0}
AllDiffer (p ∷ ps) = All (λ q. p ≢ q) ps × AllDiffer ps

-- The listing of the parent has the name.
abbrev pub is_listed : Contents → Place → Bool
is_listed m p = member p.1 (content_of p.0 m).names

member-include :
    {K : Type 0} ⦃k : Key K⦄ (a b : K) (s : List K)
    → member a (include b s) ≡ (k.same a b || member a s)
unfolding include member
member-include ⦃k⦄ a b s = elim (Bool-cases (member b s)) [
  | inl e ↦ elim (Bool-cases (k.same a b)) [
    | inl same ↦
        let there : member a s ≡ true =
          subst (λ x. member x s ≡ true) (sym ((k.same_iff a b).0 same)) e in
        rw (e, same, there) refl
    | inr differ ↦ rw (e, differ) refl
  ]
  | inr e ↦ rw e refl
]

push_if-nil :
    (b : Bool) (e : FileTableCorrectnessError) (errors : List FileTableCorrectnessError)
    → push_if b e errors ≡ []
    → (b ≡ false) × (errors ≡ [])
push_if-nil false e errors h = (refl, h)
push_if-nil true e [] h = absurd (ground arith)
push_if-nil true e (x ∷ errors) h = absurd (ground arith)

content_of-insert :
    (p q : DirectoryIdOrRoot) (v : DirContent) (m : Contents)
    → content_of q (insert p v m) ≡ (if dir_key.same q p then v else content_of q m)
content_of-insert p q v m = elim (Bool-cases (dir_key.same q p)) [
  | inl e ↦ rw (content_of, lookup-insert p q v m, e) refl
  | inr e ↦ rw (content_of, lookup-insert p q v m, e) refl
]

-- What the two loops over the items have in common: an item's name is refused if it is listed, and
-- listed afterwards, and what was listed before still is.
record IsListing {A : Type 0} (f : Check → A → Check) (place : A → Place) : Type 0 where
  fresh :
      (c : Check) (x : A)
      → (f c x).errors ≡ []
      → (c.errors ≡ []) × (is_listed c.dirs_content (place x) ≡ false)
  lists : (c : Check) (x : A) → is_listed (f c x).dirs_content (place x) ≡ true
  keeps :
      (c : Check) (x : A) (p : Place)
      → is_listed c.dirs_content p ≡ true
      → is_listed (f c x).dirs_content p ≡ true

or_true : (b : Bool) → (b || true) ≡ true
or_true true = refl
or_true false = refl

-- Adding a name to a listing adds its place, and takes none away.
relisted :
    (p : Place) (v : DirContent) (m : Contents)
    → v.names ≡ include p.1 (content_of p.0 m).names
    → (is_listed (insert p.0 v m) p ≡ true)
      × ((q : Place) → is_listed m q ≡ true → is_listed (insert p.0 v m) q ≡ true)
relisted p v m e = (
  rw
      (
        content_of-insert p.0 p.0 v m,
        (dir_key.same_iff p.0 p.0).1 refl,
        e,
        member-include p.1 p.1 (content_of p.0 m).names,
        (bytes_key.same_iff p.1 p.1).1 refl,
      )
      refl,
  λ q h. kept q h (Bool-cases (dir_key.same q.0 p.0)),
)
  where
    kept :
        (q : Place)
        → is_listed m q ≡ true
        → (dir_key.same q.0 p.0 ≡ true) ⊎ (dir_key.same q.0 p.0 ≡ false)
        → is_listed (insert p.0 v m) q ≡ true
    kept q h (inr differ) = rw (content_of-insert p.0 q.0 v m, differ) h
    kept q h (inl same) =
        let at : q.0 ≡ p.0 = (dir_key.same_iff q.0 p.0).0 same in
        let h' : member q.1 (content_of p.0 m).names ≡ true =
          subst (λ d. member q.1 (content_of d m).names ≡ true) at h in
        rw
          (
            content_of-insert p.0 q.0 v m,
            same,
            e,
            member-include q.1 p.1 (content_of p.0 m).names,
            h',
          )
          (or_true (bytes_key.same q.1 p.1))

list_dir-IsListing : IsListing list_dir place_of_dir
unfolding list_dir
list_dir-IsListing = record {
  fresh = λ c x h. let (a, b) = push_if-nil _ _ _ h in ((push_if-nil _ _ _ b).1, a);
  lists = λ c x. (relisted (place_of_dir x) _ c.dirs_content refl).0;
  keeps = λ c x. (relisted (place_of_dir x) _ c.dirs_content refl).1;
}

list_file-IsListing : IsListing list_file place_of_file
unfolding list_file
list_file-IsListing = record {
  fresh = λ c x h. let (a, b) = push_if-nil _ _ _ h in ((push_if-nil _ _ _ b).1, a);
  lists = λ c x. (relisted (place_of_file x) _ c.dirs_content refl).0;
  keeps = λ c x. (relisted (place_of_file x) _ c.dirs_content refl).1;
}

not_both : {b : Bool} → b ≡ true → b ≡ false → ⊥
not_both e u = ground arith

clash :
    (c : Check) (p q : Place)
    → is_listed c.dirs_content p ≡ true
    → is_listed c.dirs_content q ≡ false
    → p ≡ q
    → ⊥
clash c p q l u s = not_both (subst (λ r. is_listed c.dirs_content r ≡ true) s l) u

verdict-ok :
    (m contents : Contents) (errors : List FileTableCorrectnessError)
    → verdict m errors ≡ ok contents
    → (errors ≡ []) × (m ≡ contents)
unfolding verdict
verdict-ok m contents [] e = (refl, cc)
verdict-ok m contents (x ∷ errors) e = absurd (ground arith)

module _ {A : Type 0} (f : Check → A → Check) (place : A → Place) (h : IsListing f place) where
  each-errors : (c : Check) (xs : List A) → (each f c xs).errors ≡ [] → c.errors ≡ []
  unfolding each
  each-errors c [] e = e
  each-errors c (x ∷ xs) e = (h.fresh c x (each-errors (f c x) xs e)).0

  each-keeps :
      (c : Check) (xs : List A) (p : Place)
      → is_listed c.dirs_content p ≡ true
      → is_listed (each f c xs).dirs_content p ≡ true
  unfolding each
  each-keeps c [] p e = e
  each-keeps c (x ∷ xs) p e = each-keeps (f c x) xs p (h.keeps c x p e)

  each-lists :
      (c : Check) (xs : List A)
      → All (λ p. is_listed (each f c xs).dirs_content p ≡ true) (map place xs)
  unfolding each
  each-lists c [] = tt
  each-lists c (x ∷ xs) = (each-keeps (f c x) xs (place x) (h.lists c x), each-lists (f c x) xs)

  -- The places were not listed before, and differ.
  each-fresh :
      (c : Check) (xs : List A)
      → (each f c xs).errors ≡ []
      → All (λ p. is_listed c.dirs_content p ≡ false) (map place xs) × AllDiffer (map place xs)
  unfolding each
  each-fresh c [] e = (tt, tt)
  each-fresh c (x ∷ xs) e =
      let (unlisted, differ) = each-fresh (f c x) xs e in
      let free = (h.fresh c x (each-errors (f c x) xs e)).1 in
      (
        (free, All-map (λ p u. still c x p u) (map place xs) unlisted),
        (
          All-map (λ p u s. clash (f c x) (place x) p (h.lists c x) u s) (map place xs) unlisted,
          differ,
        ),
      )
    where
      still :
          (c : Check) (x : A) (p : Place)
          → is_listed (f c x).dirs_content p ≡ false
          → is_listed c.dirs_content p ≡ false
      still c x p u = elim (Bool-cases (is_listed c.dirs_content p)) [
        | inr e ↦ e
        | inl e ↦ absurd (not_both (h.keeps c x p e) u)
      ]

AllDiffer-append :
    (ps qs : List Place)
    → AllDiffer ps
    → AllDiffer qs
    → All (λ p. All (λ q. p ≢ q) qs) ps
    → AllDiffer (ps ++ qs)
AllDiffer-append [] qs h k apart = k
AllDiffer-append (p ∷ ps) qs h k apart =
    (All-append _ ps qs h.0 apart.0, AllDiffer-append ps qs h.1 k apart.1)

-- If the check of the file table passes, then no two items, directories or files, have both their
-- parent and their name in common, and in the listings that the check answers each item's name is
-- in its parent's.
pub check_file_table_correctness-AllDiffer :
    (segments : List FileTableSegment) (contents : Contents)
    → check_file_table_correctness segments ≡ ok contents
    → AllDiffer (map place_of_dir (all_dirs segments) ++ map place_of_file (all_files segments))
      × All
          (λ p. is_listed contents p ≡ true)
          (map place_of_dir (all_dirs segments) ++ map place_of_file (all_files segments))
unfolding check_file_table_correctness
check_file_table_correctness-AllDiffer segments contents e =
    let dirs = all_dirs segments in
    let files = all_files segments in
    let registered = each register_dir start dirs in
    let middle = each list_dir registered dirs in
    let last = each list_file middle files in
    let (none_left, same) = verdict-ok last.dirs_content contents last.errors e in
    let (unlisted, files_differ) =
      each-fresh list_file place_of_file list_file-IsListing middle files none_left in
    let middle_ok =
      each-errors list_file place_of_file list_file-IsListing middle files none_left in
    let (unlisted', dirs_differ) =
      each-fresh list_dir place_of_dir list_dir-IsListing registered dirs middle_ok in
    let listed = each-lists list_dir place_of_dir list_dir-IsListing registered dirs in
    (
      AllDiffer-append _ _ dirs_differ files_differ
          (All-map (λ p l. All-map (λ q u s. clash middle p q l u s) _ unlisted) _ listed),
      subst
          (λ m. All (λ p. is_listed m p ≡ true) (map place_of_dir dirs ++ map place_of_file files))
          same
          (All-append _ _ _
            (All-map
              (λ p l. each-keeps list_file place_of_file list_file-IsListing middle files p l) _
              listed)
            (each-lists list_file place_of_file list_file-IsListing middle files)),
    )
