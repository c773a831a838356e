-- ===== src/Data/PathInArchive/RoundTrip.antt =====
-- What a parsed path is made of, and how a printed path is parsed.
use baf.Base.{
  ℕ, ◌≡◌, ◌≢◌, refl, ap, subst, sym, ◌∙◌, Bool, true, false, List, [], ◌∷◌, ◌++◌, Option, none,
  some, Result, ok, err, map_err, ◌>>=◌, ◌>>◌, arith, if◌then◌else◌, beq, push, pop, pop-push, All,
  All-append, All-map, append_assoc, append-nil,
}
use baf.Data.Name
use baf.Data.Name.{ItemName, check_validity, is_empty, forbidden_chars}
use baf.Data.Name.Valid.{check_validity_iff, nonempty_iff, reserved-ne}
use baf.Data.PathInArchive.{
  PathInArchive, PathError, slash, split, step, walk, new, join, to_string, empty_path,
  invalid_component, parent_of,
}

-- A name that `ItemName::new` accepts.
abbrev pub IsName : List ℕ → Type 0
IsName name = check_validity name ≡ ok tt

abbrev Popped : Option (ItemName × List ItemName) → Type 0
Popped none = Unit {0}
Popped (some r) = All IsName r.1

pop-Popped : (out : List ItemName) → All IsName out → Popped (pop out)
unfolding pop
pop-Popped [] h = tt
pop-Popped (x ∷ xs) h = go (pop xs) (pop-Popped xs h.1)
  where
    go :
        (o : Option (ItemName × List ItemName))
        → Popped o
        → Popped (elim o [ none ↦ some (x, []) | some r ↦ some (r.0, x ∷ r.1) ])
    go none k = tt
    go (some r) k = (h.0, k)

split_last : (c : List ℕ) → All (λ b. b ≢ slash) c → split slash c ≡ c ∷ []
unfolding split
split_last [] h = refl
split_last (b ∷ bs) h = ground (arith, split_last bs h.1, h.0)

split_first :
    (c rest : List ℕ)
    → All (λ b. b ≢ slash) c
    → split slash (c ++ (slash ∷ rest)) ≡ c ∷ split slash rest
unfolding split
split_first [] rest h = refl
split_first (b ∷ bs) rest h = ground (arith, split_first bs rest h.1, h.0)

abbrev NoSlash : List ℕ → Type 0
NoSlash = All λ b. b ≢ slash

IsName-NoSlash : (name : List ℕ) → IsName name → NoSlash name
IsName-NoSlash name h = All-map (λ b k. k.0) name ((check_validity_iff name).0 h).allowed

split-join :
    (c : List ℕ) (cs : List (List ℕ)) → All NoSlash (c ∷ cs) → split slash (join (c ∷ cs)) ≡ c ∷ cs
unfolding join
split-join c [] h = split_last c h.0
split-join c (d ∷ cs) h = split_first c (join (d ∷ cs)) h.0 ∙ ap (◌∷◌ c) (split-join d cs h.1)

step-name :
    (path : List ℕ) (out : List ItemName) (c : List ℕ)
    → IsName c
    → step path out c ≡ ok (push out c)
unfolding step Name.new
step-name path out c h =
    let v = (check_validity_iff c).0 h in
    rw (
      (nonempty_iff c).1 v.nonempty,
      reserved-ne c (b'.' ∷ []) v.not_dot,
      reserved-ne c (b'.' ∷ b'.' ∷ []) v.not_dot_dot,
      h,
    )

step-parent :
    (path : List ℕ) (out : List ItemName) (c : ItemName)
    → step path (push out c) (b'.' ∷ b'.' ∷ []) ≡ ok out
unfolding step beq
step-parent path out c = rw (pop-push out c)

walk-step :
    (path : List ℕ) (out out' : List ItemName) (c : List ℕ) (cs : List (List ℕ))
    → step path out c ≡ ok out'
    → walk path out (c ∷ cs) ≡ walk path out' cs
unfolding walk
walk-step path out out' c cs e = rw e

walk-names :
    (path : List ℕ) (out : List ItemName) (cs more : List (List ℕ))
    → All IsName cs
    → walk path out (cs ++ more) ≡ walk path (out ++ cs) more
walk-names path out [] more h = rw (append-nil out)
walk-names path out (c ∷ cs) more h =
    walk-step path out (push out c) c (cs ++ more) (step-name path out c h.0)
    ∙ walk-names path (push out c) cs more h.1
    ∙ ap (λ l. walk path l more) (append_assoc out (c ∷ []) cs)

join-nonempty :
    (c : List ℕ) (cs : List (List ℕ)) → is_empty c ≡ false → is_empty (join (c ∷ cs)) ≡ false
unfolding join
join-nonempty c [] h = h
join-nonempty [] (d ∷ cs) h = cc
join-nonempty (b ∷ bs) (d ∷ cs) h = refl

new-join :
    (c : List ℕ) (cs : List (List ℕ))
    → IsName c
    → All NoSlash cs
    → new (join (c ∷ cs)) ≡ walk (join (c ∷ cs)) [] (c ∷ cs)
unfolding new
new-join c cs h k = rw (
  join-nonempty c cs ((nonempty_iff c).1 ((check_validity_iff c).0 h).nonempty),
  split-join c cs (IsName-NoSlash c h, k),
)

walk-normal :
    (path : List ℕ) (out : List ItemName) (cs : List (List ℕ))
    → All IsName cs
    → walk path out cs ≡ ok (out ++ cs)
unfolding walk
walk-normal path out cs h = ap (walk path out) (sym (append-nil cs)) ∙ walk-names path out cs [] h

-- A path of one or more valid names, printed with slashes between them, is parsed to itself.
pub new-to_string :
    (c : ItemName) (cs : PathInArchive)
    → All IsName (c ∷ cs)
    → new (to_string (c ∷ cs)) ≡ ok (c ∷ cs)
new-to_string c cs h =
    new-join c cs h.0 (All-map IsName-NoSlash cs h.1) ∙ walk-normal (join (c ∷ cs)) [] (c ∷ cs) h

-- What `step` and `walk` keep.
abbrev Good : Result PathError (List ItemName) → Type 0
Good (ok out) = All IsName out
Good (err e) = Unit {0}

parent_of-Good : (o : Option (ItemName × List ItemName)) → Popped o → Good (parent_of o)
parent_of-Good none k = tt
parent_of-Good (some r) k = k

push-Good :
    (path : List ℕ) (out : List ItemName) (c : List ℕ)
    → All IsName out
    → Good (do name ← map_err (invalid_component path c) (Name.new c); ok (push out name))
unfolding Name.new
push-Good path out c h = go (check_validity c) refl
  where
    go :
        (r : Result Name.NameValidationError (Unit {0}))
        → check_validity c ≡ r
        → Good (do name ← map_err (invalid_component path c) (do r; ok c); ok (push out name))
    go (ok u) e = All-append IsName out (c ∷ []) h (e, tt)
    go (err x) e = tt

if-Good :
    (b : Bool) (x y : Result PathError (List ItemName))
    → Good x
    → Good y
    → Good (if b then x else y)
if-Good true x y p q = p
if-Good false x y p q = q

step-Good :
    (path : List ℕ) (out : List ItemName) (c : List ℕ) → All IsName out → Good (step path out c)
unfolding step
step-Good path out c h = if-Good (is_empty c) _ _ h (
    if-Good (beq c (b'.' ∷ [])) _ _ h (
      if-Good (beq c (b'.' ∷ b'.' ∷ [])) _ _ (parent_of-Good (pop out) (pop-Popped out h))
        (push-Good path out c h)))

walk-Good :
    (path : List ℕ) (out : List ItemName) (cs : List (List ℕ))
    → All IsName out
    → Good (walk path out cs)
unfolding walk
walk-Good path out [] h = h
walk-Good path out (c ∷ cs) h =
    go (step path out c) (step-Good path out c h) (λ out' k. walk-Good path out' cs k)
  where
    go :
        (r : Result PathError (List ItemName))
        → Good r
        → ((out' : List ItemName) → All IsName out' → Good (walk path out' cs))
        → Good (r >>= λ out'. walk path out' cs)
    go (ok out') k f = f out' k
    go (err e) k f = tt

-- Whatever text is parsed, each component of the path that comes out is a valid name; so none is
-- empty, `.` or `..`, and none holds a slash.
pub new-names : (path : List ℕ) (p : PathInArchive) → new path ≡ ok p → All IsName p
unfolding new
new-names path p e = subst Good e whole
  where
    whole : Good (if is_empty path then err empty_path else walk path [] (split slash path))
    whole = if-Good (is_empty path) _ _ tt (walk-Good path [] (split slash path) tt)

-- `..` takes back the component before it: where `cs`, `c` and `ds` are valid names, the path
-- made of `cs`, `c`, `..` and `ds` is parsed to `cs` and `ds`.
pub new-parent :
    (d c : ItemName) (cs ds : PathInArchive)
    → All IsName (d ∷ cs)
    → IsName c
    → All IsName ds
    → new (join (d ∷ (cs ++ (c ∷ (b'.' ∷ b'.' ∷ []) ∷ ds)))) ≡ ok (d ∷ (cs ++ ds))
new-parent d c cs ds h k l =
    let up : List ℕ = b'.' ∷ b'.' ∷ [] in
    let path : List ℕ = join (d ∷ (cs ++ (c ∷ up ∷ ds))) in
    let no_slash =
      All-append NoSlash cs (c ∷ up ∷ ds) (All-map IsName-NoSlash cs h.1)
        (IsName-NoSlash c k, (omega arith, All-map IsName-NoSlash ds l)) in
    new-join d (cs ++ (c ∷ up ∷ ds)) h.0 no_slash
    ∙ walk-names path [] (d ∷ cs) (c ∷ up ∷ ds) h
    ∙ walk-step path (d ∷ cs) (push (d ∷ cs) c) c (up ∷ ds) (step-name path (d ∷ cs) c k)
    ∙ walk-step path (push (d ∷ cs) c) (d ∷ cs) up ds (step-parent path (d ∷ cs) c)
    ∙ walk-normal path (d ∷ cs) ds l
