-- ===== src/Data/PathInArchive.antt =====
-- crate-lib/src/data/path.rs: paths inside an archive. A text is the bytes of its UTF-8 encoding;
-- the characters that matter here are single bytes.
pub mod RoundTrip
use baf.Base.{
  ℕ, Bool, List, [], ◌∷◌, ◌++◌, Option, none, some, Result, ok, err, map_err, ◌>>=◌, ◌>>◌, ltb,
  ◌==◌, if◌then◌else◌, length, beq, push, pop, get_last?,
}
use baf.Data.Name
use baf.Data.Name.{ItemName, NameValidationError, is_empty}

-- `PathInArchive(Vec<ItemName>)`
abbrev pub PathInArchive : Type 0
PathInArchive = List ItemName

pub data PathError : Type 0 where
  empty_path root_escape : PathError
  invalid_component : List ℕ → List ℕ → NameValidationError → PathError

abbrev pub slash : ℕ
slash = b'/'

abbrev put_first : ℕ → List (List ℕ) → List (List ℕ)
put_first b [] = (b ∷ []) ∷ []
put_first b (c ∷ cs) = (b ∷ c) ∷ cs

-- `str::split`
unfoldable pub split : ℕ → List ℕ → List (List ℕ)
split sep [] = [] ∷ []
split sep (b ∷ bs) = let rest = split sep bs in if b == sep then [] ∷ rest else put_first b rest

-- `out.pop().is_none()`, and what is left of `out`.
abbrev pub parent_of : Option (ItemName × List ItemName) → Result PathError (List ItemName)
parent_of none = err root_escape
parent_of (some r) = ok r.1

-- One round of the loop over the components.
unfoldable pub step : List ℕ → List ItemName → List ℕ → Result PathError (List ItemName)
step path out component =
    if is_empty component
    then ok out
    else if beq component (b'.' ∷ [])
    then ok out
    else if beq component (b'.' ∷ b'.' ∷ [])
    then parent_of (pop out)
    else (do
      name ← map_err (invalid_component path component) (Name.new component)
      ok (push out name))

unfoldable pub walk : List ℕ → List ItemName → List (List ℕ) → Result PathError (List ItemName)
walk path out [] = ok out
walk path out (component ∷ rest) = do out' ← step path out component; walk path out' rest

unfoldable pub new : List ℕ → Result PathError PathInArchive
new path = if is_empty path then err empty_path else walk path [] (split slash path)

-- `components.join("/")`, which `Display` writes too.
unfoldable pub join : List (List ℕ) → List ℕ
join [] = []
join (c ∷ []) = c
join (c ∷ d ∷ cs) = c ++ (slash ∷ join (d ∷ cs))

-- `to_string`, through `Display`.
abbrev pub to_string : PathInArchive → List ℕ
to_string path = join path

unfoldable pub from_components : List (List ℕ) → Result PathError PathInArchive
from_components [] = ok []
from_components (c ∷ cs) = new (join (c ∷ cs))

unfoldable pub parent : PathInArchive → Option PathInArchive
parent path =
    if ltb (length path) 2 then none else elim (pop path) [ none ↦ some [] | some r ↦ some r.1 ]

unfoldable pub filename : PathInArchive → Option ItemName
filename path = get_last? path

unfoldable pub append_str : PathInArchive → List ℕ → Result NameValidationError PathInArchive
append_str path component = do name ← Name.new component; ok (push path name)
