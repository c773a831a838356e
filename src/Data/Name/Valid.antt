-- ===== src/Data/Name/Valid.antt =====
-- Which names are valid, in words that do not follow the code.
use baf.Base.{
  ℕ, ◌≤◌, ◌≡◌, refl, ◌≢◌, ◌↔◌, inl, inr, true, false, List, [], ◌∷◌, ok, arith, length, All,
  All-map, All-transpose, beq, beq_refl, beq→eq, Bool-cases,
}
use baf.Data.Name.{forbidden_chars, check_reserved, check_chars, contains, check_validity, is_empty}
use baf.Data.Utf8.{is_utf8}

-- A byte that may stand in a name.
abbrev pub IsAllowed : ℕ → Type 0
IsAllowed b = All (λ c. b ≢ c) forbidden_chars

pub record IsValid (name : List ℕ) : Type 0 where
  pub nonempty : 1 ≤ length name
  pub short : length name ≤ 255
  pub not_dot : name ≢ b'.' ∷ []
  pub not_dot_dot : name ≢ b'.' ∷ b'.' ∷ []
  pub allowed : All IsAllowed name

-- What the type `ItemName` guarantees.
pub record IsItemName (name : List ℕ) : Type 0 where
  pub valid : check_validity name ≡ ok tt
  pub utf8 : is_utf8 name ≡ true

contains→ne : (name : List ℕ) (c : ℕ) → contains name c ≡ false → All (λ b. b ≢ c) name
contains→ne [] c h = tt
contains→ne (b ∷ bs) c h = (λ e. ground arith, contains→ne bs c (ground arith))

ne→contains : (name : List ℕ) (c : ℕ) → All (λ b. b ≢ c) name → contains name c ≡ false
ne→contains [] c h = refl
ne→contains (b ∷ bs) c h = ground (arith, ne→contains bs c h.1, h.0)

check_chars_sound :
    (cs name : List ℕ) → check_chars cs name ≡ ok tt → All (λ c. contains name c ≡ false) cs
unfolding check_chars
check_chars_sound [] name h = tt
check_chars_sound (c ∷ cs) name h = ground (arith, check_chars_sound cs name)

check_chars_complete :
    (cs name : List ℕ) → All (λ c. contains name c ≡ false) cs → check_chars cs name ≡ ok tt
unfolding check_chars
check_chars_complete [] name h = refl
check_chars_complete (c ∷ cs) name h = rw h.0 (check_chars_complete cs name h.1)

ne-reserved : (name reserved : List ℕ) → beq name reserved ≡ false → name ≢ reserved
ne-reserved name reserved h e = let same : beq name reserved ≡ true = rw e (beq_refl reserved) in cc

pub reserved-ne : (name reserved : List ℕ) → name ≢ reserved → beq name reserved ≡ false
reserved-ne name reserved h = elim (Bool-cases (beq name reserved)) [
  | inl e ↦ absurd (h (beq→eq name reserved e))
  | inr e ↦ e
]

-- The tests of `check_validity`, each with the answer that lets a name through.
record Passes (name : List ℕ) : Type 0 where
  filled : is_empty name ≡ false
  fits : length name ≤ 255
  no_dot : beq name (b'.' ∷ []) ≡ false
  no_dot_dot : beq name (b'.' ∷ b'.' ∷ []) ≡ false
  no_char : check_chars forbidden_chars name ≡ ok tt

check_validity→Passes : (name : List ℕ) → check_validity name ≡ ok tt → Passes name
unfolding check_validity check_reserved
check_validity→Passes name h = ground arith

Passes→check_validity : (name : List ℕ) → Passes name → check_validity name ≡ ok tt
unfolding check_validity check_reserved
Passes→check_validity name p = ground arith

pub nonempty_iff : (name : List ℕ) → (is_empty name ≡ false) ↔ (1 ≤ length name)
nonempty_iff [] = (λ h. cc, λ h. absurd (omega arith))
nonempty_iff (b ∷ bs) = (λ h. omega arith, λ h. refl)

-- `check_validity` accepts a name exactly when it has 1 to 255 bytes, is neither `.` nor `..`,
-- and none of its bytes is a slash, a backslash, a line feed, a carriage return or zero.
pub check_validity_iff : (name : List ℕ) → (check_validity name ≡ ok tt) ↔ IsValid name
check_validity_iff name = (
  λ h.
      let p = check_validity→Passes name h in
      record {
        nonempty = (nonempty_iff name).0 p.filled;
        short = p.fits;
        not_dot = ne-reserved name _ p.no_dot;
        not_dot_dot = ne-reserved name _ p.no_dot_dot;
        allowed = All-transpose ◌≢◌ name forbidden_chars (
            All-map (contains→ne name) forbidden_chars
              (check_chars_sound forbidden_chars name p.no_char));
      },
  λ v. Passes→check_validity name (record {
    filled = (nonempty_iff name).1 v.nonempty;
    fits = v.short;
    no_dot = reserved-ne name _ v.not_dot;
    no_dot_dot = reserved-ne name _ v.not_dot_dot;
    no_char = check_chars_complete forbidden_chars name (
        All-map (ne→contains name) forbidden_chars
          (All-transpose (λ c b. b ≢ c) forbidden_chars name v.allowed));
  }),
)
