-- ===== src/Base/Maps.antt =====
-- Rust's `HashMap` and `HashSet` as association lists and lists, over keys with a Boolean test for
-- equality. Rust leaves the order open in which a map or a set is iterated over; here it is the
-- order of the list.
use Prim.Native.Nat.{ℕ}
use mathlib.Core.Path.{◌≡◌, refl, ap, ◌∙◌}
use mathlib.Core.Logic.{◌↔◌, inl, inr}
use mathlib.Core.Bool.{Bool, true, false, not, ◌||◌, ◌&&◌}
use mathlib.Core.List.{List, [], ◌∷◌}
use mathlib.Core.Option.{Option, none, some}
use native.Mathlib.Omega.{arith}
use baf.Base.Tests.{Bool-cases, ◌==◌, ==_iff, if◌then◌else◌}
use baf.Base.Lists.{beq, beq_refl, beq→eq}

pub record Key (K : Type 0) : Type 0 where
  pub same : K → K → Bool
  pub same_iff : (a b : K) → (same a b ≡ true) ↔ (a ≡ b)

instance abbrev pub nat_key : Key ℕ
nat_key = record { same = ◌==◌; same_iff = ==_iff }

pub beq_iff : (xs ys : List ℕ) → (beq xs ys ≡ true) ↔ (xs ≡ ys)
unfolding beq
beq_iff xs ys = (beq→eq xs ys, λ e. subst_beq e)
  where
    subst_beq : xs ≡ ys → beq xs ys ≡ true
    subst_beq e = rw (← e) (beq_refl xs)

instance abbrev pub bytes_key : Key (List ℕ)
bytes_key = record { same = beq; same_iff = beq_iff }

abbrev pub Map : Type 0 → Type 0 → Type 0
Map K V = List (K × V)

module _ {K V : Type 0} ⦃k : Key K⦄ where
  unfoldable pub lookup : K → Map K V → Option V
  lookup a [] = none
  lookup a ((b, v) ∷ m) = let rest = lookup a m in if k.same a b then some v else rest

  -- `HashMap::insert`; what was there before is `lookup`.
  unfoldable pub insert : K → V → Map K V → Map K V
  insert a v [] = (a, v) ∷ []
  insert a v ((b, w) ∷ m) =
      let rest = insert a v m in if k.same a b then (a, v) ∷ m else (b, w) ∷ rest

  unfoldable pub remove : K → Map K V → Map K V
  remove a [] = []
  remove a ((b, w) ∷ m) = let rest = remove a m in if k.same a b then rest else (b, w) ∷ rest

  pub lookup-insert :
      (a b : K) (v : V) (m : Map K V)
      → lookup b (insert a v m) ≡ (if k.same b a then some v else lookup b m)
  unfolding lookup insert
  lookup-insert a b v [] = refl
  lookup-insert a b v ((c, w) ∷ m) =
      ground (arith, lookup-insert a b v m, k.same_iff a c, k.same_iff b c, k.same_iff b a)

  pub lookup-remove :
      (a b : K) (m : Map K V) → lookup b (remove a m) ≡ (if k.same b a then none else lookup b m)
  unfolding lookup remove
  lookup-remove a b [] = ground arith
  lookup-remove a b ((c, w) ∷ m) =
      ground (arith, lookup-remove a b m, k.same_iff a c, k.same_iff b c, k.same_iff b a)

module _ {K : Type 0} ⦃k : Key K⦄ where
  unfoldable pub member : K → List K → Bool
  member a [] = false
  member a (b ∷ s) = k.same a b || member a s

  -- `HashSet::insert`, which answers whether the element was new, is `not (member a s)` and this.
  unfoldable pub include : K → List K → List K
  include a s = if member a s then s else a ∷ s

  unfoldable pub exclude : K → List K → List K
  exclude a [] = []
  exclude a (b ∷ s) = let rest = exclude a s in if k.same a b then rest else b ∷ rest

  pub member-include : (a b : K) (s : List K) → member b (include a s) ≡ (k.same b a || member b s)
  unfolding member include
  member-include a b s = elim (Bool-cases (member a s)) [
    | inl has ↦ elim (Bool-cases (k.same b a)) [
      | inl same ↦ rw (has, same) (ap (λ x. member x s) ((k.same_iff b a).0 same) ∙ has)
      | inr other ↦ rw (has, other) refl
    ]
    | inr new ↦ rw new refl
  ]

  pub member-exclude :
      (a b : K) (s : List K) → member b (exclude a s) ≡ (not (k.same b a) && member b s)
  unfolding member exclude
  member-exclude a b [] = ground arith
  member-exclude a b (c ∷ s) =
      ground (arith, member-exclude a b s, k.same_iff a c, k.same_iff b c, k.same_iff b a)
