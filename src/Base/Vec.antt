-- ===== src/Base/Vec.antt =====
-- A `Vec` as the list of its elements, in order.
use mathlib.Core.Path.{◌≡◌, refl}
use mathlib.Core.List.{List, [], ◌∷◌, ◌++◌}
use mathlib.Core.Option.{Option, none, some}

module _ {ℓ} {A : Type ℓ} where
  -- `Vec::push`
  abbrev pub push : List A → A → List A
  push xs x = xs ++ (x ∷ [])

  -- `Vec::pop`: the last element, and the others.
  unfoldable pub pop : List A → Option (A × List A)
  pop [] = none
  pop (x ∷ xs) = elim (pop xs) [ none ↦ some (x, []) | some r ↦ some (r.0, x ∷ r.1) ]

  -- `slice::last`
  unfoldable pub get_last? : List A → Option A
  get_last? [] = none
  get_last? (x ∷ xs) = elim (get_last? xs) [ none ↦ some x | some y ↦ some y ]

module _ {ℓ} {A : Type ℓ} where
  pub pop-push : (xs : List A) (x : A) → pop (push xs x) ≡ some (x, xs)
  unfolding pop
  pop-push [] x = refl
  pop-push (y ∷ xs) x = rw (pop-push xs x)
