-- ===== src/Archive/Invariant/Tied.antt =====
-- What a change of one slot and of one file of the index does to the tie between them.
use baf.Base.{ℕ, ◌≡◌, sym, ap, ◌∙◌, inl, inr, List, Option, some}
use baf.Base.Maps.{Map, lookup, nat_key}
use baf.Data.File.{File, FileId}
use baf.Data.FtSegment.{FileTableSegment}
use baf.Archive.Disk.Places.{IsAt, IsAtEither}
use baf.Archive.Invariant.{IsTied}

module _ (segments segments' : List FileTableSegment) (files files' : Map FileId File) (i0 j0 k : ℕ)
    (new : Option File) (tied : IsTied segments files)
    (away : (i j : ℕ) (x : File)
      → (i ≡ i0 → j ≡ j0 → ⊥)
      → IsAt (λ s. s.files) segments i j x
      → x.id ≡ k
      → ⊥)
    (same_id : (y : File) → new ≡ some y → y.id ≡ k)
    (indexed : (y : File) → new ≡ some y → lookup k files' ≡ some y)
    (other : (n : FileId) → (n ≡ k → ⊥) → lookup n files' ≡ lookup n files)
    (were : (x : File) (i j : ℕ)
      → IsAt (λ s. s.files) segments' i j x
      → IsAtEither (λ s. s.files) segments i0 j0 new i j x) where
  pub IsTied-update : IsTied segments' files'
  IsTied-update = record {
    slots = λ i j x at. elim (were x i j at) [
      | inl (here, place, is) ↦ ap (λ n. lookup n files') (same_id x is) ∙ indexed x is
      | inr (differ, before) ↦ other x.id (away i j x differ before) ∙ tied.slots i j x before
    ];
    once = λ i j i' j' x y at at' same. elim (were x i j at) [
      | inl (here, place, is) ↦ elim (were y i' j' at') [
        | inl (here', place', is') ↦ (here ∙ sym here', place ∙ sym place')
        | inr (differ', before') ↦ absurd (away i' j' y differ' before' (sym same ∙ same_id x is))
      ]
      | inr (differ, before) ↦ elim (were y i' j' at') [
        | inl (here', place', is') ↦ absurd (away i j x differ before (same ∙ same_id y is'))
        | inr (differ', before') ↦ tied.once i j i' j' x y before before' same
      ]
    ];
  }

-- Only the slot of a file has a file of its id.
pub once-away :
    (segments : List FileTableSegment) (files : Map FileId File) (i0 j0 : ℕ) (old : File) (k : ℕ)
    → IsTied segments files
    → IsAt (λ s. s.files) segments i0 j0 old
    → old.id ≡ k
    → (i j : ℕ) (x : File) → (i ≡ i0 → j ≡ j0 → ⊥)
    → IsAt (λ s. s.files) segments i j x
    → x.id ≡ k
    → ⊥
once-away segments files i0 j0 old k tied at same i j x differ at' same' =
    let (here, place) = tied.once i j i0 j0 x old at' at (same' ∙ sym same) in differ here place
