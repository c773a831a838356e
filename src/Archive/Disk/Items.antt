-- ===== src/Archive/Disk/Items.antt =====
-- The items that the slots of an archive's segments have.
use baf.Base.{
  ℕ, zero, suc, ◌≡◌, refl, sym, ap, ◌∙◌, ◌⊎◌, inl, inr, List, [], ◌∷◌, Option, some, some_inj,
  arith, get_elem?, set,
}
use baf.Data.FtSegment.{FileTableSegment}
use baf.Archive.Write.{link}

pub get_elem?-set_other :
    {A : Type 0} (xs : List A) (i k : ℕ) (x : A)
    → (i ≡ k → ⊥)
    → get_elem? (set xs i x) k ≡ get_elem? xs k
get_elem?-set_other [] i k x h = refl
get_elem?-set_other (y ∷ xs) zero zero x h = absurd (h refl)
get_elem?-set_other (y ∷ xs) zero (suc k) x h = refl
get_elem?-set_other (y ∷ xs) (suc i) zero x h = refl
get_elem?-set_other (y ∷ xs) (suc i) (suc k) x h = get_elem?-set_other xs i k x (λ e. h (ap suc e))

-- The element that is set.
pub get_elem?-set_same :
    {A : Type 0} (xs : List A) (i : ℕ) (y x : A)
    → get_elem? xs i ≡ some y
    → get_elem? (set xs i x) i ≡ some x
get_elem?-set_same [] i y x h = absurd (ground arith)
get_elem?-set_same (z ∷ xs) zero y x h = refl
get_elem?-set_same (z ∷ xs) (suc i) y x h = get_elem?-set_same xs i y x h

pub same_or_not : (i k : ℕ) → (i ≡ k) ⊎ (i ≡ k → ⊥)
same_or_not zero zero = inl refl
same_or_not zero (suc k) = inr (λ e. ground arith)
same_or_not (suc i) zero = inr (λ e. ground arith)
same_or_not (suc i) (suc k) = elim (same_or_not i k) [
  | inl e ↦ inl (ap suc e)
  | inr d ↦ inr (λ e. d (ground arith))
]

-- An item, of a kind that stands in the given slots of a segment, is in a slot of some segment.
pub record InSlot {A : Type 0} (slots : FileTableSegment → List (Option A)) (x : A)
    (segments : List FileTableSegment) : Type 0 where
  pub index : ℕ
  pub place : ℕ
  pub segment : FileTableSegment
  pub at : get_elem? segments index ≡ some segment
  pub slot : get_elem? (slots segment) place ≡ some (some x)

-- The segments that are linked have the slots that they had.
link-slots :
    {A : Type 0} (slots : FileTableSegment → List (Option A))
    → ((s : FileTableSegment) (addr : ℕ)
        → slots (record s { next_segment_addr = some addr }) ≡ slots s)
    → (segments : List FileTableSegment) (addr : ℕ) (new : FileTableSegment) (i : ℕ)
      (s : FileTableSegment)
    → get_elem? segments i ≡ some s
    → (s' : FileTableSegment) × (get_elem? (link segments addr new) i ≡ some s')
      × (slots s' ≡ slots s)
unfolding link
link-slots slots same [] addr new i s at = absurd (ground arith)
link-slots slots same (x ∷ []) addr new zero s at =
    (record x { next_segment_addr = some addr }, refl, same x addr ∙ ap slots (some_inj at))
link-slots slots same (x ∷ []) addr new (suc i) s at = absurd (ground arith)
link-slots slots same (x ∷ t ∷ rest) addr new zero s at = (s, at, refl)
link-slots slots same (x ∷ t ∷ rest) addr new (suc i) s at =
    link-slots slots same (t ∷ rest) addr new i s at

module _ {A : Type 0} (slots : FileTableSegment → List (Option A)) (x : A) where
  -- Where the slots of one segment change, and the item's slot there does not.
  pub InSlot-set :
      (segments : List FileTableSegment) (i : ℕ) (s s' : FileTableSegment)
      → get_elem? segments i ≡ some s
      → ((j : ℕ) → get_elem? (slots s) j ≡ some (some x) → get_elem? (slots s') j ≡ some (some x))
      → InSlot slots x segments
      → InSlot slots x (set segments i s')
  InSlot-set segments i s s' at keeps h = elim (same_or_not i h.index) [
    | inl e ↦ record {
      index = i;
      place = h.place;
      segment = s';
      at = get_elem?-set_same segments i s s' at;
      slot = keeps h.place (
          ap (λ t. get_elem? (slots t) h.place)
            (some_inj (sym at ∙ (ap (get_elem? segments) e ∙ h.at)))
          ∙ h.slot);
    }
    | inr d ↦ record {
      index = h.index;
      place = h.place;
      segment = h.segment;
      at = get_elem?-set_other segments i h.index s' d ∙ h.at;
      slot = h.slot;
    }
  ]

  -- Another slot is written.
  pub slot-set_other :
      (row : List (Option A)) (i : ℕ) (old new : Option A)
      → get_elem? row i ≡ some old
      → (old ≡ some x → ⊥)
      → (j : ℕ) → get_elem? row j ≡ some (some x)
      → get_elem? (set row i new) j ≡ some (some x)
  slot-set_other row i old new at differ j slot = elim (same_or_not i j) [
    | inl e ↦ absurd (differ (some_inj (sym at ∙ (ap (get_elem? row) e ∙ slot))))
    | inr d ↦ get_elem?-set_other row i j new d ∙ slot
  ]

  -- The item that is written is in its slot.
  pub InSlot-new :
      (segments : List FileTableSegment) (i j : ℕ) (s s' : FileTableSegment) (old : Option A)
      → get_elem? segments i ≡ some s
      → get_elem? (slots s) j ≡ some old
      → slots s' ≡ set (slots s) j (some x)
      → InSlot slots x (set segments i s')
  InSlot-new segments i j s s' old at row e = record {
    index = i;
    place = j;
    segment = s';
    at = get_elem?-set_same segments i s s' at;
    slot = ap (λ r. get_elem? r j) e ∙ get_elem?-set_same (slots s) j old (some x) row;
  }

  pub InSlot-link :
      ((s : FileTableSegment) (addr : ℕ)
        → slots (record s { next_segment_addr = some addr }) ≡ slots s)
      → (segments : List FileTableSegment) (addr : ℕ) (new : FileTableSegment)
      → InSlot slots x segments
      → InSlot slots x (link segments addr new)
  InSlot-link same segments addr new h =
      let (s', at, row) = link-slots slots same segments addr new h.index h.segment h.at in
      record {
        index = h.index;
        place = h.place;
        segment = s';
        at = at;
        slot = ap (λ r. get_elem? r h.place) row ∙ h.slot;
      }
