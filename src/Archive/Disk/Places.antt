-- ===== src/Archive/Disk/Places.antt =====
-- Which items the slots of an archive's segments have, place by place.
use baf.Base.{
  ℕ, zero, suc, ◌≡◌, refl, sym, ap, ◌∙◌, ◌⊎◌, inl, inr, List, [], ◌∷◌, Option, none, some, some_inj,
  arith, get_elem?, set, replicate,
}
use baf.Data.FtSegment.{FileTableSegment}
use baf.Archive.Write.{link}
use baf.Archive.Disk.Items.{InSlot, get_elem?-set_other, same_or_not}

-- The item is in slot `j` of segment `i`.
pub record IsAt {A : Type 0} (slots : FileTableSegment → List (Option A))
    (segments : List FileTableSegment) (i j : ℕ) (x : A) : Type 0 where
  pub segment : FileTableSegment
  pub at : get_elem? segments i ≡ some segment
  pub slot : get_elem? (slots segment) j ≡ some (some x)

-- The item is in the slot that was written, or another slot had it before.
abbrev pub IsAtEither :
    {A : Type 0}
    → (FileTableSegment → List (Option A))
    → List FileTableSegment
    → ℕ
    → ℕ
    → Option A
    → ℕ
    → ℕ
    → A
    → Type 0
IsAtEither slots segments i0 j0 new i j x =
    ((i ≡ i0) × (j ≡ j0) × (new ≡ some x)) ⊎ (((i ≡ i0) → (j ≡ j0) → ⊥) × IsAt slots segments i j x)

get_elem?-set_new :
    {A : Type 0} (xs : List A) (i : ℕ) (x y : A) → get_elem? (set xs i x) i ≡ some y → x ≡ y
get_elem?-set_new [] i x y e = absurd (ground arith)
get_elem?-set_new (z ∷ xs) zero x y e = some_inj e
get_elem?-set_new (z ∷ xs) (suc i) x y e = get_elem?-set_new xs i x y e

module _ {A : Type 0} (slots : FileTableSegment → List (Option A)) (x : A) where
  pub InSlot-IsAt :
      (segments : List FileTableSegment) (h : InSlot slots x segments)
      → IsAt slots segments h.index h.place x
  InSlot-IsAt segments h = record { segment = h.segment; at = h.at; slot = h.slot }

  pub IsAt-InSlot :
      (segments : List FileTableSegment) (i j : ℕ)
      → IsAt slots segments i j x
      → InSlot slots x segments
  IsAt-InSlot segments i j h = record {
    index = i;
    place = j;
    segment = h.segment;
    at = h.at;
    slot = h.slot;
  }

  module _ (segments : List FileTableSegment) (i0 : ℕ) (s s' : FileTableSegment)
      (at : get_elem? segments i0 ≡ some s) (i j : ℕ) where
    -- One slot is written.
    pub IsAt-set :
        (j0 : ℕ) (new : Option A)
        → slots s' ≡ set (slots s) j0 new
        → IsAt slots (set segments i0 s') i j x
        → IsAtEither slots segments i0 j0 new i j x
    IsAt-set j0 new row h = elim (same_or_not i0 i) [
      | inl e ↦
          let is : s' ≡ h.segment =
            get_elem?-set_new segments i0 s' h.segment
              (ap (get_elem? (set segments i0 s')) e ∙ h.at) in
          let slot : get_elem? (set (slots s) j0 new) j ≡ some (some x) =
            ap (λ r. get_elem? r j) (sym row) ∙ (ap (λ t. get_elem? (slots t) j) is ∙ h.slot) in
          elim (same_or_not j0 j) [
            | inl e' ↦ inl (
              sym e,
              sym e',
              get_elem?-set_new (slots s) j0 new (some x)
                  (ap (get_elem? (set (slots s) j0 new)) e' ∙ slot),
            )
            | inr d ↦ inr (
              λ same same'. d (sym same'),
              record {
                segment = s;
                at = ap (get_elem? segments) (sym e) ∙ at;
                slot = sym (get_elem?-set_other (slots s) j0 j new d) ∙ slot;
              },
            )
          ]
      | inr d ↦ inr (
        λ same same'. d (sym same),
        record {
          segment = h.segment;
          at = sym (get_elem?-set_other segments i0 i s' d) ∙ h.at;
          slot = h.slot;
        },
      )
    ]

    -- A segment is changed in slots of another kind.
    pub IsAt-set_row :
        slots s' ≡ slots s → IsAt slots (set segments i0 s') i j x → IsAt slots segments i j x
    IsAt-set_row row h = elim (same_or_not i0 i) [
      | inl e ↦
          let is : s' ≡ h.segment =
            get_elem?-set_new segments i0 s' h.segment
              (ap (get_elem? (set segments i0 s')) e ∙ h.at) in
          record {
            segment = s;
            at = ap (get_elem? segments) (sym e) ∙ at;
            slot =
                ap (λ r. get_elem? r j) (sym row) ∙ (ap (λ t. get_elem? (slots t) j) is ∙ h.slot);
          }
      | inr d ↦ record {
        segment = h.segment;
        at = sym (get_elem?-set_other segments i0 i s' d) ∙ h.at;
        slot = h.slot;
      }
    ]

-- What a linked list of segments has, the old ones had, if the new one has nothing.
link-before :
    {A : Type 0} (slots : FileTableSegment → List (Option A)) (x : A) (j : ℕ)
    → ((s : FileTableSegment) (addr : ℕ)
        → slots (record s { next_segment_addr = some addr }) ≡ slots s)
    → (segments : List FileTableSegment) (addr : ℕ) (new : FileTableSegment)
    → (get_elem? (slots new) j ≡ some (some x) → ⊥)
    → (i : ℕ) (t : FileTableSegment) → get_elem? (link segments addr new) i ≡ some t
    → get_elem? (slots t) j ≡ some (some x)
    → (s : FileTableSegment) × (get_elem? segments i ≡ some s)
      × (get_elem? (slots s) j ≡ some (some x))
unfolding link
link-before slots x j same [] addr new nothing zero t at slot =
    absurd (nothing (ap (λ u. get_elem? (slots u) j) (some_inj at) ∙ slot))
link-before slots x j same [] addr new nothing (suc i) t at slot = absurd (ground arith)
link-before slots x j same (s ∷ []) addr new nothing zero t at slot = (
  s,
  refl,
  ap (λ r. get_elem? r j) (sym (same s addr))
      ∙ (ap (λ u. get_elem? (slots u) j) (some_inj at) ∙ slot),
)
link-before slots x j same (s ∷ []) addr new nothing (suc zero) t at slot =
    absurd (nothing (ap (λ u. get_elem? (slots u) j) (some_inj at) ∙ slot))
link-before slots x j same (s ∷ []) addr new nothing (suc (suc i)) t at slot = absurd (ground arith)
link-before slots x j same (s ∷ u ∷ rest) addr new nothing zero t at slot = (t, at, slot)
link-before slots x j same (s ∷ u ∷ rest) addr new nothing (suc i) t at slot =
    link-before slots x j same (u ∷ rest) addr new nothing i t at slot

pub get_elem?-replicate-none :
    {A : Type 0} (n j : ℕ) (x : A)
    → get_elem? (replicate {A = Option A} n none) j ≡ some (some x)
    → ⊥
get_elem?-replicate-none zero j x e = ground arith
get_elem?-replicate-none (suc n) zero x e = ground arith
get_elem?-replicate-none (suc n) (suc j) x e = get_elem?-replicate-none n j x e

pub IsAt-link :
    {A : Type 0} (slots : FileTableSegment → List (Option A)) (x : A) (i j : ℕ)
    → ((s : FileTableSegment) (addr : ℕ)
        → slots (record s { next_segment_addr = some addr }) ≡ slots s)
    → (segments : List FileTableSegment) (addr : ℕ) (new : FileTableSegment)
    → (get_elem? (slots new) j ≡ some (some x) → ⊥)
    → IsAt slots (link segments addr new) i j x
    → IsAt slots segments i j x
IsAt-link slots x i j same segments addr new nothing h =
    let (s, at, slot) =
      link-before slots x j same segments addr new nothing i h.segment h.at h.slot in
    record { segment = s; at = at; slot = slot }
