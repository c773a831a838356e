-- ===== src/Archive/Slots/Total.antt =====
-- The search for a free slot where the segments are linked.
use baf.Base.{
  ℕ, suc, ◌+◌, ◌*◌, ◌<◌, ◌≡◌, refl, ap, subst, ◌∙◌, inl, inr, Bool, true, false, List, [], ◌∷◌,
  Option, none, some, some_inj, Option-cases, Bool-cases, arith, leb, length, get_elem?,
}
use baf.Data.FtSegment.{FileTableSegment, dir_entry_offset, file_entry_offset}
use baf.Archive.Slots.{
  SegmentEntry, ItemType, dir_type, file_type, rposition, is_none, entry_at, free_index,
  type_offset, last_free,
}
use baf.Coverage.{add64}
use baf.Archive.Slots.Find.{IsLinked, segment_addr-IsLinked}

-- Where `rposition` stops.
rposition-some :
    {A : Type 0} (p : A → Bool) (xs : List A) (j : ℕ)
    → rposition p xs ≡ some j
    → (j < length xs) × ((x : A) × (get_elem? xs j ≡ some x) × (p x ≡ true))
unfolding rposition
rposition-some {A} p [] j e = absurd (ground arith)
rposition-some {A} p (x ∷ xs) j e = elim (Option-cases (rposition p xs)) [
  | inl f ↦ elim (Bool-cases (p x)) [
    | inl t ↦
        let same : 0 ≡ j = some_inj (rw (rposition, f, t) at e) in
        subst
          (λ k. (k < length (x ∷ xs)) × ((y : A) × (get_elem? (x ∷ xs) k ≡ some y) × (p y ≡ true)))
          same (omega arith, (x, refl, t))
    | inr t ↦ absurd (ground (arith, rw (rposition, f, t) at e))
  ]
  | inr (i, f) ↦
      let same : suc i ≡ j = some_inj (rw (rposition, f) at e) in
      let (lt, found) = rposition-some p xs i f in
      subst
        (λ k. (k < length (x ∷ xs)) × ((y : A) × (get_elem? (x ∷ xs) k ≡ some y) × (p y ≡ true)))
        same (omega (arith, lt), found)
]

none_slot :
    {A : Type 0} (slots : List (Option A)) (j : ℕ)
    → rposition is_none slots ≡ some j
    → get_elem? slots j ≡ some none
none_slot slots j e =
    let (lt, (x, at, empty)) = rposition-some is_none slots j e in
    elim (Option-cases x) [
      | inl f ↦ at ∙ ap (λ y. some y) f
      | inr (y, f) ↦ absurd (ground (arith, rw f at empty))
    ]

-- The slot is there and empty.
abbrev pub IsEmptySlot : ItemType → FileTableSegment → ℕ → Type 0
IsEmptySlot dir_type s j = get_elem? s.dirs j ≡ some none
IsEmptySlot file_type s j = get_elem? s.files j ≡ some none

pub free_index-IsEmptySlot :
    (type : ItemType) (s : FileTableSegment) (j : ℕ)
    → free_index type s ≡ some j
    → IsEmptySlot type s j
unfolding free_index
free_index-IsEmptySlot dir_type s j e = none_slot s.dirs j e
free_index-IsEmptySlot file_type s j e = none_slot s.files j e

free-offset :
    (type : ItemType) (s : FileTableSegment) (j : ℕ)
    → free_index type s ≡ some j
    → (off : ℕ) × (type_offset type s j ≡ some off)
unfolding free_index type_offset dir_entry_offset file_entry_offset
free-offset dir_type s j e =
    let lt = (rposition-some is_none s.dirs j e).0 in
    let inside : leb (length s.dirs) j ≡ false = ground (arith, lt) in
    (16 + j * 280, rw inside refl)
free-offset file_type s j e =
    let lt = (rposition-some is_none s.files j e).0 in
    let inside : leb (length s.files) j ≡ false = ground (arith, lt) in
    (16 + length s.dirs * 280 + j * 328, rw inside refl)

here-total :
    (segments : List FileTableSegment) (type : ItemType) (i : ℕ) (s : FileTableSegment)
    (rest : List FileTableSegment)
    → IsLinked segments
    → i < length segments
    → last_free segments type (suc i) rest ≡ some none
    → (o : Option SegmentEntry) × (last_free segments type i (s ∷ rest) ≡ some o)
unfolding last_free entry_at
here-total segments type i s rest h b nothing = elim (Option-cases (free_index type s)) [
  | inl f ↦ (none, rw (last_free, nothing, f) refl)
  | inr (j, f) ↦
      let (off, at) = free-offset type s j f in
      let (addr, found) = segment_addr-IsLinked segments i h b in
      (
        some (record { segment_index = i; entry_index = j; entry_addr = add64 addr off }),
        rw (last_free, nothing, f, entry_at, found, at) refl,
      )
]

pub last_free-total :
    (segments : List FileTableSegment) (type : ItemType) (i : ℕ) (rest : List FileTableSegment)
    → IsLinked segments
    → i + length rest ≡ length segments
    → (o : Option SegmentEntry) × (last_free segments type i rest ≡ some o)
unfolding last_free
last_free-total segments type i [] h n = (none, refl)
last_free-total segments type i (s ∷ rest) h n =
    let (o, e) = last_free-total segments type (suc i) rest h (omega (arith, n)) in after o e
  where
    after :
        (o : Option SegmentEntry)
        → last_free segments type (suc i) rest ≡ some o
        → (o' : Option SegmentEntry) × (last_free segments type i (s ∷ rest) ≡ some o')
    after none e = here-total segments type i s rest h (omega (arith, n)) e
    after (some x) e = (some x, rw (last_free, e) refl)
