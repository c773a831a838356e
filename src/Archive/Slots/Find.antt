-- ===== src/Archive/Slots/Find.antt =====
-- Finding the slot of an item.
use baf.Base.{
  ℕ, zero, suc, ◌+◌, ◌*◌, ◌<◌, ◌≡◌, refl, sym, ap, subst, ◌∙◌, inl, inr, Bool, true, false, List,
  [], ◌∷◌, Option, none, some, and_then, arith, ltb, leb, length, get_elem?, Bool-cases,
}
use baf.Data.Header.{header_size}
use baf.Data.Directory.{Directory}
use baf.Data.File.{File}
use baf.Data.FtSegment.{FileTableSegment, dir_entry_offset, file_entry_offset}
use baf.Coverage.{add64}
use baf.Health.{ItemId, directory, file}
use baf.Archive.Slots.{
  SegmentEntry, position, has_dir, has_file, segment_addr, item_index, item_offset, entry_at,
  find_item, get_item_entry,
}

-- Every segment but the last has the address of the next one.
abbrev pub IsLinked : List FileTableSegment → Type 0
IsLinked [] = Unit {0}
IsLinked (s ∷ []) = Unit {0}
IsLinked (s ∷ t ∷ rest) = ((addr : ℕ) × (s.next_segment_addr ≡ some addr)) × IsLinked (t ∷ rest)

-- Slot `j` of a segment holds the item.
abbrev pub HasItem : ItemId → FileTableSegment → ℕ → Type 0
HasItem (directory id) segment j =
    (dir : Directory) × (get_elem? segment.dirs j ≡ some (some dir)) × (dir.id ≡ id)
HasItem (file id) segment j = (f : File) × (get_elem? segment.files j ≡ some (some f)) × (f.id ≡ id)

position-some :
    {A : Type 0} (p : A → Bool) (xs : List A) (j : ℕ)
    → position p xs ≡ some j
    → (x : A) × (get_elem? xs j ≡ some x) × (p x ≡ true) × (j < length xs)
unfolding position
position-some p [] j e = absurd (ground arith)
position-some p (x ∷ xs) zero e = (x, refl, ground arith, omega arith)
position-some p (x ∷ xs) (suc j) e =
    let (y, a, b, c) = position-some p xs j (ground arith) in (y, a, b, omega arith)

position-none :
    {A : Type 0} (p : A → Bool) (xs : List A) (j : ℕ) (x : A)
    → position p xs ≡ none
    → get_elem? xs j ≡ some x
    → p x ≡ false
unfolding position
position-none p [] j x e g = absurd (ground arith)
position-none p (y ∷ xs) zero x e g = ground arith
position-none p (y ∷ xs) (suc j) x e g = position-none p xs j x (ground arith) g

leb-below : (j n : ℕ) → j < n → leb n j ≡ false
leb-below j n h = ground arith

item_index-some :
    (id : ItemId) (segment : FileTableSegment) (j : ℕ)
    → item_index id segment ≡ some j
    → HasItem id segment j × ((off : ℕ) × (item_offset id segment j ≡ some off))
unfolding item_index item_offset dir_entry_offset file_entry_offset
item_index-some (directory id) segment j e =
    let (slot, at, has, b) = position-some (has_dir id) segment.dirs j e in
    (dir_slot slot at has, (16 + j * 280, rw (leb-below j (length segment.dirs) b) refl))
  where
    dir_slot :
        (slot : Option Directory)
        → get_elem? segment.dirs j ≡ some slot
        → has_dir id slot ≡ true
        → HasItem (directory id) segment j
    dir_slot none at has = absurd (ground arith)
    dir_slot (some dir) at has = (dir, at, ground arith)
item_index-some (file id) segment j e =
    let (slot, at, has, b) = position-some (has_file id) segment.files j e in
    (
      file_slot slot at has,
      (16 + length segment.dirs * 280 + j * 328, rw (leb-below j (length segment.files) b) refl),
    )
  where
    file_slot :
        (slot : Option File)
        → get_elem? segment.files j ≡ some slot
        → has_file id slot ≡ true
        → HasItem (file id) segment j
    file_slot none at has = absurd (ground arith)
    file_slot (some f) at has = (f, at, ground arith)

item_index-none :
    (id : ItemId) (segment : FileTableSegment) (j : ℕ)
    → item_index id segment ≡ none
    → HasItem id segment j
    → ⊥
unfolding item_index
item_index-none (directory id) segment j e (dir, at, same) =
    ground (arith, position-none (has_dir id) segment.dirs j (some dir) e at)
item_index-none (file id) segment j e (f, at, same) =
    ground (arith, position-none (has_file id) segment.files j (some f) e at)

next_addr :
    (segments : List FileTableSegment) (i : ℕ)
    → IsLinked segments
    → suc i < length segments
    → (addr : ℕ) × (and_then (get_elem? segments i) (λ s. s.next_segment_addr) ≡ some addr)
next_addr [] i h b = absurd (omega arith)
next_addr (s ∷ []) i h b = absurd (omega arith)
next_addr (s ∷ t ∷ rest) zero h b = h.0
next_addr (s ∷ t ∷ rest) (suc i) h b = next_addr (t ∷ rest) i h.1 (omega arith)

pub segment_addr-IsLinked :
    (segments : List FileTableSegment) (i : ℕ)
    → IsLinked segments
    → i < length segments
    → (addr : ℕ) × (segment_addr segments i ≡ some addr)
unfolding segment_addr
segment_addr-IsLinked segments zero h b = (header_size, ground arith)
segment_addr-IsLinked segments (suc i) h b =
    let (addr, e) = next_addr segments i h b in (addr, in_bounds addr e)
  where
    in_bounds :
        (addr : ℕ)
        → and_then (get_elem? segments i) (λ s. s.next_segment_addr) ≡ some addr
        → segment_addr segments (suc i) ≡ some addr
    in_bounds addr e =
        let lt : ltb (suc i) (length segments) ≡ true = ground arith in
        rw (segment_addr, lt, e) refl

-- What `get_item_entry` promises: the slot and its address, or that no slot has the item.
pub data IsFound (segments : List FileTableSegment) (id : ItemId)
    : Option SegmentEntry → Type 0 where
  absent :
      ((i j : ℕ) (segment : FileTableSegment)
        → get_elem? segments i ≡ some segment
        → HasItem id segment j
        → ⊥)
      → IsFound segments id none
  found :
      (i j addr off : ℕ) (segment : FileTableSegment)
      → get_elem? segments i ≡ some segment
      → HasItem id segment j
      → segment_addr segments i ≡ some addr
      → item_offset id segment j ≡ some off
      → IsFound segments id
          (some (record { segment_index = i; entry_index = j; entry_addr = add64 addr off }))

-- No segment before the `i`-th has the item.
abbrev NoneBefore : List FileTableSegment → ItemId → ℕ → Type 0
NoneBefore segments id i =
    (k j : ℕ) (segment : FileTableSegment)
    → k < i
    → get_elem? segments k ≡ some segment
    → HasItem id segment j
    → ⊥

abbrev Finds : List FileTableSegment → ItemId → ℕ → List FileTableSegment → Type 0
Finds segments id i rest =
    (o : Option SegmentEntry) × (find_item segments id i rest ≡ some o) × IsFound segments id o

some_inside : {A : Type 0} (xs : List A) (k : ℕ) (x : A) → get_elem? xs k ≡ some x → k < length xs
some_inside [] k x e = absurd (ground arith)
some_inside (y ∷ ys) zero x e = omega arith
some_inside (y ∷ ys) (suc k) x e = omega (arith, some_inside ys k x e)

same_place :
    {A : Type 0} (xs : List A) (i k : ℕ) (x y : A)
    → i ≡ k
    → get_elem? xs i ≡ some x
    → get_elem? xs k ≡ some y
    → x ≡ y
same_place xs i k x y e at at' = cc

NoneBefore-suc :
    (segments : List FileTableSegment) (id : ItemId) (i : ℕ) (segment : FileTableSegment)
    → get_elem? segments i ≡ some segment
    → item_index id segment ≡ none
    → NoneBefore segments id i
    → NoneBefore segments id (suc i)
NoneBefore-suc segments id i segment at e before k j other b at' has = elim (Bool-cases (ltb k i)) [
  | inl less ↦ before k j other (ground arith) at' has
  | inr more ↦ item_index-none id segment j e (
      subst (λ s. HasItem id s j)
        (sym (same_place segments i k segment other (ground arith) at at')) has)
]

step-Finds :
    (segments : List FileTableSegment) (id : ItemId) (i : ℕ) (segment : FileTableSegment)
    (rest : List FileTableSegment) (o : Option ℕ)
    → IsLinked segments
    → get_elem? segments i ≡ some segment
    → i < length segments
    → NoneBefore segments id i
    → (NoneBefore segments id (suc i) → Finds segments id (suc i) rest)
    → item_index id segment ≡ o
    → Finds segments id i (segment ∷ rest)
unfolding find_item entry_at
step-Finds segments id i segment rest none h at b before later e =
    let (o, f, good) = later (NoneBefore-suc segments id i segment at e before) in
    (o, rw (find_item, e) f, good)
step-Finds segments id i segment rest (some j) h at b before later e =
    let (has, (off, offset)) = item_index-some id segment j e in
    let (addr, addr_eq) = segment_addr-IsLinked segments i h b in
    (
      some _,
      rw (find_item, e, entry_at, addr_eq, offset) refl,
      found i j addr off segment at has addr_eq offset,
    )

find_item-Finds :
    (segments : List FileTableSegment) (id : ItemId) (i : ℕ) (rest : List FileTableSegment)
    → IsLinked segments
    → ((k : ℕ) → get_elem? segments (i + k) ≡ get_elem? rest k)
    → length segments ≡ i + length rest
    → NoneBefore segments id i
    → Finds segments id i rest
find_item-Finds segments id i [] h at n before = (
  none,
  unfold find_item in refl,
  absent (λ k j segment e has.
      before k j segment (omega (arith, some_inside segments k segment e, n)) e has),
)
find_item-Finds segments id i (segment ∷ rest) h at n before =
    step-Finds segments id i segment rest (item_index id segment) h
      (ap (get_elem? segments) (omega arith) ∙ at 0) (omega (arith, n)) before
      (find_item-Finds segments id (suc i) rest h
        (λ k. ap (get_elem? segments) (omega arith) ∙ at (suc k)) (omega (arith, n)))
      refl

-- Where every segment but the last has the address of the next, `get_item_entry` does not panic.
-- It answers `None` only if no slot of the segments has the item; an entry that it answers is the
-- index of a segment and of a slot there that has the item, and the slot's address: the segment's
-- address and the slot's offset, added.
pub get_item_entry_lem :
    (segments : List FileTableSegment) (id : ItemId)
    → IsLinked segments
    → (o : Option SegmentEntry) × (get_item_entry segments id ≡ some o) × IsFound segments id o
unfolding get_item_entry
get_item_entry_lem segments id h =
    find_item-Finds segments id 0 segments h (λ k. ap (get_elem? segments) (omega arith))
      (omega arith) (λ k j s b. absurd (omega arith))
