-- ===== src/Archive/Slots/Free.antt =====
-- Where a free slot is found.
use baf.Base.{
  ℕ, suc, ◌+◌, ◌≡◌, refl, sym, ap, subst, ◌∙◌, List, [], ◌∷◌, Option, none, some, some_inj, inl,
  inr, Option-cases, and_then, arith, get_elem?,
}
use baf.Data.FtSegment.{FileTableSegment}
use baf.Coverage.{add64}
use baf.Archive.Slots.{
  SegmentEntry, ItemType, segment_addr, entry_at, free_index, type_offset, last_free,
}

-- The entry is at the last free slot of a segment of the list, whose first one has index `i`.
pub record IsFree (segments : List FileTableSegment) (type : ItemType) (i : ℕ)
    (rest : List FileTableSegment) (e : SegmentEntry) : Type 0 where
  pub place : ℕ
  pub segment : FileTableSegment
  pub addr : ℕ
  pub offset : ℕ
  pub index : e.segment_index ≡ i + place
  pub here : get_elem? rest place ≡ some segment
  pub free : free_index type segment ≡ some e.entry_index
  pub segment_at : segment_addr segments (i + place) ≡ some addr
  pub offset_at : type_offset type segment e.entry_index ≡ some offset
  pub entry_addr : e.entry_addr ≡ add64 addr offset

and_then-some :
    {A B : Type 0} (o : Option A) (f : A → Option B) (b : B)
    → and_then o f ≡ some b
    → (a : A) × (o ≡ some a) × (f a ≡ some b)
and_then-some none f b h = absurd (ground arith)
and_then-some (some a) f b h = (a, refl, h)

entry_at-some :
    (segments : List FileTableSegment) (i j : ℕ) (offset : Option ℕ) (e : SegmentEntry)
    → entry_at segments i j offset ≡ some e
    → (addr : ℕ) × (off : ℕ) × (segment_addr segments i ≡ some addr)
      × (offset ≡ some off)
      × (record { segment_index = i; entry_index = j; entry_addr = add64 addr off } ≡ e)
unfolding entry_at
entry_at-some segments i j offset e h =
    let (addr, e1, h1) = and_then-some (segment_addr segments i) _ e h in
    let (off, e2, h2) = and_then-some offset _ e h1 in (addr, off, e1, e2, some_inj h2)

here-IsFree :
    (segments : List FileTableSegment) (type : ItemType) (i j : ℕ) (s : FileTableSegment)
    (rest : List FileTableSegment) (e : SegmentEntry)
    → free_index type s ≡ some j
    → entry_at segments i j (type_offset type s j) ≡ some e
    → IsFree segments type i (s ∷ rest) e
here-IsFree segments type i j s rest e free h =
    let (addr, off, e1, e2, same) = entry_at-some segments i j (type_offset type s j) e h in
    let zero_index : i + 0 ≡ i = omega arith in
    subst (IsFree segments type i (s ∷ rest)) same (record {
      place = 0;
      segment = s;
      addr = addr;
      offset = off;
      index = sym zero_index;
      here = refl;
      free = free;
      segment_at = rw zero_index e1;
      offset_at = e2;
      entry_addr = refl;
    })

suc-IsFree :
    (segments : List FileTableSegment) (type : ItemType) (i : ℕ) (s : FileTableSegment)
    (rest : List FileTableSegment) (e : SegmentEntry)
    → IsFree segments type (suc i) rest e
    → IsFree segments type i (s ∷ rest) e
suc-IsFree segments type i s rest e h =
    let index : suc i + h.place ≡ i + suc h.place = omega arith in
    record {
      place = suc h.place;
      segment = h.segment;
      addr = h.addr;
      offset = h.offset;
      index = h.index ∙ index;
      here = h.here;
      free = h.free;
      segment_at = ap (segment_addr segments) (sym index) ∙ h.segment_at;
      offset_at = h.offset_at;
      entry_addr = h.entry_addr;
    }

-- The segment itself is looked at where none behind it has a free slot.
last_IsFree :
    (segments : List FileTableSegment) (type : ItemType) (i : ℕ) (s : FileTableSegment)
    (rest : List FileTableSegment) (e : SegmentEntry)
    → last_free segments type (suc i) rest ≡ some none
    → last_free segments type i (s ∷ rest) ≡ some (some e)
    → IsFree segments type i (s ∷ rest) e
unfolding last_free
last_IsFree segments type i s rest e nothing h = elim (Option-cases (free_index type s)) [
  | inl f ↦ absurd (ground (arith, rw (last_free, nothing, f) at h))
  | inr (j, f) ↦
      let (e', at, same) =
        and_then-some (entry_at segments i j (type_offset type s j)) _ (some e)
          (rw (last_free, nothing, f) at h) in
      here-IsFree segments type i j s rest e f (at ∙ some_inj same)
]

pub last_free-IsFree :
    (segments : List FileTableSegment) (type : ItemType) (i : ℕ) (rest : List FileTableSegment)
    (e : SegmentEntry)
    → last_free segments type i rest ≡ some (some e)
    → IsFree segments type i rest e
unfolding last_free
last_free-IsFree segments type i [] e h = absurd (ground arith)
last_free-IsFree segments type i (s ∷ rest) e h =
    elim (Option-cases (last_free segments type (suc i) rest)) [
      | inl f ↦ absurd (ground (arith, rw (last_free, f) at h))
      | inr (none, f) ↦ last_IsFree segments type i s rest e f h
      | inr (some e', f) ↦
          let same : e' ≡ e = some_inj (some_inj (rw (last_free, f) at h)) in
          suc-IsFree segments type i s rest e
            (last_free-IsFree segments type (suc i) rest e (f ∙ ap (λ x. some (some x)) same))
    ]
