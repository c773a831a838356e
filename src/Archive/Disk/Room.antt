-- ===== src/Archive/Disk/Room.antt =====
-- Room for an item: a free slot, or one in a new segment.
use baf.Base.{
  ℕ, zero, suc, ◌+◌, ◌*◌, ◌^◌, ◌≤◌, ◌<◌, ◌≡◌, refl, sym, ap, subst, ◌∙◌, true, false, List, [], ◌∷◌,
  Option, none, some, some_inj, and_then, arith, ltb, leb, length, length-replicate, replicate,
  get_elem?,
}
use baf.Data.Directory.{Directory}
use baf.Data.File.{File}
use baf.Data.FtSegment.{FileTableSegment, encoded_len, dir_entry_offset, file_entry_offset}
use baf.Coverage.{add64}
use baf.Archive.{Archive, ArchiveConfig, done, ◌>>=◌}
use baf.Archive.Slots.{
  SegmentEntry, ItemType, dir_type, file_type, segment_addr, entry_at, type_offset, last_free,
}
use baf.Archive.Slots.Free.{last_free-IsFree}
use baf.Archive.Slots.Total.{IsEmptySlot, free_index-IsEmptySlot, last_free-total}
use baf.Archive.Write.{empty_segment, link, first_entry, get_addr_for_item_insert}
use baf.Archive.Create.Steps.{get_addr_lem}
use baf.Archive.Disk.{IsChain, IsOnDisk, Keeps}
use baf.Archive.Disk.Items.{InSlot, InSlot-link}
use baf.Archive.Disk.Places.{IsAt, IsAt-link, get_elem?-replicate-none}
use baf.Archive.Disk.Spot.{Spot, Spot-at, IsFree-Spot}
use baf.Archive.Disk.Grown.{IsChain-IsLinked, HasCapacity, new_segment, create_segment-IsOnDisk}

-- The last segment of a linked list, and how it is reached.
link-last :
    (segments : List FileTableSegment) (addr : ℕ) (new : FileTableSegment)
    → get_elem? (link segments addr new) (length segments) ≡ some new
unfolding link
link-last [] addr new = refl
link-last (s ∷ []) addr new = refl
link-last (s ∷ t ∷ rest) addr new = link-last (t ∷ rest) addr new

length-link :
    (segments : List FileTableSegment) (addr : ℕ) (new : FileTableSegment)
    → length (link segments addr new) ≡ suc (length segments)
unfolding link
length-link [] addr new = refl
length-link (s ∷ []) addr new = refl
length-link (s ∷ t ∷ rest) addr new = ap suc (length-link (t ∷ rest) addr new)

link-pointer :
    (s : FileTableSegment) (rest : List FileTableSegment) (addr : ℕ) (new : FileTableSegment)
    → and_then (get_elem? (link (s ∷ rest) addr new) (length rest)) (λ t. t.next_segment_addr)
      ≡ some addr
unfolding link
link-pointer s [] addr new = refl
link-pointer s (t ∷ rest) addr new = link-pointer t rest addr new

segment_addr-link :
    (s : FileTableSegment) (rest : List FileTableSegment) (addr : ℕ) (new : FileTableSegment)
    → segment_addr (link (s ∷ rest) addr new) (suc (length rest)) ≡ some addr
unfolding segment_addr
segment_addr-link s rest addr new =
    let inside : ltb (suc (length rest)) (length (link (s ∷ rest) addr new)) ≡ true =
      ground (arith, length-link (s ∷ rest) addr new) in
    rw (segment_addr, inside, link-pointer s rest addr new) refl

segment_addr-chain :
    (segments : List FileTableSegment) (addr : ℕ) (new : FileTableSegment)
    → IsChain segments
    → segment_addr (link segments addr new) (length segments) ≡ some addr
segment_addr-chain [] addr new h = absurd h
segment_addr-chain (s ∷ rest) addr new h = segment_addr-link s rest addr new

replicate-first : {A : Type 0} (n : ℕ) (x : A) → 0 < n → get_elem? (replicate n x) 0 ≡ some x
replicate-first zero x h = absurd (omega arith)
replicate-first (suc n) x h = refl

-- The first slot of a new segment.
first_slot :
    (type : ItemType) (conf : ArchiveConfig)
    → HasCapacity conf
    → (off : ℕ) × (type_offset type (new_segment conf) 0 ≡ some off)
      × IsEmptySlot type (new_segment conf) 0
unfolding type_offset dir_entry_offset file_entry_offset empty_segment
first_slot dir_type conf cap =
    let inside : leb
          (length (replicate {A = Option Directory} conf.default_dirs_capacity_by_ft_segment none))
          0
        ≡ false =
      ground (
        arith,
        cap.dirs,
        length-replicate {A = Option Directory} conf.default_dirs_capacity_by_ft_segment none,
      ) in
    (
      16,
      rw inside refl,
      replicate-first {A = Option Directory} conf.default_dirs_capacity_by_ft_segment none cap.dirs,
    )
first_slot file_type conf cap =
    let n = conf.default_files_capacity_by_ft_segment in
    let inside : leb (length (replicate {A = Option File} n none)) 0 ≡ false =
      ground (arith, cap.files, length-replicate {A = Option File} n none) in
    (
      16
          + length (replicate {A = Option Directory} conf.default_dirs_capacity_by_ft_segment none)
            * 280
          + 0 * 328,
      rw inside refl,
      replicate-first {A = Option File} n none cap.files,
    )

first_entry_lem :
    (type : ItemType) (a b : Archive) (addr off : ℕ)
    → IsOnDisk a
    → b.file_segments ≡ link a.file_segments addr (new_segment a.conf)
    → type_offset type (new_segment a.conf) 0 ≡ some off
    → (get_elem? b.file_segments (length a.file_segments) ≡ some (new_segment a.conf))
      × (segment_addr b.file_segments (length a.file_segments) ≡ some addr)
      × (first_entry type (length a.file_segments) b
          ≡ some (record {
            segment_index = length a.file_segments;
            entry_index = 0;
            entry_addr = add64 addr off;
          }))
unfolding first_entry entry_at
first_entry_lem type a b addr off h segments offset =
    let at : get_elem? b.file_segments (length a.file_segments) ≡ some (new_segment a.conf) =
      ap (λ ss. get_elem? ss (length a.file_segments)) segments
      ∙ link-last a.file_segments addr (new_segment a.conf) in
    let found : segment_addr b.file_segments (length a.file_segments) ≡ some addr =
      ap (λ ss. segment_addr ss (length a.file_segments)) segments
      ∙ segment_addr-chain a.file_segments addr (new_segment a.conf) h.chain in
    (at, found, rw (first_entry, at, entry_at, found, offset) refl)

-- Where there is room in an archive, and the archive then, which differs from the one before in the
-- stream, the coverage and the segments at most.
pub record HasRoom (type : ItemType) (e : SegmentEntry) (a c : Archive) : Type 0 where
  pub on_disk : IsOnDisk c
  pub spot : Spot type e c
  pub empty : IsEmptySlot type spot.segment e.entry_index
  pub rest :
      c ≡ record a { source = c.source; coverage = c.coverage; file_segments = c.file_segments }
  pub keeps : Keeps a c
  pub dirs :
      (x : Directory)
      → InSlot (λ s. s.dirs) x a.file_segments
      → InSlot (λ s. s.dirs) x c.file_segments
  pub files :
      (x : File) → InSlot (λ s. s.files) x a.file_segments → InSlot (λ s. s.files) x c.file_segments
  pub before :
      (x : File) (i j : ℕ)
      → IsAt (λ s. s.files) c.file_segments i j x
      → IsAt (λ s. s.files) a.file_segments i j x
  pub len : length c.source.content ≤ length a.source.content + encoded_len (new_segment a.conf)

-- A free slot of the archive.
pub free_room :
    (type : ItemType) (e : SegmentEntry) (a : Archive)
    → IsOnDisk a
    → last_free a.file_segments type 0 a.file_segments ≡ some (some e)
    → HasRoom type e a a
free_room type e a h found =
    let f = last_free-IsFree a.file_segments type 0 a.file_segments e found in
    let sp = IsFree-Spot type e a h f in
    let index : e.segment_index ≡ f.place = f.index ∙ omega arith in
    let same : f.segment ≡ sp.segment =
      some_inj (sym f.here ∙ ap (get_elem? a.file_segments) (sym index) ∙ sp.at) in
    record {
      on_disk = h;
      spot = sp;
      empty =
          subst (λ s. IsEmptySlot type s e.entry_index) same
            (free_index-IsEmptySlot type f.segment e.entry_index f.free);
      rest = refl;
      keeps = λ p bytes k. k;
      dirs = λ x i. i;
      files = λ x i. i;
      before = λ x i j at. at;
      len = omega arith;
    }

module _ (type : ItemType) (a : Archive) (h : IsOnDisk a) (cap : HasCapacity a.conf)
    (bound : length a.source.content + encoded_len (new_segment a.conf) < 2 ^ 64) where
  -- The first slot of a segment that is created.
  new_room :
      last_free a.file_segments type 0 a.file_segments ≡ some none
      → (e : SegmentEntry) × (c : Archive) × (get_addr_for_item_insert type a ≡ (done e, c))
        × HasRoom type e a c
  unfolding get_addr_for_item_insert empty_segment
  new_room nothing =
      let (c, run, on_disk, grown) = create_segment-IsOnDisk a h cap bound in
      let (off, offset, empty) = first_slot type a.conf cap in
      let (at, found, entry) = first_entry_lem type a c grown.addr off h grown.segments offset in
      let e : SegmentEntry = record {
        segment_index = length a.file_segments;
        entry_index = 0;
        entry_addr = add64 grown.addr off;
      } in
      let sp = Spot-at type e c (new_segment a.conf) grown.addr off on_disk at found offset refl in
      (
        e,
        c,
        rw (get_addr_for_item_insert, ◌>>=◌, nothing) (rw (run, entry) refl),
        record {
          on_disk = on_disk;
          spot = sp;
          empty = subst (λ s. IsEmptySlot type s 0) (some_inj (sym at ∙ sp.at)) empty;
          rest = grown.rest;
          keeps = grown.keeps;
          dirs = λ x i. subst (InSlot (λ s. s.dirs) x) (sym grown.segments) (
              InSlot-link (λ s. s.dirs) x (λ s addr. refl) a.file_segments grown.addr
                (new_segment a.conf) i);
          files = λ x i. subst (InSlot (λ s. s.files) x) (sym grown.segments) (
              InSlot-link (λ s. s.files) x (λ s addr. refl) a.file_segments grown.addr
                (new_segment a.conf) i);
          before = λ x i j at.
              IsAt-link (λ s. s.files) x i j (λ s addr. refl) a.file_segments grown.addr
                (new_segment a.conf)
                (get_elem?-replicate-none a.conf.default_files_capacity_by_ft_segment j x)
                (subst (λ ss. IsAt (λ s. s.files) ss i j x) grown.segments at);
          len = grown.len;
        },
      )

  -- Let the stream hold an archive's header and segments, with capacities that are not 0, and let
  -- the stream with a new segment behind it end below 2^64. Then `get_addr_for_item_insert`
  -- succeeds, in a free slot or in a new segment. The slot that it answers is empty and at its
  -- address. The stream holds the header and the segments again, what stood in stretches of its own
  -- stays there, and but for the stream, the coverage and the segments nothing changes.
  pub get_addr_for_item_insert-HasRoom :
      (e : SegmentEntry) × (c : Archive) × (get_addr_for_item_insert type a ≡ (done e, c))
      × HasRoom type e a c
  get_addr_for_item_insert-HasRoom =
      let (o, found) =
        last_free-total a.file_segments type 0 a.file_segments
          (IsChain-IsLinked a.file_segments h.chain) (omega arith) in
      decide o found
    where
      decide :
          (o : Option SegmentEntry)
          → last_free a.file_segments type 0 a.file_segments ≡ some o
          → (e : SegmentEntry) × (c : Archive) × (get_addr_for_item_insert type a ≡ (done e, c))
            × HasRoom type e a c
      decide none found = new_room found
      decide (some e) found = (e, a, get_addr_lem type e a found, free_room type e a h found)
