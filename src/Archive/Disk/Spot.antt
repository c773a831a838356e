-- ===== src/Archive/Disk/Spot.antt =====
-- Where the slot of an entry is on the stream.
use baf.Base.{ℕ, ◌+◌, ◌^◌, ◌≤◌, ◌<◌, ◌≡◌, ap, ◌∙◌, some, arith, length, get_elem?, All-at}
use baf.Source.Window.{Holds}
use baf.Data.FtSegment.{FileTableSegment, encoded_len}
use baf.Data.FtSegment.RoundTrip.{segment_bytes, length-segment_bytes}
use baf.Data.FtSegment.InPlace.{dir_entry_offset_lem, file_entry_offset_lem}
use baf.Coverage.{add64}
use baf.Archive.{Archive}
use baf.Archive.Slots.{SegmentEntry, ItemType, dir_type, file_type, segment_addr, type_offset}
use baf.Archive.Slots.Free.{IsFree}
use baf.Archive.Disk.{placed, IsWritten, IsOnDisk}
use baf.Archive.Disk.Slot.{placed-at, IsSegment-at}

abbrev pub slot_size : ItemType → ℕ
slot_size dir_type = 280
slot_size file_type = 328

pub record Spot (type : ItemType) (e : SegmentEntry) (a : Archive) : Type 0 where
  pub segment : FileTableSegment
  pub base : ℕ
  pub offset : ℕ
  pub at : get_elem? a.file_segments e.segment_index ≡ some segment
  pub here : get_elem? (placed 256 a.file_segments) e.segment_index ≡ some (base, segment)
  pub offset_at : type_offset type segment e.entry_index ≡ some offset
  pub fits : offset + slot_size type ≤ encoded_len segment
  pub inside : base + encoded_len segment ≤ length a.source.content
  pub addr : e.entry_addr ≡ base + offset

type_offset-fits :
    (type : ItemType) (s : FileTableSegment) (j off : ℕ)
    → type_offset type s j ≡ some off
    → off + slot_size type ≤ encoded_len s
unfolding type_offset encoded_len
type_offset-fits dir_type s j off e =
    let (in_row, place) = dir_entry_offset_lem s j off e in omega (arith, in_row, place)
type_offset-fits file_type s j off e =
    let (in_row, place) = file_entry_offset_lem s j off e in omega (arith, in_row, place)

pub Spot-at :
    (type : ItemType) (e : SegmentEntry) (a : Archive) (segment : FileTableSegment)
    (base offset : ℕ)
    → IsOnDisk a
    → get_elem? a.file_segments e.segment_index ≡ some segment
    → segment_addr a.file_segments e.segment_index ≡ some base
    → type_offset type segment e.entry_index ≡ some offset
    → e.entry_addr ≡ add64 base offset
    → Spot type e a
Spot-at type e a segment base offset h at base_at offset_at addr =
    let here = placed-at e.segment_index base a.file_segments segment base_at at in
    let held : Holds a.source.content base (segment_bytes segment) =
      All-at (IsWritten a.source.content) (placed 256 a.file_segments) e.segment_index
        (base, segment) here h.written in
    let size =
      length-segment_bytes segment
        (IsSegment-at 256 a.file_segments e.segment_index base segment here h.segments) in
    let fits = type_offset-fits type segment e.entry_index offset offset_at in
    let inside : base + encoded_len segment ≤ length a.source.content =
      omega (arith, held.0, size) in
    let small : base + offset < 2 ^ 64 =
      omega (arith, inside, fits, h.tracked.sound.len, h.tracked.len) in
    record {
      segment = segment;
      base = base;
      offset = offset;
      at = at;
      here = here;
      offset_at = offset_at;
      fits = fits;
      inside = inside;
      addr = addr ∙ omega (arith, small);
    }

pub IsFree-Spot :
    (type : ItemType) (e : SegmentEntry) (a : Archive)
    → IsOnDisk a
    → IsFree a.file_segments type 0 a.file_segments e
    → Spot type e a
IsFree-Spot type e a h f =
    let index : e.segment_index ≡ f.place = f.index ∙ omega arith in
    Spot-at type e a f.segment f.addr f.offset h (ap (get_elem? a.file_segments) index ∙ f.here)
      (ap (segment_addr a.file_segments) f.index ∙ f.segment_at) f.offset_at f.entry_addr
