-- ===== src/Archive/Disk/Removed.antt =====
-- Removing a file.
use baf.Base.{
  ℕ, ◌≤◌, ◌<◌, ◌≡◌, refl, sym, ap, subst, ◌∙◌, true, List, ◌∷◌, Option, none, some, some_inj, arith,
  length, replicate, get_elem?, set, All, length-set,
}
use baf.Base.Maps.{lookup, insert, remove, member, exclude, nat_key, bytes_key}
use baf.Source.{overwrite}
use baf.Source.Window.{Beside}
use baf.Data.File.{File, FileId, file_entry_size}
use baf.Data.FtSegment.{FileTableSegment, encoded_len}
use baf.Data.FtSegment.InPlace.{with_file, file_entry_offset_lem}
use baf.Coverage.{add64, mark_as_free}
use baf.Health.{DirContent, file, dir_key}
use baf.Archive.{Archive, ArchiveError, done, file_not_found, ◌>>=◌}
use baf.Archive.Slots.{SegmentEntry, file_type, type_offset, item_offset, get_item_entry}
use baf.Archive.Slots.Find.{IsFound, absent, found, get_item_entry_lem}
use baf.Archive.Write.Copy.{wrote}
use baf.Archive.Write.Stored.{stretch}
use baf.Archive.Create.Steps.{moved, write_at_lem, set_file_slot_lem}
use baf.Archive.Change.{find_entry, file_at, free_content}
use baf.Archive.Remove.{unlist_file, remove_file}
use baf.Archive.Disk.{IsClear, IsOnDisk, IsKept, Keeps, header_zone}
use baf.Archive.Disk.Items.{InSlot, InSlot-set, slot-set_other}
use baf.Archive.Disk.Kept.{within-Keeps, freed-IsKept}
use baf.Archive.Disk.Grown.{IsChain-IsLinked}
use baf.Archive.Disk.Slot.{zones-set}
use baf.Archive.Disk.Spot.{Spot, Spot-at}
use baf.Archive.Disk.Entry.{with_file-IsOnDisk}
use baf.Archive.Disk.Freed.{freed-IsOnDisk}

-- The file is in a slot, in the index, and in its parent's listing, and its content is clear of
-- the header and the segments, unless it is empty.
pub record MayRemoveFile (f : File) (entry : SegmentEntry) (a : Archive) : Type 0 where
  pub found : get_item_entry a.file_segments (file f.id) ≡ some (some entry)
  pub indexed : lookup f.id a.files ≡ some f
  pub content : DirContent
  pub listed : lookup f.parent_dir a.dirs_content ≡ some content
  pub has_id : member f.id content.files ≡ true
  pub has_name : member f.name content.names ≡ true
  pub clear : 0 < f.content_len → IsClear f.content_addr f.content_len a

-- The slot of a file that is found.
pub record FileSpot (id : FileId) (e : SegmentEntry) (a : Archive) : Type 0 where
  pub spot : Spot file_type e a
  pub old : File
  pub slot : get_elem? spot.segment.files e.entry_index ≡ some (some old)
  pub old_id : old.id ≡ id

pub found-FileSpot :
    (id : FileId) (e : SegmentEntry) (a : Archive) (o : Option SegmentEntry)
    → IsOnDisk a
    → IsFound a.file_segments (file id) o
    → o ≡ some e
    → FileSpot id e a
unfolding type_offset item_offset
found-FileSpot id e a none h (absent none_has) same = absurd (ground arith)
found-FileSpot id e a o h (found i j addr off segment at has base_at offset_at) same =
    let e' : SegmentEntry = record {
      segment_index = i;
      entry_index = j;
      entry_addr = add64 addr off;
    } in
    let sp : Spot file_type e' a =
      Spot-at file_type e' a segment addr off h at base_at offset_at refl in
    let (old, slot, id_old) = has in
    subst (λ x. FileSpot id x a) (some_inj same)
      (record {
        spot = sp;
        old = old;
        slot =
            subst (λ (t : FileTableSegment). get_elem? t.files j ≡ some (some old))
              (some_inj (sym at ∙ sp.at)) slot;
        old_id = id_old;
      })

pub find_entry_lem :
    (id : FileId) (error : ArchiveError) (e : SegmentEntry) (a : Archive)
    → get_item_entry a.file_segments (file id) ≡ some (some e)
    → find_entry (file id) error a ≡ (done e, a)
unfolding find_entry
find_entry_lem id error e a h = rw (find_entry, ◌>>=◌, h) refl

pub file_at_lem :
    (e : SegmentEntry) (s : FileTableSegment) (f : File) (a : Archive)
    → get_elem? a.file_segments e.segment_index ≡ some s
    → get_elem? s.files e.entry_index ≡ some (some f)
    → file_at e a ≡ (done f, a)
unfolding file_at
file_at_lem e s f a at slot = rw (file_at, ◌>>=◌, at, slot) refl

-- The archive without the file in the index and its parent's listing.
abbrev unlisted : File → DirContent → Archive → Archive
unlisted f content a = record a {
  files = remove f.id a.files;
  dirs_content =
      insert f.parent_dir
        (record content {
          files = exclude f.id content.files;
          names = exclude f.name content.names;
        })
        a.dirs_content;
}

unlist_file_lem :
    (f : File) (content : DirContent) (a : Archive)
    → lookup f.id a.files ≡ some f
    → lookup f.parent_dir a.dirs_content ≡ some content
    → member f.id content.files ≡ true
    → member f.name content.names ≡ true
    → unlist_file f.id a ≡ (done f, unlisted f content a)
unfolding unlist_file
unlist_file_lem f content a indexed listed has_id has_name =
    rw (unlist_file, ◌>>=◌, indexed, listed, has_id, has_name) refl

IsClear-set :
    (p n i j : ℕ) (s : FileTableSegment) (a : Archive)
    → get_elem? a.file_segments i ≡ some s
    → IsClear p n a
    → IsClear p n (record a { file_segments = set a.file_segments i (with_file s j none) })
unfolding encoded_len
IsClear-set p n i j s a at h =
    let len : encoded_len (with_file s j none) ≡ encoded_len s =
      omega (arith, length-set s.files j none) in
    let same = zones-set s (with_file s j none) refl 256 a.file_segments i len at in
    subst (λ zs. All (λ z. Beside z.start z.len p n) (header_zone ∷ zs)) (sym same) h

-- The slot of the file is empty and its content's stretch free; the file is neither in the index
-- nor in its parent's listing. Other files are in their slots, and what stood in other stretches
-- of its own stays there.
pub record IsRemoved (f : File) (entry : SegmentEntry) (a b : Archive) : Type 0 where
  pub on_disk : IsOnDisk b
  pub segment : FileTableSegment
  pub before : get_elem? a.file_segments entry.segment_index ≡ some segment
  pub after :
      b.file_segments
      ≡ set a.file_segments entry.segment_index (with_file segment entry.entry_index none)
  pub old : File
  pub slot : get_elem? segment.files entry.entry_index ≡ some (some old)
  pub same_id : old.id ≡ f.id
  pub coverage : b.coverage ≡ (mark_as_free (stretch f.content_addr f.content_len) a.coverage).1
  pub indexed : b.files ≡ remove f.id a.files
  pub content : DirContent
  pub listed : lookup f.parent_dir a.dirs_content ≡ some content
  pub listings :
      b.dirs_content
      ≡ insert f.parent_dir
          (record content {
            files = exclude f.id content.files;
            names = exclude f.name content.names;
          })
          a.dirs_content
  pub dirs : b.dirs ≡ a.dirs
  pub keeps :
      (p : ℕ) (bytes : List ℕ)
      → (0 < length bytes
          → 0 < f.content_len
          → stretch p (length bytes) ≡ stretch f.content_addr f.content_len
          → ⊥)
      → IsKept p bytes a
      → IsKept p bytes b
  pub files :
      (x : File)
      → (x.id ≡ f.id → ⊥)
      → InSlot (λ s. s.files) x a.file_segments
      → InSlot (λ s. s.files) x b.file_segments
  pub conf : b.conf ≡ a.conf
  pub next_id : b.next_id ≡ a.next_id

-- Let the stream hold an archive's header and segments, and let a file be found in a slot, in the
-- index and in its parent's listing, with a content that is clear of the header and the segments
-- unless it is empty. Then `remove_file` succeeds and answers the file. The stream again holds the
-- header and the segments, where the slot is empty and nothing else is changed, the coverage is the
-- one with the content's stretch freed, and the index and the listing are those without the file.
-- What stood in stretches of its own other than the content's stays there, and other files are
-- still in their slots.
pub remove_file-IsRemoved :
    (f : File) (entry : SegmentEntry) (a : Archive)
    → IsOnDisk a
    → MayRemoveFile f entry a
    → (b : Archive) × (remove_file f.id a ≡ (done f, b)) × IsRemoved f entry a b
unfolding remove_file free_content type_offset encoded_len
remove_file-IsRemoved f e a h may =
    let (o, found_o, good) =
      get_item_entry_lem a.file_segments (file f.id) (IsChain-IsLinked a.file_segments h.chain) in
    let same : o ≡ some e = some_inj (sym found_o ∙ may.found) in
    let fs = found-FileSpot f.id e a o h good same in
    let sp = fs.spot in
    let s' = with_file sp.segment e.entry_index none in
    let new = replicate file_entry_size 0 in
    let a1 = wrote new (moved e.entry_addr a) in
    let a2 : Archive = record a1 { file_segments = set a.file_segments e.segment_index s' } in
    let a3 = unlisted f may.content a2 in
    let zone = stretch f.content_addr f.content_len in
    let b : Archive = record a3 { coverage = (mark_as_free zone a.coverage).1 } in
    let in_row = (file_entry_offset_lem sp.segment e.entry_index sp.offset sp.offset_at).0 in
    let inside : e.entry_addr ≤ length a.source.content =
      omega (arith, sp.fits, sp.inside, sp.addr) in
    let place = ap (λ p. overwrite p new a.source.content) sp.addr in
    let kept : IsOnDisk a3 =
      with_file-IsOnDisk a a3 e.segment_index e.entry_index sp.base sp.offset new sp.segment h sp.at
        sp.here place refl none sp.offset_at tt refl refl in
    let clear : 0 < f.content_len → IsClear f.content_addr f.content_len a3 = λ h.
      IsClear-set f.content_addr f.content_len e.segment_index e.entry_index sp.segment a sp.at
        (may.clear h) in
    let len : encoded_len s' ≡ encoded_len sp.segment =
      omega (arith, length-set sp.segment.files e.entry_index none) in
    let to_a3 : Keeps a a3 =
      within-Keeps a a3 e.segment_index sp.base sp.offset new sp.segment sp.here sp.inside sp.fits
        place refl (zones-set sp.segment s' refl 256 a.file_segments e.segment_index len sp.at) in
    (
      b,
      rw
          (
            remove_file,
            ◌>>=◌,
            find_entry_lem f.id file_not_found e a may.found,
            write_at_lem e.entry_addr (some new) new a refl inside,
            file_at_lem e sp.segment fs.old a1 sp.at fs.slot,
            set_file_slot_lem e.segment_index e.entry_index none sp.segment a1 sp.at in_row,
            unlist_file_lem f may.content a2 may.indexed may.listed may.has_id may.has_name,
            free_content,
          )
          refl,
      record {
        on_disk = freed-IsOnDisk f.content_addr f.content_len a3 _ refl clear kept;
        segment = sp.segment;
        before = sp.at;
        after = refl;
        old = fs.old;
        slot = fs.slot;
        same_id = fs.old_id;
        coverage = refl;
        indexed = refl;
        content = may.content;
        listed = may.listed;
        listings = refl;
        dirs = refl;
        keeps = λ p bytes differ k. freed-IsKept zone a3 p bytes differ (to_a3 p bytes k);
        files = λ x differ i.
            InSlot-set (λ s. s.files) x a.file_segments e.segment_index sp.segment s' sp.at
              (slot-set_other (λ s. s.files) x sp.segment.files e.entry_index (some fs.old) none
                fs.slot
                (λ same. differ (sym (ap (λ (y : File). y.id) (some_inj same)) ∙ fs.old_id)))
              i;
        conf = refl;
        next_id = refl;
      },
    )

-- Let the stream hold an archive's header and segments, and let a file be found in a slot, in the
-- index and in its parent's listing, with a content that is clear of the header and the segments
-- unless it is empty. Then `remove_file` succeeds and answers the file. The stream again holds the
-- header and the segments, where the slot is empty and nothing else is changed, and the coverage is
-- the one with the content's stretch freed.
pub remove_file-IsOnDisk :
    (f : File) (entry : SegmentEntry) (a : Archive)
    → IsOnDisk a
    → MayRemoveFile f entry a
    → (b : Archive) × (segment : FileTableSegment) × (remove_file f.id a ≡ (done f, b))
      × IsOnDisk b
      × (get_elem? a.file_segments entry.segment_index ≡ some segment)
      × (b.file_segments
          ≡ set a.file_segments entry.segment_index (with_file segment entry.entry_index none))
      × (b.coverage ≡ (mark_as_free (stretch f.content_addr f.content_len) a.coverage).1)
remove_file-IsOnDisk f e a h may =
    let (b, run, is) = remove_file-IsRemoved f e a h may in
    (b, is.segment, run, is.on_disk, is.before, is.after, is.coverage)
