-- ===== src/Archive/Disk/FileSlot.antt =====
-- A slot in a longer stream, and what `store_file` does once it is found.
use baf.Base.{ℕ, ◌≤◌, ◌<◌, ◌≡◌, refl, ap, false, List, none, some, arith, length, get_elem?, set}
use baf.Base.Maps.{lookup, insert, member, nat_key, bytes_key}
use baf.Source.{Source}
use baf.Coverage.{Coverage}
use baf.Data.File
use baf.Data.File.{File, FileId}
use baf.Data.FtSegment.{FileTableSegment}
use baf.Source.Overwrite.{length-overwrite}
use baf.Data.FtSegment.InPlace.{with_file}
use baf.Health.{DirContent, dir_key}
use baf.Archive.{Archive, done, ◌>>=◌}
use baf.Archive.Slots.{SegmentEntry, ItemType}
use baf.Archive.Write.Copy.{wrote}
use baf.Archive.Write.Stored.{IsStored}
use baf.Archive.Create.{store_file}
use baf.Archive.Create.Steps.{
  moved, write_at_lem, with_listed_file, list_file_lem, set_file_slot_lem,
}
use baf.Archive.Disk.Spot.{Spot}

-- A slot is still where it is in a stream that is at least as long.
abbrev pub moved_spot :
    (type : ItemType) (e : SegmentEntry) (a : Archive) (source : Source) (coverage : Coverage)
    → length a.source.content ≤ length source.content
    → Spot type e a
    → Spot type e (record a { source = source; coverage = coverage })
moved_spot type e a source coverage longer sp = record {
  segment = sp.segment;
  base = sp.base;
  offset = sp.offset;
  at = sp.at;
  here = sp.here;
  offset_at = sp.offset_at;
  fits = sp.fits;
  inside = omega (arith, sp.inside, longer);
  addr = sp.addr;
}

pub IsStored-longer :
    (bytes : List ℕ) (a : Archive) (addr : ℕ) (b : Archive)
    → IsStored bytes a addr b
    → length a.source.content ≤ length b.source.content
IsStored-longer bytes a addr b st =
    omega (arith, ap length st.content, length-overwrite addr bytes a.source.content st.inside)

-- The archive after `store_file`, with the file's slot in segment `s`.
abbrev pub stored : SegmentEntry → File → DirContent → List ℕ → FileTableSegment → Archive → Archive
stored e f content new s a =
    let listed = with_listed_file f content (wrote new (moved e.entry_addr a)) in
    record listed {
      file_segments = set a.file_segments e.segment_index (with_file s e.entry_index (some f));
      files = insert f.id f a.files;
    }

module _ (e : SegmentEntry) (f : File) (content : DirContent) (new : List ℕ) (s : FileTableSegment)
    (a : Archive) (encoded : File.encode f ≡ some new)
    (inside : e.entry_addr ≤ length a.source.content)
    (listed : lookup f.parent_dir a.dirs_content ≡ some content)
    (fresh_name : member f.name content.names ≡ false)
    (fresh_id : member f.id content.files ≡ false) (not_indexed : lookup f.id a.files ≡ none)
    (at : get_elem? a.file_segments e.segment_index ≡ some s)
    (in_row : e.entry_index < length s.files) where
  pub store_file-stored : store_file e f a ≡ (done f.id, stored e f content new s a)
  unfolding store_file
  store_file-stored =
      let a1 = wrote new (moved e.entry_addr a) in
      let a2 = with_listed_file f content a1 in
      rw
        (
          store_file,
          ◌>>=◌,
          write_at_lem e.entry_addr (File.encode f) new a encoded inside,
          list_file_lem f content a1 listed fresh_name fresh_id,
          set_file_slot_lem e.segment_index e.entry_index (some f) s a2 at in_row,
          not_indexed,
        )
        refl
