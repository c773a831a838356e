-- ===== src/Archive/Disk/AddedFile.antt =====
-- The steps of `create_file` where there is room for an entry.
use baf.Base.{
  ℕ, ◌+◌, ◌^◌, ◌≤◌, ◌<◌, ◌≡◌, inl, inr, refl, sym, ap, subst, ◌∙◌, true, false, List, ◌∷◌, none,
  some, arith, length, length-set, get_elem?, set, ◌==◌, All,
}
use baf.Base.Maps.{lookup, insert, member, include, nat_key, bytes_key, lookup-insert}
use baf.Source.{Source, overwrite}
use baf.Coverage.{Coverage}
use baf.Source.Window.{Holds, Beside, Holds-overwrite}
use baf.Bytes.{IsByte}
use baf.Data.Name.{ItemName}
use baf.Data.Name.Valid.{IsItemName}
use baf.Data.Timestamp.{Timestamp}
use baf.Data.Directory.{DirectoryIdOrRoot}
use baf.Data.Directory.RoundTrip.{IsU64, IsId, IsParent}
use baf.Data.File.{File}
use baf.Data.File.RoundTrip as FileEntry
use baf.Data.File.RoundTrip.{IsFile}
use baf.Data.FtSegment.{FileTableSegment, encoded_len}
use baf.Data.FtSegment.InPlace.{with_file, file_entry_offset_lem}
use baf.Health.{DirContent, dir_key}
use baf.Archive.{Archive, done, ◌>>=◌}
use baf.Archive.Slots.{SegmentEntry, file_type, type_offset}
use baf.Archive.Write.{write_data_where_possible, get_addr_for_item_insert}
use baf.Archive.Write.Stored.{IsStored, write_data_where_possible_lem}
use baf.Archive.Create.{create_file, store_file, list_name}
use baf.Archive.Create.Steps.{ensure_lem, take_id_lem}
use baf.Archive.Disk.{IsOnDisk, IsKept, Keeps, header_zone, zones}
use baf.Archive.Disk.Data.{IsStored-IsOnDisk, Clear-Beside}
use baf.Archive.Disk.Slot.{zones-set}
use baf.Archive.Disk.Entry.{with_file-IsOnDisk}
use baf.Archive.Disk.Places.{IsAt, IsAtEither, IsAt-set}
use baf.Archive.Disk.Items.{InSlot, InSlot-set, InSlot-new, slot-set_other}
use baf.Archive.Disk.Kept.{IsKept-IsStored, IsStored-Keeps, within-Keeps}
use baf.Archive.Disk.Room.{HasRoom}
use baf.Archive.Disk.Created.{roomy}
use baf.Archive.Disk.FileSlot.{moved_spot, IsStored-longer, stored, store_file-stored}

-- The parent is listed and does not have the name, the next id is nowhere in use and not the last
-- one, and the values are what their types allow.
pub record MayAddFile (parent : DirectoryIdOrRoot) (name : ItemName) (time : Timestamp)
    (a : Archive) : Type 0 where
  pub content : DirContent
  pub listed : lookup parent a.dirs_content ≡ some content
  pub fresh_name : member name content.names ≡ false
  pub fresh_id : member a.next_id content.files ≡ false
  pub not_indexed : lookup a.next_id a.files ≡ none
  pub id_left : a.next_id + 1 < 2 ^ 64
  pub id : IsId a.next_id
  pub parent_dir : IsParent parent
  pub valid_name : IsItemName name
  pub modif_time : IsU64 time

-- What is known of the file and the archive after it is created.
pub record IsFiled (sha3_256 : List ℕ → List ℕ) (bytes : List ℕ) (f : File) (b : Archive)
    : Type 0 where
  pub on_disk : IsOnDisk b
  pub indexed : lookup f.id b.files ≡ some f
  pub held : Holds b.source.content f.content_addr bytes
  pub len : f.content_len ≡ length bytes
  pub checksum : f.sha3_checksum ≡ sha3_256 bytes

-- The slot of `c`, which had no item, has the file; nothing else of the segments is changed, what
-- stood in stretches of its own stays there, and the content stands in one.
pub record IsAddedFile (bytes : List ℕ) (f : File) (entry : SegmentEntry) (a c b : Archive)
    : Type 0 where
  pub segment : FileTableSegment
  pub before : get_elem? c.file_segments entry.segment_index ≡ some segment
  pub empty : get_elem? segment.files entry.entry_index ≡ some none
  pub after :
      b.file_segments
      ≡ set c.file_segments entry.segment_index (with_file segment entry.entry_index (some f))
  pub indexed : b.files ≡ insert f.id f a.files
  pub content : DirContent
  pub listed : lookup f.parent_dir a.dirs_content ≡ some content
  pub fresh_name : member f.name content.names ≡ false
  pub listings :
      b.dirs_content
      ≡ insert f.parent_dir
          (record (list_name f.name content) { files = include f.id content.files })
          a.dirs_content
  pub dirs : b.dirs ≡ a.dirs
  pub keeps : Keeps a b
  pub here : InSlot (λ s. s.files) f b.file_segments
  pub files :
      (x : File) → InSlot (λ s. s.files) x a.file_segments → InSlot (λ s. s.files) x b.file_segments
  pub were :
      (x : File) (i j : ℕ)
      → IsAt (λ s. s.files) b.file_segments i j x
      → IsAtEither
          (λ s. s.files)
          a.file_segments
          entry.segment_index
          entry.entry_index
          (some f)
          i
          j
          x
  pub kept : IsKept f.content_addr bytes b
  pub apart :
      (p : ℕ) (other : List ℕ)
      → IsKept p other a
      → 0 < length other
      → Beside p (length other) f.content_addr (length bytes)
  pub conf : b.conf ≡ a.conf
  pub next_id : b.next_id ≡ a.next_id + 1

-- The file that `create_file` makes, with its content at an address.
abbrev pub file_of :
    (List ℕ → List ℕ) → DirectoryIdOrRoot → ItemName → Timestamp → List ℕ → ℕ → Archive → File
file_of sha3_256 parent name time bytes addr a = record {
  id = a.next_id;
  parent_dir = parent;
  name = name;
  modif_time = time;
  content_addr = addr;
  content_len = length bytes;
  sha3_checksum = sha3_256 bytes;
}

module _ (sha3_256 : List ℕ → List ℕ) (digest_size : (bs : List ℕ) → length (sha3_256 bs) ≡ 32)
    (digest_bytes : (bs : List ℕ) → All IsByte (sha3_256 bs)) where
  abbrev pub with_data : Archive → Source → Coverage → Archive
  with_data a source coverage = record a { source = source; coverage = coverage }

  -- `store_file` once the data is written to an archive with room.
  filed :
      (parent : DirectoryIdOrRoot) (name : ItemName) (time : Timestamp) (bytes : List ℕ)
      (e : SegmentEntry) (a : Archive) (s1 : Source) (c1 : Coverage)
      (segments : List FileTableSegment) (addr : ℕ) (s2 : Source) (c2 : Coverage)
      → MayAddFile parent name time a
      → length s1.content + length bytes < 2 ^ 64
      → HasRoom file_type e a (roomy a s1 c1 segments)
      → IsStored bytes (roomy a s1 c1 segments) addr (roomy a s2 c2 segments)
      → (b : Archive) × (store_file e
            (file_of sha3_256 parent name time bytes addr a)
            (record (roomy a s2 c2 segments) { next_id = a.next_id + 1 })
          ≡ (done a.next_id, b))
        × IsAddedFile bytes
            (file_of sha3_256 parent name time bytes addr a)
            e
            a
            (roomy a s1 c1 segments)
            b
        × IsFiled sha3_256 bytes (file_of sha3_256 parent name time bytes addr a) b
  unfolding type_offset encoded_len
  filed parent name time bytes e a s1 c1 segments addr s2 c2 may bound has st =
      let f = file_of sha3_256 parent name time bytes addr a in
      let new = FileEntry.entry_of f in
      let r = roomy a s1 c1 segments in
      let c = roomy a s2 c2 segments in
      let d : Archive = record c { next_id = a.next_id + 1 } in
      let on_disk : IsOnDisk c = IsStored-IsOnDisk bytes r addr c has.on_disk st in
      let sp = moved_spot file_type e r s2 c2 (IsStored-longer bytes r addr c st) has.spot in
      let b = stored e f may.content new sp.segment d in
      let valid : IsFile f = record {
        id = may.id;
        parent_dir = may.parent_dir;
        name = may.valid_name;
        modif_time = may.modif_time;
        content_addr = omega (arith, st.inside, bound);
        content_len = omega (arith, bound);
        checksum_size = digest_size bytes;
        checksum_bytes = digest_bytes bytes;
      } in
      let encoded = FileEntry.encode-entry f valid in
      let (in_row, row_place) =
        file_entry_offset_lem sp.segment e.entry_index sp.offset sp.offset_at in
      let inside : e.entry_addr ≤ length s2.content = omega (arith, sp.fits, sp.inside, sp.addr) in
      let clear =
        Clear-Beside addr (length bytes) (header_zone ∷ zones 256 segments) c1.segments st.clear
          has.on_disk.used in
      let fits : sp.offset + length new ≤ encoded_len sp.segment =
        omega (arith, sp.fits, FileEntry.length-entry f valid) in
      let same_id : (a.next_id == a.next_id) ≡ true = ground arith in
      let place = ap (λ p. overwrite p new s2.content) sp.addr in
      let held : Holds s2.content addr bytes =
        subst (λ x. Holds x addr bytes) (sym st.content)
          (Holds-overwrite s1.content addr bytes st.inside) in
      let s' = with_file sp.segment e.entry_index (some f) in
      let len : encoded_len (with_file sp.segment e.entry_index (some f)) ≡ encoded_len sp.segment =
        omega (arith, length-set sp.segment.files e.entry_index (some f)) in
      let to_b : Keeps c b =
        within-Keeps c b e.segment_index sp.base sp.offset new sp.segment sp.here sp.inside fits
          place refl
          (zones-set sp.segment (with_file sp.segment e.entry_index (some f)) refl 256 segments
            e.segment_index len sp.at) in
      (
        b,
        store_file-stored e f may.content new sp.segment d encoded inside may.listed may.fresh_name
            may.fresh_id may.not_indexed sp.at in_row,
        record {
          segment = sp.segment;
          before = sp.at;
          empty = has.empty;
          after = refl;
          indexed = refl;
          content = may.content;
          listed = may.listed;
          fresh_name = may.fresh_name;
          listings = refl;
          dirs = refl;
          keeps = λ p kept k.
              to_b p kept (IsStored-Keeps bytes r addr c st p kept (has.keeps p kept k));
          apart = λ p other k. IsKept-IsStored bytes r addr c p other st (has.keeps p other k);
          kept = to_b addr bytes (record { held = held; used = st.adds; clear = λ h. clear });
          here =
              InSlot-new (λ s. s.files) f segments e.segment_index e.entry_index sp.segment s' none
                sp.at has.empty refl;
          files = λ x i.
              InSlot-set (λ s. s.files) x segments e.segment_index sp.segment s' sp.at
                (slot-set_other (λ s. s.files) x sp.segment.files e.entry_index none (some f)
                  has.empty (λ same. ground arith))
                (has.files x i);
          were = λ x i j at.
              elim (IsAt-set (λ s. s.files) x segments e.segment_index sp.segment s' sp.at i j
                e.entry_index (some f) refl at) [
                  | inl new_one ↦ inl new_one
                  | inr (differ, old_one) ↦ inr (differ, has.before x i j old_one)
                ];
          conf = refl;
          next_id = refl;
        },
        record {
          on_disk =
              with_file-IsOnDisk c b e.segment_index e.entry_index sp.base sp.offset new sp.segment
                on_disk sp.at sp.here place refl (some f) sp.offset_at valid encoded refl;
          indexed = lookup-insert a.next_id a.next_id f a.files ∙ rw same_id refl;
          held =
              (to_b addr bytes (record { held = held; used = st.adds; clear = λ h. clear })).held;
          len = refl;
          checksum = refl;
        },
      )

  -- `create_file` where there is room.
  pub added_file :
      (parent : DirectoryIdOrRoot) (name : ItemName) (time : Timestamp) (bytes : List ℕ)
      (e : SegmentEntry) (a : Archive) (source : Source) (coverage : Coverage)
      (segments : List FileTableSegment)
      → MayAddFile parent name time a
      → length source.content + length bytes < 2 ^ 64
      → get_addr_for_item_insert file_type a ≡ (done e, roomy a source coverage segments)
      → HasRoom file_type e a (roomy a source coverage segments)
      → (b : Archive) × (f : File) × (create_file sha3_256 parent name time bytes a
          ≡ (done f.id, b))
        × (f ≡ file_of sha3_256 parent name time bytes f.content_addr a)
        × IsAddedFile bytes f e a (roomy a source coverage segments) b
        × IsFiled sha3_256 bytes f b
  unfolding create_file
  added_file parent name time bytes e a source coverage segments may bound room has =
      let r = roomy a source coverage segments in
      let (addr, c, wrote_data, st) =
        write_data_where_possible_lem bytes r has.on_disk.tracked bound in
      let c' = roomy a c.source c.coverage segments in
      let wrote_data' : write_data_where_possible bytes r ≡ (done (addr, bytes), c') =
        wrote_data ∙ ap (λ x. (done (addr, bytes), x)) st.rest in
      let (b, run, entered, good) =
        filed parent name time bytes e a source coverage segments addr c.source c.coverage may bound
          has (subst (IsStored bytes r addr) st.rest st) in
      (
        b,
        file_of sha3_256 parent name time bytes addr a,
        rw
            (
              create_file,
              ◌>>=◌,
              ensure_lem name parent may.content a may.listed may.fresh_name,
              room,
              wrote_data',
              take_id_lem c' may.id_left,
              run,
            )
            refl,
        refl,
        entered,
        good,
      )
