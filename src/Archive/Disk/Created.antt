-- ===== src/Archive/Disk/Created.antt =====
-- Creating a directory, where a segment has a free slot and where none has.
use baf.Base.{
  ℕ, ◌+◌, ◌^◌, sym, subst, length-set, ◌≤◌, ◌<◌, ◌≡◌, refl, ap, ◌∙◌, true, false, List, none, some,
  arith, length, get_elem?, set, ◌==◌,
}
use baf.Base.Maps.{lookup, insert, member, include, nat_key, bytes_key, lookup-insert}
use baf.Source.{Source, overwrite}
use baf.Data.Name.{ItemName}
use baf.Data.Timestamp.{Timestamp}
use baf.Data.Directory
use baf.Data.Directory.{Directory, DirectoryId, DirectoryIdOrRoot, non_root}
use baf.Data.Directory.RoundTrip as DirectoryEntry
use baf.Data.Directory.RoundTrip.{IsDirectory}
use baf.Data.FtSegment.{FileTableSegment, encoded_len}
use baf.Data.FtSegment.InPlace.{with_dir, dir_entry_offset_lem}
use baf.Health.{DirContent, no_content, dir_key}
use baf.Archive.{Archive, done, ◌>>=◌}
use baf.Archive.Slots.{SegmentEntry, dir_type, last_free, type_offset}
use baf.Archive.Write.Copy.{wrote}
use baf.Archive.Create.{create_dir, store_dir, list_name}
use baf.Archive.Create.Steps.{
  ensure_lem, get_addr_lem, take_id_lem, moved, write_at_lem, with_listed, list_dir_lem,
  set_dir_slot_lem,
}
use baf.Archive.Disk.{IsOnDisk, Keeps}
use baf.Archive.Disk.Slot.{zones-set}
use baf.Archive.Disk.Places.{IsAt, IsAt-set_row}
use baf.Archive.Disk.Items.{InSlot, InSlot-set, InSlot-new, slot-set_other}
use baf.Data.File.{File}
use baf.Archive.Disk.Kept.{within-Keeps}
use baf.Archive.Disk.Grown.{HasCapacity, new_segment}
use baf.Archive.Disk.Room.{HasRoom, free_room, get_addr_for_item_insert-HasRoom}
use baf.Archive.Write.{get_addr_for_item_insert}
use baf.Coverage.{Coverage}
use baf.Archive.Disk.Entry.{with_dir-IsOnDisk}

-- The directory that `create_dir` makes.
abbrev pub new_dir : DirectoryIdOrRoot → ItemName → Timestamp → Archive → Directory
new_dir parent name time a = record {
  id = a.next_id;
  parent_dir = parent;
  name = name;
  modif_time = time;
}

-- The parent is listed and does not have the name, the next id is nowhere in use and not the last
-- one, and the values are what their types allow.
pub record MayAddDir (parent : DirectoryIdOrRoot) (name : ItemName) (time : Timestamp) (a : Archive)
    : Type 0 where
  pub content : DirContent
  pub listed : lookup parent a.dirs_content ≡ some content
  pub fresh_name : member name content.names ≡ false
  pub fresh_id : member a.next_id content.dirs ≡ false
  pub not_indexed : lookup a.next_id a.dirs ≡ none
  pub id_left : a.next_id + 1 < 2 ^ 64
  pub valid : IsDirectory (new_dir parent name time a)

-- The same, and a slot is free.
pub record MayCreateDir (parent : DirectoryIdOrRoot) (name : ItemName) (time : Timestamp)
    (entry : SegmentEntry) (a : Archive) : Type 0 where
  pub may : MayAddDir parent name time a
  pub slot : last_free a.file_segments dir_type 0 a.file_segments ≡ some (some entry)

-- The archive after `store_dir`, with the directory's slot in segment `s`.
abbrev stored :
    SegmentEntry → Directory → DirContent → List ℕ → FileTableSegment → Archive → Archive
stored e dir content new s a =
    let listed = with_listed dir content (wrote new (moved e.entry_addr a)) in
    record listed {
      dirs_content = insert (non_root dir.id) no_content listed.dirs_content;
      file_segments = set a.file_segments e.segment_index (with_dir s e.entry_index (some dir));
      dirs = insert dir.id dir a.dirs;
    }

module _ (e : SegmentEntry) (dir : Directory) (content : DirContent) (new : List ℕ)
    (s : FileTableSegment) (a : Archive) (encoded : Directory.encode dir ≡ some new)
    (inside : e.entry_addr ≤ length a.source.content)
    (listed : lookup dir.parent_dir a.dirs_content ≡ some content)
    (fresh_name : member dir.name content.names ≡ false)
    (fresh_id : member dir.id content.dirs ≡ false) (not_indexed : lookup dir.id a.dirs ≡ none)
    (at : get_elem? a.file_segments e.segment_index ≡ some s)
    (in_row : e.entry_index < length s.dirs) where
  store_dir-stored : store_dir e dir a ≡ (done dir.id, stored e dir content new s a)
  unfolding store_dir
  store_dir-stored =
      let a1 = wrote new (moved e.entry_addr a) in
      let a2 = with_listed dir content a1 in
      let a3 : Archive = record a2 {
        dirs_content = insert (non_root dir.id) no_content a2.dirs_content;
      } in
      rw
        (
          store_dir,
          ◌>>=◌,
          write_at_lem e.entry_addr (Directory.encode dir) new a encoded inside,
          list_dir_lem dir content a1 listed fresh_name fresh_id,
          set_dir_slot_lem e.segment_index e.entry_index (some dir) s a3 at in_row,
          not_indexed,
        )
        refl

-- The directory is in the slot of `c`, which had no item, and in the index; nothing else of the
-- segments is changed, and what stood in stretches of its own stays there.
pub record IsAdded (dir : Directory) (entry : SegmentEntry) (a c b : Archive) : Type 0 where
  pub on_disk : IsOnDisk b
  pub segment : FileTableSegment
  pub before : get_elem? c.file_segments entry.segment_index ≡ some segment
  pub empty : get_elem? segment.dirs entry.entry_index ≡ some none
  pub after :
      b.file_segments
      ≡ set c.file_segments entry.segment_index (with_dir segment entry.entry_index (some dir))
  pub indexed : b.dirs ≡ insert dir.id dir a.dirs
  pub content : DirContent
  pub listed : lookup dir.parent_dir a.dirs_content ≡ some content
  pub listings :
      b.dirs_content
      ≡ insert (non_root dir.id) no_content (
          insert dir.parent_dir
            (record (list_name dir.name content) { dirs = include dir.id content.dirs })
            a.dirs_content)
  pub keeps : Keeps a b
  pub here : InSlot (λ s. s.dirs) dir b.file_segments
  pub dirs :
      (x : Directory)
      → InSlot (λ s. s.dirs) x a.file_segments
      → InSlot (λ s. s.dirs) x b.file_segments
  pub files :
      (x : File) → InSlot (λ s. s.files) x a.file_segments → InSlot (λ s. s.files) x b.file_segments
  pub were :
      (x : File) (i j : ℕ)
      → IsAt (λ s. s.files) b.file_segments i j x
      → IsAt (λ s. s.files) a.file_segments i j x
  pub rest : b ≡ record a {
    source = b.source;
    coverage = c.coverage;
    file_segments = b.file_segments;
    dirs_content = b.dirs_content;
    dirs = b.dirs;
    next_id = a.next_id + 1;
  }

-- An archive with room made in it.
abbrev pub roomy : Archive → Source → Coverage → List FileTableSegment → Archive
roomy a source coverage segments = record a {
  source = source;
  coverage = coverage;
  file_segments = segments;
}

-- `create_dir` where there is room.
added :
    (parent : DirectoryIdOrRoot) (name : ItemName) (time : Timestamp) (e : SegmentEntry)
    (a : Archive) (source : Source) (coverage : Coverage) (segments : List FileTableSegment)
    → MayAddDir parent name time a
    → get_addr_for_item_insert dir_type a ≡ (done e, roomy a source coverage segments)
    → HasRoom dir_type e a (roomy a source coverage segments)
    → (b : Archive) × (create_dir parent name time a ≡ (done a.next_id, b))
      × IsAdded (new_dir parent name time a) e a (roomy a source coverage segments) b
unfolding create_dir type_offset encoded_len
added parent name time e a source coverage segments may room has =
    let c = roomy a source coverage segments in
    let dir = new_dir parent name time a in
    let new = DirectoryEntry.entry_of dir in
    let sp = has.spot in
    let c' : Archive = record c { next_id = a.next_id + 1 } in
    let b = stored e dir may.content new sp.segment c' in
    let encoded = DirectoryEntry.encode-entry dir may.valid in
    let in_row = (dir_entry_offset_lem sp.segment e.entry_index sp.offset sp.offset_at).0 in
    let place = ap (λ p. overwrite p new source.content) sp.addr in
    let s' = with_dir sp.segment e.entry_index (some dir) in
    let len : encoded_len (with_dir sp.segment e.entry_index (some dir)) ≡ encoded_len sp.segment =
      omega (arith, length-set sp.segment.dirs e.entry_index (some dir)) in
    let to_b : Keeps c b =
      within-Keeps c b e.segment_index sp.base sp.offset new sp.segment sp.here sp.inside
        (omega (arith, sp.fits, DirectoryEntry.length-entry dir may.valid)) place refl
        (zones-set sp.segment (with_dir sp.segment e.entry_index (some dir)) refl 256 segments
          e.segment_index len sp.at) in
    (
      b,
      rw
          (
            create_dir,
            ◌>>=◌,
            ensure_lem name parent may.content a may.listed may.fresh_name,
            room,
            take_id_lem c may.id_left,
            store_dir-stored e dir may.content new sp.segment c' encoded
                (omega (arith, sp.fits, sp.inside, sp.addr)) may.listed may.fresh_name may.fresh_id
                may.not_indexed sp.at in_row,
          )
          refl,
      record {
        on_disk =
            with_dir-IsOnDisk c b e.segment_index e.entry_index sp.base sp.offset new sp.segment
              has.on_disk sp.at sp.here place refl (some dir) sp.offset_at may.valid encoded refl;
        segment = sp.segment;
        before = sp.at;
        empty = has.empty;
        after = refl;
        indexed = refl;
        content = may.content;
        listed = may.listed;
        listings = refl;
        keeps = λ p bytes k. to_b p bytes (has.keeps p bytes k);
        here =
            InSlot-new (λ s. s.dirs) dir segments e.segment_index e.entry_index sp.segment s' none
              sp.at has.empty refl;
        dirs = λ x i.
            InSlot-set (λ s. s.dirs) x segments e.segment_index sp.segment s' sp.at
              (slot-set_other (λ s. s.dirs) x sp.segment.dirs e.entry_index none (some dir)
                has.empty (λ same. ground arith))
              (has.dirs x i);
        files = λ x i.
            InSlot-set (λ s. s.files) x segments e.segment_index sp.segment s' sp.at
              (λ j slot. slot) (has.files x i);
        were = λ x i j at. has.before x i j (
            IsAt-set_row (λ s. s.files) x segments e.segment_index sp.segment s' sp.at i j refl at);
        rest = refl;
      },
    )

-- Let the stream hold an archive's header and segments. Let the parent be listed without the name,
-- the next id be free and not the last one, the values be what their types allow, and a segment
-- have a free slot for a directory. Then `create_dir` succeeds and answers the next id. The stream
-- again holds the header and the segments, where the slot that was found free has the new
-- directory and nothing else is changed, and the index of directories has it under its id.
pub create_dir-IsOnDisk :
    (parent : DirectoryIdOrRoot) (name : ItemName) (time : Timestamp) (entry : SegmentEntry)
    (a : Archive)
    → IsOnDisk a
    → MayCreateDir parent name time entry a
    → (b : Archive) × (segment : FileTableSegment) × (create_dir parent name time a
        ≡ (done a.next_id, b))
      × IsOnDisk b
      × (get_elem? a.file_segments entry.segment_index ≡ some segment)
      × (b.file_segments
          ≡ set a.file_segments entry.segment_index
              (with_dir segment entry.entry_index (some (new_dir parent name time a))))
      × (lookup a.next_id b.dirs ≡ some (new_dir parent name time a))
create_dir-IsOnDisk parent name time e a h may =
    let dir = new_dir parent name time a in
    let (b, run, is) =
      added parent name time e a a.source a.coverage a.file_segments may.may
        (get_addr_lem dir_type e a may.slot) (free_room dir_type e a h may.slot) in
    let same_id : (a.next_id == a.next_id) ≡ true = ground arith in
    (
      b,
      is.segment,
      run,
      is.on_disk,
      is.before,
      is.after,
      ap (lookup a.next_id) is.indexed
          ∙ (lookup-insert a.next_id a.next_id dir a.dirs ∙ rw same_id refl),
    )

-- Let the stream hold an archive's header and segments. Let the parent be listed without the name,
-- the next id be free and not the last one, the values be what their types allow, the capacities
-- of new segments not be 0, and the stream with a new segment behind it end below 2^64. Then
-- `create_dir` succeeds and answers the next id, whether a slot is free or a segment is made. The
-- stream again holds the header and the segments; the slot that `get_addr_for_item_insert` finds
-- or makes was empty, and has the new directory, which the index has under its id. Nothing else of
-- the segments is changed, and what stood in stretches of its own stays there.
pub create_dir-IsAdded :
    (parent : DirectoryIdOrRoot) (name : ItemName) (time : Timestamp) (a : Archive)
    → IsOnDisk a
    → HasCapacity a.conf
    → length a.source.content + encoded_len (new_segment a.conf) < 2 ^ 64
    → MayAddDir parent name time a
    → (b c : Archive) × (e : SegmentEntry) × (create_dir parent name time a ≡ (done a.next_id, b))
      × (get_addr_for_item_insert dir_type a ≡ (done e, c))
      × IsAdded (new_dir parent name time a) e a c b
create_dir-IsAdded parent name time a h cap bound may =
    let (e, c, room, has) = get_addr_for_item_insert-HasRoom dir_type a h cap bound in
    let (b, run, is) =
      added parent name time e a c.source c.coverage c.file_segments may
        (room ∙ ap (λ x. (done e, x)) has.rest) (subst (HasRoom dir_type e a) has.rest has) in
    (
      b,
      c,
      e,
      run,
      room,
      subst (λ x. IsAdded (new_dir parent name time a) e a x b) (sym has.rest) is,
    )
