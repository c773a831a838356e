-- ===== src/Archive/Disk/CreatedFile.antt =====
-- Creating a file, where a segment has a free slot and where none has.
use baf.Base.{
  ℕ, ◌+◌, ◌^◌, ◌<◌, ◌≡◌, sym, ap, subst, ◌∙◌, List, some, arith, length, get_elem?, set, All,
}
use baf.Base.Maps.{nat_key, bytes_key}
use baf.Bytes.{IsByte}
use baf.Data.Name.{ItemName}
use baf.Data.Timestamp.{Timestamp}
use baf.Data.Directory.{DirectoryIdOrRoot}
use baf.Data.File.{File}
use baf.Data.FtSegment.{FileTableSegment, encoded_len}
use baf.Data.FtSegment.InPlace.{with_file}
use baf.Health.{dir_key}
use baf.Archive.{Archive, done}
use baf.Archive.Slots.{SegmentEntry, file_type, last_free}
use baf.Archive.Create.{create_file}
use baf.Archive.Create.Steps.{get_addr_lem}
use baf.Archive.Disk.{IsOnDisk}
use baf.Archive.Disk.AddedFile.{MayAddFile, IsFiled, IsAddedFile, file_of, added_file}
use baf.Archive.Disk.Grown.{HasCapacity, new_segment}
use baf.Archive.Disk.Room.{HasRoom, free_room, get_addr_for_item_insert-HasRoom}
use baf.Archive.Write.{get_addr_for_item_insert}

-- A file may be added, a slot is free, and the stream with the data behind it ends below 2^64.
pub record MayCreateFile (parent : DirectoryIdOrRoot) (name : ItemName) (time : Timestamp)
    (bytes : List ℕ) (entry : SegmentEntry) (a : Archive) : Type 0 where
  pub may : MayAddFile parent name time a
  pub slot : last_free a.file_segments file_type 0 a.file_segments ≡ some (some entry)
  pub bound : length a.source.content + length bytes < 2 ^ 64

-- The slot that was found free has the file, and nothing else of the segments is changed.
pub record IsEntered (f : File) (entry : SegmentEntry) (a b : Archive) : Type 0 where
  pub segment : FileTableSegment
  pub before : get_elem? a.file_segments entry.segment_index ≡ some segment
  pub after :
      b.file_segments
      ≡ set a.file_segments entry.segment_index (with_file segment entry.entry_index (some f))

module _ (sha3_256 : List ℕ → List ℕ) (digest_size : (bs : List ℕ) → length (sha3_256 bs) ≡ 32)
    (digest_bytes : (bs : List ℕ) → All IsByte (sha3_256 bs)) where
  -- Let the stream hold an archive's header and segments. Let the parent be listed without the name,
  -- the next id be free and not the last one, the values be what their types allow, a segment have
  -- a free slot for a file, and the stream with the data behind it end below 2^64; the digests are
  -- of 32 bytes. Then `create_file` succeeds. The stream again holds the header and the segments,
  -- where the slot that was found free has the new file and nothing else is changed, and the data
  -- at the address that the file names. The file has the parent, the name and the time that were
  -- given, the data's length and digest, and the id that was next, which is the answer, and the
  -- index of files has it under that id.
  pub create_file-IsFiled :
      (parent : DirectoryIdOrRoot) (name : ItemName) (time : Timestamp) (bytes : List ℕ)
      (entry : SegmentEntry) (a : Archive)
      → IsOnDisk a
      → MayCreateFile parent name time bytes entry a
      → (b : Archive) × (f : File) × (create_file sha3_256 parent name time bytes a
          ≡ (done f.id, b))
        × (f ≡ file_of sha3_256 parent name time bytes f.content_addr a)
        × IsEntered f entry a b
        × IsFiled sha3_256 bytes f b
  create_file-IsFiled parent name time bytes e a h may =
      let (b, f, run, same, is, good) =
        added_file sha3_256 digest_size digest_bytes parent name time bytes e a a.source a.coverage
          a.file_segments may.may may.bound (get_addr_lem file_type e a may.slot)
          (free_room file_type e a h may.slot) in
      (b, f, run, same, record { segment = is.segment; before = is.before; after = is.after }, good)

  -- Let the stream hold an archive's header and segments. Let the parent be listed without the name,
  -- the next id be free and not the last one, the values be what their types allow, the capacities
  -- of new segments not be 0, and the stream with a new segment and the data behind it end below
  -- 2^64; the digests are of 32 bytes. Then `create_file` succeeds, whether a slot is free or a
  -- segment is made. The stream again holds the header and the segments, and the data at the
  -- address that the file names. The file has the parent, the name and the time that were given, the
  -- data's length and digest, and the id that was next, and the index of files has it under that id;
  -- the slot that `get_addr_for_item_insert`
  -- finds or makes was empty, and has it too. Nothing else of the segments is changed, what stood in
  -- stretches of its own stays there, and so does the data from now on.
  pub create_file-IsAddedFile :
      (parent : DirectoryIdOrRoot) (name : ItemName) (time : Timestamp) (bytes : List ℕ)
      (a : Archive)
      → IsOnDisk a
      → HasCapacity a.conf
      → length a.source.content + encoded_len (new_segment a.conf) + length bytes < 2 ^ 64
      → MayAddFile parent name time a
      → (b c : Archive) × (e : SegmentEntry) × (f : File) × (create_file sha3_256 parent name time
            bytes a
          ≡ (done f.id, b))
        × (f ≡ file_of sha3_256 parent name time bytes f.content_addr a)
        × (get_addr_for_item_insert file_type a ≡ (done e, c))
        × IsAddedFile bytes f e a c b
        × IsFiled sha3_256 bytes f b
  create_file-IsAddedFile parent name time bytes a h cap bound may =
      let (e, c, room, has) =
        get_addr_for_item_insert-HasRoom file_type a h cap (omega (arith, bound)) in
      let (b, f, run, same, is, good) =
        added_file sha3_256 digest_size digest_bytes parent name time bytes e a c.source c.coverage
          c.file_segments may (omega (arith, bound, has.len))
          (room ∙ ap (λ x. (done e, x)) has.rest) (subst (HasRoom file_type e a) has.rest has) in
      (
        b,
        c,
        e,
        f,
        run,
        same,
        room,
        subst (λ x. IsAddedFile bytes f e a x b) (sym has.rest) is,
        good,
      )
