-- ===== src/Archive/Disk/New.antt =====
-- What the stream of a new archive holds.
use baf.Base.{
  ℕ, ◌+◌, ◌^◌, ◌≤◌, ◌<◌, ◌≡◌, refl, ap, ◌∙◌, inl, inr, List, ◌++◌, arith, length, length-append,
  drop,
}
use baf.Source.{Source, overwrite}
use baf.Source.Window.{Holds}
use baf.Data.FtSegment.RoundTrip.{
  IsSegment, segment_bytes, length-segment_bytes, encode-segment_bytes,
}
use baf.Archive.{Archive, ArchiveConfig, done}
use baf.Archive.Write.{empty_segment}
use baf.Archive.Create.{create, first_segment}
use baf.Archive.Create.Fresh.{
  IsConfig, header_bytes, length_header, drop_header, new_archive, first_segment-IsSegment,
  create_lem, new_archive-IsTracked,
}
use baf.Archive.Open.Created.{created_content}
use baf.Archive.Disk.{IsOnDisk}

module _ (conf : ArchiveConfig) (content : List ℕ) (segment : IsSegment (first_segment conf)) where
  abbrev bytes : List ℕ
  bytes = segment_bytes (first_segment conf)

  abbrev whole : List ℕ
  whole = overwrite 0 (header_bytes ++ bytes) content

  abbrev after : List ℕ
  after = drop (0 + length (header_bytes ++ bytes)) content

  whole_lem : whole ≡ header_bytes ++ (bytes ++ after)
  whole_lem = created_content bytes content

  long : 256 + length bytes ≤ length whole
  long = rw whole_lem (
      omega (
        arith,
        length_header,
        length-append header_bytes (bytes ++ after),
        length-append bytes after,
      ))

  header_held : Holds whole 0 header_bytes
  header_held = (omega (arith, length_header, long), (bytes ++ after, whole_lem))

  segment_held : Holds whole 256 bytes
  segment_held = (long, (after, ap (drop 256) whole_lem ∙ drop_header (bytes ++ after)))

  pub new_archive-IsOnDisk : length content < 2 ^ 64 → IsOnDisk (new_archive conf bytes content)
  unfolding first_segment empty_segment
  new_archive-IsOnDisk bound = record {
    tracked =
        new_archive-IsTracked conf bytes content segment
          (length-segment_bytes (first_segment conf) segment) bound;
    header = header_held;
    chain = refl;
    segments = (segment, tt);
    written = (segment_held, tt);
    apart = ((inl (omega arith), tt), (tt, tt));
    used = (inl refl, (inr (inl refl), tt));
  }

-- Creating an archive on a stream of less than 2^64 bytes, with capacities that are 32-bit numbers,
-- succeeds. The stream then holds the header and the archive's one segment, in stretches that do
-- not overlap and that the coverage has in use; the coverage knows the stream's length, and its
-- segments are disjoint and within the stream.
pub create-IsOnDisk :
    (s : Source) (conf : ArchiveConfig)
    → IsConfig conf
    → length s.content < 2 ^ 64
    → (a : Archive) × (create s conf ≡ done a) × IsOnDisk a
create-IsOnDisk s conf h bound =
    let segment = first_segment-IsSegment conf h in
    let bytes = segment_bytes (first_segment conf) in
    (
      new_archive conf bytes s.content,
      create_lem s conf bytes (encode-segment_bytes (first_segment conf) segment),
      new_archive-IsOnDisk conf s.content segment bound,
    )
