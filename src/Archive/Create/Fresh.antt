-- ===== src/Archive/Create/Fresh.antt =====
-- What creating an archive writes, and the coverage that it computes.
use baf.Base.{
  drop, drop-append, ℕ, zero, suc, ◌+◌, ◌^◌, ◌≤◌, ◌<◌, ◌≡◌, refl, ap, List, [], ◌∷◌, ◌++◌, Option,
  none, some, ok, arith, All-replicate, length, replicate, length-replicate, length-append,
}
use baf.Bytes.{to_le_bytes}
use baf.Source.{Source, overwrite, set_position, seek_len, position}
use baf.Source.Overwrite.{length-overwrite}
use baf.Data.Header
use baf.Data.Header.{Header, header_size}
use baf.Data.Directory.{Directory, root}
use baf.Data.File.{File}
use baf.Data.Directory.RoundTrip.{IsDirectory}
use baf.Data.File.RoundTrip.{IsFile}
use baf.Data.FtSegment
use baf.Data.FtSegment.{FileTableSegment, encoded_len, consume_next_segment}
use baf.Data.FtSegment.RoundTrip.{IsSegment, Slot, decode-encode_segment}
use baf.Coverage
use baf.Coverage.{Coverage, Segment, mark_as_used, fits_prev, fits_next, is_less, is_equal}
use baf.Coverage.Zones.{IsSound}
use baf.Health.{
  no_content, filled, all_dirs, all_files, each, verdict, check_file_table_correctness,
}
use baf.Archive.{Archive, ArchiveConfig, done, ◌>>=◌}
use baf.Archive.Write.{empty_segment}
use baf.Archive.Write.Copy.{wrote, wrote-Inside, Inside, write_all-wrote, wrote-wrote}
use baf.Archive.Write.Stored.{IsTracked}
use baf.Archive.Create.{
  create, first_segment, or_default, compute_coverage, mark_segments, mark_files,
}

abbrev IsCapacity : Option ℕ → Type 0
IsCapacity none = Unit {0}
IsCapacity (some n) = n < 2 ^ 32

-- What the type of a configuration allows.
pub record IsConfig (conf : ArchiveConfig) : Type 0 where
  pub default_dirs : conf.default_dirs_capacity_by_ft_segment < 2 ^ 32
  pub default_files : conf.default_files_capacity_by_ft_segment < 2 ^ 32
  pub first_dirs : IsCapacity conf.first_segment_dirs_capacity_override
  pub first_files : IsCapacity conf.first_segment_files_capacity_override

or_default-bound : (o : Option ℕ) (d : ℕ) → IsCapacity o → d < 2 ^ 32 → or_default o d < 2 ^ 32
or_default-bound none d h k = k
or_default-bound (some n) d h k = h

pub filled-replicate : {A : Type 0} (n : ℕ) → filled {A = A} (replicate n none) ≡ []
unfolding filled
filled-replicate zero = refl
filled-replicate (suc n) = filled-replicate n

-- The coverage of an archive with one segment and no file.
abbrev pub two : ℕ → FileTableSegment → Coverage
two len segment = record {
  len = len;
  segments =
      record { start = 0; len = 256 } ∷ record { start = 256; len = encoded_len segment } ∷ [];
}

mark_second :
    (len l : ℕ)
    → 0 < l
    → mark_as_used 256 l (record { len = len; segments = record { start = 0; len = 256 } ∷ [] })
      ≡ some (record {
        len = len;
        segments = record { start = 0; len = 256 } ∷ record { start = 256; len = l } ∷ [];
      })
unfolding mark_as_used fits_prev fits_next Coverage.insert is_less is_equal
mark_second len l h = ground arith

mark_first :
    (len : ℕ)
    → mark_as_used 0 header_size (Coverage.new len)
      ≡ some (record { len = len; segments = record { start = 0; len = 256 } ∷ [] })
unfolding mark_as_used fits_prev fits_next Coverage.insert Coverage.new
mark_first len = refl

module _ (d f : ℕ) (hd : d < 2 ^ 32) (hf : f < 2 ^ 32) where
  pub empty_segment-IsSegment : IsSegment (empty_segment d f)
  unfolding empty_segment
  empty_segment-IsSegment = record {
    next_segment_addr = tt;
    dirs_count = rw (length-replicate {A = Option Directory} d none) hd;
    files_count = rw (length-replicate {A = Option File} f none) hf;
    dirs = All-replicate (Slot IsDirectory) d none tt;
    files = All-replicate (Slot IsFile) f none tt;
  }

coverage_lem :
    (d f len : ℕ)
    → compute_coverage ((256, empty_segment d f) ∷ []) len ≡ some (two len (empty_segment d f))
unfolding compute_coverage mark_segments mark_files
coverage_lem d f len =
    let some_len : 0 < encoded_len (empty_segment d f) = unfold encoded_len in omega arith in
    let no_file : filled (empty_segment d f).files ≡ [] =
      unfold empty_segment in filled-replicate f in
    rw (mark_first len, compute_coverage, mark_second len _ some_len, mark_segments, no_file) refl

pub check_lem :
    (d f : ℕ) → check_file_table_correctness (empty_segment d f ∷ []) ≡ ok ((root, no_content) ∷ [])
unfolding check_file_table_correctness empty_segment all_dirs all_files each verdict
check_lem d f = rw (filled-replicate {A = Directory} d, filled-replicate {A = File} f) refl

abbrev pub header_bytes : List ℕ
header_bytes = Header.encode Header.default

-- The archive that `create` makes of a stream with the given content.
abbrev pub new_archive : ArchiveConfig → List ℕ → List ℕ → Archive
new_archive conf bytes content =
    let content' = overwrite 0 (header_bytes ++ bytes) content in
    record {
      conf = conf;
      source = record { content = content'; pos = 0 + length (header_bytes ++ bytes) };
      header = Header.default;
      file_segments = first_segment conf ∷ [];
      dirs = [];
      files = [];
      dirs_content = (root, no_content) ∷ [];
      coverage = two (length content') (first_segment conf);
      next_id = 1;
    }

abbrev blank : ArchiveConfig → List ℕ → Archive
blank conf content = record (new_archive conf [] content) {
  source = record { content = content; pos = 0 };
  coverage = Coverage.new 0;
}

pub first_segment-IsSegment :
    (conf : ArchiveConfig) → IsConfig conf → IsSegment (first_segment conf)
first_segment-IsSegment conf h =
    unfold first_segment in
    empty_segment-IsSegment _ _ (or_default-bound _ _ h.first_dirs h.default_dirs)
      (or_default-bound _ _ h.first_files h.default_files)

pub first_coverage :
    (conf : ArchiveConfig) (len : ℕ)
    → compute_coverage ((256, first_segment conf) ∷ []) len ≡ some (two len (first_segment conf))
first_coverage conf len = unfold first_segment in coverage_lem _ _ len

pub create_lem :
    (s : Source) (conf : ArchiveConfig) (bytes : List ℕ)
    → FtSegment.encode (first_segment conf) ≡ some bytes
    → create s conf ≡ done (new_archive conf bytes s.content)
unfolding create set_position seek_len position
create_lem s conf bytes e =
    let a = blank conf s.content in
    let inside : Inside (wrote header_bytes a) = wrote-Inside header_bytes a (omega arith) in
    rw
      (
        create,
        ◌>>=◌,
        write_all-wrote header_bytes a (omega arith),
        e,
        write_all-wrote bytes (wrote header_bytes a) inside,
        wrote-wrote header_bytes bytes a (omega arith),
        first_coverage conf (length (wrote bytes (wrote header_bytes a)).source.content),
      )
      (ap
        (λ (b : Archive). done (record (new_archive conf bytes s.content) {
          coverage = two (length b.source.content) (first_segment conf);
        }))
        (wrote-wrote header_bytes bytes a (omega arith)))

pub length_header : length header_bytes ≡ 256
unfolding Header.encode Header.encode_version Header.version_number Header.default to_le_bytes
length_header = refl

pub drop_header : (rest : List ℕ) → drop 256 (header_bytes ++ rest) ≡ rest
drop_header rest = rw length_header at (drop-append header_bytes rest)

encoded_len-small :
    (segment : FileTableSegment) → IsSegment segment → 256 + encoded_len segment < 2 ^ 64
unfolding encoded_len
encoded_len-small segment h = omega (arith, h.dirs_count, h.files_count)

two-IsSound :
    (len : ℕ) (segment : FileTableSegment)
    → IsSegment segment
    → len < 2 ^ 64
    → 256 + encoded_len segment ≤ len
    → IsSound (two len segment)
unfolding encoded_len
two-IsSound len segment h bound inside = record {
  chain = (
    omega arith,
    omega arith,
    omega arith,
    (omega arith, omega arith, omega (arith, inside, bound), tt),
  );
  within = (omega arith, (inside, tt));
  len = bound;
}

pub new_archive-IsTracked :
    (conf : ArchiveConfig) (bytes content : List ℕ)
    → IsSegment (first_segment conf)
    → length bytes ≡ encoded_len (first_segment conf)
    → length content < 2 ^ 64
    → IsTracked (new_archive conf bytes content)
new_archive-IsTracked conf bytes content segment len bound =
    let size = length-overwrite 0 (header_bytes ++ bytes) content (omega arith) in
    let both : length (header_bytes ++ bytes) ≡ 256 + encoded_len (first_segment conf) =
      omega (arith, length-append header_bytes bytes, length_header, len) in
    record {
      sound =
          two-IsSound _ (first_segment conf) segment
            (omega (arith, size, both, encoded_len-small (first_segment conf) segment, bound))
            (omega (arith, size, both));
      len = refl;
    }

-- Creating an archive on a stream of less than 2^64 bytes, with capacities that are 32-bit numbers,
-- succeeds; the archive's coverage knows the stream's length, and the segments of the coverage are
-- disjoint and within the stream.
pub create-IsTracked :
    (s : Source) (conf : ArchiveConfig)
    → IsConfig conf
    → length s.content < 2 ^ 64
    → (a : Archive) × (create s conf ≡ done a) × IsTracked a
create-IsTracked s conf h bound =
    let segment = first_segment-IsSegment conf h in
    let (bytes, e, len, reads) = decode-encode_segment (first_segment conf) segment in
    (
      new_archive conf bytes s.content,
      create_lem s conf bytes e,
      new_archive-IsTracked conf bytes s.content segment len bound,
    )
