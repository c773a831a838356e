-- ===== src/Archive/Open.antt =====
-- crate-lib/src/archive.rs: opening an archive. The segments are followed by their addresses;
-- the fuel bounds their number, and `none` is where it runs out, as it does on a chain that comes
-- back to itself, which the source follows for ever.
pub mod Created
pub mod Cycle
pub mod NextId
use baf.Base.{
  ℕ, zero, suc, ◌+◌, ◌^◌, List, [], ◌∷◌, Option, none, some, Result, ok, err, ltb, leb,
  if◌then◌else◌,
}
use baf.Base.Maps.{Map, insert, nat_key}
use baf.Source
use baf.Source.{Source, IoError, seek_len}
use baf.Data.Header
use baf.Data.Header.{HeaderDecodingError, header_size}
use baf.Data.Directory.{Directory, DirectoryId}
use baf.Data.File.{File, FileId}
use baf.Data.FtSegment
use baf.Data.FtSegment.{FileTableSegment, FileTableSegmentDecodingError, consume_next_segment}
use baf.Health.{FileTableCorrectnessError, all_dirs, all_files, check_file_table_correctness}
use baf.Archive.{Archive, ArchiveConfig}
use baf.Archive.Create.{compute_coverage}

pub data ArchiveMetadataDecodingError : Type 0 where
  io_error : IoError → ArchiveMetadataDecodingError
  invalid_header : HeaderDecodingError → ArchiveMetadataDecodingError
  invalid_file_table_segment : FileTableSegmentDecodingError → ArchiveMetadataDecodingError
  file_table_correctness_error : List FileTableCorrectnessError → ArchiveMetadataDecodingError

pub data Opened : Type 0 where
  opened : Archive → Opened
  refused : ArchiveMetadataDecodingError → Opened
  panicked out_of_fuel : Opened

-- The `while let` loop: the segments with their addresses, `prev` at `addr` and those after it.
abbrev pub Chained : Type 0
Chained = Option (Result FileTableSegmentDecodingError (List (ℕ × FileTableSegment) × Source))

unfoldable pub follow : ℕ → ℕ → FileTableSegment → Source → Chained
follow zero addr prev s = none
follow (suc fuel) addr prev s = elim (consume_next_segment prev) [
  | none ↦ some (ok ((addr, prev) ∷ [], s))
  | some read ↦ elim (read s) [
    | err e ↦ some (err e)
    | ok r ↦ elim (follow fuel r.0.0 r.0.1 r.1) [
      | none ↦ none
      | some (err e) ↦ some (err e)
      | some (ok rest) ↦ some (ok ((addr, prev) ∷ rest.0, rest.1))
    ]
  ]
]

abbrev pub segments_of : List (ℕ × FileTableSegment) → List FileTableSegment
segments_of [] = []
segments_of ((addr, segment) ∷ rest) = segment ∷ segments_of rest

-- `collect::<HashMap<_, _>>()`: of two with one id the later stays.
unfoldable pub dirs_by_id : List Directory → Map DirectoryId Directory → Map DirectoryId Directory
dirs_by_id [] m = m
dirs_by_id (dir ∷ rest) m = dirs_by_id rest (insert dir.id dir m)

unfoldable pub files_by_id : List File → Map FileId File → Map FileId File
files_by_id [] m = m
files_by_id (f ∷ rest) m = files_by_id rest (insert f.id f m)

unfoldable pub max_key : {V : Type 0} → Map ℕ V → ℕ → ℕ
max_key [] n = n
max_key ((k, v) ∷ m) n = max_key m (if leb n k then k else n)

-- With no item the next id is 1; else one more than the greatest, which must not wrap.
unfoldable pub next_id_after : ℕ → Option ℕ
next_id_after max_id = if ltb (max_id + 1) (2 ^ 64) then some (max_id + 1) else none

unfoldable pub load : ArchiveConfig → Header.Header → List (ℕ × FileTableSegment) → Source → Opened
load conf header chain s =
    let segments = segments_of chain in
    let dirs = dirs_by_id (all_dirs segments) [] in
    let files = files_by_id (all_files segments) [] in
    elim (seek_len s) [
      | err e ↦ refused (io_error e)
      | ok r ↦ elim (compute_coverage chain r.0) [
        | none ↦ panicked
        | some coverage ↦ elim (check_file_table_correctness segments) [
          | err errors ↦ refused (file_table_correctness_error errors)
          | ok dirs_content ↦ elim (next_id_after (max_key files (max_key dirs 0))) [
            | none ↦ panicked
            | some next_id ↦ opened (record {
              conf = conf;
              source = r.1;
              header = header;
              file_segments = segments;
              dirs = dirs;
              files = files;
              dirs_content = dirs_content;
              coverage = coverage;
              next_id = next_id;
            })
          ]
        ]
      ]
    ]

unfoldable pub open_archive : ℕ → List ℕ → ArchiveConfig → Opened
open_archive fuel bytes conf = elim (Header.decode (Source.new bytes)) [
  | err e ↦ refused (invalid_header e)
  | ok h ↦ elim (FtSegment.decode h.1) [
    | err e ↦ refused (invalid_file_table_segment e)
    | ok first ↦ elim (follow fuel header_size first.0 first.1) [
      | none ↦ out_of_fuel
      | some (err e) ↦ refused (invalid_file_table_segment e)
      | some (ok chain) ↦ load conf h.0 chain.0 chain.1
    ]
  ]
]
