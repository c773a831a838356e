-- ===== src/Archive/Open/Created.antt =====
-- Opening an archive that was just created.
use baf.Base.{
  ℕ, suc, ◌+◌, ◌≡◌, refl, sym, ap, subst, ◌∙◌, List, [], ◌∷◌, ◌++◌, append_assoc, some, ok, arith,
  length, length-append, drop,
}
use baf.Source
use baf.Source.{Source, overwrite, set_position, write_all, seek_len, position, remaining, skip}
use baf.Source.Reads.{Reads}
use baf.Source.Overwrite.{overwrite_inside}
use baf.Data.Header
use baf.Data.Header.{Header, header_size}
use baf.Data.Header.Decode.{decode-encode_header}
use baf.Data.Directory.{Directory, root}
use baf.Data.File.{File}
use baf.Data.FtSegment
use baf.Data.FtSegment.{FileTableSegment, encoded_len, consume_next_segment}
use baf.Data.FtSegment.RoundTrip.{decode-encode_segment}
use baf.Health.{no_content, all_dirs, all_files, check_file_table_correctness}
use baf.Archive.{Archive, ArchiveConfig, done}
use baf.Archive.Write.{empty_segment}
use baf.Archive.Create.{create, first_segment}
use baf.Archive.Open.{
  opened, follow, load, open_archive, dirs_by_id, files_by_id, max_key, next_id_after,
}
use baf.Archive.Create.Fresh.{
  IsConfig, filled-replicate, check_lem, header_bytes, new_archive, first_segment-IsSegment,
  first_coverage, create_lem, length_header, drop_header,
}

follow_lem :
    (fuel addr : ℕ) (s : Source) (conf : ArchiveConfig)
    → follow (suc fuel) addr (first_segment conf) s ≡ some (ok ((addr, first_segment conf) ∷ [], s))
unfolding follow consume_next_segment first_segment empty_segment
follow_lem fuel addr s conf = refl

first_items :
    (conf : ArchiveConfig)
    → (all_dirs (first_segment conf ∷ []) ≡ []) × (all_files (first_segment conf ∷ []) ≡ [])
unfolding all_dirs all_files first_segment empty_segment
first_items conf =
    (rw (filled-replicate {A = Directory} _) refl, rw (filled-replicate {A = File} _) refl)

first_check :
    (conf : ArchiveConfig)
    → check_file_table_correctness (first_segment conf ∷ []) ≡ ok ((root, no_content) ∷ [])
unfolding first_segment
first_check conf = check_lem _ _

load_lem :
    (conf : ArchiveConfig) (bytes content : List ℕ)
    → (let a = new_archive conf bytes content in
        load conf Header.default ((256, first_segment conf) ∷ []) a.source ≡ opened a)
unfolding load seek_len position set_position dirs_by_id files_by_id max_key next_id_after
load_lem conf bytes content =
    let content' = overwrite 0 (header_bytes ++ bytes) content in
    rw
      (
        load,
        first_coverage conf (length content'),
        first_check conf,
        (first_items conf).0,
        (first_items conf).1,
      )
      (rw ((first_items conf).0, (first_items conf).1) refl)

pub created_content :
    (bytes content : List ℕ)
    → overwrite 0 (header_bytes ++ bytes) content
      ≡ header_bytes ++ (bytes ++ drop (0 + length (header_bytes ++ bytes)) content)
created_content bytes content =
    overwrite_inside 0 (header_bytes ++ bytes) content (omega arith)
    ∙ append_assoc header_bytes bytes _

reopen :
    (fuel : ℕ) (s : Source) (conf : ArchiveConfig) (bytes : List ℕ)
    → Reads FtSegment.decode bytes (first_segment conf)
    → open_archive (suc fuel) (new_archive conf bytes s.content).source.content conf
      ≡ opened (new_archive conf bytes s.content)
unfolding open_archive
reopen fuel s conf bytes reads =
    let after = drop (0 + length (header_bytes ++ bytes)) s.content in
    let c = overwrite 0 (header_bytes ++ bytes) s.content in
    let whole : c ≡ header_bytes ++ (bytes ++ after) = created_content bytes s.content in
    let at_segment : Source = record { content = c; pos = 256 } in
    let header : Header.decode (Source.new c) ≡ ok (Header.default, at_segment) =
      subst
        (λ d. Header.decode (Source.new d) ≡ ok (Header.default, record { content = d; pos = 256 }))
        (sym whole) (decode-encode_header Header.default (bytes ++ after) 0) in
    let behind : remaining at_segment ≡ bytes ++ after =
      ap (drop 256) whole ∙ drop_header (bytes ++ after) in
    let ends : 256 + length bytes ≡ 0 + length (header_bytes ++ bytes) =
      omega (arith, length-append header_bytes bytes, length_header) in
    rw (open_archive, header, reads.run at_segment after behind, ends, follow_lem fuel 256 _ conf)
      (load_lem conf bytes s.content)

-- Whatever stream an archive is created on, opening what the stream then holds gives the archive:
-- nothing but its first segment, and the same coverage, with the listing of the root empty and the
-- next id 1. That takes one segment, and so any fuel but 0 is enough. The capacities are 32-bit
-- numbers.
pub open_archive-create :
    (s : Source) (conf : ArchiveConfig)
    → IsConfig conf
    → (a : Archive) × (create s conf ≡ done a)
      × ((fuel : ℕ) → open_archive (suc fuel) a.source.content conf ≡ opened a)
unfolding open_archive
open_archive-create s conf h =
    let (bytes, e, len, reads) =
      decode-encode_segment (first_segment conf) (first_segment-IsSegment conf h) in
    (
      new_archive conf bytes s.content,
      create_lem s conf bytes e,
      λ fuel. reopen fuel s conf bytes reads,
    )
