-- ===== src/Archive/Open/Cycle.antt =====
-- Opening an archive whose first segment names itself as the next.
use baf.Base.{ℕ, zero, suc, ◌+◌, ◌≡◌, refl, subst, List, ◌++◌, none, some, length, drop}
use baf.Source.{Source, set_position, ◌>>=◌, mapping}
use baf.Source.Reads.{Reads}
use baf.Data.Header
use baf.Data.Header.Decode.{decode-encode_header}
use baf.Data.FtSegment
use baf.Data.FtSegment.{FileTableSegment, consume_next_segment}
use baf.Data.FtSegment.RoundTrip.{IsSegment, decode-encode_segment}
use baf.Archive.{ArchiveConfig}
use baf.Archive.Create.Fresh.{header_bytes, drop_header}
use baf.Archive.Open.{out_of_fuel, follow, open_archive}

abbrev at : List ℕ → ℕ → Source
at content pos = record { content = content; pos = pos }

-- The loop over a segment that names itself: each round reads it again.
follow_cycle :
    (fuel from addr pos : ℕ) (content bytes more : List ℕ) (segment : FileTableSegment)
    → segment.next_segment_addr ≡ some addr
    → Reads FtSegment.decode bytes segment
    → drop addr content ≡ bytes ++ more
    → follow fuel from segment (at content pos) ≡ none
unfolding follow consume_next_segment set_position
follow_cycle zero from addr pos content bytes more segment e reads behind = refl
follow_cycle (suc fuel) from addr pos content bytes more segment e reads behind =
    rw
      (
        follow,
        e,
        mapping,
        ◌>>=◌,
        reads.run (at content addr) more behind,
        follow_cycle fuel addr addr (addr + length bytes) content bytes more segment e reads behind,
      )
      refl

-- If the first segment of an archive has the address 256, its own, as that of the next segment, then
-- opening the archive comes to no end: it runs out of any fuel, whatever follows the segment.
pub open_archive-cycle :
    (segment : FileTableSegment) (bytes more : List ℕ) (conf : ArchiveConfig) (fuel : ℕ)
    → IsSegment segment
    → segment.next_segment_addr ≡ some 256
    → FtSegment.encode segment ≡ some bytes
    → open_archive fuel (header_bytes ++ (bytes ++ more)) conf ≡ out_of_fuel
unfolding open_archive
open_archive-cycle segment bytes more conf fuel h next e =
    let (bytes', e', len, reads') = decode-encode_segment segment h in
    let same : bytes' ≡ bytes = cc in
    let reads = subst (λ b. Reads FtSegment.decode b segment) same reads' in
    let whole = header_bytes ++ (bytes ++ more) in
    let behind : drop 256 whole ≡ bytes ++ more = drop_header (bytes ++ more) in
    rw
      (
        open_archive,
        decode-encode_header Header.default (bytes ++ more) 0,
        reads.run (at whole 256) more behind,
        follow_cycle fuel 256 256 (256 + length bytes) whole bytes more segment next reads behind,
      )
      refl
