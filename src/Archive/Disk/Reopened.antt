-- ===== src/Archive/Disk/Reopened.antt =====
-- Opening what the stream of an archive holds.
use baf.Base.{
  ℕ, zero, suc, ◌+◌, ◌≤◌, ◌<◌, ◌≡◌, refl, sym, ap, subst, ◌∙◌, List, [], ◌∷◌, none, some, ok, arith,
  length, All,
}
use baf.Source
use baf.Source.{Source, remaining, set_position, pure, ◌>>=◌, ◌>>◌, mapping}
use baf.Source.Window.{Holds}
use baf.Data.Header
use baf.Data.Header.{header_size}
use baf.Data.Header.Decode.{decode-encode_header}
use baf.Data.FtSegment
use baf.Data.FtSegment.{FileTableSegment, io_error, addr_value, consume_next_segment}
use baf.Data.FtSegment.RoundTrip.{IsSegment, segment_bytes, Reads-segment}
use baf.Archive.{Archive, ArchiveConfig}
use baf.Archive.Create.Fresh.{header_bytes}
use baf.Archive.Open.{follow, load, segments_of, open_archive}
use baf.Archive.Disk.{IsChain, placed, IsWritten, IsOnDisk}

abbrev at : List ℕ → ℕ → Source
at content pos = record { content = content; pos = pos }

consume_next :
    (s : FileTableSegment) (addr : ℕ)
    → s.next_segment_addr ≡ some addr
    → consume_next_segment s
      ≡ some (do mapping io_error (set_position addr); next ← FtSegment.decode; pure (addr, next))
unfolding consume_next_segment
consume_next s addr e = rw e refl

consume_none : (s : FileTableSegment) → s.next_segment_addr ≡ none → consume_next_segment s ≡ none
unfolding consume_next_segment
consume_none s e = rw e refl

-- A round of the loop.
follow_round :
    (fuel base addr pos pos' end : ℕ) (content : List ℕ) (s t : FileTableSegment)
    (chain : List (ℕ × FileTableSegment))
    → s.next_segment_addr ≡ some addr
    → FtSegment.decode (at content addr) ≡ ok (t, at content pos')
    → follow fuel addr t (at content pos') ≡ some (ok (chain, at content end))
    → follow (suc fuel) base s (at content pos) ≡ some (ok ((base, s) ∷ chain, at content end))
unfolding follow set_position
follow_round fuel base addr pos pos' end content s t chain next read later =
    rw (follow, consume_next s addr next, mapping, ◌>>=◌, read, later) refl

follow_last :
    (fuel base pos : ℕ) (content : List ℕ) (s : FileTableSegment)
    → s.next_segment_addr ≡ none
    → follow (suc fuel) base s (at content pos) ≡ some (ok ((base, s) ∷ [], at content pos))
unfolding follow
follow_last fuel base pos content s next = rw (follow, consume_none s next) refl

read_held :
    (content : List ℕ) (addr : ℕ) (s : FileTableSegment)
    → IsSegment s
    → Holds content addr (segment_bytes s)
    → FtSegment.decode (at content addr) ≡ ok (s, at content (addr + length (segment_bytes s)))
read_held content addr s good held = (Reads-segment s good).run (at content addr) held.1.0 held.1.1

addr_value-some : (addr : ℕ) → addr_value (some addr) ≡ addr
unfolding addr_value
addr_value-some addr = refl

-- The loop finds the segments where the stream holds them.
follow-placed :
    (fuel base pos : ℕ) (content : List ℕ) (s : FileTableSegment) (rest : List FileTableSegment)
    → length rest < fuel
    → IsChain (s ∷ rest)
    → All IsSegment (s ∷ rest)
    → All (IsWritten content) (placed base (s ∷ rest))
    → (end : ℕ) × (follow fuel base s (at content pos)
        ≡ some (ok (placed base (s ∷ rest), at content end)))
follow-placed zero base pos content s rest enough chain good held = absurd (omega arith)
follow-placed (suc fuel) base pos content s [] enough chain good held =
    (pos, follow_last fuel base pos content s chain)
follow-placed (suc fuel) base pos content s (t ∷ rest) enough chain good held =
    let ((addr, next), chain') = chain in
    let where_next : addr_value s.next_segment_addr ≡ addr =
      ap addr_value next ∙ addr_value-some addr in
    let held' : All (IsWritten content) (placed addr (t ∷ rest)) =
      subst (λ n. All (IsWritten content) (placed n (t ∷ rest))) where_next held.1 in
    let pos' = addr + length (segment_bytes t) in
    let (end, later) =
      follow-placed fuel addr pos' content t rest (omega arith) chain' good.1 held' in
    (
      end,
      subst
          (λ n.
            follow (suc fuel) base s (at content pos)
            ≡ some (ok ((base, s) ∷ placed n (t ∷ rest), at content end)))
          (sym where_next)
          (follow_round fuel base addr pos pos' end content s t (placed addr (t ∷ rest)) next
            (read_held content addr t good.1.0 held'.0) later),
    )

pub segments_of-placed :
    (base : ℕ) (segments : List FileTableSegment) → segments_of (placed base segments) ≡ segments
segments_of-placed base [] = refl
segments_of-placed base (s ∷ rest) =
    ap (◌∷◌ s) (segments_of-placed (addr_value s.next_segment_addr) rest)

reopen :
    (fuel : ℕ) (content : List ℕ) (segments : List FileTableSegment) (conf : ArchiveConfig)
    → length segments ≤ fuel
    → Holds content 0 header_bytes
    → IsChain segments
    → All IsSegment segments
    → All (IsWritten content) (placed 256 segments)
    → (end : ℕ) × (open_archive fuel content conf
        ≡ load conf Header.default (placed 256 segments) (at content end))
unfolding open_archive
reopen fuel content [] conf enough header chain good held = absurd chain
reopen fuel content (s ∷ rest) conf enough (fits, (more, front)) chain good held =
    let first = 256 + length (segment_bytes s) in
    let (end, later) = follow-placed fuel 256 first content s rest (omega arith) chain good held in
    let decoded : Header.decode (Source.new content) ≡ ok (Header.default, at content 256) =
      subst (λ c. Header.decode (Source.new c) ≡ ok (Header.default, at c 256)) (sym front)
        (decode-encode_header Header.default more 0) in
    (end, rw (open_archive, decoded, read_held content 256 s good.0 held.0, later) refl)

-- Let the stream hold an archive's header and segments. Opening what the stream holds, with fuel
-- for as many segments as the archive has or more, reads the header and finds exactly the segments
-- that the archive has in memory, before `load` builds the indexes from them and their addresses.
pub open_archive-IsOnDisk :
    (fuel : ℕ) (a : Archive) (conf : ArchiveConfig)
    → IsOnDisk a
    → length a.file_segments ≤ fuel
    → (chain : List (ℕ × FileTableSegment)) × (end : ℕ) × (open_archive fuel a.source.content conf
        ≡ load conf Header.default chain (at a.source.content end))
      × (segments_of chain ≡ a.file_segments)
open_archive-IsOnDisk fuel a conf h enough =
    let (end, opens) =
      reopen fuel a.source.content a.file_segments conf enough h.header h.chain h.segments
        h.written in
    (placed 256 a.file_segments, end, opens, segments_of-placed 256 a.file_segments)
