-- ===== src/Archive/Disk/Change.antt =====
-- Changing one segment in place.
use baf.Base.{
  ℕ, ◌+◌, ◌≤◌, ◌≡◌, sym, ap, subst, ◌∙◌, List, ◌∷◌, some, arith, length, get_elem?, set, All,
  All-at, All-set,
}
use baf.Source.{overwrite}
use baf.Source.Overwrite.{length-overwrite}
use baf.Source.Window.{Holds, Beside, Holds-Beside}
use baf.Data.FtSegment.{FileTableSegment, encoded_len}
use baf.Data.FtSegment.RoundTrip.{IsSegment, segment_bytes, length-segment_bytes}
use baf.Coverage.{Coverage}
use baf.Coverage.Fit.{In}
use baf.Archive.{Archive}
use baf.Archive.Create.Fresh.{header_bytes, length_header}
use baf.Archive.Disk.{placed, zones, IsWritten, IsOnDisk, header_zone}
use baf.Archive.Disk.Slot.{
  zones-at, IsSegment-at, zones-set, IsChain-set, IsWritten-set, Beside-part,
}

module _ (a b : Archive) (i q off : ℕ) (new : List ℕ) (s s' : FileTableSegment) (h : IsOnDisk a)
    (at : get_elem? a.file_segments i ≡ some s)
    (here : get_elem? (placed 256 a.file_segments) i ≡ some (q, s))
    (fits : off + length new ≤ length (segment_bytes s)) where
  -- The stretch lies within the content.
  inside_zone : q + off + length new ≤ length a.source.content
  inside_zone =
      let held : Holds a.source.content q (segment_bytes s) =
        All-at (IsWritten a.source.content) (placed 256 a.file_segments) i (q, s) here h.written in
      omega (arith, held.0, fits)

  header-Beside : Beside 0 (length header_bytes) (q + off) (length new)
  header-Beside =
      let ok : IsSegment s = IsSegment-at 256 a.file_segments i q s here h.segments in
      let far =
        zones-at (λ y. Beside 0 256 y.start y.len) 256 a.file_segments i q s here h.apart.0 in
      subst (λ n. Beside 0 n (q + off) (length new)) (sym length_header)
        (Beside-part 0 256 q (encoded_len s) off (length new)
          (omega (arith, fits, length-segment_bytes s ok)) far)

  pub IsOnDisk-set :
      s'.next_segment_addr ≡ s.next_segment_addr
      → encoded_len s' ≡ encoded_len s
      → IsSegment s'
      → segment_bytes s' ≡ overwrite off new (segment_bytes s)
      → b.source.content ≡ overwrite (q + off) new a.source.content
      → b.coverage ≡ a.coverage
      → b.file_segments ≡ set a.file_segments i s'
      → IsOnDisk b
  IsOnDisk-set same len ok after content coverage segments =
      let z : zones 256 b.file_segments ≡ zones 256 a.file_segments =
        ap (zones 256) segments ∙ zones-set s s' same 256 a.file_segments i len at in
      let inside = inside_zone in
      record {
        tracked = record {
          sound = rw coverage h.tracked.sound;
          len =
              rw (coverage, content)
                (h.tracked.len
                  ∙ omega (
                    arith,
                    length-overwrite (q + off) new a.source.content (omega (arith, inside)),
                    inside,
                  ));
        };
        header = rw content (
            Holds-Beside a.source.content 0 (q + off) header_bytes new (omega (arith, inside))
              header-Beside h.header);
        chain = rw segments (IsChain-set s s' same a.file_segments i at h.chain);
        segments = rw segments (All-set IsSegment a.file_segments i s' ok h.segments);
        written =
            rw (segments, content)
              (IsWritten-set s s' same 256 a.file_segments i q off a.source.content new h.segments
                h.apart.1 here fits after h.written);
        apart = rw z h.apart;
        used = rw z (
            subst
              (λ (c : Coverage).
                All (λ y. In y c.segments) (header_zone ∷ zones 256 a.file_segments))
              (sym coverage) h.used);
      }
