-- ===== src/Archive/Disk/Data.antt =====
-- Data that is written where no segment is in use.
use baf.Base.{ℕ, ◌≤◌, ◌≡◌, sym, ap, subst, inl, inr, List, [], ◌∷◌, length, All, All-map}
use baf.Source.{overwrite}
use baf.Source.Window.{Beside, Holds-Beside}
use baf.Data.FtSegment.{FileTableSegment, addr_value}
use baf.Data.FtSegment.RoundTrip.{IsSegment, segment_bytes, length-segment_bytes}
use baf.Coverage.{Segment}
use baf.Coverage.Fit.{In}
use baf.Coverage.Mark.{Clear}
use baf.Archive.{Archive}
use baf.Archive.Create.Fresh.{header_bytes, length_header}
use baf.Archive.Write.Stored.{IsStored}
use baf.Archive.Disk.{placed, zones, IsWritten, IsOnDisk, header_zone}

pub All-In : (P : Segment → Type 0) (z : Segment) (ss : List Segment) → All P ss → In z ss → P z
All-In P z [] h i = absurd i
All-In P z (s ∷ ss) h (inl e) = subst P (sym e) h.0
All-In P z (s ∷ ss) h (inr i) = All-In P z ss h.1 i

-- What is clear of a coverage is beside each of its segments.
pub Clear-Beside :
    (p n : ℕ) (zs ss : List Segment)
    → Clear p n ss
    → All (λ z. In z ss) zs
    → All (λ z. Beside z.start z.len p n) zs
Clear-Beside p n zs ss clear h =
    All-map (λ z i. All-In (λ s. Beside s.start s.len p n) z ss clear i) zs h

-- A write beside all segments.
pub IsWritten-Beside :
    (base p : ℕ) (content new : List ℕ) (segments : List FileTableSegment)
    → p ≤ length content
    → All IsSegment segments
    → All (λ z. Beside z.start z.len p (length new)) (zones base segments)
    → All (IsWritten content) (placed base segments)
    → All (IsWritten (overwrite p new content)) (placed base segments)
IsWritten-Beside base p content new [] h ok beside written = tt
IsWritten-Beside base p content new (s ∷ rest) h ok beside written = (
  Holds-Beside content base p (segment_bytes s) new h
      (subst (λ n. Beside base n p (length new)) (sym (length-segment_bytes s ok.0)) beside.0)
      written.0,
  IsWritten-Beside (addr_value s.next_segment_addr) p content new rest h ok.1 beside.1 written.1,
)

pub IsStored-IsOnDisk :
    (bytes : List ℕ) (a : Archive) (addr : ℕ) (b : Archive)
    → IsOnDisk a
    → IsStored bytes a addr b
    → IsOnDisk b
IsStored-IsOnDisk bytes a addr b h st =
    let same : b.file_segments ≡ a.file_segments = ap (λ x. x.file_segments) st.rest in
    let beside =
      Clear-Beside addr (length bytes) (header_zone ∷ zones 256 a.file_segments) a.coverage.segments
        st.clear h.used in
    record {
      tracked = st.tracked;
      header = rw st.content (
          Holds-Beside a.source.content 0 addr header_bytes bytes st.inside
            (subst (λ n. Beside 0 n addr (length bytes)) (sym length_header) beside.0) h.header);
      chain = rw same h.chain;
      segments = rw same h.segments;
      written =
          rw (same, st.content)
            (IsWritten-Beside 256 addr a.source.content bytes a.file_segments st.inside h.segments
              beside.1 h.written);
      apart = rw same h.apart;
      used =
          rw same (All-map (λ z i. st.keeps z i) (header_zone ∷ zones 256 a.file_segments) h.used);
    }
