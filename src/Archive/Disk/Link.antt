-- ===== src/Archive/Disk/Link.antt =====
-- A segment more at the end of the chain.
use baf.Base.{
  ℕ, zero, suc, ◌+◌, ◌^◌, ◌≤◌, ◌<◌, ◌≡◌, refl, sym, ap, subst, ◌∙◌, inl, inr, List, [], ◌∷◌, ◌++◌,
  none, some, some_inj, arith, length, All, All-at, All-append, get_elem?,
}
use baf.Bytes.{to_le_bytes, length-to_le_bytes}
use baf.Source.{overwrite}
use baf.Source.Overwrite.{overwrite_lem, length-overwrite}
use baf.Source.Window.{Holds, Beside, Holds-Beside, Holds-within}
use baf.Data.FtSegment.{FileTableSegment, encoded_len, addr_value}
use baf.Data.FtSegment.RoundTrip.{IsSegment, segment_bytes, length-segment_bytes, dir_row, file_row}
use baf.Coverage.{Segment, Coverage}
use baf.Coverage.Fit.{In}
use baf.Archive.{Archive}
use baf.Archive.Write.{link}
use baf.Archive.Write.Stored.{stretch}
use baf.Archive.Create.Fresh.{header_bytes, length_header}
use baf.Archive.Disk.{IsChain, placed, zones, IsApart, IsWritten, IsOnDisk, header_zone}
use baf.Archive.Disk.Slot.{Beside-part, part-Beside, zones-at, IsSegment-at}

-- The segment with the address of the next one.
abbrev pub pointed : ℕ → FileTableSegment → FileTableSegment
pointed addr s = record s { next_segment_addr = some addr }

pub segment_bytes-pointed :
    (addr : ℕ) (s : FileTableSegment)
    → segment_bytes (pointed addr s) ≡ overwrite 0 (to_le_bytes 8 addr) (segment_bytes s)
unfolding addr_value
segment_bytes-pointed addr s = sym (
    overwrite_lem 0 [] (to_le_bytes 8 (addr_value s.next_segment_addr)) (to_le_bytes 8 addr)
      (to_le_bytes 4 (length s.dirs)
        ++ (to_le_bytes 4 (length s.files) ++ (dir_row s ++ file_row s)))
      refl
      (length-to_le_bytes 8 (addr_value s.next_segment_addr) ∙ sym (length-to_le_bytes 8 addr)))

pub encoded_len-head : (s : FileTableSegment) → 16 ≤ encoded_len s
unfolding encoded_len
encoded_len-head s = omega arith

pointed-IsSegment :
    (addr : ℕ) (s : FileTableSegment)
    → (0 < addr) × (addr < 2 ^ 64)
    → IsSegment s
    → IsSegment (pointed addr s)
pointed-IsSegment addr s h good = record {
  next_segment_addr = h;
  dirs_count = good.dirs_count;
  files_count = good.files_count;
  dirs = good.dirs;
  files = good.files;
}

-- Appending a stretch that is beside all others.
IsApart-append :
    (z : Segment) (zs : List Segment)
    → IsApart zs
    → All (λ y. Beside y.start y.len z.start z.len) zs
    → IsApart (zs ++ (z ∷ []))
IsApart-append z [] h b = (tt, tt)
IsApart-append z (y ∷ zs) h b = (
  All-append (λ x. Beside y.start y.len x.start x.len) zs (z ∷ []) h.0 (b.0, tt),
  IsApart-append z zs h.1 b.1,
)

module _ (addr : ℕ) (new : FileTableSegment) (last : new.next_segment_addr ≡ none) where
  IsChain-link :
      (segments : List FileTableSegment) → IsChain segments → IsChain (link segments addr new)
  unfolding link
  IsChain-link [] h = absurd h
  IsChain-link (s ∷ []) h = ((addr, refl), last)
  IsChain-link (s ∷ t ∷ []) h = (h.0, ((addr, refl), last))
  IsChain-link (s ∷ t ∷ u ∷ rest) h = (h.0, IsChain-link (t ∷ u ∷ rest) h.1)

  All-link :
      (segments : List FileTableSegment)
      → (0 < addr) × (addr < 2 ^ 64)
      → IsSegment new
      → All IsSegment segments
      → All IsSegment (link segments addr new)
  unfolding link
  All-link [] b good h = (good, tt)
  All-link (s ∷ []) b good h = (pointed-IsSegment addr s b h.0, (good, tt))
  All-link (s ∷ t ∷ rest) b good h = (h.0, All-link (t ∷ rest) b good h.1)

  pub zones-link :
      (base : ℕ) (segments : List FileTableSegment)
      → IsChain segments
      → zones base (link segments addr new)
        ≡ zones base segments ++ (stretch addr (encoded_len new) ∷ [])
  unfolding link addr_value encoded_len
  zones-link base [] h = absurd h
  zones-link base (s ∷ []) h = refl
  zones-link base (s ∷ t ∷ rest) h =
      ap (◌∷◌ (stretch base (encoded_len s)))
        (zones-link (addr_value s.next_segment_addr) (t ∷ rest) h.1)

  -- The stream with the address written at the start of the last segment.
  IsWritten-link :
      (base : ℕ) (segments : List FileTableSegment) (i q : ℕ) (content : List ℕ)
      (s : FileTableSegment)
      → suc i ≡ length segments
      → All IsSegment segments
      → IsApart (zones base segments)
      → get_elem? (placed base segments) i ≡ some (q, s)
      → Holds (overwrite (q + 0) (to_le_bytes 8 addr) content) addr (segment_bytes new)
      → All (IsWritten content) (placed base segments)
      → All
          (IsWritten (overwrite (q + 0) (to_le_bytes 8 addr) content))
          (placed base (link segments addr new))
  unfolding link addr_value
  IsWritten-link base [] i q content s n ok apart e tail written = absurd (omega arith)
  IsWritten-link base (x ∷ []) zero q content s n ok apart e tail written =
      let pair : (base, x) ≡ (q, s) = some_inj e in
      let at : base ≡ q = ap (λ (p : ℕ × FileTableSegment). p.0) pair in
      let inside : 0 + length (to_le_bytes 8 addr) ≤ length (segment_bytes x) =
        omega (arith, length-to_le_bytes 8 addr, length-segment_bytes x ok.0, encoded_len-head x) in
      let held =
        Holds-within content base 0 (segment_bytes x) (to_le_bytes 8 addr) inside written.0 in
      (
        subst (λ bs. Holds (overwrite (q + 0) (to_le_bytes 8 addr) content) base bs)
            (sym (segment_bytes-pointed addr x))
            (subst
              (λ n.
                Holds (overwrite (n + 0) (to_le_bytes 8 addr) content) base
                  (overwrite 0 (to_le_bytes 8 addr) (segment_bytes x)))
              at held),
        (tail, tt),
      )
  IsWritten-link base (x ∷ []) (suc i) q content s n ok apart e tail written = absurd (omega arith)
  IsWritten-link base (x ∷ t ∷ rest) zero q content s n ok apart e tail written =
      absurd (omega arith)
  IsWritten-link base (x ∷ t ∷ rest) (suc i) q content s n ok apart e tail written =
      let base' = addr_value x.next_segment_addr in
      let held : Holds content q (segment_bytes s) =
        All-at (IsWritten content) (placed base' (t ∷ rest)) i (q, s) e written.1 in
      let len = length-segment_bytes s (IsSegment-at base' (t ∷ rest) i q s e ok.1) in
      let far =
        zones-at (λ y. Beside base (encoded_len x) y.start y.len) base' (t ∷ rest) i q s e
          apart.0 in
      let fits : 0 + length (to_le_bytes 8 addr) ≤ encoded_len s =
        omega (arith, length-to_le_bytes 8 addr, encoded_len-head s) in
      let beside : Beside base (length (segment_bytes x)) (q + 0) (length (to_le_bytes 8 addr)) =
        subst (λ n. Beside base n (q + 0) (length (to_le_bytes 8 addr)))
          (sym (length-segment_bytes x ok.0))
          (Beside-part base (encoded_len x) q (encoded_len s) 0 (length (to_le_bytes 8 addr)) fits
            far) in
      (
        Holds-Beside content base (q + 0) (segment_bytes x) (to_le_bytes 8 addr)
            (omega (arith, held.0)) beside written.0,
        IsWritten-link base' (t ∷ rest) i q content s (omega arith) ok.1 apart.1 e tail written.1,
      )

module _ (a b : Archive) (i q addr : ℕ) (s new : FileTableSegment) (h : IsOnDisk a)
    (last_index : suc i ≡ length a.file_segments)
    (here : get_elem? (placed 256 a.file_segments) i ≡ some (q, s)) (good : IsSegment new)
    (last : new.next_segment_addr ≡ none) (held : Holds a.source.content addr (segment_bytes new))
    (clear : All
      (λ z. Beside z.start z.len addr (encoded_len new))
      (header_zone ∷ zones 256 a.file_segments))
    (used : In (stretch addr (encoded_len new)) a.coverage.segments)
    (content : b.source.content ≡ overwrite (q + 0) (to_le_bytes 8 addr) a.source.content)
    (coverage : b.coverage ≡ a.coverage)
    (segments : b.file_segments ≡ link a.file_segments addr new) where
  abbrev pointer : List ℕ
  pointer = to_le_bytes 8 addr

  last-IsSegment : IsSegment s
  last-IsSegment = IsSegment-at 256 a.file_segments i q s here h.segments

  room : q + 0 + length pointer ≤ length a.source.content
  room =
      let at_last : Holds a.source.content q (segment_bytes s) =
        All-at (IsWritten a.source.content) (placed 256 a.file_segments) i (q, s) here h.written in
      omega (
        arith,
        at_last.0,
        length-segment_bytes s last-IsSegment,
        encoded_len-head s,
        length-to_le_bytes 8 addr,
      )

  pointer-fits : 0 + length pointer ≤ encoded_len s
  pointer-fits = omega (arith, encoded_len-head s, length-to_le_bytes 8 addr)

  linked-header : Holds b.source.content 0 header_bytes
  linked-header =
      let far =
        zones-at (λ y. Beside 0 256 y.start y.len) 256 a.file_segments i q s here h.apart.0 in
      rw content (
        Holds-Beside a.source.content 0 (q + 0) header_bytes pointer (omega (arith, room))
          (subst (λ n. Beside 0 n (q + 0) (length pointer)) (sym length_header)
            (Beside-part 0 256 q (encoded_len s) 0 (length pointer) pointer-fits far))
          h.header)

  new-held : Holds (overwrite (q + 0) pointer a.source.content) addr (segment_bytes new)
  new-held =
      let far =
        zones-at (λ z. Beside z.start z.len addr (encoded_len new)) 256 a.file_segments i q s here
          clear.1 in
      let beside =
        part-Beside addr (encoded_len new) q (encoded_len s) 0 (length pointer) pointer-fits far in
      Holds-Beside a.source.content addr (q + 0) (segment_bytes new) pointer (omega (arith, room))
        (subst (λ n. Beside addr n (q + 0) (length pointer)) (sym (length-segment_bytes new good))
          beside)
        held

  bounds : Beside 0 256 addr (encoded_len new) → (0 < addr) × (addr < 2 ^ 64)
  bounds (inl before) = (
    omega arith,
    omega (
      arith,
      held.0,
      h.tracked.sound.len,
      h.tracked.len,
      length-segment_bytes new good,
      encoded_len-head new,
    ),
  )
  bounds (inr after) = absurd (omega (arith, encoded_len-head new))

  abbrev all_zones : List Segment
  all_zones = header_zone ∷ (zones 256 a.file_segments ++ (stretch addr (encoded_len new) ∷ []))

  linked-zones : (header_zone ∷ zones 256 b.file_segments) ≡ all_zones
  linked-zones =
      ap (λ zs. header_zone ∷ zs)
        (ap (zones 256) segments ∙ zones-link addr new last 256 a.file_segments h.chain)

  pub linked-IsOnDisk : IsOnDisk b
  linked-IsOnDisk = record {
    tracked = record {
      sound = rw coverage h.tracked.sound;
      len =
          rw (coverage, content)
            (h.tracked.len
              ∙ omega (
                arith,
                length-overwrite (q + 0) pointer a.source.content (omega (arith, room)),
                room,
              ));
    };
    header = linked-header;
    chain = rw segments (IsChain-link addr new last a.file_segments h.chain);
    segments =
        rw segments (All-link addr new last a.file_segments (bounds clear.0) good h.segments);
    written =
        rw (segments, content)
          (IsWritten-link addr new last 256 a.file_segments i q a.source.content s last_index
            h.segments h.apart.1 here new-held h.written);
    apart = subst IsApart (sym linked-zones) (
        IsApart-append (stretch addr (encoded_len new)) (header_zone ∷ zones 256 a.file_segments)
          h.apart clear);
    used =
        subst (λ zs. All (λ z. In z b.coverage.segments) zs) (sym linked-zones)
          (subst (λ (c : Coverage). All (λ z. In z c.segments) all_zones) (sym coverage)
            (All-append (λ z. In z a.coverage.segments) (header_zone ∷ zones 256 a.file_segments)
              (stretch addr (encoded_len new) ∷ []) h.used (used, tt)));
  }
