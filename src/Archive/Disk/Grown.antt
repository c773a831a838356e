-- ===== src/Archive/Disk/Grown.antt =====
-- A new segment in the archive, where no slot is free.
use baf.Base.{
  ℕ, zero, suc, ◌+◌, ◌-◌, ◌^◌, ◌≤◌, ◌<◌, ◌≡◌, refl, sym, ap, subst, ◌∙◌, List, [], ◌∷◌, some, arith,
  length, All, All-at, get_elem?,
}
use baf.Bytes.{to_le_bytes, length-to_le_bytes}
use baf.Source.Overwrite.{length-overwrite}
use baf.Source.{Source, overwrite, set_position}
use baf.Source.Window.{Holds, Beside, Holds-overwrite}
use baf.Data.FtSegment.{FileTableSegment, encoded_len}
use baf.Data.FtSegment.RoundTrip.{
  IsSegment, segment_bytes, length-segment_bytes, encode-segment_bytes,
}
use baf.Coverage.{Coverage}
use baf.Coverage.Fit.{In}
use baf.Archive.{Archive, ArchiveConfig, done, ◌>>=◌}
use baf.Archive.Slots.{segment_addr}
use baf.Archive.Slots.Find.{IsLinked, segment_addr-IsLinked}
use baf.Archive.Write.{empty_segment, link, create_segment, write_data_where_possible}
use baf.Archive.Write.Copy.{wrote, write_all-wrote}
use baf.Archive.Write.Stored.{IsStored, stretch, write_data_where_possible_lem}
use baf.Archive.Create.Fresh.{empty_segment-IsSegment}
use baf.Archive.Create.Steps.{moved}
use baf.Archive.Disk.{IsChain, IsOnDisk, IsWritten, Keeps, placed, zones, header_zone}
use baf.Archive.Disk.Data.{IsStored-IsOnDisk, Clear-Beside}
use baf.Archive.Disk.Slot.{placed-at, IsSegment-at}
use baf.Archive.Disk.Kept.{IsKept-IsStored, IsStored-Keeps, within-Keeps, more-IsKept}
use baf.Archive.Disk.Link.{zones-link, linked-IsOnDisk, encoded_len-head}

pub IsChain-IsLinked : (segments : List FileTableSegment) → IsChain segments → IsLinked segments
IsChain-IsLinked [] h = tt
IsChain-IsLinked (s ∷ []) h = tt
IsChain-IsLinked (s ∷ t ∷ rest) h = (h.0, IsChain-IsLinked (t ∷ rest) h.1)

-- The capacities are `NonZero<u32>`.
pub record HasCapacity (conf : ArchiveConfig) : Type 0 where
  pub dirs : 0 < conf.default_dirs_capacity_by_ft_segment
  pub dirs_count : conf.default_dirs_capacity_by_ft_segment < 2 ^ 32
  pub files : 0 < conf.default_files_capacity_by_ft_segment
  pub files_count : conf.default_files_capacity_by_ft_segment < 2 ^ 32

abbrev pub new_segment : ArchiveConfig → FileTableSegment
new_segment conf =
    empty_segment conf.default_dirs_capacity_by_ft_segment conf.default_files_capacity_by_ft_segment

at_index : {A : Type 0} (xs : List A) (i : ℕ) → i < length xs → (x : A) × (get_elem? xs i ≡ some x)
at_index [] i h = absurd (omega arith)
at_index (x ∷ xs) zero h = (x, refl)
at_index (x ∷ xs) (suc i) h = at_index xs i (omega arith)

some_segment : (segments : List FileTableSegment) → IsChain segments → 0 < length segments
some_segment [] h = absurd h
some_segment (s ∷ rest) h = omega arith

-- The archive with its data written and the new segment linked.
abbrev pub grown : ℕ → ℕ → FileTableSegment → Archive → Source → Coverage → Archive
grown q addr new a source coverage =
    let c =
      wrote (to_le_bytes 8 addr) (moved q (record a { source = source; coverage = coverage })) in
    record c { file_segments = link a.file_segments addr new }

-- What `create_segment` does to an archive: the new segment is at `addr`, and last in the chain.
pub record IsGrown (a b : Archive) : Type 0 where
  pub addr : ℕ
  pub segments : b.file_segments ≡ link a.file_segments addr (new_segment a.conf)
  pub rest :
      b ≡ record a { source = b.source; coverage = b.coverage; file_segments = b.file_segments }
  pub keeps : Keeps a b
  pub len : length b.source.content ≤ length a.source.content + encoded_len (new_segment a.conf)

module _ (a : Archive) (h : IsOnDisk a) (cap : HasCapacity a.conf)
    (bound : length a.source.content + encoded_len (new_segment a.conf) < 2 ^ 64) where
  new-IsSegment : IsSegment (new_segment a.conf)
  new-IsSegment = empty_segment-IsSegment _ _ cap.dirs_count cap.files_count

  abbrev bytes : List ℕ
  bytes = segment_bytes (new_segment a.conf)

  -- Once the segment's bytes are written.
  linked :
      (addr : ℕ) (source : Source) (coverage : Coverage)
      → IsStored bytes a addr (record a { source = source; coverage = coverage })
      → (q : ℕ) × (segment_addr a.file_segments (length a.file_segments - 1) ≡ some q)
        × (q ≤ length source.content)
        × IsOnDisk (grown q addr (new_segment a.conf) a source coverage)
        × Keeps a (grown q addr (new_segment a.conf) a source coverage)
        × (length (overwrite q (to_le_bytes 8 addr) source.content)
            ≤ length a.source.content + encoded_len (new_segment a.conf))
  unfolding empty_segment
  linked addr source coverage st =
      let c : Archive = record a { source = source; coverage = coverage } in
      let on_disk : IsOnDisk c = IsStored-IsOnDisk bytes a addr c h st in
      let i = length a.file_segments - 1 in
      let some_len = some_segment a.file_segments h.chain in
      let (q, found) =
        segment_addr-IsLinked a.file_segments i (IsChain-IsLinked a.file_segments h.chain)
          (omega (arith, some_len)) in
      let (s, at) = at_index a.file_segments i (omega (arith, some_len)) in
      let here = placed-at i q a.file_segments s found at in
      let size = length-segment_bytes (new_segment a.conf) new-IsSegment in
      let clear =
        Clear-Beside addr (length bytes) (header_zone ∷ zones 256 a.file_segments)
          a.coverage.segments st.clear h.used in
      let at_last : Holds source.content q (segment_bytes s) =
        All-at (IsWritten source.content) (placed 256 a.file_segments) i (q, s) here
          on_disk.written in
      let held : Holds source.content addr bytes =
        subst (λ t. Holds t addr bytes) (sym st.content)
          (Holds-overwrite a.source.content addr bytes st.inside) in
      let start : overwrite q (to_le_bytes 8 addr) source.content
          ≡ overwrite (q + 0) (to_le_bytes 8 addr) source.content =
        ap (λ p. overwrite p (to_le_bytes 8 addr) source.content) (omega arith) in
      let size_s =
        length-segment_bytes s (IsSegment-at 256 a.file_segments i q s here h.segments) in
      let pointer = length-to_le_bytes 8 addr in
      let m : Archive = wrote (to_le_bytes 8 addr) (moved q c) in
      let to_m : Keeps c m =
        within-Keeps c m i q 0 (to_le_bytes 8 addr) s here (omega (arith, at_last.0, size_s))
          (omega (arith, pointer, encoded_len-head s)) start refl refl in
      let more = zones-link addr (new_segment a.conf) refl 256 a.file_segments h.chain in
      let room : 0 < length bytes = omega (arith, size, encoded_len-head (new_segment a.conf)) in
      (
        q,
        found,
        omega (arith, at_last.0),
        linked-IsOnDisk c (grown q addr (new_segment a.conf) a source coverage) i q addr s
            (new_segment a.conf) on_disk (omega (arith, some_len)) here new-IsSegment refl held
            (subst
              (λ n.
                All (λ z. Beside z.start z.len addr n) (header_zone ∷ zones 256 a.file_segments))
              size clear)
            (subst (λ n. In (stretch addr n) coverage.segments) size (st.adds room)) start refl
            refl,
        λ p kept k.
            more-IsKept m (link a.file_segments addr (new_segment a.conf))
              (stretch addr (encoded_len (new_segment a.conf))) p kept more
              (λ h.
                subst (λ n. Beside p (length kept) addr n) size
                  (IsKept-IsStored bytes a addr c p kept st k h))
              (to_m p kept (IsStored-Keeps bytes a addr c st p kept k)),
        omega (
          arith,
          length-overwrite q (to_le_bytes 8 addr) source.content (omega (arith, at_last.0)),
          at_last.0,
          size_s,
          pointer,
          encoded_len-head s,
          ap length st.content,
          length-overwrite addr bytes a.source.content st.inside,
          size,
        ),
      )

  -- Let the stream hold an archive's header and segments, with capacities that are not 0, and let the
  -- stream with a new segment behind it end below 2^64. Then `create_segment` succeeds, and answers
  -- the number of the segments before. The stream holds the header and the segments, which are the
  -- old ones with an empty one behind them that the last one has the address of; other than the
  -- stream, the coverage and the segments nothing changes.
  pub create_segment-IsOnDisk :
      (b : Archive) × (create_segment a ≡ (done (length a.file_segments), b))
      × IsOnDisk b
      × IsGrown a b
  unfolding create_segment set_position
  create_segment-IsOnDisk =
      let size = length-segment_bytes (new_segment a.conf) new-IsSegment in
      let (addr, c, wrote_data, st) =
        write_data_where_possible_lem bytes a h.tracked (omega (arith, bound, size)) in
      let c' : Archive = record a { source = c.source; coverage = c.coverage } in
      let wrote_data' : write_data_where_possible bytes a ≡ (done (addr, bytes), c') =
        wrote_data ∙ ap (λ x. (done (addr, bytes), x)) st.rest in
      let (q, found, inside, on_disk, keeps, len) =
        linked addr c.source c.coverage (subst (IsStored bytes a addr) st.rest st) in
      (
        grown q addr (new_segment a.conf) a c.source c.coverage,
        rw
            (
              create_segment,
              ◌>>=◌,
              encode-segment_bytes (new_segment a.conf) new-IsSegment,
              wrote_data',
              found,
              write_all-wrote (to_le_bytes 8 addr) (moved q c') inside,
            )
            refl,
        on_disk,
        record { addr = addr; segments = refl; rest = refl; keeps = keeps; len = len },
      )
