-- ===== src/Archive/Disk/Replaced.antt =====
-- Replacing the content of a file.
use baf.Base.{
  ℕ, ◌+◌, ◌^◌, ◌≤◌, ◌<◌, ◌≡◌, refl, sym, ap, subst, ◌∙◌, List, ◌∷◌, some, some_inj, arith, length,
  length-set, get_elem?, set, All,
}
use baf.Base.Maps.{lookup, insert, nat_key}
use baf.Bytes.{IsByte}
use baf.Source.{Source, overwrite}
use baf.Source.Window.{Holds, Beside, Holds-overwrite}
use baf.Data.Timestamp.{Timestamp}
use baf.Data.Directory.RoundTrip.{IsU64}
use baf.Data.File
use baf.Data.File.{File}
use baf.Data.File.RoundTrip as FileEntry
use baf.Data.File.RoundTrip.{IsFile}
use baf.Data.FtSegment.{FileTableSegment, encoded_len}
use baf.Data.FtSegment.InPlace.{with_file, file_entry_offset_lem}
use baf.Coverage.{Coverage, mark_as_free}
use baf.Health.{file, dir_key}
use baf.Archive.{Archive, done, file_not_found, ◌>>=◌}
use baf.Archive.Slots.{SegmentEntry, file_type, type_offset, get_item_entry}
use baf.Archive.Slots.Find.{get_item_entry_lem}
use baf.Archive.Write.{write_data_where_possible}
use baf.Archive.Write.Copy.{wrote}
use baf.Archive.Write.Stored.{IsStored, stretch, write_data_where_possible_lem}
use baf.Archive.Create.Steps.{moved, write_at_lem, set_file_slot_lem}
use baf.Archive.Change.{free_content, replace_file_content}
use baf.Archive.Disk.{IsClear, IsOnDisk, IsKept, Keeps, zones, header_zone}
use baf.Archive.Disk.Data.{IsStored-IsOnDisk, Clear-Beside}
use baf.Archive.Disk.Items.{InSlot, InSlot-set, InSlot-new, slot-set_other}
use baf.Archive.Disk.Kept.{IsKept-IsStored, IsStored-Keeps, within-Keeps, freed-IsKept}
use baf.Archive.Disk.Grown.{IsChain-IsLinked}
use baf.Archive.Disk.Slot.{zones-set}
use baf.Archive.Disk.Entry.{with_file-IsOnDisk}
use baf.Archive.Disk.FileSlot.{moved_spot, IsStored-longer}
use baf.Archive.Disk.Freed.{freed-IsOnDisk}
use baf.Archive.Disk.Removed.{FileSpot, found-FileSpot, find_entry_lem, file_at_lem}

-- The file is in a slot and in the index, its values are what their types allow, and its content is
-- clear of the header and the segments, unless it is empty.
pub record MayReplaceFile (f : File) (entry : SegmentEntry) (a : Archive) : Type 0 where
  pub found : get_item_entry a.file_segments (file f.id) ≡ some (some entry)
  pub indexed : lookup f.id a.files ≡ some f
  pub valid : IsFile f
  pub clear : 0 < f.content_len → IsClear f.content_addr f.content_len a

-- A stretch that is not the file's content, unless one of the two is empty.
abbrev pub IsOther : ℕ → List ℕ → File → Type 0
IsOther p bytes f =
    0 < length bytes
    → 0 < f.content_len
    → stretch p (length bytes) ≡ stretch f.content_addr f.content_len
    → ⊥

-- The index and the slot that is found have the file with its new content, which stands in a
-- stretch of its own, and other files are in their slots. What stood in other stretches of its own
-- stays there, beside the new content.
pub record IsReplaced (bytes : List ℕ) (f new : File) (entry : SegmentEntry) (a b : Archive)
    : Type 0 where
  pub on_disk : IsOnDisk b
  pub segment : FileTableSegment
  pub before : get_elem? a.file_segments entry.segment_index ≡ some segment
  pub after :
      b.file_segments
      ≡ set a.file_segments entry.segment_index (with_file segment entry.entry_index (some new))
  pub old : File
  pub slot : get_elem? segment.files entry.entry_index ≡ some (some old)
  pub same_id : old.id ≡ f.id
  pub indexed : b.files ≡ insert f.id new a.files
  pub kept : IsKept new.content_addr bytes b
  pub keeps : (p : ℕ) (other : List ℕ) → IsOther p other f → IsKept p other a → IsKept p other b
  pub apart :
      (p : ℕ) (other : List ℕ)
      → IsOther p other f
      → IsKept p other a
      → 0 < length other
      → Beside p (length other) new.content_addr (length bytes)
  pub here : InSlot (λ s. s.files) new b.file_segments
  pub files :
      (x : File)
      → (x.id ≡ f.id → ⊥)
      → InSlot (λ s. s.files) x a.file_segments
      → InSlot (λ s. s.files) x b.file_segments
  pub rest : b ≡ record a {
    source = b.source;
    coverage = b.coverage;
    file_segments = b.file_segments;
    files = b.files;
  }

module _ (sha3_256 : List ℕ → List ℕ) (digest_size : (bs : List ℕ) → length (sha3_256 bs) ≡ 32)
    (digest_bytes : (bs : List ℕ) → All IsByte (sha3_256 bs)) (f : File) (time : Timestamp)
    (bytes : List ℕ) (e : SegmentEntry) (a : Archive) (h : IsOnDisk a) (may : MayReplaceFile f e a)
    (in_time : IsU64 time) (bound : length a.source.content + length bytes < 2 ^ 64) where
  -- The file with its new content at an address.
  abbrev pub new_file : ℕ → File
  new_file addr = record f {
    content_addr = addr;
    content_len = length bytes;
    sha3_checksum = sha3_256 bytes;
    modif_time = time;
  }

  abbrev freed : Archive
  freed = record a { coverage = (mark_as_free (stretch f.content_addr f.content_len) a.coverage).1 }

  then-IsOnDisk : IsOnDisk freed
  then-IsOnDisk = freed-IsOnDisk f.content_addr f.content_len a _ refl may.clear h

  get_item_entry-FileSpot : FileSpot f.id e a
  get_item_entry-FileSpot =
      let (o, found_o, good) =
        get_item_entry_lem a.file_segments (file f.id) (IsChain-IsLinked a.file_segments h.chain) in
      found-FileSpot f.id e a o h good (some_inj (sym found_o ∙ may.found))

  abbrev replaced : ℕ → List ℕ → FileTableSegment → Source → Coverage → Archive
  replaced addr new s source coverage =
      let d : Archive = record a {
        source = source;
        coverage = coverage;
        files = insert f.id (new_file addr) a.files;
      } in
      record (wrote new (moved e.entry_addr d)) {
        file_segments =
            set a.file_segments e.segment_index (with_file s e.entry_index (some (new_file addr)));
      }

  -- Once the old content is freed and the new one is written.
  then_stored :
      (addr : ℕ) (source : Source) (coverage : Coverage)
      → IsStored bytes freed addr (record a { source = source; coverage = coverage })
      → (b : Archive) × (write_data_where_possible bytes freed
            ≡ (done (addr, bytes), record a { source = source; coverage = coverage })
          → replace_file_content sha3_256 f.id time bytes a ≡ (done tt, b))
        × IsReplaced bytes f (new_file addr) e a b
  unfolding replace_file_content free_content type_offset encoded_len
  then_stored addr source coverage st =
      let c : Archive = record a { source = source; coverage = coverage } in
      let fs = get_item_entry-FileSpot in
      let sp =
        moved_spot file_type e a source coverage (IsStored-longer bytes freed addr c st) fs.spot in
      let nf = new_file addr in
      let new = FileEntry.entry_of nf in
      let s' = with_file sp.segment e.entry_index (some nf) in
      let d : Archive = record c { files = insert f.id nf a.files } in
      let b = replaced addr new sp.segment source coverage in
      let valid : IsFile nf = record {
        id = may.valid.id;
        parent_dir = may.valid.parent_dir;
        name = may.valid.name;
        modif_time = in_time;
        content_addr = omega (arith, st.inside, bound);
        content_len = omega (arith, bound);
        checksum_size = digest_size bytes;
        checksum_bytes = digest_bytes bytes;
      } in
      let encoded = FileEntry.encode-entry nf valid in
      let on_disk : IsOnDisk c = IsStored-IsOnDisk bytes freed addr c then-IsOnDisk st in
      let in_row = (file_entry_offset_lem sp.segment e.entry_index sp.offset sp.offset_at).0 in
      let inside : e.entry_addr ≤ length source.content =
        omega (arith, sp.fits, sp.inside, sp.addr) in
      let place = ap (λ p. overwrite p new source.content) sp.addr in
      let len : encoded_len s' ≡ encoded_len sp.segment =
        omega (arith, length-set sp.segment.files e.entry_index (some nf)) in
      let to_b : Keeps c b =
        within-Keeps c b e.segment_index sp.base sp.offset new sp.segment sp.here sp.inside
          (omega (arith, sp.fits, FileEntry.length-entry nf valid)) place refl
          (zones-set sp.segment s' refl 256 a.file_segments e.segment_index len sp.at) in
      let held : Holds source.content addr bytes =
        subst (λ x. Holds x addr bytes) (sym st.content)
          (Holds-overwrite a.source.content addr bytes st.inside) in
      let clear =
        Clear-Beside addr (length bytes) (header_zone ∷ zones 256 a.file_segments)
          freed.coverage.segments st.clear then-IsOnDisk.used in
      let to_freed : (p : ℕ) (other : List ℕ)
          → IsOther p other f
          → IsKept p other a
          → IsKept p other freed =
        λ p other differ k.
          freed-IsKept (stretch f.content_addr f.content_len) a p other differ k in
      (
        b,
        λ wrote_data.
            rw
              (
                replace_file_content,
                ◌>>=◌,
                find_entry_lem f.id file_not_found e a may.found,
                may.indexed,
                free_content,
                wrote_data,
                may.indexed,
                write_at_lem e.entry_addr (File.encode nf) new d encoded inside,
                file_at_lem e sp.segment fs.old (wrote new (moved e.entry_addr d)) sp.at fs.slot,
                set_file_slot_lem e.segment_index e.entry_index (some nf) sp.segment
                    (wrote new (moved e.entry_addr d)) sp.at in_row,
              )
              refl,
        record {
          on_disk =
              with_file-IsOnDisk c b e.segment_index e.entry_index sp.base sp.offset new sp.segment
                on_disk sp.at sp.here place refl (some nf) sp.offset_at valid encoded refl;
          segment = sp.segment;
          before = sp.at;
          after = refl;
          old = fs.old;
          slot = fs.slot;
          same_id = fs.old_id;
          indexed = refl;
          kept = to_b addr bytes (record { held = held; used = st.adds; clear = λ h. clear });
          keeps = λ p other differ k.
              to_b p other
                (IsStored-Keeps bytes freed addr c st p other (to_freed p other differ k));
          apart = λ p other differ k.
              IsKept-IsStored bytes freed addr c p other st (to_freed p other differ k);
          here =
              InSlot-new (λ s. s.files) nf a.file_segments e.segment_index e.entry_index sp.segment
                s' (some fs.old) sp.at fs.slot refl;
          files = λ x differ i.
              InSlot-set (λ s. s.files) x a.file_segments e.segment_index sp.segment s' sp.at
                (slot-set_other (λ s. s.files) x sp.segment.files e.entry_index (some fs.old)
                  (some nf) fs.slot
                  (λ same. differ (sym (ap (λ (y : File). y.id) (some_inj same)) ∙ fs.old_id)))
                i;
          rest = refl;
        },
      )

  -- Let the stream hold an archive's header and segments, and let a file be found in a slot and in
  -- the index, with values that their types allow and a content that is clear of the header and the
  -- segments unless it is empty; let the new time be a 64-bit number and the stream with the new
  -- content behind it end below 2^64; the digests are of 32 bytes. Then `replace_file_content`
  -- succeeds. The stream again holds the header and the segments, and the new content in a stretch
  -- of its own, whose address, length and digest the file has in the index and in a slot. What
  -- stood in stretches of its own other than the old content's stays there, beside the new content,
  -- and other files are still in their slots.
  pub replace_file_content-IsReplaced :
      (b : Archive) × (addr : ℕ) × (replace_file_content sha3_256 f.id time bytes a ≡ (done tt, b))
      × IsReplaced bytes f (new_file addr) e a b
  replace_file_content-IsReplaced =
      let (addr, c, wrote_data, st) =
        write_data_where_possible_lem bytes freed then-IsOnDisk.tracked bound in
      let (b, run, is) =
        then_stored addr c.source c.coverage (subst (IsStored bytes freed addr) st.rest st) in
      (b, addr, run (wrote_data ∙ ap (λ x. (done (addr, bytes), x)) st.rest), is)
