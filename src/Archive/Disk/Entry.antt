-- ===== src/Archive/Disk/Entry.antt =====
-- The entry of an item, written into its slot on the stream and in memory.
use baf.Base.{
  ℕ, ◌+◌, ◌≡◌, refl, sym, ap, ◌∙◌, List, Option, some, arith, length, length-set, get_elem?, set,
}
use baf.Source.{overwrite}
use baf.Data.Directory.{Directory}
use baf.Data.Directory.RoundTrip as DirectoryEntry
use baf.Data.Directory.RoundTrip.{IsDirectory}
use baf.Data.File.{File}
use baf.Data.File.RoundTrip as FileEntry
use baf.Data.File.RoundTrip.{IsFile}
use baf.Data.FtSegment.{FileTableSegment, encoded_len, dir_entry_offset, file_entry_offset}
use baf.Data.FtSegment.RoundTrip.{
  IsSegment, Slot, slot_bytes, length-segment_bytes, length-slot_bytes,
}
use baf.Data.FtSegment.InPlace.{
  with_dir, with_file, with_dir-IsSegment, with_file-IsSegment, dir_slot_bytes, file_slot_bytes,
  dir_slot_bytes_lem, file_slot_bytes_lem, dir_entry_offset_lem, file_entry_offset_lem,
  overwrite-slots_of_dirs, overwrite-slots_of_files, some_eq,
}
use baf.Archive.{Archive}
use baf.Archive.Disk.{placed, IsOnDisk}
use baf.Archive.Disk.Slot.{IsSegment-at}
use baf.Archive.Disk.Change.{IsOnDisk-set}

module _ (a b : Archive) (i j q off : ℕ) (new : List ℕ) (s : FileTableSegment) (h : IsOnDisk a)
    (at : get_elem? a.file_segments i ≡ some s)
    (here : get_elem? (placed 256 a.file_segments) i ≡ some (q, s))
    (content : b.source.content ≡ overwrite (q + off) new a.source.content)
    (coverage : b.coverage ≡ a.coverage) where
  here-IsSegment : IsSegment s
  here-IsSegment = IsSegment-at 256 a.file_segments i q s here h.segments

  pub with_dir-IsOnDisk :
      (slot : Option Directory)
      → dir_entry_offset s j ≡ some off
      → Slot IsDirectory slot
      → dir_slot_bytes slot ≡ some new
      → b.file_segments ≡ set a.file_segments i (with_dir s j slot)
      → IsOnDisk b
  unfolding encoded_len
  with_dir-IsOnDisk slot offset good bytes segments =
      let entry : slot_bytes DirectoryEntry.entry_of 280 slot ≡ new =
        some_eq _ new (dir_slot_bytes_lem slot good) bytes in
      let size : length new ≡ 280 =
        ap length (sym entry)
        ∙ length-slot_bytes IsDirectory DirectoryEntry.entry_of 280 DirectoryEntry.length-entry slot
            good in
      let (inside, place) = dir_entry_offset_lem s j off offset in
      IsOnDisk-set a b i q off new s (with_dir s j slot) h at here
        (omega (arith, size, inside, place, length-segment_bytes s here-IsSegment)) refl
        (omega (arith, length-set s.dirs j slot)) (with_dir-IsSegment s j slot good here-IsSegment)
        (sym (overwrite-slots_of_dirs s j off slot new here-IsSegment offset good entry)) content
        coverage segments

  pub with_file-IsOnDisk :
      (slot : Option File)
      → file_entry_offset s j ≡ some off
      → Slot IsFile slot
      → file_slot_bytes slot ≡ some new
      → b.file_segments ≡ set a.file_segments i (with_file s j slot)
      → IsOnDisk b
  unfolding encoded_len
  with_file-IsOnDisk slot offset good bytes segments =
      let entry : slot_bytes FileEntry.entry_of 328 slot ≡ new =
        some_eq _ new (file_slot_bytes_lem slot good) bytes in
      let size : length new ≡ 328 =
        ap length (sym entry)
        ∙ length-slot_bytes IsFile FileEntry.entry_of 328 FileEntry.length-entry slot good in
      let (inside, place) = file_entry_offset_lem s j off offset in
      IsOnDisk-set a b i q off new s (with_file s j slot) h at here
        (omega (arith, size, inside, place, length-segment_bytes s here-IsSegment)) refl
        (omega (arith, length-set s.files j slot))
        (with_file-IsSegment s j slot good here-IsSegment)
        (sym (overwrite-slots_of_files s j off slot new here-IsSegment offset good entry)) content
        coverage segments
