-- ===== src/Data/FtSegment/Rename.antt =====
-- Writing a name into the entry of an item, within an encoded segment.
use baf.Base.{
  ℕ, zero, suc, ◌+◌, ◌≤◌, ◌≡◌, refl, sym, ap, subst, ◌∙◌, List, [], ◌∷◌, ◌++◌, append_assoc, some,
  some_inj, arith, length, length-append, get_elem?, set, All-at,
}
use baf.Bytes.{to_le_bytes, length-to_le_bytes}
use baf.Source.{overwrite}
use baf.Source.Overwrite.{overwrite_lem}
use baf.Source.Window.{Holds, Holds-overwrite, overwrite-part}
use baf.Data.Name.{ItemName, padded}
use baf.Data.Name.Valid.{IsItemName}
use baf.Data.Name.RoundTrip.{length-padded_name}
use baf.Data.Directory.{Directory, parent_value}
use baf.Data.Directory.RoundTrip as DirectoryEntry
use baf.Data.Directory.RoundTrip.{IsDirectory}
use baf.Data.File.{File}
use baf.Data.File.RoundTrip as FileEntry
use baf.Data.File.RoundTrip.{IsFile}
use baf.Data.FtSegment.{FileTableSegment, encoded_len, dir_entry_offset, file_entry_offset}
use baf.Data.FtSegment.RoundTrip.{IsSegment, Slot, segment_bytes, length-segment_bytes}
use baf.Data.FtSegment.InPlace.{
  with_dir, with_file, dir_entry_offset_lem, file_entry_offset_lem, overwrite-slots_of_dirs,
  overwrite-slots_of_files,
}

set-same : {A : Type 0} (xs : List A) (j : ℕ) (x : A) → get_elem? xs j ≡ some x → set xs j x ≡ xs
set-same [] j x e = refl
set-same (y ∷ xs) zero x e = ap (λ z. z ∷ xs) (sym (some_inj e))
set-same (y ∷ xs) (suc j) x e = ap (◌∷◌ y) (set-same xs j x e)

-- The name stands behind the 16 bytes of the two ids.
overwrite-name :
    (id parent : ℕ) (old new rest : List ℕ)
    → IsItemName old
    → IsItemName new
    → overwrite 16 (padded new) (to_le_bytes 8 id ++ (to_le_bytes 8 parent ++ (padded old ++ rest)))
      ≡ to_le_bytes 8 id ++ (to_le_bytes 8 parent ++ (padded new ++ rest))
overwrite-name id parent old new rest h h' =
    let front = to_le_bytes 8 id ++ to_le_bytes 8 parent in
    let size : length front ≡ 16 = omega (
      arith,
      length-append (to_le_bytes 8 id) (to_le_bytes 8 parent),
      length-to_le_bytes 8 id,
      length-to_le_bytes 8 parent,
    ) in
    ap (overwrite 16 (padded new))
      (sym (append_assoc (to_le_bytes 8 id) (to_le_bytes 8 parent) (padded old ++ rest)))
    ∙ (overwrite_lem 16 front (padded old) (padded new) rest size
          (length-padded_name old h ∙ sym (length-padded_name new h'))
        ∙ append_assoc (to_le_bytes 8 id) (to_le_bytes 8 parent) (padded new ++ rest))

-- An entry that is in a segment, with bytes of it changed.
overwrite-entry :
    (bytes bytes' entry entry' new : List ℕ) (off k : ℕ)
    → off ≤ length bytes
    → k + length new ≤ length entry
    → overwrite off entry bytes ≡ bytes
    → overwrite off entry' bytes ≡ bytes'
    → overwrite k new entry ≡ entry'
    → overwrite (off + k) new bytes ≡ bytes'
overwrite-entry bytes bytes' entry entry' new off k inside fits same changed part =
    let held : Holds bytes off entry =
      subst (λ c. Holds c off entry) same (Holds-overwrite bytes off entry inside) in
    overwrite-part bytes off k entry new fits held
    ∙ (ap (λ x. overwrite off x bytes) part ∙ changed)

-- Writing a name into a directory's slot.
pub overwrite-name_of_dir :
    (s : FileTableSegment) (j off : ℕ) (dir : Directory) (name : ItemName)
    → IsSegment s
    → dir_entry_offset s j ≡ some off
    → get_elem? s.dirs j ≡ some (some dir)
    → IsItemName name
    → overwrite (off + 16) (padded name) (segment_bytes s)
      ≡ segment_bytes (with_dir s j (some (record dir { name = name })))
unfolding encoded_len
overwrite-name_of_dir s j off dir name h offset slot valid =
    let old : IsDirectory dir = All-at (Slot IsDirectory) s.dirs j (some dir) slot h.dirs in
    let new = record dir { name = name } in
    let good : IsDirectory new = record {
      id = old.id;
      parent_dir = old.parent_dir;
      name = valid;
      modif_time = old.modif_time;
    } in
    let (in_row, place) = dir_entry_offset_lem s j off offset in
    overwrite-entry (segment_bytes s) (segment_bytes (with_dir s j (some new)))
      (DirectoryEntry.entry_of dir) (DirectoryEntry.entry_of new) (padded name) off 16
      (omega (arith, in_row, place, length-segment_bytes s h))
      (omega (arith, DirectoryEntry.length-entry dir old, length-padded_name name valid))
      (overwrite-slots_of_dirs s j off (some dir) (DirectoryEntry.entry_of dir) h offset old refl
        ∙ ap (λ row. segment_bytes (record s { dirs = row })) (set-same s.dirs j (some dir) slot))
      (overwrite-slots_of_dirs s j off (some new) (DirectoryEntry.entry_of new) h offset good refl)
      (overwrite-name dir.id (parent_value dir.parent_dir) dir.name name _ old.name valid)

-- Writing a name into a file's slot.
pub overwrite-name_of_file :
    (s : FileTableSegment) (j off : ℕ) (f : File) (name : ItemName)
    → IsSegment s
    → file_entry_offset s j ≡ some off
    → get_elem? s.files j ≡ some (some f)
    → IsItemName name
    → overwrite (off + 16) (padded name) (segment_bytes s)
      ≡ segment_bytes (with_file s j (some (record f { name = name })))
unfolding encoded_len
overwrite-name_of_file s j off f name h offset slot valid =
    let old : IsFile f = All-at (Slot IsFile) s.files j (some f) slot h.files in
    let new = record f { name = name } in
    let good : IsFile new = record {
      id = old.id;
      parent_dir = old.parent_dir;
      name = valid;
      modif_time = old.modif_time;
      content_addr = old.content_addr;
      content_len = old.content_len;
      checksum_size = old.checksum_size;
      checksum_bytes = old.checksum_bytes;
    } in
    let (in_row, place) = file_entry_offset_lem s j off offset in
    overwrite-entry (segment_bytes s) (segment_bytes (with_file s j (some new)))
      (FileEntry.entry_of f) (FileEntry.entry_of new) (padded name) off 16
      (omega (arith, in_row, place, length-segment_bytes s h))
      (omega (arith, FileEntry.length-entry f old, length-padded_name name valid))
      (overwrite-slots_of_files s j off (some f) (FileEntry.entry_of f) h offset old refl
        ∙ ap (λ row. segment_bytes (record s { files = row })) (set-same s.files j (some f) slot))
      (overwrite-slots_of_files s j off (some new) (FileEntry.entry_of new) h offset good refl)
      (overwrite-name f.id (parent_value f.parent_dir) f.name name _ old.name valid)
