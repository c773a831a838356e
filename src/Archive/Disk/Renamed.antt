-- ===== src/Archive/Disk/Renamed.antt =====
-- Renaming a file.
use baf.Base.{
  ◌+◌, ◌≤◌, ◌≡◌, refl, sym, ap, ◌∙◌, true, false, some, some_inj, arith, length, length-set,
  get_elem?, set, All-at,
}
use baf.Base.Maps.{lookup, insert, member, include, exclude, nat_key, bytes_key, member-exclude}
use baf.Source.{overwrite}
use baf.Data.Name
use baf.Data.Name.{ItemName, padded}
use baf.Data.Name.Valid.{IsItemName}
use baf.Data.Name.RoundTrip.{encode-padded, length-padded_name}
use baf.Data.Directory.{DirectoryIdOrRoot}
use baf.Data.File.{File, file_name_offset_in_entry}
use baf.Data.File.RoundTrip.{IsFile}
use baf.Data.FtSegment.{FileTableSegment, encoded_len}
use baf.Data.FtSegment.RoundTrip.{IsSegment, Slot, length-segment_bytes}
use baf.Data.FtSegment.InPlace.{with_file, with_file-IsSegment, file_entry_offset_lem}
use baf.Data.FtSegment.Rename.{overwrite-name_of_file}
use baf.Coverage.{add64}
use baf.Health.{DirContent, file, dir_key}
use baf.Archive.{Archive, done, file_not_found, ◌>>=◌}
use baf.Archive.Slots.{SegmentEntry, type_offset, get_item_entry}
use baf.Archive.Slots.Find.{get_item_entry_lem}
use baf.Archive.Write.Copy.{wrote}
use baf.Archive.Create.Steps.{ensure_lem, moved, write_at_lem, set_file_slot_lem}
use baf.Archive.Change.{relist, rename_file}
use baf.Archive.Disk.{IsOnDisk, Keeps}
use baf.Archive.Disk.Slot.{IsSegment-at, zones-set}
use baf.Archive.Disk.Change.{IsOnDisk-set}
use baf.Archive.Disk.Kept.{within-Keeps}
use baf.Archive.Disk.Grown.{IsChain-IsLinked}
use baf.Archive.Disk.Removed.{found-FileSpot, find_entry_lem, file_at_lem}

-- The listing of a parent with one name in place of another.
pub relist_lem :
    (parent : DirectoryIdOrRoot) (old new : ItemName) (content : DirContent) (a : Archive)
    → lookup parent a.dirs_content ≡ some content
    → member old content.names ≡ true
    → member new content.names ≡ false
    → relist parent old new a ≡ (
      done tt,
      record a {
        dirs_content =
            insert parent
              (record content { names = include new (exclude old content.names) })
              a.dirs_content;
      },
    )
unfolding relist
relist_lem parent old new content a listed has fresh =
    let left : member new (exclude old content.names) ≡ false =
      member-exclude old new content.names ∙ ground (arith, fresh) in
    rw (relist, ◌>>=◌, listed, has, left) refl

-- The file is in a slot, in the index and in its parent's listing, which does not have the new
-- name.
pub record MayRenameFile (f : File) (name : ItemName) (entry : SegmentEntry) (a : Archive)
    : Type 0 where
  pub found : get_item_entry a.file_segments (file f.id) ≡ some (some entry)
  pub indexed : lookup f.id a.files ≡ some f
  pub content : DirContent
  pub listed : lookup f.parent_dir a.dirs_content ≡ some content
  pub has_name : member f.name content.names ≡ true
  pub fresh_name : member name content.names ≡ false

-- The slot that is found, the index and the listing have the new name, and nothing else is changed.
pub record IsRenamedFile (f : File) (name : ItemName) (entry : SegmentEntry) (a b : Archive)
    : Type 0 where
  pub on_disk : IsOnDisk b
  pub segment : FileTableSegment
  pub before : get_elem? a.file_segments entry.segment_index ≡ some segment
  pub old : File
  pub slot : get_elem? segment.files entry.entry_index ≡ some (some old)
  pub same_id : old.id ≡ f.id
  pub after :
      b.file_segments
      ≡ set a.file_segments entry.segment_index
          (with_file segment entry.entry_index (some (record old { name = name })))
  pub indexed : b.files ≡ insert f.id (record f { name = name }) a.files
  pub content : DirContent
  pub listed : lookup f.parent_dir a.dirs_content ≡ some content
  pub listings :
      b.dirs_content
      ≡ insert f.parent_dir
          (record content { names = include name (exclude f.name content.names) })
          a.dirs_content
  pub keeps : Keeps a b
  pub rest : b ≡ record a {
    source = b.source;
    file_segments = b.file_segments;
    files = b.files;
    dirs_content = b.dirs_content;
  }

-- Let the stream hold an archive's header and segments. Let a file be found in a slot, in the index
-- and in its parent's listing, which does not have the new name, and let the name be one that its
-- type allows. Then `rename_file` succeeds. The stream again holds the header and the segments,
-- where the item in that slot has the new name and nothing else is changed; the index has the file
-- with the new name, and the parent's listing the new name in place of the old one. What stood in
-- stretches of its own stays there.
pub rename_file-IsRenamedFile :
    (f : File) (name : ItemName) (entry : SegmentEntry) (a : Archive)
    → IsOnDisk a
    → IsItemName name
    → MayRenameFile f name entry a
    → (b : Archive) × (rename_file f.id name a ≡ (done tt, b)) × IsRenamedFile f name entry a b
unfolding rename_file type_offset encoded_len
rename_file-IsRenamedFile f name e a h valid may =
    let (o, found_o, good) =
      get_item_entry_lem a.file_segments (file f.id) (IsChain-IsLinked a.file_segments h.chain) in
    let same : o ≡ some e = some_inj (sym found_o ∙ may.found) in
    let fs = found-FileSpot f.id e a o h good same in
    let sp = fs.spot in
    let old_new : File = record fs.old { name = name } in
    let s' = with_file sp.segment e.entry_index (some old_new) in
    let new = padded name in
    let size = length-padded_name name valid in
    let addr = add64 e.entry_addr file_name_offset_in_entry in
    let ok : IsSegment sp.segment =
      IsSegment-at 256 a.file_segments e.segment_index sp.base sp.segment sp.here h.segments in
    let was : IsFile fs.old =
      All-at (Slot IsFile) sp.segment.files e.entry_index (some fs.old) fs.slot ok.files in
    let is : IsFile old_new = record {
      id = was.id;
      parent_dir = was.parent_dir;
      name = valid;
      modif_time = was.modif_time;
      content_addr = was.content_addr;
      content_len = was.content_len;
      checksum_size = was.checksum_size;
      checksum_bytes = was.checksum_bytes;
    } in
    let a1 = wrote new (moved addr a) in
    let a2 : Archive = record a1 { file_segments = set a.file_segments e.segment_index s' } in
    let a3 : Archive = record a2 { files = insert f.id (record f { name = name }) a.files } in
    let b : Archive = record a3 {
      dirs_content =
          insert f.parent_dir
            (record may.content { names = include name (exclude f.name may.content.names) })
            a.dirs_content;
    } in
    let place : addr ≡ sp.base + (sp.offset + 16) =
      omega (arith, sp.fits, sp.inside, sp.addr, h.tracked.sound.len, h.tracked.len) in
    let inside : addr ≤ length a.source.content = omega (arith, place, sp.fits, sp.inside) in
    let fits : sp.offset + 16 + length new ≤ encoded_len sp.segment =
      omega (arith, sp.fits, size) in
    let content = ap (λ p. overwrite p new a.source.content) place in
    let in_row = (file_entry_offset_lem sp.segment e.entry_index sp.offset sp.offset_at).0 in
    let len : encoded_len s' ≡ encoded_len sp.segment =
      omega (arith, length-set sp.segment.files e.entry_index (some old_new)) in
    (
      b,
      rw
          (
            rename_file,
            ◌>>=◌,
            find_entry_lem f.id file_not_found e a may.found,
            may.indexed,
            ensure_lem name f.parent_dir may.content a may.listed may.fresh_name,
            write_at_lem addr (Name.encode name) new a (encode-padded name valid) inside,
            file_at_lem e sp.segment fs.old a1 sp.at fs.slot,
            set_file_slot_lem e.segment_index e.entry_index (some old_new) sp.segment a1 sp.at
                in_row,
            may.indexed,
            relist_lem f.parent_dir f.name name may.content a3 may.listed may.has_name
                may.fresh_name,
          )
          refl,
      record {
        on_disk =
            IsOnDisk-set a b e.segment_index sp.base (sp.offset + 16) new sp.segment s' h sp.at
              sp.here (omega (arith, fits, length-segment_bytes sp.segment ok)) refl len
              (with_file-IsSegment sp.segment e.entry_index (some old_new) is ok)
              (sym (
                overwrite-name_of_file sp.segment e.entry_index sp.offset fs.old name ok
                  sp.offset_at fs.slot valid))
              content refl refl;
        segment = sp.segment;
        before = sp.at;
        old = fs.old;
        slot = fs.slot;
        same_id = fs.old_id;
        after = refl;
        indexed = refl;
        content = may.content;
        listed = may.listed;
        listings = refl;
        keeps =
            within-Keeps a b e.segment_index sp.base (sp.offset + 16) new sp.segment sp.here
              sp.inside fits content refl
              (zones-set sp.segment s' refl 256 a.file_segments e.segment_index len sp.at);
        rest = refl;
      },
    )
