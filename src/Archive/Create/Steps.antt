-- ===== src/Archive/Create/Steps.antt =====
-- The steps of creating a directory or a file, each on an archive where it succeeds.
use baf.Base.{
  ℕ, ◌+◌, ◌^◌, ◌≤◌, ◌<◌, ◌≡◌, refl, false, List, Option, some, length, get_elem?, set, lt→ltb,
}
use baf.Base.Maps.{lookup, insert, member, include, nat_key, bytes_key}
use baf.Source.{set_position}
use baf.Data.Name.{ItemName}
use baf.Data.Directory.{Directory, DirectoryIdOrRoot}
use baf.Data.File.{File}
use baf.Data.FtSegment.{FileTableSegment}
use baf.Data.FtSegment.InPlace.{with_dir, with_file}
use baf.Health.{DirContent, dir_key}
use baf.Archive.{Archive, done, ◌>>=◌}
use baf.Archive.Slots.{SegmentEntry, ItemType, last_free}
use baf.Archive.Write.{ensure_no_duplicate_name, get_addr_for_item_insert}
use baf.Archive.Write.Copy.{wrote, write_all-wrote}
use baf.Archive.Create.{
  take_id, write_at, list_dir, list_name, set_dir_slot, list_file, set_file_slot,
}

pub ensure_lem :
    (name : ItemName) (parent : DirectoryIdOrRoot) (content : DirContent) (a : Archive)
    → lookup parent a.dirs_content ≡ some content
    → member name content.names ≡ false
    → ensure_no_duplicate_name name parent a ≡ (done tt, a)
unfolding ensure_no_duplicate_name
ensure_lem name parent content a listed fresh =
    rw (ensure_no_duplicate_name, ◌>>=◌, listed, fresh) refl

pub get_addr_lem :
    (type : ItemType) (e : SegmentEntry) (a : Archive)
    → last_free a.file_segments type 0 a.file_segments ≡ some (some e)
    → get_addr_for_item_insert type a ≡ (done e, a)
unfolding get_addr_for_item_insert
get_addr_lem type e a h = rw (get_addr_for_item_insert, ◌>>=◌, h) refl

pub take_id_lem :
    (a : Archive)
    → a.next_id + 1 < 2 ^ 64
    → take_id a ≡ (done a.next_id, record a { next_id = a.next_id + 1 })
unfolding take_id
take_id_lem a h = rw (take_id, ◌>>=◌, lt→ltb (a.next_id + 1) (2 ^ 64) h) refl

abbrev pub moved : ℕ → Archive → Archive
moved addr a = record a { source = record a.source { pos = addr } }

pub write_at_lem :
    (addr : ℕ) (bytes : Option (List ℕ)) (new : List ℕ) (a : Archive)
    → bytes ≡ some new
    → addr ≤ length a.source.content
    → write_at addr bytes a ≡ (done tt, wrote new (moved addr a))
unfolding write_at set_position
write_at_lem addr bytes new a e inside =
    rw (write_at, ◌>>=◌, e, write_all-wrote new (moved addr a) inside) refl

-- The listings with a directory more.
abbrev pub with_listed : Directory → DirContent → Archive → Archive
with_listed dir content a = record a {
  dirs_content =
      insert dir.parent_dir
        (record (list_name dir.name content) { dirs = include dir.id content.dirs }) a.dirs_content;
}

pub list_dir_lem :
    (dir : Directory) (content : DirContent) (a : Archive)
    → lookup dir.parent_dir a.dirs_content ≡ some content
    → member dir.name content.names ≡ false
    → member dir.id content.dirs ≡ false
    → list_dir dir a ≡ (done tt, with_listed dir content a)
unfolding list_dir
list_dir_lem dir content a listed fresh fresh_id =
    rw (list_dir, ◌>>=◌, listed, fresh, fresh_id) refl

pub set_dir_slot_lem :
    (i j : ℕ) (slot : Option Directory) (s : FileTableSegment) (a : Archive)
    → get_elem? a.file_segments i ≡ some s
    → j < length s.dirs
    → set_dir_slot i j slot a
      ≡ (done tt, record a { file_segments = set a.file_segments i (with_dir s j slot) })
unfolding set_dir_slot
set_dir_slot_lem i j slot s a at h = rw (set_dir_slot, ◌>>=◌, at, lt→ltb j (length s.dirs) h) refl

-- The listings with a file more.
abbrev pub with_listed_file : File → DirContent → Archive → Archive
with_listed_file f content a = record a {
  dirs_content =
      insert f.parent_dir (record (list_name f.name content) { files = include f.id content.files })
        a.dirs_content;
}

pub list_file_lem :
    (f : File) (content : DirContent) (a : Archive)
    → lookup f.parent_dir a.dirs_content ≡ some content
    → member f.name content.names ≡ false
    → member f.id content.files ≡ false
    → list_file f a ≡ (done tt, with_listed_file f content a)
unfolding list_file
list_file_lem f content a listed fresh fresh_id =
    rw (list_file, ◌>>=◌, listed, fresh, fresh_id) refl

pub set_file_slot_lem :
    (i j : ℕ) (slot : Option File) (s : FileTableSegment) (a : Archive)
    → get_elem? a.file_segments i ≡ some s
    → j < length s.files
    → set_file_slot i j slot a
      ≡ (done tt, record a { file_segments = set a.file_segments i (with_file s j slot) })
unfolding set_file_slot
set_file_slot_lem i j slot s a at h =
    rw (set_file_slot, ◌>>=◌, at, lt→ltb j (length s.files) h) refl
