-- ===== src/Archive/Invariant.antt =====
-- What holds of an archive between operations, beyond what its stream holds: ids from the next one
-- on are not in use, each file of the index is in a slot and in its parent's listing, with its
-- content in a stretch of its own, and the slots have no other files.
pub mod Listed
pub mod Tied
pub mod Contents
pub mod Changes
pub mod AddDir
pub mod AddFile
pub mod RemoveFile
pub mod ReplaceFile
pub mod RenameFile
pub mod Taken
pub mod Steps
pub mod History
mod Tests
mod FiledTests
use baf.Base.{ℕ, ◌+◌, ◌^◌, ◌≤◌, ◌<◌, ◌≡◌, true, false, List, none, some, length}
use baf.Base.Maps.{Map, lookup, member, nat_key, bytes_key}
use baf.Data.Directory.{DirectoryIdOrRoot, non_root}
use baf.Data.File.{File, FileId}
use baf.Data.Name.{ItemName}
use baf.Data.Name.Valid.{IsItemName}
use baf.Data.Timestamp.{Timestamp}
use baf.Data.Directory.RoundTrip.{IsU64, IsParent}
use baf.Data.FtSegment.{FileTableSegment}
use baf.Health.{DirContent, dir_key}
use baf.Archive.{Archive}
use baf.Archive.Disk.{IsOnDisk, IsKept}
use baf.Archive.Disk.Grown.{HasCapacity}
use baf.Archive.Disk.Items.{InSlot}
use baf.Archive.Disk.Places.{IsAt}

-- The file is in its parent's listing, with its id and its name.
pub record IsListed (f : File) (listings : Map DirectoryIdOrRoot DirContent) : Type 0 where
  pub content : DirContent
  pub listed : lookup f.parent_dir listings ≡ some content
  pub has_id : member f.id content.files ≡ true
  pub has_name : member f.name content.names ≡ true

-- No directory is listed under an id, and nothing of that id is listed.
pub record NotListed (id : ℕ) (listings : Map DirectoryIdOrRoot DirContent) : Type 0 where
  pub content : lookup (non_root id) listings ≡ none
  pub listed :
      (p : DirectoryIdOrRoot) (content : DirContent)
      → lookup p listings ≡ some content
      → (member id content.dirs ≡ false) × (member id content.files ≡ false)

-- An id is not in use.
pub record IsUnused (id : ℕ) (a : Archive) : Type 0 where
  pub dirs : lookup id a.dirs ≡ none
  pub files : lookup id a.files ≡ none
  pub listings : NotListed id a.dirs_content

-- A file that the index has under an id.
pub record IsKnown (sha3_256 : List ℕ → List ℕ) (id : ℕ) (f : File) (a : Archive) : Type 0 where
  pub same_id : f.id ≡ id
  pub bytes : List ℕ
  pub len : f.content_len ≡ length bytes
  pub checksum : f.sha3_checksum ≡ sha3_256 bytes
  pub kept : IsKept f.content_addr bytes a
  pub here : InSlot (λ s. s.files) f a.file_segments
  pub listing : IsListed f a.dirs_content

-- The contents of two files start at different addresses, unless one is empty, and two files of a
-- directory have different names.
abbrev pub IsDistinct : File → File → Type 0
IsDistinct f g =
    (0 < f.content_len → 0 < g.content_len → f.content_addr ≡ g.content_addr → ⊥)
    × (f.parent_dir ≡ g.parent_dir → f.name ≡ g.name → ⊥)

-- The index and the slots have the same files: each file in a slot is in the index under its id, and
-- no two slots have files of one id.
pub record IsTied (segments : List FileTableSegment) (files : Map FileId File) : Type 0 where
  pub slots : (i j : ℕ) (x : File) → IsAt (λ s. s.files) segments i j x → lookup x.id files ≡ some x
  pub once :
      (i j i' j' : ℕ) (x y : File)
      → IsAt (λ s. s.files) segments i j x
      → IsAt (λ s. s.files) segments i' j' y
      → x.id ≡ y.id
      → (i ≡ i') × (j ≡ j')

pub record IsConsistent (sha3_256 : List ℕ → List ℕ) (a : Archive) : Type 0 where
  pub on_disk : IsOnDisk a
  pub capacity : HasCapacity a.conf
  pub some_id : 0 < a.next_id
  pub unused : (id : ℕ) → a.next_id ≤ id → IsUnused id a
  pub files : (id : ℕ) (f : File) → lookup id a.files ≡ some f → IsKnown sha3_256 id f a
  pub tied : IsTied a.file_segments a.files
  pub distinct :
      (id id' : ℕ) (f g : File)
      → lookup id a.files ≡ some f
      → lookup id' a.files ≡ some g
      → (id ≡ id' → ⊥)
      → IsDistinct f g

-- What an item that is added must be: the parent is listed and does not have the name, the values
-- are what their types allow, and the next id is not the last one.
pub record CanAdd (parent : DirectoryIdOrRoot) (name : ItemName) (time : Timestamp) (a : Archive)
    : Type 0 where
  pub content : DirContent
  pub listed : lookup parent a.dirs_content ≡ some content
  pub fresh_name : member name content.names ≡ false
  pub parent_dir : IsParent parent
  pub valid_name : IsItemName name
  pub modif_time : IsU64 time
  pub id_left : a.next_id + 1 < 2 ^ 64
