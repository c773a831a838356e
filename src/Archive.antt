-- ===== src/Archive.antt =====
-- crate-lib/src/archive.rs: the archive, its errors, and the outcome of its operations.
pub mod Slots
pub mod Write
pub mod Create
pub mod Change
pub mod Remove
pub mod Open
pub mod Read
pub mod Disk
pub mod Invariant
pub mod Refused
mod Tests
use baf.Base.{
  ℕ, zero, suc, ◌+◌, ◌-◌, ◌^◌, Bool, true, false, not, List, [], ◌∷◌, Option, none, some, Result,
  ok, err, ltb, ◌==◌, if◌then◌else◌,
}
use baf.Base.Maps.{Map}
use baf.Source.{Source, Reader, IoError}
use baf.Data.Name.{ItemName}
use baf.Data.Header.{Header}
use baf.Data.Directory.{Directory, DirectoryId, DirectoryIdOrRoot}
use baf.Data.File.{File, FileId}
use baf.Data.FtSegment.{FileTableSegment}
use baf.Coverage.{Coverage}
use baf.Health.{Contents}
use baf.FileReader.{FileReaderError}

-- `ArchiveConfig`; the capacities are `NonZero<u32>`.
pub record ArchiveConfig : Type 0 where
  pub default_dirs_capacity_by_ft_segment : ℕ
  pub default_files_capacity_by_ft_segment : ℕ
  pub first_segment_dirs_capacity_override : Option ℕ
  pub first_segment_files_capacity_override : Option ℕ

pub record Archive : Type 0 where
  pub conf : ArchiveConfig
  pub source : Source
  pub header : Header
  pub file_segments : List FileTableSegment
  pub dirs : Map DirectoryId Directory
  pub files : Map FileId File
  pub dirs_content : Contents
  pub coverage : Coverage
  pub next_id : ℕ

-- The text that describes the parent directory in `DuplicateName`, by what it is made from.
pub data ParentText : Type 0 where
  root_directory : ParentText
  parent_id : DirectoryId → ParentText
  parent_name : ItemName → ParentText

pub data ArchiveError : Type 0 where
  io : IoError → ArchiveError
  duplicate_name : ItemName → ParentText → ArchiveError
  directory_not_found file_not_found : ArchiveError
  file_reader : FileReaderError → ArchiveError

-- What a call ends with; `panicked` is a failed assertion, `unwrap` or `expect`.
pub data Outcome (A : Type 0) : Type 0 where
  done : A → Outcome A
  failed : ArchiveError → Outcome A
  panicked : Outcome A

-- A method on `&mut self`: what was changed before an error stays changed.
abbrev pub Op : Type 0 → Type 0
Op A = Archive → Outcome A × Archive

abbrev pub pure : {A : Type 0} → A → Op A
pure x a = (done x, a)

abbrev pub fail : {A : Type 0} → ArchiveError → Op A
fail e a = (failed e, a)

abbrev pub panic : {A : Type 0} → Op A
panic a = (panicked, a)

abbrev pub bind_outcome : {A B : Type 0} → Outcome A → Archive → (A → Op B) → Outcome B × Archive
bind_outcome (done x) a f = f x a
bind_outcome (failed e) a f = (failed e, a)
bind_outcome panicked a f = (panicked, a)

infixl 5 ◌>>=◌ ◌>>◌
abbrev pub ◌>>=◌ : {A B : Type 0} → Op A → (A → Op B) → Op B
◌>>=◌ m f a = bind_outcome (m a).0 (m a).1 f

abbrev pub ◌>>◌ : {B : Type 0} → Op (Unit {0}) → Op B → Op B
m >> k = m >>= λ _. k

-- `self`
abbrev pub this : Op Archive
this a = (done a, a)

abbrev pub put : Archive → Op (Unit {0})
put a' a = (done tt, a')

-- `assert!`
abbrev pub assert : Bool → Op (Unit {0})
assert true a = (done tt, a)
assert false a = (panicked, a)

-- `unwrap` and `expect`, and `ok_or(…)?`.
abbrev pub unwrap : {A : Type 0} → Option A → Op A
unwrap none a = (panicked, a)
unwrap (some x) a = (done x, a)

abbrev pub ok_or : {A : Type 0} → ArchiveError → Option A → Op A
ok_or e none a = (failed e, a)
ok_or e (some x) a = (done x, a)

-- An operation on `self.source`.
abbrev pub on_source : {A : Type 0} → Reader IoError A → Op A
on_source m a = elim (m a.source) [
  | ok r ↦ (done r.0, record a { source = r.1 })
  | err e ↦ (failed (io e), a)
]
