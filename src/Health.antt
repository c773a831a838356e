-- ===== src/Health.antt =====
-- crate-lib/src/health.rs: the check of the file table when an archive is opened.
pub mod Gaps
pub mod Distinct
mod Tests
use baf.Base.{
  ℕ, Bool, true, false, List, [], ◌∷◌, ◌++◌, Option, none, some, Result, ok, err, ◌==◌,
  if◌then◌else◌, ◌≡◌, ◌↔◌, refl, arith, not,
}
use baf.Base.Maps.{Key, Map, lookup, insert, member, include, nat_key, bytes_key}
use baf.Data.Name.{ItemName}
use baf.Data.Directory.{Directory, DirectoryId, DirectoryIdOrRoot, root, non_root}
use baf.Data.File.{File, FileId}
use baf.Data.FtSegment.{FileTableSegment}

-- `ItemId` of crate-lib/src/archive.rs.
pub data ItemId : Type 0 where
  directory : DirectoryId → ItemId
  file : FileId → ItemId

unfoldable pub same_dir : DirectoryIdOrRoot → DirectoryIdOrRoot → Bool
same_dir root root = true
same_dir root (non_root b) = false
same_dir (non_root a) root = false
same_dir (non_root a) (non_root b) = a == b

pub same_dir_iff : (a b : DirectoryIdOrRoot) → (same_dir a b ≡ true) ↔ (a ≡ b)
unfolding same_dir
same_dir_iff root root = (λ e. refl, λ e. refl)
same_dir_iff root (non_root b) = (λ e. cc, λ e. cc)
same_dir_iff (non_root a) root = (λ e. cc, λ e. cc)
same_dir_iff (non_root a) (non_root b) = (λ e. ground arith, λ e. ground arith)

instance abbrev pub dir_key : Key DirectoryIdOrRoot
dir_key = record { same = same_dir; same_iff = same_dir_iff }

pub record DirContent : Type 0 where
  pub dirs : List DirectoryId
  pub files : List FileId
  pub names : List ItemName

-- `DirContent::default()`
abbrev pub no_content : DirContent
no_content = record { dirs = []; files = []; names = [] }

pub data FileTableCorrectnessError : Type 0 where
  duplicate_directory_id : DirectoryId → ItemName → FileTableCorrectnessError
  duplicate_file_id : FileId → ItemName → FileTableCorrectnessError
  duplicate_item_in_dir_name : ItemId → ItemName → DirectoryIdOrRoot → FileTableCorrectnessError

abbrev pub Contents : Type 0
Contents = Map DirectoryIdOrRoot DirContent

-- The two variables of the loops.
pub record Check : Type 0 where
  pub errors : List FileTableCorrectnessError
  pub dirs_content : Contents

-- `iter().flat_map(…).flatten()`
unfoldable pub filled : {A : Type 0} → List (Option A) → List A
filled [] = []
filled (none ∷ slots) = filled slots
filled (some a ∷ slots) = a ∷ filled slots

unfoldable pub all_dirs : List FileTableSegment → List Directory
all_dirs [] = []
all_dirs (segment ∷ rest) = filled segment.dirs ++ all_dirs rest

unfoldable pub all_files : List FileTableSegment → List File
all_files [] = []
all_files (segment ∷ rest) = filled segment.files ++ all_files rest

abbrev pub push_if :
    Bool
    → FileTableCorrectnessError
    → List FileTableCorrectnessError
    → List FileTableCorrectnessError
push_if true e errors = errors ++ (e ∷ [])
push_if false e errors = errors

abbrev is_some : {A : Type 0} → Option A → Bool
is_some none = false
is_some (some a) = true

-- The first loop: an empty listing for each directory.
unfoldable pub register_dir : Check → Directory → Check
register_dir c dir = record {
  errors =
      push_if (is_some (lookup (non_root dir.id) c.dirs_content))
        (duplicate_directory_id dir.id dir.name) c.errors;
  dirs_content = insert (non_root dir.id) no_content c.dirs_content;
}

-- `entry(parent).or_default()`; the root's listing is there from the start.
abbrev pub content_of : DirectoryIdOrRoot → Contents → DirContent
content_of parent m = elim (lookup parent m) [ none ↦ no_content | some content ↦ content ]

-- The second loop, over the directories.
unfoldable pub list_dir : Check → Directory → Check
list_dir c dir =
    let parent = content_of dir.parent_dir c.dirs_content in
    record {
      errors =
          push_if (member dir.name parent.names)
            (duplicate_item_in_dir_name (directory dir.id) dir.name dir.parent_dir)
            (push_if (member dir.id parent.dirs) (duplicate_directory_id dir.id dir.name) c.errors);
      dirs_content =
          insert dir.parent_dir
            (record parent {
              dirs = include dir.id parent.dirs;
              names = include dir.name parent.names;
            })
            c.dirs_content;
    }

-- The third loop, over the files.
unfoldable pub list_file : Check → File → Check
list_file c f =
    let parent = content_of f.parent_dir c.dirs_content in
    record {
      errors =
          push_if (member f.name parent.names)
            (duplicate_item_in_dir_name (file f.id) f.name f.parent_dir)
            (push_if (member f.id parent.files) (duplicate_file_id f.id f.name) c.errors);
      dirs_content =
          insert f.parent_dir
            (record parent {
              files = include f.id parent.files;
              names = include f.name parent.names;
            })
            c.dirs_content;
    }

unfoldable pub each : {A : Type 0} → (Check → A → Check) → Check → List A → Check
each f c [] = c
each f c (a ∷ rest) = each f (f c a) rest

-- `if errors.is_empty() { Ok(dirs_content) } else { Err(errors) }`
unfoldable pub verdict :
    Contents → List FileTableCorrectnessError → Result (List FileTableCorrectnessError) Contents
verdict m [] = ok m
verdict m (e ∷ errors) = err (e ∷ errors)

abbrev pub start : Check
start = record { errors = []; dirs_content = (root, no_content) ∷ [] }

unfoldable pub check_file_table_correctness :
    List FileTableSegment → Result (List FileTableCorrectnessError) Contents
check_file_table_correctness segments =
    let registered = each register_dir start (all_dirs segments) in
    let dirs_listed = each list_dir registered (all_dirs segments) in
    let listed = each list_file dirs_listed (all_files segments) in
    verdict listed.dirs_content listed.errors
