-- ===== src/Archive/Invariant/Changes.antt =====
-- What the archive has of a directory that was created, and of a file that was renamed: in the
-- index, in the slots and in the listings.
use baf.Base.{ℕ, ◌≡◌, not, ◌||◌, ◌&&◌, some, if◌then◌else◌, ◌==◌, beq}
use baf.Base.Maps.{lookup, member, nat_key, bytes_key}
use baf.Data.Name.{ItemName}
use baf.Data.Directory.{Directory, DirectoryIdOrRoot, non_root}
use baf.Data.File.{File}
use baf.Health.{DirContent, no_content, dir_key}
use baf.Archive.{Archive}
use baf.Archive.Disk.Items.{InSlot}

-- The directory is in the index, in a slot, and has an empty listing; its parent's listing has its
-- id and its name more, and the index and the listings have nothing else changed.
pub record IsEnteredDir (dir : Directory) (a b : Archive) : Type 0 where
  pub indexed : (id : ℕ) → lookup id b.dirs ≡ (if id == dir.id then some dir else lookup id a.dirs)
  pub here : InSlot (λ s. s.dirs) dir b.file_segments
  pub own : lookup (non_root dir.id) b.dirs_content ≡ some no_content
  pub before : DirContent
  pub after : DirContent
  pub was_listed : lookup dir.parent_dir a.dirs_content ≡ some before
  pub listed : lookup dir.parent_dir b.dirs_content ≡ some after
  pub ids : (id : ℕ) → member id after.dirs ≡ (id == dir.id || member id before.dirs)
  pub names :
      (name : ItemName) → member name after.names ≡ (beq name dir.name || member name before.names)
  pub files : after.files ≡ before.files
  pub others :
      (p : DirectoryIdOrRoot)
      → (p ≡ dir.parent_dir → ⊥)
      → (p ≡ non_root dir.id → ⊥)
      → lookup p b.dirs_content ≡ lookup p a.dirs_content

-- The file has the name in the index and in a slot; its parent's listing has the name in place of
-- the old one, and the index and the listings have nothing else changed.
pub record IsRenamed (f : File) (new_name : ItemName) (a b : Archive) : Type 0 where
  pub indexed :
      (id : ℕ)
      → lookup id b.files
        ≡ (if id == f.id then some (record f { name = new_name }) else lookup id a.files)
  pub here : InSlot (λ s. s.files) (record f { name = new_name }) b.file_segments
  pub before : DirContent
  pub after : DirContent
  pub was_listed : lookup f.parent_dir a.dirs_content ≡ some before
  pub listed : lookup f.parent_dir b.dirs_content ≡ some after
  pub names :
      (name : ItemName)
      → member name after.names
        ≡ (beq name new_name || (not (beq name f.name) && member name before.names))
  pub dirs : after.dirs ≡ before.dirs
  pub files : after.files ≡ before.files
  pub others :
      (p : DirectoryIdOrRoot)
      → (p ≡ f.parent_dir → ⊥)
      → lookup p b.dirs_content ≡ lookup p a.dirs_content
