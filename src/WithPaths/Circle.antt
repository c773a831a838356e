-- ===== src/WithPaths/Circle.antt =====
-- Directories that contain one another.
use baf.Base.{ℕ, zero, suc, ◌≡◌, refl, none, some, ok}
use baf.Data.Directory.{Directory, DirectoryId, non_root}
use baf.Archive.{Archive}
use baf.Archive.Read.{get_dir}
use baf.WithPaths.{parent_names, compute_item_path, compute_dir_path}

-- The archive has a directory under the id, whose parent is again one of `P`.
pub record IsInside (P : DirectoryId → Type 0) (a : Archive) (id : DirectoryId) : Type 0 where
  pub dir : Directory
  pub here : get_dir id a ≡ some dir
  pub above : DirectoryId
  pub parent : dir.parent_dir ≡ non_root above
  pub still : P above

module _ (P : DirectoryId → Type 0) (a : Archive)
    (inside : (id : DirectoryId) → P id → IsInside P a id) where
  parent_names-circle :
      (fuel : ℕ) (id : DirectoryId) → P id → parent_names fuel (non_root id) a ≡ none
  unfolding parent_names
  parent_names-circle zero id p = refl
  parent_names-circle (suc fuel) id p =
      let i = inside id p in
      rw (parent_names, i.here, i.parent, parent_names-circle fuel i.above i.still) refl

  -- Let the parent of each of some directories be one of them. Then the loop in
  -- `compute_item_path` comes to no end on any of them: `compute_dir_path` runs out of any fuel.
  pub compute_dir_path-circle :
      (fuel : ℕ) (id : DirectoryId) → P id → compute_dir_path fuel id a ≡ ok none
  unfolding compute_dir_path compute_item_path
  compute_dir_path-circle fuel id p =
      let i = inside id p in
      rw
        (
          compute_dir_path,
          i.here,
          compute_item_path,
          i.parent,
          parent_names-circle fuel i.above i.still,
        )
        refl
