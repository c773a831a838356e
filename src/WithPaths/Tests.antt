-- ===== src/WithPaths/Tests.antt =====
-- A small tree of directories, and the theorems about paths there.
use baf.Base.{ℕ, ◌≡◌, refl, sym, subst, List, [], ◌∷◌, none, some, ok, replicate, beq}
use baf.Base.Maps.{lookup, nat_key}
use baf.Data.Name
use baf.Data.Name.{ItemName, check_validity, check_reserved, check_chars}
use baf.Data.Header
use baf.Data.Timestamp.{Timestamp}
use baf.Data.Directory.{Directory, root, non_root}
use baf.Data.File.{File}
use baf.Data.PathInArchive
use baf.Data.PathInArchive.{join, split, walk, step}
use baf.Data.PathInArchive.RoundTrip.{IsName}
use baf.Health.{dir_key, same_dir}
use baf.Archive.{Archive}
use baf.Archive.Read.{dir_entry, file_entry, get_dir, get_file, read_dir, dir_entries, file_entries}
use baf.Archive.Read
use baf.WithPaths.{file_collision, compute_dir_path, find_named}
use baf.WithPaths.RoundTrip.{IsAt, at_root, below, IsListed}
use baf.WithPaths.Circle.{IsInside, compute_dir_path-circle}
use baf.WithPaths.Mut.{done, failed, get_or_create_dir_at}
use baf.WithPaths.Collision.{get_or_create_dir_at-file, get_or_create_dir_at-existing}

abbrev docs : Directory
docs = record { id = 1; parent_dir = root; name = 100 ∷ []; modif_time = 0 }

abbrev notes : File
notes = record {
  id = 2;
  parent_dir = non_root 1;
  name = 110 ∷ [];
  modif_time = 0;
  content_addr = 0;
  content_len = 4;
  sha3_checksum = replicate 32 0;
}

-- Its own parent.
abbrev looping : Directory
looping = record { id = 7; parent_dir = non_root 7; name = 108 ∷ []; modif_time = 0 }

abbrev tree : Archive
tree = record {
  conf = record {
    default_dirs_capacity_by_ft_segment = 10;
    default_files_capacity_by_ft_segment = 20;
    first_segment_dirs_capacity_override = none;
    first_segment_files_capacity_override = none;
  };
  source = record { content = []; pos = 0 };
  header = record { version = Header.one };
  file_segments = [];
  dirs = (1, docs) ∷ (7, looping) ∷ [];
  files = (2, notes) ∷ [];
  dirs_content =
      (root, record { dirs = 1 ∷ []; files = []; names = docs.name ∷ [] })
      ∷ (non_root 1, record { dirs = []; files = 2 ∷ []; names = notes.name ∷ [] })
      ∷ [];
  coverage = record { len = 0; segments = [] };
  next_id = 8;
}

docs-IsListed : IsListed tree root docs.name (dir_entry docs)
unfolding read_dir lookup same_dir dir_entries file_entries get_dir find_named Read.name beq
docs-IsListed = record { entries = some (dir_entry docs) ∷ []; read = refl; found = refl }

notes-IsListed : IsListed tree (non_root 1) notes.name (file_entry notes)
unfolding read_dir lookup same_dir dir_entries file_entries get_file find_named Read.name beq
notes-IsListed = record { entries = some (file_entry notes) ∷ []; read = refl; found = refl }

docs-here : get_dir 1 tree ≡ some docs
unfolding get_dir lookup
docs-here = refl

docs-IsName : IsName docs.name
unfolding check_validity check_reserved check_chars beq
docs-IsName = refl

docs-IsAt : IsAt tree (non_root 1) (docs.name ∷ [])
docs-IsAt = below [] docs at_root docs-here docs-IsName docs-IsListed

looping-IsInside : (id : ℕ) → id ≡ 7 → IsInside (λ i. i ≡ 7) tree id
unfolding get_dir lookup
looping-IsInside id e =
    subst (IsInside (λ i. i ≡ 7) tree) (sym e)
      (record { dir = looping; here = refl; above = 7; parent = refl; still = refl })

compute_dir_path-circle_example : compute_dir_path 1000 7 tree ≡ ok none
compute_dir_path-circle_example =
    compute_dir_path-circle (λ i. i ≡ 7) tree looping-IsInside 1000 7 refl

-- The clock.
abbrev now : ℕ → Timestamp
now k = k

-- `d/n/x`, where `n` is a file.
abbrev through : List ℕ
through = 100 ∷ 47 ∷ 110 ∷ 47 ∷ 120 ∷ []

through-new : PathInArchive.new through ≡ ok (docs.name ∷ notes.name ∷ (120 ∷ []) ∷ [])
unfolding PathInArchive.new split walk step Name.new check_validity check_reserved check_chars beq
through-new = refl

docs-new : PathInArchive.new (100 ∷ []) ≡ ok (docs.name ∷ [])
unfolding PathInArchive.new split walk step Name.new check_validity check_reserved check_chars beq
docs-new = refl

get_or_create_dir_at-file_example :
    get_or_create_dir_at now through tree ≡ (failed (file_collision (join (docs.name ∷ []))), tree)
get_or_create_dir_at-file_example =
    get_or_create_dir_at-file now through tree (non_root 1) (docs.name ∷ []) ((120 ∷ []) ∷ [])
      notes.name notes docs-IsAt notes-IsListed through-new

get_or_create_dir_at-existing_example : get_or_create_dir_at now (100 ∷ []) tree ≡ (done docs, tree)
get_or_create_dir_at-existing_example =
    get_or_create_dir_at-existing now (100 ∷ []) tree [] docs at_root docs-IsListed docs-new
