-- ===== src/Iter/Tests.antt =====
-- A small tree of directories, and the iterator over it.
use baf.Base.{◌≡◌, refl, List, [], ◌∷◌, none, some, ok, replicate}
use baf.Base.Maps.{lookup, nat_key}
use baf.Data.Header
use baf.Data.Directory.{Directory, root, non_root}
use baf.Data.File.{File}
use baf.Health.{dir_key, same_dir}
use baf.Archive.{Archive}
use baf.Archive.Read.{DirEntry, dir_entry, file_entry, get_dir, get_file, get_dir_content}
use baf.Iter
use baf.Iter.{
  ArchiveIter, name_leb, insert_by_name, sort_by_name, with_names, ids_of, dir_name, file_name,
  ordered_dirs, ordered_files, collect,
}
use baf.Iter.Order.{Visits}
use baf.Iter.Traversal.{traverse, items, dir_items, file_items, collect-traverse}

abbrev docs : Directory
docs = record { id = 1; parent_dir = root; name = 100 ∷ []; modif_time = 0 }

abbrev art : Directory
art = record { id = 3; parent_dir = root; name = 97 ∷ []; modif_time = 0 }

abbrev notes : File
notes = record {
  id = 2;
  parent_dir = non_root 1;
  name = 110 ∷ [];
  modif_time = 0;
  content_addr = 0;
  content_len = 4;
  sha3_checksum = replicate 32 0;
}

abbrev readme : File
readme = record notes { id = 4; parent_dir = root; name = 65 ∷ [] }

abbrev tree : Archive
tree = record {
  conf = record {
    default_dirs_capacity_by_ft_segment = 10;
    default_files_capacity_by_ft_segment = 20;
    first_segment_dirs_capacity_override = none;
    first_segment_files_capacity_override = none;
  };
  source = record { content = []; pos = 0 };
  header = record { version = Header.one };
  file_segments = [];
  dirs = (1, docs) ∷ (3, art) ∷ [];
  files = (2, notes) ∷ (4, readme) ∷ [];
  dirs_content =
      (
        root,
        record {
          dirs = 1 ∷ 3 ∷ [];
          files = 4 ∷ [];
          names = docs.name ∷ art.name ∷ readme.name ∷ [];
        },
      )
      ∷ (non_root 1, record { dirs = []; files = 2 ∷ []; names = notes.name ∷ [] })
      ∷ (non_root 3, record { dirs = []; files = []; names = [] })
      ∷ [];
  coverage = record { len = 0; segments = [] };
  next_id = 5;
}

abbrev all_items : List DirEntry
all_items = dir_entry art ∷ dir_entry docs ∷ file_entry notes ∷ file_entry readme ∷ []

traversed : traverse 2 tree root ≡ some all_items
unfolding traverse items dir_items file_items get_dir_content get_dir get_file lookup same_dir
    ordered_dirs ordered_files ids_of sort_by_name insert_by_name name_leb with_names dir_name
    file_name
traversed = refl

collect-traverse_example :
    (it : ArchiveIter) × (Iter.new tree root ≡ ok it)
    × (collect 5 tree it ≡ some all_items)
    × Visits 2 tree root all_items
collect-traverse_example = collect-traverse 2 tree root all_items traversed
