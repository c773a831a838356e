-- ===== src/Health/Tests.antt =====
-- File tables, and the theorems at them.
use baf.Base.{◌≡◌, refl, true, List, [], ◌∷◌, none, some, ok, beq, All}
use baf.Base.Maps.{lookup, insert, member, include}
use baf.Data.Directory.{Directory, root, non_root}
use baf.Data.File.{File}
use baf.Data.FtSegment.{FileTableSegment}
use baf.Health.{
  Contents, check_file_table_correctness, verdict, each, all_dirs, all_files, filled, register_dir,
  list_dir, list_file, same_dir,
}
use baf.Health.Distinct.{
  AllDiffer, place_of_dir, place_of_file, is_listed, check_file_table_correctness-AllDiffer,
}
use baf.Health.Gaps.{two_files, same_file_id_accepted}

abbrev in_root : File
in_root = record {
  id = 3;
  parent_dir = root;
  name = b'a' ∷ [];
  modif_time = 0;
  content_addr = 0;
  content_len = 0;
  sha3_checksum = [];
}

abbrev in_seven : File
in_seven = record in_root { parent_dir = non_root 7 }

same_file_id_accepted_example :
    (m : Contents) × (check_file_table_correctness (two_files in_root in_seven ∷ []) ≡ ok m)
same_file_id_accepted_example = same_file_id_accepted in_root in_seven refl (λ e. cc)

-- A directory, a file in it, and a file beside it with the same name as the file in it.
abbrev docs : Directory
docs = record { id = 1; parent_dir = root; name = b'd' ∷ []; modif_time = 0 }

abbrev in_docs : File
in_docs = record in_root { id = 4; parent_dir = non_root 1 }

abbrev sound : List FileTableSegment
sound =
    record { next_segment_addr = none; dirs = some docs ∷ none ∷ []; files = some in_docs ∷ [] }
    ∷ record { next_segment_addr = none; dirs = []; files = none ∷ some in_root ∷ [] }
    ∷ []

abbrev sound_contents : Contents
sound_contents =
    (root, record { dirs = 1 ∷ []; files = 3 ∷ []; names = (b'a' ∷ []) ∷ (b'd' ∷ []) ∷ [] })
    ∷ (non_root 1, record { dirs = []; files = 4 ∷ []; names = (b'a' ∷ []) ∷ [] })
    ∷ []

sound-check : check_file_table_correctness sound ≡ ok sound_contents
unfolding check_file_table_correctness verdict each all_dirs all_files filled register_dir list_dir
    list_file lookup insert member include same_dir beq
sound-check = refl

check_file_table_correctness-AllDiffer_example :
    AllDiffer (place_of_dir docs ∷ place_of_file in_docs ∷ place_of_file in_root ∷ [])
    × All
        (λ p. is_listed sound_contents p ≡ true)
        (place_of_dir docs ∷ place_of_file in_docs ∷ place_of_file in_root ∷ [])
unfolding all_dirs all_files filled
check_file_table_correctness-AllDiffer_example =
    check_file_table_correctness-AllDiffer sound sound_contents sound-check
