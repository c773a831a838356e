-- ===== src/Archive/Tests.antt =====
-- Concrete archives, and the theorems at them.
use baf.Base.{
  All, ◌<◌, ◌^◌, ℕ, zero, suc, ◌≡◌, refl, arith, List, [], ◌∷◌, ◌++◌, Option, none, some, length,
  replicate, get_elem?, subst, ap,
}
use baf.Base.Maps.{bytes_key}
use baf.Bytes.{to_le_bytes}
use baf.Source.{Source}
use baf.Data.Header
use baf.Data.Directory.{Directory, root}
use baf.Data.File.{File}
use baf.Data.FtSegment
use baf.Data.FtSegment.{FileTableSegment, count_bytes, encode_slots, addr_value}
use baf.Data.FtSegment.RoundTrip.{IsSegment}
use baf.Health.{directory, file, no_content, dir_key}
use baf.Archive.{Archive, ArchiveConfig, done, failed, file_not_found}
use baf.Archive.Slots.{SegmentEntry, get_item_entry}
use baf.Archive.Slots.Find.{HasItem, IsFound, get_item_entry_lem}
use baf.Archive.Write.{write_data_where_possible}
use baf.Archive.Write.Stored.{IsTracked, IsStored, write_data_where_possible_lem}
use baf.Archive.Create.{create}
use baf.Archive.Create.Fresh.{IsConfig}
use baf.Archive.Change.{replace_file_content, rename_file}
use baf.Archive.Remove.{remove_file}
use baf.Archive.Open.{next_id_after, max_key, opened, open_archive, out_of_fuel}
use baf.Archive.Open.Created.{open_archive-create}
use baf.Archive.Open.NextId.{next_id_after-max_key}
use baf.Archive.Open.Cycle.{open_archive-cycle}
use baf.Archive.Refused.{IsAbsent, absent_file}

-- One slot for directories and two for files in the first segment.
abbrev conf : ArchiveConfig
conf = record {
  default_dirs_capacity_by_ft_segment = 10;
  default_files_capacity_by_ft_segment = 20;
  first_segment_dirs_capacity_override = some 1;
  first_segment_files_capacity_override = some 2;
}

conf-IsConfig : IsConfig conf
conf-IsConfig = record {
  default_dirs = omega arith;
  default_files = omega arith;
  first_dirs = omega arith;
  first_files = omega arith;
}

-- A stream that was not empty before.
abbrev stream : Source
stream = record { content = 7 ∷ 7 ∷ 7 ∷ []; pos = 2 }

open_archive-create_example :
    (a : Archive) × (create stream conf ≡ done a)
    × ((fuel : ℕ) → open_archive (suc fuel) a.source.content conf ≡ opened a)
open_archive-create_example = open_archive-create stream conf conf-IsConfig

-- Twelve bytes, of which four and two are in use; five of those between are free.
abbrev small : Archive
small = record {
  conf = conf;
  source = record { content = replicate 12 1; pos = 0 };
  header = record { version = Header.one };
  file_segments = [];
  dirs = [];
  files = [];
  dirs_content = (root, no_content) ∷ [];
  coverage = record {
    len = 12;
    segments = record { start = 0; len = 4 } ∷ record { start = 9; len = 2 } ∷ [];
  };
  next_id = 1;
}

small-IsTracked : IsTracked small
small-IsTracked = record {
  sound = record { chain = omega arith; within = omega arith; len = omega arith };
  len = refl;
}

write_data_where_possible_lem_example :
    (addr : ℕ) × (b : Archive) × (write_data_where_possible (5 ∷ 6 ∷ 7 ∷ []) small
      ≡ (done (addr, 5 ∷ 6 ∷ 7 ∷ []), b))
    × IsStored (5 ∷ 6 ∷ 7 ∷ []) small addr b
write_data_where_possible_lem_example =
    write_data_where_possible_lem (5 ∷ 6 ∷ 7 ∷ []) small small-IsTracked (omega arith)

-- A segment with a directory and a file in its slots, and one empty slot for a file.
abbrev docs : Directory
docs = record { id = 1; parent_dir = root; name = 100 ∷ []; modif_time = 0 }

abbrev notes : File
notes = record {
  id = 2;
  parent_dir = root;
  name = 110 ∷ [];
  modif_time = 0;
  content_addr = 0;
  content_len = 4;
  sha3_checksum = replicate 32 0;
}

abbrev table : List FileTableSegment
table =
    record { next_segment_addr = none; dirs = some docs ∷ []; files = none ∷ some notes ∷ [] } ∷ []

get_item_entry_lem_example :
    (o : Option SegmentEntry) × (get_item_entry table (file 2) ≡ some o) × IsFound table (file 2) o
get_item_entry_lem_example = get_item_entry_lem table (file 2) tt

abbrev filed : Archive
filed = record small {
  file_segments = table;
  dirs_content = (root, record { dirs = 1 ∷ []; files = 2 ∷ []; names = docs.name ∷ [] }) ∷ [];
}

-- A function in place of the hash.
abbrev hash : List ℕ → List ℕ
hash bytes = replicate 32 (length bytes)

abbrev first : FileTableSegment
first = record { next_segment_addr = none; dirs = some docs ∷ []; files = none ∷ some notes ∷ [] }

only_first :
    (i : ℕ) (segment : FileTableSegment) → get_elem? table i ≡ some segment → segment ≡ first
only_first zero segment e = cc
only_first (suc i) segment e = absurd (ground arith)

not_file_9 : (j : ℕ) → HasItem (file 9) first j → ⊥
not_file_9 zero (f, at, e) = ground arith
not_file_9 (suc zero) (f, at, e) =
    let same : notes ≡ f = cc in let id : 2 ≡ f.id = ap (λ x. x.id) same in omega (arith, id, e)
not_file_9 (suc (suc j)) (f, at, e) = ground arith

not_dir_9 : (j : ℕ) → HasItem (directory 9) first j → ⊥
not_dir_9 zero (dir, at, e) =
    let same : docs ≡ dir = cc in let id : 1 ≡ dir.id = ap (λ x. x.id) same in omega (arith, id, e)
not_dir_9 (suc j) (dir, at, e) = ground arith

no_file_9 : IsAbsent table (file 9)
no_file_9 i j segment e has =
    not_file_9 j (subst (λ s. HasItem (file 9) s j) (only_first i segment e) has)

absent_file_example :
    (remove_file 9 filed ≡ (failed file_not_found, filed))
    × (rename_file 9 (97 ∷ []) filed ≡ (failed file_not_found, filed))
    × (replace_file_content hash 9 5 (1 ∷ []) filed ≡ (failed file_not_found, filed))
absent_file_example = absent_file hash 9 (97 ∷ []) 5 (1 ∷ []) filed tt no_file_9

abbrev looping : FileTableSegment
looping = record { next_segment_addr = some 256; dirs = []; files = [] }

looping-IsSegment : IsSegment looping
looping-IsSegment = record {
  next_segment_addr = (omega arith, omega arith);
  dirs_count = omega arith;
  files_count = omega arith;
  dirs = tt;
  files = tt;
}

abbrev looping_bytes : List ℕ
looping_bytes = 0 ∷ 1 ∷ replicate 14 0

looping_encoded : FtSegment.encode looping ≡ some looping_bytes
unfolding FtSegment.encode count_bytes encode_slots addr_value to_le_bytes
looping_encoded = refl

open_archive-cycle_example :
    open_archive 1000 (Header.encode Header.default ++ (looping_bytes ++ (5 ∷ []))) conf
    ≡ out_of_fuel
open_archive-cycle_example =
    open_archive-cycle looping looping_bytes (5 ∷ []) conf 1000 looping-IsSegment refl
      looping_encoded

next_id_after-max_key_example :
    All (λ (e : ℕ × Directory). e.0 < 8) ((1, docs) ∷ [])
    × All (λ (e : ℕ × File). e.0 < 8) ((2, notes) ∷ (7, notes) ∷ [])
    × (0 < 8)
    × (8 < 2 ^ 64)
next_id_after-max_key_example =
    next_id_after-max_key ((1, docs) ∷ []) ((2, notes) ∷ (7, notes) ∷ []) 8
      (unfold next_id_after max_key in refl)
