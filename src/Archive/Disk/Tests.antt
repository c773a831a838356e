-- ===== src/Archive/Disk/Tests.antt =====
-- A new archive with room for a directory and two files, and the theorems at it.
use baf.Base.{
  ℕ, suc, ◌+◌, ◌^◌, ◌<◌, ◌≡◌, refl, List, [], ◌∷◌, ◌++◌, some, arith, length, length-append,
  replicate, length-replicate, All, All-replicate, beq,
}
use baf.Base.Maps.{lookup, member, nat_key, bytes_key}
use baf.Bytes.{IsByte}
use baf.Source.{Source}
use baf.Source.Overwrite.{length-overwrite}
use baf.Data.Header
use baf.Data.Utf8.{is_utf8}
use baf.Data.Name.{ItemName, check_validity, check_reserved, check_chars}
use baf.Data.Name.Valid.{IsItemName}
use baf.Data.Directory.{root}
use baf.Data.File.{File}
use baf.Data.FtSegment.{FileTableSegment, encoded_len, file_entry_offset}
use baf.Data.FtSegment.RoundTrip.{IsSegment, segment_bytes, length-segment_bytes}
use baf.Health.{no_content, same_dir, dir_key}
use baf.Archive.{Archive, ArchiveConfig, done}
use baf.Archive.Slots.{
  SegmentEntry, file_type, segment_addr, rposition, entry_at, free_index, type_offset, last_free,
}
use baf.Archive.Write.{empty_segment}
use baf.Archive.Create.{create, create_file, first_segment}
use baf.Archive.Create.Fresh.{
  IsConfig, header_bytes, length_header, new_archive, first_segment-IsSegment,
}
use baf.Archive.Create.Steps.{moved}
use baf.Archive.Open.{load, segments_of, open_archive}
use baf.Archive.Read.{read_file_to_vec}
use baf.Archive.Disk.{IsOnDisk}
use baf.Archive.Disk.New.{new_archive-IsOnDisk, create-IsOnDisk}
use baf.Archive.Disk.AddedFile.{IsFiled, file_of}
use baf.Archive.Disk.CreatedFile.{MayCreateFile, IsEntered, create_file-IsFiled}
use baf.Archive.Disk.ReadBack.{read_file_to_vec-create_file}
use baf.Archive.Disk.Reopened.{open_archive-IsOnDisk}

abbrev conf : ArchiveConfig
conf = record {
  default_dirs_capacity_by_ft_segment = 10;
  default_files_capacity_by_ft_segment = 20;
  first_segment_dirs_capacity_override = some 1;
  first_segment_files_capacity_override = some 2;
}

conf-IsConfig : IsConfig conf
conf-IsConfig = record {
  default_dirs = omega arith;
  default_files = omega arith;
  first_dirs = omega arith;
  first_files = omega arith;
}

abbrev stream : Source
stream = record { content = 7 ∷ 7 ∷ 7 ∷ []; pos = 2 }

create-IsOnDisk_example : (a : Archive) × (create stream conf ≡ done a) × IsOnDisk a
create-IsOnDisk_example = create-IsOnDisk stream conf conf-IsConfig (omega arith)

abbrev empty : Archive
empty = new_archive conf (segment_bytes (first_segment conf)) stream.content

first-IsSegment : IsSegment (first_segment conf)
first-IsSegment = first_segment-IsSegment conf conf-IsConfig

empty-IsOnDisk : IsOnDisk empty
empty-IsOnDisk = new_archive-IsOnDisk conf stream.content first-IsSegment (omega arith)

open_archive-IsOnDisk_example :
    (chain : List (ℕ × FileTableSegment)) × (end : ℕ) × (open_archive 1 empty.source.content conf
      ≡ load conf Header.default chain (record { content = empty.source.content; pos = end }))
    × (segments_of chain ≡ empty.file_segments)
open_archive-IsOnDisk_example = open_archive-IsOnDisk 1 empty conf empty-IsOnDisk (omega arith)

abbrev letter : ItemName
letter = 97 ∷ []

letter-IsItemName : IsItemName letter
unfolding check_validity check_reserved check_chars beq is_utf8
letter-IsItemName = record { valid = refl; utf8 = refl }

abbrev file_place : SegmentEntry
file_place = record { segment_index = 0; entry_index = 1; entry_addr = 880 }

file_room : last_free empty.file_segments file_type 0 empty.file_segments ≡ some (some file_place)
unfolding last_free entry_at free_index type_offset file_entry_offset rposition segment_addr
    first_segment empty_segment
file_room = refl

content_size : length empty.source.content + 3 < 2 ^ 64
unfolding encoded_len first_segment empty_segment
content_size = omega (
  arith,
  length-overwrite 0 (header_bytes ++ segment_bytes (first_segment conf)) stream.content
      (omega arith),
  length-append header_bytes (segment_bytes (first_segment conf)),
  length_header,
  length-segment_bytes (first_segment conf) first-IsSegment,
)

may_create_file : MayCreateFile root letter 5 (1 ∷ 2 ∷ 3 ∷ []) file_place empty
unfolding lookup member same_dir
may_create_file = record {
  may = record {
    content = no_content;
    listed = refl;
    fresh_name = refl;
    fresh_id = refl;
    not_indexed = refl;
    id_left = omega arith;
    id = (omega arith, omega arith);
    parent_dir = tt;
    valid_name = letter-IsItemName;
    modif_time = omega arith;
  };
  slot = file_room;
  bound = content_size;
}

-- A function in place of the hash.
abbrev hash : List ℕ → List ℕ
hash bytes = replicate 32 3

hash_size : (bs : List ℕ) → length (hash bs) ≡ 32
hash_size bs = length-replicate {A = ℕ} 32 3

hash_bytes : (bs : List ℕ) → All IsByte (hash bs)
hash_bytes bs = All-replicate IsByte 32 3 (omega arith)

create_file-IsFiled_example :
    (b : Archive) × (f : File) × (create_file hash root letter 5 (1 ∷ 2 ∷ 3 ∷ []) empty
      ≡ (done f.id, b))
    × (f ≡ file_of hash root letter 5 (1 ∷ 2 ∷ 3 ∷ []) f.content_addr empty)
    × IsEntered f file_place empty b
    × IsFiled hash (1 ∷ 2 ∷ 3 ∷ []) f b
create_file-IsFiled_example =
    create_file-IsFiled hash hash_size hash_bytes root letter 5 (1 ∷ 2 ∷ 3 ∷ []) file_place empty
      empty-IsOnDisk may_create_file

read_file_to_vec-create_file_example :
    (b : Archive) × (id pos : ℕ) × (create_file hash root letter 5 (1 ∷ 2 ∷ 3 ∷ []) empty
      ≡ (done id, b))
    × (read_file_to_vec hash suc id b ≡ (done (1 ∷ 2 ∷ 3 ∷ []), moved pos b))
read_file_to_vec-create_file_example =
    read_file_to_vec-create_file hash suc (λ k. omega arith) hash_size hash_bytes root letter 5
      (1 ∷ 2 ∷ 3 ∷ []) file_place empty empty-IsOnDisk may_create_file
