-- ===== src/Data/FtSegment.antt =====
-- crate-lib/src/data/ft_segment.rs: segments of the file table. A segment is 16 bytes, the slots
-- for directories and the slots for files. The numbers of slots are `u32`s, so that no offset
-- below wraps.
pub mod RoundTrip
pub mod InPlace
pub mod Rename
use baf.Base.{
  ℕ, zero, suc, ◌+◌, ◌*◌, ◌^◌, List, [], ◌∷◌, ◌++◌, Option, none, some, Result, and_then, ltb, leb,
  ◌==◌, if◌then◌else◌, length, replicate,
}
use baf.Bytes.{to_le_bytes}
use baf.Source.{Reader, IoError, pure, mapping, ◌>>=◌, ◌>>◌, read_uint, position, set_position}
use baf.Data.Directory
use baf.Data.Directory.{Directory, DirectoryDecodingError, directory_entry_size}
use baf.Data.File
use baf.Data.File.{File, FileDecodingError, file_entry_size}

pub record FileTableSegment : Type 0 where
  pub next_segment_addr : Option ℕ
  pub dirs : List (Option Directory)
  pub files : List (Option File)

pub data FileTableSegmentDecodingError : Type 0 where
  invalid_header io_error : IoError → FileTableSegmentDecodingError
  invalid_directory_entry : ℕ → DirectoryDecodingError → FileTableSegmentDecodingError
  invalid_file_entry : ℕ → FileDecodingError → FileTableSegmentDecodingError

-- `(0..count).map(…).collect::<Result<Vec<_>, _>>()`: entries are read up to the first error,
-- which is reported with the entry's address.
unfoldable pub read_entries :
    {E A : Type 0}
    → (ℕ → E → FileTableSegmentDecodingError)
    → Reader E (Option A)
    → ℕ
    → Reader FileTableSegmentDecodingError (List (Option A))
read_entries wrap consume zero = pure []
read_entries wrap consume (suc count) = do
  ft_entry_addr ← mapping io_error position
  entry ← mapping (wrap ft_entry_addr) consume
  rest ← read_entries wrap consume count
  pure (entry ∷ rest)

unfoldable pub some_addr : ℕ → Option ℕ
some_addr addr = if addr == 0 then none else some addr

unfoldable pub decode : Reader FileTableSegmentDecodingError FileTableSegment
decode = do
  next_segment_addr ← mapping invalid_header (read_uint 8)
  dirs_count ← mapping invalid_header (read_uint 4)
  files_count ← mapping invalid_header (read_uint 4)
  dirs ← read_entries invalid_directory_entry Directory.consume_from_reader dirs_count
  files ← read_entries invalid_file_entry File.consume_from_reader files_count
  pure (record { next_segment_addr = some_addr next_segment_addr; dirs = dirs; files = files })

-- `next_segment_addr.unwrap_or(0)`
unfoldable pub addr_value : Option ℕ → ℕ
addr_value none = 0
addr_value (some addr) = addr

-- `u32::try_from(len).unwrap().to_le_bytes()`; `none` is the panic.
unfoldable pub count_bytes : ℕ → Option (List ℕ)
count_bytes len = if ltb len (2 ^ 32) then some (to_le_bytes 4 len) else none

-- The loops over the slots: an empty one is `size` zeroes.
unfoldable pub encode_slots :
    {A : Type 0} → (A → Option (List ℕ)) → ℕ → List (Option A) → Option (List ℕ)
encode_slots encode_item size [] = some []
encode_slots encode_item size (none ∷ slots) =
    and_then (encode_slots encode_item size slots) λ rest. some (replicate size 0 ++ rest)
encode_slots encode_item size (some item ∷ slots) =
    and_then (encode_item item)
      λ bytes. and_then (encode_slots encode_item size slots) λ rest. some (bytes ++ rest)

unfoldable pub encode : FileTableSegment → Option (List ℕ)
encode segment = and_then (count_bytes (length segment.dirs)) λ dirs_count.
    and_then (count_bytes (length segment.files)) λ files_count.
      and_then (encode_slots Directory.encode directory_entry_size segment.dirs) λ dirs.
        and_then (encode_slots File.encode file_entry_size segment.files) λ files. some (
          to_le_bytes 8 (addr_value segment.next_segment_addr)
          ++ (dirs_count ++ (files_count ++ (dirs ++ files))))

-- `u32::try_from` of the number of slots panics from 2^32 slots on. No segment has as many: those that
-- are decoded or created have counts of 32 bits, which `IsSegment` says too, and no operation adds
-- a slot. So the two offsets have no panic here.
unfoldable pub dir_entry_offset : FileTableSegment → ℕ → Option ℕ
dir_entry_offset segment index =
    if leb (length segment.dirs) index then none else some (16 + index * directory_entry_size)

unfoldable pub file_entry_offset : FileTableSegment → ℕ → Option ℕ
file_entry_offset segment index =
    if leb (length segment.files) index
    then none
    else some (16 + length segment.dirs * directory_entry_size + index * file_entry_size)

unfoldable pub encoded_len : FileTableSegment → ℕ
encoded_len segment =
    16 + length segment.dirs * directory_entry_size + length segment.files * file_entry_size

-- The segment that a decoded one names, with its address; `none` at the end of the chain.
unfoldable pub consume_next_segment :
    FileTableSegment → Option (Reader FileTableSegmentDecodingError (ℕ × FileTableSegment))
consume_next_segment segment = elim segment.next_segment_addr [
  | none ↦ none
  | some addr ↦ some (do mapping io_error (set_position addr); next ← decode; pure (addr, next))
]
