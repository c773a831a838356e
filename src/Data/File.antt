-- ===== src/Data/File.antt =====
-- crate-lib/src/data/file.rs: files and their entries of 328 bytes in a segment.
pub mod RoundTrip
use mathlib.Core.Option
use baf.Base.{ℕ, ◌-◌, List, ◌++◌, Option, none, some, ◌==◌, if◌then◌else◌, map_err}
use baf.Bytes.{to_le_bytes}
use baf.Source.{
  Reader, IoError, pure, from_result, mapping, ◌>>=◌, ◌>>◌, read_uint, read_array, advance,
}
use baf.Data.Name
use baf.Data.Name.{ItemName, NameDecodingError}
use baf.Data.Timestamp
use baf.Data.Timestamp.{Timestamp}
use baf.Data.Directory.{DirectoryIdOrRoot, read_id_or_root, parent_value}

abbrev pub file_entry_size : ℕ
file_entry_size = 328

abbrev pub file_name_offset_in_entry : ℕ
file_name_offset_in_entry = 16

abbrev pub FileId : Type 0
FileId = ℕ

pub record File : Type 0 where
  pub id : FileId
  pub parent_dir : DirectoryIdOrRoot
  pub name : ItemName
  pub modif_time : Timestamp
  pub content_addr : ℕ
  pub content_len : ℕ
  pub sha3_checksum : List ℕ

pub data FileDecodingError : Type 0 where
  io_error invalid_entry : IoError → FileDecodingError
  invalid_name : NameDecodingError → FileDecodingError

unfoldable pub read_name : Reader FileDecodingError ItemName
read_name = do
  name ← mapping invalid_entry Name.consume_from_reader
  from_result (map_err invalid_name name)

-- The rest of an entry, behind an id that is not zero.
unfoldable pub read_fields : FileId → Reader FileDecodingError File
read_fields id = do
  parent_dir ← mapping invalid_entry read_id_or_root
  name ← read_name
  modif_time ← mapping invalid_entry Timestamp.read_from
  content_addr ← mapping invalid_entry (read_uint 8)
  content_len ← mapping invalid_entry (read_uint 8)
  sha3_checksum ← mapping invalid_entry (read_array 32 (read_uint 1))
  pure (record {
    id = id;
    parent_dir = parent_dir;
    name = name;
    modif_time = modif_time;
    content_addr = content_addr;
    content_len = content_len;
    sha3_checksum = sha3_checksum;
  })

-- What follows the id of an entry; an id of zero marks an empty one.
unfoldable pub read_slot : ℕ → Reader FileDecodingError (Option File)
read_slot id =
    if id == 0
    then (do mapping io_error (advance (file_entry_size - 8)); pure none)
    else (do file ← read_fields id; pure (some file))

unfoldable pub consume_from_reader : Reader FileDecodingError (Option File)
consume_from_reader = do id ← mapping invalid_entry (read_uint 8); read_slot id

-- `none` where the name's encoding panics.
unfoldable pub encode : File → Option (List ℕ)
encode file =
    Option.map
      (λ name.
        to_le_bytes 8 file.id
        ++ (to_le_bytes 8 (parent_value file.parent_dir)
            ++ (name
                ++ (Timestamp.encode file.modif_time
                    ++ (to_le_bytes 8 file.content_addr
                        ++ (to_le_bytes 8 file.content_len ++ file.sha3_checksum))))))
      (Name.encode file.name)
