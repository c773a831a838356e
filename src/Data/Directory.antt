-- ===== src/Data/Directory.antt =====
-- crate-lib/src/data/directory.rs: directories and their entries of 280 bytes in a segment. The
-- ids, newtypes over `NonZero<u64>`, are the numbers that they wrap. The header that the decoder
-- takes along only fixes the version, of which there is one.
pub mod RoundTrip
use mathlib.Core.Option
use baf.Base.{ℕ, ◌-◌, List, ◌++◌, Option, none, some, ◌==◌, if◌then◌else◌, map_err}
use baf.Bytes.{to_le_bytes}
use baf.Source.{Reader, IoError, pure, from_result, mapping, ◌>>=◌, ◌>>◌, read_uint, advance}
use baf.Data.Name
use baf.Data.Name.{ItemName, NameDecodingError}
use baf.Data.Timestamp
use baf.Data.Timestamp.{Timestamp}

abbrev pub directory_entry_size : ℕ
directory_entry_size = 280

abbrev pub directory_name_offset_in_entry : ℕ
directory_name_offset_in_entry = 16

abbrev pub DirectoryId : Type 0
DirectoryId = ℕ

pub data DirectoryIdOrRoot : Type 0 where
  root : DirectoryIdOrRoot
  non_root : DirectoryId → DirectoryIdOrRoot

pub record Directory : Type 0 where
  pub id : DirectoryId
  pub parent_dir : DirectoryIdOrRoot
  pub name : ItemName
  pub modif_time : Timestamp

pub data DirectoryDecodingError : Type 0 where
  io_error invalid_entry : IoError → DirectoryDecodingError
  invalid_name : NameDecodingError → DirectoryDecodingError

-- `NonZero::new(id)`, and `None` as the root.
unfoldable pub id_or_root : ℕ → DirectoryIdOrRoot
id_or_root id = if id == 0 then root else non_root id

-- `DirectoryIdOrRoot::read_from`
unfoldable pub read_id_or_root : Reader IoError DirectoryIdOrRoot
read_id_or_root = do id ← read_uint 8; pure (id_or_root id)

unfoldable pub read_name : Reader DirectoryDecodingError ItemName
read_name = do
  name ← mapping invalid_entry Name.consume_from_reader
  from_result (map_err invalid_name name)

-- The rest of an entry, behind an id that is not zero.
unfoldable pub read_fields : DirectoryId → Reader DirectoryDecodingError Directory
read_fields id = do
  parent_dir ← mapping invalid_entry read_id_or_root
  name ← read_name
  modif_time ← mapping invalid_entry Timestamp.read_from
  pure (record { id = id; parent_dir = parent_dir; name = name; modif_time = modif_time })

-- What follows the id of an entry; an id of zero marks an empty one.
unfoldable pub read_slot : ℕ → Reader DirectoryDecodingError (Option Directory)
read_slot id =
    if id == 0
    then (do mapping io_error (advance (directory_entry_size - 8)); pure none)
    else (do dir ← read_fields id; pure (some dir))

unfoldable pub consume_from_reader : Reader DirectoryDecodingError (Option Directory)
consume_from_reader = do id ← mapping invalid_entry (read_uint 8); read_slot id

-- The number that stands for a parent in an entry.
unfoldable pub parent_value : DirectoryIdOrRoot → ℕ
parent_value root = 0
parent_value (non_root id) = id

-- `none` where the name's encoding panics.
unfoldable pub encode : Directory → Option (List ℕ)
encode dir =
    Option.map
      (λ name.
        to_le_bytes 8 dir.id
        ++ (to_le_bytes 8 (parent_value dir.parent_dir)
            ++ (name ++ Timestamp.encode dir.modif_time)))
      (Name.encode dir.name)
