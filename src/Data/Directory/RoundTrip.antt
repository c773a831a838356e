-- ===== src/Data/Directory/RoundTrip.antt =====
-- Encoding a directory's entry and reading it back.
use baf.Base.{
  ℕ, false, ◌^◌, ◌<◌, ◌≡◌, refl, List, ◌++◌, none, some, ok, arith, length, length-append,
  append-nil, replicate, ◌==◌, map_err,
}
use baf.Bytes.{to_le_bytes, length-to_le_bytes}
use baf.Source.{from_result, mapping, read_uint, advance}
use baf.Source.Reads.{
  Reads, Reads-bind, Reads-map, Reads-mapping, Reads-read_uint, Reads-from_result, Reads-advance,
}
use baf.Data.Name
use baf.Data.Name.{ItemName, NameDecodingError, padded}
use baf.Data.Name.Valid.{IsItemName}
use baf.Data.Name.RoundTrip.{Reads-name, encode-padded, length-padded_name}
use baf.Data.Timestamp
use baf.Data.Directory.{
  Directory, DirectoryIdOrRoot, root, non_root, invalid_entry, io_error, invalid_name, parent_value,
  id_or_root, read_id_or_root, read_name, read_fields, read_slot, consume_from_reader, encode,
  directory_entry_size,
}

abbrev pub IsU64 : ℕ → Type 0
IsU64 x = x < 2 ^ 64

-- What the types of Rust guarantee of an id: a `NonZero<u64>`.
abbrev pub IsId : ℕ → Type 0
IsId id = (0 < id) × IsU64 id

abbrev pub IsParent : DirectoryIdOrRoot → Type 0
IsParent root = Unit {0}
IsParent (non_root id) = IsId id

-- What the types of Rust guarantee of a `Directory`.
pub record IsDirectory (dir : Directory) : Type 0 where
  pub id : IsId dir.id
  pub parent_dir : IsParent dir.parent_dir
  pub name : IsItemName dir.name
  pub modif_time : IsU64 dir.modif_time

parent_value-IsU64 : (p : DirectoryIdOrRoot) → IsParent p → IsU64 (parent_value p)
unfolding parent_value
parent_value-IsU64 root h = omega arith
parent_value-IsU64 (non_root id) h = h.1

id_or_root-parent_value : (p : DirectoryIdOrRoot) → IsParent p → id_or_root (parent_value p) ≡ p
unfolding parent_value id_or_root
id_or_root-parent_value root h = refl
id_or_root-parent_value (non_root id) h = ground arith

pub Reads-parent :
    (p : DirectoryIdOrRoot) → IsParent p → Reads read_id_or_root (to_le_bytes 8 (parent_value p)) p
unfolding read_id_or_root
Reads-parent p h = rw (id_or_root-parent_value p h) at (
    Reads-map (read_uint 8) id_or_root
      (Reads-read_uint 8 (parent_value p) (parent_value-IsU64 p h)))

pub Reads-timestamp : (t : ℕ) → IsU64 t → Reads Timestamp.read_from (Timestamp.encode t) t
unfolding Timestamp.read_from Timestamp.encode
Reads-timestamp t h = Reads-read_uint 8 t h

Reads-read_name : (name : List ℕ) → IsItemName name → Reads read_name (padded name) name
unfolding read_name
Reads-read_name name h = rw (append-nil (padded name)) at (
    Reads-bind (mapping invalid_entry Name.consume_from_reader)
      (λ r. from_result (map_err invalid_name r))
      (Reads-mapping invalid_entry Name.consume_from_reader (Reads-name name h))
      (Reads-from_result (map_err invalid_name (ok name)) refl))

-- The bytes of an entry behind its id.
abbrev fields_of : Directory → List ℕ
fields_of dir =
    to_le_bytes 8 (parent_value dir.parent_dir)
    ++ (padded dir.name ++ Timestamp.encode dir.modif_time)

abbrev pub entry_of : Directory → List ℕ
entry_of dir = to_le_bytes 8 dir.id ++ fields_of dir

Reads-read_fields :
    (dir : Directory) → IsDirectory dir → Reads (read_fields dir.id) (fields_of dir) dir
unfolding read_fields
Reads-read_fields dir h =
    Reads-bind (mapping invalid_entry read_id_or_root) _
      (Reads-mapping invalid_entry _ (Reads-parent dir.parent_dir h.parent_dir))
      (Reads-bind read_name _ (Reads-read_name dir.name h.name) (
        Reads-map (mapping invalid_entry Timestamp.read_from)
          (λ t. record {
            id = dir.id;
            parent_dir = dir.parent_dir;
            name = dir.name;
            modif_time = t;
          })
          (Reads-mapping invalid_entry _ (Reads-timestamp dir.modif_time h.modif_time))))

Reads-read_slot :
    (dir : Directory) → IsDirectory dir → Reads (read_slot dir.id) (fields_of dir) (some dir)
unfolding read_slot
Reads-read_slot dir h =
    let filled : (dir.id == 0) ≡ false = ground arith in
    rw filled (Reads-map (read_fields dir.id) (λ d. some d) (Reads-read_fields dir h))

pub Reads-entry :
    (dir : Directory) → IsDirectory dir → Reads consume_from_reader (entry_of dir) (some dir)
unfolding consume_from_reader
Reads-entry dir h =
    Reads-bind (mapping invalid_entry (read_uint 8)) read_slot
      (Reads-mapping invalid_entry _ (Reads-read_uint 8 dir.id h.id.1)) (Reads-read_slot dir h)

-- An empty slot is 280 zeroes.
pub Reads-empty : Reads consume_from_reader (replicate 280 0) none
unfolding consume_from_reader read_slot to_le_bytes
Reads-empty =
    Reads-bind (mapping invalid_entry (read_uint 8)) read_slot {bs = replicate 8 0}
      {cs = replicate 272 0} (Reads-mapping invalid_entry _ (Reads-read_uint 8 0 (omega arith)))
      (Reads-map (mapping io_error (advance 272)) (λ _. none)
        (Reads-mapping io_error _ (Reads-advance 272 (replicate 272 0) refl)))

pub length-entry : (dir : Directory) → IsDirectory dir → length (entry_of dir) ≡ 280
unfolding Timestamp.encode
length-entry dir h = omega (
  arith,
  length-append (to_le_bytes 8 dir.id) (fields_of dir),
  length-append (to_le_bytes 8 (parent_value dir.parent_dir))
      (padded dir.name ++ to_le_bytes 8 dir.modif_time),
  length-append (padded dir.name) (to_le_bytes 8 dir.modif_time),
  length-to_le_bytes 8 dir.id,
  length-to_le_bytes 8 (parent_value dir.parent_dir),
  length-to_le_bytes 8 dir.modif_time,
  length-padded_name dir.name h.name,
)

pub encode-entry : (dir : Directory) → IsDirectory dir → encode dir ≡ some (entry_of dir)
unfolding encode
encode-entry dir h = rw (encode-padded dir.name h.name)

-- A directory that its type allows is encoded to 280 bytes; reading an entry where these bytes
-- stand, whatever follows them, takes exactly them and gives the directory.
pub read-encode_directory :
    (dir : Directory)
    → IsDirectory dir
    → (bytes : List ℕ) × (encode dir ≡ some bytes)
      × (length bytes ≡ directory_entry_size)
      × Reads consume_from_reader bytes (some dir)
read-encode_directory dir h =
    (entry_of dir, encode-entry dir h, length-entry dir h, Reads-entry dir h)
