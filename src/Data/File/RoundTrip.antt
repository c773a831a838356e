-- ===== src/Data/File/RoundTrip.antt =====
-- Encoding a file's entry and reading it back.
use baf.Base.{
  ℕ, false, ◌≡◌, refl, List, ◌++◌, none, some, ok, arith, length, length-append, append-nil,
  replicate, ◌==◌, map_err, All,
}
use baf.Bytes.{to_le_bytes, length-to_le_bytes, IsByte}
use baf.Source.{from_result, mapping, read_uint, read_array, advance}
use baf.Source.Reads.{
  Reads, Reads-bind, Reads-map, Reads-mapping, Reads-read_uint, Reads-from_result, Reads-advance,
  Reads-read_array_bytes,
}
use baf.Data.Name
use baf.Data.Name.{padded}
use baf.Data.Name.Valid.{IsItemName}
use baf.Data.Name.RoundTrip.{Reads-name, encode-padded, length-padded_name}
use baf.Data.Timestamp
use baf.Data.Directory.{read_id_or_root, parent_value}
use baf.Data.Directory.RoundTrip.{IsU64, IsId, IsParent, Reads-parent, Reads-timestamp}
use baf.Data.File.{
  File, invalid_entry, io_error, invalid_name, read_name, read_fields, read_slot,
  consume_from_reader, encode, file_entry_size,
}

-- What the types of Rust guarantee of a `File`.
pub record IsFile (file : File) : Type 0 where
  pub id : IsId file.id
  pub parent_dir : IsParent file.parent_dir
  pub name : IsItemName file.name
  pub modif_time : IsU64 file.modif_time
  pub content_addr : IsU64 file.content_addr
  pub content_len : IsU64 file.content_len
  pub checksum_size : length file.sha3_checksum ≡ 32
  pub checksum_bytes : All IsByte file.sha3_checksum

Reads-read_name : (name : List ℕ) → IsItemName name → Reads read_name (padded name) name
unfolding read_name
Reads-read_name name h = rw (append-nil (padded name)) at (
    Reads-bind (mapping invalid_entry Name.consume_from_reader)
      (λ r. from_result (map_err invalid_name r))
      (Reads-mapping invalid_entry Name.consume_from_reader (Reads-name name h))
      (Reads-from_result (map_err invalid_name (ok name)) refl))

-- The bytes of an entry from the content's address on, and behind its id.
abbrev content_of : File → List ℕ
content_of file =
    to_le_bytes 8 file.content_addr ++ (to_le_bytes 8 file.content_len ++ file.sha3_checksum)

abbrev fields_of : File → List ℕ
fields_of file =
    to_le_bytes 8 (parent_value file.parent_dir)
    ++ (padded file.name ++ (Timestamp.encode file.modif_time ++ content_of file))

abbrev pub entry_of : File → List ℕ
entry_of file = to_le_bytes 8 file.id ++ fields_of file

Reads-read_fields : (file : File) → IsFile file → Reads (read_fields file.id) (fields_of file) file
unfolding read_fields
Reads-read_fields file h =
    Reads-bind (mapping invalid_entry read_id_or_root) _
      (Reads-mapping invalid_entry _ (Reads-parent file.parent_dir h.parent_dir))
      (Reads-bind read_name _ (Reads-read_name file.name h.name) (
        Reads-bind (mapping invalid_entry Timestamp.read_from) _
          (Reads-mapping invalid_entry _ (Reads-timestamp file.modif_time h.modif_time))
          (Reads-bind (mapping invalid_entry (read_uint 8)) _
            (Reads-mapping invalid_entry _ (Reads-read_uint 8 file.content_addr h.content_addr))
            (Reads-bind (mapping invalid_entry (read_uint 8)) _
              (Reads-mapping invalid_entry _ (Reads-read_uint 8 file.content_len h.content_len))
              (Reads-map (mapping invalid_entry (read_array 32 (read_uint 1)))
                (λ sum. record file { sha3_checksum = sum })
                (Reads-mapping invalid_entry _ (
                  Reads-read_array_bytes 32 file.sha3_checksum h.checksum_size
                    h.checksum_bytes)))))))

Reads-read_slot :
    (file : File) → IsFile file → Reads (read_slot file.id) (fields_of file) (some file)
unfolding read_slot
Reads-read_slot file h =
    let filled : (file.id == 0) ≡ false = ground arith in
    rw filled (Reads-map (read_fields file.id) (λ f. some f) (Reads-read_fields file h))

pub Reads-entry :
    (file : File) → IsFile file → Reads consume_from_reader (entry_of file) (some file)
unfolding consume_from_reader
Reads-entry file h =
    Reads-bind (mapping invalid_entry (read_uint 8)) read_slot
      (Reads-mapping invalid_entry _ (Reads-read_uint 8 file.id h.id.1)) (Reads-read_slot file h)

-- An empty slot is 328 zeroes.
pub Reads-empty : Reads consume_from_reader (replicate 328 0) none
unfolding consume_from_reader read_slot to_le_bytes
Reads-empty =
    Reads-bind (mapping invalid_entry (read_uint 8)) read_slot {bs = replicate 8 0}
      {cs = replicate 320 0} (Reads-mapping invalid_entry _ (Reads-read_uint 8 0 (omega arith)))
      (Reads-map (mapping io_error (advance 320)) (λ _. none)
        (Reads-mapping io_error _ (Reads-advance 320 (replicate 320 0) refl)))

length-content_of : (file : File) → IsFile file → length (content_of file) ≡ 48
length-content_of file h = omega (
  arith,
  length-append (to_le_bytes 8 file.content_addr)
      (to_le_bytes 8 file.content_len ++ file.sha3_checksum),
  length-append (to_le_bytes 8 file.content_len) file.sha3_checksum,
  length-to_le_bytes 8 file.content_addr,
  length-to_le_bytes 8 file.content_len,
)

pub length-entry : (file : File) → IsFile file → length (entry_of file) ≡ 328
unfolding Timestamp.encode
length-entry file h = omega (
  arith,
  length-append (to_le_bytes 8 file.id) (fields_of file),
  length-append (to_le_bytes 8 (parent_value file.parent_dir))
      (padded file.name ++ (to_le_bytes 8 file.modif_time ++ content_of file)),
  length-append (padded file.name) (to_le_bytes 8 file.modif_time ++ content_of file),
  length-append (to_le_bytes 8 file.modif_time) (content_of file),
  length-to_le_bytes 8 file.id,
  length-to_le_bytes 8 (parent_value file.parent_dir),
  length-to_le_bytes 8 file.modif_time,
  length-padded_name file.name h.name,
  length-content_of file h,
)

pub encode-entry : (file : File) → IsFile file → encode file ≡ some (entry_of file)
unfolding encode
encode-entry file h = rw (encode-padded file.name h.name)

-- A file that its type allows is encoded to 328 bytes; reading an entry where these bytes stand,
-- whatever follows them, takes exactly them and gives the file.
pub read-encode_file :
    (file : File)
    → IsFile file
    → (bytes : List ℕ) × (encode file ≡ some bytes)
      × (length bytes ≡ file_entry_size)
      × Reads consume_from_reader bytes (some file)
read-encode_file file h =
    (entry_of file, encode-entry file h, length-entry file h, Reads-entry file h)
