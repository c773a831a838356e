-- ===== src/Data/FtSegment/RoundTrip.antt =====
-- Encoding a segment and decoding it where its bytes stand.
use baf.Base.{
  ℕ, ◌*◌, ◌^◌, ◌<◌, ◌≡◌, refl, List, [], ◌∷◌, ◌++◌, Option, none, some, arith, length,
  length-append, length-replicate, replicate, lt→ltb, All,
}
use baf.Bytes.{to_le_bytes, length-to_le_bytes}
use baf.Source.{Reader, mapping, read_uint}
use baf.Source.Reads.{
  Reads, Reads-bind, Reads-map, Reads-mapping, Reads-read_uint, Reads-pure, Reads-position,
}
use baf.Data.Directory
use baf.Data.Directory.{Directory}
use baf.Data.Directory.RoundTrip as DirectoryEntry
use baf.Data.Directory.RoundTrip.{IsU64, IsDirectory}
use baf.Data.File
use baf.Data.File.{File}
use baf.Data.File.RoundTrip as FileEntry
use baf.Data.File.RoundTrip.{IsFile}
use baf.Data.FtSegment.{
  FileTableSegment, FileTableSegmentDecodingError, invalid_header, io_error,
  invalid_directory_entry, invalid_file_entry, read_entries, some_addr, decode, addr_value,
  count_bytes, encode_slots, encode, encoded_len,
}

abbrev pub IsAddr : Option ℕ → Type 0
IsAddr none = Unit {0}
IsAddr (some addr) = (0 < addr) × IsU64 addr

abbrev pub Slot : {A : Type 0} → (A → Type 0) → Option A → Type 0
Slot P none = Unit {0}
Slot P (some a) = P a

-- What the types of Rust guarantee of a segment; an address is not 0, which stands for none.
pub record IsSegment (segment : FileTableSegment) : Type 0 where
  pub next_segment_addr : IsAddr segment.next_segment_addr
  pub dirs_count : length segment.dirs < 2 ^ 32
  pub files_count : length segment.files < 2 ^ 32
  pub dirs : All (Slot IsDirectory) segment.dirs
  pub files : All (Slot IsFile) segment.files

-- The bytes of a slot, and of a row of slots.
abbrev pub slot_bytes : {A : Type 0} → (A → List ℕ) → ℕ → Option A → List ℕ
slot_bytes entry size none = replicate size 0
slot_bytes entry size (some a) = entry a

abbrev pub row : {A : Type 0} → (A → List ℕ) → ℕ → List (Option A) → List ℕ
row entry size [] = []
row entry size (slot ∷ slots) = slot_bytes entry size slot ++ row entry size slots

module _ {A : Type 0} (P : A → Type 0) (entry : A → List ℕ) (size : ℕ)
    (sized : (a : A) → P a → length (entry a) ≡ size) where
  pub length-slot_bytes :
      (slot : Option A) → Slot P slot → length (slot_bytes entry size slot) ≡ size
  length-slot_bytes none h = length-replicate size 0
  length-slot_bytes (some a) h = sized a h

  pub length-row :
      (slots : List (Option A))
      → All (Slot P) slots
      → length (row entry size slots) ≡ length slots * size
  length-row [] h = omega arith
  length-row (slot ∷ slots) h = omega (
    arith,
    length-append (slot_bytes entry size slot) (row entry size slots),
    length-slot_bytes slot h.0,
    length-row slots h.1,
  )

encode_slots-row :
    {A : Type 0} (P : A → Type 0) (entry : A → List ℕ) (size : ℕ)
    (encode_item : A → Option (List ℕ))
    → ((a : A) → P a → encode_item a ≡ some (entry a))
    → (slots : List (Option A)) → All (Slot P) slots
    → encode_slots encode_item size slots ≡ some (row entry size slots)
unfolding encode_slots
encode_slots-row P entry size encode_item enc [] h = refl
encode_slots-row P entry size encode_item enc (none ∷ slots) h =
    rw (encode_slots-row P entry size encode_item enc slots h.1)
encode_slots-row P entry size encode_item enc (some a ∷ slots) h =
    rw (enc a h.0, encode_slots-row P entry size encode_item enc slots h.1)

Reads-read_entries :
    {E A : Type 0} (P : A → Type 0) (entry : A → List ℕ) (size : ℕ)
    (wrap : ℕ → E → FileTableSegmentDecodingError) (consume : Reader E (Option A))
    → Reads consume (replicate size 0) none
    → ((a : A) → P a → Reads consume (entry a) (some a))
    → (slots : List (Option A)) → All (Slot P) slots
    → Reads (read_entries wrap consume (length slots)) (row entry size slots) slots
unfolding read_entries
Reads-read_entries {A} P entry size wrap consume empty filled [] h = Reads-pure []
Reads-read_entries {A} P entry size wrap consume empty filled (slot ∷ slots) h =
    Reads-position io_error _ λ p.
      Reads-bind (mapping (wrap p) consume) _ (Reads-mapping (wrap p) consume (here slot h.0)) (
        Reads-map (read_entries wrap consume (length slots)) (λ rest. slot ∷ rest)
          (Reads-read_entries P entry size wrap consume empty filled slots h.1))
  where
    here : (slot : Option A) → Slot P slot → Reads consume (slot_bytes entry size slot) slot
    here none k = empty
    here (some a) k = filled a k

some_addr-addr_value : (a : Option ℕ) → IsAddr a → some_addr (addr_value a) ≡ a
unfolding some_addr addr_value
some_addr-addr_value none h = refl
some_addr-addr_value (some a) h = ground arith

addr_value-IsU64 : (a : Option ℕ) → IsAddr a → IsU64 (addr_value a)
unfolding addr_value
addr_value-IsU64 none h = omega arith
addr_value-IsU64 (some a) h = h.1

abbrev pub dir_row : FileTableSegment → List ℕ
dir_row segment = row DirectoryEntry.entry_of 280 segment.dirs

abbrev pub file_row : FileTableSegment → List ℕ
file_row segment = row FileEntry.entry_of 328 segment.files

abbrev pub head_bytes : FileTableSegment → List ℕ
head_bytes segment =
    to_le_bytes 8 (addr_value segment.next_segment_addr)
    ++ (to_le_bytes 4 (length segment.dirs) ++ to_le_bytes 4 (length segment.files))

abbrev pub segment_bytes : FileTableSegment → List ℕ
segment_bytes segment =
    to_le_bytes 8 (addr_value segment.next_segment_addr)
    ++ (to_le_bytes 4 (length segment.dirs)
        ++ (to_le_bytes 4 (length segment.files) ++ (dir_row segment ++ file_row segment)))

-- What `decode` builds from the parts that it reads.
assemble : ℕ → List (Option Directory) → List (Option File) → FileTableSegment
assemble addr dirs files = record { next_segment_addr = some_addr addr; dirs = dirs; files = files }

Reads-assemble :
    (segment : FileTableSegment)
    → IsSegment segment
    → Reads decode
        (segment_bytes segment)
        (assemble (addr_value segment.next_segment_addr) segment.dirs segment.files)
unfolding decode assemble
Reads-assemble segment h =
    Reads-bind (mapping invalid_header (read_uint 8)) _
      (Reads-mapping invalid_header _
        (Reads-read_uint 8 _ (addr_value-IsU64 _ h.next_segment_addr)))
      (Reads-bind (mapping invalid_header (read_uint 4)) _
        (Reads-mapping invalid_header _ (Reads-read_uint 4 _ h.dirs_count))
        (Reads-bind (mapping invalid_header (read_uint 4)) _
          (Reads-mapping invalid_header _ (Reads-read_uint 4 _ h.files_count))
          (Reads-bind (read_entries invalid_directory_entry Directory.consume_from_reader _) _
            (Reads-read_entries IsDirectory DirectoryEntry.entry_of 280 invalid_directory_entry _
              DirectoryEntry.Reads-empty DirectoryEntry.Reads-entry segment.dirs h.dirs)
            (Reads-map (read_entries invalid_file_entry File.consume_from_reader _)
              (assemble (addr_value segment.next_segment_addr) segment.dirs)
              (Reads-read_entries IsFile FileEntry.entry_of 328 invalid_file_entry _
                FileEntry.Reads-empty FileEntry.Reads-entry segment.files h.files)))))

assemble_lem :
    (segment : FileTableSegment)
    → IsSegment segment
    → assemble (addr_value segment.next_segment_addr) segment.dirs segment.files ≡ segment
unfolding assemble
assemble_lem segment h = rw (some_addr-addr_value segment.next_segment_addr h.next_segment_addr)

pub Reads-segment :
    (segment : FileTableSegment) → IsSegment segment → Reads decode (segment_bytes segment) segment
Reads-segment segment h = rw (assemble_lem segment h) at (Reads-assemble segment h)

count_bytes_lem : (n : ℕ) → n < 2 ^ 32 → count_bytes n ≡ some (to_le_bytes 4 n)
unfolding count_bytes
count_bytes_lem n h = rw (lt→ltb n (2 ^ 32) h)

pub encode-segment_bytes :
    (segment : FileTableSegment) → IsSegment segment → encode segment ≡ some (segment_bytes segment)
unfolding encode
encode-segment_bytes segment h = rw (
  count_bytes_lem _ h.dirs_count,
  count_bytes_lem _ h.files_count,
  encode_slots-row IsDirectory DirectoryEntry.entry_of 280 Directory.encode
      DirectoryEntry.encode-entry segment.dirs h.dirs,
  encode_slots-row IsFile FileEntry.entry_of 328 File.encode FileEntry.encode-entry segment.files
      h.files,
)

pub length-segment_bytes :
    (segment : FileTableSegment)
    → IsSegment segment
    → length (segment_bytes segment) ≡ encoded_len segment
unfolding encoded_len
length-segment_bytes segment h = omega (
  arith,
  length-append (to_le_bytes 8 (addr_value segment.next_segment_addr)) (
      to_le_bytes 4 (length segment.dirs)
      ++ (to_le_bytes 4 (length segment.files) ++ (dir_row segment ++ file_row segment))),
  length-append (to_le_bytes 4 (length segment.dirs))
      (to_le_bytes 4 (length segment.files) ++ (dir_row segment ++ file_row segment)),
  length-append (to_le_bytes 4 (length segment.files)) (dir_row segment ++ file_row segment),
  length-append (dir_row segment) (file_row segment),
  length-to_le_bytes 8 (addr_value segment.next_segment_addr),
  length-to_le_bytes 4 (length segment.dirs),
  length-to_le_bytes 4 (length segment.files),
  length-row IsDirectory DirectoryEntry.entry_of 280 DirectoryEntry.length-entry segment.dirs
      h.dirs,
  length-row IsFile FileEntry.entry_of 328 FileEntry.length-entry segment.files h.files,
)

-- A segment that its type allows is encoded to `encoded_len` bytes; decoding where these bytes
-- stand, whatever follows them, takes exactly them and gives the segment.
pub decode-encode_segment :
    (segment : FileTableSegment)
    → IsSegment segment
    → (bytes : List ℕ) × (encode segment ≡ some bytes)
      × (length bytes ≡ encoded_len segment)
      × Reads decode bytes segment
decode-encode_segment segment h = (
  segment_bytes segment,
  encode-segment_bytes segment h,
  length-segment_bytes segment h,
  Reads-segment segment h,
)
