-- ===== src/Data/Name/RoundTrip.antt =====
-- Encoding a name and decoding it again.
use baf.Base.{
  ℕ, ◌-◌, ◌≤◌, ◌≡◌, List, some, ok, arith, length, replicate, le→leb, length-append,
  length-replicate, take-append,
}
use baf.Source.{read_exact}
use baf.Source.Reads.{Reads, Reads-map, Reads-read_exact}
use baf.Data.Name.{ItemName, new, decode, encode, padded, consume_from_reader}
use baf.Data.Name.Valid.{IsItemName, check_validity_iff}

length-padded : (name : List ℕ) → length name ≤ 255 → length (padded name) ≡ 256
length-padded name h = omega (
  arith,
  length-append name (replicate (255 - length name) 0),
  length-replicate {A = ℕ} (255 - length name) 0,
)

decode-padded : (name : List ℕ) → IsItemName name → decode (padded name) ≡ ok name
unfolding decode new
decode-padded name h = ground (
  arith,
  take-append name (replicate (255 - length name) 0),
  h.utf8,
  h.valid,
  ((check_validity_iff name).0 h.valid).nonempty,
)

pub encode-padded : (name : ItemName) → IsItemName name → encode name ≡ some (padded name)
unfolding encode
encode-padded name h = rw (le→leb _ _ ((check_validity_iff name).0 h.valid).short)

pub length-padded_name : (name : ItemName) → IsItemName name → length (padded name) ≡ 256
length-padded_name name h = length-padded name ((check_validity_iff name).0 h.valid).short

-- A name that the type allows is encoded to 256 bytes, which decode to it.
pub decode-encode_name :
    (name : ItemName)
    → IsItemName name
    → (bytes : List ℕ) × (encode name ≡ some bytes)
      × (length bytes ≡ 256)
      × (decode bytes ≡ ok name)
decode-encode_name name h =
    (padded name, encode-padded name h, length-padded_name name h, decode-padded name h)

-- Whatever 256 bytes are decoded, the name that comes out is one that the type allows.
pub decode-IsItemName :
    (bytes : List ℕ) (name : ItemName) → decode bytes ≡ ok name → IsItemName name
unfolding decode new
decode-IsItemName bytes name h = record { valid = ground arith; utf8 = ground arith }

-- What is read where such an encoding stands.
pub Reads-name :
    (name : List ℕ) → IsItemName name → Reads consume_from_reader (padded name) (ok name)
unfolding consume_from_reader
Reads-name name h = rw (decode-padded name h) at (
    Reads-map (read_exact 256) decode
      (Reads-read_exact 256 (padded name) (length-padded_name name h)))
