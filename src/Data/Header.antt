-- ===== src/Data/Header.antt =====
-- crate-lib/src/data/header.rs: the first 256 bytes of an archive.
pub mod Decode
use baf.Base.{
  ℕ, ◌+◌, ◌-◌, Bool, true, false, not, List, [], ◌∷◌, ◌++◌, Result, ok, err, ◌==◌, if◌then◌else◌,
  length, take, replicate, any, beq,
}
use baf.Bytes.{to_le_bytes, from_le_bytes}
use baf.Source.{
  Reader, IoError, pure, fail, from_result, mapping, ◌>>=◌, ◌>>◌, read_exact, read_uint,
  set_position, position,
}

-- "BASICARC"
abbrev pub magic_number : List ℕ
magic_number = b'B' ∷ b'A' ∷ b'S' ∷ b'I' ∷ b'C' ∷ b'A' ∷ b'R' ∷ b'C' ∷ []

abbrev pub header_size : ℕ
header_size = 256

pub data ArchiveVersion : Type 0 where
  one : ArchiveVersion

pub record Header : Type 0 where
  pub version : ArchiveVersion

pub data HeaderDecodingError : Type 0 where
  io : IoError → HeaderDecodingError
  invalid_magic_number : ℕ → ℕ → HeaderDecodingError
  non_zero_padding : HeaderDecodingError
  unknown_version : ℕ → HeaderDecodingError

unfoldable pub decode_version : ℕ → Result HeaderDecodingError ArchiveVersion
decode_version input = if input == 1 then ok one else err (unknown_version input)

unfoldable pub version_number : ArchiveVersion → ℕ
version_number one = 1

unfoldable pub encode_version : ArchiveVersion → List ℕ
encode_version v = to_le_bytes 4 (version_number v)

-- `Header::default`
unfoldable pub default : Header
default = record { version = one }

unfoldable pub encode : Header → List ℕ
encode h =
    let bytes = magic_number ++ encode_version h.version in
    bytes ++ replicate (256 - length bytes) 0

-- `got` and `expected` of the error: the first four bytes as a number.
magic_prefix : List ℕ → ℕ
magic_prefix bytes = from_le_bytes (take 4 bytes)

check_magic : List ℕ → Reader HeaderDecodingError (Unit {0})
unfolding magic_prefix
check_magic got =
    if beq got magic_number
    then pure tt
    else fail (invalid_magic_number (magic_prefix got) (magic_prefix magic_number))

-- The array `buf` of 256 zeroes is read into, up to `padding_len`.
check_padding : ℕ → Reader HeaderDecodingError (Unit {0})
check_padding padding_len = do
  read ← mapping io (read_exact padding_len)
  if any (λ b. not (b == 0)) (read ++ replicate (256 - padding_len) 0)
      then fail non_zero_padding
      else pure tt

-- `Header::decode`; the source that it hands on is the state of the reader.
unfoldable pub decode : Reader HeaderDecodingError Header
unfolding check_magic check_padding
decode = do
  mapping io (set_position 0)
  got ← mapping io (read_exact 8)
  check_magic got
  number ← mapping io (read_uint 4)
  version ← from_result (decode_version number)
  pos ← mapping io position
  check_padding (header_size - pos)
  pure (record { version = version })
