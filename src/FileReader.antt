-- ===== src/FileReader.antt =====
-- crate-lib/src/file_reader.rs: reading a file's content with its checksum. The hash of the `sha3`
-- package is the parameter `sha3_256`, from the bytes that a hasher was fed to its digest; a hasher
-- is these bytes. `pos` never exceeds `len`, so that `len - pos` does not wrap.
-- Allocations are taken to succeed: where the source reserves room for `len` bytes at once, it panics
-- for a length above `isize::MAX`, or is aborted where memory runs out, and the model goes on.
pub mod Round
pub mod Whole
mod Tests
use baf.Base.{
  ℕ, zero, suc, ◌+◌, ◌-◌, Bool, true, false, not, ◌&&◌, List, [], ◌∷◌, ◌++◌, Option, none, some,
  Result, ok, err, leb, ◌==◌, if◌then◌else◌, beq, length,
}
use baf.Source.{Source, IoError, read_exact}
use baf.Data.Utf8.{is_utf8}

-- `Error::other` of a read that failed, or of a checksum that differs.
pub data ReadError : Type 0 where
  other : IoError → ReadError
  hash_mismatch : List ℕ → List ℕ → ReadError

pub data FileReaderError : Type 0 where
  io : ReadError → FileReaderError
  invalid_utf8 : List ℕ → FileReaderError

pub record FileReader : Type 0 where
  pub source : Source
  pub len : ℕ
  pub expected_checksum : List ℕ
  pub pending_checksum : List ℕ
  pub pos : ℕ

unfoldable pub new : Source → ℕ → List ℕ → FileReader
new source len expected_checksum = record {
  source = source;
  len = len;
  expected_checksum = expected_checksum;
  pending_checksum = [];
  pos = 0;
}

abbrev pub min_len : ℕ → ℕ → ℕ
min_len a b = if leb a b then a else b

module _ (sha3_256 : List ℕ → List ℕ) where
  -- The check once the last byte is read.
  unfoldable pub checked : List ℕ → FileReader → Result ReadError (List ℕ)
  checked bytes r =
      let hash = sha3_256 r.pending_checksum in
      if (r.pos == r.len) && not (beq hash r.expected_checksum)
      then err (hash_mismatch r.expected_checksum hash)
      else ok bytes

  -- `Read::read` into a buffer of `size` bytes: the bytes that are read, and the reader afterwards.
  unfoldable pub read : ℕ → FileReader → Result ReadError (List ℕ) × FileReader
  read size r =
      let read_len = min_len size (r.len - r.pos) in
      if read_len == 0 then (ok [], r) else elim (read_exact read_len r.source) [
        | err e ↦ (err (other e), r)
        | ok s ↦
            let after : FileReader = record r {
              source = s.1;
              pending_checksum = r.pending_checksum ++ s.0;
              pos = r.pos + read_len;
            } in
            (checked s.0 after, after)
      ]

  -- `Read::read_to_end` of the standard library: reads into buffers of sizes that it chooses,
  -- `sizes k` with `k` rounds left, up to an error or a read of nothing. The outer `none` is where
  -- the rounds run out.
  unfoldable pub read_to_end :
      (ℕ → ℕ) → ℕ → FileReader → List ℕ → Option (Result ReadError (List ℕ))
  read_to_end sizes zero r buf = none
  read_to_end sizes (suc fuel) r buf =
      let step = read (sizes fuel) r in
      elim step.0 [
        | err e ↦ some (err e)
        | ok [] ↦ some (ok buf)
        | ok (b ∷ bytes) ↦ read_to_end sizes fuel step.1 (buf ++ (b ∷ bytes))
      ]

  -- Each round but the last reads a byte at least, so that `len + 1` rounds are enough. The buffer's
  -- capacity, which is reserved first, has no part here.
  unfoldable pub read_to_vec : (ℕ → ℕ) → FileReader → Option (Result FileReaderError (List ℕ))
  read_to_vec sizes r = elim (read_to_end sizes (r.len + 1) r []) [
    | none ↦ none
    | some (err e) ↦ some (err (io e))
    | some (ok bytes) ↦ some (ok bytes)
  ]

  -- `String::from_utf8`
  unfoldable pub from_utf8 : List ℕ → Result FileReaderError (List ℕ)
  from_utf8 bytes = if is_utf8 bytes then ok bytes else err (invalid_utf8 bytes)

  unfoldable pub read_to_string : (ℕ → ℕ) → FileReader → Option (Result FileReaderError (List ℕ))
  read_to_string sizes r = elim (read_to_vec sizes r) [
    | none ↦ none
    | some (err e) ↦ some (err e)
    | some (ok bytes) ↦ some (from_utf8 bytes)
  ]
