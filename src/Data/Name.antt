-- ===== src/Data/Name.antt =====
-- crate-lib/src/data/name.rs: names of items. A name is the bytes of its UTF-8 text; what the
-- private constructor of `ItemName` guarantees is the predicate `IsItemName`.
pub mod Valid
pub mod RoundTrip
use baf.Base.{
  ℕ, zero, suc, ◌+◌, ◌-◌, ◌≡◌, Bool, true, false, List, [], ◌∷◌, ◌++◌, Option, none, some, Result,
  ok, err, map_err, ◌>>=◌, ◌>>◌, ltb, leb, ◌==◌, if◌then◌else◌, length, take, drop, replicate, any,
  beq,
}
use baf.Data.Utf8.{is_utf8}
use baf.Source
use baf.Source.{Reader, IoError, read_exact}

abbrev pub ItemName : Type 0
ItemName = List ℕ

-- Characters are given by their codes, reserved names by their bytes.
pub data NameValidationError : Type 0 where
  name_is_empty name_is_too_long : NameValidationError
  forbidden_char : ℕ → NameValidationError
  forbidden_name : List ℕ → NameValidationError

pub data NameDecodingErrorReason : Type 0 where
  invalid_utf8 : NameDecodingErrorReason
  name_validation_failed : NameValidationError → NameDecodingErrorReason

pub record NameDecodingError : Type 0 where
  pub bytes : List ℕ
  pub cause : NameDecodingErrorReason

abbrev pub reserved_names : List (List ℕ)
reserved_names = (b'.' ∷ []) ∷ (b'.' ∷ b'.' ∷ []) ∷ []

-- '/', '\\', '\n', '\r' and '\0'.
abbrev pub forbidden_chars : List ℕ
forbidden_chars = b'/' ∷ 0x5c ∷ 0x0a ∷ 0x0d ∷ 0x00 ∷ []

-- `for reserved in [".", ".."]`
unfoldable pub check_reserved : List (List ℕ) → List ℕ → Result NameValidationError (Unit {0})
check_reserved [] name = ok tt
check_reserved (reserved ∷ rest) name =
    let others = check_reserved rest name in
    if beq name reserved then err (forbidden_name reserved) else others

-- `name.contains(char)`, for a character that is one byte in UTF-8.
abbrev pub contains : List ℕ → ℕ → Bool
contains name c = any (λ b. b == c) name

-- `for char in ['/', '\\', '\n', '\r', '\0']`
unfoldable pub check_chars : List ℕ → List ℕ → Result NameValidationError (Unit {0})
check_chars [] name = ok tt
check_chars (c ∷ rest) name =
    let others = check_chars rest name in if contains name c then err (forbidden_char c) else others

abbrev pub is_empty : List ℕ → Bool
is_empty [] = true
is_empty (b ∷ bs) = false

unfoldable pub check_validity : List ℕ → Result NameValidationError (Unit {0})
check_validity name =
    if is_empty name
    then err name_is_empty
    else if ltb 255 (length name)
    then err name_is_too_long
    else do check_reserved reserved_names name; check_chars forbidden_chars name

unfoldable pub new : List ℕ → Result NameValidationError ItemName
new name = do check_validity name; ok name

-- `bytes[0]` of the array.
abbrev pub first : List ℕ → ℕ
first [] = 0
first (b ∷ bs) = b

-- `bytes` is an array of 256 bytes.
unfoldable pub decode : List ℕ → Result NameDecodingError ItemName
decode bytes =
    let len = first bytes in
    let name = take len (drop 1 bytes) in
    if len == 0
    then err (record { bytes = bytes; cause = name_validation_failed name_is_empty })
    else if is_utf8 name
    then map_err (λ e. record { bytes = bytes; cause = name_validation_failed e }) (new name)
    else err (record { bytes = bytes; cause = invalid_utf8 })

unfoldable pub consume_from_reader : Reader IoError (Result NameDecodingError ItemName)
consume_from_reader = Source.◌>>=◌ (read_exact 256) λ bytes. Source.pure (decode bytes)

-- The array of 256 bytes for a name that fits it.
abbrev pub padded : List ℕ → List ℕ
padded name = length name ∷ name ++ replicate (255 - length name) 0

-- `none` is the panic of `u8::try_from(name.len()).unwrap()`.
unfoldable pub encode : ItemName → Option (List ℕ)
encode name = if leb (length name) 255 then some (padded name) else none
