-- ===== src/Data/Header/Decode.antt =====
-- Encoding a header and decoding it again.
use baf.Base.{ℕ, ◌≡◌, refl, List, [], ◌∷◌, ◌++◌, ok, arith, replicate, beq}
use baf.Source.{Source, set_position, position, skip}
use baf.Source.Reads.{Reads-read_exact, Reads-read_uint}
use baf.Data.Header.{
  Header, ArchiveVersion, one, magic_number, encode, decode, decode_version, encode_version,
  version_number, default,
}
use baf.Bytes.{to_le_bytes}

abbrev zeroes : List ℕ
zeroes = replicate 244 0

abbrev version_bytes : List ℕ
version_bytes = 1 ∷ 0 ∷ 0 ∷ 0 ∷ []

encode_lem : (h : Header) → encode h ≡ magic_number ++ (version_bytes ++ zeroes)
unfolding encode encode_version version_number to_le_bytes
encode_lem h = elim_version h.version
  where
    elim_version :
        (v : ArchiveVersion)
        → encode (record { version = v }) ≡ magic_number ++ (version_bytes ++ zeroes)
    elim_version one = refl

version_only : (h : Header) → h ≡ default
unfolding default
version_only h = go h.version
  where
    go : (v : ArchiveVersion) → ◌≡◌ {A = Header} (record { version = v }) (record { version = one })
    go one = refl

decode_bytes :
    (more : List ℕ) (p : ℕ)
    → let content = magic_number ++ (version_bytes ++ (zeroes ++ more)) in
      decode (record { content = content; pos = p })
      ≡ ok (default, record { content = content; pos = 256 })
unfolding default decode set_position position decode_version beq to_le_bytes
decode_bytes more p =
    let s : Source = record {
      content = magic_number ++ (version_bytes ++ (zeroes ++ more));
      pos = 0;
    } in
    let magic =
      (Reads-read_exact 8 magic_number refl).run s (version_bytes ++ (zeroes ++ more)) refl in
    let version = (Reads-read_uint 4 1 (omega arith)).run (skip 8 s) (zeroes ++ more) refl in
    let padding = (Reads-read_exact 244 zeroes refl).run (skip 12 s) more refl in
    ground (arith, magic, version, padding)

-- An archive that begins with an encoded header is read to that header, up to its end.
pub decode-encode_header :
    (h : Header) (more : List ℕ) (p : ℕ)
    → decode (record { content = encode h ++ more; pos = p })
      ≡ ok (h, record { content = encode h ++ more; pos = 256 })
decode-encode_header h more p = rw (encode_lem h, version_only h) (decode_bytes more p)
