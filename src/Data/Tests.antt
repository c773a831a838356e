-- ===== src/Data/Tests.antt =====
-- Concrete names, entries, segments and paths, and the theorems at them.
use baf.Base.{
  ℕ, ◌≡◌, refl, ◌↔◌, List, [], ◌∷◌, ◌++◌, none, some, ok, err, arith, length, replicate, beq, pop,
}
use baf.Source.Reads.{Reads}
use baf.Data.Utf8.{is_utf8}
use baf.Data.Name
use baf.Data.Name.{check_validity, check_reserved, check_chars}
use baf.Data.Name.Valid.{IsValid, IsItemName, check_validity_iff}
use baf.Data.Header
use baf.Data.Header.Decode.{decode-encode_header}
use baf.Data.Directory
use baf.Data.Directory.{Directory, root, non_root}
use baf.Data.Directory.RoundTrip.{IsDirectory, read-encode_directory}
use baf.Data.File
use baf.Data.File.{File}
use baf.Data.File.RoundTrip.{IsFile, read-encode_file}
use baf.Data.FtSegment
use baf.Data.FtSegment.{FileTableSegment}
use baf.Data.FtSegment.RoundTrip.{IsSegment, decode-encode_segment}
use baf.Data.PathInArchive
use baf.Data.PathInArchive.{split, step, walk, join, to_string}
use baf.Data.PathInArchive.RoundTrip.{new-to_string}

-- "docs", "é" and "a.txt".
abbrev docs : List ℕ
docs = b'd' ∷ b'o' ∷ b'c' ∷ b's' ∷ []

abbrev e_acute : List ℕ
e_acute = 0xc3 ∷ 0xa9 ∷ []

abbrev a_txt : List ℕ
a_txt = b'a' ∷ b'.' ∷ b't' ∷ b'x' ∷ b't' ∷ []

docs-IsItemName : IsItemName docs
unfolding check_validity check_reserved check_chars beq is_utf8
docs-IsItemName = record { valid = refl; utf8 = refl }

e_acute-IsItemName : IsItemName e_acute
unfolding check_validity check_reserved check_chars beq is_utf8
e_acute-IsItemName = record { valid = refl; utf8 = refl }

a_txt-IsItemName : IsItemName a_txt
unfolding check_validity check_reserved check_chars beq is_utf8
a_txt-IsItemName = record { valid = refl; utf8 = refl }

abbrev docs_dir : Directory
docs_dir = record { id = 1; parent_dir = root; name = docs; modif_time = 1700000000 }

abbrev sub_dir : Directory
sub_dir = record { id = 3; parent_dir = non_root 1; name = e_acute; modif_time = 5 }

abbrev a_file : File
a_file = record {
  id = 2;
  parent_dir = non_root 1;
  name = a_txt;
  modif_time = 7;
  content_addr = 1488;
  content_len = 3;
  sha3_checksum = replicate 32 255;
}

docs_dir-IsDirectory : IsDirectory docs_dir
docs_dir-IsDirectory = record {
  id = omega arith;
  parent_dir = tt;
  name = docs-IsItemName;
  modif_time = omega arith;
}

sub_dir-IsDirectory : IsDirectory sub_dir
sub_dir-IsDirectory = record {
  id = omega arith;
  parent_dir = omega arith;
  name = e_acute-IsItemName;
  modif_time = omega arith;
}

a_file-IsFile : IsFile a_file
a_file-IsFile = record {
  id = omega arith;
  parent_dir = omega arith;
  name = a_txt-IsItemName;
  modif_time = omega arith;
  content_addr = omega arith;
  content_len = omega arith;
  checksum_size = refl;
  checksum_bytes = omega arith;
}

abbrev small : FileTableSegment
small = record {
  next_segment_addr = some 5000;
  dirs = some docs_dir ∷ none ∷ [];
  files = none ∷ some a_file ∷ [];
}

small-IsSegment : IsSegment small
small-IsSegment = record {
  next_segment_addr = omega arith;
  dirs_count = omega arith;
  files_count = omega arith;
  dirs = (docs_dir-IsDirectory, (tt, tt));
  files = (tt, (a_file-IsFile, tt));
}

decoded_docs : Name.decode (4 ∷ (docs ++ replicate 251 9)) ≡ ok docs
unfolding Name.decode Name.new check_validity check_reserved check_chars beq is_utf8
decoded_docs = refl

check_validity_iff_example : (check_validity docs ≡ ok tt) ↔ IsValid docs
check_validity_iff_example = check_validity_iff docs

decode-encode_header_example :
    Header.decode (record { content = Header.encode Header.default ++ (1 ∷ 2 ∷ []); pos = 9 })
    ≡ ok (
      Header.default,
      record { content = Header.encode Header.default ++ (1 ∷ 2 ∷ []); pos = 256 },
    )
decode-encode_header_example = decode-encode_header Header.default (1 ∷ 2 ∷ []) 9

read-encode_directory_example :
    (bytes : List ℕ) × (Directory.encode sub_dir ≡ some bytes)
    × (length bytes ≡ 280)
    × Reads Directory.consume_from_reader bytes (some sub_dir)
read-encode_directory_example = read-encode_directory sub_dir sub_dir-IsDirectory

read-encode_file_example :
    (bytes : List ℕ) × (File.encode a_file ≡ some bytes)
    × (length bytes ≡ 328)
    × Reads File.consume_from_reader bytes (some a_file)
read-encode_file_example = read-encode_file a_file a_file-IsFile

decode-encode_segment_example :
    (bytes : List ℕ) × (FtSegment.encode small ≡ some bytes)
    × (length bytes ≡ FtSegment.encoded_len small)
    × Reads FtSegment.decode bytes small
decode-encode_segment_example = decode-encode_segment small small-IsSegment

new-to_string_example : PathInArchive.new (to_string (docs ∷ a_txt ∷ [])) ≡ ok (docs ∷ a_txt ∷ [])
new-to_string_example =
    new-to_string docs (a_txt ∷ []) (docs-IsItemName.valid, (a_txt-IsItemName.valid, tt))

-- "/docs//./a.txt/"
parsed_path :
    PathInArchive.new (b'/' ∷ (docs ++ (b'/' ∷ b'/' ∷ b'.' ∷ b'/' ∷ (a_txt ++ (b'/' ∷ [])))))
    ≡ ok (docs ∷ a_txt ∷ [])
unfolding PathInArchive.new split walk step Name.new check_validity check_reserved check_chars beq
parsed_path = refl

escaped_root :
    PathInArchive.new (docs ++ (b'/' ∷ b'.' ∷ b'.' ∷ b'/' ∷ b'.' ∷ b'.' ∷ []))
    ≡ err PathInArchive.root_escape
unfolding PathInArchive.new split walk step pop Name.new check_validity check_reserved check_chars
    beq
escaped_root = refl
