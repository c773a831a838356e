-- ===== src/Archive/Disk/RemoveTests.antt =====
-- An archive with a file, and its removal.
use baf.Base.{
  ℕ, ◌≡◌, refl, sym, ap, ◌∙◌, drop, drop-add, drop-append, inl, inr, List, [], ◌∷◌, ◌++◌, none,
  some, arith, length, length-append, replicate, get_elem?, set, All-replicate, beq,
}
use baf.Base.Maps.{lookup, member, nat_key, bytes_key}
use baf.Bytes.{IsByte}
use baf.Data.Header
use baf.Data.Utf8.{is_utf8}
use baf.Data.Name.{check_validity, check_reserved, check_chars}
use baf.Data.Directory.{root}
use baf.Data.File.{File}
use baf.Data.FtSegment.{FileTableSegment, encoded_len, file_entry_offset}
use baf.Data.FtSegment.RoundTrip.{IsSegment, segment_bytes, length-segment_bytes}
use baf.Data.FtSegment.InPlace.{with_file}
use baf.Coverage.{mark_as_free}
use baf.Health.{same_dir, dir_key}
use baf.Archive.{Archive, done}
use baf.Archive.Slots.{
  SegmentEntry, segment_addr, position, entry_at, item_index, item_offset, find_item,
  get_item_entry,
}
use baf.Archive.Create.Fresh.{header_bytes, length_header, drop_header}
use baf.Archive.Write.Stored.{stretch}
use baf.Archive.Remove.{remove_file}
use baf.Archive.Disk.{IsOnDisk, IsKept}
use baf.Archive.Disk.Removed.{MayRemoveFile, remove_file-IsOnDisk}

abbrev pub notes : File
notes = record {
  id = 2;
  parent_dir = root;
  name = 110 ∷ [];
  modif_time = 0;
  content_addr = 1208;
  content_len = 3;
  sha3_checksum = replicate 32 0;
}

abbrev pub segment : FileTableSegment
segment = record { next_segment_addr = none; dirs = none ∷ []; files = none ∷ some notes ∷ [] }

segment-IsSegment : IsSegment segment
unfolding check_validity check_reserved check_chars beq is_utf8
segment-IsSegment = record {
  next_segment_addr = tt;
  dirs_count = omega arith;
  files_count = omega arith;
  dirs = (tt, tt);
  files = (
    tt,
    (
      record {
        id = (omega arith, omega arith);
        parent_dir = tt;
        name = record { valid = refl; utf8 = refl };
        modif_time = omega arith;
        content_addr = omega arith;
        content_len = omega arith;
        checksum_size = refl;
        checksum_bytes = All-replicate IsByte 32 0 (omega arith);
      },
      tt,
    ),
  );
}

abbrev pub content : List ℕ
content = header_bytes ++ (segment_bytes segment ++ (1 ∷ 2 ∷ 3 ∷ []))

segment_size : length (segment_bytes segment) ≡ 952
unfolding encoded_len
segment_size = length-segment_bytes segment segment-IsSegment

pub content_size : length content ≡ 1211
content_size = omega (
  arith,
  length_header,
  segment_size,
  length-append header_bytes (segment_bytes segment ++ (1 ∷ 2 ∷ 3 ∷ [])),
  length-append (segment_bytes segment) (1 ∷ 2 ∷ 3 ∷ []),
)

abbrev pub filed : Archive
filed = record {
  conf = record {
    default_dirs_capacity_by_ft_segment = 10;
    default_files_capacity_by_ft_segment = 20;
    first_segment_dirs_capacity_override = none;
    first_segment_files_capacity_override = none;
  };
  source = record { content = content; pos = 0 };
  header = Header.default;
  file_segments = segment ∷ [];
  dirs = [];
  files = (2, notes) ∷ [];
  dirs_content = (root, record { dirs = []; files = 2 ∷ []; names = notes.name ∷ [] }) ∷ [];
  coverage = record {
    len = 1211;
    segments = stretch 0 256 ∷ stretch 256 952 ∷ stretch 1208 3 ∷ [];
  };
  next_id = 3;
}

pub filed-IsOnDisk : IsOnDisk filed
unfolding encoded_len
filed-IsOnDisk = record {
  tracked = record {
    sound = record { chain = omega arith; within = omega arith; len = omega arith };
    len = omega (arith, content_size);
  };
  header = (
    omega (arith, length_header, content_size),
    (segment_bytes segment ++ (1 ∷ 2 ∷ 3 ∷ []), refl),
  );
  chain = refl;
  segments = (segment-IsSegment, tt);
  written = (
    (
      omega (arith, segment_size, content_size),
      (1 ∷ 2 ∷ 3 ∷ [], drop_header (segment_bytes segment ++ (1 ∷ 2 ∷ 3 ∷ []))),
    ),
    tt,
  );
  apart = ((inl (omega arith), tt), (tt, tt));
  used = (inl refl, (inr (inl refl), tt));
}

-- The content of the file, behind the header and the segment.
pub notes-IsKept : IsKept 1208 (1 ∷ 2 ∷ 3 ∷ []) filed
unfolding encoded_len
notes-IsKept =
    let behind : drop 952 (segment_bytes segment ++ (1 ∷ 2 ∷ 3 ∷ [])) ≡ 1 ∷ 2 ∷ 3 ∷ [] =
      ap (λ n. drop n (segment_bytes segment ++ (1 ∷ 2 ∷ 3 ∷ []))) (sym segment_size)
      ∙ drop-append (segment_bytes segment) (1 ∷ 2 ∷ 3 ∷ []) in
    record {
      held = (
        omega (arith, content_size),
        (
          [],
          drop-add 256 952 content
              ∙ (ap (drop 952) (drop_header (segment_bytes segment ++ (1 ∷ 2 ∷ 3 ∷ []))) ∙ behind),
        ),
      );
      used = λ h. inr (inr (inl refl));
      clear = λ h. (inl (omega arith), (inl (omega arith), tt));
    }

abbrev place : SegmentEntry
place = record { segment_index = 0; entry_index = 1; entry_addr = 880 }

may_remove : MayRemoveFile notes place filed
unfolding lookup member same_dir beq get_item_entry find_item item_index item_offset position
    entry_at segment_addr file_entry_offset encoded_len
may_remove = record {
  found = refl;
  indexed = refl;
  content = record { dirs = []; files = 2 ∷ []; names = notes.name ∷ [] };
  listed = refl;
  has_id = refl;
  has_name = refl;
  clear = λ h. (inl (omega arith), (inl (omega arith), tt));
}

remove_file-IsOnDisk_example :
    (b : Archive) × (s : FileTableSegment) × (remove_file 2 filed ≡ (done notes, b))
    × IsOnDisk b
    × (get_elem? filed.file_segments 0 ≡ some s)
    × (b.file_segments ≡ set filed.file_segments 0 (with_file s 1 none))
    × (b.coverage ≡ (mark_as_free (stretch 1208 3) filed.coverage).1)
remove_file-IsOnDisk_example = remove_file-IsOnDisk notes place filed filed-IsOnDisk may_remove
