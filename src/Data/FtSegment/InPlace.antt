-- ===== src/Data/FtSegment/InPlace.antt =====
-- Writing one slot into an encoded segment, as the archive's operations do.
use baf.Base.{
  ℕ, zero, suc, ◌+◌, ◌*◌, ◌<◌, ◌≡◌, refl, ap, sym, ◌∙◌, List, [], ◌∷◌, ◌++◌, append_assoc,
  append-nil, length-set, All-set, Option, none, some, arith, length, length-append, replicate, set,
  All,
}
use baf.Bytes.{to_le_bytes, length-to_le_bytes}
use baf.Source.{overwrite}
use baf.Source.Overwrite.{overwrite_lem}
use baf.Data.Directory
use baf.Data.Directory.{Directory}
use baf.Data.Directory.RoundTrip as DirectoryEntry
use baf.Data.Directory.RoundTrip.{IsDirectory}
use baf.Data.File
use baf.Data.File.{File}
use baf.Data.File.RoundTrip as FileEntry
use baf.Data.File.RoundTrip.{IsFile}
use baf.Data.FtSegment.{FileTableSegment, encode, dir_entry_offset, file_entry_offset, addr_value}
use baf.Data.FtSegment.RoundTrip.{
  IsSegment, Slot, slot_bytes, row, length-slot_bytes, length-row, dir_row, file_row, segment_bytes,
  encode-segment_bytes,
}

-- A row of slots, cut around the one at `i`.
record Cut {A : Type 0} (entry : A → List ℕ) (size : ℕ) (slots : List (Option A)) (i : ℕ)
    : Type 0 where
  before : List ℕ
  old : List ℕ
  after : List ℕ
  length_before : length before ≡ i * size
  length_old : length old ≡ size
  here : row entry size slots ≡ before ++ (old ++ after)
  changed :
      (slot : Option A)
      → row entry size (set slots i slot) ≡ before ++ (slot_bytes entry size slot ++ after)

regroup :
    (front before old after back : List ℕ)
    → front ++ ((before ++ (old ++ after)) ++ back) ≡ (front ++ before) ++ (old ++ (after ++ back))
regroup front before old after back = simp append_assoc

module _ {A : Type 0} (P : A → Type 0) (entry : A → List ℕ) (size : ℕ)
    (sized : (a : A) → P a → length (entry a) ≡ size) where
  cut :
      (slots : List (Option A)) (i : ℕ)
      → All (Slot P) slots
      → i < length slots
      → Cut entry size slots i
  cut [] i h k = elim k [ ]
  cut (slot ∷ slots) zero h k = record {
    before = [];
    old = slot_bytes entry size slot;
    after = row entry size slots;
    length_before = omega arith;
    length_old = length-slot_bytes P entry size sized slot h.0;
    here = refl;
    changed = λ s. refl;
  }
  cut (slot ∷ slots) (suc i) h k =
      let c = cut slots i h.1 (omega arith) in
      record {
        before = slot_bytes entry size slot ++ c.before;
        old = c.old;
        after = c.after;
        length_before = omega (
          arith,
          length-append (slot_bytes entry size slot) c.before,
          length-slot_bytes P entry size sized slot h.0,
          c.length_before,
        );
        length_old = c.length_old;
        here = rw (c.here, append_assoc (slot_bytes entry size slot) c.before (c.old ++ c.after));
        changed = λ s. rw (
          c.changed s,
          append_assoc (slot_bytes entry size slot) c.before (slot_bytes entry size s ++ c.after),
        );
      }

  -- The row within the bytes around it.
  overwrite-row :
      (front back new : List ℕ) (slots : List (Option A)) (i p : ℕ) (slot : Option A)
      → All (Slot P) slots
      → i < length slots
      → p ≡ length front + i * size
      → slot_bytes entry size slot ≡ new
      → length new ≡ size
      → overwrite p new (front ++ (row entry size slots ++ back))
        ≡ front ++ (row entry size (set slots i slot) ++ back)
  overwrite-row front back new slots i p slot h k at_p same fits =
      let c = cut slots i h k in
      rw (c.here, c.changed slot, same, regroup front c.before c.old c.after back)
        (overwrite_lem p (front ++ c.before) c.old new (c.after ++ back)
            (omega (arith, length-append front c.before, c.length_before)) (c.length_old ∙ sym fits)
          ∙ sym (regroup front c.before new c.after back))

-- The bytes of a segment, cut before the slots.
abbrev head_of : Option ℕ → ℕ → ℕ → List ℕ
head_of addr dirs files =
    to_le_bytes 8 (addr_value addr) ++ (to_le_bytes 4 dirs ++ to_le_bytes 4 files)

abbrev head : FileTableSegment → List ℕ
head segment = head_of segment.next_segment_addr (length segment.dirs) (length segment.files)

length-head : (segment : FileTableSegment) → length (head segment) ≡ 16
length-head segment = omega (
  arith,
  length-append (to_le_bytes 8 (addr_value segment.next_segment_addr))
      (to_le_bytes 4 (length segment.dirs) ++ to_le_bytes 4 (length segment.files)),
  length-append (to_le_bytes 4 (length segment.dirs)) (to_le_bytes 4 (length segment.files)),
  length-to_le_bytes 8 (addr_value segment.next_segment_addr),
  length-to_le_bytes 4 (length segment.dirs),
  length-to_le_bytes 4 (length segment.files),
)

segment_bytes-head :
    (segment : FileTableSegment)
    → segment_bytes segment ≡ head segment ++ (dir_row segment ++ file_row segment)
segment_bytes-head segment = simp append_assoc

segment_bytes-file_row :
    (segment : FileTableSegment)
    → segment_bytes segment ≡ (head segment ++ dir_row segment) ++ (file_row segment ++ [])
segment_bytes-file_row segment = simp (append_assoc, append-nil)

abbrev pub with_dir : FileTableSegment → ℕ → Option Directory → FileTableSegment
with_dir segment i slot = record segment { dirs = set segment.dirs i slot }

abbrev pub with_file : FileTableSegment → ℕ → Option File → FileTableSegment
with_file segment i slot = record segment { files = set segment.files i slot }

head-with_dir :
    (segment : FileTableSegment) (i : ℕ) (slot : Option Directory)
    → head (with_dir segment i slot) ≡ head segment
head-with_dir segment i slot =
    ap (λ n. head_of segment.next_segment_addr n (length segment.files))
      (length-set segment.dirs i slot)

head-with_file :
    (segment : FileTableSegment) (i : ℕ) (slot : Option File)
    → head (with_file segment i slot) ≡ head segment
head-with_file segment i slot =
    ap (λ n. head_of segment.next_segment_addr (length segment.dirs) n)
      (length-set segment.files i slot)

pub dir_entry_offset_lem :
    (segment : FileTableSegment) (i p : ℕ)
    → dir_entry_offset segment i ≡ some p
    → (i < length segment.dirs) × (p ≡ 16 + i * 280)
unfolding dir_entry_offset
dir_entry_offset_lem segment i p h = ground arith

pub file_entry_offset_lem :
    (segment : FileTableSegment) (i p : ℕ)
    → file_entry_offset segment i ≡ some p
    → (i < length segment.files) × (p ≡ 16 + length segment.dirs * 280 + i * 328)
unfolding file_entry_offset
file_entry_offset_lem segment i p h = ground arith

pub overwrite-slots_of_dirs :
    (segment : FileTableSegment) (i p : ℕ) (slot : Option Directory) (new : List ℕ)
    → IsSegment segment
    → dir_entry_offset segment i ≡ some p
    → Slot IsDirectory slot
    → slot_bytes DirectoryEntry.entry_of 280 slot ≡ new
    → overwrite p new (segment_bytes segment) ≡ segment_bytes (with_dir segment i slot)
overwrite-slots_of_dirs segment i p slot new h at_p hs e =
    let (inside, place) = dir_entry_offset_lem segment i p at_p in
    ap (overwrite p new) (segment_bytes-head segment)
    ∙ (overwrite-row IsDirectory DirectoryEntry.entry_of 280 DirectoryEntry.length-entry
          (head segment) (file_row segment) new segment.dirs i p slot h.dirs inside
          (omega (arith, length-head segment)) e
          (ap length (sym e)
            ∙ length-slot_bytes IsDirectory DirectoryEntry.entry_of 280 DirectoryEntry.length-entry
                slot hs)
        ∙ sym (
            segment_bytes-head (with_dir segment i slot)
            ∙ ap (λ bs. bs ++ (dir_row (with_dir segment i slot) ++ file_row segment))
                (head-with_dir segment i slot)))

pub overwrite-slots_of_files :
    (segment : FileTableSegment) (i p : ℕ) (slot : Option File) (new : List ℕ)
    → IsSegment segment
    → file_entry_offset segment i ≡ some p
    → Slot IsFile slot
    → slot_bytes FileEntry.entry_of 328 slot ≡ new
    → overwrite p new (segment_bytes segment) ≡ segment_bytes (with_file segment i slot)
overwrite-slots_of_files segment i p slot new h at_p hs e =
    let (inside, place) = file_entry_offset_lem segment i p at_p in
    ap (overwrite p new) (segment_bytes-file_row segment)
    ∙ (overwrite-row IsFile FileEntry.entry_of 328 FileEntry.length-entry
          (head segment ++ dir_row segment) [] new segment.files i p slot h.files inside
          (omega (
            arith,
            length-head segment,
            length-append (head segment) (dir_row segment),
            length-row IsDirectory DirectoryEntry.entry_of 280 DirectoryEntry.length-entry
                segment.dirs h.dirs,
          ))
          e
          (ap length (sym e)
            ∙ length-slot_bytes IsFile FileEntry.entry_of 328 FileEntry.length-entry slot hs)
        ∙ sym (
            segment_bytes-file_row (with_file segment i slot)
            ∙ ap (λ bs. (bs ++ dir_row segment) ++ (file_row (with_file segment i slot) ++ []))
                (head-with_file segment i slot)))

pub with_dir-IsSegment :
    (segment : FileTableSegment) (i : ℕ) (slot : Option Directory)
    → Slot IsDirectory slot
    → IsSegment segment
    → IsSegment (with_dir segment i slot)
with_dir-IsSegment segment i slot hs h = record {
  next_segment_addr = h.next_segment_addr;
  dirs_count = omega (arith, length-set segment.dirs i slot);
  files_count = h.files_count;
  dirs = All-set (Slot IsDirectory) segment.dirs i slot hs h.dirs;
  files = h.files;
}

pub with_file-IsSegment :
    (segment : FileTableSegment) (i : ℕ) (slot : Option File)
    → Slot IsFile slot
    → IsSegment segment
    → IsSegment (with_file segment i slot)
with_file-IsSegment segment i slot hs h = record {
  next_segment_addr = h.next_segment_addr;
  dirs_count = h.dirs_count;
  files_count = omega (arith, length-set segment.files i slot);
  dirs = h.dirs;
  files = All-set (Slot IsFile) segment.files i slot hs h.files;
}

-- What a slot of a directory is written as: its entry, or zeroes to empty it.
abbrev pub dir_slot_bytes : Option Directory → Option (List ℕ)
dir_slot_bytes none = some (replicate 280 0)
dir_slot_bytes (some dir) = Directory.encode dir

abbrev pub file_slot_bytes : Option File → Option (List ℕ)
file_slot_bytes none = some (replicate 328 0)
file_slot_bytes (some file) = File.encode file

pub dir_slot_bytes_lem :
    (slot : Option Directory)
    → Slot IsDirectory slot
    → dir_slot_bytes slot ≡ some (slot_bytes DirectoryEntry.entry_of 280 slot)
dir_slot_bytes_lem none h = refl
dir_slot_bytes_lem (some dir) h = DirectoryEntry.encode-entry dir h

pub file_slot_bytes_lem :
    (slot : Option File)
    → Slot IsFile slot
    → file_slot_bytes slot ≡ some (slot_bytes FileEntry.entry_of 328 slot)
file_slot_bytes_lem none h = refl
file_slot_bytes_lem (some file) h = FileEntry.encode-entry file h

pub some_eq : {A : Type 0} {o : Option A} (a b : A) → o ≡ some a → o ≡ some b → a ≡ b
some_eq a b p q = cc

-- Take an encoded segment, and write a directory's entry, or zeroes, at the offset that
-- `dir_entry_offset` gives for a slot: the result is the encoding of the segment with that slot
-- filled, or emptied, and nothing else changed.
pub overwrite-encode_dir :
    (segment : FileTableSegment) (i p : ℕ) (slot : Option Directory) (bytes new : List ℕ)
    → IsSegment segment
    → Slot IsDirectory slot
    → encode segment ≡ some bytes
    → dir_entry_offset segment i ≡ some p
    → dir_slot_bytes slot ≡ some new
    → encode (with_dir segment i slot) ≡ some (overwrite p new bytes)
overwrite-encode_dir segment i p slot bytes new h hs e at_p e' =
    let same : segment_bytes segment ≡ bytes = some_eq _ _ (encode-segment_bytes segment h) e in
    let entry = some_eq _ new (dir_slot_bytes_lem slot hs) e' in
    encode-segment_bytes (with_dir segment i slot) (with_dir-IsSegment segment i slot hs h)
    ∙ ap (λ bs. some bs)
        (sym (overwrite-slots_of_dirs segment i p slot new h at_p hs entry)
          ∙ ap (overwrite p new) same)

-- Take an encoded segment, and write a file's entry, or zeroes, at the offset that
-- `file_entry_offset` gives for a slot: the result is the encoding of the segment with that slot
-- filled, or emptied, and nothing else changed.
pub overwrite-encode_file :
    (segment : FileTableSegment) (i p : ℕ) (slot : Option File) (bytes new : List ℕ)
    → IsSegment segment
    → Slot IsFile slot
    → encode segment ≡ some bytes
    → file_entry_offset segment i ≡ some p
    → file_slot_bytes slot ≡ some new
    → encode (with_file segment i slot) ≡ some (overwrite p new bytes)
overwrite-encode_file segment i p slot bytes new h hs e at_p e' =
    let same : segment_bytes segment ≡ bytes = some_eq _ _ (encode-segment_bytes segment h) e in
    let entry = some_eq _ new (file_slot_bytes_lem slot hs) e' in
    encode-segment_bytes (with_file segment i slot) (with_file-IsSegment segment i slot hs h)
    ∙ ap (λ bs. some bs)
        (sym (overwrite-slots_of_files segment i p slot new h at_p hs entry)
          ∙ ap (overwrite p new) same)
