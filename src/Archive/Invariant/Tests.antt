-- ===== src/Archive/Invariant/Tests.antt =====
-- An archive from its creation on, and the theorems at it.
use baf.Base.{
  ℕ, suc, ◌+◌, ◌^◌, ◌<◌, ◌≡◌, refl, sym, ap, ◌∙◌, inl, inr, Option-cases, List, [], ◌∷◌, ◌++◌, none,
  some, arith, length, length-append, replicate, length-replicate, All, All-replicate, ◌==◌,
  if◌then◌else◌, beq,
}
use baf.Base.Maps.{lookup, member, nat_key, bytes_key}
use baf.Bytes.{IsByte}
use baf.Source.{Source}
use baf.Source.Overwrite.{length-overwrite}
use baf.Data.Utf8.{is_utf8}
use baf.Data.Name.{ItemName, check_validity, check_reserved, check_chars}
use baf.Data.Name.Valid.{IsItemName}
use baf.Data.Directory.{root}
use baf.Data.File.{File, FileId}
use baf.Data.FtSegment.{encoded_len}
use baf.Data.FtSegment.RoundTrip.{segment_bytes, length-segment_bytes}
use baf.Health.{no_content, same_dir, dir_key}
use baf.Archive.{Archive, ArchiveConfig, done}
use baf.Archive.Write.{empty_segment, create_segment}
use baf.Archive.Create.{create_dir, create_file, first_segment}
use baf.Archive.Create.Fresh.{IsConfig, header_bytes, length_header, first_segment-IsSegment}
use baf.Archive.Create.Steps.{moved}
use baf.Archive.Remove.{remove_file}
use baf.Archive.Read.{read_file_to_vec}
use baf.Archive.Disk.{IsOnDisk}
use baf.Archive.Disk.Grown.{HasCapacity, new_segment, IsGrown, create_segment-IsOnDisk}
use baf.Archive.Invariant.{IsConsistent, CanAdd}
use baf.Archive.Invariant.Contents.{contents, content_of}
use baf.Archive.Disk.Created.{new_dir}
use baf.Archive.Invariant.Changes.{IsEnteredDir}
use baf.Archive.Invariant.AddDir.{create_dir-IsConsistent}
use baf.Archive.Invariant.AddFile.{create_file-IsConsistent}
use baf.Archive.Invariant.RemoveFile.{remove_file-IsConsistent}
use baf.Archive.Invariant.Steps.{
  Event, file_created, after_all, Steps, stop, more, file_step, Steps-contents,
}
use baf.Archive.Invariant.History.{start, create-start, start-IsConsistent, read_file_to_vec-Steps}

abbrev conf : ArchiveConfig
conf = record {
  default_dirs_capacity_by_ft_segment = 3;
  default_files_capacity_by_ft_segment = 2;
  first_segment_dirs_capacity_override = none;
  first_segment_files_capacity_override = none;
}

conf-IsConfig : IsConfig conf
conf-IsConfig = record {
  default_dirs = omega arith;
  default_files = omega arith;
  first_dirs = omega arith;
  first_files = omega arith;
}

conf-HasCapacity : HasCapacity conf
conf-HasCapacity = record {
  dirs = omega arith;
  dirs_count = omega arith;
  files = omega arith;
  files_count = omega arith;
}

abbrev stream : Source
stream = record { content = 9 ∷ []; pos = 0 }

-- A function in place of the hash.
abbrev hash : List ℕ → List ℕ
hash bytes = replicate 32 3

hash_size : (bs : List ℕ) → length (hash bs) ≡ 32
hash_size bs = length-replicate {A = ℕ} 32 3

hash_bytes : (bs : List ℕ) → All IsByte (hash bs)
hash_bytes bs = All-replicate IsByte 32 3 (omega arith)

abbrev first : Archive
first = start hash stream conf conf-IsConfig conf-HasCapacity (omega arith)

first-IsConsistent : IsConsistent hash first
first-IsConsistent =
    start-IsConsistent hash stream conf conf-IsConfig conf-HasCapacity (omega arith)

abbrev letter : ItemName
letter = 97 ∷ []

letter-IsItemName : IsItemName letter
unfolding check_validity check_reserved check_chars beq is_utf8
letter-IsItemName = record { valid = refl; utf8 = refl }

can_add : CanAdd root letter 5 first
unfolding lookup member same_dir
can_add = record {
  content = no_content;
  listed = refl;
  fresh_name = refl;
  parent_dir = tt;
  valid_name = letter-IsItemName;
  modif_time = omega arith;
  id_left = omega arith;
}

abbrev bytes : List ℕ
bytes = 1 ∷ 2 ∷ 3 ∷ []

size : length first.source.content + encoded_len (new_segment conf) + 3 < 2 ^ 64
unfolding encoded_len first_segment empty_segment
size = omega (
  arith,
  length-overwrite 0 (header_bytes ++ segment_bytes (first_segment conf)) stream.content
      (omega arith),
  length-append header_bytes (segment_bytes (first_segment conf)),
  length_header,
  length-segment_bytes (first_segment conf) (first_segment-IsSegment conf conf-IsConfig),
)

abbrev second : Archive
second = (create_file hash root letter 5 bytes first).1

create_file-second : create_file hash root letter 5 bytes first ≡ (done 1, second)
create_file-second =
    let (b, f, run, id, good, same) =
      create_file-IsConsistent hash hash_size hash_bytes first first-IsConsistent root letter 5
        bytes can_add size in
    ap (λ o. (o, second)) (ap (λ r. r.0) run ∙ ap done id)

abbrev events : List Event
events = file_created 1 bytes ∷ []

steps : Steps hash first events second
steps =
    more first second second (file_created 1 bytes) []
      (file_step root letter 5 bytes 1 first second can_add size create_file-second) (stop second)

create_dir-IsConsistent_example :
    (b : Archive) × (create_dir root letter 5 first ≡ (done 1, b))
    × IsConsistent hash b
    × IsEnteredDir (new_dir root letter 5 first) first b
    × ((id : ℕ) → contents b id ≡ contents first id)
create_dir-IsConsistent_example =
    create_dir-IsConsistent hash first first-IsConsistent root letter 5 can_add
      (omega (arith, size))

create_file-IsConsistent_example :
    (b : Archive) × (f : File) × (create_file hash root letter 5 bytes first ≡ (done f.id, b))
    × (f.id ≡ 1)
    × IsConsistent hash b
    × ((id : ℕ) → contents b id ≡ (if id == f.id then some bytes else contents first id))
create_file-IsConsistent_example =
    create_file-IsConsistent hash hash_size hash_bytes first first-IsConsistent root letter 5 bytes
      can_add size

Steps-contents_example :
    IsConsistent hash second
    × ((id : FileId) → contents second id ≡ after_all events (contents first) id)
Steps-contents_example =
    Steps-contents hash hash_size hash_bytes first second events first-IsConsistent steps

second-IsConsistent : IsConsistent hash second
second-IsConsistent =
    (Steps-contents hash hash_size hash_bytes first second events first-IsConsistent steps).0

second_file : (f : File) × (lookup f.id second.files ≡ some f)
second_file =
    let same =
      (Steps-contents hash hash_size hash_bytes first second events first-IsConsistent steps).1 1 in
    elim (Option-cases (lookup 1 second.files)) [
      | inl none_at ↦ absurd (ground (arith, sym (ap (content_of second) none_at) ∙ same))
      | inr (f, at) ↦
          let k = second-IsConsistent.files 1 f at in
          (f, ap (λ id. lookup id second.files) k.same_id ∙ at)
    ]

remove_file-IsConsistent_example :
    (b : Archive) × (remove_file second_file.0.id second ≡ (done second_file.0, b))
    × IsConsistent hash b
    × ((id : ℕ) → contents b id ≡ (if id == second_file.0.id then none else contents second id))
remove_file-IsConsistent_example =
    remove_file-IsConsistent hash second second-IsConsistent second_file.0 second_file.1

create_segment-IsOnDisk_example :
    (b : Archive) × (create_segment first ≡ (done 1, b)) × IsOnDisk b × IsGrown first b
create_segment-IsOnDisk_example =
    create_segment-IsOnDisk first first-IsConsistent.on_disk conf-HasCapacity (omega (arith, size))

read_file_to_vec-Steps_example :
    (pos : ℕ) × (read_file_to_vec hash suc 1 second ≡ (done bytes, moved pos second))
read_file_to_vec-Steps_example =
    read_file_to_vec-Steps hash hash_size hash_bytes suc (λ k. omega arith) stream conf first second
      events 1 conf-IsConfig conf-HasCapacity (omega arith)
      (create-start hash stream conf conf-IsConfig conf-HasCapacity (omega arith)) steps
