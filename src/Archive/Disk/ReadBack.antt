-- ===== src/Archive/Disk/ReadBack.antt =====
-- Reading the content of a file back.
use baf.Base.{ℕ, ◌<◌, ◌≡◌, refl, ap, ◌∙◌, List, some, ok, arith, length, All, beq_refl}
use baf.Base.Maps.{nat_key}
use baf.Bytes.{IsByte}
use baf.Source.{set_position}
use baf.Source.Window.{Holds}
use baf.Data.Name.{ItemName}
use baf.Data.Timestamp.{Timestamp}
use baf.Data.Directory.{DirectoryIdOrRoot}
use baf.Data.File.{File}
use baf.FileReader
use baf.FileReader.{read_to_vec}
use baf.FileReader.Whole.{read_to_vec_lem}
use baf.Archive.{Archive, done, ◌>>=◌}
use baf.Archive.Slots.{SegmentEntry}
use baf.Archive.Create.{create_file}
use baf.Archive.Create.Steps.{moved}
use baf.Archive.Read.{get_file, read_file, read_file_to_vec}
use baf.Archive.Disk.{IsOnDisk}
use baf.Archive.Disk.AddedFile.{IsFiled}
use baf.Archive.Disk.CreatedFile.{MayCreateFile, create_file-IsFiled}

module _ (sha3_256 : List ℕ → List ℕ) (sizes : ℕ → ℕ) (positive : (k : ℕ) → 0 < sizes k) where
  read_good :
      (f : File) (bytes : List ℕ) (a : Archive)
      → Holds a.source.content f.content_addr bytes
      → f.content_len ≡ length bytes
      → f.sha3_checksum ≡ sha3_256 bytes
      → read_to_vec sha3_256 sizes
          (FileReader.new (moved f.content_addr a).source f.content_len f.sha3_checksum)
        ≡ some (ok bytes)
  read_good f bytes a held len sum =
      let s = (moved f.content_addr a).source in
      ap (λ n. read_to_vec sha3_256 sizes (FileReader.new s n f.sha3_checksum)) len
      ∙ ap (λ d. read_to_vec sha3_256 sizes (FileReader.new s (length bytes) d)) sum
      ∙ read_to_vec_lem sha3_256 sizes positive s (sha3_256 bytes) bytes held.1.0 held.1.1
      ∙ ground (arith, beq_refl (sha3_256 bytes))

  pub read_file_to_vec_lem :
      (f : File) (bytes : List ℕ) (a : Archive)
      → IsFiled sha3_256 bytes f a
      → read_file_to_vec sha3_256 sizes f.id a ≡ (done bytes, moved f.content_addr a)
  unfolding read_file_to_vec read_file get_file set_position
  read_file_to_vec_lem f bytes a h =
      rw
        (read_file_to_vec, read_file, ◌>>=◌, h.indexed, read_good f bytes a h.held h.len h.checksum)
        refl

  -- Let the stream hold an archive's header and segments. Let `create_file` be called where the
  -- parent is listed without the name, the next id is free and not the last one, the values are
  -- what their types allow, a segment has a free slot for a file, and the stream with the data
  -- behind it ends below 2^64; the digests are of 32 bytes, and the buffers of the reads not empty.
  -- Then the call succeeds, and reading the file by the id that it answers gives the content,
  -- whatever the sizes of the buffers, and changes nothing but the stream's position.
  pub read_file_to_vec-create_file :
      (digest_size : (bs : List ℕ) → length (sha3_256 bs) ≡ 32)
      (digest_bytes : (bs : List ℕ) → All IsByte (sha3_256 bs)) (parent : DirectoryIdOrRoot)
      (name : ItemName) (time : Timestamp) (bytes : List ℕ) (entry : SegmentEntry) (a : Archive)
      → IsOnDisk a
      → MayCreateFile parent name time bytes entry a
      → (b : Archive) × (id pos : ℕ) × (create_file sha3_256 parent name time bytes a
          ≡ (done id, b))
        × (read_file_to_vec sha3_256 sizes id b ≡ (done bytes, moved pos b))
  read_file_to_vec-create_file size digits parent name time bytes entry a h may =
      let (b, f, run, same, entered, good) =
        create_file-IsFiled sha3_256 size digits parent name time bytes entry a h may in
      (b, f.id, f.content_addr, run, read_file_to_vec_lem f bytes b good)
