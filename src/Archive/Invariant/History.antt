-- ===== src/Archive/Invariant/History.antt =====
-- From the creation of an archive to the contents that are read.
use baf.Base.{
  ℕ, zero, suc, get_elem?, ◌^◌, ◌<◌, ◌≡◌, refl, sym, ap, subst, ◌∙◌, false, List, [], ◌∷◌, none,
  some, some_inj, arith, length, All,
}
use baf.Base.Maps.{lookup, member, nat_key, bytes_key}
use baf.Bytes.{IsByte}
use baf.Source.{Source}
use baf.Data.Directory.{DirectoryIdOrRoot, root, non_root}
use baf.Data.File.{File, FileId}
use baf.Data.FtSegment.{FileTableSegment}
use baf.Archive.Disk.Places.{IsAt, get_elem?-replicate-none}
use baf.Archive.Write.{empty_segment}
use baf.Data.FtSegment.RoundTrip.{segment_bytes, encode-segment_bytes}
use baf.Health.{DirContent, no_content, same_dir, dir_key}
use baf.Archive.{Archive, ArchiveConfig, done}
use baf.Archive.Create.{create, first_segment}
use baf.Archive.Create.Fresh.{IsConfig, new_archive, first_segment-IsSegment, create_lem}
use baf.Archive.Create.Steps.{moved}
use baf.Archive.Read.{read_file_to_vec}
use baf.Archive.Disk.Grown.{HasCapacity}
use baf.Archive.Disk.New.{new_archive-IsOnDisk}
use baf.Archive.Invariant.{NotListed, IsConsistent}
use baf.Archive.Invariant.Contents.{contents, answer, read_file_to_vec-contents}
use baf.Archive.Invariant.Steps.{Event, after_all, after_all-same, Steps, Steps-contents}

root-NotListed : (id : ℕ) → NotListed id ((root, no_content) ∷ [])
unfolding lookup member same_dir
root-NotListed id = record { content = refl; listed = only }
  where
    only :
        (p : DirectoryIdOrRoot) (content : DirContent)
        → lookup p ((root, no_content) ∷ []) ≡ some content
        → (member id content.dirs ≡ false) × (member id content.files ≡ false)
    only root content at =
        subst (λ (c : DirContent). (member id c.dirs ≡ false) × (member id c.files ≡ false))
          (some_inj at) (refl, refl)
    only (non_root n) content at = absurd (ground arith)

module _ (sha3_256 : List ℕ → List ℕ) (s : Source) (conf : ArchiveConfig) (good : IsConfig conf)
    (capacity : HasCapacity conf) (bound : length s.content < 2 ^ 64) where
  abbrev pub start : Archive
  start = new_archive conf (segment_bytes (first_segment conf)) s.content

  pub create-start : create s conf ≡ done start
  create-start =
      create_lem s conf (segment_bytes (first_segment conf))
        (encode-segment_bytes (first_segment conf) (first_segment-IsSegment conf good))

  -- The first segment has empty slots only.
  start-nowhere : (x : File) (i j : ℕ) → IsAt (λ s. s.files) (first_segment conf ∷ []) i j x → ⊥
  unfolding first_segment empty_segment
  start-nowhere x zero j at =
      get_elem?-replicate-none _ j x
        (ap (λ (s : FileTableSegment). get_elem? s.files j) (some_inj at.at) ∙ at.slot)
  start-nowhere x (suc i) j at = ground (arith, at.at)

  pub start-IsConsistent : IsConsistent sha3_256 start
  unfolding lookup
  start-IsConsistent = record {
    on_disk = new_archive-IsOnDisk conf s.content (first_segment-IsSegment conf good) bound;
    capacity = capacity;
    some_id = omega arith;
    unused = λ id from. record { dirs = refl; files = refl; listings = root-NotListed id };
    files = λ id f at. absurd (ground arith);
    tied = record {
      slots = λ i j x at. absurd (start-nowhere x i j at);
      once = λ i j i' j' x y at at' same. absurd (start-nowhere x i j at);
    };
    distinct = λ id id' f g at at' differ. absurd (ground arith);
  }

done-inj : {A : Type 0} (x y : A) → done x ≡ done y → x ≡ y
done-inj x y e = ground arith

module _ (sha3_256 : List ℕ → List ℕ) (digest_size : (bs : List ℕ) → length (sha3_256 bs) ≡ 32)
    (digest_bytes : (bs : List ℕ) → All IsByte (sha3_256 bs)) (sizes : ℕ → ℕ)
    (positive : (k : ℕ) → 0 < sizes k) where
  -- Let `create` make an archive on a stream of less than 2^64 bytes, with capacities that are
  -- 32-bit numbers and not 0. Then let `create_dir`, `create_file`, `replace_file_content`,
  -- `rename_file` and `remove_file` be called one after another, each where its arguments are valid:
  -- a listed parent that does not have the name, values that their types allow, a next id that is
  -- not the last one and a stream that with a new segment and the data behind it ends below 2^64 for
  -- the first two, and the id of a file for the others, with a time of 64 bits and a stream that
  -- with the data behind it ends below 2^64 for `replace_file_content`, and a name that its type
  -- allows and the parent's listing does not have for `rename_file`. The digests are of 32 bytes, and
  -- the buffers of the reads not empty. Then reading by any id gives what was written last when the
  -- file of that id was created or its content replaced, if it was created and is not removed
  -- since, and `FileNotFound` otherwise, and changes nothing but the stream's position.
  pub read_file_to_vec-Steps :
      (s : Source) (conf : ArchiveConfig) (a b : Archive) (es : List Event) (id : FileId)
      → IsConfig conf
      → HasCapacity conf
      → length s.content < 2 ^ 64
      → create s conf ≡ done a
      → Steps sha3_256 a es b
      → (pos : ℕ) × (read_file_to_vec sha3_256 sizes id b
          ≡ (answer (after_all es (λ n. none) id), moved pos b))
  unfolding lookup
  read_file_to_vec-Steps s conf a b es id good capacity bound made steps =
      let first = start sha3_256 s conf good capacity bound in
      let is = done-inj first a (sym (create-start sha3_256 s conf good capacity bound) ∙ made) in
      let (consistent, same) =
        Steps-contents sha3_256 digest_size digest_bytes first b es
          (start-IsConsistent sha3_256 s conf good capacity bound)
          (subst (λ x. Steps sha3_256 x es b) (sym is) steps) in
      let (pos, run) = read_file_to_vec-contents sha3_256 sizes positive b consistent id in
      (
        pos,
        run
            ∙ ap (λ o. (answer o, moved pos b))
                (same id ∙ after_all-same es (contents first) (λ n. none) (λ n. refl) id),
      )
