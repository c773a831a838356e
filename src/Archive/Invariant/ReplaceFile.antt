-- ===== src/Archive/Invariant/ReplaceFile.antt =====
-- Replacing the content of a file of a consistent archive.
use baf.Base.{
  ℕ, ◌+◌, ◌^◌, ◌≤◌, ◌<◌, ◌≡◌, refl, sym, ap, subst, ◌∙◌, inl, inr, List, Option, none, some,
  some_inj, arith, length, All, All-at, Bool-cases, ◌==◌, if◌then◌else◌,
}
use baf.Base.Maps.{lookup, nat_key, bytes_key}
use baf.Bytes.{IsByte}
use baf.Data.Timestamp.{Timestamp}
use baf.Data.Directory.RoundTrip.{IsU64}
use baf.Data.File.{File}
use baf.Data.File.RoundTrip.{IsFile}
use baf.Data.FtSegment.{FileTableSegment}
use baf.Data.FtSegment.RoundTrip.{IsSegment, Slot}
use baf.Coverage.{Segment}
use baf.Health.{dir_key}
use baf.Archive.{Archive, done}
use baf.Archive.Slots.{SegmentEntry}
use baf.Archive.Change.{replace_file_content}
use baf.Archive.Disk.Items.{InSlot}
use baf.Archive.Disk.Grown.{HasCapacity}
use baf.Archive.Disk.Replaced.{MayReplaceFile, IsOther, IsReplaced, replace_file_content-IsReplaced}
use baf.Archive.Invariant.{IsListed, NotListed, IsUnused, IsKnown, IsDistinct, IsTied, IsConsistent}
use baf.Archive.Invariant.Contents.{contents, content_of, content_of-kept, content_of-known}
use baf.Archive.Invariant.AddFile.{Beside-start, IsDistinct-sym}
use baf.Archive.Invariant.RemoveFile.{may_remove}
use baf.Archive.Invariant.Tied.{IsTied-update, once-away}
use baf.Archive.Disk.Places.{IsAt, IsAt-set}
use baf.Data.FtSegment.InPlace.{with_file}
use baf.Archive.Invariant.Listed.{lookup-insert_same, lookup-insert_other, lookup-insert_cases}

-- A file that is in a slot has values that their types allow.
InSlot-IsFile :
    (f : File) (segments : List FileTableSegment)
    → InSlot (λ s. s.files) f segments
    → All IsSegment segments
    → IsFile f
InSlot-IsFile f segments i h =
    let s : IsSegment i.segment = All-at IsSegment segments i.index i.segment i.at h in
    All-at (Slot IsFile) i.segment.files i.place (some f) i.slot s.files

module _ (sha3_256 : List ℕ → List ℕ) (digest_size : (bs : List ℕ) → length (sha3_256 bs) ≡ 32)
    (digest_bytes : (bs : List ℕ) → All IsByte (sha3_256 bs)) (a : Archive)
    (h : IsConsistent sha3_256 a) (f : File) (indexed : lookup f.id a.files ≡ some f)
    (time : Timestamp) (bytes : List ℕ) where
  may_replace : (e : SegmentEntry) × MayReplaceFile f e a
  may_replace =
      let (e, may) = may_remove sha3_256 a h f indexed in
      (
        e,
        record {
          found = may.found;
          indexed = indexed;
          valid = InSlot-IsFile f a.file_segments (h.files f.id f indexed).here h.on_disk.segments;
          clear = may.clear;
        },
      )

  abbrev new : ℕ → File
  new addr = record f {
    content_addr = addr;
    content_len = length bytes;
    sha3_checksum = sha3_256 bytes;
    modif_time = time;
  }

  distinct-IsOther :
      (id : ℕ) (g : File) (k : IsKnown sha3_256 id g a)
      → lookup id a.files ≡ some g
      → (id ≡ f.id → ⊥)
      → IsOther g.content_addr k.bytes f
  distinct-IsOther id g k at differ some_g some_f same =
      let size = k.len in
      (h.distinct id f.id g f at indexed differ).0 (omega (arith, some_g, size)) some_f
        (ap (λ (z : Segment). z.start) same)

  module _ (addr : ℕ) (e : SegmentEntry) (b : Archive)
      (is : IsReplaced bytes f (new addr) e a b) where
    same_dirs : b.dirs ≡ a.dirs
    same_dirs = ap (λ (x : Archive). x.dirs) is.rest

    same_listings : b.dirs_content ≡ a.dirs_content
    same_listings = ap (λ (x : Archive). x.dirs_content) is.rest

    next : b.next_id ≡ a.next_id
    next = ap (λ (x : Archive). x.next_id) is.rest

    then-IsUnused : (id : ℕ) → b.next_id ≤ id → IsUnused id b
    then-IsUnused id from =
        let free = h.unused id (omega (arith, next, from)) in
        let differ : id ≡ f.id → ⊥ =
          λ e. ground (arith, sym indexed ∙ (ap (λ n. lookup n a.files) (sym e) ∙ free.files)) in
        record {
          dirs = ap (lookup id) same_dirs ∙ free.dirs;
          files =
              ap (lookup id) is.indexed
              ∙ (lookup-insert_other f.id id (new addr) a.files differ ∙ free.files);
          listings = subst (NotListed id) (sym same_listings) free.listings;
        }

    new-IsKnown : IsKnown sha3_256 f.id (new addr) b
    new-IsKnown =
        let k = (h.files f.id f indexed).listing in
        record {
          same_id = refl;
          bytes = bytes;
          len = refl;
          checksum = refl;
          kept = is.kept;
          here = is.here;
          listing = subst (IsListed (new addr)) (sym same_listings) (record {
            content = k.content;
            listed = k.listed;
            has_id = k.has_id;
            has_name = k.has_name;
          });
        }

    old-IsKnown :
        (id : ℕ) (g : File) → lookup id a.files ≡ some g → (id ≡ f.id → ⊥) → IsKnown sha3_256 id g b
    old-IsKnown id g at differ =
        let k = h.files id g at in
        record {
          same_id = k.same_id;
          bytes = k.bytes;
          len = k.len;
          checksum = k.checksum;
          kept = is.keeps g.content_addr k.bytes (distinct-IsOther id g k at differ) k.kept;
          here = is.files g (λ same. differ (sym k.same_id ∙ same)) k.here;
          listing = subst (IsListed g) (sym same_listings) k.listing;
        }

    new-IsDistinct :
        (id : ℕ) (g : File) → lookup id a.files ≡ some g → (id ≡ f.id → ⊥) → IsDistinct g (new addr)
    new-IsDistinct id g at differ =
        let k = h.files id g at in
        let size = k.len in
        (
          λ some_g some_new.
              Beside-start g.content_addr (length k.bytes) addr (length bytes)
                (is.apart g.content_addr k.bytes (distinct-IsOther id g k at differ) k.kept
                  (omega (arith, some_g, size)))
                (omega (arith, some_g, size)) some_new,
          (h.distinct id f.id g f at indexed differ).1,
        )

    -- A file of the index is the one with its new content, or was there under another id.
    either :
        {P : Type 0} (id : ℕ) (g : File)
        → lookup id b.files ≡ some g
        → (id ≡ f.id → new addr ≡ g → P)
        → ((id ≡ f.id → ⊥) → lookup id a.files ≡ some g → P)
        → P
    either id g at =
        lookup-insert_cases f.id id (new addr) g a.files (ap (lookup id) (sym is.indexed) ∙ at)

    then-IsTied : IsTied b.file_segments b.files
    then-IsTied =
        let here : IsAt (λ s. s.files) a.file_segments e.segment_index e.entry_index is.old =
          record { segment = is.segment; at = is.before; slot = is.slot } in
        IsTied-update a.file_segments b.file_segments a.files b.files e.segment_index e.entry_index
          f.id (some (new addr)) h.tied
          (once-away a.file_segments a.files e.segment_index e.entry_index is.old f.id h.tied here
            is.same_id)
          (λ y is_new. ap (λ (z : File). z.id) (sym (some_inj is_new)))
          (λ y is_new.
            ap (lookup f.id) is.indexed ∙ (lookup-insert_same f.id (new addr) a.files ∙ is_new))
          (λ n differ.
            ap (lookup n) is.indexed ∙ lookup-insert_other f.id n (new addr) a.files differ)
          (λ x i j at.
            IsAt-set (λ s. s.files) x a.file_segments e.segment_index is.segment
              (with_file is.segment e.entry_index (some (new addr))) is.before i j e.entry_index
              (some (new addr)) refl (subst (λ ss. IsAt (λ s. s.files) ss i j x) is.after at))

    then-IsConsistent : IsConsistent sha3_256 b
    then-IsConsistent = record {
      on_disk = is.on_disk;
      capacity = subst HasCapacity (sym (ap (λ (x : Archive). x.conf) is.rest)) h.capacity;
      some_id = omega (arith, next, h.some_id);
      unused = then-IsUnused;
      files = λ id g at.
          either id g at
            (λ same is_new.
              subst (λ x. IsKnown sha3_256 x g b) (sym same)
                (subst (λ x. IsKnown sha3_256 f.id x b) is_new new-IsKnown))
            (λ differ before. old-IsKnown id g before differ);
      tied = then-IsTied;
      distinct = λ id id' g g' at at' differ.
          either id g at
            (λ same is_new.
              either id' g' at' (λ same' is_new'. absurd (differ (same ∙ sym same')))
                (λ differ' before'.
                  subst (λ x. IsDistinct x g') is_new
                    (IsDistinct-sym g' (new addr) (new-IsDistinct id' g' before' differ'))))
            (λ differ_f before.
              either id' g' at'
                (λ same' is_new'.
                  subst (IsDistinct g) is_new' (new-IsDistinct id g before differ_f))
                (λ differ' before'. h.distinct id id' g g' before before' differ));
    }

    contents_then : (id : ℕ) → contents b id ≡ (if id == f.id then some bytes else contents a id)
    contents_then id = elim (Bool-cases (id == f.id)) [
      | inl e ↦
          let same : id ≡ f.id = ground (arith, e) in
          rw e (
            ap (contents b) same
            ∙ (ap (λ files. content_of b (lookup f.id files)) is.indexed
                ∙ (ap (content_of b) (lookup-insert_same f.id (new addr) a.files)
                    ∙ content_of-kept (new addr) bytes b refl is.kept.held)))
      | inr e ↦
          let differ : id ≡ f.id → ⊥ = λ x. ground (arith, x, e) in
          rw e (
            ap (λ files. content_of b (lookup id files)) is.indexed
            ∙ (ap (content_of b) (lookup-insert_other f.id id (new addr) a.files differ)
                ∙ each id differ (lookup id a.files) refl))
    ]
      where
        each :
            (n : ℕ)
            → (n ≡ f.id → ⊥)
            → (o : Option File) → lookup n a.files ≡ o
            → content_of b o ≡ content_of a o
        each n differ none at = refl
        each n differ (some g) at =
            let k = h.files n g at in
            content_of-known sha3_256 n g a b k
              (is.keeps g.content_addr k.bytes (distinct-IsOther n g k at differ) k.kept)

  -- Let an archive be consistent: its stream holds the header and the segments, the ids from the
  -- next one on are not in use, each file of the index is in a slot and in its parent's listing
  -- with its content in a stretch of its own, and the slots have no other files. Let the index have
  -- a file under its id, the new time be a 64-bit number, and the stream with the new content
  -- behind it end below 2^64; the digests are of 32 bytes. Then `replace_file_content` succeeds and
  -- the archive is consistent again. Under that id it has the new content, and under any other what
  -- it had.
  pub replace_file_content-IsConsistent :
      IsU64 time
      → length a.source.content + length bytes < 2 ^ 64
      → (b : Archive) × (replace_file_content sha3_256 f.id time bytes a ≡ (done tt, b))
        × IsConsistent sha3_256 b
        × ((id : ℕ) → contents b id ≡ (if id == f.id then some bytes else contents a id))
  replace_file_content-IsConsistent in_time bound =
      let (e, may) = may_replace in
      let (b, addr, run, is) =
        replace_file_content-IsReplaced sha3_256 digest_size digest_bytes f time bytes e a h.on_disk
          may in_time bound in
      (b, run, then-IsConsistent addr e b is, contents_then addr e b is)
