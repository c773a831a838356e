-- ===== src/Archive/Invariant/AddFile.antt =====
-- Creating a file in a consistent archive.
use baf.Base.{
  ℕ, ◌+◌, ◌^◌, ◌≤◌, ◌<◌, ◌≡◌, refl, sym, ap, subst, ◌∙◌, inl, inr, List, Option, none, some,
  some_inj, Bool-cases, ◌==◌, if◌then◌else◌, arith, length, All,
}
use baf.Base.Maps.{lookup, member, include, nat_key, bytes_key}
use baf.Bytes.{IsByte}
use baf.Source.Window.{Beside}
use baf.Data.Name.{ItemName}
use baf.Data.Timestamp.{Timestamp}
use baf.Data.Directory.{DirectoryIdOrRoot}
use baf.Data.File.{File}
use baf.Data.FtSegment.{encoded_len}
use baf.Health.{DirContent, dir_key}
use baf.Archive.{Archive, done}
use baf.Archive.Slots.{SegmentEntry}
use baf.Archive.Create.{create_file, list_name}
use baf.Archive.Disk.Grown.{HasCapacity, new_segment}
use baf.Archive.Disk.AddedFile.{MayAddFile, IsFiled, IsAddedFile}
use baf.Archive.Disk.CreatedFile.{create_file-IsAddedFile}
use baf.Archive.Invariant.{
  IsListed, NotListed, IsUnused, IsKnown, IsDistinct, IsTied, IsConsistent, CanAdd,
}
use baf.Archive.Invariant.Contents.{contents, content_of, content_of-kept, content_of-known}
use baf.Archive.Invariant.Tied.{IsTied-update}
use baf.Archive.Invariant.Listed.{
  lookup-insert_same, lookup-insert_other, lookup-insert_cases, IsListed-insert, NotListed-insert,
  NotListed-parent, member-include_other, member-include_more, member-include_same,
}

pub Beside-start : (p m q n : ℕ) → Beside p m q n → 0 < m → 0 < n → p ≡ q → ⊥
Beside-start p m q n (inl b) some_m some_n e = omega (arith, b, some_m, e)
Beside-start p m q n (inr b) some_m some_n e = omega (arith, b, some_n, e)

pub IsDistinct-sym : (f g : File) → IsDistinct f g → IsDistinct g f
IsDistinct-sym f g d =
    (λ some_g some_f e. d.0 some_f some_g (sym e), λ parent name. d.1 (sym parent) (sym name))

module _ (sha3_256 : List ℕ → List ℕ) (digest_size : (bs : List ℕ) → length (sha3_256 bs) ≡ 32)
    (digest_bytes : (bs : List ℕ) → All IsByte (sha3_256 bs)) (a : Archive)
    (h : IsConsistent sha3_256 a) where
  may_add :
      (parent : DirectoryIdOrRoot) (name : ItemName) (time : Timestamp)
      → CanAdd parent name time a
      → MayAddFile parent name time a
  may_add parent name time can =
      let free = h.unused a.next_id (omega arith) in
      record {
        content = can.content;
        listed = can.listed;
        fresh_name = can.fresh_name;
        fresh_id = (free.listings.listed parent can.content can.listed).1;
        not_indexed = free.files;
        id_left = can.id_left;
        id = (h.some_id, omega (arith, can.id_left));
        parent_dir = can.parent_dir;
        valid_name = can.valid_name;
        modif_time = can.modif_time;
      }

  module _ (bytes : List ℕ) (f : File) (e : SegmentEntry) (b c : Archive)
      (new_id : f.id ≡ a.next_id) (is : IsAddedFile bytes f e a c b)
      (good : IsFiled sha3_256 bytes f b) where
    then-IsUnused : (id : ℕ) → b.next_id ≤ id → IsUnused id b
    unfolding list_name
    then-IsUnused id from =
        let free = h.unused id (omega (arith, is.next_id, from)) in
        let differ : id ≡ f.id → ⊥ = λ e. omega (arith, is.next_id, from, e, new_id) in
        let (no_dir, no_file) = free.listings.listed f.parent_dir is.content is.listed in
        record {
          dirs = ap (lookup id) is.dirs ∙ free.dirs;
          files =
              ap (lookup id) is.indexed
              ∙ (lookup-insert_other f.id id f a.files differ ∙ free.files);
          listings = subst (NotListed id) (sym is.listings) (
              NotListed-insert id f.parent_dir _ a.dirs_content
                (NotListed-parent id f.parent_dir is.content a.dirs_content free.listings is.listed)
                no_dir (member-include_other f.id id is.content.files differ no_file)
                free.listings);
        }

    new-IsKnown : IsKnown sha3_256 f.id f b
    unfolding list_name
    new-IsKnown = record {
      same_id = refl;
      bytes = bytes;
      len = good.len;
      checksum = good.checksum;
      kept = is.kept;
      here = is.here;
      listing = subst (IsListed f) (sym is.listings) (record {
        content = record (list_name f.name is.content) { files = include f.id is.content.files };
        listed = lookup-insert_same f.parent_dir _ a.dirs_content;
        has_id = member-include_same f.id is.content.files;
        has_name = member-include_same f.name is.content.names;
      });
    }

    old-IsKnown : (id : ℕ) (g : File) → lookup id a.files ≡ some g → IsKnown sha3_256 id g b
    unfolding list_name
    old-IsKnown id g at =
        let k = h.files id g at in
        record {
          same_id = k.same_id;
          bytes = k.bytes;
          len = k.len;
          checksum = k.checksum;
          kept = is.keeps g.content_addr k.bytes k.kept;
          here = is.files g k.here;
          listing = subst (IsListed g) (sym is.listings) (
              IsListed-insert g a.dirs_content f.parent_dir is.content _ is.listed
                (λ same has. member-include_more g.id f.id is.content.files has)
                (λ same has. member-include_more g.name f.name is.content.names has) k.listing);
        }

    new-IsDistinct : (id : ℕ) (g : File) → lookup id a.files ≡ some g → IsDistinct g f
    new-IsDistinct id g at =
        let k = h.files id g at in
        let size = k.len in
        (
          λ some_g some_f.
              Beside-start g.content_addr (length k.bytes) f.content_addr (length bytes)
                (is.apart g.content_addr k.bytes k.kept (omega (arith, some_g, size)))
                (omega (arith, some_g, size)) (omega (arith, some_f, good.len)),
          λ parent name.
              let same : k.listing.content ≡ is.content =
                some_inj
                  (sym k.listing.listed ∙ (ap (λ p. lookup p a.dirs_content) parent ∙ is.listed)) in
              ground (
                arith,
                sym k.listing.has_name
                    ∙ (ap (λ (x : DirContent). member g.name x.names) same
                        ∙ (ap (λ n. member n is.content.names) name ∙ is.fresh_name)),
              ),
        )

    -- A file of the index is the new one, or was there.
    either :
        {P : Type 0} (id : ℕ) (g : File)
        → lookup id b.files ≡ some g
        → (id ≡ f.id → f ≡ g → P)
        → (lookup id a.files ≡ some g → P)
        → P
    either id g at new old =
        lookup-insert_cases f.id id f g a.files (ap (lookup id) (sym is.indexed) ∙ at) new
          (λ differ before. old before)

    then-IsTied : IsTied b.file_segments b.files
    then-IsTied =
        let free = h.unused a.next_id (omega arith) in
        IsTied-update a.file_segments b.file_segments a.files b.files e.segment_index e.entry_index
          f.id (some f) h.tied
          (λ i j x differ at same. ground (
            arith,
            sym (h.tied.slots i j x at) ∙ (ap (λ n. lookup n a.files) (same ∙ new_id) ∙ free.files),
          ))
          (λ y is_new. ap (λ (z : File). z.id) (sym (some_inj is_new)))
          (λ y is_new. ap (lookup f.id) is.indexed ∙ (lookup-insert_same f.id f a.files ∙ is_new))
          (λ n differ. ap (lookup n) is.indexed ∙ lookup-insert_other f.id n f a.files differ)
          is.were

    then-IsConsistent : IsConsistent sha3_256 b
    then-IsConsistent = record {
      on_disk = good.on_disk;
      capacity = subst HasCapacity (sym is.conf) h.capacity;
      some_id = omega (arith, is.next_id);
      unused = then-IsUnused;
      files = λ id g at.
          either id g at
            (λ same is_new.
              subst (λ x. IsKnown sha3_256 x g b) (sym same)
                (subst (λ x. IsKnown sha3_256 f.id x b) is_new new-IsKnown))
            (λ before. old-IsKnown id g before);
      tied = then-IsTied;
      distinct = λ id id' g g' at at' differ.
          either id g at
            (λ same is_new.
              either id' g' at' (λ same' is_new'. absurd (differ (same ∙ sym same')))
                (λ before'.
                  subst (λ x. IsDistinct x g') is_new
                    (IsDistinct-sym g' f (new-IsDistinct id' g' before'))))
            (λ before.
              either id' g' at'
                (λ same' is_new'. subst (IsDistinct g) is_new' (new-IsDistinct id g before))
                (λ before'. h.distinct id id' g g' before before' differ));
    }

    -- Every file's content, the new one's by itself.
    contents_then : (id : ℕ) → contents b id ≡ (if id == f.id then some bytes else contents a id)
    contents_then id = elim (Bool-cases (id == f.id)) [
      | inl e ↦
          let is_new : id ≡ f.id = ground (arith, e) in
          rw e (
            ap (contents b) is_new
            ∙ (ap (content_of b) good.indexed ∙ content_of-kept f bytes b good.len good.held))
      | inr e ↦
          let differ : id ≡ f.id → ⊥ = λ x. ground (arith, x, e) in
          rw e (
            ap (λ files. content_of b (lookup id files)) is.indexed
            ∙ (ap (content_of b) (lookup-insert_other f.id id f a.files differ)
                ∙ each id (lookup id a.files) refl))
    ]
      where
        each : (n : ℕ) (o : Option File) → lookup n a.files ≡ o → content_of b o ≡ content_of a o
        each n none at = refl
        each n (some g) at =
            let k = h.files n g at in
            content_of-known sha3_256 n g a b k (is.keeps g.content_addr k.bytes k.kept)

  -- Let an archive be consistent: its stream holds the header and the segments, the ids from the
  -- next one on are not in use, each file of the index is in a slot and in its parent's listing
  -- with its content in a stretch of its own, and the slots have no other files. Let the parent be
  -- listed without the name, the values be what their types allow, the next id not be the last one,
  -- and the stream with a new segment and the data behind it end below 2^64; the digests are of 32
  -- bytes. Then `create_file` succeeds and answers the next id, and the archive is consistent
  -- again. Under the new id it has the data as the content of a file, and under any other what it
  -- had.
  pub create_file-IsConsistent :
      (parent : DirectoryIdOrRoot) (name : ItemName) (time : Timestamp) (bytes : List ℕ)
      → CanAdd parent name time a
      → length a.source.content + encoded_len (new_segment a.conf) + length bytes < 2 ^ 64
      → (b : Archive) × (f : File) × (create_file sha3_256 parent name time bytes a
          ≡ (done f.id, b))
        × (f.id ≡ a.next_id)
        × IsConsistent sha3_256 b
        × ((id : ℕ) → contents b id ≡ (if id == f.id then some bytes else contents a id))
  create_file-IsConsistent parent name time bytes can bound =
      let (b, c, e, f, run, made, room, is, good) =
        create_file-IsAddedFile sha3_256 digest_size digest_bytes parent name time bytes a h.on_disk
          h.capacity bound (may_add parent name time can) in
      let new_id : f.id ≡ a.next_id = ap (λ (x : File). x.id) made in
      (
        b,
        f,
        run,
        new_id,
        then-IsConsistent bytes f e b c new_id is good,
        contents_then bytes f e b c new_id is good,
      )
