-- ===== src/Archive/Invariant/RenameFile.antt =====
-- Renaming a file of a consistent archive.
use baf.Base.{
  ℕ, ◌≤◌, ◌≡◌, refl, sym, ap, subst, ◌∙◌, inl, inr, false, List, Option, none, some, some_inj,
  arith, set, Bool-cases, ◌==◌, ◌||◌, beq,
}
use baf.Base.Maps.{
  lookup, lookup-insert, member-include, member-exclude, member, include, exclude, nat_key,
  bytes_key,
}
use baf.Data.Name.{ItemName}
use baf.Data.Name.Valid.{IsItemName}
use baf.Data.File.{File}
use baf.Data.FtSegment.InPlace.{with_file}
use baf.Health.{DirContent, dir_key}
use baf.Archive.{Archive, done}
use baf.Archive.Slots.{SegmentEntry}
use baf.Archive.Change.{rename_file}
use baf.Archive.Disk.Items.{InSlot, InSlot-set, InSlot-new, slot-set_other}
use baf.Archive.Disk.Places.{IsAt, IsAt-set}
use baf.Archive.Disk.Grown.{HasCapacity}
use baf.Archive.Disk.Renamed.{MayRenameFile, IsRenamedFile, rename_file-IsRenamedFile}
use baf.Archive.Invariant.{IsListed, NotListed, IsUnused, IsKnown, IsDistinct, IsTied, IsConsistent}
use baf.Archive.Invariant.Changes.{IsRenamed}
use baf.Archive.Invariant.Contents.{contents, content_of, content_of-known}
use baf.Archive.Invariant.AddFile.{IsDistinct-sym}
use baf.Archive.Invariant.RemoveFile.{may_remove}
use baf.Archive.Invariant.Tied.{IsTied-update, once-away}
use baf.Archive.Invariant.Listed.{
  lookup-insert_same, lookup-insert_other, lookup-insert_cases, IsListed-insert, NotListed-insert,
  NotListed-parent, member-include_more, member-include_same, member-exclude_other,
}

module _ (sha3_256 : List ℕ → List ℕ) (a : Archive) (h : IsConsistent sha3_256 a) (f : File)
    (indexed : lookup f.id a.files ≡ some f) (name : ItemName) (valid : IsItemName name)
    (content : DirContent) (listed : lookup f.parent_dir a.dirs_content ≡ some content)
    (fresh_name : member name content.names ≡ false) where
  abbrev new : File
  new = record f { name = name }

  known : IsKnown sha3_256 f.id f a
  known = h.files f.id f indexed

  may_rename : (e : SegmentEntry) × MayRenameFile f name e a
  may_rename =
      let (e, may) = may_remove sha3_256 a h f indexed in
      let same : known.listing.content ≡ content = some_inj (sym known.listing.listed ∙ listed) in
      (
        e,
        record {
          found = may.found;
          indexed = indexed;
          content = content;
          listed = listed;
          has_name =
              ap (λ (c : DirContent). member f.name c.names) (sym same) ∙ known.listing.has_name;
          fresh_name = fresh_name;
        },
      )

  module _ (e : SegmentEntry) (b : Archive) (is : IsRenamedFile f name e a b) where
    here : IsAt (λ s. s.files) a.file_segments e.segment_index e.entry_index is.old
    here = record { segment = is.segment; at = is.before; slot = is.slot }

    -- The file that is found in the slot is that of the index.
    same_file : is.old ≡ f
    same_file = some_inj (
        sym (h.tied.slots e.segment_index e.entry_index is.old here)
        ∙ (ap (λ n. lookup n a.files) is.same_id ∙ indexed))

    then_segments :
        b.file_segments
        ≡ set a.file_segments e.segment_index (with_file is.segment e.entry_index (some new))
    then_segments =
        is.after
        ∙ ap
            (λ (x : File).
              set a.file_segments e.segment_index
                (with_file is.segment e.entry_index (some (record x { name = name }))))
            same_file

    same_dirs : b.dirs ≡ a.dirs
    same_dirs = ap (λ (x : Archive). x.dirs) is.rest

    next : b.next_id ≡ a.next_id
    next = ap (λ (x : Archive). x.next_id) is.rest

    then-IsUnused : (id : ℕ) → b.next_id ≤ id → IsUnused id b
    then-IsUnused id from =
        let free = h.unused id (omega (arith, next, from)) in
        let differ : id ≡ f.id → ⊥ =
          λ e. ground (arith, sym indexed ∙ (ap (λ n. lookup n a.files) (sym e) ∙ free.files)) in
        let (no_dir, no_file) = free.listings.listed f.parent_dir is.content is.listed in
        record {
          dirs = ap (lookup id) same_dirs ∙ free.dirs;
          files =
              ap (lookup id) is.indexed
              ∙ (lookup-insert_other f.id id new a.files differ ∙ free.files);
          listings = subst (NotListed id) (sym is.listings) (
              NotListed-insert id f.parent_dir _ a.dirs_content
                (NotListed-parent id f.parent_dir is.content a.dirs_content free.listings is.listed)
                no_dir no_file free.listings);
        }

    new-IsKnown : IsKnown sha3_256 f.id new b
    new-IsKnown =
        let k = known in
        let same : k.listing.content ≡ is.content = some_inj (sym k.listing.listed ∙ is.listed) in
        record {
          same_id = refl;
          bytes = k.bytes;
          len = k.len;
          checksum = k.checksum;
          kept = is.keeps f.content_addr k.bytes k.kept;
          here = subst (InSlot (λ s. s.files) new) (sym then_segments) (
              InSlot-new (λ s. s.files) new a.file_segments e.segment_index e.entry_index is.segment
                (with_file is.segment e.entry_index (some new)) (some is.old) is.before is.slot
                refl);
          listing = subst (IsListed new) (sym is.listings) (record {
            content = record is.content { names = include name (exclude f.name is.content.names) };
            listed = lookup-insert_same f.parent_dir _ a.dirs_content;
            has_id = ap (λ (c : DirContent). member f.id c.files) (sym same) ∙ k.listing.has_id;
            has_name = member-include_same name (exclude f.name is.content.names);
          });
        }

    old-IsKnown :
        (id : ℕ) (g : File) → lookup id a.files ≡ some g → (id ≡ f.id → ⊥) → IsKnown sha3_256 id g b
    old-IsKnown id g at differ =
        let k = h.files id g at in
        let other : g.id ≡ f.id → ⊥ = λ same. differ (sym k.same_id ∙ same) in
        let names = (h.distinct id f.id g f at indexed differ).1 in
        record {
          same_id = k.same_id;
          bytes = k.bytes;
          len = k.len;
          checksum = k.checksum;
          kept = is.keeps g.content_addr k.bytes k.kept;
          here = subst (InSlot (λ s. s.files) g) (sym is.after) (
              InSlot-set (λ s. s.files) g a.file_segments e.segment_index is.segment _ is.before
                (slot-set_other (λ s. s.files) g is.segment.files e.entry_index (some is.old) _
                  is.slot
                  (λ same. other (sym (ap (λ (y : File). y.id) (some_inj same)) ∙ is.same_id)))
                k.here);
          listing = subst (IsListed g) (sym is.listings) (
              IsListed-insert g a.dirs_content f.parent_dir is.content _ is.listed (λ same has. has)
                (λ same has.
                  member-include_more g.name name (exclude f.name is.content.names)
                    (member-exclude_other f.name g.name is.content.names (names same) has))
                k.listing);
        }

    new-IsDistinct :
        (id : ℕ) (g : File) → lookup id a.files ≡ some g → (id ≡ f.id → ⊥) → IsDistinct g new
    new-IsDistinct id g at differ =
        let k = h.files id g at in
        (
          (h.distinct id f.id g f at indexed differ).0,
          λ parent same_name.
              let same : k.listing.content ≡ content =
                some_inj
                  (sym k.listing.listed ∙ (ap (λ p. lookup p a.dirs_content) parent ∙ listed)) in
              ground (
                arith,
                sym k.listing.has_name
                    ∙ (ap (λ (x : DirContent). member g.name x.names) same
                        ∙ (ap (λ n. member n content.names) same_name ∙ fresh_name)),
              ),
        )

    -- A file of the index is the renamed one, or was there under another id.
    either :
        {P : Type 0} (id : ℕ) (g : File)
        → lookup id b.files ≡ some g
        → (id ≡ f.id → new ≡ g → P)
        → ((id ≡ f.id → ⊥) → lookup id a.files ≡ some g → P)
        → P
    either id g at =
        lookup-insert_cases f.id id new g a.files (ap (lookup id) (sym is.indexed) ∙ at)

    then-IsTied : IsTied b.file_segments b.files
    then-IsTied =
        IsTied-update a.file_segments b.file_segments a.files b.files e.segment_index e.entry_index
          f.id (some new) h.tied
          (once-away a.file_segments a.files e.segment_index e.entry_index is.old f.id h.tied here
            is.same_id)
          (λ y is_new. ap (λ (z : File). z.id) (sym (some_inj is_new)))
          (λ y is_new. ap (lookup f.id) is.indexed ∙ (lookup-insert_same f.id new a.files ∙ is_new))
          (λ n differ. ap (lookup n) is.indexed ∙ lookup-insert_other f.id n new a.files differ)
          (λ x i j at.
            IsAt-set (λ s. s.files) x a.file_segments e.segment_index is.segment
              (with_file is.segment e.entry_index (some new)) is.before i j e.entry_index (some new)
              refl (subst (λ ss. IsAt (λ s. s.files) ss i j x) then_segments at))

    then-IsConsistent : IsConsistent sha3_256 b
    then-IsConsistent = record {
      on_disk = is.on_disk;
      capacity = subst HasCapacity (sym (ap (λ (x : Archive). x.conf) is.rest)) h.capacity;
      some_id = omega (arith, next, h.some_id);
      unused = then-IsUnused;
      files = λ id g at.
          either id g at
            (λ same is_new.
              subst (λ x. IsKnown sha3_256 x g b) (sym same)
                (subst (λ x. IsKnown sha3_256 f.id x b) is_new new-IsKnown))
            (λ differ before. old-IsKnown id g before differ);
      tied = then-IsTied;
      distinct = λ id id' g g' at at' differ.
          either id g at
            (λ same is_new.
              either id' g' at' (λ same' is_new'. absurd (differ (same ∙ sym same')))
                (λ differ' before'.
                  subst (λ x. IsDistinct x g') is_new
                    (IsDistinct-sym g' new (new-IsDistinct id' g' before' differ'))))
            (λ differ_f before.
              either id' g' at'
                (λ same' is_new'.
                  subst (IsDistinct g) is_new' (new-IsDistinct id g before differ_f))
                (λ differ' before'. h.distinct id id' g g' before before' differ));
    }

    same_contents : (id : ℕ) → contents b id ≡ contents a id
    same_contents id = elim (Bool-cases (id == f.id)) [
      | inl e ↦
          let same : id ≡ f.id = ground (arith, e) in
          let k = known in
          ap (contents b) same
          ∙ (ap (λ files. content_of b (lookup f.id files)) is.indexed
              ∙ (ap (content_of b) (lookup-insert_same f.id new a.files)
                  ∙ (content_of-known sha3_256 f.id f a b k (is.keeps f.content_addr k.bytes k.kept)
                      ∙ (ap (content_of a) (sym indexed) ∙ ap (contents a) (sym same)))))
      | inr e ↦
          let differ : id ≡ f.id → ⊥ = λ x. ground (arith, x, e) in
          ap (λ files. content_of b (lookup id files)) is.indexed
          ∙ (ap (content_of b) (lookup-insert_other f.id id new a.files differ)
              ∙ each id (lookup id a.files) refl)
    ]
      where
        each : (n : ℕ) (o : Option File) → lookup n a.files ≡ o → content_of b o ≡ content_of a o
        each n none at = refl
        each n (some g) at =
            let k = h.files n g at in
            content_of-known sha3_256 n g a b k (is.keeps g.content_addr k.bytes k.kept)

    then-IsRenamed : IsRenamed f name a b
    then-IsRenamed =
        let after : DirContent = record is.content {
          names = include name (exclude f.name is.content.names);
        } in
        record {
          indexed = λ id. ap (lookup id) is.indexed ∙ lookup-insert f.id id new a.files;
          here = new-IsKnown.here;
          before = is.content;
          after = after;
          was_listed = is.listed;
          listed =
              ap (lookup f.parent_dir) is.listings
              ∙ lookup-insert_same f.parent_dir after a.dirs_content;
          names = λ n.
              member-include name n (exclude f.name is.content.names)
              ∙ ap (λ rest. beq n name || rest) (member-exclude f.name n is.content.names);
          dirs = refl;
          files = refl;
          others = λ p other.
              ap (lookup p) is.listings
              ∙ lookup-insert_other f.parent_dir p after a.dirs_content other;
        }

  -- Let an archive be consistent: its stream holds the header and the segments, the ids from the
  -- next one on are not in use, each file of the index is in a slot and in its parent's listing with
  -- its content in a stretch of its own, and the slots have no other files. Let the index have a
  -- file under its id, and its parent's listing not have the new name, which is one that its type
  -- allows. Then `rename_file` succeeds, and the archive is consistent again. The index has the file
  -- with the new name, and all others as they were, and a slot has it too. The parent's listing has
  -- the new name, no longer the old one, and otherwise what it had; all other listings are what they
  -- were, and so are the contents of all files.
  pub rename_file-IsConsistent :
      (b : Archive) × (rename_file f.id name a ≡ (done tt, b))
      × IsConsistent sha3_256 b
      × (lookup f.id b.files ≡ some (record f { name = name }))
      × IsRenamed f name a b
      × ((id : ℕ) → contents b id ≡ contents a id)
  rename_file-IsConsistent =
      let (e, may) = may_rename in
      let (b, run, is) = rename_file-IsRenamedFile f name e a h.on_disk valid may in
      (
        b,
        run,
        then-IsConsistent e b is,
        ap (lookup f.id) is.indexed ∙ lookup-insert_same f.id new a.files,
        then-IsRenamed e b is,
        same_contents e b is,
      )
