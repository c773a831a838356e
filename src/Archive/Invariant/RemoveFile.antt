-- ===== src/Archive/Invariant/RemoveFile.antt =====
-- Removing a file of a consistent archive.
use baf.Base.{
  ℕ, ◌≤◌, ◌≡◌, refl, sym, ap, subst, ◌∙◌, inl, inr, List, Option, none, some, Bool-cases, ◌==◌,
  if◌then◌else◌, arith,
}
use baf.Base.Maps.{lookup, nat_key, bytes_key}
use baf.Data.File.{File}
use baf.Coverage.{Segment}
use baf.Health.{file, dir_key}
use baf.Archive.{Archive, done}
use baf.Archive.Slots.{SegmentEntry, get_item_entry}
use baf.Archive.Slots.Find.{IsFound, absent, get_item_entry_lem}
use baf.Archive.Remove.{remove_file}
use baf.Archive.Disk.{IsClear, IsKept}
use baf.Archive.Disk.Items.{InSlot}
use baf.Archive.Disk.Grown.{HasCapacity, IsChain-IsLinked}
use baf.Archive.Disk.Removed.{MayRemoveFile, IsRemoved, remove_file-IsRemoved}
use baf.Archive.Invariant.{IsListed, NotListed, IsUnused, IsKnown, IsTied, IsConsistent}
use baf.Archive.Invariant.Contents.{contents, content_of, content_of-known}
use baf.Archive.Invariant.Tied.{IsTied-update, once-away}
use baf.Archive.Disk.Places.{IsAt, IsAt-set}
use baf.Data.FtSegment.InPlace.{with_file}
use baf.Archive.Invariant.Listed.{
  IsListed-insert, NotListed-insert, NotListed-parent, member-exclude_other, member-exclude_none,
  lookup-remove-some, lookup-remove-none, lookup-remove_same, lookup-remove_other,
}

-- An item that is in a slot is found.
is_found :
    (f : File) (a : Archive) (o : Option SegmentEntry)
    → get_item_entry a.file_segments (file f.id) ≡ some o
    → IsFound a.file_segments (file f.id) o
    → InSlot (λ s. s.files) f a.file_segments
    → (e : SegmentEntry) × (get_item_entry a.file_segments (file f.id) ≡ some (some e))
is_found f a none at (absent nowhere) here =
    absurd (nowhere here.index here.place here.segment here.at (f, here.slot, refl))
is_found f a (some e) at good here = (e, at)

module _ (sha3_256 : List ℕ → List ℕ) (a : Archive) (h : IsConsistent sha3_256 a) (f : File)
    (indexed : lookup f.id a.files ≡ some f) where
  known : IsKnown sha3_256 f.id f a
  known = h.files f.id f indexed

  pub may_remove : (e : SegmentEntry) × MayRemoveFile f e a
  may_remove =
      let k = known in
      let (o, at, good) =
        get_item_entry_lem a.file_segments (file f.id)
          (IsChain-IsLinked a.file_segments h.on_disk.chain) in
      let (e, found_at) = is_found f a o at good k.here in
      (
        e,
        record {
          found = found_at;
          indexed = indexed;
          content = k.listing.content;
          listed = k.listing.listed;
          has_id = k.listing.has_id;
          has_name = k.listing.has_name;
          clear = λ some_len.
              subst (λ n. IsClear f.content_addr n a) (sym k.len)
                (k.kept.clear (omega (arith, some_len, k.len)));
        },
      )

  module _ (e : SegmentEntry) (b : Archive) (is : IsRemoved f e a b) where
    then-IsUnused : (id : ℕ) → b.next_id ≤ id → IsUnused id b
    then-IsUnused id from =
        let free = h.unused id (omega (arith, is.next_id, from)) in
        let (no_dir, no_file) = free.listings.listed f.parent_dir is.content is.listed in
        record {
          dirs = ap (lookup id) is.dirs ∙ free.dirs;
          files = ap (lookup id) is.indexed ∙ lookup-remove-none f.id id a.files free.files;
          listings = subst (NotListed id) (sym is.listings) (
              NotListed-insert id f.parent_dir _ a.dirs_content
                (NotListed-parent id f.parent_dir is.content a.dirs_content free.listings is.listed)
                no_dir (member-exclude_none f.id id is.content.files no_file) free.listings);
        }

    before :
        (id : ℕ) (g : File)
        → lookup id b.files ≡ some g
        → (id ≡ f.id → ⊥) × (lookup id a.files ≡ some g)
    before id g at = lookup-remove-some f.id id g a.files (ap (lookup id) (sym is.indexed) ∙ at)

    then-IsKept :
        (id : ℕ) (g : File) (k : IsKnown sha3_256 id g a)
        → lookup id a.files ≡ some g
        → (id ≡ f.id → ⊥)
        → IsKept g.content_addr k.bytes b
    then-IsKept id g k at differ =
        let (addrs, names) = h.distinct id f.id g f at indexed differ in
        let size = k.len in
        is.keeps g.content_addr k.bytes
          (λ some_g some_f same.
            addrs (omega (arith, some_g, size)) some_f (ap (λ (z : Segment). z.start) same))
          k.kept

    then-IsKnown : (id : ℕ) (g : File) → lookup id b.files ≡ some g → IsKnown sha3_256 id g b
    then-IsKnown id g at =
        let (differ, at_a) = before id g at in
        let k = h.files id g at_a in
        let (addrs, names) = h.distinct id f.id g f at_a indexed differ in
        let other : g.id ≡ f.id → ⊥ = λ same. differ (sym k.same_id ∙ same) in
        record {
          same_id = k.same_id;
          bytes = k.bytes;
          len = k.len;
          checksum = k.checksum;
          kept = then-IsKept id g k at_a differ;
          here = is.files g other k.here;
          listing = subst (IsListed g) (sym is.listings) (
              IsListed-insert g a.dirs_content f.parent_dir is.content _ is.listed
                (λ same has. member-exclude_other f.id g.id is.content.files other has)
                (λ same has. member-exclude_other f.name g.name is.content.names (names same) has)
                k.listing);
        }

    then-IsTied : IsTied b.file_segments b.files
    then-IsTied =
        let here : IsAt (λ s. s.files) a.file_segments e.segment_index e.entry_index is.old =
          record { segment = is.segment; at = is.before; slot = is.slot } in
        IsTied-update a.file_segments b.file_segments a.files b.files e.segment_index e.entry_index
          f.id none h.tied
          (once-away a.file_segments a.files e.segment_index e.entry_index is.old f.id h.tied here
            is.same_id)
          (λ y none_new. absurd (ground (arith, none_new)))
          (λ y none_new. absurd (ground (arith, none_new)))
          (λ n differ. ap (lookup n) is.indexed ∙ lookup-remove_other f.id n a.files differ)
          (λ x i j at.
            IsAt-set (λ s. s.files) x a.file_segments e.segment_index is.segment
              (with_file is.segment e.entry_index none) is.before i j e.entry_index none refl
              (subst (λ ss. IsAt (λ s. s.files) ss i j x) is.after at))

    then-IsConsistent : IsConsistent sha3_256 b
    then-IsConsistent = record {
      on_disk = is.on_disk;
      capacity = subst HasCapacity (sym is.conf) h.capacity;
      some_id = omega (arith, is.next_id, h.some_id);
      unused = then-IsUnused;
      files = then-IsKnown;
      tied = then-IsTied;
      distinct =
          λ id id' g g' at at'. h.distinct id id' g g' (before id g at).1 (before id' g' at').1;
    }

    contents_then : (id : ℕ) → contents b id ≡ (if id == f.id then none else contents a id)
    contents_then id = elim (Bool-cases (id == f.id)) [
      | inl e ↦
          let same : id ≡ f.id = ground (arith, e) in
          rw e (
            ap (contents b) same
            ∙ (ap (λ files. content_of b (lookup f.id files)) is.indexed
                ∙ ap (content_of b) (lookup-remove_same f.id a.files)))
      | inr e ↦
          let differ : id ≡ f.id → ⊥ = λ x. ground (arith, x, e) in
          rw e (
            ap (λ files. content_of b (lookup id files)) is.indexed
            ∙ (ap (content_of b) (lookup-remove_other f.id id a.files differ)
                ∙ each id differ (lookup id a.files) refl))
    ]
      where
        each :
            (n : ℕ)
            → (n ≡ f.id → ⊥)
            → (o : Option File) → lookup n a.files ≡ o
            → content_of b o ≡ content_of a o
        each n differ none at = refl
        each n differ (some g) at =
            let k = h.files n g at in
            content_of-known sha3_256 n g a b k (then-IsKept n g k at differ)

  -- Let an archive be consistent: its stream holds the header and the segments, the ids from the
  -- next one on are not in use, each file of the index is in a slot and in its parent's listing
  -- with its content in a stretch of its own, and the slots have no other files. Let the index have
  -- a file under its id. Then `remove_file` succeeds and answers the file, the archive is
  -- consistent again, and it has no content under that id, and under any other what it had.
  pub remove_file-IsConsistent :
      (b : Archive) × (remove_file f.id a ≡ (done f, b))
      × IsConsistent sha3_256 b
      × ((id : ℕ) → contents b id ≡ (if id == f.id then none else contents a id))
  remove_file-IsConsistent =
      let (e, may) = may_remove in
      let (b, run, is) = remove_file-IsRemoved f e a h.on_disk may in
      (b, run, then-IsConsistent e b is, contents_then e b is)
