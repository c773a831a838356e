-- ===== src/Archive/Invariant/AddDir.antt =====
-- Creating a directory in a consistent archive.
use baf.Base.{
  ℕ, ◌+◌, ◌^◌, ◌≤◌, ◌<◌, ◌≡◌, refl, sym, ap, subst, ◌∙◌, List, Option, none, some, arith, length,
}
use baf.Base.Maps.{lookup, lookup-insert, member, include, member-include, nat_key, bytes_key}
use baf.Data.Name.{ItemName}
use baf.Data.Timestamp.{Timestamp}
use baf.Data.Directory.{DirectoryIdOrRoot, non_root}
use baf.Data.File.{File}
use baf.Data.FtSegment.{encoded_len}
use baf.Health.{DirContent, no_content, dir_key}
use baf.Archive.{Archive, done}
use baf.Archive.Slots.{SegmentEntry}
use baf.Archive.Create.{create_dir, list_name}
use baf.Archive.Disk.Grown.{HasCapacity, new_segment}
use baf.Archive.Disk.Created.{MayAddDir, new_dir, IsAdded, create_dir-IsAdded}
use baf.Archive.Invariant.{IsListed, NotListed, IsUnused, IsKnown, IsConsistent, CanAdd}
use baf.Archive.Invariant.Changes.{IsEnteredDir}
use baf.Archive.Invariant.Contents.{contents, content_of, content_of-known}
use baf.Archive.Invariant.Listed.{
  lookup-insert_same, lookup-insert_other, IsListed-insert, IsListed-insert_new, NotListed-insert,
  NotListed-parent, member-include_other, member-include_more,
}

module _ (sha3_256 : List ℕ → List ℕ) (a : Archive) (h : IsConsistent sha3_256 a)
    (parent : DirectoryIdOrRoot) (name : ItemName) (time : Timestamp)
    (can : CanAdd parent name time a) where
  may_add : MayAddDir parent name time a
  may_add =
      let free = h.unused a.next_id (omega arith) in
      record {
        content = can.content;
        listed = can.listed;
        fresh_name = can.fresh_name;
        fresh_id = (free.listings.listed parent can.content can.listed).0;
        not_indexed = free.dirs;
        id_left = can.id_left;
        valid = record {
          id = (h.some_id, omega (arith, can.id_left));
          parent_dir = can.parent_dir;
          name = can.valid_name;
          modif_time = can.modif_time;
        };
      }

  module _ (e : SegmentEntry) (b c : Archive)
      (is : IsAdded (new_dir parent name time a) e a c b) where
    same_files : b.files ≡ a.files
    same_files = ap (λ (x : Archive). x.files) is.rest

    next : b.next_id ≡ a.next_id + 1
    next = ap (λ (x : Archive). x.next_id) is.rest

    then-IsUnused : (id : ℕ) → b.next_id ≤ id → IsUnused id b
    unfolding list_name member
    then-IsUnused id from =
        let free = h.unused id (omega (arith, next, from)) in
        let differ : id ≡ a.next_id → ⊥ = λ e. omega (arith, next, from, e) in
        let (no_dir, no_file) = free.listings.listed parent is.content is.listed in
        record {
          dirs =
              ap (lookup id) is.indexed
              ∙ (lookup-insert_other a.next_id id (new_dir parent name time a) a.dirs differ
                  ∙ free.dirs);
          files = ap (lookup id) same_files ∙ free.files;
          listings = subst (NotListed id) (sym is.listings) (
              NotListed-insert id (non_root a.next_id) no_content _ (λ e. ground (arith, differ, e))
                refl refl
                (NotListed-insert id parent _ a.dirs_content
                  (NotListed-parent id parent is.content a.dirs_content free.listings is.listed)
                  (member-include_other a.next_id id is.content.dirs differ no_dir) no_file
                  free.listings));
        }

    then-IsKnown : (id : ℕ) (f : File) → lookup id b.files ≡ some f → IsKnown sha3_256 id f b
    unfolding list_name
    then-IsKnown id f at =
        let k = h.files id f (ap (lookup id) (sym same_files) ∙ at) in
        let free = h.unused a.next_id (omega arith) in
        record {
          same_id = k.same_id;
          bytes = k.bytes;
          len = k.len;
          checksum = k.checksum;
          kept = is.keeps f.content_addr k.bytes k.kept;
          here = is.files f k.here;
          listing = subst (IsListed f) (sym is.listings) (
              IsListed-insert_new f _ (non_root a.next_id) no_content
                (lookup-insert_other parent (non_root a.next_id) _ a.dirs_content (
                    NotListed-parent a.next_id parent is.content a.dirs_content free.listings
                      is.listed)
                  ∙ free.listings.content)
                (IsListed-insert f a.dirs_content parent is.content _ is.listed (λ same has. has)
                  (λ same has. member-include_more f.name name is.content.names has) k.listing));
        }

    then-IsConsistent : IsConsistent sha3_256 b
    then-IsConsistent =
        let conf : b.conf ≡ a.conf = ap (λ (x : Archive). x.conf) is.rest in
        record {
          on_disk = is.on_disk;
          capacity = subst HasCapacity (sym conf) h.capacity;
          some_id = omega (arith, next);
          unused = then-IsUnused;
          files = then-IsKnown;
          tied = record {
            slots = λ i j x at. ap (lookup x.id) same_files ∙ h.tied.slots i j x (is.were x i j at);
            once = λ i j i' j' x y at at'.
                h.tied.once i j i' j' x y (is.were x i j at) (is.were y i' j' at');
          };
          distinct = λ id id' f g at at'.
              h.distinct id id' f g (ap (lookup id) (sym same_files) ∙ at)
                (ap (lookup id') (sym same_files) ∙ at');
        }

    same_contents : (id : ℕ) → contents b id ≡ contents a id
    same_contents id =
        ap (λ files. content_of b (lookup id files)) same_files ∙ each (lookup id a.files) refl
      where
        each : (o : Option File) → lookup id a.files ≡ o → content_of b o ≡ content_of a o
        each none at = refl
        each (some f) at =
            let k = h.files id f at in
            content_of-known sha3_256 id f a b k (is.keeps f.content_addr k.bytes k.kept)

  module _ (e : SegmentEntry) (b c : Archive)
      (is : IsAdded (new_dir parent name time a) e a c b) where
    -- The id of the new directory is not that of its parent.
    not_parent : non_root a.next_id ≡ parent → ⊥
    not_parent =
        NotListed-parent a.next_id parent is.content a.dirs_content
          (h.unused a.next_id (omega arith)).listings is.listed

    then-IsEnteredDir : IsEnteredDir (new_dir parent name time a) a b
    unfolding list_name
    then-IsEnteredDir =
        let dir = new_dir parent name time a in
        let after : DirContent = record (list_name name is.content) {
          dirs = include a.next_id is.content.dirs;
        } in
        record {
          indexed = λ id. ap (lookup id) is.indexed ∙ lookup-insert a.next_id id dir a.dirs;
          here = is.here;
          own =
              ap (lookup (non_root a.next_id)) is.listings
              ∙ lookup-insert_same (non_root a.next_id) no_content _;
          before = is.content;
          after = after;
          was_listed = is.listed;
          listed =
              ap (lookup parent) is.listings
              ∙ (lookup-insert_other (non_root a.next_id) parent no_content _
                    (λ same. not_parent (sym same))
                  ∙ lookup-insert_same parent after a.dirs_content);
          ids = λ id. member-include a.next_id id is.content.dirs;
          names = λ n. member-include name n is.content.names;
          files = refl;
          others = λ p other other_own.
              ap (lookup p) is.listings
              ∙ (lookup-insert_other (non_root a.next_id) p no_content _ other_own
                  ∙ lookup-insert_other parent p after a.dirs_content other);
        }

  -- Let an archive be consistent: its stream holds the header and the segments, the ids from the
  -- next one on are not in use, each file of the index is in a slot and in its parent's listing
  -- with its content in a stretch of its own, and the slots have no other files. Let the parent be
  -- listed without the name, the values be what their types allow, the next id not be the last one,
  -- and the stream with a new segment behind it end below 2^64. Then `create_dir` succeeds and
  -- answers the next id, and the archive is consistent again. The index has the new directory under
  -- that id, with the parent, the name and the time that were given, and what it had under any
  -- other; a slot has the directory, and its own listing is empty; the parent's listing has the id
  -- and the name more, and all other listings are what they were. The files have the contents that
  -- they had.
  pub create_dir-IsConsistent :
      length a.source.content + encoded_len (new_segment a.conf) < 2 ^ 64
      → (b : Archive) × (create_dir parent name time a ≡ (done a.next_id, b))
        × IsConsistent sha3_256 b
        × IsEnteredDir (new_dir parent name time a) a b
        × ((id : ℕ) → contents b id ≡ contents a id)
  create_dir-IsConsistent bound =
      let (b, c, e, run, room, is) =
        create_dir-IsAdded parent name time a h.on_disk h.capacity bound may_add in
      (b, run, then-IsConsistent e b c is, then-IsEnteredDir e b c is, same_contents e b c is)
