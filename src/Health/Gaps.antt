-- ===== src/Health/Gaps.antt =====
-- What the check of the file table lets through.
use baf.Base.{◌≡◌, ◌≢◌, refl, ap, sym, ◌∙◌, Bool, true, false, List, [], ◌∷◌, none, some, ok}
use baf.Base.Maps.{lookup, member, lookup-insert, nat_key, bytes_key}
use baf.Data.Directory.{DirectoryIdOrRoot, root, non_root}
use baf.Data.File.{File}
use baf.Data.FtSegment.{FileTableSegment}
use baf.Health.{
  no_content, Contents, filled, all_dirs, all_files, list_file, each, verdict,
  check_file_table_correctness, same_dir, same_dir_iff, Check, start, content_of, push_if, dir_key,
  FileTableCorrectnessError, duplicate_item_in_dir_name, duplicate_file_id, file,
}

-- A segment with no directories and two files.
abbrev pub two_files : File → File → FileTableSegment
two_files f g = record { next_segment_addr = none; dirs = []; files = some f ∷ some g ∷ [] }

not_same : (a b : DirectoryIdOrRoot) → a ≢ b → same_dir a b ≡ false
not_same a b h = go (same_dir a b) refl
  where
    go : (r : Bool) → same_dir a b ≡ r → r ≡ false
    go true e = absurd (h ((same_dir_iff a b).0 e))
    go false e = refl

-- Before any file is listed, every listing is empty.
start-empty : (p : DirectoryIdOrRoot) → content_of p start.dirs_content ≡ no_content
unfolding lookup same_dir
start-empty root = refl
start-empty (non_root a) = refl

-- A file in an empty listing raises no error.
list_file-quiet :
    (c : Check) (f : File)
    → content_of f.parent_dir c.dirs_content ≡ no_content
    → (list_file c f).errors ≡ c.errors
unfolding list_file member
list_file-quiet c f e =
    ap
      (λ parent.
        push_if (member f.name parent.names)
          (duplicate_item_in_dir_name (file f.id) f.name f.parent_dir)
          (push_if (member f.id parent.files) (duplicate_file_id f.id f.name) c.errors))
      e

-- Listing a file leaves the other listings alone.
content_of-list_file :
    (c : Check) (f : File) (p : DirectoryIdOrRoot)
    → f.parent_dir ≢ p
    → content_of p (list_file c f).dirs_content ≡ content_of p c.dirs_content
unfolding list_file
content_of-list_file c f p h =
    let other : same_dir p f.parent_dir ≡ false = not_same p f.parent_dir (λ e. h (sym e)) in
    ap (λ o. elim o [ none ↦ no_content | some content ↦ content ]) {y = lookup p c.dirs_content}
      (lookup-insert f.parent_dir p _ c.dirs_content ∙ rw other)

verdict-quiet :
    (m : Contents) (errors : List FileTableCorrectnessError) → errors ≡ [] → verdict m errors ≡ ok m
unfolding verdict
verdict-quiet m errors e = rw e

-- Take a file table of one segment with no directories and with two files in its slots that have
-- one id and different parents. The check accepts it, although it is to refuse a file id that is
-- there twice.
pub same_file_id_accepted :
    (f g : File)
    → f.id ≡ g.id
    → f.parent_dir ≢ g.parent_dir
    → (m : Contents) × (check_file_table_correctness (two_files f g ∷ []) ≡ ok m)
unfolding check_file_table_correctness all_dirs all_files filled each
same_file_id_accepted f g e h =
    let c : Check = list_file start f in
    (
      (list_file c g).dirs_content,
      verdict-quiet _ _ (
          list_file-quiet c g
            (content_of-list_file start f g.parent_dir h ∙ start-empty g.parent_dir)
          ∙ list_file-quiet start f (start-empty f.parent_dir)),
    )
