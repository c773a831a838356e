-- ===== src/Archive/Invariant/Contents.antt =====
-- The contents of an archive's files: what a user sees of the archive, without the stream, the
-- segments and the coverage that they are kept by.
use baf.Base.{
  ℕ, ◌<◌, ◌≡◌, refl, sym, ap, ◌∙◌, inl, inr, List, Option, none, some, length, take, drop,
  take-append, Option-cases,
}
use baf.Base.Maps.{lookup, nat_key}
use baf.Source.Window.{Holds}
use baf.Data.File.{File, FileId}
use baf.Archive.{Archive, Outcome, done, failed, file_not_found, ◌>>=◌}
use baf.Archive.Create.Steps.{moved}
use baf.Archive.Read.{get_file, read_file, read_file_to_vec}
use baf.Archive.Disk.{IsKept}
use baf.Archive.Disk.AddedFile.{IsFiled}
use baf.Archive.Disk.ReadBack.{read_file_to_vec_lem}
use baf.Archive.Invariant.{IsKnown, IsConsistent}

abbrev pub content_of : Archive → Option File → Option (List ℕ)
content_of a none = none
content_of a (some f) = some (take f.content_len (drop f.content_addr a.source.content))

-- The content of each file of the index.
abbrev pub contents : Archive → FileId → Option (List ℕ)
contents a id = content_of a (lookup id a.files)

kept_content :
    (content : List ℕ) (p : ℕ) (bytes : List ℕ)
    → Holds content p bytes
    → take (length bytes) (drop p content) ≡ bytes
kept_content content p bytes h = rw (h.1.1) (take-append bytes h.1.0)

-- Bytes that are kept at a file's address are its content.
pub content_of-kept :
    (f : File) (bytes : List ℕ) (a : Archive)
    → f.content_len ≡ length bytes
    → Holds a.source.content f.content_addr bytes
    → content_of a (some f) ≡ some bytes
content_of-kept f bytes a len h =
    ap (λ n. some (take n (drop f.content_addr a.source.content))) len
    ∙ ap (λ xs. some xs) (kept_content a.source.content f.content_addr bytes h)

-- The file of an archive's index has the same content in another archive that keeps it.
pub content_of-known :
    (sha3_256 : List ℕ → List ℕ) (id : FileId) (f : File) (a b : Archive)
    → (k : IsKnown sha3_256 id f a) → IsKept f.content_addr k.bytes b
    → content_of b (some f) ≡ content_of a (some f)
content_of-known sha3_256 id f a b k kept =
    content_of-kept f k.bytes b k.len kept.held
    ∙ sym (content_of-kept f k.bytes a k.len k.kept.held)

-- What reading a file answers.
abbrev pub answer : Option (List ℕ) → Outcome (List ℕ)
answer none = failed file_not_found
answer (some bytes) = done bytes

module _ (sha3_256 : List ℕ → List ℕ) (sizes : ℕ → ℕ) (positive : (k : ℕ) → 0 < sizes k)
    (a : Archive) (h : IsConsistent sha3_256 a) where
  -- Let an archive be consistent: its stream holds the header and the segments, the ids from the
  -- next one on are not in use, each file of the index is in a slot and in its parent's listing
  -- with its content in a stretch of its own, and the slots have no other files; the buffers of the
  -- reads are not empty. Then `read_file_to_vec` gives the content of the file by any id, whatever
  -- the sizes of the buffers, or `FileNotFound` where there is none, and changes nothing but the
  -- stream's position.
  pub read_file_to_vec-contents :
      (id : FileId)
      → (pos : ℕ) × (read_file_to_vec sha3_256 sizes id a ≡ (answer (contents a id), moved pos a))
  unfolding read_file_to_vec read_file get_file
  read_file_to_vec-contents id = elim (Option-cases (lookup id a.files)) [
    | inl none_at ↦ (a.source.pos, rw (read_file_to_vec, read_file, ◌>>=◌, none_at) refl)
    | inr (f, at) ↦
        let k = h.files id f at in
        let filed : IsFiled sha3_256 k.bytes f a = record {
          on_disk = h.on_disk;
          indexed = ap (λ n. lookup n a.files) k.same_id ∙ at;
          held = k.kept.held;
          len = k.len;
          checksum = k.checksum;
        } in
        let content : contents a id ≡ some k.bytes =
          ap (content_of a) at ∙ content_of-kept f k.bytes a k.len k.kept.held in
        (
          f.content_addr,
          ap (λ n. read_file_to_vec sha3_256 sizes n a) (sym k.same_id)
              ∙ (read_file_to_vec_lem sha3_256 sizes positive f k.bytes a filed
                  ∙ ap (λ o. (answer o, moved f.content_addr a)) (sym content)),
        )
  ]
