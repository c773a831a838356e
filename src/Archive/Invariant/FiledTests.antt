-- ===== src/Archive/Invariant/FiledTests.antt =====
-- A consistent archive with a file, and the theorems at it.
use baf.Base.{
  ℕ, zero, suc, ◌∙◌, ap, get_elem?, ◌≤◌, ◌≡◌, refl, sym, subst, inl, inr, false, List, [], ◌∷◌,
  some, some_inj, arith, length, replicate, length-replicate, All, All-replicate, Bool-cases, ◌==◌,
  if◌then◌else◌, beq,
}
use baf.Base.Maps.{lookup, member, nat_key, bytes_key}
use baf.Bytes.{IsByte}
use baf.Data.Directory.{DirectoryIdOrRoot, root, non_root}
use baf.Data.File.{File}
use baf.Health.{DirContent, same_dir, dir_key}
use baf.Archive.{Archive, done}
use baf.Archive.Change.{replace_file_content, rename_file}
use baf.Data.Utf8.{is_utf8}
use baf.Data.Name.{check_validity, check_reserved, check_chars}
use baf.Archive.Disk.RemoveTests.{notes, segment, content_size, filed, filed-IsOnDisk, notes-IsKept}
use baf.Data.FtSegment.{FileTableSegment}
use baf.Archive.Disk.Places.{IsAt}
use baf.Archive.Invariant.{IsUnused, IsKnown, IsConsistent}
use baf.Archive.Invariant.Contents.{contents}
use baf.Archive.Invariant.Changes.{IsRenamed}
use baf.Archive.Invariant.Taken.{taken_name}
use baf.Archive.{failed, duplicate_name}
use baf.Archive.Write.{parent_text}
use baf.Archive.Create.{create_dir, create_file}
use baf.Archive.Invariant.RenameFile.{rename_file-IsConsistent}
use baf.Archive.Invariant.ReplaceFile.{replace_file_content-IsConsistent}

-- A function in place of the hash.
abbrev hash : List ℕ → List ℕ
hash bytes = replicate 32 0

hash_size : (bs : List ℕ) → length (hash bs) ≡ 32
hash_size bs = length-replicate {A = ℕ} 32 0

hash_bytes : (bs : List ℕ) → All IsByte (hash bs)
hash_bytes bs = All-replicate IsByte 32 0 (omega arith)

filed-IsUnused : (id : ℕ) → 3 ≤ id → IsUnused id filed
unfolding lookup member same_dir
filed-IsUnused id from =
    let other : (id == 2) ≡ false = ground arith in
    record {
      dirs = refl;
      files = rw other refl;
      listings = record { content = refl; listed = only };
    }
  where
    only :
        (p : DirectoryIdOrRoot) (c : DirContent)
        → lookup p filed.dirs_content ≡ some c
        → (member id c.dirs ≡ false) × (member id c.files ≡ false)
    only root c at =
        subst (λ (x : DirContent). (member id x.dirs ≡ false) × (member id x.files ≡ false))
          (some_inj at) (refl, ground arith)
    only (non_root n) c at = absurd (ground arith)

notes-IsKnown : IsKnown hash 2 notes filed
notes-IsKnown = record {
  same_id = refl;
  bytes = 1 ∷ 2 ∷ 3 ∷ [];
  len = refl;
  checksum = refl;
  kept = notes-IsKept;
  here = record { index = 0; place = 1; segment = segment; at = refl; slot = refl };
  listing = record {
    content = record { dirs = []; files = 2 ∷ []; names = notes.name ∷ [] };
    listed = unfold lookup same_dir in refl;
    has_id = unfold member in refl;
    has_name = unfold member beq in refl;
  };
}

only_notes : (id : ℕ) (f : File) → lookup id filed.files ≡ some f → (id ≡ 2) × (notes ≡ f)
unfolding lookup
only_notes id f at = elim (Bool-cases (id == 2)) [
  | inl e ↦ (ground (arith, e), some_inj (rw e at at))
  | inr e ↦ absurd (ground (arith, rw e at at))
]

filed-IsAt :
    (i j : ℕ) (x : File)
    → IsAt (λ s. s.files) (segment ∷ []) i j x
    → (i ≡ 0) × (j ≡ 1) × (notes ≡ x)
filed-IsAt zero j x at =
    let (place, is) =
      row j (ap (λ (s : FileTableSegment). get_elem? s.files j) (some_inj at.at) ∙ at.slot) in
    (refl, place, is)
  where
    row : (k : ℕ) → get_elem? segment.files k ≡ some (some x) → (k ≡ 1) × (notes ≡ x)
    row zero slot = absurd (ground (arith, slot))
    row (suc zero) slot = (refl, some_inj (some_inj slot))
    row (suc (suc k)) slot = absurd (ground (arith, slot))
filed-IsAt (suc i) j x at = absurd (ground (arith, at.at))

filed-IsConsistent : IsConsistent hash filed
filed-IsConsistent = record {
  on_disk = filed-IsOnDisk;
  capacity = record {
    dirs = omega arith;
    dirs_count = omega arith;
    files = omega arith;
    files_count = omega arith;
  };
  some_id = omega arith;
  unused = filed-IsUnused;
  files = λ id f at.
      let (same, is) = only_notes id f at in
      subst (λ n. IsKnown hash n f filed) (sym same)
        (subst (λ g. IsKnown hash 2 g filed) is notes-IsKnown);
  tied = record {
    slots = λ i j x at.
        let (here, place, is) = filed-IsAt i j x at in
        subst (λ y. lookup y.id filed.files ≡ some y) is (unfold lookup in refl);
    once = λ i j i' j' x y at at' same.
        let (here, place, is) = filed-IsAt i j x at in
        let (here', place', is') = filed-IsAt i' j' y at' in (here ∙ sym here', place ∙ sym place');
  };
  distinct = λ id id' f g at at' differ.
      let (same, is) = only_notes id f at in
      let (same', is') = only_notes id' g at' in absurd (omega (arith, differ, same, same'));
}

replace_file_content-IsConsistent_example :
    (b : Archive) × (replace_file_content hash 2 8 (7 ∷ []) filed ≡ (done tt, b))
    × IsConsistent hash b
    × ((id : ℕ) → contents b id ≡ (if id == 2 then some (7 ∷ []) else contents filed id))
replace_file_content-IsConsistent_example =
    replace_file_content-IsConsistent hash hash_size hash_bytes filed filed-IsConsistent notes
      (unfold lookup in refl) 8 (7 ∷ []) (omega arith) (omega (arith, content_size))

rename_file-IsConsistent_example :
    (b : Archive) × (rename_file 2 (97 ∷ []) filed ≡ (done tt, b))
    × IsConsistent hash b
    × (lookup 2 b.files ≡ some (record notes { name = 97 ∷ [] }))
    × IsRenamed notes (97 ∷ []) filed b
    × ((id : ℕ) → contents b id ≡ contents filed id)
rename_file-IsConsistent_example =
    rename_file-IsConsistent hash filed filed-IsConsistent notes (unfold lookup in refl) (97 ∷ [])
      (unfold check_validity check_reserved check_chars beq is_utf8 in
        record { valid = refl; utf8 = refl })
      (record { dirs = []; files = 2 ∷ []; names = notes.name ∷ [] })
      (unfold lookup same_dir in refl) (unfold member beq in refl)

taken_name_example :
    (create_dir notes.parent_dir notes.name 5 filed
      ≡ (failed (duplicate_name notes.name (parent_text notes.parent_dir filed)), filed))
    × (create_file hash notes.parent_dir notes.name 5 (1 ∷ []) filed
        ≡ (failed (duplicate_name notes.name (parent_text notes.parent_dir filed)), filed))
    × (rename_file 2 notes.name filed
        ≡ (failed (duplicate_name notes.name (parent_text notes.parent_dir filed)), filed))
taken_name_example =
    taken_name hash filed filed-IsConsistent notes (unfold lookup in refl) 5 (1 ∷ []) notes
      (unfold lookup in refl) refl
