-- ===== src/Archive/Write/Copy.antt =====
-- The loop that copies data into the archive and feeds it to the hasher.
use baf.Base.{
  ℕ, zero, suc, ◌+◌, ◌-◌, ◌*◌, ◌≤◌, ◌≡◌, refl, inl, inr, sym, ap, append_assoc, append-nil,
  take-drop, length-take, length-drop, length-append, drop-add, List, [], ◌∷◌, ◌++◌, ok, arith, ltb,
  le→leb, Bool-cases, false, length, take, drop,
}
use baf.Source.{Source, overwrite, read_exact, write_all}
use baf.Source.Overwrite.{overwrite-nil, overwrite-overwrite, length-overwrite}
use baf.Archive.{Archive, done, on_source, ◌>>=◌}
use baf.Archive.Write.{copy_chunks, chunk_size, min64}

-- The archive with bytes written at the stream's position.
abbrev pub wrote : List ℕ → Archive → Archive
wrote xs a = record a {
  source = record {
    content = overwrite a.source.pos xs a.source.content;
    pos = a.source.pos + length xs;
  };
}

abbrev pub Inside : Archive → Type 0
Inside a = a.source.pos ≤ length a.source.content

pub wrote-Inside : (xs : List ℕ) (a : Archive) → Inside a → Inside (wrote xs a)
wrote-Inside xs a h = omega (arith, length-overwrite a.source.pos xs a.source.content h)

wrote-nil : (a : Archive) → Inside a → wrote [] a ≡ a
wrote-nil a h =
    let e : a.source.pos + 0 ≡ a.source.pos = omega arith in
    rw (overwrite-nil a.source.pos a.source.content h, e) refl

pub wrote-wrote :
    (xs ys : List ℕ) (a : Archive) → Inside a → wrote ys (wrote xs a) ≡ wrote (xs ++ ys) a
wrote-wrote xs ys a h =
    let e : a.source.pos + length xs + length ys ≡ a.source.pos + length (xs ++ ys) =
      omega (arith, length-append xs ys) in
    rw (overwrite-overwrite a.source.pos xs ys a.source.content h, e) refl

pub write_all-wrote :
    (xs : List ℕ) (a : Archive) → Inside a → on_source (write_all xs) a ≡ (done tt, wrote xs a)
write_all-wrote [] a h = unfold write_all in ap (λ b. (done tt, b)) (sym (wrote-nil a h))
write_all-wrote (x ∷ xs) a h = unfold write_all in refl

abbrev reading : List ℕ → ℕ → Source
reading bytes written = record { content = bytes; pos = written }

min64-le : (a b : ℕ) → min64 a b ≤ b
min64-le a b = ground arith

-- A round reads a chunk, and the rest of the data is behind it.
read_chunk :
    (bytes : List ℕ) (written size : ℕ)
    → written + size ≤ length bytes
    → read_exact size (reading bytes written)
      ≡ ok (take size (drop written bytes), reading bytes (written + size))
unfolding read_exact
read_chunk bytes written size h = rw (le→leb size (length bytes - written) (omega arith)) refl

chunk-rest :
    (bytes : List ℕ) (written size : ℕ)
    → take size (drop written bytes) ++ drop (written + size) bytes ≡ drop written bytes
chunk-rest bytes written size =
    rw (drop-add written size bytes) (take-drop size (drop written bytes))

drop-all : (n : ℕ) (xs : List ℕ) → length xs ≤ n → drop n xs ≡ []
drop-all zero [] h = refl
drop-all zero (x ∷ xs) h = absurd (omega arith)
drop-all (suc n) [] h = refl
drop-all (suc n) (x ∷ xs) h = drop-all n xs (omega arith)

copy_chunks-done :
    (fuel written : ℕ) (bytes hashed : List ℕ) (a : Archive)
    → Inside a
    → length bytes ≤ written
    → copy_chunks fuel (length bytes) written (reading bytes written) hashed a
      ≡ (done (hashed ++ drop written bytes), wrote (drop written bytes) a)
copy_chunks-done zero written bytes hashed a h end =
    unfold copy_chunks in rw (drop-all written bytes end, append-nil hashed, wrote-nil a h) refl
copy_chunks-done (suc fuel) written bytes hashed a h end =
    let stop : ltb written (length bytes) ≡ false = ground arith in
    unfold copy_chunks in
    rw (stop, copy_chunks, drop-all written bytes end, append-nil hashed, wrote-nil a h) refl

pub copy_chunks_lem :
    (fuel written : ℕ) (bytes hashed : List ℕ) (a : Archive)
    → Inside a
    → length bytes ≤ written + fuel * 4096
    → copy_chunks fuel (length bytes) written (reading bytes written) hashed a
      ≡ (done (hashed ++ drop written bytes), wrote (drop written bytes) a)
unfolding copy_chunks
copy_chunks_lem zero written bytes hashed a h enough =
    copy_chunks-done zero written bytes hashed a h (omega arith)
copy_chunks_lem (suc fuel) written bytes hashed a h enough =
    elim (Bool-cases (ltb written (length bytes))) [
      | inr stop ↦ copy_chunks-done (suc fuel) written bytes hashed a h (ground arith)
      | inl go ↦
          let size = min64 chunk_size (length bytes - written) in
          let chunk = take size (drop written bytes) in
          let fits : written + size ≤ length bytes = ground (arith, go) in
          let enough' : length bytes ≤ written + size + fuel * 4096 = ground (arith, go, enough) in
          let long : length chunk ≡ size =
            length-take size (drop written bytes)
              (omega (arith, length-drop written bytes, fits)) in
          rw
            (
              go,
              copy_chunks,
              read_chunk bytes written size fits,
              ◌>>=◌,
              write_all-wrote chunk a h,
              copy_chunks_lem fuel (written + size) bytes (hashed ++ chunk) (wrote chunk a)
                  (wrote-Inside chunk a h) enough',
              append_assoc hashed chunk (drop (written + size) bytes),
              wrote-wrote chunk (drop (written + size) bytes) a h,
              chunk-rest bytes written size,
            )
            refl
    ]
