-- ===== src/FileReader/Round.antt =====
-- A round of reading a file.
use baf.Base.{
  ℕ, ◌+◌, ◌-◌, ◌<◌, ◌≡◌, refl, ap, ◌∙◌, false, not, ◌||◌, List, [], ◌∷◌, ◌++◌, append_assoc, Result,
  ok, err, arith, ◌==◌, if◌then◌else◌, beq, length, length-append,
}
use baf.Source.{Source, remaining, skip}
use baf.Source.Reads.{Reads-read_exact, remaining-skip, skip-skip}
use baf.FileReader.{ReadError, hash_mismatch, FileReader, min_len, checked, read}

-- A reader that has fed `front` to the hasher and has `back` before it in the stream, `more` behind.
abbrev pub at : Source → List ℕ → List ℕ → List ℕ → FileReader
at s expected front back = record {
  source = skip (length front) s;
  len = length front + length back;
  expected_checksum = expected;
  pending_checksum = front;
  pos = length front;
}

module _ (sha3_256 : List ℕ → List ℕ) where
  -- What the end of the file answers.
  abbrev pub verdict : List ℕ → List ℕ → Result ReadError (List ℕ)
  verdict expected content =
      if (length content == 0) || beq (sha3_256 content) expected
      then ok content
      else err (hash_mismatch expected (sha3_256 content))

  -- The reader after a chunk, as `read` writes it.
  abbrev pub fed : Source → List ℕ → List ℕ → List ℕ → List ℕ → FileReader
  fed s expected front chunk rest = record {
    source = skip (length chunk) (skip (length front) s);
    len = length front + length (chunk ++ rest);
    expected_checksum = expected;
    pending_checksum = front ++ chunk;
    pos = length front + length chunk;
  }

  fed-at :
      (s : Source) (expected front chunk rest : List ℕ)
      → fed s expected front chunk rest ≡ at s expected (front ++ chunk) rest
  fed-at s expected front chunk rest =
      let pos : length front + length chunk ≡ length (front ++ chunk) =
        omega (arith, length-append front chunk) in
      let len : length front + length (chunk ++ rest) ≡ length (front ++ chunk) + length rest =
        omega (arith, length-append front chunk, length-append chunk rest) in
      rw (skip-skip s front chunk, pos, len) refl

  pub read_some :
      (s : Source) (expected front rest more : List ℕ) (b : ℕ) (c : List ℕ) (size : ℕ)
      → remaining s ≡ front ++ (((b ∷ c) ++ rest) ++ more)
      → min_len size (length ((b ∷ c) ++ rest)) ≡ length (b ∷ c)
      → read sha3_256 size (at s expected front ((b ∷ c) ++ rest)) ≡ (
        checked sha3_256 (b ∷ c) (at s expected (front ++ (b ∷ c)) rest),
        at s expected (front ++ (b ∷ c)) rest,
      )
  unfolding read
  read_some s expected front rest more b c size h e =
      let chunk = b ∷ c in
      let left : length front + length (chunk ++ rest) - length front ≡ length (chunk ++ rest) =
        omega arith in
      let here =
        remaining-skip s front ((chunk ++ rest) ++ more) h ∙ append_assoc chunk rest more in
      let run =
        (Reads-read_exact (length chunk) chunk refl).run (skip (length front) s) (rest ++ more)
          here in
      let some_left : (length chunk == 0) ≡ false = ground arith in
      rw (read, left, e, some_left, run)
        (rw (left, e)
          (ap (λ r. (checked sha3_256 chunk r, r)) (fed-at s expected front chunk rest)))

  pub read_none :
      (s : Source) (expected front : List ℕ) (size : ℕ)
      → read sha3_256 size (at s expected front []) ≡ (ok [], at s expected front [])
  unfolding read
  read_none s expected front size = ground arith

  -- What is left to be answered, once `front` has been read.
  abbrev pub answer : List ℕ → List ℕ → List ℕ → Result ReadError (List ℕ)
  answer expected front [] = ok front
  answer expected front (b ∷ back) = verdict expected (front ++ (b ∷ back))

  pub checked-more :
      (s : Source) (expected front rest chunk : List ℕ)
      → 0 < length rest
      → checked sha3_256 chunk (at s expected front rest) ≡ ok chunk
  unfolding checked
  checked-more s expected front rest chunk h = ground arith

  pub checked-last :
      (s : Source) (expected front chunk : List ℕ)
      → checked sha3_256 chunk (at s expected front []) ≡ (
          if not (beq (sha3_256 front) expected)
          then err (hash_mismatch expected (sha3_256 front))
          else ok chunk)
  unfolding checked
  checked-last s expected front chunk = ground arith
