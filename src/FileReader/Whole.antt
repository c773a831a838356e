-- ===== src/FileReader/Whole.antt =====
-- Reading a file to its end, in whatever pieces.
use baf.Base.{
  ℕ, zero, suc, ◌+◌, ◌≤◌, ◌<◌, ◌≡◌, refl, sym, ap, ◌∙◌, inl, inr, false, ◌||◌, List, [], ◌∷◌, ◌++◌,
  append_assoc, append-nil, some, ok, err, arith, ◌==◌, if◌then◌else◌, beq, length, take, drop,
  take-drop, length-take, length-append, Bool-cases,
}
use baf.Source.{Source, remaining}
use baf.FileReader
use baf.FileReader.{
  ReadError, other, hash_mismatch, FileReaderError, io, FileReader, min_len, checked, read,
  read_to_end, read_to_vec,
}
use baf.FileReader.Round.{at, verdict, answer, read_some, read_none, checked-more, checked-last}

module _ (sha3_256 : List ℕ → List ℕ) (sizes : ℕ → ℕ) (positive : (k : ℕ) → 0 < sizes k) where
  read_to_end-over :
      (fuel : ℕ) (s : Source) (expected front : List ℕ)
      → read_to_end sha3_256 sizes (suc fuel) (at s expected front []) front ≡ some (ok front)
  unfolding read_to_end
  read_to_end-over fuel s expected front =
      rw (read_to_end, read_none sha3_256 s expected front (sizes fuel)) refl

  -- The chunk that a round reads, and what it leaves.
  chunk_of :
      (back : List ℕ) (size : ℕ)
      → 0 < length back
      → 0 < size
      → (b : ℕ) × (c : List ℕ) × (rest : List ℕ) × (back ≡ (b ∷ c) ++ rest)
        × (min_len size (length back) ≡ length (b ∷ c))
  chunk_of back size h k = go (min_len size (length back)) back (ground arith) (ground arith)
    where
      go :
          (n : ℕ) (back : List ℕ)
          → 0 < n
          → n ≤ length back
          → (b : ℕ) × (c : List ℕ) × (rest : List ℕ) × (back ≡ (b ∷ c) ++ rest)
            × (n ≡ length (b ∷ c))
      go n [] p q = absurd (omega arith)
      go zero (x ∷ xs) p q = absurd (omega arith)
      go (suc n) (x ∷ xs) p q = (
        x,
        take n xs,
        drop n xs,
        ap (◌∷◌ x) (sym (take-drop n xs)),
        ap suc (sym (length-take n xs (omega arith))),
      )

  step-more :
      (fuel : ℕ) (r after : FileReader) (b : ℕ) (c buf : List ℕ)
      → read sha3_256 (sizes fuel) r ≡ (ok (b ∷ c), after)
      → read_to_end sha3_256 sizes (suc fuel) r buf
        ≡ read_to_end sha3_256 sizes fuel after (buf ++ (b ∷ c))
  unfolding read_to_end
  step-more fuel r after b c buf e = rw (e, read_to_end) (rw e refl)

  step-err :
      (fuel : ℕ) (r after : FileReader) (error : ReadError) (buf : List ℕ)
      → read sha3_256 (sizes fuel) r ≡ (err error, after)
      → read_to_end sha3_256 sizes (suc fuel) r buf ≡ some (err error)
  unfolding read_to_end
  step-err fuel r after error buf e = rw (e, read_to_end) refl

  -- The round that reads the last chunk.
  last_round :
      (fuel : ℕ) (s : Source) (expected front more : List ℕ) (b : ℕ) (c : List ℕ)
      → remaining s ≡ front ++ (((b ∷ c) ++ []) ++ more)
      → min_len (sizes (suc fuel)) (length ((b ∷ c) ++ [])) ≡ length (b ∷ c)
      → read_to_end sha3_256 sizes (suc (suc fuel)) (at s expected front ((b ∷ c) ++ [])) front
        ≡ some (verdict sha3_256 expected (front ++ (b ∷ c)))
  last_round fuel s expected front more b c h e =
      let whole = front ++ (b ∷ c) in
      let some_read : (length whole == 0) ≡ false = ground (arith, length-append front (b ∷ c)) in
      let r = read_some sha3_256 s expected front [] more b c (sizes (suc fuel)) h e in
      let check = checked-last sha3_256 s expected whole (b ∷ c) in
      elim (Bool-cases (beq (sha3_256 whole) expected)) [
        | inl good ↦
            let fine : checked sha3_256 (b ∷ c) (at s expected whole []) ≡ ok (b ∷ c) =
              check ∙ rw good refl in
            step-more (suc fuel) _ (at s expected whole []) b c front (r ∙ rw fine refl)
            ∙ (read_to_end-over fuel s expected whole ∙ rw (some_read, good) refl)
        | inr bad ↦
            let wrong : checked sha3_256 (b ∷ c) (at s expected whole [])
                ≡ err (hash_mismatch expected (sha3_256 whole)) =
              check ∙ rw bad refl in
            step-err (suc fuel) _ (at s expected whole []) (hash_mismatch expected (sha3_256 whole))
              front (r ∙ rw wrong refl)
            ∙ rw (some_read, bad) refl
      ]

  round :
      (fuel : ℕ) (s : Source) (expected front back more : List ℕ) (b : ℕ) (c rest : List ℕ)
      → back ≡ (b ∷ c) ++ rest
      → remaining s ≡ front ++ (back ++ more)
      → min_len (sizes (suc fuel)) (length back) ≡ length (b ∷ c)
      → read_to_end sha3_256 sizes
          (suc fuel)
          (at s expected (front ++ (b ∷ c)) rest)
          (front ++ (b ∷ c))
        ≡ some (answer sha3_256 expected (front ++ (b ∷ c)) rest)
      → read_to_end sha3_256 sizes (suc (suc fuel)) (at s expected front back) front
        ≡ some (verdict sha3_256 expected (front ++ back))
  round fuel s expected front back more b c [] split h e later = rw (split) (
      last_round fuel s expected front more b c (rw split at h) (rw split at e)
      ∙ ap (λ t. some (verdict sha3_256 expected (front ++ t))) (sym (append-nil (b ∷ c))))
  round fuel s expected front back more b c (x ∷ rest) split h e later =
      let r =
        read_some sha3_256 s expected front (x ∷ rest) more b c (sizes (suc fuel)) (rw split at h)
          (rw split at e) in
      let fine =
        checked-more sha3_256 s expected (front ++ (b ∷ c)) (x ∷ rest) (b ∷ c) (omega arith) in
      rw split (
        step-more (suc fuel) _ (at s expected (front ++ (b ∷ c)) (x ∷ rest)) b c front
          (r ∙ rw fine refl)
        ∙ (later
            ∙ ap (λ t. some (verdict sha3_256 expected t)) (append_assoc front (b ∷ c) (x ∷ rest))))

  pub read_to_end_lem :
      (fuel : ℕ) (s : Source) (expected front back more : List ℕ)
      → remaining s ≡ front ++ (back ++ more)
      → length back < fuel
      → read_to_end sha3_256 sizes fuel (at s expected front back) front
        ≡ some (answer sha3_256 expected front back)
  read_to_end_lem zero s expected front back more h enough = absurd (omega arith)
  read_to_end_lem (suc fuel) s expected front [] more h enough =
      read_to_end-over fuel s expected front
  read_to_end_lem (suc zero) s expected front (x ∷ back) more h enough = absurd (omega arith)
  read_to_end_lem (suc (suc fuel)) s expected front (x ∷ back) more h enough =
      let (b, c, rest, split, e) =
        chunk_of (x ∷ back) (sizes (suc fuel)) (omega arith) (positive (suc fuel)) in
      round fuel s expected front (x ∷ back) more b c rest split h e (
        read_to_end_lem (suc fuel) s expected (front ++ (b ∷ c)) rest more
          (h
            ∙ ap (λ t. front ++ (t ++ more)) split
            ∙ ap (λ t. front ++ t) (append_assoc (b ∷ c) rest more)
            ∙ sym (append_assoc front (b ∷ c) (rest ++ more)))
          (omega (arith, enough, ap length split, length-append (b ∷ c) rest)))

  new-at :
      (s : Source) (expected content : List ℕ)
      → FileReader.new s (length content) expected ≡ at s expected [] content
  unfolding FileReader.new
  new-at s expected content =
      let pos : s.pos ≡ s.pos + 0 = omega arith in
      let len : length content ≡ 0 + length content = omega arith in
      ap
        (λ p. record {
          source = record { content = s.content; pos = p };
          len = length content;
          expected_checksum = expected;
          pending_checksum = [];
          pos = 0;
        })
        pos
      ∙ ap
          (λ n. record {
            source = record { content = s.content; pos = s.pos + 0 };
            len = n;
            expected_checksum = expected;
            pending_checksum = [];
            pos = 0;
          })
          len

  whole :
      (s : Source) (expected content more : List ℕ)
      → remaining s ≡ content ++ more
      → read_to_end sha3_256 sizes
          (length content + 1)
          (FileReader.new s (length content) expected)
          []
        ≡ some (answer sha3_256 expected [] content)
  whole s expected content more h =
      ap (λ r. read_to_end sha3_256 sizes (length content + 1) r []) (new-at s expected content)
      ∙ read_to_end_lem (length content + 1) s expected [] content more h (omega arith)

  -- Let a stream hold a file's content where it stands, and let the buffers of the reads be not
  -- empty. Whatever their sizes, reading the file to its end does not run out of rounds. It
  -- answers the content if its hash is the expected one or it is empty, in which case the hash is
  -- not looked at; else the error that names both hashes.
  pub read_to_vec_lem :
      (s : Source) (expected content more : List ℕ)
      → remaining s ≡ content ++ more
      → read_to_vec sha3_256 sizes (FileReader.new s (length content) expected)
        ≡ some (
            if (length content == 0) || beq (sha3_256 content) expected
            then ok content
            else err (io (hash_mismatch expected (sha3_256 content))))
  unfolding read_to_vec FileReader.new
  read_to_vec_lem s expected [] more h = rw (read_to_vec, whole s expected [] more h) refl
  read_to_vec_lem s expected (b ∷ content) more h =
      let some_read : (suc (length content) == 0) ≡ false = ground arith in
      elim (Bool-cases (beq (sha3_256 (b ∷ content)) expected)) [
        | inl good ↦
            rw (read_to_vec, whole s expected (b ∷ content) more h) (rw (some_read, good) refl)
        | inr bad ↦
            rw (read_to_vec, whole s expected (b ∷ content) more h) (rw (some_read, bad) refl)
      ]
