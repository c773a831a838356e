-- ===== src/Source/Reads.antt =====
-- What an operation on a source reads: rules for `read_exact`, integers, arrays and sequences.
use baf.Base.{
  ℕ, zero, suc, ◌-◌, ◌%◌, ◌^◌, ◌<◌, ◌≡◌, ap, ◌∙◌, List, [], ◌∷◌, ◌++◌, append_assoc, Result, ok,
  arith, le→leb, length, drop, All, length-append, length-drop, take-append, drop-append, drop-add,
}
use baf.Bytes.{to_le_bytes, from_le_bytes, from_le_bytes-to_le_bytes, length-to_le_bytes, IsByte}
use baf.Source.{
  Source, Reader, pure, ◌>>=◌, mapping, remaining, skip, read_exact, read_uint, read_array, advance,
  from_result, position, IoError,
}

-- `m` reads exactly `bytes`, whatever follows them, and returns `v`.
pub record Reads {E A : Type 0} (m : Reader E A) (bytes : List ℕ) (v : A) : Type 0 where
  pub run :
      (s : Source) (more : List ℕ)
      → remaining s ≡ bytes ++ more
      → m s ≡ ok (v, skip (length bytes) s)

pub remaining-skip :
    (s : Source) (bytes more : List ℕ)
    → remaining s ≡ bytes ++ more
    → remaining (skip (length bytes) s) ≡ more
remaining-skip s bytes more h =
    drop-add s.pos (length bytes) s.content ∙ (ap (drop (length bytes)) h ∙ drop-append bytes more)

pub skip-skip :
    (s : Source) (bs cs : List ℕ)
    → skip (length cs) (skip (length bs) s) ≡ skip (length (bs ++ cs)) s
skip-skip s bs cs = ground (arith, length-append bs cs)

pub Reads-pure : {E A : Type 0} (v : A) → Reads {E = E} (pure v) [] v
Reads-pure v = record { run = λ s more h. ground arith }

pub Reads-read_exact :
    (n : ℕ) (bytes : List ℕ) → length bytes ≡ n → Reads (read_exact n) bytes bytes
unfolding read_exact
Reads-read_exact n bytes e = record {
  run = λ s more h. rw (
    le→leb n (length s.content - s.pos)
        (omega (arith, e, length-drop s.pos s.content, ap length h, length-append bytes more)),
    ← e,
    h,
    take-append bytes more,
  );
}

pub Reads-bind :
    {E A B : Type 0} (m : Reader E A) (f : A → Reader E B) {bs cs : List ℕ} {v : A} {w : B}
    → Reads m bs v
    → Reads (f v) cs w
    → Reads (m >>= f) (bs ++ cs) w
Reads-bind m f {bs} {cs} {v} {w} hm hf = record {
  run = λ s more h.
      let split : remaining s ≡ bs ++ (cs ++ more) = h ∙ append_assoc bs cs more in
      rw (hm.run s (cs ++ more) split, ◌>>=◌)
        (hf.run (skip (length bs) s) more (remaining-skip s bs (cs ++ more) split)
          ∙ ap (λ t. ok (w, t)) (skip-skip s bs cs));
}

-- A last step that reads nothing.
pub Reads-map :
    {E A B : Type 0} (m : Reader E A) (f : A → B) {bs : List ℕ} {v : A}
    → Reads m bs v
    → Reads (m >>= λ a. pure (f a)) bs (f v)
Reads-map m f hm = record { run = λ s more h. rw (hm.run s more h, ◌>>=◌) }

pub Reads-mapping :
    {E F A : Type 0} (g : E → F) (m : Reader E A) {bs : List ℕ} {v : A}
    → Reads m bs v
    → Reads (mapping g m) bs v
Reads-mapping g m hm = record { run = λ s more h. rw (hm.run s more h, mapping) }

pub Reads-read_uint : (w x : ℕ) → x < 256 ^ w → Reads (read_uint w) (to_le_bytes w x) x
unfolding read_uint
Reads-read_uint w x h = rw (from_le_bytes-to_le_bytes w x h) at (
    Reads-map (read_exact w) from_le_bytes
      (Reads-read_exact w (to_le_bytes w x) (length-to_le_bytes w x)))

Reads-read_byte : (b : ℕ) → b < 256 → Reads (read_uint 1) (b ∷ []) b
unfolding to_le_bytes
Reads-read_byte b h = let e : b % 256 ≡ b = omega arith in rw e at (Reads-read_uint 1 b h)

-- Skipping bytes reads them, whatever they are.
pub Reads-advance : (n : ℕ) (bytes : List ℕ) → length bytes ≡ n → Reads (advance n) bytes tt
unfolding advance
Reads-advance n bytes e = record { run = λ s more h. rw e }

-- An array of bytes read one by one.
pub Reads-read_array_bytes :
    (n : ℕ) (bytes : List ℕ)
    → length bytes ≡ n
    → All IsByte bytes
    → Reads (read_array n (read_uint 1)) bytes bytes
unfolding read_array
Reads-read_array_bytes zero [] e h = Reads-pure []
Reads-read_array_bytes zero (b ∷ bs) e h = absurd (omega arith)
Reads-read_array_bytes (suc n) [] e h = absurd (omega arith)
Reads-read_array_bytes (suc n) (b ∷ bs) e (hb, h) =
    Reads-bind (read_uint 1) _ (Reads-read_byte b hb) (
      Reads-map (read_array n (read_uint 1)) (λ rest. b ∷ rest)
        (Reads-read_array_bytes n bs (omega arith) h))

-- A value from a result that needs no reading.
pub Reads-from_result :
    {E A : Type 0} (r : Result E A) {v : A} → r ≡ ok v → Reads (from_result r) [] v
Reads-from_result r e = record { run = λ s more h. ground arith }

-- Asking for the position reads nothing, and what follows must not depend on the answer.
pub Reads-position :
    {F A : Type 0} (g : IoError → F) (f : ℕ → Reader F A) {bs : List ℕ} {v : A}
    → ((p : ℕ) → Reads (f p) bs v)
    → Reads (mapping g position >>= f) bs v
unfolding position
Reads-position g f h = record { run = λ s more e. (h s.pos).run s more e }
