-- ===== src/Source/Window.antt =====
-- A stretch of a content that holds given bytes, and what writes do to it.
use baf.Base.{
  ℕ, zero, suc, ◌+◌, ◌-◌, ◌≤◌, ◌≡◌, refl, sym, ap, subst, ◌∙◌, ◌⊎◌, inl, inr, List, [], ◌∷◌, ◌++◌,
  append_assoc, arith, length, take, drop, take-drop, length-take, length-append, drop-append,
  drop-add,
}
use Prim.Native.Nat.add
use baf.Source.{overwrite}
use baf.Source.Overwrite.{overwrite_inside, overwrite_lem, length-overwrite}

-- `bytes` stand at `addr`.
abbrev pub Holds : List ℕ → ℕ → List ℕ → Type 0
Holds content addr bytes =
    (addr + length bytes ≤ length content) × ((more : List ℕ) × (drop addr content ≡ bytes ++ more))

-- Two stretches, by their starts and lengths.
abbrev pub Beside : ℕ → ℕ → ℕ → ℕ → Type 0
Beside p m q n = (p + m ≤ q) ⊎ (q + n ≤ p)

take-behind :
    (front back : List ℕ) (k : ℕ) → take (length front + k) (front ++ back) ≡ front ++ take k back
take-behind [] back k = ap (λ n. take n back) (omega arith)
take-behind (x ∷ front) back k =
    rw (add.suc (length front) k) (ap (◌∷◌ x) (take-behind front back k))

drop-behind : (front back : List ℕ) (k : ℕ) → drop (length front + k) (front ++ back) ≡ drop k back
drop-behind front back k =
    drop-add (length front) k (front ++ back) ∙ ap (drop k) (drop-append front back)

take-before :
    (front back : List ℕ) (k : ℕ) → k ≤ length front → take k (front ++ back) ≡ take k front
take-before front back zero h = refl
take-before [] back (suc k) h = absurd (omega arith)
take-before (x ∷ front) back (suc k) h = ap (◌∷◌ x) (take-before front back k (omega arith))

drop-before :
    (front back : List ℕ) (k : ℕ) → k ≤ length front → drop k (front ++ back) ≡ drop k front ++ back
drop-before front back zero h = refl
drop-before [] back (suc k) h = absurd (omega arith)
drop-before (x ∷ front) back (suc k) h = drop-before front back k (omega arith)

-- A write behind a front leaves it, and one in a front leaves what is behind it.
overwrite-behind :
    (front back new : List ℕ) (k : ℕ)
    → k ≤ length back
    → overwrite (length front + k) new (front ++ back) ≡ front ++ overwrite k new back
overwrite-behind front back new k h =
    overwrite_inside (length front + k) new (front ++ back)
      (omega (arith, length-append front back))
    ∙ rw (take-behind front back k, tail)
        (append_assoc front (take k back) (new ++ drop (k + length new) back)
          ∙ ap (λ t. front ++ t) (sym (overwrite_inside k new back h)))
  where
    tail : drop (length front + k + length new) (front ++ back) ≡ drop (k + length new) back
    tail = ap (λ n. drop n (front ++ back)) (omega arith) ∙ drop-behind front back (k + length new)

overwrite-before :
    (front back new : List ℕ) (k : ℕ)
    → k + length new ≤ length front
    → overwrite k new (front ++ back) ≡ overwrite k new front ++ back
overwrite-before front back new k h =
    overwrite_inside k new (front ++ back) (omega (arith, length-append front back))
    ∙ rw (take-before front back k (omega arith), drop-before front back (k + length new) h)
        (sym (
          append_assoc (take k front) _ back
          ∙ ap (λ t. take k front ++ t) (append_assoc new _ back)))
    ∙ ap (λ t. t ++ back) (sym (overwrite_inside k new front (omega arith)))

-- A content by what stands at an address.
split :
    (content : List ℕ) (addr : ℕ) (bytes : List ℕ)
    → (h : Holds content addr bytes)
    → (length (take addr content) ≡ addr) × (content ≡ take addr content ++ (bytes ++ h.1.0))
split content addr bytes (inside, (more, e)) = (
  length-take addr content (omega arith),
  sym (take-drop addr content) ∙ ap (λ t. take addr content ++ t) e,
)

held : (front bytes more : List ℕ) → Holds (front ++ (bytes ++ more)) (length front) bytes
held front bytes more = (
  omega (arith, length-append front (bytes ++ more), length-append bytes more),
  (more, drop-append front (bytes ++ more)),
)

held_at :
    (content : List ℕ) (addr : ℕ) (front bytes more : List ℕ)
    → content ≡ front ++ (bytes ++ more)
    → length front ≡ addr
    → Holds content addr bytes
held_at content addr front bytes more e l =
    subst (λ c. Holds c addr bytes) (sym e)
      (subst (λ n. Holds (front ++ (bytes ++ more)) n bytes) l (held front bytes more))

-- A write beside what is held leaves it.
pub Holds-Beside :
    (content : List ℕ) (addr p : ℕ) (bytes new : List ℕ)
    → p ≤ length content
    → Beside addr (length bytes) p (length new)
    → Holds content addr bytes
    → Holds (overwrite p new content) addr bytes
Holds-Beside content addr p bytes new h (inl before) held =
    let (l, e) = split content addr bytes held in
    let more = held.1.0 in
    let front = take addr content ++ bytes in
    let end : length front ≡ addr + length bytes =
      omega (arith, length-append (take addr content) bytes, l) in
    let e' : content ≡ front ++ more = e ∙ sym (append_assoc (take addr content) bytes more) in
    let k = p - length front in
    let size : length content ≡ length front + length more =
      ap length e' ∙ length-append front more in
    let at : p ≡ length front + k = omega (arith, end, before) in
    held_at _ addr (take addr content) bytes (overwrite k new more)
      (ap (overwrite p new) e'
        ∙ ap (λ q. overwrite q new (front ++ more)) at
        ∙ overwrite-behind front more new k (omega (arith, size, end, h, before))
        ∙ append_assoc (take addr content) bytes (overwrite k new more))
      l
Holds-Beside content addr p bytes new h (inr after) held =
    let (l, e) = split content addr bytes held in
    let front = take addr content in
    let more = held.1.0 in
    held_at _ addr (overwrite p new front) bytes more
      (ap (overwrite p new) e
        ∙ overwrite-before front (bytes ++ more) new p (omega (arith, l, after)))
      (length-overwrite p new front (omega (arith, l, after)) ∙ omega (arith, l, after))

-- A write in what is held changes it there.
pub Holds-within :
    (content : List ℕ) (addr off : ℕ) (bytes new : List ℕ)
    → off + length new ≤ length bytes
    → Holds content addr bytes
    → Holds (overwrite (addr + off) new content) addr (overwrite off new bytes)
Holds-within content addr off bytes new h held =
    let (l, e) = split content addr bytes held in
    let front = take addr content in
    let more = held.1.0 in
    let at : addr + off ≡ length front + off = omega (arith, l) in
    held_at _ addr front (overwrite off new bytes) more
      (ap (overwrite (addr + off) new) e
        ∙ ap (λ q. overwrite q new (front ++ (bytes ++ more))) at
        ∙ overwrite-behind front (bytes ++ more) new off
            (omega (arith, length-append bytes more, h))
        ∙ ap (λ t. front ++ t) (overwrite-before bytes more new off h))
      l

pub Holds-overwrite :
    (content : List ℕ) (p : ℕ) (new : List ℕ)
    → p ≤ length content
    → Holds (overwrite p new content) p new
Holds-overwrite content p new h =
    held_at (overwrite p new content) p (take p content) new (drop (p + length new) content)
      (overwrite_inside p new content h) (length-take p content h)

-- Writing a part of bytes is writing them with the part changed.
pub overwrite-part :
    (content : List ℕ) (addr off : ℕ) (bytes new : List ℕ)
    → off + length new ≤ length bytes
    → Holds content addr bytes
    → overwrite (addr + off) new content ≡ overwrite addr (overwrite off new bytes) content
overwrite-part content addr off bytes new h held =
    let (l, e) = split content addr bytes held in
    let front = take addr content in
    let more = held.1.0 in
    let at : addr + off ≡ length front + off = omega (arith, l) in
    let size : length bytes ≡ length (overwrite off new bytes) =
      omega (arith, h, length-overwrite off new bytes (omega (arith, h))) in
    ap (overwrite (addr + off) new) e
    ∙ ap (λ q. overwrite q new (front ++ (bytes ++ more))) at
    ∙ overwrite-behind front (bytes ++ more) new off (omega (arith, length-append bytes more, h))
    ∙ ap (λ t. front ++ t) (overwrite-before bytes more new off h)
    ∙ sym (
        ap (overwrite addr (overwrite off new bytes)) e
        ∙ overwrite_lem addr front bytes (overwrite off new bytes) more l size)
