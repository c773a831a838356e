-- ===== src/Source/Overwrite.antt =====
-- Writing over a stretch of a content that has the same length.
use baf.Base.{
  ℕ, ◌+◌, ◌-◌, ◌≤◌, ◌≡◌, refl, sym, ap, ◌∙◌, append_assoc, take-drop, length-take, length-drop,
  List, [], ◌++◌, append-nil, arith, length, take, drop, replicate, length-append, take-append,
  drop-append, drop-add,
}
use baf.Source.{overwrite}

take_front :
    (p : ℕ) (pre rest : List ℕ)
    → length pre ≡ p
    → take p ((pre ++ rest) ++ replicate (p - length (pre ++ rest)) 0) ≡ pre
take_front p pre rest e =
    let inside : p - length (pre ++ rest) ≡ 0 = omega (arith, length-append pre rest) in
    rw (inside, append-nil (pre ++ rest), ← e) (take-append pre rest)

drop_behind :
    (p : ℕ) (pre old new post : List ℕ)
    → length pre ≡ p
    → length old ≡ length new
    → drop (p + length new) (pre ++ (old ++ post)) ≡ post
drop_behind p pre old new post e same =
    rw
      (
        ← same,
        ← e,
        drop-add (length pre) (length old) (pre ++ (old ++ post)),
        drop-append pre (old ++ post),
      )
      (drop-append old post)

-- The stretch is replaced, and what stands before and behind it stays.
pub overwrite_lem :
    (p : ℕ) (pre old new post : List ℕ)
    → length pre ≡ p
    → length old ≡ length new
    → overwrite p new (pre ++ (old ++ post)) ≡ pre ++ (new ++ post)
unfolding overwrite
overwrite_lem p pre old new post e same =
    rw (take_front p pre (old ++ post) e, drop_behind p pre old new post e same)

-- Inside the content, or at its end, there is no gap to fill.
pub overwrite_inside :
    (p : ℕ) (new content : List ℕ)
    → p ≤ length content
    → overwrite p new content ≡ take p content ++ (new ++ drop (p + length new) content)
unfolding overwrite
overwrite_inside p new content h =
    let no_gap : p - length content ≡ 0 = omega arith in rw (no_gap, append-nil content)

pub overwrite-nil :
    (p : ℕ) (content : List ℕ) → p ≤ length content → overwrite p [] content ≡ content
overwrite-nil p content h =
    let e : p + 0 ≡ p = omega arith in overwrite_inside p [] content h ∙ rw e (take-drop p content)

overwrite_behind :
    (pre rest new : List ℕ)
    → overwrite (length pre) new (pre ++ rest) ≡ pre ++ (new ++ drop (length new) rest)
overwrite_behind pre rest new =
    overwrite_inside (length pre) new (pre ++ rest) (omega (arith, length-append pre rest))
    ∙ rw
        (
          take-append pre rest,
          drop-add (length pre) (length new) (pre ++ rest),
          drop-append pre rest,
        )
        refl

-- Writing on from where a first piece ends is writing both at once.
pub overwrite-overwrite :
    (p : ℕ) (xs ys content : List ℕ)
    → p ≤ length content
    → overwrite (p + length xs) ys (overwrite p xs content) ≡ overwrite p (xs ++ ys) content
overwrite-overwrite p xs ys content h =
    let pre = take p content ++ xs in
    let rest = drop (p + length xs) content in
    let first : overwrite p xs content ≡ pre ++ rest =
      overwrite_inside p xs content h ∙ sym (append_assoc (take p content) xs rest) in
    let ends : p + length xs ≡ length pre =
      omega (arith, length-append (take p content) xs, length-take p content h) in
    let both : drop (p + length (xs ++ ys)) content ≡ drop (length ys) rest =
      ap (λ n. drop n content) (omega (arith, length-append xs ys))
      ∙ drop-add (p + length xs) (length ys) content in
    rw first (
      ap (λ q. overwrite q ys (pre ++ rest)) ends
      ∙ overwrite_behind pre rest ys
      ∙ append_assoc (take p content) xs (ys ++ drop (length ys) rest)
      ∙ ap (λ t. take p content ++ t) (sym (append_assoc xs ys (drop (length ys) rest)))
      ∙ ap (λ t. take p content ++ ((xs ++ ys) ++ t)) (sym both)
      ∙ sym (overwrite_inside p (xs ++ ys) content h))

pub length-overwrite :
    (p : ℕ) (new content : List ℕ)
    → p ≤ length content
    → length (overwrite p new content) ≡ p + length new + (length content - (p + length new))
length-overwrite p new content h =
    ap length (overwrite_inside p new content h)
    ∙ omega (
      arith,
      length-append (take p content) (new ++ drop (p + length new) content),
      length-append new (drop (p + length new) content),
      length-take p content h,
      length-drop (p + length new) content,
    )
