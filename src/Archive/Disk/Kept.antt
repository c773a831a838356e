-- ===== src/Archive/Disk/Kept.antt =====
-- What the steps of an operation leave where it is.
use baf.Base.{
  ℕ, ◌+◌, ◌≤◌, ◌<◌, ◌≡◌, refl, sym, ap, subst, inl, inr, List, [], ◌∷◌, ◌++◌, some, arith, length,
  get_elem?, All, All-append, drop,
}
use baf.Source.{overwrite}
use baf.Source.Overwrite.{length-overwrite}
use baf.Source.Window.{Holds, Beside, Holds-Beside}
use baf.Data.FtSegment.{FileTableSegment, encoded_len}
use baf.Coverage.{Segment, Coverage, mark_as_free}
use baf.Coverage.Fit.{In}
use baf.Coverage.Freed.{mark_as_free-keeps}
use baf.Archive.{Archive}
use baf.Archive.Write.Stored.{IsStored, stretch}
use baf.Archive.Disk.{placed, zones, header_zone, IsKept, Keeps}
use baf.Archive.Disk.Data.{All-In}
use baf.Archive.Disk.Slot.{zones-at, part-Beside}

swap-Beside : (p m q n : ℕ) → Beside p m q n → Beside q n p m
swap-Beside p m q n (inl b) = inr b
swap-Beside p m q n (inr b) = inl b

-- A write beside bytes, if there are any.
Holds-apart :
    (content : List ℕ) (p q : ℕ) (bytes new : List ℕ)
    → q ≤ length content
    → (0 < length bytes → Beside p (length bytes) q (length new))
    → Holds content p bytes
    → Holds (overwrite q new content) p bytes
Holds-apart content p q [] new inside apart h = (
  omega (arith, h.0, length-overwrite q new content inside),
  (drop p (overwrite q new content), refl),
)
Holds-apart content p q (x ∷ bytes) new inside apart h =
    Holds-Beside content p q (x ∷ bytes) new inside (apart (omega arith)) h

-- Kept bytes are beside data that is newly written.
pub IsKept-IsStored :
    (new : List ℕ) (a : Archive) (addr : ℕ) (b : Archive) (p : ℕ) (bytes : List ℕ)
    → IsStored new a addr b
    → IsKept p bytes a
    → 0 < length bytes
    → Beside p (length bytes) addr (length new)
IsKept-IsStored new a addr b p bytes st k some_len =
    All-In (λ s. Beside s.start s.len addr (length new)) (stretch p (length bytes))
      a.coverage.segments st.clear (k.used some_len)

pub IsStored-Keeps :
    (new : List ℕ) (a : Archive) (addr : ℕ) (b : Archive) → IsStored new a addr b → Keeps a b
IsStored-Keeps new a addr b st p bytes k =
    let same : b.file_segments ≡ a.file_segments = ap (λ x. x.file_segments) st.rest in
    record {
      held =
          subst (λ c. Holds c p bytes) (sym st.content)
            (Holds-apart a.source.content p addr bytes new st.inside
              (IsKept-IsStored new a addr b p bytes st k) k.held);
      used = λ h. st.keeps (stretch p (length bytes)) (k.used h);
      clear = λ h.
          subst
            (λ ss. All (λ z. Beside z.start z.len p (length bytes)) (header_zone ∷ zones 256 ss))
            (sym same) (k.clear h);
    }

-- A write within a segment, where the segments take the same stretches as before.
pub within-Keeps :
    (a b : Archive) (i q off : ℕ) (new : List ℕ) (s : FileTableSegment)
    → get_elem? (placed 256 a.file_segments) i ≡ some (q, s)
    → q + encoded_len s ≤ length a.source.content
    → off + length new ≤ encoded_len s
    → b.source.content ≡ overwrite (q + off) new a.source.content
    → b.coverage ≡ a.coverage
    → zones 256 b.file_segments ≡ zones 256 a.file_segments
    → Keeps a b
within-Keeps a b i q off new s here inside fits content coverage same p bytes k = record {
  held =
      subst (λ c. Holds c p bytes) (sym content)
        (Holds-apart a.source.content p (q + off) bytes new (omega arith)
          (λ h. part-Beside p (length bytes) q (encoded_len s) off (length new) fits (
            zones-at (λ z. Beside z.start z.len p (length bytes)) 256 a.file_segments i q s here
              (k.clear h).1))
          k.held);
  used = λ h.
      subst (λ (c : Coverage). In (stretch p (length bytes)) c.segments) (sym coverage) (k.used h);
  clear = λ h.
      subst (λ zs. All (λ z. Beside z.start z.len p (length bytes)) (header_zone ∷ zs)) (sym same)
        (k.clear h);
}

-- A segment more, in a stretch beside the kept bytes.
pub more-IsKept :
    (a : Archive) (segments : List FileTableSegment) (z : Segment) (p : ℕ) (bytes : List ℕ)
    → zones 256 segments ≡ zones 256 a.file_segments ++ (z ∷ [])
    → (0 < length bytes → Beside p (length bytes) z.start z.len)
    → IsKept p bytes a
    → IsKept p bytes (record a { file_segments = segments })
more-IsKept a segments z p bytes more far k = record {
  held = k.held;
  used = k.used;
  clear = λ h.
      subst (λ zs. All (λ y. Beside y.start y.len p (length bytes)) (header_zone ∷ zs)) (sym more)
        (All-append (λ y. Beside y.start y.len p (length bytes))
          (header_zone ∷ zones 256 a.file_segments) (z ∷ []) (k.clear h)
          (swap-Beside p (length bytes) z.start z.len (far h), tt));
}

-- Freeing another stretch.
pub freed-IsKept :
    (x : Segment) (a : Archive) (p : ℕ) (bytes : List ℕ)
    → (0 < length bytes → 0 < x.len → stretch p (length bytes) ≡ x → ⊥)
    → IsKept p bytes a
    → IsKept p bytes (record a { coverage = (mark_as_free x a.coverage).1 })
freed-IsKept x a p bytes differ k = record {
  held = k.held;
  used = λ h. mark_as_free-keeps x (stretch p (length bytes)) a.coverage (k.used h) (differ h);
  clear = k.clear;
}
