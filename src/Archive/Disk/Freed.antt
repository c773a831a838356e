-- ===== src/Archive/Disk/Freed.antt =====
-- Freeing a stretch beside the header and the segments.
use baf.Base.{ℕ, ◌<◌, ◌≡◌, sym, ap, subst, ◌∙◌, inl, inr, List, [], ◌∷◌, arith, All}
use baf.Source.Window.{Beside}
use baf.Coverage.{Segment, Coverage, mark_as_free}
use baf.Coverage.Fit.{In}
use baf.Coverage.Freed.{mark_as_free-keeps, mark_as_free-IsSound, mark_as_free-len}
use baf.Archive.{Archive}
use baf.Archive.Write.Stored.{stretch}
use baf.Archive.Disk.{IsClear, zones, IsOnDisk, header_zone}

Beside-differ : (p n : ℕ) (z : Segment) → Beside z.start z.len p n → 0 < n → z ≡ stretch p n → ⊥
Beside-differ p n z (inl b) h e =
    let start : z.start ≡ p = ap (λ (s : Segment). s.start) e in
    let len : z.len ≡ n = ap (λ (s : Segment). s.len) e in omega (arith, b, h, start, len)
Beside-differ p n z (inr b) h e =
    let start : z.start ≡ p = ap (λ (s : Segment). s.start) e in omega (arith, b, h, start)

All-keeps :
    (p n : ℕ) (c : Coverage) (zs : List Segment)
    → (0 < n → All (λ z. Beside z.start z.len p n) zs)
    → All (λ z. In z c.segments) zs
    → All (λ z. In z (mark_as_free (stretch p n) c).1.segments) zs
All-keeps p n c [] clear used = tt
All-keeps p n c (z ∷ zs) clear used = (
  mark_as_free-keeps (stretch p n) z c used.0 (λ h e. Beside-differ p n z (clear h).0 h e),
  All-keeps p n c zs (λ h. (clear h).1) used.1,
)

pub freed-IsOnDisk :
    (p n : ℕ) (a : Archive) (coverage : Coverage)
    → coverage ≡ (mark_as_free (stretch p n) a.coverage).1
    → (0 < n → IsClear p n a)
    → IsOnDisk a
    → IsOnDisk (record a { coverage = coverage })
freed-IsOnDisk p n a coverage e clear h =
    let zs = header_zone ∷ zones 256 a.file_segments in
    subst (λ (k : Coverage). IsOnDisk (record a { coverage = k })) (sym e)
      (record {
        tracked = record {
          sound = mark_as_free-IsSound (stretch p n) a.coverage h.tracked.sound;
          len = mark_as_free-len (stretch p n) a.coverage ∙ h.tracked.len;
        };
        header = h.header;
        chain = h.chain;
        segments = h.segments;
        written = h.written;
        apart = h.apart;
        used = All-keeps p n a.coverage zs clear h.used;
      })
