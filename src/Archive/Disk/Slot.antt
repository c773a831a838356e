-- ===== src/Archive/Disk/Slot.antt =====
-- Writing a slot of a segment in place, on the stream and in memory alike.
use baf.Base.{
  ℕ, zero, suc, ◌+◌, ◌≤◌, ◌≡◌, refl, sym, ap, subst, ◌∙◌, inl, inr, List, [], ◌∷◌, some, some_inj,
  and_then, arith, length, All, All-map, All-at, get_elem?, set,
}
use baf.Source.{overwrite}
use baf.Source.Window.{Holds, Beside, Holds-Beside, Holds-within}
use baf.Data.FtSegment.{FileTableSegment, encoded_len, addr_value}
use baf.Data.FtSegment.RoundTrip.{IsSegment, segment_bytes, length-segment_bytes}
use baf.Coverage.{Segment}
use baf.Archive.Slots.{segment_addr}
use baf.Archive.Write.Stored.{stretch}
use baf.Archive.Disk.{IsChain, placed, zones, IsApart, IsWritten}
use baf.Archive.Disk.Data.{IsWritten-Beside}

-- A part of one of two stretches that are beside each other.
pub part-Beside : (p m q n off k : ℕ) → off + k ≤ n → Beside q n p m → Beside p m (q + off) k
part-Beside p m q n off k h (inl a) = inr (omega arith)
part-Beside p m q n off k h (inr a) = inl (omega arith)

pub Beside-part : (p m q n off k : ℕ) → off + k ≤ n → Beside p m q n → Beside p m (q + off) k
Beside-part p m q n off k h (inl a) = inl (omega arith)
Beside-part p m q n off k h (inr a) = inr (omega arith)

-- What holds of the segments' stretches, and of the segments, at an index.
pub zones-at :
    (P : Segment → Type 0) (base : ℕ) (segments : List FileTableSegment) (i q : ℕ)
    (s : FileTableSegment)
    → get_elem? (placed base segments) i ≡ some (q, s)
    → All P (zones base segments)
    → P (stretch q (encoded_len s))
zones-at P base [] i q s e h = absurd (ground arith)
zones-at P base (x ∷ rest) zero q s e h =
    subst (λ p. P (stretch p.0 (encoded_len p.1))) (some_inj e) h.0
zones-at P base (x ∷ rest) (suc i) q s e h =
    zones-at P (addr_value x.next_segment_addr) rest i q s e h.1

pub IsSegment-at :
    (base : ℕ) (segments : List FileTableSegment) (i q : ℕ) (s : FileTableSegment)
    → get_elem? (placed base segments) i ≡ some (q, s)
    → All IsSegment segments
    → IsSegment s
IsSegment-at base [] i q s e h = absurd (ground arith)
IsSegment-at base (x ∷ rest) zero q s e h = subst (λ p. IsSegment p.1) (some_inj e) h.0
IsSegment-at base (x ∷ rest) (suc i) q s e h =
    IsSegment-at (addr_value x.next_segment_addr) rest i q s e h.1

module _ (s s' : FileTableSegment) (same : s'.next_segment_addr ≡ s.next_segment_addr) where
  pub zones-set :
      (base : ℕ) (segments : List FileTableSegment) (i : ℕ)
      → encoded_len s' ≡ encoded_len s
      → get_elem? segments i ≡ some s
      → zones base (set segments i s') ≡ zones base segments
  zones-set base [] i l e = refl
  zones-set base (x ∷ rest) zero l e =
      let len : encoded_len s' ≡ encoded_len x = l ∙ ap encoded_len (sym (some_inj e)) in
      let next : addr_value s'.next_segment_addr ≡ addr_value x.next_segment_addr =
        ap addr_value
          (same ∙ ap (λ (t : FileTableSegment). t.next_segment_addr) (sym (some_inj e))) in
      ap (λ n. stretch base n ∷ zones (addr_value s'.next_segment_addr) rest) len
      ∙ ap (λ n. stretch base (encoded_len x) ∷ zones n rest) next
  zones-set base (x ∷ rest) (suc i) l e =
      ap (◌∷◌ (stretch base (encoded_len x)))
        (zones-set (addr_value x.next_segment_addr) rest i l e)

  pub IsChain-set :
      (segments : List FileTableSegment) (i : ℕ)
      → get_elem? segments i ≡ some s
      → IsChain segments
      → IsChain (set segments i s')
  IsChain-set [] i e h = h
  IsChain-set (x ∷ []) zero e h =
      same ∙ (ap (λ (t : FileTableSegment). t.next_segment_addr) (sym (some_inj e)) ∙ h)
  IsChain-set (x ∷ []) (suc i) e h = h
  IsChain-set (x ∷ t ∷ rest) zero e h = (
    (h.0.0, same ∙ (ap (λ (u : FileTableSegment). u.next_segment_addr) (sym (some_inj e)) ∙ h.0.1)),
    h.1,
  )
  IsChain-set (x ∷ t ∷ rest) (suc zero) e h = (h.0, IsChain-set (t ∷ rest) zero e h.1)
  IsChain-set (x ∷ t ∷ rest) (suc (suc i)) e h = (h.0, IsChain-set (t ∷ rest) (suc i) e h.1)

  -- The stream after the write holds the segments with the one changed.
  pub IsWritten-set :
      (base : ℕ) (segments : List FileTableSegment) (i q off : ℕ) (content new : List ℕ)
      → All IsSegment segments
      → IsApart (zones base segments)
      → get_elem? (placed base segments) i ≡ some (q, s)
      → off + length new ≤ length (segment_bytes s)
      → segment_bytes s' ≡ overwrite off new (segment_bytes s)
      → All (IsWritten content) (placed base segments)
      → All (IsWritten (overwrite (q + off) new content)) (placed base (set segments i s'))
  IsWritten-set base [] i q off content new ok apart e fits after written = tt
  IsWritten-set base (x ∷ rest) zero q off content new ok apart e fits after written =
      let pair : (base, x) ≡ (q, s) = some_inj e in
      let at : base ≡ q = ap (λ (p : ℕ × FileTableSegment). p.0) pair in
      let is : x ≡ s = ap (λ (p : ℕ × FileTableSegment). p.1) pair in
      let next : addr_value x.next_segment_addr ≡ addr_value s'.next_segment_addr =
        ap addr_value (ap (λ (t : FileTableSegment). t.next_segment_addr) is ∙ sym same) in
      let held : Holds content q (segment_bytes s) = subst (IsWritten content) pair written.0 in
      let len : encoded_len x ≡ length (segment_bytes s) =
        ap encoded_len is ∙ sym (length-segment_bytes s (subst IsSegment is ok.0)) in
      let beside =
        All-map
          (λ y b. part-Beside y.start y.len q (length (segment_bytes s)) off (length new) fits (
            subst (λ n. Beside q n y.start y.len) len
              (subst (λ n. Beside n (encoded_len x) y.start y.len) at b)))
          (zones (addr_value x.next_segment_addr) rest) apart.0 in
      let tail =
        IsWritten-Beside (addr_value x.next_segment_addr) (q + off) content new rest
          (omega (arith, held.0, fits)) ok.1 beside written.1 in
      (
        subst (λ n. Holds (overwrite (q + off) new content) n (segment_bytes s')) (sym at)
            (rw after (Holds-within content q off (segment_bytes s) new fits held)),
        subst (λ n. All (IsWritten (overwrite (q + off) new content)) (placed n rest)) next tail,
      )
  IsWritten-set base (x ∷ rest) (suc i) q off content new ok apart e fits after written =
      let base' = addr_value x.next_segment_addr in
      let held : Holds content q (segment_bytes s) =
        All-at (IsWritten content) (placed base' rest) i (q, s) e written.1 in
      let len = length-segment_bytes s (IsSegment-at base' rest i q s e ok.1) in
      let far =
        zones-at (λ y. Beside base (encoded_len x) y.start y.len) base' rest i q s e apart.0 in
      let beside : Beside base (length (segment_bytes x)) (q + off) (length new) =
        subst (λ n. Beside base n (q + off) (length new)) (sym (length-segment_bytes x ok.0))
          (Beside-part base (encoded_len x) q (encoded_len s) off (length new)
            (omega (arith, fits, len)) far) in
      (
        Holds-Beside content base (q + off) (segment_bytes x) new (omega (arith, held.0, fits))
            beside written.0,
        IsWritten-set base' rest i q off content new ok.1 apart.1 e fits after written.1,
      )

placed-next :
    (base i addr : ℕ) (segments : List FileTableSegment) (s : FileTableSegment)
    → and_then (get_elem? segments i) (λ segment. segment.next_segment_addr) ≡ some addr
    → get_elem? segments (suc i) ≡ some s
    → get_elem? (placed base segments) (suc i) ≡ some (addr, s)
unfolding addr_value
placed-next base i addr [] s e at = absurd (ground arith)
placed-next base zero addr (x ∷ []) s e at = absurd (ground arith)
placed-next base zero addr (x ∷ t ∷ rest) s e at = rw (e, some_inj at) refl
placed-next base (suc i) addr (x ∷ rest) s e at =
    placed-next (addr_value x.next_segment_addr) i addr rest s e at

-- The address of a segment by the archive's search is that of the chain.
pub placed-at :
    (i addr : ℕ) (segments : List FileTableSegment) (s : FileTableSegment)
    → segment_addr segments i ≡ some addr
    → get_elem? segments i ≡ some s
    → get_elem? (placed 256 segments) i ≡ some (addr, s)
unfolding segment_addr
placed-at i addr [] s e at = absurd (ground arith)
placed-at zero addr (x ∷ rest) s e at =
    let addr_eq : 256 ≡ addr = some_inj (ground arith) in rw (addr_eq, some_inj at) refl
placed-at (suc i) addr (x ∷ rest) s e at = placed-next 256 i addr (x ∷ rest) s (ground arith) at
