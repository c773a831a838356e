-- ===== src/Archive/Write/Place.antt =====
-- The address that is chosen for new data.
use baf.Base.{
  ℕ, ◌+◌, ◌-◌, ◌^◌, ◌≤◌, ◌<◌, ◌≡◌, refl, subst, inl, inr, ◌⊎◌, Bool, true, false, List, [], ◌∷◌,
  Option, none, some, arith, leb, All, All-map, Bool-cases,
}
use baf.Coverage.{Segment, Coverage, last_end, next_writable_addr, find_free_zone_for}
use baf.Coverage.Zones.{contains, covers, Chain, Within, IsSound, free_zones_lem}
use baf.Coverage.Fit.{Choice, best, In, find_free_zone_for_lem}
use baf.Coverage.Mark.{Clear}
use baf.Archive.Write.{choose_addr}

apart :
    (start len n : ℕ) (s : Segment) (ss : List Segment)
    → len ≤ n
    → 0 < n
    → (s.start + s.len < 2 ^ 64) × (0 < s.len)
    → ((x : ℕ) → start ≤ x → x < start + n → covers x (s ∷ ss) ≡ false)
    → (s.start + s.len ≤ start) ⊎ (start + len ≤ s.start)
apart start len n s ss l k h free = elim (Bool-cases (leb start s.start)) [
  | inl e ↦ elim (Bool-cases (leb (start + len) s.start)) [
    | inl f ↦ inr (ground (arith, f))
    | inr f ↦ absurd (ground (arith, e, f, free s.start))
  ]
  | inr e ↦ elim (Bool-cases (leb (s.start + s.len) start)) [
    | inl f ↦ inl (ground (arith, f))
    | inr f ↦ absurd (ground (arith, e, f, free start))
  ]
]

uncovered-Clear :
    (start len n p : ℕ) (ss : List Segment)
    → len ≤ n
    → 0 < n
    → Chain p ss
    → ((x : ℕ) → start ≤ x → x < start + n → covers x ss ≡ false)
    → Clear start len ss
uncovered-Clear start len n p [] l k h free = tt
uncovered-Clear start len n p (s ∷ ss) l k h free = (
  apart start len n s ss l k (h.2, h.1) free,
  uncovered-Clear start len n (s.start + s.len) ss l k h.3 λ x b e. ground (arith, free x b e),
)

-- The end of the last segment lies behind all segments.
last_end-bounds :
    (len p : ℕ) (ss : List Segment)
    → p ≤ len
    → Chain p ss
    → Within len ss
    → (last_end ss ≤ len) × All (λ s. s.start + s.len ≤ last_end ss) ss
unfolding last_end
last_end-bounds len p [] k h w = (omega arith, tt)
last_end-bounds len p (s ∷ []) k h w = (omega arith, (omega arith, tt))
last_end-bounds len p (s ∷ t ∷ ss) k h w =
    let (a, b) = last_end-bounds len (s.start + s.len) (t ∷ ss) (omega arith) h.3 w.1 in
    (a, (omega arith, b))

-- Where data of `len` bytes goes: within the archive or at its end, clear of the segments, and
-- within the archive unless the archive grows.
pub record IsPlace (len : ℕ) (c : Coverage) (choice : ℕ × Bool) : Type 0 where
  pub inside : choice.0 ≤ c.len
  pub clear : Clear choice.0 len c.segments
  pub fits : choice.1 ≡ false → choice.0 + len ≤ c.len

abbrev pub Placed : ℕ → Coverage → Type 0
Placed len c = (choice : ℕ × Bool) × (choose_addr len c ≡ some choice) × IsPlace len c choice

In-len : (z : Segment) (p : ℕ) (zs : List Segment) → Chain p zs → In z zs → 0 < z.len
In-len z p [] h i = absurd i
In-len z p (x ∷ xs) h (inl e) = ground arith
In-len z p (x ∷ xs) h (inr i) = In-len z (x.start + x.len) xs h.3 i

at_end : (len : ℕ) (c : Coverage) → IsSound c → IsPlace len c (next_writable_addr c, true)
unfolding next_writable_addr
at_end len c h =
    let (a, b) = last_end-bounds c.len 0 c.segments (omega arith) h.chain h.within in
    record { inside = a; clear = All-map (λ s k. inl k) c.segments b; fits = λ e. ground arith }

in_zone :
    (len : ℕ) (c : Coverage) (z : Segment)
    → IsSound c
    → len ≤ z.len
    → 0 < z.len
    → ((a : ℕ) → contains a z ≡ true → (a < c.len) × (covers a c.segments ≡ false))
    → IsPlace len c (z.start, false)
in_zone len c z h l k free =
    let first : z.start < c.len = (free z.start (ground arith)).0 in
    let last : z.start + z.len ≤ c.len =
      (let (a, b) = free (z.start + (z.len - 1)) (ground arith) in omega (arith, a)) in
    record {
      inside = omega arith;
      clear =
          uncovered-Clear z.start len z.len 0 c.segments l k h.chain
            (λ x a b. (free x (ground arith)).1);
      fits = λ e. omega arith;
    }

some_same : {A : Type 0} {o : Option A} (a b : A) → o ≡ some a → o ≡ some b → a ≡ b
some_same a b p q = cc

chosen :
    (len : ℕ) (c : Coverage) (zs : List Segment) (o : Option Segment)
    → IsSound c
    → find_free_zone_for len c ≡ some o
    → Chain 0 zs
    → Choice c len zs o
    → Placed len c
unfolding choose_addr
chosen len c zs none h e chain choice =
    ((next_writable_addr c, true), rw (e, choose_addr) refl, at_end len c h)
chosen len c zs (some z) h e chain (best y i large free all) = (
  (y.start, false),
  rw (e, choose_addr) refl,
  in_zone len c y h large (In-len y 0 zs chain i) free,
)

pub choose_addr-Placed : (len : ℕ) (c : Coverage) → IsSound c → Placed len c
choose_addr-Placed len c h =
    let (zs, e, chain, cover) = free_zones_lem c h in
    let (zs', o, e', found, choice) = find_free_zone_for_lem c len h in
    let same : zs' ≡ zs = some_same zs' zs e' e in
    chosen len c zs o h found chain (subst (λ l. Choice c len l o) same choice)
