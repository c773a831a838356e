-- ===== src/Archive/Write/Stored.antt =====
-- Writing data where there is room: what it does to the stream and to the coverage.
use baf.Base.{
  ℕ, zero, suc, ◌+◌, ◌/◌, ◌-◌, ◌^◌, ◌≤◌, ◌<◌, ◌≡◌, refl, Bool, true, false, ◌||◌, List, [], ◌∷◌,
  some, arith, le→leb, length,
}
use baf.Source.{overwrite, set_position, seek_len, position}
use baf.Source.Overwrite.{length-overwrite}
use baf.Coverage.{Segment, Coverage, grow_to, mark_as_used}
use baf.Coverage.Zones.{contains, covers, Chain, Within, IsSound}
use baf.Coverage.Fit.{In}
use baf.Coverage.Members.{mark_as_used-In}
use baf.Coverage.Mark.{Clear, mark_as_used_lem}
use baf.Archive.{Archive, done, ◌>>=◌}
use baf.Archive.Write.{grow, set_coverage, write_data_where_possible}
use baf.Archive.Write.Copy.{wrote, copy_chunks_lem}
use baf.Archive.Write.Place.{choose_addr-Placed}

-- The coverage knows the stream's length, and its segments are disjoint and lie within.
pub record IsTracked (a : Archive) : Type 0 where
  pub sound : IsSound a.coverage
  pub len : a.coverage.len ≡ length a.source.content

abbrev pub stretch : ℕ → ℕ → Segment
stretch start len = record { start = start; len = len }

-- The data is in the stream at `addr`, where nothing was in use, and nothing else is changed.
pub record IsStored (bytes : List ℕ) (a : Archive) (addr : ℕ) (b : Archive) : Type 0 where
  pub inside : addr ≤ length a.source.content
  pub clear : Clear addr (length bytes) a.coverage.segments
  pub content : b.source.content ≡ overwrite addr bytes a.source.content
  pub rest : b ≡ record a { source = b.source; coverage = b.coverage }
  pub tracked : IsTracked b
  pub used :
      (x : ℕ)
      → covers x b.coverage.segments
        ≡ (contains x (stretch addr (length bytes)) || covers x a.coverage.segments)
  pub keeps : (z : Segment) → In z a.coverage.segments → In z b.coverage.segments
  pub adds : 0 < length bytes → In (stretch addr (length bytes)) b.coverage.segments

-- `mark_as_used` on an empty stretch does nothing, and so it does what it does on others.
mark_any :
    (start len : ℕ) (c : Coverage)
    → Chain 0 c.segments
    → start + len < 2 ^ 64
    → Clear start len c.segments
    → (c' : Coverage) × (mark_as_used start len c ≡ some c')
      × (c'.len ≡ c.len)
      × Chain 0 c'.segments
      × ((x : ℕ) → covers x c'.segments ≡ (contains x (stretch start len) || covers x c.segments))
mark_any start zero c h b clear = (c, unfold mark_as_used in refl, refl, h, λ x. ground arith)
mark_any start (suc n) c h b clear = mark_as_used_lem start (suc n) c h (omega arith) b clear

-- After `grow`, the coverage knows the length again.
grow_lem :
    (g : Bool) (a : Archive)
    → a.coverage.len ≤ length a.source.content
    → (g ≡ false → a.coverage.len ≡ length a.source.content)
    → grow g a
      ≡ (done tt, record a { coverage = record a.coverage { len = length a.source.content } })
unfolding grow
grow_lem false a h e = rw (← e refl) refl
grow_lem true a h e =
    unfold seek_len position set_position set_coverage grow_to in
    rw (le→leb a.coverage.len (length a.source.content) h, ◌>>=◌) refl

covered-Within :
    (len p : ℕ) (ss : List Segment)
    → Chain p ss
    → ((x : ℕ) → covers x ss ≡ true → x < len)
    → Within len ss
covered-Within len p [] h k = tt
covered-Within len p (s ∷ ss) h k =
    let last : s.start + (s.len - 1) < len = k (s.start + (s.len - 1)) (ground arith) in
    (omega arith, covered-Within len (s.start + s.len) ss h.3 λ x e. k x (ground arith))

Within-covered : (len x : ℕ) (ss : List Segment) → Within len ss → covers x ss ≡ true → x < len
Within-covered len x [] w e = absurd (ground arith)
Within-covered len x (s ∷ ss) w e = ground (arith, Within-covered len x ss w.1)

-- The segments with one more, in a stream that is long enough.
more-IsSound :
    (start len : ℕ) (c c' : Coverage)
    → IsSound c
    → c.len ≤ c'.len
    → start + len ≤ c'.len
    → c'.len < 2 ^ 64
    → Chain 0 c'.segments
    → ((x : ℕ) → covers x c'.segments ≡ (contains x (stretch start len) || covers x c.segments))
    → IsSound c'
more-IsSound start len c c' h grown inside bound chain used = record {
  chain = chain;
  within =
      covered-Within c'.len 0 c'.segments chain
        λ x e. ground (arith, used x, Within-covered c.len x c.segments h.within);
  len = bound;
}

-- Let the coverage know the stream's length, and its segments be disjoint and within; let the stream
-- with the data behind it end below 2^64. Then `write_data_where_possible` ends without an error or
-- a panic and answers an address at which no segment in use overlaps the data. The stream holds
-- the data there and is otherwise what it was; the hasher was fed exactly the data. The data's
-- stretch counts as used, the used addresses are otherwise what they were, and the coverage knows
-- the stream's length again, with segments disjoint and within. Nothing else changes.
pub write_data_where_possible_lem :
    (bytes : List ℕ) (a : Archive)
    → IsTracked a
    → length a.source.content + length bytes < 2 ^ 64
    → (addr : ℕ) × (b : Archive) × (write_data_where_possible bytes a ≡ (done (addr, bytes), b))
      × IsStored bytes a addr b
unfolding write_data_where_possible set_position set_coverage
write_data_where_possible_lem bytes a h bound =
    let ((addr, growing), e, place) = choose_addr-Placed (length bytes) a.coverage h.sound in
    let here : Archive = record a { source = record { content = a.source.content; pos = addr } } in
    let inside : addr ≤ length a.source.content = omega (arith, place.inside, h.len) in
    let size = length-overwrite addr bytes a.source.content inside in
    let after = wrote bytes here in
    let grown : Coverage = record a.coverage { len = length after.source.content } in
    let copied = copy_chunks_lem (length bytes / 4096 + 1) 0 bytes [] here inside (omega arith) in
    let grew =
      grow_lem growing after (omega (arith, size, h.len))
        (λ g. omega (arith, size, h.len, place.fits g)) in
    let (c, marked, same_len, chain, used) =
      mark_any addr (length bytes) grown h.sound.chain (omega (arith, inside)) place.clear in
    let end : Archive = record after { coverage = c } in
    let (keeps, adds) = mark_as_used-In addr (length bytes) grown c marked in
    (
      addr,
      end,
      (rw (e, ◌>>=◌, copied, grew, marked) refl),
      record {
        inside = inside;
        clear = place.clear;
        content = refl;
        rest = refl;
        tracked = record {
          sound =
              more-IsSound addr (length bytes) a.coverage c h.sound
                (omega (arith, same_len, size, h.len)) (omega (arith, same_len, size))
                (omega (arith, same_len, size, inside)) chain used;
          len = same_len;
        };
        used = used;
        keeps = keeps;
        adds = adds;
      },
    )
