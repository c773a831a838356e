-- ===== src/Source.antt =====
-- crate-lib/src/source.rs: a stream of bytes with a position, and what is read from it and
-- written to it. The stream is Rust's `Cursor<Vec<u8>>`: a read past the end is an error, a write
-- past the end fills the gap with zeroes. The buffer of `BufReader` has no part here, since a
-- seek empties it and every write comes after a seek. Positions do not wrap: a read reaches no
-- further than the content, and `advance` is called just after a read.
pub mod Reads
pub mod Overwrite
pub mod Window
use baf.Base.{
  ℕ, zero, suc, ◌+◌, ◌-◌, List, [], ◌∷◌, ◌++◌, Result, ok, err, leb, if◌then◌else◌, length, take,
  drop, replicate,
}
use baf.Bytes.{from_le_bytes}

-- `std::io::Error`, by the kinds that occur.
pub data IoError : Type 0 where
  unexpected_eof : IoError

pub record Source : Type 0 where
  pub content : List ℕ
  pub pos : ℕ

-- An operation on a source: it fails, or returns a value and moves the source.
abbrev pub Reader : Type 0 → Type 0 → Type 0
Reader E A = Source → Result E (A × Source)

abbrev pub pure : {E A : Type 0} → A → Reader E A
pure a s = ok (a, s)

abbrev pub fail : {E A : Type 0} → E → Reader E A
fail e s = err e

infixl 5 ◌>>=◌ ◌>>◌
abbrev pub ◌>>=◌ : {E A B : Type 0} → Reader E A → (A → Reader E B) → Reader E B
◌>>=◌ m f s = elim (m s) [ ok (a, s') ↦ f a s' | err e ↦ err e ]

abbrev pub ◌>>◌ : {E B : Type 0} → Reader E (Unit {0}) → Reader E B → Reader E B
m >> k = m >>= λ _. k

-- `r?` for a result that is at hand.
abbrev pub from_result : {E A : Type 0} → Result E A → Reader E A
from_result (ok a) s = ok (a, s)
from_result (err e) s = err e

-- `.map_err(f)?`
abbrev pub mapping : {E F A : Type 0} → (E → F) → Reader E A → Reader F A
mapping f m s = elim (m s) [ ok r ↦ ok r | err e ↦ err (f e) ]

-- `Source::new`
abbrev pub new : List ℕ → Source
new bytes = record { content = bytes; pos = 0 }

-- What is left to read.
abbrev pub remaining : Source → List ℕ
remaining s = drop s.pos s.content

-- `advance` with the position alone.
abbrev pub skip : ℕ → Source → Source
skip n s = record s { pos = s.pos + n }

unfoldable pub read_exact : ℕ → Reader IoError (List ℕ)
read_exact n s =
    if leb n (length s.content - s.pos)
    then ok (take n (remaining s), skip n s)
    else err unexpected_eof

-- `u8`, `u16`, `u32` and `u64` as `FromSourceBytes`, by their width in bytes.
unfoldable pub read_uint : ℕ → Reader IoError ℕ
read_uint w = do bytes ← read_exact w; pure (from_le_bytes bytes)

-- `[F; N]` as `FromSourceBytes`: element by element.
unfoldable pub read_array : {A : Type 0} → ℕ → Reader IoError A → Reader IoError (List A)
read_array zero read_from = pure []
read_array (suc n) read_from = do val ← read_from; rest ← read_array n read_from; pure (val ∷ rest)

unfoldable pub set_position : ℕ → Reader IoError (Unit {0})
set_position p s = ok (tt, record s { pos = p })

unfoldable pub position : Reader IoError ℕ
position s = ok (s.pos, s)

unfoldable pub advance : ℕ → Reader IoError (Unit {0})
advance n s = ok (tt, skip n s)

-- `seek(SeekFrom::End(0))`
seek_end : Reader IoError ℕ
seek_end s = ok (length s.content, record s { pos = length s.content })

unfoldable pub seek_len : Reader IoError ℕ
unfolding seek_end position set_position
seek_len = do old_pos ← position; len ← seek_end; set_position old_pos; pure len

-- The content with `bytes` written at `p`, zeroes filling a gap before it.
unfoldable pub overwrite : ℕ → List ℕ → List ℕ → List ℕ
overwrite p bytes content =
    take p (content ++ replicate (p - length content) 0)
    ++ (bytes ++ drop (p + length bytes) content)

unfoldable pub write_all : List ℕ → Reader IoError (Unit {0})
unfolding overwrite
write_all [] s = ok (tt, s)
write_all (b ∷ bs) s =
    ok (tt, record { content = overwrite s.pos (b ∷ bs) s.content; pos = s.pos + length (b ∷ bs) })
