-- ===== src/Data/Utf8.antt =====
-- Rust's `str::from_utf8`: which byte strings are well-formed UTF-8 (the table of the Unicode
-- standard). Only its answer matters to the program.
use baf.Base.{
  ℕ, Bool, true, false, ◌&&◌, List, [], ◌∷◌, Option, none, some, leb, ltb, ◌==◌, if◌then◌else◌,
}

-- The range that a continuation byte must lie in.
abbrev ByteRange : Type 0
ByteRange = ℕ × ℕ

abbrev continuation : ByteRange
continuation = (0x80, 0xbf)

within : ByteRange → ℕ → Bool
within (low, high) b = leb low b && leb b high

-- The continuation bytes that a first byte calls for; `none` if no sequence begins with it.
sequence_after : ℕ → Option (List ByteRange)
unfolding within
sequence_after b =
    if ltb b 0x80
    then some []
    else if within (0xc2, 0xdf) b
    then some (continuation ∷ [])
    else if b == 0xe0
    then some ((0xa0, 0xbf) ∷ continuation ∷ [])
    else if b == 0xed
    then some ((0x80, 0x9f) ∷ continuation ∷ [])
    else if within (0xe1, 0xef) b
    then some (continuation ∷ continuation ∷ [])
    else if b == 0xf0
    then some ((0x90, 0xbf) ∷ continuation ∷ continuation ∷ [])
    else if within (0xf1, 0xf3) b
    then some (continuation ∷ continuation ∷ continuation ∷ [])
    else if b == 0xf4
    then some ((0x80, 0x8f) ∷ continuation ∷ continuation ∷ [])
    else none

is_utf8_from : List ByteRange → List ℕ → Bool
is_utf8_from [] [] = true
is_utf8_from (r ∷ rs) [] = false
is_utf8_from [] (b ∷ bs) = elim (sequence_after b) [ none ↦ false | some rs ↦ is_utf8_from rs bs ]
is_utf8_from (r ∷ rs) (b ∷ bs) = within r b && is_utf8_from rs bs

unfoldable pub is_utf8 : List ℕ → Bool
unfolding within sequence_after is_utf8_from
is_utf8 = is_utf8_from []
