-- ===== src/Cursor/Chars.antt =====
-- A cursor counted in characters.
use runex.Prelude.{
  ℕ, zero, suc, ◌+◌, min, [], ◌∷◌, ◌++◌, some, ◌≡◌, refl, arith, ap, length, append-nil, sym, ◌∙◌,
}
use runex.Text.{Text, len_utf8, byte_len}
use runex.Text.Slices.{IsBoundary, len_utf8_pos, byte_len-append}
use runex.Cursor.{nth_index, unwrap_or, char_cursor_to_byte, find_char, byte_cursor_to_char}

-- The first `n` characters of a text, or all of them.
abbrev pub first_chars : Text → ℕ → Text
first_chars [] n = []
first_chars (c ∷ s) zero = []
first_chars (c ∷ s) (suc n) = c ∷ first_chars s n

abbrev pub other_chars : Text → ℕ → Text
other_chars [] n = []
other_chars (c ∷ s) zero = c ∷ s
other_chars (c ∷ s) (suc n) = other_chars s n

pub first-other : (s : Text) (n : ℕ) → s ≡ first_chars s n ++ other_chars s n
first-other [] n = refl
first-other (c ∷ s) zero = refl
first-other (c ∷ s) (suc n) = ap (λ t. c ∷ t) (first-other s n)

length-first_chars : (s : Text) (n : ℕ) → length (first_chars s n) ≡ min n (length s)
length-first_chars [] n = omega arith
length-first_chars (c ∷ s) zero = omega arith
length-first_chars (c ∷ s) (suc n) = omega (arith, length-first_chars s n)

nth_index_lem :
    (at : ℕ) (s : Text) (n : ℕ)
    → unwrap_or (nth_index at s n) (at + byte_len s) ≡ at + byte_len (first_chars s n)
nth_index_lem at [] n = refl
nth_index_lem at (c ∷ s) zero = omega arith
nth_index_lem at (c ∷ s) (suc n) =
    let inner : at + (len_utf8 c + byte_len s) ≡ at + len_utf8 c + byte_len s = omega arith in
    rw inner (omega (arith, nth_index_lem (at + len_utf8 c) s n))

-- The byte cursor of `n` characters is the size of the first `n` characters of the line.
pub char_cursor_to_byte_lem :
    (line : Text) (n : ℕ) → char_cursor_to_byte line n ≡ byte_len (first_chars line n)
unfolding char_cursor_to_byte
char_cursor_to_byte_lem line n =
    let start : byte_len line ≡ 0 + byte_len line = omega arith in
    rw start (omega (arith, nth_index_lem 0 line n))

find_char_lem :
    (i at : ℕ) (a b : Text) (c cursor : ℕ)
    → cursor ≡ at + byte_len a
    → find_char i at (a ++ c ∷ b) cursor ≡ some (i + length a)
find_char_lem i at [] b c cursor e = ground (arith, len_utf8_pos c)
find_char_lem i at (d ∷ a) b c cursor e =
    ground
      (arith, len_utf8_pos d, find_char_lem (suc i) (at + len_utf8 d) a b c cursor (omega arith))

-- A byte cursor behind some characters of the line is as many characters.
pub byte_cursor_to_char-append : (a b : Text) → byte_cursor_to_char (a ++ b) (byte_len a) ≡ length a
unfolding byte_cursor_to_char
byte_cursor_to_char-append a [] = rw append-nil (ground arith)
byte_cursor_to_char-append a (c ∷ b) = ground (
  arith,
  len_utf8_pos c,
  byte_len-append a (c ∷ b),
  find_char_lem 0 0 a b c (byte_len a) (omega arith),
)

-- A cursor counted in characters goes to a byte offset on a character boundary and back to the
-- same count; past the end it is clamped to the end.
pub byte_cursor_to_char-char_cursor_to_byte :
    (line : Text) (n : ℕ)
    → IsBoundary line (char_cursor_to_byte line n)
      × (byte_cursor_to_char line (char_cursor_to_byte line n) ≡ min n (length line))
byte_cursor_to_char-char_cursor_to_byte line n = (
  (
    first_chars line n,
    other_chars line n,
    first-other line n,
    sym (char_cursor_to_byte_lem line n),
  ),
  rw (char_cursor_to_byte_lem line n) (
      ap (λ s. byte_cursor_to_char s (byte_len (first_chars line n))) (first-other line n)
      ∙ byte_cursor_to_char-append (first_chars line n) (other_chars line n)
      ∙ length-first_chars line n),
)

first_chars-append : (a b : Text) → first_chars (a ++ b) (length a) ≡ a
first_chars-append [] [] = refl
first_chars-append [] (c ∷ b) = refl
first_chars-append (d ∷ a) b = ap (λ t. d ∷ t) (first_chars-append a b)

pub char_cursor_to_byte-append : (a b : Text) → char_cursor_to_byte (a ++ b) (length a) ≡ byte_len a
char_cursor_to_byte-append a b =
    char_cursor_to_byte_lem (a ++ b) (length a) ∙ ap byte_len (first_chars-append a b)
