-- ===== src/Cursor/Utf16.antt =====
-- A cursor counted in UTF-16 code units.
use runex.Prelude.{
  ℕ, ◌+◌, ◌≤◌, ◌<◌, min, [], ◌∷◌, ◌++◌, ◌≡◌, refl, arith, ap, ltb, leb, ◌==◌, if◌then◌else◌,
  Bool-cases, inl, inr, append-nil, ◌∙◌, true, false, leb→le, ◌⊎◌,
}
use native.Mathlib.Decide.{dec_lt}
use runex.Text.{Text, len_utf8, len_utf16, byte_len}
use runex.Text.Slices.{IsBoundary, len_utf8_pos, byte_len-append}
use runex.Model.{Shell, bash, zsh, pwsh, clink, nu}
use runex.Cursor.{
  unwrap_or, utf16_loop, utf16_cursor_to_byte, utf16_len, byte_loop, byte_cursor_to_utf16,
  shell_cursor_to_byte,
}
use runex.Cursor.Chars.{byte_cursor_to_char-char_cursor_to_byte}

-- The longest run of whole characters from the start of the text that takes at most `n` units.
abbrev pub units_from : ℕ → Text → ℕ → Text
units_from used [] n = []
units_from used (c ∷ s) n =
    if leb (used + len_utf16 c) n then c ∷ units_from (used + len_utf16 c) s n else []

abbrev pub units_behind : ℕ → Text → ℕ → Text
units_behind used [] n = []
units_behind used (c ∷ s) n =
    if leb (used + len_utf16 c) n then units_behind (used + len_utf16 c) s n else c ∷ s

units_split : (used : ℕ) (s : Text) (n : ℕ) → s ≡ units_from used s n ++ units_behind used s n
units_split used [] n = refl
units_split used (c ∷ s) n = elim (Bool-cases (leb (used + len_utf16 c) n)) [
  | inl e ↦ rw e (ap (λ t. c ∷ t) (units_split (used + len_utf16 c) s n))
  | inr e ↦ rw e
]

len_utf16_pos : (c : ℕ) → (0 < len_utf16 c) × (len_utf16 c ≤ 2)
len_utf16_pos c = ground arith

fits_test :
    (used k n : ℕ)
    → 0 < k
    → leb (used + k) n ≡ true
    → ((used == n) ≡ false) × (ltb n (used + k) ≡ false)
fits_test used k n pos h = (ground arith, ground arith)

utf16_loop_lem :
    (used at : ℕ) (s : Text) (n : ℕ)
    → used ≤ n
    → unwrap_or (utf16_loop used at s n) (at + byte_len s) ≡ at + byte_len (units_from used s n)
utf16_loop_lem used at [] n h = refl
utf16_loop_lem used at (c ∷ s) n h = elim (Bool-cases (leb (used + len_utf16 c) n)) [
  | inl e ↦
      let inner : at + (len_utf8 c + byte_len s) ≡ at + len_utf8 c + byte_len s = omega arith in
      let (before, behind) = fits_test used (len_utf16 c) n (len_utf16_pos c).0 e in
      rw (e, inner, before)
        (rw behind
          (omega (arith, utf16_loop_lem (used + len_utf16 c) (at + len_utf8 c) s n (leb→le _ _ e))))
  | inr e ↦ ground (arith, len_utf16_pos c)
]

-- What is taken are at most `n` units, and where anything is left no whole character fits behind.
units_bound : (used : ℕ) (s : Text) (n : ℕ) → used ≤ n → used + utf16_len (units_from used s n) ≤ n
units_bound used [] n h = omega arith
units_bound used (c ∷ s) n h = elim (Bool-cases (leb (used + len_utf16 c) n)) [
  | inl e ↦ rw e (omega (arith, units_bound (used + len_utf16 c) s n (ground arith)))
  | inr e ↦ rw e (omega arith)
]

byte_loop_lem :
    (u at : ℕ) (a b : Text) (cursor : ℕ)
    → cursor ≡ at + byte_len a
    → byte_loop u at (a ++ b) cursor ≡ u + utf16_len a
byte_loop_lem u at [] [] cursor e = omega arith
byte_loop_lem u at [] (c ∷ b) cursor e = ground arith
byte_loop_lem u at (d ∷ a) b cursor e = ground (
  arith,
  len_utf8_pos d,
  byte_loop_lem (u + len_utf16 d) (at + len_utf8 d) a b cursor (omega arith),
)

abbrev first_units : Text → ℕ → Text
first_units line n = units_from 0 line n

utf16_cursor_to_byte_lem :
    (line : Text) (n : ℕ) → utf16_cursor_to_byte line n ≡ byte_len (first_units line n)
unfolding utf16_cursor_to_byte
utf16_cursor_to_byte_lem line n =
    let start : byte_len line ≡ 0 + byte_len line = omega arith in
    rw start (omega (arith, utf16_loop_lem 0 0 line n (omega arith)))

pub byte_cursor_to_utf16-append :
    (a b : Text) → byte_cursor_to_utf16 (a ++ b) (byte_len a) ≡ utf16_len a
unfolding byte_cursor_to_utf16
byte_cursor_to_utf16-append a [] = rw append-nil (ground arith)
byte_cursor_to_utf16-append a (c ∷ b) = ground (
  arith,
  len_utf8_pos c,
  byte_len-append a (c ∷ b),
  byte_loop_lem 0 0 a (c ∷ b) (byte_len a) (omega arith),
)

-- Where characters are left over, less than one unit of the count is.
units_close :
    (used : ℕ) (s : Text) (n : ℕ)
    → used ≤ n
    → n < used + utf16_len s
    → n ≤ used + utf16_len (units_from used s n) + 1
units_close used [] n h k = absurd (omega arith)
units_close used (c ∷ s) n h k = elim (Bool-cases (leb (used + len_utf16 c) n)) [
  | inl e ↦ rw e (omega (arith, units_close (used + len_utf16 c) s n (leb→le _ _ e) (omega arith)))
  | inr e ↦ rw e (ground (arith, len_utf16_pos c))
]

-- The whole text is taken where the count reaches its end.
units_whole : (used : ℕ) (s : Text) (n : ℕ) → used + utf16_len s ≤ n → units_from used s n ≡ s
units_whole used [] n h = refl
units_whole used (c ∷ s) n h = ground (arith, units_whole (used + len_utf16 c) s n (omega arith))

units_clamped :
    (line : Text) (n : ℕ)
    → (utf16_len (first_units line n) ≤ min n (utf16_len line))
      × (min n (utf16_len line) ≤ utf16_len (first_units line n) + 1)
      × ((utf16_len (first_units line n) ≡ utf16_len line) ⊎ (n < utf16_len line))
units_clamped line n = elim (dec_lt n (utf16_len line)) [
  | yes inside ↦ (
    omega (arith, units_bound 0 line n (omega arith)),
    omega (arith, units_close 0 line n (omega arith) (omega arith)),
    inr inside,
  )
  | no past ↦
      let whole : first_units line n ≡ line = units_whole 0 line n (omega arith) in
      rw whole (omega arith, omega arith, inl refl)
]

-- A cursor counted in UTF-16 units goes to a byte offset on a character boundary. Going back gives
-- the count clamped to the line's end, or one unit less where it stood between two surrogates; a
-- cursor at the end or past it gives the end.
pub byte_cursor_to_utf16-utf16_cursor_to_byte :
    (line : Text) (n : ℕ)
    → IsBoundary line (utf16_cursor_to_byte line n)
      × (byte_cursor_to_utf16 line (utf16_cursor_to_byte line n) ≤ min n (utf16_len line))
      × (min n (utf16_len line) ≤ byte_cursor_to_utf16 line (utf16_cursor_to_byte line n) + 1)
      × ((byte_cursor_to_utf16 line (utf16_cursor_to_byte line n) ≡ utf16_len line)
          ⊎ (n < utf16_len line))
byte_cursor_to_utf16-utf16_cursor_to_byte line n =
    let taken = first_units line n in
    let split = units_split 0 line n in
    let back : byte_cursor_to_utf16 line (byte_len taken) ≡ utf16_len taken =
      ap (λ s. byte_cursor_to_utf16 s (byte_len taken)) split
      ∙ byte_cursor_to_utf16-append taken (units_behind 0 line n) in
    let (low, high, end) = units_clamped line n in
    rw (utf16_cursor_to_byte_lem line n, back)
      ((taken, units_behind 0 line n, split, refl), low, high, end)

units_from-append : (used : ℕ) (a b : Text) → units_from used (a ++ b) (used + utf16_len a) ≡ a
units_from-append used [] [] = refl
units_from-append used [] (c ∷ b) = ground (arith, len_utf16_pos c)
units_from-append used (d ∷ a) b =
    let inner : used + (len_utf16 d + utf16_len a) ≡ used + len_utf16 d + utf16_len a =
      omega arith in
    rw inner (ground (arith, units_from-append (used + len_utf16 d) a b))

pub utf16_cursor_to_byte-append :
    (a b : Text) → utf16_cursor_to_byte (a ++ b) (utf16_len a) ≡ byte_len a
utf16_cursor_to_byte-append a b =
    let start : utf16_len a ≡ 0 + utf16_len a = omega arith in
    utf16_cursor_to_byte_lem (a ++ b) (utf16_len a)
    ∙ ap byte_len (ap (units_from 0 (a ++ b)) start ∙ units_from-append 0 a b)

-- Whatever the shell, the line and the cursor that it sends, the byte cursor is on a boundary.
pub shell_cursor_to_byte-IsBoundary :
    (sh : Shell) (line : Text) (n : ℕ) → IsBoundary line (shell_cursor_to_byte sh line n)
unfolding shell_cursor_to_byte
shell_cursor_to_byte-IsBoundary pwsh line n = (byte_cursor_to_utf16-utf16_cursor_to_byte line n).0
shell_cursor_to_byte-IsBoundary bash line n = (byte_cursor_to_char-char_cursor_to_byte line n).0
shell_cursor_to_byte-IsBoundary zsh line n = (byte_cursor_to_char-char_cursor_to_byte line n).0
shell_cursor_to_byte-IsBoundary clink line n = (byte_cursor_to_char-char_cursor_to_byte line n).0
shell_cursor_to_byte-IsBoundary nu line n = (byte_cursor_to_char-char_cursor_to_byte line n).0
