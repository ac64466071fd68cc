-- ===== src/Shell/Bash.antt =====
-- What bash reads a literal of `bash_quote_string` and `bash_quote_buffer` as.
use runex.Prelude.{
  ℕ, inl, inr, ◌+◌, ◌-◌, ◌*◌, ◌/◌, ◌%◌, ◌<◌, [], ◌∷◌, ◌++◌, Option, none, some, true, false, ◌≡◌,
  ◌≢◌, refl, ◌==◌, arith, All, All-append, keep, not, if◌then◌else◌, Bool-cases, Option-cases,
  eq_of_==, ap,
}
use runex.Text.{Text, codes, in_range, put, is_ascii_control}
use runex.Text.Search.{Lacks}
use runex.Sanitize.{is_unicode_line_separator}
use runex.Shell.Reading.{
  Any, All-Any, each_char-All, put_all, one, one_if, read-each_char, each_char-one,
  each_char-one_if,
}
use runex.Shell.{
  each_char, bash_quote_char, bash_quote_string, bash_buffer_char, bash_quote_buffer,
  two_hex_digits, hex_digit, is_dropped_in_path,
}

-- Where bash stands in a word: outside quotes, inside `'…'`, behind a backslash, behind a `$`,
-- inside `$'…'`, behind its backslash, and behind `\x` and `\xH` there.
pub data Mode : Type 0 where
  word quoted escaped dollar ansi ansi_escaped hex_first : Mode
  hex_second : ℕ → Mode

unfoldable pub hex_value : ℕ → Option ℕ
hex_value c =
    if in_range b'0' b'9' c
    then some (c - b'0')
    else if in_range b'a' b'f' c
    then some (c - b'a' + 10)
    else none

-- The value of a word that is written with single quotes, backslashes and `$'\xHH'` alone; bash
-- ends such a text at a NUL, and reads bytes from 0x80 as parts of a character.
unfoldable pub bash_read : Mode → Text → Option Text
bash_read word [] = some []
bash_read _ [] = none
bash_read word (c ∷ s) =
    let open_quote = bash_read quoted s in
    let backslash = bash_read escaped s in
    let dollar_sign = bash_read dollar s in
    if c == b'\''
    then open_quote
    else if c == b'\\'
    then backslash
    else if c == b'$'
    then dollar_sign
    else none
bash_read quoted (c ∷ s) =
    let close_quote = bash_read word s in
    let inner = put c (bash_read quoted s) in if c == b'\'' then close_quote else inner
bash_read escaped (c ∷ s) = put c (bash_read word s)
bash_read dollar (c ∷ s) =
    let open_quote = bash_read ansi s in if c == b'\'' then open_quote else none
bash_read ansi (c ∷ s) =
    let close_quote = bash_read word s in
    let backslash = bash_read ansi_escaped s in
    let inner = put c (bash_read ansi s) in
    if c == b'\'' then close_quote else if c == b'\\' then backslash else inner
bash_read ansi_escaped (c ∷ s) = let hex = bash_read hex_first s in if c == b'x' then hex else none
bash_read hex_first (c ∷ s) = elim (hex_value c) [
  | none ↦ none
  | some high ↦ bash_read (hex_second high) s
]
bash_read (hex_second high) (c ∷ s) = elim (hex_value c) [
  | none ↦ none
  | some low ↦
      let value = put (16 * high + low) (bash_read ansi s) in
      if in_range 1 127 (16 * high + low) then value else none
]

hex_value-hex_digit : (n : ℕ) → n < 16 → hex_value (hex_digit n) ≡ some n
unfolding hex_value hex_digit
hex_value-hex_digit n h = ground arith

read-two_hex_digits :
    (n : ℕ) (rest : Text)
    → 0 < n
    → n < 128
    → bash_read hex_first (two_hex_digits n ++ rest) ≡ put n (bash_read ansi rest)
unfolding bash_read
read-two_hex_digits n rest pos small =
    let whole : 16 * (n / 16) + n % 16 ≡ n = omega arith in
    ground (
      arith,
      hex_value-hex_digit (n / 16) (omega arith),
      hex_value-hex_digit (n % 16) (omega arith),
    )

control-lt : (c : ℕ) → is_ascii_control c ≡ true → c < 128
control-lt c h = ground arith

-- A character of the buffer, read inside quotes.
buffer_step :
    (c : ℕ) (rest : Text)
    → c ≢ 0
    → bash_read quoted (bash_buffer_char c ++ rest) ≡ put_all (one c) (bash_read quoted rest)
unfolding bash_read bash_buffer_char
buffer_step c rest h = elim (Bool-cases (c == b'\'')) [
  | inl e ↦ rw (e, eq_of_== c b'\'' e)
  | inr e ↦ elim (Bool-cases (is_ascii_control c)) [
    | inl control ↦
        rw (e, control)
          (read-two_hex_digits c (codes "''" ++ rest) (omega arith) (control-lt c control))
    | inr plain ↦ rw (e, plain) (rw e)
  ]
]

-- Bash reads the literal of a buffer back as the buffer, whatever its characters but NUL, which
-- no argument of a process holds.
pub read-bash_quote_buffer : (s : Text) → Lacks 0 s → bash_read word (bash_quote_buffer s) ≡ some s
unfolding bash_read bash_quote_buffer
read-bash_quote_buffer s h =
    rw
      (read-each_char (bash_read quoted) bash_buffer_char one (λ c. c ≢ 0) buffer_step s
        (b'\'' ∷ []) refl h)
      (ap some (each_char-one s))

path_step :
    (c : ℕ) (rest : Text)
    → Any c
    → bash_read quoted (bash_quote_char c ++ rest)
      ≡ put_all (one_if (λ d. not (is_dropped_in_path d)) c) (bash_read quoted rest)
unfolding bash_read bash_quote_char is_unicode_line_separator
path_step c rest _ = elim (Option-cases (bash_read quoted rest)) [
  | inl e ↦ ground arith
  | inr (t, e) ↦ ground arith
]

path_clean : (c : ℕ) → All (λ d. is_dropped_in_path d ≡ false) (bash_quote_char c)
unfolding bash_quote_char is_unicode_line_separator
path_clean c = ground arith

-- Bash reads the literal of a path as the path less its control characters and line separators,
-- and the literal holds none of these, so that no `eval` sees a second line.
pub read-bash_quote_string :
    (s : Text)
    → (bash_read word (bash_quote_string s) ≡ some (keep (λ c. not (is_dropped_in_path c)) s))
      × All (λ c. is_dropped_in_path c ≡ false) (bash_quote_string s)
unfolding bash_read bash_quote_string is_unicode_line_separator
read-bash_quote_string s = (
  rw
      (read-each_char (bash_read quoted) bash_quote_char (one_if (λ c. not (is_dropped_in_path c)))
        Any path_step s (b'\'' ∷ []) refl (All-Any s))
      (ap some (each_char-one_if (λ c. not (is_dropped_in_path c)) s)),
  (
    refl,
    All-append _ (each_char bash_quote_char s) (b'\'' ∷ [])
        (each_char-All _ bash_quote_char path_clean s) (refl, tt),
  ),
)
