-- ===== src/Shell/Pwsh.antt =====
-- What PowerShell reads a literal of `pwsh_double_quote_string` and `pwsh_quote_string` as.
use runex.Prelude.{
  ℕ, inl, inr, [], ◌∷◌, ◌++◌, Option, none, some, Bool, true, false, ◌≡◌, ◌≢◌, refl, ◌||◌, ◌==◌,
  arith, All, All-append, keep, not, if◌then◌else◌, append_assoc, Bool-cases, eq_of_==, ap,
}
use runex.Text.{Text, in_range, put}
use runex.Sanitize.{is_unicode_line_separator}
use runex.Shell.Reading.{
  put-put_all, put_all_nil, Any, All-Any, each_char-All, put_all, one, one_if, read-each_char,
  each_char-one, each_char-one_if,
}
use runex.Shell.{
  each_char, pwsh_quote_char, pwsh_quote_string, pwsh_double_char, pwsh_double_quote_string,
  is_dropped_in_path,
}

-- The characters that PowerShell takes for a double quote, and for a single quote.
abbrev pub is_double_quote : ℕ → Bool
is_double_quote c = c == b'"' || c == 0x201C || c == 0x201D || c == 0x201E

abbrev pub is_single_quote : ℕ → Bool
is_single_quote c = c == b'\'' || in_range 0x2018 0x201B c

-- The letters that stand for another character behind a backtick, `n` and `r` apart.
abbrev pub is_special : ℕ → Bool
is_special c =
    c == b'0'
    || c == b'a'
    || c == b'b'
    || c == b'e'
    || c == b'f'
    || c == b't'
    || c == b'u'
    || c == b'v'

pub data Mode : Type 0 where
  start quoted backtick closed : Mode

abbrev pub unescape : ℕ → Option ℕ
unescape c =
    if c == b'n'
    then some b'\n'
    else if c == b'r'
    then some b'\r'
    else if is_special c
    then none
    else some c

-- The value of a double-quoted text without variables and without doubled quotes.
unfoldable pub pwsh_read : Mode → Text → Option Text
pwsh_read closed [] = some []
pwsh_read _ [] = none
pwsh_read start (c ∷ s) = let rest = pwsh_read quoted s in if is_double_quote c then rest else none
pwsh_read quoted (c ∷ s) =
    let close_quote = pwsh_read closed s in
    let escape = pwsh_read backtick s in
    let inner = put c (pwsh_read quoted s) in
    if is_double_quote c
    then close_quote
    else if c == b'`'
    then escape
    else if c == b'$'
    then none
    else inner
pwsh_read backtick (c ∷ s) = elim (unescape c) [ none ↦ none | some d ↦ put d (pwsh_read quoted s) ]
pwsh_read closed (c ∷ s) = none

double_step :
    (c : ℕ) (rest : Text)
    → Any c
    → pwsh_read quoted (pwsh_double_char c ++ rest) ≡ put_all (one c) (pwsh_read quoted rest)
unfolding pwsh_read pwsh_double_char
double_step c rest _ = ground arith

one_line : (c : ℕ) → All (λ d. (d ≢ b'\n') × (d ≢ b'\r')) (pwsh_double_char c)
unfolding pwsh_double_char
one_line c = ground arith

-- PowerShell reads the literal of a buffer back as the buffer, and the literal holds no line feed
-- and no carriage return, at which its output would be split.
pub read-pwsh_double_quote_string :
    (s : Text)
    → (pwsh_read start (pwsh_double_quote_string s) ≡ some s)
      × All (λ c. (c ≢ b'\n') × (c ≢ b'\r')) (pwsh_double_quote_string s)
unfolding pwsh_read pwsh_double_quote_string
read-pwsh_double_quote_string s = (
  rw
      (read-each_char (pwsh_read quoted) pwsh_double_char one Any double_step s (b'"' ∷ []) refl
        (All-Any s))
      (ap some (each_char-one s)),
  (
    omega arith,
    All-append _ (each_char pwsh_double_char s) (b'"' ∷ [])
        (each_char-All _ pwsh_double_char one_line s) (omega arith),
  ),
)

-- Inside a single-quoted text, and behind a quote that ends it unless another one follows.
pub data SingleMode : Type 0 where
  inside pending : SingleMode

-- The value of what follows the opening quote, if the literal ends where the text does.
unfoldable pub pwsh_single_read : SingleMode → Text → Option Text
pwsh_single_read pending [] = some []
pwsh_single_read inside [] = none
pwsh_single_read inside (c ∷ s) =
    let quote = pwsh_single_read pending s in
    let inner = put c (pwsh_single_read inside s) in if is_single_quote c then quote else inner
pwsh_single_read pending (c ∷ s) =
    let doubled = put c (pwsh_single_read inside s) in if is_single_quote c then doubled else none

-- U+2018, U+2019, U+201A and U+201B.
abbrev pub is_typographic : ℕ → Bool
is_typographic c = in_range 0x2018 0x201B c

single_step :
    (c : ℕ) (rest : Text)
    → is_typographic c ≡ false
    → pwsh_single_read inside (pwsh_quote_char c ++ rest)
      ≡ put_all (one_if (λ d. not (is_dropped_in_path d)) c) (pwsh_single_read inside rest)
unfolding pwsh_single_read pwsh_quote_char is_unicode_line_separator
single_step c rest h = elim (Bool-cases (c == b'\'')) [
  | inl e ↦ rw (eq_of_== c b'\'' e) (put-put_all b'\'' (pwsh_single_read inside rest))
  | inr e ↦ elim (Bool-cases (is_dropped_in_path c)) [
    | inl dropped ↦ rw (e, dropped) (put_all_nil (pwsh_single_read inside rest))
    | inr kept ↦ rw (e, kept, h) (rw e (put-put_all c (pwsh_single_read inside rest)))
  ]
]

-- PowerShell reads the literal of a path without typographic single quotes as the path less its
-- control characters and line separators.
pub read-pwsh_quote_string :
    (s : Text)
    → All (λ c. is_typographic c ≡ false) s
    → (body : Text) × (pwsh_quote_string s ≡ b'\'' ∷ body)
      × (pwsh_single_read inside body ≡ some (keep (λ c. not (is_dropped_in_path c)) s))
unfolding pwsh_quote_string pwsh_single_read
read-pwsh_quote_string s h = (
  each_char pwsh_quote_char s ++ b'\'' ∷ [],
  refl,
  rw
      (read-each_char (pwsh_single_read inside) pwsh_quote_char
        (one_if (λ c. not (is_dropped_in_path c))) (λ c. is_typographic c ≡ false) single_step s
        (b'\'' ∷ []) refl h)
      (ap some (each_char-one_if (λ c. not (is_dropped_in_path c)) s)),
)

plain_step :
    (c : ℕ) (rest : Text)
    → is_typographic c ≡ false
    → pwsh_single_read inside rest ≡ none
    → pwsh_single_read inside (pwsh_quote_char c ++ rest) ≡ none
plain_step c rest h e = rw (single_step c rest h, e)

open_end :
    (a rest : Text)
    → All (λ c. is_typographic c ≡ false) a
    → pwsh_single_read inside rest ≡ none
    → pwsh_single_read inside (each_char pwsh_quote_char a ++ rest) ≡ none
open_end [] rest h e = e
open_end (c ∷ a) rest (h, hs) e = rw append_assoc (plain_step c _ h (open_end a rest hs e))

typographic_ends :
    (q d : ℕ) (rest : Text)
    → is_typographic q ≡ true
    → is_single_quote d ≡ false
    → is_dropped_in_path d ≡ false
    → pwsh_single_read inside (pwsh_quote_char q ++ (pwsh_quote_char d ++ rest)) ≡ none
unfolding pwsh_single_read pwsh_quote_char is_unicode_line_separator
typographic_ends q d rest hq hd kept = ground arith

each_char-append :
    (a b : Text)
    → each_char pwsh_quote_char (a ++ b)
      ≡ each_char pwsh_quote_char a ++ each_char pwsh_quote_char b
each_char-append [] b = refl
each_char-append (c ∷ a) b = rw (each_char-append a b, append_assoc)

-- A path in which a typographic single quote stands before a character that is kept and is no
-- single quote: the literal of the path is not read, to its end, as one literal.
pub pwsh_quote_string_typographic :
    (a b : Text) (q d : ℕ)
    → All (λ c. is_typographic c ≡ false) a
    → is_typographic q ≡ true
    → is_single_quote d ≡ false
    → is_dropped_in_path d ≡ false
    → (body : Text) × (pwsh_quote_string (a ++ q ∷ d ∷ b) ≡ b'\'' ∷ body)
      × (pwsh_single_read inside body ≡ none)
unfolding pwsh_quote_string
pwsh_quote_string_typographic a b q d ha hq hd kept = (
  each_char pwsh_quote_char (a ++ q ∷ d ∷ b) ++ b'\'' ∷ [],
  refl,
  rw (each_char-append a (q ∷ d ∷ b), append_assoc)
      (open_end a _ ha (rw (append_assoc, append_assoc) (typographic_ends q d _ hq hd kept))),
)
