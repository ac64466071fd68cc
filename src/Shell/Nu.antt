-- ===== src/Shell/Nu.antt =====
-- What Nu reads a literal of `nu_quote_string` as, alone and inside another literal.
use runex.Prelude.{
  ℕ, inl, inr, [], ◌∷◌, ◌++◌, Option, none, some, Bool, true, false, ◌≡◌, refl, ◌||◌, ◌&&◌, ◌==◌,
  arith, keep, not, if◌then◌else◌, append_assoc, Bool-cases, eq_of_==, ap, ◌∙◌, ◌⊎◌, append-nil,
}
use runex.Text.{Text, put, starts_with_char}
use runex.Sanitize.{is_unsafe_for_display, double_quote_escape, is_nu_drop_char}
use runex.Shell.Reading.{
  Any, All-Any, put-put_all, put_all_nil, put_all, one_if, read-each_char, each_char-one_if,
}
use runex.Shell.{each_char, nu_char, nu_quote_string, embed_char, embed, nu_quote_string_embedded}

-- Before `^`, behind it, inside the quotes, behind a backslash, and behind the closing quote.
pub data Mode : Type 0 where
  start caret quoted escaped closed : Mode

-- The character that a backslash and a letter stand for.
abbrev pub unescape : ℕ → Option ℕ
unescape c =
    if c == b'n'
    then some b'\n'
    else if c == b'r'
    then some b'\r'
    else if c == b't'
    then some b'\t'
    else if c == b'"' || c == b'\\' || c == b'$'
    then some c
    else none

-- The name of the command that `^"…"` runs; a `$` is itself in a literal without interpolation.
unfoldable pub nu_read : Mode → Text → Option Text
nu_read closed [] = some []
nu_read _ [] = none
nu_read start (c ∷ s) = let rest = nu_read caret s in if c == b'^' then rest else none
nu_read caret (c ∷ s) = let rest = nu_read quoted s in if c == b'"' then rest else none
nu_read quoted (c ∷ s) =
    let close_quote = nu_read closed s in
    let escape = nu_read escaped s in
    let inner = put c (nu_read quoted s) in
    if c == b'"' then close_quote else if c == b'\\' then escape else inner
nu_read escaped (c ∷ s) = elim (unescape c) [ none ↦ none | some d ↦ put d (nu_read quoted s) ]
nu_read closed (c ∷ s) = none

-- The characters that a command name is quoted without.
abbrev pub is_kept : ℕ → Bool
is_kept c = not (is_nu_drop_char c)

-- A character of the literal in the words of the source's tests.
data NuChar (c : ℕ) : Type 0 where
  named :
      (e : ℕ)
      → nu_char c ≡ b'\\' ∷ e ∷ []
      → unescape e ≡ some c
      → is_kept c ≡ true
      → (e == b'$') ≡ (c == b'$')
      → NuChar c
  dropped : nu_char c ≡ [] → is_kept c ≡ false → (c == b'$') ≡ false → NuChar c
  plain :
      nu_char c ≡ c ∷ []
      → is_kept c ≡ true
      → (c == b'"') ≡ false
      → (c == b'\\') ≡ false
      → (c == b'$') ≡ false
      → NuChar c

NuChar-special :
    (c : ℕ)
    → (c ≡ b'\\') ⊎ (c ≡ b'"') ⊎ (c ≡ b'\n') ⊎ (c ≡ b'\r') ⊎ (c ≡ b'\t') ⊎ (c ≡ b'$')
    → NuChar c
unfolding nu_char double_quote_escape is_nu_drop_char is_unsafe_for_display
NuChar-special c (inl e) = rw e (named b'\\' refl refl refl refl)
NuChar-special c (inr (inl e)) = rw e (named b'"' refl refl refl refl)
NuChar-special c (inr (inr (inl e))) = rw e (named b'n' refl refl refl refl)
NuChar-special c (inr (inr (inr (inl e)))) = rw e (named b'r' refl refl refl refl)
NuChar-special c (inr (inr (inr (inr (inl e))))) = rw e (named b't' refl refl refl refl)
NuChar-special c (inr (inr (inr (inr (inr e))))) = rw e (named b'$' refl refl refl refl)

special_cases :
    (c : ℕ)
    → ((c ≡ b'\\') ⊎ (c ≡ b'"') ⊎ (c ≡ b'\n') ⊎ (c ≡ b'\r') ⊎ (c ≡ b'\t') ⊎ (c ≡ b'$'))
      ⊎ ((double_quote_escape c ≡ none)
          × ((c == b'"') ≡ false)
          × ((c == b'\\') ≡ false)
          × ((c == b'$') ≡ false))
unfolding double_quote_escape
special_cases c = ground arith

NuChar-cases : (c : ℕ) → NuChar c
unfolding nu_char
NuChar-cases c = elim (special_cases c) [
  | inl special ↦ NuChar-special c special
  | inr (escape, quote, backslash, dollar) ↦ elim (Bool-cases (is_nu_drop_char c)) [
    | inl drop ↦ dropped (rw (escape, nu_char) (rw (dollar, drop))) (rw drop) dollar
    | inr stay ↦ plain (rw (escape, nu_char) (rw (dollar, stay))) (rw stay) quote backslash dollar
  ]
]

nu_step :
    (c : ℕ) (rest : Text)
    → Any c
    → nu_read quoted (nu_char c ++ rest) ≡ put_all (one_if is_kept c) (nu_read quoted rest)
unfolding nu_read
nu_step c rest _ = elim (NuChar-cases c) [
  | named e text value stay _ ↦
      rw (text, stay) (rw (value, nu_read) (put-put_all c (nu_read quoted rest)))
  | dropped text drop dollar ↦ rw (text, drop) (put_all_nil (nu_read quoted rest))
  | plain text stay quote backslash dollar ↦
      rw (text, stay) (rw (quote, backslash) (put-put_all c (nu_read quoted rest)))
]

-- Nu runs the command that is named by the value less its dropped characters.
pub read-nu_quote_string : (s : Text) → nu_read start (nu_quote_string s) ≡ some (keep is_kept s)
unfolding nu_read nu_quote_string
read-nu_quote_string s =
    rw
      (read-each_char (nu_read quoted) nu_char (one_if is_kept) Any nu_step s (b'"' ∷ []) refl
        (All-Any s))
      (ap some (each_char-one_if is_kept s))

-- What the outer literal makes of the text inside it: a bare quote would end it.
pub data OuterMode : Type 0 where
  outside behind : OuterMode

unfoldable pub outer_read : OuterMode → Text → Option Text
outer_read outside [] = some []
outer_read behind [] = none
outer_read outside (c ∷ s) =
    let escape = outer_read behind s in
    let inner = put c (outer_read outside s) in
    if c == b'"' then none else if c == b'\\' then escape else inner
outer_read behind (c ∷ s) = elim (unescape c) [
  | none ↦ none
  | some d ↦ put d (outer_read outside s)
]

-- The literal of a character with a bare dollar sign.
abbrev bare : ℕ → Text
bare c = if c == b'$' then b'$' ∷ [] else nu_char c

embed_single :
    (c : ℕ) (rest : Text)
    → (c == b'\\' && starts_with_char b'$' rest) ≡ false
    → embed (c ∷ rest) ≡ embed_char c ++ embed rest
unfolding embed
embed_single c [] h = rw append-nil
embed_single c (d ∷ rest) h = rw h

no_dollar_head : (s : Text) → starts_with_char b'$' (each_char nu_char s ++ b'"' ∷ []) ≡ false
no_dollar_head [] = refl
no_dollar_head (c ∷ s) = elim (NuChar-cases c) [
  | named e text value stay _ ↦ rw text
  | dropped text drop dollar ↦ rw text (no_dollar_head s)
  | plain text stay quote backslash dollar ↦ rw text dollar
]

outer-embed_char :
    (c : ℕ) (rest : Text)
    → outer_read outside (embed_char c ++ rest) ≡ put c (outer_read outside rest)
unfolding outer_read
outer-embed_char c rest = ground arith

outer-embed_single :
    (c : ℕ) (rest : Text)
    → (c == b'\\' && starts_with_char b'$' rest) ≡ false
    → outer_read outside (embed (c ∷ rest)) ≡ put c (outer_read outside (embed rest))
outer-embed_single c rest h = rw (embed_single c rest h) (outer-embed_char c (embed rest))

and_false : (b : Bool) → (b && false) ≡ false
and_false true = refl
and_false false = refl

outer-embed_dollar :
    (rest : Text)
    → outer_read outside (embed (b'\\' ∷ b'$' ∷ rest)) ≡ put b'$' (outer_read outside (embed rest))
unfolding outer_read embed
outer-embed_dollar rest = refl

put-put : (c d : ℕ) (o : Option Text) → put c (put d o) ≡ put_all (c ∷ d ∷ []) o
put-put c d none = refl
put-put c d (some s) = refl

outer-embed_step :
    (c : ℕ) (rest : Text)
    → starts_with_char b'$' rest ≡ false
    → outer_read outside (embed (nu_char c ++ rest))
      ≡ put_all (bare c) (outer_read outside (embed rest))
outer-embed_step c rest h = elim (NuChar-cases c) [
  | named e text value stay same ↦ elim (Bool-cases (c == b'$')) [
    | inl dollar ↦
        rw (dollar, text, eq_of_== e b'$' (same ∙ dollar))
          (outer-embed_dollar rest ∙ put-put_all b'$' _)
    | inr other ↦
        rw (other, text)
          (outer-embed_single b'\\' (e ∷ rest) (same ∙ other)
            ∙ ap (put b'\\') (outer-embed_single e rest (rw h (and_false (e == b'\\'))))
            ∙ put-put b'\\' e _)
  ]
  | dropped text drop dollar ↦ rw (dollar, text) (put_all_nil _)
  | plain text stay quote backslash dollar ↦
      rw (dollar, text) (outer-embed_single c rest (rw backslash refl) ∙ put-put_all c _)
]

outer-embed_body :
    (s : Text)
    → outer_read outside (embed (each_char nu_char s ++ b'"' ∷ []))
      ≡ some (each_char bare s ++ b'"' ∷ [])
outer-embed_body [] = outer-embed_single b'"' [] refl ∙ closing
  where
    closing : put b'"' (outer_read outside (embed [])) ≡ some (b'"' ∷ [])
    closing = unfold outer_read embed in refl
outer-embed_body (c ∷ s) =
    rw (append_assoc, append_assoc)
      (outer-embed_step c (each_char nu_char s ++ b'"' ∷ []) (no_dollar_head s)
        ∙ ap (put_all (bare c)) (outer-embed_body s))

dollar_kept : is_kept b'$' ≡ true
unfolding is_nu_drop_char is_unsafe_for_display
dollar_kept = refl

bare_step :
    (c : ℕ) (rest : Text)
    → Any c
    → nu_read quoted (bare c ++ rest) ≡ put_all (one_if is_kept c) (nu_read quoted rest)
unfolding nu_read
bare_step c rest any = elim (Bool-cases (c == b'$')) [
  | inl dollar ↦ rw (eq_of_== c b'$' dollar, dollar_kept) (put-put_all b'$' (nu_read quoted rest))
  | inr other ↦ rw other (nu_step c rest any)
]

-- Inside another literal the text is read back as a literal that names the same command.
pub read-nu_quote_string_embedded :
    (s : Text)
    → (inner : Text) × (outer_read outside (nu_quote_string_embedded s) ≡ some inner)
      × (nu_read start inner ≡ some (keep is_kept s))
unfolding nu_quote_string_embedded nu_quote_string nu_read
read-nu_quote_string_embedded s = (
  b'^' ∷ b'"' ∷ (each_char bare s ++ b'"' ∷ []),
  outer-embed_single b'^' _ refl
      ∙ ap (put b'^') (outer-embed_single b'"' _ refl ∙ ap (put b'"') (outer-embed_body s)),
  rw
      (read-each_char (nu_read quoted) bare (one_if is_kept) Any bare_step s (b'"' ∷ []) refl
        (All-Any s))
      (ap some (each_char-one_if is_kept s)),
)
