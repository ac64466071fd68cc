-- ===== src/Shell/Lua.antt =====
-- What Lua reads a literal of `lua_quote_string` as: the bytes of the text in UTF-8.
use runex.Prelude.{
  ℕ, inl, inr, ◌+◌, ◌/◌, ◌%◌, ◌<◌, List, [], ◌∷◌, ◌++◌, none, some, false, ◌≡◌, refl, ◌||◌, ◌==◌,
  arith, All, All-append, Bool-cases, Option-cases, ◌⊎◌,
}
use runex.Text.{Text}
use runex.Sanitize.{is_unsafe_for_display, double_quote_escape}
use runex.Sanitize.Laws.{IsSafe, unsafe_of_printable}
use runex.Shell.Reading.{put_all, read-each_char}
use runex.Shell.{each_char, encode_utf8, decimal_escapes, lua_char, lua_quote_string}
use runex.Shell.LuaReader.{lua_read, read-decimal_escapes, start, quoted}

encode_utf8_bytes : (c : ℕ) → c < 0x110000 → All (λ n. n < 256) (encode_utf8 c)
encode_utf8_bytes c h = ground arith

abbrev EscOf : ℕ → ℕ → Text → ℕ → Type 0
EscOf c d esc e = (c ≡ d) × (esc ≡ b'\\' ∷ e ∷ [])

named_cases :
    (c : ℕ) (esc : Text)
    → double_quote_escape c ≡ some esc
    → EscOf c b'\\' esc b'\\'
      ⊎ EscOf c b'"' esc b'"'
      ⊎ EscOf c b'\n' esc b'n'
      ⊎ EscOf c b'\r' esc b'r'
      ⊎ EscOf c b'\t' esc b't'
unfolding double_quote_escape
named_cases c esc h = ground arith

escape_step :
    (c : ℕ) (esc rest : Text)
    → double_quote_escape c ≡ some esc
    → lua_read quoted (esc ++ rest) ≡ put_all (encode_utf8 c) (lua_read quoted rest)
unfolding lua_read
escape_step c esc rest h = elim (named_cases c esc h) [
  | inl (ec, ee) ↦ rw (ec, ee)
  | inr (inl (ec, ee)) ↦ rw (ec, ee)
  | inr (inr (inl (ec, ee))) ↦ rw (ec, ee)
  | inr (inr (inr (inl (ec, ee)))) ↦ rw (ec, ee)
  | inr (inr (inr (inr (ec, ee)))) ↦ rw (ec, ee)
]

no_escape :
    (c : ℕ)
    → double_quote_escape c ≡ none
    → ((c == b'"') ≡ false) × ((c == b'\\') ≡ false) × ((c == b'\n' || c == b'\r') ≡ false)
unfolding double_quote_escape
no_escape c h = ground arith

plain_step :
    (c : ℕ) (rest : Text)
    → double_quote_escape c ≡ none
    → lua_read quoted (c ∷ rest) ≡ put_all (encode_utf8 c) (lua_read quoted rest)
unfolding lua_read
plain_step c rest h = let (quote, backslash, line) = no_escape c h in rw (quote, backslash, line)

lua_step :
    (c : ℕ) (rest : Text)
    → c < 0x110000
    → lua_read quoted (lua_char c ++ rest) ≡ put_all (encode_utf8 c) (lua_read quoted rest)
unfolding lua_char
lua_step c rest h = elim (Option-cases (double_quote_escape c)) [
  | inl none_named ↦ elim (Bool-cases (is_unsafe_for_display c)) [
    | inl bad ↦
        rw (none_named, lua_char)
          (rw bad (read-decimal_escapes (encode_utf8 c) rest (encode_utf8_bytes c h)))
    | inr fine ↦ rw (none_named, lua_char) (rw fine (plain_step c rest none_named))
  ]
  | inr (esc, named) ↦ rw (named, lua_char) (escape_step c esc rest named)
]

quote_safe : is_unsafe_for_display b'"' ≡ false
quote_safe = unsafe_of_printable b'"' (omega arith) (omega arith)

digit_safe : (d : ℕ) → d < 10 → is_unsafe_for_display (b'0' + d) ≡ false
digit_safe d h = unsafe_of_printable (b'0' + d) (omega arith) (omega arith)

backslash_safe : is_unsafe_for_display b'\\' ≡ false
backslash_safe = unsafe_of_printable b'\\' (omega arith) (omega arith)

decimal_escapes-IsSafe :
    (bytes : List ℕ) → All (λ n. n < 256) bytes → IsSafe (decimal_escapes bytes)
decimal_escapes-IsSafe [] h = tt
decimal_escapes-IsSafe (n ∷ bytes) (h, hs) = (
  backslash_safe,
  (
    digit_safe (n / 100) (omega arith),
    (
      digit_safe (n / 10 % 10) (omega arith),
      (digit_safe (n % 10) (omega arith), decimal_escapes-IsSafe bytes hs),
    ),
  ),
)

escape-IsSafe : (c : ℕ) (esc : Text) → double_quote_escape c ≡ some esc → IsSafe esc
escape-IsSafe c esc h = elim (named_cases c esc h) [
  | inl (ec, ee) ↦ rw ee (backslash_safe, (backslash_safe, tt))
  | inr (inl (ec, ee)) ↦ rw ee (backslash_safe, (quote_safe, tt))
  | inr (inr (inl (ec, ee))) ↦
      rw ee (backslash_safe, (unsafe_of_printable b'n' (omega arith) (omega arith), tt))
  | inr (inr (inr (inl (ec, ee)))) ↦
      rw ee (backslash_safe, (unsafe_of_printable b'r' (omega arith) (omega arith), tt))
  | inr (inr (inr (inr (ec, ee)))) ↦
      rw ee (backslash_safe, (unsafe_of_printable b't' (omega arith) (omega arith), tt))
]

lua_char-IsSafe : (c : ℕ) → c < 0x110000 → IsSafe (lua_char c)
unfolding lua_char
lua_char-IsSafe c h = elim (Option-cases (double_quote_escape c)) [
  | inl none_named ↦ elim (Bool-cases (is_unsafe_for_display c)) [
    | inl bad ↦
        rw (none_named, lua_char)
          (rw bad (decimal_escapes-IsSafe (encode_utf8 c) (encode_utf8_bytes c h)))
    | inr fine ↦ rw (none_named, lua_char) (rw fine (fine, tt))
  ]
  | inr (esc, named) ↦ rw (named, lua_char) (escape-IsSafe c esc named)
]

each_lua_char-IsSafe : (s : Text) → All (λ c. c < 0x110000) s → IsSafe (each_char lua_char s)
each_lua_char-IsSafe [] h = tt
each_lua_char-IsSafe (c ∷ s) (h, hs) =
    All-append _ (lua_char c) (each_char lua_char s) (lua_char-IsSafe c h)
      (each_lua_char-IsSafe s hs)

-- Lua reads the literal of a buffer back as the UTF-8 bytes of the buffer, and the literal holds no
-- character that is unsafe to display.
pub read-lua_quote_string :
    (s : Text)
    → All (λ c. c < 0x110000) s
    → (lua_read start (lua_quote_string s) ≡ some (each_char encode_utf8 s))
      × IsSafe (lua_quote_string s)
unfolding lua_read lua_quote_string
read-lua_quote_string s h = (
  read-each_char (lua_read quoted) lua_char encode_utf8 (λ c. c < 0x110000) lua_step s (b'"' ∷ [])
      refl h,
  (
    quote_safe,
    All-append _ (each_char lua_char s) (b'"' ∷ []) (each_lua_char-IsSafe s h) (quote_safe, tt),
  ),
)
