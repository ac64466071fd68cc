-- ===== src/Shell.antt =====
-- runex/src/domain/shell.rs: the names of the shells, and texts written as literals of a shell.
pub mod Reading
pub mod Names
pub mod Bash
pub mod Pwsh
pub mod LuaReader
pub mod Lua
pub mod Nu
use mathlib.Core.List.{flat_map}
use runex.Prelude.{
  ℕ, ◌+◌, ◌-◌, ◌/◌, ◌%◌, List, [], ◌∷◌, ◌++◌, map, Option, none, some, Bool, ◌||◌, ◌&&◌, ◌==◌, ltb,
  ◌⊎◌, inl, inr, if◌then◌else◌, keep, not,
}
use runex.Text.{Text, codes, text_eq, is_ascii_control, to_ascii_lowercase}
use runex.Model.{Shell, bash, zsh, pwsh, clink, nu}
use runex.Sanitize.{
  is_unicode_line_separator, is_unsafe_for_display, double_quote_escape, is_nu_drop_char,
}

-- `Display for Shell`.
unfoldable pub shell_name : Shell → Text
shell_name bash = codes "bash"
shell_name zsh = codes "zsh"
shell_name pwsh = codes "pwsh"
shell_name clink = codes "clink"
shell_name nu = codes "nu"

pub record ShellParseError : Type 0 where
  pub name : Text

-- `FromStr for Shell`.
unfoldable pub shell_from_str : Text → Shell ⊎ ShellParseError
shell_from_str s =
    let lower = map to_ascii_lowercase s in
    if text_eq lower (codes "bash")
    then inl bash
    else if text_eq lower (codes "zsh")
    then inl zsh
    else if text_eq lower (codes "pwsh")
    then inl pwsh
    else if text_eq lower (codes "clink")
    then inl clink
    else if text_eq lower (codes "nu")
    then inl nu
    else inr (record { name = s })

-- `Display for ShellParseError`.
unfoldable pub shell_error_text : ShellParseError → Text
shell_error_text e =
    codes "unknown shell '"
    ++ (keep (λ c. not (is_unsafe_for_display c)) e.name
        ++ codes "' (expected: bash, zsh, pwsh, clink, nu)")

-- A loop `for ch in value.chars()` that pushes some characters for each one.
abbrev pub each_char : (ℕ → Text) → Text → Text
each_char f [] = []
each_char f (c ∷ s) = f c ++ each_char f s

-- The characters that a path is quoted without.
abbrev pub is_dropped_in_path : ℕ → Bool
is_dropped_in_path c = is_ascii_control c || is_unicode_line_separator c

unfoldable pub bash_quote_char : ℕ → Text
bash_quote_char c =
    if c == b'\'' then codes "'\\''" else if is_dropped_in_path c then [] else c ∷ []

unfoldable pub bash_quote_string : Text → Text
bash_quote_string value = b'\'' ∷ (each_char bash_quote_char value ++ b'\'' ∷ [])

-- `{:02x}` of a number below 256, and `{:03}`.
unfoldable pub hex_digit : ℕ → ℕ
hex_digit n = if ltb n 10 then b'0' + n else b'a' + (n - 10)

abbrev pub two_hex_digits : ℕ → Text
two_hex_digits n = hex_digit (n / 16) ∷ hex_digit (n % 16) ∷ []

abbrev pub three_digits : ℕ → Text
three_digits n = (b'0' + n / 100) ∷ (b'0' + n / 10 % 10) ∷ (b'0' + n % 10) ∷ []

unfoldable pub bash_buffer_char : ℕ → Text
bash_buffer_char c =
    if c == b'\''
    then codes "'\\''"
    else if is_ascii_control c
    then codes "'$'\\x" ++ (two_hex_digits c ++ codes "''")
    else c ∷ []

unfoldable pub bash_quote_buffer : Text → Text
bash_quote_buffer value = b'\'' ∷ (each_char bash_buffer_char value ++ b'\'' ∷ [])

unfoldable pub pwsh_quote_char : ℕ → Text
pwsh_quote_char c = if c == b'\'' then codes "''" else if is_dropped_in_path c then [] else c ∷ []

unfoldable pub pwsh_quote_string : Text → Text
pwsh_quote_string token = b'\'' ∷ (each_char pwsh_quote_char token ++ b'\'' ∷ [])

-- The characters that get a backtick.
abbrev pub needs_backtick : ℕ → Bool
needs_backtick c = c == b'`' || c == b'$' || c == b'"' || c == 0x201C || c == 0x201D || c == 0x201E

unfoldable pub pwsh_double_char : ℕ → Text
pwsh_double_char c =
    if c == b'\n'
    then codes "`n"
    else if c == b'\r'
    then codes "`r"
    else if needs_backtick c
    then b'`' ∷ c ∷ []
    else c ∷ []

unfoldable pub pwsh_double_quote_string : Text → Text
pwsh_double_quote_string value = b'"' ∷ (each_char pwsh_double_char value ++ b'"' ∷ [])

unfoldable pub nu_char : ℕ → Text
nu_char c = elim (double_quote_escape c) [
  | some esc ↦ esc
  | none ↦ if c == b'$' then codes "\\$" else if is_nu_drop_char c then [] else c ∷ []
]

unfoldable pub nu_quote_string : Text → Text
nu_quote_string value = codes "^\"" ++ (each_char nu_char value ++ b'"' ∷ [])

-- One more level of escapes; `\$` stays as it is.
abbrev pub embed_char : ℕ → Text
embed_char c = if c == b'\\' then codes "\\\\" else if c == b'"' then codes "\\\"" else c ∷ []

unfoldable pub embed : Text → Text
embed [] = []
embed (c ∷ []) = embed_char c
embed (c ∷ d ∷ s) =
    let atomic = b'\\' ∷ b'$' ∷ embed s in
    let single = embed_char c ++ embed (d ∷ s) in if c == b'\\' && d == b'$' then atomic else single

unfoldable pub nu_quote_string_embedded : Text → Text
nu_quote_string_embedded value = embed (nu_quote_string value)

-- `char::encode_utf8`.
abbrev pub encode_utf8 : ℕ → List ℕ
encode_utf8 c =
    if ltb c 0x80
    then c ∷ []
    else if ltb c 0x800
    then (0xC0 + c / 64) ∷ (0x80 + c % 64) ∷ []
    else if ltb c 0x10000
    then (0xE0 + c / 4096) ∷ (0x80 + c / 64 % 64) ∷ (0x80 + c % 64) ∷ []
    else (0xF0 + c / 262144) ∷ (0x80 + c / 4096 % 64) ∷ (0x80 + c / 64 % 64) ∷ (0x80 + c % 64) ∷ []

abbrev pub decimal_escapes : List ℕ → Text
decimal_escapes [] = []
decimal_escapes (byte ∷ bytes) = b'\\' ∷ (three_digits byte ++ decimal_escapes bytes)

unfoldable pub lua_char : ℕ → Text
lua_char c = elim (double_quote_escape c) [
  | some esc ↦ esc
  | none ↦ if is_unsafe_for_display c then decimal_escapes (encode_utf8 c) else c ∷ []
]

unfoldable pub lua_quote_string : Text → Text
lua_quote_string value = b'"' ∷ (each_char lua_char value ++ b'"' ∷ [])
