-- ===== src/Cursor.antt =====
-- runex/src/app/hook.rs, the cursor: conversions between byte offsets and the units in which the
-- shells count, characters and UTF-16 code units.
pub mod Chars
pub mod Utf16
use runex.Prelude.{
  ℕ, zero, suc, ◌+◌, ◌-◌, [], ◌∷◌, Option, none, some, Bool, ◌==◌, ltb, leb, if◌then◌else◌, length,
}
use runex.Text.{Text, len_utf8, len_utf16, byte_len}
use runex.Model.{Shell, bash, zsh, pwsh, clink, nu}

-- `char_indices().nth(n)`, the byte offset alone, for a text that starts at `at`.
abbrev pub nth_index : ℕ → Text → ℕ → Option ℕ
nth_index at [] n = none
nth_index at (c ∷ s) zero = some at
nth_index at (c ∷ s) (suc n) = nth_index (at + len_utf8 c) s n

abbrev pub unwrap_or {ℓ} : {A : Type ℓ} → Option A → A → A
unwrap_or none d = d
unwrap_or (some a) d = a

unfoldable pub char_cursor_to_byte : Text → ℕ → ℕ
char_cursor_to_byte line char_cursor = unwrap_or (nth_index 0 line char_cursor) (byte_len line)

-- The search through `char_indices().enumerate()` for the character whose end is behind the cursor.
abbrev pub find_char : ℕ → ℕ → Text → ℕ → Option ℕ
find_char char_idx byte_idx [] cursor = none
find_char char_idx byte_idx (c ∷ s) cursor =
    let rest = find_char (suc char_idx) (byte_idx + len_utf8 c) s cursor in
    if ltb cursor (byte_idx + len_utf8 c) then some char_idx else rest

unfoldable pub byte_cursor_to_char : Text → ℕ → ℕ
byte_cursor_to_char line byte_cursor =
    if leb (byte_len line) byte_cursor
    then length line
    else unwrap_or (find_char 0 0 line byte_cursor) (length line)

-- The loop of `utf16_cursor_to_byte`, which falls through to `line.len()`.
abbrev pub utf16_loop : ℕ → ℕ → Text → ℕ → Option ℕ
utf16_loop consumed byte_idx [] cursor = none
utf16_loop consumed byte_idx (c ∷ s) cursor =
    let rest = utf16_loop (consumed + len_utf16 c) (byte_idx + len_utf8 c) s cursor in
    if consumed == cursor
    then some byte_idx
    else if ltb cursor (consumed + len_utf16 c)
    then some byte_idx
    else rest

unfoldable pub utf16_cursor_to_byte : Text → ℕ → ℕ
utf16_cursor_to_byte line utf16_cursor =
    unwrap_or (utf16_loop 0 0 line utf16_cursor) (byte_len line)

-- `chars().map(len_utf16).sum()`.
abbrev pub utf16_len : Text → ℕ
utf16_len [] = 0
utf16_len (c ∷ s) = len_utf16 c + utf16_len s

-- The loop of `byte_cursor_to_utf16`.
abbrev pub byte_loop : ℕ → ℕ → Text → ℕ → ℕ
byte_loop utf16 byte_idx [] cursor = utf16
byte_loop utf16 byte_idx (c ∷ s) cursor =
    let rest = byte_loop (utf16 + len_utf16 c) (byte_idx + len_utf8 c) s cursor in
    if leb cursor byte_idx then utf16 else rest

unfoldable pub byte_cursor_to_utf16 : Text → ℕ → ℕ
byte_cursor_to_utf16 line byte_cursor =
    if leb (byte_len line) byte_cursor then utf16_len line else byte_loop 0 0 line byte_cursor

unfoldable pub shell_cursor_to_byte : Shell → Text → ℕ → ℕ
unfolding char_cursor_to_byte utf16_cursor_to_byte
shell_cursor_to_byte pwsh line cursor = utf16_cursor_to_byte line cursor
shell_cursor_to_byte bash line cursor = char_cursor_to_byte line cursor
shell_cursor_to_byte zsh line cursor = char_cursor_to_byte line cursor
shell_cursor_to_byte clink line cursor = char_cursor_to_byte line cursor
shell_cursor_to_byte nu line cursor = char_cursor_to_byte line cursor
