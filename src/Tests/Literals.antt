-- ===== src/Tests/Literals.antt =====
-- Literals, cursors, names and sanitising, on concrete texts.
use runex.Prelude.{
  ◌+◌, ◌≤◌, ◌<◌, min, ◌∷◌, none, some, false, ◌≡◌, ◌≢◌, ◌⊎◌, arith, All, keep, not, length,
}
use runex.Text.{Text, codes}
use runex.Text.Slices.{IsBoundary}
use runex.Sanitize.{is_unicode_line_separator}
use runex.Sanitize.Laws.{IsSafe}
use runex.Shell.{
  bash_quote_string, bash_quote_buffer, pwsh_quote_string, pwsh_double_quote_string,
  nu_quote_string_embedded, each_char, encode_utf8, lua_quote_string, is_dropped_in_path,
}
use runex.Shell.Bash as Bash
use runex.Shell.Pwsh as Pwsh
use runex.Shell.Lua as Lua
use runex.Shell.LuaReader as LuaReader
use runex.Shell.Nu as Nu
use runex.Cursor.{
  char_cursor_to_byte, byte_cursor_to_char, utf16_cursor_to_byte, byte_cursor_to_utf16, utf16_len,
}
use runex.Cursor.Chars.{byte_cursor_to_char-char_cursor_to_byte}
use runex.Cursor.Utf16.{byte_cursor_to_utf16-utf16_cursor_to_byte}

abbrev tricky : Text
tricky = codes "it's \"a\" `$x` \n \\ é ’ {1}"

read-bash_quote_buffer_example :
    Bash.bash_read Bash.Mode.word (bash_quote_buffer tricky) ≡ some tricky
read-bash_quote_buffer_example = Bash.read-bash_quote_buffer tricky (ground arith)

read-bash_quote_string_example :
    (Bash.bash_read Bash.Mode.word (bash_quote_string tricky)
      ≡ some (keep (λ c. not (is_dropped_in_path c)) tricky))
    × All (λ c. is_dropped_in_path c ≡ false) (bash_quote_string tricky)
read-bash_quote_string_example = Bash.read-bash_quote_string tricky

read-pwsh_double_quote_string_example :
    (Pwsh.pwsh_read Pwsh.Mode.start (pwsh_double_quote_string tricky) ≡ some tricky)
    × All (λ c. (c ≢ b'\n') × (c ≢ b'\r')) (pwsh_double_quote_string tricky)
read-pwsh_double_quote_string_example = Pwsh.read-pwsh_double_quote_string tricky

abbrev windows_path : Text
windows_path = codes "C:\\it's\nhere"

pwsh_quote_string_typographic_example :
    (body : Text) × (pwsh_quote_string (codes "O’Neil") ≡ b'\'' ∷ body)
    × (Pwsh.pwsh_single_read Pwsh.SingleMode.inside body ≡ none)
unfolding is_unicode_line_separator
pwsh_quote_string_typographic_example =
    Pwsh.pwsh_quote_string_typographic (codes "O") (codes "eil") 0x2019 b'N' (ground arith)
      (ground arith) (ground arith) (ground arith)

read-lua_quote_string_example :
    (LuaReader.lua_read LuaReader.Mode.start (lua_quote_string tricky)
      ≡ some (each_char encode_utf8 tricky))
    × IsSafe (lua_quote_string tricky)
read-lua_quote_string_example = Lua.read-lua_quote_string tricky (ground arith)

read-nu_quote_string_embedded_example :
    (inner : Text) × (Nu.outer_read Nu.OuterMode.outside (nu_quote_string_embedded tricky)
      ≡ some inner)
    × (Nu.nu_read Nu.Mode.start inner ≡ some (keep Nu.is_kept tricky))
read-nu_quote_string_embedded_example = Nu.read-nu_quote_string_embedded tricky

byte_cursor_to_char-char_cursor_to_byte_example :
    IsBoundary (codes "é🎯x") (char_cursor_to_byte (codes "é🎯x") 2)
    × (byte_cursor_to_char (codes "é🎯x") (char_cursor_to_byte (codes "é🎯x") 2)
        ≡ min 2 (length (codes "é🎯x")))
byte_cursor_to_char-char_cursor_to_byte_example =
    byte_cursor_to_char-char_cursor_to_byte (codes "é🎯x") 2

byte_cursor_to_utf16-utf16_cursor_to_byte_example :
    IsBoundary (codes "é🎯x") (utf16_cursor_to_byte (codes "é🎯x") 2)
    × (byte_cursor_to_utf16 (codes "é🎯x") (utf16_cursor_to_byte (codes "é🎯x") 2)
        ≤ min 2 (utf16_len (codes "é🎯x")))
    × (min 2 (utf16_len (codes "é🎯x"))
        ≤ byte_cursor_to_utf16 (codes "é🎯x") (utf16_cursor_to_byte (codes "é🎯x") 2) + 1)
    × ((byte_cursor_to_utf16 (codes "é🎯x") (utf16_cursor_to_byte (codes "é🎯x") 2)
          ≡ utf16_len (codes "é🎯x"))
        ⊎ (2 < utf16_len (codes "é🎯x")))
byte_cursor_to_utf16-utf16_cursor_to_byte_example =
    byte_cursor_to_utf16-utf16_cursor_to_byte (codes "é🎯x") 2
