-- ===== src/Hook.antt =====
-- runex/src/domain/hook.rs, with `render` and `insert_space_action` of runex/src/app/hook.rs and
-- `handle` of runex/src/cmd/hook.rs: what a press of the trigger key does to the line.
use runex.Prelude.{
  ℕ, zero, suc, ◌+◌, ◌-◌, ◌*◌, min, List, [], ◌∷◌, ◌++◌, Option, none, some, Bool, true, false,
  ◌&&◌, ◌||◌, ◌==◌, not, ltb, leb, if◌then◌else◌, any, is_empty, is_some, ◌>>=◌, ◌⊎◌, inl, inr,
}
use runex.Text.{
  decimal, Text, codes, byte_len, text_eq, starts_with_char, ends_with, rfind_char, trim_end_char,
  split_at_byte,
}
use runex.Model.{
  Shell, bash, zsh, pwsh, clink, nu, Abbr, Config, ExpandResult, expanded, pass_through,
}
use runex.Shell.{
  shell_from_str, shell_error_text, bash_quote_buffer, pwsh_double_quote_string, lua_quote_string,
}
use runex.Cursor.{byte_cursor_to_char, byte_cursor_to_utf16, shell_cursor_to_byte}
use runex.Expand.Keys.{RegexLite, match_rule}
use runex.Expand.Rules.{expand}
pub mod Words
pub mod Position
pub mod Outcome
pub mod Run
pub mod Message
pub mod Handle
pub mod Utf8
pub mod Hex

-- The new line, and the new cursor as a byte offset in it.
pub data HookAction : Type 0 where
  replace insert_space : Text → ℕ → HookAction

abbrev pub line_of : HookAction → Text
line_of (replace line cursor) = line
line_of (insert_space line cursor) = line

abbrev pub cursor_of : HookAction → ℕ
cursor_of (replace line cursor) = cursor
cursor_of (insert_space line cursor) = cursor

unfoldable pub trim_trailing_spaces : Text → Text
trim_trailing_spaces s = trim_end_char b' ' s

unfoldable pub ends_with_pipeline_operator : Text → Bool
ends_with_pipeline_operator s =
    ends_with (codes "&&") s
    || ends_with (codes "||") s
    || ends_with (codes "|") s
    || ends_with (codes ";") s

-- The byte offset behind the last space.
abbrev pub last_word_start : Text → ℕ
last_word_start s = elim (rfind_char b' ' s) [ none ↦ 0 | some i ↦ i + 1 ]

-- The text before a last word `sudo`; `none` as well where slicing would panic.
unfoldable pub strip_trailing_sudo : Text → Option Text
strip_trailing_sudo prefix = do
  sides ← split_at_byte prefix (last_word_start prefix)
  if text_eq sides.1 (codes "sudo") then some sides.0 else none

-- What the position test says of a line before its `sudo`.
unfoldable pub is_command_start : Text → Bool
is_command_start before_sudo = is_empty before_sudo || ends_with_pipeline_operator before_sudo

unfoldable pub is_command_position : Text → Bool
is_command_position prefix =
    let trimmed = trim_trailing_spaces prefix in
    if is_empty trimmed
    then true
    else if ends_with_pipeline_operator trimmed
    then true
    else elim (strip_trailing_sudo trimmed) [
      | none ↦ false
      | some before_sudo ↦ is_command_start (trim_trailing_spaces before_sudo)
    ]

unfoldable pub token_start_of : Text → Option ℕ
token_start_of left = if is_empty left then none else some (last_word_start left)

-- In these, `none` is the panic of a slice that is not on a character boundary.
unfoldable pub insert_space_at : Text → ℕ → Option HookAction
insert_space_at line cursor = do
  sides ← split_at_byte line cursor
  some (insert_space (sides.0 ++ b' ' ∷ sides.1) (cursor + 1))

unfoldable pub insert_space_action : Text → ℕ → Option HookAction
insert_space_action line byte_cursor = do
  sides ← split_at_byte line (min byte_cursor (byte_len line))
  some (insert_space (sides.0 ++ b' ' ∷ sides.1) (min byte_cursor (byte_len line) + 1))

-- The line behind the expanded token: the trigger space is replayed where no cursor is asked for.
unfoldable pub splice : Text → Text → Text → Option ℕ → HookAction
splice prefix text right (some off) = replace (prefix ++ (text ++ right)) (byte_len prefix + off)
splice prefix text right none =
    replace (prefix ++ (text ++ b' ' ∷ right)) (byte_len prefix + byte_len text + 1)

module _ (command_exists : Text → Bool) (lib : RegexLite) where
  unfoldable pub is_known_token : Config → Text → Bool
  is_known_token config token = any (λ abbr. is_some (match_rule lib abbr token)) config.abbr

  -- The token with what stands before it, expanded.
  unfoldable pub expand_token : Config → Shell → Text → Text → Text → Text → ℕ → Option HookAction
  expand_token config shell line prefix token right cursor =
      elim (expand command_exists lib token shell config) [
        | expanded text cursor_offset ↦ some (splice prefix text right cursor_offset)
        | pass_through _ ↦ insert_space_at line cursor
      ]

  -- The guards on the token that stands between the prefix and the cursor.
  unfoldable pub hook_word : Config → Shell → Text → Text → Text → Text → ℕ → Option HookAction
  hook_word config shell line prefix token right cursor =
      if is_empty token
      then insert_space_at line cursor
      else if not (is_command_position prefix)
      then insert_space_at line cursor
      else if not (is_known_token config token)
      then insert_space_at line cursor
      else expand_token config shell line prefix token right cursor

  -- The two sides of the cursor: the token is the last word of the left one.
  unfoldable pub hook_sides : Config → Shell → Text → Text → Text → ℕ → Option HookAction
  hook_sides config shell line left right cursor =
      if ltb cursor (byte_len line) && not (starts_with_char b' ' right)
      then insert_space_at line cursor
      else elim (token_start_of left) [
        | none ↦ insert_space_at line cursor
        | some token_start ↦ do
          sides ← split_at_byte left token_start
          hook_word config shell line sides.0 sides.1 right cursor
      ]

  unfoldable pub hook_at : Config → Shell → Text → ℕ → Option HookAction
  hook_at config shell line cursor = do
    sides ← split_at_byte line cursor
    hook_sides config shell line sides.0 sides.1 cursor

  unfoldable pub hook : Config → Shell → Text → ℕ → Option HookAction
  hook config shell line cursor = hook_at config shell line (min cursor (byte_len line))

-- The cursor in the unit of the shell.
unfoldable pub shell_cursor : Shell → Text → ℕ → ℕ
shell_cursor zsh line byte_cursor = byte_cursor
shell_cursor pwsh line byte_cursor = byte_cursor_to_utf16 line byte_cursor
shell_cursor bash line byte_cursor = byte_cursor_to_char line byte_cursor
shell_cursor clink line byte_cursor = byte_cursor_to_char line byte_cursor
shell_cursor nu line byte_cursor = byte_cursor_to_char line byte_cursor

-- With the crate `serde_json`, which writes the line for nu.
module _ (json_string : Text → Text) where
  unfoldable pub render_parts : Shell → Text → ℕ → Option Text
  render_parts bash line cursor = some (
      codes "READLINE_LINE="
      ++ (bash_quote_buffer line ++ (codes "; READLINE_POINT=" ++ decimal cursor)))
  render_parts zsh line cursor = do
    sides ← split_at_byte line cursor
    some (
        codes "LBUFFER="
        ++ (bash_quote_buffer sides.0 ++ (codes "; RBUFFER=" ++ bash_quote_buffer sides.1)))
  render_parts pwsh line cursor = some (
      codes "$__RUNEX_LINE = "
      ++ (pwsh_double_quote_string line ++ (b'\n' ∷ codes "$__RUNEX_CURSOR = " ++ decimal cursor)))
  render_parts clink line cursor = some (
      codes "return { line = "
      ++ (lua_quote_string line ++ (codes ", cursor = " ++ (decimal cursor ++ codes " }"))))
  render_parts nu line cursor = some (
      codes "{\"line\": "
      ++ (json_string line ++ (codes ", \"cursor\": " ++ (decimal cursor ++ codes "}"))))

  unfoldable pub render_action : Shell → HookAction → Option Text
  render_action shell action = render_parts shell (line_of action) (cursor_of action)

  unfoldable pub render : Shell → HookAction → Option Text
  render shell (replace line cursor) =
      render_action shell (replace line (shell_cursor shell line cursor))
  render shell (insert_space line cursor) =
      render_action shell (insert_space line (shell_cursor shell line cursor))

abbrev pub max_hook_line_bytes : ℕ
max_hook_line_bytes = 16 * 1024

pub data CmdResult : Type 0 where
  printed failed : Text → CmdResult

-- `cmd::hook::handle`: the line it prints, or its error. The context that it builds from the files
-- of the user is `context`: a configuration and the test for a command, where that loads.
module _ (lib : RegexLite) (json_string : Text → Text) where
  unfoldable pub handle_action :
      Option (Config × (Text → Bool)) → Shell → Text → ℕ → Bool → Option HookAction
  handle_action context shell line cursor paste_pending =
      if ltb max_hook_line_bytes (byte_len line)
      then insert_space_action line cursor
      else if paste_pending
      then insert_space_action line cursor
      else elim context [
        | none ↦ insert_space_action line cursor
        | some (config, command_exists) ↦ hook command_exists lib config shell line cursor
      ]

  unfoldable pub handle :
      Option (Config × (Text → Bool)) → Text → Text → ℕ → Bool → Option CmdResult
  handle context shell_str line cursor paste_pending = elim (shell_from_str shell_str) [
    | inr error ↦ some (failed (shell_error_text error))
    | inl shell ↦ do
      action ←
          handle_action context shell line (shell_cursor_to_byte shell line cursor) paste_pending
      out ← render json_string shell action
      some (printed out)
  ]
