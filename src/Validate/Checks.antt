-- ===== src/Validate/Checks.antt =====
-- runex/src/app/config.rs, the checks of single values.
use runex.Prelude.{ℕ, List, Option, none, some, Bool, ◌||◌, ltb, if◌then◌else◌, any, is_empty}
use runex.Text.{Text, codes, byte_len, contains_char, trim, is_ascii_control}
use runex.Sanitize.{is_deceptive_unicode}
use runex.Validate.Issues.{
  ValidationReason, key_empty, key_whitespace_only, key_too_long, key_contains_nul,
  key_contains_control_char, key_contains_deceptive_unicode, expand_empty, expand_whitespace_only,
  expand_too_long, expand_contains_nul, expand_contains_control_char,
  expand_contains_deceptive_unicode, cmd_empty, cmd_whitespace_only, cmd_too_long, cmd_contains_nul,
  cmd_contains_control_char, cmd_contains_deceptive_unicode, cmd_contains_path_separator,
  cmd_contains_metacharacter, number_empty, number_contains_nul, number_contains_control_char,
  number_contains_deceptive_unicode, number_unit_too_long,
}

abbrev pub max_key_bytes : ℕ
max_key_bytes = 1024

abbrev pub max_expand_bytes : ℕ
max_expand_bytes = 4096

abbrev pub max_cmd_bytes : ℕ
max_cmd_bytes = 255

abbrev pub max_cmd_list_len : ℕ
max_cmd_list_len = 64

abbrev pub max_number_unit_bytes : ℕ
max_number_unit_bytes = 32

unfoldable pub check_abbr_key : Text → Option ValidationReason
check_abbr_key key =
    if is_empty key
    then some key_empty
    else if is_empty (trim key)
    then some key_whitespace_only
    else if ltb max_key_bytes (byte_len key)
    then some key_too_long
    else if contains_char 0 key
    then some key_contains_nul
    else if any is_ascii_control key
    then some key_contains_control_char
    else if any is_deceptive_unicode key
    then some key_contains_deceptive_unicode
    else none

unfoldable pub check_expand_value : Text → Option ValidationReason
check_expand_value expand =
    if is_empty expand
    then some expand_empty
    else if is_empty (trim expand)
    then some expand_whitespace_only
    else if ltb max_expand_bytes (byte_len expand)
    then some expand_too_long
    else if contains_char 0 expand
    then some expand_contains_nul
    else if any is_ascii_control expand
    then some expand_contains_control_char
    else if any is_deceptive_unicode expand
    then some expand_contains_deceptive_unicode
    else none

abbrev pub metachars : List ℕ
metachars = codes "&|;<>`$(){}'\"%^ \t*?[],=!#~"

abbrev pub is_metachar : ℕ → Bool
is_metachar c = contains_char c metachars

unfoldable pub check_cmd_entry : Text → Option ValidationReason
check_cmd_entry cmd =
    if is_empty cmd
    then some cmd_empty
    else if is_empty (trim cmd)
    then some cmd_whitespace_only
    else if ltb max_cmd_bytes (byte_len cmd)
    then some cmd_too_long
    else if contains_char 0 cmd
    then some cmd_contains_nul
    else if any is_ascii_control cmd
    then some cmd_contains_control_char
    else if any is_deceptive_unicode cmd
    then some cmd_contains_deceptive_unicode
    else if contains_char b'/' cmd || contains_char b'\\' cmd || contains_char b':' cmd
    then some cmd_contains_path_separator
    else if any is_metachar cmd
    then some cmd_contains_metacharacter
    else none

unfoldable pub check_number_unit : Text → Option ValidationReason
check_number_unit unit =
    if is_empty unit
    then some number_empty
    else if ltb max_number_unit_bytes (byte_len unit)
    then some number_unit_too_long
    else if contains_char 0 unit
    then some number_contains_nul
    else if any is_ascii_control unit
    then some number_contains_control_char
    else if any is_deceptive_unicode unit
    then some number_contains_deceptive_unicode
    else none
