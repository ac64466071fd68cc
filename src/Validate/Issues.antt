-- ===== src/Validate/Issues.antt =====
-- runex/src/app/config.rs, the issues that validation reports and the errors they become.
use runex.Prelude.{ℕ, ◌++◌}
use runex.Text.{Text, codes}

pub data ValidationReason : Type 0 where
  too_many_rules key_empty key_whitespace_only key_too_long key_contains_nul
        key_contains_control_char key_contains_deceptive_unicode expand_empty expand_whitespace_only
        expand_too_long expand_contains_nul expand_contains_control_char
        expand_contains_deceptive_unicode too_many_cmds cmd_empty cmd_whitespace_only cmd_too_long
        cmd_contains_nul cmd_contains_control_char cmd_contains_deceptive_unicode
        cmd_contains_path_separator cmd_contains_metacharacter key_has_unknown_placeholder
        key_has_multiple_number_placeholders key_has_number_without_unit
        number_field_without_key_placeholder number_empty number_contains_nul
        number_contains_control_char number_contains_deceptive_unicode number_unit_too_long
        glob_key_without_wildcard glob_key_has_multiple_stars glob_key_has_unsupported_char
        regex_expand_group_out_of_range :
      ValidationReason
  -- with the engine's error text, sanitised
  regex_key_invalid : Text → ValidationReason

pub data ValidationIssue : Type 0 where
  config : ValidationReason → ValidationIssue
  -- the number of the rule, from 1, and the path of the field
  rule : ℕ → Text → ValidationReason → ValidationIssue

pub data ConfigError : Type 0 where
  parse io : Text → ConfigError
  no_config_dir file_too_large : ConfigError
  unsupported_version : ℕ → ConfigError
  ctrl_v_as_trigger ctrl_v_as_self_insert paste_intercept_unsupported_shell : Text → ConfigError
  paste_intercept_invalid_key : Text → Text → ConfigError
  too_many_rules : ConfigError
  key_empty key_whitespace_only key_too_long key_contains_nul key_contains_control_char
        key_contains_deceptive_unicode expand_empty expand_whitespace_only expand_too_long
        expand_contains_nul expand_contains_control_char expand_contains_deceptive_unicode
        too_many_cmds cmd_empty cmd_whitespace_only cmd_too_long cmd_contains_nul
        cmd_contains_control_char cmd_contains_deceptive_unicode cmd_contains_path_separator
        cmd_contains_metacharacter key_has_unknown_placeholder key_has_multiple_number_placeholders
        key_has_number_without_unit number_field_without_key_placeholder number_empty
        number_contains_nul number_contains_control_char number_contains_deceptive_unicode
        number_unit_too_long glob_key_without_wildcard glob_key_has_multiple_stars
        glob_key_has_unsupported_char regex_expand_group_out_of_range :
      ℕ → ConfigError
  regex_key_invalid : ℕ → Text → ConfigError

-- The error of a reason, at the rule with the number `n`.
unfoldable pub error_of : ValidationReason → ℕ → ConfigError
error_of too_many_rules n = too_many_rules
error_of key_empty n = key_empty n
error_of key_whitespace_only n = key_whitespace_only n
error_of key_too_long n = key_too_long n
error_of key_contains_nul n = key_contains_nul n
error_of key_contains_control_char n = key_contains_control_char n
error_of key_contains_deceptive_unicode n = key_contains_deceptive_unicode n
error_of expand_empty n = expand_empty n
error_of expand_whitespace_only n = expand_whitespace_only n
error_of expand_too_long n = expand_too_long n
error_of expand_contains_nul n = expand_contains_nul n
error_of expand_contains_control_char n = expand_contains_control_char n
error_of expand_contains_deceptive_unicode n = expand_contains_deceptive_unicode n
error_of too_many_cmds n = too_many_cmds n
error_of cmd_empty n = cmd_empty n
error_of cmd_whitespace_only n = cmd_whitespace_only n
error_of cmd_too_long n = cmd_too_long n
error_of cmd_contains_nul n = cmd_contains_nul n
error_of cmd_contains_control_char n = cmd_contains_control_char n
error_of cmd_contains_deceptive_unicode n = cmd_contains_deceptive_unicode n
error_of cmd_contains_path_separator n = cmd_contains_path_separator n
error_of cmd_contains_metacharacter n = cmd_contains_metacharacter n
error_of key_has_unknown_placeholder n = key_has_unknown_placeholder n
error_of key_has_multiple_number_placeholders n = key_has_multiple_number_placeholders n
error_of key_has_number_without_unit n = key_has_number_without_unit n
error_of number_field_without_key_placeholder n = number_field_without_key_placeholder n
error_of number_empty n = number_empty n
error_of number_contains_nul n = number_contains_nul n
error_of number_contains_control_char n = number_contains_control_char n
error_of number_contains_deceptive_unicode n = number_contains_deceptive_unicode n
error_of number_unit_too_long n = number_unit_too_long n
error_of glob_key_without_wildcard n = glob_key_without_wildcard n
error_of glob_key_has_multiple_stars n = glob_key_has_multiple_stars n
error_of glob_key_has_unsupported_char n = glob_key_has_unsupported_char n
error_of regex_expand_group_out_of_range n = regex_expand_group_out_of_range n
error_of (regex_key_invalid engine_text) n = regex_key_invalid n engine_text

unfoldable pub to_config_error : ValidationIssue → ConfigError
unfolding error_of
to_config_error (config reason) = error_of reason 0
to_config_error (rule rule_index field_path reason) = error_of reason rule_index

-- The phrase that `doctor` shows.
unfoldable pub phrase_of : ValidationReason → Text
phrase_of too_many_rules = codes "config has too many abbr rules"
phrase_of key_empty = codes "key is empty"
phrase_of key_whitespace_only = codes "key contains only whitespace"
phrase_of key_too_long = codes "key exceeds the maximum length"
phrase_of key_contains_nul = codes "key contains a NUL byte"
phrase_of key_contains_control_char = codes "key contains an ASCII control character"
phrase_of key_contains_deceptive_unicode = codes "key contains a Unicode visual-deception character"
phrase_of expand_empty = codes "expand is empty"
phrase_of expand_whitespace_only = codes "expand contains only whitespace"
phrase_of expand_too_long = codes "expand exceeds the maximum length"
phrase_of expand_contains_nul = codes "expand contains a NUL byte"
phrase_of expand_contains_control_char = codes "expand contains an ASCII control character"
phrase_of expand_contains_deceptive_unicode =
    codes "expand contains a Unicode visual-deception character"
phrase_of too_many_cmds = codes "when_command_exists has too many entries"
phrase_of cmd_empty = codes "when_command_exists entry is empty"
phrase_of cmd_whitespace_only = codes "when_command_exists entry contains only whitespace"
phrase_of cmd_too_long = codes "when_command_exists entry exceeds the maximum length"
phrase_of cmd_contains_nul = codes "when_command_exists entry contains a NUL byte"
phrase_of cmd_contains_control_char =
    codes "when_command_exists entry contains an ASCII control character"
phrase_of cmd_contains_deceptive_unicode =
    codes "when_command_exists entry contains a Unicode visual-deception character"
phrase_of cmd_contains_path_separator = codes "when_command_exists entry contains a path separator"
phrase_of cmd_contains_metacharacter =
    codes "when_command_exists entry contains a shell metacharacter or glob pattern"
phrase_of key_has_unknown_placeholder =
    codes "key contains an unrecognised placeholder (only '{number}' is supported)"
phrase_of key_has_multiple_number_placeholders =
    codes "key contains more than one '{number}' placeholder"
phrase_of key_has_number_without_unit =
    codes "key contains '{number}' but no `number` field is defined"
phrase_of number_field_without_key_placeholder =
    codes "`number` field is set but the key has no '{number}' placeholder"
phrase_of number_empty = codes "`number` unit is empty"
phrase_of number_contains_nul = codes "`number` unit contains a NUL byte"
phrase_of number_contains_control_char = codes "`number` unit contains an ASCII control character"
phrase_of number_contains_deceptive_unicode =
    codes "`number` unit contains a Unicode visual-deception character"
phrase_of number_unit_too_long = codes "`number` unit exceeds the maximum length"
phrase_of glob_key_without_wildcard = codes "glob key has no `*` or `?`"
phrase_of glob_key_has_multiple_stars = codes "glob key contains more than one `*`"
phrase_of glob_key_has_unsupported_char = codes "glob key contains one of [ ] { } ( ) \\"
phrase_of regex_expand_group_out_of_range =
    codes "expand refers to a group {1}..{9} that the regex key does not have"
phrase_of (regex_key_invalid engine_text) = codes "regex key does not compile: " ++ engine_text

unfoldable pub reason_text : ValidationIssue → Text
unfolding phrase_of
reason_text (config reason) = phrase_of reason
reason_text (rule rule_index field_path reason) = phrase_of reason
