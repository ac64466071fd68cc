-- ===== src/Tests/Keystroke.antt =====
-- A press of the trigger key, on concrete lines.
use runex.Prelude.{none, some, true, false, ◌≡◌, refl, ◌↔◌}
use runex.Text.{
  Text, codes, is_whitespace, repeat, replace as replace_text, split_once_text, strip_prefix,
  strip_suffix, trim, trim_end, trim_start, split_at_byte, rfind_char, trim_end_char, ends_with,
  text_eq, split_once_char,
}
use runex.Text.Slices.{IsBoundary}
use runex.Model.{bash, zsh, pwsh, cmds_for_shell, string_for_shell}
use runex.Cursor.{shell_cursor_to_byte}
use runex.Expand.Keys.{
  match_rule, build_regex, compile_regex_key, glob_fixed_part_matches, match_abbr_key,
  match_glob_key, match_glob_parts, match_regex_key, parse_digits, parse_repeat, phase_of,
  split_once_number_placeholder,
}
use runex.Expand.Render.{
  extract_cursor_placeholder, fill_in, for_each_rendered_piece, join_sides, pieces, render_number,
  render_repeated, render_with_cursor, resolve_capture, resolve_placeholder, substitute_captures,
}
use runex.Expand.Rules.{
  expand, finish_rule, fire, is_blank_expansion, is_exact_self_loop, is_pattern_self_loop, required,
  scan_phase, scan_phases, try_expand_rule,
}
use runex.Shell.{shell_from_str, shell_error_text, bash_quote_buffer, bash_buffer_char}
use runex.Sanitize.{is_unsafe_for_display}
use runex.Hook.{
  handle_action, insert_space_action, render_action, render_parts, shell_cursor, HookAction,
  replace, insert_space, line_of, cursor_of, is_command_position, hook, render, handle, printed,
  failed, hook_at, hook_sides, hook_word, expand_token, insert_space_at, splice,
  trim_trailing_spaces, ends_with_pipeline_operator, strip_trailing_sudo, is_command_start,
  is_known_token, token_start_of,
}
use runex.Hook.Position.{CommandPosition, is_command_position_iff}
use runex.Hook.Outcome.{Led}
use runex.Hook.Run.{hook-Outcome, hook-IsBoundary}
use runex.Hook.Message.{Message, render-Message}
use runex.Hook.Handle.{Answered, handle_answers}
use runex.Tests.{literal_regex, sample, no_command, quoted_json}

commit_expands :
    hook no_command literal_regex sample bash (codes "sudo gcm") 8
    ≡ some (replace (codes "sudo git commit -m ''") 20)
unfolding match_rule build_regex compile_regex_key glob_fixed_part_matches match_abbr_key
    match_glob_key match_glob_parts match_regex_key parse_digits parse_repeat phase_of
    split_once_number_placeholder extract_cursor_placeholder fill_in for_each_rendered_piece
    join_sides pieces render_number render_repeated render_with_cursor resolve_capture
    resolve_placeholder substitute_captures expand finish_rule fire is_blank_expansion
    is_exact_self_loop is_pattern_self_loop required scan_phase scan_phases try_expand_rule hook
    hook_at hook_sides hook_word expand_token insert_space_at splice is_command_position
    trim_trailing_spaces ends_with_pipeline_operator strip_trailing_sudo is_command_start
    is_known_token token_start_of cmds_for_shell string_for_shell is_whitespace repeat replace_text
    split_once_text strip_prefix strip_suffix trim trim_end trim_start split_at_byte rfind_char
    trim_end_char ends_with text_eq split_once_char
commit_expands = refl

unmet_condition_inserts :
    hook no_command literal_regex sample bash (codes "ls") 2 ≡ some (insert_space (codes "ls ") 3)
unfolding match_rule build_regex compile_regex_key glob_fixed_part_matches match_abbr_key
    match_glob_key match_glob_parts match_regex_key parse_digits parse_repeat phase_of
    split_once_number_placeholder extract_cursor_placeholder fill_in for_each_rendered_piece
    join_sides pieces render_number render_repeated render_with_cursor resolve_capture
    resolve_placeholder substitute_captures expand finish_rule fire is_blank_expansion
    is_exact_self_loop is_pattern_self_loop required scan_phase scan_phases try_expand_rule hook
    hook_at hook_sides hook_word expand_token insert_space_at splice is_command_position
    trim_trailing_spaces ends_with_pipeline_operator strip_trailing_sudo is_command_start
    is_known_token token_start_of cmds_for_shell string_for_shell is_whitespace repeat replace_text
    split_once_text strip_prefix strip_suffix trim trim_end trim_start split_at_byte rfind_char
    trim_end_char ends_with text_eq split_once_char
unmet_condition_inserts = refl

counted_expands :
    hook no_command literal_regex sample bash (codes "u3 x") 2
    ≡ some (replace (codes "cd ../../../  x") 13)
unfolding match_rule build_regex compile_regex_key glob_fixed_part_matches match_abbr_key
    match_glob_key match_glob_parts match_regex_key parse_digits parse_repeat phase_of
    split_once_number_placeholder extract_cursor_placeholder fill_in for_each_rendered_piece
    join_sides pieces render_number render_repeated render_with_cursor resolve_capture
    resolve_placeholder substitute_captures expand finish_rule fire is_blank_expansion
    is_exact_self_loop is_pattern_self_loop required scan_phase scan_phases try_expand_rule hook
    hook_at hook_sides hook_word expand_token insert_space_at splice is_command_position
    trim_trailing_spaces ends_with_pipeline_operator strip_trailing_sudo is_command_start
    is_known_token token_start_of cmds_for_shell string_for_shell is_whitespace repeat replace_text
    split_once_text strip_prefix strip_suffix trim trim_end trim_start split_at_byte rfind_char
    trim_end_char ends_with text_eq split_once_char
counted_expands = refl

second_sudo : is_command_position (codes "sudo sudo ") ≡ false
unfolding is_command_position trim_trailing_spaces trim_end_char ends_with_pipeline_operator
    ends_with text_eq strip_trailing_sudo split_at_byte rfind_char is_command_start
second_sudo = refl

pasted :
    handle literal_regex quoted_json (some (sample, no_command)) (codes "ZSH") (codes "gcm") 3 true
    ≡ some (printed (codes "LBUFFER='gcm '; RBUFFER=''"))
unfolding handle shell_from_str text_eq handle_action insert_space_action split_at_byte
    shell_cursor_to_byte render render_action render_parts shell_cursor bash_quote_buffer
    bash_buffer_char
pasted = refl

unknown_shell :
    handle literal_regex quoted_json none (codes "fish") (codes "gcm") 3 false
    ≡ some (failed (codes "unknown shell 'fish' (expected: bash, zsh, pwsh, clink, nu)"))
unfolding handle shell_from_str text_eq shell_error_text is_unsafe_for_display
unknown_shell = refl

handle_answers_example :
    Answered literal_regex quoted_json
      (some (sample, no_command))
      (codes "bash")
      (codes "é; gcm x")
      6
      false
handle_answers_example =
    handle_answers literal_regex quoted_json (some (sample, no_command)) (codes "bash")
      (codes "é; gcm x") 6 false

hook-Outcome_example :
    Led no_command literal_regex sample bash
      (codes "ls | gcm")
      (codes " -q")
      (hook no_command literal_regex sample bash (codes "ls | gcm -q") 8)
hook-Outcome_example =
    hook-Outcome no_command literal_regex sample bash (codes "ls | gcm") (codes " -q")

hook-IsBoundary_example :
    (action : HookAction) × (hook no_command literal_regex sample pwsh
        (codes "🎯 u2")
        (shell_cursor_to_byte pwsh (codes "🎯 u2") 1)
      ≡ some action)
    × IsBoundary (line_of action) (cursor_of action)
hook-IsBoundary_example = hook-IsBoundary no_command literal_regex sample pwsh (codes "🎯 u2") 1

is_command_position_iff_example :
    (is_command_position (codes "a && sudo  ") ≡ true) ↔ CommandPosition (codes "a && sudo  ")
is_command_position_iff_example = is_command_position_iff (codes "a && sudo  ")

render-Message_example :
    (out : Text) × (render quoted_json zsh (replace (codes "é x") 3) ≡ some out)
    × Message quoted_json (codes "é x") 3 zsh out
render-Message_example =
    render-Message quoted_json zsh (replace (codes "é x") 3) (codes "é ", codes "x", refl, refl)
