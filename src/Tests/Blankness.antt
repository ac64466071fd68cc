-- ===== src/Tests/Blankness.antt =====
-- Rules that expand to nothing, on concrete ones.
use runex.Prelude.{[], none, some, ◌≡◌, refl, arith}
use runex.Text.{
  codes, split_once_char, split_once_text, strip_prefix, text_eq, trim, trim_start, trim_end,
  is_whitespace,
}
use runex.Model.{Abbr, all_shells, pwsh, string_for_shell}
use runex.Expand.Keys.{empty, phase_of}
use runex.Expand.Render.{
  render_number, extract_cursor_placeholder, resolve_capture, resolve_placeholder, pieces,
  for_each_rendered_piece, substitute_captures, fill_in, render_with_cursor,
}
use runex.Expand.Rules.{is_blank_expansion, fire}
use runex.Expand.Blank.{
  always, depends_on_token, blankness, pattern_blankness, blank_without_captures, empty_captures,
  renders_blank, starless_glob, blankness-fire,
}
use runex.Tests.{literal_regex, no_command, glob_rule}

-- Its capture is empty for every token.
abbrev blank_rule : Abbr
blank_rule = record glob_rule { key = codes "d?"; expand = all_shells (codes " {*}") }

blank_always : blankness literal_regex blank_rule (codes " {*}") ≡ always
unfolding blankness phase_of pattern_blankness empty_captures renders_blank blank_without_captures
    render_with_cursor render_number extract_cursor_placeholder split_once_text strip_prefix fill_in
    substitute_captures for_each_rendered_piece pieces split_once_char resolve_placeholder
    resolve_capture text_eq is_blank_expansion trim trim_start trim_end is_whitespace
blank_always = refl

blank_by_capture : blankness literal_regex glob_rule (codes "{*}") ≡ depends_on_token
unfolding blankness phase_of pattern_blankness empty_captures renders_blank blank_without_captures
    render_with_cursor render_number extract_cursor_placeholder split_once_text strip_prefix fill_in
    substitute_captures for_each_rendered_piece pieces split_once_char resolve_placeholder
    resolve_capture text_eq is_blank_expansion trim trim_start trim_end is_whitespace
blank_by_capture = refl

blankness-fire_example : fire no_command literal_regex (codes "dx") pwsh blank_rule ≡ none
unfolding string_for_shell
blankness-fire_example =
    blankness-fire no_command literal_regex (codes "dx") pwsh blank_rule (codes " {*}")
      (record empty { glob_capture = some [] }) (starless_glob refl (ground arith)) refl
      blank_always
