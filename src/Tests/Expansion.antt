-- ===== src/Tests/Expansion.antt =====
-- Matching, filling in and the scan, on concrete rules.
use runex.Prelude.{
  ℕ, ◌≤◌, ◌++◌, Option, none, some, ◌≡◌, refl, ◌↔◌, ◌⊎◌, arith, leb, if◌then◌else◌, All,
}
use runex.Text.{
  Text, codes, byte_len, text_eq, strip_prefix, split_once_char, split_once_text, split_at_byte,
  trim, trim_start, trim_end, is_whitespace,
}
use runex.Model.{bash, zsh, nu, ExpandResult, expanded, pass_through, string_for_shell}
use runex.Expand.Keys.{
  empty, max_rendered_expand_bytes, phase_of, match_abbr_key, match_glob_key, match_rule,
}
use runex.Expand.Render.{
  render_number, extract_cursor_placeholder, pieces, for_each_rendered_piece, substitute_captures,
  join_sides, fill_in, render_with_cursor,
}
use runex.Expand.Rules.{
  is_blank_expansion, is_exact_self_loop, is_pattern_self_loop, required, finish_rule,
  try_expand_rule, fire, expand, scan_phase, scan_phases,
}
use runex.Expand.Which.{which_abbr}
use runex.Expand.Rendering.{Rendered, render_with_cursor_sound}
use runex.Expand.Listing.{IsListed, expand-list}
use runex.Expand.Captures.{Renders, substitute_captures_lem}
use runex.Expand.Agreement.{Agrees, which_abbr-expand}
use runex.Expand.Priority.{IsChosen, expand_chooses}
use runex.Expand.Firing.{Fires, fire_sound}
use runex.Expand.Glob.{match_glob_key_capture}
use runex.Expand.Pattern.{Glob}
use runex.Expand.Number.{IsCount, counted, number_key, match_abbr_key-number_iff}
use runex.Tests.{literal_regex, sample, no_command, commit_rule}

abbrev commit_text : Text
commit_text = codes "git commit -m ''"

commit_fires :
    fire no_command literal_regex (codes "gcm") bash commit_rule
    ≡ some (expanded commit_text (some 15))
unfolding fire match_rule match_abbr_key text_eq try_expand_rule string_for_shell is_exact_self_loop
    phase_of required render_with_cursor render_number extract_cursor_placeholder split_once_text
    strip_prefix fill_in split_at_byte substitute_captures for_each_rendered_piece pieces
    split_once_char join_sides finish_rule is_blank_expansion trim trim_start trim_end is_whitespace
    is_pattern_self_loop
commit_fires = refl

commit_rendered :
    render_with_cursor commit_rule (codes "git commit -m '{}'") empty ≡ some (commit_text, some 15)
unfolding render_with_cursor render_number extract_cursor_placeholder split_once_text strip_prefix
    fill_in split_at_byte substitute_captures for_each_rendered_piece pieces split_once_char
    join_sides
commit_rendered = refl

expand_chooses_example :
    ((res : ExpandResult) × (expand no_command literal_regex (codes "dps") zsh sample ≡ res)
      × IsChosen no_command literal_regex (codes "dps") zsh sample.abbr res)
    ⊎ ((expand no_command literal_regex (codes "dps") zsh sample ≡ pass_through (codes "dps"))
        × All (λ r. fire no_command literal_regex (codes "dps") zsh r ≡ none) sample.abbr)
expand_chooses_example = expand_chooses no_command literal_regex (codes "dps") zsh sample

commit_expands :
    expand no_command literal_regex (codes "gcm") bash sample ≡ expanded commit_text (some 15)
unfolding expand scan_phases scan_phase fire match_rule match_abbr_key text_eq try_expand_rule
    string_for_shell is_exact_self_loop phase_of required render_with_cursor render_number
    extract_cursor_placeholder split_once_text strip_prefix fill_in split_at_byte
    substitute_captures for_each_rendered_piece pieces split_once_char join_sides finish_rule
    is_blank_expansion trim trim_start trim_end is_whitespace is_pattern_self_loop
commit_expands = refl

expand-list_example :
    IsListed no_command literal_regex (codes "gcm") bash sample commit_text (some 15)
expand-list_example = expand-list no_command literal_regex (codes "gcm") bash sample commit_expands

which_abbr-expand_example :
    Agrees
      (codes "ls")
      (expand no_command literal_regex (codes "ls") nu sample)
      (which_abbr no_command literal_regex (codes "ls") nu sample)
which_abbr-expand_example = which_abbr-expand no_command literal_regex (codes "ls") nu sample

fire_sound_example :
    (text : Text) × (cursor : Option ℕ) × (expanded commit_text (some 15) ≡ expanded text cursor)
    × Fires no_command literal_regex (codes "gcm") bash commit_rule text cursor
fire_sound_example = fire_sound no_command literal_regex (codes "gcm") bash commit_rule commit_fires

render_with_cursor_sound_example :
    Rendered commit_rule (codes "git commit -m '{}'") empty commit_text (some 15)
    × (byte_len commit_text ≤ max_rendered_expand_bytes)
render_with_cursor_sound_example =
    render_with_cursor_sound commit_rule (codes "git commit -m '{}'") empty commit_rendered

substitute_captures_lem_example :
    (out : Text) × Renders
      (record empty { glob_capture = some (codes "ps") })
      (codes "docker {*} {x}")
      out
    × (substitute_captures
          (codes "docker {*} {x}")
          (record empty { glob_capture = some (codes "ps") })
        ≡ (if leb (byte_len out) max_rendered_expand_bytes then some out else none))
substitute_captures_lem_example =
    substitute_captures_lem (codes "docker {*} {x}")
      (record empty { glob_capture = some (codes "ps") })

match_glob_key_capture_example :
    (match_glob_key (codes "d?*x") (codes "de-fox") ≡ some (codes "-fo")) ↔ (
      (a : Text) × (t : Text) × (codes "de-fox" ≡ a ++ (codes "-fo" ++ t))
      × Glob (codes "d?") a
      × Glob (codes "x") t)
match_glob_key_capture_example =
    match_glob_key_capture (codes "d?") (codes "x") (ground arith) (ground arith) (codes "de-fox")
      (codes "-fo")

match_abbr_key-number_iff_example :
    (match_abbr_key (number_key (codes "u") (codes "x")) (codes "u12x") ≡ some (counted 12)) ↔ (
      (digits : Text) × (n : ℕ) × (codes "u12x" ≡ codes "u" ++ (digits ++ codes "x"))
      × (counted 12 ≡ counted n)
      × IsCount digits n)
match_abbr_key-number_iff_example =
    match_abbr_key-number_iff (codes "u") (codes "x") (codes "u12x") (counted 12) (ground arith)
      (ground arith)
