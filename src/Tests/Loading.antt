-- ===== src/Tests/Loading.antt =====
-- Loading a configuration, on concrete ones.
use runex.Prelude.{[], ◌∷◌, some, true, ◌≡◌, ◌↔◌, refl, inr, is_some}
use runex.Text.{
  codes, text_eq, trim, trim_start, trim_end, is_whitespace, replace, count_text, strip_prefix,
}
use runex.Sanitize.{is_deceptive_unicode}
use runex.Model.{Config, glob}
use runex.Expand.Keys.{match_glob_key}
use runex.Expand.Pattern.{Glob}
use runex.Validate.Issues.{
  rule, key_whitespace_only, expand_empty, glob_key_without_wildcard,
  number_field_without_key_placeholder,
}
use runex.Validate.Checks.{check_abbr_key, check_expand_value, check_cmd_entry, check_number_unit}
use runex.Validate.{
  walk_values, walk_expand_issues, walk_entries, walk_list, walk_cmds_issues, walk_glob_key_issues,
  walk_regex_key_issues, walk_number_placeholder_issues, walk_rule, walk_rules,
  visit_validation_issues, collect_validation_issues, first_validation_error,
  expand_values_with_paths, has_brace, number_count,
}
use runex.Validate.Load.{first_keybind_error, paste_error, parse_config_lenient, parse_config}
use runex.Validate.Order.{loaded_of, parse_config-collect}
use runex.Validate.Accepted.{IsAcceptedConfig, parse_config_sound, parse_config-match_glob_key}
use runex.Tests.{literal_regex, plain_rule, sample, glob_rule, ls_rule, commit_rule, up_rule, reads}

abbrev faulty : Config
faulty = record sample {
  abbr =
      commit_rule
      ∷ record (plain_rule (codes "  ") []) { number = some (codes "x"); match_kind = some glob }
      ∷ [];
}

faulty_issues :
    collect_validation_issues literal_regex faulty
    ≡ rule 2 (codes "key") key_whitespace_only
      ∷ rule 2 (codes "expand") expand_empty
      ∷ rule 2 (codes "key") glob_key_without_wildcard
      ∷ rule 2 (codes "number") number_field_without_key_placeholder
      ∷ []
unfolding collect_validation_issues visit_validation_issues walk_rules walk_rule check_abbr_key trim
    trim_start trim_end is_whitespace is_deceptive_unicode walk_expand_issues
    expand_values_with_paths walk_values check_expand_value walk_glob_key_issues
    walk_regex_key_issues walk_number_placeholder_issues has_brace number_count check_number_unit
faulty_issues = refl

pub sample_loads : parse_config (reads sample) literal_regex (codes "file") ≡ inr sample
unfolding parse_config parse_config_lenient text_eq first_keybind_error paste_error
    first_validation_error visit_validation_issues walk_rules walk_rule check_abbr_key trim
    trim_start trim_end is_whitespace is_deceptive_unicode walk_expand_issues
    expand_values_with_paths walk_values check_expand_value walk_cmds_issues walk_list walk_entries
    check_cmd_entry walk_glob_key_issues walk_regex_key_issues walk_number_placeholder_issues
    has_brace number_count check_number_unit replace count_text strip_prefix
sample_loads = refl

parse_config-collect_example :
    parse_config (reads faulty) literal_regex (codes "file")
    ≡ loaded_of literal_regex (parse_config_lenient (reads faulty) literal_regex (codes "file"))
parse_config-collect_example = parse_config-collect (reads faulty) literal_regex (codes "file")

parse_config_sound_example : (reads sample (codes "file") ≡ inr sample) × IsAcceptedConfig sample
parse_config_sound_example =
    parse_config_sound (reads sample) literal_regex (codes "file") sample_loads

parse_config-match_glob_key_example :
    (is_some (match_glob_key (codes "d*") (codes "dps")) ≡ true) ↔ Glob (codes "d*") (codes "dps")
parse_config-match_glob_key_example =
    parse_config-match_glob_key (reads sample) literal_regex (codes "file") [] glob_rule
      (ls_rule ∷ commit_rule ∷ up_rule ∷ []) sample_loads refl refl (codes "dps")
