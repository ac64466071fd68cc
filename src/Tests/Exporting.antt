-- ===== src/Tests/Exporting.antt =====
-- The script of a shell whose trigger is Shift+Space.
use runex.Prelude.{none, some, ◌≡◌, ◌↔◌, refl, inr}
use runex.Text.{
  codes, text_eq, trim, trim_start, trim_end, is_whitespace, replace, count_text, strip_prefix,
}
use runex.Sanitize.{is_deceptive_unicode}
use runex.Model.{nu, Config, shift_space}
use runex.Validate.Checks.{check_abbr_key, check_expand_value, check_cmd_entry, check_number_unit}
use runex.Validate.{
  walk_values, walk_expand_issues, walk_entries, walk_list, walk_cmds_issues, walk_glob_key_issues,
  walk_regex_key_issues, walk_number_placeholder_issues, walk_rule, walk_rules,
  visit_validation_issues, first_validation_error, expand_values_with_paths, has_brace,
  number_count,
}
use runex.Validate.Load.{first_keybind_error, paste_error, parse_config_lenient, parse_config}
use runex.Export.{trigger_for, trigger_of, export_script}
use runex.Export.Panics.{export_script-panic_iff}
use runex.Tests.{literal_regex, sample, space_key, reads, bare_templates}

-- The trigger that the manual gives for pwsh and nu.
abbrev shifted : Config
shifted = record sample {
  keybind = record sample.keybind {
    trigger = record space_key { default = none; nu_key = some shift_space };
  };
}

shifted_loads : parse_config (reads shifted) literal_regex (codes "file") ≡ inr shifted
unfolding parse_config parse_config_lenient text_eq first_keybind_error paste_error
    first_validation_error visit_validation_issues walk_rules walk_rule check_abbr_key trim
    trim_start trim_end is_whitespace is_deceptive_unicode walk_expand_issues
    expand_values_with_paths walk_values check_expand_value walk_cmds_issues walk_list walk_entries
    check_cmd_entry walk_glob_key_issues walk_regex_key_issues walk_number_placeholder_issues
    has_brace number_count check_number_unit replace count_text strip_prefix
shifted_loads = refl

nu_trigger : trigger_for nu (some shifted) ≡ some shift_space
unfolding trigger_for trigger_of
nu_trigger = refl

export_script-panic_iff_example :
    (export_script bare_templates nu (codes "runex") (some shifted) ≡ none)
    ↔ (trigger_for nu (some shifted) ≡ some shift_space)
export_script-panic_iff_example =
    export_script-panic_iff bare_templates (codes "runex") (reads shifted) literal_regex
      (codes "file") nu shifted_loads

nu_panics : export_script bare_templates nu (codes "runex") (some shifted) ≡ none
nu_panics =
    (export_script-panic_iff bare_templates (codes "runex") (reads shifted) literal_regex
        (codes "file") nu shifted_loads).1
      nu_trigger
