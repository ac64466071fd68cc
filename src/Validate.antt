-- ===== src/Validate.antt =====
-- runex/src/app/config.rs: the validation of a configuration, as visits to its issues in order.
pub mod Issues
pub mod Checks
pub mod Walks
pub mod Order
pub mod Quiet
pub mod Commands
pub mod Load
pub mod Keybinds
pub mod Numbers
pub mod Rules
pub mod Accepted
use runex.Prelude.{
  ℕ, zero, suc, ◌+◌, ◌-◌, List, [], ◌∷◌, ◌++◌, Option, none, some, Bool, true, false, ◌&&◌, ◌||◌,
  ◌==◌, ltb, not, if◌then◌else◌, length, any, is_some, ◌⊎◌, inl, inr, ◌>>=◌,
}
use runex.Text.{
  Text, codes, decimal, contains_char, count_char, count_text, replace, split_once_text,
}
use runex.Model.{
  ByShell, PerShellString, PerShellCmds, all_shells, by_shell, MatchKind, glob, regex, Abbr, Config,
  KeybindConfig, TriggerKey, space, tab, alt_space, shift_space, ctrl_v, PerShellKey,
}
use runex.Sanitize.{sanitize_for_display}
use runex.Expand.Keys.{number_placeholder, RegexLite, regex_key_group_count}
use runex.Validate.Issues.{
  ValidationReason, ValidationIssue, config, rule, ConfigError, to_config_error, too_many_rules,
  too_many_cmds, glob_key_has_unsupported_char, glob_key_has_multiple_stars,
  glob_key_without_wildcard, regex_key_invalid, regex_expand_group_out_of_range,
  key_has_unknown_placeholder, key_has_multiple_number_placeholders, key_has_number_without_unit,
  number_field_without_key_placeholder, parse, unsupported_version, ctrl_v_as_trigger,
  ctrl_v_as_self_insert, paste_intercept_unsupported_shell, paste_intercept_invalid_key,
}
use runex.Validate.Checks.{
  check_abbr_key, check_expand_value, check_cmd_entry, check_number_unit, max_cmd_list_len,
}

abbrev pub max_abbr_rules : ℕ
max_abbr_rules = 10000

-- `ControlFlow`, with the state of the visitor's closure; `?` on it; and a visitor.
pub data Flow (S : Type 0) : Type 0 where
  continue break : S → Flow S

abbrev pub and_then : {S : Type 0} → Flow S → (S → Flow S) → Flow S
and_then (continue s) next = next s
and_then (break s) next = break s

abbrev pub Visitor : Type 0 → Type 0
Visitor S = ValidationIssue → S → Flow S

-- The state at the end.
abbrev pub ended : {S : Type 0} → Flow S → S
ended (continue s) = s
ended (break s) = s

-- The values of the fields that are set, with their labels, in the order of `PER_SHELL_LABELS`.
abbrev pub with_label : {A : Type 0} → Text → Option A → List (Text × A) → List (Text × A)
with_label label none rest = rest
with_label label (some a) rest = (label, a) ∷ rest

unfoldable pub labelled : {A : Type 0} → ByShell A → List (Text × A)
labelled b = with_label (codes "default") b.default (
    with_label (codes "bash") b.bash_entry (
      with_label (codes "zsh") b.zsh_entry
        (with_label (codes "pwsh") b.pwsh_entry (with_label (codes "nu") b.nu_entry []))))

abbrev pub dotted : Text → List (Text × Text) → List (Text × Text)
dotted field [] = []
dotted field ((label, value) ∷ rest) = (field ++ b'.' ∷ label, value) ∷ dotted field rest

unfoldable pub expand_values_with_paths : PerShellString → List (Text × Text)
expand_values_with_paths (all_shells s) = (codes "expand", s) ∷ []
expand_values_with_paths (by_shell b) = dotted (codes "expand") (labelled b)

abbrev pub glob_key_forbidden_chars : List ℕ
glob_key_forbidden_chars = codes "[]{}()\\"

abbrev pub is_forbidden_in_glob : ℕ → Bool
is_forbidden_in_glob c = contains_char c glob_key_forbidden_chars

abbrev pub is_wildcard : ℕ → Bool
is_wildcard c = c == b'*' || c == b'?'

-- Whether a text has one of the placeholders `{n}`, for `count` numbers from `n` on.
abbrev pub has_group_from : Text → ℕ → ℕ → Bool
has_group_from template n zero = false
has_group_from template n (suc count) =
    is_some (split_once_text (b'{' ∷ (decimal n ++ b'}' ∷ [])) template)
    || has_group_from template (suc n) count

-- The numbers above the count up to 9.
unfoldable pub refers_to_missing_regex_group : Text → ℕ → Bool
refers_to_missing_regex_group template group_count =
    has_group_from template (group_count + 1) (9 - group_count)

abbrev pub is_regex : Abbr → Bool
is_regex abbr = elim abbr.match_kind [ some regex ↦ true | _ ↦ false ]

unfoldable pub has_brace : Abbr → Bool
has_brace abbr = not (is_regex abbr) && contains_char b'{' abbr.key

unfoldable pub number_count : Abbr → ℕ
number_count abbr = if has_brace abbr then count_text number_placeholder abbr.key else 0

module _ {S : Type 0} (f : Visitor S) (rule_index : ℕ) where
  -- A call of the visitor where there is a reason.
  abbrev pub report : Text → Option ValidationReason → S → Flow S
  report path none s = continue s
  report path (some reason) s = f (rule rule_index path reason) s

  abbrev pub report_if : Bool → Text → ValidationReason → S → Flow S
  report_if false path reason s = continue s
  report_if true path reason s = f (rule rule_index path reason) s

  unfoldable pub walk_values : List (Text × Text) → S → Flow S
  walk_values [] s = continue s
  walk_values ((path, value) ∷ rest) s =
      and_then (report path (check_expand_value value) s) (walk_values rest)

  unfoldable pub walk_expand_issues : PerShellString → S → Flow S
  walk_expand_issues expand = walk_values (expand_values_with_paths expand)

  -- The entries of a list from number `j` on.
  unfoldable pub walk_entries : Text → ℕ → List Text → S → Flow S
  walk_entries path j [] s = continue s
  walk_entries path j (cmd ∷ cmds) s =
      and_then (report (path ++ b'[' ∷ (decimal j ++ b']' ∷ [])) (check_cmd_entry cmd) s)
        (walk_entries path (suc j) cmds)

  -- A list that is too long is not walked.
  unfoldable pub walk_list : Text → List Text → S → Flow S
  walk_list path cmds s =
      if ltb max_cmd_list_len (length cmds)
      then f (rule rule_index path too_many_cmds) s
      else walk_entries path 1 cmds s

  unfoldable pub walk_lists : List (Text × List Text) → S → Flow S
  walk_lists [] s = continue s
  walk_lists ((label, cmds) ∷ rest) s =
      and_then (walk_list (codes "when_command_exists." ++ label) cmds s) (walk_lists rest)

  unfoldable pub walk_cmds_issues : PerShellCmds → S → Flow S
  walk_cmds_issues (all_shells v) s = walk_list (codes "when_command_exists") v s
  walk_cmds_issues (by_shell b) s = walk_lists (labelled b) s

  abbrev pub walk_condition : Option PerShellCmds → S → Flow S
  walk_condition none s = continue s
  walk_condition (some cmds) s = walk_cmds_issues cmds s

  unfoldable pub walk_glob_key_issues : Abbr → S → Flow S
  walk_glob_key_issues abbr s = elim abbr.match_kind [
    | none ↦ continue s
    | some regex ↦ continue s
    | some glob ↦
        and_then
          (report_if (any is_forbidden_in_glob abbr.key) (codes "key") glob_key_has_unsupported_char
            s)
          (λ s.
            and_then
              (report_if (ltb 1 (count_char b'*' abbr.key)) (codes "key")
                glob_key_has_multiple_stars s)
              (λ s.
                report_if (not (any is_wildcard abbr.key)) (codes "key") glob_key_without_wildcard
                  s))
  ]

  unfoldable pub walk_groups : ℕ → List (Text × Text) → S → Flow S
  walk_groups group_count [] s = continue s
  walk_groups group_count ((path, template) ∷ rest) s =
      and_then
        (report_if (refers_to_missing_regex_group template group_count) path
          regex_expand_group_out_of_range s)
        (walk_groups group_count rest)

  -- An expansion is not checked against a key that does not compile.
  unfoldable pub walk_regex_key_issues : RegexLite → Abbr → S → Flow S
  walk_regex_key_issues lib abbr s = elim abbr.match_kind [
    | none ↦ continue s
    | some glob ↦ continue s
    | some regex ↦ elim (regex_key_group_count lib abbr.key) [
      | inl error ↦
          f (rule rule_index (codes "key") (regex_key_invalid (sanitize_for_display error))) s
      | inr group_count ↦ walk_groups group_count (expand_values_with_paths abbr.expand) s
    ]
  ]

  unfoldable pub walk_number_placeholder_issues : Abbr → S → Flow S
  walk_number_placeholder_issues abbr s =
      and_then
        (report_if (has_brace abbr && contains_char b'{' (replace number_placeholder [] abbr.key))
          (codes "key") key_has_unknown_placeholder s)
        (λ s.
          and_then
            (report_if (ltb 1 (number_count abbr)) (codes "key")
              key_has_multiple_number_placeholders s)
            (λ s.
              and_then
                (report_if (ltb 0 (number_count abbr) && not (is_some abbr.number)) (codes "key")
                  key_has_number_without_unit s)
                (λ s.
                  and_then
                    (report_if (is_some abbr.number && number_count abbr == 0) (codes "number")
                      number_field_without_key_placeholder s)
                    (λ s. report (codes "number") (abbr.number >>= check_number_unit) s))))

  -- The visits to one rule.
  unfoldable pub walk_rule : RegexLite → Abbr → S → Flow S
  walk_rule lib abbr s = and_then (report (codes "key") (check_abbr_key abbr.key) s) (λ s.
      and_then (walk_expand_issues abbr.expand s) (λ s.
        and_then (walk_condition abbr.when_command_exists s) (λ s.
          and_then (walk_glob_key_issues abbr s) (λ s.
            and_then (walk_regex_key_issues lib abbr s) (walk_number_placeholder_issues abbr)))))

module _ {S : Type 0} (f : Visitor S) (lib : RegexLite) where
  -- The rules from number `i` on.
  unfoldable pub walk_rules : ℕ → List Abbr → S → Flow S
  walk_rules i [] s = continue s
  walk_rules i (abbr ∷ rules) s = and_then (walk_rule f i lib abbr s) (walk_rules (suc i) rules)

  unfoldable pub visit_validation_issues : Config → S → S
  visit_validation_issues conf s =
      if ltb max_abbr_rules (length conf.abbr)
      then ended (f (config too_many_rules) s)
      else ended (walk_rules 1 conf.abbr s)

abbrev pub keep_going : Visitor (List ValidationIssue)
keep_going issue issues = continue (issues ++ issue ∷ [])

unfoldable pub collect_validation_issues : RegexLite → Config → List ValidationIssue
collect_validation_issues lib conf = visit_validation_issues keep_going lib conf []

abbrev pub stop_at_first : Visitor (Option ConfigError)
stop_at_first issue first = break (some (to_config_error issue))

unfoldable pub first_validation_error : RegexLite → Config → Option ConfigError
first_validation_error lib conf = visit_validation_issues stop_at_first lib conf none
