-- ===== src/Validate/Rules.antt =====
-- What holds of a rule that is accepted: the walk over a rule in runex/src/app/config.rs.
use runex.Prelude.{
  ℕ, suc, ◌≤◌, List, [], ◌∷◌, Option, none, some, true, false, ltb, not, ◌≡◌, refl, subst, arith,
  any, All,
}
use runex.Text.{Text, codes, count_char}
use runex.Model.{
  PerShellString, all_shells, by_shell, string_all_values, present, ByShell, Abbr, MatchKind, glob,
  regex,
}
use runex.Expand.Keys.{RegexLite}
use runex.Validate.Issues.{
  ConfigError, glob_key_has_multiple_stars, glob_key_has_unsupported_char,
  glob_key_without_wildcard,
}
use runex.Validate.Checks.{check_abbr_key, check_expand_value, max_key_bytes, max_expand_bytes}
use runex.Validate.{
  Flow, continue, and_then, stop_at_first, report_if, walk_values, walk_expand_issues,
  walk_glob_key_issues, walk_rule, walk_rules, is_wildcard, is_forbidden_in_glob,
  expand_values_with_paths, labelled, dotted, with_label,
}
use runex.Validate.Walks.{
  walked_report, walked_report_if, walked_values, walked_condition, walked_glob, walked_regex,
  walked_rule,
}
use runex.Validate.Quiet.{
  IsClean, key-IsClean, value-IsClean, quiet_then, quiet_report, quiet_report_if,
}
use runex.Validate.Commands.{CommandsOnly, condition_of}
use runex.Validate.Numbers.{NumberOnly, number_of}

-- At most one star, some wildcard, and none of the characters that `case` patterns give a meaning.
pub record IsGlobKey (key : Text) : Type 0 where
  pub one_star : count_char b'*' key ≤ 1
  pub wild : any is_wildcard key ≡ true
  pub plain : any is_forbidden_in_glob key ≡ false

abbrev pub GlobOnly : Option MatchKind → Text → Type 0
GlobOnly (some glob) key = IsGlobKey key
GlobOnly (some regex) key = Unit
GlobOnly none key = Unit

pub record IsAccepted (abbr : Abbr) : Type 0 where
  pub key_clean : IsClean max_key_bytes abbr.key
  pub values_clean : All (IsClean max_expand_bytes) (string_all_values abbr.expand)
  pub commands : CommandsOnly abbr.when_command_exists
  pub glob_key : GlobOnly abbr.match_kind abbr.key
  pub number_key : NumberOnly abbr

abbrev seconds : List (Text × Text) → List Text
seconds [] = []
seconds ((path, value) ∷ xs) = value ∷ seconds xs

values_of :
    (xs : List (Text × Text)) (i : ℕ)
    → walk_values stop_at_first i xs none ≡ continue none
    → All (IsClean max_expand_bytes) (seconds xs)
unfolding walk_values
values_of [] i h = tt
values_of ((path, value) ∷ xs) i h =
    let (now, later) =
      quiet_then (walked_report i path (check_expand_value value)) (walk_values stop_at_first i xs)
        h in
    (value-IsClean value (quiet_report i path (check_expand_value value) now), values_of xs i later)

seconds-dotted_label :
    (field : Text) (b : ByShell Text)
    → seconds (dotted field (labelled b)) ≡ string_all_values (by_shell b)
unfolding labelled string_all_values
seconds-dotted_label field b = from b.default b.bash_entry b.zsh_entry b.pwsh_entry b.nu_entry
  where
    from :
        (d x z p n : Option Text)
        → seconds (
            dotted field (
              with_label (codes "default") d (
                with_label (codes "bash") x (
                  with_label
                    (codes "zsh")
                    z
                    (with_label (codes "pwsh") p (with_label (codes "nu") n []))))))
          ≡ present (d ∷ x ∷ z ∷ p ∷ n ∷ [])
    from d x z p n = ground arith

seconds_paths :
    (expand : PerShellString) → seconds (expand_values_with_paths expand) ≡ string_all_values expand
unfolding expand_values_with_paths string_all_values
seconds_paths (all_shells s) = refl
seconds_paths (by_shell b) = seconds-dotted_label (codes "expand") b

glob_of :
    (abbr : Abbr) (i : ℕ)
    → walk_glob_key_issues stop_at_first i abbr none ≡ continue none
    → GlobOnly abbr.match_kind abbr.key
unfolding walk_glob_key_issues
glob_of abbr i h = from abbr.match_kind h
  where
    star_report : Option ConfigError → Flow (Option ConfigError)
    star_report s =
        report_if stop_at_first i (ltb 1 (count_char b'*' abbr.key)) (codes "key")
          glob_key_has_multiple_stars s

    wild_report : Option ConfigError → Flow (Option ConfigError)
    wild_report s =
        report_if stop_at_first i (not (any is_wildcard abbr.key)) (codes "key")
          glob_key_without_wildcard s

    from :
        (kind : Option MatchKind)
        → (elim kind [
          | none ↦ continue none
          | some regex ↦ continue none
          | some glob ↦
              and_then
                (report_if stop_at_first i
                  (any is_forbidden_in_glob abbr.key)
                  (codes "key")
                  glob_key_has_unsupported_char
                  none)
                (λ s. and_then (star_report s) wild_report)
        ])
          ≡ continue none
        → GlobOnly kind abbr.key
    from none h = tt
    from (some regex) h = tt
    from (some glob) h =
        let (plain, h1) =
          quiet_then
            (walked_report_if i (any is_forbidden_in_glob abbr.key) (codes "key")
              glob_key_has_unsupported_char)
            (λ s. and_then (star_report s) wild_report) h in
        let (stars, h2) =
          quiet_then
            (walked_report_if i (ltb 1 (count_char b'*' abbr.key)) (codes "key")
              glob_key_has_multiple_stars)
            wild_report h1 in
        let few =
          quiet_report_if i (ltb 1 (count_char b'*' abbr.key)) (codes "key")
            glob_key_has_multiple_stars stars in
        let some_wild =
          quiet_report_if i (not (any is_wildcard abbr.key)) (codes "key") glob_key_without_wildcard
            h2 in
        record {
          one_star = ground arith;
          wild = ground arith;
          plain =
              quiet_report_if i (any is_forbidden_in_glob abbr.key) (codes "key")
                glob_key_has_unsupported_char plain;
        }

rule_of :
    (lib : RegexLite) (abbr : Abbr) (i : ℕ)
    → walk_rule stop_at_first i lib abbr none ≡ continue none
    → IsAccepted abbr
unfolding walk_rule walk_expand_issues
rule_of lib abbr i h =
    let (k, h1) = quiet_then (walked_report i (codes "key") (check_abbr_key abbr.key)) _ h in
    let (v, h2) = quiet_then (walked_values i (expand_values_with_paths abbr.expand)) _ h1 in
    let (c, h3) = quiet_then (walked_condition i abbr.when_command_exists) _ h2 in
    let (g, h4) = quiet_then (walked_glob i abbr) _ h3 in
    let (_, h5) = quiet_then (walked_regex lib i abbr) _ h4 in
    record {
      key_clean = key-IsClean abbr.key (quiet_report i (codes "key") (check_abbr_key abbr.key) k);
      values_clean =
          subst (All (IsClean max_expand_bytes)) (seconds_paths abbr.expand)
            (values_of (expand_values_with_paths abbr.expand) i v);
      commands = condition_of i abbr.when_command_exists c;
      glob_key = glob_of abbr i g;
      number_key = number_of abbr i h5;
    }

pub rules_of :
    (lib : RegexLite) (i : ℕ) (rules : List Abbr)
    → walk_rules stop_at_first lib i rules none ≡ continue none
    → All IsAccepted rules
unfolding walk_rules
rules_of lib i [] h = tt
rules_of lib i (abbr ∷ rules) h =
    let (now, later) =
      quiet_then (walked_rule lib i abbr) (walk_rules stop_at_first lib (suc i) rules) h in
    (rule_of lib abbr i now, rules_of lib (suc i) rules later)
