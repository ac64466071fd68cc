-- ===== src/Doctor/Calm.antt =====
-- No check of runex/src/app/doctor.rs but the first two is an error, so no other makes `runex doctor` fail.
use runex.Prelude.{
  ℕ, ◌+◌, List, [], ◌∷◌, ◌++◌, Option, none, some, Bool, true, false, ◌&&◌, not, ◌≡◌, refl, ap,
  if◌then◌else◌, All, is_some, Option-cases, Bool-cases, inl, inr, ◌⊎◌,
}
use runex.Text.{Text, codes}
use runex.Model.{Abbr, Config}
use runex.Expand.Keys.{RegexLite}
use runex.Validate.Issues.{ValidationIssue, config, rule}
use runex.Validate.Load.{parse_config_lenient}
use runex.Precache.{contains}
use runex.ShellAlias.{
  Check, check_pwsh_alias_with, check_bash_alias_with, push_some,
  collect_shell_alias_conflicts_with,
}
use runex.Doctor.{
  is_error, is_healthy, rejected_check, rejected_checks, summed_up, issues_in, check_rejected_rules,
}
use runex.Doctor.Rules.{
  unreachable_check, at_rule, unreachable_from, check_unreachable_duplicates, first_with,
}
use runex.Doctor.Unknown.{
  Toml, lookup, unknown_check, unknown_keys, known_keybind_keys, unknown_keybind, unknown_abbr,
  unknown_in, check_unknown_fields, check_precache_deprecation, in_parsed, precache_section,
}
use runex.Doctor.Healthy.{IsCalm, join, one_selected, healthy_of}
use runex.Doctor.Report.{Machine, alias_conflicts, rejected_rules, strict_source, strict_config}

-- Checks without an error add nothing to be unhealthy of.
pub healthy-append : (xs ys : List Check) → All IsCalm ys → is_healthy (xs ++ ys) ≡ is_healthy xs
unfolding is_healthy
healthy-append [] ys h = healthy_of ys h
healthy-append (x ∷ xs) ys h = ap (λ b. not (is_error x.status) && b) (healthy-append xs ys h)

unknown_keys-IsCalm :
    (path before after : Text) (known keys : List Text)
    → All IsCalm (unknown_keys path before after known keys)
unfolding unknown_keys unknown_check
unknown_keys-IsCalm path before after known [] = tt
unknown_keys-IsCalm path before after known (key ∷ keys) = elim (Bool-cases (contains known key)) [
  | inl known_key ↦ rw known_key (unknown_keys-IsCalm path before after known keys)
  | inr unknown_key ↦ rw unknown_key (refl, unknown_keys-IsCalm path before after known keys)
]

module _ (toml : Toml) where
  keybind-IsCalm :
      (kb : List (Text × toml.Value)) (keys : List Text) → All IsCalm (unknown_keybind toml kb keys)
  unfolding unknown_keybind unknown_check
  keybind-IsCalm kb [] = tt
  keybind-IsCalm kb (key ∷ rest) = elim (Bool-cases (contains known_keybind_keys key)) [
    | inl known ↦ rw known (join _ _ (unknown_keys-IsCalm _ _ _ _ _) (keybind-IsCalm kb rest))
    | inr unknown ↦ rw unknown (refl, keybind-IsCalm kb rest)
  ]

  abbr-IsCalm : (i : ℕ) (entries : List toml.Value) → All IsCalm (unknown_abbr toml i entries)
  unfolding unknown_abbr
  abbr-IsCalm i [] = tt
  abbr-IsCalm i (entry ∷ entries) =
      join _ _ (unknown_keys-IsCalm _ _ _ _ _) (abbr-IsCalm (i + 1) entries)

  parsed-IsCalm :
      (o : Option (List (Text × toml.Value))) (f : List (Text × toml.Value) → List Check)
      → ((t : List (Text × toml.Value)) → All IsCalm (f t))
      → All IsCalm (in_parsed toml o f)
  parsed-IsCalm none f h = tt
  parsed-IsCalm (some t) f h = h t

  unknown-IsCalm : (t : List (Text × toml.Value)) → All IsCalm (unknown_in toml t)
  unfolding unknown_in
  unknown-IsCalm t =
      join _ _ (unknown_keys-IsCalm _ _ _ _ _)
        (join _ _ (keybind-IsCalm _ _) (join _ _ (unknown_keys-IsCalm _ _ _ _ _) (abbr-IsCalm 0 _)))

  fields-IsCalm : (source : Text) → All IsCalm (check_unknown_fields toml source)
  unfolding check_unknown_fields
  fields-IsCalm source = parsed-IsCalm (toml.parse source) (unknown_in toml) unknown-IsCalm

  section-IsCalm : (t : List (Text × toml.Value)) → All IsCalm (precache_section toml t)
  unfolding precache_section
  section-IsCalm t = one_selected (is_some (lookup toml (codes "precache") t)) _ [] refl tt

  deprecation-IsCalm : (source : Text) → All IsCalm (check_precache_deprecation toml source)
  unfolding check_precache_deprecation
  deprecation-IsCalm source =
      parsed-IsCalm (toml.parse source) (precache_section toml) section-IsCalm

  pub strict_source-IsCalm : (source : Option Text) → All IsCalm (strict_source toml source)
  strict_source-IsCalm none = tt
  strict_source-IsCalm (some source) =
      join (check_unknown_fields toml source) _ (fields-IsCalm source) (deprecation-IsCalm source)

rejected_checks-IsCalm : (issues : List ValidationIssue) → All IsCalm (rejected_checks issues)
unfolding rejected_check
rejected_checks-IsCalm [] = tt
rejected_checks-IsCalm (config reason ∷ issues) = (refl, rejected_checks-IsCalm issues)
rejected_checks-IsCalm (rule i path reason ∷ issues) = (refl, rejected_checks-IsCalm issues)

at_rule-IsCalm :
    (o : Option ℕ) (recorded : Bool) (i : ℕ) (abbr : Abbr) (rest recording : List Check)
    → All IsCalm rest
    → All IsCalm recording
    → All IsCalm (at_rule o recorded i abbr rest recording)
unfolding unreachable_check
at_rule-IsCalm (some first_rule) recorded i abbr rest recording h k = (refl, h)
at_rule-IsCalm none true i abbr rest recording h k = k
at_rule-IsCalm none false i abbr rest recording h k = h

unreachable-IsCalm :
    (lib : RegexLite) (earlier : List (Abbr × ℕ)) (i : ℕ) (abbrs : List Abbr)
    → All IsCalm (unreachable_from lib earlier i abbrs)
unfolding unreachable_from
unreachable-IsCalm lib earlier i [] = tt
unreachable-IsCalm lib earlier i (abbr ∷ abbrs) =
    at_rule-IsCalm (first_with abbr earlier) _ i abbr _ _
      (unreachable-IsCalm lib earlier (i + 1) abbrs)
      (unreachable-IsCalm lib ((abbr, i) ∷ earlier) (i + 1) abbrs)

pub strict_config-IsCalm : (lib : RegexLite) (c : Option Config) → All IsCalm (strict_config lib c)
unfolding check_unreachable_duplicates
strict_config-IsCalm lib none = tt
strict_config-IsCalm lib (some c) = unreachable-IsCalm lib [] 0 c.abbr

pushed :
    (o : Option Check) (checks : List Check)
    → All IsCalm (push_some o [])
    → All IsCalm checks
    → All IsCalm (push_some o checks)
pushed none checks h k = k
pushed (some check) checks (h, _) k = (h, k)

module _ (pwsh_lookup bash_lookup : Text → Option Text) where
  pwsh-IsCalm : (key : Text) → All IsCalm (push_some (check_pwsh_alias_with pwsh_lookup key) [])
  unfolding check_pwsh_alias_with
  pwsh-IsCalm key = elim (Option-cases (pwsh_lookup key)) [
    | inl e ↦ rw e tt
    | inr (d, e) ↦ rw e (refl, tt)
  ]

  bash-IsCalm : (key : Text) → All IsCalm (push_some (check_bash_alias_with bash_lookup key) [])
  unfolding check_bash_alias_with
  bash-IsCalm key = elim (Option-cases (bash_lookup key)) [
    | inl e ↦ rw e tt
    | inr (d, e) ↦ rw e (refl, tt)
  ]

  conflicts-IsCalm :
      (abbrs : List Abbr)
      → All IsCalm (collect_shell_alias_conflicts_with pwsh_lookup bash_lookup abbrs)
  unfolding collect_shell_alias_conflicts_with
  conflicts-IsCalm [] = tt
  conflicts-IsCalm (abbr ∷ abbrs) =
      pushed (check_pwsh_alias_with pwsh_lookup abbr.key) _ (pwsh-IsCalm abbr.key) (
        pushed (check_bash_alias_with bash_lookup abbr.key) _ (bash-IsCalm abbr.key)
          (conflicts-IsCalm abbrs))

pub alias-IsCalm : (machine : Machine) (c : Option Config) → All IsCalm (alias_conflicts machine c)
alias-IsCalm machine none = tt
alias-IsCalm machine (some c) = conflicts-IsCalm machine.pwsh_alias machine.bash_alias c.abbr

summed_up-IsCalm : (issues : List ValidationIssue) → All IsCalm (summed_up issues)
summed_up-IsCalm [] = tt
summed_up-IsCalm (issue ∷ issues) = (refl, rejected_checks-IsCalm (issue ∷ issues))

pub rejected-IsCalm :
    (from_str : Text → Text ⊎ Config) (lib : RegexLite) (source : Option Text)
    → All IsCalm (rejected_rules from_str lib source)
unfolding check_rejected_rules
rejected-IsCalm from_str lib none = tt
rejected-IsCalm from_str lib (some source) =
    summed_up-IsCalm (issues_in lib (parse_config_lenient from_str lib source))

pub either-IsCalm :
    (b : Bool) (xs ys : List Check)
    → All IsCalm xs
    → All IsCalm ys
    → All IsCalm (if b then xs else ys)
either-IsCalm true xs ys h k = h
either-IsCalm false xs ys h k = k
