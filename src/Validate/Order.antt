-- ===== src/Validate/Order.antt =====
-- The two users of the validation of runex/src/app/config.rs: `doctor`, which collects every issue,
-- and a load, which stops at the first.
use mathlib.Core.List.{head?}
use mathlib.Core.Option as O
use runex.Prelude.{
  List, [], ◌∷◌, ◌++◌, Option, none, some, Option-cases, ◌⊎◌, ltb, ◌≡◌, refl, sym, ap, ◌∙◌, length,
  Bool-cases, inl, inr, append_assoc, append-nil,
}
use runex.Model.{Config}
use runex.Expand.Keys.{RegexLite}
use runex.Text.{Text}
use runex.Validate.Load.{first_keybind_error, parse_config_lenient, parse_config}
use runex.Validate.Issues.{ConfigError, ValidationIssue, config, to_config_error, too_many_rules}
use runex.Validate.{
  ended, Visitor, visit_validation_issues, keep_going, collect_validation_issues, stop_at_first,
  first_validation_error, max_abbr_rules,
}
use runex.Validate.Walks.{feed, walked_one, walked_rules}

-- All the visits, as a list.
visited_issues :
    (lib : RegexLite) (conf : Config)
    → (xs : List ValidationIssue) × ((S : Type 0) (f : Visitor S) (s : S)
        → visit_validation_issues f lib conf s ≡ ended (feed f xs s))
unfolding visit_validation_issues
visited_issues lib conf = elim (Bool-cases (ltb max_abbr_rules (length conf.abbr))) [
  | inl many ↦
      let w = walked_one (config too_many_rules) in
      (w.visited, λ S f s. rw many (ap ended (w.is_fed S f s)))
  | inr few ↦
      let w = walked_rules lib 1 conf.abbr in
      (w.visited, λ S f s. rw few (ap ended (w.is_fed S f s)))
]

collected : (xs seen : List ValidationIssue) → ended (feed keep_going xs seen) ≡ seen ++ xs
collected [] seen = sym (append-nil seen)
collected (x ∷ xs) seen = collected xs (seen ++ x ∷ []) ∙ append_assoc seen (x ∷ []) xs

first_fed :
    (xs : List ValidationIssue)
    → ended (feed stop_at_first xs none) ≡ O.map to_config_error (head? xs)
first_fed [] = refl
first_fed (x ∷ xs) = refl

-- The first error of the validation is that of the first issue that `doctor` lists.
first_validation_error-collect :
    (lib : RegexLite) (conf : Config)
    → first_validation_error lib conf
      ≡ O.map to_config_error (head? (collect_validation_issues lib conf))
unfolding first_validation_error collect_validation_issues
first_validation_error-collect lib conf =
    let (xs, fed) = visited_issues lib conf in
    fed _ stop_at_first none
    ∙ first_fed xs
    ∙ ap (λ ys. O.map to_config_error (head? ys)) (sym (fed _ keep_going [] ∙ collected xs []))

-- What a load makes of a configuration that is read, by the issues that `doctor` lists of it.
abbrev pub with_issues : Config → Option ConfigError → List ValidationIssue → ConfigError ⊎ Config
with_issues conf (some keybind_error) issues = inl keybind_error
with_issues conf none [] = inr conf
with_issues conf none (issue ∷ issues) = inl (to_config_error issue)

abbrev pub loaded_of : RegexLite → ConfigError ⊎ Config → ConfigError ⊎ Config
loaded_of lib (inl error) = inl error
loaded_of lib (inr conf) =
    with_issues conf (first_keybind_error conf.keybind) (collect_validation_issues lib conf)

sum_cases :
    (r : ConfigError ⊎ Config) → ((e : ConfigError) × (r ≡ inl e)) ⊎ ((c : Config) × (r ≡ inr c))
sum_cases (inl e) = inl (e, refl)
sum_cases (inr c) = inr (c, refl)

listed :
    (conf : Config) (issues : List ValidationIssue)
    → (elim (O.map to_config_error (head? issues)) [ some error ↦ inl error | none ↦ inr conf ])
      ≡ with_issues conf none issues
listed conf [] = refl
listed conf (issue ∷ issues) = refl

module _ (from_str : Text → Text ⊎ Config) (lib : RegexLite) where
  read-checked :
      (s : Text) (conf : Config) (issues : List ValidationIssue)
      → parse_config_lenient from_str lib s ≡ inr conf
      → first_validation_error lib conf ≡ O.map to_config_error (head? issues)
      → parse_config from_str lib s ≡ with_issues conf (first_keybind_error conf.keybind) issues
  unfolding parse_config
  read-checked s conf issues h first = elim (Option-cases (first_keybind_error conf.keybind)) [
    | inr (error, k) ↦ rw (h, parse_config) (rw (k, parse_config) refl)
    | inl k ↦
        rw (h, parse_config) (rw (k, parse_config) (rw (first, parse_config) (listed conf issues)))
  ]

  -- A load fails with what `doctor` fails with to read the text, which is the error of the TOML or of
  -- the version; else with the first error of the keys that are bound; else with the error of the
  -- first issue that `doctor` lists; and where it lists none, the configuration loads as it was read.
  pub parse_config-collect :
      (s : Text) → parse_config from_str lib s ≡ loaded_of lib (parse_config_lenient from_str lib s)
  unfolding parse_config
  parse_config-collect s = elim (sum_cases (parse_config_lenient from_str lib s)) [
    | inl (error, h) ↦ rw (h, parse_config) refl
    | inr (conf, h) ↦
        rw (h, loaded_of)
          (read-checked s conf (collect_validation_issues lib conf) h
            (first_validation_error-collect lib conf))
  ]
