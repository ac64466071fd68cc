-- ===== src/Validate/Accepted.antt =====
-- What holds of a configuration that loads: `parse_config` of runex/src/app/config.rs.
use runex.Prelude.{
  ◌≤◌, List, ◌∷◌, ◌++◌, none, some, true, ◌==◌, ltb, ◌≡◌, ◌↔◌, refl, ap, subst, ◌∙◌, arith, length,
  is_some, All, All-append_right, Bool-cases, Option-cases, if◌then◌else◌, ◌⊎◌, inl, inr,
}
use runex.Text.{Text}
use runex.Model.{Abbr, Config, glob}
use runex.Expand.Keys.{RegexLite, match_glob_key}
use runex.Expand.Glob.{match_glob_key_iff}
use runex.Expand.Pattern.{Glob}
use runex.Validate.Issues.{ConfigError, parse, unsupported_version}
use runex.Validate.{visit_validation_issues, first_validation_error, max_abbr_rules}
use runex.Validate.Load.{first_keybind_error, parse_config_lenient, parse_config}
use runex.Validate.Walks.{walked_rules}
use runex.Validate.Quiet.{quiet_ended}
use runex.Validate.Keybinds.{IsKeybind, first_keybind_error_sound}
use runex.Validate.Rules.{IsAccepted, IsGlobKey, GlobOnly, rules_of}

pub record IsAcceptedConfig (conf : Config) : Type 0 where
  pub version_one : conf.version ≡ 1
  pub few_rules : length conf.abbr ≤ max_abbr_rules
  pub keybind_ok : IsKeybind conf.keybind
  pub rules_ok : All IsAccepted conf.abbr

validated :
    (lib : RegexLite) (conf : Config)
    → first_validation_error lib conf ≡ none
    → (length conf.abbr ≤ max_abbr_rules) × All IsAccepted conf.abbr
unfolding first_validation_error visit_validation_issues
validated lib conf h = elim (Bool-cases (ltb max_abbr_rules (length conf.abbr))) [
  | inl many ↦ absurd (ground arith)
  | inr few ↦ (
    ground arith,
    rules_of lib 1 conf.abbr
        (quiet_ended (walked_rules lib 1 conf.abbr) (rw (few, first_validation_error) at h)),
  )
]

module _ (from_str : Text → Text ⊎ Config) (lib : RegexLite) where
  lenient_sound :
      (s : Text) {conf : Config}
      → parse_config_lenient from_str lib s ≡ inr conf
      → (from_str s ≡ inr conf) × (conf.version ≡ 1)
  unfolding parse_config_lenient
  lenient_sound s {conf} h = from (from_str s) h
    where
      from :
          (read : Text ⊎ Config)
          → (elim read [
            | inl error ↦ inl (parse error)
            | inr c ↦ if c.version == 1 then inr c else inl (unsupported_version c.version)
          ])
            ≡ inr conf
          → (read ≡ inr conf) × (conf.version ≡ 1)
      from (inl error) e = cc
      from (inr c) e = ground arith

  -- A configuration that loads is the one that the file spells, of version 1, with at most 10000
  -- rules. Its keys and expansions are not blank, within their limits and free of control and
  -- deceptive characters; the commands of a condition are bare names, at most 64 in a list; a glob
  -- key has a wildcard, at most one star and none of the forbidden characters; a `{number}`
  -- key has one placeholder, which opens its only brace, and a unit that is not empty, within its
  -- limit and free of those characters; Ctrl+V is bound neither as a trigger nor as a plain space,
  -- and as a paste key for nu alone.
  pub parse_config_sound :
      (s : Text) {conf : Config}
      → parse_config from_str lib s ≡ inr conf
      → (from_str s ≡ inr conf) × IsAcceptedConfig conf
  unfolding parse_config
  parse_config_sound s {conf} h = from (parse_config_lenient from_str lib s) refl h
    where
      from :
          (read : ConfigError ⊎ Config)
          → parse_config_lenient from_str lib s ≡ read
          → (elim read [
            | inl error ↦ inl error
            | inr c ↦ elim (first_keybind_error c.keybind) [
              | some error ↦ inl error
              | none ↦ elim (first_validation_error lib c) [ some error ↦ inl error | none ↦ inr c ]
            ]
          ])
            ≡ inr conf
          → (from_str s ≡ inr conf) × IsAcceptedConfig conf
      from (inl error) e1 e = cc
      from (inr c) e1 e = elim (Option-cases (first_keybind_error c.keybind)) [
        | inr (err, bad) ↦ absurd (ground arith)
        | inl keys ↦ elim (Option-cases (first_validation_error lib c)) [
          | inr (err, bad) ↦ absurd (ground arith)
          | inl fine ↦
              let same : c ≡ conf = ground arith in
              let (is, version) = lenient_sound s e1 in
              let (few, rules) = validated lib c fine in
              (
                is ∙ ap (λ x. inr x) same,
                subst IsAcceptedConfig same (record {
                  version_one = version;
                  few_rules = few;
                  keybind_ok = first_keybind_error_sound c.keybind keys;
                  rules_ok = rules;
                }),
              )
        ]
      ]

  glob_one_star :
      (r : Abbr) → r.match_kind ≡ some glob → GlobOnly r.match_kind r.key → IsGlobKey r.key
  glob_one_star r is ok = rw is at ok

  -- A glob rule of a configuration that loads matches a token exactly when its key, read as a
  -- pattern, means the token.
  pub parse_config-match_glob_key :
      (s : Text) {conf : Config} (before : List Abbr) (r : Abbr) (after : List Abbr)
      → parse_config from_str lib s ≡ inr conf
      → conf.abbr ≡ before ++ r ∷ after
      → r.match_kind ≡ some glob
      → (token : Text) → (is_some (match_glob_key r.key token) ≡ true) ↔ Glob r.key token
  parse_config-match_glob_key s before r after h whole is token =
      let (_, accepted) = parse_config_sound s h in
      let here =
        All-append_right IsAccepted before (r ∷ after)
          (subst (All IsAccepted) whole accepted.rules_ok) in
      match_glob_key_iff r.key token (glob_one_star r is here.0.glob_key).one_star
