-- ===== src/Dispatcher/Agreement.antt =====
-- The lookups of the script in runex/src/app/bash_static_dispatcher.rs against `expand` of
-- runex/src/domain/expand.rs.
use runex.Prelude.{
  List, [], ◌∷◌, Option, none, some, Bool, false, ◌≡◌, refl, sym, ◌∙◌, arith, map, All,
  Option-cases, inl, inr, ◌⊎◌,
}
use runex.Text.{Text}
use runex.Model.{bash, Abbr, Config, ExpandResult}
use runex.Expand.Keys.{
  RegexLite, Phase, exact, number, globbed, by_regex, phases, same_phase, phase_of,
}
use runex.Expand.Priority.{scan_phase-some}
use runex.Expand.Rules.{scan_phase, scan_phases, expand}
use runex.Validate.Load.{parse_config}
use runex.Validate.Accepted.{parse_config_sound}
use runex.Dispatcher.Accepted.{IsOneLineRule, accepted-AllBakeable}
use runex.Dispatcher.{rows_of, exact_row, pattern_row, glob_row}
use runex.Dispatcher.Reading.{entry}
use runex.Dispatcher.Script.{Out, Tables, scan, exact_try, pattern_try, glob_try, cyg_lookups}
use runex.Dispatcher.Scan.{script_of, fire-script, scan-scan_phase}
use runex.Dispatcher.Bakeable.{IsBakeable}
use runex.Dispatcher.Exact.{exact_row-own, exact_skipped, exact_tried}
use runex.Dispatcher.Patterns.{pattern_row-own, pattern_skipped, pattern_tried}
use runex.Dispatcher.Globs.{glob_row-own, glob_skipped, glob_tried}

-- The tables that bash has read.
abbrev pub tables_of : List Abbr → Tables
tables_of rules = record {
  exact = map entry (rows_of exact_row rules);
  patterns = map entry (rows_of pattern_row rules);
  globs = map entry (rows_of glob_row rules);
}

abbrev pub IsNoRegex : Abbr → Type 0
IsNoRegex r = same_phase (phase_of r) by_regex ≡ false

module _ (exists : Text → Bool) (lib : RegexLite) (token : Text) where
  no_regex :
      (rules : List Abbr)
      → All IsNoRegex rules
      → scan_phase exists lib token bash by_regex rules ≡ none
  unfolding scan_phase
  no_regex [] h = refl
  no_regex (r ∷ rules) (h, hs) = ground (arith, no_regex rules hs)

  scan_phase-script :
      (phase : Phase) (rules : List Abbr) {res : ExpandResult}
      → scan_phase exists lib token bash phase rules ≡ some res
      → (out : Out) × (script_of (some res) ≡ some out)
  scan_phase-script phase rules e =
      let (_, rule, _, _, _, fired, _) = scan_phase-some exists lib token bash phase rules e in
      fire-script exists lib token rule fired

  -- The first lookup that hits something, against the first phase that has a result.
  first_of : Option Out → Option Out → Option Out
  first_of none later = later
  first_of (some out) later = some out

  first_of-phases :
      (phase : Phase) (later : List Phase) (rules : List Abbr) {rest : Option Out}
      → rest ≡ script_of (scan_phases exists lib token bash later rules)
      → first_of (script_of (scan_phase exists lib token bash phase rules)) rest
        ≡ script_of (scan_phases exists lib token bash (phase ∷ later) rules)
  unfolding scan_phases first_of
  first_of-phases phase later rules e =
      elim (Option-cases (scan_phase exists lib token bash phase rules)) [
        | inl idle ↦ rw (idle, scan_phases) e
        | inr (res, got) ↦
            let (out, is) = scan_phase-script phase rules got in rw (got, scan_phases, is) refl
      ]

  as_chain :
      (tables : Tables)
      → let first = scan (exact_try exists token) [] tables.exact in
        let second = scan (pattern_try exists token) first.0 tables.patterns in
        let third = scan (glob_try exists token) second.0 tables.globs in
        cyg_lookups exists tables token ≡ first_of first.1 (first_of second.1 third.1)
  unfolding cyg_lookups first_of
  as_chain tables = elim (Option-cases (scan (exact_try exists token) [] tables.exact).1) [
    | inr (out, e) ↦ rw (e, cyg_lookups) refl
    | inl e ↦
        elim (Option-cases
          (scan (pattern_try exists token) (scan (exact_try exists token) [] tables.exact).0
            tables.patterns).1) [
              | inr (out, e') ↦ rw (e, e', cyg_lookups) refl
              | inl e' ↦ rw (e, e', cyg_lookups) refl
            ]
  ]

  last_phase :
      (rules : List Abbr)
      → All IsNoRegex rules
      → none ≡ script_of (scan_phases exists lib token bash (by_regex ∷ []) rules)
  unfolding scan_phases
  last_phase rules plain = rw (no_regex rules plain, scan_phases) refl

  first_of-none : (o : Option Out) → first_of o none ≡ o
  unfolding first_of
  first_of-none none = refl
  first_of-none (some out) = refl

  -- The script's lookups as a chain over the phases.
  lookups-phases :
      (rules : List Abbr)
      → All IsBakeable rules
      → All IsNoRegex rules
      → cyg_lookups exists (tables_of rules) token
        ≡ script_of (scan_phases exists lib token bash phases rules)
  lookups-phases rules ok plain =
      let (v1, r1) =
        scan-scan_phase exists lib token IsBakeable exact exact_row (exact_try exists token)
          (exact_skipped exists lib token) exact_row-own (exact_tried exists lib token) rules [] ok
          (λ c b e. cc) in
      let (v2, r2) =
        scan-scan_phase exists lib token IsBakeable number pattern_row (pattern_try exists token)
          (pattern_skipped exists lib token) pattern_row-own (pattern_tried exists lib token) rules
          _ ok r1 in
      let (v3, _) =
        scan-scan_phase exists lib token IsBakeable globbed glob_row (glob_try exists token)
          (glob_skipped exists lib token) glob_row-own (glob_tried exists lib token) rules _ ok
          r2 in
      let from_globs = first_of-phases globbed (by_regex ∷ []) rules (last_phase rules plain) in
      let from_numbers =
        first_of-phases number (globbed ∷ by_regex ∷ []) rules
          (sym (first_of-none _) ∙ from_globs) in
      as_chain (tables_of rules) ∙ (rw (v1, v2, v3) (first_of-phases exact _ rules from_numbers))

module _ (from_str : Text → Text ⊎ Config) (exists : Text → Bool) (lib : RegexLite) where
  -- With a configuration that loads, has no regex rule and no line separator of Unicode in its rules,
  -- the tables of the Git Bash script, as bash reads them, answer for every token as `expand`
  -- does for bash, with the same test for commands: the same text and the same cursor, counted in
  -- characters, or nothing where the token is passed through.
  pub cyg_lookups-expand :
      (s : Text) {config : Config} (token : Text)
      → parse_config from_str lib s ≡ inr config
      → All IsOneLineRule config.abbr
      → All IsNoRegex config.abbr
      → cyg_lookups exists (tables_of config.abbr) token
        ≡ script_of (some (expand exists lib token bash config))
  unfolding expand
  cyg_lookups-expand s {config} token loads lines plain =
      let (_, accepted) = parse_config_sound from_str lib s loads in
      let found =
        lookups-phases exists lib token config.abbr
          (accepted-AllBakeable config.abbr accepted.rules_ok lines) plain in
      elim (Option-cases (scan_phases exists lib token bash phases config.abbr)) [
        | inl idle ↦ found ∙ rw (idle, expand) refl
        | inr (res, got) ↦ found ∙ rw (got, expand) refl
      ]
