-- ===== src/Expand/Which.antt =====
-- runex/src/domain/expand.rs, `which_abbr` and `list`: the scan that reports why a rule was passed
-- over, and the rules as pairs of key and expansion.
use runex.Prelude.{
  ℕ, suc, List, [], ◌∷◌, ◌++◌, Option, none, some, Bool, true, false, not, if◌then◌else◌, keep,
  is_empty, ◌>>=◌,
}
use runex.Text.{Text, text_eq}
use runex.Model.{Shell, PerShellString, all_shells, by_shell, string_for_shell, Abbr, Config}
use runex.Expand.Keys.{Bindings, Phase, phases, same_phase, phase_of, RegexLite, match_rule}
use runex.Expand.Render.{render_with_cursor}
use runex.Expand.Rules.{
  is_blank_expansion, is_exact_self_loop, is_pattern_self_loop, SkipReason, self_loop,
  no_shell_entry, blank_expansion, condition_failed, WhichResult, fires, all_skipped, no_match,
  WhichOutcome, hit, skip, with_cursor_marker, required,
}

module _ (command_exists : Text → Bool) where
  -- The guards behind the rendering; `none` is a panic in `insert_str`.
  unfoldable pub finish_which : Abbr → Text → List Text → Text × Option ℕ → Option WhichOutcome
  finish_which abbr token satisfied rendered =
      if is_blank_expansion rendered.0
      then some (skip blank_expansion)
      else if is_pattern_self_loop abbr rendered.0 token
      then some (skip self_loop)
      else (do expansion ← with_cursor_marker rendered.0 rendered.1; some (hit expansion satisfied))

  unfoldable pub try_which_rule : Abbr → Text → Shell → Bindings → Option WhichOutcome
  try_which_rule abbr token shell bindings = elim (string_for_shell abbr.expand shell) [
    | none ↦ some (skip no_shell_entry)
    | some template ↦ elim (is_exact_self_loop abbr template) [
      | true ↦ some (skip self_loop)
      | false ↦ elim (required abbr.when_command_exists shell) [
        | none ↦ some (skip no_shell_entry)
        | some commands ↦ elim (is_empty (keep (λ c. not (command_exists c)) commands)) [
          | false ↦ some (
              skip (
                condition_failed (keep command_exists commands)
                  (keep (λ c. not (command_exists c)) commands)))
          | true ↦ elim (render_with_cursor abbr template bindings) [
            | none ↦ some (skip self_loop)
            | some rendered ↦ finish_which abbr token commands rendered
          ]
        ]
      ]
    ]
  ]

-- Where the scan stands: it has found a rule, or goes on with the rules skipped so far and whether
-- any key has matched.
pub data Scan : Type 0 where
  found : WhichResult → Scan
  going : List (ℕ × SkipReason) → Bool → Scan

module _ (command_exists : Text → Bool) (lib : RegexLite) (token : Text) (shell : Shell) where
  -- The inner loop, from the rule with index `i` on.
  unfoldable pub which_phase : Phase → ℕ → List Abbr → List (ℕ × SkipReason) → Bool → Option Scan
  which_phase phase i [] skipped matched = some (going skipped matched)
  which_phase phase i (abbr ∷ rules) skipped matched =
      let onward = which_phase phase (suc i) rules skipped matched in
      if same_phase (phase_of abbr) phase
      then elim (match_rule lib abbr token) [
        | none ↦ onward
        | some bindings ↦ elim (try_which_rule command_exists abbr token shell bindings) [
          | none ↦ none
          | some (hit expansion satisfied) ↦
              some (found (fires abbr.key expansion i satisfied skipped))
          | some (skip reason) ↦ which_phase phase (suc i) rules (skipped ++ (i, reason) ∷ []) true
        ]
      ]
      else onward

  unfoldable pub which_phases : List Phase → List Abbr → List (ℕ × SkipReason) → Bool → Option Scan
  which_phases [] rules skipped matched = some (going skipped matched)
  which_phases (phase ∷ later) rules skipped matched =
      elim (which_phase phase 0 rules skipped matched) [
        | none ↦ none
        | some (found result) ↦ some (found result)
        | some (going skipped' matched') ↦ which_phases later rules skipped' matched'
      ]

  unfoldable pub which_abbr : Config → Option WhichResult
  which_abbr config = elim (which_phases phases config.abbr [] false) [
    | none ↦ none
    | some (found result) ↦ some result
    | some (going skipped matched) ↦
        some (if matched then all_skipped token skipped else no_match token)
  ]

-- The expansion that `list` shows: for a shell, or else the one for every shell or the default.
unfoldable pub shown_expansion : Option Shell → PerShellString → Option Text
shown_expansion (some sh) expand = string_for_shell expand sh
shown_expansion none (all_shells s) = some s
shown_expansion none (by_shell b) = b.default

-- `filter.is_none_or(|f| a.key == f)`.
abbrev pub passes : Option Text → Text → Bool
passes none key = true
passes (some f) key = text_eq key f

abbrev pub list_rules : List Abbr → Option Shell → Option Text → List (Text × Text)
list_rules [] shell filter = []
list_rules (a ∷ rules) shell filter =
    let rest = list_rules rules shell filter in
    if passes filter a.key
    then elim (shown_expansion shell a.expand) [ some exp ↦ (a.key, exp) ∷ rest | none ↦ rest ]
    else rest

unfoldable pub list : Config → Option Shell → Option Text → List (Text × Text)
list config shell filter = list_rules config.abbr shell filter
