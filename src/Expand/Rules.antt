-- ===== src/Expand/Rules.antt =====
-- runex/src/domain/expand.rs, the scan: which rule fires for a token, and why one does not.
use runex.Prelude.{
  ℕ, List, [], ◌∷◌, ◌++◌, Option, none, some, Bool, true, false, ◌&&◌, ◌||◌, if◌then◌else◌, all,
  is_empty, ◌>>=◌,
}
use runex.Text.{Text, text_eq, trim, split_at_byte}
use runex.Model.{
  Shell, PerShellCmds, string_for_shell, cmds_for_shell, Abbr, Config, ExpandResult, expanded,
  pass_through, cursor_placeholder,
}
use runex.Expand.Keys.{
  Bindings, Phase, exact, globbed, by_regex, phases, same_phase, phase_of, RegexLite, match_rule,
}
use runex.Expand.Render.{render_with_cursor}

unfoldable pub is_blank_expansion : Text → Bool
is_blank_expansion rendered_text = is_empty (trim rendered_text)

unfoldable pub is_exact_self_loop : Abbr → Text → Bool
is_exact_self_loop abbr template = same_phase (phase_of abbr) exact && text_eq abbr.key template

unfoldable pub is_pattern_self_loop : Abbr → Text → Text → Bool
is_pattern_self_loop abbr rendered_text token =
    (same_phase (phase_of abbr) globbed || same_phase (phase_of abbr) by_regex)
    && text_eq rendered_text token

pub data SkipReason : Type 0 where
  self_loop no_shell_entry blank_expansion : SkipReason
  condition_failed : List Text → List Text → SkipReason

pub data WhichResult : Type 0 where
  -- the key, the expansion, the rule's index, the conditions met and the rules skipped before
  fires : Text → Text → ℕ → List Text → List (ℕ × SkipReason) → WhichResult
  all_skipped : Text → List (ℕ × SkipReason) → WhichResult
  no_match : Text → WhichResult

pub data WhichOutcome : Type 0 where
  hit : Text → List Text → WhichOutcome
  skip : SkipReason → WhichOutcome

-- `insert_str` at a byte offset, which panics off a boundary.
unfoldable pub with_cursor_marker : Text → Option ℕ → Option Text
with_cursor_marker text none = some text
with_cursor_marker text (some pos) = do
  sides ← split_at_byte text pos
  some (sides.0 ++ (cursor_placeholder ++ sides.1))

-- The commands of a condition in a shell: `none` where there is a condition and no entry for it.
unfoldable pub required : Option PerShellCmds → Shell → Option (List Text)
required none shell = some []
required (some cmds) shell = cmds_for_shell cmds shell

module _ (command_exists : Text → Bool) where
  -- The guards behind the rendering.
  unfoldable pub finish_rule : Abbr → Text → Text × Option ℕ → Option ExpandResult
  finish_rule abbr token rendered =
      if is_blank_expansion rendered.0 || is_pattern_self_loop abbr rendered.0 token
      then none
      else some (expanded rendered.0 rendered.1)

  unfoldable pub try_expand_rule : Abbr → Text → Shell → Bindings → Option ExpandResult
  try_expand_rule abbr token shell bindings = do
    template ← string_for_shell abbr.expand shell
    elim (is_exact_self_loop abbr template) [
      | true ↦ none
      | false ↦ do
        commands ← required abbr.when_command_exists shell
        elim (all command_exists commands) [
          | false ↦ none
          | true ↦ do
            rendered ← render_with_cursor abbr template bindings
            finish_rule abbr token rendered
        ]
    ]

module _ (command_exists : Text → Bool) (lib : RegexLite) (token : Text) (shell : Shell) where
  -- A rule that matches the token and fires.
  unfoldable pub fire : Abbr → Option ExpandResult
  fire abbr = do
    bindings ← match_rule lib abbr token
    try_expand_rule command_exists abbr token shell bindings

  -- The inner loop: the rules of one phase, in order.
  unfoldable pub scan_phase : Phase → List Abbr → Option ExpandResult
  scan_phase phase [] = none
  scan_phase phase (abbr ∷ rules) =
      let rest = scan_phase phase rules in
      if same_phase (phase_of abbr) phase
      then elim (fire abbr) [ some result ↦ some result | none ↦ rest ]
      else rest

  unfoldable pub scan_phases : List Phase → List Abbr → Option ExpandResult
  scan_phases [] rules = none
  scan_phases (phase ∷ later) rules =
      let rest = scan_phases later rules in
      elim (scan_phase phase rules) [ some result ↦ some result | none ↦ rest ]

  unfoldable pub expand : Config → ExpandResult
  expand config = elim (scan_phases phases config.abbr) [
    | some result ↦ result
    | none ↦ pass_through token
  ]
