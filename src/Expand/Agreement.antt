-- ===== src/Expand/Agreement.antt =====
-- `expand` and `which_abbr` of runex/src/domain/expand.rs, side by side.
use runex.Prelude.{
  ℕ, suc, List, [], ◌∷◌, ◌++◌, Option, none, some, Bool, true, false, ◌≡◌, refl, arith, not,
  if◌then◌else◌, all, keep, is_empty, ◌>>=◌, Option-cases, Bool-cases, inl, inr,
}
use runex.Text.{Text}
use runex.Text.Slices.{split_at_byte-append}
use runex.Model.{
  Shell, string_for_shell, Abbr, Config, ExpandResult, expanded, pass_through, cursor_placeholder,
}
use runex.Expand.Keys.{Bindings, Phase, phases, same_phase, phase_of, RegexLite, match_rule}
use runex.Expand.Render.{render_with_cursor}
use runex.Expand.Rendering.{CursorFits, Rendered-CursorFits, render_with_cursor_sound}
use runex.Expand.Rules.{
  is_blank_expansion, is_exact_self_loop, is_pattern_self_loop, SkipReason, self_loop,
  no_shell_entry, blank_expansion, condition_failed, WhichResult, fires, all_skipped, no_match,
  WhichOutcome, hit, skip, with_cursor_marker, required, finish_rule, try_expand_rule, fire,
  scan_phase, scan_phases, expand,
}
use runex.Expand.Which.{
  finish_which, try_which_rule, Scan, found, going, which_phase, which_phases, which_abbr,
}

-- No command is missing exactly when all of them exist.
missing_none :
    (exists : Text → Bool) (cmds : List Text)
    → is_empty (keep (λ c. not (exists c)) cmds) ≡ all exists cmds
missing_none exists [] = refl
missing_none exists (c ∷ cmds) = ground (arith, missing_none exists cmds)

-- One rule: it fires in both, or is skipped in both.
pub data RuleAgrees : Option ExpandResult → Option WhichOutcome → Type 0 where
  both_fire :
      {e : Text} (text : Text) (cursor : Option ℕ) (satisfied : List Text)
      → with_cursor_marker text cursor ≡ some e
      → RuleAgrees (some (expanded text cursor)) (some (hit e satisfied))
  both_skip : (reason : SkipReason) → RuleAgrees none (some (skip reason))

with_cursor_marker_fits :
    (text : Text) (cursor : Option ℕ)
    → CursorFits text cursor
    → (e : Text) × (with_cursor_marker text cursor ≡ some e)
unfolding with_cursor_marker
with_cursor_marker_fits text none fits = (text, refl)
with_cursor_marker_fits text (some pos) (a, b, whole, size) =
    (a ++ (cursor_placeholder ++ b), rw (whole, ← size) (rw (split_at_byte-append a b, ◌>>=◌)))

module _ (exists : Text → Bool) where
  finish_agrees :
      (abbr : Abbr) (token text : Text) (cursor : Option ℕ) (satisfied : List Text)
      → CursorFits text cursor
      → RuleAgrees
          (finish_rule exists abbr token (text, cursor))
          (finish_which exists abbr token satisfied (text, cursor))
  unfolding finish_rule finish_which
  finish_agrees abbr token text cursor satisfied fits =
      let (e, marked) = with_cursor_marker_fits text cursor fits in
      elim (Bool-cases (is_blank_expansion text)) [
        | inl blank ↦ rw blank (both_skip blank_expansion)
        | inr solid ↦ elim (Bool-cases (is_pattern_self_loop abbr text token)) [
          | inl loop ↦ rw (solid, loop) (both_skip self_loop)
          | inr moves ↦
              rw (solid, moves) (rw (marked, ◌>>=◌) (both_fire text cursor satisfied marked))
        ]
      ]

  rendering_agrees :
      (abbr : Abbr) (token template : Text) (b : Bindings) (commands : List Text)
      → RuleAgrees
          (render_with_cursor abbr template b >>= λ rendered.
            finish_rule exists abbr token rendered)
          (elim (render_with_cursor abbr template b) [
            | none ↦ some (skip self_loop)
            | some rendered ↦ finish_which exists abbr token commands rendered
          ])
  rendering_agrees abbr token template b commands =
      elim (Option-cases (render_with_cursor abbr template b)) [
        | inl refused ↦ rw (refused, ◌>>=◌) (both_skip self_loop)
        | inr ((text, cursor), made) ↦
            let (rendered, _) = render_with_cursor_sound abbr template b made in
            rw (made, ◌>>=◌)
              (finish_agrees abbr token text cursor commands (Rendered-CursorFits rendered))
      ]

  conditions_agree :
      (abbr : Abbr) (token : Text) (shell : Shell) (b : Bindings) (template : Text)
      → RuleAgrees
          (required abbr.when_command_exists shell >>= λ commands. elim (all exists commands) [
            | false ↦ none
            | true ↦ render_with_cursor abbr template b >>= λ rendered.
                finish_rule exists abbr token rendered
          ])
          (elim (required abbr.when_command_exists shell) [
            | none ↦ some (skip no_shell_entry)
            | some commands ↦ elim (is_empty (keep (λ c. not (exists c)) commands)) [
              | false ↦ some (
                  skip
                    (condition_failed (keep exists commands) (keep (λ c. not (exists c)) commands)))
              | true ↦ elim (render_with_cursor abbr template b) [
                | none ↦ some (skip self_loop)
                | some rendered ↦ finish_which exists abbr token commands rendered
              ]
            ]
          ])
  conditions_agree abbr token shell b template =
      elim (Option-cases (required abbr.when_command_exists shell)) [
        | inl missing ↦ rw (missing, ◌>>=◌) (both_skip no_shell_entry)
        | inr (commands, got) ↦ elim (Bool-cases (all exists commands)) [
          | inl met ↦
              rw (got, ◌>>=◌, missing_none exists commands)
                (rw met (rendering_agrees abbr token template b commands))
          | inr unmet ↦ rw (got, ◌>>=◌, missing_none exists commands) (rw unmet (both_skip _))
        ]
      ]

  pub try_which-try_expand :
      (abbr : Abbr) (token : Text) (shell : Shell) (b : Bindings)
      → RuleAgrees
          (try_expand_rule exists abbr token shell b)
          (try_which_rule exists abbr token shell b)
  unfolding try_expand_rule try_which_rule
  try_which-try_expand abbr token shell b =
      elim (Option-cases (string_for_shell abbr.expand shell)) [
        | inl missing ↦ rw (missing, try_expand_rule, try_which_rule) (both_skip no_shell_entry)
        | inr (template, entry) ↦ elim (Bool-cases (is_exact_self_loop abbr template)) [
          | inl loop ↦
              rw (entry, try_expand_rule, try_which_rule, ◌>>=◌) (rw loop (both_skip self_loop))
          | inr moves ↦
              rw (entry, try_expand_rule, try_which_rule, ◌>>=◌)
                (rw moves (conditions_agree abbr token shell b template))
        ]
      ]

-- The scan so far: both have stopped at a rule, or both go on.
pub data ScanAgrees : Option ExpandResult → Option Scan → Type 0 where
  both_stop :
      {e : Text} (text : Text) (cursor : Option ℕ) (key : Text) (i : ℕ) (satisfied : List Text)
      (skipped : List (ℕ × SkipReason))
      → with_cursor_marker text cursor ≡ some e
      → ScanAgrees (some (expanded text cursor)) (some (found (fires key e i satisfied skipped)))
  both_go :
      (skipped : List (ℕ × SkipReason)) (matched : Bool)
      → ScanAgrees none (some (going skipped matched))

rule_then_rest :
    (key : Text) (i : ℕ) (skipped : List (ℕ × SkipReason)) (rest : Option ExpandResult)
    (onward : List (ℕ × SkipReason) → Bool → Option Scan) {o : Option ExpandResult}
    {w : Option WhichOutcome}
    → ((sk : List (ℕ × SkipReason)) (m : Bool) → ScanAgrees rest (onward sk m))
    → RuleAgrees o w
    → ScanAgrees
        (elim o [ some result ↦ some result | none ↦ rest ])
        (elim w [
          | none ↦ none
          | some (hit expansion satisfied) ↦ some (found (fires key expansion i satisfied skipped))
          | some (skip reason) ↦ onward (skipped ++ (i, reason) ∷ []) true
        ])
rule_then_rest key i skipped rest onward later (both_fire text cursor satisfied marked) =
    both_stop text cursor key i satisfied skipped marked
rule_then_rest key i skipped rest onward later (both_skip reason) =
    later (skipped ++ (i, reason) ∷ []) true

module _ (exists : Text → Bool) (lib : RegexLite) (token : Text) (shell : Shell) where
  which_phase-scan_phase :
      (phase : Phase) (rules : List Abbr) (i : ℕ) (skipped : List (ℕ × SkipReason)) (matched : Bool)
      → ScanAgrees
          (scan_phase exists lib token shell phase rules)
          (which_phase exists lib token shell phase i rules skipped matched)
  unfolding scan_phase which_phase fire
  which_phase-scan_phase phase [] i skipped matched = both_go skipped matched
  which_phase-scan_phase phase (abbr ∷ rules) i skipped matched =
      elim (Bool-cases (same_phase (phase_of abbr) phase)) [
        | inr other ↦ rw other (which_phase-scan_phase phase rules (suc i) skipped matched)
        | inl same ↦ elim (Option-cases (match_rule lib abbr token)) [
          | inl missed ↦
              rw (same, missed, ◌>>=◌) (which_phase-scan_phase phase rules (suc i) skipped matched)
          | inr (b, matches) ↦
              rw (same, matches, ◌>>=◌)
                (rule_then_rest abbr.key i skipped _ _
                  (λ sk m. which_phase-scan_phase phase rules (suc i) sk m)
                  (try_which-try_expand exists abbr token shell b))
        ]
      ]

  phase_then_later :
      (rest : Option ExpandResult) (onward : List (ℕ × SkipReason) → Bool → Option Scan)
      {o : Option ExpandResult} {w : Option Scan}
      → ((sk : List (ℕ × SkipReason)) (m : Bool) → ScanAgrees rest (onward sk m))
      → ScanAgrees o w
      → ScanAgrees
          (elim o [ some result ↦ some result | none ↦ rest ])
          (elim w [
            | none ↦ none
            | some (found result) ↦ some (found result)
            | some (going sk m) ↦ onward sk m
          ])
  phase_then_later rest onward later (both_stop text cursor key i sat sk marked) =
      both_stop text cursor key i sat sk marked
  phase_then_later rest onward later (both_go sk m) = later sk m

  which_phases-scan_phases :
      (ps : List Phase) (rules : List Abbr) (skipped : List (ℕ × SkipReason)) (matched : Bool)
      → ScanAgrees
          (scan_phases exists lib token shell ps rules)
          (which_phases exists lib token shell ps rules skipped matched)
  unfolding scan_phases which_phases
  which_phases-scan_phases [] rules skipped matched = both_go skipped matched
  which_phases-scan_phases (phase ∷ ps) rules skipped matched =
      phase_then_later _ _ (λ sk m. which_phases-scan_phases ps rules sk m)
        (which_phase-scan_phase phase rules 0 skipped matched)

-- The outcomes: an expansion, shown with its cursor marker, or the token unchanged.
pub data Agrees (token : Text) : ExpandResult → Option WhichResult → Type 0 where
  expands :
      {e : Text} (text : Text) (cursor : Option ℕ) (key : Text) (i : ℕ) (satisfied : List Text)
      (skipped : List (ℕ × SkipReason))
      → with_cursor_marker text cursor ≡ some e
      → Agrees token (expanded text cursor) (some (fires key e i satisfied skipped))
  nothing_fires :
      (skipped : List (ℕ × SkipReason))
      → Agrees token (pass_through token) (some (all_skipped token skipped))
  nothing_matches : Agrees token (pass_through token) (some (no_match token))

outcome :
    (token : Text) {o : Option ExpandResult} {w : Option Scan}
    → ScanAgrees o w
    → Agrees token
        (elim o [ some result ↦ result | none ↦ pass_through token ])
        (elim w [
          | none ↦ none
          | some (found result) ↦ some result
          | some (going sk m) ↦ some (if m then all_skipped token sk else no_match token)
        ])
outcome token (both_stop text cursor key i sat sk marked) = expands text cursor key i sat sk marked
outcome token (both_go sk true) = nothing_fires sk
outcome token (both_go sk false) = nothing_matches

-- `which` reports an expansion exactly when `expand` makes one, and reports that text with the
-- cursor's marker put back; else `expand` passes the token through. No step of it panics.
pub which_abbr-expand :
    (exists : Text → Bool) (lib : RegexLite) (token : Text) (shell : Shell) (config : Config)
    → Agrees token (expand exists lib token shell config) (which_abbr exists lib token shell config)
unfolding expand which_abbr
which_abbr-expand exists lib token shell config =
    outcome token (which_phases-scan_phases exists lib token shell phases config.abbr [] false)
