-- ===== src/Dispatcher/Bakeable.antt =====
-- What every lookup of the script does with a rule that matches, against the rest of
-- `try_expand_rule` in runex/src/domain/expand.rs.
use runex.Prelude.{
  ℕ, ◌≤◌, List, [], ◌∷◌, Option, none, some, Bool, true, false, ◌≡◌, refl, sym, ap, ◌∙◌, arith, all,
  All, if◌then◌else◌, Bool-cases, Option-cases, inl, inr, >>=-eq_some, ◌>>=◌,
}
use runex.Text.{Text, byte_len, count_char}
use runex.Model.{bash, string_for_shell, Abbr, ExpandResult}
use runex.Expand.Keys.{Phase, globbed, same_phase, phase_of, Bindings, max_rendered_expand_bytes}
use runex.Expand.Render.{render_with_cursor}
use runex.Expand.Rules.{
  is_exact_self_loop, is_pattern_self_loop, required, finish_rule, try_expand_rule,
}
use runex.Validate.Numbers.{NumberOnly}
use runex.Dispatcher.{join, baked, bash_conditions}
use runex.Dispatcher.Script.{Out, Seen, cyg_is_blank, when_met}
use runex.Dispatcher.Fields.{IsKept}
use runex.Dispatcher.Blank.{cyg_is_blank-is_blank_expansion}
use runex.Dispatcher.Plain.{in_chars, map_chars}
use runex.Dispatcher.Conds.{IsName, Right, conds_met-Right}
use runex.Dispatcher.Scan.{script_of}

-- The fields that every table has stand in it unchanged: the template for bash, within the limit,
-- and the condition for bash, whose commands can stand between colons.
pub record IsBakeable (r : Abbr) : Type 0 where
  pub key_kept : IsKept r.key
  pub template_kept :
      (t : Text)
      → string_for_shell r.expand bash ≡ some t
      → IsKept t × (byte_len t ≤ max_rendered_expand_bytes)
  pub conds_kept :
      (cmds : List Text)
      → required r.when_command_exists bash ≡ some cmds
      → All IsName cmds × IsKept (join (b':' ∷ []) cmds)
  pub numbered : NumberOnly r
  pub unit_kept :
      same_phase (phase_of r) Phase.number ≡ true → (u : Text) → r.number ≡ some u → IsKept u
  pub one_star : same_phase (phase_of r) globbed ≡ true → count_char b'*' r.key ≤ 1

-- The condition that is baked is the joined list of the commands that the program requires.
pub bash_conditions-required :
    (r : Abbr)
    → bash_conditions r ≡ elim (required r.when_command_exists bash) [
      | none ↦ none
      | some cmds ↦ some (join (b':' ∷ []) cmds)
    ]
unfolding bash_conditions required
bash_conditions-required r = elim (Option-cases r.when_command_exists) [
  | inl e ↦ rw e refl
  | inr (c, e) ↦ rw e refl
]

pub baked_parts :
    (r : Abbr) (make : Text → Text → List Text) {fields : List Text}
    → baked r make ≡ some fields
    → (template : Text) × (cmds : List Text) × (string_for_shell r.expand bash ≡ some template)
      × (required r.when_command_exists bash ≡ some cmds)
      × (fields ≡ make template (join (b':' ∷ []) cmds))
baked_parts r make e =
    let (t, e1, rest) = >>=-eq_some (string_for_shell r.expand bash) _ e in
    let (c, e2, e3) = >>=-eq_some (bash_conditions r) _ rest in
    elim (Option-cases (required r.when_command_exists bash)) [
      | inl missing ↦ absurd (ground (arith, bash_conditions-required r, missing, e2))
      | inr (cmds, e4) ↦ (t, cmds, e1, e4, ground (arith, bash_conditions-required r, e4, e2, e3))
    ]

-- A rule that is left out of its table for want of a template or a condition does not fire.
pub unbaked :
    (exists : Text → Bool) (r : Abbr) (make : Text → Text → List Text)
    → baked r make ≡ none
    → (token : Text) (b : Bindings) → try_expand_rule exists r token bash b ≡ none
unfolding try_expand_rule
unbaked exists r make e token b = elim (Option-cases (string_for_shell r.expand bash)) [
  | inl e1 ↦ rw (e1, try_expand_rule) refl
  | inr (t, e1) ↦ elim (Option-cases (required r.when_command_exists bash)) [
    | inl e2 ↦ ground (arith, e1, e2)
    | inr (cmds, e2) ↦ absurd (ground (arith, bash_conditions-required r, e1, e2, e))
  ]
]

module _ (exists : Text → Bool) (token : Text) (r : Abbr) (b : Bindings) where
  -- The rest of a rule's expansion, behind its condition.
  abbrev pub rendered : Text → Option ExpandResult
  rendered template = render_with_cursor r template b >>= finish_rule exists r token

  try_parts :
      (template : Text) (cmds : List Text)
      → string_for_shell r.expand bash ≡ some template
      → required r.when_command_exists bash ≡ some cmds
      → is_exact_self_loop r template ≡ false
      → try_expand_rule exists r token bash b
        ≡ (if all exists cmds then rendered template else none)
  unfolding try_expand_rule
  try_parts template cmds e1 e2 e3 = ground arith

  -- The script's test of the condition leads to the same result.
  pub when_met-try :
      (template : Text) (cmds : List Text) (seen : Seen) (out : Option Out)
      → string_for_shell r.expand bash ≡ some template
      → required r.when_command_exists bash ≡ some cmds
      → is_exact_self_loop r template ≡ false
      → All IsName cmds
      → Right exists seen
      → out ≡ script_of (rendered template)
      → ((when_met exists seen (join (b':' ∷ []) cmds) out).1
          ≡ script_of (try_expand_rule exists r token bash b))
        × Right exists (when_met exists seen (join (b':' ∷ []) cmds) out).0
  when_met-try template cmds seen out e1 e2 e3 names right same =
      let (value, kept) = conds_met-Right exists seen cmds names right in
      elim (Bool-cases (all exists cmds)) [
        | inl met ↦ (rw (value, met, try_parts template cmds e1 e2 e3, met) same, kept)
        | inr unmet ↦ (rw (value, unmet, try_parts template cmds e1 e2 e3, unmet) refl, kept)
      ]

  -- What the script makes of a text that was filled in.
  abbrev pub unless_blank : Out → Option Out
  unless_blank out = if cyg_is_blank out.0 then none else some out

  finish-unless_blank :
      (t : Text) (c : Option ℕ)
      → is_pattern_self_loop r t token ≡ false
      → script_of (finish_rule exists r token (t, c)) ≡ unless_blank (in_chars (t, c))
  unfolding finish_rule
  finish-unless_blank t none h = ground (arith, cyg_is_blank-is_blank_expansion t)
  finish-unless_blank t (some off) h = ground (arith, cyg_is_blank-is_blank_expansion t)

  pub filled-unless_blank :
      (m : Option (Text × Option ℕ)) (out : Out)
      → map_chars m ≡ some out
      → ((t : Text) → is_pattern_self_loop r t token ≡ false)
      → unless_blank out ≡ script_of (m >>= finish_rule exists r token)
  filled-unless_blank none out e h = cc
  filled-unless_blank (some (t, c)) out e h =
      let same : in_chars (t, c) ≡ out = ground (arith, e) in
      ap unless_blank (sym same) ∙ sym (finish-unless_blank t c (h t))
