-- ===== src/Expand/Firing.antt =====
-- What holds of a rule that fires: `try_expand_rule` of runex/src/domain/expand.rs, described.
use runex.Prelude.{
  ℕ, ◌≤◌, List, [], ◌∷◌, Option, some, Bool, true, false, ◌≡◌, ◌≢◌, arith, All, all, >>=-eq_some,
  unless-eq_some, when-eq_some, ◌⊎◌,
}
use runex.Text.{Text, byte_len}
use runex.Text.Slices.{text_eq_iff}
use runex.Text.Search.{IsBlank, trim_empty_iff}
use runex.Model.{Shell, string_for_shell, Abbr, ExpandResult, expanded}
use runex.Expand.Keys.{
  max_rendered_expand_bytes, Bindings, exact, globbed, by_regex, phase_of, RegexLite, match_rule,
}
use runex.Expand.Render.{render_with_cursor}
use runex.Expand.Rendering.{Rendered, render_with_cursor_sound}
use runex.Expand.Rules.{
  is_blank_expansion, is_exact_self_loop, is_pattern_self_loop, required, finish_rule,
  try_expand_rule, fire,
}

module _ (exists : Text → Bool) (lib : RegexLite) (token : Text) (shell : Shell) where
  -- A rule that fires: its key matches, it has a template for the shell that is not its own key as
  -- an exact rule, its condition's commands exist, and the text is the template filled in, within
  -- the limit, not blank, and not the token again where the rule is a pattern.
  pub record Fires (rule : Abbr) (text : Text) (cursor : Option ℕ) : Type 0 where
    pub bindings : Bindings
    pub template : Text
    pub commands : List Text
    pub matches : match_rule lib rule token ≡ some bindings
    pub entry : string_for_shell rule.expand shell ≡ some template
    pub no_loop : (phase_of rule ≢ exact) ⊎ (rule.key ≢ template)
    pub condition : required rule.when_command_exists shell ≡ some commands
    pub met : All (λ c. exists c ≡ true) commands
    pub rendered : Rendered rule template bindings text cursor
    pub small : byte_len text ≤ max_rendered_expand_bytes
    pub solid : ¬ IsBlank text
    pub changes : ((phase_of rule ≢ globbed) × (phase_of rule ≢ by_regex)) ⊎ (text ≢ token)

all_met :
    (exists : Text → Bool) (cs : List Text) → all exists cs ≡ true → All (λ c. exists c ≡ true) cs
all_met exists [] h = tt
all_met exists (c ∷ cs) h = (ground arith, all_met exists cs (ground arith))

no_exact_loop :
    (rule : Abbr) (template : Text)
    → is_exact_self_loop rule template ≡ false
    → (phase_of rule ≢ exact) ⊎ (rule.key ≢ template)
unfolding is_exact_self_loop
no_exact_loop rule template h = ground (arith, text_eq_iff rule.key template)

pattern_changes :
    (rule : Abbr) (text token : Text)
    → is_pattern_self_loop rule text token ≡ false
    → ((phase_of rule ≢ globbed) × (phase_of rule ≢ by_regex)) ⊎ (text ≢ token)
unfolding is_pattern_self_loop
pattern_changes rule text token h = ground (arith, text_eq_iff text token)

not-IsBlank : (text : Text) → is_blank_expansion text ≡ false → ¬ IsBlank text
unfolding is_blank_expansion
not-IsBlank text h blank = ground (arith, (trim_empty_iff text).1 blank)

module _ (exists : Text → Bool) (lib : RegexLite) (token : Text) (shell : Shell) where
  finish_sound :
      (rule : Abbr) (text : Text) (cursor : Option ℕ) {res : ExpandResult}
      → finish_rule exists rule token (text, cursor) ≡ some res
      → (res ≡ expanded text cursor)
        × (is_blank_expansion text ≡ false)
        × (is_pattern_self_loop rule text token ≡ false)
  unfolding finish_rule
  finish_sound rule text cursor h = ground arith

  -- A rule fires only as its parts say, and its result is an expansion.
  pub fire_sound :
      (rule : Abbr) {res : ExpandResult}
      → fire exists lib token shell rule ≡ some res
      → (text : Text) × (cursor : Option ℕ) × (res ≡ expanded text cursor)
        × Fires exists lib token shell rule text cursor
  unfolding fire try_expand_rule
  fire_sound rule e =
      let (bindings, matches, e1) = >>=-eq_some (match_rule lib rule token) _ e in
      let (template, entry, e2) = >>=-eq_some (string_for_shell rule.expand shell) _ e1 in
      let (moves, e3) = unless-eq_some (is_exact_self_loop rule template) _ e2 in
      let (commands, condition, e4) = >>=-eq_some (required rule.when_command_exists shell) _ e3 in
      let (met, e5) = when-eq_some (all exists commands) _ e4 in
      let ((text, cursor), made, e6) =
        >>=-eq_some (render_with_cursor rule template bindings) _ e5 in
      let (result, solid, changes) = finish_sound rule text cursor e6 in
      let (rendered, small) = render_with_cursor_sound rule template bindings made in
      (
        text,
        cursor,
        result,
        record {
          bindings = bindings;
          template = template;
          commands = commands;
          matches = matches;
          entry = entry;
          no_loop = no_exact_loop rule template moves;
          condition = condition;
          met = all_met exists commands met;
          rendered = rendered;
          small = small;
          solid = not-IsBlank text solid;
          changes = pattern_changes rule text token changes;
        },
      )
