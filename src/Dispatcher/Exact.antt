-- ===== src/Dispatcher/Exact.antt =====
-- `__runex_cyg_lookup` of runex/src/app/bash_static_dispatcher.rs against the exact phase of
-- runex/src/domain/expand.rs.
use runex.Prelude.{
  ◌≤◌, List, [], ◌∷◌, none, some, Bool, true, false, ◌≡◌, refl, ◌∙◌, ◌||◌, arith, if◌then◌else◌,
  is_some, Bool-cases, inl, inr,
}
use runex.Text.{Text, byte_len, text_eq, contains_char}
use runex.Text.Slices.{text_eq_iff}
use runex.Model.{bash, string_for_shell, Abbr}
use runex.Expand.Keys.{
  RegexLite, exact, same_phase, phase_of, match_rule, match_abbr_key, Bindings, empty,
  max_rendered_expand_bytes,
}
use runex.Expand.Render.{extract_cursor_placeholder, fill_in, render_number, render_with_cursor}
use runex.Expand.Rules.{is_exact_self_loop, is_pattern_self_loop, required, try_expand_rule, fire}
use runex.Dispatcher.{join, exact_row}
use runex.Dispatcher.Reading.{entry}
use runex.Dispatcher.Script.{Seen, at_cursor, cyg_render, exact_fields, exact_try}
use runex.Dispatcher.Fields.{first_field-entry, other_fields-entry, last-entry}
use runex.Dispatcher.Plain.{fill_in_plain}
use runex.Dispatcher.Conds.{Right}
use runex.Dispatcher.Scan.{script_of}
use runex.Dispatcher.Bakeable.{
  IsBakeable, baked_parts, unbaked, rendered, when_met-try, filled-unless_blank,
}

pub exact_row-own :
    (r : Abbr) (fields : List Text)
    → exact_row r ≡ some fields
    → same_phase (phase_of r) exact ≡ true
unfolding exact_row phase_of
exact_row-own r fields e = ground arith

plain_match :
    (lib : RegexLite) (r : Abbr) (token : Text)
    → same_phase (phase_of r) exact ≡ true
    → match_rule lib r token ≡ (if text_eq r.key token then some empty else none)
unfolding phase_of match_rule match_abbr_key
plain_match lib r token h = ground arith

no_pattern_loop :
    (r : Abbr) (token t : Text)
    → same_phase (phase_of r) exact ≡ true
    → is_pattern_self_loop r t token ≡ false
unfolding is_pattern_self_loop
no_pattern_loop r token t h = ground arith

text_eq_comm : (s t : Text) → text_eq s t ≡ text_eq t s
text_eq_comm s t = ground (arith, text_eq_iff s t, text_eq_iff t s)

-- The guard of the table passes the rules of the phase.
untabled :
    (r : Abbr)
    → same_phase (phase_of r) exact ≡ true
    → (contains_char b'{' r.key || is_some r.match_kind) ≡ false
unfolding phase_of
untabled r h = ground arith

self_loop :
    (r : Abbr) (template : Text)
    → same_phase (phase_of r) exact ≡ true
    → text_eq template r.key ≡ true
    → is_exact_self_loop r template ≡ true
unfolding is_exact_self_loop
self_loop r template own e = ground (arith, text_eq_comm template r.key)

not_self_loop :
    (r : Abbr) (template : Text)
    → same_phase (phase_of r) exact ≡ true
    → text_eq template r.key ≡ false
    → is_exact_self_loop r template ≡ false
unfolding is_exact_self_loop
not_self_loop r template own e = ground (arith, text_eq_comm template r.key)

module _ (exists : Text → Bool) (lib : RegexLite) (token : Text) where
  fire_matched :
      (r : Abbr)
      → same_phase (phase_of r) exact ≡ true
      → text_eq r.key token ≡ true
      → fire exists lib token bash r ≡ try_expand_rule exists r token bash empty
  unfolding fire
  fire_matched r own e = ground (arith, plain_match lib r token own)

  fire_other :
      (r : Abbr)
      → same_phase (phase_of r) exact ≡ true
      → text_eq r.key token ≡ false
      → fire exists lib token bash r ≡ none
  unfolding fire
  fire_other r own e = ground (arith, plain_match lib r token own)

  pub exact_skipped :
      (r : Abbr)
      → IsBakeable r
      → exact_row r ≡ none
      → same_phase (phase_of r) exact ≡ true
      → fire exists lib token bash r ≡ none
  unfolding exact_row
  exact_skipped r ok e own = elim (Bool-cases (text_eq r.key token)) [
    | inr other ↦ fire_other r own other
    | inl same ↦
        fire_matched r own same
        ∙ unbaked exists r _ (rw (untabled r own, exact_row) at e) token empty
  ]

  self_loop_fails :
      (r : Abbr) (template : Text) (b : Bindings)
      → string_for_shell r.expand bash ≡ some template
      → is_exact_self_loop r template ≡ true
      → try_expand_rule exists r token bash b ≡ none
  unfolding try_expand_rule
  self_loop_fails r template b e1 e2 = ground arith

  -- The text of an exact rule is its template.
  render_exact :
      (r : Abbr) (template : Text)
      → same_phase (phase_of r) exact ≡ true
      → byte_len template ≤ max_rendered_expand_bytes
      → cyg_render template ≡ script_of (rendered exists token r empty template)
  unfolding cyg_render render_with_cursor render_number
  render_exact r template own small =
      filled-unless_blank exists token r empty
        (fill_in (extract_cursor_placeholder template).0 (extract_cursor_placeholder template).1
          empty)
        (at_cursor template) (fill_in_plain none template small)
        (λ t. no_pattern_loop r token t own)

  exact_fields-fire :
      (r : Abbr) (template : Text) (cmds : List Text) (seen : Seen)
      → IsBakeable r
      → same_phase (phase_of r) exact ≡ true
      → string_for_shell r.expand bash ≡ some template
      → required r.when_command_exists bash ≡ some cmds
      → Right exists seen
      → ((exact_fields exists token seen r.key template (join (b':' ∷ []) cmds)).1
          ≡ script_of (fire exists lib token bash r))
        × Right exists (exact_fields exists token seen r.key template (join (b':' ∷ []) cmds)).0
  exact_fields-fire r template cmds seen ok own e1 e2 right =
      elim (Bool-cases (text_eq r.key token)) [
        | inr other ↦ (rw (other, fire_other r own other) refl, rw other right)
        | inl same ↦ elim (Bool-cases (text_eq template r.key)) [
          | inl loop ↦ (
            rw
                (
                  same,
                  loop,
                  fire_matched r own same,
                  self_loop_fails r template empty e1 (self_loop r template own loop),
                )
                refl,
            rw (same, loop) right,
          )
          | inr free ↦
              let (value, kept) =
                when_met-try exists token r empty template cmds seen (cyg_render template) e1 e2
                  (not_self_loop r template own free) (ok.conds_kept cmds e2).0 right
                  (render_exact r template own (ok.template_kept template e1).1) in
              (rw (same, free, fire_matched r own same) value, rw (same, free) kept)
        ]
      ]

  pub exact_tried :
      (r : Abbr) (fields : List Text) (seen : Seen)
      → IsBakeable r
      → exact_row r ≡ some fields
      → Right exists seen
      → ((exact_try exists token seen (entry fields)).1 ≡ script_of (fire exists lib token bash r))
        × Right exists (exact_try exists token seen (entry fields)).0
  unfolding exact_try exact_row
  exact_tried r fields seen ok e right =
      let own = exact_row-own r fields e in
      let (template, cmds, e1, e2, same) = baked_parts r _ (rw (untabled r own, exact_row) at e) in
      let conds = join (b':' ∷ []) cmds in
      let (template_kept, _) = ok.template_kept template e1 in
      let (_, conds_kept) = ok.conds_kept cmds e2 in
      rw
        (
          same,
          first_field-entry r.key template (conds ∷ []) ok.key_kept,
          other_fields-entry r.key template (conds ∷ []),
          first_field-entry template conds [] template_kept,
          other_fields-entry template conds [],
          last-entry conds conds_kept,
        )
        (exact_fields-fire r template cmds seen ok own e1 e2 right)
