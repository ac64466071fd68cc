-- ===== src/Dispatcher/Globs.antt =====
-- `__runex_cyg_glob_lookup` of runex/src/app/bash_static_dispatcher.rs against the glob phase of
-- runex/src/domain/expand.rs.
use runex.Prelude.{
  ℕ, List, [], ◌∷◌, Option, none, some, Bool, true, false, ◌≡◌, refl, subst, arith, All-append_left,
  All-append_right, Option-cases, inl, inr, ◌>>=◌,
}
use runex.Text.{Text, split_once_char}
use runex.Text.Search.{split_once_char_sound}
use runex.Model.{bash, string_for_shell, Abbr}
use runex.Expand.Keys.{RegexLite, globbed, same_phase, phase_of, match_rule, match_glob_key}
use runex.Expand.Render.{extract_cursor_placeholder, fill_in, render_number, render_with_cursor}
use runex.Expand.Rules.{is_exact_self_loop, is_pattern_self_loop, required, finish_rule, fire}
use runex.Dispatcher.{join, is_glob, around_star, glob_row}
use runex.Dispatcher.Reading.{entry, is_kept}
use runex.Dispatcher.Script.{Seen, cyg_filled, cyg_glob_out, glob_fields, glob_try}
use runex.Dispatcher.Fields.{IsKept, first_field-entry, other_fields-entry, last-entry}
use runex.Dispatcher.Blank.{cyg_is_blank-is_blank_expansion}
use runex.Dispatcher.Plain.{map_chars}
use runex.Dispatcher.Conds.{Right}
use runex.Dispatcher.Scan.{script_of}
use runex.Dispatcher.Case.{case-match_glob_key, between_parts-match_glob_key}
use runex.Dispatcher.Captured.{glob_bindings, within_limit, fill_in_captured}
use runex.Dispatcher.Bakeable.{IsBakeable, baked_parts, unbaked, rendered, when_met-try}

abbrev IsGlobbed : Abbr → Type 0
IsGlobbed r = same_phase (phase_of r) globbed ≡ true

pub glob_row-own : (r : Abbr) (fields : List Text) → glob_row r ≡ some fields → IsGlobbed r
unfolding glob_row phase_of
glob_row-own r fields e = ground arith

is_glob_of : (r : Abbr) → IsGlobbed r → is_glob r.match_kind ≡ true
unfolding phase_of
is_glob_of r h = ground arith

glob_match :
    (lib : RegexLite) (r : Abbr) (token : Text)
    → IsGlobbed r
    → match_rule lib r token
      ≡ (match_glob_key r.key token >>= λ captured. some (glob_bindings captured))
unfolding match_rule phase_of
glob_match lib r token own = ground arith

no_exact : (r : Abbr) (template : Text) → IsGlobbed r → is_exact_self_loop r template ≡ false
unfolding is_exact_self_loop
no_exact r template own = ground arith

around_star-IsKept :
    (key : Text) → IsKept key → IsKept (around_star key).0 × IsKept (around_star key).1
around_star-IsKept key h = elim (Option-cases (split_once_char b'*' key)) [
  | inl e ↦ rw (e, around_star) (h, tt)
  | inr ((head, tail), e) ↦
      let (whole, _) = split_once_char_sound b'*' key e in
      let parts = subst IsKept whole h in
      rw (e, around_star)
        (
          All-append_left (λ c. is_kept c ≡ true) head (b'*' ∷ tail) parts,
          (All-append_right (λ c. is_kept c ≡ true) head (b'*' ∷ tail) parts).1,
        )
]

module _ (exists : Text → Bool) (lib : RegexLite) (token : Text) where
  -- The script's last tests are those of the program.
  finish-glob :
      (r : Abbr) (m : Option (Text × Option ℕ)) (template captured : Text)
      → IsGlobbed r
      → map_chars m ≡ within_limit (cyg_filled template captured)
      → cyg_glob_out token template captured ≡ script_of (m >>= finish_rule exists r token)
  unfolding cyg_glob_out finish_rule is_pattern_self_loop
  finish-glob r none template captured own e = ground arith
  finish-glob r (some (t, none)) template captured own e =
      ground (arith, cyg_is_blank-is_blank_expansion t)
  finish-glob r (some (t, some off)) template captured own e =
      ground (arith, cyg_is_blank-is_blank_expansion t)

  render_glob :
      (r : Abbr) (template captured : Text)
      → IsGlobbed r
      → cyg_glob_out token template captured
        ≡ script_of (rendered exists token r (glob_bindings captured) template)
  unfolding render_with_cursor render_number
  render_glob r template captured own =
      finish-glob r
        (fill_in (extract_cursor_placeholder template).0 (extract_cursor_placeholder template).1
          (glob_bindings captured))
        template captured own (fill_in_captured captured template)

  pub glob_skipped :
      (r : Abbr)
      → IsBakeable r
      → glob_row r ≡ none
      → IsGlobbed r
      → fire exists lib token bash r ≡ none
  unfolding fire glob_row
  glob_skipped r ok e own = elim (Option-cases (match_rule lib r token)) [
    | inl idle ↦ ground (arith, idle)
    | inr (b, matched) ↦
        ground (arith, matched, unbaked exists r _ (rw (is_glob_of r own, glob_row) at e) token b)
  ]

  glob_fields-fire :
      (r : Abbr) (template : Text) (cmds : List Text) (seen : Seen)
      → IsBakeable r
      → IsGlobbed r
      → string_for_shell r.expand bash ≡ some template
      → required r.when_command_exists bash ≡ some cmds
      → Right exists seen
      → let result =
          glob_fields exists token seen r.key
            (around_star r.key).0
            (around_star r.key).1
            template
            (join (b':' ∷ []) cmds) in
        (result.1 ≡ script_of (fire exists lib token bash r)) × Right exists result.0
  unfolding glob_fields fire
  glob_fields-fire r template cmds seen ok own e1 e2 right =
      let passes = case-match_glob_key r.key token (ok.one_star own) in
      elim (Option-cases (match_glob_key r.key token)) [
        | inl miss ↦
            (rw (glob_match lib r token own, miss, passes, miss) refl, rw (passes, miss) right)
        | inr (captured, hit) ↦
            let cuts = between_parts-match_glob_key r.key token (ok.one_star own) hit in
            let (value, kept) =
              when_met-try exists token r (glob_bindings captured) template cmds seen
                (cyg_glob_out token template captured) e1 e2 (no_exact r template own)
                (ok.conds_kept cmds e2).0 right (render_glob r template captured own) in
            (rw (glob_match lib r token own, hit, passes, hit, cuts) value, rw (passes, hit) kept)
      ]

  pub glob_tried :
      (r : Abbr) (fields : List Text) (seen : Seen)
      → IsBakeable r
      → glob_row r ≡ some fields
      → Right exists seen
      → ((glob_try exists token seen (entry fields)).1 ≡ script_of (fire exists lib token bash r))
        × Right exists (glob_try exists token seen (entry fields)).0
  unfolding glob_try glob_row
  glob_tried r fields seen ok e right =
      let own = glob_row-own r fields e in
      let (template, cmds, e1, e2, same) = baked_parts r _ (rw (is_glob_of r own, glob_row) at e) in
      let conds = join (b':' ∷ []) cmds in
      let head = (around_star r.key).0 in
      let tail = (around_star r.key).1 in
      let (template_kept, _) = ok.template_kept template e1 in
      let (_, conds_kept) = ok.conds_kept cmds e2 in
      let (head_kept, tail_kept) = around_star-IsKept r.key ok.key_kept in
      rw
        (
          same,
          first_field-entry r.key head (tail ∷ template ∷ conds ∷ []) ok.key_kept,
          other_fields-entry r.key head (tail ∷ template ∷ conds ∷ []),
          first_field-entry head tail (template ∷ conds ∷ []) head_kept,
          other_fields-entry head tail (template ∷ conds ∷ []),
          first_field-entry tail template (conds ∷ []) tail_kept,
          other_fields-entry tail template (conds ∷ []),
          first_field-entry template conds [] template_kept,
          other_fields-entry template conds [],
          last-entry conds conds_kept,
        )
        (glob_fields-fire r template cmds seen ok own e1 e2 right)
