-- ===== src/Dispatcher/Patterns.antt =====
-- `__runex_cyg_pattern_lookup` of runex/src/app/bash_static_dispatcher.rs against the `{number}`
-- phase of runex/src/domain/expand.rs.
use runex.Prelude.{
  ℕ, zero, suc, ◌*◌, ◌≤◌, List, [], ◌∷◌, ◌++◌, Option, none, some, Bool, true, false, ◌≡◌, refl,
  sym, subst, ap, ◌∙◌, arith, All-append_left, All-append_right, is_some, Bool-cases, Option-cases,
  inl, inr, >>=-eq_some, ◌>>=◌,
}
use runex.Text.{
  Text, codes, byte_len, contains_char, split_once_text, strip_prefix, strip_suffix, repeat,
}
use runex.Text.Slices.{byte_len-append}
use runex.Text.Search.{split_once_text_sound, split_once_text-append}
use runex.Model.{bash, string_for_shell, Abbr}
use runex.Expand.Keys.{
  RegexLite, Phase, same_phase, phase_of, match_rule, match_abbr_key, Bindings, number_placeholder,
  parse_repeat, max_rendered_expand_bytes,
}
use runex.Expand.Number.{counted, match_number_key, number_key-contains_char}
use runex.Expand.Render.{
  render_repeated, extract_cursor_placeholder, fill_in, render_number, render_with_cursor,
}
use runex.Expand.Rules.{is_exact_self_loop, is_pattern_self_loop, required, try_expand_rule, fire}
use runex.Validate.Numbers.{IsNumberKey}
use runex.Dispatcher.{join, baked, pattern_row}
use runex.Dispatcher.Reading.{entry, is_kept}
use runex.Dispatcher.Script.{
  Out, Seen, at_cursor, cyg_render, cyg_repeated, cyg_count, cyg_match, pattern_fields, pattern_try,
}
use runex.Dispatcher.Fields.{IsKept, first_field-entry, other_fields-entry, last-entry}
use runex.Dispatcher.Plain.{fill_in_plain}
use runex.Dispatcher.Conds.{Right}
use runex.Dispatcher.Scan.{script_of}
use runex.Dispatcher.Count.{counts, parse_repeat-cyg_count}
use runex.Dispatcher.Bakeable.{
  IsBakeable, baked_parts, unbaked, rendered, when_met-try, filled-unless_blank,
}

abbrev IsNumbered : Abbr → Type 0
IsNumbered r = same_phase (phase_of r) Phase.number ≡ true

IsNumbered-of :
    (r : Abbr) → is_some r.match_kind ≡ false → contains_char b'{' r.key ≡ true → IsNumbered r
unfolding phase_of
IsNumbered-of r plain brace = ground arith

no_kind : (r : Abbr) → IsNumbered r → r.match_kind ≡ none
unfolding phase_of
no_kind r h = ground arith

pub pattern_row-own : (r : Abbr) (fields : List Text) → pattern_row r ≡ some fields → IsNumbered r
unfolding pattern_row
pattern_row-own r fields e = elim (Bool-cases (is_some r.match_kind)) [
  | inl other ↦ absurd (ground (arith, other, e))
  | inr plain ↦
      let (u, _, e1) = >>=-eq_some r.number _ (rw (plain, pattern_row) at e) in
      let ((a, b), found, e2) = >>=-eq_some (split_once_text number_placeholder r.key) _ e1 in
      IsNumbered-of r plain (
        ap (contains_char b'{') (split_once_text_sound number_placeholder r.key found)
        ∙ number_key-contains_char a (codes "number}" ++ b))
]

-- The row of a rule whose key has one placeholder.
pattern_row_lem :
    (r : Abbr) (n : IsNumberKey r)
    → r.match_kind ≡ none
    → pattern_row r
      ≡ baked r (λ template conds. n.prefix ∷ n.suffix ∷ template ∷ n.unit ∷ conds ∷ [])
unfolding pattern_row
pattern_row_lem r n plain = ground (
  arith,
  n.unit_set,
  ap (split_once_text number_placeholder) n.key_is
      ∙ split_once_text-append b'{' (codes "number}") n.prefix n.suffix n.prefix_plain,
)

number_match :
    (lib : RegexLite) (r : Abbr) (n : IsNumberKey r) (token : Text)
    → r.match_kind ≡ none
    → match_rule lib r token
      ≡ (strip_prefix n.prefix token >>= λ behind. strip_suffix n.suffix behind >>= parse_repeat)
unfolding match_rule
number_match lib r n token plain = ground (
  arith,
  plain,
  ap (λ key. match_abbr_key key token) n.key_is
      ∙ match_number_key n.prefix n.suffix token n.prefix_plain n.suffix_plain,
)

byte_len-repeat : (unit : Text) (n : ℕ) → byte_len (repeat unit n) ≡ byte_len unit * n
unfolding repeat
byte_len-repeat unit zero = grind arith
byte_len-repeat unit (suc n) =
    byte_len-append unit (repeat unit n) ∙ grind (arith, byte_len-repeat unit n)

-- The repeated text is the same, within the same limits.
render_number-cyg_repeated :
    (r : Abbr) (unit template : Text) (n : ℕ)
    → r.number ≡ some unit
    → render_number r template (counted n) ≡ cyg_repeated template unit n
unfolding render_number render_repeated cyg_repeated
render_number-cyg_repeated r unit template n e = ground (arith, byte_len-repeat unit n)

cyg_repeated-small :
    (template unit : Text) (n : ℕ) {base : Text}
    → cyg_repeated template unit n ≡ some base
    → byte_len base ≤ max_rendered_expand_bytes
unfolding cyg_repeated
cyg_repeated-small template unit n {base} e = ground arith

no_loops :
    (r : Abbr) (template t token : Text)
    → IsNumbered r
    → (is_exact_self_loop r template ≡ false) × (is_pattern_self_loop r t token ≡ false)
unfolding is_exact_self_loop is_pattern_self_loop
no_loops r template t token h = (ground arith, ground arith)

module _ (exists : Text → Bool) (lib : RegexLite) (token : Text) where
  -- What the script renders, behind the count.
  abbrev counted_out : Text → Text → ℕ → Option Out
  counted_out template unit n = cyg_repeated template unit n >>= cyg_render

  render_numbered :
      (r : Abbr) (unit template : Text) (n : ℕ)
      → IsNumbered r
      → r.number ≡ some unit
      → counted_out template unit n ≡ script_of (rendered exists token r (counted n) template)
  unfolding render_with_cursor cyg_render
  render_numbered r unit template n own e =
      let same = render_number-cyg_repeated r unit template n e in
      elim (Option-cases (cyg_repeated template unit n)) [
        | inl refused ↦ ground (arith, same, refused)
        | inr (base, made) ↦
            rw (made, same, made)
              (filled-unless_blank exists token r (counted n)
                (fill_in (extract_cursor_placeholder base).0 (extract_cursor_placeholder base).1
                  (counted n))
                (at_cursor base)
                (fill_in_plain (some n) base (cyg_repeated-small template unit n made))
                (λ t. (no_loops r template t token own).1))
      ]

  fire_match :
      (r : Abbr) (b : Option Bindings)
      → match_rule lib r token ≡ b
      → fire exists lib token bash r ≡ (b >>= try_expand_rule exists r token bash)
  unfolding fire
  fire_match r b e = ap (λ m. m >>= try_expand_rule exists r token bash) e

  pub pattern_skipped :
      (r : Abbr)
      → IsBakeable r
      → pattern_row r ≡ none
      → IsNumbered r
      → fire exists lib token bash r ≡ none
  unfolding fire
  pattern_skipped r ok e own =
      let n = ok.numbered own in
      elim (Option-cases (match_rule lib r token)) [
        | inl idle ↦ ground (arith, idle)
        | inr (b, matched) ↦ ground (
          arith,
          matched,
          unbaked exists r _ (sym (pattern_row_lem r n (no_kind r own)) ∙ e) token b,
        )
      ]

  matched_counts :
      (prefix suffix : Text)
      → (strip_prefix prefix token >>= λ behind. strip_suffix suffix behind >>= parse_repeat)
        ≡ counts (cyg_match prefix suffix token)
  unfolding cyg_match
  matched_counts prefix suffix = through (strip_prefix prefix token)
    where
      behind_it : (o : Option Text) → (o >>= parse_repeat) ≡ counts (o >>= cyg_count)
      behind_it none = refl
      behind_it (some rest) = parse_repeat-cyg_count rest

      through :
          (o : Option Text)
          → (o >>= λ behind. strip_suffix suffix behind >>= parse_repeat)
            ≡ counts (o >>= λ behind. strip_suffix suffix behind >>= cyg_count)
      through none = refl
      through (some behind) = behind_it (strip_suffix suffix behind)

  -- The body of the loop, for the fields of a rule.
  pattern_fields-fire :
      (r : Abbr) (n : IsNumberKey r) (template : Text) (cmds : List Text) (seen : Seen)
      → IsBakeable r
      → IsNumbered r
      → string_for_shell r.expand bash ≡ some template
      → required r.when_command_exists bash ≡ some cmds
      → Right exists seen
      → let result =
          pattern_fields exists token seen n.prefix n.suffix template n.unit
            (join (b':' ∷ []) cmds) in
        (result.1 ≡ script_of (fire exists lib token bash r)) × Right exists result.0
  unfolding pattern_fields
  pattern_fields-fire r n template cmds seen ok own e1 e2 right =
      let matched = number_match lib r n token (no_kind r own) ∙ matched_counts n.prefix n.suffix in
      let fires = fire_match r (counts (cyg_match n.prefix n.suffix token)) matched in
      elim (Option-cases (cyg_match n.prefix n.suffix token)) [
        | inl miss ↦ (rw (fires, miss, pattern_fields) refl, rw (miss, pattern_fields) right)
        | inr (count, hit) ↦
            let (value, kept) =
              when_met-try exists token r (counted count) template cmds seen
                (counted_out template n.unit count) e1 e2 (no_loops r template [] token own).0
                (ok.conds_kept cmds e2).0 right
                (render_numbered r n.unit template count own n.unit_set) in
            (rw (fires, hit, pattern_fields) value, rw (hit, pattern_fields) kept)
      ]

  pub pattern_tried :
      (r : Abbr) (fields : List Text) (seen : Seen)
      → IsBakeable r
      → pattern_row r ≡ some fields
      → Right exists seen
      → ((pattern_try exists token seen (entry fields)).1
          ≡ script_of (fire exists lib token bash r))
        × Right exists (pattern_try exists token seen (entry fields)).0
  unfolding pattern_try
  pattern_tried r fields seen ok e right =
      let own = pattern_row-own r fields e in
      let n = ok.numbered own in
      let (template, cmds, e1, e2, same) =
        baked_parts r _ (sym (pattern_row_lem r n (no_kind r own)) ∙ e) in
      let conds = join (b':' ∷ []) cmds in
      let (template_kept, _) = ok.template_kept template e1 in
      let (_, conds_kept) = ok.conds_kept cmds e2 in
      let key_kept = subst IsKept n.key_is ok.key_kept in
      let kept = λ (c : ℕ). is_kept c ≡ true in
      let prefix_kept = All-append_left kept n.prefix (number_placeholder ++ n.suffix) key_kept in
      let suffix_kept =
        All-append_right kept number_placeholder n.suffix
          (All-append_right kept n.prefix (number_placeholder ++ n.suffix) key_kept) in
      rw
        (
          same,
          first_field-entry n.prefix n.suffix (template ∷ n.unit ∷ conds ∷ []) prefix_kept,
          other_fields-entry n.prefix n.suffix (template ∷ n.unit ∷ conds ∷ []),
          first_field-entry n.suffix template (n.unit ∷ conds ∷ []) suffix_kept,
          other_fields-entry n.suffix template (n.unit ∷ conds ∷ []),
          first_field-entry template n.unit (conds ∷ []) template_kept,
          other_fields-entry template n.unit (conds ∷ []),
          first_field-entry n.unit conds [] (ok.unit_kept own n.unit n.unit_set),
          other_fields-entry n.unit conds [],
          last-entry conds conds_kept,
        )
        (pattern_fields-fire r n template cmds seen ok own e1 e2 right)
