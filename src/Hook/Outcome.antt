-- ===== src/Hook/Outcome.antt =====
-- What a press of the trigger key does to the line: `hook` of runex/src/domain/hook.rs.
use runex.Prelude.{
  ℕ, ◌+◌, List, [], ◌∷◌, ◌++◌, Option, none, some, Bool, false, ◌≡◌, ◌≢◌, refl, sym, subst, ap, ◌∙◌,
  arith, is_some, any, All, All-append_right, append_assoc, Option-cases, ◌⊎◌, inl, inr,
}
use runex.Text.{Text, byte_len}
use runex.Text.Slices.{byte_len-append, IsBoundary}
use runex.Text.Search.{Lacks}
use runex.Model.{Shell, Abbr, Config, expanded}
use runex.Expand.Keys.{RegexLite, match_rule}
use runex.Expand.Rules.{fire, expand}
use runex.Expand.Rendering.{CursorFits, Rendered-CursorFits}
use runex.Expand.Firing.{fire_sound}
use runex.Expand.Priority.{expand_chooses}
use runex.Hook.{HookAction, replace, insert_space, line_of, cursor_of, is_known_token}
use runex.Hook.Position.{CommandPosition}
use runex.Hook.Words.{WordStart}

module _ (exists : Text → Bool) (lib : RegexLite) (config : Config) (shell : Shell) where
  -- The token ends at the cursor, before a space or at the end of the line, it is not empty, it
  -- stands where a command may, and it expands to the text.
  pub record Expands (prefix token right text : Text) (cursor : Option ℕ) : Type 0 where
    pub at_edge : (right ≡ []) ⊎ ((r : Text) × (right ≡ b' ' ∷ r))
    pub some_token : token ≢ []
    pub position : CommandPosition prefix
    pub result : expand exists lib token shell config ≡ expanded text cursor

  -- What may happen to a line whose cursor stands behind a prefix and a token.
  pub data Outcome (prefix token right : Text) : HookAction → Type 0 where
    replaced_end :
        (text : Text)
        → Expands prefix token right text none
        → Outcome prefix token right
            (replace (prefix ++ (text ++ b' ' ∷ right)) (byte_len prefix + byte_len text + 1))
    replaced_at :
        (text : Text) (off : ℕ)
        → Expands prefix token right text (some off)
        → Outcome prefix token right (replace (prefix ++ (text ++ right)) (byte_len prefix + off))
    kept :
        ((text : Text) (cursor : Option ℕ) → ¬ Expands prefix token right text cursor)
        → Outcome prefix token right
            (insert_space ((prefix ++ token) ++ b' ' ∷ right) (byte_len (prefix ++ token) + 1))

  -- The run answers with such an outcome; it does so for the last word of `left` as its token.
  abbrev pub Reached : Text → Text → Text → Option HookAction → Type 0
  Reached prefix token right run =
      (action : HookAction) × (run ≡ some action) × Outcome prefix token right action

  abbrev pub Led : Text → Text → Option HookAction → Type 0
  Led left right run =
      (prefix : Text) × (token : Text) × (action : HookAction) × (left ≡ prefix ++ token)
      × WordStart prefix
      × Lacks b' ' token
      × (run ≡ some action)
      × Outcome prefix token right action

  unknown_idle :
      (token : Text) (rules : List Abbr)
      → any (λ abbr. is_some (match_rule lib abbr token)) rules ≡ false
      → All (λ r. fire exists lib token shell r ≡ none) rules
  unfolding fire
  unknown_idle token [] h = tt
  unknown_idle token (r ∷ rules) h = elim (Option-cases (match_rule lib r token)) [
    | inl e ↦ (rw (e, fire) refl, unknown_idle token rules (ground arith))
    | inr (b, e) ↦ absurd (ground arith)
  ]

  -- A token that no rule matches is passed through.
  pub unknown_passes :
      (token : Text) {text : Text} {cursor : Option ℕ}
      → is_known_token exists lib config token ≡ false
      → ¬ (expand exists lib token shell config ≡ expanded text cursor)
  unfolding is_known_token
  unknown_passes token h e = elim (expand_chooses exists lib token shell config) [
    | inr (through, _) ↦ cc
    | inl (res, _, chosen) ↦
        let idle = unknown_idle token config.abbr h in
        let here =
          All-append_right (λ r. fire exists lib token shell r ≡ none) chosen.before
            (chosen.rule ∷ chosen.after)
            (subst (All (λ r. fire exists lib token shell r ≡ none)) chosen.whole idle) in
        let fires = chosen.fires in cc
  ]

  -- The cursor of an expansion is on a boundary of its text.
  pub expanded-CursorFits :
      (token : Text) {text : Text} {cursor : Option ℕ}
      → expand exists lib token shell config ≡ expanded text cursor
      → CursorFits text cursor
  expanded-CursorFits token {text} {cursor} e =
      elim (expand_chooses exists lib token shell config) [
        | inr (through, _) ↦ absurd (ground arith)
        | inl (res, is, chosen) ↦
            let (text', cursor', same, fires) =
              fire_sound exists lib token shell chosen.rule chosen.fires in
            let te : text' ≡ text = ground arith in
            let ce : cursor' ≡ cursor = ground arith in
            rw (← te, ← ce) (Rendered-CursorFits fires.rendered)
      ]

  pub Outcome-IsBoundary :
      {prefix token right : Text} {action : HookAction}
      → Outcome prefix token right action
      → IsBoundary (line_of action) (cursor_of action)
  Outcome-IsBoundary {prefix} {token} {right} (replaced_end text x) = (
    prefix ++ (text ++ b' ' ∷ []),
    right,
    ap (λ t. prefix ++ t) (sym (append_assoc text (b' ' ∷ []) right))
        ∙ sym (append_assoc prefix (text ++ b' ' ∷ []) right),
    omega (arith, byte_len-append prefix (text ++ b' ' ∷ []), byte_len-append text (b' ' ∷ [])),
  )
  Outcome-IsBoundary {prefix} {token} {right} (replaced_at text off x) =
      let (a, b, whole, at) = expanded-CursorFits token x.result in
      (
        prefix ++ a,
        b ++ right,
        ap (λ t. prefix ++ (t ++ right)) whole
            ∙ ap (λ t. prefix ++ t) (append_assoc a b right)
            ∙ sym (append_assoc prefix a (b ++ right)),
        omega (arith, byte_len-append prefix a, at),
      )
  Outcome-IsBoundary {prefix} {token} {right} (kept why) = (
    (prefix ++ token) ++ b' ' ∷ [],
    right,
    sym (append_assoc (prefix ++ token) (b' ' ∷ []) right),
    omega (arith, byte_len-append (prefix ++ token) (b' ' ∷ [])),
  )
