-- ===== src/Dispatcher/Pressed.antt =====
-- A press of the trigger key in Git Bash: the script of runex/src/app/bash_static_dispatcher.rs
-- against `hook` of runex/src/domain/hook.rs.
use runex.Prelude.{
  ℕ, ◌+◌, [], ◌∷◌, ◌++◌, Option, none, some, Bool, true, false, ◌≡◌, refl, sym, subst, ap, ◌∙◌,
  arith, All, length, length-append, take-append, drop-append, append_assoc, cons-ne-nil,
  Bool-cases, ◌⊎◌, inl, inr, ◌==◌,
}
use runex.Text.{Text, byte_len}
use runex.Text.Slices.{byte_len-append}
use runex.Text.Search.{Lacks}
use runex.Model.{bash, Config, ExpandResult, expanded, pass_through}
use runex.Expand.Keys.{RegexLite}
use runex.Expand.Rules.{expand}
use runex.Expand.Rendering.{CursorFits}
use runex.Cursor.{byte_cursor_to_char}
use runex.Cursor.Chars.{byte_cursor_to_char-append}
use runex.Hook.{HookAction, line_of, cursor_of, is_command_position, hook, shell_cursor}
use runex.Hook.Words.{WordStart}
use runex.Hook.Position.{CommandPosition, is_command_position_iff}
use runex.Hook.Outcome.{Outcome, replaced_end, replaced_at, kept, expanded-CursorFits}
use runex.Hook.Run.{hook-Outcome}
use runex.Dispatcher.Script.{Out, Tables, cyg_lookups}
use runex.Dispatcher.Press.{
  spaced, put_out, cyg_expand_token, cyg_expand_word, cyg_expand_sides, cyg_expand,
}
use runex.Dispatcher.Words.{
  last_word-append, without_word-append, cyg_is_command_position-is_command_position,
}
use runex.Dispatcher.Plain.{in_chars}
use runex.Dispatcher.Scan.{script_of}
use runex.Dispatcher.Accepted.{IsOneLineRule}
use runex.Dispatcher.Agreement.{tables_of, IsNoRegex, cyg_lookups-expand}
use runex.Validate.Load.{parse_config}

-- The line and the cursor, in characters, that an action hands to bash.
abbrev pub in_bash : HookAction → Text × ℕ
in_bash action = (line_of action, shell_cursor bash (line_of action) (cursor_of action))

behind_part :
    (a b : Text) {line : Text} {at : ℕ}
    → line ≡ a ++ b
    → at ≡ byte_len a
    → byte_cursor_to_char line at ≡ length a
behind_part a b whole at = rw (whole, at) (byte_cursor_to_char-append a b)

in_bash-spaced :
    (left right : Text)
    → (left ++ b' ' ∷ right, byte_cursor_to_char (left ++ b' ' ∷ right) (byte_len left + 1))
      ≡ spaced left right
in_bash-spaced left right =
    ap (λ n. (left ++ b' ' ∷ right, n))
      (behind_part (left ++ b' ' ∷ []) right (sym (append_assoc left (b' ' ∷ []) right))
          (omega (arith, byte_len-append left (b' ' ∷ [])))
        ∙ length-append left (b' ' ∷ []))

in_bash-end :
    (prefix text right : Text)
    → (
      prefix ++ (text ++ b' ' ∷ right),
      byte_cursor_to_char (prefix ++ (text ++ b' ' ∷ right)) (byte_len prefix + byte_len text + 1),
    )
      ≡ put_out prefix right (text, none)
in_bash-end prefix text right =
    ap (λ n. (prefix ++ (text ++ b' ' ∷ right), n))
      (behind_part (prefix ++ (text ++ b' ' ∷ [])) right
          (ap (λ t. prefix ++ t) (sym (append_assoc text (b' ' ∷ []) right))
            ∙ sym (append_assoc prefix (text ++ b' ' ∷ []) right))
          (omega
            (arith, byte_len-append prefix (text ++ b' ' ∷ []), byte_len-append text (b' ' ∷ [])))
        ∙ omega (arith, length-append prefix (text ++ b' ' ∷ []), length-append text (b' ' ∷ [])))

in_bash-at :
    (prefix text right : Text) (off : ℕ)
    → CursorFits text (some off)
    → (
      prefix ++ (text ++ right),
      byte_cursor_to_char (prefix ++ (text ++ right)) (byte_len prefix + off),
    )
      ≡ put_out prefix right (in_chars (text, some off))
in_bash-at prefix text right off (a, b, whole, at) =
    ap (λ n. (prefix ++ (text ++ right), n))
      (behind_part (prefix ++ a) (b ++ right)
          (ap (λ t. prefix ++ (t ++ right)) whole
            ∙ ap (λ t. prefix ++ t) (append_assoc a b right)
            ∙ sym (append_assoc prefix a (b ++ right)))
          (omega (arith, byte_len-append prefix a, at))
        ∙ omega (arith, length-append prefix a, behind_part a b whole (sym at)))

module _ (exists : Text → Bool) (lib : RegexLite) (config : Config) (tables : Tables)
    (agree : (token : Text)
      → cyg_lookups exists tables token
        ≡ script_of (some (expand exists lib token bash config))) where
  abbrev out_of : Text → Text → Text → Option Out → Text × ℕ
  out_of left prefix right none = spaced left right
  out_of left prefix right (some out) = put_out prefix right out

  at_word :
      (prefix : Text) (c : ℕ) (t right : Text)
      → cyg_expand_word exists tables (prefix ++ c ∷ t) right (c ∷ t)
        ≡ cyg_expand_token exists tables (prefix ++ c ∷ t) right prefix (c ∷ t)
  unfolding cyg_expand_word
  at_word prefix c t right =
      ap (λ p. cyg_expand_token exists tables (prefix ++ c ∷ t) right p (c ∷ t))
        (without_word-append prefix (c ∷ t))

  -- In command position the script does what the expansion asks for, and elsewhere nothing.
  on_position :
      (left prefix token right : Text) (res : ExpandResult)
      → is_command_position prefix ≡ true
      → expand exists lib token bash config ≡ res
      → cyg_expand_token exists tables left right prefix token
        ≡ out_of left prefix right (script_of (some res))
  unfolding cyg_expand_token
  on_position left prefix token right res on e =
      rw (cyg_is_command_position-is_command_position prefix, on, cyg_expand_token, agree token, e)
        (through (script_of (some res)))
    where
      through :
          (o : Option Out)
          → (elim o [ none ↦ spaced left right | some out ↦ put_out prefix right out ])
            ≡ out_of left prefix right o
      through none = refl
      through (some out) = refl

  off_position :
      (left prefix token right : Text)
      → is_command_position prefix ≡ false
      → cyg_expand_token exists tables left right prefix token ≡ spaced left right
  unfolding cyg_expand_token
  off_position left prefix token right off =
      rw (cyg_is_command_position-is_command_position prefix, off, cyg_expand_token) refl

  -- The last word, and an action that the hook may answer with.
  word-Outcome :
      (prefix token right : Text) (action : HookAction)
      → (right ≡ []) ⊎ ((r : Text) × (right ≡ b' ' ∷ r))
      → Outcome exists lib config bash prefix token right action
      → cyg_expand_word exists tables (prefix ++ token) right token ≡ in_bash action
  unfolding cyg_expand_word shell_cursor
  word-Outcome prefix [] right _ edge (replaced_end text x) = absurd (x.some_token refl)
  word-Outcome prefix [] right _ edge (replaced_at text off x) = absurd (x.some_token refl)
  word-Outcome prefix [] right _ edge (kept why) = sym (in_bash-spaced (prefix ++ []) right)
  word-Outcome prefix (c ∷ t) right _ edge (replaced_end text x) =
      at_word prefix c t right
      ∙ on_position (prefix ++ c ∷ t) prefix (c ∷ t) right (expanded text none)
          ((is_command_position_iff prefix).1 x.position) x.result
      ∙ sym (in_bash-end prefix text right)
  word-Outcome prefix (c ∷ t) right _ edge (replaced_at text off x) =
      at_word prefix c t right
      ∙ on_position (prefix ++ c ∷ t) prefix (c ∷ t) right (expanded text (some off))
          ((is_command_position_iff prefix).1 x.position) x.result
      ∙ sym (
          in_bash-at prefix text right off
            (expanded-CursorFits exists lib config bash (c ∷ t) x.result))
  word-Outcome prefix (c ∷ t) right _ edge (kept why) =
      at_word prefix c t right
      ∙ stays (is_command_position prefix) refl
      ∙ sym (in_bash-spaced (prefix ++ c ∷ t) right)
    where
      known :
          (res : ExpandResult)
          → CommandPosition prefix
          → expand exists lib (c ∷ t) bash config ≡ res
          → out_of (prefix ++ c ∷ t) prefix right (script_of (some res))
            ≡ spaced (prefix ++ c ∷ t) right
      known (pass_through token) position e = refl
      known (expanded text cursor) position e = absurd (
          why text cursor (record {
            at_edge = edge;
            some_token = cons-ne-nil c t;
            position = position;
            result = e;
          }))

      stays :
          (on : Bool)
          → is_command_position prefix ≡ on
          → cyg_expand_token exists tables (prefix ++ c ∷ t) right prefix (c ∷ t)
            ≡ spaced (prefix ++ c ∷ t) right
      stays false off = off_position (prefix ++ c ∷ t) prefix (c ∷ t) right off
      stays true on =
          on_position (prefix ++ c ∷ t) prefix (c ∷ t) right _ on refl
          ∙ known _ ((is_command_position_iff prefix).0 on) refl

  -- Whatever stands behind the point.
  sides-Outcome :
      (prefix token right : Text) (action : HookAction)
      → WordStart prefix
      → Lacks b' ' token
      → Outcome exists lib config bash prefix token right action
      → cyg_expand_sides exists tables (prefix ++ token) right ≡ in_bash action
  unfolding cyg_expand_sides shell_cursor
  sides-Outcome prefix token [] action start lacks out =
      rw (last_word-append prefix token start lacks)
        (word-Outcome prefix token [] action (inl refl) out)
  sides-Outcome prefix token (c ∷ r) action start lacks out = elim (Bool-cases (c == b' ')) [
    | inl e ↦
        rw (e, last_word-append prefix token start lacks)
          (word-Outcome prefix token (c ∷ r) action (inr (r, ground arith)) out)
    | inr e ↦ rw e (inside e out)
  ]
    where
      inside :
          {action : HookAction}
          → (c == b' ') ≡ false
          → Outcome exists lib config bash prefix token (c ∷ r) action
          → spaced (prefix ++ token) (c ∷ r) ≡ in_bash action
      inside e (kept why) = sym (in_bash-spaced (prefix ++ token) (c ∷ r))
      inside e (replaced_end text x) = absurd (ground (arith, e, x.at_edge))
      inside e (replaced_at text off x) = absurd (ground (arith, e, x.at_edge))

  -- The script's answer for a point behind `left`, where its tables answer as `expand` does.
  pressed :
      (left right : Text)
      → (action : HookAction) × (hook exists lib config bash (left ++ right) (byte_len left)
          ≡ some action)
        × (cyg_expand exists tables (left ++ right) (length left) ≡ in_bash action)
  unfolding cyg_expand
  pressed left right =
      let (prefix, token, action, whole, start, lacks, runs, out) =
        hook-Outcome exists lib config bash left right in
      (
        action,
        runs,
        rw (take-append left right, drop-append left right)
            (subst (λ l. cyg_expand_sides exists tables l right ≡ in_bash action) (sym whole)
              (sides-Outcome prefix token right action start lacks out)),
      )

module _ (from_str : Text → Text ⊎ Config) (exists : Text → Bool) (lib : RegexLite) where
  -- With a configuration that loads, has no regex rule and no line separator of Unicode in its rules,
  -- a press of the trigger key in Git Bash, with the point behind `left` and before `right`, leaves
  -- the line and the point that the hook answers for bash, with the same test for commands; the
  -- hook does not panic. The script works on its own tables, as bash reads them.
  pub cyg_expand-hook :
      (s : Text) {config : Config} (left right : Text)
      → parse_config from_str lib s ≡ inr config
      → All IsOneLineRule config.abbr
      → All IsNoRegex config.abbr
      → (action : HookAction) × (hook exists lib config bash (left ++ right) (byte_len left)
          ≡ some action)
        × (cyg_expand exists (tables_of config.abbr) (left ++ right) (length left) ≡ in_bash action)
  cyg_expand-hook s {config} left right loads lines plain =
      pressed exists lib config (tables_of config.abbr)
        (λ token. cyg_lookups-expand from_str exists lib s token loads lines plain) left right
