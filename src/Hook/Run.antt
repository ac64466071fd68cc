-- ===== src/Hook/Run.antt =====
-- The hook, step by step, against its outcome: `hook` of runex/src/domain/hook.rs.
use runex.Prelude.{
  ℕ, ◌+◌, min, [], ◌∷◌, ◌++◌, Option, none, some, Bool, true, false, ◌≡◌, ◌≢◌, refl, sym, subst,
  arith, ◌==◌, cons-ne-nil, Bool-cases, ◌⊎◌, inl, inr, ◌>>=◌, ltb,
}
use runex.Text.{Text, byte_len, split_at_byte}
use runex.Text.Slices.{len_utf8_pos, byte_len-append, IsBoundary, split_at_byte-append}
use runex.Model.{Shell, Config, ExpandResult, expanded, pass_through}
use runex.Expand.Keys.{RegexLite}
use runex.Expand.Rules.{expand}
use runex.Cursor.{shell_cursor_to_byte}
use runex.Cursor.Utf16.{shell_cursor_to_byte-IsBoundary}
use runex.Hook.{
  HookAction, insert_space, line_of, cursor_of, is_command_position, token_start_of,
  insert_space_at, splice, is_known_token, expand_token, hook_word, hook_sides, hook_at, hook,
}
use runex.Hook.Position.{CommandPosition, is_command_position_iff}
use runex.Hook.Words.{line_start, last_word_split}
use runex.Hook.Outcome.{
  Expands, replaced_end, replaced_at, kept, Reached, Led, unknown_passes, Outcome-IsBoundary,
}

module _ (exists : Text → Bool) (lib : RegexLite) (config : Config) (shell : Shell) where
  inserted :
      (a b : Text)
      → insert_space_at (a ++ b) (byte_len a) ≡ some (insert_space (a ++ b' ' ∷ b) (byte_len a + 1))
  unfolding insert_space_at
  inserted a b = rw (split_at_byte-append a b) refl

  not_expanding :
      (prefix token right : Text)
      → ((text : Text) (cursor : Option ℕ)
          → ¬ Expands exists lib config shell prefix token right text cursor)
      → Reached exists lib config shell prefix token right
          (insert_space_at ((prefix ++ token) ++ right) (byte_len (prefix ++ token)))
  not_expanding prefix token right why = (_, inserted (prefix ++ token) right, kept why)

  -- What the expansion of a token at the edge makes of the line.
  expand_token-Outcome :
      (prefix token right : Text)
      → (right ≡ []) ⊎ ((r : Text) × (right ≡ b' ' ∷ r))
      → token ≢ []
      → CommandPosition prefix
      → Reached exists lib config shell prefix token right (
          expand_token exists lib config shell
            ((prefix ++ token) ++ right)
            prefix
            token
            right
            (byte_len (prefix ++ token)))
  unfolding expand_token splice
  expand_token-Outcome prefix token right edge some_token position =
      from (expand exists lib token shell config) refl
    where
      from :
          (res : ExpandResult)
          → expand exists lib token shell config ≡ res
          → Reached exists lib config shell prefix token right (
              expand_token exists lib config shell
                ((prefix ++ token) ++ right)
                prefix
                token
                right
                (byte_len (prefix ++ token)))
      from (expanded text none) e = (
        _,
        rw (e, expand_token) refl,
        replaced_end text
            (record { at_edge = edge; some_token = some_token; position = position; result = e }),
      )
      from (expanded text (some off)) e = (
        _,
        rw (e, expand_token) refl,
        replaced_at text off
            (record { at_edge = edge; some_token = some_token; position = position; result = e }),
      )
      from (pass_through t) e =
          let (action, is, out) =
            not_expanding prefix token right (λ text cursor x. ground (arith, x.result)) in
          (action, rw (e, expand_token) is, out)

  hook_word-Outcome :
      (prefix token right : Text)
      → (right ≡ []) ⊎ ((r : Text) × (right ≡ b' ' ∷ r))
      → Reached exists lib config shell prefix token right (
          hook_word exists lib config shell
            ((prefix ++ token) ++ right)
            prefix
            token
            right
            (byte_len (prefix ++ token)))
  unfolding hook_word
  hook_word-Outcome prefix [] right edge =
      not_expanding prefix [] right (λ text cursor x. x.some_token refl)
  hook_word-Outcome prefix (c ∷ t) right edge = elim (Bool-cases (is_command_position prefix)) [
    | inr off ↦
        let (action, is, out) =
          not_expanding prefix (c ∷ t) right
            (λ text cursor x. ground (arith, (is_command_position_iff prefix).1 x.position)) in
        (action, rw (off, hook_word) is, out)
    | inl on ↦ elim (Bool-cases (is_known_token exists lib config (c ∷ t))) [
      | inr unknown ↦
          let (action, is, out) =
            not_expanding prefix (c ∷ t) right
              (λ text cursor x. unknown_passes exists lib config shell (c ∷ t) unknown x.result) in
          (action, rw (on, unknown, hook_word) is, out)
      | inl known ↦
          let (action, is, out) =
            expand_token-Outcome prefix (c ∷ t) right edge (λ e. cons-ne-nil c t e)
              ((is_command_position_iff prefix).0 on) in
          (action, rw (on, known, hook_word) is, out)
    ]
  ]

  -- The last word of the left side.
  last_word-Outcome :
      (left right : Text)
      → (right ≡ []) ⊎ ((r : Text) × (right ≡ b' ' ∷ r))
      → Led exists lib config shell left right (elim (token_start_of left) [
        | none ↦ insert_space_at (left ++ right) (byte_len left)
        | some token_start ↦ do
          sides ← split_at_byte left token_start
          hook_word exists lib config shell (left ++ right) sides.0 sides.1 right (byte_len left)
      ])
  unfolding token_start_of
  last_word-Outcome [] right edge =
      let (action, is, out) = not_expanding [] [] right (λ text cursor x. x.some_token refl) in
      ([], [], action, refl, line_start, tt, is, out)
  last_word-Outcome (c ∷ l) right edge =
      let (prefix, token, cut, whole, start, lacks) = last_word_split (c ∷ l) in
      let (action, is, out) = hook_word-Outcome prefix token right edge in
      (
        prefix,
        token,
        action,
        whole,
        start,
        lacks,
        rw (cut) (
            subst
              (λ t.
                hook_word exists lib config shell (t ++ right) prefix token right (byte_len t)
                ≡ some action)
              (sym whole) is),
        out,
      )

  hook_sides-Outcome :
      (left right : Text)
      → Led exists lib config shell left right
          (hook_sides exists lib config shell (left ++ right) left right (byte_len left))
  unfolding hook_sides
  hook_sides-Outcome left right = from right
    where
      from :
          (right : Text)
          → Led exists lib config shell left right
              (hook_sides exists lib config shell (left ++ right) left right (byte_len left))
      from [] =
          let (prefix, token, action, whole, start, lacks, is, out) =
            last_word-Outcome left [] (inl refl) in
          let shut : ltb (byte_len left) (byte_len (left ++ [])) ≡ false =
            ground (arith, byte_len-append left []) in
          (prefix, token, action, whole, start, lacks, rw (shut, hook_sides) is, out)
      from (c ∷ r) = elim (Bool-cases (c == b' ')) [
        | inl e ↦
            let (prefix, token, action, whole, start, lacks, is, out) =
              last_word-Outcome left (c ∷ r) (inr (r, ground arith)) in
            (prefix, token, action, whole, start, lacks, ground arith, out)
        | inr e ↦
            let (prefix, token, cut, whole, start, lacks) = last_word_split left in
            let (action, is, out) =
              not_expanding prefix token (c ∷ r) (λ text cursor x. ground (arith, x.at_edge)) in
            let open' : ltb (byte_len left) (byte_len (left ++ c ∷ r)) ≡ true =
              ground (arith, byte_len-append left (c ∷ r), len_utf8_pos c) in
            (
              prefix,
              token,
              action,
              whole,
              start,
              lacks,
              rw (open', e, hook_sides)
                  (subst (λ t. insert_space_at (t ++ c ∷ r) (byte_len t) ≡ some action) (sym whole)
                    is),
              out,
            )
      ]

  -- With the cursor behind `left` and before `right`, the hook never panics. The last word of
  -- `left`, what follows the last space, is the token; it is replaced by its expansion exactly where
  -- it ends at a space or the end of the line, is not empty, stands in command position and
  -- expands, with the cursor where the expansion asks for it or behind a space added to it; in all
  -- other cases a space is inserted at the cursor.
  pub hook-Outcome :
      (left right : Text)
      → Led exists lib config shell left right
          (hook exists lib config shell (left ++ right) (byte_len left))
  unfolding hook hook_at
  hook-Outcome left right =
      let (prefix, token, action, whole, start, lacks, is, out) = hook_sides-Outcome left right in
      let inside : min (byte_len left) (byte_len (left ++ right)) ≡ byte_len left =
        ground (arith, byte_len-append left right) in
      (
        prefix,
        token,
        action,
        whole,
        start,
        lacks,
        rw (inside, split_at_byte-append left right, hook_at) is,
        out,
      )

  -- Whatever the line and the cursor that the shell sends, the hook does not panic, and the cursor
  -- it answers is on a character boundary of the line it answers.
  pub hook-IsBoundary :
      (line : Text) (cursor : ℕ)
      → (action : HookAction) × (hook exists lib config shell line
            (shell_cursor_to_byte shell line cursor)
          ≡ some action)
        × IsBoundary (line_of action) (cursor_of action)
  hook-IsBoundary line cursor =
      let (left, right, whole, at) = shell_cursor_to_byte-IsBoundary shell line cursor in
      let (prefix, token, action, _, _, _, is, out) = hook-Outcome left right in
      (
        action,
        rw (← at) (
            subst (λ l. hook exists lib config shell l (byte_len left) ≡ some action) (sym whole)
              is),
        Outcome-IsBoundary exists lib config shell out,
      )
