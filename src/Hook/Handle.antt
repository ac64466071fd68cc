-- ===== src/Hook/Handle.antt =====
-- The whole command: `handle` of runex/src/cmd/hook.rs.
use runex.Prelude.{
  ℕ, ◌+◌, ◌≤◌, ◌<◌, min, [], ◌∷◌, ◌++◌, Option, none, some, Bool, true, false, ◌≡◌, refl, sym,
  subst, arith, ltb, Bool-cases, ◌⊎◌, inl, inr, append_assoc,
}
use runex.Text.{Text, byte_len}
use runex.Text.Slices.{IsBoundary, byte_len-append, split_at_byte-append}
use runex.Text.Search.{Lacks}
use runex.Model.{Shell, Config}
use runex.Shell.{ShellParseError, shell_from_str, shell_error_text}
use runex.Cursor.{shell_cursor_to_byte}
use runex.Cursor.Utf16.{shell_cursor_to_byte-IsBoundary}
use runex.Expand.Keys.{RegexLite}
use runex.Hook.{
  HookAction, insert_space, line_of, cursor_of, insert_space_action, max_hook_line_bytes,
  handle_action, handle, printed, failed,
}
use runex.Hook.Words.{WordStart}
use runex.Hook.Outcome.{Outcome, Outcome-IsBoundary}
use runex.Hook.Run.{hook-Outcome}
use runex.Hook.Message.{Message, render-Message}

module _ (lib : RegexLite) (json_string : Text → Text) where
  -- What the command does to a line with the cursor between `left` and `right`: the hook's outcome
  -- where the configuration loads and the line is neither too long nor pasted, a space otherwise.
  pub data Handled (shell : Shell) (left right : Text)
      : Option (Config × (Text → Bool)) → Bool → HookAction → Type 0 where
    hooked :
        (config : Config) (exists : Text → Bool) (prefix token : Text) (action : HookAction)
        → byte_len (left ++ right) ≤ max_hook_line_bytes
        → left ≡ prefix ++ token
        → WordStart prefix
        → Lacks b' ' token
        → Outcome exists lib config shell prefix token right action
        → Handled shell left right (some (config, exists)) false action
    spaced :
        (context : Option (Config × (Text → Bool))) (paste_pending : Bool)
        → (max_hook_line_bytes < byte_len (left ++ right))
          ⊎ ((paste_pending ≡ true) ⊎ (context ≡ none))
        → Handled shell left right context paste_pending
            (insert_space (left ++ b' ' ∷ right) (byte_len left + 1))

  -- The answer to a line with a cursor in the unit of the shell: a message for a shell it knows, an
  -- error for another.
  abbrev pub Answered : Option (Config × (Text → Bool)) → Text → Text → ℕ → Bool → Type 0
  Answered context shell_str line cursor paste_pending =
      ((shell : Shell) × (left : Text) × (right : Text) × (action : HookAction) × (out : Text)
        × (shell_from_str shell_str ≡ inl shell)
        × (line ≡ left ++ right)
        × (byte_len left ≡ shell_cursor_to_byte shell line cursor)
        × (handle lib json_string context shell_str line cursor paste_pending ≡ some (printed out))
        × Handled shell left right context paste_pending action
        × Message json_string (line_of action) (cursor_of action) shell out)
      ⊎ ((error : ShellParseError) × (shell_from_str shell_str ≡ inr error)
          × (handle lib json_string context shell_str line cursor paste_pending
              ≡ some (failed (shell_error_text error))))

  insert_space_action-append :
      (a b : Text)
      → insert_space_action (a ++ b) (byte_len a)
        ≡ some (insert_space (a ++ b' ' ∷ b) (byte_len a + 1))
  unfolding insert_space_action
  insert_space_action-append a b =
      let inside : min (byte_len a) (byte_len (a ++ b)) ≡ byte_len a =
        ground (arith, byte_len-append a b) in
      rw (inside, split_at_byte-append a b) refl

  Handled-IsBoundary :
      {shell : Shell} {left right : Text} {context : Option (Config × (Text → Bool))} {paste : Bool}
      {action : HookAction}
      → Handled shell left right context paste action
      → IsBoundary (line_of action) (cursor_of action)
  Handled-IsBoundary (hooked config exists prefix token action small whole start lacks out) =
      Outcome-IsBoundary exists lib config _ out
  Handled-IsBoundary {shell} {left} {right} (spaced context paste why) = (
    left ++ b' ' ∷ [],
    right,
    sym (append_assoc left (b' ' ∷ []) right),
    omega (arith, byte_len-append left (b' ' ∷ [])),
  )

  action-Handled :
      (context : Option (Config × (Text → Bool))) (shell : Shell) (left right : Text)
      (paste_pending : Bool)
      → (action : HookAction) × (handle_action lib json_string context shell
            (left ++ right)
            (byte_len left)
            paste_pending
          ≡ some action)
        × Handled shell left right context paste_pending action
  unfolding handle_action
  action-Handled context shell left right true = (
    _,
    ground (arith, insert_space_action-append left right),
    spaced context true (inr (inl refl)),
  )
  action-Handled none shell left right false =
      (_, ground (arith, insert_space_action-append left right), spaced none false (inr (inr refl)))
  action-Handled (some (config, exists)) shell left right false =
      elim (Bool-cases (ltb max_hook_line_bytes (byte_len (left ++ right)))) [
        | inl long ↦ (
          _,
          rw (long, handle_action) (insert_space_action-append left right),
          spaced (some (config, exists)) false (inl (ground arith)),
        )
        | inr short ↦
            let (prefix, token, action, whole, start, lacks, is, out) =
              hook-Outcome exists lib config shell left right in
            (
              action,
              rw (short, handle_action) is,
              hooked config exists prefix token action (ground arith) whole start lacks out,
            )
      ]

  -- For a shell that it knows, and any line, cursor, paste flag and context, the command does not
  -- panic: it prints the message that tells the shell the line and cursor which `Handled` describes,
  -- for the line cut at the shell's cursor; for another shell it fails with the error's text.
  pub handle_answers :
      (context : Option (Config × (Text → Bool))) (shell_str line : Text) (cursor : ℕ)
      (paste_pending : Bool)
      → Answered context shell_str line cursor paste_pending
  unfolding handle
  handle_answers context shell_str line cursor paste_pending = from (shell_from_str shell_str) refl
    where
      from :
          (named : Shell ⊎ ShellParseError)
          → shell_from_str shell_str ≡ named
          → Answered context shell_str line cursor paste_pending
      from (inr error) e = inr (error, e, rw (e, handle) refl)
      from (inl shell) e =
          let (left, right, whole, at) = shell_cursor_to_byte-IsBoundary shell line cursor in
          let (action, is, handled) = action-Handled context shell left right paste_pending in
          let (out, made, message) =
            render-Message json_string shell action (Handled-IsBoundary handled) in
          let is' : handle_action lib json_string context shell line
                (shell_cursor_to_byte shell line cursor) paste_pending
              ≡ some action =
            rw (← at) (
              subst
                (λ l.
                  handle_action lib json_string context shell l (byte_len left) paste_pending
                  ≡ some action)
                (sym whole) is) in
          inl (
            shell,
            left,
            right,
            action,
            out,
            e,
            whole,
            at,
            rw (e, is', made, handle) refl,
            handled,
            message,
          )
