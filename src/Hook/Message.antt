-- ===== src/Hook/Message.antt =====
-- What the shell is told: `render` of runex/src/app/hook.rs and `render_action` of
-- runex/src/domain/hook.rs.
use Prim.Native.Nat.{◌/◌, ◌%◌}
use runex.Prelude.{
  ℕ, zero, suc, ◌+◌, ◌-◌, ◌*◌, ◌<◌, [], ◌∷◌, ◌++◌, some, ◌≡◌, ◌≢◌, refl, ap, arith, ltb, Bool-cases,
  All-append, length, length-append, inl, inr,
}
use runex.Text.{digits, decimal, Text, codes, byte_len}
use runex.Text.Slices.{IsBoundary, split_at_byte-append}
use runex.Model.{Shell, bash, zsh, pwsh, clink, nu}
use runex.Shell.{bash_quote_buffer, pwsh_double_quote_string, lua_quote_string}
use runex.Cursor.{shell_cursor_to_byte}
use runex.Cursor.Chars.{byte_cursor_to_char-append, char_cursor_to_byte-append}
use runex.Cursor.Utf16.{byte_cursor_to_utf16-append, utf16_cursor_to_byte-append}
use runex.Expand.Number.{IsDigits, value}
use runex.Hook.{
  HookAction, replace, insert_space, line_of, cursor_of, shell_cursor, render_parts, render_action,
  render,
}

value-append : (v : ℕ) (a b : Text) → value v (a ++ b) ≡ value (value v a) b
value-append v [] b = refl
value-append v (c ∷ a) b = value-append (v * 10 + (c - b'0')) a b

-- The text is the number in decimal.
pub record IsDecimal (n : ℕ) (number : Text) : Type 0 where
  pub some_digit : number ≢ []
  pub digits_only : IsDigits number
  pub spelled : value 0 number ≡ n

digits-value : (fuel n : ℕ) → n < fuel → value 0 (digits fuel n) ≡ n
digits-value zero n h = ground arith
digits-value (suc fuel) n h = elim (Bool-cases (ltb n 10)) [
  | inl small ↦ rw small (omega arith)
  | inr large ↦
      rw
        (
          large,
          value-append 0 (digits fuel (n / 10)) ((b'0' + n % 10) ∷ []),
          digits-value fuel (n / 10) (ground arith),
        )
        (omega arith)
]

digits-IsDigits : (fuel n : ℕ) → IsDigits (digits fuel n)
digits-IsDigits zero n = tt
digits-IsDigits (suc fuel) n = elim (Bool-cases (ltb n 10)) [
  | inl small ↦ rw small (ground arith)
  | inr large ↦ rw large (
      All-append _ (digits fuel (n / 10)) ((b'0' + n % 10) ∷ []) (digits-IsDigits fuel (n / 10))
        (ground arith))
]

digits_some : (fuel n : ℕ) → digits (suc fuel) n ≢ []
digits_some fuel n e = elim (Bool-cases (ltb n 10)) [
  | inl small ↦ ground arith
  | inr large ↦
      ground (arith, length-append {0} (digits fuel (n / 10)) ((b'0' + n % 10) ∷ []), ap length e)
]

decimal-IsDecimal : (n : ℕ) → IsDecimal n (decimal n)
decimal-IsDecimal n = record {
  some_digit = digits_some n n;
  digits_only = digits-IsDigits (suc n) n;
  spelled = digits-value (suc n) n (omega arith);
}

-- A cursor on a boundary is where the shell puts it, when it counts the number it is told.
shell_cursor_to_byte-shell_cursor :
    (sh : Shell) (line : Text) (n : ℕ)
    → sh ≢ zsh
    → IsBoundary line n
    → shell_cursor_to_byte sh line (shell_cursor sh line n) ≡ n
unfolding shell_cursor_to_byte shell_cursor
shell_cursor_to_byte-shell_cursor bash _ n ne (a, b, whole, at) =
    ground (arith, byte_cursor_to_char-append a b, char_cursor_to_byte-append a b)
shell_cursor_to_byte-shell_cursor zsh _ n ne (a, b, whole, at) = absurd (ne refl)
shell_cursor_to_byte-shell_cursor pwsh _ n ne (a, b, whole, at) =
    ground (arith, byte_cursor_to_utf16-append a b, utf16_cursor_to_byte-append a b)
shell_cursor_to_byte-shell_cursor clink _ n ne (a, b, whole, at) =
    ground (arith, byte_cursor_to_char-append a b, char_cursor_to_byte-append a b)
shell_cursor_to_byte-shell_cursor nu _ n ne (a, b, whole, at) =
    ground (arith, byte_cursor_to_char-append a b, char_cursor_to_byte-append a b)

module _ (json_string : Text → Text) where
  -- The message of a shell for a line and a byte cursor: the line quoted for it, and the cursor
  -- as a number that the shell counts from the line's start, in its own unit, to the same place; zsh
  -- is sent the two sides of the cursor.
  pub data Message (line : Text) (cursor : ℕ) : Shell → Text → Type 0 where
    to_bash :
        (n : ℕ) (number : Text)
        → IsDecimal n number
        → shell_cursor_to_byte bash line n ≡ cursor
        → Message line cursor bash (
            codes "READLINE_LINE="
            ++ (bash_quote_buffer line ++ (codes "; READLINE_POINT=" ++ number)))
    to_zsh :
        (left right : Text)
        → line ≡ left ++ right
        → byte_len left ≡ cursor
        → Message line cursor zsh (
            codes "LBUFFER="
            ++ (bash_quote_buffer left ++ (codes "; RBUFFER=" ++ bash_quote_buffer right)))
    to_pwsh :
        (n : ℕ) (number : Text)
        → IsDecimal n number
        → shell_cursor_to_byte pwsh line n ≡ cursor
        → Message line cursor pwsh (
            codes "$__RUNEX_LINE = "
            ++ (pwsh_double_quote_string line ++ (b'\n' ∷ codes "$__RUNEX_CURSOR = " ++ number)))
    to_clink :
        (n : ℕ) (number : Text)
        → IsDecimal n number
        → shell_cursor_to_byte clink line n ≡ cursor
        → Message line cursor clink (
            codes "return { line = "
            ++ (lua_quote_string line ++ (codes ", cursor = " ++ (number ++ codes " }"))))
    to_nu :
        (n : ℕ) (number : Text)
        → IsDecimal n number
        → shell_cursor_to_byte nu line n ≡ cursor
        → Message line cursor nu (
            codes "{\"line\": "
            ++ (json_string line ++ (codes ", \"cursor\": " ++ (number ++ codes "}"))))

  parts-Message :
      (sh : Shell) (line : Text) (cursor : ℕ)
      → IsBoundary line cursor
      → (out : Text) × (render_parts json_string sh line (shell_cursor sh line cursor) ≡ some out)
        × Message line cursor sh out
  unfolding render_parts shell_cursor
  parts-Message bash line cursor at = (
    _,
    refl,
    to_bash _ _ (decimal-IsDecimal _)
        (shell_cursor_to_byte-shell_cursor bash line cursor (ground arith) at),
  )
  parts-Message zsh line cursor (a, b, whole, at) =
      (_, rw (whole, ← at, split_at_byte-append a b) refl, to_zsh a b whole at)
  parts-Message pwsh line cursor at = (
    _,
    refl,
    to_pwsh _ _ (decimal-IsDecimal _)
        (shell_cursor_to_byte-shell_cursor pwsh line cursor (ground arith) at),
  )
  parts-Message clink line cursor at = (
    _,
    refl,
    to_clink _ _ (decimal-IsDecimal _)
        (shell_cursor_to_byte-shell_cursor clink line cursor (ground arith) at),
  )
  parts-Message nu line cursor at = (
    _,
    refl,
    to_nu _ _ (decimal-IsDecimal _)
        (shell_cursor_to_byte-shell_cursor nu line cursor (ground arith) at),
  )

  -- An action whose cursor is on a boundary of its line is rendered, without a panic, as the message
  -- of the shell: the line quoted for it, with a number that the shell's own count takes to that
  -- cursor, or, for zsh, with the line in two parts that meet at the cursor.
  pub render-Message :
      (sh : Shell) (action : HookAction)
      → IsBoundary (line_of action) (cursor_of action)
      → (out : Text) × (render json_string sh action ≡ some out)
        × Message (line_of action) (cursor_of action) sh out
  unfolding render render_action
  render-Message sh (replace line cursor) at = parts-Message sh line cursor at
  render-Message sh (insert_space line cursor) at = parts-Message sh line cursor at
