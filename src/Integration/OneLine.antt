-- ===== src/Integration/OneLine.antt =====
-- The line of runex/src/domain/integration.rs is one line.
use runex.Prelude.{
  ℕ, [], ◌∷◌, ◌++◌, true, false, ◌≡◌, ◌<◌, refl, arith, All, All-append, keep-All, any, Bool-cases,
  inl, inr, ◌||◌, not, ◌&&◌, ◌==◌, ltb,
}
use runex.Text.{Text, codes, is_ascii_control}
use runex.Sanitize.{is_deceptive_unicode, is_unsafe_for_display}
use runex.Sanitize.Laws.{IsSafe}
use runex.Model.{Shell, bash, zsh, pwsh, clink, nu}
use runex.Shell.{
  each_char, bash_quote_string, pwsh_quote_string, pwsh_quote_char, lua_quote_string,
  is_dropped_in_path,
}
use runex.Shell.Bash.{read-bash_quote_string}
use runex.Shell.Lua.{read-lua_quote_string}
use runex.Shell.Reading.{each_char-All}
use runex.Validate.Quiet.{any_none}
use runex.Integration.{sanitize_nu_cache_path_literal, integration_line}

abbrev pub IsPrintable : Text → Type 0
IsPrintable = All (λ c. is_ascii_control c ≡ false)

join_two : (a b : Text) → IsPrintable a → IsPrintable b → IsPrintable (a ++ b)
join_two a b h k = All-append (λ c. is_ascii_control c ≡ false) a b h k

fixed : (s b : Text) → any is_ascii_control s ≡ false → IsPrintable b → IsPrintable (s ++ b)
fixed s b h k = join_two s b (any_none is_ascii_control s h) k

of_kept : (s : Text) → All (λ c. is_dropped_in_path c ≡ false) s → IsPrintable s
of_kept [] h = tt
of_kept (c ∷ s) (h, hs) = (ground (arith, h), of_kept s hs)

of_safe : (s : Text) → IsSafe s → IsPrintable s
unfolding is_unsafe_for_display
of_safe [] h = tt
of_safe (c ∷ s) (h, hs) = (ground (arith, h), of_safe s hs)

bash_literal : (s : Text) → IsPrintable (bash_quote_string s)
bash_literal s = of_kept (bash_quote_string s) (read-bash_quote_string s).1

pwsh_char : (c : ℕ) → IsPrintable (pwsh_quote_char c)
unfolding pwsh_quote_char
pwsh_char c = elim (Bool-cases (c == b'\'')) [
  | inl e ↦ rw (e, pwsh_quote_char) (refl, (refl, tt))
  | inr e ↦ elim (Bool-cases (is_dropped_in_path c)) [
    | inl d ↦ rw (e, d, pwsh_quote_char) tt
    | inr d ↦ rw (e, d, pwsh_quote_char) (ground (arith, d), tt)
  ]
]

pwsh_literal : (s : Text) → IsPrintable (pwsh_quote_string s)
unfolding pwsh_quote_string
pwsh_literal s = (
  refl,
  join_two (each_char pwsh_quote_char s) (b'\'' ∷ [])
      (each_char-All (λ c. is_ascii_control c ≡ false) pwsh_quote_char pwsh_char s) (refl, tt),
)

of_nu :
    (s : Text)
    → All
        (λ c.
          (not (c == b'\'' || c == 0x0A || c == 0x0D || c == 0x09)
            && ltb 0x1F c
            && not (c == 0x7F)
            && not (is_deceptive_unicode c))
          ≡ true)
        s
    → IsPrintable s
of_nu [] h = tt
of_nu (c ∷ s) (h, hs) = (ground (arith, h), of_nu s hs)

nu_literal : (s : Text) → IsPrintable (sanitize_nu_cache_path_literal s)
unfolding sanitize_nu_cache_path_literal
nu_literal s = of_nu (sanitize_nu_cache_path_literal s) (keep-All _ s)

-- Whatever the path of the cache is, as long as it consists of code points, the line for the rc file
-- of a shell holds no control character of ASCII, and so is one line.
pub integration_line-IsPrintable :
    (shell : Shell) (path : Text)
    → All (λ c. c < 0x110000) path
    → IsPrintable (integration_line shell path)
unfolding integration_line
integration_line-IsPrintable bash path h = fixed (codes "[ -r ") _ refl (
    join_two (bash_quote_string path) _ (bash_literal path)
      (fixed (codes " ] && . ") _ refl (bash_literal path)))
integration_line-IsPrintable zsh path h = fixed (codes "[ -r ") _ refl (
    join_two (bash_quote_string path) _ (bash_literal path)
      (fixed (codes " ] && . ") _ refl (bash_literal path)))
integration_line-IsPrintable pwsh path h = fixed (codes "if (Test-Path ") _ refl (
    join_two (pwsh_quote_string path) _ (pwsh_literal path) (
      fixed (codes ") { . ") _ refl
        (join_two (pwsh_quote_string path) _ (pwsh_literal path) (refl, (refl, tt)))))
integration_line-IsPrintable nu path h = fixed (codes "if ('") _ refl (
    join_two (sanitize_nu_cache_path_literal path) _ (nu_literal path) (
      fixed (codes "' | path exists) { source '") _ refl (
        join_two (sanitize_nu_cache_path_literal path) _ (nu_literal path)
          (any_none is_ascii_control (codes "' }") refl))))
integration_line-IsPrintable clink path h =
    fixed (codes "-- runex clink integration is auto-loaded from ") _ refl
      (of_safe (lua_quote_string path) (read-lua_quote_string path h).1)
