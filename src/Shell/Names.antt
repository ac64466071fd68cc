-- ===== src/Shell/Names.antt =====
-- The names of the shells: FromStr and Display of runex/src/domain/shell.rs.
use runex.Prelude.{map, ◌≡◌, refl, ◌⊎◌, inl, inr, ◌↔◌, arith, if◌then◌else◌}
use runex.Text.{Text, codes, text_eq, to_ascii_lowercase}
use runex.Text.Slices.{text_eq_iff}
use runex.Model.{Shell, bash, zsh, pwsh, clink, nu}
use runex.Shell.{shell_name, ShellParseError, shell_from_str}

-- With the name in lower case in place of the text.
abbrev name_of : Text → Text → Shell ⊎ ShellParseError
name_of lower s =
    if text_eq lower (codes "bash")
    then inl bash
    else if text_eq lower (codes "zsh")
    then inl zsh
    else if text_eq lower (codes "pwsh")
    then inl pwsh
    else if text_eq lower (codes "clink")
    then inl clink
    else if text_eq lower (codes "nu")
    then inl nu
    else inr (record { name = s })

name_of_sound : (lower s : Text) (sh : Shell) → name_of lower s ≡ inl sh → lower ≡ shell_name sh
unfolding shell_name
name_of_sound lower s sh h = ground (
  arith,
  text_eq_iff lower (codes "bash"),
  text_eq_iff lower (codes "zsh"),
  text_eq_iff lower (codes "pwsh"),
  text_eq_iff lower (codes "clink"),
  text_eq_iff lower (codes "nu"),
)

name_of-shell_name : (s : Text) (sh : Shell) → name_of (shell_name sh) s ≡ inl sh
unfolding shell_name text_eq
name_of-shell_name s bash = refl
name_of-shell_name s zsh = refl
name_of-shell_name s pwsh = refl
name_of-shell_name s clink = refl
name_of-shell_name s nu = refl

lower-shell_name : (sh : Shell) → map to_ascii_lowercase (shell_name sh) ≡ shell_name sh
unfolding shell_name
lower-shell_name bash = refl
lower-shell_name zsh = refl
lower-shell_name pwsh = refl
lower-shell_name clink = refl
lower-shell_name nu = refl

-- A text names a shell exactly when, in lower case, it is the name that the shell is printed by;
-- so a printed name is read back.
pub shell_from_str-eq_iff :
    (s : Text) (sh : Shell)
    → ((shell_from_str s ≡ inl sh) ↔ (map to_ascii_lowercase s ≡ shell_name sh))
      × (shell_from_str (shell_name sh) ≡ inl sh)
unfolding shell_from_str
shell_from_str-eq_iff s sh = (
  (name_of_sound (map to_ascii_lowercase s) s sh, λ e. rw e (name_of-shell_name s sh)),
  rw (lower-shell_name sh) (name_of-shell_name (shell_name sh) sh),
)
