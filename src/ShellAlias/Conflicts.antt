-- ===== src/ShellAlias/Conflicts.antt =====
-- What runex/src/app/shell_alias_conflicts.rs reports is safe to print.
use runex.Prelude.{
  List, [], ◌∷◌, ◌++◌, Option, none, some, false, ◌≡◌, refl, All, All-append, any, ◌>>=◌,
}
use runex.Text.{Text, codes}
use runex.Sanitize.{
  sanitize_for_display, is_unsafe_for_display, is_unicode_line_separator, is_deceptive_unicode,
}
use runex.Validate.Quiet.{any_none}
use runex.Sanitize.Laws.{IsSafe, sanitize_for_display_lem}
use runex.Model.{Abbr}
use runex.ShellAlias.{
  warn, Check, check_pwsh_alias_with, check_bash_alias_with, push_some,
  collect_shell_alias_conflicts_with,
}

-- The name, the detail and the longer detail hold no unsafe character.
pub record IsSafeCheck (check : Check) : Type 0 where
  pub safe_name : IsSafe check.name
  pub safe_detail : IsSafe check.detail
  pub no_more : check.detail_verbose ≡ none

with_text : (s b : Text) → any is_unsafe_for_display s ≡ false → IsSafe b → IsSafe (s ++ b)
with_text s b h k =
    All-append (λ c. is_unsafe_for_display c ≡ false) s b (any_none is_unsafe_for_display s h) k

shown : (s : Text) → IsSafe (sanitize_for_display s)
shown s = (sanitize_for_display_lem s).0

abbrev AllSafe : Option Check → Type 0
AllSafe none = Unit
AllSafe (some check) = IsSafeCheck check

check_pwsh-IsSafe :
    (lookup : Text → Option Text) (token : Text) → AllSafe (check_pwsh_alias_with lookup token)
unfolding check_pwsh_alias_with is_unsafe_for_display is_unicode_line_separator is_deceptive_unicode
check_pwsh-IsSafe lookup token = from (lookup token)
  where
    from :
        (found : Option Text)
        → AllSafe (
            found >>= λ definition. some (record {
              name = codes "shell:pwsh:key:" ++ sanitize_for_display token;
              status = warn;
              detail =
                  codes "conflicts with existing alias '"
                  ++ (sanitize_for_display token
                      ++ (codes "' -> " ++ sanitize_for_display definition));
              detail_verbose = none;
            }))
    from none = tt
    from (some definition) = record {
      safe_name = with_text (codes "shell:pwsh:key:") _ refl (shown token);
      safe_detail = with_text (codes "conflicts with existing alias '") _ refl (
          All-append (λ c. is_unsafe_for_display c ≡ false) (sanitize_for_display token) _
            (shown token) (with_text (codes "' -> ") _ refl (shown definition)));
      no_more = refl;
    }

check_bash-IsSafe :
    (lookup : Text → Option Text) (token : Text) → AllSafe (check_bash_alias_with lookup token)
unfolding check_bash_alias_with is_unsafe_for_display is_unicode_line_separator is_deceptive_unicode
check_bash-IsSafe lookup token = from (lookup token)
  where
    from :
        (found : Option Text)
        → AllSafe (
            found >>= λ detail. some (record {
              name = codes "shell:bash:key:" ++ sanitize_for_display token;
              status = warn;
              detail = codes "conflicts with existing alias " ++ sanitize_for_display detail;
              detail_verbose = none;
            }))
    from none = tt
    from (some detail) = record {
      safe_name = with_text (codes "shell:bash:key:") _ refl (shown token);
      safe_detail = with_text (codes "conflicts with existing alias ") _ refl (shown detail);
      no_more = refl;
    }

push-AllSafe :
    (o : Option Check) (checks : List Check)
    → AllSafe o
    → All IsSafeCheck checks
    → All IsSafeCheck (push_some o checks)
push-AllSafe none checks h k = k
push-AllSafe (some check) checks h k = (h, k)

-- Whatever the keys and the aliases are, every conflict that is reported has a name and a detail without
-- a character that is unsafe to display.
pub collect_conflicts-AllSafe :
    (pwsh_lookup bash_lookup : Text → Option Text) (abbrs : List Abbr)
    → All IsSafeCheck (collect_shell_alias_conflicts_with pwsh_lookup bash_lookup abbrs)
unfolding collect_shell_alias_conflicts_with
collect_conflicts-AllSafe pwsh_lookup bash_lookup [] = tt
collect_conflicts-AllSafe pwsh_lookup bash_lookup (abbr ∷ abbrs) =
    push-AllSafe (check_pwsh_alias_with pwsh_lookup abbr.key) _
      (check_pwsh-IsSafe pwsh_lookup abbr.key)
      (push-AllSafe (check_bash_alias_with bash_lookup abbr.key) _
        (check_bash-IsSafe bash_lookup abbr.key)
        (collect_conflicts-AllSafe pwsh_lookup bash_lookup abbrs))
