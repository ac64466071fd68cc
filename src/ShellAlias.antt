-- ===== src/ShellAlias.antt =====
-- runex/src/infra/shell_alias.rs and runex/src/app/shell_alias_conflicts.rs: the aliases of bash and
-- PowerShell, read from what those print, and the keys that are aliases as well. In these, an outer
-- `none` is the panic of a slice that is not on a character boundary.
use runex.Prelude.{
  ℕ, zero, suc, ◌+◌, List, [], ◌∷◌, ◌++◌, Option, none, some, Bool, true, false, ◌*◌, ltb, leb,
  if◌then◌else◌, is_some, is_empty, take, ◌>>=◌,
}
use runex.Text.{Text, codes, byte_len, trim, split_at_byte, split_once_char, strip_prefix}
use runex.Text.Lines.{lines}
use runex.Sanitize.{sanitize_for_display}
use runex.Model.{Abbr}
pub mod Truncate
pub mod Bounds
pub mod Conflicts

abbrev pub max_alias_lines : ℕ
max_alias_lines = 10000

abbrev pub max_alias_value_bytes : ℕ
max_alias_value_bytes = 65536

abbrev pub max_alias_key_bytes : ℕ
max_alias_key_bytes = 1024

abbrev pub is_char_boundary : Text → ℕ → Bool
is_char_boundary s end = is_some (split_at_byte s end)

-- The loop that walks back to a boundary.
unfoldable pub boundary_from : Text → ℕ → ℕ
boundary_from s zero = zero
boundary_from s (suc n) =
    let earlier = boundary_from s n in if is_char_boundary s (suc n) then suc n else earlier

unfoldable pub truncate_to_limit : Text → ℕ → Option Text
truncate_to_limit s max_bytes =
    if leb (byte_len s) max_bytes
    then some s
    else (do sides ← split_at_byte s (boundary_from s max_bytes); some sides.0)

-- The map, where the last entry for a key comes first.
abbrev pub Aliases : Type 0
Aliases = List (Text × Text)

-- A name with its definition, kept in the map where the name is short enough.
unfoldable pub insert_alias : Aliases → Text × Text → Option Aliases
insert_alias aliases (name, definition) =
    if ltb max_alias_key_bytes (byte_len (trim name)) then some aliases else (do
      value ← truncate_to_limit (trim definition) max_alias_value_bytes
      some ((trim name, value) ∷ aliases))

abbrev pub insert_found : Aliases → Option (Text × Text) → Option Aliases
insert_found aliases none = some aliases
insert_found aliases (some entry) = insert_alias aliases entry

-- The loop over the lines.
unfoldable pub insert_lines : (Text → Option (Text × Text)) → Aliases → List Text → Option Aliases
insert_lines entry aliases [] = some aliases
insert_lines entry aliases (line ∷ rest) = do
  next ← insert_found aliases (entry line)
  insert_lines entry next rest

unfoldable pub pwsh_entry : Text → Option (Text × Text)
pwsh_entry line = if is_empty (trim line) then none else split_once_char 0x09 (trim line)

unfoldable pub bash_entry : Text → Option (Text × Text)
bash_entry line = do rest ← strip_prefix (codes "alias ") (trim line); split_once_char b'=' rest

unfoldable pub parse_pwsh_alias_lines : Text → Option Aliases
parse_pwsh_alias_lines stdout = insert_lines pwsh_entry [] (take max_alias_lines (lines stdout))

unfoldable pub parse_bash_alias_lines : Text → Option Aliases
parse_bash_alias_lines stdout = insert_lines bash_entry [] (take max_alias_lines (lines stdout))

-- `Check` and `CheckStatus` of runex/src/app/doctor.rs.
pub data CheckStatus : Type 0 where
  ok warn error : CheckStatus

pub record Check : Type 0 where
  pub name : Text
  pub status : CheckStatus
  pub detail : Text
  pub detail_verbose : Option Text

unfoldable pub check_pwsh_alias_with : (Text → Option Text) → Text → Option Check
check_pwsh_alias_with lookup token = do
  definition ← lookup token
  some (record {
    name = codes "shell:pwsh:key:" ++ sanitize_for_display token;
    status = warn;
    detail =
        codes "conflicts with existing alias '"
        ++ (sanitize_for_display token ++ (codes "' -> " ++ sanitize_for_display definition));
    detail_verbose = none;
  })

unfoldable pub check_bash_alias_with : (Text → Option Text) → Text → Option Check
check_bash_alias_with lookup token = do
  detail ← lookup token
  some (record {
    name = codes "shell:bash:key:" ++ sanitize_for_display token;
    status = warn;
    detail = codes "conflicts with existing alias " ++ sanitize_for_display detail;
    detail_verbose = none;
  })

abbrev pub push_some : Option Check → List Check → List Check
push_some none checks = checks
push_some (some check) checks = check ∷ checks

unfoldable pub collect_shell_alias_conflicts_with :
    (Text → Option Text) → (Text → Option Text) → List Abbr → List Check
collect_shell_alias_conflicts_with pwsh_lookup bash_lookup [] = []
collect_shell_alias_conflicts_with pwsh_lookup bash_lookup (abbr ∷ abbrs) =
    push_some (check_pwsh_alias_with pwsh_lookup abbr.key) (
      push_some (check_bash_alias_with bash_lookup abbr.key)
        (collect_shell_alias_conflicts_with pwsh_lookup bash_lookup abbrs))
