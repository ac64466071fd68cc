-- ===== src/Model.antt =====
-- runex/src/domain/model.rs: the configuration and the result of an expansion.
use runex.Prelude.{ℕ, List, [], ◌∷◌, Option, none, some, Bool}
use runex.Text.{Text, codes}

pub data Shell : Type 0 where
  bash zsh pwsh clink nu : Shell

-- `a.or(b)`.
abbrev pub or_else {ℓ} : {A : Type ℓ} → Option A → Option A → Option A
or_else none b = b
or_else (some a) b = some a

-- The values of a list of optional ones, `filter_map(|v| v)`.
abbrev pub present {ℓ} : {A : Type ℓ} → List (Option A) → List A
present [] = []
present (none ∷ os) = present os
present (some a ∷ os) = a ∷ present os

-- The `ByShell` variant of both per-shell types.
pub record ByShell {ℓ} (A : Type ℓ) : Type ℓ where
  pub default : Option A
  pub bash_entry : Option A
  pub zsh_entry : Option A
  pub pwsh_entry : Option A
  pub nu_entry : Option A

-- The field of a shell; clink has none.
abbrev pub specific {ℓ} : {A : Type ℓ} → ByShell A → Shell → Option A
specific b bash = b.bash_entry
specific b zsh = b.zsh_entry
specific b pwsh = b.pwsh_entry
specific b nu = b.nu_entry
specific b clink = none

abbrev pub entries {ℓ} : {A : Type ℓ} → ByShell A → List A
entries b = present (b.default ∷ b.bash_entry ∷ b.zsh_entry ∷ b.pwsh_entry ∷ b.nu_entry ∷ [])

pub data PerShellString : Type 0 where
  all_shells : Text → PerShellString
  by_shell : ByShell Text → PerShellString

pub data PerShellCmds : Type 0 where
  all_shells : List Text → PerShellCmds
  by_shell : ByShell (List Text) → PerShellCmds

-- `PerShellString::for_shell` and `PerShellString::all_values`.
unfoldable pub string_for_shell : PerShellString → Shell → Option Text
string_for_shell (all_shells s) shell = some s
string_for_shell (by_shell b) shell = or_else (specific b shell) b.default

unfoldable pub string_all_values : PerShellString → List Text
string_all_values (all_shells s) = s ∷ []
string_all_values (by_shell b) = entries b

-- `PerShellCmds::for_shell` and `PerShellCmds::all_values`.
unfoldable pub cmds_for_shell : PerShellCmds → Shell → Option (List Text)
cmds_for_shell (all_shells v) shell = some v
cmds_for_shell (by_shell b) shell = or_else (specific b shell) b.default

unfoldable pub cmds_all_values : PerShellCmds → List (List Text)
cmds_all_values (all_shells v) = v ∷ []
cmds_all_values (by_shell b) = entries b

pub data TriggerKey : Type 0 where
  space tab alt_space shift_space ctrl_v : TriggerKey

pub record PerShellKey : Type 0 where
  pub default : Option TriggerKey
  pub bash_key : Option TriggerKey
  pub zsh_key : Option TriggerKey
  pub pwsh_key : Option TriggerKey
  pub nu_key : Option TriggerKey

pub record KeybindConfig : Type 0 where
  pub trigger : PerShellKey
  pub self_insert : PerShellKey
  pub paste_intercept : PerShellKey

pub data MatchKind : Type 0 where
  glob regex : MatchKind

pub record Abbr : Type 0 where
  pub key : Text
  pub expand : PerShellString
  pub when_command_exists : Option PerShellCmds
  pub number : Option Text
  pub match_kind : Option MatchKind

pub record PrecacheConfig : Type 0 where
  pub path_only : Bool

pub record Config : Type 0 where
  pub version : ℕ
  pub keybind : KeybindConfig
  pub precache : PrecacheConfig
  pub abbr : List Abbr

-- `cursor_offset` is a byte offset in the text; `none` is the end of it.
pub data ExpandResult : Type 0 where
  expanded : Text → Option ℕ → ExpandResult
  pass_through : Text → ExpandResult

abbrev pub cursor_placeholder : Text
cursor_placeholder = codes "{}"
