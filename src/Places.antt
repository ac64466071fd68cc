-- ===== src/Places.antt =====
-- runex/src/infra/env.rs: where a shell's files are. The paths are those of Unix, where `cfg!(windows)`
-- is false.
use runex.Prelude.{[], ◌∷◌, ◌++◌, Option, none, some, if◌then◌else◌, is_empty, ◌>>=◌}
use runex.Text.{Text, codes, starts_with_char, ends_with}
use runex.Model.{Shell, bash, zsh, pwsh, clink, nu}

-- `HomeDirResolver`.
pub record HomeDirResolver : Type 0 where
  pub home_dir : Option Text
  pub env_var : Text → Option Text

-- `Path::join`.
unfoldable pub path_join : Text → Text → Text
path_join p q =
    if starts_with_char b'/' q
    then q
    else if is_empty p
    then q
    else if ends_with (b'/' ∷ []) p
    then p ++ q
    else p ++ b'/' ∷ q

unfoldable pub xdg_config_home_with : HomeDirResolver → Option Text
xdg_config_home_with env = elim (env.env_var (codes "XDG_CONFIG_HOME")) [
  | some p ↦ some p
  | none ↦ (do home ← env.home_dir; some (path_join home (codes ".config")))
]

unfoldable pub xdg_cache_home_with : HomeDirResolver → Option Text
xdg_cache_home_with env = elim (env.env_var (codes "XDG_CACHE_HOME")) [
  | some p ↦ some p
  | none ↦ (do home ← env.home_dir; some (path_join home (codes ".cache")))
]

abbrev pub config_home_or : Text → Option Text → Text
config_home_or home none = path_join home (codes ".config")
config_home_or home (some p) = p

unfoldable pub rc_file_in : Shell → HomeDirResolver → Text → Option Text
rc_file_in bash env home = some (path_join home (codes ".bashrc"))
rc_file_in zsh env home = some (path_join home (codes ".zshrc"))
rc_file_in pwsh env home = some (
    path_join (path_join (path_join home (codes ".config")) (codes "powershell"))
      (codes "Microsoft.PowerShell_profile.ps1"))
rc_file_in nu env home = some (
    path_join (path_join (config_home_or home (xdg_config_home_with env)) (codes "nushell"))
      (codes "env.nu"))
rc_file_in clink env home = none

unfoldable pub rc_file_for : Shell → HomeDirResolver → Option Text
rc_file_for shell env = do home ← env.home_dir; rc_file_in shell env home
