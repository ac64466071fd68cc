-- ===== src/Doctor/Report.antt =====
-- runex/src/cmd/doctor.rs: what `runex doctor` reports, and the code that it exits with.
use runex.Prelude.{
  ℕ, List, [], ◌++◌, Option, none, some, Bool, true, not, if◌then◌else◌, ◌⊎◌, inl, inr, ◌>>=◌,
}
use runex.Text.{Text, codes}
use runex.Model.{clink, Config}
use runex.Expand.Keys.{RegexLite}
use runex.Places.{HomeDirResolver}
use runex.Integration.Check.{Files}
use runex.ShellAlias.{Check, collect_shell_alias_conflicts_with}
use runex.Validate.Issues.{ConfigError}
use runex.Validate.Load.{parse_config}
use runex.Export.{Templates, export_script}
use runex.Doctor.{EffectiveSearchPathSummary, DoctorEnvInfo, is_healthy, check_rejected_rules}
use runex.Doctor.Rules.{diagnose, check_unreachable_duplicates}
use runex.Doctor.Unknown.{Toml, check_unknown_fields, check_precache_deprecation}

-- The machine that doctor runs on: its files, its home, its commands, the aliases of its shells, the
-- path of the program where that is known and is UTF-8, and what `effective_search_path` counts on
-- Windows.
pub record Machine : Type 0 where
  pub files : Files
  pub env : HomeDirResolver
  pub is_windows : Bool
  pub command_exists : Text → Bool
  pub pwsh_alias : Text → Option Text
  pub bash_alias : Text → Option Text
  pub current_exe : Option Text
  pub effective_search_path : EffectiveSearchPathSummary

-- The file of the configuration: what `load_config` reads of it, the text of the error that
-- this or the parser gives, and what is read of it once more for the checks of the text.
pub record Source : Type 0 where
  pub config_path : Text
  pub read : Option Text
  pub parse_error : Option Text
  pub source : Option Text

-- `result.ok()`.
abbrev pub result_ok : ConfigError ⊎ Config → Option Config
result_ok (inl error) = none
result_ok (inr c) = some c

unfoldable pub load_config : (Text → Text ⊎ Config) → RegexLite → Option Text → Option Config
load_config from_str lib none = none
load_config from_str lib (some content) = result_ok (parse_config from_str lib content)

abbrev pub clink_bin : Machine → Text
clink_bin machine = elim machine.current_exe [ some path ↦ path | none ↦ codes "runex" ]

-- `none` where `export_script` panics.
unfoldable pub build_doctor_env_info : Templates → Machine → Option Config → Option DoctorEnvInfo
build_doctor_env_info templates machine config = do
  script ← export_script templates clink (clink_bin machine) config
  some (record {
    effective_search_path = if machine.is_windows then some machine.effective_search_path else none;
    clink_export_for_drift_check = some script;
    check_rcfile_markers = record {
      bash_marker = true;
      zsh_marker = true;
      pwsh_marker = true;
      nu_marker = true;
    };
  })

abbrev pub alias_conflicts : Machine → Option Config → List Check
alias_conflicts machine none = []
alias_conflicts machine (some c) =
    collect_shell_alias_conflicts_with machine.pwsh_alias machine.bash_alias c.abbr

abbrev pub rejected_rules : (Text → Text ⊎ Config) → RegexLite → Option Text → List Check
rejected_rules from_str lib none = []
rejected_rules from_str lib (some source) = check_rejected_rules from_str lib source

abbrev pub strict_source : Toml → Option Text → List Check
strict_source toml none = []
strict_source toml (some source) =
    check_unknown_fields toml source ++ check_precache_deprecation toml source

abbrev pub strict_config : RegexLite → Option Config → List Check
strict_config lib none = []
strict_config lib (some c) = check_unreachable_duplicates lib c

-- The template files, and the crates toml and regex_lite.
module _ (templates : Templates) (toml : Toml) (from_str : Text → Text ⊎ Config)
    (lib : RegexLite) where
  -- The checks that `handle` prints, from `diagnose` on.
  unfoldable pub reported :
      Machine → Source → Option Config → DoctorEnvInfo → Bool → Bool → List Check
  reported machine s config env_info no_shell_aliases strict =
      diagnose machine.files machine.env lib machine.is_windows machine.command_exists s.config_path
        config s.parse_error env_info
      ++ ((if no_shell_aliases then [] else alias_conflicts machine config)
          ++ (rejected_rules from_str lib s.source
              ++ (if strict then strict_source toml s.source ++ strict_config lib config else [])))

  -- `handle`, but for what it prints: the code to exit with, `none` where it panics.
  unfoldable pub doctor_exit_code : Machine → Source → Bool → Bool → Option ℕ
  doctor_exit_code machine s no_shell_aliases strict =
      let config = load_config from_str lib s.read in
      (do
        env_info ← build_doctor_env_info templates machine config
        some (
            if not (is_healthy (reported machine s config env_info no_shell_aliases strict))
            then 1
            else 0))
