-- ===== src/Doctor.antt =====
-- runex/src/app/doctor.rs: the checks that `runex doctor` reports.
use runex.Prelude.{
  ℕ, suc, ◌+◌, ◌==◌, List, [], ◌∷◌, ◌++◌, Option, none, some, Bool, true, false, ◌&&◌, ◌||◌, not,
  ltb, if◌then◌else◌, all, any, is_some, is_empty, length, ◌>>=◌, ◌⊎◌, inl, inr,
}
use runex.Text.{Text, codes, decimal, text_eq}
use runex.Text.Lines.{lines}
use runex.Sanitize.{sanitize_for_display, sanitize_multiline_for_display}
use runex.Model.{
  Shell, bash, zsh, pwsh, nu, or_else, TriggerKey, shift_space, Abbr, MatchKind, regex, Config,
}
use runex.Expand.Keys.{RegexLite}
use runex.Validate.{collect_validation_issues}
use runex.Validate.Issues.{ConfigError, ValidationIssue, config, rule, reason_text}
use runex.Validate.Load.{parse_config_lenient}
use runex.Places.{HomeDirResolver}
use runex.Integration.Check.{
  Files, IntegrationCheck, ok, outdated, missing, skipped, check_clink_lua_freshness,
  default_clink_lua_paths_with,
}
use runex.Integration.Rcfile.{check_rcfile_marker}
use runex.Integration.Freshness.{check_cache_freshness}
use runex.ShellAlias.{Check, CheckStatus}
pub mod Rules
pub mod Healthy
pub mod Commands
pub mod Distance
pub mod Unknown
pub mod Keybind
pub mod Report
pub mod Calm
pub mod Exit

abbrev pub plain_check : Text → CheckStatus → Text → Check
plain_check name status detail = record {
  name = name;
  status = status;
  detail = detail;
  detail_verbose = none;
}

abbrev pub is_error : CheckStatus → Bool
is_error CheckStatus.error = true
is_error CheckStatus.warn = false
is_error CheckStatus.ok = false

-- `DiagResult::is_healthy`.
unfoldable pub is_healthy : List Check → Bool
is_healthy checks = all (λ c. not (is_error c.status)) checks

pub record EffectiveSearchPathSummary : Type 0 where
  pub from_process : ℕ
  pub from_user_registry : ℕ
  pub from_system_registry : ℕ

abbrev pub total : EffectiveSearchPathSummary → ℕ
total s = s.from_process + s.from_user_registry + s.from_system_registry

pub record RcfileMarkerSelection : Type 0 where
  pub bash_marker : Bool
  pub zsh_marker : Bool
  pub pwsh_marker : Bool
  pub nu_marker : Bool

pub record DoctorEnvInfo : Type 0 where
  pub effective_search_path : Option EffectiveSearchPathSummary
  pub clink_export_for_drift_check : Option Text
  pub check_rcfile_markers : RcfileMarkerSelection

unfoldable pub check_effective_search_path : EffectiveSearchPathSummary → Check
check_effective_search_path s =
    plain_check (codes "effective_search_path")
      (if s.from_process == 0 then CheckStatus.warn else CheckStatus.ok)
      (decimal (total s)
        ++ (codes " entries (process="
            ++ (decimal s.from_process
                ++ (codes ", +user="
                    ++ (decimal s.from_user_registry
                        ++ (codes ", +system="
                            ++ (decimal s.from_system_registry ++ codes ")")))))))

unfoldable pub check_config_file : Files → Text → Check
check_config_file files config_path =
    if files.exists config_path
    then plain_check (codes "config_file") CheckStatus.ok
        (codes "found: " ++ sanitize_for_display config_path)
    else plain_check (codes "config_file") CheckStatus.error
        (codes "not found: " ++ sanitize_for_display config_path)

-- `e.lines().next().unwrap_or(e)`.
abbrev pub first_line : Text → Text
first_line e = elim (lines e) [ [] ↦ e | l ∷ ls ↦ l ]

unfoldable pub check_config_parse : Option Config → Option Text → Check
check_config_parse (some c) parse_error =
    plain_check (codes "config_parse") CheckStatus.ok (codes "config loaded successfully")
check_config_parse none none =
    plain_check (codes "config_parse") CheckStatus.error (codes "failed to load config")
check_config_parse none (some e) =
    let short = codes "failed to load config: " ++ sanitize_for_display (first_line e) in
    let full = codes "failed to load config: " ++ sanitize_multiline_for_display e in
    record {
      name = codes "config_parse";
      status = CheckStatus.error;
      detail = short;
      detail_verbose = if text_eq full short then none else some full;
    }

abbrev pub is_shift_space : Option TriggerKey → Bool
is_shift_space (some shift_space) = true
is_shift_space _ = false

unfoldable pub check_keybind : Config → List Check
check_keybind c =
    let si = c.keybind.self_insert in
    if is_shift_space (or_else si.bash_key si.default)
      || is_shift_space (or_else si.zsh_key si.default)
    then plain_check (codes "keybind.self_insert") CheckStatus.warn (
        codes
          "self_insert = \"shift-space\" has no effect in bash/zsh (Shift+Space is terminal-dependent); use \"alt-space\" for cross-shell support")
      ∷ []
    else []

abbrev pub is_regex_rule : Abbr → Bool
is_regex_rule abbr = elim abbr.match_kind [ some regex ↦ true | _ ↦ false ]

abbrev pub count_regex : List Abbr → ℕ
count_regex [] = 0
count_regex (abbr ∷ abbrs) = (if is_regex_rule abbr then 1 else 0) + count_regex abbrs

unfoldable pub check_regex_git_bash : Config → Bool → Option Check
check_regex_git_bash c is_windows =
    if is_windows && ltb 0 (count_regex c.abbr)
    then some (
        plain_check (codes "abbr.regex_git_bash") CheckStatus.warn (
          decimal (count_regex c.abbr)
          ++ codes
              " regex rule(s) do not expand in Git Bash (bake mode); other shells are unaffected"))
    else none

unfoldable pub integration_check_to_check : IntegrationCheck → Check
integration_check_to_check (ok name detail) = plain_check name CheckStatus.ok detail
integration_check_to_check (outdated name detail path) = plain_check name CheckStatus.warn detail
integration_check_to_check (missing name detail) = plain_check name CheckStatus.warn detail
integration_check_to_check (skipped name detail) = plain_check name CheckStatus.ok detail

-- A check for each shell that is selected.
abbrev pub for_selected : RcfileMarkerSelection → (Shell → IntegrationCheck) → List Check
for_selected sel f =
    let run = λ (b : Bool) (shell : Shell) (rest : List Check).
      if b then integration_check_to_check (f shell) ∷ rest else rest in
    run sel.bash_marker bash
      (run sel.zsh_marker zsh (run sel.pwsh_marker pwsh (run sel.nu_marker nu [])))

unfoldable pub integration_marker_checks :
    Files → HomeDirResolver → RcfileMarkerSelection → List Check
integration_marker_checks files env sel =
    for_selected sel (λ shell. check_rcfile_marker files env shell none)

unfoldable pub integration_cache_checks :
    Files → HomeDirResolver → RcfileMarkerSelection → List Check
integration_cache_checks files env sel =
    for_selected sel (λ shell. check_cache_freshness files shell env)

-- What `check_rejected_rules` says of an issue.
unfoldable pub rejected_check : ValidationIssue → Check
rejected_check (config reason) =
    plain_check (codes "config_validation") CheckStatus.warn
      (codes "config rejected: " ++ reason_text (config reason))
rejected_check (rule rule_index field_path reason) =
    let safe_path = sanitize_for_display field_path in
    plain_check
      (codes "config_validation.abbr[" ++ (decimal rule_index ++ (codes "]." ++ safe_path)))
      CheckStatus.warn
      (codes "rule #"
        ++ (decimal rule_index
            ++ (codes " field '"
                ++ (safe_path
                    ++ (codes "' rejected: " ++ reason_text (rule rule_index field_path reason))))))

abbrev pub rejected_checks : List ValidationIssue → List Check
rejected_checks [] = []
rejected_checks (issue ∷ issues) = rejected_check issue ∷ rejected_checks issues

-- The summary stands first.
abbrev pub summed_up : List ValidationIssue → List Check
summed_up [] = []
summed_up (issue ∷ issues) =
    plain_check (codes "config_rejected_rules") CheckStatus.warn (
      decimal (length (issue ∷ issues))
      ++ codes " invalid abbr field(s) found; config loading still stops at the first one")
    ∷ rejected_checks (issue ∷ issues)

abbrev pub issues_in : RegexLite → ConfigError ⊎ Config → List ValidationIssue
issues_in lib (inl error) = []
issues_in lib (inr c) = collect_validation_issues lib c

unfoldable pub check_rejected_rules : (Text → Text ⊎ Config) → RegexLite → Text → List Check
check_rejected_rules from_str lib config_source =
    summed_up (issues_in lib (parse_config_lenient from_str lib config_source))
