-- ===== src/Doctor/Healthy.antt =====
-- When `diagnose` of runex/src/app/doctor.rs finds the installation healthy.
use runex.Prelude.{
  ap, ltb, ℕ, ◌+◌, List, [], ◌∷◌, ◌++◌, Option, none, some, Bool, true, false, ◌&&◌, not, ◌≡◌, refl,
  arith, All, All-append, all, is_some, if◌then◌else◌, Bool-cases, inl, inr,
}
use runex.Text.{Text}
use runex.Model.{Shell, bash, zsh, pwsh, nu, Abbr, Config}
use runex.Expand.Keys.{RegexLite}
use runex.Precache.{contains, condition_lists}
use runex.Precache.Answers.{fold-keeps}
use runex.Places.{HomeDirResolver}
use runex.Integration.Check.{Files, IntegrationCheck, ok, outdated, missing, skipped}
use runex.Integration.Rcfile.{check_rcfile_marker}
use runex.Integration.Freshness.{check_cache_freshness}
use runex.ShellAlias.{Check}
use runex.Doctor.{
  is_error, is_healthy, DoctorEnvInfo, EffectiveSearchPathSummary, check_effective_search_path,
  check_config_file, check_config_parse, check_keybind, check_regex_git_bash, count_regex,
  integration_check_to_check, integration_marker_checks, integration_cache_checks, for_selected,
  RcfileMarkerSelection,
}
use runex.Doctor.Rules.{
  report_rule, abbr_checks, abbr_checks_from, check_abbr_quality, command_check, Commands,
  check_command, check_list, check_rule, check_when_command_exists, search_path_checks,
  clink_checks, option_check, config_checks, diagnose,
}

abbrev pub IsCalm : Check → Type 0
IsCalm check = is_error check.status ≡ false

pub healthy_of :
    (checks : List Check) → All IsCalm checks → all (λ c. not (is_error c.status)) checks ≡ true
healthy_of [] h = refl
healthy_of (check ∷ checks) (h, hs) = ground (arith, healthy_of checks hs)

pub join : (xs ys : List Check) → All IsCalm xs → All IsCalm ys → All IsCalm (xs ++ ys)
join xs ys h k = All-append IsCalm xs ys h k

integration-IsCalm : (r : IntegrationCheck) → IsCalm (integration_check_to_check r)
unfolding integration_check_to_check
integration-IsCalm (ok name detail) = refl
integration-IsCalm (outdated name detail path) = refl
integration-IsCalm (missing name detail) = refl
integration-IsCalm (skipped name detail) = refl

pub one_selected :
    (b : Bool) (check : Check) (rest : List Check)
    → IsCalm check
    → All IsCalm rest
    → All IsCalm (if b then check ∷ rest else rest)
one_selected true check rest h k = (h, k)
one_selected false check rest h k = k

selected-IsCalm :
    (sel : RcfileMarkerSelection) (f : Shell → IntegrationCheck) → All IsCalm (for_selected sel f)
selected-IsCalm sel f =
    let calm = λ (shell : Shell). integration-IsCalm (f shell) in
    one_selected sel.bash_marker _ _ (calm bash) (
      one_selected sel.zsh_marker _ _ (calm zsh) (
        one_selected sel.pwsh_marker _ _ (calm pwsh) (one_selected sel.nu_marker _ _ (calm nu) tt)))

search_path-IsCalm : (o : Option EffectiveSearchPathSummary) → All IsCalm (search_path_checks o)
unfolding check_effective_search_path
search_path-IsCalm none = tt
search_path-IsCalm (some s) = (ground arith, tt)

keybind-IsCalm : (c : Config) → All IsCalm (check_keybind c)
unfolding check_keybind
keybind-IsCalm c = one_selected _ _ [] refl tt

report-IsCalm :
    (b : Bool) (i : ℕ) (label detail : Text) (rest : List Check)
    → All IsCalm rest
    → All IsCalm (report_rule b i label detail rest)
unfolding report_rule
report-IsCalm b i label detail rest h = one_selected b _ rest refl h

abbr_checks-IsCalm :
    (lib : RegexLite) (i : ℕ) (abbrs : List Abbr) → All IsCalm (abbr_checks_from lib i abbrs)
unfolding abbr_checks
abbr_checks-IsCalm lib i [] = tt
abbr_checks-IsCalm lib i (abbr ∷ abbrs) =
    report-IsCalm _ i _ _ _
      (report-IsCalm _ i _ _ _ (report-IsCalm _ i _ _ _ (abbr_checks-IsCalm lib (i + 1) abbrs)))

regex-IsCalm :
    (c : Config) (windows : Bool) → All IsCalm (option_check (check_regex_git_bash c windows))
unfolding check_regex_git_bash
regex-IsCalm c windows = elim (Bool-cases (windows && ltb 0 (count_regex c.abbr))) [
  | inl some_rule ↦ rw some_rule (refl, tt)
  | inr no_rule ↦ rw no_rule tt
]

command_check-IsCalm : (found : Bool) (cmd key : Text) → IsCalm (command_check found cmd key)
unfolding command_check
command_check-IsCalm true cmd key = refl
command_check-IsCalm false cmd key = refl

module _ (command_exists : Text → Bool) where
  command-IsCalm :
      (key : Text) (s : Commands) (cmd : Text)
      → All IsCalm s.checks
      → All IsCalm (check_command command_exists key s cmd).checks
  unfolding check_command
  command-IsCalm key s cmd h = elim (Bool-cases (contains s.seen cmd)) [
    | inl again ↦ rw again h
    | inr new ↦ rw new (join s.checks _ h (command_check-IsCalm (command_exists cmd) cmd key, tt))
  ]

  rule-IsCalm :
      (s : Commands) (abbr : Abbr)
      → All IsCalm s.checks
      → All IsCalm (check_rule command_exists s abbr).checks
  rule-IsCalm s abbr h =
      fold-keeps (check_list command_exists abbr.key) (λ s. All IsCalm s.checks)
        (λ s cmds k.
          fold-keeps (check_command command_exists abbr.key) (λ s. All IsCalm s.checks)
            (command-IsCalm abbr.key) s cmds k)
        s (condition_lists abbr) h

  commands-IsCalm : (c : Config) → All IsCalm (check_when_command_exists command_exists c)
  unfolding check_when_command_exists
  commands-IsCalm c =
      fold-keeps (check_rule command_exists) (λ s. All IsCalm s.checks) rule-IsCalm
        (record { seen = []; checks = [] }) c.abbr tt

config-IsCalm :
    (lib : RegexLite) (windows : Bool) (command_exists : Text → Bool) (c : Option Config)
    → All IsCalm (config_checks lib windows command_exists c)
unfolding check_abbr_quality
config-IsCalm lib windows command_exists none = tt
config-IsCalm lib windows command_exists (some c) = join (check_keybind c) _ (keybind-IsCalm c) (
    join (check_abbr_quality lib c) _ (abbr_checks-IsCalm lib 0 c.abbr) (
      join (option_check (check_regex_git_bash c windows)) _ (regex-IsCalm c windows)
        (commands-IsCalm command_exists c)))

clink-IsCalm :
    (files : Files) (env : HomeDirResolver) (o : Option Text)
    → All IsCalm (clink_checks files env o)
clink-IsCalm files env none = tt
clink-IsCalm files env (some export) = (integration-IsCalm _, tt)

file_status :
    (files : Files) (path : Text)
    → not (is_error (check_config_file files path).status) ≡ files.exists path
unfolding check_config_file
file_status files path = elim (Bool-cases (files.exists path)) [
  | inl found ↦ rw found refl
  | inr lost ↦ rw lost refl
]

parse_status :
    (c : Option Config) (e : Option Text)
    → not (is_error (check_config_parse c e).status) ≡ is_some c
unfolding check_config_parse
parse_status (some c) e = refl
parse_status none none = refl
parse_status none (some e) = refl

and_true : (b : Bool) → b && true ≡ b
and_true true = refl
and_true false = refl

-- Whatever the files, the rules and the commands are, the diagnosis is healthy exactly where the file
-- of the configuration exists and a configuration was loaded.
pub diagnose-is_healthy :
    (files : Files) (env : HomeDirResolver) (lib : RegexLite) (is_windows : Bool)
    (command_exists : Text → Bool) (config_path : Text) (c : Option Config)
    (parse_error : Option Text) (env_info : DoctorEnvInfo)
    → is_healthy
        (diagnose files env lib is_windows command_exists config_path c parse_error env_info)
      ≡ (files.exists config_path && is_some c)
unfolding diagnose is_healthy integration_marker_checks integration_cache_checks
diagnose-is_healthy files env lib is_windows command_exists config_path c parse_error env_info =
    let sel = env_info.check_rcfile_markers in
    let rest =
      join (search_path_checks env_info.effective_search_path) _
        (search_path-IsCalm env_info.effective_search_path)
        (join (integration_marker_checks files env sel) _
          (selected-IsCalm sel (λ s. check_rcfile_marker files env s none))
          (join (integration_cache_checks files env sel) _
            (selected-IsCalm sel (λ s. check_cache_freshness files s env))
            (join (clink_checks files env env_info.clink_export_for_drift_check) _
              (clink-IsCalm files env env_info.clink_export_for_drift_check)
              (config-IsCalm lib is_windows command_exists c)))) in
    rw (file_status files config_path, parse_status c parse_error, healthy_of _ rest)
      (ap (λ b. files.exists config_path && b) (and_true (is_some c)))
