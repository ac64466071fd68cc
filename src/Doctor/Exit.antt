-- ===== src/Doctor/Exit.antt =====
-- The code that `runex doctor` of runex/src/cmd/doctor.rs exits with.
use runex.Prelude.{
  ℕ, [], Option, none, some, Bool, true, false, ◌&&◌, not, ◌≡◌, ◌↔◌, refl, ap, ◌∙◌, arith,
  if◌then◌else◌, is_some, Option-cases, Bool-cases, inl, inr, ◌⊎◌,
}
use runex.Text.{Text}
use runex.Model.{clink, space, tab, alt_space, shift_space, ctrl_v, TriggerKey, Config}
use runex.Expand.Keys.{RegexLite}
use runex.Validate.Load.{parse_config}
use runex.Validate.Issues.{ConfigError}
use runex.Export.{Templates, trigger_for, export_script}
use runex.Export.Panics.{export_script-none, export_script-panic_iff}
use runex.Doctor.{is_healthy, is_shift_space, DoctorEnvInfo}
use runex.Doctor.Unknown.{Toml}
use runex.Doctor.Healthy.{join, diagnose-is_healthy}
use runex.Doctor.Report.{
  Machine, Source, result_ok, load_config, clink_bin, build_doctor_env_info, alias_conflicts,
  rejected_rules, strict_source, reported, doctor_exit_code,
}
use runex.Doctor.Calm.{
  healthy-append, alias-IsCalm, rejected-IsCalm, either-IsCalm, strict_source-IsCalm,
  strict_config-IsCalm,
}

turned : (b : Bool) (m n : ℕ) → (if not b then m else n) ≡ (if b then n else m)
turned true m n = refl
turned false m n = refl

is_shift_space_iff : (k : Option TriggerKey) → (is_shift_space k ≡ true) ↔ (k ≡ some shift_space)
is_shift_space_iff none = (λ e. cc, λ e. cc)
is_shift_space_iff (some space) = (λ e. cc, λ e. ground arith)
is_shift_space_iff (some tab) = (λ e. cc, λ e. ground arith)
is_shift_space_iff (some alt_space) = (λ e. cc, λ e. ground arith)
is_shift_space_iff (some shift_space) = (λ e. refl, λ e. refl)
is_shift_space_iff (some ctrl_v) = (λ e. cc, λ e. ground arith)

module _ (templates : Templates) (toml : Toml) (from_str : Text → Text ⊎ Config) (lib : RegexLite)
    (machine : Machine) (s : Source) where
  reported-is_healthy :
      (c : Option Config) (env_info : DoctorEnvInfo) (no_shell_aliases strict : Bool)
      → is_healthy
          (reported templates toml from_str lib machine s c env_info no_shell_aliases strict)
        ≡ (machine.files.exists s.config_path && is_some c)
  unfolding reported
  reported-is_healthy c env_info no_shell_aliases strict =
      let more =
        join (if no_shell_aliases then [] else alias_conflicts machine c) _
          (either-IsCalm no_shell_aliases [] _ tt (alias-IsCalm machine c))
          (join (rejected_rules from_str lib s.source) _ (rejected-IsCalm from_str lib s.source) (
            either-IsCalm strict _ []
              (join (strict_source toml s.source) _ (strict_source-IsCalm toml s.source)
                (strict_config-IsCalm lib c))
              tt)) in
      healthy-append _ _ more
      ∙ diagnose-is_healthy machine.files machine.env lib machine.is_windows machine.command_exists
          s.config_path c s.parse_error env_info

  -- The export panics exactly where the trigger of the loaded configuration is Shift+Space.
  parsed-panic :
      (content : Text) (r : ConfigError ⊎ Config)
      → parse_config from_str lib content ≡ r
      → (export_script templates clink (clink_bin machine) (result_ok r) ≡ none)
        ↔ (trigger_for clink (result_ok r) ≡ some shift_space)
  unfolding trigger_for
  parsed-panic content (inl error) e =
      (λ h. absurd (export_script-none templates (clink_bin machine) clink h), λ h. cc)
  parsed-panic content (inr c) e =
      export_script-panic_iff templates (clink_bin machine) from_str lib content clink e

  export-panic :
      (read : Option Text)
      → (export_script templates clink (clink_bin machine) (load_config from_str lib read) ≡ none)
        ↔ (trigger_for clink (load_config from_str lib read) ≡ some shift_space)
  unfolding load_config trigger_for
  export-panic none =
      (λ h. absurd (export_script-none templates (clink_bin machine) clink h), λ h. cc)
  export-panic (some content) = parsed-panic content (parse_config from_str lib content) refl

  exit-made :
      (script : Text) (no_shell_aliases strict : Bool)
      → export_script templates clink (clink_bin machine) (load_config from_str lib s.read)
        ≡ some script
      → doctor_exit_code templates toml from_str lib machine s no_shell_aliases strict
        ≡ some (
            if machine.files.exists s.config_path && is_some (load_config from_str lib s.read)
            then 0
            else 1)
  unfolding doctor_exit_code build_doctor_env_info
  exit-made script no_shell_aliases strict e =
      rw (e, reported-is_healthy (load_config from_str lib s.read)) (ap some (turned _ 1 0))

  -- Whatever the files, the commands, the aliases, the rules and the switches are, doctor panics
  -- exactly where a configuration was loaded whose default trigger is Shift+Space; else it exits with
  -- 0 exactly where the file of the configuration exists and a configuration was loaded, and with 1
  -- where not.
  pub doctor_exit_code-loaded :
      (no_shell_aliases strict : Bool)
      → doctor_exit_code templates toml from_str lib machine s no_shell_aliases strict ≡ (
          if is_shift_space (trigger_for clink (load_config from_str lib s.read))
          then none
          else some (
              if machine.files.exists s.config_path && is_some (load_config from_str lib s.read)
              then 0
              else 1))
  unfolding doctor_exit_code build_doctor_env_info
  doctor_exit_code-loaded no_shell_aliases strict =
      let c = load_config from_str lib s.read in
      let panics = export-panic s.read in
      let shifted = is_shift_space_iff (trigger_for clink c) in
      elim (Option-cases (export_script templates clink (clink_bin machine) c)) [
        | inl e ↦ rw (e, shifted.1 (panics.0 e)) refl
        | inr (script, e) ↦ elim (Bool-cases (is_shift_space (trigger_for clink c))) [
          | inl h ↦ absurd (ground (arith, e, panics.1 (shifted.0 h)))
          | inr h ↦ rw h (exit-made script no_shell_aliases strict e)
        ]
      ]
