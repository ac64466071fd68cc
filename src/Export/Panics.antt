-- ===== src/Export/Panics.antt =====
-- Where making the script panics: the `unreachable!` of the chords in runex/src/app/shell_export.rs.
use runex.Prelude.{Option, none, some, ◌≡◌, ◌≢◌, ◌↔◌, refl, arith, Option-cases, inl, inr, ◌⊎◌}
use runex.Text.{Text}
use runex.Model.{
  Shell, bash, zsh, pwsh, clink, nu, or_else, Config, PerShellKey, TriggerKey, space, tab,
  alt_space, shift_space, ctrl_v,
}
use runex.Expand.Keys.{RegexLite}
use runex.Validate.Load.{parse_config}
use runex.Validate.Keybinds.{IsTrigger}
use runex.Validate.Accepted.{parse_config_sound}
use runex.Export.{
  trigger_of, trigger_for, bash_chord, zsh_chord, pwsh_chord, nu_modifier, nu_keycode,
  clink_key_sequence, bash_bind_lines, zsh_bind_lines, clink_binding, pwsh_register_lines,
  Templates, nu_bindings, parts, export_script,
}

or_else-free :
    (a b : Option TriggerKey) → a ≢ some ctrl_v → b ≢ some ctrl_v → or_else a b ≢ some ctrl_v
or_else-free none b ha hb = hb
or_else-free (some k) b ha hb = ha

-- A trigger that is looked up in keys without Ctrl+V is not Ctrl+V.
trigger_of-free : (shell : Shell) (k : PerShellKey) → IsTrigger k → trigger_of shell k ≢ some ctrl_v
unfolding trigger_of
trigger_of-free bash k h = or_else-free k.bash_key k.default h.bash_free h.default_free
trigger_of-free zsh k h = or_else-free k.zsh_key k.default h.zsh_free h.default_free
trigger_of-free pwsh k h = or_else-free k.pwsh_key k.default h.pwsh_free h.default_free
trigger_of-free nu k h = or_else-free k.nu_key k.default h.nu_free h.default_free
trigger_of-free clink k h = h.default_free

module _ (templates : Templates) (bin : Text) where
  -- The lines cannot be made exactly for the two keys that some shell has no chord for.
  parts-panic :
      (k : Option TriggerKey)
      → k ≢ some ctrl_v
      → (parts templates k bin ≡ none) ↔ (k ≡ some shift_space)
  unfolding parts bash_bind_lines zsh_bind_lines clink_binding pwsh_register_lines nu_bindings
      bash_chord zsh_chord pwsh_chord nu_modifier nu_keycode clink_key_sequence
  parts-panic none h = (λ e. cc, λ e. cc)
  parts-panic (some space) h = (λ e. cc, λ e. ground arith)
  parts-panic (some tab) h = (λ e. cc, λ e. ground arith)
  parts-panic (some alt_space) h = (λ e. cc, λ e. ground arith)
  parts-panic (some shift_space) h = (λ e. refl, λ e. refl)
  parts-panic (some ctrl_v) h = absurd (h refl)

  export_script-parts :
      (shell : Shell) (config : Option Config)
      → (export_script templates shell bin config ≡ none)
        ↔ (parts templates (trigger_for shell config) bin ≡ none)
  unfolding export_script
  export_script-parts shell config =
      elim (Option-cases (parts templates (trigger_for shell config) bin)) [
        | inl e ↦ (λ _. e, λ _. rw (e, export_script))
        | inr (p, e) ↦ (λ h. absurd (ground (arith, e)), λ h. absurd (ground (arith, e)))
      ]

  -- Without a configuration a script is made.
  pub export_script-none : (shell : Shell) → export_script templates shell bin none ≢ none
  unfolding trigger_for
  export_script-none shell h =
      let e = (export_script-parts shell none).0 h in
      absurd (ground (arith, (parts-panic none (λ d. cc)).0 e))

  module _ (from_str : Text → Text ⊎ Config) (lib : RegexLite) where
    -- For a configuration that loads, making the script panics exactly where the trigger for the
    -- shell is Shift+Space, whatever the shell.
    pub export_script-panic_iff :
        (s : Text) {conf : Config} (shell : Shell)
        → parse_config from_str lib s ≡ inr conf
        → (export_script templates shell bin (some conf) ≡ none)
          ↔ (trigger_for shell (some conf) ≡ some shift_space)
    unfolding trigger_for
    export_script-panic_iff s {conf} shell h =
        let (_, accepted) = parse_config_sound from_str lib s h in
        let whole = export_script-parts shell (some conf) in
        let part =
          parts-panic (trigger_of shell conf.keybind.trigger)
            (trigger_of-free shell conf.keybind.trigger accepted.keybind_ok.trigger_ok) in
        (λ e. part.0 (whole.0 e), λ e. whole.1 (part.1 e))
