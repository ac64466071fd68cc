-- ===== src/Validate/Load.antt =====
-- runex/src/app/config.rs, the load: the keys that may be bound, and `parse_config`.
use runex.Prelude.{
  List, [], ◌∷◌, Option, none, some, Bool, true, false, ◌==◌, if◌then◌else◌, ◌⊎◌, inl, inr,
}
use runex.Text.{Text, codes}
use runex.Model.{
  Config, KeybindConfig, TriggerKey, space, tab, alt_space, shift_space, ctrl_v, PerShellKey,
}
use runex.Expand.Keys.{RegexLite}
use runex.Validate.Issues.{
  ConfigError, parse, unsupported_version, ctrl_v_as_trigger, ctrl_v_as_self_insert,
  paste_intercept_unsupported_shell, paste_intercept_invalid_key,
}
use runex.Validate.{with_label, first_validation_error}

-- The first label whose key is Ctrl+V, and the first that is set.
abbrev pub is_ctrl_v : TriggerKey → Bool
is_ctrl_v ctrl_v = true
is_ctrl_v _ = false

abbrev pub first_where : {A : Type 0} → (A → Bool) → List (Text × A) → Option Text
first_where test [] = none
first_where test ((label, a) ∷ rest) =
    let later = first_where test rest in if test a then some label else later

abbrev pub key_name : TriggerKey → Text
key_name space = codes "space"
key_name tab = codes "tab"
key_name alt_space = codes "alt-space"
key_name shift_space = codes "shift-space"
key_name ctrl_v = codes "ctrl-v"

abbrev pub without_nu : PerShellKey → List (Text × TriggerKey)
without_nu k = with_label (codes "default") k.default (
    with_label (codes "bash") k.bash_key
      (with_label (codes "zsh") k.zsh_key (with_label (codes "pwsh") k.pwsh_key [])))

abbrev pub labelled_keys : PerShellKey → List (Text × TriggerKey)
labelled_keys k = with_label (codes "default") k.default (
    with_label (codes "bash") k.bash_key (
      with_label (codes "zsh") k.zsh_key
        (with_label (codes "pwsh") k.pwsh_key (with_label (codes "nu") k.nu_key []))))

unfoldable pub paste_error : PerShellKey → Option ConfigError
paste_error paste = elim (first_where (λ _. true) (without_nu paste)) [
  | some label ↦ some (paste_intercept_unsupported_shell label)
  | none ↦ elim paste.nu_key [
    | none ↦ none
    | some k ↦
        if is_ctrl_v k then none else some (paste_intercept_invalid_key (codes "nu") (key_name k))
  ]
]

unfoldable pub first_keybind_error : KeybindConfig → Option ConfigError
first_keybind_error keybind = elim (first_where is_ctrl_v (labelled_keys keybind.trigger)) [
  | some label ↦ some (ctrl_v_as_trigger label)
  | none ↦ elim (first_where is_ctrl_v (labelled_keys keybind.self_insert)) [
    | some label ↦ some (ctrl_v_as_self_insert label)
    | none ↦ paste_error keybind.paste_intercept
  ]
]

-- `from_str` is `toml::from_str`, with its error as a text.
module _ (from_str : Text → Text ⊎ Config) (lib : RegexLite) where
  unfoldable pub parse_config_lenient : Text → ConfigError ⊎ Config
  parse_config_lenient s = elim (from_str s) [
    | inl error ↦ inl (parse error)
    | inr conf ↦ if conf.version == 1 then inr conf else inl (unsupported_version conf.version)
  ]

  unfoldable pub parse_config : Text → ConfigError ⊎ Config
  parse_config s = elim (parse_config_lenient s) [
    | inl error ↦ inl error
    | inr conf ↦ elim (first_keybind_error conf.keybind) [
      | some error ↦ inl error
      | none ↦ elim (first_validation_error lib conf) [ some error ↦ inl error | none ↦ inr conf ]
    ]
  ]
