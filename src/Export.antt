-- ===== src/Export.antt =====
-- runex/src/app/shell_export.rs: the script that a shell loads, made from a template.
pub mod Panics
use runex.Prelude.{List, [], ◌∷◌, ◌++◌, Option, none, some, ◌>>=◌}
use runex.Text.{Text, codes, replace}
use runex.Model.{
  Shell, bash, zsh, pwsh, clink, nu, or_else, Config, PerShellKey, TriggerKey, space, tab,
  alt_space, shift_space, ctrl_v,
}
use runex.Shell.{
  bash_quote_string, pwsh_quote_string, nu_quote_string, nu_quote_string_embedded, lua_quote_string,
}
use runex.Dispatcher.{join, newline, generate_cygwin_dispatcher}

unfoldable pub trigger_of : Shell → PerShellKey → Option TriggerKey
trigger_of bash trigger = or_else trigger.bash_key trigger.default
trigger_of zsh trigger = or_else trigger.zsh_key trigger.default
trigger_of pwsh trigger = or_else trigger.pwsh_key trigger.default
trigger_of nu trigger = or_else trigger.nu_key trigger.default
trigger_of clink trigger = trigger.default

unfoldable pub trigger_for : Shell → Option Config → Option TriggerKey
trigger_for shell config = do c ← config; trigger_of shell c.keybind.trigger

unfoldable pub self_insert_of : Shell → PerShellKey → Option TriggerKey
self_insert_of bash self_insert = or_else self_insert.bash_key self_insert.default
self_insert_of zsh self_insert = or_else self_insert.zsh_key self_insert.default
self_insert_of pwsh self_insert = or_else self_insert.pwsh_key self_insert.default
self_insert_of nu self_insert = or_else self_insert.nu_key self_insert.default
self_insert_of clink self_insert = none

unfoldable pub self_insert_for : Shell → Option Config → Option TriggerKey
self_insert_for shell config = do c ← config; self_insert_of shell c.keybind.self_insert

unfoldable pub paste_of : Shell → PerShellKey → Option TriggerKey
paste_of nu paste = paste.nu_key
paste_of bash paste = none
paste_of zsh paste = none
paste_of pwsh paste = none
paste_of clink paste = none

unfoldable pub paste_intercept_for : Shell → Option Config → Option TriggerKey
paste_intercept_for shell config = do c ← config; paste_of shell c.keybind.paste_intercept

-- The chords, where `none` is a panic of `unreachable!`.
unfoldable pub bash_chord : TriggerKey → Option Text
bash_chord space = some (codes "\\x20")
bash_chord tab = some (codes "\\C-i")
bash_chord alt_space = some (codes "\\e ")
bash_chord shift_space = none
bash_chord ctrl_v = none

unfoldable pub zsh_chord : TriggerKey → Option Text
zsh_chord space = some (codes " ")
zsh_chord tab = some (codes "^I")
zsh_chord alt_space = some (codes "^[ ")
zsh_chord shift_space = none
zsh_chord ctrl_v = none

unfoldable pub pwsh_chord : TriggerKey → Option Text
pwsh_chord space = some (codes " ")
pwsh_chord tab = some (codes "Tab")
pwsh_chord alt_space = some (codes "Alt+Spacebar")
pwsh_chord shift_space = none
pwsh_chord ctrl_v = none

unfoldable pub nu_modifier : TriggerKey → Option Text
nu_modifier alt_space = some (codes "alt")
nu_modifier shift_space = some (codes "shift")
nu_modifier space = some (codes "none")
nu_modifier tab = some (codes "none")
nu_modifier ctrl_v = none

unfoldable pub nu_keycode : TriggerKey → Option Text
nu_keycode space = some (codes "space")
nu_keycode alt_space = some (codes "space")
nu_keycode shift_space = some (codes "space")
nu_keycode tab = some (codes "tab")
nu_keycode ctrl_v = none

unfoldable pub clink_key_sequence : TriggerKey → Option Text
clink_key_sequence space = some (codes "\" \"")
clink_key_sequence tab = some (codes "\"\\t\"")
clink_key_sequence alt_space = some (codes "\"\\e \"")
clink_key_sequence shift_space = none
clink_key_sequence ctrl_v = none

unfoldable pub bash_bind_lines : Option TriggerKey → Option Text
bash_bind_lines none = some []
bash_bind_lines (some trigger) = do
  chord ← bash_chord trigger
  some (
      join newline (
        (codes "bind -r \"" ++ (chord ++ codes "\" 2>/dev/null || true"))
        ∷ (codes "bind -x '\"" ++ (chord ++ codes "\": __runex_expand'"))
        ∷ []))

unfoldable pub zsh_bind_lines : Option TriggerKey → Option Text
zsh_bind_lines none = some []
zsh_bind_lines (some trigger) = do
  chord ← zsh_chord trigger
  some (
      join newline (
        (codes "bindkey -r \"" ++ (chord ++ codes "\" 2>/dev/null"))
        ∷ (codes "bindkey \"" ++ (chord ++ codes "\" __runex_expand"))
        ∷ []))

unfoldable pub bash_self_insert_lines : Option TriggerKey → Text
bash_self_insert_lines (some alt_space) =
    join newline
      (codes "bind -r \"\\e \" 2>/dev/null || true" ∷ codes "bind '\"\\e \": self-insert'" ∷ [])
bash_self_insert_lines _ = []

unfoldable pub zsh_self_insert_lines : Option TriggerKey → Text
zsh_self_insert_lines (some alt_space) =
    join newline (codes "bindkey -r \"^[ \" 2>/dev/null" ∷ codes "bindkey \"^[ \" self-insert" ∷ [])
zsh_self_insert_lines _ = []

unfoldable pub pwsh_register_lines : Option TriggerKey → Option Text
pwsh_register_lines none = some []
pwsh_register_lines (some trigger) = do
  chord ← pwsh_chord trigger
  some (
      join newline (
        (codes "    __runex_register_expand_handler '" ++ (chord ++ codes "'"))
        ∷ codes "    if ((Get-PSReadLineOption).EditMode -eq 'Vi') {"
        ∷ (codes "        __runex_register_expand_handler '" ++ (chord ++ codes "' Insert"))
        ∷ codes "    }"
        ∷ []))

unfoldable pub pwsh_self_insert_lines : Option TriggerKey → Text
pwsh_self_insert_lines (some shift_space) =
    codes "    Set-PSReadLineKeyHandler -Chord 'Shift+Spacebar' -Function SelfInsert"
pwsh_self_insert_lines (some alt_space) =
    codes "    Set-PSReadLineKeyHandler -Chord 'Alt+Spacebar' -Function SelfInsert"
pwsh_self_insert_lines _ = []

abbrev pub clink_line : Text → Text → Text
clink_line key mode =
    codes "pcall(rl.setbinding, [["
    ++ (key ++ (codes "]], [[\"luafunc:runex_expand\"]], \"" ++ (mode ++ codes "\")")))

unfoldable pub clink_binding : Option TriggerKey → Option Text
clink_binding none = some []
clink_binding (some trigger) = do
  key ← clink_key_sequence trigger
  some (join newline (clink_line key (codes "emacs") ∷ clink_line key (codes "vi-insert") ∷ []))

-- The lines that are put in, each for every shell: `replace` takes its text already made.
pub record Parts : Type 0 where
  pub bash_lines : Text
  pub zsh_lines : Text
  pub clink_lines : Text
  pub pwsh_lines : Text
  pub nu_lines : Text

unfoldable pub replace_each : List (Text × Text) → Text → Text
replace_each [] s = s
replace_each ((placeholder, by) ∷ rest) s = replace_each rest (replace placeholder by s)

-- The files of runex/src/domain/templates, and the fixed text of the dispatcher.
pub record Templates : Type 0 where
  pub script : Shell → Text
  pub nu_expand_binding : Text
  pub nu_paste_binding : Text
  pub nu_self_insert_binding : Text
  pub dispatcher : Text → Text → Text → Text → Text

module _ (templates : Templates) where
  unfoldable pub nu_bindings : Option TriggerKey → Text → Option Text
  nu_bindings none bin = some []
  nu_bindings (some trigger) bin = do
    modifier ← nu_modifier trigger
    keycode ← nu_keycode trigger
    some (
        replace (codes "{NU_KEYCODE}") keycode (
          replace (codes "{NU_MODIFIER}") modifier (
            replace (codes "{NU_BIN}") (nu_quote_string_embedded bin) templates.nu_expand_binding)))

  unfoldable pub nu_paste_text : Option TriggerKey → Text → Text
  nu_paste_text (some ctrl_v) bin =
      replace (codes "{NU_BIN}") (nu_quote_string_embedded bin) templates.nu_paste_binding
  nu_paste_text _ bin = []

  abbrev pub nu_self_insert_text : Text → Text
  nu_self_insert_text modifier =
      replace (codes "{NU_SI_KEYCODE}") (codes "space")
        (replace (codes "{NU_SI_MODIFIER}") modifier templates.nu_self_insert_binding)

  unfoldable pub nu_self_insert_lines : Option TriggerKey → Text
  nu_self_insert_lines (some shift_space) = nu_self_insert_text (codes "shift")
  nu_self_insert_lines (some alt_space) = nu_self_insert_text (codes "alt")
  nu_self_insert_lines _ = []

  abbrev pub dispatcher_of : Option Config → Text
  dispatcher_of none = []
  dispatcher_of (some c) = generate_cygwin_dispatcher templates.dispatcher c

  unfoldable pub parts : Option TriggerKey → Text → Option Parts
  parts trigger bin = do
    bash_lines ← bash_bind_lines trigger
    zsh_lines ← zsh_bind_lines trigger
    clink_lines ← clink_binding trigger
    pwsh_lines ← pwsh_register_lines trigger
    nu_lines ← nu_bindings trigger bin
    some (record {
      bash_lines = bash_lines;
      zsh_lines = zsh_lines;
      clink_lines = clink_lines;
      pwsh_lines = pwsh_lines;
      nu_lines = nu_lines;
    })

  -- The replacements, in order.
  unfoldable pub substitutions : Shell → Text → Option Config → Parts → List (Text × Text)
  substitutions shell bin config p =
      (codes "{BASH_BIN}", bash_quote_string bin)
      ∷ (codes "{BASH_BIND_LINES}", p.bash_lines)
      ∷ (codes "{BASH_SELF_INSERT_LINES}", bash_self_insert_lines (self_insert_for shell config))
      ∷ (codes "{BASH_CYG_DISPATCHER}", dispatcher_of config)
      ∷ (codes "{ZSH_BIN}", bash_quote_string bin)
      ∷ (codes "{ZSH_BIND_LINES}", p.zsh_lines)
      ∷ (codes "{ZSH_SELF_INSERT_LINES}", zsh_self_insert_lines (self_insert_for shell config))
      ∷ (codes "{CLINK_BIN}", lua_quote_string bin)
      ∷ (codes "{CLINK_BINDING}", p.clink_lines)
      ∷ (codes "{PWSH_BIN}", pwsh_quote_string bin)
      ∷ (codes "{PWSH_REGISTER_LINES}", p.pwsh_lines)
      ∷ (codes "{PWSH_SELF_INSERT_LINES}", pwsh_self_insert_lines (self_insert_for shell config))
      ∷ (codes "{NU_BIN}", nu_quote_string bin)
      ∷ (codes "{NU_BINDINGS}", p.nu_lines)
      ∷ (codes "{NU_PASTE_BINDING}", nu_paste_text (paste_intercept_for shell config) bin)
      ∷ (codes "{NU_SELF_INSERT_BINDINGS}", nu_self_insert_lines (self_insert_for shell config))
      ∷ []

  unfoldable pub export_script : Shell → Text → Option Config → Option Text
  export_script shell bin config = do
    p ← parts (trigger_for shell config) bin
    some (
        replace_each (substitutions shell bin config p)
          (replace (0x0D ∷ newline) newline (templates.script shell)))
