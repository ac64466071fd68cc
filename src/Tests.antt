-- ===== src/Tests.antt =====
-- A configuration, a stand-in for the regular expression crate, and commands: the data of the tests.
pub mod Expansion
pub mod Keystroke
pub mod Literals
pub mod Caching
pub mod Loading
pub mod Blankness
pub mod Transport
pub mod Baking
pub mod Exporting
pub mod Resolving
pub mod Doctoring
pub mod Diagnosing
use runex.Prelude.{
  ℕ, ◌+◌, List, [], ◌∷◌, ◌++◌, Option, none, some, Bool, true, false, ltb, if◌then◌else◌, ◌⊎◌, inl,
  inr,
}
use runex.Text.{Text, codes, byte_len, text_eq}
use runex.Model.{
  PerShellString, PerShellCmds, all_shells, by_shell, PerShellKey, space, ctrl_v, MatchKind, glob,
  regex, Abbr, Config,
}
use runex.Expand.Keys.{RegexLite}
use runex.Export.{Templates}

-- Patterns without operators, within the size limit: a regular expression is its own text, with the
-- token as a group.
abbrev pub literal_regex : RegexLite
literal_regex = record {
  Regex = Text;
  build =
      λ limit pattern. if ltb limit (byte_len pattern) then inl (codes "too big") else inr pattern;
  captures = λ pattern s.
      if text_eq pattern (codes "^(?:" ++ (s ++ codes ")$")) then some (some s ∷ []) else none;
  capture_names = λ pattern. none ∷ [];
  captures_len = λ pattern. 1;
}

abbrev pub plain_rule : Text → Text → Abbr
plain_rule key template = record {
  key = key;
  expand = all_shells template;
  when_command_exists = none;
  number = none;
  match_kind = none;
}

abbrev pub commit_rule : Abbr
commit_rule = plain_rule (codes "gcm") (codes "git commit -m '{}'")

abbrev pub ls_rule : Abbr
ls_rule = record (plain_rule (codes "ls") (codes "lsd")) {
  when_command_exists = some (all_shells (codes "lsd" ∷ []));
}

abbrev pub up_rule : Abbr
up_rule = record (plain_rule (codes "u{number}") (codes "cd {number}")) {
  number = some (codes "../");
}

abbrev pub glob_rule : Abbr
glob_rule = record (plain_rule (codes "d*") (codes "docker {*}")) { match_kind = some glob }

abbrev pub space_key : PerShellKey
space_key = record {
  default = some space;
  bash_key = none;
  zsh_key = none;
  pwsh_key = none;
  nu_key = none;
}

abbrev pub sample : Config
sample = record {
  version = 1;
  keybind = record {
    trigger = space_key;
    self_insert = space_key;
    paste_intercept = record space_key { default = none; nu_key = some ctrl_v };
  };
  precache = record { path_only = false };
  abbr = glob_rule ∷ ls_rule ∷ commit_rule ∷ up_rule ∷ [];
}

abbrev pub no_command : Text → Bool
no_command name = false

abbrev pub quoted_json : Text → Text
quoted_json s = b'"' ∷ (s ++ b'"' ∷ [])

-- A reader of configuration files that knows one file.
abbrev pub reads : Config → Text → Text ⊎ Config
reads conf s = if text_eq s (codes "file") then inr conf else inl (codes "no table")

abbrev pub bare_templates : Templates
bare_templates = record {
  script = λ shell. codes "{NU_BINDINGS}";
  nu_expand_binding = codes "{NU_BIN} {NU_MODIFIER} {NU_KEYCODE}";
  nu_paste_binding = codes "{NU_BIN}";
  nu_self_insert_binding = codes "{NU_SI_MODIFIER} {NU_SI_KEYCODE}";
  dispatcher = λ exact patterns globs blanks. exact ++ (patterns ++ (globs ++ blanks));
}
