-- ===== src/Tests/Diagnosing.antt =====
-- What `runex doctor` reports of a whole installation, and the distances of names.
use runex.Prelude.{
  ℕ, List, [], ◌∷◌, none, some, true, false, ◌&&◌, ◌≡◌, ◌≤◌, refl, map, is_some, if◌then◌else◌,
}
use runex.Text.{Text, codes, text_eq}
use runex.Precache.{contains}
use runex.Model.{clink}
use runex.Export.{trigger_for}
use runex.Doctor.{is_shift_space}
use runex.Doctor.Distance.{rows, next_row, cells, levenshtein, Script, levenshtein-least}
use runex.Doctor.Unknown.{
  Toml, suggest_similar, known_keybind_keys, keys, table_at, check_unknown_fields,
}
use runex.Doctor.Keybind.{HasCheck, check_name, check_unknown_fields-keybind}
use runex.Doctor.Report.{Machine, Source, load_config, doctor_exit_code}
use runex.Doctor.Exit.{doctor_exit_code-loaded}
use runex.Tests.{sample, literal_regex, no_command, reads, bare_templates}

levenshtein-least_example :
    Script (codes "triger") (codes "trigger") (levenshtein (codes "triger") (codes "trigger"))
    × ((n : ℕ)
        → Script (codes "triger") (codes "trigger") n
        → levenshtein (codes "triger") (codes "trigger") ≤ n)
levenshtein-least_example = levenshtein-least (codes "triger") (codes "trigger")

triger : suggest_similar (codes "triger") known_keybind_keys ≡ some (codes "trigger")
unfolding suggest_similar levenshtein rows next_row cells
triger = refl

-- A table whose values are tables of empty ones.
abbrev strict_toml : Toml
strict_toml = record {
  Value = List Text;
  parse = λ source. some ((codes "keybind", codes "paste_intercept" ∷ []) ∷ []);
  as_table = λ v. some (map (λ key. (key, [])) v);
  as_array = λ v. none;
}

paste_there :
    contains
      (keys strict_toml (
        table_at strict_toml
          (codes "keybind")
          ((codes "keybind", codes "paste_intercept" ∷ []) ∷ [])))
      (codes "paste_intercept")
    ≡ true
unfolding text_eq
paste_there = refl

paste_unknown : contains known_keybind_keys (codes "paste_intercept") ≡ false
unfolding text_eq
paste_unknown = refl

check_unknown_fields-keybind_example :
    HasCheck
      (check_name (codes "paste_intercept"))
      (check_unknown_fields strict_toml (codes "[keybind.paste_intercept]"))
check_unknown_fields-keybind_example =
    check_unknown_fields-keybind strict_toml (codes "[keybind.paste_intercept]")
      (codes "paste_intercept") ((codes "keybind", codes "paste_intercept" ∷ []) ∷ []) refl
      paste_there paste_unknown

abbrev config_path : Text
config_path = codes "/home/u/.config/runex/config.toml"

abbrev machine : Machine
machine = record {
  files = record {
    exists = λ path. text_eq path config_path;
    is_symlink = λ path. none;
    open_file = λ path. none;
  };
  env = record { home_dir = some (codes "/home/u"); env_var = λ name. none };
  is_windows = true;
  command_exists = no_command;
  pwsh_alias = λ name. some (codes "Get-Item");
  bash_alias = λ name. none;
  current_exe = none;
  effective_search_path = record {
    from_process = 0;
    from_user_registry = 3;
    from_system_registry = 12;
  };
}

abbrev source : Source
source = record {
  config_path = config_path;
  read = some (codes "file");
  parse_error = none;
  source = some (codes "file");
}

doctor_exit_code-loaded_example :
    doctor_exit_code bare_templates strict_toml
      (reads sample)
      literal_regex
      machine
      source
      false
      true
    ≡ (if is_shift_space (trigger_for clink (load_config (reads sample) literal_regex source.read))
        then none
        else some (
            if machine.files.exists source.config_path
              && is_some (load_config (reads sample) literal_regex source.read)
            then 0
            else 1))
doctor_exit_code-loaded_example =
    doctor_exit_code-loaded bare_templates strict_toml (reads sample) literal_regex machine source
      false true
