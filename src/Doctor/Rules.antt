-- ===== src/Doctor/Rules.antt =====
-- runex/src/app/doctor.rs: the checks of the rules, and `diagnose`.
use runex.Prelude.{
  ℕ, ◌+◌, List, [], ◌∷◌, ◌++◌, Option, none, some, Bool, true, false, ◌&&◌, not, if◌then◌else◌, all,
  any, is_some, is_empty,
}
use runex.Text.{Text, codes, decimal, text_eq, contains_char, replace, split_once_char}
use runex.Sanitize.{sanitize_for_display}
use runex.Model.{string_all_values, Abbr, MatchKind, glob, regex, Config, cursor_placeholder}
use runex.Expand.Keys.{RegexLite}
use runex.Expand.Blank.{Blankness, blankness}
use runex.Precache.{fold, contains, condition_lists}
use runex.Places.{HomeDirResolver}
use runex.Integration.Check.{Files, check_clink_lua_freshness, default_clink_lua_paths_with}
use runex.ShellAlias.{Check, CheckStatus}
use runex.Doctor.{
  plain_check, DoctorEnvInfo, EffectiveSearchPathSummary, check_effective_search_path,
  check_config_file, check_config_parse, check_keybind, check_regex_git_bash,
  integration_check_to_check, integration_marker_checks, integration_cache_checks,
}

-- `replacen(c, text, 1)`.
abbrev pub replace_first : ℕ → Text → Text → Text
replace_first c text s = elim (split_once_char c s) [
  | some sides ↦ sides.0 ++ (text ++ sides.1)
  | none ↦ s
]

unfoldable pub rewrites_token_to_itself : Abbr → Text → Bool
rewrites_token_to_itself abbr template = elim abbr.match_kind [
  | none ↦ text_eq template abbr.key
  | some glob ↦
      not (contains_char b'?' abbr.key)
      && text_eq (replace cursor_placeholder [] template)
          (replace_first b'*' (codes "{*}") abbr.key)
  | some regex ↦ false
]

abbrev pub is_always : Blankness → Bool
is_always Blankness.always = true
is_always _ = false

abbrev pub is_never : Blankness → Bool
is_never Blankness.never = true
is_never _ = false

-- A check of the rule at an index, put before the rest where a test says so.
unfoldable pub report_rule : Bool → ℕ → Text → Text → List Check → List Check
report_rule found i label detail checks =
    if found
    then plain_check (codes "abbr[" ++ (decimal i ++ (codes "]." ++ label))) CheckStatus.warn
        (codes "rule #" ++ (decimal (i + 1) ++ detail))
      ∷ checks
    else checks

-- The body of the loop of `check_abbr_quality`, before the checks of the later rules.
unfoldable pub abbr_checks : RegexLite → ℕ → Abbr → List Check → List Check
abbr_checks lib i abbr later =
    let key = sanitize_for_display abbr.key in
    report_rule (is_empty abbr.key) i (codes "empty_key")
      (codes " has an empty key — it will never match")
      (report_rule (any (rewrites_token_to_itself abbr) (string_all_values abbr.expand)) i
        (codes "self_loop")
        (codes " key == expand ('" ++ (key ++ codes "') — this rule is always skipped"))
        (report_rule (any (λ v. is_always (blankness lib abbr v)) (string_all_values abbr.expand)) i
          (codes "blank_expand")
          (codes " ('"
            ++ (key
                ++ codes
                    "') has an expand that is blank once {} is removed — that expand never fires"))
          later))

abbrev pub abbr_checks_from : RegexLite → ℕ → List Abbr → List Check
abbr_checks_from lib i [] = []
abbr_checks_from lib i (abbr ∷ abbrs) = abbr_checks lib i abbr (abbr_checks_from lib (i + 1) abbrs)

unfoldable pub check_abbr_quality : RegexLite → Config → List Check
check_abbr_quality lib c = abbr_checks_from lib 0 c.abbr

unfoldable pub always_fires_when_matched : RegexLite → Abbr → Bool
always_fires_when_matched lib abbr =
    all
      (λ v.
        (if is_some abbr.match_kind
          then contains_char b' ' v
          else not (rewrites_token_to_itself abbr v))
        && is_never (blankness lib abbr v))
      (string_all_values abbr.expand)

unfoldable pub command_check : Bool → Text → Text → Check
command_check found cmd key =
    plain_check (codes "command:" ++ sanitize_for_display cmd)
      (if found then CheckStatus.ok else CheckStatus.warn)
      (codes "'"
        ++ (sanitize_for_display cmd
            ++ ((if found
                  then codes "' found (required by '"
                  else codes "' not found (required by '")
                ++ (sanitize_for_display key ++ codes "')"))))

-- The set `seen` as the list of what was inserted, and the vector `checks`.
pub record Commands : Type 0 where
  pub seen : List Text
  pub checks : List Check

-- The three loops, from the inside.
module _ (command_exists : Text → Bool) where
  unfoldable pub check_command : Text → Commands → Text → Commands
  check_command key s cmd = if contains s.seen cmd then s else record {
    seen = cmd ∷ s.seen;
    checks = s.checks ++ command_check (command_exists cmd) cmd key ∷ [];
  }

  abbrev pub check_list : Text → Commands → List Text → Commands
  check_list key = fold (check_command key)

  abbrev pub check_rule : Commands → Abbr → Commands
  check_rule s abbr = fold (check_list abbr.key) s (condition_lists abbr)

  unfoldable pub check_when_command_exists : Config → List Check
  check_when_command_exists c = (fold check_rule (record { seen = []; checks = [] }) c.abbr).checks

abbrev pub same_kind : Option MatchKind → Option MatchKind → Bool
same_kind none none = true
same_kind (some glob) (some glob) = true
same_kind (some regex) (some regex) = true
same_kind _ _ = false

-- The rules recorded so far, with their indices: `unconditional_keys`.
unfoldable pub first_with : Abbr → List (Abbr × ℕ) → Option ℕ
first_with abbr [] = none
first_with abbr ((earlier, i) ∷ rest) =
    let later = first_with abbr rest in
    if same_kind abbr.match_kind earlier.match_kind && text_eq abbr.key earlier.key
    then some i
    else later

unfoldable pub unreachable_check : ℕ → Abbr → ℕ → Check
unreachable_check i abbr first_rule =
    plain_check (codes "strict.unreachable.abbr[" ++ (decimal i ++ codes "]")) CheckStatus.warn (
      codes "rule #"
      ++ (decimal (i + 1)
          ++ (codes " ('"
              ++ (sanitize_for_display abbr.key
                  ++ (codes "') is unreachable — rule #"
                      ++ (decimal (first_rule + 1)
                          ++ codes
                              " has the same key with no condition and always matches first"))))))

-- The body of the loop, by the rule found and whether this one is recorded; then what the loop makes
-- of the later rules, without this one and with it.
abbrev pub at_rule : Option ℕ → Bool → ℕ → Abbr → List Check → List Check → List Check
at_rule (some first_rule) recorded i abbr rest recording =
    unreachable_check i abbr first_rule ∷ rest
at_rule none recorded i abbr rest recording = if recorded then recording else rest

unfoldable pub unreachable_from : RegexLite → List (Abbr × ℕ) → ℕ → List Abbr → List Check
unreachable_from lib earlier i [] = []
unreachable_from lib earlier i (abbr ∷ abbrs) =
    at_rule (first_with abbr earlier)
      (not (is_some abbr.when_command_exists) && always_fires_when_matched lib abbr) i abbr
      (unreachable_from lib earlier (i + 1) abbrs)
      (unreachable_from lib ((abbr, i) ∷ earlier) (i + 1) abbrs)

unfoldable pub check_unreachable_duplicates : RegexLite → Config → List Check
check_unreachable_duplicates lib c = unreachable_from lib [] 0 c.abbr

abbrev pub search_path_checks : Option EffectiveSearchPathSummary → List Check
search_path_checks none = []
search_path_checks (some summary) = check_effective_search_path summary ∷ []

abbrev pub clink_checks : Files → HomeDirResolver → Option Text → List Check
clink_checks files env none = []
clink_checks files env (some export) =
    integration_check_to_check
      (check_clink_lua_freshness files export (default_clink_lua_paths_with env))
    ∷ []

abbrev pub option_check : Option Check → List Check
option_check none = []
option_check (some check) = check ∷ []

abbrev pub config_checks : RegexLite → Bool → (Text → Bool) → Option Config → List Check
config_checks lib is_windows command_exists none = []
config_checks lib is_windows command_exists (some c) =
    check_keybind c
    ++ (check_abbr_quality lib c
        ++ (option_check (check_regex_git_bash c is_windows)
            ++ check_when_command_exists command_exists c))

-- `diagnose`: the files, the home and the commands of the machine it runs on are parameters.
unfoldable pub diagnose :
    Files
    → HomeDirResolver
    → RegexLite
    → Bool
    → (Text → Bool)
    → Text
    → Option Config
    → Option Text
    → DoctorEnvInfo
    → List Check
diagnose files env lib is_windows command_exists config_path c parse_error env_info =
    check_config_file files config_path
    ∷ check_config_parse c parse_error
    ∷ (search_path_checks env_info.effective_search_path
        ++ (integration_marker_checks files env env_info.check_rcfile_markers
            ++ (integration_cache_checks files env env_info.check_rcfile_markers
                ++ (clink_checks files env env_info.clink_export_for_drift_check
                    ++ config_checks lib is_windows command_exists c))))
