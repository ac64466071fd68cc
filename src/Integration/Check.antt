-- ===== src/Integration/Check.antt =====
-- runex/src/infra/integration_check.rs: what `runex doctor` says of a shell's files.
use runex.Prelude.{
  ℕ, List, [], ◌∷◌, ◌++◌, Option, none, some, Bool, not, ltb, if◌then◌else◌, ◌*◌, ◌>>=◌,
}
use runex.Text.{Text, codes, text_eq, replace}
use runex.Sanitize.{sanitize_for_display}
use runex.Model.{Shell, bash, zsh, pwsh, clink, nu}
use runex.Places.{HomeDirResolver, path_join}

abbrev pub runex_init_marker : Text
runex_init_marker = codes "# runex-init"

abbrev pub max_probe_file_bytes : ℕ
max_probe_file_bytes = 10 * 1024 * 1024

-- A file that was opened: its metadata and what is read of it, where that is UTF-8.
pub record Opened : Type 0 where
  pub is_file : Bool
  pub len : ℕ
  pub content : Option Text

-- The file system: `symlink_metadata` says whether a path is a link.
pub record Files : Type 0 where
  pub exists : Text → Bool
  pub is_symlink : Text → Option Bool
  pub open_file : Text → Option Opened

abbrev pub capped : Opened → Option Text
capped file =
    if not file.is_file
    then none
    else if ltb max_probe_file_bytes file.len
    then none
    else file.content

unfoldable pub read_capped_regular_file : Files → Text → Option Text
read_capped_regular_file files path = do
  link ← files.is_symlink path
  if link then none else (files.open_file path >>= capped)

pub data IntegrationCheck : Type 0 where
  -- the name and the detail, and the path of what is outdated
  ok missing skipped : Text → Text → IntegrationCheck
  outdated : Text → Text → Text → IntegrationCheck

unfoldable pub shell_short_name : Shell → Text
shell_short_name bash = codes "bash"
shell_short_name zsh = codes "zsh"
shell_short_name pwsh = codes "pwsh"
shell_short_name clink = codes "clink"
shell_short_name nu = codes "nu"

unfoldable pub normalize_newlines : Text → Text
normalize_newlines s = replace (0x0D ∷ 0x0A ∷ []) (0x0A ∷ []) s

abbrev pub clink_result : Text → Text → Text → IntegrationCheck
clink_result current_export candidate on_disk =
    if text_eq (normalize_newlines on_disk) (normalize_newlines current_export)
    then ok (codes "integration:clink") (codes "up-to-date at " ++ sanitize_for_display candidate)
    else outdated (codes "integration:clink")
        (codes "outdated at "
          ++ (sanitize_for_display candidate ++ codes " — re-run `runex init clink` to refresh"))
        candidate

unfoldable pub check_clink_lua_freshness : Files → Text → List Text → IntegrationCheck
check_clink_lua_freshness files current_export [] =
    skipped (codes "integration:clink")
      (codes "no clink integration found — assuming clink is not in use")
check_clink_lua_freshness files current_export (candidate ∷ search_paths) =
    let later = check_clink_lua_freshness files current_export search_paths in
    elim (read_capped_regular_file files candidate) [
      | some on_disk ↦ clink_result current_export candidate on_disk
      | none ↦ later
    ]

abbrev pub with_path : Option Text → (Text → Text) → List Text → List Text
with_path none f paths = paths
with_path (some p) f paths = f p ∷ paths

unfoldable pub default_clink_lua_paths_with : HomeDirResolver → List Text
default_clink_lua_paths_with env =
    with_path (env.env_var (codes "RUNEX_CLINK_LUA_PATH")) (λ p. p)
      (with_path (env.env_var (codes "LOCALAPPDATA"))
        (λ local. path_join (path_join local (codes "clink")) (codes "runex.lua"))
        (with_path env.home_dir
          (λ home.
            path_join
              (path_join (path_join (path_join home (codes ".local")) (codes "share"))
                (codes "clink"))
              (codes "runex.lua"))
          []))
