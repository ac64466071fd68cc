-- ===== src/Integration.antt =====
-- runex/src/domain/integration.rs and runex/src/infra/integration_cache.rs: the line that loads the
-- script of a shell, and the header of the file it is in; runex/src/infra/integration_check.rs in
-- the modules below.
use runex.Prelude.{
  ℕ, List, [], ◌∷◌, ◌++◌, Option, none, some, Bool, true, false, ◌&&◌, ◌||◌, ◌==◌, not, ltb,
  if◌then◌else◌, keep, ◌>>=◌, ◌⊎◌, inl, inr,
}
use runex.Text.{Text, codes, decimal}
use runex.Sanitize.{is_deceptive_unicode}
use runex.Model.{Shell, bash, zsh, pwsh, clink, nu}
use runex.Shell.{bash_quote_string, pwsh_quote_string, lua_quote_string}
use runex.Places.{HomeDirResolver, path_join, xdg_cache_home_with}
pub mod Check
pub mod Rcfile
pub mod Freshness
pub mod Refreshed
pub mod OneLine

unfoldable pub sanitize_nu_cache_path_literal : Text → Text
sanitize_nu_cache_path_literal s =
    keep
      (λ c.
        not (c == b'\'' || c == 0x0A || c == 0x0D || c == 0x09)
        && ltb 0x1F c
        && not (c == 0x7F)
        && not (is_deceptive_unicode c))
      s

unfoldable pub integration_line : Shell → Text → Text
integration_line bash cache_path =
    codes "[ -r "
    ++ (bash_quote_string cache_path ++ (codes " ] && . " ++ bash_quote_string cache_path))
integration_line zsh cache_path =
    codes "[ -r "
    ++ (bash_quote_string cache_path ++ (codes " ] && . " ++ bash_quote_string cache_path))
integration_line pwsh cache_path =
    codes "if (Test-Path "
    ++ (pwsh_quote_string cache_path
        ++ (codes ") { . " ++ (pwsh_quote_string cache_path ++ codes " }")))
integration_line nu cache_path =
    codes "if ('"
    ++ (sanitize_nu_cache_path_literal cache_path
        ++ (codes "' | path exists) { source '"
            ++ (sanitize_nu_cache_path_literal cache_path ++ codes "' }")))
integration_line clink cache_path =
    codes "-- runex clink integration is auto-loaded from " ++ lua_quote_string cache_path

abbrev pub integration_cache_version : ℕ
integration_cache_version = 3

abbrev pub integration_cache_marker : Text
integration_cache_marker = codes "runex-integration-version:"

abbrev pub bin_marker : Text
bin_marker = codes "runex-bin: "

abbrev pub cache_extension : Shell → Option Text
cache_extension bash = some (codes "bash")
cache_extension zsh = some (codes "zsh")
cache_extension pwsh = some (codes "ps1")
cache_extension nu = some (codes "nu")
cache_extension clink = none

-- The text of `CacheError::NoCacheDir`.
abbrev pub no_cache_dir : Text
no_cache_dir = codes "cannot resolve cache directory (set $XDG_CACHE_HOME or $HOME)"

-- The cache file of a shell, none for clink, or the error where there is no cache directory.
unfoldable pub cache_path : Shell → HomeDirResolver → Text ⊎ Option Text
cache_path shell env = elim (cache_extension shell) [
  | none ↦ inr none
  | some ext ↦ elim (xdg_cache_home_with env) [
    | none ↦ inl no_cache_dir
    | some cache_root ↦
        inr (some (path_join (path_join cache_root (codes "runex")) (codes "integration." ++ ext)))
  ]
]

abbrev pub version_line : Text → Text
version_line comment_prefix =
    comment_prefix
    ++ (b' ' ∷ (integration_cache_marker ++ (b' ' ∷ decimal integration_cache_version)))

abbrev pub bin_line : Text → Text → Text
bin_line comment_prefix bin = comment_prefix ++ (b' ' ∷ (bin_marker ++ bin))

abbrev pub generated_line : Text → Text
generated_line comment_prefix =
    comment_prefix ++ codes " Generated by `runex init <shell>`; do not edit."

unfoldable pub cache_header : Text → Text → Text
cache_header comment_prefix bin =
    version_line comment_prefix
    ++ (0x0A
        ∷ (bin_line comment_prefix bin ++ (0x0A ∷ (generated_line comment_prefix ++ (0x0A ∷ [])))))

unfoldable pub comment_prefix_for : Shell → Text
comment_prefix_for bash = codes "#"
comment_prefix_for zsh = codes "#"
comment_prefix_for pwsh = codes "#"
comment_prefix_for nu = codes "#"
comment_prefix_for clink = codes "--"
