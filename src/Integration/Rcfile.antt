-- ===== src/Integration/Rcfile.antt =====
-- runex/src/infra/integration_check.rs: what `runex doctor` says of an rc file.
use runex.Prelude.{
  ◌++◌, Option, none, some, Bool, true, false, not, if◌then◌else◌, keep, any, is_empty, is_some,
  ◌⊎◌, inl, inr,
}
use runex.Text.{Text, codes, text_eq, trim, trim_start, split_once_text, starts_with_char}
use runex.Text.Lines.{lines}
use runex.Sanitize.{sanitize_for_display}
use runex.Model.{Shell, bash, zsh, pwsh, clink, nu}
use runex.Places.{HomeDirResolver, rc_file_for}
use runex.Integration.{integration_line, cache_path}
use runex.Integration.Check.{
  runex_init_marker, Files, read_capped_regular_file, IntegrationCheck, shell_short_name,
  normalize_newlines,
}

-- The classification of an rc file.
pub data RcfileIntegrationStatus : Type 0 where
  ok : RcfileIntegrationStatus
  outdated : Bool → Bool → RcfileIntegrationStatus

unfoldable pub legacy_export_token : Shell → Text
legacy_export_token bash = codes "export bash"
legacy_export_token zsh = codes "export zsh"
legacy_export_token pwsh = codes "export pwsh"
legacy_export_token nu = codes "export nu"
legacy_export_token clink = codes "export clink"

unfoldable pub contains_expected_line : Text → Text → Bool
contains_expected_line content expected_line =
    if is_empty (trim expected_line)
    then false
    else any (λ l. text_eq (trim l) (trim expected_line)) (lines (normalize_newlines content))

unfoldable pub contains_legacy_export_token : Shell → Text → Bool
contains_legacy_export_token shell content =
    any (λ l. is_some (split_once_text (legacy_export_token shell) l))
      (keep (λ l. not (starts_with_char b'#' (trim_start l))) (lines (normalize_newlines content)))

unfoldable pub classify_rcfile_content : Shell → Text → Text → RcfileIntegrationStatus
classify_rcfile_content shell content expected_line =
    if contains_legacy_export_token shell content
    then outdated (contains_expected_line content expected_line) true
    else ok

module _ (shell : Shell) (path : Text) where
  abbrev rc_name : Text
  rc_name = codes "integration:" ++ shell_short_name shell

  abbrev shown : Text
  shown = sanitize_for_display path

  abbrev pub marker_found : IntegrationCheck
  marker_found = IntegrationCheck.ok rc_name (codes "marker found in " ++ shown)

  abbrev pub old_line : Text → Bool → Text
  old_line cache_str true =
      codes "marker found in "
      ++ (shown
          ++ (codes " but a legacy `runex export "
              ++ (shell_short_name shell
                  ++ codes
                      "` line is still present alongside the cache source line — delete the old line and re-run `runex doctor`")))
  old_line cache_str false =
      codes "marker found in "
      ++ (shown
          ++ (codes " but the rcfile still calls `runex export "
              ++ (shell_short_name shell
                  ++ (codes "` directly instead of sourcing the integration cache at "
                      ++ (sanitize_for_display cache_str
                          ++ (codes " — delete the old line and re-run `runex init "
                              ++ (shell_short_name shell ++ codes "`")))))))

  -- The marker is there: what the block says.
  unfoldable pub check_block : Text ⊎ Option Text → Text → IntegrationCheck
  check_block (inl error) content = marker_found
  check_block (inr none) content = marker_found
  check_block (inr (some cache_str)) content =
      elim (classify_rcfile_content shell content (integration_line shell cache_str)) [
        | ok ↦ marker_found
        | outdated has_expected has_legacy ↦
            IntegrationCheck.outdated rc_name (old_line cache_str has_expected) path
      ]

  -- What was read of the file.
  unfoldable pub check_content : Text ⊎ Option Text → Option Text → IntegrationCheck
  check_content cache none = IntegrationCheck.missing rc_name (
      codes "could not read "
      ++ (shown
          ++ (codes " — `runex init "
              ++ (shell_short_name shell
                  ++ codes
                      "` may not have been run, or the file is not a regular file or exceeds the safety cap"))))
  check_content cache (some content) =
      if not (is_some (split_once_text runex_init_marker content))
      then IntegrationCheck.missing rc_name (
          codes "marker missing in "
          ++ (shown ++ (codes " — run `runex init " ++ (shell_short_name shell ++ codes "`"))))
      else check_block cache content

  unfoldable pub check_rc_path : Files → HomeDirResolver → IntegrationCheck
  check_rc_path files env =
      if not (files.exists path)
      then IntegrationCheck.skipped rc_name
          (codes "rcfile not found at " ++ (shown ++ codes " — assuming this shell is not in use"))
      else check_content (cache_path shell env) (read_capped_regular_file files path)

abbrev pub or_rc_file : Option Text → Option Text → Option Text
or_rc_file none default = default
or_rc_file (some p) default = some p

unfoldable pub check_rcfile_marker :
    Files → HomeDirResolver → Shell → Option Text → IntegrationCheck
check_rcfile_marker files env shell rcfile_override =
    elim (or_rc_file rcfile_override (rc_file_for shell env)) [
      | none ↦
          IntegrationCheck.skipped (codes "integration:" ++ shell_short_name shell)
            (codes "no rcfile concept for this shell")
      | some path ↦ check_rc_path shell path files env
    ]
