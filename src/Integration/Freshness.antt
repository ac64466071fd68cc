-- ===== src/Integration/Freshness.antt =====
-- runex/src/infra/integration_check.rs: what `runex doctor` says of a shell's cache file.
use runex.Prelude.{
  ℕ, [], ◌∷◌, ◌++◌, Option, none, some, ◌&&◌, ◌||◌, ◌==◌, not, if◌then◌else◌, take, all, is_empty,
  inl, inr,
}
use runex.Text.{Text, codes, decimal, text_eq, trim, split_once_text}
use runex.Text.Lines.{lines}
use runex.Sanitize.{sanitize_for_display}
use runex.Model.{Shell}
use runex.Expand.Keys.{is_ascii_digit, parse_digits}
use runex.Precache.{fold}
use runex.Places.{HomeDirResolver}
use runex.Integration.{integration_cache_version, integration_cache_marker, bin_marker, cache_path}
use runex.Integration.Check.{
  Files, read_capped_regular_file, IntegrationCheck, ok, outdated, missing, skipped,
  shell_short_name,
}

-- `parse::<u32>()`, which takes a leading plus sign.
abbrev pub unsigned_digits : Text → Option ℕ
unsigned_digits s = if is_empty s || not (all is_ascii_digit s) then none else parse_digits 0 s

unfoldable pub parse_u32 : Text → Option ℕ
parse_u32 [] = none
parse_u32 (c ∷ s) =
    let signed = unsigned_digits s in
    let plain = unsigned_digits (c ∷ s) in if c == b'+' then signed else plain

-- `version_line` and `bin_line`.
abbrev pub Headers : Type 0
Headers = Option Text × Option Text

unfoldable pub read_header : Headers → Text → Headers
read_header found line = elim (split_once_text integration_cache_marker line) [
  | some (before, v) ↦ (some (trim v), found.1)
  | none ↦ elim (split_once_text bin_marker line) [
    | some (before, b) ↦ (found.0, some b)
    | none ↦ found
  ]
]

unfoldable pub headers_of : Text → Headers
headers_of content = fold read_header (none, none) (take 5 (lines content))

module _ (files : Files) (shell : Shell) (target : Text) where
  abbrev cache_name : Text
  cache_name = codes "integration:" ++ (shell_short_name shell ++ codes ":cache")

  abbrev shown : Text
  shown = sanitize_for_display target

  abbrev rerun : Text
  rerun = codes "re-run `runex init " ++ (shell_short_name shell ++ codes "` to refresh")

  abbrev pub up_to_date : IntegrationCheck
  up_to_date = ok cache_name (codes "cache up-to-date at " ++ shown)

  abbrev pub gone : Text → IntegrationCheck
  gone bin =
      outdated cache_name
        (codes "cache at "
          ++ (shown
              ++ (codes " bakes a `runex-bin:` of "
                  ++ (sanitize_for_display bin
                      ++ (codes " which no longer exists. Re-run `runex init "
                          ++ (shell_short_name shell
                              ++ codes "` to point the cache at the current binary"))))))
        target

  unfoldable pub check_bin : Option Text → IntegrationCheck
  check_bin none = up_to_date
  check_bin (some bin) =
      if not (text_eq (trim bin) (codes "runex")) && not (files.exists (trim bin))
      then gone (trim bin)
      else up_to_date

  unfoldable pub check_version : Option Text → Text → IntegrationCheck
  check_version bin version_str = elim (parse_u32 version_str) [
    | none ↦
        outdated cache_name
          (codes "cache at "
            ++ (shown
                ++ (codes " has malformed version header `"
                    ++ (sanitize_for_display version_str ++ (codes "` — " ++ rerun)))))
          target
    | some parsed ↦
        if not (parsed == integration_cache_version)
        then outdated cache_name
            (codes "cache at "
              ++ (shown
                  ++ (codes " is version "
                      ++ (decimal parsed
                          ++ (codes " but this runex expects version "
                              ++ (decimal integration_cache_version ++ (codes " — " ++ rerun)))))))
            target
        else check_bin bin
  ]

  unfoldable pub check_headers : Headers → IntegrationCheck
  check_headers (none, bin) =
      outdated cache_name
        (codes "cache at "
          ++ (shown
              ++ (codes
                    " has no `runex-integration-version:` header — likely legacy `eval \"$(runex export "
                  ++ (shell_short_name shell
                      ++ (codes ")\"` content. Re-run `runex init "
                          ++ (shell_short_name shell ++ codes "` to upgrade"))))))
        target
  check_headers (some version_str, bin) = check_version bin version_str

  unfoldable pub check_target : IntegrationCheck
  check_target =
      if not (files.exists target)
      then skipped cache_name (
          codes "no cache at "
          ++ (shown
              ++ (codes " — run `runex init " ++ (shell_short_name shell ++ codes "` to install"))))
      else elim (read_capped_regular_file files target) [
        | none ↦ missing cache_name (
            codes "cache file at "
            ++ (shown
                ++ codes
                    " exists but could not be read (not a regular file, or exceeds the 10 MB safety cap)"))
        | some content ↦ check_headers (headers_of content)
      ]

unfoldable pub check_cache_freshness : Files → Shell → HomeDirResolver → IntegrationCheck
check_cache_freshness files shell env = elim (cache_path shell env) [
  | inr (some target) ↦ check_target files shell target
  | inr none ↦
      skipped (codes "integration:" ++ (shell_short_name shell ++ codes ":cache"))
        (codes "cache layout does not apply to clink (uses lua autoloader instead)")
  | inl e ↦
      skipped (codes "integration:" ++ (shell_short_name shell ++ codes ":cache"))
        (codes "cache path could not be resolved: " ++ e)
]
