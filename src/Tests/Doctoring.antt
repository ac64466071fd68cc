-- ===== src/Tests/Doctoring.antt =====
-- What doctor says of a shell's files and aliases, on concrete ones.
use runex.Prelude.{
  [], ◌∷◌, ◌++◌, none, some, true, false, ◌||◌, ◌≡◌, ◌<◌, refl, arith, All, take, if◌then◌else◌,
  inr, all, map, ltb,
}
use runex.Text.{Text, codes, text_eq, trim, split_once_text, strip_prefix, ends_with}
use runex.Text.Lines.{lines}
use runex.Text.Search.{contains_char-Lacks}
use runex.Model.{bash, nu}
use runex.Places.{HomeDirResolver, path_join, xdg_cache_home_with}
use runex.Integration.{
  integration_line, integration_cache_marker, cache_path, cache_header, comment_prefix_for,
}
use runex.Integration.Check.{Files, read_capped_regular_file}
use runex.Integration.Freshness.{up_to_date, gone, check_cache_freshness}
use runex.Integration.Refreshed.{IsSilent, IsUnbroken, check_cache_freshness-header}
use runex.Integration.OneLine.{IsPrintable, integration_line-IsPrintable}
use runex.ShellAlias.{max_alias_lines, parse_bash_alias_lines, parse_pwsh_alias_lines}
use runex.ShellAlias.Bounds.{Bounded, parse_alias_lines-Bounded}
use runex.Precache.{collect_unique_commands}
use runex.Doctor.Rules.{check_when_command_exists}
use runex.Doctor.Commands.{headline, expected, check_when_command_exists-collect}
use runex.Tests.{sample, no_command}

abbrev home : HomeDirResolver
home = record { home_dir = some (codes "/home/u"); env_var = λ name. none }

abbrev cached : Text
cached = codes "/home/u/.cache/runex/integration.bash"

abbrev script_text : Text
script_text = codes "# runex shell integration for bash\ncase $- in\n"

abbrev program : Text
program = codes "/usr/bin/runex"

abbrev written : Text
written = cache_header (comment_prefix_for bash) program ++ script_text

abbrev disk : Files
disk = record {
  exists = λ path. text_eq path cached || text_eq path program;
  is_symlink = λ path. some false;
  open_file = λ path. some (record { is_file = true; len = 200; content = some written });
}

cached_at : cache_path bash home ≡ inr (some cached)
unfolding cache_path xdg_cache_home_with path_join ends_with text_eq
cached_at = refl

cached_there : disk.exists cached ≡ true
unfolding text_eq
cached_there = refl

cached_read : read_capped_regular_file disk cached ≡ some written
unfolding read_capped_regular_file
cached_read = refl

program-IsUnbroken : IsUnbroken program
program-IsUnbroken = (contains_char-Lacks 0x0A program refl, contains_char-Lacks 0x0D program refl)

program_plain : split_once_text integration_cache_marker program ≡ none
unfolding split_once_text strip_prefix
program_plain = refl

script-IsSilent : All IsSilent (take 2 (lines script_text))
unfolding lines split_once_text strip_prefix
script-IsSilent =
    (record { no_version = refl; no_bin = refl }, (record { no_version = refl; no_bin = refl }, tt))

check_cache_freshness-header_example : check_cache_freshness disk bash home ≡ (
    if text_eq (trim program) (codes "runex") || disk.exists (trim program)
    then up_to_date disk bash cached
    else gone disk bash cached (trim program))
check_cache_freshness-header_example =
    check_cache_freshness-header disk bash home cached program script_text cached_at cached_there
      cached_read program-IsUnbroken program_plain script-IsSilent

abbrev hostile : Text
hostile = codes "/tmp/a'\nrm -rf ~"

below : (s : Text) → all (λ c. ltb c 0x110000) s ≡ true → All (λ c. c < 0x110000) s
below [] h = tt
below (c ∷ s) h = (ground (arith, h), below s (ground (arith, h)))

hostile_codes : All (λ c. c < 0x110000) hostile
hostile_codes = below hostile refl

integration_line-IsPrintable_example : IsPrintable (integration_line nu hostile)
integration_line-IsPrintable_example = integration_line-IsPrintable nu hostile hostile_codes

abbrev listing : Text
listing = codes "alias ll='ls -l'\nalias gcm=git\n"

parse_alias_lines-Bounded_example :
    Bounded max_alias_lines (parse_bash_alias_lines listing)
    × Bounded max_alias_lines (parse_pwsh_alias_lines listing)
parse_alias_lines-Bounded_example = parse_alias_lines-Bounded listing

check_when_command_exists-collect_example :
    map headline (check_when_command_exists no_command sample)
    ≡ map (expected no_command) (collect_unique_commands sample)
check_when_command_exists-collect_example = check_when_command_exists-collect no_command sample
