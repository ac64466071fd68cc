-- ===== src/Lib.antt =====
-- Runex expands abbreviations on the command line: at each press of the trigger key a shell hands it
-- the line and the cursor, and runs the text that it answers. This library models the core of the
-- program in runex/src (Rust) and states what makes it correct.
--
-- How the parts interact: `cmd::hook::handle` turns the shell's cursor into a byte offset, loads the
-- configuration, calls the hook on the line and prints the new line and cursor as code of the shell.
-- The hook takes the last word before the cursor, tests its position and calls `expand`; `expand`
-- scans the rules in four phases, matches their keys, checks their conditions and fills in
-- their templates. `which_abbr` repeats the scan with a trace. A configuration is validated when it
-- is loaded. The answers to the conditions of its rules can be found in advance. The script that a
-- shell loads is made from a template; for Git Bash it holds the rules as tables and a version of
-- the hook in bash.
--
-- Files and the code they model:
--   Prelude       shared names, Boolean tests, lists over the native numbers, chains of options
--   Text          what the program uses of Rust's `str` and `char`: a text is the list of its code
--                 points, a slice at a byte offset is `split_at_byte`, whose `none` is the panic;
--                 Text/Bytes has the decoder of UTF-8 and of hexadecimal bytes;
--                 Text/Lines has `str::lines`, Text/Slices and Text/Search relate results to the text they stand in
--   Model         runex/src/domain/model.rs: the types of the configuration, fields by name
--   Sanitize      runex/src/domain/sanitize.rs, function by function
--   Shell         runex/src/domain/shell.rs: FromStr, Display and the quoting functions; Shell/Bash,
--                 Pwsh, Nu and LuaReader each describe how that shell reads a literal, Lua what it
--                 reads of a quoted text
--   Cursor        runex/src/app/hook.rs: the four cursor conversions and `shell_cursor_to_byte`
--   Expand        runex/src/domain/expand.rs: Keys (matching), Render (templates), Rules
--                 (`try_expand_rule`, `expand`), Which (`which_abbr`, `list`), Blank (`blankness`, with what
--                 it says of a rule); the other files hold
--                 descriptions: Pattern, Glob and Number of keys, Captures and Rendering of templates,
--                 Firing of a rule, Priority of the scan, Agreement of the two scans, Listing of
--                 what expands
--   Hook          runex/src/domain/hook.rs (`hook`, `is_command_position`, `render_action`),
--                 runex/src/app/hook.rs (`render`, `insert_space_action`) and runex/src/cmd/hook.rs
--                 (`handle`); Position, Outcome, Run, Message and Handle describe them;
--                 Hook/Hex has `decode_hex_line` and `resolve_line`, Hook/Utf8 lemmas on its decoder,
--                 Hook/Words lemmas on the words of a line
--   Validate      runex/src/app/config.rs: Issues (reasons, issues, errors), Checks (single values),
--                 the walks in Validate itself, Load (keys and `parse_config`); Walks and Order
--                 describe the visits, Quiet, Commands, Numbers, Rules, Keybinds and Accepted what is
--                 accepted
--   Precache      runex/src/app/precache.rs (`collect_unique_commands`, `build_cache`,
--                 `build_cache_from_resolved`, `parse_cache`, `load_cache`), the cache that
--                 runex/src/cmd/precache.rs writes and the hint of runex/src/main.rs; Answers has what
--                 the cache answers, Loading which caches are taken
--   Existence     runex/src/util/path.rs: the closures that test for a command; Memo has their answers
--                 without a cache, Precached what a hint changes
--   Export        runex/src/app/shell_export.rs: chords, bound lines and the substitution into a
--                 template; Panics has where a chord is missing
--   Dispatcher    runex/src/app/bash_static_dispatcher.rs: the baked tables; Script has the lookups of
--                 the bash script, Press its position test and `__runex_cyg_expand`. Reading is what
--                 bash reads a table as, Blank, Plain, Conds, Fields, Count, Case and Captured compare
--                 a part of the script with its part in the program, Scan, Bakeable, Exact,
--                 Patterns and Globs a lookup with its phase, Accepted says what of an accepted rule
--                 a table keeps, Agreement and Pressed compare the whole
--   Places        runex/src/infra/env.rs: the files of a shell, on Unix
--   Integration   runex/src/domain/integration.rs and runex/src/infra/integration_cache.rs; Check,
--                 Rcfile and Freshness have runex/src/infra/integration_check.rs: files and the clink
--                 script, the rc file, the cache file. Refreshed has what is said of a file just
--                 written, OneLine what the line for an rc file holds
--   ShellAlias    runex/src/infra/shell_alias.rs (`truncate_to_limit`, the parsers) and
--                 runex/src/app/shell_alias_conflicts.rs; Truncate, Bounds and Conflicts describe them
--   Doctor        runex/src/app/doctor.rs: the checks of the files, the keys and the rejected rules;
--                 Rules has the checks of the rules and `diagnose`, Distance `levenshtein`, Unknown
--                 the strict checks of the text, Report what runex/src/cmd/doctor.rs puts together.
--                 Commands is which commands it looks for, Keybind what it calls unknown; Healthy,
--                 Calm and Exit have what its exit code depends on, and where it panics
--   Tests         a sample configuration, and runs of the definitions on it
--
-- State and errors: the code is functional but for loops and closures. A loop is a recursion on
-- what it walks; a closure with `ControlFlow` is a visitor with a state and a `Flow`; a panic of a
-- slice is `none` of an option around the whole result. A number is unbounded where the code counts
-- bytes of one line or rule; `parse::<u32>`, `checked_mul` and `saturating_add` keep their bounds.
--
-- Fuel: `pieces`, the loop of `for_each_rendered_piece`, has as many rounds as the text has
-- characters, and one; each round passes at least the brace it found. `digits` has as many rounds as
-- its number, and one; each round divides by ten. The loop that takes spaces off the end of a line in
-- the script has as many rounds as the line has characters.
--
-- Parameters: the crate regex_lite is the record `RegexLite`; serde_json's string is a function of
-- the rendering for nu; `toml::from_str` is a function of `parse_config`; the test whether a
-- command exists is a function of the scan, and in Existence made of a `Search` of the PATH and the
-- files; serde_json on a cache is the record `Json`; the crate toml on a text is the record `Toml`;
-- the context that a hook call loads is an argument of `handle`; the file system that is probed is
-- the record `Files`, and the machine that doctor asks the record `Machine`; the template files are
-- the record `Templates`, in which the fixed text of the script for Git Bash is a function of its
-- tables; `type -P` is an argument of the script's lookups. Bash counts characters, as it does in a
-- UTF-8 locale. That a fingerprint stands for the commands that are found, and that a shell
-- resolves only commands that are, are hypotheses of the theorem on the cache:
-- `compute_fingerprint` hashes the PATH, the time of the configuration file and the shell, not the
-- files on the PATH.
--
-- Not modelled: `expand_timed`; the edits of the configuration file; the statements that export a
-- cache; the child processes that list aliases; `init`; the registry, the
-- clipboard, the writing of files, prompts, clocks and the command line parser, which are input
-- and output.
pub mod Prelude
pub mod Text
pub mod Model
pub mod Sanitize
pub mod Shell
pub mod Cursor
pub mod Expand
pub mod Hook
pub mod Validate
pub mod Precache
pub mod Dispatcher
pub mod Export
pub mod Existence
pub mod Tests
pub mod Places
pub mod Integration
pub mod ShellAlias
pub mod Doctor
