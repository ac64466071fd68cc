-- ===== src/Tests/Baking.antt =====
-- The script for Git Bash, for the sample configuration.
use runex.Prelude.{[], ◌∷◌, none, some, false, ◌≡◌, refl, subst, arith, All, map, length, any}
use runex.Text.{
  Text, codes, byte_len, text_eq, split_once_char, split_once_text, strip_prefix, replace,
}
use runex.Model.{
  bash, PerShellCmds, string_all_values, cmds_all_values, string_for_shell, cmds_for_shell,
}
use runex.Sanitize.{is_unicode_line_separator, is_deceptive_unicode}
use runex.Expand.Keys.{phase_of}
use runex.Expand.Rules.{expand}
use runex.Validate.Quiet.{any_none}
use runex.Hook.{HookAction, hook}
use runex.Dispatcher.{
  bash_conditions, block, rows_of, exact_row, pattern_row, glob_row, exact_table_lines,
  pattern_table_lines, glob_table_lines,
}
use runex.Dispatcher.Reading.{between, bash_array, entry, read-tables}
use runex.Dispatcher.Script.{
  cyg_lookups, scan, exact_try, pattern_try, glob_try, first_field, other_fields, cyg_match,
  cyg_count, glob_fields, case_matches, cut_front, cut_back, cyg_conds_met, cyg_glob_out,
  cyg_filled, cyg_is_blank, cyg_render, conds_loop, pattern_fields, split_conds,
}
use runex.Dispatcher.Scan.{script_of}
use runex.Dispatcher.Press.{cyg_expand}
use runex.Dispatcher.Accepted.{IsOneLine, IsOneLineRule}
use runex.Dispatcher.Agreement.{tables_of, IsNoRegex, cyg_lookups-expand}
use runex.Dispatcher.Pressed.{in_bash, cyg_expand-hook}
use runex.Tests.{literal_regex, no_command, sample, reads}
use runex.Tests.Loading.{sample_loads}

read-tables_example :
    (bash_array between (block (exact_table_lines sample))
      ≡ some (map entry (rows_of exact_row sample.abbr)))
    × (bash_array between (block (pattern_table_lines sample))
        ≡ some (map entry (rows_of pattern_row sample.abbr)))
    × (bash_array between (block (glob_table_lines sample))
        ≡ some (map entry (rows_of glob_row sample.abbr)))
read-tables_example = read-tables sample

one_command :
    (c : Text) {cmds : PerShellCmds}
    → IsOneLine c
    → some (PerShellCmds.all_shells (c ∷ [])) ≡ some cmds
    → All (All IsOneLine) (cmds_all_values cmds)
unfolding cmds_all_values
one_command c {cmds} line e =
    let same : PerShellCmds.all_shells (c ∷ []) ≡ cmds = ground (arith, e) in
    subst (λ x. All (All IsOneLine) (cmds_all_values x)) same ((line, tt), tt)

one_unit : (c : Text) {u : Text} → IsOneLine c → some c ≡ some u → IsOneLine u
one_unit c line e = subst IsOneLine (ground (arith, e)) line

line : (s : Text) → any is_unicode_line_separator s ≡ false → IsOneLine s
line s h = any_none is_unicode_line_separator s h

sample_lines : All IsOneLineRule sample.abbr
unfolding is_unicode_line_separator string_all_values
sample_lines = (
  record {
    key_line = line (codes "d*") refl;
    value_lines = (line (codes "docker {*}") refl, tt);
    unit_line = λ u e. cc;
    cmd_lines = λ c e. cc;
  },
  (
    record {
      key_line = line (codes "ls") refl;
      value_lines = (line (codes "lsd") refl, tt);
      unit_line = λ u e. cc;
      cmd_lines = λ c e. one_command (codes "lsd") (line (codes "lsd") refl) e;
    },
    (
      record {
        key_line = line (codes "gcm") refl;
        value_lines = (line (codes "git commit -m '{}'") refl, tt);
        unit_line = λ u e. cc;
        cmd_lines = λ c e. cc;
      },
      (
        record {
          key_line = line (codes "u{number}") refl;
          value_lines = (line (codes "cd {number}") refl, tt);
          unit_line = λ u e. one_unit (codes "../") (line (codes "../") refl) e;
          cmd_lines = λ c e. cc;
        },
        tt,
      ),
    ),
  ),
)

sample_plain : All IsNoRegex sample.abbr
unfolding phase_of
sample_plain = (refl, (refl, (refl, (refl, tt))))

-- A glob rule in front of an exact one, in a table of its own.
baked_lookup :
    cyg_lookups no_command (tables_of sample.abbr) (codes "dps") ≡ some (codes "docker ps", none)
unfolding cyg_lookups scan exact_try pattern_try glob_try exact_row pattern_row glob_row first_field
    other_fields is_unicode_line_separator is_deceptive_unicode bash_conditions cyg_match cyg_count
    glob_fields case_matches cut_front cut_back cyg_conds_met cyg_glob_out cyg_filled cyg_is_blank
    cyg_render conds_loop pattern_fields split_conds string_for_shell cmds_for_shell text_eq
    split_once_char split_once_text strip_prefix replace
baked_lookup = refl

cyg_lookups-expand_example :
    cyg_lookups no_command (tables_of sample.abbr) (codes "u3")
    ≡ script_of (some (expand no_command literal_regex (codes "u3") bash sample))
cyg_lookups-expand_example =
    cyg_lookups-expand (reads sample) no_command literal_regex (codes "file") (codes "u3")
      sample_loads sample_lines sample_plain

cyg_expand-hook_example :
    (action : HookAction) × (hook no_command literal_regex sample bash
        (codes "é; gcm x")
        (byte_len (codes "é; gcm"))
      ≡ some action)
    × (cyg_expand no_command (tables_of sample.abbr) (codes "é; gcm x") (length (codes "é; gcm"))
        ≡ in_bash action)
cyg_expand-hook_example =
    cyg_expand-hook (reads sample) no_command literal_regex (codes "file") (codes "é; gcm")
      (codes " x") sample_loads sample_lines sample_plain
