-- ===== src/Dispatcher.antt =====
-- runex/src/app/bash_static_dispatcher.rs: the rules of a configuration as tables of a bash script,
-- for the bash of Git for Windows, which cannot run the program at a key press.
pub mod Reading
pub mod Script
pub mod Blank
pub mod Plain
pub mod Conds
pub mod Fields
pub mod Scan
pub mod Bakeable
pub mod Exact
pub mod Count
pub mod Patterns
pub mod Case
pub mod Captured
pub mod Globs
pub mod Accepted
pub mod Agreement
pub mod Press
pub mod Words
pub mod Pressed
use runex.Prelude.{
  ℕ, List, [], ◌∷◌, ◌++◌, Option, none, some, Bool, true, false, ◌||◌, ◌==◌, if◌then◌else◌, is_some,
  is_empty, map, ◌>>=◌,
}
use runex.Text.{Text, codes, contains_char, split_once_char, split_once_text, is_ascii_control}
use runex.Model.{
  Shell, bash, string_for_shell, cmds_for_shell, Abbr, Config, MatchKind, glob, regex,
}
use runex.Sanitize.{is_unicode_line_separator, is_deceptive_unicode}
use runex.Shell.{each_char}
use runex.Expand.Keys.{number_placeholder}

-- `join(separator)`.
abbrev pub join : Text → List Text → Text
join separator [] = []
join separator (t ∷ []) = t
join separator (t ∷ u ∷ ts) = t ++ (separator ++ join separator (u ∷ ts))

abbrev pub is_double_quote_special : ℕ → Bool
is_double_quote_special c = c == b'"' || c == b'\\' || c == b'$' || c == b'`'

abbrev pub is_dropped_in_table : ℕ → Bool
is_dropped_in_table c = is_ascii_control c || is_unicode_line_separator c || is_deceptive_unicode c

unfoldable pub assoc_char : ℕ → Text
assoc_char c =
    if is_double_quote_special c
    then b'\\' ∷ c ∷ []
    else if is_dropped_in_table c
    then []
    else c ∷ []

unfoldable pub bash_double_quote_for_assoc : Text → Text
bash_double_quote_for_assoc s = b'"' ∷ (each_char assoc_char s ++ b'"' ∷ [])

-- `None` where there is a condition without an entry for bash.
unfoldable pub bash_conditions : Abbr → Option Text
bash_conditions rule = elim rule.when_command_exists [
  | none ↦ some []
  | some per_shell ↦ elim (cmds_for_shell per_shell bash) [
    | none ↦ none
    | some cmds ↦ some (join (b':' ∷ []) cmds)
  ]
]

-- `$'\037'`, the separator of the fields.
abbrev pub sep : Text
sep = codes "$'\\037'"

abbrev pub table_line : List Text → Text
table_line fields = codes "    " ++ join sep (map bash_double_quote_for_assoc fields)

-- The fields of a rule, made from its template and its condition, where it has both for bash.
abbrev pub baked : Abbr → (Text → Text → List Text) → Option (List Text)
baked rule fields = do
  template ← string_for_shell rule.expand bash
  conds ← bash_conditions rule
  some (fields template conds)

unfoldable pub exact_row : Abbr → Option (List Text)
exact_row rule =
    if contains_char b'{' rule.key || is_some rule.match_kind
    then none
    else baked rule (λ template conds. rule.key ∷ template ∷ conds ∷ [])

unfoldable pub pattern_row : Abbr → Option (List Text)
pattern_row rule = if is_some rule.match_kind then none else (do
  unit ← rule.number
  sides ← split_once_text number_placeholder rule.key
  baked rule (λ template conds. sides.0 ∷ sides.1 ∷ template ∷ unit ∷ conds ∷ []))

abbrev pub is_glob : Option MatchKind → Bool
is_glob (some glob) = true
is_glob (some regex) = false
is_glob none = false

-- `split_once('*').unwrap_or((key, ""))`.
abbrev pub around_star : Text → Text × Text
around_star key = elim (split_once_char b'*' key) [ some sides ↦ sides | none ↦ (key, []) ]

unfoldable pub glob_row : Abbr → Option (List Text)
glob_row rule =
    if is_glob rule.match_kind
    then baked rule (λ template conds.
      rule.key ∷ (around_star rule.key).0 ∷ (around_star rule.key).1 ∷ template ∷ conds ∷ [])
    else none

-- The lines that a loop over the rules pushes, each for the fields of a rule.
abbrev pub rows_of : (Abbr → Option (List Text)) → List Abbr → List (List Text)
rows_of row [] = []
rows_of row (rule ∷ rules) =
    let rest = rows_of row rules in elim (row rule) [ some fields ↦ fields ∷ rest | none ↦ rest ]

abbrev pub newline : Text
newline = 0x0A ∷ []

abbrev pub table_lines : (Abbr → Option (List Text)) → Config → Text
table_lines row config = join newline (map table_line (rows_of row config.abbr))

unfoldable pub exact_table_lines : Config → Text
exact_table_lines config = table_lines exact_row config

unfoldable pub pattern_table_lines : Config → Text
pattern_table_lines config = table_lines pattern_row config

unfoldable pub glob_table_lines : Config → Text
glob_table_lines config = table_lines glob_row config

abbrev pub multibyte_whitespace : List ℕ
multibyte_whitespace =
    0x85 ∷ 0xA0 ∷ 0x1680 ∷ 0x2000 ∷ 0x2001 ∷ 0x2002 ∷ 0x2003 ∷ 0x2004 ∷ 0x2005 ∷ 0x2006 ∷ 0x2007
    ∷ 0x2008 ∷ 0x2009 ∷ 0x200A ∷ 0x2028 ∷ 0x2029 ∷ 0x202F ∷ 0x205F ∷ 0x3000 ∷ []

unfoldable pub bash_multibyte_blank_words : Text
bash_multibyte_blank_words = join (0x20 ∷ []) (map (λ c. b'"' ∷ c ∷ b'"' ∷ []) multibyte_whitespace)

abbrev pub block : Text → Text
block lines = if is_empty lines then [] else newline ++ (lines ++ newline)

-- `frame` is the fixed text of the format string: the functions of the script around the tables.
unfoldable pub generate_cygwin_dispatcher : (Text → Text → Text → Text → Text) → Config → Text
generate_cygwin_dispatcher frame config =
    frame (block (exact_table_lines config)) (block (pattern_table_lines config))
      (block (glob_table_lines config)) bash_multibyte_blank_words
