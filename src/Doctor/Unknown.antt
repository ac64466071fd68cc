-- ===== src/Doctor/Unknown.antt =====
-- runex/src/app/doctor.rs, the strict checks of the configuration's text: the fields that it does not
-- know, with the names that come close, and the section that is no longer used.
use runex.Prelude.{
  ℕ, ◌+◌, List, [], ◌∷◌, ◌++◌, Option, none, some, ◌&&◌, ltb, leb, if◌then◌else◌, is_some, map,
}
use runex.Text.{Text, codes, decimal, text_eq}
use runex.Sanitize.{sanitize_for_display}
use runex.Shell.{each_char, encode_utf8}
use runex.Precache.{contains}
use runex.ShellAlias.{Check, CheckStatus}
use runex.Doctor.{plain_check}
use runex.Doctor.Distance.{levenshtein}

-- The candidates that come close, with their distances.
abbrev pub close_ones : Text → List Text → List (Text × ℕ)
close_ones name [] = []
close_ones name (c ∷ candidates) =
    let d = levenshtein (each_char encode_utf8 name) (each_char encode_utf8 c) in
    let rest = close_ones name candidates in if leb d 2 && ltb 0 d then (c, d) ∷ rest else rest

-- `min_by_key` gives the first of the least.
abbrev pub least_from : Text × ℕ → List (Text × ℕ) → Text
least_from best [] = best.0
least_from best (entry ∷ entries) =
    let later = least_from entry entries in
    let same = least_from best entries in if ltb entry.1 best.1 then later else same

unfoldable pub suggest_similar : Text → List Text → Option Text
suggest_similar name candidates = elim (close_ones name candidates) [
  | [] ↦ none
  | entry ∷ entries ↦ some (least_from entry entries)
]

abbrev pub known_top_level_keys : List Text
known_top_level_keys = codes "version" ∷ codes "keybind" ∷ codes "precache" ∷ codes "abbr" ∷ []

abbrev pub known_abbr_keys : List Text
known_abbr_keys =
    codes "key" ∷ codes "expand" ∷ codes "when_command_exists" ∷ codes "number" ∷ codes "match" ∷ []

abbrev pub known_keybind_keys : List Text
known_keybind_keys = codes "trigger" ∷ codes "self_insert" ∷ []

abbrev pub known_keybind_sub_keys : List Text
known_keybind_sub_keys =
    codes "default" ∷ codes "bash" ∷ codes "zsh" ∷ codes "pwsh" ∷ codes "nu" ∷ []

abbrev pub known_precache_keys : List Text
known_precache_keys = codes "path_only" ∷ []

-- The crate toml: a text as a table, and the values that are tables or arrays.
pub record Toml : Type 1 where
  pub Value : Type 0
  pub parse : Text → Option (List (Text × Value))
  pub as_table : Value → Option (List (Text × Value))
  pub as_array : Value → Option (List Value)

-- What is said of an unknown field: the path to its table, and the words around it.
unfoldable pub unknown_check : Text → Text → Text → List Text → Text → Check
unknown_check path before after known key =
    plain_check (codes "strict.unknown_field." ++ (path ++ sanitize_for_display key))
      CheckStatus.warn
      (before
        ++ (sanitize_for_display key
            ++ (after ++ elim (suggest_similar key known) [
              | some s ↦ codes " (did you mean '" ++ (s ++ codes "'?)")
              | none ↦ []
            ])))

-- One of the loops over the keys of a table.
unfoldable pub unknown_keys : Text → Text → Text → List Text → List Text → List Check
unknown_keys path before after known [] = []
unknown_keys path before after known (key ∷ keys) =
    let rest = unknown_keys path before after known keys in
    if contains known key then rest else unknown_check path before after known key ∷ rest

module _ (toml : Toml) where
  abbrev pub Table : Type 0
  Table = List (Text × toml.Value)

  abbrev pub keys : Table → List Text
  keys t = map (λ entry. entry.0) t

  abbrev pub lookup : Text → Table → Option toml.Value
  lookup key [] = none
  lookup key (entry ∷ t) =
      let rest = lookup key t in if text_eq entry.0 key then some entry.1 else rest

  -- The entry for a key, where it is a table.
  abbrev pub table_at : Text → Table → Table
  table_at key t = elim (lookup key t) [
    | none ↦ []
    | some v ↦ elim (toml.as_table v) [ none ↦ [] | some sub ↦ sub ]
  ]

  unfoldable pub unknown_keybind : Table → List Text → List Check
  unknown_keybind kb [] = []
  unknown_keybind kb (key ∷ rest) =
      (if contains known_keybind_keys key
        then unknown_keys (codes "keybind." ++ (key ++ codes "."))
            (codes "unknown keybind." ++ (key ++ codes " field '")) (codes "'")
            known_keybind_sub_keys (keys (table_at key kb))
        else unknown_check (codes "keybind.") (codes "unknown keybind field '") (codes "'")
            known_keybind_keys key
          ∷ [])
      ++ unknown_keybind kb rest

  abbrev pub abbr_table : toml.Value → Table
  abbr_table entry = elim (toml.as_table entry) [ none ↦ [] | some t ↦ t ]

  unfoldable pub unknown_abbr : ℕ → List toml.Value → List Check
  unknown_abbr i [] = []
  unknown_abbr i (entry ∷ entries) =
      unknown_keys (codes "abbr[" ++ (decimal i ++ codes "].")) (codes "unknown field '")
        (codes "' in abbr[" ++ (decimal (i + 1) ++ codes "]")) known_abbr_keys
        (keys (abbr_table entry))
      ++ unknown_abbr (i + 1) entries

  abbrev pub abbr_values : Table → List toml.Value
  abbr_values t = elim (lookup (codes "abbr") t) [
    | none ↦ []
    | some v ↦ elim (toml.as_array v) [ none ↦ [] | some vs ↦ vs ]
  ]

  unfoldable pub unknown_in : Table → List Check
  unknown_in t =
      unknown_keys [] (codes "unknown top-level field '") (codes "'") known_top_level_keys (keys t)
      ++ (unknown_keybind (table_at (codes "keybind") t) (keys (table_at (codes "keybind") t))
          ++ (unknown_keys (codes "precache.") (codes "unknown precache field '") (codes "'")
                known_precache_keys (keys (table_at (codes "precache") t))
              ++ unknown_abbr 0 (abbr_values t)))

  -- What a check says of a text that is a table.
  abbrev pub in_parsed : Option Table → (Table → List Check) → List Check
  in_parsed none f = []
  in_parsed (some t) f = f t

  unfoldable pub check_unknown_fields : Text → List Check
  check_unknown_fields config_source = in_parsed (toml.parse config_source) unknown_in

  unfoldable pub precache_section : Table → List Check
  precache_section t =
      if is_some (lookup (codes "precache") t)
      then plain_check (codes "precache_deprecation") CheckStatus.warn (
          codes
            "[precache] is deprecated and has no effect since the shell integration moved to runtime hook calls. Remove the section to silence this warning.")
        ∷ []
      else []

  unfoldable pub check_precache_deprecation : Text → List Check
  check_precache_deprecation config_source = in_parsed (toml.parse config_source) precache_section
