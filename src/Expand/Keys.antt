-- ===== src/Expand/Keys.antt =====
-- runex/src/domain/expand.rs, the first half: how a rule's key is matched against a token.
use mathlib.Core.List.{tail}
use runex.Prelude.{
  ℕ, suc, ◌+◌, ◌-◌, ◌*◌, ◌^◌, List, [], ◌∷◌, ◌++◌, Option, none, some, Bool, true, ◌&&◌, ◌||◌, ◌==◌,
  ltb, if◌then◌else◌, length, take, drop, get_elem?, all, is_empty, ◌⊎◌, inl, inr, ◌>>=◌, not,
}
use runex.Text.{
  decimal, Text, codes, text_eq, contains_char, split_once_char, split_once_text, strip_prefix,
  strip_suffix, in_range,
}
use runex.Model.{Abbr, glob, regex}

-- `{number}`, `{*}` and its name.
abbrev pub number_placeholder : Text
number_placeholder = codes "{number}"

abbrev pub glob_capture_placeholder : Text
glob_capture_placeholder = codes "{*}"

abbrev pub glob_capture_name : Text
glob_capture_name = codes "*"

abbrev pub max_numeric_repeat : ℕ
max_numeric_repeat = 128

abbrev pub max_rendered_expand_bytes : ℕ
max_rendered_expand_bytes = 4096

abbrev pub regex_size_limit : ℕ
regex_size_limit = 64 * 1024

abbrev pub max_regex_groups : ℕ
max_regex_groups = 16

pub record RegexGroup : Type 0 where
  pub name : Option Text
  pub text : Text

pub record Bindings : Type 0 where
  pub number : Option ℕ
  pub glob_capture : Option Text
  pub groups : Option (List RegexGroup)

abbrev pub empty : Bindings
empty = record { number = none; glob_capture = none; groups = none }

pub data Phase : Type 0 where
  exact number globbed by_regex : Phase

abbrev pub phases : List Phase
phases = exact ∷ number ∷ globbed ∷ by_regex ∷ []

abbrev pub phase_index : Phase → ℕ
phase_index exact = 0
phase_index number = 1
phase_index globbed = 2
phase_index by_regex = 3

-- `==` on phases.
abbrev pub same_phase : Phase → Phase → Bool
same_phase p q = phase_index p == phase_index q

unfoldable pub phase_of : Abbr → Phase
phase_of abbr = elim abbr.match_kind [
  | some glob ↦ globbed
  | some regex ↦ by_regex
  | none ↦ if contains_char b'{' abbr.key then number else exact
]

-- Equal length, and `?` in the pattern accepts any character.
abbrev pub chars_match : Text → Text → Bool
chars_match [] t = true
chars_match (p ∷ ps) [] = true
chars_match (p ∷ ps) (t ∷ ts) = (p == b'?' || p == t) && chars_match ps ts

unfoldable pub glob_fixed_part_matches : Text → Text → Bool
glob_fixed_part_matches pattern text = length pattern == length text && chars_match pattern text

-- With the part of the key before its `*` and the part behind it.
unfoldable pub match_glob_parts : Text → Text → Text → Option Text
match_glob_parts head tail token =
    if ltb (length token) (length head + length tail)
    then none
    else if glob_fixed_part_matches head (take (length head) token)
        && glob_fixed_part_matches tail (drop (length token - length tail) token)
    then some (drop (length head) (take (length token - length tail) token))
    else none

unfoldable pub match_glob_key : Text → Text → Option Text
match_glob_key key token = elim (split_once_char b'*' key) [
  | none ↦ if glob_fixed_part_matches key token then some [] else none
  | some (head, tail) ↦ match_glob_parts head tail token
]

unfoldable pub split_once_number_placeholder : Text → Option (Text × Text)
split_once_number_placeholder key = elim (split_once_text number_placeholder key) [
  | none ↦ none
  | some (prefix, suffix) ↦
      if contains_char b'{' prefix || contains_char b'{' suffix then none else some (prefix, suffix)
]

abbrev pub is_ascii_digit : ℕ → Bool
is_ascii_digit c = in_range b'0' b'9' c

-- `parse::<u32>()` of a text of digits behind the value `n`: `none` on overflow.
unfoldable pub parse_digits : ℕ → Text → Option ℕ
parse_digits n [] = some n
parse_digits n (c ∷ s) =
    let rest = parse_digits (n * 10 + (c - b'0')) s in
    if ltb (n * 10 + (c - b'0')) (2 ^ 32) then rest else none

-- What stands between the prefix and the suffix of a key, as a count.
unfoldable pub parse_repeat : Text → Option Bindings
parse_repeat rest = if is_empty rest || not (all is_ascii_digit rest) then none else (do
  n ← parse_digits 0 rest
  if n == 0 || ltb max_numeric_repeat n then none else some (record empty { number = some n }))

unfoldable pub match_abbr_key : Text → Text → Option Bindings
match_abbr_key key token =
    let literal : Option Bindings = if text_eq key token then some empty else none in
    if not (contains_char b'{' key) then literal else elim (split_once_number_placeholder key) [
      | none ↦ literal
      | some (prefix, suffix) ↦ do
        behind ← strip_prefix prefix token
        rest ← strip_suffix suffix behind
        parse_repeat rest
    ]

-- `captures.get(i)`, where a group that took no part is `""`.
abbrev pub group_text : List (Option Text) → ℕ → Text
group_text found i = elim (get_elem? found i) [ some (some text) ↦ text | _ ↦ [] ]

-- The groups from number `i` on.
abbrev pub groups_from : ℕ → List (Option Text) → List (Option Text) → List RegexGroup
groups_from i [] found = []
groups_from i (name ∷ names) found =
    record { name = name; text = group_text found i } ∷ groups_from (suc i) names found

-- The crate `regex_lite`. `build` compiles a pattern within a size limit; `captures` gives the text
-- of each group of the first match, the whole match as group 0; `capture_names` the groups' names.
pub record RegexLite : Type 1 where
  pub Regex : Type 0
  pub build : ℕ → Text → Text ⊎ Regex
  pub captures : Regex → Text → Option (List (Option Text))
  pub capture_names : Regex → List (Option Text)
  pub captures_len : Regex → ℕ

module _ (lib : RegexLite) where
  open lib use {Regex, build, captures, capture_names, captures_len}

  unfoldable pub build_regex : Text → Text ⊎ Regex
  build_regex pattern = build regex_size_limit pattern

  -- `^(?:key)$`
  unfoldable pub compile_regex_key : Text → Text ⊎ Regex
  compile_regex_key key = build_regex (codes "^(?:" ++ (key ++ codes ")$"))

  -- `captures_len` counts the whole match as well.
  unfoldable pub regex_key_group_count : Text → Text ⊎ ℕ
  regex_key_group_count key = elim (build_regex key) [
    | inl error ↦ inl error
    | inr alone ↦ elim (compile_regex_key key) [
      | inl error ↦ inl error
      | inr wrapped ↦
          if ltb max_regex_groups (captures_len alone - 1)
          then inl
              (decimal (captures_len alone - 1) ++ codes " capture groups (at most 16 are allowed)")
          else inr (captures_len alone - 1)
    ]
  ]

  unfoldable pub match_regex_key : Text → Text → Option (List RegexGroup)
  match_regex_key key token = elim (compile_regex_key key) [
    | inl error ↦ none
    | inr compiled ↦ do
      found ← captures compiled token
      some (groups_from 1 (drop 1 (capture_names compiled)) found)
  ]

  -- By the rule's `match` field.
  unfoldable pub match_rule : Abbr → Text → Option Bindings
  match_rule abbr token = elim abbr.match_kind [
    | some glob ↦ do
      captured ← match_glob_key abbr.key token
      some (record empty { glob_capture = some captured })
    | some regex ↦ do
      found ← match_regex_key abbr.key token
      some (record empty { groups = some found })
    | none ↦ match_abbr_key abbr.key token
  ]
