-- ===== src/Dispatcher/Script.antt =====
-- The functions of the script in runex/src/app/bash_static_dispatcher.rs, for a bash whose locale is
-- UTF-8: `${#x}` and a slice count characters. `continue` in a loop over a table is `none`.
use runex.Prelude.{
  ℕ, ◌+◌, ◌-◌, ◌*◌, List, [], ◌∷◌, ◌++◌, Option, none, some, Bool, true, false, ◌&&◌, ◌||◌, ◌==◌,
  not, ltb, if◌then◌else◌, length, keep, all, is_empty, ◌>>=◌,
}
use runex.Text.{
  Text, byte_len, text_eq, split_once_char, split_once_text, strip_prefix, strip_suffix, replace,
  repeat, in_range,
}
use runex.Model.{cursor_placeholder}
use runex.Expand.Keys.{
  number_placeholder, glob_capture_placeholder, is_ascii_digit, max_rendered_expand_bytes,
}
use runex.Precache.{get}
use runex.Dispatcher.{multibyte_whitespace}
use runex.Dispatcher.Reading.{us}

-- What a lookup leaves in `__runex_out` and `__runex_cursor_off`.
abbrev pub Out : Type 0
Out = Text × Option ℕ

-- `IFS=$'\037' read -r`, field by field: the first one, and what is left for the next.
unfoldable pub first_field : Text → Text
first_field s = elim (split_once_char us s) [ some (f, rest) ↦ f | none ↦ s ]

unfoldable pub other_fields : Text → Text
other_fields s = elim (split_once_char us s) [ some (f, rest) ↦ rest | none ↦ [] ]

-- `__runex_cyg_is_blank`: what is left without white space is empty.
abbrev pub is_ascii_blank : ℕ → Bool
is_ascii_blank c = in_range 0x9 0xD c || c == 0x20

abbrev pub without_each : List ℕ → Text → Text
without_each [] s = s
without_each (c ∷ cs) s = without_each cs (keep (λ d. not (d == c)) s)

unfoldable pub cyg_is_blank : Text → Bool
cyg_is_blank text =
    is_empty (without_each multibyte_whitespace (keep (λ c. not (is_ascii_blank c)) text))

-- The text without its first `{}`, and where that stood.
unfoldable pub at_cursor : Text → Out
at_cursor text = elim (split_once_text cursor_placeholder text) [
  | none ↦ (text, none)
  | some (pos, behind) ↦ (pos ++ behind, some (length pos))
]

-- `__runex_cyg_render`.
unfoldable pub cyg_render : Text → Option Out
cyg_render text = if cyg_is_blank (at_cursor text).0 then none else some (at_cursor text)

-- The commands already looked up at this press.
abbrev pub Seen : Type 0
Seen = List (Text × Bool)

-- `for c in $conds` with `IFS=':'`: the names are not empty and hold no character of a pattern.
unfoldable pub split_conds : Text → List Text
split_conds [] = [] ∷ []
split_conds (c ∷ s) = elim (split_conds s) [
  | [] ↦ []
  | w ∷ ws ↦ if c == b':' then [] ∷ w ∷ ws else (c ∷ w) ∷ ws
]

-- The loop of a lookup over its table.
unfoldable pub scan : (Seen → Text → Seen × Option Out) → Seen → List Text → Seen × Option Out
scan try seen [] = (seen, none)
scan try seen (entry ∷ entries) =
    let rest = scan try (try seen entry).0 entries in
    elim (try seen entry).1 [ some out ↦ ((try seen entry).0, some out) | none ↦ rest ]

-- The tables of a dispatcher, read.
pub record Tables : Type 0 where
  pub exact : List Text
  pub patterns : List Text
  pub globs : List Text

-- `type_path` is `type -P`.
module _ (type_path : Text → Bool) where
  abbrev pub look_up : Seen → Text → Seen
  look_up seen c = elim (get seen c) [ some _ ↦ seen | none ↦ (c, type_path c) ∷ seen ]

  abbrev pub is_seen : Seen → Text → Bool
  is_seen seen c = elim (get seen c) [ some b ↦ b | none ↦ false ]

  unfoldable pub conds_loop : Seen → List Text → Seen × Bool
  conds_loop seen [] = (seen, true)
  conds_loop seen (c ∷ cs) =
      let rest = conds_loop (look_up seen c) cs in (rest.0, is_seen (look_up seen c) c && rest.1)

  -- `__runex_cyg_conds_met`.
  unfoldable pub cyg_conds_met : Seen → Text → Seen × Bool
  cyg_conds_met seen conds =
      if is_empty conds then (seen, true) else conds_loop seen (split_conds conds)

  -- What follows the test of a condition.
  abbrev pub when_met : Seen → Text → Option Out → Seen × Option Out
  when_met seen conds out =
      ((cyg_conds_met seen conds).0, if (cyg_conds_met seen conds).1 then out else none)

  -- The body of the loop of `__runex_cyg_lookup`.
  abbrev pub exact_fields : Text → Seen → Text → Text → Text → Seen × Option Out
  exact_fields token seen key template conds =
      if not (text_eq key token)
      then (seen, none)
      else if text_eq template key
      then (seen, none)
      else when_met seen conds (cyg_render template)

  unfoldable pub exact_try : Text → Seen → Text → Seen × Option Out
  exact_try token seen entry =
      exact_fields token seen (first_field entry) (first_field (other_fields entry))
        (other_fields (other_fields entry))

-- `${rest%%[!0]*}` taken off the front.
abbrev pub without_zeros : Text → Text
without_zeros [] = []
without_zeros (c ∷ s) = let rest = without_zeros s in if c == b'0' then rest else c ∷ s

-- `10#$digits`.
abbrev pub decimal_value : ℕ → Text → ℕ
decimal_value n [] = n
decimal_value n (c ∷ s) = decimal_value (n * 10 + (c - b'0')) s

-- The count that stands between prefix and suffix.
unfoldable pub cyg_count : Text → Option ℕ
cyg_count rest =
    if is_empty rest
    then none
    else if not (all is_ascii_digit rest)
    then none
    else if is_empty (without_zeros rest)
    then none
    else if ltb 3 (length (without_zeros rest))
    then none
    else if ltb 128 (decimal_value 0 (without_zeros rest))
    then none
    else some (decimal_value 0 (without_zeros rest))

-- The count in a token, between prefix and suffix; `none` at the first test that fails.
unfoldable pub cyg_match : Text → Text → Text → Option ℕ
cyg_match prefix suffix token = do
  behind ← strip_prefix prefix token
  rest ← strip_suffix suffix behind
  cyg_count rest

-- The unit repeated and put in, within the limit.
unfoldable pub cyg_repeated : Text → Text → ℕ → Option Text
cyg_repeated template unit n =
    if ltb max_rendered_expand_bytes (byte_len (repeat unit n))
    then none
    else if ltb max_rendered_expand_bytes
        (byte_len (replace number_placeholder (repeat unit n) template))
    then none
    else some (replace number_placeholder (repeat unit n) template)

-- The pattern of `case`, whose special characters are `*` and `?`.
unfoldable pub case_matches : Text → Text → Bool
case_matches [] t = is_empty t
case_matches (p ∷ ps) [] = p == b'*' && case_matches ps []
case_matches (p ∷ ps) (c ∷ t) =
    let none_taken = case_matches ps (c ∷ t) in
    let one_taken = case_matches (p ∷ ps) t in
    let both = case_matches ps t in
    if p == b'*' then none_taken || one_taken else (p == b'?' || p == c) && both

-- `${t#$pattern}` with `n` characters tried already, and `${t%$pattern}`.
unfoldable pub cut_front : Text → Text → Text → Option Text
cut_front pattern taken [] = if case_matches pattern taken then some [] else none
cut_front pattern taken (c ∷ t) =
    let longer = cut_front pattern (taken ++ c ∷ []) t in
    if case_matches pattern taken then some (c ∷ t) else longer

abbrev pub cut_head : Text → Text → Text
cut_head pattern t = elim (cut_front pattern [] t) [ some rest ↦ rest | none ↦ t ]

-- The shortest end that matches is taken off.
unfoldable pub cut_back : Text → Text → Option Text
cut_back pattern [] = if case_matches pattern [] then some [] else none
cut_back pattern (c ∷ t) = elim (cut_back pattern t) [
  | some kept ↦ some (c ∷ kept)
  | none ↦ if case_matches pattern (c ∷ t) then some [] else none
]

abbrev pub cut_tail : Text → Text → Text
cut_tail pattern t = elim (cut_back pattern t) [ some rest ↦ rest | none ↦ t ]

-- The template with the captured text put in, on both sides of its cursor.
unfoldable pub cyg_filled : Text → Text → Out
cyg_filled template rest = elim (split_once_text cursor_placeholder template) [
  | some (left, right) ↦
      let left' = replace glob_capture_placeholder rest left in
      (left' ++ replace glob_capture_placeholder rest right, some (length left'))
  | none ↦ (replace glob_capture_placeholder rest template, none)
]

unfoldable pub cyg_glob_out : Text → Text → Text → Option Out
cyg_glob_out token template rest =
    if ltb max_rendered_expand_bytes (byte_len (cyg_filled template rest).0)
    then none
    else if cyg_is_blank (cyg_filled template rest).0 || text_eq (cyg_filled template rest).0 token
    then none
    else some (cyg_filled template rest)

module _ (type_path : Text → Bool) where
  -- The body of the loop of `__runex_cyg_pattern_lookup`.
  unfoldable pub pattern_fields : Text → Seen → Text → Text → Text → Text → Text → Seen × Option Out
  pattern_fields token seen prefix suffix template unit conds =
      elim (cyg_match prefix suffix token) [
        | none ↦ (seen, none)
        | some n ↦
            when_met type_path seen conds
              (do rendered ← cyg_repeated template unit n; cyg_render rendered)
      ]

  unfoldable pub pattern_try : Text → Seen → Text → Seen × Option Out
  pattern_try token seen entry =
      let e1 = other_fields entry in
      let e2 = other_fields e1 in
      let e3 = other_fields e2 in
      pattern_fields token seen (first_field entry) (first_field e1) (first_field e2)
        (first_field e3) (other_fields e3)

  -- The body of the loop of `__runex_cyg_glob_lookup`.
  unfoldable pub glob_fields : Text → Seen → Text → Text → Text → Text → Text → Seen × Option Out
  glob_fields token seen pattern head tail template conds =
      if case_matches pattern token
      then when_met type_path seen conds
          (cyg_glob_out token template (cut_tail tail (cut_head head token)))
      else (seen, none)

  unfoldable pub glob_try : Text → Seen → Text → Seen × Option Out
  glob_try token seen entry =
      let e1 = other_fields entry in
      let e2 = other_fields e1 in
      let e3 = other_fields e2 in
      glob_fields token seen (first_field entry) (first_field e1) (first_field e2) (first_field e3)
        (other_fields e3)

  -- The three lookups of `__runex_cyg_expand`, each where the ones before it hit nothing.
  unfoldable pub cyg_lookups : Tables → Text → Option Out
  cyg_lookups tables token =
      let first = scan (exact_try type_path token) [] tables.exact in
      elim first.1 [
        | some out ↦ some out
        | none ↦
            let second = scan (pattern_try token) first.0 tables.patterns in
            elim second.1 [
              | some out ↦ some out
              | none ↦ (scan (glob_try token) second.0 tables.globs).1
            ]
      ]
