-- ===== src/Expand/Render.antt =====
-- runex/src/domain/expand.rs, the middle: how a rule's template is filled in.
use runex.Prelude.{
  ℕ, zero, suc, ◌+◌, ◌-◌, ◌*◌, ◌^◌, min, List, [], ◌∷◌, ◌++◌, Option, none, some, Bool, false, ltb,
  leb, if◌then◌else◌, length, get_elem?, ◌>>=◌,
}
use runex.Text.{
  Text, byte_len, text_eq, split_once_char, split_once_text, split_at_byte, in_range, replace,
  repeat,
}
use runex.Model.{Abbr, cursor_placeholder}
use runex.Expand.Keys.{
  number_placeholder, glob_capture_name, max_rendered_expand_bytes, RegexGroup, Bindings,
}

abbrev pub usize_max : ℕ
usize_max = 2 ^ 64 - 1

abbrev pub checked_mul : ℕ → ℕ → Option ℕ
checked_mul a b = if leb (a * b) usize_max then some (a * b) else none

abbrev pub saturating_add : ℕ → ℕ → ℕ
saturating_add a b = min (a + b) usize_max

-- The template with its unit repeated, refused where the repeated unit or the text is too long.
unfoldable pub render_repeated : Text → ℕ → Text → ℕ → Option Text
render_repeated unit n template total_repeat =
    let rendered = replace number_placeholder (repeat unit n) template in
    if ltb max_rendered_expand_bytes total_repeat
    then none
    else if ltb max_rendered_expand_bytes (byte_len rendered)
    then none
    else some rendered

unfoldable pub render_number : Abbr → Text → Bindings → Option Text
render_number abbr template bindings = elim bindings.number [
  | none ↦ some template
  | some n ↦ do
    unit ← abbr.number
    total_repeat ← checked_mul (byte_len unit) n
    render_repeated unit n template total_repeat
]

-- The text without its first `{}`, and the byte offset at which that stood.
unfoldable pub extract_cursor_placeholder : Text → Text × Option ℕ
extract_cursor_placeholder text = elim (split_once_text cursor_placeholder text) [
  | none ↦ (text, none)
  | some (before, behind) ↦ (before ++ behind, some (byte_len before))
]

-- `{1}` to `{9}`.
unfoldable pub regex_group_number : Text → Option ℕ
regex_group_number [] = none
regex_group_number (digit ∷ []) = if in_range b'1' b'9' digit then some (digit - b'0') else none
regex_group_number (_ ∷ _ ∷ _) = none

-- `group.name.as_deref() == Some(name)`.
abbrev pub has_name : Option Text → Text → Bool
has_name none name = false
has_name (some n) name = text_eq n name

abbrev pub find_group : List RegexGroup → Text → Option RegexGroup
find_group [] name = none
find_group (g ∷ gs) name =
    let rest = find_group gs name in if has_name g.name name then some g else rest

unfoldable pub resolve_capture : Text → Bindings → Option Text
resolve_capture name bindings =
    if text_eq name glob_capture_name then bindings.glob_capture else (do
      groups ← bindings.groups
      group ← elim (regex_group_number name) [
        | some number ↦ get_elem? groups (number - 1)
        | none ↦ find_group groups name
      ]
      some group.text)

-- What follows an opening brace: the capture that its placeholder stands for, and what stands
-- behind the closing brace.
unfoldable pub resolve_placeholder : Text → Bindings → Option (Text × Text)
resolve_placeholder after_open bindings = elim (split_once_char b'}' after_open) [
  | none ↦ none
  | some (name, behind) ↦ elim (resolve_capture name bindings) [
    | none ↦ none
    | some capture ↦ some (capture, behind)
  ]
]

-- The pieces that the loop emits, in order, within `fuel` rounds.
unfoldable pub pieces : ℕ → Text → Bindings → List Text
pieces zero rest bindings = rest ∷ []
pieces (suc fuel) rest bindings = elim (split_once_char b'{' rest) [
  | none ↦ rest ∷ []
  | some (before, after_open) ↦ elim (resolve_placeholder after_open bindings) [
    | some (capture, behind) ↦ before ∷ capture ∷ pieces fuel behind bindings
    | none ↦ (before ++ b'{' ∷ []) ∷ pieces fuel after_open bindings
  ]
]

-- Each round passes at least one character.
unfoldable pub for_each_rendered_piece : Text → Bindings → List Text
for_each_rendered_piece text bindings = pieces (suc (length text)) text bindings

abbrev pub total_len : ℕ → List Text → ℕ
total_len sum [] = sum
total_len sum (piece ∷ rest) = total_len (saturating_add sum (byte_len piece)) rest

abbrev pub concat : List Text → Text
concat [] = []
concat (piece ∷ rest) = piece ++ concat rest

unfoldable pub substitute_captures : Text → Bindings → Option Text
substitute_captures text bindings =
    let emitted = for_each_rendered_piece text bindings in
    if ltb max_rendered_expand_bytes (total_len 0 emitted) then none else some (concat emitted)

-- The two sides of a cursor, joined.
unfoldable pub join_sides : Text → Text → Option (Text × Option ℕ)
join_sides left right =
    if leb (byte_len (left ++ right)) max_rendered_expand_bytes
    then some (left ++ right, some (byte_len left))
    else none

-- The captures put into the text on both sides of its cursor; `none` as well where slicing at the
-- cursor would panic.
unfoldable pub fill_in : Text → Option ℕ → Bindings → Option (Text × Option ℕ)
fill_in text none bindings = elim (substitute_captures text bindings) [
  | none ↦ none
  | some filled ↦ some (filled, none)
]
fill_in text (some pos) bindings = do
  sides ← split_at_byte text pos
  left ← substitute_captures sides.0 bindings
  right ← substitute_captures sides.1 bindings
  join_sides left right

unfoldable pub render_with_cursor : Abbr → Text → Bindings → Option (Text × Option ℕ)
render_with_cursor abbr template bindings = do
  base ← render_number abbr template bindings
  let extracted = extract_cursor_placeholder base
  fill_in extracted.0 extracted.1 bindings
