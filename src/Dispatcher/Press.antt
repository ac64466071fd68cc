-- ===== src/Dispatcher/Press.antt =====
-- `__runex_cyg_is_command_position` and `__runex_cyg_expand` of
-- runex/src/app/bash_static_dispatcher.rs: what the script makes of READLINE_LINE and READLINE_POINT.
-- `nocasematch` is off where it compares, as it sees to.
use runex.Prelude.{
  ℕ, zero, suc, ◌+◌, ◌-◌, [], ◌∷◌, ◌++◌, none, some, Bool, true, false, ◌&&◌, ◌||◌, not,
  if◌then◌else◌, length, take, drop, is_empty,
}
use runex.Text.{Text, codes, contains_char, starts_with_char, strip_suffix, ends_with, text_eq}
use runex.Dispatcher.Script.{Out, Tables, cyg_lookups}

-- The loop that takes the last space off, as often as it is entered.
unfoldable pub cut_spaces_loop : ℕ → Text → Text
cut_spaces_loop zero s = s
cut_spaces_loop (suc n) s = elim (strip_suffix (b' ' ∷ []) s) [
  | none ↦ s
  | some shorter ↦ cut_spaces_loop n shorter
]

unfoldable pub cut_spaces : Text → Text
cut_spaces s = cut_spaces_loop (length s) s

-- `${s##* }`.
unfoldable pub last_word : Text → Text
last_word [] = []
last_word (c ∷ s) = let rest = last_word s in if contains_char b' ' (c ∷ s) then rest else c ∷ s

-- `${s:0:$((${#s} - ${#word}))}`.
abbrev pub without_word : Text → Text → Text
without_word s word = take (length s - length word) s

-- `case` with `*"&&"|*"||"|*"|"|*";"`.
unfoldable pub ends_in_operator : Text → Bool
ends_in_operator s =
    ends_with (codes "&&") s
    || ends_with (codes "||") s
    || ends_with (codes "|") s
    || ends_with (codes ";") s

-- The text in front of the last word.
unfoldable pub before_last : Text → Text
before_last prefix =
    if text_eq (last_word prefix) prefix then [] else without_word prefix (last_word prefix)

abbrev pub behind_start : Text → Bool
behind_start s = is_empty s || ends_in_operator s

unfoldable pub cyg_is_command_position : Text → Bool
cyg_is_command_position line =
    let prefix = cut_spaces line in
    if is_empty prefix
    then true
    else if ends_in_operator prefix
    then true
    else if text_eq (last_word prefix) (codes "sudo")
    then behind_start (cut_spaces (before_last prefix))
    else false

-- The line and the point with a space put in between the two sides.
abbrev pub spaced : Text → Text → Text × ℕ
spaced left right = (left ++ b' ' ∷ right, length left + 1)

abbrev pub put_out : Text → Text → Out → Text × ℕ
put_out prefix right (out, some off) = (prefix ++ (out ++ right), length prefix + off)
put_out prefix right (out, none) = (prefix ++ (out ++ b' ' ∷ right), length prefix + length out + 1)

module _ (type_path : Text → Bool) (tables : Tables) where
  -- The text in front of the token, and the token.
  unfoldable pub cyg_expand_token : Text → Text → Text → Text → Text × ℕ
  cyg_expand_token left right prefix token =
      if not (cyg_is_command_position prefix)
      then spaced left right
      else elim (cyg_lookups type_path tables token) [
        | none ↦ spaced left right
        | some out ↦ put_out prefix right out
      ]

  -- The sides of the point, and the last word of the left one.
  unfoldable pub cyg_expand_word : Text → Text → Text → Text × ℕ
  cyg_expand_word left right token =
      if is_empty token
      then spaced left right
      else cyg_expand_token left right (without_word left token) token

  unfoldable pub cyg_expand_sides : Text → Text → Text × ℕ
  cyg_expand_sides left right =
      if not (is_empty right) && not (starts_with_char b' ' right)
      then spaced left right
      else cyg_expand_word left right (last_word left)

  -- The point is a number of characters, and not behind the line.
  unfoldable pub cyg_expand : Text → ℕ → Text × ℕ
  cyg_expand line point = cyg_expand_sides (take point line) (drop point line)
