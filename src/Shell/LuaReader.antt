-- ===== src/Shell/LuaReader.antt =====
-- What Lua reads a literal as, and the decimal escapes of a byte.
use runex.Prelude.{
  ℕ, ◌+◌, ◌-◌, ◌*◌, ◌/◌, ◌%◌, ◌<◌, List, [], ◌∷◌, ◌++◌, Option, none, some, Bool, true, ◌≡◌, ◌||◌,
  ◌&&◌, ◌==◌, arith, All, if◌then◌else◌, ltb, ap, ◌∙◌,
}
use runex.Text.{Text, in_range}
use runex.Shell.Reading.{put_all_nil, put_all_append, put_all}
use runex.Shell.{encode_utf8, three_digits, decimal_escapes}

-- Where Lua stands in a literal: before it, inside, behind a backslash, behind one and two digits
-- of a decimal escape, and behind it.
pub data Mode : Type 0 where
  start quoted escaped closed : Mode
  one_digit two_digits : ℕ → Mode

abbrev pub is_digit : ℕ → Bool
is_digit c = in_range b'0' b'9' c

-- The character that an escape with one letter stands for.
abbrev pub named_escape : ℕ → Option ℕ
named_escape c =
    if c == b'n'
    then some b'\n'
    else if c == b'r'
    then some b'\r'
    else if c == b't'
    then some b'\t'
    else if c == b'"'
    then some b'"'
    else if c == b'\\'
    then some b'\\'
    else none

-- The bytes of a literal whose decimal escapes all have three digits.
unfoldable pub lua_read : Mode → Text → Option (List ℕ)
lua_read closed [] = some []
lua_read _ [] = none
lua_read start (c ∷ s) = let rest = lua_read quoted s in if c == b'"' then rest else none
lua_read quoted (c ∷ s) =
    let close_quote = lua_read closed s in
    let escape = lua_read escaped s in
    let inner = put_all (encode_utf8 c) (lua_read quoted s) in
    if c == b'"'
    then close_quote
    else if c == b'\\'
    then escape
    else if c == b'\n' || c == b'\r'
    then none
    else inner
lua_read escaped (c ∷ s) =
    let digits = lua_read (one_digit (c - b'0')) s in
    let letter : Option (List ℕ) = elim (named_escape c) [
      | none ↦ none
      | some d ↦ put_all (d ∷ []) (lua_read quoted s)
    ] in
    if is_digit c then digits else letter
lua_read (one_digit n) (c ∷ s) =
    let digits = lua_read (two_digits (n * 10 + (c - b'0'))) s in
    if is_digit c then digits else none
lua_read (two_digits n) (c ∷ s) =
    let value = n * 10 + (c - b'0') in
    let rest = put_all (value ∷ []) (lua_read quoted s) in
    if is_digit c && ltb value 256 then rest else none
lua_read closed (c ∷ s) = none

is_digit_of_lt : (d : ℕ) → d < 10 → is_digit (b'0' + d) ≡ true
is_digit_of_lt d h = ground arith

add-sub_zero : (d : ℕ) → b'0' + d - b'0' ≡ d
add-sub_zero d = omega arith

first_digit :
    (d : ℕ) (rest : Text)
    → d < 10
    → lua_read escaped ((b'0' + d) ∷ rest) ≡ lua_read (one_digit d) rest
unfolding lua_read
first_digit d rest h = rw (is_digit_of_lt d h, add-sub_zero d)

second_digit :
    (n d : ℕ) (rest : Text)
    → d < 10
    → lua_read (one_digit n) ((b'0' + d) ∷ rest) ≡ lua_read (two_digits (n * 10 + d)) rest
unfolding lua_read
second_digit n d rest h = rw (is_digit_of_lt d h, add-sub_zero d)

ltb_of_lt : (n : ℕ) → n < 256 → ltb n 256 ≡ true
ltb_of_lt n h = ground arith

third_digit :
    (n d : ℕ) (rest : Text)
    → d < 10
    → n * 10 + d < 256
    → lua_read (two_digits n) ((b'0' + d) ∷ rest)
      ≡ put_all ((n * 10 + d) ∷ []) (lua_read quoted rest)
unfolding lua_read
third_digit n d rest h small =
    rw (is_digit_of_lt d h, add-sub_zero d) (rw (ltb_of_lt (n * 10 + d) small))

byte_step :
    (n : ℕ) (rest : Text)
    → n < 256
    → lua_read escaped (three_digits n ++ rest) ≡ put_all (n ∷ []) (lua_read quoted rest)
byte_step n rest h =
    let whole : (n / 100 * 10 + n / 10 % 10) * 10 + n % 10 ≡ n = omega arith in
    rw (
      first_digit (n / 100) _ (omega arith),
      second_digit (n / 100) (n / 10 % 10) _ (omega arith),
      third_digit (n / 100 * 10 + n / 10 % 10) (n % 10) rest (omega arith) (omega arith),
      whole,
    )

pub read-decimal_escapes :
    (bytes : List ℕ) (rest : Text)
    → All (λ n. n < 256) bytes
    → lua_read quoted (decimal_escapes bytes ++ rest) ≡ put_all bytes (lua_read quoted rest)
unfolding lua_read
read-decimal_escapes [] rest h = put_all_nil _
read-decimal_escapes (n ∷ bytes) rest (h, hs) =
    byte_step n (decimal_escapes bytes ++ rest) h
    ∙ ap (put_all (n ∷ [])) (read-decimal_escapes bytes rest hs)
    ∙ put_all_append (n ∷ []) bytes _
