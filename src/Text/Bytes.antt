-- ===== src/Text/Bytes.antt =====
-- What the program uses of Rust's `String::from_utf8` and `u8::from_str_radix`.
use runex.Prelude.{
  ℕ, zero, suc, ◌+◌, ◌-◌, ◌*◌, List, [], ◌∷◌, Option, none, some, ◌==◌, ltb, if◌then◌else◌,
}
use runex.Text.{Text, put, in_range}

-- Where the decoder of `String::from_utf8` stands: before a character, or within one, with a number
-- of bytes to come behind the next, the bits so far, and the range of the next byte.
pub data Utf8 : Type 0 where
  start : Utf8
  within : ℕ → ℕ → ℕ → ℕ → Utf8

unfoldable pub decode_utf8 : Utf8 → List ℕ → Option Text
decode_utf8 start [] = some []
decode_utf8 (within n bits lo hi) [] = none
decode_utf8 start (b ∷ s) =
    let one = put b (decode_utf8 start s) in
    let two = decode_utf8 (within 0 (b - 0xC0) 0x80 0xBF) s in
    let low_three = decode_utf8 (within 1 0 0xA0 0xBF) s in
    let three = decode_utf8 (within 1 (b - 0xE0) 0x80 0xBF) s in
    let no_surrogate = decode_utf8 (within 1 0xD 0x80 0x9F) s in
    let low_four = decode_utf8 (within 2 0 0x90 0xBF) s in
    let four = decode_utf8 (within 2 (b - 0xF0) 0x80 0xBF) s in
    let high_four = decode_utf8 (within 2 4 0x80 0x8F) s in
    if ltb b 0x80
    then one
    else if in_range 0xC2 0xDF b
    then two
    else if b == 0xE0
    then low_three
    else if b == 0xED
    then no_surrogate
    else if in_range 0xE1 0xEF b
    then three
    else if b == 0xF0
    then low_four
    else if in_range 0xF1 0xF3 b
    then four
    else if b == 0xF4
    then high_four
    else none
decode_utf8 (within zero bits lo hi) (b ∷ s) =
    let rest = put (bits * 64 + (b - 0x80)) (decode_utf8 start s) in
    if in_range lo hi b then rest else none
decode_utf8 (within (suc n) bits lo hi) (b ∷ s) =
    let rest = decode_utf8 (within n (bits * 64 + (b - 0x80)) 0x80 0xBF) s in
    if in_range lo hi b then rest else none

-- The value of a hexadecimal digit, in either case.
unfoldable pub hex_digit_value : ℕ → Option ℕ
hex_digit_value c =
    if in_range b'0' b'9' c
    then some (c - b'0')
    else if in_range b'a' b'f' c
    then some (c - b'a' + 10)
    else if in_range b'A' b'F' c
    then some (c - b'A' + 10)
    else none

-- The value of digits behind the value `n`, within a byte.
unfoldable pub hex_digits_value : ℕ → Text → Option ℕ
hex_digits_value n [] = some n
hex_digits_value n (c ∷ s) = elim (hex_digit_value c) [
  | none ↦ none
  | some d ↦
      let rest = hex_digits_value (n * 16 + d) s in if ltb (n * 16 + d) 256 then rest else none
]

-- `u8::from_str_radix(text, 16)`, which takes a plus sign before a digit.
unfoldable pub byte_from_hex : Text → Option ℕ
byte_from_hex [] = none
byte_from_hex (c ∷ []) = hex_digits_value 0 (c ∷ [])
byte_from_hex (c ∷ d ∷ s) =
    if c == b'+' then hex_digits_value 0 (d ∷ s) else hex_digits_value 0 (c ∷ d ∷ s)
