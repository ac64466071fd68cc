-- ===== src/Tests/Transport.antt =====
-- Hexadecimal lines, on concrete texts.
use runex.Prelude.{◌≡◌, refl, inl, inr, arith, some}
use runex.Text.{codes}
use runex.Text.Bytes.{hex_digit_value, decode_utf8, byte_from_hex, hex_digits_value}
use runex.Hook.Hex.{
  odd_length, not_utf8, decode_hex_line, decoded_text, decode_chunks, decode_chunk, hex_line,
  decode_hex_line-hex_line,
}

odd : decode_hex_line (codes "676") ≡ inr (odd_length 3)
unfolding decode_hex_line
odd = refl

surrogate : decode_hex_line (codes "EDA080") ≡ inr not_utf8
unfolding decode_hex_line decoded_text decode_chunks decode_chunk decode_utf8 byte_from_hex
    hex_digits_value hex_digit_value
surrogate = refl

decode_hex_line-hex_line_example :
    decode_hex_line (hex_line (codes "é🎯 \"x\"")) ≡ inl (codes "é🎯 \"x\"")
decode_hex_line-hex_line_example = decode_hex_line-hex_line (codes "é🎯 \"x\"") (ground arith)

newline_digit : hex_digit_value b'a' ≡ some 10
unfolding hex_digit_value
newline_digit = refl
