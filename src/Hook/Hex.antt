-- ===== src/Hook/Hex.antt =====
-- runex/src/app/hook.rs, `decode_hex_line`: the buffer as hexadecimal digits of its UTF-8 bytes.
use runex.Prelude.{
  ℕ, ◌+◌, ◌*◌, ◌<◌, ◌%◌, ◌/◌, List, [], ◌∷◌, Option, none, some, true, false, ◌==◌, ltb, ◌≡◌, refl,
  ap, ◌∙◌, arith, if◌then◌else◌, ◌⊎◌, inl, inr, All, All-append,
}
use runex.Text.{Text, byte_len, put, len_utf8}
use runex.Text.Bytes.{decode_utf8, start, hex_digit_value, hex_digits_value, byte_from_hex}
use runex.Shell.{each_char, encode_utf8, two_hex_digits, hex_digit}
use runex.Hook.Utf8.{IsScalar, first_of_one, decode_utf8-encode_utf8}

pub data HexError : Type 0 where
  odd_length : ℕ → HexError
  non_hex_bytes not_utf8 : HexError
  non_hex_digit : Text → HexError

-- One chunk of at most two bytes.
unfoldable pub decode_chunk : List ℕ → ℕ ⊎ HexError
decode_chunk chunk = elim (decode_utf8 start chunk) [
  | none ↦ inr non_hex_bytes
  | some text ↦ elim (byte_from_hex text) [ none ↦ inr (non_hex_digit text) | some byte ↦ inl byte ]
]

-- A byte before the bytes of the later chunks; the first error stops.
abbrev pub then_bytes : ℕ ⊎ HexError → List ℕ ⊎ HexError → List ℕ ⊎ HexError
then_bytes (inr error) later = inr error
then_bytes (inl byte) (inr error) = inr error
then_bytes (inl byte) (inl bytes) = inl (byte ∷ bytes)

unfoldable pub decode_chunks : List ℕ → List ℕ ⊎ HexError
decode_chunks [] = inl []
decode_chunks (a ∷ []) = then_bytes (decode_chunk (a ∷ [])) (inl [])
decode_chunks (a ∷ b ∷ s) = then_bytes (decode_chunk (a ∷ b ∷ [])) (decode_chunks s)

unfoldable pub decoded_text : List ℕ ⊎ HexError → Text ⊎ HexError
decoded_text (inr error) = inr error
decoded_text (inl bytes) = elim (decode_utf8 start bytes) [
  | none ↦ inr not_utf8
  | some text ↦ inl text
]

unfoldable pub decode_hex_line : Text → Text ⊎ HexError
decode_hex_line hex =
    if byte_len hex % 2 == 0
    then decoded_text (decode_chunks (each_char encode_utf8 hex))
    else inr (odd_length (byte_len hex))

-- `cmd::hook::resolve_line`: the line, or else the decoded digits.
unfoldable pub resolve_line : Option Text → Option Text → Text ⊎ HexError
resolve_line (some line) line_hex = inl line
resolve_line none none = decode_hex_line []
resolve_line none (some hex) = decode_hex_line hex

-- The bytes of a text as lower-case digits.
abbrev pub hex_line : Text → Text
hex_line s = each_char two_hex_digits (each_char encode_utf8 s)

digit_value :
    (n : ℕ)
    → n < 16
    → (hex_digit_value (hex_digit n) ≡ some n) × (hex_digit n < 0x80) × (b'+' < hex_digit n)
unfolding hex_digit_value hex_digit
digit_value n h = ground arith

digits_step :
    (n c d : ℕ) (s : Text)
    → hex_digit_value c ≡ some d
    → n * 16 + d < 256
    → hex_digits_value n (c ∷ s) ≡ hex_digits_value (n * 16 + d) s
unfolding hex_digits_value
digits_step n c d s value small =
    let fits : ltb (n * 16 + d) 256 ≡ true = ground arith in
    rw (value, hex_digits_value) (rw fits refl)

pair_value : (n : ℕ) → n < 256 → byte_from_hex (two_hex_digits n) ≡ some n
unfolding byte_from_hex hex_digits_value
pair_value n h =
    let (first, _, sign) = digit_value (n / 16) (omega arith) in
    let (second, _, _) = digit_value (n % 16) (omega arith) in
    let no_sign : (hex_digit (n / 16) == b'+') ≡ false = ground arith in
    let whole : (0 * 16 + n / 16) * 16 + n % 16 ≡ n = omega arith in
    rw no_sign (
      digits_step 0 (hex_digit (n / 16)) (n / 16) (hex_digit (n % 16) ∷ []) first (omega arith)
      ∙ digits_step (0 * 16 + n / 16) (hex_digit (n % 16)) (n % 16) [] second (omega arith)
      ∙ ap some whole)

chunk_value : (n : ℕ) → n < 256 → decode_chunk (two_hex_digits n) ≡ inl n
unfolding decode_chunk decode_utf8
chunk_value n h =
    let (_, high, _) = digit_value (n / 16) (omega arith) in
    let (_, low, _) = digit_value (n % 16) (omega arith) in
    let text : decode_utf8 start (two_hex_digits n) ≡ some (two_hex_digits n) =
      first_of_one (hex_digit (n / 16)) (hex_digit (n % 16) ∷ []) high
      ∙ ap (put (hex_digit (n / 16))) (first_of_one (hex_digit (n % 16)) [] low) in
    rw (text, pair_value n h, decode_chunk) refl

abbrev AreBytes : List ℕ → Type 0
AreBytes = All (λ b. b < 256)

chunks_value :
    (bytes : List ℕ) → AreBytes bytes → decode_chunks (each_char two_hex_digits bytes) ≡ inl bytes
unfolding decode_chunks
chunks_value [] h = refl
chunks_value (b ∷ bytes) (small, h) = rw (chunk_value b small, chunks_value bytes h) refl

encode_utf8-AreBytes : (c : ℕ) → IsScalar c → AreBytes (encode_utf8 c)
encode_utf8-AreBytes c (top, apart) = ground arith

text-AreBytes : (s : Text) → All IsScalar s → AreBytes (each_char encode_utf8 s)
text-AreBytes [] h = tt
text-AreBytes (c ∷ s) (h, hs) =
    All-append _ (encode_utf8 c) (each_char encode_utf8 s) (encode_utf8-AreBytes c h)
      (text-AreBytes s hs)

-- The digits are ASCII, so they are their own bytes, two for each byte.
ascii_bytes :
    (bytes : List ℕ)
    → AreBytes bytes
    → (each_char encode_utf8 (each_char two_hex_digits bytes) ≡ each_char two_hex_digits bytes)
      × (byte_len (each_char two_hex_digits bytes) % 2 ≡ 0)
ascii_bytes [] h = (refl, refl)
ascii_bytes (b ∷ bytes) (small, h) =
    let (same, even) = ascii_bytes bytes h in
    let (_, high, _) = digit_value (b / 16) (omega arith) in
    let (_, low, _) = digit_value (b % 16) (omega arith) in
    let first : encode_utf8 (hex_digit (b / 16)) ≡ hex_digit (b / 16) ∷ [] = ground arith in
    let second : encode_utf8 (hex_digit (b % 16)) ≡ hex_digit (b % 16) ∷ [] = ground arith in
    let one : len_utf8 (hex_digit (b / 16)) ≡ 1 = ground arith in
    let two : len_utf8 (hex_digit (b % 16)) ≡ 1 = ground arith in
    (rw (first, second, same) refl, rw (one, two) (omega (arith, even)))

-- A buffer that is sent as the lower-case digits of its UTF-8 bytes is received unchanged.
pub decode_hex_line-hex_line : (s : Text) → All IsScalar s → decode_hex_line (hex_line s) ≡ inl s
unfolding decode_hex_line decoded_text
decode_hex_line-hex_line s h =
    let bytes = text-AreBytes s h in
    let (same, even) = ascii_bytes (each_char encode_utf8 s) bytes in
    rw
      (
        even,
        same,
        chunks_value (each_char encode_utf8 s) bytes,
        decode_utf8-encode_utf8 s h,
        decoded_text,
      )
      refl

digit_is_ascii : (c d : ℕ) → hex_digit_value c ≡ some d → (c < 0x80) × (d < 16)
unfolding hex_digit_value
digit_is_ascii c d h = ground arith

plus_value : (c d : ℕ) → hex_digit_value c ≡ some d → byte_from_hex (b'+' ∷ c ∷ []) ≡ some d
unfolding byte_from_hex hex_digits_value
plus_value c d value =
    let (_, small) = digit_is_ascii c d value in
    let same : 0 * 16 + d ≡ d = omega arith in
    digits_step 0 c d [] value (omega arith) ∙ ap some same

plus_text : (c : ℕ) → c < 0x80 → decode_utf8 start (b'+' ∷ c ∷ []) ≡ some (b'+' ∷ c ∷ [])
unfolding decode_utf8
plus_text c ascii = ap (put b'+') (first_of_one c [] ascii)

alone_text : (d : ℕ) → d < 0x80 → decode_utf8 start (d ∷ []) ≡ some (d ∷ [])
unfolding decode_utf8
alone_text d ascii = first_of_one d [] ascii

plus_chunk : (c d : ℕ) → hex_digit_value c ≡ some d → decode_chunk (b'+' ∷ c ∷ []) ≡ inl d
unfolding decode_chunk
plus_chunk c d value =
    rw (plus_text c (digit_is_ascii c d value).0, decode_chunk) (rw (plus_value c d value) refl)

-- A plus sign before a digit, which is no pair of digits, is received as the character with the
-- digit's value.
pub decode_hex_line-plus :
    (c d : ℕ) → hex_digit_value c ≡ some d → decode_hex_line (b'+' ∷ c ∷ []) ≡ inl (d ∷ [])
unfolding decode_hex_line decoded_text decode_chunks
decode_hex_line-plus c d value =
    let (ascii, small) = digit_is_ascii c d value in
    let one : len_utf8 c ≡ 1 = ground arith in
    let alone : encode_utf8 c ≡ c ∷ [] = ground arith in
    rw (one, alone, plus_chunk c d value) (rw (alone_text d (omega arith), decoded_text) refl)
