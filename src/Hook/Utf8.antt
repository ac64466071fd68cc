-- ===== src/Hook/Utf8.antt =====
-- The decoder of UTF-8, on the bytes of characters.
use runex.Prelude.{
  ℕ, suc, ◌+◌, ◌-◌, ◌*◌, ◌≤◌, ◌<◌, ◌%◌, ◌/◌, List, [], ◌∷◌, ◌++◌, some, true, false, ◌==◌, eq_of_==,
  ltb, ◌≡◌, refl, ap, ◌∙◌, arith, if◌then◌else◌, Bool-cases, ◌⊎◌, inl, inr, All,
}
use runex.Text.{Text, put, in_range}
use runex.Text.Bytes.{decode_utf8, start, within}
use runex.Shell.{each_char, encode_utf8}

-- A code point that is no surrogate.
abbrev pub IsScalar : ℕ → Type 0
IsScalar c = (c < 0x110000) × ((c < 0xD800) ⊎ (0xDFFF < c))

last_byte :
    (bits lo hi b : ℕ) (s : List ℕ)
    → lo ≤ b
    → b ≤ hi
    → decode_utf8 (within 0 bits lo hi) (b ∷ s) ≡ put (bits * 64 + (b - 0x80)) (decode_utf8 start s)
unfolding decode_utf8
last_byte bits lo hi b s low high = ground arith

next_byte :
    (n bits lo hi b : ℕ) (s : List ℕ)
    → lo ≤ b
    → b ≤ hi
    → decode_utf8 (within (suc n) bits lo hi) (b ∷ s)
      ≡ decode_utf8 (within n (bits * 64 + (b - 0x80)) 0x80 0xBF) s
unfolding decode_utf8
next_byte n bits lo hi b s low high = ground arith

-- The range of the byte behind the first one.
abbrev low_of : ℕ → ℕ
low_of b = if b == 0xE0 then 0xA0 else if b == 0xF0 then 0x90 else 0x80

abbrev high_of : ℕ → ℕ
high_of b = if b == 0xED then 0x9F else if b == 0xF4 then 0x8F else 0xBF

pub first_of_one :
    (b : ℕ) (s : List ℕ) → b < 0x80 → decode_utf8 start (b ∷ s) ≡ put b (decode_utf8 start s)
unfolding decode_utf8
first_of_one b s h = ground arith

first_of_two :
    (b : ℕ) (s : List ℕ)
    → 0xC2 ≤ b
    → b ≤ 0xDF
    → decode_utf8 start (b ∷ s) ≡ decode_utf8 (within 0 (b - 0xC0) 0x80 0xBF) s
unfolding decode_utf8
first_of_two b s low high = ground arith

first_of_three :
    (b : ℕ) (s : List ℕ)
    → 0xE0 ≤ b
    → b ≤ 0xEF
    → decode_utf8 start (b ∷ s) ≡ decode_utf8 (within 1 (b - 0xE0) (low_of b) (high_of b)) s
unfolding decode_utf8
first_of_three b s low high = elim (Bool-cases (b == 0xE0)) [
  | inl e ↦ rw (eq_of_== b 0xE0 e) refl
  | inr e ↦ elim (Bool-cases (b == 0xED)) [
    | inl e' ↦ rw (eq_of_== b 0xED e') refl
    | inr e' ↦
        let ascii : ltb b 0x80 ≡ false = ground arith in
        let two : in_range 0xC2 0xDF b ≡ false = ground arith in
        let three : in_range 0xE1 0xEF b ≡ true = ground arith in
        let other : (b == 0xF0) ≡ false = ground arith in
        let last : (b == 0xF4) ≡ false = ground arith in
        rw (ascii, two, e, e', three, other, last) refl
  ]
]

first_of_four :
    (b : ℕ) (s : List ℕ)
    → 0xF0 ≤ b
    → b ≤ 0xF4
    → decode_utf8 start (b ∷ s) ≡ decode_utf8 (within 2 (b - 0xF0) (low_of b) (high_of b)) s
unfolding decode_utf8
first_of_four b s low high = elim (Bool-cases (b == 0xF0)) [
  | inl e ↦ rw (eq_of_== b 0xF0 e) refl
  | inr e ↦ elim (Bool-cases (b == 0xF4)) [
    | inl e' ↦ rw (eq_of_== b 0xF4 e') refl
    | inr e' ↦
        let ascii : ltb b 0x80 ≡ false = ground arith in
        let two : in_range 0xC2 0xDF b ≡ false = ground arith in
        let first : (b == 0xE0) ≡ false = ground arith in
        let surrogate : (b == 0xED) ≡ false = ground arith in
        let three : in_range 0xE1 0xEF b ≡ false = ground arith in
        let four : in_range 0xF1 0xF3 b ≡ true = ground arith in
        rw (ascii, two, first, surrogate, three, e, four, e') refl
  ]
]

one_of_one :
    (c : ℕ) (s : List ℕ)
    → c < 0x80
    → decode_utf8 start (encode_utf8 c ++ s) ≡ put c (decode_utf8 start s)
one_of_one c s h =
    let one : encode_utf8 c ≡ c ∷ [] = ground arith in
    ap (λ e. decode_utf8 start (e ++ s)) one ∙ first_of_one c s h

one_of_two :
    (c : ℕ) (s : List ℕ)
    → 0x80 ≤ c
    → c < 0x800
    → decode_utf8 start (encode_utf8 c ++ s) ≡ put c (decode_utf8 start s)
one_of_two c s low high =
    let two : encode_utf8 c ≡ (0xC0 + c / 64) ∷ (0x80 + c % 64) ∷ [] = ground arith in
    let value : (0xC0 + c / 64 - 0xC0) * 64 + (0x80 + c % 64 - 0x80) ≡ c = omega arith in
    ap (λ e. decode_utf8 start (e ++ s)) two
    ∙ first_of_two (0xC0 + c / 64) ((0x80 + c % 64) ∷ s) (omega arith) (omega arith)
    ∙ last_byte (0xC0 + c / 64 - 0xC0) 0x80 0xBF (0x80 + c % 64) s (omega arith) (omega arith)
    ∙ ap (λ d. put d (decode_utf8 start s)) value

-- The bytes of a character of the third and of the fourth row.
one_of_three :
    (c : ℕ) (s : List ℕ)
    → 0x800 ≤ c
    → c < 0x10000
    → (c < 0xD800) ⊎ (0xDFFF < c)
    → decode_utf8 start (encode_utf8 c ++ s) ≡ put c (decode_utf8 start s)
one_of_three c s low high apart =
    let a = 0xE0 + c / 4096 in
    let b = 0x80 + c / 64 % 64 in
    let d = 0x80 + c % 64 in
    let three : encode_utf8 c ≡ (0xE0 + c / 4096) ∷ (0x80 + c / 64 % 64) ∷ (0x80 + c % 64) ∷ [] =
      ground arith in
    let value : ((0xE0 + c / 4096 - 0xE0) * 64 + (0x80 + c / 64 % 64 - 0x80)) * 64
          + (0x80 + c % 64 - 0x80)
        ≡ c =
      omega arith in
    ap (λ e. decode_utf8 start (e ++ s)) three
    ∙ first_of_three a (b ∷ d ∷ s) (omega arith) (omega arith)
    ∙ next_byte 0 (a - 0xE0) (low_of a) (high_of a) b (d ∷ s) (ground arith) (ground arith)
    ∙ last_byte ((a - 0xE0) * 64 + (b - 0x80)) 0x80 0xBF d s (omega arith) (omega arith)
    ∙ ap (λ d. put d (decode_utf8 start s)) value

one_of_four :
    (c : ℕ) (s : List ℕ)
    → 0x10000 ≤ c
    → c < 0x110000
    → decode_utf8 start (encode_utf8 c ++ s) ≡ put c (decode_utf8 start s)
one_of_four c s low high =
    let a = 0xF0 + c / 262144 in
    let b = 0x80 + c / 4096 % 64 in
    let d = 0x80 + c / 64 % 64 in
    let e = 0x80 + c % 64 in
    let four : encode_utf8 c
        ≡ (0xF0 + c / 262144)
          ∷ (0x80 + c / 4096 % 64)
          ∷ (0x80 + c / 64 % 64)
          ∷ (0x80 + c % 64)
          ∷ [] =
      ground arith in
    let value : (((0xF0 + c / 262144 - 0xF0) * 64 + (0x80 + c / 4096 % 64 - 0x80)) * 64
              + (0x80 + c / 64 % 64 - 0x80))
            * 64
          + (0x80 + c % 64 - 0x80)
        ≡ c =
      omega arith in
    ap (λ x. decode_utf8 start (x ++ s)) four
    ∙ first_of_four a (b ∷ d ∷ e ∷ s) (omega arith) (omega arith)
    ∙ next_byte 1 (a - 0xF0) (low_of a) (high_of a) b (d ∷ e ∷ s) (ground arith) (ground arith)
    ∙ next_byte 0 ((a - 0xF0) * 64 + (b - 0x80)) 0x80 0xBF d (e ∷ s) (omega arith) (omega arith)
    ∙ last_byte (((a - 0xF0) * 64 + (b - 0x80)) * 64 + (d - 0x80)) 0x80 0xBF e s (omega arith)
        (omega arith)
    ∙ ap (λ d. put d (decode_utf8 start s)) value

decode_one :
    (c : ℕ) (s : List ℕ)
    → IsScalar c
    → decode_utf8 start (encode_utf8 c ++ s) ≡ put c (decode_utf8 start s)
decode_one c s (top, apart) = elim (Bool-cases (ltb c 0x80)) [
  | inl h ↦ one_of_one c s (ground arith)
  | inr h ↦ elim (Bool-cases (ltb c 0x800)) [
    | inl h' ↦ one_of_two c s (ground arith) (ground arith)
    | inr h' ↦ elim (Bool-cases (ltb c 0x10000)) [
      | inl h'' ↦ one_of_three c s (ground arith) (ground arith) apart
      | inr h'' ↦ one_of_four c s (ground arith) top
    ]
  ]
]

-- Decoding the bytes of a text of scalar values gives the text.
pub decode_utf8-encode_utf8 :
    (s : Text) → All IsScalar s → decode_utf8 start (each_char encode_utf8 s) ≡ some s
unfolding decode_utf8
decode_utf8-encode_utf8 [] h = refl
decode_utf8-encode_utf8 (c ∷ s) (h, hs) =
    decode_one c (each_char encode_utf8 s) h ∙ ap (put c) (decode_utf8-encode_utf8 s hs)
