-- ===== src/Text.antt =====
-- What the program uses of Rust's `str`: a text is the list of its characters' code points, and a
-- byte offset counts the bytes of their UTF-8 encoding.
pub mod Slices
pub mod Search
pub mod Lines
pub mod Bytes
use Prim.Native.Nat.{◌/◌, ◌%◌}
use Prim.Native.Char.{code}
use Prim.Native.String.{String}
use runex.Prelude.{
  ℕ, zero, suc, ◌+◌, ◌-◌, List, [], ◌∷◌, ◌++◌, Option, none, some, Bool, true, false, ◌&&◌, ◌||◌,
  ◌==◌, ltb, leb, if◌then◌else◌, length, any, is_empty,
}

abbrev pub Text : Type 0
Text = List ℕ

-- The characters of a literal.
abbrev pub codes : String → Text
codes String.[] = []
codes (String.◌∷◌ c s) = code c ∷ codes s

-- `char::len_utf8` and `char::len_utf16`.
abbrev pub len_utf8 : ℕ → ℕ
len_utf8 c = if ltb c 0x80 then 1 else if ltb c 0x800 then 2 else if ltb c 0x10000 then 3 else 4

abbrev pub len_utf16 : ℕ → ℕ
len_utf16 c = if ltb c 0x10000 then 1 else 2

-- `str::len`: the number of bytes.
abbrev pub byte_len : Text → ℕ
byte_len [] = 0
byte_len (c ∷ s) = len_utf8 c + byte_len s

-- `s == t`.
unfoldable pub text_eq : Text → Text → Bool
text_eq [] [] = true
text_eq (c ∷ s) (d ∷ t) = c == d && text_eq s t
text_eq _ _ = false

-- A character before the first part of a split, and before a found text.
abbrev pub put_before : ℕ → Option (Text × Text) → Option (Text × Text)
put_before c none = none
put_before c (some (a, b)) = some (c ∷ a, b)

abbrev pub put : ℕ → Option Text → Option Text
put c none = none
put c (some a) = some (c ∷ a)

-- `(&s[..n], &s[n..])`, or `none` where slicing panics: past the end, or inside a character.
unfoldable pub split_at_byte : Text → ℕ → Option (Text × Text)
split_at_byte [] n = if n == 0 then some ([], []) else none
split_at_byte (c ∷ s) n =
    let rest = put_before c (split_at_byte s (n - len_utf8 c)) in
    if n == 0 then some ([], c ∷ s) else if leb (len_utf8 c) n then rest else none

-- `contains(c)`.
abbrev pub contains_char : ℕ → Text → Bool
contains_char c = any (λ d. d == c)

-- `split_once(c)`: what stands before and behind the first `c`.
unfoldable pub split_once_char : ℕ → Text → Option (Text × Text)
split_once_char c [] = none
split_once_char c (d ∷ s) =
    let rest = put_before d (split_once_char c s) in if d == c then some ([], s) else rest

-- `strip_prefix`.
unfoldable pub strip_prefix : Text → Text → Option Text
strip_prefix [] s = some s
strip_prefix (p ∷ ps) [] = none
strip_prefix (p ∷ ps) (c ∷ s) = if p == c then strip_prefix ps s else none

-- `strip_suffix`.
unfoldable pub strip_suffix : Text → Text → Option Text
strip_suffix suffix [] = if is_empty suffix then some [] else none
strip_suffix suffix (c ∷ s) =
    let rest = put c (strip_suffix suffix s) in if text_eq suffix (c ∷ s) then some [] else rest

-- `starts_with(c)` for a character, `ends_with` for a text.
abbrev pub starts_with_char : ℕ → Text → Bool
starts_with_char c [] = false
starts_with_char c (d ∷ s) = d == c

unfoldable pub ends_with : Text → Text → Bool
ends_with suffix [] = is_empty suffix
ends_with suffix (c ∷ s) = text_eq suffix (c ∷ s) || ends_with suffix s

-- `find(needle)`, with the slices on both sides of the first occurrence: the offset that `find`
-- returns is the byte length of the first slice.
unfoldable pub split_once_text : Text → Text → Option (Text × Text)
split_once_text needle [] = if is_empty needle then some ([], []) else none
split_once_text needle (c ∷ s) =
    let rest = put_before c (split_once_text needle s) in
    elim (strip_prefix needle (c ∷ s)) [ some after ↦ some ([], after) | none ↦ rest ]

-- The last `c` of `d ∷ s`, from the last `c` of `s`.
abbrev pub behind_or_here : ℕ → ℕ → Option ℕ → Option ℕ
behind_or_here c d (some i) = some (len_utf8 d + i)
behind_or_here c d none = if d == c then some 0 else none

-- `rfind(c)`: the byte offset of the last `c`.
unfoldable pub rfind_char : ℕ → Text → Option ℕ
rfind_char c [] = none
rfind_char c (d ∷ s) = behind_or_here c d (rfind_char c s)

-- `trim_end_matches(c)`.
unfoldable pub trim_end_char : ℕ → Text → Text
trim_end_char c [] = []
trim_end_char c (d ∷ s) = elim (trim_end_char c s) [
  | [] ↦ if d == c then [] else d ∷ []
  | e ∷ t ↦ d ∷ e ∷ t
]

-- The loop of `replace`: `skip` characters of a found needle are still to be passed over.
unfoldable pub replace_from : Text → Text → ℕ → Text → Text
replace_from needle by skip [] = []
replace_from needle by (suc skip) (c ∷ s) = replace_from needle by skip s
replace_from needle by zero (c ∷ s) =
    let found = by ++ replace_from needle by (length needle - 1) s in
    let passed = c ∷ replace_from needle by zero s in
    elim (strip_prefix needle (c ∷ s)) [ some _ ↦ found | none ↦ passed ]

-- `replace(needle, by)` for a needle that is not empty.
unfoldable pub replace : Text → Text → Text → Text
unfolding replace_from
replace needle by s = replace_from needle by 0 s

-- `repeat(n)`.
unfoldable pub repeat : Text → ℕ → Text
repeat s zero = []
repeat s (suc n) = s ++ repeat s n

-- `char::is_whitespace`: the characters with the Unicode property White_Space.
abbrev pub in_range : ℕ → ℕ → ℕ → Bool
in_range lo hi c = leb lo c && leb c hi

unfoldable pub is_whitespace : ℕ → Bool
is_whitespace c =
    in_range 0x9 0xD c
    || c == 0x20
    || c == 0x85
    || c == 0xA0
    || c == 0x1680
    || in_range 0x2000 0x200A c
    || in_range 0x2028 0x2029 c
    || c == 0x202F
    || c == 0x205F
    || c == 0x3000

-- `trim_start`, `trim_end` and `trim`.
unfoldable pub trim_start : Text → Text
trim_start [] = []
trim_start (c ∷ s) = let rest = trim_start s in if is_whitespace c then rest else c ∷ s

unfoldable pub trim_end : Text → Text
trim_end [] = []
trim_end (c ∷ s) = elim (trim_end s) [
  | [] ↦ if is_whitespace c then [] else c ∷ []
  | d ∷ t ↦ c ∷ d ∷ t
]

unfoldable pub trim : Text → Text
unfolding trim_start trim_end
trim s = trim_end (trim_start s)

-- `char::is_ascii_control`.
abbrev pub is_ascii_control : ℕ → Bool
is_ascii_control c = ltb c 0x20 || c == 0x7F

-- `char::to_ascii_lowercase`.
abbrev pub to_ascii_lowercase : ℕ → ℕ
to_ascii_lowercase c = if in_range b'A' b'Z' c then c + 32 else c

-- The decimal digits of a number, for which that many rounds and one are enough.
abbrev pub digits : ℕ → ℕ → Text
digits zero n = []
digits (suc fuel) n =
    let before = digits fuel (n / 10) in
    if ltb n 10 then (b'0' + n) ∷ [] else before ++ ((b'0' + n % 10) ∷ [])

abbrev pub decimal : ℕ → Text
decimal n = digits (suc n) n

-- `matches(c).count()` for a character.
abbrev pub count_char : ℕ → Text → ℕ
count_char c [] = 0
count_char c (d ∷ s) = (if d == c then 1 else 0) + count_char c s

-- The loop of `matches(needle).count()`: `skip` characters of a found needle are still to be passed.
unfoldable pub count_from : Text → ℕ → Text → ℕ
count_from needle skip [] = 0
count_from needle (suc skip) (c ∷ s) = count_from needle skip s
count_from needle zero (c ∷ s) =
    let found = suc (count_from needle (length needle - 1) s) in
    let passed = count_from needle zero s in
    elim (strip_prefix needle (c ∷ s)) [ some _ ↦ found | none ↦ passed ]

-- `matches(needle).count()` for a needle that is not empty.
unfoldable pub count_text : Text → Text → ℕ
unfolding count_from
count_text needle s = count_from needle 0 s
