-- ===== src/Expand/Number.antt =====
-- Keys with `{number}`: which tokens they match, and with what count.
use runex.Prelude.{
  ℕ, ◌+◌, ◌-◌, ◌*◌, ◌^◌, ◌≤◌, ◌<◌, [], ◌∷◌, ◌++◌, none, some, true, false, ◌≡◌, ◌≢◌, ◌↔◌, refl, ap,
  ◌∙◌, arith, ◌==◌, ◌||◌, if◌then◌else◌, ltb, All, all, ◌>>=◌, >>=-eq_some, Bool-cases, inl, inr,
}
use runex.Text.{Text, codes, contains_char, strip_prefix, strip_suffix}
use runex.Text.Search.{
  Lacks, strip_prefix_sound, strip_prefix-append, strip_suffix_sound, strip_suffix-append,
  split_once_text-append,
}
use runex.Expand.Keys.{
  number_placeholder, max_numeric_repeat, Bindings, empty, is_ascii_digit, parse_digits,
  parse_repeat, split_once_number_placeholder, match_abbr_key,
}

abbrev pub IsDigits : Text → Type 0
IsDigits = All (λ c. (b'0' ≤ c) × (c ≤ b'9'))

-- The number that digits spell behind `n`, with no bound.
abbrev pub value : ℕ → Text → ℕ
value n [] = n
value n (c ∷ s) = value (n * 10 + (c - b'0')) s

pub le-value : (n : ℕ) (s : Text) → n ≤ value n s
le-value n [] = omega arith
le-value n (c ∷ s) = omega (arith, le-value (n * 10 + (c - b'0')) s)

parse_digits_sound : (n : ℕ) (s : Text) {r : ℕ} → parse_digits n s ≡ some r → r ≡ value n s
unfolding parse_digits
parse_digits_sound n [] h = ground arith
parse_digits_sound n (c ∷ s) {r} h =
    ground (arith, parse_digits_sound (n * 10 + (c - b'0')) s {r = r})

parse_digits_complete :
    (n : ℕ) (s : Text) → value n s < 2 ^ 32 → parse_digits n s ≡ some (value n s)
unfolding parse_digits
parse_digits_complete n [] h = refl
parse_digits_complete n (c ∷ s) h =
    ground
      (arith, le-value (n * 10 + (c - b'0')) s, parse_digits_complete (n * 10 + (c - b'0')) s h)

pub all-IsDigits_iff : (s : Text) → (all is_ascii_digit s ≡ true) ↔ IsDigits s
all-IsDigits_iff [] = ground arith
all-IsDigits_iff (c ∷ s) = ground (arith, all-IsDigits_iff s)

-- A count as it may stand in a token.
pub record IsCount (digits : Text) (n : ℕ) : Type 0 where
  pub some_digit : digits ≢ []
  pub digits_only : IsDigits digits
  pub spelled : n ≡ value 0 digits
  pub positive : 0 < n
  pub bounded : n ≤ max_numeric_repeat

abbrev pub counted : ℕ → Bindings
counted n = record empty { number = some n }

pub parse_repeat_sound :
    (digits : Text) {b : Bindings}
    → parse_repeat digits ≡ some b
    → (n : ℕ) × (b ≡ counted n) × IsCount digits n
unfolding parse_repeat
parse_repeat_sound [] h = cc
parse_repeat_sound (c ∷ s) {b} h = elim (Bool-cases (all is_ascii_digit (c ∷ s))) [
  | inr bad ↦ absurd (ground arith)
  | inl good ↦
      let (n, got, rest) =
        >>=-eq_some (parse_digits 0 (c ∷ s))
          (λ n. if n == 0 || ltb max_numeric_repeat n then none else some (counted n))
          (rw (good, parse_repeat) at h) in
      (
        n,
        ground arith,
        record {
          some_digit = cc;
          digits_only = (all-IsDigits_iff (c ∷ s)).0 good;
          spelled = parse_digits_sound 0 (c ∷ s) got;
          positive = ground arith;
          bounded = ground arith;
        },
      )
]

pub parse_repeat_complete :
    (digits : Text) (n : ℕ) → IsCount digits n → parse_repeat digits ≡ some (counted n)
unfolding parse_repeat
parse_repeat_complete [] n h = absurd (h.some_digit refl)
parse_repeat_complete (c ∷ s) n h =
    let good = (all-IsDigits_iff (c ∷ s)).1 h.digits_only in
    let small : value 0 (c ∷ s) < 2 ^ 32 = omega arith in
    rw (good, parse_digits_complete 0 (c ∷ s) small, ← h.spelled) (ground arith)

-- A key whose only brace opens `{number}`.
abbrev pub number_key : Text → Text → Text
number_key prefix suffix = prefix ++ (number_placeholder ++ suffix)

pub number_key-contains_char : (prefix s : Text) → contains_char b'{' (prefix ++ b'{' ∷ s) ≡ true
number_key-contains_char [] s = refl
number_key-contains_char (c ∷ prefix) s = ground (arith, number_key-contains_char prefix s)

pub Lacks-contains_char : (c : ℕ) (s : Text) → Lacks c s → contains_char c s ≡ false
Lacks-contains_char c [] h = refl
Lacks-contains_char c (d ∷ s) (ne, h) = ground (arith, Lacks-contains_char c s h)

split_number_key :
    (prefix suffix : Text)
    → Lacks b'{' prefix
    → Lacks b'{' suffix
    → split_once_number_placeholder (number_key prefix suffix) ≡ some (prefix, suffix)
unfolding split_once_number_placeholder
split_number_key prefix suffix hp hs =
    rw
      (
        split_once_text-append b'{' (codes "number}") prefix suffix hp,
        split_once_number_placeholder,
        Lacks-contains_char b'{' prefix hp,
        Lacks-contains_char b'{' suffix hs,
      )
      refl

pub match_number_key :
    (prefix suffix token : Text)
    → Lacks b'{' prefix
    → Lacks b'{' suffix
    → match_abbr_key (number_key prefix suffix) token
      ≡ (strip_prefix prefix token >>= λ behind. strip_suffix suffix behind >>= parse_repeat)
unfolding match_abbr_key
match_number_key prefix suffix token hp hs = rw (
  number_key-contains_char prefix (codes "number}" ++ suffix),
  split_number_key prefix suffix hp hs,
)

-- A key `prefix{number}suffix` matches exactly the tokens that have digits between the prefix and
-- the suffix which spell a count from 1 to 128, and it binds that count.
pub match_abbr_key-number_iff :
    (prefix suffix token : Text) (b : Bindings)
    → Lacks b'{' prefix
    → Lacks b'{' suffix
    → (match_abbr_key (number_key prefix suffix) token ≡ some b)
      ↔ (digits : Text) × (n : ℕ) × (token ≡ prefix ++ (digits ++ suffix))
        × (b ≡ counted n)
        × IsCount digits n
match_abbr_key-number_iff prefix suffix token b hp hs = (forward, backward)
  where
    forward :
        match_abbr_key (number_key prefix suffix) token ≡ some b
        → (digits : Text) × (n : ℕ) × (token ≡ prefix ++ (digits ++ suffix))
          × (b ≡ counted n)
          × IsCount digits n
    forward e =
        let (behind, e1, e2) =
          >>=-eq_some (strip_prefix prefix token)
            (λ behind. strip_suffix suffix behind >>= parse_repeat)
            (rw (match_number_key prefix suffix token hp hs) at e) in
        let (digits, e3, e4) = >>=-eq_some (strip_suffix suffix behind) parse_repeat e2 in
        let (n, same, count) = parse_repeat_sound digits e4 in
        (
          digits,
          n,
          strip_prefix_sound prefix token e1
              ∙ ap (λ t. prefix ++ t) (strip_suffix_sound suffix behind e3),
          same,
          count,
        )

    backward :
        ((digits : Text) × (n : ℕ) × (token ≡ prefix ++ (digits ++ suffix))
          × (b ≡ counted n)
          × IsCount digits n)
        → match_abbr_key (number_key prefix suffix) token ≡ some b
    backward (digits, n, whole, same, count) =
        match_number_key prefix suffix token hp hs
        ∙ rw
            (
              whole,
              same,
              strip_prefix-append prefix (digits ++ suffix),
              strip_suffix-append digits suffix,
            )
            (parse_repeat_complete digits n count)
