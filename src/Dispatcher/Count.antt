-- ===== src/Dispatcher/Count.antt =====
-- The count that the script reads between a prefix and a suffix, against `parse_repeat` of
-- runex/src/domain/expand.rs.
use runex.Prelude.{
  ℕ, ◌+◌, ◌-◌, ◌*◌, ◌≤◌, ◌<◌, [], ◌∷◌, Option, none, some, true, false, ◌≡◌, ◌≢◌, refl, sym, ap,
  ◌∙◌, arith, ◌==◌, all, length, is_empty, Bool-cases, Option-cases, inl, inr,
}
use runex.Text.{Text}
use runex.Expand.Keys.{Bindings, is_ascii_digit, parse_repeat}
use runex.Expand.Number.{
  IsDigits, value, le-value, all-IsDigits_iff, IsCount, counted, parse_repeat_sound,
  parse_repeat_complete,
}
use runex.Dispatcher.Script.{without_zeros, decimal_value, cyg_count}

decimal_value-value : (n : ℕ) (s : Text) → decimal_value n s ≡ value n s
decimal_value-value n [] = refl
decimal_value-value n (c ∷ s) = decimal_value-value (n * 10 + (c - b'0')) s

value-without_zeros : (s : Text) → value 0 (without_zeros s) ≡ value 0 s
value-without_zeros [] = refl
value-without_zeros (c ∷ s) = elim (Bool-cases (c == b'0')) [
  | inr other ↦ rw (other, without_zeros) refl
  | inl zero_digit ↦
      let same : 0 * 10 + (c - b'0') ≡ 0 = ground arith in
      rw (zero_digit, without_zeros) (rw same (value-without_zeros s))
]

-- What is left begins with another digit than zero.
abbrev StartsHigh : Text → Type 0
StartsHigh [] = Unit
StartsHigh (c ∷ s) = b'1' ≤ c

without_zeros-StartsHigh : (s : Text) → IsDigits s → StartsHigh (without_zeros s)
without_zeros-StartsHigh [] h = tt
without_zeros-StartsHigh (c ∷ s) (d, h) = elim (Bool-cases (c == b'0')) [
  | inl zero_digit ↦ rw (zero_digit, without_zeros) (without_zeros-StartsHigh s h)
  | inr other ↦ rw (other, without_zeros) (ground arith)
]

-- Four digits behind the zeros are too many, and none are no count.
high-small : (t : Text) → StartsHigh t → value 0 t ≤ 128 → length t ≤ 3
high-small [] h v = omega arith
high-small (c ∷ []) h v = omega arith
high-small (c ∷ d ∷ []) h v = omega arith
high-small (c ∷ d ∷ e ∷ []) h v = omega arith
high-small (c ∷ d ∷ e ∷ f ∷ t) h v = absurd (
    omega (
      arith,
      le-value ((((0 * 10 + (c - b'0')) * 10 + (d - b'0')) * 10 + (e - b'0')) * 10 + (f - b'0')) t,
    ))

high-solid : (t : Text) → 0 < value 0 t → is_empty t ≡ false
high-solid [] h = absurd (omega arith)
high-solid (c ∷ t) h = refl

high-pos : (t : Text) → StartsHigh t → is_empty t ≡ false → 0 < value 0 t
high-pos [] h e = cc
high-pos (c ∷ t) h e = omega (arith, le-value (0 * 10 + (c - b'0')) t)

solid : (s : Text) → s ≢ [] → is_empty s ≡ false
solid [] h = absurd (h refl)
solid (c ∷ s) h = refl

not_empty : (s : Text) → is_empty s ≡ false → s ≢ []
not_empty [] h = cc
not_empty (c ∷ s) h = λ e. cc

count_complete : (s : Text) (n : ℕ) → IsCount s n → cyg_count s ≡ some n
unfolding cyg_count
count_complete s n h =
    let spelled = decimal_value-value 0 (without_zeros s) in
    let same = value-without_zeros s in
    let high = without_zeros-StartsHigh s h.digits_only in
    ground (
      arith,
      spelled,
      same,
      solid s h.some_digit,
      (all-IsDigits_iff s).1 h.digits_only,
      high-solid (without_zeros s) (omega (arith, same, h.spelled, h.positive)),
      high-small (without_zeros s) high (omega (arith, same, h.spelled, h.bounded)),
      h.spelled,
      h.bounded,
    )

IsCount-sound : (s : Text) (n : ℕ) → cyg_count s ≡ some n → IsCount s n
unfolding cyg_count
IsCount-sound s n h =
    let some_digit : is_empty s ≡ false = ground arith in
    let digits : all is_ascii_digit s ≡ true = ground arith in
    let left : is_empty (without_zeros s) ≡ false = ground arith in
    let is : n ≡ decimal_value 0 (without_zeros s) = ground arith in
    let small : n ≤ 128 = ground arith in
    let same = decimal_value-value 0 (without_zeros s) ∙ value-without_zeros s in
    let digits_only = (all-IsDigits_iff s).0 digits in
    record {
      some_digit = not_empty s some_digit;
      digits_only = digits_only;
      spelled = is ∙ same;
      positive = omega (
        arith,
        is,
        decimal_value-value 0 (without_zeros s),
        high-pos (without_zeros s) (without_zeros-StartsHigh s digits_only) left,
      );
      bounded = small;
    }

-- Both read the same count, or none.
abbrev pub counts : Option ℕ → Option Bindings
counts none = none
counts (some n) = some (counted n)

pub parse_repeat-cyg_count : (s : Text) → parse_repeat s ≡ counts (cyg_count s)
parse_repeat-cyg_count s = elim (Option-cases (cyg_count s)) [
  | inr (n, e) ↦ parse_repeat_complete s n (IsCount-sound s n e) ∙ ap counts (sym e)
  | inl e ↦ elim (Option-cases (parse_repeat s)) [
    | inl e' ↦ e' ∙ ap counts (sym e)
    | inr (b, e') ↦
        let (n, _, is) = parse_repeat_sound s e' in
        absurd (ground (arith, e, count_complete s n is))
  ]
]
