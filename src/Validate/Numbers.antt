-- ===== src/Validate/Numbers.antt =====
-- What holds of a `{number}` key that is accepted: `walk_number_placeholder_issues` and
-- `check_number_unit` in runex/src/app/config.rs.
use runex.Prelude.{
  ℕ, suc, ◌≤◌, ◌≢◌, [], ◌∷◌, ◌++◌, none, some, true, false, ltb, not, ◌≡◌, ◌==◌, ◌&&◌, refl, sym,
  subst, ap, ◌∙◌, arith, is_some, is_empty, All, Option-cases, inl, inr, ◌>>=◌,
}
use runex.Text.{
  Text, codes, byte_len, contains_char, strip_prefix, replace, replace_from, count_text, count_from,
  is_ascii_control,
}
use runex.Text.Search.{Lacks, strip_prefix_sound}
use runex.Sanitize.{is_deceptive_unicode}
use runex.Model.{Abbr}
use runex.Expand.Keys.{number, same_phase, phase_of, number_placeholder}
use runex.Expand.Number.{number_key, Lacks-contains_char}
use runex.Validate.Issues.{
  key_has_unknown_placeholder, key_has_multiple_number_placeholders, key_has_number_without_unit,
  number_field_without_key_placeholder,
}
use runex.Validate.Checks.{check_number_unit, max_number_unit_bytes}
use runex.Validate.{
  continue, stop_at_first, walk_number_placeholder_issues, has_brace, number_count,
}
use runex.Validate.Walks.{walked_report_if}
use runex.Validate.Quiet.{any_none, quiet_then, quiet_report, quiet_report_if}

-- One placeholder, whose brace is the key's only opening one, and a unit that is not empty, within
-- the limit and free of control and deceptive characters.
pub record IsNumberKey (r : Abbr) : Type 0 where
  pub unit : Text
  pub prefix : Text
  pub suffix : Text
  pub unit_set : r.number ≡ some unit
  pub some_unit : is_empty unit ≡ false
  pub small : byte_len unit ≤ max_number_unit_bytes
  pub printable : All (λ c. is_ascii_control c ≡ false) unit
  pub honest : All (λ c. is_deceptive_unicode c ≡ false) unit
  pub key_is : r.key ≡ number_key prefix suffix
  pub prefix_plain : Lacks b'{' prefix
  pub suffix_plain : Lacks b'{' suffix

-- A text without a placeholder, and one whose first brace is that of its first placeholder.
data Shape (s : Text) : Type 0 where
  plain : Lacks b'{' s → count_text number_placeholder s ≡ 0 → Shape s
  held :
      (p b : Text)
      → s ≡ number_key p b
      → Lacks b'{' p
      → count_text number_placeholder s ≡ suc (count_text number_placeholder b)
      → contains_char b'{' (replace number_placeholder [] b) ≡ false
      → Shape s

Shape-cons :
    (c : ℕ) (s : Text)
    → c ≢ b'{'
    → count_text number_placeholder (c ∷ s) ≡ count_text number_placeholder s
    → Shape s
    → Shape (c ∷ s)
Shape-cons c s ne same (plain lacks count) = plain (ne, lacks) (same ∙ count)
Shape-cons c s ne same (held p b whole lacks count rest) =
    held (c ∷ p) b (ap (λ t. c ∷ t) whole) (ne, lacks) (same ∙ count) rest

Shape-found :
    (b : Text)
    → contains_char b'{' (replace number_placeholder [] (number_placeholder ++ b)) ≡ false
    → Shape (number_placeholder ++ b)
unfolding replace replace_from strip_prefix count_text count_from
Shape-found b h = held [] b refl tt refl h

Shape-of : (s : Text) → contains_char b'{' (replace number_placeholder [] s) ≡ false → Shape s
unfolding replace replace_from count_text count_from
Shape-of [] h = plain tt refl
Shape-of (c ∷ s) h = elim (Option-cases (strip_prefix number_placeholder (c ∷ s))) [
  | inr (b, e) ↦
      let whole = strip_prefix_sound number_placeholder (c ∷ s) e in
      subst Shape (sym whole) (
        Shape-found b
          (subst (λ t. contains_char b'{' (replace number_placeholder [] t) ≡ false) whole h))
  | inl e ↦
      Shape-cons c s (λ is. ground (arith, e, is, h)) (ground (arith, e))
        (Shape-of s (ground (arith, e, h)))
]

-- What a rule of the `{number}` phase has, and nothing for the others.
abbrev pub NumberOnly : Abbr → Type 0
NumberOnly abbr = same_phase (phase_of abbr) number ≡ true → IsNumberKey abbr

braced : (abbr : Abbr) → same_phase (phase_of abbr) number ≡ true → has_brace abbr ≡ true
unfolding phase_of has_brace
braced abbr h = ground arith

has_brace-contains_char : (abbr : Abbr) → has_brace abbr ≡ true → contains_char b'{' abbr.key ≡ true
unfolding has_brace
has_brace-contains_char abbr h = ground arith

key_of :
    (abbr : Abbr) (unit : Text)
    → abbr.number ≡ some unit
    → Shape abbr.key
    → ltb 1 (count_text number_placeholder abbr.key) ≡ false
    → (count_text number_placeholder abbr.key == 0) ≡ false
    → check_number_unit unit ≡ none
    → IsNumberKey abbr
unfolding check_number_unit
key_of abbr unit set (plain lacks count) few ones good = absurd (ground (arith, count, ones))
key_of abbr unit set (held p b whole lacks count rest) few ones good = elim (Shape-of b rest) [
  | held p' b' whole' lacks' count' rest' ↦ absurd (ground (arith, count, count', few))
  | plain no_brace zero ↦ record {
    unit = unit;
    prefix = p;
    suffix = b;
    unit_set = set;
    some_unit = ground arith;
    small = ground arith;
    printable = any_none is_ascii_control unit (ground arith);
    honest = any_none is_deceptive_unicode unit (ground arith);
    key_is = whole;
    prefix_plain = lacks;
    suffix_plain = no_brace;
  }
]

counted :
    (s : Text)
    → Shape s
    → contains_char b'{' s ≡ true
    → ltb 0 (count_text number_placeholder s) ≡ true
counted s (plain lacks count) brace = absurd (ground (arith, Lacks-contains_char b'{' s lacks))
counted s (held p b whole lacks count rest) brace = ground (arith, count)

pub number_of :
    (abbr : Abbr) (i : ℕ)
    → walk_number_placeholder_issues stop_at_first i abbr none ≡ continue none
    → NumberOnly abbr
unfolding walk_number_placeholder_issues number_count
number_of abbr i h own =
    let brace = braced abbr own in
    let (q1, h1) =
      quiet_then
        (walked_report_if i
          (has_brace abbr && contains_char b'{' (replace number_placeholder [] abbr.key))
          (codes "key") key_has_unknown_placeholder)
        _ h in
    let (q2, h2) =
      quiet_then
        (walked_report_if i (ltb 1 (number_count abbr)) (codes "key")
          key_has_multiple_number_placeholders)
        _ h1 in
    let (q3, h3) =
      quiet_then
        (walked_report_if i (ltb 0 (number_count abbr) && not (is_some abbr.number)) (codes "key")
          key_has_number_without_unit)
        _ h2 in
    let (q4, h4) =
      quiet_then
        (walked_report_if i (is_some abbr.number && number_count abbr == 0) (codes "number")
          number_field_without_key_placeholder)
        _ h3 in
    let known = quiet_report_if i _ (codes "key") key_has_unknown_placeholder q1 in
    let few = quiet_report_if i _ (codes "key") key_has_multiple_number_placeholders q2 in
    let with_unit = quiet_report_if i _ (codes "key") key_has_number_without_unit q3 in
    let with_key = quiet_report_if i _ (codes "number") number_field_without_key_placeholder q4 in
    let good = quiet_report i (codes "number") (abbr.number >>= check_number_unit) h4 in
    let shape = Shape-of abbr.key (rw brace at known) in
    let ones = counted abbr.key shape (has_brace-contains_char abbr brace) in
    let has_unit : (unit : Text) × (abbr.number ≡ some unit) = elim (Option-cases abbr.number) [
      | inl e ↦ absurd (ground (arith, brace, ones, e, with_unit))
      | inr found ↦ found
    ] in
    let (unit, set) = has_unit in
    key_of abbr unit set shape (rw brace at few) (ground (arith, ones)) (rw set at good)
