-- ===== src/ShellAlias/Truncate.antt =====
-- `truncate_to_limit` of runex/src/infra/shell_alias.rs keeps as much as fits.
use runex.Prelude.{
  ℕ, zero, suc, ◌+◌, ◌≤◌, ◌<◌, [], ◌∷◌, ◌++◌, some, true, false, leb, ◌≡◌, refl, sym, subst, ap,
  ◌∙◌, arith, append-nil, append_assoc, is_some, Bool-cases, Option-cases, inl, inr,
}
use runex.Text.{Text, len_utf8, byte_len, split_at_byte}
use runex.Text.Slices.{len_utf8_pos, byte_len-append, split_at_byte-append, split_at_byte_sound}
use runex.ShellAlias.{boundary_from, truncate_to_limit}

-- The start of a text that fits, which the next character would not.
pub record IsLongest (s : Text) (limit : ℕ) (kept : Text) : Type 0 where
  pub rest : Text
  pub whole : s ≡ kept ++ rest
  pub fits : byte_len kept ≤ limit
  pub longest : (c : ℕ) (more : Text) → rest ≡ c ∷ more → limit < byte_len kept + len_utf8 c

-- The walk stops at the last boundary.
record IsLast (s : Text) (n e : ℕ) : Type 0 where
  no_more : e ≤ n
  is_boundary : is_some (split_at_byte s e) ≡ true
  none_behind : (k : ℕ) → e < k → k ≤ n → is_some (split_at_byte s k) ≡ false

at_start : (s : Text) → is_some (split_at_byte s 0) ≡ true
unfolding split_at_byte
at_start [] = refl
at_start (c ∷ s) = refl

still :
    (s : Text) (n k : ℕ) {e : ℕ}
    → ((k : ℕ) → e < k → k ≤ n → is_some (split_at_byte s k) ≡ false)
    → is_some (split_at_byte s (suc n)) ≡ false
    → e < k
    → k ≤ suc n
    → is_some (split_at_byte s k) ≡ false
still s n k behind last h h' = elim (Bool-cases (leb k n)) [
  | inl e ↦ behind k h (ground arith)
  | inr e ↦ let same : k ≡ suc n = ground arith in rw same last
]

boundary_from-IsLast : (s : Text) (n : ℕ) → IsLast s n (boundary_from s n)
unfolding boundary_from
boundary_from-IsLast s zero = record {
  no_more = omega arith;
  is_boundary = at_start s;
  none_behind = λ k h h'. absurd (omega arith);
}
boundary_from-IsLast s (suc n) = elim (Bool-cases (is_some (split_at_byte s (suc n)))) [
  | inl e ↦
      rw (e, boundary_from)
        (record {
          no_more = omega arith;
          is_boundary = e;
          none_behind = λ k h h'. absurd (omega arith);
        })
  | inr e ↦
      let before = boundary_from-IsLast s n in
      rw (e, boundary_from)
        (record {
          no_more = omega (arith, before.no_more);
          is_boundary = before.is_boundary;
          none_behind = λ k h h'. still s n k before.none_behind e h h';
        })
]

behind_last :
    (s kept rest : Text) (limit : ℕ)
    → s ≡ kept ++ rest
    → IsLast s limit (byte_len kept)
    → (c : ℕ) (more : Text) → rest ≡ c ∷ more
    → limit < byte_len kept + len_utf8 c
behind_last s kept rest limit whole last c more starts =
    let longer : s ≡ (kept ++ c ∷ []) ++ more =
      whole ∙ ap (λ t. kept ++ t) starts ∙ sym (append_assoc kept (c ∷ []) more) in
    let size : byte_len (kept ++ c ∷ []) ≡ byte_len kept + len_utf8 c =
      omega (arith, byte_len-append kept (c ∷ [])) in
    let boundary : is_some (split_at_byte s (byte_len kept + len_utf8 c)) ≡ true =
      rw (longer, ← size, split_at_byte-append (kept ++ c ∷ []) more) refl in
    elim (Bool-cases (leb (byte_len kept + len_utf8 c) limit)) [
      | inr e ↦ ground arith
      | inl e ↦ absurd (
          ground (
            arith,
            boundary,
            last.none_behind (byte_len kept + len_utf8 c) (omega (arith, len_utf8_pos c))
                (ground arith),
          ))
    ]

-- Cutting to a limit never panics, and gives the longest start of the text that has at most so many
-- bytes and ends between two characters.
pub truncate_to_limit_lem :
    (s : Text) (limit : ℕ)
    → (kept : Text) × (truncate_to_limit s limit ≡ some kept) × IsLongest s limit kept
unfolding truncate_to_limit
truncate_to_limit_lem s limit = elim (Bool-cases (leb (byte_len s) limit)) [
  | inl e ↦ (
    s,
    rw (e, truncate_to_limit) refl,
    record { rest = []; whole = sym (append-nil s); fits = ground arith; longest = λ c more h. cc },
  )
  | inr e ↦
      let last = boundary_from-IsLast s limit in
      elim (Option-cases (split_at_byte s (boundary_from s limit))) [
        | inl none_there ↦ absurd (ground (arith, last.is_boundary, none_there))
        | inr ((kept, rest), cut) ↦
            let (whole, at) = split_at_byte_sound s (boundary_from s limit) cut in
            let there = subst (IsLast s limit) (sym at) last in
            (
              kept,
              rw (e, truncate_to_limit, cut) refl,
              record {
                rest = rest;
                whole = whole;
                fits = there.no_more;
                longest = λ c more h. behind_last s kept rest limit whole there c more h;
              },
            )
      ]
]
