-- ===== src/Text/Slices.antt =====
-- Byte offsets and slices of a text.
use runex.Prelude.{
  ℕ, Option-cases, ◌+◌, ◌-◌, ◌<◌, [], ◌∷◌, ◌++◌, some, true, ◌≡◌, refl, inl, inr, arith, ◌↔◌,
}
use runex.Text.{Text, len_utf8, byte_len, text_eq, split_at_byte}

pub len_utf8_pos : (c : ℕ) → 0 < len_utf8 c
len_utf8_pos c = ground arith

pub byte_len-append : (s t : Text) → byte_len (s ++ t) ≡ byte_len s + byte_len t
byte_len-append [] t = omega arith
byte_len-append (c ∷ s) t = omega (arith, byte_len-append s t)

pub text_eq_iff : (s t : Text) → (text_eq s t ≡ true) ↔ (s ≡ t)
unfolding text_eq
text_eq_iff [] [] = ground arith
text_eq_iff [] (d ∷ t) = ground arith
text_eq_iff (c ∷ s) [] = ground arith
text_eq_iff (c ∷ s) (d ∷ t) = ground (arith, text_eq_iff s t)

pub text_eq_refl : (s : Text) → text_eq s s ≡ true
text_eq_refl s = (text_eq_iff s s).1 refl

-- The offset `n` stands between two characters of `s`, or at an end of it.
abbrev pub IsBoundary : Text → ℕ → Type 0
IsBoundary s n = (a : Text) × (b : Text) × (s ≡ a ++ b) × (byte_len a ≡ n)

-- A slice at the end of a part gives the two parts.
pub split_at_byte-append : (a b : Text) → split_at_byte (a ++ b) (byte_len a) ≡ some (a, b)
unfolding split_at_byte
split_at_byte-append [] [] = refl
split_at_byte-append [] (c ∷ b) = refl
split_at_byte-append (c ∷ a) b =
    let shorter : len_utf8 c + byte_len a - len_utf8 c ≡ byte_len a = omega arith in
    rw (shorter, split_at_byte-append a b) (ground arith)

-- A slice that does not panic splits the text at the offset.
pub split_at_byte_sound :
    (s : Text) (n : ℕ) {a b : Text}
    → split_at_byte s n ≡ some (a, b)
    → (s ≡ a ++ b) × (byte_len a ≡ n)
unfolding split_at_byte
split_at_byte_sound [] n h = ground arith
split_at_byte_sound (c ∷ s) n h = elim (Option-cases (split_at_byte s (n - len_utf8 c))) [
  | inl e ↦ ground arith
  | inr ((a', b'), e) ↦ ground (arith, split_at_byte_sound s (n - len_utf8 c) e)
]
