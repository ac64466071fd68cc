-- ===== src/Sanitize/Laws.antt =====
-- What sanitising a text leaves of it.
use runex.Prelude.{
  ℕ, subst, ◌↔◌, inl, inr, ◌≤◌, ◌<◌, [], ◌∷◌, true, false, ◌≡◌, refl, ◌⊎◌, arith, All, Bool-cases,
}
use runex.Text.{Text}
use runex.Sanitize.{
  is_unsafe_for_display, sanitize_for_display, is_line_or_tab, sanitize_multiline_for_display,
}

-- A text whose characters are all safe to print.
abbrev pub IsSafe : Text → Type 0
IsSafe = All (λ c. is_unsafe_for_display c ≡ false)

sanitize_for_display-IsSafe : (s : Text) → IsSafe (sanitize_for_display s)
unfolding sanitize_for_display
sanitize_for_display-IsSafe [] = tt
sanitize_for_display-IsSafe (c ∷ s) = ground (arith, sanitize_for_display-IsSafe s)

sanitize_whole : (s : Text) → IsSafe s → sanitize_for_display s ≡ s
unfolding sanitize_for_display
sanitize_whole [] h = refl
sanitize_whole (c ∷ s) (safe, h) = ground (arith, sanitize_whole s h)

-- Sanitised text holds no unsafe character, and a text is left as it is exactly when it holds none.
pub sanitize_for_display_lem :
    (s : Text) → IsSafe (sanitize_for_display s) × ((sanitize_for_display s ≡ s) ↔ IsSafe s)
sanitize_for_display_lem s = (
  sanitize_for_display-IsSafe s,
  (λ e. subst IsSafe e (sanitize_for_display-IsSafe s), sanitize_whole s),
)

-- Sanitising for several lines and then for one is sanitising for one; what the first leaves is
-- safe but for line feeds, carriage returns and tabs.
pub sanitize-sanitize_multiline :
    (s : Text)
    → (sanitize_for_display (sanitize_multiline_for_display s) ≡ sanitize_for_display s)
      × All
          (λ c. (is_unsafe_for_display c ≡ false) ⊎ (is_line_or_tab c ≡ true))
          (sanitize_multiline_for_display s)
unfolding sanitize_for_display sanitize_multiline_for_display
sanitize-sanitize_multiline [] = (refl, tt)
sanitize-sanitize_multiline (c ∷ s) = elim (Bool-cases (is_unsafe_for_display c)) [
  | inl e ↦ ground (arith, sanitize-sanitize_multiline s)
  | inr e ↦ ground (arith, sanitize-sanitize_multiline s)
]

-- Printable ASCII is safe.
pub unsafe_of_printable : (c : ℕ) → 32 ≤ c → c < 127 → is_unsafe_for_display c ≡ false
unfolding is_unsafe_for_display
unsafe_of_printable c lo hi = ground arith
