-- ===== src/Dispatcher/Blank.antt =====
-- The script's test for white space against `is_blank_expansion` of runex/src/domain/expand.rs.
use mathlib.Core.Path.{fun_ext}
use runex.Prelude.{
  ℕ, List, [], ◌∷◌, Bool, true, false, ◌≡◌, ◌↔◌, refl, sym, ap, ◌∙◌, arith, ◌||◌, ◌==◌, not, any,
  all, keep, is_empty, All,
}
use runex.Text.{Text, is_whitespace, trim}
use runex.Text.Search.{trim_empty_iff}
use runex.Expand.Rules.{is_blank_expansion}
use runex.Dispatcher.{multibyte_whitespace}
use runex.Dispatcher.Script.{is_ascii_blank, without_each, cyg_is_blank}

all-keep : (p q : ℕ → Bool) (s : Text) → all q (keep (λ c. not (p c)) s) ≡ all (λ c. p c || q c) s
all-keep p q [] = refl
all-keep p q (c ∷ s) = ground (arith, all-keep p q s)

all-none : (s : Text) → is_empty s ≡ all (λ c. false) s
all-none [] = refl
all-none (c ∷ s) = refl

without_each-empty :
    (cs : List ℕ) (s : Text) → is_empty (without_each cs s) ≡ all (λ d. any (λ c. d == c) cs) s
without_each-empty [] s = all-none s
without_each-empty (c ∷ cs) s =
    without_each-empty cs (keep (λ d. not (d == c)) s)
    ∙ all-keep (λ d. d == c) (λ d. any (λ x. d == x) cs) s

is_whitespace-split :
    (c : ℕ) → (is_ascii_blank c || any (λ x. c == x) multibyte_whitespace) ≡ is_whitespace c
unfolding is_whitespace
is_whitespace-split c = ground arith

all_iff : (p : ℕ → Bool) (s : Text) → (all p s ≡ true) ↔ All (λ c. p c ≡ true) s
all_iff p [] = (λ _. tt, λ _. refl)
all_iff p (c ∷ s) = (
  λ h. (ground arith, (all_iff p s).0 (ground arith)),
  λ (h : All (λ x. p x ≡ true) (c ∷ s)). ground (arith, (all_iff p s).1 h.1, h.0),
)

eq_of_iff : (a b : Bool) → (a ≡ true) ↔ (b ≡ true) → a ≡ b
eq_of_iff true b h = sym (h.0 refl)
eq_of_iff false true h = h.1 refl
eq_of_iff false false h = refl

-- The script takes the same texts as blank.
pub cyg_is_blank-is_blank_expansion : (s : Text) → cyg_is_blank s ≡ is_blank_expansion s
unfolding cyg_is_blank is_blank_expansion
cyg_is_blank-is_blank_expansion s =
    without_each-empty multibyte_whitespace (keep (λ c. not (is_ascii_blank c)) s)
    ∙ all-keep is_ascii_blank (λ d. any (λ x. d == x) multibyte_whitespace) s
    ∙ ap (λ p. all p s) (fun_ext is_whitespace-split)
    ∙ eq_of_iff (all is_whitespace s) (is_empty (trim s)) (
      λ h. (trim_empty_iff s).1 ((all_iff is_whitespace s).0 h),
      λ h. (all_iff is_whitespace s).1 ((trim_empty_iff s).0 h),
    )
