-- ===== src/Expand/Pattern.antt =====
-- The usual meaning of `*` and `?` in a key, and the fixed parts of a key against it.
use runex.Prelude.{
  ℕ, suc, [], ◌∷◌, ◌++◌, true, ◌≡◌, ◌≢◌, ◌↔◌, refl, sym, subst, ap, ◌∙◌, arith, inl, inr, ◌⊎◌,
  length, append-nil,
}
use runex.Text.{Text}
use runex.Text.Search.{Lacks}
use runex.Expand.Keys.{glob_fixed_part_matches}

abbrev pub star : ℕ
star = b'*'

-- The meaning of a pattern: `*` stands for any text, `?` for any character, and every other
-- character for itself.
pub data Glob : Text → Text → Type 0 where
  done : Glob [] []
  any_char : {k t : Text} (p c : ℕ) → p ≡ b'?' → Glob k t → Glob (p ∷ k) (c ∷ t)
  same_char : {k t : Text} (p c : ℕ) → p ≢ star → p ≡ c → Glob k t → Glob (p ∷ k) (c ∷ t)
  star_ends : {k t : Text} (p : ℕ) → p ≡ star → Glob k t → Glob (p ∷ k) t
  star_takes : {k t : Text} (p c : ℕ) → p ≡ star → Glob (p ∷ k) t → Glob (p ∷ k) (c ∷ t)

-- A part without `*`, character by character.
abbrev pub FixedMatch : Text → Text → Type 0
FixedMatch [] [] = Unit
FixedMatch [] (c ∷ t) = ⊥
FixedMatch (p ∷ k) [] = ⊥
FixedMatch (p ∷ k) (c ∷ t) = ((p ≡ b'?') ⊎ (p ≡ c)) × FixedMatch k t

pub fixed_iff : (k t : Text) → (glob_fixed_part_matches k t ≡ true) ↔ FixedMatch k t
unfolding glob_fixed_part_matches
fixed_iff [] [] = ground arith
fixed_iff [] (c ∷ t) = ground arith
fixed_iff (p ∷ k) [] = ground arith
fixed_iff (p ∷ k) (c ∷ t) = ground (arith, fixed_iff k t)

pub FixedMatch-length : (k t : Text) → FixedMatch k t → length k ≡ length t
FixedMatch-length [] [] h = refl
FixedMatch-length [] (c ∷ t) h = elim h [ ]
FixedMatch-length (p ∷ k) [] h = elim h [ ]
FixedMatch-length (p ∷ k) (c ∷ t) (_, h) = ap suc (FixedMatch-length k t h)

-- A fixed part in front of a pattern.
pub fixed_then :
    (h k : Text) (a t : Text) → Lacks star h → FixedMatch h a → Glob k t → Glob (h ++ k) (a ++ t)
fixed_then [] k [] t lacks m g = g
fixed_then [] k (c ∷ a) t lacks m g = elim m [ ]
fixed_then (p ∷ h) k [] t lacks m g = elim m [ ]
fixed_then (p ∷ h) k (c ∷ a) t (l, lacks) (inl e, m) g =
    any_char p c e (fixed_then h k a t lacks m g)
fixed_then (p ∷ h) k (c ∷ a) t (l, lacks) (inr e, m) g =
    same_char p c l e (fixed_then h k a t lacks m g)

-- A pattern that begins with a character other than `*`.
plain_head :
    {q s : Text} (p : ℕ) (k : Text)
    → Glob q s
    → q ≡ p ∷ k
    → p ≢ star
    → (c : ℕ) × (t : Text) × (s ≡ c ∷ t) × ((p ≡ b'?') ⊎ (p ≡ c)) × Glob k t
plain_head p k done e l = cc
plain_head p k (any_char {k = k'} {t} p' c e g) same l =
    let rest : k' ≡ k = ground arith in (c, t, refl, inl (ground arith), rw (← rest) g)
plain_head p k (same_char {k = k'} {t} p' c n e g) same l =
    let rest : k' ≡ k = ground arith in (c, t, refl, inr (ground arith), rw (← rest) g)
plain_head p k (star_ends p' e g) same l = absurd (l (ground arith))
plain_head p k (star_takes p' c e g) same l = absurd (l (ground arith))

pub then_fixed :
    (h k s : Text)
    → Lacks star h
    → Glob (h ++ k) s
    → (a : Text) × (t : Text) × (s ≡ a ++ t) × FixedMatch h a × Glob k t
then_fixed [] k s lacks g = ([], s, refl, tt, g)
then_fixed (p ∷ h) k s (l, lacks) g =
    let (c, s', whole, m, g') = plain_head p (h ++ k) g refl l in
    let (a, t, split, ms, rest) = then_fixed h k s' lacks g' in
    (c ∷ a, t, whole ∙ ap (λ u. c ∷ u) split, (m, ms), rest)

-- A pattern that begins with `*`.
pub star_then : (k m t : Text) → Glob k t → Glob (star ∷ k) (m ++ t)
star_then k [] t g = star_ends star refl g
star_then k (c ∷ m) t g = star_takes star c refl (star_then k m t g)

pub star_head :
    {q s : Text} (k : Text)
    → Glob q s
    → q ≡ star ∷ k
    → (m : Text) × (t : Text) × (s ≡ m ++ t) × Glob k t
star_head k done e = cc
star_head k (any_char p' c e g) same = absurd (ground arith)
star_head k (same_char p' c n e g) same = absurd (n (ground arith))
star_head k (star_ends {k = k'} {t} p' e g) same =
    let rest : k' ≡ k = ground arith in ([], t, refl, rw (← rest) g)
star_head k (star_takes p' c e g) same =
    let (m, t, whole, rest) = star_head k g same in (c ∷ m, t, ap (λ u. c ∷ u) whole, rest)

empty_pattern : {q s : Text} → Glob q s → q ≡ [] → s ≡ []
empty_pattern done e = refl
empty_pattern (any_char p' c e g) same = cc
empty_pattern (same_char p' c n e g) same = cc
empty_pattern (star_ends p' e g) same = cc
empty_pattern (star_takes p' c e g) same = cc

pub fixed-Glob_iff : (k s : Text) → Lacks star k → FixedMatch k s ↔ Glob k s
fixed-Glob_iff k s lacks = (
  λ m.
      subst (λ q. Glob q s) (append-nil k)
        (subst (Glob (k ++ [])) (append-nil s) (fixed_then k [] s [] lacks m done)),
  λ g.
      let (a, t, whole, m, rest) =
        then_fixed k [] s lacks (subst (λ q. Glob q s) (sym (append-nil k)) g) in
      subst (FixedMatch k) (sym (whole ∙ ap (λ u. a ++ u) (empty_pattern rest refl) ∙ append-nil a))
        m,
)

-- The code on a token that is cut in three.
