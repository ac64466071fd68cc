-- ===== src/Dispatcher/Case.antt =====
-- The patterns of the script, in `case` and in `${t#p}` and `${t%p}`, against the glob keys of
-- runex/src/domain/expand.rs.
use runex.Prelude.{
  ◌+◌, ◌≤◌, ◌<◌, ◌==◌, [], ◌∷◌, ◌++◌, none, some, true, false, ◌≡◌, refl, sym, subst, ap, ◌∙◌,
  arith, length, length-append, append_assoc, append-nil, is_some, Bool-cases, Option-cases, inl,
  inr,
}
use runex.Text.{Text, split_once_char, count_char}
use runex.Text.Search.{Lacks, split_once_char_sound, split_once_char-none}
use runex.Expand.Keys.{match_glob_key, glob_fixed_part_matches}
use runex.Expand.Pattern.{
  star, Glob, done, any_char, same_char, star_ends, star_takes, FixedMatch, fixed_iff,
  FixedMatch-length, fixed-Glob_iff,
}
use runex.Expand.Glob.{match_glob_key_iff, match_glob_key_capture, count-Lacks, count-append}
use runex.Dispatcher.{around_star}
use runex.Dispatcher.Script.{case_matches, cut_front, cut_head, cut_back, cut_tail}

case-Glob : (k t : Text) → case_matches k t ≡ true → Glob k t
unfolding case_matches
case-Glob [] [] h = done
case-Glob [] (c ∷ t) h = cc
case-Glob (p ∷ k) [] h = star_ends p (ground arith) (case-Glob k [] (ground arith))
case-Glob (p ∷ k) (c ∷ t) h = elim (Bool-cases (p == star)) [
  | inl is ↦ elim (Bool-cases (case_matches k (c ∷ t))) [
    | inl ends ↦ star_ends p (ground arith) (case-Glob k (c ∷ t) ends)
    | inr takes ↦ star_takes p c (ground arith) (case-Glob (p ∷ k) t (ground arith))
  ]
  | inr other ↦ elim (Bool-cases (p == b'?')) [
    | inl any ↦ any_char p c (ground arith) (case-Glob k t (ground arith))
    | inr plain ↦ same_char p c (ground arith) (ground arith) (case-Glob k t (ground arith))
  ]
]

Glob-case : (k t : Text) → Glob k t → case_matches k t ≡ true
unfolding case_matches
Glob-case _ _ done = refl
Glob-case (p ∷ k) (c ∷ t) (any_char _ _ e g) = ground (arith, Glob-case k t g)
Glob-case (p ∷ k) (c ∷ t) (same_char _ _ ne e g) = ground (arith, Glob-case k t g)
Glob-case (p ∷ k) [] (star_ends _ e g) = ground (arith, Glob-case k [] g)
Glob-case (p ∷ k) (c ∷ t) (star_ends _ e g) = ground (arith, Glob-case k (c ∷ t) g)
Glob-case (p ∷ k) (c ∷ t) (star_takes _ _ e g) = ground (arith, Glob-case (p ∷ k) t g)

-- A pattern without `*` matches texts of its own length alone.
other_length : (k t : Text) → Lacks star k → length t < length k → case_matches k t ≡ false
other_length k t lacks short = elim (Bool-cases (case_matches k t)) [
  | inr e ↦ e
  | inl e ↦
      absurd (omega (arith, FixedMatch-length k t ((fixed-Glob_iff k t lacks).1 (case-Glob k t e))))
]

fixed-case : (k t : Text) → Lacks star k → FixedMatch k t → case_matches k t ≡ true
fixed-case k t lacks m = Glob-case k t ((fixed-Glob_iff k t lacks).0 m)

-- The part of the token that a fixed front matches is taken off.
cut_front-fixed :
    (k taken b rest : Text)
    → Lacks star k
    → FixedMatch k (taken ++ b)
    → cut_front k taken (b ++ rest) ≡ some rest
unfolding cut_front
cut_front-fixed k taken [] [] lacks m =
    rw
      (subst (λ t. case_matches k t ≡ true) (append-nil taken) (fixed-case k (taken ++ []) lacks m))
      refl
cut_front-fixed k taken [] (c ∷ rest) lacks m =
    rw
      (subst (λ t. case_matches k t ≡ true) (append-nil taken) (fixed-case k (taken ++ []) lacks m))
      refl
cut_front-fixed k taken (c ∷ b) rest lacks m =
    let longer : length (taken ++ c ∷ b) ≡ length taken + length (c ∷ b) =
      length-append taken (c ∷ b) in
    rw (other_length k taken lacks (omega (arith, longer, FixedMatch-length k (taken ++ c ∷ b) m)))
      (cut_front-fixed k (taken ++ c ∷ []) b rest lacks
        (subst (FixedMatch k) (sym (append_assoc taken (c ∷ []) b)) m))

cut_head-fixed : (k b rest : Text) → Lacks star k → FixedMatch k b → cut_head k (b ++ rest) ≡ rest
cut_head-fixed k b rest lacks m = rw (cut_front-fixed k [] b rest lacks m, cut_head) refl

cut_back-short : (k t : Text) → Lacks star k → length t < length k → cut_back k t ≡ none
unfolding cut_back
cut_back-short k [] lacks short = rw (other_length k [] lacks short) refl
cut_back-short k (c ∷ t) lacks short =
    rw (cut_back-short k t lacks (omega arith), other_length k (c ∷ t) lacks short) refl

cut_back-whole : (k t : Text) → Lacks star k → FixedMatch k t → cut_back k t ≡ some []
unfolding cut_back
cut_back-whole k [] lacks m = rw (fixed-case k [] lacks m) refl
cut_back-whole k (c ∷ t) lacks m =
    rw
      (
        cut_back-short k t lacks (omega (arith, FixedMatch-length k (c ∷ t) m)),
        fixed-case k (c ∷ t) lacks m,
      )
      refl

cut_back-fixed : (k cap t : Text) → Lacks star k → FixedMatch k t → cut_back k (cap ++ t) ≡ some cap
unfolding cut_back
cut_back-fixed k [] t lacks m = cut_back-whole k t lacks m
cut_back-fixed k (c ∷ cap) t lacks m = rw (cut_back-fixed k cap t lacks m) refl

cut_tail-fixed :
    (k captured t : Text) → Lacks star k → FixedMatch k t → cut_tail k (captured ++ t) ≡ captured
cut_tail-fixed k captured t lacks m = rw (cut_back-fixed k captured t lacks m, cut_tail) refl

-- What is left of the token between the two parts of its pattern.
abbrev pub between_parts : Text × Text → Text → Text
between_parts parts token = cut_tail parts.1 (cut_head parts.0 token)

-- The capture of three parts, of which the outer two are fixed.
cut_three :
    (head tail a captured t : Text)
    → Lacks star head
    → Lacks star tail
    → FixedMatch head a
    → FixedMatch tail t
    → between_parts (head, tail) (a ++ (captured ++ t)) ≡ captured
cut_three head tail a captured t hh ht m n =
    ap (cut_tail tail) (cut_head-fixed head a (captured ++ t) hh m)
    ∙ cut_tail-fixed tail captured t ht n

module _ (key token : Text) (one : count_char star key ≤ 1) where
  -- The script's `case` passes the tokens that the key matches.
  pub case-match_glob_key : case_matches key token ≡ is_some (match_glob_key key token)
  case-match_glob_key = elim (Bool-cases (case_matches key token)) [
    | inl e ↦ e ∙ sym ((match_glob_key_iff key token one).1 (case-Glob key token e))
    | inr e ↦ elim (Bool-cases (is_some (match_glob_key key token))) [
      | inr e' ↦ e ∙ sym e'
      | inl e' ↦
          absurd (ground (arith, e, Glob-case key token ((match_glob_key_iff key token one).0 e')))
    ]
  ]

  no_star_capture :
      {captured : Text}
      → split_once_char star key ≡ none
      → match_glob_key key token ≡ some captured
      → between_parts (key, []) token ≡ captured
  unfolding match_glob_key
  no_star_capture {captured} missing h =
      let fixed : glob_fixed_part_matches key token ≡ true = ground (arith, missing, h) in
      let nothing : [] ≡ captured = ground (arith, missing, h, fixed) in
      ap (between_parts (key, [])) (sym (append-nil token))
      ∙ cut_three key [] token [] [] (split_once_char-none star key missing) tt
          ((fixed_iff key token).0 fixed) tt
      ∙ nothing

  star_capture :
      {captured head tail : Text}
      → split_once_char star key ≡ some (head, tail)
      → match_glob_key key token ≡ some captured
      → between_parts (head, tail) token ≡ captured
  star_capture {captured} {head} {tail} cut h =
      let (whole, hh) = split_once_char_sound star key cut in
      let counted = ap (count_char star) whole ∙ count-append star head (star ∷ tail) in
      let ht = count-Lacks star tail (omega (arith, counted, one)) in
      let (a, t, three, m, n) =
        (match_glob_key_capture head tail hh ht token captured).0
          (subst (λ k. match_glob_key k token ≡ some captured) whole h) in
      ap (between_parts (head, tail)) three
      ∙ cut_three head tail a captured t hh ht ((fixed-Glob_iff head a hh).1 m)
          ((fixed-Glob_iff tail t ht).1 n)

  -- What the script cuts out of a token is what the key captures.
  pub between_parts-match_glob_key :
      {captured : Text}
      → match_glob_key key token ≡ some captured
      → between_parts (around_star key) token ≡ captured
  between_parts-match_glob_key {captured} h = elim (Option-cases (split_once_char star key)) [
    | inl missing ↦ rw (missing, around_star) (no_star_capture missing h)
    | inr ((head, tail), cut) ↦ rw (cut, around_star) (star_capture cut h)
  ]
