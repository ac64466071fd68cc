-- ===== src/Expand/Glob.antt =====
-- Glob keys of runex/src/domain/expand.rs, against the usual meaning of `*` and `?`.
use runex.Prelude.{
  ℕ, ◌+◌, ◌-◌, ◌≤◌, [], ◌∷◌, ◌++◌, some, true, false, ◌≡◌, ◌↔◌, refl, sym, subst, ap, ◌∙◌, arith,
  ◌&&◌, ltb, Option-cases, Bool-cases, inl, inr, length, length-append, take, drop, take-append,
  drop-append, take-drop, take-take, &&_true, is_some, append_assoc,
}
use runex.Text.{Text, count_char, split_once_char}
use runex.Text.Search.{
  Lacks, split_once_char_sound, split_once_char-none, split_once_char-append,
  split_once_char_missing,
}
use runex.Expand.Keys.{glob_fixed_part_matches, match_glob_parts, match_glob_key}
use runex.Expand.Pattern.{
  star, Glob, FixedMatch, fixed_iff, FixedMatch-length, fixed_then, then_fixed, star_then,
  star_head, fixed-Glob_iff,
}

parts_complete :
    (head tail a m t : Text)
    → FixedMatch head a
    → FixedMatch tail t
    → match_glob_parts head tail (a ++ (m ++ t)) ≡ some m
unfolding match_glob_parts
parts_complete head tail a m t h k =
    let lh : length head ≡ length a = FixedMatch-length head a h in
    let lt : length tail ≡ length t = FixedMatch-length tail t k in
    let total : length (a ++ (m ++ t)) ≡ length a + (length m + length t) =
      omega (arith, length-append {0} a (m ++ t), length-append {0} m t) in
    let middle : length a + (length m + length t) - length t ≡ length (a ++ m) =
      omega (arith, length-append {0} a m) in
    let bound : ltb (length a + (length m + length t)) (length a + length t) ≡ false =
      ground arith in
    rw (lh, lt, total, bound, middle)
      (rw (take-append a (m ++ t), (fixed_iff head a).1 h)
        (rw (← append_assoc a m t) (
          rw
            (
              drop-append (a ++ m) t,
              take-append (a ++ m) t,
              drop-append a m,
              (fixed_iff tail t).1 k,
            )
            refl)))

parts_sound :
    (head tail token : Text) {cap : Text}
    → match_glob_parts head tail token ≡ some cap
    → (a : Text) × (t : Text) × (token ≡ a ++ (cap ++ t)) × FixedMatch head a × FixedMatch tail t
unfolding match_glob_parts
parts_sound head tail token {cap} e =
    let end = length token - length tail in
    elim (Bool-cases (ltb (length token) (length head + length tail))) [
      | inl short ↦ absurd (ground arith)
      | inr long ↦
          elim (Bool-cases (
            glob_fixed_part_matches head (take (length head) token)
            && glob_fixed_part_matches tail (drop end token))) [
              | inr fails ↦ absurd (ground arith)
              | inl both ↦
                  let (m, k) =
                    &&_true (glob_fixed_part_matches head (take (length head) token))
                      (glob_fixed_part_matches tail (drop end token)) both in
                  let fits : length head ≤ end = ground arith in
                  let got : drop (length head) (take end token) ≡ cap = ground arith in
                  (
                    take (length head) token,
                    drop end token,
                    take-drop end token
                        ∙ ap (λ u. u ++ drop end token)
                            (take-drop (length head) (take end token)
                              ∙ ap (λ u. u ++ drop (length head) (take end token))
                                  (take-take (length head) end token fits))
                        ∙ append_assoc (take (length head) token)
                            (drop (length head) (take end token)) (drop end token)
                        ∙ ap (λ u. take (length head) token ++ (u ++ drop end token)) got,
                    (fixed_iff _ _).0 m,
                    (fixed_iff _ _).0 k,
                  )
            ]
    ]

module _ (head tail : Text) (hh : Lacks star head) (ht : Lacks star tail) where
  key_parts :
      (token : Text) → match_glob_key (head ++ star ∷ tail) token ≡ match_glob_parts head tail token
  unfolding match_glob_key
  key_parts token = rw (split_once_char-append star head tail hh, match_glob_key)

  -- With one `*`, a match is a cut of the token in three of which the outer two match the key's
  -- fixed parts; the capture is the middle one.
  pub match_glob_key_capture :
      (token cap : Text)
      → (match_glob_key (head ++ star ∷ tail) token ≡ some cap)
        ↔ ((a : Text) × (t : Text) × (token ≡ a ++ (cap ++ t)) × Glob head a × Glob tail t)
  match_glob_key_capture token cap = (
    λ e.
        let (a, t, whole, m, k) = parts_sound head tail token (sym (key_parts token) ∙ e) in
        (a, t, whole, (fixed-Glob_iff head a hh).0 m, (fixed-Glob_iff tail t ht).0 k),
    λ (a, t, whole, m, k).
        key_parts token
        ∙ rw whole (
            parts_complete head tail a cap t ((fixed-Glob_iff head a hh).1 m)
              ((fixed-Glob_iff tail t ht).1 k)),
  )

  one_star :
      (token : Text)
      → (is_some (match_glob_key (head ++ star ∷ tail) token) ≡ true)
        ↔ Glob (head ++ star ∷ tail) token
  one_star token = (
    λ e. elim (Option-cases (match_glob_key (head ++ star ∷ tail) token)) [
      | inl missed ↦ absurd (ground arith)
      | inr (cap, got) ↦
          let (a, t, whole, m, k) = (match_glob_key_capture token cap).0 got in
          subst (Glob (head ++ star ∷ tail)) (sym whole) (
            fixed_then head (star ∷ tail) a (cap ++ t) hh ((fixed-Glob_iff head a hh).1 m)
              (star_then tail cap t k))
    ],
    λ g.
        let (a, s, whole, m, g') = then_fixed head (star ∷ tail) token hh g in
        let (cap, t, whole', k) = star_head tail g' refl in
        ap is_some (
          (match_glob_key_capture token cap).1
            (a, t, whole ∙ ap (λ u. a ++ u) whole', (fixed-Glob_iff head a hh).0 m, k)),
  )

missing_key :
    (key token : Text)
    → Lacks star key
    → glob_fixed_part_matches key token ≡ true
    → match_glob_key key token ≡ some []
unfolding match_glob_key
missing_key key token lacks e = rw (split_once_char_missing star key lacks, match_glob_key) (rw e)

no_star :
    (key token : Text)
    → Lacks star key
    → (is_some (match_glob_key key token) ≡ true) ↔ Glob key token
unfolding match_glob_key
no_star key token lacks =
    let (to, from) = fixed-Glob_iff key token lacks in
    let (sound, complete) = fixed_iff key token in
    (
      λ e. to (sound (ground (arith, split_once_char_missing star key lacks))),
      λ g. ap is_some (missing_key key token lacks (complete (from g))),
    )

pub count-Lacks : (c : ℕ) (s : Text) → count_char c s ≡ 0 → Lacks c s
count-Lacks c [] h = tt
count-Lacks c (d ∷ s) h = (ground arith, count-Lacks c s (ground arith))

pub count-append : (c : ℕ) (a b : Text) → count_char c (a ++ b) ≡ count_char c a + count_char c b
count-append c [] b = omega arith
count-append c (d ∷ a) b = omega (arith, count-append c a b)

-- A glob key with at most one `*` matches a token exactly when the pattern means it.
pub match_glob_key_iff :
    (key token : Text)
    → count_char star key ≤ 1
    → (is_some (match_glob_key key token) ≡ true) ↔ Glob key token
match_glob_key_iff key token one = elim (Option-cases (split_once_char star key)) [
  | inl missing ↦ no_star key token (split_once_char-none star key missing)
  | inr ((head, tail), cut) ↦
      let (whole, hh) = split_once_char_sound star key cut in
      let counted : count_char star key ≡ count_char star head + count_char star (star ∷ tail) =
        ap (count_char star) whole ∙ count-append star head (star ∷ tail) in
      subst (λ q. (is_some (match_glob_key q token) ≡ true) ↔ Glob q token) (sym whole)
        (one_star head tail hh (count-Lacks star tail (omega (arith, counted))) token)
]
