-- ===== src/Dispatcher/Conds.antt =====
-- The script's test of a condition against the one of runex/src/domain/expand.rs.
use runex.Prelude.{
  List, [], ◌∷◌, ◌++◌, some, Bool, false, ◌≡◌, refl, subst, arith, all, is_empty, All, Bool-cases,
  Option-cases, inl, inr,
}
use runex.Text.{Text, text_eq}
use runex.Text.Slices.{text_eq_iff, text_eq_refl}
use runex.Text.Search.{Lacks}
use runex.Precache.{get}
use runex.Dispatcher.{join}
use runex.Dispatcher.Script.{Seen, split_conds, look_up, is_seen, conds_loop, cyg_conds_met}

-- A command that can stand between colons.
pub record IsName (c : Text) : Type 0 where
  pub some_char : is_empty c ≡ false
  pub no_colon : Lacks b':' c

split_conds-one : (c : Text) → Lacks b':' c → split_conds c ≡ c ∷ []
unfolding split_conds
split_conds-one [] h = refl
split_conds-one (d ∷ c) (ne, h) = ground (arith, split_conds-one c h)

split_conds-colon :
    (c s : Text) {w : Text} {ws : List Text}
    → Lacks b':' c
    → split_conds s ≡ w ∷ ws
    → split_conds (c ++ b':' ∷ s) ≡ c ∷ w ∷ ws
unfolding split_conds
split_conds-colon [] s h e = ground arith
split_conds-colon (d ∷ c) s (ne, h) e = ground (arith, split_conds-colon c s h e)

split_conds-join :
    (c : Text) (cs : List Text)
    → All IsName (c ∷ cs)
    → split_conds (join (b':' ∷ []) (c ∷ cs)) ≡ c ∷ cs
split_conds-join c [] (n, _) = split_conds-one c n.no_colon
split_conds-join c (d ∷ cs) (n, ns) =
    split_conds-colon c (join (b':' ∷ []) (d ∷ cs)) n.no_colon (split_conds-join d cs ns)

join-solid :
    (c : Text) (cs : List Text) → is_empty c ≡ false → is_empty (join (b':' ∷ []) (c ∷ cs)) ≡ false
join-solid [] cs h = cc
join-solid (d ∷ c) [] h = refl
join-solid (d ∷ c) (e ∷ cs) h = refl

module _ (type_path : Text → Bool) where
  -- What is remembered of the commands is right.
  abbrev pub Right : Seen → Type 0
  Right seen = (c : Text) (b : Bool) → get seen c ≡ some b → b ≡ type_path c

  look_up-Right : (seen : Seen) (c : Text) → Right seen → Right (look_up type_path seen c)
  look_up-Right seen c h = elim (Option-cases (get seen c)) [
    | inr (b, e) ↦ rw (e, look_up) h
    | inl e ↦
        rw (e, look_up)
          (λ t v e'. elim (Bool-cases (text_eq c t)) [
            | inl same ↦
                subst (λ x. v ≡ type_path x) ((text_eq_iff c t).0 same) (ground (arith, same, e'))
            | inr other ↦ h t v (ground (arith, other, e'))
          ])
  ]

  is_seen-look_up :
      (seen : Seen) (c : Text)
      → Right seen
      → is_seen type_path (look_up type_path seen c) c ≡ type_path c
  is_seen-look_up seen c h = elim (Option-cases (get seen c)) [
    | inr (b, e) ↦ ground (arith, h c b e)
    | inl e ↦ ground (arith, text_eq_refl c)
  ]

  conds_loop-Right :
      (seen : Seen) (cs : List Text)
      → Right seen
      → ((conds_loop type_path seen cs).1 ≡ all type_path cs)
        × Right (conds_loop type_path seen cs).0
  unfolding conds_loop
  conds_loop-Right seen [] h = (refl, h)
  conds_loop-Right seen (c ∷ cs) h =
      let (value, right) =
        conds_loop-Right (look_up type_path seen c) cs (look_up-Right seen c h) in
      (ground (arith, is_seen-look_up seen c h, value), right)

  -- A condition is met for the script where all its commands are found.
  pub conds_met-Right :
      (seen : Seen) (cmds : List Text)
      → All IsName cmds
      → Right seen
      → ((cyg_conds_met type_path seen (join (b':' ∷ []) cmds)).1 ≡ all type_path cmds)
        × Right (cyg_conds_met type_path seen (join (b':' ∷ []) cmds)).0
  unfolding cyg_conds_met
  conds_met-Right seen [] ns h = (refl, h)
  conds_met-Right seen (c ∷ cs) (n, ns) h =
      rw (join-solid c cs n.some_char)
        (rw (split_conds-join c cs (n, ns)) (conds_loop-Right seen (c ∷ cs) h))
