-- ===== src/Doctor/Keybind.antt =====
-- What `check_unknown_fields` of runex/src/app/doctor.rs says of the table `keybind`.
use runex.Prelude.{
  List, [], ◌∷◌, ◌++◌, some, true, false, ◌≡◌, refl, sym, arith, any, subst, Bool-cases, inl, inr,
}
use runex.Text.{Text, codes, text_eq}
use runex.Text.Slices.{text_eq_iff, text_eq_refl}
use runex.Sanitize.{sanitize_for_display}
use runex.Precache.{contains}
use runex.ShellAlias.{Check}
use runex.Doctor.Unknown.{
  Toml, known_keybind_keys, unknown_check, keys, table_at, in_parsed, unknown_keybind, unknown_in,
  check_unknown_fields,
}

-- Among the checks is one with the name.
abbrev pub HasCheck : Text → List Check → Type 0
HasCheck name checks = any (λ c. text_eq c.name name) checks ≡ true

behind_others : (name : Text) (xs ys : List Check) → HasCheck name ys → HasCheck name (xs ++ ys)
behind_others name [] ys h = h
behind_others name (x ∷ xs) ys h = ground (arith, behind_others name xs ys h)

before_others : (name : Text) (xs ys : List Check) → HasCheck name xs → HasCheck name (xs ++ ys)
before_others name [] ys h = absurd (ground arith)
before_others name (x ∷ xs) ys h = elim (Bool-cases (text_eq x.name name)) [
  | inl e ↦ ground arith
  | inr e ↦ ground (arith, before_others name xs ys (ground arith))
]

abbrev pub check_name : Text → Text
check_name key = codes "strict.unknown_field.keybind." ++ sanitize_for_display key

module _ (toml : Toml) (key : Text) (unknown : contains known_keybind_keys key ≡ false) where
  walk-HasCheck :
      (kb : List (Text × toml.Value)) (ks : List Text)
      → contains ks key ≡ true
      → HasCheck (check_name key) (unknown_keybind toml kb ks)
  unfolding unknown_keybind unknown_check
  walk-HasCheck kb [] h = absurd (ground arith)
  walk-HasCheck kb (k ∷ ks) h = elim (Bool-cases (text_eq k key)) [
    | inl e ↦
        subst (λ z. HasCheck (check_name key) (unknown_keybind toml kb (z ∷ ks)))
          (sym ((text_eq_iff k key).0 e))
          (before_others (check_name key) _ (unknown_keybind toml kb ks)
            (rw (unknown, text_eq_refl (check_name key)) refl))
    | inr e ↦
        behind_others (check_name key) _ (unknown_keybind toml kb ks)
          (walk-HasCheck kb ks (ground arith))
  ]

-- In a text that is a table, every key of its table `keybind` that is neither `trigger` nor
-- `self_insert` is reported as unknown, `paste_intercept` too.
pub check_unknown_fields-keybind :
    (toml : Toml) (source key : Text) (t : List (Text × toml.Value))
    → toml.parse source ≡ some t
    → contains (keys toml (table_at toml (codes "keybind") t)) key ≡ true
    → contains known_keybind_keys key ≡ false
    → HasCheck (check_name key) (check_unknown_fields toml source)
unfolding check_unknown_fields unknown_in
check_unknown_fields-keybind toml source key t parsed there unknown =
    let kb = table_at toml (codes "keybind") t in
    subst (λ o. HasCheck (check_name key) (in_parsed toml o (unknown_in toml))) (sym parsed)
      (behind_others (check_name key) _ _ (
        before_others (check_name key) (unknown_keybind toml kb (keys toml kb)) _
          (walk-HasCheck toml key unknown kb (keys toml kb) there)))
