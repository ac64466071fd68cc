-- ===== src/Dispatcher/Fields.antt =====
-- What the script's `read` takes out of an entry.
use runex.Prelude.{
  List, [], ◌∷◌, true, ◌≡◌, refl, arith, keep, All, keep_whole, Bool-cases, inl, inr,
}
use runex.Text.{Text}
use runex.Text.Search.{Lacks, split_once_char-append}
use runex.Dispatcher.Reading.{us, entry, is_kept}
use runex.Dispatcher.Script.{first_field, other_fields}

-- The text is kept whole in a table.
abbrev pub IsKept : Text → Type 0
IsKept = All (λ c. is_kept c ≡ true)

keep-Lacks : (s : Text) → Lacks us (keep is_kept s)
keep-Lacks [] = tt
keep-Lacks (c ∷ s) = elim (Bool-cases (is_kept c)) [
  | inl kept ↦ rw (kept, keep) (λ e. ground (arith, kept, e), keep-Lacks s)
  | inr dropped ↦ rw (dropped, keep) (keep-Lacks s)
]

pub first_field-entry :
    (f g : Text) (fs : List Text) → IsKept f → first_field (entry (f ∷ g ∷ fs)) ≡ f
unfolding first_field
first_field-entry f g fs h =
    rw (split_once_char-append us (keep is_kept f) (entry (g ∷ fs)) (keep-Lacks f), first_field)
      (keep_whole is_kept f h)

pub other_fields-entry :
    (f g : Text) (fs : List Text) → other_fields (entry (f ∷ g ∷ fs)) ≡ entry (g ∷ fs)
unfolding other_fields
other_fields-entry f g fs =
    rw (split_once_char-append us (keep is_kept f) (entry (g ∷ fs)) (keep-Lacks f), other_fields)
      refl

pub last-entry : (f : Text) → IsKept f → entry (f ∷ []) ≡ f
last-entry f h = keep_whole is_kept f h
