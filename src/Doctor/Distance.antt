-- ===== src/Doctor/Distance.antt =====
-- `levenshtein` of runex/src/app/doctor.rs on bytes, against the scripts of edits.
use runex.Prelude.{
  ℕ, suc, ◌+◌, ◌==◌, ◌≤◌, List, [], ◌∷◌, ◌++◌, ◌≡◌, refl, sym, ap, ◌∙◌, subst, min, arith,
  if◌then◌else◌, length, append_assoc, append-nil, Bool-cases, eq_of_==, ◌⊎◌, inl, inr,
}
use mathlib.Core.List.{reverse, reverse-append, reverse-cons, reverse-reverse}

-- The row for a number of bytes, `0..=len`.
abbrev pub first_row : ℕ → List ℕ → List ℕ
first_row i [] = i ∷ []
first_row i (y ∷ ys) = i ∷ first_row (suc i) ys

-- The inner loop: the cell that stands left, the one above that, and the rest of the row above.
unfoldable pub cells : ℕ → ℕ → ℕ → List ℕ → List ℕ → List ℕ
cells x left corner (above ∷ row) (y ∷ ys) =
    let cell = min (min (above + 1) (left + 1)) (corner + (if x == y then 0 else 1)) in
    cell ∷ cells x cell above row ys
cells x left corner _ _ = []

unfoldable pub next_row : ℕ → ℕ → List ℕ → List ℕ → List ℕ
next_row i x [] ys = i ∷ []
next_row i x (corner ∷ row) ys = i ∷ cells x i corner row ys

-- The outer loop, with the number of rows done.
unfoldable pub rows : ℕ → List ℕ → List ℕ → List ℕ → List ℕ
rows i prev [] ys = prev
rows i prev (x ∷ xs) ys = rows (suc i) (next_row (suc i) x prev ys) xs ys

abbrev pub last_cell : List ℕ → ℕ
last_cell [] = 0
last_cell (d ∷ []) = d
last_cell (d ∷ e ∷ row) = last_cell (e ∷ row)

unfoldable pub levenshtein : List ℕ → List ℕ → ℕ
levenshtein a b = last_cell (rows 0 (first_row 0 b) a b)

-- A number of edits that make the second of two sequences of the first, from left to right.
pub data Script : List ℕ → List ℕ → ℕ → Type 0 where
  done : Script [] [] 0
  insert : {a b : List ℕ} {n : ℕ} (y : ℕ) → Script a b n → Script a (b ++ y ∷ []) (n + 1)
  delete : {a b : List ℕ} {n : ℕ} (x : ℕ) → Script a b n → Script (a ++ x ∷ []) b (n + 1)
  replace :
      {a b : List ℕ} {n : ℕ} (x y : ℕ) → Script a b n → Script (a ++ x ∷ []) (b ++ y ∷ []) (n + 1)
  keep : {a b : List ℕ} {n : ℕ} (x : ℕ) → Script a b n → Script (a ++ x ∷ []) (b ++ x ∷ []) n

-- The distance of two sequences that are read backwards.
unfoldable edit : List ℕ → List ℕ → ℕ
edit [] b = length b
edit (x ∷ a) [] = suc (length a)
edit (x ∷ a) (y ∷ b) =
    min (min (edit a (y ∷ b) + 1) (edit (x ∷ a) b + 1)) (edit a b + (if x == y then 0 else 1))

-- The rest of a row: the distances of `a` and what more and more of `ys` makes of `b`.
abbrev behind : List ℕ → List ℕ → List ℕ → List ℕ
behind a b [] = []
behind a b (y ∷ ys) = edit a (y ∷ b) ∷ behind a (y ∷ b) ys

cells-behind :
    (x : ℕ) (a b ys : List ℕ)
    → cells x (edit (x ∷ a) b) (edit a b) (behind a b ys) ys ≡ behind (x ∷ a) b ys
unfolding cells edit
cells-behind x a b [] = refl
cells-behind x a b (y ∷ ys) = ap (λ t. edit (x ∷ a) (y ∷ b) ∷ t) (cells-behind x a (y ∷ b) ys)

edit-nil : (a : List ℕ) → edit a [] ≡ length a
unfolding edit
edit-nil [] = refl
edit-nil (x ∷ a) = refl

first_row-behind : (b ys : List ℕ) → first_row (length b) ys ≡ edit [] b ∷ behind [] b ys
unfolding edit
first_row-behind b [] = refl
first_row-behind b (y ∷ ys) = ap (λ t. length b ∷ t) (first_row-behind (y ∷ b) ys)

swing : (y : ℕ) (ys b : List ℕ) → reverse ys ++ y ∷ b ≡ reverse (y ∷ ys) ++ b
swing y ys b =
    sym (append_assoc (reverse ys) (y ∷ []) b) ∙ ap (λ t. t ++ b) (sym (reverse-cons y ys))

rows-behind :
    (a xs ys : List ℕ)
    → rows (length a) (edit a [] ∷ behind a [] ys) xs ys
      ≡ edit (reverse xs ++ a) [] ∷ behind (reverse xs ++ a) [] ys
unfolding rows next_row edit
rows-behind a [] ys = refl
rows-behind a (x ∷ xs) ys =
    ap (λ t. rows (suc (length a)) (suc (length a) ∷ t) xs ys) (cells-behind x a [] ys)
    ∙ rows-behind (x ∷ a) xs ys
    ∙ ap (λ t. edit t [] ∷ behind t [] ys) (swing x xs a)

last-behind : (a b ys : List ℕ) → last_cell (edit a b ∷ behind a b ys) ≡ edit a (reverse ys ++ b)
last-behind a b [] = refl
last-behind a b (y ∷ ys) = last-behind a (y ∷ b) ys ∙ ap (edit a) (swing y ys b)

levenshtein-edit : (a b : List ℕ) → levenshtein a b ≡ edit (reverse a) (reverse b)
unfolding levenshtein
levenshtein-edit a b =
    ap (λ t. last_cell (rows 0 t a b)) (first_row-behind [] b)
    ∙ ap last_cell (rows-behind [] a b)
    ∙ last-behind (reverse a ++ []) [] b
    ∙ rw (append-nil (reverse a), append-nil (reverse b)) refl

insert_le : (y : ℕ) (a b : List ℕ) → edit a (y ∷ b) ≤ edit a b + 1
unfolding edit
insert_le y [] b = omega arith
insert_le y (x ∷ a) b = ground arith

delete_le : (x : ℕ) (a b : List ℕ) → edit (x ∷ a) b ≤ edit a b + 1
unfolding edit
delete_le x a [] = omega (arith, edit-nil a)
delete_le x a (y ∷ b) = ground arith

replace_le : (x y : ℕ) (a b : List ℕ) → edit (x ∷ a) (y ∷ b) ≤ edit a b + 1
unfolding edit
replace_le x y a b = ground arith

keep_le : (x : ℕ) (a b : List ℕ) → edit (x ∷ a) (x ∷ b) ≤ edit a b
unfolding edit
keep_le x a b = ground arith

backwards : (a : List ℕ) (x : ℕ) → reverse (a ++ x ∷ []) ≡ x ∷ reverse a
backwards a x = reverse-append a (x ∷ [])

edit_least : {a b : List ℕ} {n : ℕ} → Script a b n → edit (reverse a) (reverse b) ≤ n
unfolding edit
edit_least done = omega arith
edit_least (insert {a} {b} y s) =
    rw (backwards b y) (omega (arith, insert_le y (reverse a) (reverse b), edit_least s))
edit_least (delete {a} {b} x s) =
    rw (backwards a x) (omega (arith, delete_le x (reverse a) (reverse b), edit_least s))
edit_least (replace {a} {b} x y s) =
    rw (backwards a x, backwards b y)
      (omega (arith, replace_le x y (reverse a) (reverse b), edit_least s))
edit_least (keep {a} {b} x s) =
    rw (backwards a x, backwards b x)
      (omega (arith, keep_le x (reverse a) (reverse b), edit_least s))

module _ (a b : List ℕ) {n : ℕ} (s : Script (reverse a) (reverse b) n) where
  inserted : (y : ℕ) → Script (reverse a) (reverse (y ∷ b)) (n + 1)
  inserted y = subst (λ t. Script (reverse a) t (n + 1)) (sym (reverse-cons y b)) (insert y s)

  deleted : (x : ℕ) → Script (reverse (x ∷ a)) (reverse b) (n + 1)
  deleted x = subst (λ t. Script t (reverse b) (n + 1)) (sym (reverse-cons x a)) (delete x s)

  replaced : (x y : ℕ) → Script (reverse (x ∷ a)) (reverse (y ∷ b)) (n + 1)
  replaced x y =
      subst (λ t. Script t (reverse (y ∷ b)) (n + 1)) (sym (reverse-cons x a))
        (subst (λ t. Script (reverse a ++ x ∷ []) t (n + 1)) (sym (reverse-cons y b))
          (replace x y s))

  kept : (x : ℕ) → Script (reverse (x ∷ a)) (reverse (x ∷ b)) n
  kept x =
      subst (λ t. Script t (reverse (x ∷ b)) n) (sym (reverse-cons x a))
        (subst (λ t. Script (reverse a ++ x ∷ []) t n) (sym (reverse-cons x b)) (keep x s))

  diagonal : (x y : ℕ) → Script (reverse (x ∷ a)) (reverse (y ∷ b)) (n + (if x == y then 0 else 1))
  diagonal x y = elim (Bool-cases (x == y)) [
    | inl same ↦ rw same (
        subst (λ z. Script (reverse (x ∷ a)) (reverse (z ∷ b)) (n + 0)) (eq_of_== x y same)
          (subst (Script (reverse (x ∷ a)) (reverse (x ∷ b))) (omega arith) (kept x)))
    | inr other ↦ rw other (replaced x y)
  ]

least_of : (p q r : ℕ) → (p ≡ min (min p q) r) ⊎ ((q ≡ min (min p q) r) ⊎ (r ≡ min (min p q) r))
least_of p q r = ground arith

edit-Script : (a b : List ℕ) → Script (reverse a) (reverse b) (edit a b)
unfolding edit
edit-Script [] [] = done
edit-Script [] (y ∷ b) =
    subst (Script [] (reverse (y ∷ b))) (omega arith) (inserted [] b (edit-Script [] b) y)
edit-Script (x ∷ a) [] =
    subst (Script (reverse (x ∷ a)) []) (omega (arith, edit-nil a))
      (deleted a [] (edit-Script a []) x)
edit-Script (x ∷ a) (y ∷ b) =
    let made = Script (reverse (x ∷ a)) (reverse (y ∷ b)) in
    elim (least_of (edit a (y ∷ b) + 1) (edit (x ∷ a) b + 1)
      (edit a b + (if x == y then 0 else 1))) [
        | inl e ↦ subst made e (deleted a (y ∷ b) (edit-Script a (y ∷ b)) x)
        | inr (inl e) ↦ subst made e (inserted (x ∷ a) b (edit-Script (x ∷ a) b) y)
        | inr (inr e) ↦ subst made e (diagonal a b (edit-Script a b) x y)
      ]

-- The distance is the least number of insertions, deletions and replacements of bytes that make the
-- second text of the first.
pub levenshtein-least :
    (a b : List ℕ) → Script a b (levenshtein a b) × ((n : ℕ) → Script a b n → levenshtein a b ≤ n)
levenshtein-least a b = (
  subst (λ t. Script t b (levenshtein a b)) (reverse-reverse a)
      (subst (λ t. Script (reverse (reverse a)) t (levenshtein a b)) (reverse-reverse b)
        (rw (levenshtein-edit a b) (edit-Script (reverse a) (reverse b)))),
  λ n s. rw (levenshtein-edit a b) (edit_least s),
)
