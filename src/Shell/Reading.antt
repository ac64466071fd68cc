-- ===== src/Shell/Reading.antt =====
-- Reading a quoted text, for any reader that passes over what stands for each character.
use runex.Prelude.{
  ℕ, [], ◌∷◌, ◌++◌, Option, none, some, Bool, ◌≡◌, refl, arith, All, All-append, All-of, keep,
  if◌then◌else◌, append_assoc, append-nil, ap,
}
use runex.Text.{Text, put}
use runex.Shell.{each_char}

abbrev pub put_all : Text → Option Text → Option Text
put_all a none = none
put_all a (some s) = some (a ++ s)

pub put_all_append : (a b : Text) (o : Option Text) → put_all a (put_all b o) ≡ put_all (a ++ b) o
put_all_append a b none = refl
put_all_append a b (some s) = rw append_assoc

pub put_all_nil : (o : Option Text) → o ≡ put_all [] o
put_all_nil none = refl
put_all_nil (some s) = refl

pub put-put_all : (c : ℕ) (o : Option Text) → put c o ≡ put_all (c ∷ []) o
put-put_all c none = refl
put-put_all c (some s) = refl

module _ {κ} (read : Text → Option Text) (f g : ℕ → Text) (P : ℕ → Type κ)
    (step : (c : ℕ) (rest : Text) → P c → read (f c ++ rest) ≡ put_all (g c) (read rest)) where
  read-each :
      (s end : Text) → All P s → read (each_char f s ++ end) ≡ put_all (each_char g s) (read end)
  read-each [] end h = put_all_nil (read end)
  read-each (c ∷ s) end (p, h) = rw (append_assoc, step c _ p, read-each s end h, put_all_append)

  -- `end` is what closes the literal.
  pub read-each_char :
      (s end : Text)
      → read end ≡ some []
      → All P s
      → read (each_char f s ++ end) ≡ some (each_char g s)
  read-each_char s end closed h = rw (read-each s end h, closed) (ap some (append-nil _))

abbrev pub one : ℕ → Text
one c = c ∷ []

abbrev pub one_if : (ℕ → Bool) → ℕ → Text
one_if kept c = if kept c then c ∷ [] else []

pub each_char-one : (s : Text) → each_char one s ≡ s
each_char-one [] = refl
each_char-one (c ∷ s) = ap (λ t. c ∷ t) (each_char-one s)

pub each_char-one_if : (kept : ℕ → Bool) (s : Text) → each_char (one_if kept) s ≡ keep kept s
each_char-one_if kept [] = refl
each_char-one_if kept (c ∷ s) = ground (arith, each_char-one_if kept s)

pub each_char-All {κ} :
    (P : ℕ → Type κ) (f : ℕ → Text) → ((c : ℕ) → All P (f c)) → (s : Text) → All P (each_char f s)
each_char-All P f h [] = tt
each_char-All P f h (c ∷ s) = All-append P (f c) (each_char f s) (h c) (each_char-All P f h s)

abbrev pub Any : ℕ → Type 0
Any c = Unit

pub All-Any : (s : Text) → All Any s
All-Any s = All-of Any (λ _. tt) s
