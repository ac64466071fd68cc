-- ===== src/Text/Search.antt =====
-- Searching and trimming: where a result stands in the text.
use runex.Prelude.{
  ℕ, suc, ◌≤◌, [], ◌∷◌, ◌++◌, Option, none, some, true, false, ◌==◌, ◌≡◌, ◌≢◌, refl, sym, inl, inr,
  arith, if◌then◌else◌, Bool-cases, Option-cases, ap, ◌↔◌, All, is_empty, eq_of_==, ne_of_==,
  ==_of_ne, length, length-append,
}
use runex.Text.{
  Text, byte_len, text_eq, contains_char, split_once_char, split_once_text, strip_prefix,
  strip_suffix, ends_with, behind_or_here, rfind_char, trim_end_char, is_whitespace, trim_end, trim,
}
use runex.Text.Slices.{text_eq_iff, text_eq_refl}

-- No character of the text is `c`; each one is.
abbrev pub Lacks : ℕ → Text → Type 0
Lacks c = All (λ d. d ≢ c)

abbrev pub Only : ℕ → Text → Type 0
Only c = All (λ d. d ≡ c)

pub contains_char-Lacks : (c : ℕ) (s : Text) → contains_char c s ≡ false → Lacks c s
contains_char-Lacks c [] h = tt
contains_char-Lacks c (d ∷ s) h = (ground arith, contains_char-Lacks c s (ground arith))

pub strip_prefix_sound : (p s : Text) {r : Text} → strip_prefix p s ≡ some r → s ≡ p ++ r
unfolding strip_prefix
strip_prefix_sound [] s h = ground arith
strip_prefix_sound (p ∷ ps) [] h = cc
strip_prefix_sound (p ∷ ps) (c ∷ s) {r} h = ground (arith, strip_prefix_sound ps s {r = r})

pub strip_prefix-append : (p r : Text) → strip_prefix p (p ++ r) ≡ some r
unfolding strip_prefix
strip_prefix-append [] r = refl
strip_prefix-append (p ∷ ps) r = ground (arith, strip_prefix-append ps r)

pub strip_suffix_sound : (x s : Text) {a : Text} → strip_suffix x s ≡ some a → s ≡ a ++ x
unfolding strip_suffix
strip_suffix_sound [] [] h = ground arith
strip_suffix_sound (y ∷ x) [] h = cc
strip_suffix_sound x (c ∷ s) {a} h = elim (Option-cases (strip_suffix x s)) [
  | inl e ↦ ground (arith, text_eq_iff x (c ∷ s))
  | inr (a', e) ↦ ground (arith, text_eq_iff x (c ∷ s), strip_suffix_sound x s e)
]

text_eq-longer : (x a : Text) (c : ℕ) → text_eq x (c ∷ (a ++ x)) ≡ false
text_eq-longer x a c = elim (Bool-cases (text_eq x (c ∷ (a ++ x)))) [
  | inl e ↦
      absurd (omega (arith, ap length ((text_eq_iff x (c ∷ (a ++ x))).0 e), length-append {0} a x))
  | inr e ↦ e
]

pub strip_suffix-append : (a x : Text) → strip_suffix x (a ++ x) ≡ some a
unfolding strip_suffix
strip_suffix-append [] [] = refl
strip_suffix-append [] (y ∷ x) = rw (text_eq_refl (y ∷ x))
strip_suffix-append (c ∷ a) x = rw (text_eq-longer x a c, strip_suffix-append a x)

pub ends_with_sound : (x s : Text) → ends_with x s ≡ true → (p : Text) × (s ≡ p ++ x)
unfolding ends_with
ends_with_sound [] [] h = ([], refl)
ends_with_sound (y ∷ x) [] h = cc
ends_with_sound x (c ∷ s) h = elim (Bool-cases (text_eq x (c ∷ s))) [
  | inl e ↦ ([], sym ((text_eq_iff x (c ∷ s)).0 e))
  | inr e ↦ let (p, q) = ends_with_sound x s (rw e at h) in (c ∷ p, ap (λ t. c ∷ t) q)
]

pub ends_with-append : (p x : Text) → ends_with x (p ++ x) ≡ true
unfolding ends_with
ends_with-append [] [] = refl
ends_with-append [] (y ∷ x) = rw (text_eq_refl (y ∷ x))
ends_with-append (c ∷ p) x = ground (arith, ends_with-append p x)

-- `split_once(c)` cuts at the first `c`, and fails where there is none.
pub split_once_char_sound :
    (c : ℕ) (s : Text) {a b : Text}
    → split_once_char c s ≡ some (a, b)
    → (s ≡ a ++ c ∷ b) × Lacks c a
unfolding split_once_char
split_once_char_sound c [] h = cc
split_once_char_sound c (d ∷ s) h = elim (Option-cases (split_once_char c s)) [
  | inl e ↦ ground arith
  | inr ((a', b'), e) ↦ ground (arith, split_once_char_sound c s e)
]

pub split_once_char-none : (c : ℕ) (s : Text) → split_once_char c s ≡ none → Lacks c s
unfolding split_once_char
split_once_char-none c [] h = tt
split_once_char-none c (d ∷ s) h = elim (Option-cases (split_once_char c s)) [
  | inl e ↦ (ground arith, split_once_char-none c s e)
  | inr (_, e) ↦ absurd (ground arith)
]

pub split_once_text_sound :
    (needle s : Text) {a b : Text} → split_once_text needle s ≡ some (a, b) → s ≡ a ++ (needle ++ b)
unfolding split_once_text
split_once_text_sound [] [] h = ground arith
split_once_text_sound (n ∷ ns) [] h = cc
split_once_text_sound needle (c ∷ s) h = elim (Option-cases (strip_prefix needle (c ∷ s))) [
  | inl e ↦ elim (Option-cases (split_once_text needle s)) [
    | inl e' ↦ ground arith
    | inr ((a', b'), e') ↦ ground (arith, split_once_text_sound needle s e')
  ]
  | inr (after, e) ↦ ground (arith, strip_prefix_sound needle (c ∷ s) e)
]

-- No occurrence of `needle` in `s` starts before the end of `a`.
abbrev pub IsFirst : Text → Text → Text → Type 0
IsFirst needle s a = (p q : Text) → s ≡ p ++ (needle ++ q) → length a ≤ length p

-- Past a character at which there is none.
one_later :
    (needle s q : Text) (c k : ℕ) (p : Text)
    → c ∷ s ≡ p ++ (needle ++ q)
    → strip_prefix needle (c ∷ s) ≡ none
    → ((p' : Text) → s ≡ p' ++ (needle ++ q) → k ≤ length p')
    → suc k ≤ length p
one_later needle s q c k [] e elsewhere h =
    absurd (ground (arith, strip_prefix-append needle q, ap (strip_prefix needle) e))
one_later needle s q c k (d ∷ p) e elsewhere h = omega (arith, h p (cc))

-- `find(needle)` finds the first occurrence.
pub split_once_text_first :
    (needle s : Text) {a b : Text}
    → split_once_text needle s ≡ some (a, b)
    → (p q : Text) → s ≡ p ++ (needle ++ q)
    → length a ≤ length p
unfolding split_once_text
split_once_text_first [] [] h p q e = ground arith
split_once_text_first (n ∷ ns) [] h p q e = cc
split_once_text_first needle (c ∷ s) {a} h p q e =
    elim (Option-cases (strip_prefix needle (c ∷ s))) [
      | inr (after, here) ↦ ground arith
      | inl elsewhere ↦ elim (Option-cases (split_once_text needle s)) [
        | inl e' ↦ ground arith
        | inr ((a', b'), e') ↦
            let whole : a ≡ c ∷ a' = ground arith in
            rw whole (
              one_later needle s q c (length a') p e elsewhere
                (λ p'. split_once_text_first needle s e' p' q))
      ]
    ]

-- Where `rfind(c)` finds the last `c`: nothing behind it is a `c`.
pub data LastChar (c : ℕ) (s : Text) : Option ℕ → Type 0 where
  missing : Lacks c s → LastChar c s none
  found : (a b : Text) → s ≡ a ++ c ∷ b → Lacks c b → LastChar c s (some (byte_len a))

LastChar-cons :
    (c d : ℕ) {s : Text} {o : Option ℕ} → LastChar c s o → LastChar c (d ∷ s) (behind_or_here c d o)
LastChar-cons c d {s} (missing lacks) = elim (Bool-cases (d == c)) [
  | inl e ↦ rw e (found [] s (rw (eq_of_== d c e)) lacks)
  | inr e ↦ rw e (missing (ne_of_== d c e, lacks))
]
LastChar-cons c d (found a b whole lacks) = found (d ∷ a) b (ap (λ t. d ∷ t) whole) lacks

pub rfind_char-LastChar : (c : ℕ) (s : Text) → LastChar c s (rfind_char c s)
unfolding rfind_char
rfind_char-LastChar c [] = missing tt
rfind_char-LastChar c (d ∷ s) = LastChar-cons c d (rfind_char-LastChar c s)

-- `trim_end_matches(c)` takes off a run of `c`.
pub trim_end_char_split : (c : ℕ) (s : Text) → (t : Text) × (s ≡ trim_end_char c s ++ t) × Only c t
unfolding trim_end_char
trim_end_char_split c [] = ([], refl, tt)
trim_end_char_split c (d ∷ s) =
    let (t, whole, only) = trim_end_char_split c s in keep_or_drop (trim_end_char c s) t whole only
  where
    keep_or_drop :
        (r t : Text)
        → s ≡ r ++ t
        → Only c t
        → (t' : Text) × (d ∷ s
            ≡ (elim r [ [] ↦ if d == c then [] else d ∷ [] | e ∷ u ↦ d ∷ e ∷ u ]) ++ t')
          × Only c t'
    keep_or_drop [] t whole only = elim (Bool-cases (d == c)) [
      | inl e ↦ (d ∷ t, ground arith, (eq_of_== d c e, only))
      | inr e ↦ (t, ground arith, only)
    ]
    keep_or_drop (e ∷ u) t whole only = (t, ground arith, only)

pub trim_end_char_run : (c : ℕ) (t : Text) → Only c t → trim_end_char c t ≡ []
unfolding trim_end_char
trim_end_char_run c [] only = refl
trim_end_char_run c (d ∷ t) (e, only) = ground (arith, trim_end_char_run c t only)

-- What is left does not end in `c`.
pub trim_end_char-append :
    (c : ℕ) (s : Text) (d : ℕ) (t : Text)
    → d ≢ c
    → Only c t
    → trim_end_char c (s ++ d ∷ t) ≡ s ++ d ∷ []
unfolding trim_end_char
trim_end_char-append c [] d t h only = ground (arith, trim_end_char_run c t only, ==_of_ne d c h)
trim_end_char-append c (e ∷ []) d t h only = ground (arith, trim_end_char-append c [] d t h only)
trim_end_char-append c (e ∷ f ∷ s) d t h only =
    ground (arith, trim_end_char-append c (f ∷ s) d t h only)

-- Every character of the text is white space.
abbrev pub IsBlank : Text → Type 0
IsBlank = All (λ c. is_whitespace c ≡ true)

trim_end_keeps : (c : ℕ) (s : Text) → is_whitespace c ≡ false → is_empty (trim_end (c ∷ s)) ≡ false
unfolding trim_end
trim_end_keeps c s h = ground arith

-- `trim().is_empty()` says that all of the text is white space.
pub trim_empty_iff : (s : Text) → (is_empty (trim s) ≡ true) ↔ IsBlank s
unfolding trim
trim_empty_iff [] = (λ _. tt, λ _. refl)
trim_empty_iff (c ∷ s) = elim (Bool-cases (is_whitespace c)) [
  | inl e ↦ ground (arith, trim_empty_iff s)
  | inr e ↦ ground (arith, trim_end_keeps c s e)
]

pub split_once_char-append :
    (c : ℕ) (a b : Text) → Lacks c a → split_once_char c (a ++ c ∷ b) ≡ some (a, b)
unfolding split_once_char
split_once_char-append c [] b h = ground arith
split_once_char-append c (d ∷ a) b (ne, h) = ground (arith, split_once_char-append c a b h)

pub split_once_char_missing : (c : ℕ) (s : Text) → Lacks c s → split_once_char c s ≡ none
unfolding split_once_char
split_once_char_missing c [] h = refl
split_once_char_missing c (d ∷ s) (ne, h) = ground (arith, split_once_char_missing c s h)

-- A needle whose first character does not stand before it is found where it stands.
pub split_once_text-append :
    (n : ℕ) (ns a b : Text)
    → Lacks n a
    → split_once_text (n ∷ ns) (a ++ ((n ∷ ns) ++ b)) ≡ some (a, b)
unfolding split_once_text
split_once_text-append n ns [] b h = rw (strip_prefix-append (n ∷ ns) b, split_once_text)
split_once_text-append n ns (d ∷ a) b (ne, h) =
    ground (arith, other_head n ns d (a ++ (n ∷ (ns ++ b))) ne, split_once_text-append n ns a b h)
  where
    other_head :
        (n : ℕ) (ns : Text) (d : ℕ) (s : Text) → d ≢ n → strip_prefix (n ∷ ns) (d ∷ s) ≡ none
    other_head n ns d s ne = unfold strip_prefix in ground arith
