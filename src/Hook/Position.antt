-- ===== src/Hook/Position.antt =====
-- Where a command may start: the position test of runex/src/domain/hook.rs against a description of
-- the lines it accepts.
use runex.Prelude.{
  ℕ, [], ◌∷◌, ◌++◌, none, some, true, false, ◌||◌, ◌≡◌, ◌≢◌, ◌↔◌, refl, sym, subst, ap, ◌∙◌, arith,
  is_empty, append_assoc, Option-cases, Bool-cases, inl, inr,
}
use runex.Text.{Text, codes, text_eq, ends_with, trim_end_char}
use runex.Text.Slices.{text_eq_iff}
use runex.Text.Search.{
  Only, ends_with_sound, ends_with-append, trim_end_char_split, trim_end_char_run,
  trim_end_char-append,
}
use runex.Hook.{
  trim_trailing_spaces, ends_with_pipeline_operator, strip_trailing_sudo, is_command_start,
  is_command_position,
}
use runex.Hook.Words.{WordStart, last_word_split, last_word_split-append}

pub data IsOperator : Text → Type 0 where
  and_list : IsOperator (codes "&&")
  or_list : IsOperator (codes "||")
  pipe : IsOperator (codes "|")
  sequence : IsOperator (codes ";")

-- The line is blank, or its last word that is not blank ends in an operator.
pub data CommandStart : Text → Type 0 where
  of_line : (gap : Text) → Only b' ' gap → CommandStart gap
  behind_operator :
      (a operator gap : Text)
      → IsOperator operator
      → Only b' ' gap
      → CommandStart (a ++ (operator ++ gap))

-- A command may start there, or behind one `sudo` that is a command there.
pub data CommandPosition : Text → Type 0 where
  fresh : (prefix : Text) → CommandStart prefix → CommandPosition prefix
  behind_sudo :
      (a gap : Text)
      → WordStart a
      → CommandStart a
      → Only b' ' gap
      → CommandPosition (a ++ (codes "sudo" ++ gap))

-- A text that ends in another character than a space.
data Ends : Text → Type 0 where
  ends : (i : Text) (d : ℕ) → d ≢ b' ' → Ends (i ++ d ∷ [])

trim-Ends :
    (a w gap : Text) → Ends w → Only b' ' gap → trim_trailing_spaces (a ++ (w ++ gap)) ≡ a ++ w
unfolding trim_trailing_spaces
trim-Ends a _ gap (ends i d ne) only =
    ap (λ t. trim_end_char b' ' (a ++ t)) (append_assoc i (d ∷ []) gap)
    ∙ ap (trim_end_char b' ') (sym (append_assoc a i (d ∷ gap)))
    ∙ trim_end_char-append b' ' (a ++ i) d gap ne only
    ∙ append_assoc a i (d ∷ [])

IsOperator-Ends : {operator : Text} → IsOperator operator → Ends operator
IsOperator-Ends and_list = ends (codes "&") b'&' (ground arith)
IsOperator-Ends or_list = ends (codes "|") b'|' (ground arith)
IsOperator-Ends pipe = ends [] b'|' (ground arith)
IsOperator-Ends sequence = ends [] b';' (ground arith)

operator_found :
    (a operator : Text) → IsOperator operator → ends_with_pipeline_operator (a ++ operator) ≡ true
unfolding ends_with_pipeline_operator
operator_found a _ and_list = ground (arith, ends_with-append a (codes "&&"))
operator_found a _ or_list = ground (arith, ends_with-append a (codes "||"))
operator_found a _ pipe = ground (arith, ends_with-append a (codes "|"))
operator_found a _ sequence = ground (arith, ends_with-append a (codes ";"))

ends_with_pipeline_operator_sound :
    (s : Text)
    → ends_with_pipeline_operator s ≡ true
    → (a : Text) × (operator : Text) × (s ≡ a ++ operator) × IsOperator operator
unfolding ends_with_pipeline_operator
ends_with_pipeline_operator_sound s h = elim (Bool-cases (ends_with (codes "&&") s)) [
  | inl e ↦ let (a, q) = ends_with_sound (codes "&&") s e in (a, codes "&&", q, and_list)
  | inr e1 ↦ elim (Bool-cases (ends_with (codes "||") s)) [
    | inl e ↦ let (a, q) = ends_with_sound (codes "||") s e in (a, codes "||", q, or_list)
    | inr e2 ↦ elim (Bool-cases (ends_with (codes "|") s)) [
      | inl e ↦ let (a, q) = ends_with_sound (codes "|") s e in (a, codes "|", q, pipe)
      | inr e3 ↦
          let (a, q) = ends_with_sound (codes ";") s (ground arith) in (a, codes ";", q, sequence)
    ]
  ]
]

-- The trimmed text with the spaces behind it.
trimmed_split : (s : Text) → (gap : Text) × (s ≡ trim_trailing_spaces s ++ gap) × Only b' ' gap
unfolding trim_trailing_spaces
trimmed_split s = trim_end_char_split b' ' s

is_command_start_sound :
    (s : Text) → is_command_start (trim_trailing_spaces s) ≡ true → CommandStart s
unfolding is_command_start
is_command_start_sound s h =
    let (gap, whole, only) = trimmed_split s in from (trim_trailing_spaces s) gap whole only h
  where
    from :
        (t gap : Text)
        → s ≡ t ++ gap
        → Only b' ' gap
        → (is_empty t || ends_with_pipeline_operator t) ≡ true
        → CommandStart s
    from [] gap whole only h = subst CommandStart (sym whole) (of_line gap only)
    from (c ∷ t) gap whole only h =
        let (a, operator, q, is) = ends_with_pipeline_operator_sound (c ∷ t) h in
        subst CommandStart (sym (whole ∙ ap (λ u. u ++ gap) q ∙ append_assoc a operator gap))
          (behind_operator a operator gap is only)

is_command_start_complete :
    (s : Text) → CommandStart s → is_command_start (trim_trailing_spaces s) ≡ true
unfolding is_command_start
is_command_start_complete _ (of_line s only) = rw (blank s only) refl
  where
    blank : (s : Text) → Only b' ' s → trim_trailing_spaces s ≡ []
    blank s only = unfold trim_trailing_spaces in trim_end_char_run b' ' s only
is_command_start_complete _ (behind_operator a operator gap is only) =
    ground (arith, trim-Ends a operator gap (IsOperator-Ends is) only, operator_found a operator is)

-- Behind the word `sudo`, and what stood before it.
strip_trailing_sudo_sound :
    (s : Text) {before : Text}
    → strip_trailing_sudo s ≡ some before
    → WordStart before × (s ≡ before ++ codes "sudo")
unfolding strip_trailing_sudo
strip_trailing_sudo_sound s {before} h =
    let (a, w, cut, whole, start, lacks) = last_word_split s in
    let is : text_eq w (codes "sudo") ≡ true = ground arith in
    let word : w ≡ codes "sudo" = (text_eq_iff w (codes "sudo")).0 is in
    let front : a ≡ before = ground arith in
    (subst WordStart front start, whole ∙ rw (word, front) refl)

strip_trailing_sudo-append :
    (a : Text) → WordStart a → strip_trailing_sudo (a ++ codes "sudo") ≡ some a
unfolding strip_trailing_sudo text_eq
strip_trailing_sudo-append a start =
    rw (last_word_split-append a (codes "sudo") start (ground arith), strip_trailing_sudo) refl

-- The test on a trimmed line.
position_of :
    (s t : Text)
    → trim_trailing_spaces s ≡ t
    → is_command_position s ≡ (
        is_command_start t || elim (strip_trailing_sudo t) [
          | none ↦ false
          | some before_sudo ↦ is_command_start (trim_trailing_spaces before_sudo)
        ])
unfolding is_command_position is_command_start
position_of s t e = rw (e, is_command_position) (ground arith)

-- The test accepts exactly the lines that are blank or end in a pipeline or list operator, and
-- those that end in one `sudo` behind such a line, with spaces behind.
pub is_command_position_iff :
    (prefix : Text) → (is_command_position prefix ≡ true) ↔ CommandPosition prefix
is_command_position_iff prefix = (forward, backward prefix)
  where
    forward : is_command_position prefix ≡ true → CommandPosition prefix
    forward h = elim (Bool-cases (is_command_start (trim_trailing_spaces prefix))) [
      | inl e ↦ fresh prefix (is_command_start_sound prefix e)
      | inr e ↦ elim (Option-cases (strip_trailing_sudo (trim_trailing_spaces prefix))) [
        | inl missing' ↦
            absurd (ground (arith, position_of prefix (trim_trailing_spaces prefix) refl))
        | inr (before, got) ↦
            let (gap, whole, only) = trimmed_split prefix in
            let (start, word) = strip_trailing_sudo_sound (trim_trailing_spaces prefix) got in
            let begins : is_command_start (trim_trailing_spaces before) ≡ true =
              ground (arith, position_of prefix (trim_trailing_spaces prefix) refl) in
            subst CommandPosition
              (sym (whole ∙ ap (λ u. u ++ gap) word ∙ append_assoc before (codes "sudo") gap))
              (behind_sudo before gap start (is_command_start_sound before begins) only)
      ]
    ]

    backward : (prefix : Text) → CommandPosition prefix → is_command_position prefix ≡ true
    backward _ (fresh p start) =
        position_of p (trim_trailing_spaces p) refl ∙ rw (is_command_start_complete p start) refl
    backward _ (behind_sudo a gap start begins only) = ground (
      arith,
      position_of (a ++ (codes "sudo" ++ gap)) (a ++ codes "sudo")
          (trim-Ends a (codes "sudo") gap (ends (codes "sud") b'o' (ground arith)) only),
      strip_trailing_sudo-append a start,
      is_command_start_complete a begins,
    )
