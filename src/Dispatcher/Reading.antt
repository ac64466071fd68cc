-- ===== src/Dispatcher/Reading.antt =====
-- What bash reads the tables of runex/src/app/bash_static_dispatcher.rs as.
use runex.Prelude.{
  ℕ, zero, suc, ◌+◌, ◌-◌, ◌*◌, List, [], ◌∷◌, ◌++◌, Option, none, some, Bool, ◌≡◌, refl, ap, ◌||◌,
  ◌==◌, not, arith, All, keep, map, if◌then◌else◌, append_assoc, Bool-cases, Option-cases, inl, inr,
  is_some, subst, >>=-eq_some,
}
use runex.Text.{Text, in_range, contains_char, split_once_text}
use runex.Model.{bash, string_for_shell, Abbr, Config}
use runex.Expand.Keys.{number_placeholder}
use runex.Shell.{each_char}
use runex.Shell.Reading.{one_if}
use runex.Dispatcher.{
  join, is_double_quote_special, is_dropped_in_table, assoc_char, bash_double_quote_for_assoc, sep,
  table_line, newline, block, rows_of, baked, bash_conditions, exact_row, pattern_row, glob_row,
  is_glob, exact_table_lines, pattern_table_lines, glob_table_lines,
}

-- Where bash stands in the words of an array: between words, in a word outside quotes, inside `"…"`,
-- behind a backslash there, behind a `$`, inside `$'…'`, and behind a backslash there with so many
-- octal digits to come.
pub data Mode : Type 0 where
  between word double double_escaped dollar ansi : Mode
  octal : ℕ → ℕ → Mode

-- A character put into the first word.
abbrev pub put_in : ℕ → Option (List Text) → Option (List Text)
put_in c none = none
put_in c (some []) = none
put_in c (some (w ∷ ws)) = some ((c ∷ w) ∷ ws)

abbrev pub end_word : Option (List Text) → Option (List Text)
end_word none = none
end_word (some ws) = some ([] ∷ ws)

abbrev pub is_blank : ℕ → Bool
is_blank c = c == 0x20 || c == 0x0A

-- The words of an array that are written with `"…"` and `$'\ooo'` alone.
unfoldable pub bash_array : Mode → Text → Option (List Text)
bash_array between [] = some []
bash_array word [] = some ([] ∷ [])
bash_array _ [] = none
bash_array between (c ∷ s) =
    let on = bash_array between s in
    let open_quote = bash_array double s in
    let dollar_sign = bash_array dollar s in
    if is_blank c
    then on
    else if c == b'"'
    then open_quote
    else if c == b'$'
    then dollar_sign
    else none
bash_array word (c ∷ s) =
    let done = end_word (bash_array between s) in
    let open_quote = bash_array double s in
    let dollar_sign = bash_array dollar s in
    if is_blank c
    then done
    else if c == b'"'
    then open_quote
    else if c == b'$'
    then dollar_sign
    else none
bash_array double (c ∷ s) =
    let close_quote = bash_array word s in
    let backslash = bash_array double_escaped s in
    let inner = put_in c (bash_array double s) in
    if c == b'"'
    then close_quote
    else if c == b'\\'
    then backslash
    else if c == b'$' || c == b'`'
    then none
    else inner
bash_array double_escaped (c ∷ s) =
    let special = put_in c (bash_array double s) in
    let other = put_in b'\\' (put_in c (bash_array double s)) in
    if is_double_quote_special c then special else if c == 0x0A then none else other
bash_array dollar (c ∷ s) =
    let open_quote = bash_array ansi s in if c == b'\'' then open_quote else none
bash_array ansi (c ∷ s) =
    let close_quote = bash_array word s in
    let backslash = bash_array (octal 3 0) s in
    let inner = put_in c (bash_array ansi s) in
    if c == b'\'' then close_quote else if c == b'\\' then backslash else inner
bash_array (octal zero value) (c ∷ s) = none
bash_array (octal (suc zero) value) (c ∷ s) =
    let done = put_in (8 * value + (c - b'0')) (bash_array ansi s) in
    if in_range b'0' b'7' c then done else none
bash_array (octal (suc (suc n)) value) (c ∷ s) =
    let on = bash_array (octal (suc n) (8 * value + (c - b'0'))) s in
    if in_range b'0' b'7' c then on else none

abbrev pub put_text : Text → Option (List Text) → Option (List Text)
put_text [] o = o
put_text (c ∷ t) o = put_in c (put_text t o)

put_text-append :
    (a b : Text) (o : Option (List Text)) → put_text (a ++ b) o ≡ put_text a (put_text b o)
put_text-append [] b o = refl
put_text-append (c ∷ a) b o = ap (put_in c) (put_text-append a b o)

-- A character of a field, and what stands for it in the table.
abbrev pub is_kept : ℕ → Bool
is_kept c = is_double_quote_special c || not (is_dropped_in_table c)

read-assoc_char :
    (c : ℕ) (rest : Text)
    → bash_array double (assoc_char c ++ rest)
      ≡ put_text (one_if is_kept c) (bash_array double rest)
unfolding bash_array assoc_char
read-assoc_char c rest = elim (Bool-cases (is_double_quote_special c)) [
  | inl special ↦ ground arith
  | inr plain ↦ elim (Bool-cases (is_dropped_in_table c)) [
    | inl dropped ↦ ground arith
    | inr kept ↦ ground arith
  ]
]

put_text-one_if :
    (p : ℕ → Bool) (c : ℕ) (s : Text) (o : Option (List Text))
    → put_text (one_if p c) (put_text (keep p s) o) ≡ put_text (keep p (c ∷ s)) o
put_text-one_if p c s o = ground arith

read-field :
    (s rest : Text)
    → bash_array double (each_char assoc_char s ++ rest)
      ≡ put_text (keep is_kept s) (bash_array double rest)
read-field [] rest = refl
read-field (c ∷ s) rest =
    rw (append_assoc, read-assoc_char c _, read-field s rest)
      (put_text-one_if is_kept c s (bash_array double rest))

-- A quoted field, where a word stands or begins.
read-quoted :
    (s rest : Text)
    → bash_array word (bash_double_quote_for_assoc s ++ rest)
      ≡ put_text (keep is_kept s) (bash_array word rest)
unfolding bash_array bash_double_quote_for_assoc
read-quoted s rest = rw append_assoc (read-field s (b'"' ∷ rest))

read-quoted_first :
    (s rest : Text)
    → bash_array between (bash_double_quote_for_assoc s ++ rest)
      ≡ put_text (keep is_kept s) (bash_array word rest)
unfolding bash_array bash_double_quote_for_assoc
read-quoted_first s rest = rw append_assoc (read-field s (b'"' ∷ rest))

-- The value of an entry: the kept characters of its fields, with a separator between two.
abbrev pub us : ℕ
us = 0x1F

abbrev pub entry : List Text → Text
entry fields = join (us ∷ []) (map (keep is_kept) fields)

read-sep : (rest : Text) → bash_array word (sep ++ rest) ≡ put_in us (bash_array word rest)
unfolding bash_array
read-sep rest = refl

read-fields :
    (f : Text) (fs : List Text) (rest : Text)
    → bash_array word (join sep (map bash_double_quote_for_assoc (f ∷ fs)) ++ rest)
      ≡ put_text (entry (f ∷ fs)) (bash_array word rest)
read-fields f [] rest = read-quoted f rest
read-fields f (g ∷ fs) rest =
    rw
      (
        append_assoc,
        read-quoted f _,
        append_assoc,
        read-sep,
        read-fields g fs rest,
        put_text-append,
      )
      refl

read-first :
    (f : Text) (fs : List Text) (rest : Text)
    → bash_array between (join sep (map bash_double_quote_for_assoc (f ∷ fs)) ++ rest)
      ≡ put_text (entry (f ∷ fs)) (bash_array word rest)
read-first f [] rest = read-quoted_first f rest
read-first f (g ∷ fs) rest =
    rw
      (
        append_assoc,
        read-quoted_first f _,
        append_assoc,
        read-sep,
        read-fields g fs rest,
        put_text-append,
      )
      refl

read-indented :
    (s : Text) → bash_array between (0x20 ∷ 0x20 ∷ 0x20 ∷ 0x20 ∷ s) ≡ bash_array between s
unfolding bash_array
read-indented s = refl

read-line_end : (s : Text) → bash_array word (newline ++ s) ≡ end_word (bash_array between s)
unfolding bash_array
read-line_end s = refl

put_text-end_word : (t : Text) (ws : List Text) → put_text t (end_word (some ws)) ≡ some (t ∷ ws)
put_text-end_word [] ws = refl
put_text-end_word (c ∷ t) ws = ap (put_in c) (put_text-end_word t ws)

-- A row has a field.
abbrev pub IsRow : List Text → Type 0
IsRow [] = ⊥
IsRow (f ∷ fs) = Unit

read-line :
    (fields : List Text) (rest : Text) {ws : List Text}
    → IsRow fields
    → bash_array between rest ≡ some ws
    → bash_array between (table_line fields ++ (newline ++ rest)) ≡ some (entry fields ∷ ws)
read-line [] rest h e = absurd h
read-line (f ∷ fs) rest {ws} h e =
    rw (read-indented, read-first f fs _, read-line_end rest, e)
      (put_text-end_word (entry (f ∷ fs)) ws)

read-lines :
    (rows : List (List Text))
    → All IsRow rows
    → bash_array between (join newline (map table_line rows) ++ newline) ≡ some (map entry rows)
unfolding bash_array
read-lines [] h = refl
read-lines (r ∷ []) (h, _) = read-line r [] h refl
read-lines (r ∷ q ∷ rows) (h, hs) =
    rw (append_assoc) (rw (append_assoc) (read-line r _ h (read-lines (q ∷ rows) hs)))

read-newline : (s : Text) → bash_array between (newline ++ s) ≡ bash_array between s
unfolding bash_array
read-newline s = refl

-- Bash reads the block of a table as one entry for each of its rows.
pub read-block :
    (rows : List (List Text))
    → All IsRow rows
    → bash_array between (block (join newline (map table_line rows))) ≡ some (map entry rows)
unfolding bash_array
read-block [] h = refl
read-block (r ∷ []) h = rw read-newline (read-lines (r ∷ []) h)
read-block (r ∷ q ∷ rows) h = rw read-newline (read-lines (r ∷ q ∷ rows) h)

module _ (row : Abbr → Option (List Text))
    (is_row : (r : Abbr) (fields : List Text) → row r ≡ some fields → IsRow fields) where
  rows_of-IsRow : (rules : List Abbr) → All IsRow (rows_of row rules)
  rows_of-IsRow [] = tt
  rows_of-IsRow (r ∷ rules) = elim (Option-cases (row r)) [
    | inl e ↦ rw (e, rows_of) (rows_of-IsRow rules)
    | inr (fields, e) ↦ rw (e, rows_of) (is_row r fields e, rows_of-IsRow rules)
  ]

baked-IsRow :
    (r : Abbr) (make : Text → Text → List Text)
    → ((t c : Text) → IsRow (make t c))
    → (fields : List Text) → baked r make ≡ some fields
    → IsRow fields
baked-IsRow r make h fields e =
    let (t, _, e1) = >>=-eq_some (string_for_shell r.expand bash) _ e in
    let (c, _, e2) = >>=-eq_some (bash_conditions r) _ e1 in
    let same : make t c ≡ fields = ground (arith, e2) in subst IsRow same (h t c)

exact_row-IsRow : (r : Abbr) (fields : List Text) → exact_row r ≡ some fields → IsRow fields
unfolding exact_row
exact_row-IsRow r fields e = elim (Bool-cases (contains_char b'{' r.key || is_some r.match_kind)) [
  | inl other ↦ absurd (ground (arith, other, e))
  | inr plain ↦ baked-IsRow r _ (λ t c. tt) fields (rw (plain, exact_row) at e)
]

pattern_row-IsRow : (r : Abbr) (fields : List Text) → pattern_row r ≡ some fields → IsRow fields
unfolding pattern_row
pattern_row-IsRow r fields e = elim (Bool-cases (is_some r.match_kind)) [
  | inl other ↦ absurd (ground (arith, other, e))
  | inr plain ↦
      let (u, _, e1) = >>=-eq_some r.number _ (rw (plain, pattern_row) at e) in
      let (sides, _, e2) = >>=-eq_some (split_once_text number_placeholder r.key) _ e1 in
      baked-IsRow r _ (λ t c. tt) fields e2
]

glob_row-IsRow : (r : Abbr) (fields : List Text) → glob_row r ≡ some fields → IsRow fields
unfolding glob_row
glob_row-IsRow r fields e = elim (Bool-cases (is_glob r.match_kind)) [
  | inr other ↦ absurd (ground (arith, other, e))
  | inl plain ↦ baked-IsRow r _ (λ t c. tt) fields (rw (plain, glob_row) at e)
]

-- Bash reads each table of the dispatcher as one entry for each rule of that table, in the order of
-- the configuration: the kept characters of the rule's fields, with a separator between two.
pub read-tables :
    (config : Config)
    → (bash_array between (block (exact_table_lines config))
        ≡ some (map entry (rows_of exact_row config.abbr)))
      × (bash_array between (block (pattern_table_lines config))
          ≡ some (map entry (rows_of pattern_row config.abbr)))
      × (bash_array between (block (glob_table_lines config))
          ≡ some (map entry (rows_of glob_row config.abbr)))
unfolding exact_table_lines pattern_table_lines glob_table_lines
read-tables config = (
  read-block _ (rows_of-IsRow exact_row exact_row-IsRow config.abbr),
  read-block _ (rows_of-IsRow pattern_row pattern_row-IsRow config.abbr),
  read-block _ (rows_of-IsRow glob_row glob_row-IsRow config.abbr),
)
