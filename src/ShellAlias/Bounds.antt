-- ===== src/ShellAlias/Bounds.antt =====
-- What runex/src/infra/shell_alias.rs keeps of a listing is bounded.
use runex.Prelude.{
  ℕ, zero, suc, ◌+◌, ◌≤◌, List, [], ◌∷◌, Option, none, some, ltb, ◌≡◌, refl, arith, All, length,
  take, Bool-cases, inl, inr,
}
use runex.Text.{Text, byte_len, trim}
use runex.Text.Lines.{lines}
use runex.ShellAlias.{
  Aliases, insert_alias, insert_found, insert_lines, pwsh_entry, bash_entry, parse_pwsh_alias_lines,
  parse_bash_alias_lines, max_alias_lines, max_alias_key_bytes, max_alias_value_bytes,
}
use runex.ShellAlias.Truncate.{truncate_to_limit_lem}

abbrev pub IsSmall : Text × Text → Type 0
IsSmall alias =
    (byte_len alias.0 ≤ max_alias_key_bytes) × (byte_len alias.1 ≤ max_alias_value_bytes)

-- The run answers with a map of at most so many entries, each within the limits.
abbrev pub Bounded : ℕ → Option Aliases → Type 0
Bounded n o = (m : Aliases) × (o ≡ some m) × (length m ≤ n) × All IsSmall m

insert_alias-Bounded :
    (m : Aliases) (entry : Text × Text)
    → All IsSmall m
    → Bounded (suc (length m)) (insert_alias m entry)
unfolding insert_alias
insert_alias-Bounded m (name, definition) h =
    elim (Bool-cases (ltb max_alias_key_bytes (byte_len (trim name)))) [
      | inl long ↦ (m, rw (long, insert_alias) refl, omega arith, h)
      | inr short ↦
          let (value, cut, fits) = truncate_to_limit_lem (trim definition) max_alias_value_bytes in
          (
            (trim name, value) ∷ m,
            rw (short, insert_alias, cut) refl,
            omega arith,
            ((ground arith, fits.fits), h),
          )
    ]

insert_found-Bounded :
    (m : Aliases) (entry : Option (Text × Text))
    → All IsSmall m
    → Bounded (suc (length m)) (insert_found m entry)
insert_found-Bounded m none h = (m, refl, omega arith, h)
insert_found-Bounded m (some entry) h = insert_alias-Bounded m entry h

insert_lines-Bounded :
    (entry : Text → Option (Text × Text)) (ls : List Text) (m : Aliases)
    → All IsSmall m
    → Bounded (length ls + length m) (insert_lines entry m ls)
unfolding insert_lines
insert_lines-Bounded entry [] m h = (m, refl, omega arith, h)
insert_lines-Bounded entry (l ∷ ls) m h =
    let (next, now, few, small) = insert_found-Bounded m (entry l) h in
    let (last, later, few', small') = insert_lines-Bounded entry ls next small in
    (last, rw (now, insert_lines) later, omega arith, small')

at_most : (n : ℕ) (ls : List Text) → length (take n ls) ≤ n
at_most zero [] = omega arith
at_most zero (l ∷ ls) = omega arith
at_most (suc n) [] = omega arith
at_most (suc n) (l ∷ ls) = omega (arith, at_most n ls)

-- Whatever a shell prints, reading its aliases does not panic and ends with at most 10000 of them, whose
-- names have at most 1024 bytes and whose values have at most 65536.
pub parse_alias_lines-Bounded :
    (stdout : Text)
    → Bounded max_alias_lines (parse_bash_alias_lines stdout)
      × Bounded max_alias_lines (parse_pwsh_alias_lines stdout)
unfolding parse_bash_alias_lines parse_pwsh_alias_lines
parse_alias_lines-Bounded stdout =
    let few = at_most max_alias_lines (lines stdout) in
    let (m, is, n, small) =
      insert_lines-Bounded bash_entry (take max_alias_lines (lines stdout)) [] tt in
    let (m', is', n', small') =
      insert_lines-Bounded pwsh_entry (take max_alias_lines (lines stdout)) [] tt in
    ((m, is, omega arith, small), (m', is', omega arith, small'))
