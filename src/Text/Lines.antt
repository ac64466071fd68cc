-- ===== src/Text/Lines.antt =====
-- `str::lines` of Rust.
use runex.Prelude.{ℕ, List, [], ◌∷◌, ◌++◌, ◌&&◌, ◌==◌, ◌≡◌, refl, if◌then◌else◌, ==_of_ne}
use runex.Text.{Text, starts_with_char}
use runex.Text.Search.{Lacks}

-- A character put into the first line.
abbrev pub onto_first : ℕ → List Text → List Text
onto_first c [] = (c ∷ []) ∷ []
onto_first c (l ∷ ls) = (c ∷ l) ∷ ls

-- A line ends at a line feed or at a carriage return with a line feed behind; the last one need not.
unfoldable pub lines : Text → List Text
lines [] = []
lines (c ∷ s) =
    let rest = lines s in
    if c == 0x0A
    then [] ∷ rest
    else if c == 0x0D && starts_with_char 0x0A s
    then rest
    else onto_first c rest

pub lines-append : (l s : Text) → Lacks 0x0A l → Lacks 0x0D l → lines (l ++ 0x0A ∷ s) ≡ l ∷ lines s
unfolding lines
lines-append [] s h k = refl
lines-append (c ∷ l) s (ne, h) (ne', k) =
    rw (==_of_ne c 0x0A ne, ==_of_ne c 0x0D ne', lines-append l s h k) refl
