-- ===== src/Dispatcher/Accepted.antt =====
-- What the script's tables keep of a rule that runex/src/app/config.rs accepts.
use runex.Prelude.{
  ℕ, ◌≤◌, List, [], ◌∷◌, Option, none, some, true, false, ◌≡◌, refl, subst, arith, All, All-append,
  Option-cases, inl, inr,
}
use runex.Text.{Text, is_ascii_control, count_char}
use runex.Sanitize.{is_deceptive_unicode, is_unicode_line_separator}
use runex.Model.{
  bash, by_shell, all_shells, PerShellCmds, PerShellString, or_else, present, string_for_shell,
  string_all_values, cmds_for_shell, cmds_all_values, Abbr, glob, regex,
}
use runex.Expand.Keys.{same_phase, phase_of, globbed, number}
use runex.Expand.Rules.{required}
use runex.Validate.Checks.{max_expand_bytes}
use runex.Validate.Quiet.{IsClean}
use runex.Validate.Commands.{IsCommandName, IsCommandList, CommandsOnly}
use runex.Validate.Numbers.{NumberOnly}
use runex.Validate.Rules.{IsAccepted, GlobOnly}
use runex.Dispatcher.{join}
use runex.Dispatcher.Reading.{is_kept}
use runex.Dispatcher.Fields.{IsKept}
use runex.Dispatcher.Conds.{IsName}
use runex.Dispatcher.Bakeable.{IsBakeable}

abbrev pub IsOneLine : Text → Type 0
IsOneLine s = All (λ c. is_unicode_line_separator c ≡ false) s

-- None of the texts of the rule has a line separator of Unicode.
pub record IsOneLineRule (r : Abbr) : Type 0 where
  pub key_line : IsOneLine r.key
  pub value_lines : All IsOneLine (string_all_values r.expand)
  pub unit_line : (u : Text) → r.number ≡ some u → IsOneLine u
  pub cmd_lines :
      (cmds : PerShellCmds)
      → r.when_command_exists ≡ some cmds
      → All (All IsOneLine) (cmds_all_values cmds)

IsKept-of :
    (s : Text)
    → All (λ c. is_ascii_control c ≡ false) s
    → All (λ c. is_deceptive_unicode c ≡ false) s
    → IsOneLine s
    → IsKept s
IsKept-of [] printable honest line = tt
IsKept-of (c ∷ s) (p, ps) (h, hs) (l, ls) = (ground (arith, p, h, l), IsKept-of s ps hs ls)

clean-IsKept : {n : ℕ} (s : Text) → IsClean n s → IsOneLine s → IsKept s
clean-IsKept s clean line = IsKept-of s clean.printable clean.honest line

-- The entry for bash is one of the values.
module _ {ℓ κ} {A : Type ℓ} (P : A → Type κ) where
  entry_of_both :
      (b d : Option A) (rest : List (Option A)) {a : A}
      → All P (present (d ∷ b ∷ rest))
      → or_else b d ≡ some a
      → P a
  entry_of_both (some x) (some y) rest (_, hs) e = subst P (ground (arith, e)) hs.0
  entry_of_both (some x) none rest (h, _) e = subst P (ground (arith, e)) h
  entry_of_both none (some y) rest (h, _) e = subst P (ground (arith, e)) h
  entry_of_both none none rest h e = cc

value_of {κ} :
    (P : Text → Type κ) (e : PerShellString) {t : Text}
    → All P (string_all_values e)
    → string_for_shell e bash ≡ some t
    → P t
unfolding string_all_values string_for_shell
value_of P (all_shells s) (h, _) e = subst P (ground (arith, e)) h
value_of P (by_shell b) h e = entry_of_both P b.bash_entry b.default _ h e

cmds_of {κ} :
    (P : List Text → Type κ) (c : PerShellCmds) {t : List Text}
    → All P (cmds_all_values c)
    → cmds_for_shell c bash ≡ some t
    → P t
unfolding cmds_all_values cmds_for_shell
cmds_of P (all_shells s) (h, _) e = subst P (ground (arith, e)) h
cmds_of P (by_shell b) h e = entry_of_both P b.bash_entry b.default _ h e

-- The conditions: bare names of one line, joined with colons.
name_of : (c : Text) → IsCommandName c → IsName c
name_of [] n = absurd (n.clean.solid tt)
name_of (d ∷ c) n = record { some_char = refl; no_colon = n.no_colon }

names_of : (cmds : List Text) → All IsCommandName cmds → All IsName cmds
names_of [] h = tt
names_of (c ∷ cmds) (h, hs) = (name_of c h, names_of cmds hs)

join-IsKept :
    (cmds : List Text)
    → All IsCommandName cmds
    → All IsOneLine cmds
    → IsKept (join (b':' ∷ []) cmds)
unfolding is_unicode_line_separator is_deceptive_unicode
join-IsKept [] h l = tt
join-IsKept (c ∷ []) (h, _) (l, _) = clean-IsKept c h.clean l
join-IsKept (c ∷ d ∷ cmds) (h, hs) (l, ls) =
    All-append (λ c. is_kept c ≡ true) c _ (clean-IsKept c h.clean l)
      (refl, join-IsKept (d ∷ cmds) hs ls)

condition-IsKept :
    (o : Option PerShellCmds) {cmds : List Text}
    → CommandsOnly o
    → ((c : PerShellCmds) → o ≡ some c → All (All IsOneLine) (cmds_all_values c))
    → required o bash ≡ some cmds
    → All IsName cmds × IsKept (join (b':' ∷ []) cmds)
unfolding required
condition-IsKept none {cmds} ok lines e =
    let same : [] ≡ cmds = ground (arith, e) in
    subst (λ cs. All IsName cs × IsKept (join (b':' ∷ []) cs)) same (tt, tt)
condition-IsKept (some c) {cmds} ok lines e =
    let names = (cmds_of IsCommandList c ok e).names in
    (names_of cmds names, join-IsKept cmds names (cmds_of (All IsOneLine) c (lines c refl) e))

star_of :
    (r : Abbr)
    → GlobOnly r.match_kind r.key
    → same_phase (phase_of r) globbed ≡ true
    → count_char b'*' r.key ≤ 1
unfolding phase_of
star_of r ok own = elim (Option-cases r.match_kind) [
  | inl e ↦ absurd (ground (arith, e, own))
  | inr (glob, e) ↦ (rw e at ok).one_star
  | inr (regex, e) ↦ absurd (ground (arith, e, own))
]

unit-IsKept_of :
    (r : Abbr)
    → NumberOnly r
    → IsOneLineRule r
    → (u : Text) → same_phase (phase_of r) number ≡ true
    → r.number ≡ some u
    → IsKept u
unit-IsKept_of r ok lines u own set =
    let n = ok own in
    let same : n.unit ≡ u = ground (arith, set, n.unit_set) in
    subst IsKept same (IsKept-of n.unit n.printable n.honest (lines.unit_line n.unit n.unit_set))

-- A rule that is accepted, all of one line, is kept in its table.
pub accepted-IsBakeable : (r : Abbr) → IsAccepted r → IsOneLineRule r → IsBakeable r
accepted-IsBakeable r ok lines = record {
  key_kept = clean-IsKept r.key ok.key_clean lines.key_line;
  template_kept = λ t e.
      let clean = value_of (IsClean max_expand_bytes) r.expand ok.values_clean e in
      (clean-IsKept t clean (value_of IsOneLine r.expand lines.value_lines e), clean.small);
  conds_kept = λ cmds e. condition-IsKept r.when_command_exists ok.commands lines.cmd_lines e;
  numbered = ok.number_key;
  unit_kept = λ own u set. unit-IsKept_of r ok.number_key lines u own set;
  one_star = star_of r ok.glob_key;
}

pub accepted-AllBakeable :
    (rules : List Abbr) → All IsAccepted rules → All IsOneLineRule rules → All IsBakeable rules
accepted-AllBakeable [] h l = tt
accepted-AllBakeable (r ∷ rules) (h, hs) (l, ls) =
    (accepted-IsBakeable r h l, accepted-AllBakeable rules hs ls)
