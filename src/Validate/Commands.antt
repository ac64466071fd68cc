-- ===== src/Validate/Commands.antt =====
-- The commands of a condition: `check_cmd_entry` and its walk in runex/src/app/config.rs.
use runex.Prelude.{
  ℕ, suc, ◌≤◌, List, [], ◌∷◌, ◌++◌, Option, none, some, false, ltb, ◌≡◌, subst, arith, length, All,
  Bool-cases, inl, inr,
}
use runex.Text.{Text, codes, decimal, is_ascii_control}
use runex.Text.Search.{Lacks, contains_char-Lacks}
use runex.Sanitize.{is_deceptive_unicode}
use runex.Model.{PerShellCmds, all_shells, by_shell, cmds_all_values, present, ByShell}
use runex.Validate.Checks.{check_cmd_entry, is_metachar, max_cmd_bytes, max_cmd_list_len}
use runex.Validate.{
  continue, stop_at_first, walk_entries, walk_list, walk_lists, walk_cmds_issues, walk_condition,
  labelled, with_label,
}
use runex.Validate.Walks.{walked_report, walked_list}
use runex.Validate.Quiet.{IsClean, any_none, not-IsBlank, quiet_then, quiet_report}

-- A bare command name: clean, within the limit, with no path separator and no character that a shell
-- or the precache protocol gives a meaning.
pub record IsCommandName (cmd : Text) : Type 0 where
  pub clean : IsClean max_cmd_bytes cmd
  pub no_slash : Lacks b'/' cmd
  pub no_backslash : Lacks b'\\' cmd
  pub no_colon : Lacks b':' cmd
  pub bare : All (λ c. is_metachar c ≡ false) cmd

pub record IsCommandList (cmds : List Text) : Type 0 where
  pub few : length cmds ≤ max_cmd_list_len
  pub names : All IsCommandName cmds

-- The lists of a condition, where there is one.
abbrev pub CommandsOnly : Option PerShellCmds → Type 0
CommandsOnly none = Unit
CommandsOnly (some cmds) = All IsCommandList (cmds_all_values cmds)

name_of : (cmd : Text) → check_cmd_entry cmd ≡ none → IsCommandName cmd
unfolding check_cmd_entry
name_of cmd h = record {
  clean = record {
    solid = not-IsBlank cmd (ground arith);
    small = ground arith;
    printable = any_none is_ascii_control cmd (ground arith);
    honest = any_none is_deceptive_unicode cmd (ground arith);
  };
  no_slash = contains_char-Lacks b'/' cmd (ground arith);
  no_backslash = contains_char-Lacks b'\\' cmd (ground arith);
  no_colon = contains_char-Lacks b':' cmd (ground arith);
  bare = any_none is_metachar cmd (ground arith);
}

names_of :
    (i : ℕ) (path : Text) (j : ℕ) (cmds : List Text)
    → walk_entries stop_at_first i path j cmds none ≡ continue none
    → All IsCommandName cmds
unfolding walk_entries
names_of i path j [] h = tt
names_of i path j (cmd ∷ cmds) h =
    let at = path ++ b'[' ∷ (decimal j ++ b']' ∷ []) in
    let (now, later) =
      quiet_then (walked_report i at (check_cmd_entry cmd))
        (walk_entries stop_at_first i path (suc j) cmds) h in
    (name_of cmd (quiet_report i at (check_cmd_entry cmd) now), names_of i path (suc j) cmds later)

list_of :
    (i : ℕ) (path : Text) (cmds : List Text)
    → walk_list stop_at_first i path cmds none ≡ continue none
    → IsCommandList cmds
unfolding walk_list
list_of i path cmds h = elim (Bool-cases (ltb max_cmd_list_len (length cmds))) [
  | inl many ↦ absurd (ground arith)
  | inr few ↦ record {
    few = ground arith;
    names = names_of i path 1 cmds (rw (few, walk_list) at h);
  }
]

abbrev lists : List (Text × List Text) → List (List Text)
lists [] = []
lists ((label, cmds) ∷ xs) = cmds ∷ lists xs

lists_of :
    (i : ℕ) (xs : List (Text × List Text))
    → walk_lists stop_at_first i xs none ≡ continue none
    → All IsCommandList (lists xs)
unfolding walk_lists
lists_of i [] h = tt
lists_of i ((label, cmds) ∷ xs) h =
    let path = codes "when_command_exists." ++ label in
    let (now, later) = quiet_then (walked_list i path cmds) (walk_lists stop_at_first i xs) h in
    (list_of i path cmds now, lists_of i xs later)

lists-labelled : (b : ByShell (List Text)) → lists (labelled b) ≡ cmds_all_values (by_shell b)
unfolding labelled cmds_all_values
lists-labelled b = from b.default b.bash_entry b.zsh_entry b.pwsh_entry b.nu_entry
  where
    from :
        (d x z p n : Option (List Text))
        → lists (
            with_label (codes "default") d (
              with_label (codes "bash") x (
                with_label
                  (codes "zsh")
                  z
                  (with_label (codes "pwsh") p (with_label (codes "nu") n [])))))
          ≡ present (d ∷ x ∷ z ∷ p ∷ n ∷ [])
    from d x z p n = ground arith

-- A silent walk over a condition: its commands are bare names, and at most 64 in a list.
pub condition_of :
    (i : ℕ) (cmds : Option PerShellCmds)
    → walk_condition stop_at_first i cmds none ≡ continue none
    → CommandsOnly cmds
unfolding walk_cmds_issues cmds_all_values
condition_of i none h = tt
condition_of i (some (all_shells v)) h = (list_of i (codes "when_command_exists") v h, tt)
condition_of i (some (by_shell b)) h =
    subst (All IsCommandList) (lists-labelled b) (lists_of i (labelled b) h)
