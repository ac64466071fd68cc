-- ===== src/Doctor/Commands.antt =====
-- The commands that `check_when_command_exists` of runex/src/app/doctor.rs asks of, against those that
-- runex/src/app/precache.rs collects.
use runex.Prelude.{
  List, [], ◌∷◌, ◌++◌, Bool, ◌≡◌, refl, sym, ap, ◌∙◌, map, if◌then◌else◌, Bool-cases, inl, inr,
}
use mathlib.Core.List.{map-append}
use runex.Text.{Text, codes}
use runex.Sanitize.{sanitize_for_display}
use runex.Model.{Abbr, Config}
use runex.Precache.{
  fold, contains, condition_lists, Collected, collect_command, collect_list, collect_rule,
  collect_unique_commands,
}
use runex.ShellAlias.{Check, CheckStatus}
use runex.Doctor.Rules.{
  command_check, Commands, check_command, check_list, check_rule, check_when_command_exists,
}

-- Two loops over one sequence, whose bodies keep their states related.
fold-Related :
    {S T A : Type 0} (f : S → A → S) (g : T → A → T) (R : S → T → Type 0)
    → ((s : S) (t : T) (a : A) → R s t → R (f s a) (g t a))
    → (s : S) (t : T) (xs : List A) → R s t
    → R (fold f s xs) (fold g t xs)
fold-Related f g R step s t [] h = h
fold-Related f g R step s t (a ∷ xs) h = fold-Related f g R step (f s a) (g t a) xs (step s t a h)

abbrev pub headline : Check → Text × CheckStatus
headline check = (check.name, check.status)

module _ (command_exists : Text → Bool) where
  -- What doctor has to say of a command.
  abbrev pub expected : Text → Text × CheckStatus
  expected cmd = (
    codes "command:" ++ sanitize_for_display cmd,
    (if command_exists cmd then CheckStatus.ok else CheckStatus.warn),
  )

  record Related (c : Collected) (s : Commands) : Type 0 where
    same_seen : c.seen ≡ s.seen
    same_list : map headline s.checks ≡ map expected c.result

  command-Related :
      (key : Text) (c : Collected) (s : Commands) (cmd : Text)
      → Related c s
      → Related (collect_command c cmd) (check_command command_exists key s cmd)
  unfolding collect_command check_command command_check
  command-Related key c s cmd h =
      let same = ap (λ seen. contains seen cmd) h.same_seen in
      elim (Bool-cases (contains c.seen cmd)) [
        | inl again ↦ rw (again, sym same ∙ again) h
        | inr new ↦
            rw (new, sym same ∙ new)
              (record {
                same_seen = ap (λ t. cmd ∷ t) h.same_seen;
                same_list =
                    map-append headline s.checks _
                    ∙ ap (λ t. t ++ expected cmd ∷ []) h.same_list
                    ∙ sym (map-append expected c.result (cmd ∷ []));
              })
      ]

  rule-Related :
      (c : Collected) (s : Commands) (abbr : Abbr)
      → Related c s
      → Related (collect_rule c abbr) (check_rule command_exists s abbr)
  unfolding collect_rule collect_list
  rule-Related c s abbr h =
      fold-Related (fold collect_command) (check_list command_exists abbr.key) Related
        (λ c s cmds k.
          fold-Related collect_command (check_command command_exists abbr.key) Related
            (command-Related abbr.key) c s cmds k)
        c s (condition_lists abbr) h

  -- Doctor reports one check for each command that `runex precache` asks of, in the same order, with
  -- the name of the command made safe, and says ok exactly where the command exists, else a warning.
  pub check_when_command_exists-collect :
      (c : Config)
      → map headline (check_when_command_exists command_exists c)
        ≡ map expected (collect_unique_commands c)
  unfolding check_when_command_exists collect_unique_commands
  check_when_command_exists-collect c =
      (fold-Related collect_rule (check_rule command_exists) Related rule-Related
        (record { seen = []; result = [] }) (record { seen = []; checks = [] }) c.abbr
        (record { same_seen = refl; same_list = refl })).same_list
