-- ===== src/Validate/Walks.antt =====
-- The walks of runex/src/app/config.rs, as lists of the issues they visit.
use runex.Prelude.{
  ℕ, suc, List, [], ◌∷◌, ◌++◌, Option, none, some, Bool, true, false, ltb, ◌≡◌, refl, sym, ap, ◌∙◌,
  length, if◌then◌else◌, not, any, ◌&&◌, ◌==◌, is_some, ◌>>=◌, ◌⊎◌, inl, inr,
}
use runex.Text.{Text, codes, count_char, decimal, contains_char, replace}
use runex.Model.{PerShellCmds, all_shells, by_shell, Abbr, MatchKind, glob, regex}
use runex.Expand.Keys.{number_placeholder, RegexLite, regex_key_group_count}
use runex.Validate.Issues.{
  ValidationReason, ValidationIssue, rule, too_many_cmds, glob_key_has_unsupported_char,
  glob_key_has_multiple_stars, glob_key_without_wildcard, regex_key_invalid,
  regex_expand_group_out_of_range, key_has_unknown_placeholder,
  key_has_multiple_number_placeholders, key_has_number_without_unit,
  number_field_without_key_placeholder,
}
use runex.Validate.Checks.{
  check_abbr_key, check_number_unit, check_expand_value, check_cmd_entry, max_cmd_list_len,
}
use runex.Sanitize.{sanitize_for_display}
use runex.Validate.{
  Flow, continue, break, and_then, Visitor, report, report_if, walk_values, walk_expand_issues,
  walk_entries, walk_list, walk_lists, walk_cmds_issues, walk_condition, walk_glob_key_issues,
  walk_groups, walk_regex_key_issues, walk_number_placeholder_issues, walk_rule, walk_rules,
  refers_to_missing_regex_group, has_brace, number_count, is_forbidden_in_glob, is_wildcard,
  labelled, expand_values_with_paths,
}

-- A visitor fed with a list of issues.
abbrev pub feed : {S : Type 0} → Visitor S → List ValidationIssue → S → Flow S
feed f [] s = continue s
feed f (x ∷ xs) s = and_then (f x s) (feed f xs)

-- A walk that visits some list of issues, whoever the visitor is.
abbrev pub Walk : Type 1
Walk = (S : Type 0) → Visitor S → S → Flow S

pub record Walked (w : Walk) : Type 1 where
  pub visited : List ValidationIssue
  pub is_fed : (S : Type 0) (f : Visitor S) (s : S) → w S f s ≡ feed f visited s

and_then_each :
    {S : Type 0} (m : Flow S) (k l : S → Flow S)
    → ((s : S) → k s ≡ l s)
    → and_then m k ≡ and_then m l
and_then_each (continue s) k l h = h s
and_then_each (break s) k l h = refl

and_then_assoc :
    {S : Type 0} (m : Flow S) (k l : S → Flow S)
    → and_then m (λ s. and_then (k s) l) ≡ and_then (and_then m k) l
and_then_assoc (continue s) k l = refl
and_then_assoc (break s) k l = refl

feed-append :
    {S : Type 0} (f : Visitor S) (xs ys : List ValidationIssue) (s : S)
    → feed f (xs ++ ys) s ≡ and_then (feed f xs s) (feed f ys)
feed-append f [] ys s = refl
feed-append f (x ∷ xs) ys s =
    and_then_each (f x s) (feed f (xs ++ ys)) (λ s. and_then (feed f xs s) (feed f ys))
      (λ s. feed-append f xs ys s)
    ∙ and_then_assoc (f x s) (feed f xs) (feed f ys)

pub walked_none : Walked (λ S f s. continue s)
walked_none = record { visited = []; is_fed = λ S f s. refl }

pub walked_one : (x : ValidationIssue) → Walked (λ S f s. f x s)
walked_one x = record { visited = x ∷ []; is_fed = λ S f s. one (f x s) }
  where
    one : {S : Type 0} (m : Flow S) → m ≡ and_then m (λ s. continue s)
    one (continue s) = refl
    one (break s) = refl

pub walked_then : {v w : Walk} → Walked v → Walked w → Walked (λ S f s. and_then (v S f s) (w S f))
walked_then {v} {w} a b = record {
  visited = a.visited ++ b.visited;
  is_fed = λ S f s.
      ap (λ m. and_then m (w S f)) (a.is_fed S f s)
      ∙ and_then_each (feed f a.visited s) (w S f) (feed f b.visited) (λ s. b.is_fed S f s)
      ∙ sym (feed-append f a.visited b.visited s);
}

pub walked_report :
    (i : ℕ) (path : Text) (reason : Option ValidationReason)
    → Walked (λ S f s. report f i path reason s)
walked_report i path none = walked_none
walked_report i path (some reason) = walked_one (rule i path reason)

pub walked_report_if :
    (i : ℕ) (b : Bool) (path : Text) (reason : ValidationReason)
    → Walked (λ S f s. report_if f i b path reason s)
walked_report_if i false path reason = walked_none
walked_report_if i true path reason = walked_one (rule i path reason)

pub walked_values : (i : ℕ) (xs : List (Text × Text)) → Walked (λ S f s. walk_values f i xs s)
unfolding walk_values
walked_values i [] = walked_none
walked_values i ((path, value) ∷ xs) =
    walked_then (walked_report i path (check_expand_value value)) (walked_values i xs)

pub walked_entries :
    (i : ℕ) (path : Text) (j : ℕ) (cmds : List Text)
    → Walked (λ S f s. walk_entries f i path j cmds s)
unfolding walk_entries
walked_entries i path j [] = walked_none
walked_entries i path j (cmd ∷ cmds) =
    walked_then (walked_report i (path ++ b'[' ∷ (decimal j ++ b']' ∷ [])) (check_cmd_entry cmd))
      (walked_entries i path (suc j) cmds)

pub walked_list :
    (i : ℕ) (path : Text) (cmds : List Text) → Walked (λ S f s. walk_list f i path cmds s)
unfolding walk_list
walked_list i path cmds = from (ltb max_cmd_list_len (length cmds))
  where
    from :
        (b : Bool)
        → Walked
            (λ S f s. if b then f (rule i path too_many_cmds) s else walk_entries f i path 1 cmds s)
    from true = walked_one (rule i path too_many_cmds)
    from false = walked_entries i path 1 cmds

pub walked_lists : (i : ℕ) (xs : List (Text × List Text)) → Walked (λ S f s. walk_lists f i xs s)
unfolding walk_lists
walked_lists i [] = walked_none
walked_lists i ((label, cmds) ∷ xs) =
    walked_then (walked_list i (codes "when_command_exists." ++ label) cmds) (walked_lists i xs)

pub walked_condition :
    (i : ℕ) (cmds : Option PerShellCmds) → Walked (λ S f s. walk_condition f i cmds s)
unfolding walk_cmds_issues
walked_condition i none = walked_none
walked_condition i (some (all_shells v)) = walked_list i (codes "when_command_exists") v
walked_condition i (some (by_shell b)) = walked_lists i (labelled b)

walked_groups :
    (i count : ℕ) (xs : List (Text × Text)) → Walked (λ S f s. walk_groups f i count xs s)
unfolding walk_groups
walked_groups i count [] = walked_none
walked_groups i count ((path, template) ∷ xs) =
    walked_then
      (walked_report_if i (refers_to_missing_regex_group template count) path
        regex_expand_group_out_of_range)
      (walked_groups i count xs)

pub walked_glob : (i : ℕ) (abbr : Abbr) → Walked (λ S f s. walk_glob_key_issues f i abbr s)
unfolding walk_glob_key_issues
walked_glob i abbr = from abbr.match_kind
  where
    from :
        (kind : Option MatchKind)
        → Walked (λ S f s. elim kind [
          | none ↦ continue s
          | some regex ↦ continue s
          | some glob ↦
              and_then
                (report_if f i
                  (any is_forbidden_in_glob abbr.key)
                  (codes "key")
                  glob_key_has_unsupported_char
                  s)
                (λ s.
                  and_then
                    (report_if f i
                      (ltb 1 (count_char b'*' abbr.key))
                      (codes "key")
                      glob_key_has_multiple_stars
                      s)
                    (λ s.
                      report_if f i
                        (not (any is_wildcard abbr.key))
                        (codes "key")
                        glob_key_without_wildcard
                        s))
        ])
    from none = walked_none
    from (some regex) = walked_none
    from (some glob) =
        walked_then
          (walked_report_if i (any is_forbidden_in_glob abbr.key) (codes "key")
            glob_key_has_unsupported_char)
          (walked_then
            (walked_report_if i (ltb 1 (count_char b'*' abbr.key)) (codes "key")
              glob_key_has_multiple_stars)
            (walked_report_if i (not (any is_wildcard abbr.key)) (codes "key")
              glob_key_without_wildcard))

pub walked_regex :
    (lib : RegexLite) (i : ℕ) (abbr : Abbr) → Walked (λ S f s. walk_regex_key_issues f i lib abbr s)
unfolding walk_regex_key_issues
walked_regex lib i abbr = from abbr.match_kind (regex_key_group_count lib abbr.key)
  where
    from :
        (kind : Option MatchKind) (counted : Text ⊎ ℕ)
        → Walked (λ S f s. elim kind [
          | none ↦ continue s
          | some glob ↦ continue s
          | some regex ↦ elim counted [
            | inl error ↦
                f (rule i (codes "key") (regex_key_invalid (sanitize_for_display error))) s
            | inr group_count ↦ walk_groups f i group_count (expand_values_with_paths abbr.expand) s
          ]
        ])
    from none counted = walked_none
    from (some glob) counted = walked_none
    from (some regex) (inl error) =
        walked_one (rule i (codes "key") (regex_key_invalid (sanitize_for_display error)))
    from (some regex) (inr count) = walked_groups i count (expand_values_with_paths abbr.expand)

pub walked_number :
    (i : ℕ) (abbr : Abbr) → Walked (λ S f s. walk_number_placeholder_issues f i abbr s)
unfolding walk_number_placeholder_issues
walked_number i abbr =
    walked_then
      (walked_report_if i
        (has_brace abbr && contains_char b'{' (replace number_placeholder [] abbr.key))
        (codes "key") key_has_unknown_placeholder)
      (walked_then
        (walked_report_if i (ltb 1 (number_count abbr)) (codes "key")
          key_has_multiple_number_placeholders)
        (walked_then
          (walked_report_if i (ltb 0 (number_count abbr) && not (is_some abbr.number)) (codes "key")
            key_has_number_without_unit)
          (walked_then
            (walked_report_if i (is_some abbr.number && number_count abbr == 0) (codes "number")
              number_field_without_key_placeholder)
            (walked_report i (codes "number") (abbr.number >>= check_number_unit)))))

pub walked_rule :
    (lib : RegexLite) (i : ℕ) (abbr : Abbr) → Walked (λ S f s. walk_rule f i lib abbr s)
unfolding walk_rule walk_expand_issues
walked_rule lib i abbr = walked_then (walked_report i (codes "key") (check_abbr_key abbr.key)) (
    walked_then (walked_values i (expand_values_with_paths abbr.expand)) (
      walked_then (walked_condition i abbr.when_command_exists) (
        walked_then (walked_glob i abbr)
          (walked_then (walked_regex lib i abbr) (walked_number i abbr)))))

pub walked_rules :
    (lib : RegexLite) (i : ℕ) (rules : List Abbr) → Walked (λ S f s. walk_rules f lib i rules s)
unfolding walk_rules
walked_rules lib i [] = walked_none
walked_rules lib i (abbr ∷ rules) =
    walked_then (walked_rule lib i abbr) (walked_rules lib (suc i) rules)
