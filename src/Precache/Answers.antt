-- ===== src/Precache/Answers.antt =====
-- What a cache that is built answers: `build_cache` of runex/src/app/precache.rs.
use runex.Prelude.{
  List, [], ◌∷◌, ◌++◌, some, Bool, true, ◌≡◌, ◌||◌, refl, subst, ◌∙◌, arith, All, Bool-cases, inl,
  inr,
}
use runex.Text.{Text, text_eq}
use runex.Text.Slices.{text_eq_iff, text_eq_refl}
use runex.Model.{Abbr, Config}
use runex.Precache.{
  fold, contains, Collected, collect_command, collect_list, condition_lists, collect_rule,
  collect_unique_commands, get, insert_answer, build_cache,
}

pub fold-keeps :
    {S A : Type 0} (step : S → A → S) (P : S → Type 0)
    → ((s : S) (x : A) → P s → P (step s x))
    → (s : S) (xs : List A) → P s
    → P (fold step s xs)
fold-keeps step P keeps s [] h = h
fold-keeps step P keeps s (x ∷ xs) h = fold-keeps step P keeps (step s x) xs (keeps s x h)

fold-All :
    {S A : Type 0} (step : S → A → S) (P : S → A → Type 0)
    → ((s : S) (x y : A) → P s y → P (step s x) y)
    → ((s : S) (x : A) → P (step s x) x)
    → (s : S) (xs : List A) → All (P (fold step s xs)) xs
fold-All step P keeps makes s [] = tt
fold-All step P keeps makes s (x ∷ xs) = (
  fold-keeps step (λ s. P s x) (λ s y. keeps s y x) (step s x) xs (makes s x),
  fold-All step P keeps makes (step s x) xs,
)

All-weaken :
    {A : Type 0} {P Q : A → Type 0} → ((x : A) → P x → Q x) → (xs : List A) → All P xs → All Q xs
All-weaken f [] h = tt
All-weaken f (x ∷ xs) (p, h) = (f x p, All-weaken f xs h)

contains-append :
    (xs : List Text) (y t : Text) → contains (xs ++ y ∷ []) t ≡ text_eq y t || contains xs t
contains-append [] y t = ground arith
contains-append (x ∷ xs) y t = ground (arith, contains-append xs y t)

abbrev Seen : Collected → Text → Type 0
Seen c t = contains c.seen t ≡ true

abbrev AllSeen : Collected → List Text → Type 0
AllSeen c ts = All (Seen c) ts

abbrev RuleSeen : Collected → Abbr → Type 0
RuleSeen c rule = All (AllSeen c) (condition_lists rule)

-- Both parts of the state have the same members.
abbrev SameMembers : Collected → Type 0
SameMembers c = (t : Text) → contains c.result t ≡ contains c.seen t

command-keeps : (c : Collected) (x t : Text) → Seen c t → Seen (collect_command c x) t
unfolding collect_command
command-keeps c x t h = ground arith

command-makes : (c : Collected) (x : Text) → Seen (collect_command c x) x
unfolding collect_command
command-makes c x = ground (arith, text_eq_refl x)

command-SameMembers : (c : Collected) (x : Text) → SameMembers c → SameMembers (collect_command c x)
unfolding collect_command
command-SameMembers c x h t = ground (arith, h t, contains-append c.result x t)

list-keeps : (c : Collected) (xs : List Text) (t : Text) → Seen c t → Seen (collect_list c xs) t
unfolding collect_list
list-keeps c xs t h = fold-keeps collect_command (λ c. Seen c t) (λ c x. command-keeps c x t) c xs h

list-makes : (c : Collected) (xs : List Text) → AllSeen (collect_list c xs) xs
unfolding collect_list
list-makes c xs = fold-All collect_command Seen command-keeps command-makes c xs

list-SameMembers :
    (c : Collected) (xs : List Text) → SameMembers c → SameMembers (collect_list c xs)
unfolding collect_list
list-SameMembers c xs h = fold-keeps collect_command SameMembers command-SameMembers c xs h

rule-keeps : (c : Collected) (r : Abbr) (t : Text) → Seen c t → Seen (collect_rule c r) t
unfolding collect_rule
rule-keeps c r t h =
    fold-keeps collect_list (λ c. Seen c t) (λ c xs. list-keeps c xs t) c (condition_lists r) h

rule-makes : (c : Collected) (r : Abbr) → RuleSeen (collect_rule c r) r
unfolding collect_rule
rule-makes c r =
    fold-All collect_list AllSeen (λ c xs ys. All-weaken (λ t. list-keeps c xs t) ys) list-makes c
      (condition_lists r)

rule-SameMembers : (c : Collected) (r : Abbr) → SameMembers c → SameMembers (collect_rule c r)
unfolding collect_rule
rule-SameMembers c r h =
    fold-keeps collect_list SameMembers list-SameMembers c (condition_lists r) h

collected-All :
    (config : Config)
    → All
        (λ r.
          All (All (λ t. contains (collect_unique_commands config) t ≡ true)) (condition_lists r))
        config.abbr
unfolding collect_unique_commands
collected-All config =
    All-weaken (λ r. All-weaken (All-weaken (λ t h. same t ∙ h)) (condition_lists r)) config.abbr
      (fold-All collect_rule RuleSeen
        (λ c r s. All-weaken (All-weaken (λ t. rule-keeps c r t)) (condition_lists s)) rule-makes
        start config.abbr)
  where
    start : Collected
    start = record { seen = []; result = [] }

    same : SameMembers (fold collect_rule start config.abbr)
    same = fold-keeps collect_rule SameMembers rule-SameMembers start config.abbr (λ t. refl)

All-contains :
    (P : Text → Type 0) (xs : List Text) (t : Text) → All P xs → contains xs t ≡ true → P t
All-contains P [] t h e = absurd (ground arith)
All-contains P (x ∷ xs) t (p, h) e = elim (Bool-cases (text_eq x t)) [
  | inl same ↦ subst P ((text_eq_iff x t).0 same) p
  | inr other ↦ All-contains P xs t h (ground arith)
]

module _ (exists : Text → Bool) where
  abbrev Answered : List (Text × Bool) → Text → Type 0
  Answered entries t = get entries t ≡ some (exists t)

  insert-keeps :
      (entries : List (Text × Bool)) (x t : Text)
      → Answered entries t
      → Answered (insert_answer exists entries x) t
  insert-keeps entries x t h = elim (Bool-cases (text_eq x t)) [
    | inl same ↦ rw (same, (text_eq_iff x t).0 same)
    | inr other ↦ rw (other, h)
  ]

  insert-makes :
      (entries : List (Text × Bool)) (x : Text) → Answered (insert_answer exists entries x) x
  insert-makes entries x = rw (text_eq_refl x)

  -- Every command that a condition of the configuration lists, for whatever shell, has an entry in
  -- the cache that is built, with the answer of the test that built it.
  pub build_cache-answers :
      (config : Config) (fingerprint : Text)
      → All
          (λ rule.
            All
              (All (λ cmd.
                get (build_cache exists config fingerprint).commands cmd ≡ some (exists cmd)))
              (condition_lists rule))
          config.abbr
  unfolding build_cache
  build_cache-answers config fingerprint =
      All-weaken (λ r. All-weaken (All-weaken answer) (condition_lists r)) config.abbr
        (collected-All config)
    where
      cmds : List Text
      cmds = collect_unique_commands config

      answer :
          (t : Text) → contains cmds t ≡ true → Answered (fold (insert_answer exists) [] cmds) t
      answer t =
          All-contains (Answered (fold (insert_answer exists) [] cmds)) cmds t
            (fold-All (insert_answer exists) Answered insert-keeps insert-makes [] cmds)
