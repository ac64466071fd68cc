-- ===== src/Expand/Priority.antt =====
-- Which rule `expand` of runex/src/domain/expand.rs takes.
use runex.Prelude.{
  ℕ, suc, ◌+◌, ◌≤◌, List, [], ◌∷◌, ◌++◌, Option, none, some, Bool, true, false, ◌≡◌, refl, sym,
  subst, ap, arith, All, Option-cases, Bool-cases, inl, inr, ◌⊎◌, length,
}
use runex.Text.{Text}
use runex.Model.{Shell, Abbr, Config, ExpandResult, pass_through}
use runex.Expand.Keys.{Phase, phase_index, phases, same_phase, phase_of, RegexLite}
use runex.Expand.Rules.{fire, scan_phase, scan_phases, expand}

module _ (exists : Text → Bool) (lib : RegexLite) (token : Text) (shell : Shell) where
  -- The rule is of another phase, or does not fire.
  abbrev pub Passed : Phase → Abbr → Type 0
  Passed phase r = (same_phase (phase_of r) phase ≡ false) ⊎ (fire exists lib token shell r ≡ none)

  -- The rule is of a phase with at least the number `k`, or does not fire.
  abbrev pub FromPhase : ℕ → Abbr → Type 0
  FromPhase k r = (k ≤ phase_index (phase_of r)) ⊎ (fire exists lib token shell r ≡ none)

  -- A rule that fires with the result `res`, before which no rule would have.
  pub record IsChosen (rules : List Abbr) (res : ExpandResult) : Type 0 where
    pub before : List Abbr
    pub rule : Abbr
    pub after : List Abbr
    pub whole : rules ≡ before ++ rule ∷ after
    pub fires : fire exists lib token shell rule ≡ some res
    pub first_of_phase : All (Passed (phase_of rule)) before
    pub first_phase : All (FromPhase (phase_index (phase_of rule))) rules

  same_phase_eq : (p q : Phase) → same_phase p q ≡ true → p ≡ q
  same_phase_eq p q h = ground arith

  scan_phase-none :
      (phase : Phase) (rules : List Abbr)
      → scan_phase exists lib token shell phase rules ≡ none
      → All (Passed phase) rules
  unfolding scan_phase
  scan_phase-none phase [] h = tt
  scan_phase-none phase (r ∷ rules) h = elim (Bool-cases (same_phase (phase_of r) phase)) [
    | inr other ↦ (inl other, scan_phase-none phase rules (rw (other, scan_phase) at h))
    | inl same ↦ elim (Option-cases (fire exists lib token shell r)) [
      | inl idle ↦ (inr idle, scan_phase-none phase rules (rw (same, idle, scan_phase) at h))
      | inr (res, fired) ↦ absurd (ground arith)
    ]
  ]

  pub scan_phase-some :
      (phase : Phase) (rules : List Abbr) {res : ExpandResult}
      → scan_phase exists lib token shell phase rules ≡ some res
      → (before : List Abbr) × (rule : Abbr) × (after : List Abbr) × (rules
          ≡ before ++ rule ∷ after)
        × (phase_of rule ≡ phase)
        × (fire exists lib token shell rule ≡ some res)
        × All (Passed phase) before
  unfolding scan_phase
  scan_phase-some phase [] h = cc
  scan_phase-some phase (r ∷ rules) h = elim (Bool-cases (same_phase (phase_of r) phase)) [
    | inr other ↦
        let (before, rule, after, whole, same, fired, passed) =
          scan_phase-some phase rules (rw (other, scan_phase) at h) in
        (r ∷ before, rule, after, ap (λ t. r ∷ t) whole, same, fired, (inl other, passed))
    | inl same ↦ elim (Option-cases (fire exists lib token shell r)) [
      | inl idle ↦
          let (before, rule, after, whole, same', fired, passed) =
            scan_phase-some phase rules (rw (same, idle, scan_phase) at h) in
          (r ∷ before, rule, after, ap (λ t. r ∷ t) whole, same', fired, (inr idle, passed))
      | inr (res', fired) ↦ ([], r, rules, refl, same_phase_eq _ _ same, ground arith, tt)
    ]
  ]

  raise :
      (phase : Phase) (rules : List Abbr)
      → All (FromPhase (phase_index phase)) rules
      → All (Passed phase) rules
      → All (FromPhase (suc (phase_index phase))) rules
  raise phase [] h k = tt
  raise phase (r ∷ rules) (h, hs) (k, ks) = (ground arith, raise phase rules hs ks)

  -- The phases of the list have the numbers from `k` on.
  abbrev Runs : ℕ → List Phase → Type 0
  Runs k [] = Unit
  Runs k (p ∷ ps) = (k ≡ phase_index p) × Runs (suc k) ps

  abbrev Choice : List Abbr → ℕ → Option ExpandResult → Type 0
  Choice rules k none = All (FromPhase k) rules
  Choice rules k (some res) = IsChosen rules res

  step_none :
      (p : Phase) (ps : List Phase) (rules : List Abbr)
      → scan_phase exists lib token shell p rules ≡ none
      → scan_phases exists lib token shell (p ∷ ps) rules
        ≡ scan_phases exists lib token shell ps rules
  unfolding scan_phases
  step_none p ps rules e = rw (e, scan_phases)

  step_some :
      (p : Phase) (ps : List Phase) (rules : List Abbr) {res : ExpandResult}
      → scan_phase exists lib token shell p rules ≡ some res
      → scan_phases exists lib token shell (p ∷ ps) rules ≡ some res
  unfolding scan_phases
  step_some p ps rules e = rw (e, scan_phases)

  scan_phases-Choice :
      (k : ℕ) (ps : List Phase) (rules : List Abbr)
      → Runs k ps
      → All (FromPhase k) rules
      → Choice rules (k + length ps) (scan_phases exists lib token shell ps rules)
  scan_phases-Choice k [] rules runs from =
      unfold scan_phases in subst (λ n. All (FromPhase n) rules) (omega arith) from
  scan_phases-Choice k (p ∷ ps) rules (at, runs) from =
      elim (Option-cases (scan_phase exists lib token shell p rules)) [
        | inl idle ↦ subst (Choice rules (k + suc (length ps))) (sym (step_none p ps rules idle)) (
            subst (λ n. Choice rules n (scan_phases exists lib token shell ps rules)) (omega arith)
              (scan_phases-Choice (suc k) ps rules runs (
                subst (λ n. All (FromPhase (suc n)) rules) (sym at)
                  (raise p rules (subst (λ n. All (FromPhase n) rules) at from)
                    (scan_phase-none p rules idle)))))
        | inr (res, got) ↦
            let (before, rule, after, whole, same, fired, passed) = scan_phase-some p rules got in
            subst (Choice rules (k + suc (length ps))) (sym (step_some p ps rules got)) (record {
              before = before;
              rule = rule;
              after = after;
              whole = whole;
              fires = fired;
              first_of_phase = rw same passed;
              first_phase = rw (same, ← at) from;
            })
      ]

  All-FromPhase : (rules : List Abbr) → All (FromPhase 0) rules
  All-FromPhase [] = tt
  All-FromPhase (r ∷ rules) = (inl (omega arith), All-FromPhase rules)

  none_from_four :
      (rules : List Abbr)
      → All (FromPhase 4) rules
      → All (λ r. fire exists lib token shell r ≡ none) rules
  none_from_four [] h = tt
  none_from_four (r ∷ rules) (h, hs) = (ground arith, none_from_four rules hs)

  -- `expand` takes the first rule that fires of the earliest phase with one that does, or passes the
  -- token through where no rule fires.
  pub expand_chooses :
      (config : Config)
      → ((res : ExpandResult) × (expand exists lib token shell config ≡ res)
          × IsChosen config.abbr res)
        ⊎ ((expand exists lib token shell config ≡ pass_through token)
            × All (λ r. fire exists lib token shell r ≡ none) config.abbr)
  unfolding expand
  expand_chooses config =
      elim (Option-cases (scan_phases exists lib token shell phases config.abbr)) [
        | inl idle ↦ inr (
          rw (idle, expand),
          none_from_four config.abbr (subst (Choice config.abbr 4) idle choice),
        )
        | inr (res, got) ↦ inl (res, rw (got, expand), subst (Choice config.abbr 4) got choice)
      ]
    where
      choice : Choice config.abbr 4 (scan_phases exists lib token shell phases config.abbr)
      choice = scan_phases-Choice 0 phases config.abbr (omega arith) (All-FromPhase config.abbr)
