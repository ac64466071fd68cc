-- ===== src/Existence/Memo.antt =====
-- The closures of runex/src/util/path.rs answer as a function without caches.
use mathlib.Core.Path.{fun_ext}
use runex.Prelude.{
  List, [], ◌∷◌, Option, none, some, Bool, true, false, ◌&&◌, ◌||◌, not, map, ◌≡◌, refl, sym, ap,
  ◌∙◌, arith, Bool-cases, Option-cases, inl, inr, subst,
}
use runex.Text.{Text, text_eq}
use runex.Text.Slices.{text_eq_iff}
use runex.Precache.{get}
use runex.Existence.{
  Search, find_borrowed, find_owned, hinted, is_path, answer, answers, make_command_exists,
  make_command_exists_owned,
}

-- What a command resolves to: no path, and promised by the hint or found.
abbrev pub resolves : (Text → Bool) → Option (List (Text × Bool)) → Text → Bool
resolves find hint cmd = not (is_path cmd) && (hinted hint cmd || find cmd)

module _ (find : Text → Bool) (hint : Option (List (Text × Bool))) where
  -- The cache holds right answers, for commands that are no paths.
  abbrev Holds : List (Text × Bool) → Type 0
  Holds cache =
      (cmd : Text) (b : Bool)
      → get cache cmd ≡ some b
      → is_path cmd ≡ false
      → b ≡ (hinted hint cmd || find cmd)

  insert-Holds :
      (cache : List (Text × Bool)) (cmd : Text) (b : Bool)
      → Holds cache
      → b ≡ (hinted hint cmd || find cmd)
      → Holds ((cmd, b) ∷ cache)
  insert-Holds cache cmd b h right t v e free = elim (Bool-cases (text_eq cmd t)) [
    | inl same ↦
        subst (λ x. v ≡ (hinted hint x || find x)) ((text_eq_iff cmd t).0 same)
          (ground (arith, same, e, right))
    | inr other ↦ h t v (ground (arith, other, e)) free
  ]

  answer_right :
      (cache : List (Text × Bool)) (cmd : Text)
      → Holds cache
      → ((answer find hint cache cmd).1 ≡ resolves find hint cmd)
        × Holds (answer find hint cache cmd).0
  unfolding answer
  answer_right cache cmd h = elim (Bool-cases (is_path cmd)) [
    | inl path ↦ (rw (path, answer), rw (path, answer) h)
    | inr free ↦ elim (Option-cases (get cache cmd)) [
      | inr (b, e) ↦ (ground (arith, h cmd b e free), rw (free, answer) (rw (e, answer) h))
      | inl e ↦ elim (Bool-cases (hinted hint cmd)) [
        | inl promised ↦ (
          ground arith,
          rw (free, answer)
              (rw (e, answer)
                (rw (promised, answer) (insert-Holds cache cmd true h (ground arith)))),
        )
        | inr unknown ↦ (
          ground arith,
          rw (free, answer)
              (rw (e, answer)
                (rw (unknown, answer) (insert-Holds cache cmd (find cmd) h (ground arith)))),
        )
      ]
    ]
  ]

  answers_right :
      (cache : List (Text × Bool)) (cmds : List Text)
      → Holds cache
      → answers find hint cache cmds ≡ map (resolves find hint) cmds
  unfolding answers
  answers_right cache [] h = refl
  answers_right cache (cmd ∷ cmds) h =
      let (now, later) = answer_right cache cmd h in
      ground (arith, now, answers_right (answer find hint cache cmd).0 cmds later)

find_owned-borrowed :
    (s : Search) (dir : Option Text) (cmd : Text) → find_owned s dir cmd ≡ find_borrowed s dir cmd
unfolding find_owned find_borrowed
find_owned-borrowed s none cmd = refl
find_owned-borrowed s (some dir) cmd = ground arith

-- Both closures answer every sequence of commands as the search without caches, through the hint:
-- a path never exists, a command that the hint promises does, and any other where it is found.
pub command_exists-resolves :
    (s : Search) (dir : Option Text) (hint : Option (List (Text × Bool))) (cmds : List Text)
    → (make_command_exists s dir hint cmds ≡ map (resolves (find_owned s dir) hint) cmds)
      × (make_command_exists_owned s dir hint cmds ≡ map (resolves (find_owned s dir) hint) cmds)
unfolding make_command_exists make_command_exists_owned
command_exists-resolves s dir hint cmds =
    let same : find_owned s dir ≡ find_borrowed s dir = fun_ext (find_owned-borrowed s dir) in
    (
      answers_right (find_borrowed s dir) hint [] cmds (λ t b e. cc)
          ∙ ap (λ find. map (resolves find hint) cmds) (sym same),
      answers_right (find_owned s dir) hint [] cmds (λ t b e. cc),
    )
