-- ===== src/Existence.antt =====
-- runex/src/util/path.rs: the test whether a command exists, with its two caches. The search of the
-- PATH and of the files of a directory are arguments, which answer alike for the whole run.
use runex.Prelude.{List, [], ◌∷◌, ◌++◌, Option, none, some, Bool, true, false, ◌||◌, if◌then◌else◌}
use runex.Text.{Text, codes, contains_char}
use runex.Precache.{get}
pub mod Memo
pub mod Precached

-- `live_check` is `which`, `is_file` a regular file of that name in a directory, and `windows` the
-- target of the build.
pub record Search : Type 0 where
  pub live_check : Text → Bool
  pub is_file : Text → Text → Bool
  pub windows : Bool

module _ (s : Search) where
  abbrev pub exe : Text → Text
  exe cmd = cmd ++ codes ".exe"

  -- The two ways in which the directory is searched first.
  unfoldable pub find_borrowed : Option Text → Text → Bool
  find_borrowed none cmd = s.live_check cmd
  find_borrowed (some dir) cmd =
      if s.is_file dir cmd
      then true
      else if s.windows
      then (if s.is_file dir (exe cmd) then true else s.live_check cmd)
      else s.live_check cmd

  unfoldable pub find_owned : Option Text → Text → Bool
  find_owned none cmd = s.live_check cmd
  find_owned (some dir) cmd =
      (if s.windows then s.is_file dir cmd || s.is_file dir (exe cmd) else s.is_file dir cmd)
      || s.live_check cmd

-- `hint[cmd]`, where it is true.
abbrev pub hinted : Option (List (Text × Bool)) → Text → Bool
hinted none cmd = false
hinted (some hint) cmd = elim (get hint cmd) [ some cached ↦ cached | none ↦ false ]

abbrev pub is_path : Text → Bool
is_path cmd = contains_char b'/' cmd || contains_char b'\\' cmd || contains_char b':' cmd

-- A call of the closure: the cache after it, and the answer.
unfoldable pub answer :
    (Text → Bool)
    → Option (List (Text × Bool))
    → List (Text × Bool)
    → Text
    → List (Text × Bool) × Bool
answer find hint cache cmd = if is_path cmd then (cache, false) else elim (get cache cmd) [
  | some cached ↦ (cache, cached)
  | none ↦
      if hinted hint cmd then ((cmd, true) ∷ cache, true) else ((cmd, find cmd) ∷ cache, find cmd)
]

-- The answers to a sequence of calls.
unfoldable pub answers :
    (Text → Bool) → Option (List (Text × Bool)) → List (Text × Bool) → List Text → List Bool
answers find hint cache [] = []
answers find hint cache (cmd ∷ cmds) =
    (answer find hint cache cmd).1 ∷ answers find hint (answer find hint cache cmd).0 cmds

module _ (s : Search) (path_prepend : Option Text) (hint : Option (List (Text × Bool))) where
  -- The closures, from the empty cache that each of them is made with.
  unfoldable pub make_command_exists : List Text → List Bool
  make_command_exists cmds = answers (find_borrowed s path_prepend) hint [] cmds

  unfoldable pub make_command_exists_owned : List Text → List Bool
  make_command_exists_owned cmds = answers (find_owned s path_prepend) hint [] cmds
