-- ===== src/Precache.antt =====
-- runex/src/app/precache.rs: the answers to `when_command_exists`, found before they are needed.
use runex.Prelude.{
  ℕ, List, [], ◌∷◌, ◌++◌, Option, none, some, Bool, true, false, any, all, not, ltb, ◌==◌, ◌||◌,
  ◌*◌, ◌≡◌, length, is_empty, ◌>>=◌, if◌then◌else◌,
}
use runex.Text.{Text, codes, text_eq, byte_len, in_range, trim, split_once_char}
use runex.Model.{PerShellCmds, cmds_all_values, Abbr, Config}
pub mod Answers
pub mod Loading

-- A `for` loop over a sequence, with the state that its body changes.
abbrev pub fold : {S A : Type 0} → (S → A → S) → S → List A → S
fold step s [] = s
fold step s (x ∷ xs) = fold step (step s x) xs

abbrev pub contains : List Text → Text → Bool
contains texts t = any (λ d. text_eq d t) texts

-- The set `seen` as the list of what was inserted, and the vector `result`.
pub record Collected : Type 0 where
  pub seen : List Text
  pub result : List Text

unfoldable pub collect_command : Collected → Text → Collected
collect_command c cmd =
    if contains c.seen cmd then c else record { seen = cmd ∷ c.seen; result = c.result ++ cmd ∷ [] }

unfoldable pub collect_list : Collected → List Text → Collected
collect_list = fold collect_command

abbrev pub condition_lists : Abbr → List (List Text)
condition_lists abbr = elim abbr.when_command_exists [
  | none ↦ []
  | some cmds ↦ cmds_all_values cmds
]

unfoldable pub collect_rule : Collected → Abbr → Collected
collect_rule c abbr = fold collect_list c (condition_lists abbr)

unfoldable pub collect_unique_commands : Config → List Text
collect_unique_commands config =
    (fold collect_rule (record { seen = []; result = [] }) config.abbr).result

-- A map: an entry hides the earlier ones for its key.
abbrev pub get : List (Text × Bool) → Text → Option Bool
get [] key = none
get (entry ∷ entries) key =
    let rest = get entries key in if text_eq entry.0 key then some entry.1 else rest

pub record CmdCache : Type 0 where
  pub v : ℕ
  pub fingerprint : Text
  pub commands : List (Text × Bool)

abbrev pub cache_version : ℕ
cache_version = 1

module _ (command_exists : Text → Bool) where
  abbrev pub insert_answer : List (Text × Bool) → Text → List (Text × Bool)
  insert_answer commands cmd = (cmd, command_exists cmd) ∷ commands

  unfoldable pub build_cache : Config → Text → CmdCache
  build_cache config fingerprint = record {
    v = cache_version;
    fingerprint = fingerprint;
    commands = fold insert_answer [] (collect_unique_commands config);
  }

-- `split(c)`.
abbrev pub put_first : ℕ → List Text → List Text
put_first c [] = (c ∷ []) ∷ []
put_first c (part ∷ parts) = (c ∷ part) ∷ parts

unfoldable pub split_char : ℕ → Text → List Text
split_char c [] = [] ∷ []
split_char c (d ∷ s) = let rest = split_char c s in if d == c then [] ∷ rest else put_first d rest

-- The body of the loop of `parse_resolved`.
unfoldable pub insert_resolved : List (Text × Bool) → Text → List (Text × Bool)
insert_resolved entries entry =
    if is_empty (trim entry) then entries else elim (split_once_char b'=' (trim entry)) [
      | some sides ↦ (sides.0, text_eq sides.1 (codes "1")) ∷ entries
      | none ↦ entries
    ]

unfoldable pub parse_resolved : Text → List (Text × Bool)
parse_resolved resolved = fold insert_resolved [] (split_char b',' resolved)

-- `resolved.get(cmd).copied().unwrap_or(false)`.
abbrev pub was_resolved : List (Text × Bool) → Text → Bool
was_resolved resolved cmd = elim (get resolved cmd) [ some exists ↦ exists | none ↦ false ]

unfoldable pub build_cache_from_resolved : Config → Text → Text → CmdCache
build_cache_from_resolved config fingerprint resolved_str = record {
  v = cache_version;
  fingerprint = fingerprint;
  commands =
      fold (insert_answer (was_resolved (parse_resolved resolved_str))) []
        (collect_unique_commands config);
}

-- The cache that `handle` of runex/src/cmd/precache.rs writes: of what the shell resolved, where it
-- hands that over, and else of its own search.
unfoldable pub written_cache : (Text → Bool) → Option Text → Config → Text → CmdCache
written_cache command_exists none config fingerprint = build_cache command_exists config fingerprint
written_cache command_exists (some resolved_str) config fingerprint =
    build_cache_from_resolved config fingerprint resolved_str

abbrev pub max_cache_bytes : ℕ
max_cache_bytes = 256 * 1024

abbrev pub max_cache_commands : ℕ
max_cache_commands = 10000

abbrev pub fingerprint_len : ℕ
fingerprint_len = 16

abbrev pub is_ascii_hexdigit : ℕ → Bool
is_ascii_hexdigit c = in_range b'0' b'9' c || in_range b'a' b'f' c || in_range b'A' b'F' c

-- serde_json on a cache, with what the code relies on: what is read of a cache that was written has
-- its version, its fingerprint and its entries.
pub record Json : Type 0 where
  pub to_string : CmdCache → Text
  pub from_str : Text → Option CmdCache
  pub read-written :
      (c d : CmdCache)
      → from_str (to_string c) ≡ some d
      → (d.v ≡ c.v)
        × (d.fingerprint ≡ c.fingerprint)
        × ((cmd : Text) → get d.commands cmd ≡ get c.commands cmd)

module _ (json : Json) where
  -- The checks of a cache that was read.
  abbrev pub checked_cache : CmdCache → Option CmdCache
  checked_cache cache =
      if not (cache.v == cache_version)
      then none
      else if not (byte_len cache.fingerprint == fingerprint_len)
          || not (all is_ascii_hexdigit cache.fingerprint)
      then none
      else if ltb max_cache_commands (length cache.commands)
      then none
      else some cache

  unfoldable pub parse_cache : Text → Option CmdCache
  parse_cache text =
      if ltb max_cache_bytes (byte_len text)
      then none
      else (do cache ← json.from_str text; checked_cache cache)

  -- `env` is the value of the variable.
  unfoldable pub load_cache : Option Text → Text → Option CmdCache
  load_cache env expected_fingerprint = do
    text ← env
    cache ← parse_cache text
    if text_eq cache.fingerprint expected_fingerprint then some cache else none

  -- The hint of a context, in runex/src/main.rs.
  unfoldable pub hint_of : Bool → Option Text → Text → Option (List (Text × Bool))
  hint_of precache_enabled env fingerprint =
      if precache_enabled
      then elim (load_cache env fingerprint) [ some cache ↦ some cache.commands | none ↦ none ]
      else none
