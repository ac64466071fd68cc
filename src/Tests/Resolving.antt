-- ===== src/Tests/Resolving.antt =====
-- Commands, looked up through the caches.
use runex.Prelude.{
  ℕ, zero, suc, List, [], ◌∷◌, ◌++◌, Option, none, some, Bool, true, false, ◌≡◌, ◌↔◌, refl, sym, ap,
  ◌∙◌, arith, map, if◌then◌else◌,
}
use runex.Text.{Text, codes, text_eq}
use runex.Precache.{get, CmdCache, Json, load_cache}
use runex.Precache.Loading.{IsUsable, load_cache_iff}
use runex.Existence.{Search, find_owned, make_command_exists, make_command_exists_owned}
use runex.Existence.Memo.{resolves, command_exists-resolves}

-- A stand-in for serde_json: a name is spelled with its characters from 2 on, and its answer behind.
abbrev Entries : Type 0
Entries = List (Text × Bool)

abbrev spell_name : Text → Text
spell_name [] = []
spell_name (c ∷ s) = suc (suc c) ∷ spell_name s

abbrev spell : Entries → Text
spell [] = []
spell ((name, b) ∷ es) = spell_name name ++ ((if b then 1 else 0) ∷ spell es)

abbrev in_front : ℕ → Entries → Entries
in_front c [] = []
in_front c ((name, b) ∷ es) = (c ∷ name, b) ∷ es

abbrev read_entries : Text → Entries
read_entries [] = []
read_entries (zero ∷ s) = ([], false) ∷ read_entries s
read_entries (suc zero ∷ s) = ([], true) ∷ read_entries s
read_entries (suc (suc c) ∷ s) = in_front c (read_entries s)

abbrev as_cache : ℕ → Entries → Option CmdCache
as_cache v [] = none
as_cache v ((fingerprint, b) ∷ es) =
    some (record { v = v; fingerprint = fingerprint; commands = es })

abbrev read_spelled : Text → Option CmdCache
read_spelled [] = none
read_spelled (v ∷ s) = as_cache v (read_entries s)

read-name :
    (name : Text) (b : Bool) (s : Text)
    → read_entries (spell_name name ++ ((if b then 1 else 0) ∷ s)) ≡ (name, b) ∷ read_entries s
read-name [] true s = refl
read-name [] false s = refl
read-name (c ∷ name) b s = ap (in_front c) (read-name name b s)

read-spell : (es : Entries) → read_entries (spell es) ≡ es
read-spell [] = refl
read-spell ((name, b) ∷ es) = read-name name b (spell es) ∙ ap (λ t. (name, b) ∷ t) (read-spell es)

abbrev spelled : CmdCache → Text
spelled c = c.v ∷ spell ((c.fingerprint, true) ∷ c.commands)

read-spelled : (c : CmdCache) → read_spelled (spelled c) ≡ some c
read-spelled c = ap (as_cache c.v) (read-spell ((c.fingerprint, true) ∷ c.commands))

same_cache : (c d : CmdCache) → read_spelled (spelled c) ≡ some d → c ≡ d
same_cache c d e = ground (arith, read-spelled c, e)

abbrev plain_json : Json
plain_json = record {
  to_string = spelled;
  from_str = read_spelled;
  read-written = λ c d e.
      let same = same_cache c d e in
      (
        ap (λ x. x.v) (sym same),
        ap (λ x. x.fingerprint) (sym same),
        λ cmd. ap (λ x. get x.commands cmd) (sym same),
      );
}

-- A machine with one command on its PATH and one file in the directory searched first.
abbrev machine : Search
machine = record {
  live_check = λ cmd. text_eq cmd (codes "git");
  is_file = λ dir cmd. text_eq cmd (codes "lsd");
  windows = false;
}

abbrev key_of_env : Text
key_of_env = codes "00112233445566ff"

command_exists-resolves_example :
    (make_command_exists machine
        (some (codes "bin"))
        none
        (codes "git" ∷ codes "lsd" ∷ codes "git" ∷ [])
      ≡ map
          (resolves (find_owned machine (some (codes "bin"))) none)
          (codes "git" ∷ codes "lsd" ∷ codes "git" ∷ []))
    × (make_command_exists_owned machine
          (some (codes "bin"))
          none
          (codes "git" ∷ codes "lsd" ∷ codes "git" ∷ [])
        ≡ map
            (resolves (find_owned machine (some (codes "bin"))) none)
            (codes "git" ∷ codes "lsd" ∷ codes "git" ∷ []))
command_exists-resolves_example =
    command_exists-resolves machine (some (codes "bin")) none
      (codes "git" ∷ codes "lsd" ∷ codes "git" ∷ [])

-- The shell of a machine hands over what it resolved; the directory searched first has `lsd`.
abbrev resolved : Text
resolved = codes "lsd=1, bat=0"

abbrev found : Text → Bool
found = find_owned machine (some (codes "bin"))

load_cache_iff_example :
    ((text : Text) (cache : CmdCache)
      → (load_cache plain_json (some text) key_of_env ≡ some cache)
        ↔ IsUsable plain_json text key_of_env cache)
    × (load_cache plain_json none key_of_env ≡ none)
load_cache_iff_example = load_cache_iff plain_json key_of_env
