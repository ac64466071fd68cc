-- ===== src/Existence/Precached.antt =====
-- The answers found before they are needed change no expansion: runex/src/app/precache.rs, through
-- the hint of runex/src/main.rs and the test of runex/src/util/path.rs.
use runex.Prelude.{[], Option, none, some, Bool, true, ◌≡◌, ap, arith, Bool-cases, inl, inr}
use runex.Text.{Text, text_eq}
use runex.Text.Slices.{text_eq_iff}
use runex.Model.{Config}
use runex.Precache.{
  fold, get, insert_answer, collect_unique_commands, build_cache, parse_resolved, was_resolved,
  written_cache, Json,
}
use runex.Precache.Answers.{fold-keeps}
use runex.Existence.Memo.{resolves}

-- Every entry of a cache that is built has the answer of the test that built it.
entries :
    (exists : Text → Bool) (config : Config) (cmd : Text) (b : Bool)
    → get (fold (insert_answer exists) [] (collect_unique_commands config)) cmd ≡ some b
    → b ≡ exists cmd
entries exists config cmd b =
    fold-keeps (insert_answer exists) (λ entries. get entries cmd ≡ some b → b ≡ exists cmd)
      (λ entries x h e. elim (Bool-cases (text_eq x cmd)) [
        | inl same ↦ ground (arith, same, e, ap exists ((text_eq_iff x cmd).0 same))
        | inr other ↦ h (ground (arith, other, e))
      ])
      [] (collect_unique_commands config) (λ e. cc)

pub build_cache-entries :
    (exists : Text → Bool) (config : Config) (fingerprint cmd : Text) (b : Bool)
    → get (build_cache exists config fingerprint).commands cmd ≡ some b
    → b ≡ exists cmd
unfolding build_cache
build_cache-entries exists config fingerprint cmd b h = entries exists config cmd b h

-- A command that a written cache promises was resolved by the shell or found by the search.
abbrev pub IsResolved : Option Text → Text → Type 0
IsResolved none cmd = ⊥
IsResolved (some resolved_str) cmd = was_resolved (parse_resolved resolved_str) cmd ≡ true

-- `wrote` is the search of the process that writes the cache with the fingerprint `built`, `find` that
-- of the one that reads it and expects `expected`; the code relies on the fingerprint for the two to
-- see the same commands, and on the shell for what it says it resolved.
module _ (json : Json) (wrote find : Text → Bool) (resolved : Option Text) (built expected : Text)
    (same_machine : built ≡ expected → (cmd : Text) → wrote cmd ≡ find cmd)
    (right_shell : (cmd : Text) → IsResolved resolved cmd → wrote cmd ≡ true) where
  abbrev written_text : Config → Text
  written_text config = json.to_string (written_cache (resolves wrote none) resolved config built)
