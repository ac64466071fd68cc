-- ===== src/Dispatcher/Scan.antt =====
-- A lookup of the script over its table against a phase of the scan in runex/src/domain/expand.rs.
use runex.Prelude.{
  List, [], ◌∷◌, Option, none, some, Bool, true, ◌≡◌, refl, sym, ap, ◌∙◌, map, All, Bool-cases,
  Option-cases, inl, inr,
}
use runex.Text.{Text}
use runex.Model.{bash, Abbr, ExpandResult, expanded, pass_through}
use runex.Expand.Keys.{RegexLite, Phase, same_phase, phase_of}
use runex.Expand.Rules.{fire, scan_phase}
use runex.Expand.Firing.{fire_sound}
use runex.Dispatcher.{rows_of}
use runex.Dispatcher.Reading.{entry}
use runex.Dispatcher.Script.{Out, Seen, scan}
use runex.Dispatcher.Plain.{in_chars}
use runex.Dispatcher.Conds.{Right}

-- A result of the program as the script leaves it.
abbrev pub script_of : Option ExpandResult → Option Out
script_of none = none
script_of (some (expanded text cursor)) = some (in_chars (text, cursor))
script_of (some (pass_through token)) = none

module _ (exists : Text → Bool) (lib : RegexLite) (token : Text) where
  pub fire-script :
      (r : Abbr) {res : ExpandResult}
      → fire exists lib token bash r ≡ some res
      → (out : Out) × (script_of (some res) ≡ some out)
  fire-script r e =
      let (text, cursor, same, _) = fire_sound exists lib token bash r e in
      (in_chars (text, cursor), ap (λ x. script_of (some x)) same)

  module _ {κ} (P : Abbr → Type κ) (phase : Phase) (row : Abbr → Option (List Text))
      (try : Seen → Text → Seen × Option Out)
      (skipped : (r : Abbr)
        → P r
        → row r ≡ none
        → same_phase (phase_of r) phase ≡ true
        → fire exists lib token bash r ≡ none)
      (own : (r : Abbr) (fields : List Text)
        → row r ≡ some fields
        → same_phase (phase_of r) phase ≡ true)
      (tried : (r : Abbr) (fields : List Text) (seen : Seen)
        → P r
        → row r ≡ some fields
        → Right exists seen
        → ((try seen (entry fields)).1 ≡ script_of (fire exists lib token bash r))
          × Right exists (try seen (entry fields)).0) where
    -- The lookup finds what the phase finds.
    pub scan-scan_phase :
        (rules : List Abbr) (seen : Seen)
        → All P rules
        → Right exists seen
        → ((scan try seen (map entry (rows_of row rules))).1
            ≡ script_of (scan_phase exists lib token bash phase rules))
          × Right exists (scan try seen (map entry (rows_of row rules))).0
    unfolding scan scan_phase
    scan-scan_phase [] seen ps h = (refl, h)
    scan-scan_phase (r ∷ rules) seen (p, ps) h = elim (Option-cases (row r)) [
      | inl e ↦ elim (Bool-cases (same_phase (phase_of r) phase)) [
        | inr other ↦ rw (e, rows_of) (rw (other, scan_phase) (scan-scan_phase rules seen ps h))
        | inl same ↦
            rw (e, rows_of)
              (rw (same, scan_phase)
                (rw (skipped r p e same, scan_phase) (scan-scan_phase rules seen ps h)))
      ]
      | inr (fields, e) ↦
          let (value, right) = tried r fields seen p e h in
          elim (Option-cases (fire exists lib token bash r)) [
            | inl idle ↦
                rw (e, rows_of)
                  (rw (own r fields e, scan_phase)
                    (rw (idle, scan_phase)
                      (rw (value ∙ ap script_of idle, scan)
                        (scan-scan_phase rules (try seen (entry fields)).0 ps right))))
            | inr (res, fires) ↦
                let (out, is) = fire-script r fires in
                rw (e, rows_of)
                  (rw (own r fields e, scan_phase)
                    (rw (fires, scan_phase)
                      (rw (value ∙ ap script_of fires ∙ is, scan) (sym is, right))))
          ]
    ]
