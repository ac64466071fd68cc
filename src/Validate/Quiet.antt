-- ===== src/Validate/Quiet.antt =====
-- What a silent visit says: the checks of runex/src/app/config.rs, where they report nothing.
use runex.Prelude.{
  ℕ, ◌≤◌, List, [], ◌∷◌, Option, none, some, Bool, true, false, ◌≡◌, refl, sym, ap, ◌∙◌, arith, any,
  is_empty, All, ◌⊎◌, inl, inr,
}
use runex.Text.{Text, byte_len, trim, is_ascii_control}
use runex.Text.Search.{IsBlank, trim_empty_iff}
use runex.Sanitize.{is_deceptive_unicode}
use runex.Validate.Issues.{ValidationReason, ValidationIssue, ConfigError, to_config_error}
use runex.Validate.Checks.{check_abbr_key, check_expand_value, max_key_bytes, max_expand_bytes}
use runex.Validate.{Flow, continue, break, and_then, ended, stop_at_first, report, report_if}
use runex.Validate.Walks.{Walk, Walked, feed}

-- Not blank, within the limit, and with no control character and no deceptive one.
pub record IsClean (limit : ℕ) (s : Text) : Type 0 where
  pub solid : ¬ IsBlank s
  pub small : byte_len s ≤ limit
  pub printable : All (λ c. is_ascii_control c ≡ false) s
  pub honest : All (λ c. is_deceptive_unicode c ≡ false) s

pub any_none : (p : ℕ → Bool) (s : Text) → any p s ≡ false → All (λ c. p c ≡ false) s
any_none p [] h = tt
any_none p (c ∷ s) h = (ground arith, any_none p s (ground arith))

pub not-IsBlank : (s : Text) → is_empty (trim s) ≡ false → ¬ IsBlank s
not-IsBlank s h blank = ground (arith, (trim_empty_iff s).1 blank)

pub key-IsClean : (key : Text) → check_abbr_key key ≡ none → IsClean max_key_bytes key
unfolding check_abbr_key
key-IsClean key h = record {
  solid = not-IsBlank key (ground arith);
  small = ground arith;
  printable = any_none is_ascii_control key (ground arith);
  honest = any_none is_deceptive_unicode key (ground arith);
}

pub value-IsClean :
    (value : Text) → check_expand_value value ≡ none → IsClean max_expand_bytes value
unfolding check_expand_value
value-IsClean value h = record {
  solid = not-IsBlank value (ground arith);
  small = ground arith;
  printable = any_none is_ascii_control value (ground arith);
  honest = any_none is_deceptive_unicode value (ground arith);
}

-- A load's walk ends silently, or with an error.
quiet_or_error :
    (xs : List ValidationIssue)
    → (feed stop_at_first xs none ≡ continue none)
      ⊎ ((e : ConfigError) × (feed stop_at_first xs none ≡ break (some e)))
quiet_or_error [] = inl refl
quiet_or_error (x ∷ xs) = inr (to_config_error x, refl)

pub quiet_ended :
    {w : Walk}
    → Walked w
    → ended (w _ stop_at_first none) ≡ none
    → w _ stop_at_first none ≡ continue none
quiet_ended {w} a h = elim (quiet_or_error a.visited) [
  | inl e ↦ a.is_fed _ stop_at_first none ∙ e
  | inr (err, e) ↦ absurd (ground (arith, ap ended (a.is_fed _ stop_at_first none ∙ e)))
]

pub quiet_then :
    {v : Walk}
    → Walked v
    → (k : Option ConfigError → Flow (Option ConfigError))
    → and_then (v _ stop_at_first none) k ≡ continue none
    → (v _ stop_at_first none ≡ continue none) × (k none ≡ continue none)
quiet_then {v} a k h = elim (quiet_or_error a.visited) [
  | inl e ↦
      let first = a.is_fed _ stop_at_first none ∙ e in
      (first, sym (ap (λ m. and_then m k) first) ∙ h)
  | inr (err, e) ↦
      absurd (ground (arith, ap (λ m. and_then m k) (a.is_fed _ stop_at_first none ∙ e)))
]

pub quiet_report :
    (i : ℕ) (path : Text) (o : Option ValidationReason)
    → report stop_at_first i path o none ≡ continue none
    → o ≡ none
quiet_report i path none h = refl
quiet_report i path (some r) h = cc

pub quiet_report_if :
    (i : ℕ) (b : Bool) (path : Text) (r : ValidationReason)
    → report_if stop_at_first i b path r none ≡ continue none
    → b ≡ false
quiet_report_if i false path r h = refl
quiet_report_if i true path r h = cc
