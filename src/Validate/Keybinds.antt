-- ===== src/Validate/Keybinds.antt =====
-- The keys that a configuration may bind: `first_keybind_error` of runex/src/app/config.rs.
use runex.Prelude.{
  List, [], Option, none, some, true, false, ◌≡◌, ◌≢◌, refl, arith, Option-cases, Bool-cases,
  if◌then◌else◌, ◌⊎◌, inl, inr,
}
use runex.Text.{Text, codes}
use runex.Model.{TriggerKey, space, tab, alt_space, shift_space, ctrl_v, PerShellKey, KeybindConfig}
use runex.Validate.Issues.{paste_intercept_invalid_key}
use runex.Validate.{with_label}
use runex.Validate.Load.{
  key_name, is_ctrl_v, first_where, without_nu, labelled_keys, paste_error, first_keybind_error,
}

-- None of the keys of a field is Ctrl+V.
pub record IsTrigger (k : PerShellKey) : Type 0 where
  pub default_free : k.default ≢ some ctrl_v
  pub bash_free : k.bash_key ≢ some ctrl_v
  pub zsh_free : k.zsh_key ≢ some ctrl_v
  pub pwsh_free : k.pwsh_key ≢ some ctrl_v
  pub nu_free : k.nu_key ≢ some ctrl_v

-- A paste key is set for nu alone, and is Ctrl+V.
pub record IsPaste (k : PerShellKey) : Type 0 where
  pub no_default : k.default ≡ none
  pub no_bash : k.bash_key ≡ none
  pub no_zsh : k.zsh_key ≡ none
  pub no_pwsh : k.pwsh_key ≡ none
  pub nu_only : (k.nu_key ≡ none) ⊎ (k.nu_key ≡ some ctrl_v)

pub record IsKeybind (keybind : KeybindConfig) : Type 0 where
  pub trigger_ok : IsTrigger keybind.trigger
  pub self_insert_ok : IsTrigger keybind.self_insert
  pub paste_ok : IsPaste keybind.paste_intercept

not_ctrl_v : (k : TriggerKey) → is_ctrl_v k ≡ false → k ≢ ctrl_v
not_ctrl_v k h e = ground arith

free_head :
    (label : Text) (o : Option TriggerKey) (rest : List (Text × TriggerKey))
    → first_where is_ctrl_v (with_label label o rest) ≡ none
    → (o ≢ some ctrl_v) × (first_where is_ctrl_v rest ≡ none)
free_head label none rest h = (ground arith, h)
free_head label (some k) rest h = elim (Bool-cases (is_ctrl_v k)) [
  | inl e ↦ absurd (ground arith)
  | inr e ↦ (λ same. ground (arith, not_ctrl_v k e), ground arith)
]

unset_head :
    (label : Text) (o : Option TriggerKey) (rest : List (Text × TriggerKey))
    → first_where (λ _. true) (with_label label o rest) ≡ none
    → (o ≡ none) × (first_where (λ _. true) rest ≡ none)
unset_head label none rest h = (refl, h)
unset_head label (some k) rest h = cc

labelled_keys-IsTrigger :
    (k : PerShellKey) → first_where is_ctrl_v (labelled_keys k) ≡ none → IsTrigger k
labelled_keys-IsTrigger k h =
    let (d, h1) = free_head (codes "default") k.default _ h in
    let (b, h2) = free_head (codes "bash") k.bash_key _ h1 in
    let (z, h3) = free_head (codes "zsh") k.zsh_key _ h2 in
    let (p, h4) = free_head (codes "pwsh") k.pwsh_key _ h3 in
    let (n, h5) = free_head (codes "nu") k.nu_key [] h4 in
    record { default_free = d; bash_free = b; zsh_free = z; pwsh_free = p; nu_free = n }

nu_of :
    (o : Option TriggerKey)
    → (elim o [
      | none ↦ none
      | some k ↦
          if is_ctrl_v k then none else some (paste_intercept_invalid_key (codes "nu") (key_name k))
    ])
      ≡ none
    → (o ≡ none) ⊎ (o ≡ some ctrl_v)
nu_of none h = inl refl
nu_of (some ctrl_v) h = inr refl
nu_of (some space) h = cc
nu_of (some tab) h = cc
nu_of (some alt_space) h = cc
nu_of (some shift_space) h = cc

paste_error-IsPaste : (k : PerShellKey) → paste_error k ≡ none → IsPaste k
unfolding paste_error
paste_error-IsPaste k h = elim (Option-cases (first_where (λ _. true) (without_nu k))) [
  | inr (label, e) ↦ absurd (ground arith)
  | inl e ↦
      let (d, h1) = unset_head (codes "default") k.default _ e in
      let (b, h2) = unset_head (codes "bash") k.bash_key _ h1 in
      let (z, h3) = unset_head (codes "zsh") k.zsh_key _ h2 in
      let (p, h4) = unset_head (codes "pwsh") k.pwsh_key [] h3 in
      record {
        no_default = d;
        no_bash = b;
        no_zsh = z;
        no_pwsh = p;
        nu_only = nu_of k.nu_key (rw (e, paste_error) at h);
      }
]

-- Where no error is found, no trigger key and no key for a plain space is Ctrl+V, and a paste key is
-- set for nu alone, as Ctrl+V.
pub first_keybind_error_sound :
    (keybind : KeybindConfig) → first_keybind_error keybind ≡ none → IsKeybind keybind
unfolding first_keybind_error
first_keybind_error_sound keybind h =
    elim (Option-cases (first_where is_ctrl_v (labelled_keys keybind.trigger))) [
      | inr (label, e) ↦ absurd (ground arith)
      | inl e ↦ elim (Option-cases (first_where is_ctrl_v (labelled_keys keybind.self_insert))) [
        | inr (label, e2) ↦ absurd (ground arith)
        | inl e2 ↦ record {
          trigger_ok = labelled_keys-IsTrigger keybind.trigger e;
          self_insert_ok = labelled_keys-IsTrigger keybind.self_insert e2;
          paste_ok =
              paste_error-IsPaste keybind.paste_intercept (rw (e, e2, first_keybind_error) at h);
        }
      ]
    ]
