-- ===== src/Expand/Blank.antt =====
-- runex/src/domain/expand.rs, `blankness`: whether a rule's rendering is blank for every token.
use runex.Prelude.{
  ℕ, List, [], ◌∷◌, Option, none, some, Bool, true, false, ◌||◌, not, ◌≡◌, refl, arith,
  if◌then◌else◌, all, drop, >>=-eq_some, unless-eq_some, when-eq_some, Option-cases, Bool-cases,
  inl, inr,
}
use runex.Text.{Text, text_eq, contains_char}
use runex.Text.Search.{Lacks, split_once_char_missing}
use runex.Model.{Shell, Abbr, ExpandResult, glob, regex, string_for_shell}
use runex.Expand.Keys.{
  Bindings, empty, RegexGroup, RegexLite, exact, number, globbed, by_regex, phase_of,
  compile_regex_key, match_rule, match_abbr_key, match_glob_key, glob_fixed_part_matches,
}
use runex.Expand.Render.{render_with_cursor}
use runex.Expand.Rules.{
  is_blank_expansion, is_exact_self_loop, required, finish_rule, try_expand_rule, fire,
}

pub data Blankness : Type 0 where
  always never depends_on_token : Blankness

unfoldable pub renders_blank : Abbr → Text → Bindings → Option Bool
renders_blank abbr template bindings = elim (render_with_cursor abbr template bindings) [
  | none ↦ none
  | some rendered ↦ some (is_blank_expansion rendered.0)
]

abbrev pub decided : Option Bool → Blankness
decided (some true) = always
decided (some false) = never
decided none = depends_on_token

-- The groups of a key, each of them empty.
abbrev pub empty_groups : List (Option Text) → List RegexGroup
empty_groups [] = []
empty_groups (name ∷ names) = record { name = name; text = [] } ∷ empty_groups names

unfoldable pub empty_captures : RegexLite → Abbr → Option Bindings
empty_captures lib abbr = elim abbr.match_kind [
  | some regex ↦ elim (compile_regex_key lib abbr.key) [
    | inl error ↦ none
    | inr compiled ↦
        some (record empty { groups = some (empty_groups (drop 1 (lib.capture_names compiled))) })
  ]
  | some glob ↦ some (record empty { glob_capture = some [] })
  | none ↦ some (record empty { glob_capture = some [] })
]

-- Blank with every capture empty: by the key, and by the template without captures.
unfoldable pub blank_without_captures : Abbr → Text → Blankness
blank_without_captures abbr template =
    let by_template : Blankness = elim (renders_blank abbr template empty) [
      | some true ↦ always
      | _ ↦ depends_on_token
    ] in
    elim abbr.match_kind [
      | some glob ↦ if not (contains_char b'*' abbr.key) then always else by_template
      | some regex ↦ by_template
      | none ↦ by_template
    ]

unfoldable pub pattern_blankness : RegexLite → Abbr → Text → Blankness
pattern_blankness lib abbr template = elim (empty_captures lib abbr) [
  | none ↦ depends_on_token
  | some captures ↦ elim (renders_blank abbr template captures) [
    | some false ↦ never
    | some true ↦ blank_without_captures abbr template
    | none ↦ depends_on_token
  ]
]

unfoldable pub number_blankness : Abbr → Text → Blankness
number_blankness abbr template = elim abbr.number [
  | none ↦ depends_on_token
  | some unit ↦
      if contains_char b'{' unit || contains_char b'}' unit
      then depends_on_token
      else decided (renders_blank abbr template (record empty { number = some 1 }))
]

unfoldable pub blankness : RegexLite → Abbr → Text → Blankness
blankness lib abbr template = elim (phase_of abbr) [
  | exact ↦ decided (renders_blank abbr template empty)
  | number ↦ number_blankness abbr template
  | globbed ↦ pattern_blankness lib abbr template
  | by_regex ↦ pattern_blankness lib abbr template
]

-- What a rule that fires has gone through.
record Steps (exists : Text → Bool) (lib : RegexLite) (token : Text) (shell : Shell) (r : Abbr)
    : Type 0 where
  bindings : Bindings
  template : Text
  matches : match_rule lib r token ≡ some bindings
  entry : string_for_shell r.expand shell ≡ some template
  solid : renders_blank r template bindings ≡ some false

module _ (exists : Text → Bool) (lib : RegexLite) (token : Text) (shell : Shell) where
  fired_solid :
      (r : Abbr) (template : Text) (b : Bindings) (rendered : Text × Option ℕ) {res : ExpandResult}
      → render_with_cursor r template b ≡ some rendered
      → finish_rule exists r token rendered ≡ some res
      → renders_blank r template b ≡ some false
  unfolding finish_rule renders_blank
  fired_solid r template b rendered made e = elim (Bool-cases (is_blank_expansion rendered.0)) [
    | inl blank ↦ absurd (ground arith)
    | inr solid ↦ rw (made, renders_blank) (rw solid refl)
  ]

  fire-Steps :
      (r : Abbr) {res : ExpandResult}
      → fire exists lib token shell r ≡ some res
      → Steps exists lib token shell r
  unfolding fire try_expand_rule
  fire-Steps r e =
      let (b, matches, e1) = >>=-eq_some (match_rule lib r token) _ e in
      let (template, entry, e2) = >>=-eq_some (string_for_shell r.expand shell) _ e1 in
      let (moves, e3) = unless-eq_some (is_exact_self_loop r template) _ e2 in
      let (commands, condition, e4) = >>=-eq_some (required r.when_command_exists shell) _ e3 in
      let (met, e5) = when-eq_some (all exists commands) _ e4 in
      let (rendered, made, e6) = >>=-eq_some (render_with_cursor r template b) _ e5 in
      record {
        bindings = b;
        template = template;
        matches = matches;
        entry = entry;
        solid = fired_solid r template b rendered made e6;
      }

-- A rule that binds the same for every token it matches: an exact one, or a glob without a star.
pub data BindsOneWay (r : Abbr) : Bindings → Type 0 where
  exact_rule : phase_of r ≡ exact → BindsOneWay r empty
  starless_glob :
      r.match_kind ≡ some glob
      → Lacks b'*' r.key
      → BindsOneWay r (record empty { glob_capture = some [] })

exact_facts :
    (r : Abbr) → phase_of r ≡ exact → (r.match_kind ≡ none) × (contains_char b'{' r.key ≡ false)
unfolding phase_of
exact_facts r h = ground arith

if_some : {A : Type 0} (b : Bool) (x : A) {y : A} → (if b then some x else none) ≡ some y → y ≡ x
if_some true x h = ground arith
if_some false x h = cc

exact_binding :
    (lib : RegexLite) (r : Abbr) (token : Text) {b : Bindings}
    → phase_of r ≡ exact
    → match_rule lib r token ≡ some b
    → b ≡ empty
unfolding match_rule match_abbr_key
exact_binding lib r token {b} phase h =
    let (kind, plain) = exact_facts r phase in
    let literal : match_abbr_key r.key token ≡ some b = rw (kind, match_rule) at h in
    if_some (text_eq r.key token) empty (rw (plain, match_abbr_key) at literal)

starless_binding :
    (lib : RegexLite) (r : Abbr) (token : Text) {b : Bindings}
    → r.match_kind ≡ some glob
    → Lacks b'*' r.key
    → match_rule lib r token ≡ some b
    → b ≡ record empty { glob_capture = some [] }
unfolding match_rule match_glob_key
starless_binding lib r token {b} kind starless h =
    let none_found = split_once_char_missing b'*' r.key starless in
    let (captured, got, made) =
      >>=-eq_some (match_glob_key r.key token)
        (λ captured. some (record empty { glob_capture = some captured }))
        (rw (kind, match_rule) at h) in
    let nothing : captured ≡ [] =
      if_some (glob_fixed_part_matches r.key token) [] (rw (none_found, match_glob_key) at got) in
    ground arith

decided_always : (o : Option Bool) → decided o ≡ always → o ≡ some true
decided_always none h = cc
decided_always (some false) h = cc
decided_always (some true) h = refl

pattern_always :
    (o : Option Bool) (w : Blankness)
    → (elim o [ some false ↦ never | some true ↦ w | none ↦ depends_on_token ]) ≡ always
    → o ≡ some true
pattern_always none w h = cc
pattern_always (some false) w h = cc
pattern_always (some true) w h = refl

glob_phase : (r : Abbr) → r.match_kind ≡ some glob → phase_of r ≡ globbed
unfolding phase_of
glob_phase r kind = rw kind refl

always_renders :
    (lib : RegexLite) (r : Abbr) (template : Text) {b : Bindings}
    → BindsOneWay r b
    → blankness lib r template ≡ always
    → renders_blank r template b ≡ some true
unfolding blankness pattern_blankness empty_captures
always_renders lib r template (exact_rule phase) h =
    decided_always (renders_blank r template empty) (rw (phase, blankness) at h)
always_renders lib r template (starless_glob kind starless) h =
    let captures : empty_captures lib r ≡ some (record empty { glob_capture = some [] }) =
      rw (kind, empty_captures) refl in
    pattern_always (renders_blank r template (record empty { glob_capture = some [] }))
      (blank_without_captures r template)
      (rw (captures, pattern_blankness) at (rw (glob_phase r kind, blankness) at h))

binding_of :
    (lib : RegexLite) (r : Abbr) (token : Text) {b c : Bindings}
    → BindsOneWay r b
    → match_rule lib r token ≡ some c
    → c ≡ b
binding_of lib r token (exact_rule phase) h = exact_binding lib r token phase h
binding_of lib r token (starless_glob kind starless) h =
    starless_binding lib r token kind starless h

-- An exact rule, or a glob rule without a star, that is reported as blank for every token with its
-- template for a shell, never fires there.
pub blankness-fire :
    (exists : Text → Bool) (lib : RegexLite) (token : Text) (shell : Shell) (r : Abbr)
    (template : Text) (b : Bindings)
    → BindsOneWay r b
    → string_for_shell r.expand shell ≡ some template
    → blankness lib r template ≡ always
    → fire exists lib token shell r ≡ none
blankness-fire exists lib token shell r template b one entry blank =
    elim (Option-cases (fire exists lib token shell r)) [
      | inl idle ↦ idle
      | inr (res, fired) ↦
          let steps = fire-Steps exists lib token shell r fired in
          let same : steps.template ≡ template = ground (arith, steps.entry) in
          let bound = binding_of lib r token one steps.matches in
          let solid : renders_blank r template b ≡ some false = rw (← same, ← bound) steps.solid in
          absurd (ground (arith, always_renders lib r template one blank))
    ]
