-- ===== src/Expand/Listing.antt =====
-- `list` of runex/src/domain/expand.rs, against the rules that `expand` fires.
use runex.Prelude.{
  ℕ, List, [], ◌∷◌, ◌++◌, Option, none, some, Bool, true, ◌≡◌, refl, sym, subst, ap, ◌∙◌, arith,
  Bool-cases, Option-cases, inl, inr,
}
use runex.Text.{Text}
use runex.Text.Slices.{text_eq_refl}
use runex.Model.{Shell, string_for_shell, Abbr, Config, expanded}
use runex.Expand.Keys.{RegexLite}
use runex.Expand.Rules.{expand}
use runex.Expand.Which.{shown_expansion, passes, list_rules, list}
use runex.Expand.Firing.{Fires, fire_sound}
use runex.Expand.Priority.{expand_chooses}

list_rules-append :
    (xs ys : List Abbr) (shell : Option Shell) (filter : Option Text)
    → list_rules (xs ++ ys) shell filter ≡ list_rules xs shell filter ++ list_rules ys shell filter
list_rules-append [] ys shell filter = refl
list_rules-append (a ∷ xs) ys shell filter = elim (Bool-cases (passes filter a.key)) [
  | inr other ↦ rw (other, list_rules-append xs ys shell filter)
  | inl fits ↦ elim (Option-cases (shown_expansion shell a.expand)) [
    | inl nothing ↦ rw (fits, nothing, list_rules-append xs ys shell filter)
    | inr (exp, shown) ↦ rw (fits, shown, list_rules-append xs ys shell filter)
  ]
]

-- A row of the listing.
abbrev pub HasRow : List (Text × Text) → Text × Text → Type 0
HasRow rows row =
    (before : List (Text × Text)) × (after : List (Text × Text)) × (rows ≡ before ++ row ∷ after)

list-HasRow :
    (config : Config) (shell : Shell) (filter : Option Text) (before : List Abbr) (rule : Abbr)
    (after : List Abbr) {template : Text}
    → config.abbr ≡ before ++ rule ∷ after
    → passes filter rule.key ≡ true
    → string_for_shell rule.expand shell ≡ some template
    → HasRow (list config (some shell) filter) (rule.key, template)
unfolding list shown_expansion
list-HasRow config shell filter before rule after whole fits entry = (
  list_rules before (some shell) filter,
  list_rules after (some shell) filter,
  ap (λ rs. list_rules rs (some shell) filter) whole
      ∙ list_rules-append before (rule ∷ after) (some shell) filter
      ∙ rw (fits, entry),
)

module _ (exists : Text → Bool) (lib : RegexLite) (token : Text) (shell : Shell) where
  -- A rule of the configuration that fires with the text and the cursor, and whose key and template
  -- are a row of the listing for the shell, with no filter and with the key as the filter.
  pub record IsListed (config : Config) (text : Text) (cursor : Option ℕ) : Type 0 where
    pub rule : Abbr
    pub fired : Fires exists lib token shell rule text cursor
    pub unfiltered : HasRow (list config (some shell) none) (rule.key, fired.template)
    pub filtered : HasRow (list config (some shell) (some rule.key)) (rule.key, fired.template)

  fired-IsListed :
      (config : Config) (before : List Abbr) (rule : Abbr) (after : List Abbr) {text : Text}
      {cursor : Option ℕ}
      → config.abbr ≡ before ++ rule ∷ after
      → Fires exists lib token shell rule text cursor
      → IsListed config text cursor
  fired-IsListed config before rule after whole fired = record {
    rule = rule;
    fired = fired;
    unfiltered = list-HasRow config shell none before rule after whole refl fired.entry;
    filtered =
        list-HasRow config shell (some rule.key) before rule after whole (text_eq_refl rule.key)
          fired.entry;
  }

  -- Whatever `expand` makes an expansion of, a rule of the configuration fires with it, and `list`
  -- for that shell shows the rule's key with the template that was filled in, with no filter and
  -- with the key as the filter.
  pub expand-list :
      (config : Config) {text : Text} {cursor : Option ℕ}
      → expand exists lib token shell config ≡ expanded text cursor
      → IsListed config text cursor
  expand-list config {text} {cursor} e = elim (expand_chooses exists lib token shell config) [
    | inr (passed, _) ↦ absurd (ground (arith, passed, e))
    | inl (res, made, chosen) ↦
        let (text', cursor', result, fired) =
          fire_sound exists lib token shell chosen.rule chosen.fires in
        let same : expanded text' cursor' ≡ expanded text cursor = sym result ∙ sym made ∙ e in
        let same_text : text' ≡ text = ground (arith, same) in
        let same_cursor : cursor' ≡ cursor = ground (arith, same) in
        subst (λ t. IsListed config t cursor) same_text
          (subst (IsListed config text') same_cursor
            (fired-IsListed config chosen.before chosen.rule chosen.after chosen.whole fired))
  ]
