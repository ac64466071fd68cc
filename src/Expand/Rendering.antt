-- ===== src/Expand/Rendering.antt =====
-- What a rendered text is: the rendering of runex/src/domain/expand.rs, described.
use runex.Prelude.{
  ℕ, ◌≤◌, ◌++◌, Option, none, some, ◌≡◌, refl, ap, ◌∙◌, arith, Option-cases, inl, inr,
}
use runex.Text.{Text, byte_len, split_once_text, split_at_byte}
use runex.Text.Slices.{IsBoundary, split_at_byte-append}
use runex.Text.Search.{split_once_text_sound, IsFirst, split_once_text_first}
use runex.Model.{Abbr, cursor_placeholder}
use runex.Expand.Keys.{max_rendered_expand_bytes, Bindings}
use runex.Expand.Render.{
  render_number, extract_cursor_placeholder, substitute_captures, fill_in, join_sides,
  render_with_cursor,
}
use runex.Expand.Captures.{Renders, substitute_captures_sound}

-- A rendered template: its first cursor placeholder is found before the captures are put in, so that a
-- `{}` inside a capture is text, and the cursor stands behind what is left of it.
pub data Rendered (abbr : Abbr) (template : Text) (b : Bindings) : Text → Option ℕ → Type 0 where
  at_end :
      {text : Text} (base : Text)
      → render_number abbr template b ≡ some base
      → split_once_text cursor_placeholder base ≡ none
      → Renders b base text
      → Rendered abbr template b text none
  at_cursor :
      {left right : Text} (before behind : Text)
      → render_number abbr template b ≡ some (before ++ (cursor_placeholder ++ behind))
      → IsFirst cursor_placeholder (before ++ (cursor_placeholder ++ behind)) before
      → Renders b before left
      → Renders b behind right
      → Rendered abbr template b (left ++ right) (some (byte_len left))

-- What `fill_in` makes of a text without its placeholder.
pub data Filled (b : Bindings) (text : Text) : Option ℕ → Text → Option ℕ → Type 0 where
  at_end : {out : Text} → Renders b text out → Filled b text none out none
  at_cursor :
      {pos : ℕ} {left right : Text} (before behind : Text)
      → split_at_byte text pos ≡ some (before, behind)
      → Renders b before left
      → Renders b behind right
      → Filled b text (some pos) (left ++ right) (some (byte_len left))

fill_in-none :
    (text : Text) (b : Bindings) {out : Text} {cursor : Option ℕ}
    → fill_in text none b ≡ some (out, cursor)
    → Filled b text none out cursor × (byte_len out ≤ max_rendered_expand_bytes)
unfolding fill_in
fill_in-none text b {out} {cursor} e = elim (Option-cases (substitute_captures text b)) [
  | inl refused ↦ absurd (ground arith)
  | inr (filled_text, got) ↦
      let (renders, small) = substitute_captures_sound text b got in
      let same : filled_text ≡ out = ground arith in
      let at : cursor ≡ none = ground arith in
      (rw (← same, at) (Filled.at_end renders), rw (← same) small)
]

fill_in-some :
    (text : Text) (pos : ℕ) (b : Bindings) {out : Text} {cursor : Option ℕ}
    → fill_in text (some pos) b ≡ some (out, cursor)
    → Filled b text (some pos) out cursor × (byte_len out ≤ max_rendered_expand_bytes)
unfolding fill_in join_sides
fill_in-some text pos b {out} {cursor} e = elim (Option-cases (split_at_byte text pos)) [
  | inl panics ↦ absurd (ground arith)
  | inr ((before, behind), cut) ↦ elim (Option-cases (substitute_captures before b)) [
    | inl refused ↦ absurd (ground arith)
    | inr (left, got) ↦ elim (Option-cases (substitute_captures behind b)) [
      | inl refused ↦ absurd (ground arith)
      | inr (right, got') ↦
          let whole : left ++ right ≡ out = ground arith in
          let at : some (byte_len left) ≡ cursor = ground arith in
          (
            rw (← whole, ← at)
                (Filled.at_cursor before behind cut (substitute_captures_sound before b got).0
                  (substitute_captures_sound behind b got').0),
            ground arith,
          )
    ]
  ]
]

fill_in_sound :
    (text : Text) (mark : Option ℕ) (b : Bindings) {out : Text} {cursor : Option ℕ}
    → fill_in text mark b ≡ some (out, cursor)
    → Filled b text mark out cursor × (byte_len out ≤ max_rendered_expand_bytes)
fill_in_sound text none b e = fill_in-none text b e
fill_in_sound text (some pos) b e = fill_in-some text pos b e

extract_missing :
    (base : Text)
    → split_once_text cursor_placeholder base ≡ none
    → extract_cursor_placeholder base ≡ (base, none)
unfolding extract_cursor_placeholder
extract_missing base e = rw (e, extract_cursor_placeholder)

extract_found :
    (base before behind : Text)
    → split_once_text cursor_placeholder base ≡ some (before, behind)
    → extract_cursor_placeholder base ≡ (before ++ behind, some (byte_len before))
unfolding extract_cursor_placeholder
extract_found base before behind e = rw (e, extract_cursor_placeholder)

IsFirst-at :
    (base before behind : Text)
    → split_once_text cursor_placeholder base ≡ some (before, behind)
    → IsFirst cursor_placeholder (before ++ (cursor_placeholder ++ behind)) before
IsFirst-at base before behind e p q h =
    split_once_text_first cursor_placeholder base e p q
      (split_once_text_sound cursor_placeholder base e ∙ h)

-- The sides at the placeholder are the texts before and behind it.
Filled-Rendered_at :
    (abbr : Abbr) (template : Text) (b : Bindings) (before behind : Text) {mark : Option ℕ}
    {out : Text} {cursor : Option ℕ}
    → render_number abbr template b ≡ some (before ++ (cursor_placeholder ++ behind))
    → IsFirst cursor_placeholder (before ++ (cursor_placeholder ++ behind)) before
    → mark ≡ some (byte_len before)
    → Filled b (before ++ behind) mark out cursor
    → Rendered abbr template b out cursor
Filled-Rendered_at abbr template b before behind base first mark (at_end renders) = cc
Filled-Rendered_at abbr template b before behind base first mark
      (at_cursor {pos} l r cut left right) =
    let same : pos ≡ byte_len before = ground arith in
    let cut' = rw same at cut in
    let expected = split_at_byte-append before behind in
    let el : before ≡ l = ground arith in
    let er : behind ≡ r = ground arith in
    Rendered.at_cursor before behind base first (rw el left) (rw er right)

Filled-Rendered_end :
    (abbr : Abbr) (template : Text) (b : Bindings) (base : Text) {mark : Option ℕ} {out : Text}
    {cursor : Option ℕ}
    → render_number abbr template b ≡ some base
    → split_once_text cursor_placeholder base ≡ none
    → mark ≡ none
    → Filled b base mark out cursor
    → Rendered abbr template b out cursor
Filled-Rendered_end abbr template b base got missing mark (at_end renders) =
    Rendered.at_end base got missing renders
Filled-Rendered_end abbr template b base got missing mark (at_cursor l r cut left right) = cc

-- A rendering that succeeds is the template with its repetition done, its first cursor placeholder
-- taken out and its captures put in on both sides of it, with the cursor where the placeholder stood,
-- and it is no longer than 4096 bytes.
pub render_with_cursor_sound :
    (abbr : Abbr) (template : Text) (b : Bindings) {text : Text} {cursor : Option ℕ}
    → render_with_cursor abbr template b ≡ some (text, cursor)
    → Rendered abbr template b text cursor × (byte_len text ≤ max_rendered_expand_bytes)
unfolding render_with_cursor
render_with_cursor_sound abbr template b e = elim (Option-cases (render_number abbr template b)) [
  | inl refused ↦ absurd (ground arith)
  | inr (base, got) ↦ elim (Option-cases (split_once_text cursor_placeholder base)) [
    | inl missing ↦
        let (done, small) =
          fill_in_sound _ _ b (rw (got, render_with_cursor, extract_missing base missing) at e) in
        (Filled-Rendered_end abbr template b base got missing refl done, small)
    | inr ((before, behind), at) ↦
        let (done, small) =
          fill_in_sound _ _ b
            (rw (got, render_with_cursor, extract_found base before behind at) at e) in
        (
          Filled-Rendered_at abbr template b before behind
              (got ∙ ap some (split_once_text_sound cursor_placeholder base at))
              (IsFirst-at base before behind at) refl done,
          small,
        )
  ]
]

abbrev pub CursorFits : Text → Option ℕ → Type 0
CursorFits text none = Unit
CursorFits text (some pos) = IsBoundary text pos

pub Rendered-CursorFits :
    {abbr : Abbr} {template : Text} {b : Bindings} {text : Text} {cursor : Option ℕ}
    → Rendered abbr template b text cursor
    → CursorFits text cursor
Rendered-CursorFits (at_end base got missing renders) = tt
Rendered-CursorFits (at_cursor {left} {right} before behind got first l r) =
    (left, right, refl, refl)
