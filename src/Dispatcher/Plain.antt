-- ===== src/Dispatcher/Plain.antt =====
-- Rendering where nothing is captured: what `render_with_cursor` of runex/src/domain/expand.rs does
-- for an exact rule, and for a `{number}` rule behind its repetition.
use runex.Prelude.{
  ℕ, ◌≤◌, ◌∷◌, ◌++◌, Option, none, some, ◌≡◌, refl, sym, subst, ap, ◌∙◌, arith, leb, length,
  if◌then◌else◌, Option-cases, inl, inr,
}
use runex.Text.{Text, byte_len, split_once_text}
use runex.Text.Search.{split_once_text_sound}
use runex.Text.Slices.{byte_len-append, split_at_byte-append}
use runex.Model.{cursor_placeholder}
use runex.Expand.Keys.{Bindings, max_rendered_expand_bytes}
use runex.Expand.Render.{
  resolve_capture, substitute_captures, extract_cursor_placeholder, join_sides, fill_in,
}
use runex.Expand.Captures.{Renders, substitute_captures_lem}
use runex.Cursor.{byte_cursor_to_char}
use runex.Cursor.Chars.{byte_cursor_to_char-append}
use runex.Dispatcher.Script.{Out, at_cursor}

-- A result of the program with its cursor as bash counts it.
abbrev pub in_chars : Text × Option ℕ → Out
in_chars (text, none) = (text, none)
in_chars (text, some off) = (text, some (byte_cursor_to_char text off))

abbrev pub map_chars : Option (Text × Option ℕ) → Option Out
map_chars none = none
map_chars (some r) = some (in_chars r)

module _ (number : Option ℕ) where
  abbrev uncaptured : Bindings
  uncaptured = record { number = number; glob_capture = none; groups = none }

  resolve_nothing : (name : Text) → resolve_capture name uncaptured ≡ none
  unfolding resolve_capture
  resolve_nothing name = ground arith

  Renders-same : {s out : Text} → Renders uncaptured s out → out ≡ s
  Renders-same (Renders.rest lacks) = refl
  Renders-same (Renders.filled before name capture behind whole lacks lacks' got r) =
      absurd (ground (arith, got, resolve_nothing name))
  Renders-same (Renders.kept before behind whole lacks not_got r) =
      sym (whole ∙ ap (λ t. before ++ (b'{' ∷ t)) (sym (Renders-same r)))

  substitute_nothing :
      (s : Text)
      → substitute_captures s uncaptured
        ≡ (if leb (byte_len s) max_rendered_expand_bytes then some s else none)
  substitute_nothing s =
      let (out, renders, value) = substitute_captures_lem s uncaptured in
      let same : out ≡ s = Renders-same renders in
      subst
        (λ t.
          substitute_captures s uncaptured
          ≡ (if leb (byte_len t) max_rendered_expand_bytes then some t else none))
        same value

  small_substitute :
      (s : Text)
      → byte_len s ≤ max_rendered_expand_bytes
      → substitute_captures s uncaptured ≡ some s
  small_substitute s h = substitute_nothing s ∙ ground arith

  fill_sides :
      (before behind : Text)
      → byte_len (before ++ behind) ≤ max_rendered_expand_bytes
      → map_chars (fill_in (before ++ behind) (some (byte_len before)) uncaptured)
        ≡ some (before ++ behind, some (length before))
  unfolding fill_in join_sides
  fill_sides before behind h =
      let sum = byte_len-append before behind in
      rw (split_at_byte-append before behind, fill_in)
        (rw
          (
            small_substitute before (omega (arith, sum)),
            small_substitute behind (omega (arith, sum)),
          )
          (ground (arith, byte_cursor_to_char-append before behind)))

  -- A text within the limit is filled in as it is, and its cursor comes out where its first `{}` was.
  pub fill_in_plain :
      (text : Text)
      → byte_len text ≤ max_rendered_expand_bytes
      → map_chars (
          fill_in
            (extract_cursor_placeholder text).0
            (extract_cursor_placeholder text).1
            uncaptured)
        ≡ some (at_cursor text)
  unfolding extract_cursor_placeholder at_cursor fill_in
  fill_in_plain text h = elim (Option-cases (split_once_text cursor_placeholder text)) [
    | inl e ↦
        rw (e, extract_cursor_placeholder)
          (rw (e, at_cursor) (rw (small_substitute text h, fill_in) refl))
    | inr ((before, behind), e) ↦
        let whole = split_once_text_sound cursor_placeholder text e in
        let total : byte_len (before ++ behind) ≤ max_rendered_expand_bytes = omega (
          arith,
          h,
          ap byte_len whole,
          byte_len-append before behind,
          byte_len-append before (cursor_placeholder ++ behind),
          byte_len-append cursor_placeholder behind,
        ) in
        rw (e, extract_cursor_placeholder) (rw (e, at_cursor) (fill_sides before behind total))
  ]
