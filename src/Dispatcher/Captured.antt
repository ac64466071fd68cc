-- ===== src/Dispatcher/Captured.antt =====
-- The script's `${t//"{*}"/"$rest"}` against `substitute_captures` of runex/src/domain/expand.rs.
use runex.Prelude.{
  [], ◌∷◌, ◌++◌, Option, none, some, ◌≡◌, refl, sym, subst, ap, ◌∙◌, ◌==◌, arith, leb, ltb, length,
  if◌then◌else◌, Bool-cases, Option-cases, inl, inr,
}
use runex.Text.{
  Text, byte_len, text_eq, split_once_char, split_once_text, strip_prefix, replace, replace_from,
}
use runex.Text.Slices.{byte_len-append, split_at_byte-append, text_eq_iff}
use runex.Text.Search.{Lacks}
use runex.Model.{cursor_placeholder}
use runex.Expand.Keys.{
  Bindings, glob_capture_placeholder, glob_capture_name, max_rendered_expand_bytes,
}
use runex.Expand.Render.{
  resolve_capture, resolve_placeholder, substitute_captures, extract_cursor_placeholder, join_sides,
  fill_in,
}
use runex.Expand.Captures.{Renders, substitute_captures_lem}
use runex.Cursor.Chars.{byte_cursor_to_char-append}
use runex.Dispatcher.Script.{Out, cyg_filled}
use runex.Dispatcher.Plain.{map_chars}

-- The text within the limit, with its cursor as bash counts it.
abbrev pub within_limit : Out → Option Out
within_limit out = if ltb max_rendered_expand_bytes (byte_len out.0) then none else some out

module _ (captured : Text) where
  abbrev pub glob_bindings : Bindings
  glob_bindings = record { number = none; glob_capture = some captured; groups = none }

  abbrev pub put_capture : Text → Text
  put_capture s = replace glob_capture_placeholder captured s

  -- What stands before a brace is kept.
  replace-Lacks :
      (before s : Text) → Lacks b'{' before → put_capture (before ++ s) ≡ before ++ put_capture s
  unfolding replace replace_from strip_prefix
  replace-Lacks [] s h = refl
  replace-Lacks (c ∷ before) s (ne, h) = ground (arith, replace-Lacks before s h)

  replace_whole : (s : Text) → Lacks b'{' s → put_capture s ≡ s
  unfolding replace replace_from strip_prefix
  replace_whole [] h = refl
  replace_whole (c ∷ s) (ne, h) = ground (arith, replace_whole s h)

  replace_found :
      (behind : Text)
      → put_capture (glob_capture_placeholder ++ behind) ≡ captured ++ put_capture behind
  unfolding replace replace_from strip_prefix
  replace_found behind = refl

  star_resolves :
      (name : Text) {got : Text}
      → resolve_capture name glob_bindings ≡ some got
      → (name ≡ glob_capture_name) × (got ≡ captured)
  unfolding resolve_capture
  star_resolves name e = ground (arith, text_eq_iff name glob_capture_name)

  star_opens : (s : Text) → resolve_placeholder (b'*' ∷ b'}' ∷ s) glob_bindings ≡ some (captured, s)
  unfolding resolve_placeholder resolve_capture split_once_char text_eq
  star_opens s = refl

  -- An opening brace that opens no placeholder of the capture is kept.
  replace_kept :
      (behind : Text)
      → resolve_placeholder behind glob_bindings ≡ none
      → put_capture (b'{' ∷ behind) ≡ b'{' ∷ put_capture behind
  unfolding replace replace_from strip_prefix
  replace_kept [] h = refl
  replace_kept (c ∷ []) h = ground arith
  replace_kept (c ∷ d ∷ s) h = elim (Bool-cases (c == b'*')) [
    | inr other ↦ ground arith
    | inl star_first ↦ elim (Bool-cases (d == b'}')) [
      | inr other ↦ ground arith
      | inl close ↦
          let c_is : c ≡ b'*' = ground arith in
          let d_is : d ≡ b'}' = ground arith in
          absurd (
            ground (
              arith,
              h,
              ap (λ x. resolve_placeholder (x ∷ d ∷ s) glob_bindings) c_is,
              ap (λ x. resolve_placeholder (b'*' ∷ x ∷ s) glob_bindings) d_is,
              star_opens s,
            ))
    ]
  ]

  -- The replacement is the text with its captures put in.
  Renders-replace : {s out : Text} → Renders glob_bindings s out → out ≡ put_capture s
  Renders-replace (Renders.rest {s} lacks) = sym (replace_whole s lacks)
  Renders-replace (Renders.filled {s} {out} before name got behind whole lacks lacks' resolved r) =
      let (is_star, is_captured) = star_resolves name resolved in
      let shape : s ≡ before ++ (glob_capture_placeholder ++ behind) =
        whole ∙ ap (λ n. before ++ (b'{' ∷ (n ++ b'}' ∷ behind))) is_star in
      sym (
        ap put_capture shape
        ∙ replace-Lacks before (glob_capture_placeholder ++ behind) lacks
        ∙ ap (λ t. before ++ t) (replace_found behind)
        ∙ ap (λ t. before ++ (captured ++ t)) (sym (Renders-replace r))
        ∙ ap (λ t. before ++ (t ++ out)) (sym is_captured))
  Renders-replace (Renders.kept {s} {out} before behind whole lacks unresolved r) = sym (
      ap put_capture whole
      ∙ replace-Lacks before (b'{' ∷ behind) lacks
      ∙ ap (λ t. before ++ t) (replace_kept behind unresolved)
      ∙ ap (λ t. before ++ (b'{' ∷ t)) (sym (Renders-replace r)))

  substitute_captured :
      (s : Text)
      → substitute_captures s glob_bindings ≡ (
          if leb (byte_len (put_capture s)) max_rendered_expand_bytes
          then some (put_capture s)
          else none)
  substitute_captured s =
      let (out, renders, value) = substitute_captures_lem s glob_bindings in
      subst
        (λ t.
          substitute_captures s glob_bindings
          ≡ (if leb (byte_len t) max_rendered_expand_bytes then some t else none))
        (Renders-replace renders) value

  fill_sides :
      (before behind : Text)
      → map_chars (fill_in (before ++ behind) (some (byte_len before)) glob_bindings)
        ≡ within_limit
            (put_capture before ++ put_capture behind, some (length (put_capture before)))
  unfolding fill_in join_sides
  fill_sides before behind =
      rw (split_at_byte-append before behind, fill_in)
        (ground (
          arith,
          substitute_captured before,
          substitute_captured behind,
          byte_len-append (put_capture before) (put_capture behind),
          byte_cursor_to_char-append (put_capture before) (put_capture behind),
        ))

  pub fill_in_captured :
      (template : Text)
      → map_chars (
          fill_in
            (extract_cursor_placeholder template).0
            (extract_cursor_placeholder template).1
            glob_bindings)
        ≡ within_limit (cyg_filled template captured)
  unfolding extract_cursor_placeholder cyg_filled fill_in
  fill_in_captured template = elim (Option-cases (split_once_text cursor_placeholder template)) [
    | inl e ↦
        rw (e, extract_cursor_placeholder)
          (rw (e, cyg_filled) (ground (arith, substitute_captured template)))
    | inr ((before, behind), e) ↦
        rw (e, extract_cursor_placeholder) (rw (e, cyg_filled) (fill_sides before behind))
  ]
