-- ===== src/Expand/Captures.antt =====
-- Captures put into a text: `substitute_captures` of runex/src/domain/expand.rs, described.
use runex.Prelude.{
  ℕ, zero, suc, ◌+◌, ◌≤◌, ◌<◌, min, List, [], ◌∷◌, ◌++◌, none, some, ◌≡◌, subst, ap, ◌∙◌, arith,
  leb, if◌then◌else◌, length, length-append, append_assoc, append-nil, Option-cases, inl, inr,
}
use runex.Text.{Text, byte_len, split_once_char}
use runex.Text.Slices.{byte_len-append}
use runex.Text.Search.{Lacks, split_once_char_sound, split_once_char-none}
use runex.Expand.Keys.{max_rendered_expand_bytes, Bindings}
use runex.Expand.Render.{
  usize_max, saturating_add, resolve_capture, resolve_placeholder, pieces, for_each_rendered_piece,
  total_len, concat, substitute_captures,
}

split_once_char-shorter :
    (c : ℕ) (s : Text) {a b : Text} → split_once_char c s ≡ some (a, b) → length b < length s
split_once_char-shorter c s {a} {b} e =
    let (whole, _) = split_once_char_sound c s e in
    omega (arith, ap length whole, length-append {0} a (c ∷ b))

resolve_placeholder_sound :
    (s : Text) (b : Bindings) {capture behind : Text}
    → resolve_placeholder s b ≡ some (capture, behind)
    → (name : Text) × (split_once_char b'}' s ≡ some (name, behind))
      × (resolve_capture name b ≡ some capture)
unfolding resolve_placeholder
resolve_placeholder_sound s b e = elim (Option-cases (split_once_char b'}' s)) [
  | inl e' ↦ absurd (ground arith)
  | inr ((name, behind'), e') ↦ elim (Option-cases (resolve_capture name b)) [
    | inl none_found ↦ absurd (ground arith)
    | inr (capture', got) ↦ (name, ground arith, ground arith)
  ]
]

-- The text that stands for `s` when the captures of `b` are put in for its placeholders, from left
-- to right: what stands before an opening brace is kept, and so is a brace that opens no
-- placeholder of a capture.
pub data Renders (b : Bindings) : Text → Text → Type 0 where
  rest : {s : Text} → Lacks b'{' s → Renders b s s
  filled :
      {s out : Text} (before name capture behind : Text)
      → s ≡ before ++ (b'{' ∷ (name ++ b'}' ∷ behind))
      → Lacks b'{' before
      → Lacks b'}' name
      → resolve_capture name b ≡ some capture
      → Renders b behind out
      → Renders b s (before ++ (capture ++ out))
  kept :
      {s out : Text} (before behind : Text)
      → s ≡ before ++ b'{' ∷ behind
      → Lacks b'{' before
      → resolve_placeholder behind b ≡ none
      → Renders b behind out
      → Renders b s (before ++ (b'{' ∷ out))

pieces-Renders :
    (fuel : ℕ) (s : Text) (b : Bindings) → length s < fuel → Renders b s (concat (pieces fuel s b))
unfolding pieces
pieces-Renders zero s b h = absurd (omega arith)
pieces-Renders (suc fuel) s b h = elim (Option-cases (split_once_char b'{' s)) [
  | inl e ↦ rw (e, pieces, append-nil) (Renders.rest (split_once_char-none b'{' s e))
  | inr ((before, after), e) ↦
      let (whole, lacks) = split_once_char_sound b'{' s e in
      let shorter = split_once_char-shorter b'{' s e in
      elim (Option-cases (resolve_placeholder after b)) [
        | inl unresolved ↦
            rw (e, pieces)
              (rw (unresolved, append_assoc)
                (Renders.kept before after whole lacks unresolved
                  (pieces-Renders fuel after b (omega arith))))
        | inr ((capture, behind), got) ↦
            let (name, cut, resolved) = resolve_placeholder_sound after b got in
            let (whole', lacks') = split_once_char_sound b'}' after cut in
            let shorter' = split_once_char-shorter b'}' after cut in
            rw (e, pieces)
              (rw got (
                Renders.filled before name capture behind
                  (whole ∙ ap (λ t. before ++ b'{' ∷ t) whole') lacks lacks' resolved
                  (pieces-Renders fuel behind b (omega arith))))
      ]
]

total_len_lem :
    (sum : ℕ) (ps : List Text)
    → sum ≤ usize_max
    → total_len sum ps ≡ min (sum + byte_len (concat ps)) usize_max
total_len_lem sum [] h = omega arith
total_len_lem sum (p ∷ ps) h = omega (
  arith,
  total_len_lem (saturating_add sum (byte_len p)) ps (omega arith),
  byte_len-append p (concat ps),
)

-- A template is filled in from left to right, each placeholder that the bindings know replaced by
-- its capture and everything else kept, and refused exactly where the result is longer than the
-- limit.
pub substitute_captures_lem :
    (s : Text) (b : Bindings)
    → (out : Text) × Renders b s out
      × (substitute_captures s b
          ≡ (if leb (byte_len out) max_rendered_expand_bytes then some out else none))
unfolding substitute_captures for_each_rendered_piece
substitute_captures_lem s b = (
  concat (pieces (suc (length s)) s b),
  pieces-Renders (suc (length s)) s b (omega arith),
  ground (arith, total_len_lem 0 (pieces (suc (length s)) s b) (omega arith)),
)

pub substitute_captures_sound :
    (s : Text) (b : Bindings) {out : Text}
    → substitute_captures s b ≡ some out
    → Renders b s out × (byte_len out ≤ max_rendered_expand_bytes)
substitute_captures_sound s b {out} e =
    let (out', renders, value) = substitute_captures_lem s b in
    let same : out' ≡ out = ground (arith, value) in
    (subst (Renders b s) same renders, ground (arith, value))
