-- ===== src/Dispatcher/Words.antt =====
-- The position test of the script in runex/src/app/bash_static_dispatcher.rs against
-- `is_command_position` of runex/src/domain/hook.rs.
use runex.Prelude.{
  ℕ, zero, suc, ◌-◌, ◌≤◌, [], ◌∷◌, ◌++◌, none, true, ◌≡◌, refl, sym, ap, ◌∙◌, arith, length,
  length-append, take-append, append_assoc, Bool-cases, Option-cases, inl, inr,
}
use runex.Text.{Text, contains_char, strip_suffix, trim_end_char, text_eq}
use runex.Text.Slices.{text_eq_iff}
use runex.Text.Search.{Lacks, strip_suffix_sound}
use runex.Hook.{
  trim_trailing_spaces, ends_with_pipeline_operator, strip_trailing_sudo, is_command_start,
  is_command_position,
}
use runex.Hook.Words.{WordStart, line_start, behind_space, last_word_split}
use runex.Dispatcher.Press.{
  cut_spaces_loop, cut_spaces, last_word, without_word, ends_in_operator, before_last,
  cyg_is_command_position,
}
use runex.Expand.Number.{Lacks-contains_char}

-- The loop takes off what `trim_end_matches` does.
trim_space : (s : Text) → trim_end_char b' ' (s ++ b' ' ∷ []) ≡ trim_end_char b' ' s
unfolding trim_end_char
trim_space [] = refl
trim_space (c ∷ s) = rw (trim_space s) refl

trim_none : (s : Text) → strip_suffix (b' ' ∷ []) s ≡ none → trim_end_char b' ' s ≡ s
unfolding trim_end_char strip_suffix text_eq
trim_none [] h = refl
trim_none (c ∷ []) h = ground arith
trim_none (c ∷ d ∷ s) h = ground (arith, trim_none (d ∷ s))

cut_spaces_loop-trim :
    (n : ℕ) (s : Text) → length s ≤ n → cut_spaces_loop n s ≡ trim_end_char b' ' s
unfolding cut_spaces_loop trim_end_char
cut_spaces_loop-trim zero [] h = refl
cut_spaces_loop-trim zero (c ∷ s) h = absurd (omega arith)
cut_spaces_loop-trim (suc n) s h = elim (Option-cases (strip_suffix (b' ' ∷ []) s)) [
  | inl e ↦ rw (e, cut_spaces_loop) (sym (trim_none s e))
  | inr (t, e) ↦
      let whole = strip_suffix_sound (b' ' ∷ []) s e in
      rw (e, cut_spaces_loop)
        (cut_spaces_loop-trim n t (omega (arith, ap length whole, length-append t (b' ' ∷ [])))
          ∙ sym (ap (trim_end_char b' ') whole ∙ trim_space t))
]

pub cut_spaces-trim : (s : Text) → cut_spaces s ≡ trim_trailing_spaces s
unfolding cut_spaces trim_trailing_spaces
cut_spaces-trim s = cut_spaces_loop-trim (length s) s (omega arith)

-- The last word is found again behind the space it follows.
last_word-plain : (w : Text) → Lacks b' ' w → last_word w ≡ w
unfolding last_word
last_word-plain [] h = refl
last_word-plain (c ∷ w) h = rw (Lacks-contains_char b' ' (c ∷ w) h) refl

contains_space : (a w : Text) → contains_char b' ' (a ++ b' ' ∷ w) ≡ true
contains_space [] w = refl
contains_space (c ∷ a) w = ground (arith, contains_space a w)

last_word-behind : (a w : Text) → Lacks b' ' w → last_word (a ++ b' ' ∷ w) ≡ w
unfolding last_word
last_word-behind [] w h = last_word-plain w h
last_word-behind (c ∷ a) w h = rw (contains_space (c ∷ a) w) (last_word-behind a w h)

pub last_word-append : (a w : Text) → WordStart a → Lacks b' ' w → last_word (a ++ w) ≡ w
last_word-append [] w line_start h = last_word-plain w h
last_word-append _ w (behind_space a) h = rw (append_assoc a (b' ' ∷ []) w) (last_word-behind a w h)

pub without_word-append : (a w : Text) → without_word (a ++ w) w ≡ a
without_word-append a w =
    let front : length (a ++ w) - length w ≡ length a = omega (arith, length-append a w) in
    rw front (take-append a w)

before_last-append : (a w : Text) → WordStart a → Lacks b' ' w → before_last (a ++ w) ≡ a
unfolding before_last
before_last-append a w start h = elim (Bool-cases (text_eq (last_word (a ++ w)) (a ++ w))) [
  | inr other ↦ rw (other, before_last, last_word-append a w start h) (without_word-append a w)
  | inl same ↦
      let whole : w ≡ a ++ w = sym (last_word-append a w start h) ∙ (text_eq_iff _ _).0 same in
      rw (same, before_last) (sym (empty_of a (omega (arith, ap length whole, length-append a w))))
]
  where
    empty_of : (a : Text) → length a ≡ 0 → a ≡ []
    empty_of [] e = refl
    empty_of (c ∷ a) e = absurd (omega arith)

-- The two tests accept the same lines.
pub cyg_is_command_position-is_command_position :
    (line : Text) → cyg_is_command_position line ≡ is_command_position line
unfolding cyg_is_command_position is_command_position is_command_start strip_trailing_sudo
    ends_with_pipeline_operator ends_in_operator
cyg_is_command_position-is_command_position line =
    let (a, w, cut, whole, start, lacks) = last_word_split (trim_trailing_spaces line) in
    let found : last_word (trim_trailing_spaces line) ≡ w =
      ap last_word whole ∙ last_word-append a w start lacks in
    let front : before_last (trim_trailing_spaces line) ≡ a =
      ap before_last whole ∙ before_last-append a w start lacks in
    ground (arith, cut_spaces-trim line, cut, found, front, cut_spaces-trim a)
