-- ===== src/Hook/Words.antt =====
-- The last word of a line, as runex/src/domain/hook.rs finds it.
use runex.Prelude.{
  ℕ, ◌+◌, [], ◌∷◌, ◌++◌, Option, none, some, ◌≡◌, refl, sym, ◌∙◌, arith, ==_of_ne, append_assoc,
}
use runex.Text.{Text, byte_len, rfind_char, split_at_byte}
use runex.Text.Slices.{byte_len-append, split_at_byte-append}
use runex.Text.Search.{Lacks, LastChar, missing, found, rfind_char-LastChar}
use runex.Hook.{last_word_start}

-- Nothing, or a text that ends in a space.
pub data WordStart : Text → Type 0 where
  line_start : WordStart []
  behind_space : (a : Text) → WordStart (a ++ b' ' ∷ [])

-- Behind the last space of a text.
pub last_word_split :
    (s : Text)
    → (a : Text) × (w : Text) × (split_at_byte s (last_word_start s) ≡ some (a, w))
      × (s ≡ a ++ w)
      × WordStart a
      × Lacks b' ' w
last_word_split s = from (rfind_char-LastChar b' ' s)
  where
    from :
        {o : Option ℕ}
        → LastChar b' ' s o
        → (a : Text) × (w : Text) × (split_at_byte s (elim o [ none ↦ 0 | some i ↦ i + 1 ])
            ≡ some (a, w))
          × (s ≡ a ++ w)
          × WordStart a
          × Lacks b' ' w
    from (missing lacks) = ([], s, split_at_byte-append [] s, refl, line_start, lacks)
    from (found a b whole lacks) =
        let whole' : s ≡ (a ++ b' ' ∷ []) ++ b = whole ∙ sym (append_assoc a (b' ' ∷ []) b) in
        (
          a ++ b' ' ∷ [],
          b,
          rw (whole', ← byte_len-append a (b' ' ∷ [])) (split_at_byte-append (a ++ b' ' ∷ []) b),
          whole',
          behind_space a,
          lacks,
        )

rfind_char_missing : (c : ℕ) (s : Text) → Lacks c s → rfind_char c s ≡ none
unfolding rfind_char
rfind_char_missing c [] h = refl
rfind_char_missing c (d ∷ s) (ne, h) = rw (rfind_char_missing c s h, ==_of_ne d c ne)

rfind_char-append : (c : ℕ) (a w : Text) → Lacks c w → rfind_char c (a ++ c ∷ w) ≡ some (byte_len a)
unfolding rfind_char
rfind_char-append c [] w h = rw (rfind_char_missing c w h) (ground arith)
rfind_char-append c (d ∷ a) w h = rw (rfind_char-append c a w h)

start_missing : (w : Text) → Lacks b' ' w → last_word_start w ≡ 0
start_missing w h = rw (rfind_char_missing b' ' w h, last_word_start) refl

start-append : (a w : Text) → Lacks b' ' w → last_word_start (a ++ b' ' ∷ w) ≡ byte_len a + 1
start-append a w h = rw (rfind_char-append b' ' a w h, last_word_start) refl

-- A last word without a space is found again.
pub last_word_split-append :
    (a w : Text)
    → WordStart a
    → Lacks b' ' w
    → split_at_byte (a ++ w) (last_word_start (a ++ w)) ≡ some (a, w)
last_word_split-append [] w line_start h = rw (start_missing w h) (split_at_byte-append [] w)
last_word_split-append _ w (behind_space a) h =
    rw
      (
        append_assoc a (b' ' ∷ []) w,
        start-append a w h,
        ← append_assoc a (b' ' ∷ []) w,
        ← byte_len-append a (b' ' ∷ []),
      )
      (split_at_byte-append (a ++ b' ' ∷ []) w)
