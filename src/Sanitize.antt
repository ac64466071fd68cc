-- ===== src/Sanitize.antt =====
-- runex/src/domain/sanitize.rs: the characters that are not printed to a terminal.
pub mod Laws
use runex.Prelude.{ℕ, [], ◌∷◌, Option, none, some, Bool, ◌||◌, ◌&&◌, not, ◌==◌, if◌then◌else◌, keep}
use runex.Text.{Text, codes, in_range, is_ascii_control}

abbrev is_soft_hyphen : ℕ → Bool
is_soft_hyphen c = c == 0xAD

abbrev is_combining_grapheme_joiner : ℕ → Bool
is_combining_grapheme_joiner c = c == 0x34F

abbrev is_arabic_letter_mark : ℕ → Bool
is_arabic_letter_mark c = c == 0x61C

abbrev is_hangul_filler : ℕ → Bool
is_hangul_filler c = in_range 0x115F 0x1160 c || c == 0x3164 || c == 0xFFA0

abbrev is_khmer_invisible_vowel : ℕ → Bool
is_khmer_invisible_vowel c = in_range 0x17B4 0x17B5 c

abbrev is_mongolian_free_variation_selector : ℕ → Bool
is_mongolian_free_variation_selector c = in_range 0x180B 0x180D c || c == 0x180F

abbrev is_zero_width : ℕ → Bool
is_zero_width c = in_range 0x200B 0x200F c

abbrev is_bidi_control : ℕ → Bool
is_bidi_control c = in_range 0x202A 0x202E c

abbrev is_invisible_operator : ℕ → Bool
is_invisible_operator c = in_range 0x2060 0x206F c

abbrev is_variation_selector : ℕ → Bool
is_variation_selector c = in_range 0xFE00 0xFE0F c

abbrev is_bom : ℕ → Bool
is_bom c = c == 0xFEFF

abbrev is_interlinear_annotation : ℕ → Bool
is_interlinear_annotation c = in_range 0xFFF9 0xFFFB c

abbrev is_tag : ℕ → Bool
is_tag c = in_range 0xE0000 0xE007F c

unfoldable pub is_unicode_line_separator : ℕ → Bool
is_unicode_line_separator c = c == 0x85 || in_range 0x2028 0x2029 c

unfoldable pub is_deceptive_unicode : ℕ → Bool
is_deceptive_unicode c =
    is_soft_hyphen c
    || is_combining_grapheme_joiner c
    || is_arabic_letter_mark c
    || is_hangul_filler c
    || is_khmer_invisible_vowel c
    || is_mongolian_free_variation_selector c
    || is_zero_width c
    || is_bidi_control c
    || is_invisible_operator c
    || is_variation_selector c
    || is_bom c
    || is_interlinear_annotation c
    || is_tag c

unfoldable pub is_unsafe_for_display : ℕ → Bool
unfolding is_unicode_line_separator is_deceptive_unicode
is_unsafe_for_display c =
    is_ascii_control c || is_unicode_line_separator c || is_deceptive_unicode c

unfoldable pub sanitize_for_display : Text → Text
sanitize_for_display s = keep (λ c. not (is_unsafe_for_display c)) s

abbrev pub is_line_or_tab : ℕ → Bool
is_line_or_tab c = c == b'\n' || c == b'\r' || c == b'\t'

unfoldable pub sanitize_multiline_for_display : Text → Text
sanitize_multiline_for_display s = keep (λ c. is_line_or_tab c || not (is_unsafe_for_display c)) s

unfoldable pub double_quote_escape : ℕ → Option Text
double_quote_escape c =
    if c == b'\\'
    then some (codes "\\\\")
    else if c == b'"'
    then some (codes "\\\"")
    else if c == b'\n'
    then some (codes "\\n")
    else if c == b'\r'
    then some (codes "\\r")
    else if c == b'\t'
    then some (codes "\\t")
    else none

unfoldable pub is_nu_drop_char : ℕ → Bool
is_nu_drop_char c = not (is_line_or_tab c) && is_unsafe_for_display c
