-- ===== src/Integration/Refreshed.antt =====
-- The cache file that runex/src/infra/integration_cache.rs heads, as
-- runex/src/infra/integration_check.rs finds it.
use runex.Prelude.{
  List, [], ◌∷◌, ◌++◌, none, some, true, false, ◌≡◌, refl, sym, subst, ap, ◌∙◌, ◌||◌, arith, All,
  All-append, ◌≢◌, take, append_assoc, if◌then◌else◌, Bool-cases, inl, inr,
}
use runex.Text.{
  Text, codes, text_eq, trim, trim_start, trim_end, is_whitespace, split_once_text, strip_prefix,
  contains_char,
}
use runex.Text.Search.{Lacks, contains_char-Lacks}
use runex.Text.Lines.{lines, lines-append}
use runex.Model.{Shell, bash, zsh, pwsh, clink, nu}
use runex.Expand.Keys.{parse_digits}
use runex.Precache.{fold}
use runex.Places.{HomeDirResolver}
use runex.Integration.{
  integration_cache_marker, bin_marker, cache_path, version_line, bin_line, generated_line,
  cache_header, comment_prefix_for,
}
use runex.Integration.Check.{Files, read_capped_regular_file}
use runex.Integration.Freshness.{
  parse_u32, Headers, read_header, headers_of, up_to_date, gone, check_bin, check_version,
  check_headers, check_target, check_cache_freshness,
}

-- A line that holds no header.
pub record IsSilent (line : Text) : Type 0 where
  pub no_version : split_once_text integration_cache_marker line ≡ none
  pub no_bin : split_once_text bin_marker line ≡ none

-- A text without line breaks.
abbrev pub IsUnbroken : Text → Type 0
IsUnbroken s = Lacks 0x0A s × Lacks 0x0D s

silent_line : (found : Headers) (line : Text) → IsSilent line → read_header found line ≡ found
unfolding read_header
silent_line found line s = rw (s.no_version, read_header, s.no_bin) refl

silent_lines :
    (found : Headers) (ls : List Text) → All IsSilent ls → fold read_header found ls ≡ found
silent_lines found [] h = refl
silent_lines found (l ∷ ls) (s, h) =
    ap (λ f. fold read_header f ls) (silent_line found l s) ∙ silent_lines found ls h

read-version :
    (found : Headers) → read_header found (version_line (codes "#")) ≡ (some (codes "3"), found.1)
unfolding read_header split_once_text strip_prefix trim trim_start trim_end is_whitespace
read-version found = refl

read-bin :
    (found : Headers) (bin : Text)
    → split_once_text integration_cache_marker bin ≡ none
    → read_header found (bin_line (codes "#") bin) ≡ (found.0, some bin)
unfolding read_header split_once_text strip_prefix
read-bin found bin h =
    let absent : split_once_text integration_cache_marker (bin_line (codes "#") bin) ≡ none =
      rw (h, split_once_text) refl in
    rw (absent, read_header) refl

read-generated : (found : Headers) → read_header found (generated_line (codes "#")) ≡ found
unfolding read_header split_once_text strip_prefix
read-generated found = refl

IsUnbroken-append : (a b : Text) → IsUnbroken a → IsUnbroken b → IsUnbroken (a ++ b)
IsUnbroken-append a b (h, k) (h', k') =
    (All-append (λ c. c ≢ 0x0A) a b h h', All-append (λ c. c ≢ 0x0D) a b k k')

lines-unbroken : (l s : Text) → IsUnbroken l → lines (l ++ 0x0A ∷ s) ≡ l ∷ lines s
lines-unbroken l s (h, k) = lines-append l s h k

fixed : (s : Text) → contains_char 0x0A s ≡ false → contains_char 0x0D s ≡ false → IsUnbroken s
fixed s h k = (contains_char-Lacks 0x0A s h, contains_char-Lacks 0x0D s k)

lines-header :
    (bin body : Text)
    → IsUnbroken bin
    → lines (cache_header (codes "#") bin ++ body)
      ≡ version_line (codes "#")
        ∷ bin_line (codes "#") bin
        ∷ generated_line (codes "#")
        ∷ lines body
unfolding cache_header
lines-header bin body h =
    let v = version_line (codes "#") in
    let g = generated_line (codes "#") in
    let start = codes "# runex-bin: " in
    ap (λ t. lines (v ++ 0x0A ∷ (start ++ t))) (append_assoc bin (0x0A ∷ (g ++ 0x0A ∷ [])) body)
    ∙ lines-unbroken v (start ++ (bin ++ 0x0A ∷ (g ++ 0x0A ∷ body))) (fixed v refl refl)
    ∙ ap (λ ls. v ∷ ls)
        (lines-unbroken (start ++ bin) (g ++ 0x0A ∷ body)
            (IsUnbroken-append start bin (fixed start refl refl) h)
          ∙ ap (λ ls. (start ++ bin) ∷ ls) (lines-unbroken g body (fixed g refl refl)))

headers_of-header :
    (bin body : Text)
    → IsUnbroken bin
    → split_once_text integration_cache_marker bin ≡ none
    → All IsSilent (take 2 (lines body))
    → headers_of (cache_header (codes "#") bin ++ body) ≡ (some (codes "3"), some bin)
unfolding headers_of
headers_of-header bin body h plain quiet =
    ap (λ ls. fold read_header (none, none) (take 5 ls)) (lines-header bin body h)
    ∙ silent_lines _ (take 2 (lines body)) quiet
    ∙ read-generated (
        read_header (read_header (none, none) (version_line (codes "#")))
          (bin_line (codes "#") bin))
    ∙ read-bin (read_header (none, none) (version_line (codes "#"))) bin plain
    ∙ ap (λ f. (f.0, some bin)) (read-version (none, none))

hashed :
    (shell : Shell) (env : HomeDirResolver) {target : Text}
    → cache_path shell env ≡ inr (some target)
    → comment_prefix_for shell ≡ codes "#"
unfolding cache_path comment_prefix_for
hashed bash env h = refl
hashed zsh env h = refl
hashed pwsh env h = refl
hashed nu env h = refl
hashed clink env h = absurd (ground arith)

module _ (files : Files) (shell : Shell) (env : HomeDirResolver) where
  at_target :
      (target : Text)
      → cache_path shell env ≡ inr (some target)
      → check_cache_freshness files shell env ≡ check_target files shell target
  unfolding check_cache_freshness
  at_target target at = rw (at, check_cache_freshness) refl

  at_content :
      (target content : Text)
      → files.exists target ≡ true
      → read_capped_regular_file files target ≡ some content
      → check_target files shell target ≡ check_headers files shell target (headers_of content)
  unfolding check_target
  at_content target content there reads = rw (there, reads, check_target) refl

  at_bin :
      (target bin : Text)
      → check_headers files shell target (some (codes "3"), some bin) ≡ (
          if text_eq (trim bin) (codes "runex") || files.exists (trim bin)
          then up_to_date files shell target
          else gone files shell target (trim bin))
  unfolding check_headers check_version check_bin parse_u32 parse_digits
  at_bin target bin = elim (Bool-cases (text_eq (trim bin) (codes "runex"))) [
    | inl e ↦ rw (e, check_bin) refl
    | inr e ↦ elim (Bool-cases (files.exists (trim bin))) [
      | inl e' ↦ rw (e, e', check_bin) refl
      | inr e' ↦ rw (e, e', check_bin) refl
    ]
  ]

  -- A cache file that `runex init` wrote for a shell, its header before a script whose first two lines
  -- hold no header, is found up to date exactly where its program is the bare name `runex` or a
  -- file that exists, and else outdated; the program's path has no line break and no version marker.
  pub check_cache_freshness-header :
      (target bin body : Text)
      → cache_path shell env ≡ inr (some target)
      → files.exists target ≡ true
      → read_capped_regular_file files target
        ≡ some (cache_header (comment_prefix_for shell) bin ++ body)
      → IsUnbroken bin
      → split_once_text integration_cache_marker bin ≡ none
      → All IsSilent (take 2 (lines body))
      → check_cache_freshness files shell env ≡ (
          if text_eq (trim bin) (codes "runex") || files.exists (trim bin)
          then up_to_date files shell target
          else gone files shell target (trim bin))
  check_cache_freshness-header target bin body at there reads h plain quiet =
      let found =
        subst (λ p. headers_of (cache_header p bin ++ body) ≡ (some (codes "3"), some bin))
          (sym (hashed shell env at)) (headers_of-header bin body h plain quiet) in
      at_target target at
      ∙ at_content target (cache_header (comment_prefix_for shell) bin ++ body) there reads
      ∙ ap (check_headers files shell target) found
      ∙ at_bin target bin
