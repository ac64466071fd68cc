-- ===== src/Precache/Loading.antt =====
-- Which caches are taken from the variable: `parse_cache` and `load_cache` of
-- runex/src/app/precache.rs.
use runex.Prelude.{
  ◌≤◌, none, some, true, ◌≡◌, ◌↔◌, refl, subst, ap, ◌∙◌, arith, ◌>>=◌, all, length, ltb, Bool-cases,
  inl, inr, >>=-eq_some,
}
use runex.Text.{Text, byte_len}
use runex.Text.Slices.{text_eq_iff}
use runex.Precache.{
  CmdCache, cache_version, max_cache_bytes, max_cache_commands, fingerprint_len, is_ascii_hexdigit,
  Json, checked_cache, parse_cache, load_cache,
}

-- A text that spells a cache of this version, within the limits, for the environment at hand.
pub record IsUsable (json : Json) (text expected : Text) (cache : CmdCache) : Type 0 where
  pub small : byte_len text ≤ max_cache_bytes
  pub spelled : json.from_str text ≡ some cache
  pub version : cache.v ≡ cache_version
  pub hex_length : byte_len cache.fingerprint ≡ fingerprint_len
  pub hex : all is_ascii_hexdigit cache.fingerprint ≡ true
  pub few : length cache.commands ≤ max_cache_commands
  pub fresh : cache.fingerprint ≡ expected

module _ (json : Json) where
  checked_cache_iff :
      (c : CmdCache) (d : CmdCache)
      → (checked_cache json c ≡ some d) ↔ (
          (c ≡ d)
          × (c.v ≡ cache_version)
          × (byte_len c.fingerprint ≡ fingerprint_len)
          × (all is_ascii_hexdigit c.fingerprint ≡ true)
          × (length c.commands ≤ max_cache_commands))
  checked_cache_iff c d = (λ h. ground arith, λ h. ground arith)

  within_limit :
      (text : Text) (c : CmdCache)
      → parse_cache json text ≡ some c
      → (byte_len text ≤ max_cache_bytes) × ((json.from_str text >>= checked_cache json) ≡ some c)
  unfolding parse_cache
  within_limit text c h = elim (Bool-cases (ltb max_cache_bytes (byte_len text))) [
    | inl large ↦ absurd (ground (arith, large))
    | inr small ↦ (ground arith, rw (small, parse_cache) at h)
  ]

  load_cache_sound :
      (text expected : Text) (cache : CmdCache)
      → load_cache json (some text) expected ≡ some cache
      → IsUsable json text expected cache
  unfolding load_cache
  load_cache_sound text expected cache h =
      let (c, parsed, h1) = >>=-eq_some (parse_cache json text) _ h in
      let same : c ≡ cache = ground (arith, h1) in
      let fresh : c.fingerprint ≡ expected =
        ground (arith, h1, text_eq_iff c.fingerprint expected) in
      let (small, rest) = within_limit text c parsed in
      let (d, spelled, h2) = >>=-eq_some (json.from_str text) (checked_cache json) rest in
      let (equal, version, hex_length, hex, few) = (checked_cache_iff d c).0 h2 in
      subst (IsUsable json text expected) same (record {
        small = small;
        spelled = spelled ∙ ap some equal;
        version = subst (λ x. x.v ≡ cache_version) equal version;
        hex_length = subst (λ x. byte_len x.fingerprint ≡ fingerprint_len) equal hex_length;
        hex = subst (λ x. all is_ascii_hexdigit x.fingerprint ≡ true) equal hex;
        few = subst (λ x. length x.commands ≤ max_cache_commands) equal few;
        fresh = fresh;
      })

  load_cache_complete :
      (text expected : Text) (cache : CmdCache)
      → IsUsable json text expected cache
      → load_cache json (some text) expected ≡ some cache
  unfolding load_cache parse_cache
  load_cache_complete text expected cache u = ground (arith, text_eq_iff cache.fingerprint expected)

  -- A cache is taken from the variable exactly where the text has at most 256 KiB and spells a cache
  -- of version 1, whose fingerprint has 16 hexadecimal digits and is the expected one, and which has
  -- at most 10000 entries; an unset variable gives none.
  pub load_cache_iff :
      (expected : Text)
      → ((text : Text) (cache : CmdCache)
          → (load_cache json (some text) expected ≡ some cache) ↔ IsUsable json text expected cache)
        × (load_cache json none expected ≡ none)
  unfolding load_cache
  load_cache_iff expected = (
    λ text cache. (load_cache_sound text expected cache, load_cache_complete text expected cache),
    refl,
  )
