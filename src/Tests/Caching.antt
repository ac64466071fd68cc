-- ===== src/Tests/Caching.antt =====
-- A cache of answers, for the sample configuration.
use runex.Prelude.{some, Bool, ◌≡◌, All}
use runex.Text.{Text, codes, text_eq}
use runex.Precache.{condition_lists, get, build_cache}
use runex.Precache.Answers.{build_cache-answers}
use runex.Tests.{sample}

abbrev only_lsd : Text → Bool
only_lsd name = text_eq name (codes "lsd")

build_cache-answers_example :
    All
      (λ rule.
        All
          (All (λ cmd.
            get (build_cache only_lsd sample (codes "00ff")).commands cmd ≡ some (only_lsd cmd)))
          (condition_lists rule))
      sample.abbr
build_cache-answers_example = build_cache-answers only_lsd sample (codes "00ff")
