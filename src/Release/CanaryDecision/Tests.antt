-- ===== src/Release/CanaryDecision/Tests.antt =====
-- Instances of the theorems on the canary that is cut.
use internal.Prelude.{
  All, ℕ, ◌≡◌, refl, Ordering, true, none, List, [], ◌∷◌, ◌++◌, ◌⊎◌, Text, text, ◌===◌, keys, Memᴰ,
  ok, split, index_of,
}
use internal.Release.Version.{
  is_stable_release_version, is_canary_release_version, stable_components, canary_components,
  is_numeric_identifier, big_int, decimal, parse_stable_version, parse_canary_version,
  assert_stable_release_version, assert_canary_release_version, format_canary_version,
  compare_parsed_stable_versions, compare_stable_versions, compare_canary_versions,
}
use internal.Release.Samples.{commit_c, linear, npm_package}
use internal.Release.Supersession.{
  owned, published_canary_commits, canary_history, covered_by, descendant_stable_supersedes,
  highest_stable_version, canary_supersession,
}
use internal.Release.CanaryDecision.{
  CanaryTarget, cut, skip, skip_regressed_base, raise_next, numbered, next_from,
  next_canary_version, decide_canary,
}
use internal.Release.CanaryDecision.Numbering.{IsPassed, IsSuccessor}
use internal.Release.CanaryDecision.Freshness.{decide_canary-newest, decide_canary-first_free}

abbrev target_0_3_0 : CanaryTarget
target_0_3_0 = record { commit = commit_c; current = text "0.2.0"; base = text "0.3.0" }

abbrev later_base : List Text
later_base = text "0.4.0-canary.0" ∷ []

is_canary_0 : is_canary_release_version (text "0.3.0-canary.0") ≡ true
unfolding is_canary_release_version canary_components stable_components is_numeric_identifier split
    index_of
is_canary_0 = refl

cuts : decide_canary linear target_0_3_0 npm_package [] ≡ ok (cut (text "0.3.0-canary.1"))
unfolding decide_canary canary_supersession canary_history published_canary_commits
    descendant_stable_supersedes highest_stable_version covered_by is_stable_release_version
    is_canary_release_version canary_components stable_components is_numeric_identifier split
    index_of compare_stable_versions parse_stable_version big_int compare_parsed_stable_versions
    parse_canary_version assert_stable_release_version assert_canary_release_version
    format_canary_version decimal ◌===◌ next_canary_version next_from raise_next numbered
cuts = refl

skips : decide_canary linear target_0_3_0 npm_package later_base ≡ ok (skip skip_regressed_base)
unfolding decide_canary canary_supersession canary_history published_canary_commits
    descendant_stable_supersedes highest_stable_version covered_by is_stable_release_version
    is_canary_release_version canary_components stable_components is_numeric_identifier split
    index_of compare_stable_versions parse_stable_version big_int compare_parsed_stable_versions
    parse_canary_version assert_stable_release_version format_canary_version decimal ◌===◌
    next_canary_version next_from raise_next numbered
skips = refl

newest_example :
    compare_canary_versions (text "0.3.0-canary.1") (text "0.3.0-canary.0") ≡ ok Ordering.gt
newest_example =
    decide_canary-newest linear target_0_3_0 npm_package [] (text "0.3.0-canary.1")
      (text "0.3.0-canary.0") cuts (Memᴰ.tail (Memᴰ.head refl)) is_canary_0

first_free_example :
    (n : ℕ) × (parse_canary_version (text "0.3.0-canary.1")
      ≡ ok (record { base = text "0.3.0"; n = n }))
    × (compare_stable_versions (text "0.3.0") (text "0.2.0") ≡ ok Ordering.gt)
    × (canary_supersession linear commit_c (text "0.3.0") npm_package none ≡ ok owned)
    × All (IsPassed (text "0.3.0") n) (keys npm_package.versions ++ [])
    × ((n ≡ 0) ⊎ IsSuccessor (text "0.3.0") n (keys npm_package.versions ++ []))
first_free_example =
    decide_canary-first_free linear target_0_3_0 npm_package [] (text "0.3.0-canary.1") cuts
