-- ===== src/Release/Supersession/Tests.antt =====
-- Instances of the theorems on the ownership of the canary channel.
use internal.Prelude.{
  ◌≡◌, ◌≢◌, refl, Ordering, true, false, none, some, ◌⊎◌, is_ge, Text, text, keys, Memᴰ, ok, split,
  index_of, ◌===◌,
}
use internal.Release.Version.{
  is_stable_release_version, is_canary_release_version, stable_components, canary_components,
  is_numeric_identifier, big_int, parse_stable_version, compare_parsed_stable_versions,
  compare_stable_versions,
}
use internal.Release.Samples.{
  commit_a, commit_b, commit_c, linear, npm_package, published_0_2_0, published_canary_0,
}
use internal.Release.Supersession.{
  owned, canary_superseded, stable_superseded, published_canary_commits, canary_history, covered_by,
  descendant_stable_supersedes, highest_stable_version, canary_supersession,
}
use internal.Release.Supersession.Stables.{highest_stable_version_max}
use internal.Release.Supersession.Ownership.{owned_canary_behind, owned_base_above}

is_stable_0_2_0 : is_stable_release_version (text "0.2.0") ≡ true
unfolding is_stable_release_version stable_components is_numeric_identifier split
is_stable_0_2_0 = refl

is_stable_0_3_0 : is_stable_release_version (text "0.3.0") ≡ true
unfolding is_stable_release_version stable_components is_numeric_identifier split
is_stable_0_3_0 = refl

is_canary_0 : is_canary_release_version (text "0.3.0-canary.0") ≡ true
unfolding is_canary_release_version canary_components stable_components is_numeric_identifier split
    index_of
is_canary_0 = refl

owned_c : canary_supersession linear commit_c (text "0.3.0") npm_package none ≡ ok owned
unfolding canary_supersession canary_history published_canary_commits descendant_stable_supersedes
    highest_stable_version covered_by is_stable_release_version is_canary_release_version
    canary_components stable_components is_numeric_identifier split index_of compare_stable_versions
    parse_stable_version big_int compare_parsed_stable_versions ◌===◌
owned_c = refl

superseded_a :
    canary_supersession linear commit_a (text "0.3.0") npm_package none ≡ ok canary_superseded
unfolding canary_supersession canary_history published_canary_commits is_canary_release_version
    canary_components stable_components is_numeric_identifier split index_of ◌===◌
superseded_a = refl

covered_c :
    canary_supersession linear commit_c (text "0.2.0") npm_package none ≡ ok stable_superseded
unfolding canary_supersession canary_history published_canary_commits descendant_stable_supersedes
    highest_stable_version covered_by is_stable_release_version is_canary_release_version
    canary_components stable_components is_numeric_identifier split index_of compare_stable_versions
    parse_stable_version big_int compare_parsed_stable_versions ◌===◌
covered_c = refl

highest_example :
    (t : Text) × (o : Ordering) × (highest_stable_version npm_package ≡ ok (some t))
    × Memᴰ t (keys npm_package.versions)
    × (is_stable_release_version t ≡ true)
    × (compare_stable_versions t (text "0.2.0") ≡ ok o)
    × (is_ge o ≡ true)
highest_example =
    highest_stable_version_max npm_package (text "0.2.0") (Memᴰ.head refl) is_stable_0_2_0

owned_canary_example :
    ((commit_b ≡ commit_c) × (none ≡ some (text "0.3.0-canary.0")))
    ⊎ ((commit_b ≢ commit_c)
        × (linear commit_c commit_b ≡ ok false)
        × (linear commit_b commit_c ≡ ok true))
owned_canary_example =
    owned_canary_behind linear commit_c (text "0.3.0") npm_package none (text "0.3.0-canary.0")
      commit_b published_canary_0 owned_c (Memᴰ.tail (Memᴰ.head refl)) is_canary_0 refl

owned_base_example :
    (compare_stable_versions (text "0.3.0") (text "0.2.0") ≡ ok Ordering.gt)
    × ((some commit_a ≡ none)
        ⊎ ((c : Text) × (some commit_a ≡ some c) × (linear commit_c c ≡ ok false)))
owned_base_example =
    owned_base_above linear commit_c (text "0.3.0") npm_package none (text "0.2.0") published_0_2_0
      owned_c is_stable_0_3_0 (Memᴰ.head refl) is_stable_0_2_0
