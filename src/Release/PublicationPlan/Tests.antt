-- ===== src/Release/PublicationPlan/Tests.antt =====
-- Instances of the theorems on publication plans.
use internal.Prelude.{
  ◌≡◌, ◌≢◌, ◌↔◌, refl, Ordering, true, false, none, some, [], ◌∷◌, text, ◌===◌, get, ok, split,
  index_of,
}
use internal.Release.Version.{
  is_stable_release_version, is_canary_release_version, stable_components, canary_components,
  is_numeric_identifier, big_int, parse_stable_version, parse_canary_version,
  assert_stable_release_version, assert_canary_release_version, compare_parsed_stable_versions,
  compare_stable_versions, compare_canary_versions, canary_order,
}
use internal.Release.Npm.{Registry}
use internal.Release.Samples.{
  commit_b, commit_c, linear, published_canary_0, npm_package, canary_release, stable_release,
}
use internal.Release.Supersession.{
  published_canary_commits, canary_history, covered_by, descendant_stable_supersedes,
  highest_stable_version, canary_supersession,
}
use internal.Release.PublicationPlan.{
  commit_of, publish, dist_tag_for, absent, match, npm_identity, plan_publication,
}
use internal.Release.PublicationPlan.Identity.{IsPublished, npm_identity_iff}
use internal.Release.PublicationPlan.Promotion.{promote_stable_above, promote_canary_forward}
use internal.Release.PublicationPlan.Upload.{UploadsMissing, plan_publication-UploadsMissing}

-- The tag `canary` is at a version whose commit npm does not know.
abbrev unknown_tag : Registry
unknown_tag = record {
  versions = (text "0.3.0-canary.0", record { integrity = none; commit = none }) ∷ [];
  tags = (text "canary", text "0.3.0-canary.0") ∷ [];
}

is_stable_0_2_0 : is_stable_release_version (text "0.2.0") ≡ true
unfolding is_stable_release_version stable_components is_numeric_identifier split
is_stable_0_2_0 = refl

is_canary_0 : is_canary_release_version (text "0.3.0-canary.0") ≡ true
unfolding is_canary_release_version canary_components stable_components is_numeric_identifier split
    index_of
is_canary_0 = refl

latest_tag : get (text "latest") npm_package.tags ≡ some (text "0.2.0")
unfolding get ◌===◌
latest_tag = refl

canary_tag : get (text "canary") npm_package.tags ≡ some (text "0.3.0-canary.0")
unfolding get ◌===◌
canary_tag = refl

unknown_tag_at : get (text "canary") unknown_tag.tags ≡ some (text "0.3.0-canary.0")
unfolding get ◌===◌
unknown_tag_at = refl

listed : get (text "0.3.0-canary.0") npm_package.versions ≡ some published_canary_0
unfolding get ◌===◌
listed = refl

unknown_commit : commit_of (get (text "0.3.0-canary.0") unknown_tag.versions) ≡ none
unfolding get ◌===◌ commit_of
unknown_commit = refl

stable_plan : plan_publication linear stable_release npm_package ≡ ok (publish true true)
unfolding plan_publication npm_identity is_stable_release_version stable_components
    is_numeric_identifier split big_int parse_stable_version compare_parsed_stable_versions
    compare_stable_versions dist_tag_for get ◌===◌
stable_plan = refl

canary_plan : plan_publication linear canary_release npm_package ≡ ok (publish true true)
unfolding plan_publication npm_identity canary_supersession canary_history published_canary_commits
    descendant_stable_supersedes highest_stable_version covered_by is_stable_release_version
    is_canary_release_version canary_components stable_components is_numeric_identifier split
    index_of compare_stable_versions parse_stable_version big_int compare_parsed_stable_versions
    parse_canary_version assert_stable_release_version dist_tag_for get ◌===◌
canary_plan = refl

unknown_plan : plan_publication linear canary_release unknown_tag ≡ ok (publish true true)
unfolding plan_publication npm_identity canary_supersession canary_history published_canary_commits
    descendant_stable_supersedes highest_stable_version covered_by is_stable_release_version
    is_canary_release_version canary_components stable_components is_numeric_identifier split
    index_of compare_stable_versions parse_stable_version big_int compare_parsed_stable_versions
    parse_canary_version assert_stable_release_version assert_canary_release_version
    compare_canary_versions canary_order dist_tag_for get ◌===◌
unknown_plan = refl

identity_example :
    ((npm_identity canary_release npm_package ≡ ok match) ↔ IsPublished canary_release npm_package)
    × ((npm_identity canary_release npm_package ≡ ok absent)
        ↔ (get (text "0.3.0-canary.1") npm_package.versions ≡ none))
identity_example = npm_identity_iff canary_release npm_package

promote_stable_example : compare_stable_versions (text "0.3.0") (text "0.2.0") ≡ ok Ordering.gt
promote_stable_example =
    promote_stable_above linear stable_release npm_package true (text "0.2.0") refl latest_tag
      is_stable_0_2_0 stable_plan

promote_forward_example :
    (commit_b ≢ commit_c)
    × (linear commit_c commit_b ≡ ok false)
    × (linear commit_b commit_c ≡ ok true)
promote_forward_example =
    promote_canary_forward linear canary_release npm_package true (text "0.3.0-canary.0") commit_b
      published_canary_0 refl canary_tag listed refl is_canary_0 canary_plan

upload_plan_example : UploadsMissing linear canary_release npm_package (publish true true)
upload_plan_example =
    plan_publication-UploadsMissing linear canary_release npm_package (publish true true)
      canary_plan
