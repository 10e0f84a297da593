-- ===== src/Release/Gate/Tests.antt =====
-- A merged release pull request, and an instance of the theorem.
use internal.Prelude.{◌≡◌, refl, some, List, [], ◌∷◌, Text, text, ◌===◌, split, Memᴰ, Result, ok}
use internal.Release.Version.{
  stable_components, is_numeric_identifier, is_stable_release_version, big_int,
  parse_stable_version, compare_parsed_stable_versions, compare_stable_versions,
  assert_stable_release_version,
}
use internal.Release.Samples.{commit_c}
use internal.Release.Gate.{
  stable_line, GitHubPullRequest, Checkout, is_pending, has_heading, read_stable_version,
  assert_stable_bump, release_head, assert_merged_release_pull, stable_gate,
}
use internal.Release.Gate.Merged.{IsBumped, IsReleaseMerge, stable_gate-merged}

abbrev checkout : Checkout
checkout = record {
  manifest_version = ok (text "0.3.0");
  changesets = ok (text "README.md" ∷ []);
  changelog = ok (text "## 0.3.0");
}

abbrev repository : Text
repository = text "elmeragroup/internal"

abbrev pull : GitHubPullRequest
pull = record {
  merged_at = some (text "2026-01-01");
  merge_commit_sha = some commit_c;
  head_ref = text "changeset-release/main";
  head_repo = repository;
  base_ref = text "main";
}

abbrev pulls_of : Text → Result (List GitHubPullRequest)
pulls_of commit = ok (pull ∷ [])

opens :
    stable_gate checkout pulls_of repository (text "main") commit_c (text "0.2.0")
    ≡ ok (stable_line (text "0.3.0"))
unfolding stable_gate read_stable_version assert_stable_bump assert_merged_release_pull is_pending
    has_heading release_head assert_stable_release_version is_stable_release_version
    stable_components is_numeric_identifier split big_int parse_stable_version
    compare_stable_versions compare_parsed_stable_versions ◌===◌
opens = refl

gate_example :
    (read_stable_version checkout ≡ ok (text "0.3.0"))
    × IsBumped checkout (text "0.2.0") (text "0.3.0")
    × ((pulls : List GitHubPullRequest) × (merged : GitHubPullRequest) × (pulls_of commit_c
          ≡ ok pulls)
        × Memᴰ merged pulls
        × IsReleaseMerge repository commit_c (text "main") merged)
gate_example =
    stable_gate-merged checkout pulls_of repository (text "main") commit_c (text "0.2.0")
      (text "0.3.0") opens
