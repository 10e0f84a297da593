-- ===== src/Release/Gate.antt =====
-- packages/release/src/gate.ts: when a commit is on the stable release line.
-- The gate only reads, so what it reads is a value or the failure of the read.
pub mod Merged
mod Tests
use internal.Prelude.{
  Bool, true, false, ◌&&◌, ◌||◌, not, Option, none, some, List, [], ◌∷◌, ◌++◌, any, filter,
  if◌then◌else◌, is_some, is_gt, Text, text, ◌===◌, split, Failure, Result, ok, err, ◌>>=◌, ◌>>◌,
  version_not_increased, pending_changesets, missing_in_changelog, not_from_release_pull,
}
use internal.Release.Version.{assert_stable_release_version, compare_stable_versions}

pub data ReleaseLine : Type 0 where
  stable_line canary_line : Text → ReleaseLine

-- github.ts: the fields of a pull request that the gate reads.
pub record GitHubPullRequest : Type 0 where
  pub merged_at : Option Text
  pub merge_commit_sha : Option Text
  pub head_ref : Text
  pub head_repo : Text
  pub base_ref : Text

-- The files of the checkout: the manifest's version, the names in `.changeset`, and the changelog.
pub record Checkout : Type 0 where
  pub manifest_version : Result Text
  pub changesets : Result (List Text)
  pub changelog : Result Text

-- `endsWith`
ends_with : Text → Text → Bool
ends_with [] suffix = [] === suffix
ends_with (c ∷ s) suffix = (c ∷ s === suffix) || ends_with s suffix

-- `includes` on an array of texts.
includes : Text → List Text → Bool
includes t ts = any (λ s. s === t) ts

pub is_pending : Text → Bool
unfolding ends_with
is_pending name = ends_with name (text ".md") && not (name === text "README.md")

pub has_heading : Text → Text → Bool
unfolding includes
has_heading changelog current = includes (text "## " ++ current) (split b'\n' changelog)

pub read_stable_version : Checkout → Result Text
read_stable_version checkout = do
  version ← checkout.manifest_version
  assert_stable_release_version version

no_pending : List Text → Result (Unit {0})
no_pending [] = ok tt
no_pending (_ ∷ _) = err pending_changesets

-- `if (!passed) throw`
abbrev pub check : Bool → Failure → Result (Unit {0})
check passed failure = if not passed then err failure else ok tt

pub assert_stable_bump : Checkout → Text → Text → Result (Unit {0})
unfolding no_pending
assert_stable_bump checkout previous current = do
  order ← compare_stable_versions current previous
  check (is_gt order) version_not_increased
  names ← checkout.changesets
  no_pending (filter is_pending names)
  changelog ← checkout.changelog
  check (has_heading changelog current) missing_in_changelog

is_sha : Option Text → Text → Bool
is_sha none commit = false
is_sha (some sha) commit = sha === commit

pub release_head : Text → Text
release_head tracked = text "changeset-release/" ++ tracked

is_release_merge : Text → Text → Text → GitHubPullRequest → Bool
unfolding is_sha
is_release_merge repository commit tracked pull =
    is_some pull.merged_at
    && (is_sha pull.merge_commit_sha commit
        && ((pull.head_ref === release_head tracked)
            && ((pull.base_ref === tracked) && (pull.head_repo === repository))))

pub assert_merged_release_pull :
    (Text → Result (List GitHubPullRequest)) → Text → Text → Text → Result (Unit {0})
unfolding is_release_merge
assert_merged_release_pull pulls_of repository commit tracked = do
  pulls ← pulls_of commit
  check (any (is_release_merge repository commit tracked) pulls)
      (not_from_release_pull (release_head tracked))

pub stable_gate :
    Checkout
    → (Text → Result (List GitHubPullRequest))
    → Text
    → Text
    → Text
    → Text
    → Result ReleaseLine
stable_gate checkout pulls_of repository tracked commit previous = do
  current ← read_stable_version checkout
  if current === previous then ok (canary_line current) else (do
    assert_stable_bump checkout previous current
    assert_merged_release_pull pulls_of repository commit tracked
    ok (stable_line current))
