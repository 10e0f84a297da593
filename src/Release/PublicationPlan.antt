-- ===== src/Release/PublicationPlan.antt =====
-- packages/release/src/policy.ts: what a verified release still needs on npm.
pub mod Identity
pub mod Promotion
pub mod Upload
mod Tests
use internal.Prelude.{
  Bool, true, false, ◌||◌, not, Option, none, some, List, if◌then◌else◌, is_some, is_gt, is_ge,
  Text, text, ◌===◌, get, Result, ok, err, ◌>>=◌, missing_dist_integrity, npm_identity_mismatch,
}
use internal.Release.Version.{
  is_stable_release_version, compare_stable_versions, compare_canary_versions, parse_canary_version,
  assert_canary_release_version,
}
use internal.Release.Intent.{Channel, stable, canary, VerifiedRelease}
use internal.Release.Npm.{PublishedVersion, Registry}
use internal.Release.Supersession.{CommitAncestry, CanarySupersession, owned, canary_supersession}

pub data PublicationPlan : Type 0 where
  superseded : PublicationPlan
  publish : Bool → Bool → PublicationPlan

unfoldable pub dist_tag_for : Channel → Text
dist_tag_for stable = text "latest"
dist_tag_for canary = text "canary"

pub data NpmIdentity : Type 0 where
  absent match : NpmIdentity

abbrev pub is_match : NpmIdentity → Bool
is_match absent = false
is_match match = true

-- `===` between optional texts.
option_eq : Option Text → Text → Bool
option_eq none t = false
option_eq (some s) t = s === t

identity_of : VerifiedRelease → Option PublishedVersion → Result NpmIdentity
unfolding option_eq
identity_of release none = ok absent
identity_of release (some existing) =
    if not (is_some existing.integrity)
    then err (missing_dist_integrity release.version)
    else if not (option_eq existing.integrity release.integrity)
        || not (option_eq existing.commit release.commit)
    then err (npm_identity_mismatch release.version)
    else ok match

unfoldable pub npm_identity : VerifiedRelease → Registry → Result NpmIdentity
unfolding identity_of
npm_identity release registry = identity_of release (get release.version registry.versions)

stable_takes : Text → Option Text → Result Bool
stable_takes version none = ok true
stable_takes version (some current) =
    if current === version
    then ok false
    else if not (is_stable_release_version current)
    then (do
      parsed ← parse_canary_version current
      order ← compare_stable_versions version parsed.base
      ok (is_ge order))
    else (do order ← compare_stable_versions version current; ok (is_gt order))

stable_takes_latest : VerifiedRelease → Registry → Result Bool
unfolding stable_takes
stable_takes_latest release registry =
    stable_takes release.version (get (dist_tag_for release.channel) registry.tags)

-- `registry.versions.get(current)?.commit`
pub commit_of : Option PublishedVersion → Option Text
commit_of none = none
commit_of (some published) = published.commit

canary_takes : Text → List (Text × PublishedVersion) → Option Text → Result Bool
canary_takes version versions none = ok true
canary_takes version versions (some current) =
    if current === version
    then ok false
    else if is_some (commit_of (get current versions))
    then ok true
    else (do
      tagged ← assert_canary_release_version current
      order ← compare_canary_versions version tagged
      ok (is_gt order))

canary_takes_tag : VerifiedRelease → Registry → Result Bool
unfolding canary_takes commit_of
canary_takes_tag release registry =
    canary_takes release.version registry.versions
      (get (dist_tag_for release.channel) registry.tags)

plan_owned : VerifiedRelease → Registry → Bool → CanarySupersession → Result PublicationPlan
unfolding canary_takes_tag
plan_owned release registry published owned = do
  promote ← canary_takes_tag release registry
  ok (publish (not published) promote)
plan_owned release registry published _ = ok (if published then publish false false else superseded)

module _ (is_ancestor : CommitAncestry) where
  plan_channel : Channel → VerifiedRelease → Registry → Bool → Result PublicationPlan
  unfolding plan_owned stable_takes_latest
  plan_channel stable release registry published = do
    promote ← stable_takes_latest release registry
    ok (publish (not published) promote)
  plan_channel canary release registry published = do
    parsed ← parse_canary_version release.version
    status ←
        canary_supersession is_ancestor release.commit parsed.base registry (some release.version)
    plan_owned release registry published status

  unfoldable pub plan_publication : VerifiedRelease → Registry → Result PublicationPlan
  unfolding plan_channel
  plan_publication release registry = do
    identity ← npm_identity release registry
    plan_channel release.channel release registry (is_match identity)
