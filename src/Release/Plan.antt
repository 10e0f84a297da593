-- ===== src/Release/Plan.antt =====
-- packages/release/src/plan.ts: what a release plan of Changesets says about the public package. Running
-- Changesets and reading its files is outside; its releases and its base branch are arguments.
use internal.Prelude.{
  Bool, true, not, ◌&&◌, Option, none, some, List, [], ◌∷◌, ◌≡◌, Text, text, ◌===◌, starts_with,
  filter, if◌then◌else◌, Result, ok, err, not_remote_base, multiple_plans, no_planned_version,
  Bool-cases, inl, inr,
}
use internal.Release.Version.{
  is_stable_release_version, assert_stable_release_version, next_patch_version,
}
use internal.Release.Version.Order.{next_patch_version-stable}

pub record PlannedRelease : Type 0 where
  pub name : Text
  pub type : Text
  pub new_version : Option Text

unfoldable pub changeset_base_branch : Text → Result Text
changeset_base_branch base =
    if not (starts_with base (text "origin/")) then err not_remote_base else ok base

unfoldable pub is_planned : Text → PlannedRelease → Bool
is_planned package_name release =
    (release.name === package_name) && not (release.type === text "none")

unfoldable pub planned_version : Text → Option Text → Result Text
unfolding assert_stable_release_version
planned_version package_name none = err (no_planned_version package_name)
planned_version package_name (some version) = assert_stable_release_version version

unfoldable pub base_of_plan : Text → Text → List PlannedRelease → Result Text
unfolding planned_version
base_of_plan current package_name [] = next_patch_version current
base_of_plan current package_name (release ∷ []) = planned_version package_name release.new_version
base_of_plan current package_name (release ∷ _ ∷ _) = err multiple_plans

unfoldable pub planned_canary_base : Text → Text → List PlannedRelease → Result Text
unfolding is_planned base_of_plan
planned_canary_base current package_name releases =
    base_of_plan current package_name (filter (is_planned package_name) releases)

planned_version-stable :
    (package_name : Text) (o : Option Text) (base : Text)
    → planned_version package_name o ≡ ok base
    → is_stable_release_version base ≡ true
unfolding planned_version assert_stable_release_version
planned_version-stable package_name none base h = absurd (cc)
planned_version-stable package_name (some version) base h =
    elim (Bool-cases (is_stable_release_version version)) [
      | inl stable ↦ cc (rw stable at h)
      | inr unstable ↦ absurd (cc (rw unstable at h))
    ]

base_of_plan-stable :
    (current package_name : Text) (planned : List PlannedRelease) (base : Text)
    → is_stable_release_version current ≡ true
    → base_of_plan current package_name planned ≡ ok base
    → is_stable_release_version base ≡ true
unfolding base_of_plan
base_of_plan-stable current package_name [] base stable h =
    next_patch_version-stable current base stable h
base_of_plan-stable current package_name (release ∷ []) base stable h =
    planned_version-stable package_name release.new_version base h
base_of_plan-stable current package_name (release ∷ _ ∷ _) base stable h = absurd (cc)

-- From a stable current version the base of a canary is a stable version, whatever the plan says.
pub planned_canary_base-stable :
    (current package_name : Text) (releases : List PlannedRelease) (base : Text)
    → is_stable_release_version current ≡ true
    → planned_canary_base current package_name releases ≡ ok base
    → is_stable_release_version base ≡ true
unfolding planned_canary_base
planned_canary_base-stable current package_name releases base stable h =
    base_of_plan-stable current package_name (filter (is_planned package_name) releases) base stable
      h
