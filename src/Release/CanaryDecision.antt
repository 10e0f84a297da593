-- ===== src/Release/CanaryDecision.antt =====
-- packages/release/src/policy.ts: which canary a checked commit cuts.
pub mod Numbering
pub mod Freshness
mod Tests
use internal.Prelude.{
  ℕ, ◌+◌, Bool, ◌&&◌, not, Option, none, some, List, [], ◌∷◌, ◌++◌, leb, if◌then◌else◌, is_gt, Text,
  ◌===◌, keys, Result, ok, err, ◌>>=◌, planned_version_must_advance,
}
use internal.Release.Version.{
  is_canary_release_version, compare_stable_versions, parse_canary_version, format_canary_version,
}
use internal.Release.Npm.{Registry}
use internal.Release.Supersession.{
  CommitAncestry, CanarySupersession, owned, canary_superseded, stable_superseded,
  canary_supersession,
}

pub record CanaryTarget : Type 0 where
  pub commit : Text
  pub current : Text
  pub base : Text

pub data CanarySkip : Type 0 where
  skip_canary_superseded skip_stable_superseded skip_regressed_base : CanarySkip

pub data CanaryDecision : Type 0 where
  cut : Text → CanaryDecision
  skip : CanarySkip → CanaryDecision

-- The loop of `nextCanaryVersion`. `next` is the source's `highest + 1n`, so that it starts at 0
-- where `highest` starts at -1; `none` is the early return.
raise_next : Text → ℕ → Text → Result (Option ℕ)
raise_next base next version =
    if not (is_canary_release_version version) then ok (some next) else do
      candidate ← parse_canary_version version
      order ← compare_stable_versions candidate.base base
      ok (
          if is_gt order
          then none
          else if (candidate.base === base) && leb next candidate.n
          then some (candidate.n + 1)
          else some next)

numbered : Text → Option ℕ → Result (Option Text)
numbered base none = ok none
numbered base (some next) = do
  version ← format_canary_version (record { base = base; n = next })
  ok (some version)

pub next_from : Text → ℕ → List Text → Result (Option ℕ)
next_from base next [] = ok (some next)
next_from base next (version ∷ rest) = do
  raised ← raise_next base next version
  elim raised [ none ↦ ok none | some next' ↦ next_from base next' rest ]

pub next_canary_version : Text → List Text → Result (Option Text)
next_canary_version base taken = do next ← next_from base 0 taken; numbered base next

cut_or_skip : Option Text → CanaryDecision
cut_or_skip none = skip skip_regressed_base
cut_or_skip (some version) = cut version

decide_owned : Text → List Text → CanarySupersession → Result CanaryDecision
unfolding cut_or_skip
decide_owned base taken owned = do
  version ← next_canary_version base taken
  ok (cut_or_skip version)
decide_owned base taken canary_superseded = ok (skip skip_canary_superseded)
decide_owned base taken stable_superseded = ok (skip skip_stable_superseded)

module _ (is_ancestor : CommitAncestry) where
  pub decide_canary : CanaryTarget → Registry → List Text → Result CanaryDecision
  unfolding decide_owned
  decide_canary target registry reserved = do
    order ← compare_stable_versions target.base target.current
    if not (is_gt order) then err planned_version_must_advance else (do
      status ← canary_supersession is_ancestor target.commit target.base registry none
      decide_owned target.base (keys registry.versions ++ reserved) status)
