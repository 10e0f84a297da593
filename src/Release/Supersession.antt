-- ===== src/Release/Supersession.antt =====
-- packages/release/src/policy.ts: whether a commit still owns the canary channel.
-- An ancestry query may throw, so its answer is a `Result`.
pub mod History
pub mod Stables
pub mod Descendants
pub mod Reasons
pub mod Ownership
mod Tests
use internal.Prelude.{
  Bool, true, false, not, Option, none, some, List, [], ◌∷◌, ◌++◌, if◌then◌else◌, is_gt, is_ge,
  Text, ◌===◌, keys, Result, ok, err, ◌>>=◌, conflicting_canary_version, diverged_canary_history,
}
use internal.Release.Version.{
  is_stable_release_version, is_canary_release_version, compare_stable_versions,
}
use internal.Release.Npm.{PublishedVersion, Registry}

abbrev pub CommitAncestry : Type 0
CommitAncestry = Text → Text → Result Bool

pub data CanarySupersession : Type 0 where
  owned canary_superseded stable_superseded : CanarySupersession

-- One round of the loop of `highestStableVersion`.
raise_highest : Option Text → Text → Result (Option Text)
raise_highest none version = ok (if is_stable_release_version version then some version else none)
raise_highest (some highest) version =
    if not (is_stable_release_version version) then ok (some highest) else do
      order ← compare_stable_versions version highest
      ok (some (if is_gt order then version else highest))

highest_from : Option Text → List Text → Result (Option Text)
unfolding raise_highest
highest_from highest [] = ok highest
highest_from highest (version ∷ rest) = do
  next ← raise_highest highest version
  highest_from next rest

unfoldable pub highest_stable_version : Registry → Result (Option Text)
unfolding highest_from
highest_stable_version registry = highest_from none (keys registry.versions)

-- The pair that a published canary adds, if the version is a canary and its commit is known.
canary_entry : Text → Option Text → List (Text × Text)
canary_entry version none = []
canary_entry version (some commit) =
    if is_canary_release_version version then (version, commit) ∷ [] else []

canaries_of : List (Text × PublishedVersion) → List (Text × Text)
unfolding canary_entry
canaries_of [] = []
canaries_of ((version, published) ∷ rest) =
    canary_entry version published.commit ++ canaries_of rest

unfoldable pub published_canary_commits : Registry → List (Text × Text)
unfolding canaries_of
published_canary_commits registry = canaries_of registry.versions

pub record CanaryHistory : Type 0 where
  pub published_version : Option Text
  pub superseded : Bool

-- The variables of the loop of `canaryHistory`.
record HistoryLoop : Type 0 where
  versions_for_commit : List Text
  diverged : Bool
  descendant : Bool

abbrev no_history : HistoryLoop
no_history = record { versions_for_commit = []; diverged = false; descendant = false }

history_result : HistoryLoop → List Text → Result CanaryHistory
history_result loop [] =
    if loop.diverged
    then err diverged_canary_history
    else ok (record { published_version = none; superseded = loop.descendant })
history_result loop (version ∷ []) =
    if loop.diverged
    then err diverged_canary_history
    else ok (record { published_version = some version; superseded = loop.descendant })
history_result loop (_ ∷ _ ∷ _) = err conflicting_canary_version

-- `history.publishedVersion !== undefined && history.publishedVersion !== recordedVersion`
pub conflicts : Option Text → Option Text → Bool
conflicts none recorded = false
conflicts (some published) none = true
conflicts (some published) (some recorded) = not (published === recorded)

unfoldable pub covered_by : Text → Option Text → Result CanarySupersession
covered_by base none = ok owned
covered_by base (some highest) = do
  order ← compare_stable_versions highest base
  ok (if is_ge order then stable_superseded else owned)

module _ (is_ancestor : CommitAncestry) where
  -- One round: the commit's own canaries are collected, a descendant's is noted, and one that is
  -- neither ancestor nor descendant has diverged.
  history_step : Text → HistoryLoop → Text → Text → Result HistoryLoop
  history_step commit loop version published =
      if published === commit
      then ok (record loop { versions_for_commit = loop.versions_for_commit ++ version ∷ [] })
      else do
        newer ← is_ancestor commit published
        if newer then ok (record loop { descendant = true }) else (do
          older ← is_ancestor published commit
          ok (if not older then record loop { diverged = true } else loop))

  history_from : Text → HistoryLoop → List (Text × Text) → Result HistoryLoop
  unfolding history_step
  history_from commit loop [] = ok loop
  history_from commit loop ((version, published) ∷ rest) = do
    next ← history_step commit loop version published
    history_from commit next rest

  unfoldable pub canary_history : Text → Registry → Result CanaryHistory
  unfolding history_from history_result
  canary_history commit registry = do
    loop ← history_from commit no_history (published_canary_commits registry)
    history_result loop loop.versions_for_commit

  stable_supersedes_step : Text → Text → Option Text → Result Bool
  stable_supersedes_step commit version none = ok false
  stable_supersedes_step commit version (some published) =
      if not (is_stable_release_version version) then ok false else is_ancestor commit published

  stable_supersedes_from : Text → List (Text × PublishedVersion) → Result Bool
  unfolding stable_supersedes_step
  stable_supersedes_from commit [] = ok false
  stable_supersedes_from commit ((version, published) ∷ rest) = do
    found ← stable_supersedes_step commit version published.commit
    elim found [ true ↦ ok true | false ↦ stable_supersedes_from commit rest ]

  unfoldable pub descendant_stable_supersedes : Text → Registry → Result Bool
  unfolding stable_supersedes_from
  descendant_stable_supersedes commit registry = stable_supersedes_from commit registry.versions

  pub stable_status : Text → Text → Registry → Result CanarySupersession
  unfolding covered_by
  stable_status commit base registry = do
    newer ← descendant_stable_supersedes commit registry
    if newer
        then ok stable_superseded
        else (do highest ← highest_stable_version registry; covered_by base highest)

  unfoldable pub canary_supersession :
      Text → Text → Registry → Option Text → Result CanarySupersession
  unfolding stable_status conflicts
  canary_supersession commit base registry recorded = do
    history ← canary_history commit registry
    if conflicts history.published_version recorded
        then err conflicting_canary_version
        else if history.superseded
        then ok canary_superseded
        else stable_status commit base registry
