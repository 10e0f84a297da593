-- ===== src/Release/Engine.antt =====
-- packages/release/src/engine.ts: the release of a checked commit, and the retry of a record.
pub mod Recording
pub mod Checks
pub mod Finishing
mod Tests
use internal.Prelude.{
  Bool, true, false, not, Option, none, some, List, [], ◌∷◌, ◌++◌, map, if◌then◌else◌, Text, text,
  ◌===◌, Failure, Result, ok, err, other_checkout, not_on_branch, unclean_checkout,
  no_prepared_release,
}
use internal.Release.Effects.{Run, Eff, pure, fail, lift, call, ◌>>=◌, ◌>>◌}
use internal.Release.Intent.{Channel, stable, canary, ReleaseIntent, VerifiedRelease, assert_commit}
use internal.Release.Npm.{Registry}
use internal.Release.CanaryDecision.{CanarySkip, CanaryDecision, cut, skip, decide_canary}
use internal.Release.Record.{
  canary_record_tag, release_tag, assert_release_tag, ReleaseAsset, missing, starter, uploaded,
}
use internal.Release.Gate.{ReleaseLine, stable_line, canary_line}
use internal.Release.Catalog.{SavedRelease}
use internal.Release.Store.{Bytes}
use internal.Release.Publication.{
  Call, PublicationDeps, read, PublicationResult, was_published, was_superseded,
  publish_verified_release,
}

-- The messages that are logged, with the values that they show.
pub data LogLine : Type 0 where
  superseded_canary : Text → LogLine
  released : Text → Text → Text → Text → LogLine
  skipped : CanarySkip → LogLine

pub data EngineCall : Type 0 where
  git_version_at : Text → Result Text → EngineCall
  git_branch_tip git_head : Result Text → EngineCall
  git_clean : Result Bool → EngineCall
  gate : Text → Text → Result ReleaseLine → EngineCall
  planned_base : Text → Result Text → EngineCall
  store_find : Text → Result (Option SavedRelease) → EngineCall
  store_create : ReleaseIntent → Result SavedRelease → EngineCall
  store_upload : SavedRelease → Bytes → Result SavedRelease → EngineCall
  store_download : SavedRelease → Result Bytes → EngineCall
  store_complete : SavedRelease → Result (Unit {0}) → EngineCall
  store_reserved : Result (List Text) → EngineCall
  pack : ReleaseIntent → Result Bytes → EngineCall
  verify : ReleaseIntent → Bytes → Result VerifiedRelease → EngineCall
  log : LogLine → Result (Unit {0}) → EngineCall
  publishing : Call → EngineCall

-- `CheckedCommitDeps`, with the adapter's `pack`: the ports of the store, of git, of the gate and of
-- the archive check, beside those of publication.
pub record EngineDeps (World : Type 0) : Type 0 where
  pub publication : PublicationDeps World
  pub git_version_at : Text → World → Result Text × World
  pub git_branch_tip : World → Result Text × World
  pub git_head : World → Result Text × World
  pub git_clean : World → Result Bool × World
  pub gate : Text → Text → World → Result ReleaseLine × World
  pub planned_base : Text → World → Result Text × World
  pub store_find : Text → World → Result (Option SavedRelease) × World
  pub store_create : ReleaseIntent → World → Result SavedRelease × World
  pub store_upload : SavedRelease → Bytes → World → Result SavedRelease × World
  pub store_download : SavedRelease → World → Result Bytes × World
  pub store_complete : SavedRelease → World → Result (Unit {0}) × World
  pub store_reserved : World → Result (List Text) × World
  pub pack : ReleaseIntent → World → Result Bytes × World
  pub verify : ReleaseIntent → Bytes → World → Result VerifiedRelease × World
  pub log : LogLine → World → Result (Unit {0}) × World

pub record RecordedRelease : Type 0 where
  pub saved : SavedRelease
  pub release : VerifiedRelease

module _ {World : Type 0} (deps : EngineDeps World) (package_name : Text) where
  abbrev pub EngineEff : Type 0 → Type 0
  EngineEff A = Eff EngineCall World A

  -- An operation of publication: its calls are noted among those of the engine.
  pub publicly : {A : Type 0} → Eff Call World A → EngineEff A
  publicly m s =
      let (r, t) = m (record { world = s.world; trace = [] }) in
      (r, record { world = t.world; trace = map publishing t.trace ++ s.trace })

  record_prepared : ReleaseIntent → SavedRelease → EngineEff RecordedRelease
  record_prepared intent recorded = do
    bytes ← call (store_download recorded) (deps.store_download recorded)
    release ← call (verify intent bytes) (deps.verify intent bytes)
    pure (record { saved = recorded; release = release })

  record_fresh : ReleaseIntent → SavedRelease → EngineEff RecordedRelease
  record_fresh intent recorded = do
    bytes ← call (pack intent) (deps.pack intent)
    release ← call (verify intent bytes) (deps.verify intent bytes)
    sent ← call (store_upload recorded bytes) (deps.store_upload recorded bytes)
    pure (record { saved = sent; release = release })

  record_asset : ReleaseIntent → SavedRelease → ReleaseAsset → EngineEff RecordedRelease
  unfolding record_prepared record_fresh
  record_asset intent recorded (uploaded id) = record_prepared intent recorded
  record_asset intent recorded (starter id) = record_fresh intent recorded
  record_asset intent recorded missing = record_fresh intent recorded

  pub record_release : ReleaseIntent → EngineEff RecordedRelease
  unfolding record_asset
  record_release intent = do
    recorded ← call (store_create intent) (deps.store_create intent)
    record_asset intent recorded recorded.asset

  settle_release : SavedRelease → PublicationResult → EngineEff (Unit {0})
  settle_release recorded was_superseded =
      let line = superseded_canary recorded.intent.version in call (log line) (deps.log line)
  settle_release recorded was_published = do
    call (store_complete recorded) (deps.store_complete recorded)
    let line =
        released package_name recorded.intent.version recorded.intent.commit
          (release_tag recorded.intent)
    call (log line) (deps.log line)

  pub finish_release : SavedRelease → VerifiedRelease → EngineEff (Unit {0})
  unfolding settle_release publicly
  finish_release recorded release = do
    result ← publicly (publish_verified_release deps.publication release)
    settle_release recorded result

  cut_intent : Text → CanaryDecision → EngineEff (Option ReleaseIntent)
  cut_intent commit (skip kind) = call (log (skipped kind)) (deps.log (skipped kind)) >> pure none
  cut_intent commit (cut version) =
      pure (some (record { channel = canary; version = version; commit = commit }))

  fresh_canary : Text → Text → EngineEff (Option ReleaseIntent)
  unfolding cut_intent publicly
  fresh_canary commit current = do
    base ← call (planned_base current) (deps.planned_base current)
    registry ← publicly (read deps.publication)
    reserved ← call store_reserved deps.store_reserved
    decision ← lift (
        decide_canary deps.publication.ancestry
          (record { commit = commit; current = current; base = base }) registry reserved)
    cut_intent commit decision

  recorded_or_fresh : Text → Text → Option SavedRelease → EngineEff (Option ReleaseIntent)
  unfolding fresh_canary
  recorded_or_fresh commit current (some recorded) = pure (some recorded.intent)
  recorded_or_fresh commit current none = fresh_canary commit current

  line_intent : Text → ReleaseLine → EngineEff (Option ReleaseIntent)
  unfolding recorded_or_fresh
  line_intent commit (stable_line version) =
      pure (some (record { channel = stable; version = version; commit = commit }))
  line_intent commit (canary_line current) = do
    recorded ←
        call (store_find (canary_record_tag commit)) (deps.store_find (canary_record_tag commit))
    recorded_or_fresh commit current recorded

  pub main_release_intent : Text → EngineEff (Option ReleaseIntent)
  unfolding line_intent
  main_release_intent commit = do
    let parent = commit ++ text "^1"
    previous ← call (git_version_at parent) (deps.git_version_at parent)
    line ← call (gate commit previous) (deps.gate commit previous)
    line_intent commit line

  pub assert_checked_commit : Text → EngineEff (Unit {0})
  assert_checked_commit commit = do
    tip ← call git_branch_tip deps.git_branch_tip
    head ← call git_head deps.git_head
    lift (if not (head === commit) then err (other_checkout head commit) else ok tt)
    on_branch ← lift (deps.publication.ancestry commit tip)
    lift (if not on_branch then err (not_on_branch commit tip) else ok tt)
    clean ← call git_clean deps.git_clean
    lift (if not clean then err unclean_checkout else ok tt)

  release_intended : Option ReleaseIntent → EngineEff (Unit {0})
  unfolding record_release finish_release
  release_intended none = pure tt
  release_intended (some intent) = do
    recorded ← record_release intent
    finish_release recorded.saved recorded.release

  pub execute_checked_commit : Text → EngineEff (Unit {0})
  unfolding release_intended assert_checked_commit main_release_intent
  execute_checked_commit commit = do
    checked ← lift (assert_commit commit)
    assert_checked_commit checked
    intent ← main_release_intent checked
    release_intended intent

  retry_saved : Text → Option SavedRelease → EngineEff (Unit {0})
  unfolding finish_release
  retry_saved tag none = fail (no_prepared_release tag)
  retry_saved tag (some recorded) = do
    bytes ← call (store_download recorded) (deps.store_download recorded)
    release ← call (verify recorded.intent bytes) (deps.verify recorded.intent bytes)
    finish_release recorded release

  pub execute_retry : Text → EngineEff (Unit {0})
  unfolding retry_saved
  execute_retry record_tag = do
    tag ← lift (assert_release_tag record_tag)
    recorded ← call (store_find tag) (deps.store_find tag)
    retry_saved tag recorded
