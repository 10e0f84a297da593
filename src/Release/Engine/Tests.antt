-- ===== src/Release/Engine/Tests.antt =====
-- An engine whose npm lists a newer canary already, and instances of the theorems.
use internal.Prelude.{
  ◌≡◌, refl, true, some, [], ◌∷◌, ◌++◌, map, Text, text, ◌===◌, get, ok, split, index_of,
}
use internal.Release.Version.{
  is_stable_release_version, is_canary_release_version, stable_components, canary_components,
  is_numeric_identifier, big_int, parse_canary_version, assert_stable_release_version,
}
use internal.Release.Effects.{Run}
use internal.Release.Intent.{canary, ReleaseIntent, VerifiedRelease, is_commit}
use internal.Release.Samples.{commit_a, commit_c, linear, npm_package}
use internal.Release.Supersession.{published_canary_commits, canary_history, canary_supersession}
use internal.Release.PublicationPlan.{npm_identity, plan_publication}
use internal.Release.Record.{
  is_release_tag, assert_release_tag, canary_record_tag, missing, uploaded,
}
use internal.Release.Catalog.{SavedRelease}
use internal.Release.Store.{Bytes}
use internal.Release.Publication.{Call, PublicationResult, read, publish_verified_release}
use internal.Release.Gate.{canary_line}
use internal.Release.Engine.{
  EngineCall, store_find, store_create, store_download, verify, git_branch_tip, git_head, git_clean,
  publishing, EngineDeps, RecordedRelease, record_release, finish_release, assert_checked_commit,
  execute_retry,
}
use internal.Release.Engine.Recording.{AssetCalls, record_release-AssetCalls, execute_retry-calls}
use internal.Release.Engine.Checks.{assert_checked_commit-passes}
use internal.Release.Engine.Finishing.{SettledCalls, fresh, finish_release-SettledCalls}

abbrev late_intent : ReleaseIntent
late_intent = record { channel = canary; version = text "0.3.0-canary.9"; commit = commit_a }

abbrev late_release : VerifiedRelease
late_release = record {
  intent = late_intent;
  archive = text "release.tgz";
  integrity = text "sha512-e";
}

abbrev draft_record : SavedRelease
draft_record = record { id = 7; intent = late_intent; asset = missing }

abbrev full_record : SavedRelease
full_record = record { id = 7; intent = late_intent; asset = uploaded 5 }

abbrev packed : Bytes
packed = 1 ∷ 2 ∷ 3 ∷ []

abbrev deps : EngineDeps (Unit {0})
deps = record {
  publication = record {
    read = λ w. (ok npm_package, w);
    npm_publish = λ archive w. (ok tt, w);
    npm_promote = λ version tag w. (ok tt, w);
    sleep = λ delay w. (ok tt, w);
    ancestry = linear;
    confirmation_interval = 0;
    confirmation_window = 0;
    repeat = λ n delay until m. m;
  };
  git_version_at = λ parent w. (ok (text "0.2.0"), w);
  git_branch_tip = λ w. (ok commit_c, w);
  git_head = λ w. (ok commit_a, w);
  git_clean = λ w. (ok true, w);
  gate = λ commit previous w. (ok (canary_line (text "0.2.0")), w);
  planned_base = λ current w. (ok (text "0.3.0"), w);
  store_find = λ tag w. (ok (some full_record), w);
  store_create = λ intent w. (ok draft_record, w);
  store_upload = λ release bytes w. (ok full_record, w);
  store_download = λ release w. (ok packed, w);
  store_complete = λ release w. (ok tt, w);
  store_reserved = λ w. (ok [], w);
  pack = λ intent w. (ok packed, w);
  verify = λ intent bytes w. (ok late_release, w);
  log = λ line w. (ok tt, w);
}

abbrev package_name : Text
package_name = text "@elmera/ui"

abbrev start : Run EngineCall (Unit {0})
start = record { world = tt; trace = [] }

abbrev late_result : RecordedRelease
late_result = record { saved = full_record; release = late_release }

abbrev recorded_run : Run EngineCall (Unit {0})
recorded_run = (record_release deps package_name late_intent start).1

records : record_release deps package_name late_intent start ≡ (ok late_result, recorded_run)
unfolding record_release
records = refl

abbrev checked_run : Run EngineCall (Unit {0})
checked_run = (assert_checked_commit deps package_name commit_a start).1

checks : assert_checked_commit deps package_name commit_a start ≡ (ok tt, checked_run)
unfolding assert_checked_commit ◌===◌
checks = refl

abbrev finished_run : Run EngineCall (Unit {0})
finished_run = (finish_release deps package_name full_record late_release start).1

finishes : finish_release deps package_name full_record late_release start ≡ (ok tt, finished_run)
unfolding finish_release publish_verified_release read plan_publication npm_identity
    canary_supersession canary_history published_canary_commits is_canary_release_version
    canary_components stable_components is_numeric_identifier split index_of parse_canary_version
    assert_stable_release_version is_stable_release_version big_int get ◌===◌
finishes = refl

abbrev late_tag : Text
unfolding canary_record_tag
late_tag = canary_record_tag commit_a

abbrev retried_run : Run EngineCall (Unit {0})
retried_run = (execute_retry deps package_name late_tag start).1

retries : execute_retry deps package_name late_tag start ≡ (ok tt, retried_run)
unfolding execute_retry finish_release publish_verified_release read plan_publication npm_identity
    canary_supersession canary_history published_canary_commits is_canary_release_version
    canary_components stable_components is_numeric_identifier split index_of parse_canary_version
    assert_stable_release_version is_stable_release_version big_int get ◌===◌ assert_release_tag
    is_release_tag canary_record_tag is_commit
retries = refl

recording_example :
    (recorded : SavedRelease) × (t : Run EngineCall (Unit {0})) × (t.trace
      ≡ store_create late_intent (ok recorded) ∷ [])
    × AssetCalls deps package_name recorded.asset late_intent recorded t recorded_run late_result
recording_example =
    record_release-AssetCalls deps package_name late_intent start recorded_run late_result records

checks_example :
    (tip : Text) × (checked_run.trace
      ≡ git_clean (ok true) ∷ git_head (ok commit_a) ∷ git_branch_tip (ok tip) ∷ [])
    × (linear commit_a tip ≡ ok true)
checks_example = assert_checked_commit-passes deps package_name commit_a start checked_run checks

finish_example :
    (result : PublicationResult) × (u : Run Call (Unit {0})) × (publish_verified_release
        deps.publication late_release
        (fresh deps package_name start)
      ≡ (ok result, u))
    × SettledCalls deps package_name full_record result
        (map publishing u.trace ++ [])
        finished_run.trace
finish_example =
    finish_release-SettledCalls deps package_name full_record late_release start finished_run
      finishes

retry_example :
    (tag : Text) × (recorded : SavedRelease) × (bytes : Bytes) × (release : VerifiedRelease)
    × (t : Run EngineCall (Unit {0})) × (result : PublicationResult) × (u : Run Call (Unit {0}))
    × (assert_release_tag late_tag ≡ ok tag)
    × (t.trace
        ≡ verify recorded.intent bytes (ok release)
          ∷ store_download recorded (ok bytes)
          ∷ store_find tag (ok (some recorded))
          ∷ [])
    × (publish_verified_release deps.publication release (record { world = t.world; trace = [] })
        ≡ (ok result, u))
    × SettledCalls deps package_name recorded result
        (map publishing u.trace
          ++ (verify recorded.intent bytes (ok release)
              ∷ store_download recorded (ok bytes)
              ∷ store_find tag (ok (some recorded))
              ∷ []))
        retried_run.trace
retry_example = execute_retry-calls deps package_name late_tag start retried_run retries
