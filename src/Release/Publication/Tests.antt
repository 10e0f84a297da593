-- ===== src/Release/Publication/Tests.antt =====
-- A publication against an npm that shows each change at once, and instances of the theorems.
use internal.Prelude.{
  ℕ, zero, suc, ◌≡◌, refl, Bool, true, Option, some, [], ◌∷◌, if◌then◌else◌, text, ◌===◌, get, set,
  ok, split, index_of,
}
use internal.Release.Version.{
  is_stable_release_version, is_canary_release_version, stable_components, canary_components,
  is_numeric_identifier, big_int, parse_stable_version, parse_canary_version,
  assert_stable_release_version, compare_parsed_stable_versions, compare_stable_versions,
}
use internal.Release.Effects.{Run, Eff, pure, ◌>>=◌, ◌>>◌}
use internal.Release.Npm.{Registry}
use internal.Release.Samples.{linear, npm_package, canary_release, commit_a}
use internal.Release.Supersession.{
  published_canary_commits, canary_history, covered_by, descendant_stable_supersedes,
  highest_stable_version, canary_supersession,
}
use internal.Release.Intent.{VerifiedRelease, canary}
use internal.Release.PublicationPlan.{dist_tag_for, npm_identity, plan_publication}
use internal.Release.Publication.{
  Call, read_registry, PublicationDeps, confirmation_delay, confirmation_retries, tag_shows,
  was_published, was_superseded, read, wait, confirm_registry, publish_verified_release,
}
use internal.Release.Publication.Confirmation.{IsRepeat, Polled, confirm_registry-Polled}
use internal.Release.Publication.Outcome.{PublishedRun, publish_verified_release-published}

repeat_until :
    ℕ
    → (ℕ → Eff Call Registry (Unit {0}))
    → (Option Registry → Bool)
    → Eff Call Registry (Option Registry)
    → Eff Call Registry (Option Registry)
repeat_until zero delay until m = m
repeat_until (suc n) delay until m =
    m >>= λ o. if until o then pure o else (delay 0 >> repeat_until n (λ k. delay (suc k)) until m)

abbrev deps : PublicationDeps Registry
deps = record {
  read = λ w. (ok w, w);
  npm_publish = λ archive w. (
    ok tt,
    record w {
      versions =
          set canary_release.version
            (record {
              integrity = some canary_release.integrity;
              commit = some canary_release.commit;
            })
            w.versions;
    },
  );
  npm_promote = λ version tag w. (ok tt, record w { tags = set tag version w.tags });
  sleep = λ delay w. (ok tt, w);
  ancestry = linear;
  confirmation_interval = 2;
  confirmation_window = 5;
  repeat = repeat_until;
}

deps-IsRepeat : IsRepeat deps
unfolding repeat_until
deps-IsRepeat = record {
  no_recurrence = λ delay until m. refl;
  recurrence = λ n delay until m. refl;
}

abbrev start : Run Call Registry
start = record { world = npm_package; trace = [] }

-- A canary of the commit before every release.
abbrev late_release : VerifiedRelease
late_release = record {
  intent = record { channel = canary; version = text "0.3.0-canary.9"; commit = commit_a };
  archive = text "release.tgz";
  integrity = text "sha512-e";
}

abbrev finished : Run Call Registry
finished = (publish_verified_release deps canary_release start).1

publishes : publish_verified_release deps canary_release start ≡ (ok was_published, finished)
unfolding publish_verified_release confirm_registry confirmation_retries confirmation_delay read
    wait tag_shows repeat_until plan_publication npm_identity canary_supersession canary_history
    published_canary_commits descendant_stable_supersedes highest_stable_version covered_by
    is_stable_release_version is_canary_release_version canary_components stable_components
    is_numeric_identifier split index_of compare_stable_versions parse_stable_version big_int
    compare_parsed_stable_versions parse_canary_version assert_stable_release_version dist_tag_for
    get set ◌===◌
publishes = refl

abbrev late_finished : Run Call Registry
late_finished = record { world = npm_package; trace = read_registry (ok npm_package) ∷ [] }

superseded_late :
    publish_verified_release deps late_release start ≡ (ok was_superseded, late_finished)
unfolding publish_verified_release confirm_registry confirmation_retries confirmation_delay read
    wait tag_shows repeat_until plan_publication npm_identity canary_supersession canary_history
    published_canary_commits descendant_stable_supersedes highest_stable_version covered_by
    is_stable_release_version is_canary_release_version canary_components stable_components
    is_numeric_identifier split index_of compare_stable_versions parse_stable_version big_int
    compare_parsed_stable_versions parse_canary_version assert_stable_release_version dist_tag_for
    get set ◌===◌
superseded_late = refl

polls : confirm_registry deps (λ registry. ok true) start ≡ (ok (some npm_package), late_finished)
unfolding confirm_registry confirmation_retries confirmation_delay read wait repeat_until
polls = refl

confirmation_example :
    Polled deps deps-IsRepeat
      (λ registry. ok true)
      (suc (confirmation_retries 2 5))
      start
      late_finished
      (some npm_package)
confirmation_example =
    confirm_registry-Polled deps deps-IsRepeat (λ registry. ok true) start late_finished
      (some npm_package) polls

published_example : PublishedRun deps deps-IsRepeat canary_release start finished
published_example =
    publish_verified_release-published deps deps-IsRepeat canary_release start finished publishes
