-- ===== src/Release/Engine/Finishing.antt =====
-- `finishRelease`: when a record is completed.
use internal.Prelude.{◌≡◌, sym, ap, ◌∙◌, List, [], ◌∷◌, ◌++◌, map, subst, Text, Result, ok}
use internal.Release.Effects.{Run, Eff, call, bind-ok, call-ok}
use internal.Release.Intent.{VerifiedRelease}
use internal.Release.Record.{release_tag}
use internal.Release.Catalog.{SavedRelease}
use internal.Release.Publication.{
  Call, PublicationResult, was_published, was_superseded, publish_verified_release,
}
use internal.Release.Engine.{
  EngineCall, superseded_canary, released, store_complete, log, publishing, EngineDeps, publicly,
  settle_release, finish_release,
}

module _ {World : Type 0} (deps : EngineDeps World) (package_name : Text) where
  -- A run of publication from the world of a run of the engine.
  abbrev pub fresh : Run EngineCall World → Run Call World
  fresh s = record { world = s.world; trace = [] }

  publicly-ok :
      {A : Type 0} (m : Eff Call World A) (s t : Run EngineCall World) (a : A)
      → publicly deps package_name m s ≡ (ok a, t)
      → (u : Run Call World) × (m (fresh s) ≡ (ok a, u))
        × (t.trace ≡ map publishing u.trace ++ s.trace)
  unfolding publicly
  publicly-ok {A} m s t a h = (
    (m (fresh s)).1,
    pair_path (m (fresh s)) (ok a) (ap (λ (p : Result A × Run EngineCall World). p.0) h),
    sym (ap (λ (p : Result A × Run EngineCall World). p.1.trace) h),
  )
    where
      pair_path : (p : Result A × Run Call World) (r : Result A) → p.0 ≡ r → p ≡ (r, p.1)
      pair_path p r e = λ i. (e i, p.1)

  -- The calls after a publication, by its result.
  abbrev pub SettledCalls :
      SavedRelease → PublicationResult → List EngineCall → List EngineCall → Type 0
  SettledCalls recorded was_superseded before after =
      after ≡ log (superseded_canary recorded.intent.version) (ok tt) ∷ before
  SettledCalls recorded was_published before after =
      after
      ≡ log
          (released package_name recorded.intent.version recorded.intent.commit
            (release_tag recorded.intent))
          (ok tt)
        ∷ store_complete recorded (ok tt)
        ∷ before

  settle_release-calls :
      (recorded : SavedRelease) (result : PublicationResult) (s s' : Run EngineCall World)
      → settle_release deps package_name recorded result s ≡ (ok tt, s')
      → SettledCalls recorded result s.trace s'.trace
  unfolding settle_release
  settle_release-calls recorded was_superseded s s' h =
      let line = superseded_canary recorded.intent.version in call-ok (log line) (deps.log line) s h
  settle_release-calls recorded was_published s s' h =
      let line =
        released package_name recorded.intent.version recorded.intent.commit
          (release_tag recorded.intent) in
      let (x, t, completing, last) =
        bind-ok (call (store_complete recorded) (deps.store_complete recorded)) _ s h in
      call-ok (log line) (deps.log line) t last
      ∙ ap (λ cs. log line (ok tt) ∷ cs)
          (call-ok (store_complete recorded) (deps.store_complete recorded) s completing)

  -- Finishing that returns has run the publication to a result, and completes the record exactly
  -- if that result is `published`, after every call of the publication; a superseded record is left
  -- as it is, and each case is logged once.
  pub finish_release-SettledCalls :
      (recorded : SavedRelease) (release : VerifiedRelease) (s s' : Run EngineCall World)
      → finish_release deps package_name recorded release s ≡ (ok tt, s')
      → (result : PublicationResult) × (u : Run Call World) × (publish_verified_release
            deps.publication release
            (fresh s)
          ≡ (ok result, u))
        × SettledCalls recorded result (map publishing u.trace ++ s.trace) s'.trace
  unfolding finish_release
  finish_release-SettledCalls recorded release s s' h =
      let publication = publish_verified_release deps.publication release in
      let (result, t, publishing_run, last) =
        bind-ok (publicly deps package_name publication) _ s h in
      let (u, ran, calls) = publicly-ok publication s t result publishing_run in
      (
        result,
        u,
        ran,
        subst (λ cs. SettledCalls recorded result cs s'.trace) calls
            (settle_release-calls recorded result t s' last),
      )
