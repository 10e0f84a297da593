-- ===== src/Release/Engine/Recording.antt =====
-- `recordRelease`, `finishRelease` and `executeRetry`: the calls of a run that returns.
use internal.Prelude.{
  ◌≡◌, sym, ap, ◌∙◌, subst, [], ◌++◌, map, Option, none, some, ◌∷◌, Text, Result, ok,
  no_prepared_release,
}
use internal.Release.Effects.{Run, lift, call, bind-ok, call-ok, lift-ok, fail-ne-ok}
use internal.Release.Intent.{ReleaseIntent, VerifiedRelease}
use internal.Release.Record.{assert_release_tag, ReleaseAsset, missing, starter, uploaded}
use internal.Release.Catalog.{SavedRelease}
use internal.Release.Store.{Bytes}
use internal.Release.Engine.{
  EngineCall, store_find, store_create, store_upload, store_download, pack, verify, publishing,
  EngineDeps, RecordedRelease, record_prepared, record_fresh, record_asset, record_release,
  finish_release, retry_saved, execute_retry,
}
use internal.Release.Publication.{Call, PublicationResult, publish_verified_release}
use internal.Release.Engine.Finishing.{SettledCalls, finish_release-SettledCalls}

recorded_same : (a b : RecordedRelease) → ◌≡◌ {A = Result RecordedRelease} (ok a) (ok b) → a ≡ b
recorded_same a b e = cc

module _ {World : Type 0} (deps : EngineDeps World) (package_name : Text) where
  -- The calls on a record that holds its archive: it is downloaded and verified.
  abbrev pub Resumed :
      ReleaseIntent
      → SavedRelease
      → Run EngineCall World
      → Run EngineCall World
      → RecordedRelease
      → Type 0
  Resumed intent recorded s s' result =
      (bytes : Bytes) × (result.saved ≡ recorded)
      × (s'.trace
          ≡ verify intent bytes (ok result.release) ∷ store_download recorded (ok bytes) ∷ s.trace)

  -- The calls on a record without an archive: the bytes are packed, verified and uploaded.
  abbrev pub Packed :
      ReleaseIntent
      → SavedRelease
      → Run EngineCall World
      → Run EngineCall World
      → RecordedRelease
      → Type 0
  Packed intent recorded s s' result =
      (bytes : Bytes) × (s'.trace
        ≡ store_upload recorded bytes (ok result.saved)
          ∷ verify intent bytes (ok result.release)
          ∷ pack intent (ok bytes)
          ∷ s.trace)

  abbrev pub AssetCalls :
      ReleaseAsset
      → ReleaseIntent
      → SavedRelease
      → Run EngineCall World
      → Run EngineCall World
      → RecordedRelease
      → Type 0
  AssetCalls (uploaded id) intent recorded s s' result = Resumed intent recorded s s' result
  AssetCalls (starter id) intent recorded s s' result = Packed intent recorded s s' result
  AssetCalls missing intent recorded s s' result = Packed intent recorded s s' result

  record_prepared-Resumed :
      (intent : ReleaseIntent) (recorded : SavedRelease) (s s' : Run EngineCall World)
      (result : RecordedRelease)
      → record_prepared deps package_name intent recorded s ≡ (ok result, s')
      → Resumed intent recorded s s' result
  unfolding record_prepared
  record_prepared-Resumed intent recorded s s' result h =
      let (bytes, t, loading, h1) =
        bind-ok (call (store_download recorded) (deps.store_download recorded)) _ s h in
      let (release, u, verifying, last) =
        bind-ok (call (verify intent bytes) (deps.verify intent bytes)) _ t h1 in
      let made : RecordedRelease = record { saved = recorded; release = release } in
      let (returned, end) = lift-ok (ok made) u last in
      let same = recorded_same made result returned in
      (
        bytes,
        sym (ap (λ (r : RecordedRelease). r.saved) same),
        sym (ap (λ (r : Run EngineCall World). r.trace) end)
            ∙ call-ok (verify intent bytes) (deps.verify intent bytes) t verifying
            ∙ ap (λ cs. verify intent bytes (ok release) ∷ cs)
                (call-ok (store_download recorded) (deps.store_download recorded) s loading)
            ∙ ap
                (λ (r : RecordedRelease).
                  verify intent bytes (ok r.release) ∷ store_download recorded (ok bytes) ∷ s.trace)
                same,
      )

  record_fresh-Packed :
      (intent : ReleaseIntent) (recorded : SavedRelease) (s s' : Run EngineCall World)
      (result : RecordedRelease)
      → record_fresh deps package_name intent recorded s ≡ (ok result, s')
      → Packed intent recorded s s' result
  unfolding record_fresh
  record_fresh-Packed intent recorded s s' result h =
      let (bytes, t, packing, h1) = bind-ok (call (pack intent) (deps.pack intent)) _ s h in
      let (release, u, verifying, h2) =
        bind-ok (call (verify intent bytes) (deps.verify intent bytes)) _ t h1 in
      let (sent, v, sending, last) =
        bind-ok (call (store_upload recorded bytes) (deps.store_upload recorded bytes)) _ u h2 in
      let made : RecordedRelease = record { saved = sent; release = release } in
      let (returned, end) = lift-ok (ok made) v last in
      let same = recorded_same made result returned in
      (
        bytes,
        sym (ap (λ (r : Run EngineCall World). r.trace) end)
            ∙ call-ok (store_upload recorded bytes) (deps.store_upload recorded bytes) u sending
            ∙ ap (λ cs. store_upload recorded bytes (ok sent) ∷ cs)
                (call-ok (verify intent bytes) (deps.verify intent bytes) t verifying
                  ∙ ap (λ cs. verify intent bytes (ok release) ∷ cs)
                      (call-ok (pack intent) (deps.pack intent) s packing))
            ∙ ap
                (λ (r : RecordedRelease).
                  store_upload recorded bytes (ok r.saved)
                  ∷ verify intent bytes (ok r.release)
                  ∷ pack intent (ok bytes)
                  ∷ s.trace)
                same,
      )

  record_asset-Calls :
      (asset : ReleaseAsset) (intent : ReleaseIntent) (recorded : SavedRelease)
      (s s' : Run EngineCall World) (result : RecordedRelease)
      → record_asset deps package_name intent recorded asset s ≡ (ok result, s')
      → AssetCalls asset intent recorded s s' result
  unfolding record_asset
  record_asset-Calls (uploaded id) intent recorded s s' result h =
      record_prepared-Resumed intent recorded s s' result h
  record_asset-Calls (starter id) intent recorded s s' result h =
      record_fresh-Packed intent recorded s s' result h
  record_asset-Calls missing intent recorded s s' result h =
      record_fresh-Packed intent recorded s s' result h

  -- Recording that returns has first created or found the record. If that holds an archive, its
  -- bytes are downloaded and verified, and nothing is packed; if not, the bytes that are uploaded
  -- are those that were packed once and then verified. Nothing else is done.
  pub record_release-AssetCalls :
      (intent : ReleaseIntent) (s s' : Run EngineCall World) (result : RecordedRelease)
      → record_release deps package_name intent s ≡ (ok result, s')
      → (recorded : SavedRelease) × (t : Run EngineCall World) × (t.trace
          ≡ store_create intent (ok recorded) ∷ s.trace)
        × AssetCalls recorded.asset intent recorded t s' result
  unfolding record_release
  record_release-AssetCalls intent s s' result h =
      let (recorded, t, creating, later) =
        bind-ok (call (store_create intent) (deps.store_create intent)) _ s h in
      (
        recorded,
        t,
        call-ok (store_create intent) (deps.store_create intent) s creating,
        record_asset-Calls recorded.asset intent recorded t s' result later,
      )

  -- The calls of a retry that returns are these, in this order, and no others: a record is found
  -- under the record tag that was given; its bytes are downloaded; they are verified against the
  -- recorded intent; the calls of a publication of the verified release, to npm and to wait, which
  -- reaches a result; and, by that result, the record is completed and its release logged, or only
  -- its supersession logged. So nothing is packed or uploaded to the record, and git, the gate and
  -- the release plan are not read.
  pub execute_retry-calls :
      (record_tag : Text) (s s' : Run EngineCall World)
      → execute_retry deps package_name record_tag s ≡ (ok tt, s')
      → (tag : Text) × (recorded : SavedRelease) × (bytes : Bytes) × (release : VerifiedRelease)
        × (t : Run EngineCall World) × (result : PublicationResult) × (u : Run Call World)
        × (assert_release_tag record_tag ≡ ok tag)
        × (t.trace
            ≡ verify recorded.intent bytes (ok release)
              ∷ store_download recorded (ok bytes)
              ∷ store_find tag (ok (some recorded))
              ∷ s.trace)
        × (publish_verified_release deps.publication release
              (record { world = t.world; trace = [] })
            ≡ (ok result, u))
        × SettledCalls deps package_name recorded result
            (map publishing u.trace
              ++ (verify recorded.intent bytes (ok release)
                  ∷ store_download recorded (ok bytes)
                  ∷ store_find tag (ok (some recorded))
                  ∷ s.trace))
            s'.trace
  unfolding execute_retry
  execute_retry-calls record_tag s s' h =
      let (tag, t, parsed, h1) = bind-ok (lift (assert_release_tag record_tag)) _ s h in
      let (o, u, finding, h2) = bind-ok (call (store_find tag) (deps.store_find tag)) _ t h1 in
      let (accepted, same) = lift-ok (assert_release_tag record_tag) s parsed in
      let found : u.trace ≡ store_find tag (ok o) ∷ s.trace =
        call-ok (store_find tag) (deps.store_find tag) t finding
        ∙ ap (λ (r : Run EngineCall World). store_find tag (ok o) ∷ r.trace) (sym same) in
      let (recorded, bytes, release, v, calls, finished) = saved_calls tag o s u found h2 in
      let (result, w, published, settled) =
        finish_release-SettledCalls deps package_name recorded release v s' finished in
      (
        tag,
        recorded,
        bytes,
        release,
        v,
        result,
        w,
        accepted,
        calls,
        published,
        subst
            (λ cs.
              SettledCalls deps package_name recorded result (map publishing w.trace ++ cs)
                s'.trace)
            calls settled,
      )
    where
      saved_calls :
          (tag : Text) (o : Option SavedRelease) (s u : Run EngineCall World)
          → u.trace ≡ store_find tag (ok o) ∷ s.trace
          → retry_saved deps package_name tag o u ≡ (ok tt, s')
          → (recorded : SavedRelease) × (bytes : Bytes) × (release : VerifiedRelease) × (v : Run
              EngineCall World)
            × (v.trace
                ≡ verify recorded.intent bytes (ok release)
                  ∷ store_download recorded (ok bytes)
                  ∷ store_find tag (ok (some recorded))
                  ∷ s.trace)
            × (finish_release deps package_name recorded release v ≡ (ok tt, s'))
      saved_calls tag none s u found k =
          absurd (fail-ne-ok (no_prepared_release tag) u (unfold retry_saved in k))
      saved_calls tag (some recorded) s u found k =
          let (bytes, v, loading, k1) =
            bind-ok (call (store_download recorded) (deps.store_download recorded)) _ u
              (unfold retry_saved in k) in
          let (release, w, verifying, last) =
            bind-ok (call (verify recorded.intent bytes) (deps.verify recorded.intent bytes)) _ v
              k1 in
          (
            recorded,
            bytes,
            release,
            w,
            call-ok (verify recorded.intent bytes) (deps.verify recorded.intent bytes) v verifying
                ∙ ap (λ cs. verify recorded.intent bytes (ok release) ∷ cs)
                    (call-ok (store_download recorded) (deps.store_download recorded) u loading
                      ∙ ap (λ cs. store_download recorded (ok bytes) ∷ cs) found),
            last,
          )
