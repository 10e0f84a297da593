-- ===== src/Release/Store/Upload.antt =====
-- `upload`: what a run that returns has done, and what it returns.
use internal.Prelude.{
  ℕ, ◌≡◌, sym, ap, ◌∙◌, subst, false, some, List, [], ◌∷◌, ◌++◌, Text, ok, archive_not_replaced,
}
use internal.Release.Effects.{Run, pure, lift, bind-ok, lift-ok, fail-ne-ok}
use internal.Release.Record.{
  IntentCodec, GitHubReleaseAsset, ReleaseAsset, missing, starter, uploaded, classify_release_asset,
}
use internal.Release.Record.Assets.{classify_uploaded}
use internal.Release.Catalog.{SavedRelease, assert_same_intent}
use internal.Release.Catalog.Entries.{assert_same_intent-eq}
use internal.Release.Store.{
  StoreCall, delete_asset, post_asset, Bytes, GitHubPort, StoreWorld, ask, remember, read_saved,
  clear_asset, upload,
}
use internal.Release.Store.Requests.{released, asked}

-- An asset that holds no recorded archive.
abbrev pub IsReplaceable : ReleaseAsset → Type 0
IsReplaceable (uploaded id) = ⊥
IsReplaceable (starter id) = Unit {0}
IsReplaceable missing = Unit {0}

-- The requests that clear an asset.
abbrev pub clearing : ReleaseAsset → List StoreCall
clearing (starter id) = delete_asset id (ok tt) ∷ []
clearing _ = []

module _ {World : Type 0} (codec : IntentCodec) (package_name : Text) (port : GitHubPort World)
    (pages : ℕ) where
  -- An upload that returned: the release was read again and held no archive, the placeholder was
  -- deleted if there was one, and the bytes were sent once.
  pub record Repaired (release : SavedRelease) (bytes : Bytes)
      (s s' : Run StoreCall (StoreWorld World)) (result : SavedRelease) : Type 0 where
    pub current : SavedRelease
    pub checked : Run StoreCall (StoreWorld World)
    pub read_again : read_saved codec package_name port pages release.id s ≡ (ok current, checked)
    pub same_intent : current.intent ≡ release.intent
    pub replaceable : IsReplaceable current.asset
    pub sent : GitHubReleaseAsset
    pub posted : Run StoreCall (StoreWorld World)
    pub requests :
        posted.trace
        ≡ post_asset release.id bytes (ok sent) ∷ (clearing current.asset ++ checked.trace)
    pub remembered : remember codec package_name port pages result posted ≡ (ok tt, s')
    pub same_id : result.id ≡ release.id
    pub kept_intent : result.intent ≡ release.intent
    pub holds_archive : result.asset ≡ uploaded sent.id

  abbrev trace_of : Run StoreCall (StoreWorld World) → List StoreCall
  trace_of s = s.trace

  cleared :
      (asset : ReleaseAsset) (s t : Run StoreCall (StoreWorld World))
      → clear_asset codec package_name port pages asset s ≡ (ok tt, t)
      → IsReplaceable asset × (t.trace ≡ clearing asset ++ s.trace)
  unfolding clear_asset
  cleared (uploaded id) s t h = absurd (fail-ne-ok archive_not_replaced s h)
  cleared (starter id) s t h =
      (tt, asked codec package_name port pages (delete_asset id) (port.delete_asset id) s t tt h)
  cleared missing s t h = (tt, ap trace_of (sym (lift-ok (ok tt) s h).1))

  -- An upload that returns never replaced a recorded archive: the release was read again as a
  -- record, which has the intent of the release and held no archive; then any empty placeholder
  -- was deleted, the bytes were sent in one request, and the result has the release's
  -- id and intent and holds the asset that GitHub answered.
  pub upload-Repaired :
      (release : SavedRelease) (bytes : Bytes) (s s' : Run StoreCall (StoreWorld World))
      (result : SavedRelease)
      → upload codec package_name port pages release bytes s ≡ (ok result, s')
      → Repaired release bytes s s' result
  unfolding upload
  upload-Repaired release bytes s s' result h =
      let (current, t, read_again, h1) =
        bind-ok (read_saved codec package_name port pages release.id) _ s h in
      let (x, u, compared, h2) =
        bind-ok (lift (assert_same_intent current.intent release.intent)) _ t h1 in
      let (y, v, clear, h3) =
        bind-ok (clear_asset codec package_name port pages current.asset) _ u h2 in
      let (sent, w, posting, h4) =
        bind-ok
          (ask codec package_name port pages (post_asset release.id bytes)
            (port.post_asset release.id bytes))
          _ v h3 in
      let (asset, z, classified, h5) =
        bind-ok (lift (classify_release_asset false (some sent))) _ w h4 in
      let made : SavedRelease = record {
        id = release.id;
        intent = current.intent;
        asset = asset;
      } in
      let (m, r, stored, last) = bind-ok (remember codec package_name port pages made) _ z h5 in
      finish current t read_again u compared v clear sent w posting asset z classified r stored last
    where
      finish :
          (current : SavedRelease) (t : Run StoreCall (StoreWorld World))
          → read_saved codec package_name port pages release.id s ≡ (ok current, t)
          → (u : Run StoreCall (StoreWorld World))
          → lift (assert_same_intent current.intent release.intent) t ≡ (ok tt, u)
          → (v : Run StoreCall (StoreWorld World))
          → clear_asset codec package_name port pages current.asset u ≡ (ok tt, v)
          → (sent : GitHubReleaseAsset) (w : Run StoreCall (StoreWorld World))
          → ask codec package_name port pages
              (post_asset release.id bytes)
              (port.post_asset release.id bytes)
              v
            ≡ (ok sent, w)
          → (asset : ReleaseAsset) (z : Run StoreCall (StoreWorld World))
          → lift (classify_release_asset false (some sent)) w ≡ (ok asset, z)
          → (r : Run StoreCall (StoreWorld World))
          → remember codec package_name port pages
              (record { id = release.id; intent = current.intent; asset = asset })
              z
            ≡ (ok tt, r)
          → pure {Call = StoreCall} {World = StoreWorld World} {A = SavedRelease}
              (record { id = release.id; intent = current.intent; asset = asset })
              r
            ≡ (ok result, s')
          → Repaired release bytes s s' result
      finish current t read_again u compared v clear sent w posting asset z classified r stored
            last =
          let (passed, same_run) =
            lift-ok (assert_same_intent current.intent release.intent) t compared in
          let (replaceable, deletions) = cleared current.asset u v clear in
          let (accepted, same_run') =
            lift-ok (classify_release_asset false (some sent)) w classified in
          let equal = assert_same_intent-eq current.intent release.intent passed in
          let made : SavedRelease = record {
            id = release.id;
            intent = current.intent;
            asset = asset;
          } in
          let (returned, end) = lift-ok (ok made) r last in
          let same : made ≡ result = released made result returned in
          record {
            current = current;
            checked = t;
            read_again = read_again;
            same_intent = equal;
            replaceable = replaceable;
            sent = sent;
            posted = w;
            requests =
                asked codec package_name port pages (post_asset release.id bytes)
                  (port.post_asset release.id bytes) v w sent posting
                ∙ ap (λ cs. post_asset release.id bytes (ok sent) ∷ cs)
                    (deletions ∙ ap (λ x. clearing current.asset ++ trace_of x) (sym same_run));
            remembered =
                subst (λ x. remember codec package_name port pages result x ≡ (ok tt, s'))
                  (sym same_run')
                  (subst (λ x. remember codec package_name port pages result z ≡ (ok tt, x)) end
                    (subst (λ x. remember codec package_name port pages x z ≡ (ok tt, r)) same
                      stored));
            same_id = sym (ap (λ (x : SavedRelease). x.id) same);
            kept_intent = sym (ap (λ (x : SavedRelease). x.intent) same) ∙ equal;
            holds_archive =
                sym (ap (λ (x : SavedRelease). x.asset) same)
                ∙ classify_uploaded sent asset accepted;
          }
