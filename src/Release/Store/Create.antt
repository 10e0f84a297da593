-- ===== src/Release/Store/Create.antt =====
-- `create`: what a run that returns has done, and what it returns.
use internal.Prelude.{
  ℕ, ◌≡◌, sym, ap, ◌∙◌, true, Option, none, some, List, ◌∷◌, ◌++◌, ◌⊎◌, inl, inr, Text, text, get,
  set, ok,
}
use internal.Release.Effects.{Run, lift, bind-ok, lift-ok}
use internal.Release.Intent.{ReleaseIntent}
use internal.Release.Record.{IntentCodec, release_tag, serialize_intent}
use internal.Release.Catalog.{
  GitHubRelease, SavedRelease, saved, ReleaseCatalog, assert_same_intent, saved_from_record,
}
use internal.Release.Catalog.Entries.{assert_same_intent-eq}
use internal.Release.Store.{
  GitHubTagRef, StoreCall, get_tag, post_release, GitHubPort, StoreWorld, ask, remember, find,
  create_from, create_absent, create, new_release, settle_tag, read_tag_sha, is_canary,
}
use internal.Release.Store.Requests.{released, asked}
use internal.Release.Store.TagPhase.{TagSettled, read_and_settle}
use internal.Release.Store.Known.{find-absent, ask-catalog, remember-known}

module _ {World : Type 0} (codec : IntentCodec) (package_name : Text) (port : GitHubPort World)
    (pages : ℕ) where
  -- A record that was created by a run: the catalogue had no entry for the tag; the tag was looked
  -- up and settled; one request created a draft release, and was the last one; the answer reads back
  -- as the record, and the catalogue holds it.
  pub record Created (intent : ReleaseIntent) (s s' : Run StoreCall (StoreWorld World))
      (result : SavedRelease) : Type 0 where
    pub looked : Run StoreCall (StoreWorld World)
    pub not_found : find codec package_name port pages (release_tag intent) s ≡ (ok none, looked)
    pub catalog : ReleaseCatalog
    pub known : looked.world.catalog ≡ some catalog
    pub lacking : get (release_tag intent) catalog ≡ none
    pub answer : Option GitHubTagRef
    pub settled : List StoreCall
    pub tag :
        TagSettled intent answer (get_tag (release_tag intent) (ok answer) ∷ looked.trace) settled
    pub value : GitHubRelease
    pub requests :
        s'.trace
        ≡ post_release
            (record {
              tag_name = release_tag intent;
              target_commitish = intent.commit;
              name = package_name ++ text " " ++ intent.version;
              body = serialize_intent codec intent;
              draft = true;
              prerelease = is_canary intent.channel;
            })
            (ok value)
          ∷ settled
    pub read_back : saved_from_record codec value ≡ ok result
    pub remembered : s'.world.catalog ≡ some (set (release_tag intent) (saved result) catalog)

  abbrev pub FoundOrCreated :
      ReleaseIntent
      → Run StoreCall (StoreWorld World)
      → Run StoreCall (StoreWorld World)
      → SavedRelease
      → Type 0
  FoundOrCreated intent s s' result =
      (find codec package_name port pages (release_tag intent) s ≡ (ok (some result), s'))
      ⊎ Created intent s s' result

  create_absent-Created :
      (intent : ReleaseIntent) (s t s' : Run StoreCall (StoreWorld World)) (result : SavedRelease)
      → find codec package_name port pages (release_tag intent) s ≡ (ok none, t)
      → create_absent codec package_name port pages intent t ≡ (ok result, s')
      → (result.intent ≡ intent) × Created intent s s' result
  unfolding create_absent new_release
  create_absent-Created intent s t s' result found h =
      let (c, known, lacking) =
        find-absent codec package_name port pages (release_tag intent) s t found in
      let note = post_release (new_release codec package_name port pages intent) in
      let request = port.post_release (new_release codec package_name port pages intent) in
      let (sha, u, reading, h1) =
        bind-ok (read_tag_sha codec package_name port pages (release_tag intent)) _ t h in
      let (_, v, settling, h2) =
        bind-ok (settle_tag codec package_name port pages (release_tag intent) intent.commit sha) _
          u h1 in
      let (answer, tag, kept) =
        read_and_settle codec package_name port pages intent sha t u v reading settling in
      let (value, w, posting, h3) =
        bind-ok (ask codec package_name port pages note request) _ v h2 in
      let (made, z, decoding, h4) = bind-ok (lift (saved_from_record codec value)) _ w h3 in
      let (accepted, run1) = lift-ok (saved_from_record codec value) w decoding in
      let (_, z', comparing, h5) = bind-ok (lift (assert_same_intent made.intent intent)) _ z h4 in
      let (passed, run2) = lift-ok (assert_same_intent made.intent intent) z comparing in
      let (_, r, storing, last) = bind-ok (remember codec package_name port pages made) _ z' h5 in
      let (returned, end) = lift-ok (ok made) r last in
      let same = released made result returned in
      let own = assert_same_intent-eq made.intent intent passed in
      let held =
        ap (λ (x : Run StoreCall (StoreWorld World)). x.world.catalog) (sym (run1 ∙ run2))
        ∙ ask-catalog codec package_name port pages note request v w value posting
        ∙ kept
        ∙ known in
      let (silent, stored) =
        remember-known codec package_name port pages made z' r c held storing in
      (
        ap (λ (x : SavedRelease). x.intent) (sym same) ∙ own,
        record {
          looked = t;
          not_found = found;
          catalog = c;
          known = known;
          lacking = lacking;
          answer = answer;
          settled = v.trace;
          tag = tag;
          value = value;
          requests =
              ap (λ (x : Run StoreCall (StoreWorld World)). x.trace) (sym end)
              ∙ silent
              ∙ ap (λ (x : Run StoreCall (StoreWorld World)). x.trace) (sym (run1 ∙ run2))
              ∙ asked codec package_name port pages note request v w value posting;
          read_back = accepted ∙ ap ok same;
          remembered =
              ap (λ (x : Run StoreCall (StoreWorld World)). x.world.catalog) (sym end)
              ∙ stored
              ∙ ap (λ i. some (set (release_tag i) (saved made) c)) own
              ∙ ap (λ x. some (set (release_tag intent) (saved x) c)) same;
        },
      )

  created_from :
      (intent : ReleaseIntent) (existing : Option SavedRelease)
      (s t s' : Run StoreCall (StoreWorld World)) (result : SavedRelease)
      → find codec package_name port pages (release_tag intent) s ≡ (ok existing, t)
      → create_from codec package_name port pages intent existing t ≡ (ok result, s')
      → (result.intent ≡ intent) × FoundOrCreated intent s s' result
  unfolding create_from
  created_from intent none s t s' result found h =
      let (own, made) = create_absent-Created intent s t s' result found h in (own, inr made)
  created_from intent (some existing) s t s' result found h =
      let (_, u, compared, last) =
        bind-ok (lift (assert_same_intent existing.intent intent)) _ t h in
      let (passed, same_run) = lift-ok (assert_same_intent existing.intent intent) t compared in
      let (returned, end) = lift-ok (ok existing) u last in
      let same = released existing result returned in
      (
        ap (λ (r : SavedRelease). r.intent) (sym same)
            ∙ assert_same_intent-eq existing.intent intent passed,
        inl (
            found
            ∙ ap (λ (r : SavedRelease). (ok (some r), t)) same
            ∙ ap (λ (r : Run StoreCall (StoreWorld World)). (ok (some result), r))
                (same_run ∙ end)),
      )

  -- A creation that returns has the very intent that was asked for. Either a look-up found the
  -- record under the intent's tag, and nothing else was done; or it found none, and after it the
  -- run made these requests and no others: it looked up the tag, created the tag at the intent's
  -- commit if GitHub lacked it (and it pointed at that commit if not), and created one release, a
  -- draft for the tag and the commit whose body is the written intent. The answer to that reads
  -- back as the result, which the catalogue then holds under the tag.
  pub create-FoundOrCreated :
      (intent : ReleaseIntent) (s s' : Run StoreCall (StoreWorld World)) (result : SavedRelease)
      → create codec package_name port pages intent s ≡ (ok result, s')
      → (result.intent ≡ intent) × FoundOrCreated intent s s' result
  unfolding create
  create-FoundOrCreated intent s s' result h =
      let (existing, t, found, later) =
        bind-ok (find codec package_name port pages (release_tag intent)) _ s h in
      created_from intent existing s t s' result found later
