-- ===== src/Release/Store.antt =====
-- packages/release/src/store.ts: the record store over the releases and tags on GitHub.
-- The requests, with the decoding of their answers, are the ports. The catalogue of a store is part
-- of the world that its operations change.
pub mod Requests
pub mod Known
pub mod TagPhase
pub mod Upload
pub mod Create
pub mod Listing
mod Tests
use internal.Prelude.{
  ℕ, zero, suc, ◌+◌, Bool, true, false, not, Option, none, some, List, [], ◌∷◌, ◌++◌, ltb, length,
  if◌then◌else◌, Text, text, ◌===◌, get, set, Failure, Result, ok, err, foreign_record,
  damaged_record, tag_not_commit, tag_moved, tag_of_other_commit, archive_not_replaced,
  incomplete_preparation, unpublished_without_archive, pages_left,
}
use internal.Release.Effects.{Run, Eff, pure, fail, lift, call, ◌>>=◌, ◌>>◌}
use internal.Release.Intent.{Channel, stable, canary, ReleaseIntent}
use internal.Release.Record.{
  IntentCodec, release_tag, serialize_intent, GitHubReleaseAsset, ReleaseAsset, missing, starter,
  uploaded, classify_release_asset,
}
use internal.Release.Catalog.{
  GitHubRelease, SavedRelease, CatalogEntry, saved, foreign_entry, broken, ReleaseCatalog,
  assert_same_intent, saved_from_record, list_page, reserved_in,
}

-- github.ts: the object that a tag points at.
pub record GitHubTagRef : Type 0 where
  pub kind : Text
  pub sha : Text

-- The body of the request that creates a release.
pub record NewRelease : Type 0 where
  pub tag_name : Text
  pub target_commitish : Text
  pub name : Text
  pub body : Text
  pub draft : Bool
  pub prerelease : Bool

abbrev pub Bytes : Type 0
Bytes = List ℕ

-- The requests, with their answers. A tag that GitHub does not have answers `none`.
pub data StoreCall : Type 0 where
  get_tag : Text → Result (Option GitHubTagRef) → StoreCall
  get_page : ℕ → Result (List GitHubRelease) → StoreCall
  get_release : ℕ → Result GitHubRelease → StoreCall
  post_tag : Text → Text → Result GitHubTagRef → StoreCall
  post_release : NewRelease → Result GitHubRelease → StoreCall
  delete_asset : ℕ → Result (Unit {0}) → StoreCall
  post_asset : ℕ → Bytes → Result GitHubReleaseAsset → StoreCall
  get_asset : ℕ → Result Bytes → StoreCall
  patch_release : ℕ → Result GitHubRelease → StoreCall

pub record GitHubPort (World : Type 0) : Type 0 where
  pub get_tag : Text → World → Result (Option GitHubTagRef) × World
  pub get_page : ℕ → World → Result (List GitHubRelease) × World
  pub get_release : ℕ → World → Result GitHubRelease × World
  pub post_tag : Text → Text → World → Result GitHubTagRef × World
  pub post_release : NewRelease → World → Result GitHubRelease × World
  pub delete_asset : ℕ → World → Result (Unit {0}) × World
  pub post_asset : ℕ → Bytes → World → Result GitHubReleaseAsset × World
  pub get_asset : ℕ → World → Result Bytes × World
  pub patch_release : ℕ → World → Result GitHubRelease × World

-- The variable `catalog`, and the world outside of the store.
pub record StoreWorld (World : Type 0) : Type 0 where
  pub catalog : Option ReleaseCatalog
  pub outside : World

pub sha_of : Option GitHubTagRef → Result (Option Text)
sha_of none = ok none
sha_of (some ref) =
    if not (ref.kind === text "commit") then err tag_not_commit else ok (some ref.sha)

-- `sha === commit`
is_sha : Option Text → Text → Bool
is_sha none commit = false
is_sha (some sha) commit = sha === commit

pub is_canary : Channel → Bool
is_canary stable = false
is_canary canary = true

module _ {World : Type 0} (codec : IntentCodec) (package_name : Text) (port : GitHubPort World)
    (pages : ℕ) where
  abbrev pub StoreEff : Type 0 → Type 0
  StoreEff A = Eff StoreCall (StoreWorld World) A

  abbrev pub ask : {A : Type 0} → (Result A → StoreCall) → (World → Result A × World) → StoreEff A
  ask note request =
      call note (λ w. let (r, o) = request w.outside in (r, record w { outside = o }))

  pub read_tag_sha : Text → StoreEff (Option Text)
  unfolding sha_of
  read_tag_sha tag = do answer ← ask (get_tag tag) (port.get_tag tag); lift (sha_of answer)

  assert_tag_matches_commit : Text → SavedRelease → StoreEff (Unit {0})
  unfolding read_tag_sha is_sha
  assert_tag_matches_commit tag release = do
    sha ← read_tag_sha tag
    lift (if not (is_sha sha release.intent.commit) then err (tag_moved tag) else ok tt)

  -- The loop of `listReleases` over the pages, on fuel.
  pub list_from : ℕ → ℕ → ReleaseCatalog → StoreEff ReleaseCatalog
  list_from zero page listed = fail pages_left
  list_from (suc fuel) page listed = do
    items ← ask (get_page page) (port.get_page page)
    let merged = list_page codec listed items
    if ltb (length items) 100 then pure merged else list_from fuel (page + 1) merged

  list_releases : StoreEff ReleaseCatalog
  list_releases = list_from pages 1 []

  keep_catalog : ReleaseCatalog → StoreEff ReleaseCatalog
  keep_catalog catalog s =
      (ok catalog, record s { world = record s.world { catalog = some catalog } })

  catalog_or_list : Option ReleaseCatalog → StoreEff ReleaseCatalog
  unfolding keep_catalog list_releases
  catalog_or_list (some catalog) = pure catalog
  catalog_or_list none = list_releases >>= keep_catalog

  pub release_catalog : StoreEff ReleaseCatalog
  unfolding catalog_or_list
  release_catalog s = catalog_or_list s.world.catalog s

  pub remember : SavedRelease → StoreEff (Unit {0})
  unfolding release_catalog
  remember release = do
    catalog ← release_catalog
    keep_catalog (set (release_tag release.intent) (saved release) catalog)
    pure tt

  find_entry : Text → Option CatalogEntry → StoreEff (Option SavedRelease)
  unfolding assert_tag_matches_commit
  find_entry tag (some (broken reason)) = fail (damaged_record tag reason)
  find_entry tag (some foreign_entry) = fail (foreign_record tag)
  find_entry tag (some (saved release)) =
      assert_tag_matches_commit tag release >> pure (some release)
  find_entry tag none = pure none

  pub find : Text → StoreEff (Option SavedRelease)
  unfolding find_entry
  find tag = do catalog ← release_catalog; find_entry tag (get tag catalog)

  pub read_saved : ℕ → StoreEff SavedRelease
  read_saved id = do
    value ← ask (get_release id) (port.get_release id)
    release ← lift (saved_from_record codec value)
    assert_tag_matches_commit (release_tag release.intent) release
    remember release
    pure release

  -- The tag is created unless it is there, and then it must be at the commit.
  pub settle_tag : Text → Text → Option Text → StoreEff (Unit {0})
  settle_tag tag commit none = ask (post_tag tag commit) (port.post_tag tag commit) >> pure tt
  settle_tag tag commit (some sha) =
      lift (if not (sha === commit) then err (tag_of_other_commit tag) else ok tt)

  pub new_release : ReleaseIntent → NewRelease
  unfolding is_canary
  new_release intent = record {
    tag_name = release_tag intent;
    target_commitish = intent.commit;
    name = package_name ++ text " " ++ intent.version;
    body = serialize_intent codec intent;
    draft = true;
    prerelease = is_canary intent.channel;
  }

  create_absent : ReleaseIntent → StoreEff SavedRelease
  unfolding settle_tag new_release
  create_absent intent = do
    sha ← read_tag_sha (release_tag intent)
    settle_tag (release_tag intent) intent.commit sha
    value ← ask (post_release (new_release intent)) (port.post_release (new_release intent))
    created ← lift (saved_from_record codec value)
    lift (assert_same_intent created.intent intent)
    remember created
    pure created

  create_from : ReleaseIntent → Option SavedRelease → StoreEff SavedRelease
  unfolding create_absent
  create_from intent (some existing) =
      lift (assert_same_intent existing.intent intent) >> pure existing
  create_from intent none = create_absent intent

  pub create : ReleaseIntent → StoreEff SavedRelease
  unfolding create_from
  create intent = do existing ← find (release_tag intent); create_from intent existing

  -- The asset that is there is refused, deleted or absent.
  clear_asset : ReleaseAsset → StoreEff (Unit {0})
  clear_asset (uploaded id) = fail archive_not_replaced
  clear_asset (starter id) = ask (delete_asset id) (port.delete_asset id)
  clear_asset missing = pure tt

  pub upload : SavedRelease → Bytes → StoreEff SavedRelease
  unfolding clear_asset read_saved
  upload release bytes = do
    current ← read_saved release.id
    lift (assert_same_intent current.intent release.intent)
    clear_asset current.asset
    sent ← ask (post_asset release.id bytes) (port.post_asset release.id bytes)
    asset ← lift (classify_release_asset false (some sent))
    let result : SavedRelease = record { id = release.id; intent = current.intent; asset = asset }
    remember result
    pure result

  download_asset : ReleaseAsset → StoreEff Bytes
  download_asset (uploaded id) = ask (get_asset id) (port.get_asset id)
  download_asset _ = fail incomplete_preparation

  pub download : SavedRelease → StoreEff Bytes
  unfolding download_asset
  download release = download_asset release.asset

  complete_asset : ℕ → ReleaseAsset → StoreEff (Unit {0})
  complete_asset id (uploaded _) = ask (patch_release id) (port.patch_release id) >> pure tt
  complete_asset id _ = fail unpublished_without_archive

  pub complete : SavedRelease → StoreEff (Unit {0})
  unfolding complete_asset
  complete release = complete_asset release.id release.asset

  pub reserved_canary_versions : StoreEff (List Text)
  reserved_canary_versions = do catalog ← release_catalog; pure (reserved_in catalog)
