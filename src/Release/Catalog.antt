-- ===== src/Release/Catalog.antt =====
-- packages/release/src/store.ts: what the releases on GitHub say of the records.
pub mod Entries
use internal.Prelude.{
  ℕ, Bool, true, false, ◌||◌, not, Option, none, some, List, [], ◌∷◌, ◌++◌, map, if◌then◌else◌,
  Text, ◌===◌, filter, set, Failure, Result, ok, err, ◌>>=◌, ◌>>◌, intent_differs,
  duplicate_archives, foreign_record_tag,
}
use internal.Release.Intent.{Channel, stable, canary, ReleaseIntent}
use internal.Release.Record.{
  IntentCodec, ReleaseRecordClassification, ignored, foreign, owned, legacy,
  classify_release_record, GitHubReleaseAsset, ReleaseAsset, classify_release_asset,
  release_archive_name,
}

-- github.ts: a release as the API returns it. A body that is null or absent is `none`.
pub record GitHubRelease : Type 0 where
  pub id : ℕ
  pub tag_name : Text
  pub body : Option Text
  pub draft : Option Bool
  pub assets : List GitHubReleaseAsset

pub record SavedRelease : Type 0 where
  pub id : ℕ
  pub intent : ReleaseIntent
  pub asset : ReleaseAsset

pub data CatalogEntry : Type 0 where
  saved : SavedRelease → CatalogEntry
  foreign_entry : CatalogEntry
  broken : Failure → CatalogEntry

abbrev pub ReleaseCatalog : Type 0
ReleaseCatalog = List (Text × CatalogEntry)

-- `===` on channels.
same_channel : Channel → Channel → Bool
same_channel stable stable = true
same_channel canary canary = true
same_channel _ _ = false

unfoldable pub assert_same_intent : ReleaseIntent → ReleaseIntent → Result (Unit {0})
unfolding same_channel
assert_same_intent recorded intended =
    if not (recorded.commit === intended.commit)
      || (not (recorded.version === intended.version)
          || not (same_channel recorded.channel intended.channel))
    then err intent_differs
    else ok tt

-- `draft === true`
is_draft : Option Bool → Bool
is_draft (some true) = true
is_draft _ = false

-- `assets[0]`, once there is no second one.
only_asset : List GitHubReleaseAsset → Result (Option GitHubReleaseAsset)
only_asset [] = ok none
only_asset (asset ∷ []) = ok (some asset)
only_asset (_ ∷ _ ∷ _) = err duplicate_archives

body_of : Option Text → Text
body_of none = []
body_of (some body) = body

unfoldable pub saved_release_from : GitHubRelease → ReleaseIntent → Result SavedRelease
unfolding only_asset is_draft
saved_release_from value intent = do
  archive ← only_asset (filter (λ asset. asset.name === release_archive_name) value.assets)
  asset ← classify_release_asset (is_draft value.draft) archive
  ok (record { id = value.id; intent = intent; asset = asset })

entry_of : GitHubRelease → ReleaseRecordClassification → Result (Option CatalogEntry)
unfolding saved_release_from
entry_of value ignored = ok none
entry_of value foreign = ok (some foreign_entry)
entry_of value (owned intent) = do
  release ← saved_release_from value intent
  ok (some (saved release))
entry_of value (legacy intent) = do
  release ← saved_release_from value intent
  ok (some (saved release))

-- `catch`
broken_on_failure : Result (Option CatalogEntry) → Option CatalogEntry
broken_on_failure (ok entry) = entry
broken_on_failure (err cause) = some (broken cause)

saved_of : Option CatalogEntry → Result SavedRelease
saved_of (some (saved release)) = ok release
saved_of (some (broken reason)) = err reason
saved_of (some foreign_entry) = err foreign_record_tag
saved_of none = err foreign_record_tag

-- One round of the inner loop of `listReleases`.
list_entry : Text → Option CatalogEntry → ReleaseCatalog → ReleaseCatalog
list_entry tag none listed = listed
list_entry tag (some entry) listed = set tag entry listed

canary_version_of : CatalogEntry → List Text
canary_version_of (saved release) = elim release.intent.channel [
  | stable ↦ []
  | canary ↦ release.intent.version ∷ []
]
canary_version_of _ = []

-- The loop of `reservedCanaryVersions`.
pub reserved_in : ReleaseCatalog → List Text
unfolding canary_version_of
reserved_in [] = []
reserved_in ((tag, entry) ∷ rest) = canary_version_of entry ++ reserved_in rest

module _ (codec : IntentCodec) where
  unfoldable pub classify_catalog_entry : GitHubRelease → Option CatalogEntry
  unfolding entry_of broken_on_failure body_of
  classify_catalog_entry value = broken_on_failure (do
    classification ←
        classify_release_record codec value.tag_name (body_of value.body)
          (map (λ asset. asset.name) value.assets)
    entry_of value classification)

  unfoldable pub saved_from_record : GitHubRelease → Result SavedRelease
  unfolding saved_of classify_catalog_entry
  saved_from_record value = saved_of (classify_catalog_entry value)

  unfoldable pub list_page : ReleaseCatalog → List GitHubRelease → ReleaseCatalog
  unfolding list_entry classify_catalog_entry
  list_page listed [] = listed
  list_page listed (value ∷ rest) =
      list_page (list_entry value.tag_name (classify_catalog_entry value) listed) rest
