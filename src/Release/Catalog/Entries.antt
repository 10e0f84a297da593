-- ===== src/Release/Catalog/Entries.antt =====
-- What a catalogue entry says of the release that it was read from.
use internal.Prelude.{
  ◌≡◌, refl, sym, ap, ◌∙◌, true, some, List, [], ◌∷◌, ◌++◌, ◌⊎◌, inl, inr, map, Result-cases, ◌===◌,
  ===_iff, ok, ◌>>=◌, filter, arith,
}
use internal.Release.Intent.{Channel, stable, canary, ReleaseIntent}
use internal.Release.Record.{
  IntentCodec, ReleaseRecordClassification, ignored, foreign, owned, legacy,
  classify_release_record, release_tag, ReleaseAsset, classify_release_asset, release_archive_name,
}
use internal.Release.Record.Ownership.{classified_tag}
use internal.Release.Catalog.{
  GitHubRelease, SavedRelease, saved, ReleaseCatalog, same_channel, assert_same_intent,
  saved_release_from, only_asset, is_draft, entry_of, body_of, broken_on_failure, saved_of,
  classify_catalog_entry, saved_from_record, list_page, list_entry,
}

same_channel_iff : (c d : Channel) → same_channel c d ≡ true → c ≡ d
unfolding same_channel
same_channel_iff stable stable h = refl
same_channel_iff canary canary h = refl
same_channel_iff stable canary h = cc
same_channel_iff canary stable h = cc

same_fields :
    (a b : ReleaseIntent)
    → (a.channel ≡ b.channel)
    → (a.version ≡ b.version)
    → (a.commit ≡ b.commit)
    → a ≡ b
same_fields a b c v k = λ i. record { channel = c i; version = v i; commit = k i }

-- The check of intents passes only for equal ones.
pub assert_same_intent-eq : (a b : ReleaseIntent) → assert_same_intent a b ≡ ok tt → a ≡ b
unfolding assert_same_intent
assert_same_intent-eq a b h =
    same_fields a b (same_channel_iff a.channel b.channel (ground arith))
      ((===_iff a.version b.version).0 (ground arith))
      ((===_iff a.commit b.commit).0 (ground arith))

saved_release_from-fields :
    (value : GitHubRelease) (intent : ReleaseIntent) (release : SavedRelease)
    → saved_release_from value intent ≡ ok release
    → (release.id ≡ value.id) × (release.intent ≡ intent)
unfolding saved_release_from
saved_release_from-fields value intent release h =
    elim (Result-cases
      (only_asset (filter (λ asset. asset.name === release_archive_name) value.assets))) [
        | inr (f, failed) ↦ absurd (cc (rw (failed, saved_release_from) at h))
        | inl (archive, e) ↦
            elim (Result-cases (classify_release_asset (is_draft value.draft) archive)) [
              | inr (f, failed) ↦ absurd (cc (rw (e, failed, saved_release_from) at h))
              | inl (asset, e') ↦ fields asset (rw (e, e', saved_release_from) at h)
            ]
      ]
  where
    fields :
        (asset : ReleaseAsset)
        → ok (record { id = value.id; intent = intent; asset = asset }) ≡ ok release
        → (release.id ≡ value.id) × (release.intent ≡ intent)
    fields asset k =
        let same : (record { id = value.id; intent = intent; asset = asset }) ≡ release = cc in
        (sym (ap (λ (r : SavedRelease). r.id) same), sym (ap (λ (r : SavedRelease). r.intent) same))

intent_of :
    (value : GitHubRelease) (intent : ReleaseIntent) (release : SavedRelease)
    (k : ReleaseRecordClassification)
    → entry_of value k ≡ (saved_release_from value intent >>= λ r. ok (some (saved r)))
    → saved_of (broken_on_failure (entry_of value k)) ≡ ok release
    → (release.id ≡ value.id) × (release.intent ≡ intent)
unfolding saved_of broken_on_failure
intent_of value intent release k e h = elim (Result-cases (saved_release_from value intent)) [
  | inr (f, failed) ↦ absurd (cc (rw (e, failed) at h))
  | inl (r, made) ↦
      let same : ok r ≡ ok release = rw (e, made) at h in
      saved_release_from-fields value intent release (made ∙ same)
]

-- What a saved entry was classified as.
saved_kind :
    (value : GitHubRelease) (release : SavedRelease) (k : ReleaseRecordClassification)
    → saved_of (broken_on_failure (entry_of value k)) ≡ ok release
    → (release.id ≡ value.id) × ((k ≡ owned release.intent) ⊎ (k ≡ legacy release.intent))
unfolding saved_of broken_on_failure entry_of
saved_kind value release ignored h = absurd (cc)
saved_kind value release foreign h = absurd (cc)
saved_kind value release (owned intent) h =
    let (id, same) = intent_of value intent release (owned intent) refl h in
    (id, inl (ap owned (sym same)))
saved_kind value release (legacy intent) h =
    let (id, same) = intent_of value intent release (legacy intent) refl h in
    (id, inr (ap legacy (sym same)))

-- A release that is read as a record of this owner keeps its id, and stands under the tag of its
-- intent.
pub saved_from_record-tag :
    (codec : IntentCodec) (value : GitHubRelease) (release : SavedRelease)
    → saved_from_record codec value ≡ ok release
    → (release.id ≡ value.id) × (release_tag release.intent ≡ value.tag_name)
unfolding saved_from_record classify_catalog_entry
saved_from_record-tag codec value release h =
    elim (Result-cases (
      classify_release_record codec value.tag_name (body_of value.body)
        (map (λ asset. asset.name) value.assets))) [
          | inr (f, failed) ↦
              absurd (unfold saved_of broken_on_failure in cc (rw (failed, saved_from_record) at h))
          | inl (k, e) ↦
              let (id, kind) = saved_kind value release k (rw (e, saved_from_record) at h) in
              (id, tag_of_kind k e kind)
        ]
  where
    tag_of_kind :
        (k : ReleaseRecordClassification)
        → classify_release_record codec value.tag_name
            (body_of value.body)
            (map (λ asset. asset.name) value.assets)
          ≡ ok k
        → (k ≡ owned release.intent) ⊎ (k ≡ legacy release.intent)
        → release_tag release.intent ≡ value.tag_name
    tag_of_kind k e (inl own) =
        classified_tag codec value.tag_name (body_of value.body) _ release.intent
          (inl (e ∙ ap ok own))
    tag_of_kind k e (inr old) =
        classified_tag codec value.tag_name (body_of value.body) _ release.intent
          (inr (e ∙ ap ok old))

pub list_page-append :
    (codec : IntentCodec) (listed : ReleaseCatalog) (xs ys : List GitHubRelease)
    → list_page codec listed (xs ++ ys) ≡ list_page codec (list_page codec listed xs) ys
unfolding list_page
list_page-append codec listed [] ys = refl
list_page-append codec listed (x ∷ xs) ys =
    list_page-append codec (list_entry x.tag_name (classify_catalog_entry codec x) listed) xs ys
