-- ===== src/Release/Store/Tests.antt =====
-- A GitHub that answers each request with one draft release, and instances of the theorems.
use internal.Prelude.{
  ◌≡◌, refl, true, false, none, some, List, [], ◌∷◌, ◌==◌, if◌then◌else◌, Text, text, ◌===◌, get,
  set, ok, split, index_of,
}
use internal.Release.Version.{
  is_canary_release_version, assert_canary_release_version, stable_components, canary_components,
  is_numeric_identifier,
}
use internal.Release.Intent.{is_commit, assert_commit}
use internal.Release.Samples.{commit_c, canary_intent}
use internal.Extractor.Matching.Cells.{fill}
use internal.Release.Effects.{Run}
use internal.Release.Record.{
  release_tag, is_release_tag, canary_record_tag, parse_intent, serialize_intent, try_parse_body,
  intent_matching_tag, classify_release_record, GitHubReleaseAsset, missing, uploaded,
  classify_release_asset,
}
use internal.Release.Record.Samples.{codec}
use internal.Release.Catalog.{
  GitHubRelease, SavedRelease, assert_same_intent, saved_release_from, classify_catalog_entry,
  saved_from_record, list_page,
}
use internal.Release.Catalog.Entries.{saved_from_record-tag}
use internal.Release.Store.{
  StoreCall, get_page, GitHubPort, StoreWorld, list_from, assert_tag_matches_commit, remember,
  read_saved, find, create, upload,
}
use internal.Release.Store.Upload.{Repaired, upload-Repaired}
use internal.Release.Store.Create.{FoundOrCreated, create-FoundOrCreated}
use internal.Release.Store.Listing.{AllFull, Ends, list_from-Ends}

abbrev github_draft : GitHubRelease
unfolding release_tag canary_record_tag serialize_intent
github_draft = record {
  id = 7;
  tag_name = release_tag canary_intent;
  body = some (serialize_intent codec canary_intent);
  draft = some true;
  assets = [];
}

abbrev sent_asset : GitHubReleaseAsset
sent_asset = record { name = text "release.tgz"; id = 5; state = text "uploaded"; size = 3 }

abbrev draft_record : SavedRelease
draft_record = record { id = 7; intent = canary_intent; asset = missing }

abbrev full_record : SavedRelease
full_record = record { id = 7; intent = canary_intent; asset = uploaded 5 }

abbrev port : GitHubPort (Unit {0})
port = record {
  get_tag = λ tag w. (ok (some (record { kind = text "commit"; sha = commit_c })), w);
  get_page = λ page w. (ok [], w);
  get_release = λ id w. (ok github_draft, w);
  post_tag = λ tag sha w. (ok (record { kind = text "commit"; sha = sha }), w);
  post_release = λ body w. (ok github_draft, w);
  delete_asset = λ id w. (ok tt, w);
  post_asset = λ id bytes w. (ok sent_asset, w);
  get_asset = λ id w. (ok (1 ∷ 2 ∷ 3 ∷ []), w);
  patch_release = λ id w. (ok github_draft, w);
}

abbrev start : Run StoreCall (StoreWorld (Unit {0}))
start = record { world = record { catalog = none; outside = tt }; trace = [] }

abbrev package_name : Text
package_name = text "@elmera/ui"

reads_back : saved_from_record codec github_draft ≡ ok draft_record
unfolding saved_from_record classify_catalog_entry saved_release_from classify_release_record
    try_parse_body intent_matching_tag parse_intent serialize_intent is_release_tag release_tag
    canary_record_tag classify_release_asset is_canary_release_version assert_canary_release_version
    canary_components stable_components is_numeric_identifier split index_of is_commit assert_commit
    ◌===◌
reads_back = refl

abbrev uploaded_run : Run StoreCall (StoreWorld (Unit {0}))
uploaded_run = (upload codec package_name port 1 draft_record (1 ∷ 2 ∷ 3 ∷ []) start).1

uploads :
    upload codec package_name port 1 draft_record (1 ∷ 2 ∷ 3 ∷ []) start
    ≡ (ok full_record, uploaded_run)
unfolding upload read_saved remember assert_tag_matches_commit list_from list_page
    assert_same_intent saved_from_record classify_catalog_entry saved_release_from
    classify_release_record try_parse_body intent_matching_tag parse_intent serialize_intent
    is_release_tag release_tag canary_record_tag classify_release_asset is_canary_release_version
    assert_canary_release_version canary_components stable_components is_numeric_identifier split
    index_of is_commit assert_commit ◌===◌ get set
uploads = refl

abbrev created_run : Run StoreCall (StoreWorld (Unit {0}))
created_run = (create codec package_name port 1 canary_intent start).1

creates : create codec package_name port 1 canary_intent start ≡ (ok draft_record, created_run)
unfolding create find remember list_from list_page assert_same_intent saved_from_record
    classify_catalog_entry saved_release_from classify_release_record try_parse_body
    intent_matching_tag parse_intent serialize_intent is_release_tag release_tag canary_record_tag
    classify_release_asset is_canary_release_version assert_canary_release_version canary_components
    stable_components is_numeric_identifier split index_of is_commit assert_commit ◌===◌ get set
creates = refl

abbrev other_release : GitHubRelease
other_release = record {
  id = 1;
  tag_name = text "v1";
  body = none;
  draft = some false;
  assets = [];
}

abbrev hundred : List GitHubRelease
hundred = fill 100 other_release

-- A GitHub with one full page of releases that are no records, and then the draft.
abbrev paged_port : GitHubPort (Unit {0})
paged_port = record port {
  get_page = λ page w. (ok (if page == 1 then hundred else (github_draft ∷ [])), w);
}

reads_two_pages :
    (list_from codec package_name paged_port 5 5 1 [] start).1.trace
    ≡ get_page 2 (ok (github_draft ∷ [])) ∷ get_page 1 (ok hundred) ∷ []
unfolding list_from
reads_two_pages = refl

saved_tag_example :
    (draft_record.id ≡ github_draft.id) × (release_tag canary_intent ≡ github_draft.tag_name)
saved_tag_example = saved_from_record-tag codec github_draft draft_record reads_back

upload_example :
    Repaired codec package_name port 1 draft_record (1 ∷ 2 ∷ 3 ∷ []) start uploaded_run full_record
upload_example =
    upload-Repaired codec package_name port 1 draft_record (1 ∷ 2 ∷ 3 ∷ []) start uploaded_run
      full_record uploads

create_example :
    (canary_intent ≡ canary_intent)
    × FoundOrCreated codec package_name port 1 canary_intent start created_run draft_record
create_example =
    create-FoundOrCreated codec package_name port 1 canary_intent start created_run draft_record
      creates

listing_example :
    (full : List (List GitHubRelease)) × AllFull full
    × Ends codec 5 1 [] full []
        (list_from codec package_name paged_port 5 5 1 [] start).0
        (list_from codec package_name paged_port 5 5 1 [] start).1.trace
listing_example = list_from-Ends codec package_name paged_port 5 5 1 [] start
