-- ===== src/Release/Record.antt =====
-- packages/release/src/record.ts: the format of a release record.
pub mod Tags
pub mod Ownership
pub mod Assets
pub mod Samples
mod Tests
use internal.Prelude.{
  ℕ, Bool, true, false, ◌&&◌, ◌||◌, not, Option, none, some, List, [], ◌∷◌, ◌++◌, leb, ◌==◌,
  if◌then◌else◌, is_some, Text, text, ◌===◌, starts_with, length, drop, any, Failure, Result, ok,
  err, ◌>>=◌, ◌>>◌, not_record_tag, tag_not_of_intent, unsupported_starter_asset,
  unsupported_asset_state, empty_uploaded_asset,
}
use internal.Release.Version.{
  is_stable_release_version, assert_stable_release_version, assert_canary_release_version,
}
use internal.Release.Intent.{Channel, stable, canary, ReleaseIntent, is_commit, assert_commit}

abbrev pub release_record_owner : Text
release_record_owner = text "elmera-release"

abbrev pub release_archive_name : Text
release_archive_name = text "release.tgz"

abbrev pub canary_record_prefix : Text
canary_record_prefix = text "canary-"

-- The schema `IntentDocument`: `schema` and `owner` are fixed by it.
pub record IntentDocument : Type 0 where
  pub owned : Bool
  pub channel : Channel
  pub version : Text
  pub commit : Text

-- The schema `IntentProbe`, with what the code asks of each JSON value: of `schema` whether it is
-- 1, of `owner` whether it is there and whether it is the owner's name.
pub data ProbedSchema : Type 0 where
  one other_schema no_schema : ProbedSchema

pub data ProbedOwner : Type 0 where
  this_owner other_owner no_owner : ProbedOwner

pub record IntentProbe : Type 0 where
  pub schema : ProbedSchema
  pub owner : ProbedOwner

-- `JSON.parse` and `JSON.stringify` with the schemas' decoders, which are not part of the program.
pub record IntentCodec : Type 0 where
  pub decode_intent : Text → Result IntentDocument
  pub decode_probe : Text → Result IntentProbe
  pub stringify : IntentDocument → Text

unfoldable pub canary_record_tag : Text → Text
canary_record_tag commit = canary_record_prefix ++ commit

tag_of : Channel → Text → Text → Text
unfolding canary_record_tag
tag_of stable version commit = text "v" ++ version
tag_of canary version commit = canary_record_tag commit

unfoldable pub release_tag : ReleaseIntent → Text
unfolding tag_of
release_tag intent = tag_of intent.channel intent.version intent.commit

unfoldable pub is_release_tag : Text → Bool
is_release_tag tag =
    if starts_with tag (text "v")
    then is_stable_release_version (drop 1 tag)
    else starts_with tag canary_record_prefix && is_commit (drop (length canary_record_prefix) tag)

unfoldable pub assert_release_tag : Text → Result Text
assert_release_tag tag = if not (is_release_tag tag) then err (not_record_tag tag) else ok tag

version_for : Channel → Text → Result Text
version_for stable version = assert_stable_release_version version
version_for canary version = assert_canary_release_version version

pub data ReleaseRecordClassification : Type 0 where
  ignored foreign : ReleaseRecordClassification
  owned legacy : ReleaseIntent → ReleaseRecordClassification

probe_of : Result IntentProbe → Option IntentProbe
probe_of (ok probe) = some probe
probe_of (err e) = none

is_this_owner : ProbedOwner → Bool
is_this_owner this_owner = true
is_this_owner _ = false

is_no_owner : ProbedOwner → Bool
is_no_owner no_owner = true
is_no_owner _ = false

is_one : ProbedSchema → Bool
is_one one = true
is_one _ = false

clearly_foreign_identity : Option IntentProbe → Bool
unfolding is_no_owner is_this_owner
clearly_foreign_identity none = false
clearly_foreign_identity (some parsed) =
    not (is_no_owner parsed.owner) && not (is_this_owner parsed.owner)

-- `parsed?.owner === releaseRecordOwner`
marked : Option IntentProbe → Bool
unfolding is_this_owner
marked none = false
marked (some parsed) = is_this_owner parsed.owner

-- `parsed?.schema === 1 && parsed.owner === undefined`
unmarked_schema_1 : Option IntentProbe → Bool
unfolding is_one is_no_owner
unmarked_schema_1 none = false
unmarked_schema_1 (some parsed) = is_one parsed.schema && is_no_owner parsed.owner

module _ (codec : IntentCodec) where
  unfoldable pub parse_intent : Text → Result ReleaseIntent
  unfolding version_for
  parse_intent body = do
    value ← codec.decode_intent body
    commit ← assert_commit value.commit
    version ← version_for value.channel value.version
    ok (record { channel = value.channel; version = version; commit = commit })

  unfoldable pub serialize_intent : ReleaseIntent → Text
  serialize_intent intent = codec.stringify (record {
    owned = true;
    channel = intent.channel;
    version = intent.version;
    commit = intent.commit;
  })

  unfoldable pub try_parse_body : Text → Option IntentProbe
  unfolding probe_of
  try_parse_body body = probe_of (codec.decode_probe body)

  unfoldable pub intent_matching_tag : Text → Text → Result ReleaseIntent
  intent_matching_tag body tag = do
    intent ← parse_intent body
    if not (release_tag intent === tag) then err tag_not_of_intent else ok intent

  unfoldable pub classify_release_record :
      Text → Text → List Text → Result ReleaseRecordClassification
  unfolding marked unmarked_schema_1 clearly_foreign_identity
  classify_release_record tag body asset_names =
      if not (is_release_tag tag)
      then ok ignored
      else if marked (try_parse_body body)
      then (do intent ← intent_matching_tag body tag; ok (owned intent))
      else if unmarked_schema_1 (try_parse_body body)
      then (do intent ← intent_matching_tag body tag; ok (legacy intent))
      else if any (λ name. name === release_archive_name) asset_names
          && not (clearly_foreign_identity (try_parse_body body))
      then (do intent ← intent_matching_tag body tag; ok (legacy intent))
      else ok foreign

-- github.ts: an asset as the API returns it. Its size is a count of bytes.
pub record GitHubReleaseAsset : Type 0 where
  pub name : Text
  pub id : ℕ
  pub state : Text
  pub size : ℕ

pub data ReleaseAsset : Type 0 where
  missing : ReleaseAsset
  starter uploaded : ℕ → ReleaseAsset

unfoldable pub classify_release_asset : Bool → Option GitHubReleaseAsset → Result ReleaseAsset
classify_release_asset starter_allowed none = ok missing
classify_release_asset starter_allowed (some asset) =
    if asset.state === text "starter"
    then (if not starter_allowed || not (asset.size == 0)
        then err unsupported_starter_asset
        else ok (starter asset.id))
    else if not (asset.state === text "uploaded")
    then err (unsupported_asset_state asset.state)
    else if leb asset.size 0
    then err empty_uploaded_asset
    else ok (uploaded asset.id)
