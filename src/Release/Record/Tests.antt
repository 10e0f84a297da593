-- ===== src/Release/Record/Tests.antt =====
-- Instances of the theorems on record tags and bodies.
use internal.Prelude.{◌≡◌, refl, [], ◌∷◌, ◌===◌, ok, split, index_of}
use internal.Release.Version.{
  is_canary_release_version, stable_components, canary_components, is_numeric_identifier,
}
use internal.Release.Intent.{is_commit}
use internal.Release.Samples.{canary_intent}
use internal.Release.Record.{
  this_owner, one, release_tag, parse_intent, serialize_intent, owned, classify_release_record,
}
use internal.Release.Record.Samples.{codec, codec-ReadsBack, codec-ProbesOwner}
use internal.Release.Record.Tags.{
  IsIntent, SameRelease, is_release_tag-release_tag, release_tag-SameRelease,
  parse_intent-serialize_intent,
}
use internal.Release.Record.Ownership.{OwnedOrError, classify_marked, classify_serialized}

canary_intent-IsIntent : IsIntent canary_intent
unfolding is_canary_release_version canary_components stable_components is_numeric_identifier split
    index_of is_commit ◌===◌
canary_intent-IsIntent = record { version_fits = refl; full_commit = refl }

same_release_example : SameRelease canary_intent canary_intent
same_release_example = release_tag-SameRelease canary_intent canary_intent refl

intent_round_trip_example :
    parse_intent codec (serialize_intent codec canary_intent) ≡ ok canary_intent
intent_round_trip_example =
    parse_intent-serialize_intent codec canary_intent codec-ReadsBack canary_intent-IsIntent

serialized_example :
    classify_release_record codec
      (release_tag canary_intent)
      (serialize_intent codec canary_intent)
      []
    ≡ ok (owned canary_intent)
serialized_example =
    classify_serialized codec canary_intent [] codec-ReadsBack codec-ProbesOwner
      canary_intent-IsIntent

marked_example :
    OwnedOrError codec
      (release_tag canary_intent)
      (1 ∷ [])
      []
      (classify_release_record codec (release_tag canary_intent) (1 ∷ []) [])
marked_example =
    classify_marked codec (release_tag canary_intent) (1 ∷ []) []
      (record { schema = one; owner = this_owner })
      (is_release_tag-release_tag canary_intent canary_intent-IsIntent) refl refl
