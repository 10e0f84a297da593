-- ===== src/Release/Record/Ownership.antt =====
-- `classifyReleaseRecord`: ownership is recognised before the intent is validated (ADR 0002).
use internal.Prelude.{
  ◌≡◌, refl, true, not, List, ◌⊎◌, inl, inr, if◌then◌else◌, Result-cases, Text, ◌===◌, ===_iff,
  ===_refl, Failure, Result, ok, err, arith,
}
use internal.Release.Intent.{ReleaseIntent}
use internal.Release.Record.{
  IntentDocument, IntentProbe, this_owner, IntentCodec, release_tag, is_release_tag, parse_intent,
  serialize_intent, try_parse_body, probe_of, is_this_owner, marked, intent_matching_tag,
  ReleaseRecordClassification, ignored, foreign, owned, legacy, classify_release_record,
}
use internal.Release.Record.Tags.{
  IsIntent, ReadsBack, is_release_tag-release_tag, parse_intent-serialize_intent,
}

module _ (codec : IntentCodec) (tag body : Text) (names : List Text) where
  -- A record tag with this owner's marker in the body is either owned, with an intent whose tag it
  -- is, or an error: never passed over as ignored, foreign or legacy.
  abbrev pub OwnedOrError : Result ReleaseRecordClassification → Type 0
  OwnedOrError (ok (owned intent)) = release_tag intent ≡ tag
  OwnedOrError (ok ignored) = ⊥
  OwnedOrError (ok foreign) = ⊥
  OwnedOrError (ok (legacy intent)) = ⊥
  OwnedOrError (err e) = Unit {0}

  intent_matching_tag-tag :
      (intent : ReleaseIntent)
      → intent_matching_tag codec body tag ≡ ok intent
      → release_tag intent ≡ tag
  unfolding intent_matching_tag
  intent_matching_tag-tag intent h = elim (Result-cases (parse_intent codec body)) [
    | inr (f, failed) ↦ absurd (cc (rw (failed, intent_matching_tag) at h))
    | inl (i, e) ↦ matches i (rw (e, intent_matching_tag) at h)
  ]
    where
      matches :
          (i : ReleaseIntent)
          → (if not (release_tag i === tag) then err Failure.tag_not_of_intent else ok i)
            ≡ ok intent
          → release_tag intent ≡ tag
      matches i k = ground (arith, ===_iff (release_tag i) tag)

  -- A release under a record tag whose body names this owner is classified as owned, with an intent
  -- whose tag it stands under, or the classification fails: it is never ignored, foreign or legacy.
  pub classify_marked :
      (probe : IntentProbe)
      → is_release_tag tag ≡ true
      → codec.decode_probe body ≡ ok probe
      → probe.owner ≡ this_owner
      → OwnedOrError (classify_release_record codec tag body names)
  unfolding classify_release_record try_parse_body marked is_this_owner probe_of
  classify_marked probe is_tag decoded owner =
      elim (Result-cases (intent_matching_tag codec body tag)) [
        | inr (f, failed) ↦
            rw
              (
                classify_release_record, try_parse_body, marked, is_tag, decoded, probe_of, owner,
                is_this_owner, failed,
              )
              tt
        | inl (i, e) ↦
            rw
              (
                classify_release_record, try_parse_body, marked, is_tag, decoded, probe_of, owner,
                is_this_owner, e,
              )
              (intent_matching_tag-tag i e)
      ]

  -- The intent of a record that is owned or legacy is one whose tag the record stands under.
  pub classified_tag :
      (intent : ReleaseIntent)
      → (classify_release_record codec tag body names ≡ ok (owned intent))
        ⊎ (classify_release_record codec tag body names ≡ ok (legacy intent))
      → release_tag intent ≡ tag
  unfolding classify_release_record
  classified_tag intent h = elim (Result-cases (intent_matching_tag codec body tag)) [
    | inr (f, failed) ↦ ground (arith, failed)
    | inl (i, e) ↦ let same = intent_matching_tag-tag i e in ground (arith, same, e)
  ]

-- The probe of what this program writes names the owner.
pub record ProbesOwner (codec : IntentCodec) : Type 0 where
  pub probe_law :
      (d : IntentDocument)
      → d.owned ≡ true
      → (p : IntentProbe) × (codec.decode_probe (codec.stringify d) ≡ ok p) × (p.owner ≡ this_owner)

-- The record that is created for a well-formed intent is recognised as owned, with that intent.
pub classify_serialized :
    (codec : IntentCodec) (intent : ReleaseIntent) (names : List Text)
    → ReadsBack codec
    → ProbesOwner codec
    → IsIntent intent
    → classify_release_record codec (release_tag intent) (serialize_intent codec intent) names
      ≡ ok (owned intent)
unfolding classify_release_record try_parse_body marked intent_matching_tag serialize_intent
    is_this_owner probe_of
classify_serialized codec intent names laws probes h =
    let (p, decoded, owner) =
      probes.probe_law
        (record {
          owned = true;
          channel = intent.channel;
          version = intent.version;
          commit = intent.commit;
        })
        refl in
    rw
      (
        classify_release_record,
        is_release_tag-release_tag intent h,
        try_parse_body,
        serialize_intent,
        decoded,
        probe_of,
        marked,
        owner,
        is_this_owner,
        intent_matching_tag,
        parse_intent-serialize_intent codec intent laws h,
        ===_refl (release_tag intent),
      )
      refl
