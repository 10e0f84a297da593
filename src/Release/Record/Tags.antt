-- ===== src/Release/Record/Tags.antt =====
-- Record tags are lookup keys: each well-formed intent has one, and which release it names is read
-- off the tag.
use internal.Prelude.{
  ℕ, ◌≡◌, ◌≢◌, refl, sym, ap, true, [], ◌∷◌, ◌++◌, ◌⊎◌, inl, inr, Text, starts_with, drop, ok,
  arith,
}
use internal.Release.Version.{is_stable_release_version, is_canary_release_version}
use internal.Release.Version.Stable.{assert_stable_of_is_stable}
use internal.Release.Version.Canary.{assert_canary_of_is_canary}
use internal.Release.Intent.{Channel, stable, canary, ReleaseIntent, is_commit, assert_commit}
use internal.Release.Record.{
  IntentDocument, IntentCodec, canary_record_prefix, tag_of, release_tag, is_release_tag,
  version_for, parse_intent, serialize_intent,
}

-- The version's grammar is that of the channel.
abbrev pub HasVersionFor : Channel → Text → Type 0
HasVersionFor stable version = is_stable_release_version version ≡ true
HasVersionFor canary version = is_canary_release_version version ≡ true

-- The brands of an intent's fields.
pub record IsIntent (intent : ReleaseIntent) : Type 0 where
  pub version_fits : HasVersionFor intent.channel intent.version
  pub full_commit : is_commit intent.commit ≡ true

tag_is_release :
    (channel : Channel) (version commit : Text)
    → HasVersionFor channel version
    → is_commit commit ≡ true
    → is_release_tag (tag_of channel version commit) ≡ true
unfolding is_release_tag tag_of starts_with
tag_is_release stable version commit h k = h
tag_is_release canary version commit h k = k

-- The tag of a well-formed intent is a record tag.
pub is_release_tag-release_tag :
    (intent : ReleaseIntent) → IsIntent intent → is_release_tag (release_tag intent) ≡ true
unfolding release_tag
is_release_tag-release_tag intent h =
    tag_is_release intent.channel intent.version intent.commit h.version_fits h.full_commit

drop_prefix : (s t : Text) → canary_record_prefix ++ s ≡ canary_record_prefix ++ t → s ≡ t
drop_prefix s t e = ap (drop 7) e

-- What one tag says of the intent that it is the tag of.
abbrev pub SameRelease : ReleaseIntent → ReleaseIntent → Type 0
SameRelease a b =
    (((a.channel ≡ stable) × (b.channel ≡ stable)) × (a.version ≡ b.version))
    ⊎ (((a.channel ≡ canary) × (b.channel ≡ canary)) × (a.commit ≡ b.commit))

first_unit : Text → ℕ
first_unit [] = 0
first_unit (c ∷ s) = c

distinct_prefix : (s t : Text) → b'v' ∷ s ≢ b'c' ∷ t
unfolding first_unit
distinct_prefix s t e = let first : 118 ≡ 99 = ap first_unit e in omega (arith, first)

same_release :
    (c d : Channel) (v w x y : Text)
    → tag_of c v x ≡ tag_of d w y
    → (((c ≡ stable) × (d ≡ stable)) × (v ≡ w)) ⊎ (((c ≡ canary) × (d ≡ canary)) × (x ≡ y))
unfolding tag_of
same_release stable stable v w x y e = inl ((refl, refl), ap (drop 1) e)
same_release stable canary v w x y e = absurd (distinct_prefix _ _ e)
same_release canary stable v w x y e = absurd (distinct_prefix _ _ (sym e))
same_release canary canary v w x y e = inr ((refl, refl), drop_prefix x y e)

-- Two intents share a tag only if they are of one channel, with one version if it is stable and
-- one commit if it is canary.
pub release_tag-SameRelease :
    (a b : ReleaseIntent) → release_tag a ≡ release_tag b → SameRelease a b
unfolding release_tag
release_tag-SameRelease a b e =
    same_release a.channel b.channel a.version b.version a.commit b.commit e

-- The documented law of JSON and of the schema: what is written is read back.
pub record ReadsBack (codec : IntentCodec) : Type 0 where
  pub intent_law : (d : IntentDocument) → codec.decode_intent (codec.stringify d) ≡ ok d

version_for_fits :
    (channel : Channel) (version : Text)
    → HasVersionFor channel version
    → version_for channel version ≡ ok version
unfolding version_for
version_for_fits stable version h = assert_stable_of_is_stable version h
version_for_fits canary version h = assert_canary_of_is_canary version h

assert_commit_full : (c : Text) → is_commit c ≡ true → assert_commit c ≡ ok c
unfolding assert_commit
assert_commit_full c h = ground arith

-- A well-formed intent that is written to a record body is read back from it unchanged.
pub parse_intent-serialize_intent :
    (codec : IntentCodec) (intent : ReleaseIntent)
    → ReadsBack codec
    → IsIntent intent
    → parse_intent codec (serialize_intent codec intent) ≡ ok intent
unfolding parse_intent serialize_intent
parse_intent-serialize_intent codec intent laws h = rw (
  parse_intent,
  laws.intent_law _,
  assert_commit_full intent.commit h.full_commit,
  version_for_fits intent.channel intent.version h.version_fits,
)
