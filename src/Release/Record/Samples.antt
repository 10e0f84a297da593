-- ===== src/Release/Record/Samples.antt =====
-- A codec that writes the fields of a document one after the other, the version behind its length.
use internal.Prelude.{
  ℕ, ◌≡◌, refl, Bool, true, false, [], ◌∷◌, ◌++◌, length, take, drop, take-length-append,
  drop-length-append, ◌==◌, if◌then◌else◌, Text, text, Result, ok, err, invalid_document,
}
use internal.Release.Intent.{Channel, stable, canary}
use internal.Release.Record.{IntentDocument, IntentProbe, this_owner, no_owner, one, IntentCodec}
use internal.Release.Record.Tags.{ReadsBack}
use internal.Release.Record.Ownership.{ProbesOwner}

abbrev pub owned_unit : Bool → ℕ
owned_unit true = 1
owned_unit false = 0

abbrev pub channel_unit : Channel → ℕ
channel_unit stable = 0
channel_unit canary = 1

abbrev pub channel_of : ℕ → Channel
channel_of n = if n == 0 then stable else canary

abbrev pub decode_fields : Text → Result IntentDocument
decode_fields (o ∷ c ∷ n ∷ rest) =
    ok (record {
      owned = o == 1;
      channel = channel_of c;
      version = take n rest;
      commit = drop n rest;
    })
decode_fields _ = err (invalid_document (text "release record"))

abbrev pub decode_owner : Text → Result IntentProbe
decode_owner (o ∷ rest) =
    ok (record { schema = one; owner = if o == 1 then this_owner else no_owner })
decode_owner [] = err (invalid_document (text "release record"))

abbrev pub fields_of : IntentDocument → Text
fields_of d =
    owned_unit d.owned ∷ channel_unit d.channel ∷ length d.version ∷ (d.version ++ d.commit)

abbrev pub codec : IntentCodec
codec = record { decode_intent = decode_fields; decode_probe = decode_owner; stringify = fields_of }

fields_read_back :
    (o : Bool) (c : Channel) (version commit : Text)
    → decode_fields (owned_unit o ∷ channel_unit c ∷ length version ∷ (version ++ commit))
      ≡ ok (record { owned = o; channel = c; version = version; commit = commit })
fields_read_back true stable version commit = simp (take-length-append, drop-length-append)
fields_read_back true canary version commit = simp (take-length-append, drop-length-append)
fields_read_back false stable version commit = simp (take-length-append, drop-length-append)
fields_read_back false canary version commit = simp (take-length-append, drop-length-append)

pub codec-ReadsBack : ReadsBack codec
codec-ReadsBack = record { intent_law = λ d. fields_read_back d.owned d.channel d.version d.commit }

pub codec-ProbesOwner : ProbesOwner codec
codec-ProbesOwner = record {
  probe_law = λ d o. (record { schema = one; owner = this_owner }, rw o refl, refl);
}
