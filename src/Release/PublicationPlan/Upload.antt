-- ===== src/Release/PublicationPlan/Upload.antt =====
-- `planPublication`: a plan uploads exactly what npm does not have.
use internal.Prelude.{
  ◌≡◌, Bool, true, false, not, none, some, inl, inr, Result-cases, get, ok, arith,
}
use internal.Release.Version.{parse_canary_version}
use internal.Release.Intent.{Channel, stable, canary, VerifiedRelease}
use internal.Release.Npm.{Registry}
use internal.Release.Supersession.{CommitAncestry, CanarySupersession, owned, canary_supersession}
use internal.Release.PublicationPlan.{
  PublicationPlan, superseded, publish, absent, match, npm_identity, plan_owned, plan_channel,
  plan_publication,
}
use internal.Release.PublicationPlan.Identity.{IsPublished, npm_identity_iff}

-- The upload of a plan, and whether npm had the version.
abbrev Uploads : Bool → PublicationPlan → Type 0
Uploads published superseded = published ≡ false
Uploads published (publish upload promote) = upload ≡ not published

module _ (is_ancestor : CommitAncestry) (release : VerifiedRelease) (registry : Registry) where
  plan_owned-Uploads :
      (published : Bool) (status : CanarySupersession) (plan : PublicationPlan)
      → plan_owned release registry published status ≡ ok plan
      → Uploads published plan
  unfolding plan_owned
  plan_owned-Uploads published owned superseded h = absurd (ground arith)
  plan_owned-Uploads published owned (publish u p) h = ground arith
  plan_owned-Uploads published _ superseded h = ground arith
  plan_owned-Uploads published _ (publish u p) h = ground arith

  plan_channel-Uploads :
      (channel : Channel) (published : Bool) (plan : PublicationPlan)
      → plan_channel is_ancestor channel release registry published ≡ ok plan
      → Uploads published plan
  unfolding plan_channel
  plan_channel-Uploads stable published superseded h = absurd (ground arith)
  plan_channel-Uploads stable published (publish u p) h = ground arith
  plan_channel-Uploads canary published plan h =
      elim (Result-cases (parse_canary_version release.version)) [
        | inr (f, failed) ↦ absurd (cc (rw failed at h))
        | inl (v, parsed) ↦
            elim (Result-cases (
              canary_supersession is_ancestor release.commit v.base registry
                (some release.version))) [
                  | inr (f, failed) ↦ absurd (cc (rw (parsed, failed) at h))
                  | inl (status, e) ↦ plan_owned-Uploads published status plan (rw (parsed, e) at h)
                ]
      ]

  -- A plan uploads only what npm lacks, and leaves out the upload only if npm carries exactly the
  -- integrity and the commit of the release; a superseded release is one that npm lacks.
  abbrev pub UploadsMissing : PublicationPlan → Type 0
  UploadsMissing superseded = get release.version registry.versions ≡ none
  UploadsMissing (publish true promote) = get release.version registry.versions ≡ none
  UploadsMissing (publish false promote) = IsPublished release registry

-- A plan uploads only a version that npm does not carry, leaves the upload out only if npm carries
-- it with the integrity and the commit of the release, and gives a release up as superseded only if
-- npm does not carry its version.
pub plan_publication-UploadsMissing :
    (is_ancestor : CommitAncestry) (release : VerifiedRelease) (registry : Registry)
    (plan : PublicationPlan)
    → plan_publication is_ancestor release registry ≡ ok plan
    → UploadsMissing is_ancestor release registry plan
unfolding plan_publication
plan_publication-UploadsMissing is_ancestor release registry plan h =
    elim (Result-cases (npm_identity release registry)) [
      | inr (f, failed) ↦ absurd (cc (rw (failed, plan_publication) at h))
      | inl (absent, e) ↦ lacking plan ((npm_identity_iff release registry).1.0 e) (
          plan_channel-Uploads is_ancestor release registry release.channel false plan
            (rw (e, plan_publication) at h))
      | inl (match, e) ↦ carried plan ((npm_identity_iff release registry).0.0 e) (
          plan_channel-Uploads is_ancestor release registry release.channel true plan
            (rw (e, plan_publication) at h))
    ]
  where
    lacking :
        (plan : PublicationPlan)
        → get release.version registry.versions ≡ none
        → Uploads false plan
        → UploadsMissing is_ancestor release registry plan
    lacking superseded g u = g
    lacking (publish true p) g u = g
    lacking (publish false p) g u = absurd (cc)

    carried :
        (plan : PublicationPlan)
        → IsPublished release registry
        → Uploads true plan
        → UploadsMissing is_ancestor release registry plan
    carried superseded g u = absurd (cc)
    carried (publish true p) g u = absurd (cc)
    carried (publish false p) g u = g
