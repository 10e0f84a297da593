-- ===== src/Release/PublicationPlan/Promotion.antt =====
-- `planPublication`: promotion never moves a dist-tag backwards.
use internal.Prelude.{
  ◌≡◌, ◌≢◌, refl, sym, ap, ◌∙◌, subst, Ordering, Bool, true, false, Option, none, some, List, inl,
  inr, Result-cases, is_gt, Text, text, ===_iff, get, mem_of_get, Failure, ok, err, arith,
}
use internal.Release.Version.{
  is_stable_release_version, is_canary_release_version, compare_stable_versions,
  compare_canary_versions, parse_canary_version, assert_canary_release_version,
}
use internal.Release.Version.Canary.{assert_canary_of_is_canary}
use internal.Release.Intent.{Channel, stable, canary, VerifiedRelease}
use internal.Release.Npm.{PublishedVersion, Registry}
use internal.Release.Supersession.{
  CommitAncestry, CanarySupersession, owned, canary_superseded, stable_superseded,
  canary_supersession,
}
use internal.Release.Supersession.Ownership.{owned_canary_behind}
use internal.Release.PublicationPlan.{
  PublicationPlan, publish, dist_tag_for, is_match, npm_identity, stable_takes, stable_takes_latest,
  commit_of, canary_takes, canary_takes_tag, plan_owned, plan_channel, plan_publication,
}

-- What stands behind a version that takes the tag of another.
stable_takes_above :
    (version current : Text)
    → stable_takes version (some current) ≡ ok true
    → is_stable_release_version current ≡ true
    → compare_stable_versions version current ≡ ok Ordering.gt
unfolding stable_takes
stable_takes_above version current h k =
    elim (Result-cases (compare_stable_versions version current)) [
      | inl (o, e) ↦ e ∙ ap ok (gt_of o (ground arith))
      | inr (f, failed) ↦ ground arith
    ]
  where
    gt_of : (o : Ordering) → is_gt o ≡ true → o ≡ Ordering.gt
    gt_of o h = ground arith

plan_publication-channel :
    (is_ancestor : CommitAncestry) (release : VerifiedRelease) (registry : Registry)
    (plan : PublicationPlan)
    → plan_publication is_ancestor release registry ≡ ok plan
    → (published : Bool) × (plan_channel is_ancestor release.channel release registry published
        ≡ ok plan)
unfolding plan_publication
plan_publication-channel is_ancestor release registry plan h =
    elim (Result-cases (npm_identity release registry)) [
      | inr (f, failed) ↦ absurd (cc (rw (failed, plan_publication) at h))
      | inl (identity, e) ↦ (is_match identity, rw (e, plan_publication) at h)
    ]

module _ (is_ancestor : CommitAncestry) (release : VerifiedRelease) (registry : Registry) where
  takes_of_stable :
      (published upload : Bool)
      → plan_channel is_ancestor stable release registry published ≡ ok (publish upload true)
      → stable_takes_latest release registry ≡ ok true
  unfolding plan_channel
  takes_of_stable published upload h = ground arith

  -- What stands behind a promotion of a canary.
  record CanaryTakes : Type 0 where
    base : Text
    owns :
        canary_supersession is_ancestor release.commit base registry (some release.version)
        ≡ ok owned
    takes : canary_takes_tag release registry ≡ ok true

  takes_of_canary :
      (published upload : Bool)
      → plan_channel is_ancestor canary release registry published ≡ ok (publish upload true)
      → CanaryTakes
  unfolding plan_channel
  takes_of_canary published upload h = elim (Result-cases (parse_canary_version release.version)) [
    | inr (f, failed) ↦ absurd (cc (rw failed at h))
    | inl (v, parsed) ↦
        elim (Result-cases
          (canary_supersession is_ancestor release.commit v.base registry (some release.version))) [
            | inr (f, failed) ↦ absurd (cc (rw (parsed, failed) at h))
            | inl (status, e) ↦ of_status v.base status e (rw (parsed, e) at h)
          ]
  ]
    where
      of_status :
          (base : Text) (status : CanarySupersession)
          → canary_supersession is_ancestor release.commit base registry (some release.version)
            ≡ ok status
          → plan_owned release registry published status ≡ ok (publish upload true)
          → CanaryTakes
      of_status base owned e k = record {
        base = base;
        owns = e;
        takes = unfold plan_owned in ground arith;
      }
      of_status base canary_superseded e k = unfold plan_owned in absurd (ground arith)
      of_status base stable_superseded e k = unfold plan_owned in absurd (ground arith)

  tag_of :
      (c : Channel) (tag : Text) {o : Option Text}
      → release.channel ≡ c
      → dist_tag_for c ≡ tag
      → get tag registry.tags ≡ o
      → get (dist_tag_for release.channel) registry.tags ≡ o
  tag_of c tag e t g =
      ap (λ (x : Channel). get (dist_tag_for x) registry.tags) e
      ∙ ap (λ (x : Text). get x registry.tags) t
      ∙ g

  plan_at :
      (c : Channel) (plan : PublicationPlan)
      → release.channel ≡ c
      → plan_publication is_ancestor release registry ≡ ok plan
      → (published : Bool) × (plan_channel is_ancestor c release registry published ≡ ok plan)
  plan_at c plan e h =
      let (published, k) = plan_publication-channel is_ancestor release registry plan h in
      (published, subst (λ x. plan_channel is_ancestor x release registry published ≡ ok plan) e k)

-- A stable release takes `latest` from a stable version only if it is above that version.
pub promote_stable_above :
    (is_ancestor : CommitAncestry) (release : VerifiedRelease) (registry : Registry) (upload : Bool)
    (current : Text)
    → release.channel ≡ stable
    → get (text "latest") registry.tags ≡ some current
    → is_stable_release_version current ≡ true
    → plan_publication is_ancestor release registry ≡ ok (publish upload true)
    → compare_stable_versions release.version current ≡ ok Ordering.gt
unfolding stable_takes_latest
promote_stable_above is_ancestor release registry upload current channel tagged sc h =
    let (published, k) = plan_at is_ancestor release registry stable _ channel h in
    let taken = takes_of_stable is_ancestor release registry published upload k in
    let tag =
      tag_of is_ancestor release registry stable (text "latest") channel
        (unfold dist_tag_for in refl) tagged in
    stable_takes_above release.version current (rw tag at taken) sc

canary_takes_other :
    (version current : Text) (versions : List (Text × PublishedVersion))
    → canary_takes version versions (some current) ≡ ok true
    → current ≢ version
unfolding canary_takes
canary_takes_other version current versions h e = ground (arith, ===_iff current version)

canary_takes_above :
    (version current : Text) (versions : List (Text × PublishedVersion))
    → commit_of (get current versions) ≡ none
    → is_canary_release_version current ≡ true
    → canary_takes version versions (some current) ≡ ok true
    → compare_canary_versions version current ≡ ok Ordering.gt
unfolding canary_takes
canary_takes_above version current versions unknown is_canary h =
    elim (Result-cases (compare_canary_versions version current)) [
      | inl (o, e) ↦ e ∙ ap ok (gt_of o (is_gt_of o e))
      | inr (f, failed) ↦ absurd (fails f failed)
    ]
  where
    asserted : assert_canary_release_version current ≡ ok current
    asserted = assert_canary_of_is_canary current is_canary

    fails : (f : Failure) → compare_canary_versions version current ≢ err f
    fails f e = ground (arith, unknown, asserted, e)

    is_gt_of : (o : Ordering) → compare_canary_versions version current ≡ ok o → is_gt o ≡ true
    is_gt_of o e = ground (arith, unknown, asserted, e)

    gt_of : (o : Ordering) → is_gt o ≡ true → o ≡ Ordering.gt
    gt_of o h = ground arith

some_injective : (a b : Text) → ◌≡◌ {A = Option Text} (some a) (some b) → a ≡ b
some_injective a b e = cc

-- A canary takes the tag from a canary with a known commit only if that commit is a strict ancestor
-- of the release's commit.
pub promote_canary_forward :
    (is_ancestor : CommitAncestry) (release : VerifiedRelease) (registry : Registry) (upload : Bool)
    (current c : Text) (p : PublishedVersion)
    → release.channel ≡ canary
    → get (text "canary") registry.tags ≡ some current
    → get current registry.versions ≡ some p
    → p.commit ≡ some c
    → is_canary_release_version current ≡ true
    → plan_publication is_ancestor release registry ≡ ok (publish upload true)
    → (c ≢ release.commit)
      × (is_ancestor release.commit c ≡ ok false)
      × (is_ancestor c release.commit ≡ ok true)
unfolding canary_takes_tag
promote_canary_forward is_ancestor release registry upload current c p channel tagged listed known
      cc' h =
    let (published, k) = plan_at is_ancestor release registry canary _ channel h in
    let t = takes_of_canary is_ancestor release registry published upload k in
    let tag =
      tag_of is_ancestor release registry canary (text "canary") channel
        (unfold dist_tag_for in refl) tagged in
    let other = canary_takes_other release.version current registry.versions (rw tag at t.takes) in
    elim (owned_canary_behind is_ancestor release.commit t.base registry (some release.version)
      current c p t.owns (mem_of_get current p registry.versions listed) cc' known) [
        | inl (e, recorded) ↦ absurd (other (sym (some_injective release.version current recorded)))
        | inr behind ↦ behind
      ]

-- A canary whose commit npm does not know gives way only to a canary that is above it.
pub promote_canary_above :
    (is_ancestor : CommitAncestry) (release : VerifiedRelease) (registry : Registry) (upload : Bool)
    (current : Text)
    → release.channel ≡ canary
    → get (text "canary") registry.tags ≡ some current
    → commit_of (get current registry.versions) ≡ none
    → is_canary_release_version current ≡ true
    → plan_publication is_ancestor release registry ≡ ok (publish upload true)
    → compare_canary_versions release.version current ≡ ok Ordering.gt
unfolding canary_takes_tag
promote_canary_above is_ancestor release registry upload current channel tagged unknown cc' h =
    let (published, k) = plan_at is_ancestor release registry canary _ channel h in
    let t = takes_of_canary is_ancestor release registry published upload k in
    let tag =
      tag_of is_ancestor release registry canary (text "canary") channel
        (unfold dist_tag_for in refl) tagged in
    canary_takes_above release.version current registry.versions unknown cc' (rw tag at t.takes)
