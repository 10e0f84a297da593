-- ===== src/Release/CanaryDecision/Freshness.antt =====
-- `decideCanary`: the version that it cuts, and why it skips.
use internal.Prelude.{
  ℕ, ◌≡◌, ◌≢◌, refl, ap, ◌∙◌, Ordering, true, Option, none, some, List, ◌++◌, ◌⊎◌, inl, inr,
  Bool-cases, Result-cases, is_gt, Text, keys, All, All-at, Memᴰ, ok, ◌>>=◌, arith,
}
use internal.Release.Version.{
  is_stable_release_version, is_canary_release_version, parse_canary_version,
  compare_stable_versions, compare_canary_versions,
}
use internal.Release.Version.Order.{is_stable_of_compare}
use internal.Release.Version.Canary.{parse_canary_version-format_canary_version}
use internal.Release.Version.CanaryOrder.{parts_order_above, compare_canary_versions-eq}
use internal.Release.Npm.{Registry}
use internal.Release.Supersession.{
  CommitAncestry, CanarySupersession, owned, canary_superseded, stable_superseded,
  canary_supersession,
}
use internal.Release.CanaryDecision.{
  CanaryTarget, CanaryDecision, cut, skip, skip_regressed_base, cut_or_skip, numbered, next_from,
  next_canary_version, decide_owned, decide_canary,
}
use internal.Release.CanaryDecision.Numbering.{
  IsPassed, IsSuccessor, HasNewerBase, Numbered, Reached, next_from-Reached,
}

-- The facts behind a returned decision.
record Decided (is_ancestor : CommitAncestry) (target : CanaryTarget) (registry : Registry)
    (reserved : List Text) (decision : CanaryDecision) : Type 0 where
  stable : is_stable_release_version target.base ≡ true
  advances : compare_stable_versions target.base target.current ≡ ok Ordering.gt
  status : CanarySupersession
  reported : canary_supersession is_ancestor target.commit target.base registry none ≡ ok status
  decided : decide_owned target.base (keys registry.versions ++ reserved) status ≡ ok decision

module _ (is_ancestor : CommitAncestry) (target : CanaryTarget) (registry : Registry)
    (reserved : List Text) where
  decide_canary-Decided :
      (decision : CanaryDecision)
      → decide_canary is_ancestor target registry reserved ≡ ok decision
      → Decided is_ancestor target registry reserved decision
  unfolding decide_canary
  decide_canary-Decided decision h =
      elim (Result-cases (compare_stable_versions target.base target.current)) [
        | inr (e, failed) ↦ absurd (cc (rw (failed, decide_canary) at h))
        | inl (o, compared) ↦ elim (Bool-cases (is_gt o)) [
          | inr low ↦ absurd (cc (rw (compared, low, decide_canary) at h))
          | inl high ↦
              elim (Result-cases
                (canary_supersession is_ancestor target.commit target.base registry none)) [
                  | inr (e, failed) ↦ absurd (cc (rw (compared, high, failed, decide_canary) at h))
                  | inl (s, e) ↦ record {
                    stable = (is_stable_of_compare target.base target.current o compared).0;
                    advances = compared ∙ ap ok (gt_of_is_gt o high);
                    status = s;
                    reported = e;
                    decided = rw (compared, high, e, decide_canary) at h;
                  }
                ]
        ]
      ]
    where
      gt_of_is_gt : (o : Ordering) → is_gt o ≡ true → o ≡ Ordering.gt
      gt_of_is_gt o h = ground arith

-- The number that is cut: the loop reached it, and the version prints it.
record Cut (base : Text) (taken : List Text) (version : Text) : Type 0 where
  n : ℕ
  reached : Numbered base 0 taken n
  parsed : parse_canary_version version ≡ ok (record { base = base; n = n })

module _ (base : Text) (stable : is_stable_release_version base ≡ true) (taken : List Text) where
  numbered-eq :
      (r : Option ℕ) (decision : CanaryDecision)
      → (next_from base 0 taken ≡ ok r)
      → decide_owned base taken owned ≡ ok decision
      → (numbered base r >>= λ version. ok (cut_or_skip version)) ≡ ok decision
  unfolding decide_owned next_canary_version
  numbered-eq r decision e h = rw e at h

  numbered-Cut :
      (n : ℕ) (version : Text)
      → Numbered base 0 taken n
      → (numbered base (some n) >>= λ v. ok (cut_or_skip v)) ≡ ok (cut version)
      → Cut base taken version
  unfolding numbered cut_or_skip
  numbered-Cut n version reached h =
      let (s, printed, parsed) =
        parse_canary_version-format_canary_version (record { base = base; n = n }) stable in
      let same : s ≡ version = cc (rw printed at h) in
      record { n = n; reached = reached; parsed = rw (← same) parsed }

  numbered-none :
      (version : Text) → (numbered base none >>= λ v. ok (cut_or_skip v)) ≢ ok (cut version)
  unfolding numbered cut_or_skip
  numbered-none version h = cc

  decide_owned-Cut :
      (status : CanarySupersession) (version : Text)
      → decide_owned base taken status ≡ ok (cut version)
      → (status ≡ owned) × Cut base taken version
  decide_owned-Cut canary_superseded version h = unfold decide_owned in absurd (cc)
  decide_owned-Cut stable_superseded version h = unfold decide_owned in absurd (cc)
  decide_owned-Cut owned version h = (refl, from (next_from-Reached base stable 0 taken))
    where
      from :
          (r : Option ℕ) × (next_from base 0 taken ≡ ok r) × Reached base 0 taken r
          → Cut base taken version
      from (none, e, newer) = absurd (numbered-none version (numbered-eq none (cut version) e h))
      from (some n, e, reached) =
          numbered-Cut n version reached (numbered-eq (some n) (cut version) e h)

  decide_owned-regressed :
      (status : CanarySupersession)
      → decide_owned base taken status ≡ ok (skip skip_regressed_base)
      → HasNewerBase base taken
  decide_owned-regressed canary_superseded h = unfold decide_owned in absurd (cc)
  decide_owned-regressed stable_superseded h = unfold decide_owned in absurd (cc)
  decide_owned-regressed owned h = from (next_from-Reached base stable 0 taken)
    where
      no_skip :
          (n : ℕ)
          → (numbered base (some n) >>= λ v. ok (cut_or_skip v)) ≢ ok (skip skip_regressed_base)
      no_skip n e =
          let (s, printed, parsed) =
            parse_canary_version-format_canary_version (record { base = base; n = n }) stable in
          unfold numbered cut_or_skip in cc (rw (numbered, printed) at e)

      from :
          (r : Option ℕ) × (next_from base 0 taken ≡ ok r) × Reached base 0 taken r
          → HasNewerBase base taken
      from (none, e, newer) = newer
      from (some n, e, reached) =
          absurd (no_skip n (numbered-eq (some n) (skip skip_regressed_base) e h))

passed_below :
    (base v t : Text) (n : ℕ)
    → is_stable_release_version base ≡ true
    → parse_canary_version v ≡ ok (record { base = base; n = n })
    → is_canary_release_version t ≡ true
    → IsPassed base n t
    → compare_canary_versions v t ≡ ok Ordering.gt
passed_below base v t n stable parsed canary (inl other) = absurd (cc)
passed_below base v t n stable parsed canary (inr (w, parsed', stable', below, behind)) =
    compare_canary_versions-eq v t (record { base = base; n = n }) w parsed parsed' stable stable'
    ∙ ap ok (parts_order_above (record { base = base; n = n }) w stable stable' below behind)

-- A canary that is cut is above every canary that npm lists and every canary that is reserved, so
-- that no number is used twice.
pub decide_canary-newest :
    (is_ancestor : CommitAncestry) (target : CanaryTarget) (registry : Registry)
    (reserved : List Text) (version t : Text)
    → decide_canary is_ancestor target registry reserved ≡ ok (cut version)
    → Memᴰ t (keys registry.versions ++ reserved)
    → is_canary_release_version t ≡ true
    → compare_canary_versions version t ≡ ok Ordering.gt
decide_canary-newest is_ancestor target registry reserved version t h m canary =
    let d = decide_canary-Decided is_ancestor target registry reserved (cut version) h in
    let (_, c) = decide_owned-Cut target.base d.stable _ d.status version d.decided in
    passed_below target.base version t c.n d.stable c.parsed canary
      (All-at (IsPassed target.base c.n) m c.reached.passed)

-- A canary is cut only on the planned base, which is above the current stable version, only for a
-- commit that owns the channel, and with the least number that is above the counter of every canary
-- on that base: each version that npm lists or that is reserved is no canary, or one whose base is
-- not above the planned one, and whose counter is below the number if the bases agree; and the
-- number is 0, or one more than the counter of a canary on that base among those versions.
pub decide_canary-first_free :
    (is_ancestor : CommitAncestry) (target : CanaryTarget) (registry : Registry)
    (reserved : List Text) (version : Text)
    → decide_canary is_ancestor target registry reserved ≡ ok (cut version)
    → (n : ℕ) × (parse_canary_version version ≡ ok (record { base = target.base; n = n }))
      × (compare_stable_versions target.base target.current ≡ ok Ordering.gt)
      × (canary_supersession is_ancestor target.commit target.base registry none ≡ ok owned)
      × All (IsPassed target.base n) (keys registry.versions ++ reserved)
      × ((n ≡ 0) ⊎ IsSuccessor target.base n (keys registry.versions ++ reserved))
decide_canary-first_free is_ancestor target registry reserved version h =
    let d = decide_canary-Decided is_ancestor target registry reserved (cut version) h in
    let (own_channel, c) = decide_owned-Cut target.base d.stable _ d.status version d.decided in
    (c.n, c.parsed, d.advances, d.reported ∙ ap ok own_channel, c.reached.passed, c.reached.source)

-- A commit is skipped for a regressed base only if npm lists, or a record reserves, a canary on a
-- base above the planned one.
pub decide_canary-regressed :
    (is_ancestor : CommitAncestry) (target : CanaryTarget) (registry : Registry)
    (reserved : List Text)
    → decide_canary is_ancestor target registry reserved ≡ ok (skip skip_regressed_base)
    → HasNewerBase target.base (keys registry.versions ++ reserved)
decide_canary-regressed is_ancestor target registry reserved h =
    let d =
      decide_canary-Decided is_ancestor target registry reserved (skip skip_regressed_base) h in
    decide_owned-regressed target.base d.stable _ d.status d.decided
