-- ===== src/Release/Supersession/Reasons.antt =====
-- `canarySupersession`: the facts behind a status that is returned.
use internal.Prelude.{
  ◌≡◌, ◌≢◌, sym, Ordering, true, false, Option, none, some, ◌⊎◌, inl, inr, Result-cases,
  if◌then◌else◌, is_ge, Text, ===_iff, All, ok, err, conflicting_canary_version, arith,
}
use internal.Release.Version.{compare_stable_versions}
use internal.Release.Npm.{Registry}
use internal.Release.Supersession.{
  CommitAncestry, CanarySupersession, owned, canary_superseded, stable_superseded, CanaryHistory,
  canary_history, conflicts, covered_by, descendant_stable_supersedes, stable_status,
  highest_stable_version, canary_supersession,
}
use internal.Release.Supersession.Stables.{highest_total}
use internal.Release.Supersession.Descendants.{
  NotNewer, HasNewerStable, NotNewer-stables, newer_stable,
}

module _ (is_ancestor : CommitAncestry) (commit base : Text) (registry : Registry)
    (recorded : Option Text) where
  -- The facts behind a returned status.
  pub record Found (status : CanarySupersession) : Type 0 where
    pub history : CanaryHistory
    pub accepted : canary_history is_ancestor commit registry ≡ ok history
    pub agrees : conflicts history.published_version recorded ≡ false
    pub reason :
        ((history.superseded ≡ true) × (status ≡ canary_superseded))
        ⊎ ((history.superseded ≡ false)
            × (stable_status is_ancestor commit base registry ≡ ok status))

  pub canary_supersession-Found :
      (status : CanarySupersession)
      → canary_supersession is_ancestor commit base registry recorded ≡ ok status
      → Found status
  unfolding canary_supersession
  canary_supersession-Found status h =
      elim (Result-cases (canary_history is_ancestor commit registry)) [
        | inr (f, failed) ↦ absurd (cc (rw (failed, canary_supersession) at h))
        | inl (history, e) ↦ walked history e (rw (e, canary_supersession) at h)
      ]
    where
      walked :
          (history : CanaryHistory)
          → canary_history is_ancestor commit registry ≡ ok history
          → (if conflicts history.published_version recorded
              then err conflicting_canary_version
              else if history.superseded
              then ok canary_superseded
              else stable_status is_ancestor commit base registry)
            ≡ ok status
          → Found status
      walked history e h = record {
        history = history;
        accepted = e;
        agrees = ground arith;
        reason = ground arith;
      }

  pub data StableReason (status : CanarySupersession) : Type 0 where
    by_commit :
        status ≡ stable_superseded
        → HasNewerStable is_ancestor commit registry.versions
        → StableReason status
    by_version :
        All (NotNewer is_ancestor commit) registry.versions
        → (r : Option Text) → highest_stable_version registry ≡ ok r
        → covered_by base r ≡ ok status
        → StableReason status

  pub stable_status-Reason :
      (status : CanarySupersession)
      → stable_status is_ancestor commit base registry ≡ ok status
      → StableReason status
  unfolding stable_status
  stable_status-Reason status h =
      elim (Result-cases (descendant_stable_supersedes is_ancestor commit registry)) [
        | inr (f, failed) ↦ absurd (cc (rw (failed, stable_status) at h))
        | inl (true, e) ↦
            let same : stable_superseded ≡ status = cc (rw (e, stable_status) at h) in
            by_commit (sym same) (newer_stable is_ancestor commit registry e)
        | inl (false, e) ↦
            let (r, highest, stable, covered, _) = highest_total registry in
            by_version (NotNewer-stables is_ancestor commit registry e) r highest
              (rw (e, highest) at h)
      ]

pub covered_by-none : (base : Text) → covered_by base none ≢ ok stable_superseded
unfolding covered_by
covered_by-none base e = cc

pub covered_by-ne-canary :
    (base : Text) (r : Option Text) → covered_by base r ≢ ok canary_superseded
unfolding covered_by
covered_by-ne-canary base none e = cc
covered_by-ne-canary base (some t) e = ground arith

pub covered_by_reached :
    (base t : Text)
    → covered_by base (some t) ≡ ok stable_superseded
    → (o : Ordering) × (compare_stable_versions t base ≡ ok o) × (is_ge o ≡ true)
unfolding covered_by
covered_by_reached base t h = elim (Result-cases (compare_stable_versions t base)) [
  | inl (o, e) ↦ (o, e, ground arith)
  | inr (f, failed) ↦ cc (rw failed at h)
]

pub stable_status-ne-canary :
    (is_ancestor : CommitAncestry) (commit base : Text) (registry : Registry)
    (recorded : Option Text)
    → stable_status is_ancestor commit base registry ≢ ok canary_superseded
stable_status-ne-canary is_ancestor commit base registry recorded e =
    elim (stable_status-Reason is_ancestor commit base registry recorded canary_superseded e) [
      | by_commit same descendant ↦ cc
      | by_version behind r highest covered ↦ covered_by-ne-canary base r covered
    ]

pub agrees_recorded :
    (v : Text) (published recorded : Option Text)
    → published ≡ some v
    → conflicts published recorded ≡ false
    → recorded ≡ some v
unfolding conflicts
agrees_recorded v none recorded e h = cc
agrees_recorded v (some u) none e h = cc
agrees_recorded v (some u) (some r) e h = ground (arith, ===_iff u r)

pub owned_not_superseded :
    (is_ancestor : CommitAncestry) (commit base : Text) (registry : Registry)
    (recorded : Option Text)
    → (f : Found is_ancestor commit base registry recorded owned)
    → (f.history.superseded ≡ false) × (stable_status is_ancestor commit base registry ≡ ok owned)
owned_not_superseded is_ancestor commit base registry recorded f = elim f.reason [
  | inl (s, e) ↦ absurd (cc)
  | inr found ↦ found
]
