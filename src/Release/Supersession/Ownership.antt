-- ===== src/Release/Supersession/Ownership.antt =====
-- `canarySupersession`: what it means that a commit owns its channel, or that it is superseded.
use internal.Prelude.{
  ◌≡◌, ◌≢◌, ap, ◌∙◌, subst, Ordering, true, false, Option, none, some, ◌⊎◌, inl, inr, is_ge, Text,
  keys, All-at, Memᴰ, ok,
}
use internal.Release.Version.{
  is_stable_release_version, is_canary_release_version, compare_stable_versions,
}
use internal.Release.Version.Order.{compare_stable_versions-eq}
use internal.Release.Npm.{PublishedVersion, Registry}
use internal.Release.Supersession.{
  CommitAncestry, owned, canary_superseded, stable_superseded, published_canary_commits, covered_by,
  stable_status, canary_supersession,
}
use internal.Release.Supersession.Stables.{IsCovered, IsStableOrNone, highest_total}
use internal.Release.Supersession.History.{
  HasDescendant, Stands, own, newer, older, StandsEntry, canary_history-History,
}
use internal.Release.Supersession.Descendants.{
  mem_published, mem_keys, below_base, NotNewer, HasNewerStable,
}
use internal.Release.Supersession.Reasons.{
  Found, canary_supersession-Found, StableReason, stable_status-Reason, covered_by-none,
  covered_by_reached, stable_status-ne-canary, agrees_recorded, owned_not_superseded, by_commit,
  by_version,
}

-- A commit owns its channel only if every published canary with a known commit was built either
-- from that very commit, and then it is the recorded version, or from a strict ancestor of it.
pub owned_canary_behind :
    (is_ancestor : CommitAncestry) (commit base : Text) (registry : Registry)
    (recorded : Option Text) (v c : Text) (p : PublishedVersion)
    → canary_supersession is_ancestor commit base registry recorded ≡ ok owned
    → Memᴰ (v, p) registry.versions
    → is_canary_release_version v ≡ true
    → p.commit ≡ some c
    → ((c ≡ commit) × (recorded ≡ some v))
      ⊎ ((c ≢ commit) × (is_ancestor commit c ≡ ok false) × (is_ancestor c commit ≡ ok true))
owned_canary_behind is_ancestor commit base registry recorded v c p h m canary known =
    let f = canary_supersession-Found is_ancestor commit base registry recorded owned h in
    let walked = canary_history-History is_ancestor commit registry f.history f.accepted in
    placed f (owned_not_superseded is_ancestor commit base registry recorded f).0 (
      All-at (StandsEntry is_ancestor commit f.history)
        (mem_published registry v p c m canary known) walked.stands)
  where
    placed :
        (f : Found is_ancestor commit base registry recorded owned)
        → f.history.superseded ≡ false
        → Stands is_ancestor commit f.history v c
        → ((c ≡ commit) × (recorded ≡ some v))
          ⊎ ((c ≢ commit) × (is_ancestor commit c ≡ ok false) × (is_ancestor c commit ≡ ok true))
    placed f s (own e published) = inl (e, agrees_recorded v _ recorded published f.agrees)
    placed f s (newer ne n k) = absurd (cc)
    placed f s (older ne n o) = inr (ne, n, o)

-- A commit owns its channel at a base only if the base is above every stable version that npm
-- lists, and none of these was built from a descendant of the commit.
pub owned_base_above :
    (is_ancestor : CommitAncestry) (commit base : Text) (registry : Registry)
    (recorded : Option Text) (v : Text) (p : PublishedVersion)
    → canary_supersession is_ancestor commit base registry recorded ≡ ok owned
    → is_stable_release_version base ≡ true
    → Memᴰ (v, p) registry.versions
    → is_stable_release_version v ≡ true
    → (compare_stable_versions base v ≡ ok Ordering.gt)
      × ((p.commit ≡ none) ⊎ ((c : Text) × (p.commit ≡ some c) × (is_ancestor commit c ≡ ok false)))
owned_base_above is_ancestor commit base registry recorded v p h hb m stable =
    let f = canary_supersession-Found is_ancestor commit base registry recorded owned h in
    above (
      stable_status-Reason is_ancestor commit base registry recorded owned
        (owned_not_superseded is_ancestor commit base registry recorded f).1)
  where
    not_newer :
        NotNewer is_ancestor commit (v, p)
        → (p.commit ≡ none) ⊎ ((c : Text) × (p.commit ≡ some c) × (is_ancestor commit c ≡ ok false))
    not_newer (inl unstable) = absurd (cc)
    not_newer (inr found) = found

    above :
        StableReason is_ancestor commit base registry recorded owned
        → (compare_stable_versions base v ≡ ok Ordering.gt)
          × ((p.commit ≡ none)
              ⊎ ((c : Text) × (p.commit ≡ some c) × (is_ancestor commit c ≡ ok false)))
    above (by_commit e descendant) = absurd (cc)
    above (by_version behind r highest covered) =
        let (r', highest', stable_r, all_covered, _) = highest_total registry in
        let same : r ≡ r' = cc in
        (
          compare_stable_versions-eq base v hb stable
              ∙ ap ok (
                  below_base base v r' hb stable stable_r
                    (All-at (IsCovered r') (mem_keys v p registry.versions m) all_covered)
                    (rw same at covered)),
          not_newer (All-at (NotNewer is_ancestor commit) m behind),
        )

-- A commit is reported superseded by a canary only if npm lists a canary that was built from a
-- strict descendant of it.
pub canary_superseded_descendant :
    (is_ancestor : CommitAncestry) (commit base : Text) (registry : Registry)
    (recorded : Option Text)
    → canary_supersession is_ancestor commit base registry recorded ≡ ok canary_superseded
    → HasDescendant is_ancestor commit (published_canary_commits registry)
canary_superseded_descendant is_ancestor commit base registry recorded h =
    let f =
      canary_supersession-Found is_ancestor commit base registry recorded canary_superseded h in
    let walked = canary_history-History is_ancestor commit registry f.history f.accepted in
    walked.superseded (is_superseded f)
  where
    is_superseded :
        (f : Found is_ancestor commit base registry recorded canary_superseded)
        → f.history.superseded ≡ true
    is_superseded f = elim f.reason [
      | inl (s, e) ↦ s
      | inr (s, e) ↦ absurd (stable_status-ne-canary is_ancestor commit base registry recorded e)
    ]

-- A commit is reported superseded by a stable release only if npm lists a stable version of a
-- commit that the ancestry query puts after it, or a stable version that is at least the base.
pub stable_superseded_reason :
    (is_ancestor : CommitAncestry) (commit base : Text) (registry : Registry)
    (recorded : Option Text)
    → canary_supersession is_ancestor commit base registry recorded ≡ ok stable_superseded
    → HasNewerStable is_ancestor commit registry.versions
      ⊎ ((t : Text) × (o : Ordering) × Memᴰ t (keys registry.versions)
          × (is_stable_release_version t ≡ true)
          × (compare_stable_versions t base ≡ ok o)
          × (is_ge o ≡ true))
stable_superseded_reason is_ancestor commit base registry recorded h =
    let f =
      canary_supersession-Found is_ancestor commit base registry recorded stable_superseded h in
    reason_of (
      stable_status-Reason is_ancestor commit base registry recorded stable_superseded
        (status_of f))
  where
    status_of :
        (f : Found is_ancestor commit base registry recorded stable_superseded)
        → stable_status is_ancestor commit base registry ≡ ok stable_superseded
    status_of f = elim f.reason [ inl (s, e) ↦ absurd (cc) | inr (s, e) ↦ e ]

    listed :
        (r : Option Text)
        → covered_by base r ≡ ok stable_superseded
        → IsStableOrNone r
        → (r ≡ none) ⊎ ((t : Text) × (r ≡ some t) × Memᴰ t (keys registry.versions))
        → (t : Text) × (o : Ordering) × Memᴰ t (keys registry.versions)
          × (is_stable_release_version t ≡ true)
          × (compare_stable_versions t base ≡ ok o)
          × (is_ge o ≡ true)
    listed none c stable source = absurd (covered_by-none base c)
    listed (some t) c stable (inl e) = absurd (cc)
    listed (some t) c stable (inr (u, e, m)) =
        let same : u ≡ t = cc in
        let (o, compared, at_least) = covered_by_reached base t c in
        (t, o, subst (λ w. Memᴰ w (keys registry.versions)) same m, stable, compared, at_least)

    reason_of :
        StableReason is_ancestor commit base registry recorded stable_superseded
        → HasNewerStable is_ancestor commit registry.versions
          ⊎ ((t : Text) × (o : Ordering) × Memᴰ t (keys registry.versions)
              × (is_stable_release_version t ≡ true)
              × (compare_stable_versions t base ≡ ok o)
              × (is_ge o ≡ true))
    reason_of (by_commit e descendant) = inl descendant
    reason_of (by_version behind r highest covered) =
        let (r', highest', stable_r, all_covered, source) = highest_total registry in
        let same : r ≡ r' = cc in inr (listed r' (rw same at covered) stable_r source)
