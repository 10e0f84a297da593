-- ===== src/Release/Supersession/Descendants.antt =====
-- `publishedCanaryCommits` and `descendantStableSupersedes`: the published versions and their commits.
use internal.Prelude.{
  ◌≡◌, refl, ap, Ordering, true, false, Option, none, some, List, [], ◌∷◌, ◌++◌, ◌⊎◌, inl, inr,
  Bool-cases, Result-cases, is_gt, Text, keys, All, Memᴰ, ok, arith,
}
use internal.Release.Version.{is_stable_release_version, is_canary_release_version}
use internal.Release.Version.Order.{
  stable_order, compare_stable_versions-eq, stable_order-flip, stable_order_trans,
}
use internal.Release.Npm.{PublishedVersion, Registry}
use internal.Release.Supersession.{
  CommitAncestry, owned, canary_entry, canaries_of, published_canary_commits, covered_by,
  stable_supersedes_step, stable_supersedes_from, descendant_stable_supersedes,
}
use internal.Release.Supersession.Stables.{IsCovered, IsStableOrNone}

mem_append_right : (e : Text × Text) (xs ys : List (Text × Text)) → Memᴰ e ys → Memᴰ e (xs ++ ys)
mem_append_right e [] ys m = m
mem_append_right e (x ∷ xs) ys m = Memᴰ.tail (mem_append_right e xs ys m)

mem_canaries_of :
    (v : Text) (p : PublishedVersion) (c : Text) (vs : List (Text × PublishedVersion))
    → Memᴰ (v, p) vs
    → is_canary_release_version v ≡ true
    → p.commit ≡ some c
    → Memᴰ (v, c) (canaries_of vs)
unfolding canaries_of
mem_canaries_of v p c [] m h k = elim m [ ]
mem_canaries_of v p c ((w, q) ∷ vs) (Memᴰ.head e) h k =
    let same_version : v ≡ w = ap (λ (x : Text × PublishedVersion). x.0) e in
    let same_commit : p.commit ≡ q.commit = ap (λ (x : Text × PublishedVersion). x.1.commit) e in
    rw (← same_commit, k, ← same_version, canary_entry, h) (Memᴰ.head refl)
mem_canaries_of v p c ((w, q) ∷ vs) (Memᴰ.tail m) h k =
    mem_append_right (v, c) (canary_entry w q.commit) (canaries_of vs)
      (mem_canaries_of v p c vs m h k)

-- A published version with its commit is among the canaries that the history walks.
pub mem_published :
    (registry : Registry) (v : Text) (p : PublishedVersion) (c : Text)
    → Memᴰ (v, p) registry.versions
    → is_canary_release_version v ≡ true
    → p.commit ≡ some c
    → Memᴰ (v, c) (published_canary_commits registry)
unfolding published_canary_commits
mem_published registry v p c m h k = mem_canaries_of v p c registry.versions m h k

pub mem_keys :
    (v : Text) (p : PublishedVersion) (vs : List (Text × PublishedVersion))
    → Memᴰ (v, p) vs
    → Memᴰ v (keys vs)
mem_keys v p [] m = elim m [ ]
mem_keys v p ((w, q) ∷ vs) (Memᴰ.head e) = Memᴰ.head (ap (λ (x : Text × PublishedVersion). x.0) e)
mem_keys v p ((w, q) ∷ vs) (Memᴰ.tail m) = Memᴰ.tail (mem_keys v p vs m)

-- The highest stable version does not reach the base, so every stable version is below it.
pub below_base :
    (base v : Text) (r : Option Text)
    → is_stable_release_version base ≡ true
    → is_stable_release_version v ≡ true
    → IsStableOrNone r
    → IsCovered r v
    → covered_by base r ≡ ok owned
    → stable_order base v ≡ Ordering.gt
unfolding covered_by
below_base base v none hb hv s c h = absurd (cc)
below_base base v (some t) hb hv s (inl c) h = absurd (cc)
below_base base v (some t) hb hv s (inr c) h =
    let above : is_gt (stable_order base t) ≡ true =
      ground (arith, compare_stable_versions-eq t base s hb, stable_order-flip t base) in
    ground (arith, stable_order_trans base t v above c)

module _ (is_ancestor : CommitAncestry) (commit : Text) where
  -- No stable version of a descendant of the commit.
  abbrev pub NotNewer : Text × PublishedVersion → Type 0
  NotNewer entry =
      (is_stable_release_version entry.0 ≡ false)
      ⊎ ((entry.1.commit ≡ none)
          ⊎ ((c : Text) × (entry.1.commit ≡ some c) × (is_ancestor commit c ≡ ok false)))

  -- A stable version whose commit is a descendant of the commit, or the commit itself.
  abbrev pub HasNewerStable : List (Text × PublishedVersion) → Type 0
  HasNewerStable vs =
      (v : Text) × (p : PublishedVersion) × (c : Text) × Memᴰ (v, p) vs
      × (is_stable_release_version v ≡ true)
      × (p.commit ≡ some c)
      × (is_ancestor commit c ≡ ok true)

  not_newer :
      (v : Text) (p : PublishedVersion) (o : Option Text)
      → p.commit ≡ o
      → stable_supersedes_step is_ancestor commit v o ≡ ok false
      → NotNewer (v, p)
  unfolding stable_supersedes_step
  not_newer v p none e h = inr (inl e)
  not_newer v p (some c) e h = elim (Bool-cases (is_stable_release_version v)) [
    | inl stable ↦ inr (inr (c, e, ground arith))
    | inr unstable ↦ inl unstable
  ]

  newer_commit :
      (v : Text) (o : Option Text)
      → stable_supersedes_step is_ancestor commit v o ≡ ok true
      → (c : Text) × (o ≡ some c)
        × (is_stable_release_version v ≡ true)
        × (is_ancestor commit c ≡ ok true)
  unfolding stable_supersedes_step
  newer_commit v none h = absurd (cc)
  newer_commit v (some c) h = (c, refl, ground arith, ground arith)

  stables-NotNewer :
      (vs : List (Text × PublishedVersion))
      → stable_supersedes_from is_ancestor commit vs ≡ ok false
      → All NotNewer vs
  unfolding stable_supersedes_from
  stables-NotNewer [] h = tt
  stables-NotNewer ((v, p) ∷ vs) h =
      elim (Result-cases (stable_supersedes_step is_ancestor commit v p.commit)) [
        | inr (f, failed) ↦ absurd (cc (rw failed at h))
        | inl (true, e) ↦ absurd (cc (rw e at h))
        | inl (false, e) ↦ (not_newer v p p.commit refl e, stables-NotNewer vs (rw e at h))
      ]

  stables_newer :
      (vs : List (Text × PublishedVersion))
      → stable_supersedes_from is_ancestor commit vs ≡ ok true
      → HasNewerStable vs
  unfolding stable_supersedes_from
  stables_newer [] h = absurd (cc)
  stables_newer ((v, p) ∷ vs) h =
      elim (Result-cases (stable_supersedes_step is_ancestor commit v p.commit)) [
        | inr (f, failed) ↦ absurd (cc (rw failed at h))
        | inl (true, e) ↦
            let (c, known, stable, descends) = newer_commit v p.commit e in
            (v, p, c, Memᴰ.head refl, stable, known, descends)
        | inl (false, e) ↦
            let (w, q, c, m, stable, known, descends) = stables_newer vs (rw e at h) in
            (w, q, c, Memᴰ.tail m, stable, known, descends)
      ]

  pub NotNewer-stables :
      (registry : Registry)
      → descendant_stable_supersedes is_ancestor commit registry ≡ ok false
      → All NotNewer registry.versions
  unfolding descendant_stable_supersedes
  NotNewer-stables registry h = stables-NotNewer registry.versions h

  pub newer_stable :
      (registry : Registry)
      → descendant_stable_supersedes is_ancestor commit registry ≡ ok true
      → HasNewerStable registry.versions
  unfolding descendant_stable_supersedes
  newer_stable registry h = stables_newer registry.versions h
