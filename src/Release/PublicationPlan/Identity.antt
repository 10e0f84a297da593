-- ===== src/Release/PublicationPlan/Identity.antt =====
-- `npmIdentity`: whether npm carries exactly the archive of the release.
use internal.Prelude.{◌≡◌, ◌↔◌, refl, true, Option, none, some, Text, ===_iff, get, ok, arith}
use internal.Release.Intent.{VerifiedRelease}
use internal.Release.Npm.{PublishedVersion, Registry}
use internal.Release.PublicationPlan.{absent, match, option_eq, identity_of, npm_identity}

option_eq_iff : (o : Option Text) (t : Text) → (option_eq o t ≡ true) ↔ (o ≡ some t)
unfolding option_eq
option_eq_iff none t = ground arith
option_eq_iff (some s) t = ground (arith, ===_iff s t)

-- npm carries a version with exactly the integrity and the commit of the release.
abbrev pub IsPublished : VerifiedRelease → Registry → Type 0
IsPublished release registry =
    (p : PublishedVersion) × (get release.version registry.versions ≡ some p)
    × (p.integrity ≡ some release.integrity)
    × (p.commit ≡ some release.commit)

match_of :
    (release : VerifiedRelease) (o : Option PublishedVersion)
    → identity_of release o ≡ ok match
    → (p : PublishedVersion) × (o ≡ some p)
      × (p.integrity ≡ some release.integrity)
      × (p.commit ≡ some release.commit)
unfolding identity_of
match_of release none h = absurd (cc)
match_of release (some p) h = (
  p,
  refl,
  (option_eq_iff p.integrity release.integrity).0 (ground arith),
  (option_eq_iff p.commit release.commit).0 (ground arith),
)

of_match :
    (release : VerifiedRelease) (p : PublishedVersion)
    → p.integrity ≡ some release.integrity
    → p.commit ≡ some release.commit
    → identity_of release (some p) ≡ ok match
unfolding identity_of
of_match release p i c = ground (
  arith,
  (option_eq_iff p.integrity release.integrity).1 i,
  (option_eq_iff p.commit release.commit).1 c,
)

absent_of :
    (release : VerifiedRelease) (o : Option PublishedVersion)
    → identity_of release o ≡ ok absent
    → o ≡ none
unfolding identity_of
absent_of release none h = refl
absent_of release (some p) h = ground arith

-- The identity is a match exactly when npm carries the version with the integrity and the commit
-- of the release, and absent exactly when npm does not carry the version; any other version of
-- that name is an error.
pub npm_identity_iff :
    (release : VerifiedRelease) (registry : Registry)
    → ((npm_identity release registry ≡ ok match) ↔ IsPublished release registry)
      × ((npm_identity release registry ≡ ok absent)
          ↔ (get release.version registry.versions ≡ none))
unfolding npm_identity
npm_identity_iff release registry = (
  (
    match_of release _,
    λ published. rw published.1 (of_match release published.0 published.2 published.3),
  ),
  (absent_of release _, λ e. rw e (unfold identity_of in refl)),
)
