-- ===== src/Release/Store/TagPhase.antt =====
-- The tag of a record that is created: it is looked up, and then created or checked.
use internal.Prelude.{
  ℕ, ◌≡◌, sym, ap, ◌∙◌, subst, Bool-cases, Option, none, some, List, ◌∷◌, inl, inr, Text, text,
  ◌===◌, ===_iff, Result, ok, arith,
}
use internal.Release.Effects.{Run, pure, bind-ok, lift-ok}
use internal.Release.Intent.{ReleaseIntent}
use internal.Release.Record.{IntentCodec, release_tag}
use internal.Release.Store.{
  GitHubTagRef, StoreCall, get_tag, post_tag, GitHubPort, StoreWorld, ask, settle_tag, read_tag_sha,
  sha_of,
}
use internal.Release.Store.Requests.{asked}
use internal.Release.Store.Known.{ask-catalog}

-- The requests for the tag, after it was looked up: it is created at the commit if GitHub lacks it,
-- and points at the commit already if not.
abbrev pub TagSettled :
    ReleaseIntent → Option GitHubTagRef → List StoreCall → List StoreCall → Type 0
TagSettled intent none before after =
    (ref : GitHubTagRef) × (after ≡ post_tag (release_tag intent) intent.commit (ok ref) ∷ before)
TagSettled intent (some ref) before after =
    (ref.kind ≡ text "commit") × (ref.sha ≡ intent.commit) × (after ≡ before)

sha_none : (o : Option Text) → ◌≡◌ {A = Result (Option Text)} (ok none) (ok o) → none ≡ o
sha_none o h = cc

sha_commit :
    (ref : GitHubTagRef) (o : Option Text)
    → sha_of (some ref) ≡ ok o
    → (ref.kind ≡ text "commit") × (some ref.sha ≡ o)
unfolding sha_of
sha_commit ref o h = elim (Bool-cases (ref.kind === text "commit")) [
  | inl same ↦ ((===_iff ref.kind (text "commit")).0 same, cc (rw same at h))
  | inr other ↦ absurd (cc (rw other at h))
]

module _ {World : Type 0} (codec : IntentCodec) (package_name : Text) (port : GitHubPort World)
    (pages : ℕ) where
  settle_tag-TagSettled :
      (intent : ReleaseIntent) (answer : Option GitHubTagRef) (sha : Option Text)
      (s t : Run StoreCall (StoreWorld World))
      → sha_of answer ≡ ok sha
      → settle_tag codec package_name port pages (release_tag intent) intent.commit sha s
        ≡ (ok tt, t)
      → TagSettled intent answer s.trace t.trace × (t.world.catalog ≡ s.world.catalog)
  unfolding settle_tag sha_of
  settle_tag-TagSettled intent none (some sha) s t e h = absurd (cc)
  settle_tag-TagSettled intent none none s t e h =
      let tag = release_tag intent in
      let note = post_tag tag intent.commit in
      let request = port.post_tag tag intent.commit in
      let (ref, u, posting, last) =
        bind-ok (ask codec package_name port pages note request) (λ _. pure tt) s h in
      let (_, end) = lift-ok (ok tt) u last in
      (
        (
          ref,
          ap (λ (r : Run StoreCall (StoreWorld World)). r.trace) (sym end)
              ∙ asked codec package_name port pages note request s u ref posting,
        ),
        ap (λ (r : Run StoreCall (StoreWorld World)). r.world.catalog) (sym end)
            ∙ ask-catalog codec package_name port pages note request s u ref posting,
      )
  settle_tag-TagSettled intent (some ref) none s t e h =
      let (_, no_sha) = sha_commit ref none e in absurd (cc)
  settle_tag-TagSettled intent (some ref) (some sha) s t e h =
      let (commit, same) = sha_commit ref (some sha) e in
      let (passed, end) = lift-ok _ s h in
      let matches : sha ≡ intent.commit = ground (arith, ===_iff sha intent.commit) in
      let own : ref.sha ≡ sha = cc in
      (
        (commit, own ∙ matches, ap (λ (r : Run StoreCall (StoreWorld World)). r.trace) (sym end)),
        ap (λ (r : Run StoreCall (StoreWorld World)). r.world.catalog) (sym end),
      )

  -- The tag phase of a creation.
  pub read_and_settle :
      (intent : ReleaseIntent) (sha : Option Text) (s t u : Run StoreCall (StoreWorld World))
      → read_tag_sha codec package_name port pages (release_tag intent) s ≡ (ok sha, t)
      → settle_tag codec package_name port pages (release_tag intent) intent.commit sha t
        ≡ (ok tt, u)
      → (answer : Option GitHubTagRef) × TagSettled intent answer
          (get_tag (release_tag intent) (ok answer) ∷ s.trace)
          u.trace
        × (u.world.catalog ≡ s.world.catalog)
  unfolding read_tag_sha
  read_and_settle intent sha s t u reading settling =
      let note = get_tag (release_tag intent) in
      let request = port.get_tag (release_tag intent) in
      let (answer, v, asking, later) =
        bind-ok (ask codec package_name port pages note request) _ s reading in
      let (decoded, end) = lift-ok (sha_of answer) v later in
      let (settled, kept) = settle_tag-TagSettled intent answer sha t u decoded settling in
      (
        answer,
        subst (λ cs. TagSettled intent answer cs u.trace)
            (ap (λ (r : Run StoreCall (StoreWorld World)). r.trace) (sym end)
              ∙ asked codec package_name port pages note request s v answer asking)
            settled,
        kept
            ∙ ap (λ (r : Run StoreCall (StoreWorld World)). r.world.catalog) (sym end)
            ∙ ask-catalog codec package_name port pages note request s v answer asking,
      )
