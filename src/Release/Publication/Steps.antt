-- ===== src/Release/Publication/Steps.antt =====
-- `uploadAndConfirm` and `promoteAndConfirm`: what a run that returns has done.
use internal.Prelude.{
  suc, ◌≡◌, sym, ap, ◌∙◌, subst, Bool, true, false, Option, none, some, List, ◌∷◌, ◌++◌, All, Memᴰ,
  inl, inr, Result-cases, Text, ◌===◌, ===_iff, get, Result, ok,
}
use internal.Release.Effects.{
  Run, call, attempt, ◌>>=◌, bind-ok, call-ok, lift-ok, attempt-call, fail-ne-ok,
}
use internal.Release.Intent.{VerifiedRelease}
use internal.Release.Npm.{Registry}
use internal.Release.PublicationPlan.{absent, match, dist_tag_for, npm_identity}
use internal.Release.PublicationPlan.Identity.{IsPublished, npm_identity_iff}
use internal.Release.Publication.{
  Call, read_registry, npm_publish, npm_promote, PublicationDeps, confirmation_retries, read,
  tag_shows, confirmed_or, identity_shows, upload_and_confirm, visible_or, promote_and_confirm,
  confirm_registry,
}
use internal.Release.Publication.Confirmation.{IsRepeat, IsPoll, Polled, confirm_registry-Polled}

registry_injective : (a b : Registry) → ◌≡◌ {A = Result Registry} (ok a) (ok b) → a ≡ b
registry_injective a b e = cc

module _ {World : Type 0} (deps : PublicationDeps World) (laws : IsRepeat deps)
    (release : VerifiedRelease) where
  pub read-added :
      (s t : Run Call World) (r : Registry)
      → read deps s ≡ (ok r, t)
      → t.trace ≡ read_registry (ok r) ∷ s.trace
  unfolding read
  read-added s t r h = call-ok read_registry deps.read s h

  -- An upload that returned: one publish command, then polling that read a registry with exactly
  -- the bytes and the commit of the release.
  pub record Uploaded (s s' : Run Call World) (confirmed : Registry) : Type 0 where
    pub polls : List Call
    pub answer : Result (Unit {0})
    pub added : s'.trace ≡ polls ++ npm_publish release.archive answer ∷ s.trace
    pub only_polls : All IsPoll polls
    pub confirmed_read : Memᴰ (read_registry (ok confirmed)) polls
    pub published : IsPublished release confirmed

  identity_shows-IsPublished :
      (r : Registry) → identity_shows deps release r ≡ ok true → IsPublished release r
  unfolding identity_shows
  identity_shows-IsPublished r h = elim (Result-cases (npm_identity release r)) [
    | inr (f, failed) ↦ absurd (cc (rw (failed, identity_shows) at h))
    | inl (absent, e) ↦ absurd (cc (rw (e, identity_shows) at h))
    | inl (match, e) ↦ (npm_identity_iff release r).0.0 e
  ]

  pub upload_and_confirm-Uploaded :
      (s s' : Run Call World) (confirmed : Registry)
      → upload_and_confirm deps release s ≡ (ok confirmed, s')
      → Uploaded s s' confirmed
  unfolding upload_and_confirm
  upload_and_confirm-Uploaded s s' confirmed h =
      let sending = call (npm_publish release.archive) (deps.npm_publish release.archive) in
      let (sent, t, e, later) =
        bind-ok (attempt sending)
          (λ sent. confirm_registry deps (identity_shows deps release) >>= λ confirmed.
            confirmed_or deps confirmed sent)
          s h in
      let (o, u, polled, last) =
        bind-ok (confirm_registry deps (identity_shows deps release))
          (λ confirmed. confirmed_or deps confirmed sent) t later in
      uploaded sent t o u
        (attempt-call (npm_publish release.archive) (deps.npm_publish release.archive) s e)
        (confirm_registry-Polled deps laws (identity_shows deps release) t u o polled) last
    where
      uploaded :
          (sent : Result (Unit {0})) (t : Run Call World) (o : Option Registry) (u : Run Call World)
          → t.trace ≡ npm_publish release.archive sent ∷ s.trace
          → Polled deps laws
              (identity_shows deps release)
              (suc (confirmation_retries deps.confirmation_interval deps.confirmation_window))
              t
              u
              o
          → confirmed_or deps o sent u ≡ (ok confirmed, s')
          → Uploaded s s' confirmed
      uploaded sent t none u sent_added p last =
          absurd (fail-ne-ok _ u (unfold confirmed_or in last))
      uploaded sent t (some r) u sent_added p last =
          let (result, end) = lift-ok (ok r) u (unfold confirmed_or in last) in
          subst (Uploaded s s') (registry_injective r confirmed result) (record {
            polls = p.calls;
            answer = sent;
            added =
                sym (ap (λ (x : Run Call World). x.trace) end)
                ∙ p.added
                ∙ ap (λ cs. p.calls ++ cs) sent_added;
            only_polls = p.polls;
            confirmed_read = p.shown.0;
            published = identity_shows-IsPublished r p.shown.1;
          })

  -- A promotion that returned: one dist-tag command, then polling that read a registry in which the
  -- tag is at the version of the release.
  pub record Promoted (s s' : Run Call World) : Type 0 where
    pub polls : List Call
    pub answer : Unit {0}
    pub added :
        s'.trace
        ≡ polls ++ npm_promote release.version (dist_tag_for release.channel) (ok answer) ∷ s.trace
    pub only_polls : All IsPoll polls
    pub seen : Registry
    pub seen_read : Memᴰ (read_registry (ok seen)) polls
    pub shown : get (dist_tag_for release.channel) seen.tags ≡ some release.version

  tag_shows-get :
      (tag version : Text) (r : Registry)
      → ◌≡◌ {A = Result Bool} (ok (tag_shows tag version r)) (ok true)
      → get tag r.tags ≡ some version
  unfolding tag_shows
  tag_shows-get tag version r h = shows (get tag r.tags) (bool_injective h)
    where
      bool_injective : {b c : Bool} → ◌≡◌ {A = Result Bool} (ok b) (ok c) → b ≡ c
      bool_injective e = cc

      shows :
          (o : Option Text)
          → elim o [ none ↦ false | some current ↦ current === version ] ≡ true
          → o ≡ some version
      shows none e = absurd (cc)
      shows (some current) e = ap some ((===_iff current version).0 e)

  pub promote_and_confirm-Promoted :
      (s s' : Run Call World) → promote_and_confirm deps release s ≡ (ok tt, s') → Promoted s s'
  unfolding promote_and_confirm
  promote_and_confirm-Promoted s s' h =
      let tag = dist_tag_for release.channel in
      let (x, t, e, later) =
        bind-ok (call (npm_promote release.version tag) (deps.npm_promote release.version tag))
          (λ _.
            confirm_registry deps (λ registry. ok (tag_shows tag release.version registry))
            >>= λ confirmed. visible_or deps tag confirmed)
          s h in
      let (o, u, polled, last) =
        bind-ok (confirm_registry deps (λ registry. ok (tag_shows tag release.version registry)))
          (λ confirmed. visible_or deps tag confirmed) t later in
      promoted x t o u
        (call-ok (npm_promote release.version tag) (deps.npm_promote release.version tag) s e)
        (confirm_registry-Polled deps laws (λ registry. ok (tag_shows tag release.version registry))
          t u o polled)
        last
    where
      promoted :
          (x : Unit {0}) (t : Run Call World) (o : Option Registry) (u : Run Call World)
          → t.trace ≡ npm_promote release.version (dist_tag_for release.channel) (ok x) ∷ s.trace
          → Polled deps laws
              (λ registry. ok (tag_shows (dist_tag_for release.channel) release.version registry))
              (suc (confirmation_retries deps.confirmation_interval deps.confirmation_window))
              t
              u
              o
          → visible_or deps (dist_tag_for release.channel) o u ≡ (ok tt, s')
          → Promoted s s'
      promoted x t none u sent_added p last = absurd (fail-ne-ok _ u (unfold visible_or in last))
      promoted x t (some r) u sent_added p last = record {
        polls = p.calls;
        answer = x;
        added =
            sym (
              ap (λ (y : Run Call World). y.trace)
                (lift-ok (ok tt) u (unfold visible_or in last)).1)
            ∙ p.added
            ∙ ap (λ cs. p.calls ++ cs) sent_added;
        only_polls = p.polls;
        seen = r;
        seen_read = p.shown.0;
        shown = tag_shows-get (dist_tag_for release.channel) release.version r p.shown.1;
      }
