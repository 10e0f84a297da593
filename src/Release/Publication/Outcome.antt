-- ===== src/Release/Publication/Outcome.antt =====
-- `publishVerifiedRelease`: what a run that returns has done.
use internal.Prelude.{
  ◌≡◌, refl, sym, ap, ◌∙◌, subst, Bool, true, false, none, ◌∷◌, ◌⊎◌, inl, inr, if◌then◌else◌, get,
  Result, ok,
}
use internal.Release.Effects.{Run, pure, lift, bind-ok, lift-ok}
use internal.Release.Intent.{VerifiedRelease}
use internal.Release.Npm.{Registry}
use internal.Release.PublicationPlan.{PublicationPlan, superseded, publish, plan_publication}
use internal.Release.PublicationPlan.Identity.{IsPublished}
use internal.Release.PublicationPlan.Upload.{plan_publication-UploadsMissing}
use internal.Release.Publication.{
  Call, read_registry, PublicationDeps, read, was_published, was_superseded, upload_and_confirm,
  promote_planned, finish_planned, publish_verified_release,
}
use internal.Release.Publication.Confirmation.{IsRepeat}
use internal.Release.Publication.Steps.{
  read-added, Uploaded, upload_and_confirm-Uploaded, Promoted, promote_and_confirm-Promoted,
}

registry_injective : (a b : Registry) → ◌≡◌ {A = Result Registry} (ok a) (ok b) → a ≡ b
registry_injective a b e = cc

module _ {World : Type 0} (deps : PublicationDeps World) (laws : IsRepeat deps)
    (release : VerifiedRelease) where
  -- The upload was made and confirmed because npm lacked the version, or was left out because npm
  -- carried the release already.
  abbrev pub UploadPhase : Registry → Run Call World → Run Call World → Registry → Type 0
  UploadPhase first s t confirmed =
      ((get release.version first.versions ≡ none) × Uploaded deps laws release s t confirmed)
      ⊎ ((s ≡ t) × (first ≡ confirmed))

  -- The tag was moved and confirmed as planned at the registry that confirmed the upload, or was
  -- left alone as planned there.
  abbrev pub PromotionPhase : Registry → Run Call World → Run Call World → Type 0
  PromotionPhase confirmed t s' =
      ((u : Bool) × (plan_publication deps.ancestry release confirmed ≡ ok (publish u true))
        × Promoted deps laws release t s')
      ⊎ (((u : Bool) × (plan_publication deps.ancestry release confirmed ≡ ok (publish u false))
            × (t ≡ s'))
          ⊎ ((plan_publication deps.ancestry release confirmed ≡ ok superseded) × (t ≡ s')))

  pub record PublishedRun (s s' : Run Call World) : Type 0 where
    pub first : Registry
    pub confirmed : Registry
    pub started : Run Call World
    pub middle : Run Call World
    pub first_read : started.trace ≡ read_registry (ok first) ∷ s.trace
    pub upload : UploadPhase first started middle confirmed
    pub carried : IsPublished release confirmed
    pub promotion : PromotionPhase confirmed middle s'

  promote_planned-phase :
      (plan : PublicationPlan) (confirmed : Registry) (t s' : Run Call World)
      → plan_publication deps.ancestry release confirmed ≡ ok plan
      → promote_planned deps release plan t ≡ (ok tt, s')
      → PromotionPhase confirmed t s'
  unfolding promote_planned
  promote_planned-phase superseded confirmed t s' e h = inr (inr (e, (lift-ok (ok tt) t h).1))
  promote_planned-phase (publish u true) confirmed t s' e h =
      inl (u, e, promote_and_confirm-Promoted deps laws release t s' h)
  promote_planned-phase (publish u false) confirmed t s' e h =
      inr (inl (u, e, (lift-ok (ok tt) t h).1))

  -- What the upload phase leaves, and that npm carries the release after it.
  upload_phase :
      (upload promote : Bool) (first confirmed : Registry) (s t : Run Call World)
      → plan_publication deps.ancestry release first ≡ ok (publish upload promote)
      → (if upload then upload_and_confirm deps release else pure first) s ≡ (ok confirmed, t)
      → UploadPhase first s t confirmed × IsPublished release confirmed
  upload_phase true promote first confirmed s t e h =
      let uploaded = upload_and_confirm-Uploaded deps laws release s t confirmed h in
      let missing =
        plan_publication-UploadsMissing deps.ancestry release first (publish true promote) e in
      (inl (missing, uploaded), uploaded.published)
  upload_phase false promote first confirmed s t e h =
      let (same, end) = lift-ok (ok first) s h in
      let carried =
        plan_publication-UploadsMissing deps.ancestry release first (publish false promote) e in
      let unchanged = registry_injective first confirmed same in
      (inr (end, unchanged), subst (IsPublished release) unchanged carried)

  finish_planned-superseded :
      (plan : PublicationPlan) (first : Registry) (s s' : Run Call World)
      → finish_planned deps release first plan s ≡ (ok was_superseded, s')
      → (plan ≡ superseded) × (s ≡ s')
  unfolding finish_planned
  finish_planned-superseded superseded first s s' h = (refl, (lift-ok (ok was_superseded) s h).1)
  finish_planned-superseded (publish upload promote) first s s' h =
      let (confirmed, t, uploading, later) =
        bind-ok (if upload then upload_and_confirm deps release else pure first) _ s h in
      let (plan, u, planned, promoting) =
        bind-ok (lift (plan_publication deps.ancestry release confirmed)) _ t later in
      let (x, v, promoted, last) = bind-ok (promote_planned deps release plan) _ u promoting in
      absurd (cc ((lift-ok (ok was_published) v last).0))

  finish_planned-published :
      (plan : PublicationPlan) (first : Registry) (started s s' : Run Call World)
      → started.trace ≡ read_registry (ok first) ∷ s.trace
      → plan_publication deps.ancestry release first ≡ ok plan
      → finish_planned deps release first plan started ≡ (ok was_published, s')
      → PublishedRun s s'
  unfolding finish_planned
  finish_planned-published superseded first started s s' added e h =
      absurd (cc ((lift-ok (ok was_superseded) started h).0))
  finish_planned-published (publish upload promote) first started s s' added e h =
      let (confirmed, t, uploading, later) =
        bind-ok (if upload then upload_and_confirm deps release else pure first) _ started h in
      let (plan, u, planned, promoting) =
        bind-ok (lift (plan_publication deps.ancestry release confirmed)) _ t later in
      let (x, v, promoted, last) = bind-ok (promote_planned deps release plan) _ u promoting in
      let (phase, carried) = upload_phase upload promote first confirmed started t e uploading in
      let (plan_found, same) =
        lift-ok (plan_publication deps.ancestry release confirmed) t planned in
      let end = (lift-ok (ok was_published) v last).1 in
      let moved = promote_planned-phase plan confirmed u v plan_found promoted in
      record {
        first = first;
        confirmed = confirmed;
        started = started;
        middle = t;
        first_read = added;
        upload = phase;
        carried = carried;
        promotion =
            subst (λ a. PromotionPhase confirmed a s') (sym same)
              (subst (PromotionPhase confirmed u) end moved);
      }

  -- A run that returns `published`, whatever the world answers: it first reads the registry; it
  -- uploads only if that read lacks the version, and then polls until a read carries exactly the
  -- integrity and the commit of the release; and it moves the tag only if the plan at that last
  -- registry says so, and then polls until a read shows the tag at the version. Nothing else is done.
  pub publish_verified_release-published :
      (s s' : Run Call World)
      → publish_verified_release deps release s ≡ (ok was_published, s')
      → PublishedRun s s'
  unfolding publish_verified_release
  publish_verified_release-published s s' h =
      let (first, t, returned, later) = bind-ok (read deps) _ s h in
      let (plan, u, planned, rest) =
        bind-ok (lift (plan_publication deps.ancestry release first)) _ t later in
      let (found, same) = lift-ok (plan_publication deps.ancestry release first) t planned in
      finish_planned-published plan first u s s'
        (ap (λ (x : Run Call World). x.trace) (sym same)
          ∙ read-added deps laws release s t first returned)
        found rest

  -- A run that returns `superseded` has read the registry once and has called npm for nothing: the
  -- plan at that registry gave the release up, and npm does not carry its version.
  pub publish_verified_release-superseded :
      (s s' : Run Call World)
      → publish_verified_release deps release s ≡ (ok was_superseded, s')
      → (first : Registry) × (s'.trace ≡ read_registry (ok first) ∷ s.trace)
        × (plan_publication deps.ancestry release first ≡ ok superseded)
        × (get release.version first.versions ≡ none)
  unfolding publish_verified_release
  publish_verified_release-superseded s s' h =
      let (first, t, returned, later) = bind-ok (read deps) _ s h in
      let (plan, u, planned, rest) =
        bind-ok (lift (plan_publication deps.ancestry release first)) _ t later in
      let (found, same) = lift-ok (plan_publication deps.ancestry release first) t planned in
      let (given_up, end) = finish_planned-superseded plan first u s' rest in
      let e = found ∙ ap ok given_up in
      (
        first,
        ap (λ (x : Run Call World). x.trace) (sym (same ∙ end))
            ∙ read-added deps laws release s t first returned,
        e,
        plan_publication-UploadsMissing deps.ancestry release first superseded e,
      )
