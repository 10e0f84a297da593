-- ===== src/Release/Publication.antt =====
-- packages/release/src/publication.ts: upload, confirmation and promotion of a verified release.
-- Durations are whole milliseconds.
pub mod Retries
pub mod Confirmation
pub mod Steps
pub mod Outcome
mod Tests
use internal.Prelude.{
  ℕ, zero, suc, ◌+◌, ◌*◌, ◌^◌, min, Bool, true, false, not, Option, none, some, List, ltb, leb,
  ◌==◌, if◌then◌else◌, is_some, Text, ◌===◌, get, Result, ok, err, unverified_publication,
  tag_update_not_visible,
}
use internal.Release.Effects.{Run, Eff, pure, fail, lift, call, attempt, ◌>>=◌, ◌>>◌}
use internal.Release.Intent.{Channel, ReleaseIntent, VerifiedRelease}
use internal.Release.Npm.{Registry}
use internal.Release.Supersession.{CommitAncestry}
use internal.Release.PublicationPlan.{
  PublicationPlan, superseded, publish, dist_tag_for, is_match, npm_identity, plan_publication,
}

-- The calls of the ports of publication, with their answers.
pub data Call : Type 0 where
  read_registry : Result Registry → Call
  npm_publish : Text → Result (Unit {0}) → Call
  npm_promote : Text → Text → Result (Unit {0}) → Call
  sleep : ℕ → Result (Unit {0}) → Call

-- The ports: the registry, the npm command line, the ancestry oracle and the clock.
-- `repeat n delay until m` is Effect's `repeat` of `m` with a schedule of `n` recurrences.
pub record PublicationDeps (World : Type 0) : Type 0 where
  pub read : World → Result Registry × World
  pub npm_publish : Text → World → Result (Unit {0}) × World
  pub npm_promote : Text → Text → World → Result (Unit {0}) × World
  pub sleep : ℕ → World → Result (Unit {0}) × World
  pub ancestry : CommitAncestry
  pub confirmation_interval : ℕ
  pub confirmation_window : ℕ
  pub repeat :
      ℕ
      → (ℕ → Eff Call World (Unit {0}))
      → (Option Registry → Bool)
      → Eff Call World (Option Registry)
      → Eff Call World (Option Registry)

abbrev pub live_interval : ℕ
live_interval = 5 * 1000

abbrev pub live_window : ℕ
live_window = 10 * 60 * 1000

abbrev pub max_confirmation_delay : ℕ
max_confirmation_delay = 30 * 1000

pub confirmation_delay : ℕ → ℕ → ℕ
confirmation_delay interval retry = min (interval * 2 ^ retry) max_confirmation_delay

-- The loop, on fuel: the time waited grows in each round.
pub retries_from : ℕ → ℕ → ℕ → ℕ → ℕ → ℕ
retries_from zero interval window retries waited = retries
retries_from (suc fuel) interval window retries waited =
    let rest =
      retries_from fuel interval window (retries + 1)
        (waited + confirmation_delay interval retries) in
    if ltb waited window then rest else retries

pub confirmation_retries : ℕ → ℕ → ℕ
unfolding retries_from
confirmation_retries interval window =
    if not (ltb 0 interval) then 0 else retries_from window interval window 0 0

-- `registry.tags.get(tag) === release.version`
pub tag_shows : Text → Text → Registry → Bool
tag_shows tag version registry = elim (get tag registry.tags) [
  | none ↦ false
  | some current ↦ current === version
]

pub data PublicationResult : Type 0 where
  was_published was_superseded : PublicationResult

module _ {World : Type 0} (deps : PublicationDeps World) where
  unfoldable pub read : Eff Call World Registry
  read = call read_registry deps.read

  pub wait : ℕ → Eff Call World (Unit {0})
  wait delay = call (sleep delay) (deps.sleep delay)

  observe : (Registry → Result Bool) → Eff Call World (Option Registry)
  unfolding read
  observe is_visible = do
    registry ← read
    visible ← lift (is_visible registry)
    pure (if visible then some registry else none)

  pub confirm_registry : (Registry → Result Bool) → Eff Call World (Option Registry)
  unfolding observe wait
  confirm_registry is_visible =
      deps.repeat (confirmation_retries deps.confirmation_interval deps.confirmation_window)
        (λ retry. wait (confirmation_delay deps.confirmation_interval retry)) is_some
        (observe is_visible)

  confirmed_or : Option Registry → Result (Unit {0}) → Eff Call World Registry
  confirmed_or (some registry) sent = pure registry
  confirmed_or none sent = fail unverified_publication

  identity_shows : VerifiedRelease → Registry → Result Bool
  identity_shows release registry = elim (npm_identity release registry) [
    | ok identity ↦ ok (is_match identity)
    | err e ↦ err e
  ]

  pub upload_and_confirm : VerifiedRelease → Eff Call World Registry
  unfolding confirmed_or identity_shows
  upload_and_confirm release = do
    sent ← attempt (call (npm_publish release.archive) (deps.npm_publish release.archive))
    confirmed ← confirm_registry (identity_shows release)
    confirmed_or confirmed sent

  visible_or : Text → Option Registry → Eff Call World (Unit {0})
  visible_or tag (some registry) = pure tt
  visible_or tag none = fail (tag_update_not_visible tag)

  pub promote_and_confirm : VerifiedRelease → Eff Call World (Unit {0})
  unfolding visible_or tag_shows
  promote_and_confirm release = do
    let tag = dist_tag_for release.channel
    call (npm_promote release.version tag) (deps.npm_promote release.version tag)
    confirmed ← confirm_registry (λ registry. ok (tag_shows tag release.version registry))
    visible_or tag confirmed

  promote_planned : VerifiedRelease → PublicationPlan → Eff Call World (Unit {0})
  unfolding promote_and_confirm
  promote_planned release superseded = pure tt
  promote_planned release (publish upload promote) =
      if promote then promote_and_confirm release else pure tt

  finish_planned : VerifiedRelease → Registry → PublicationPlan → Eff Call World PublicationResult
  unfolding upload_and_confirm promote_planned
  finish_planned release registry superseded = pure was_superseded
  finish_planned release registry (publish upload promote) = do
    confirmed ← (if upload then upload_and_confirm release else pure registry)
    confirmed_plan ← lift (plan_publication deps.ancestry release confirmed)
    promote_planned release confirmed_plan
    pure was_published

  unfoldable pub publish_verified_release : VerifiedRelease → Eff Call World PublicationResult
  unfolding finish_planned read
  publish_verified_release release = do
    registry ← read
    intended ← lift (plan_publication deps.ancestry release registry)
    finish_planned release registry intended
