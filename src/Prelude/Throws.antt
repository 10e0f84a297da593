-- ===== src/Prelude/Throws.antt =====
-- What code that may throw returns: a value, or the error that it threw.
use mathlib.Core.Path.{◌≡◌, refl}
use mathlib.Core.Logic.{◌⊎◌, inl, inr}
use Prim.Native.Nat.{ℕ}
use internal.Prelude.Texts.{Text}

-- The errors of the release engine, a constructor for each message; the arguments are the values
-- that the message shows.
pub data Failure : Type 0 where
  unsupported_version : Text → Failure
  not_canary_version : Text → Failure
  not_stable_version : Text → Failure
  not_commit : Text → Failure
  registry_lookup_failed : ℕ → Failure
  invalid_document : Text → Failure
  conflicting_canary_version : Failure
  diverged_canary_history : Failure
  planned_version_must_advance : Failure
  missing_dist_integrity : Text → Failure
  npm_identity_mismatch : Text → Failure
  unknown_ancestry : Text → Text → Failure
  not_record_tag : Text → Failure
  tag_not_of_intent : Failure
  unsupported_starter_asset : Failure
  unsupported_asset_state : Text → Failure
  empty_uploaded_asset : Failure
  unverified_publication : Failure
  tag_update_not_visible : Text → Failure
  intent_differs : Failure
  duplicate_archives : Failure
  foreign_record_tag : Failure
  tag_not_commit : Failure
  tag_moved : Text → Failure
  damaged_record : Text → Failure → Failure
  foreign_record : Text → Failure
  tag_of_other_commit : Text → Failure
  archive_not_replaced : Failure
  incomplete_preparation : Failure
  unpublished_without_archive : Failure
  pages_left : Failure
  other_checkout : Text → Text → Failure
  not_on_branch : Text → Text → Failure
  unclean_checkout : Failure
  no_prepared_release : Text → Failure
  version_not_increased : Failure
  pending_changesets : Failure
  missing_in_changelog : Failure
  not_from_release_pull : Text → Failure
  not_remote_base : Failure
  multiple_plans : Failure
  no_planned_version : Text → Failure

pub data Result {ℓ} (A : Type ℓ) : Type ℓ where
  ok : A → Result A
  err : Failure → Result A

infixl 5 ◌>>=◌ ◌>>◌
abbrev pub ◌>>=◌ {ℓ κ} : {A : Type ℓ} {B : Type κ} → Result A → (A → Result B) → Result B
ok a >>= f = f a
err e >>= f = err e

abbrev pub ◌>>◌ {ℓ κ} : {A : Type ℓ} {B : Type κ} → Result A → Result B → Result B
m >> k = m >>= λ _. k

pub Result-cases {ℓ} :
    {A : Type ℓ} (r : Result A) → ((a : A) × (r ≡ ok a)) ⊎ ((e : Failure) × (r ≡ err e))
Result-cases (ok a) = inl (a, refl)
Result-cases (err e) = inr (e, refl)
