-- ===== src/Extractor/Filters.antt =====
-- Lemmas on `filter` and on tests that the passes over lists share.
use internal.Prelude.{
  Bool, true, false, ◌&&◌, not, List, [], ◌∷◌, ◌++◌, ◌≡◌, refl, ◌∙◌, filter, All, arith,
  if◌then◌else◌, Bool-cases, inl, inr,
}

-- Both parts of a conjunction.
pub both : (a b : Bool) → (a && b) ≡ true → (a ≡ true) × (b ≡ true)
both true true h = (refl, refl)
both true false h = absurd (cc)
both false b h = absurd (cc)

module _ {ℓ} {A : Type ℓ} where
  pub filter-append :
      (p : A → Bool) (xs ys : List A) → filter p (xs ++ ys) ≡ filter p xs ++ filter p ys
  filter-append p [] ys = refl
  filter-append p (x ∷ xs) ys = ground (arith, filter-append p xs ys)

  -- Two filters are one.
  pub filter-filter :
      (p q : A → Bool) (xs : List A) → filter p (filter q xs) ≡ filter (λ x. q x && p x) xs
  filter-filter p q [] = refl
  filter-filter p q (x ∷ xs) = ground (arith, filter-filter p q xs)

  pub filter_ext :
      (p q : A → Bool) → ((x : A) → p x ≡ q x) → (xs : List A) → filter p xs ≡ filter q xs
  filter_ext p q h [] = refl
  filter_ext p q h (x ∷ xs) = ground (arith, h x, filter_ext p q h xs)

  pub filter_all : (p : A → Bool) (xs : List A) → All (λ x. p x ≡ true) xs → filter p xs ≡ xs
  filter_all p [] h = refl
  filter_all p (x ∷ xs) (px, h) = ground (arith, filter_all p xs h)

  pub filter_never : (xs : List A) → filter (λ x. false) xs ≡ []
  filter_never [] = refl
  filter_never (x ∷ xs) = filter_never xs

  -- A filter after one that is narrower, wider or apart.
  pub filter_narrower :
      (p q : A → Bool)
      → ((x : A) → q x ≡ true → p x ≡ true)
      → (xs : List A) → filter p (filter q xs) ≡ filter q xs
  filter_narrower p q h xs = filter-filter p q xs ∙ filter_ext _ q (λ x. ground (arith, h x)) xs

  pub filter_wider :
      (p q : A → Bool)
      → ((x : A) → p x ≡ true → q x ≡ true)
      → (xs : List A) → filter p (filter q xs) ≡ filter p xs
  filter_wider p q h xs = filter-filter p q xs ∙ filter_ext _ p (λ x. ground (arith, h x)) xs

  pub filter_apart :
      (p q : A → Bool)
      → ((x : A) → q x ≡ true → p x ≡ false)
      → (xs : List A) → filter p (filter q xs) ≡ []
  filter_apart p q h xs =
      filter-filter p q xs
      ∙ (filter_ext _ (λ x. false) (λ x. ground (arith, h x)) xs ∙ filter_never xs)

  All-kept {κ} :
      (P : A → Type κ) (b : Bool) (x : A) (xs : List A)
      → (b ≡ true → P x)
      → All P xs
      → All P (if b then x ∷ xs else xs)
  All-kept P true x xs h hs = (h refl, hs)
  All-kept P false x xs h hs = hs

  -- What a filter keeps passes it, and keeps what all had.
  pub filter-passes : (p : A → Bool) (xs : List A) → All (λ x. p x ≡ true) (filter p xs)
  filter-passes p [] = tt
  filter-passes p (x ∷ xs) =
      All-kept (λ x. p x ≡ true) (p x) x (filter p xs) (λ h. h) (filter-passes p xs)

  pub filter-All {κ} :
      (P : A → Type κ) (p : A → Bool) (xs : List A) → All P xs → All P (filter p xs)
  filter-All P p [] h = tt
  filter-All P p (x ∷ xs) (h, hs) = All-kept P (p x) x (filter p xs) (λ _. h) (filter-All P p xs hs)

  pub filter-not-passes :
      (p : A → Bool) (xs : List A) → All (λ x. p x ≡ false) (filter (λ x. not (p x)) xs)
  filter-not-passes p [] = tt
  filter-not-passes p (x ∷ xs) =
      All-kept (λ x. p x ≡ false) (not (p x)) x _ (λ h. ground arith) (filter-not-passes p xs)

  pub filter-not-empty :
      (p : A → Bool) (xs : List A) → [] ≡ filter (λ x. not (p x)) xs → All (λ x. p x ≡ true) xs
  filter-not-empty p [] h = tt
  filter-not-empty p (x ∷ xs) h = elim (Bool-cases (p x)) [
    | inl passes ↦ (passes, filter-not-empty p xs (ground arith))
    | inr fails ↦ absurd (ground arith)
  ]
