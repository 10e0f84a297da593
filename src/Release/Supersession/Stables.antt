-- ===== src/Release/Supersession/Stables.antt =====
-- `highestStableVersion` finds the highest stable version that npm lists, and never throws.
use internal.Prelude.{
  ◌≡◌, refl, ◌∙◌, Ordering, true, false, Option, none, some, List, [], ◌∷◌, ◌⊎◌, inl, inr, is_gt,
  is_ge, Bool-cases, Text, keys, All, All-at, Memᴰ, ok, arith,
}
use internal.Release.Version.{is_stable_release_version, compare_stable_versions}
use internal.Release.Version.Order.{
  stable_order, compare_stable_versions-eq, stable_order_refl, stable_order_trans,
  stable_order-flip, flip,
}
use internal.Release.Npm.{Registry}
use internal.Release.Supersession.{raise_highest, highest_from, highest_stable_version}

-- The version is no stable one, or is at most the highest so far.
abbrev pub IsCovered : Option Text → Text → Type 0
IsCovered none v = is_stable_release_version v ≡ false
IsCovered (some t) v = (is_stable_release_version v ≡ false) ⊎ (is_ge (stable_order t v) ≡ true)

abbrev pub IsStableOrNone : Option Text → Type 0
IsStableOrNone none = Unit
IsStableOrNone (some t) = is_stable_release_version t ≡ true

ge_of_not_gt : (o : Ordering) → is_gt o ≡ false → is_ge (flip o) ≡ true
ge_of_not_gt o h = ground arith

ge_trans :
    (s t u : Text)
    → is_gt (stable_order s t) ≡ true
    → is_ge (stable_order t u) ≡ true
    → is_ge (stable_order s u) ≡ true
ge_trans s t u h k = ground (arith, stable_order_trans s t u h k)

-- What one round makes of the highest version.
record Raised (h : Option Text) (v : Text) (h' : Option Text) : Type 0 where
  result : raise_highest h v ≡ ok h'
  stable : IsStableOrNone h'
  covered : IsCovered h' v
  keeps : (x : Text) → IsCovered h x → IsCovered h' x
  source : (h' ≡ h) ⊎ (h' ≡ some v)

raise_none : (v : Text) → (h' : Option Text) × Raised none v h'
unfolding raise_highest
raise_none v = elim (Bool-cases (is_stable_release_version v)) [
  | inl yes_stable ↦ (
    some v,
    record {
      result = rw yes_stable;
      stable = yes_stable;
      covered = inr (rw stable_order_refl);
      keeps = λ x h. inl h;
      source = inr refl;
    },
  )
  | inr unstable ↦ (
    none,
    record {
      result = rw unstable;
      stable = tt;
      covered = unstable;
      keeps = λ x h. h;
      source = inl refl;
    },
  )
]

raise_some :
    (t v : Text) → is_stable_release_version t ≡ true → (h' : Option Text) × Raised (some t) v h'
unfolding raise_highest
raise_some t v stable = elim (Bool-cases (is_stable_release_version v)) [
  | inl yes_stable ↦ elim (Bool-cases (is_gt (stable_order v t))) [
    | inl above ↦ (
      some v,
      record {
        result = rw (yes_stable, compare_stable_versions-eq v t yes_stable stable, above);
        stable = yes_stable;
        covered = inr (rw stable_order_refl);
        keeps = λ x h. raise_covered v t x above h;
        source = inr refl;
      },
    )
    | inr below ↦ (
      some t,
      record {
        result = rw (yes_stable, compare_stable_versions-eq v t yes_stable stable, below);
        stable = stable;
        covered = inr (rw (stable_order-flip v t) (ge_of_not_gt (stable_order v t) below));
        keeps = λ x h. h;
        source = inl refl;
      },
    )
  ]
  | inr unstable ↦ (
    some t,
    record {
      result = rw unstable;
      stable = stable;
      covered = inl unstable;
      keeps = λ x h. h;
      source = inl refl;
    },
  )
]
  where
    raise_covered :
        (v t x : Text)
        → is_gt (stable_order v t) ≡ true
        → IsCovered (some t) x
        → IsCovered (some v) x
    raise_covered v t x above (inl unstable) = inl unstable
    raise_covered v t x above (inr ge) = inr (ge_trans v t x above ge)

raise_lem : (h : Option Text) (v : Text) → IsStableOrNone h → (h' : Option Text) × Raised h v h'
raise_lem none v k = raise_none v
raise_lem (some t) v k = raise_some t v k

-- What the loop returns.
record Highest (h : Option Text) (vs : List Text) (r : Option Text) : Type 0 where
  result : highest_from h vs ≡ ok r
  stable : IsStableOrNone r
  covered : All (IsCovered r) vs
  keeps : (x : Text) → IsCovered h x → IsCovered r x
  source : (r ≡ h) ⊎ ((t : Text) × (r ≡ some t) × Memᴰ t vs)

highest_lem :
    (h : Option Text) (vs : List Text) → IsStableOrNone h → (r : Option Text) × Highest h vs r
unfolding highest_from
highest_lem h [] k =
    (h, record { result = refl; stable = k; covered = tt; keeps = λ x c. c; source = inl refl })
highest_lem h (v ∷ vs) k =
    let (h', step) = raise_lem h v k in
    let (r, rest) = highest_lem h' vs step.stable in
    (
      r,
      record {
        result = rw step.result rest.result;
        stable = rest.stable;
        covered = (rest.keeps v step.covered, rest.covered);
        keeps = λ x c. rest.keeps x (step.keeps x c);
        source = picked h h' r v vs step.source rest.source;
      },
    )
  where
    picked :
        (h h' r : Option Text) (v : Text) (vs : List Text)
        → (h' ≡ h) ⊎ (h' ≡ some v)
        → (r ≡ h') ⊎ ((t : Text) × (r ≡ some t) × Memᴰ t vs)
        → (r ≡ h) ⊎ ((t : Text) × (r ≡ some t) × Memᴰ t (v ∷ vs))
    picked h h' r v vs (inl a) (inl b) = inl (b ∙ a)
    picked h h' r v vs (inr a) (inl b) = inr (v, b ∙ a, Memᴰ.head refl)
    picked h h' r v vs a (inr (t, e, m)) = inr (t, e, Memᴰ.tail m)

-- Whatever the registry lists, the loop returns, and covers every version that is listed.
pub highest_total :
    (registry : Registry)
    → (r : Option Text) × (highest_stable_version registry ≡ ok r)
      × IsStableOrNone r
      × All (IsCovered r) (keys registry.versions)
      × ((r ≡ none) ⊎ ((t : Text) × (r ≡ some t) × Memᴰ t (keys registry.versions)))
unfolding highest_stable_version
highest_total registry =
    let (r, h) = highest_lem none (keys registry.versions) tt in
    (r, h.result, h.stable, h.covered, h.source)

-- Where npm lists a stable version, the result is a listed stable version, and no listed stable
-- version is above it.
pub highest_stable_version_max :
    (registry : Registry) (v : Text)
    → Memᴰ v (keys registry.versions)
    → is_stable_release_version v ≡ true
    → (t : Text) × (o : Ordering) × (highest_stable_version registry ≡ ok (some t))
      × Memᴰ t (keys registry.versions)
      × (is_stable_release_version t ≡ true)
      × (compare_stable_versions t v ≡ ok o)
      × (is_ge o ≡ true)
unfolding highest_stable_version
highest_stable_version_max registry v m stable =
    let (r, h) = highest_lem none (keys registry.versions) tt in
    found r v stable h.result h.stable (All-at (IsCovered r) m h.covered) h.source
  where
    here :
        (t u : Text)
        → ◌≡◌ {A = Option Text} (some t) (some u)
        → Memᴰ u (keys registry.versions)
        → Memᴰ t (keys registry.versions)
    here t u same m = let e : t ≡ u = cc in rw e m

    found :
        (r : Option Text) (v : Text)
        → is_stable_release_version v ≡ true
        → highest_from none (keys registry.versions) ≡ ok r
        → IsStableOrNone r
        → IsCovered r v
        → (r ≡ none) ⊎ ((t : Text) × (r ≡ some t) × Memᴰ t (keys registry.versions))
        → (t : Text) × (o : Ordering) × (highest_from none (keys registry.versions) ≡ ok (some t))
          × Memᴰ t (keys registry.versions)
          × (is_stable_release_version t ≡ true)
          × (compare_stable_versions t v ≡ ok o)
          × (is_ge o ≡ true)
    found none v sv e k c s = absurd (cc)
    found (some t) v sv e k (inl c) s = absurd (cc)
    found (some t) v sv e k (inr c) (inl s) = absurd (cc)
    found (some t) v sv e k (inr c) (inr (u, same, mem)) =
        (t, stable_order t v, e, here t u same mem, k, compare_stable_versions-eq t v k sv, c)
