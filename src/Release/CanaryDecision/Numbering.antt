-- ===== src/Release/CanaryDecision/Numbering.antt =====
-- `nextCanaryVersion`: the counter that the loop reaches.
use internal.Prelude.{
  ℕ, suc, ◌+◌, ◌≤◌, ◌<◌, ◌≡◌, ◌≢◌, refl, ap, ◌∙◌, Ordering, true, false, ◌&&◌, Option, none, some,
  List, [], ◌∷◌, ◌⊎◌, inl, inr, Bool-cases, leb, is_gt, Text, ◌===◌, ===_iff, All, Memᴰ, ok, arith,
}
use internal.Release.Version.{
  ParsedCanaryVersion, is_stable_release_version, is_canary_release_version, parse_canary_version,
  compare_stable_versions,
}
use internal.Release.Version.Order.{stable_order, compare_stable_versions-eq}
use internal.Release.Version.Canary.{parse_canary_of_is_canary}
use internal.Release.CanaryDecision.{raise_next, next_from}

-- A canary whose base is not above `base`, and whose counter is below `n` if the bases agree.
abbrev pub IsPassed : Text → ℕ → Text → Type 0
IsPassed base n v =
    (is_canary_release_version v ≡ false)
    ⊎ ((w : ParsedCanaryVersion) × (parse_canary_version v ≡ ok w)
        × (is_stable_release_version w.base ≡ true)
        × (is_gt (stable_order w.base base) ≡ false)
        × ((w.base ≢ base) ⊎ (w.n < n)))

IsPassed-mono : (base v : Text) (m n : ℕ) → m ≤ n → IsPassed base m v → IsPassed base n v
IsPassed-mono base v m n le (inl other) = inl other
IsPassed-mono base v m n le (inr (w, parsed, stable, below, inl ne)) =
    inr (w, parsed, stable, below, inl ne)
IsPassed-mono base v m n le (inr (w, parsed, stable, below, inr lt)) =
    inr (w, parsed, stable, below, inr (omega arith))

-- Some listed canary has the counter just below `n`.
abbrev pub IsSuccessor : Text → ℕ → List Text → Type 0
IsSuccessor base n vs =
    (m : ℕ) × (t : Text) × (n ≡ suc m)
    × Memᴰ t vs
    × (parse_canary_version t ≡ ok (record { base = base; n = m }))

-- One round: the counter grows, the version is passed, and a change comes from the version.
record Round (base : Text) (next : ℕ) (v : Text) (next' : ℕ) : Type 0 where
  grows : next ≤ next'
  passed : IsPassed base next' v
  source : (next' ≡ next) ⊎ IsSuccessor base next' (v ∷ [])

-- The early return: a canary on a higher base.
abbrev pub IsNewerBase : Text → Text → Type 0
IsNewerBase base t =
    (w : ParsedCanaryVersion) × (parse_canary_version t ≡ ok w)
    × (compare_stable_versions w.base base ≡ ok Ordering.gt)

module _ (base : Text) where
  abbrev Rounded : ℕ → Text → Option ℕ → Type 0
  Rounded next v none = IsNewerBase base v
  Rounded next v (some next') = Round base next v next'

  -- What the loop returns.
  pub record Numbered (next : ℕ) (vs : List Text) (n : ℕ) : Type 0 where
    pub grows : next ≤ n
    pub passed : All (IsPassed base n) vs
    pub source : (n ≡ next) ⊎ IsSuccessor base n vs

  abbrev pub HasNewerBase : List Text → Type 0
  HasNewerBase vs = (t : Text) × Memᴰ t vs × IsNewerBase base t

  abbrev pub Reached : ℕ → List Text → Option ℕ → Type 0
  Reached next vs none = HasNewerBase vs
  Reached next vs (some n) = Numbered next vs n

module _ (base : Text) (stable : is_stable_release_version base ≡ true) where
  gt_of_is_gt : (o : Ordering) → is_gt o ≡ true → o ≡ Ordering.gt
  gt_of_is_gt o h = ground arith

  same_parts :
      (v : Text) (w : ParsedCanaryVersion)
      → parse_canary_version v ≡ ok w
      → w.base ≡ base
      → parse_canary_version v ≡ ok (record { base = base; n = w.n })
  same_parts v w parsed e = parsed ∙ ap (λ (b : Text). ok (record { base = b; n = w.n })) e

  raise_next-Round :
      (next : ℕ) (v : Text)
      → (r : Option ℕ) × (raise_next base next v ≡ ok r) × Rounded base next v r
  unfolding raise_next
  raise_next-Round next v = elim (Bool-cases (is_canary_release_version v)) [
    | inr other ↦
        (some next, rw other, record { grows = omega arith; passed = inl other; source = inl refl })
    | inl canary ↦
        let (w, parsed, _, base_stable) = parse_canary_of_is_canary v canary in
        let compared = compare_stable_versions-eq w.base base base_stable stable in
        elim (Bool-cases (is_gt (stable_order w.base base))) [
          | inl above ↦ (
            none,
            rw (canary, parsed, compared, above),
            (w, parsed, compared ∙ ap ok (gt_of_is_gt (stable_order w.base base) above)),
          )
          | inr below ↦ elim (Bool-cases ((w.base === base) && leb next w.n)) [
            | inl taken ↦
                let same : w.base ≡ base = ground (arith, ===_iff w.base base) in
                (
                  some (w.n + 1),
                  rw (canary, parsed, compared, below, taken),
                  record {
                    grows = ground arith;
                    passed = inr (w, parsed, base_stable, below, inr (omega arith));
                    source = inr (w.n, v, omega arith, Memᴰ.head refl, same_parts v w parsed same);
                  },
                )
            | inr free ↦ (
              some next,
              rw (canary, parsed, compared, below, free),
              record {
                grows = omega arith;
                passed = inr (w, parsed, base_stable, below, smaller w.base next w.n free);
                source = inl refl;
              },
            )
          ]
        ]
  ]
    where
      smaller :
          (b : Text) (next n : ℕ) → ((b === base) && leb next n) ≡ false → (b ≢ base) ⊎ (n < next)
      smaller b next n free = elim (Bool-cases (b === base)) [
        | inl same ↦ inr (ground arith)
        | inr other ↦ inl (λ e. ground (arith, ===_iff b base))
      ]

  Reached-cons :
      (next next' : ℕ) (v : Text) (vs : List Text) (r : Option ℕ)
      → Round base next v next'
      → Reached base next' vs r
      → Reached base next (v ∷ vs) r
  Reached-cons next next' v vs none round (t, m, newer) = (t, Memᴰ.tail m, newer)
  Reached-cons next next' v vs (some n) round rest =
      let le = round.grows in
      let le' = rest.grows in
      record {
        grows = omega arith;
        passed = (IsPassed-mono base v next' n rest.grows round.passed, rest.passed);
        source = picked round.source rest.source;
      }
    where
      picked :
          (next' ≡ next) ⊎ IsSuccessor base next' (v ∷ [])
          → (n ≡ next') ⊎ IsSuccessor base n vs
          → (n ≡ next) ⊎ IsSuccessor base n (v ∷ vs)
      picked a (inr (m, t, e, mem, parsed)) = inr (m, t, e, Memᴰ.tail mem, parsed)
      picked (inl a) (inl b) = inl (b ∙ a)
      picked (inr (m, t, e, Memᴰ.head same, parsed)) (inl b) =
          inr (m, t, b ∙ e, Memᴰ.head same, parsed)
      picked (inr (m, t, e, Memᴰ.tail mem, parsed)) (inl b) = absurd (elim mem [ ])

  -- The loop always returns.
  pub next_from-Reached :
      (next : ℕ) (vs : List Text)
      → (r : Option ℕ) × (next_from base next vs ≡ ok r) × Reached base next vs r
  unfolding next_from
  next_from-Reached next [] =
      (some next, refl, record { grows = omega arith; passed = tt; source = inl refl })
  next_from-Reached next (v ∷ vs) =
      continue (λ next'. next_from-Reached next' vs) (raise_next-Round next v)
    where
      continue :
          ((next' : ℕ)
            → (r : Option ℕ) × (next_from base next' vs ≡ ok r) × Reached base next' vs r)
          → (r : Option ℕ) × (raise_next base next v ≡ ok r) × Rounded base next v r
          → (r : Option ℕ) × (next_from base next (v ∷ vs) ≡ ok r) × Reached base next (v ∷ vs) r
      continue later (none, e, newer) = (none, rw e, (v, Memᴰ.head refl, newer))
      continue later (some next', e, round) =
          let (r, e', rest) = later next' in (r, rw e e', Reached-cons next next' v vs r round rest)
