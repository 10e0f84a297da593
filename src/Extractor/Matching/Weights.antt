-- ===== src/Extractor/Matching/Weights.antt =====
-- The number of matches of chosen left indices, counted over the right and over the left indices.
use internal.Prelude.{
  ℕ, zero, suc, ◌+◌, ◌≤◌, ◌<◌, ◌≡◌, refl, Bool, true, false, Option, none, some, List, [], ◌∷◌,
  length, ◌==◌, ltb, if◌then◌else◌, arith, ==_iff, Bool-cases, inl, inr, subst,
}
use internal.Extractor.Matching.Cells.{cell}
use internal.Extractor.Matching.Counting.{holds, times}

-- The number of entries that are true.
abbrev pub count_true : List Bool → ℕ
count_true [] = 0
count_true (b ∷ bs) = (if b then 1 else 0) + count_true bs

module _ (w : ℕ → Bool) where
  abbrev pub share : Option ℕ → ℕ
  share none = 0
  share (some y) = if w y then 1 else 0

  -- The number of right indices that are matched with a chosen left index.
  abbrev pub weight : List (Option ℕ) → ℕ
  weight [] = 0
  weight (o ∷ os) = share o + weight os

  -- The sum of the values of the chosen left indices below `n`.
  abbrev pub sums : ℕ → (ℕ → ℕ) → ℕ
  sums zero f = 0
  sums (suc n) f = (if w n then f n else 0) + sums n f

  sums-add : (n : ℕ) (f g : ℕ → ℕ) → sums n (λ l. f l + g l) ≡ sums n f + sums n g
  sums-add zero f g = omega arith
  sums-add (suc n) f g = ground (arith, sums-add n f g)

  sums_zero : (n : ℕ) → sums n (λ l. 0) ≡ 0
  sums_zero zero = refl
  sums_zero (suc n) = ground (arith, sums_zero n)

  sums-holds : (n y : ℕ) → sums n (λ l. holds l (some y)) ≡ (if ltb y n then share (some y) else 0)
  sums-holds zero y = ground arith
  sums-holds (suc n) y = ground (arith, sums-holds n y)

  pub sums_le : (n : ℕ) (f g : ℕ → ℕ) → ((l : ℕ) → l < n → f l ≤ g l) → sums n f ≤ sums n g
  sums_le zero f g h = omega arith
  sums_le (suc n) f g h =
      ground (arith, h n (omega arith), sums_le n f g (λ l k. h l (omega arith)))

  pub sums_lt :
      (n i : ℕ) (f g : ℕ → ℕ)
      → ((l : ℕ) → l < n → f l ≤ g l)
      → i < n
      → w i ≡ true
      → f i < g i
      → sums n f < sums n g
  sums_lt zero i f g h k chosen less = absurd (omega arith)
  sums_lt (suc n) i f g h k chosen less = elim (Bool-cases (i == n)) [
    | inl same ↦ ground (
      arith,
      ==_iff i n,
      subst (λ x. w x ≡ true) ((==_iff i n).0 same) chosen,
      subst (λ x. f x < g x) ((==_iff i n).0 same) less,
      sums_le n f g (λ l j. h l (omega arith)),
    )
    | inr other ↦ ground (
      arith,
      h n (omega arith),
      sums_lt n i f g (λ l j. h l (omega arith)) (ground arith) chosen less,
    )
  ]

  -- Counted over the left indices below `n`, there are at most as many as over the right indices.
  pub sums-times_le : (n : ℕ) (m : List (Option ℕ)) → sums n (λ l. times l m) ≤ weight m
  sums-times_le n [] = omega (arith, sums_zero n)
  sums-times_le n (none ∷ os) =
      ground
        (arith, sums-times_le n os, sums_zero n, sums-add n (λ l. holds l none) (λ l. times l os))
  sums-times_le n (some y ∷ os) = ground (
    arith,
    sums-times_le n os,
    sums-holds n y,
    sums-add n (λ l. holds l (some y)) (λ l. times l os),
  )

  -- And as many if no left index from `n` on is matched.
  pub weight_le :
      (n : ℕ) (m : List (Option ℕ))
      → ((y : ℕ) → 0 < times y m → y < n)
      → weight m ≤ sums n (λ l. times l m)
  weight_le n [] h = omega arith
  weight_le n (none ∷ os) h = ground (
    arith,
    weight_le n os (λ y k. h y (omega arith)),
    sums_zero n,
    sums-add n (λ l. holds l none) (λ l. times l os),
  )
  weight_le n (some y ∷ os) h = ground (
    arith,
    weight_le n os (λ x k. h x (ground arith)),
    sums-holds n y,
    h y (ground arith),
    sums-add n (λ l. holds l (some y)) (λ l. times l os),
  )

  pub weight_le-count_true :
      (m : List (Option ℕ)) (v : List Bool)
      → length m ≡ length v
      → ((r l : ℕ) → cell m r none ≡ some l → w l ≡ true → cell v r false ≡ true)
      → weight m ≤ count_true v
  weight_le-count_true [] [] e h = omega arith
  weight_le-count_true [] (b ∷ v) e h = absurd (omega arith)
  weight_le-count_true (o ∷ m) [] e h = absurd (omega arith)
  weight_le-count_true (none ∷ m) (b ∷ v) e h =
      omega (arith, weight_le-count_true m v (omega arith) (λ r. h (suc r)))
  weight_le-count_true (some l ∷ m) (b ∷ v) e h =
      ground (arith, weight_le-count_true m v (omega arith) (λ r. h (suc r)), h 0 l refl)

  pub count_true_le-weight :
      (v : List Bool) (m : List (Option ℕ))
      → length v ≡ length m
      → ((r : ℕ) → cell v r false ≡ true → (l : ℕ) × (cell m r none ≡ some l) × (w l ≡ true))
      → count_true v ≤ weight m
  count_true_le-weight [] m e h = omega arith
  count_true_le-weight (b ∷ v) [] e h = absurd (omega arith)
  count_true_le-weight (false ∷ v) (o ∷ m) e h =
      omega (arith, count_true_le-weight v m (omega arith) (λ r. h (suc r)))
  count_true_le-weight (true ∷ v) (o ∷ m) e h =
      let (l, own, chosen) = h 0 refl in
      ground (arith, count_true_le-weight v m (omega arith) (λ r. h (suc r)))
