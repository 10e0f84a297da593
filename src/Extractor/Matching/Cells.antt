-- ===== src/Extractor/Matching/Cells.antt =====
-- Arrays as lists: reading with a default, writing, and `new Array(n).fill(a)`.
use internal.Prelude.{
  ℕ, zero, suc, ◌<◌, ◌≡◌, ◌≢◌, refl, ap, Option, none, some, List, [], ◌∷◌, length, arith,
}

module _ {ℓ} {A : Type ℓ} where
  abbrev pub cell : List A → ℕ → A → A
  cell [] i d = d
  cell (x ∷ xs) zero d = x
  cell (x ∷ xs) (suc i) d = cell xs i d

  abbrev pub put : List A → ℕ → A → List A
  put [] i v = []
  put (x ∷ xs) zero v = v ∷ xs
  put (x ∷ xs) (suc i) v = x ∷ put xs i v

  abbrev pub fill : ℕ → A → List A
  fill zero v = []
  fill (suc n) v = v ∷ fill n v

  pub length-put : (xs : List A) (i : ℕ) (v : A) → length (put xs i v) ≡ length xs
  length-put [] i v = refl
  length-put (x ∷ xs) zero v = refl
  length-put (x ∷ xs) (suc i) v = ap suc (length-put xs i v)

  pub length-fill : (n : ℕ) (v : A) → length (fill n v) ≡ n
  length-fill zero v = refl
  length-fill (suc n) v = ap suc (length-fill n v)

  pub cell-fill : (n i : ℕ) (v : A) → cell (fill n v) i v ≡ v
  cell-fill zero i v = refl
  cell-fill (suc n) zero v = refl
  cell-fill (suc n) (suc i) v = cell-fill n i v

  pub cell-put : (xs : List A) (i : ℕ) (v d : A) → i < length xs → cell (put xs i v) i d ≡ v
  cell-put [] i v d h = absurd (omega arith)
  cell-put (x ∷ xs) zero v d h = refl
  cell-put (x ∷ xs) (suc i) v d h = cell-put xs i v d (omega arith)

  pub cell-put_other :
      (xs : List A) (i j : ℕ) (v d : A) → i ≢ j → cell (put xs i v) j d ≡ cell xs j d
  cell-put_other [] i j v d h = refl
  cell-put_other (x ∷ xs) zero zero v d h = absurd (h refl)
  cell-put_other (x ∷ xs) zero (suc j) v d h = refl
  cell-put_other (x ∷ xs) (suc i) zero v d h = refl
  cell-put_other (x ∷ xs) (suc i) (suc j) v d h = cell-put_other xs i j v d (λ e. h (ap suc e))

  -- Writing a value keeps the cells that have it.
  pub cell-put_same :
      (xs : List A) (i j : ℕ) (v d : A) → cell xs j d ≡ v → cell (put xs i v) j d ≡ v
  cell-put_same [] i j v d h = h
  cell-put_same (x ∷ xs) zero zero v d h = refl
  cell-put_same (x ∷ xs) zero (suc j) v d h = h
  cell-put_same (x ∷ xs) (suc i) zero v d h = h
  cell-put_same (x ∷ xs) (suc i) (suc j) v d h = cell-put_same xs i j v d h

  -- The entry at an index, if there is one.
  unfoldable pub entry : List A → ℕ → Option A
  entry [] i = none
  entry (x ∷ xs) zero = some x
  entry (x ∷ xs) (suc i) = entry xs i

  pub entry-within : (xs : List A) (i : ℕ) (x : A) → entry xs i ≡ some x → i < length xs
  unfolding entry
  entry-within [] i x h = absurd (cc)
  entry-within (y ∷ xs) zero x h = omega arith
  entry-within (y ∷ xs) (suc i) x h = omega (arith, entry-within xs i x h)
