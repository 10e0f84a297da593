-- ===== src/Extractor/Matching/InTurn.antt =====
-- The matching of each left index with the right index that is the same number.
use internal.Prelude.{
  ℕ, zero, suc, ◌+◌, ◌≤◌, ◌<◌, ◌≡◌, refl, ap, Option, none, some, List, [], ◌∷◌, length, ◌==◌,
  arith, Bool-cases, inl, inr,
}
use internal.Extractor.Matching.Cells.{cell}
use internal.Extractor.Matching.Counting.{times}

-- The left indices from `k` on.
abbrev pub in_turn : ℕ → ℕ → List (Option ℕ)
in_turn zero k = []
in_turn (suc n) k = some k ∷ in_turn n (suc k)

pub length-in_turn : (n k : ℕ) → length (in_turn n k) ≡ n
length-in_turn zero k = refl
length-in_turn (suc n) k = ap suc (length-in_turn n (suc k))

pub cell-in_turn : (n k r l : ℕ) → cell (in_turn n k) r none ≡ some l → (l ≡ k + r) × (r < n)
cell-in_turn zero k r l h = absurd (cc)
cell-in_turn (suc n) k zero l h = (same h, omega arith)
  where
    same : ◌≡◌ {A = Option ℕ} (some k) (some l) → l ≡ k + 0
    same h = let e : k ≡ l = cc in omega arith
cell-in_turn (suc n) k (suc r) l h =
    let (e, below) = cell-in_turn n (suc k) r l h in (omega arith, omega arith)

times_before : (n k x : ℕ) → x < k → times x (in_turn n k) ≡ 0
times_before zero k x h = refl
times_before (suc n) k x h = ground (arith, times_before n (suc k) x (omega arith))

pub times-in_turn : (n k x : ℕ) → k ≤ x → x < k + n → times x (in_turn n k) ≡ 1
times-in_turn zero k x h below = absurd (omega arith)
times-in_turn (suc n) k x h below = elim (Bool-cases (x == k)) [
  | inl same ↦ ground (arith, times_before n (suc k) x (ground arith))
  | inr other ↦ ground (arith, times-in_turn n (suc k) x (ground arith) (omega arith))
]
