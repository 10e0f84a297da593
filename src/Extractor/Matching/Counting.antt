-- ===== src/Extractor/Matching/Counting.antt =====
-- How often a left index is matched, and how many right indices are not visited.
use internal.Prelude.{
  ℕ, zero, suc, ◌+◌, ◌<◌, ◌≡◌, refl, Bool, true, false, Option, none, some, List, [], ◌∷◌, length,
  ◌==◌, if◌then◌else◌, arith,
}
use internal.Extractor.Matching.Cells.{cell, put, fill}

-- 1 if the entry is the left index `x`.
abbrev pub holds : ℕ → Option ℕ → ℕ
holds x none = 0
holds x (some y) = if x == y then 1 else 0

-- The number of entries that are the left index `x`.
abbrev pub times : ℕ → List (Option ℕ) → ℕ
times x [] = 0
times x (o ∷ os) = holds x o + times x os

abbrev pub unmarked : Bool → ℕ
unmarked true = 0
unmarked false = 1

abbrev pub unvisited : List Bool → ℕ
unvisited [] = 0
unvisited (b ∷ bs) = unmarked b + unvisited bs

pub times-put :
    (x : ℕ) (m : List (Option ℕ)) (r : ℕ) (o : Option ℕ)
    → r < length m
    → times x (put m r o) + holds x (cell m r none) ≡ times x m + holds x o
times-put x [] r o h = absurd (omega arith)
times-put x (y ∷ m) zero o h = omega arith
times-put x (y ∷ m) (suc r) o h = omega (arith, times-put x m r o (omega arith))

pub times-fill : (x n : ℕ) → times x (fill n none) ≡ 0
times-fill x zero = refl
times-fill x (suc n) = omega (arith, times-fill x n)

pub unvisited-fill : (n : ℕ) → unvisited (fill n false) ≡ n
unvisited-fill zero = refl
unvisited-fill (suc n) = omega (arith, unvisited-fill n)

pub unvisited-put :
    (v : List Bool) (r : ℕ)
    → r < length v
    → cell v r false ≡ false
    → unvisited (put v r true) + 1 ≡ unvisited v
unvisited-put [] r h e = absurd (omega arith)
unvisited-put (b ∷ v) zero h e = ground arith
unvisited-put (b ∷ v) (suc r) h e = omega (arith, unvisited-put v r (omega arith) e)

pub times-at : (m : List (Option ℕ)) (r x : ℕ) → cell m r none ≡ some x → 0 < times x m
times-at [] r x h = absurd (cc)
times-at (o ∷ m) zero x h = ground arith
times-at (o ∷ m) (suc r) x h = omega (arith, times-at m r x h)
