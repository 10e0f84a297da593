-- ===== src/Extractor/Matching/Augmenting.antt =====
-- `augment`: with fuel for the right indices that are not visited it returns, a success matches one
-- more left index, and a failure has visited all that it could reach.
pub mod Steps
use internal.Prelude.{
  ℕ, zero, suc, ◌+◌, ◌≤◌, ◌<◌, ◌≡◌, ◌≢◌, refl, sym, ap, ◌∙◌, subst, Bool, true, false, Option, none,
  some, List, [], ◌∷◌, ◌⊎◌, inl, inr, All, All-at, Memᴰ, length, ◌==◌, ==_iff, if◌then◌else◌,
  Bool-cases, Option-cases, arith,
}
use internal.Extractor.Matching.{Search, mark, assign, after_owner, try_owner, try_rights, augment}
use internal.Extractor.Matching.Cells.{cell, put, length-put, cell-put, cell-put_other}
use internal.Extractor.Matching.Counting.{holds, times, unvisited, times-put, unvisited-put}
use internal.Extractor.Matching.Augmenting.Steps.{
  InRange, IsSound, Exhausted, Searched, Seen, IsSound-mark, unvisited-mark, search_nothing,
  search_free, search_owned, search_after, IsVisited, marked,
}

All-of : (P : ℕ → Type 0) (xs : List ℕ) → ((x : ℕ) → Memᴰ x xs → P x) → All P xs
All-of P [] h = tt
All-of P (x ∷ xs) h = (h x (Memᴰ.head refl), All-of P xs (λ y m. h y (Memᴰ.tail m)))

module _ (adjacency : List (List ℕ)) (size : ℕ) (in_range : InRange adjacency size) where
  abbrev pub Returns : Option (Bool × Search) → ℕ → List ℕ → Search → Type 0
  Returns o left rights s =
      (found : Bool) × (s' : Search) × (o ≡ some (found, s'))
      × Searched adjacency size left s found s'
      × Seen rights found s'

  -- A call returns with fuel for the right indices that are not visited.
  abbrev pub IsEnough : (ℕ → Search → Option (Bool × Search)) → ℕ → Type 0
  IsEnough deeper fuel =
      (left : ℕ) (s : Search)
      → IsSound adjacency size s
      → unvisited s.visited < fuel
      → Returns (deeper left s) left (cell adjacency left []) s

  Seen-cons :
      (r : ℕ) (rest : List ℕ) (found : Bool) (s : Search)
      → IsVisited s r
      → Seen rest found s
      → Seen (r ∷ rest) found s
  Seen-cons r rest true s h seen = tt
  Seen-cons r rest false s h seen = (h, seen)

  module _ (deeper : ℕ → Search → Option (Bool × Search)) (fuel : ℕ) (enough : IsEnough deeper fuel)
      (left : ℕ) where
    abbrev LoopReturns : List ℕ → Type 0
    LoopReturns rights =
        (s : Search)
        → All (λ r. Memᴰ r (cell adjacency left [])) rights
        → IsSound adjacency size s
        → unvisited s.visited ≤ fuel
        → Returns (try_rights deeper left rights s) left rights s

    -- A right index that is not visited, once its owner was searched.
    owner-Returns :
        (r o : ℕ) (rest : List ℕ) (s : Search) (found : Bool) (s' : Search)
        → LoopReturns rest
        → Memᴰ r (cell adjacency left [])
        → All (λ r. Memᴰ r (cell adjacency left [])) rest
        → IsSound adjacency size s
        → unvisited s.visited ≤ fuel
        → cell s.visited r false ≡ false
        → cell s.matched r none ≡ some o
        → Searched adjacency size o (mark r s) found s'
        → Seen (cell adjacency o []) found s'
        → Returns
            (after_owner left r (try_rights deeper left rest) (some (found, s')))
            left
            (r ∷ rest)
            s
    unfolding after_owner
    owner-Returns r o rest s true s' loop edge edges sound h fresh owned searched seen = (
      true,
      assign left r s',
      refl,
      search_owned adjacency size left r o s s' sound edge (in_range left r edge) fresh owned
          searched,
      tt,
    )
    owner-Returns r o rest s false s' loop edge edges sound h fresh owned searched exhausted =
        let below = in_range left r edge in
        let (found, last, e, later, seen) =
          loop s' edges searched.sound
            (omega (arith, searched.fewer, unvisited-mark adjacency size r s sound below fresh)) in
        (
          found,
          last,
          e,
          search_after adjacency size left r o s s' last found sound below fresh owned searched
              exhausted later,
          Seen-cons r rest found last
              (later.grows r (searched.grows r (marked adjacency size r s sound below))) seen,
        )

    try_owner-Returns :
        (r : ℕ) (rest : List ℕ) (s : Search)
        → LoopReturns rest
        → Memᴰ r (cell adjacency left [])
        → All (λ r. Memᴰ r (cell adjacency left [])) rest
        → IsSound adjacency size s
        → unvisited s.visited ≤ fuel
        → cell s.visited r false ≡ false
        → Returns
            (try_owner deeper left r
              (cell s.matched r none)
              (try_rights deeper left rest)
              (mark r s))
            left
            (r ∷ rest)
            s
    unfolding try_owner
    try_owner-Returns r rest s loop edge edges sound h fresh =
        let below = in_range left r edge in
        elim (Option-cases (cell s.matched r none)) [
          | inl free ↦ rw free (
            true,
            assign left r (mark r s),
            refl,
            search_free adjacency size left r s sound edge below fresh free,
            tt,
          )
          | inr (o, owned) ↦
              let (found, s', e, searched, seen) =
                enough o (mark r s) (IsSound-mark adjacency size r s sound)
                  (omega (arith, unvisited-mark adjacency size r s sound below fresh)) in
              rw (owned, e)
                (owner-Returns r o rest s found s' loop edge edges sound h fresh owned searched
                  seen)
        ]

    try_rights-Returns : (rights : List ℕ) → LoopReturns rights
    unfolding try_rights
    try_rights-Returns [] s edges sound h =
        (false, s, refl, search_nothing adjacency size left s sound, tt)
    try_rights-Returns (r ∷ rest) s (edge, edges) sound h =
        elim (Bool-cases (cell s.visited r false)) [
          | inl visited ↦
              let (found, s', e, searched, seen) = try_rights-Returns rest s edges sound h in
              rw visited
                (found, s', e, searched, Seen-cons r rest found s' (searched.grows r visited) seen)
          | inr fresh ↦
              rw fresh
                (try_owner-Returns r rest s (try_rights-Returns rest) edge edges sound h fresh)
        ]

  pub augment-Returns : (fuel : ℕ) → IsEnough (augment adjacency fuel) fuel
  unfolding augment
  augment-Returns zero left s sound h = absurd (omega arith)
  augment-Returns (suc fuel) left s sound h =
      try_rights-Returns (augment adjacency fuel) fuel (augment-Returns fuel) left
        (cell adjacency left []) s (All-of _ (cell adjacency left []) (λ r edge. edge)) sound
        (omega arith)
