-- ===== src/Extractor/Matching/Augmenting/Steps.antt =====
-- What a search promises, and how each step of `augment` keeps the promise.
use internal.Prelude.{
  ℕ, ◌+◌, ◌≤◌, ◌<◌, ◌≡◌, ◌≢◌, refl, sym, ap, ◌∙◌, subst, Bool, true, false, Option, none, some,
  List, [], ◌∷◌, ◌⊎◌, inl, inr, All, Memᴰ, length, ◌==◌, ==_iff, Bool-cases, arith,
}
use internal.Extractor.Matching.{Search, mark, assign}
use internal.Extractor.Matching.Cells.{
  cell, put, length-put, cell-put, cell-put_other, cell-put_same,
}
use internal.Extractor.Matching.Counting.{holds, times, unvisited, times-put, unvisited-put}

-- All right indices of the edges are below `size`.
abbrev pub InRange : List (List ℕ) → ℕ → Type 0
InRange adjacency size = (left right : ℕ) → Memᴰ right (cell adjacency left []) → right < size

abbrev pub IsVisited : Search → ℕ → Type 0
IsVisited s r = cell s.visited r false ≡ true

-- The right indices are visited, if the search failed.
abbrev pub Seen : List ℕ → Bool → Search → Type 0
Seen rights true s = Unit {0}
Seen rights false s = All (IsVisited s) rights

module _ (adjacency : List (List ℕ)) (size : ℕ) where
  abbrev pub AreEdges : List (Option ℕ) → Type 0
  AreEdges m = (r l : ℕ) → cell m r none ≡ some l → Memᴰ r (cell adjacency l [])

  -- Both arrays have `size` entries, and each match is an edge.
  pub record IsSound (s : Search) : Type 0 where
    pub visited_size : length s.visited ≡ size
    pub matched_size : length s.matched ≡ size
    pub edges : AreEdges s.matched

  -- All right indices that the left index has an edge to are visited.
  abbrev pub Exhausted : Search → ℕ → Type 0
  Exhausted s l = All (IsVisited s) (cell adjacency l [])

  -- A newly visited right index has an owner that is exhausted.
  abbrev pub Explained : Search → Search → Type 0
  Explained s s' =
      (r : ℕ)
      → IsVisited s' r
      → IsVisited s r ⊎ ((o : ℕ) × (cell s.matched r none ≡ some o) × Exhausted s' o)

  -- A success adds a match of `left`; a failure changes no match.
  abbrev pub Outcome : ℕ → Search → Bool → Search → Type 0
  Outcome left s true s' = (x : ℕ) → times x s'.matched ≡ times x s.matched + holds x (some left)
  Outcome left s false s' = (s'.matched ≡ s.matched) × Explained s s'

  pub record Searched (left : ℕ) (s : Search) (found : Bool) (s' : Search) : Type 0 where
    pub sound : IsSound s'
    pub grows : (r : ℕ) → IsVisited s r → IsVisited s' r
    pub fewer : unvisited s'.visited ≤ unvisited s.visited
    pub untouched : (r : ℕ) → IsVisited s r → cell s'.matched r none ≡ cell s.matched r none
    pub outcome : Outcome left s found s'

  pub search_nothing : (left : ℕ) (s : Search) → IsSound s → Searched left s false s
  search_nothing left s sound = record {
    sound = sound;
    grows = λ r h. h;
    fewer = omega arith;
    untouched = λ r h. refl;
    outcome = (refl, λ r h. inl h);
  }

  pub IsSound-mark : (r : ℕ) (s : Search) → IsSound s → IsSound (mark r s)
  IsSound-mark r s sound = record {
    visited_size = length-put s.visited r true ∙ sound.visited_size;
    matched_size = sound.matched_size;
    edges = sound.edges;
  }

  pub unvisited-mark :
      (r : ℕ) (s : Search)
      → IsSound s
      → r < size
      → cell s.visited r false ≡ false
      → unvisited (mark r s).visited + 1 ≡ unvisited s.visited
  unvisited-mark r s sound h fresh =
      unvisited-put s.visited r (subst (λ n. r < n) (sym sound.visited_size) h) fresh

  visited_mark : (r : ℕ) (s : Search) (x : ℕ) → IsVisited s x → IsVisited (mark r s) x
  visited_mark r s x h = cell-put_same s.visited r x true false h

  pub marked : (r : ℕ) (s : Search) → IsSound s → r < size → IsVisited (mark r s) r
  marked r s sound h =
      cell-put s.visited r true false (subst (λ n. r < n) (sym sound.visited_size) h)

  marked_only : (r : ℕ) (s : Search) (x : ℕ) → IsVisited (mark r s) x → (r ≡ x) ⊎ IsVisited s x
  marked_only r s x h = elim (Bool-cases (r == x)) [
    | inl same ↦ inl ((==_iff r x).0 same)
    | inr other ↦ inr (sym (cell-put_other s.visited r x true false (λ e. ground arith)) ∙ h)
  ]

  apart : (r x : ℕ) (s : Search) → cell s.visited r false ≡ false → IsVisited s x → r ≢ x
  apart r x s fresh seen same = cc

  within : (r : ℕ) (s : Search) → IsSound s → r < size → r < length s.matched
  within r s sound h = subst (λ n. r < n) (sym sound.matched_size) h

  edges_put :
      (left r : ℕ) (m : List (Option ℕ))
      → AreEdges m
      → r < length m
      → Memᴰ r (cell adjacency left [])
      → AreEdges (put m r (some left))
  edges_put left r m edges h edge x l e = elim (Bool-cases (r == x)) [
    | inl same ↦
        subst (λ y. cell (put m r (some left)) y none ≡ some l → Memᴰ y (cell adjacency l []))
          ((==_iff r x).0 same)
          (λ own.
            subst (λ k. Memᴰ r (cell adjacency k []))
              (same_owner (sym (cell-put m r (some left) none h) ∙ own)) edge)
          e
    | inr other ↦ edges x l (sym (cell-put_other m r x (some left) none (λ same. ground arith)) ∙ e)
  ]
    where
      same_owner : ◌≡◌ {A = Option ℕ} (some left) (some l) → left ≡ l
      same_owner e = cc

  IsSound-assign :
      (left r : ℕ) (s : Search)
      → IsSound s
      → Memᴰ r (cell adjacency left [])
      → r < size
      → IsSound (assign left r s)
  IsSound-assign left r s sound edge h = record {
    visited_size = sound.visited_size;
    matched_size = length-put s.matched r (some left) ∙ sound.matched_size;
    edges = edges_put left r s.matched sound.edges (within r s sound h) edge;
  }

  -- The right index has no owner.
  pub search_free :
      (left r : ℕ) (s : Search)
      → IsSound s
      → Memᴰ r (cell adjacency left [])
      → r < size
      → cell s.visited r false ≡ false
      → cell s.matched r none ≡ none
      → Searched left s true (assign left r (mark r s))
  search_free left r s sound edge h fresh free = record {
    sound = IsSound-assign left r (mark r s) (IsSound-mark r s sound) edge h;
    grows = visited_mark r s;
    fewer = omega (arith, unvisited-mark r s sound h fresh);
    untouched = λ x seen.
        cell-put_other s.matched r x (some left) none (λ same. apart r x s fresh seen same);
    outcome =
        λ x. omega (arith, rw free at (times-put x s.matched r (some left) (within r s sound h)));
  }

  -- The owner of the right index found another right index.
  pub search_owned :
      (left r o : ℕ) (s s' : Search)
      → IsSound s
      → Memᴰ r (cell adjacency left [])
      → r < size
      → cell s.visited r false ≡ false
      → cell s.matched r none ≡ some o
      → Searched o (mark r s) true s'
      → Searched left s true (assign left r s')
  search_owned left r o s s' sound edge h fresh owned deeper = record {
    sound = IsSound-assign left r s' deeper.sound edge h;
    grows = λ x seen. deeper.grows x (visited_mark r s x seen);
    fewer = omega (arith, unvisited-mark r s sound h fresh, deeper.fewer);
    untouched = λ x seen.
        cell-put_other s'.matched r x (some left) none (apart r x s fresh seen)
        ∙ deeper.untouched x (visited_mark r s x seen);
    outcome = λ x. omega (
      arith,
      deeper.outcome x,
      rw (deeper.untouched r (marked r s sound h) ∙ owned) at
          (times-put x s'.matched r (some left) (within r s' deeper.sound h)),
    );
  }

  seen_grows :
      (s s' : Search) (rs : List ℕ)
      → ((r : ℕ) → IsVisited s r → IsVisited s' r)
      → All (IsVisited s) rs
      → All (IsVisited s') rs
  seen_grows s s' [] grows h = tt
  seen_grows s s' (r ∷ rs) grows (p, h) = (grows r p, seen_grows s s' rs grows h)

  Explained-after :
      (r o : ℕ) (s s' s'' : Search)
      → cell s.matched r none ≡ some o
      → Explained (mark r s) s'
      → Exhausted s' o
      → ((x : ℕ) → IsVisited s' x → IsVisited s'' x)
      → (x : ℕ) → IsVisited s' x
      → IsVisited s x ⊎ ((p : ℕ) × (cell s.matched x none ≡ some p) × Exhausted s'' p)
  Explained-after r o s s' s'' owned deeper exhausted grows x seen = elim (deeper x seen) [
    | inl before ↦ elim (marked_only r s x before) [
      | inl same ↦ inr (
        o,
        subst (λ y. cell s.matched y none ≡ some o) same owned,
        seen_grows s' s'' (cell adjacency o []) grows exhausted,
      )
      | inr old ↦ inl old
    ]
    | inr (p, own, done) ↦ inr (p, own, seen_grows s' s'' (cell adjacency p []) grows done)
  ]

  Outcome-after :
      (left r o : ℕ) (s s' s'' : Search) (found : Bool)
      → cell s.matched r none ≡ some o
      → (s'.matched ≡ s.matched) × Explained (mark r s) s'
      → Exhausted s' o
      → ((x : ℕ) → IsVisited s' x → IsVisited s'' x)
      → Outcome left s' found s''
      → Outcome left s found s''
  Outcome-after left r o s s' s'' true owned (same, deeper) exhausted grows later =
      λ x. later x ∙ ap (λ m. times x m + holds x (some left)) same
  Outcome-after left r o s s' s'' false owned (same, deeper) exhausted grows (kept, later) = (
    kept ∙ same,
    λ x seen. elim (later x seen) [
      | inl before ↦ Explained-after r o s s' s'' owned deeper exhausted grows x before
      | inr (p, own, done) ↦ inr (p, subst (λ m. cell m x none ≡ some p) same own, done)
    ],
  )

  -- The owner of the right index found none, and the search went on.
  pub search_after :
      (left r o : ℕ) (s s' s'' : Search) (found : Bool)
      → IsSound s
      → r < size
      → cell s.visited r false ≡ false
      → cell s.matched r none ≡ some o
      → Searched o (mark r s) false s'
      → Exhausted s' o
      → Searched left s' found s''
      → Searched left s found s''
  search_after left r o s s' s'' found sound h fresh owned deeper exhausted later = record {
    sound = later.sound;
    grows = λ x seen. later.grows x (deeper.grows x (visited_mark r s x seen));
    fewer = omega (arith, unvisited-mark r s sound h fresh, deeper.fewer, later.fewer);
    untouched = λ x seen.
        later.untouched x (deeper.grows x (visited_mark r s x seen))
        ∙ deeper.untouched x (visited_mark r s x seen);
    outcome =
        Outcome-after left r o s s' s'' found owned deeper.outcome exhausted later.grows
          later.outcome;
  }
