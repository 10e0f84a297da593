-- ===== src/Extractor/Matching/Complete.antt =====
-- `hasCompleteMatching` against its specification.
use internal.Prelude.{
  ℕ, zero, suc, ◌+◌, ◌≤◌, ◌<◌, ◌≡◌, refl, sym, ◌∙◌, subst, Bool, true, false, Option, none, some,
  List, [], ◌∷◌, ◌↔◌, inl, inr, All, All-at, all, ltb, length, ◌==◌, Bool-cases, arith,
}
use internal.Extractor.Matching.{
  Search, match_next, match_from, complete_matching, has_complete_matching, is_found,
}
use internal.Extractor.Matching.Cells.{cell, fill, length-fill, cell-fill}
use internal.Extractor.Matching.Counting.{times, times-fill, unvisited-fill}
use internal.Extractor.Matching.Weights.{
  weight, sums, sums_lt, sums-times_le, weight_le, count_true, weight_le-count_true,
  count_true_le-weight,
}
use internal.Extractor.Matching.Augmenting.{augment-Returns}
use internal.Extractor.Matching.Augmenting.Steps.{
  InRange, IsSound, AreEdges, Searched, Exhausted, IsVisited, Seen,
}

module _ (adjacency : List (List ℕ)) (size : ℕ) where
  -- A complete matching: for each right index a left index that it has an edge with, such that each
  -- left index occurs exactly once.
  abbrev pub IsComplete : List (Option ℕ) → Type 0
  IsComplete m =
      (length m ≡ size) × AreEdges adjacency size m × ((x : ℕ) → x < size → times x m ≡ 1)

  -- The left indices below `i`, and no others, are matched.
  record IsMatching (i : ℕ) (m : List (Option ℕ)) : Type 0 where
    entries : length m ≡ size
    edges : AreEdges adjacency size m
    matched_below : (x : ℕ) → x < i → times x m ≡ 1
    free_above : (x : ℕ) → i ≤ x → times x m ≡ 0

  -- Whether all right indices that the left index has an edge to are visited.
  abbrev is_exhausted : Search → ℕ → Bool
  is_exhausted s l = all (λ r. cell s.visited r false) (cell adjacency l [])

  Exhausted-iff : (s : Search) (l : ℕ) → (is_exhausted s l ≡ true) ↔ Exhausted adjacency size s l
  Exhausted-iff s l = go (cell adjacency l [])
    where
      go : (rs : List ℕ) → (all (λ r. cell s.visited r false) rs ≡ true) ↔ All (IsVisited s) rs
      go [] = ground arith
      go (r ∷ rs) = ground (arith, go rs)

  -- The search for the next left index.
  start : List (Option ℕ) → Search
  start m = record { visited = fill size false; matched = m }

  start-IsSound : (i : ℕ) (m : List (Option ℕ)) → IsMatching i m → IsSound adjacency size (start m)
  unfolding start
  start-IsSound i m h = record {
    visited_size = length-fill size false;
    matched_size = h.entries;
    edges = h.edges;
  }

  module _ (i : ℕ) (m : List (Option ℕ)) (h : IsMatching i m) where
    owner_below : i < size → (y : ℕ) → 0 < times y m → y < size
    owner_below below y owns = elim (Bool-cases (ltb y i)) [
      | inl less ↦ ground arith
      | inr more ↦ absurd (omega (arith, h.free_above y (ground arith), owns))
    ]

    times_le : (x : ℕ) → times x m ≤ 1
    times_le x = elim (Bool-cases (ltb x i)) [
      | inl less ↦ omega (arith, h.matched_below x (ground arith))
      | inr more ↦ omega (arith, h.free_above x (ground arith))
    ]

  next-IsMatching :
      (i : ℕ) (m : List (Option ℕ)) (s : Search)
      → IsMatching i m
      → Searched adjacency size i (start m) true s
      → IsMatching (suc i) s.matched
  unfolding start
  next-IsMatching i m s h searched = record {
    entries = searched.sound.matched_size;
    edges = searched.sound.edges;
    matched_below = λ x k. elim (Bool-cases (x == i)) [
      | inl same ↦ ground (arith, searched.outcome x, h.free_above x (ground arith))
      | inr other ↦ ground (arith, searched.outcome x, h.matched_below x (ground arith))
    ];
    free_above = λ x k. ground (arith, searched.outcome x, h.free_above x (omega arith));
  }

  -- A failed search leaves fewer right indices than the left indices that need them.
  blocked :
      (i : ℕ) (m : List (Option ℕ)) (s : Search)
      → IsMatching i m
      → i < size
      → Searched adjacency size i (start m) false s
      → Exhausted adjacency size s i
      → (m' : List (Option ℕ)) → IsComplete m'
      → ⊥
  unfolding start
  blocked i m s h below searched exhausted m' (entries, edges, once) =
      let w = is_exhausted s in
      let visited_le : count_true s.visited ≤ weight w m =
        count_true_le-weight w s.visited m (searched.sound.visited_size ∙ sym h.entries) (λ r seen.
          elim (searched.outcome.1 r seen) [
            | inl before ↦ absurd (unvisited_at r before)
            | inr (o, own, done) ↦ (o, own, (Exhausted-iff s o).1 done)
          ]) in
      let left_le : weight w m ≤ sums w size (λ l. times l m) =
        weight_le w size m (owner_below i m h below) in
      let more : sums w size (λ l. times l m) < sums w size (λ l. times l m') =
        sums_lt w size i (λ l. times l m) (λ l. times l m')
          (λ l k. omega (arith, times_le i m h l, once l k)) below ((Exhausted-iff s i).1 exhausted)
          (omega (arith, h.free_above i (omega arith), once i below)) in
      let right_le : weight w m' ≤ count_true s.visited =
        weight_le-count_true w m' s.visited (entries ∙ sym searched.sound.visited_size)
          (λ r l own chosen. All-at (IsVisited s) (edges r l own) ((Exhausted-iff s l).0 chosen)) in
      omega (arith, visited_le, left_le, more, sums-times_le w size m', right_le)
    where
      unvisited_at : (r : ℕ) → cell (fill size false) r false ≡ true → ⊥
      unvisited_at r seen = cc (cell-fill size r false)

  abbrev Verdict : Bool → Type 0
  Verdict true = (m : List (Option ℕ)) × IsComplete m
  Verdict false = (m : List (Option ℕ)) → IsComplete m → ⊥

  module _ (in_range : InRange adjacency size) where
    abbrev Answers : Option Bool → Type 0
    Answers o = (b : Bool) × (o ≡ some b) × Verdict b

    after_search :
        (i count : ℕ) (m : List (Option ℕ)) (found : Bool) (s : Search)
        → IsMatching i m
        → i < size
        → Searched adjacency size i (start m) found s
        → Seen (cell adjacency i []) found s
        → (IsMatching (suc i) s.matched
            → Answers (match_from adjacency size count (suc i) s.matched))
        → Answers (match_next adjacency (match_from adjacency size count (suc i)) (some (found, s)))
    unfolding match_next
    after_search i count m true s h below searched seen later =
        later (next-IsMatching i m s h searched)
    after_search i count m false s h below searched seen later =
        (false, refl, blocked i m s h below searched seen)

    loop-Answers :
        (count i : ℕ) (m : List (Option ℕ))
        → i + count ≡ size
        → IsMatching i m
        → Answers (match_from adjacency size count i m)
    unfolding match_from start
    loop-Answers zero i m e h =
        (true, refl, (m, (h.entries, h.edges, λ x k. h.matched_below x (omega arith))))
    loop-Answers (suc count) i m e h =
        let (found, s, returned, searched, seen) =
          augment-Returns adjacency size in_range (suc size) i (start m) (start-IsSound i m h)
            (omega (arith, unvisited-fill size)) in
        rw returned (
          after_search i count m found s h (omega arith) searched seen
            (loop-Answers count (suc i) s.matched (omega arith)))

    empty-IsMatching : IsMatching 0 (fill size none)
    empty-IsMatching = record {
      entries = length-fill size none;
      edges = λ r l e. absurd (unmatched r l e);
      matched_below = λ x k. absurd (omega arith);
      free_above = λ x k. times-fill x size;
    }
      where
        unmatched : (r l : ℕ) → cell (fill size none) r none ≡ some l → ⊥
        unmatched r l e = cc (cell-fill {A = Option ℕ} size r none)

    Verdict-iff : (b : Bool) → Verdict b → (b ≡ true) ↔ ((m : List (Option ℕ)) × IsComplete m)
    Verdict-iff true v = (λ _. v, λ _. refl)
    Verdict-iff false v = (λ e. absurd (cc), λ (m, complete). absurd (v m complete))

    decided :
        (o : Option Bool) (b : Bool)
        → o ≡ some b
        → Verdict b
        → (o ≡ some (is_found o)) × ((is_found o ≡ true) ↔ ((m : List (Option ℕ)) × IsComplete m))
    decided none b e v = absurd (cc)
    decided (some c) b e v = (
      refl,
      subst (λ x. (x ≡ true) ↔ ((m : List (Option ℕ)) × IsComplete m)) (same e) (Verdict-iff b v),
    )
      where
        same : ◌≡◌ {A = Option Bool} (some c) (some b) → b ≡ c
        same e = cc

    -- If the edges lead to right indices below the size, the fuel is enough, and the result is whether
    -- there is a complete matching.
    pub has_complete_matching_iff :
        (complete_matching adjacency size ≡ some (has_complete_matching adjacency size))
        × ((has_complete_matching adjacency size ≡ true) ↔ ((m : List (Option ℕ)) × IsComplete m))
    unfolding has_complete_matching complete_matching
    has_complete_matching_iff =
        let (b, returned, v) =
          loop-Answers size 0 (fill size none) (omega arith) empty-IsMatching in
        decided (complete_matching adjacency size) b returned v
