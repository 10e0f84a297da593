-- ===== src/Extractor/Equivalence/Members.antt =====
-- `membersAreEquivalentUnordered`: the edges of its graph, and what it returns.
use internal.Prelude.{
  ℕ, zero, suc, ◌+◌, ◌<◌, ◌≡◌, ◌↔◌, ◌⊎◌, refl, sym, subst, ◌∙◌, Bool, true, false, not, Option,
  none, some, List, [], ◌∷◌, Memᴰ, length, ◌==◌, if◌then◌else◌, Bool-cases, ==_iff, inl, inr, arith,
}
use internal.Extractor.Filters.{both}
use internal.Extractor.Model.{SemanticType, Types, no_type, cons_type, to_list}
use internal.Extractor.Render.{Runtime}
use internal.Extractor.Matching.{has_complete_matching}
use internal.Extractor.Matching.Cells.{cell, entry, entry-within}
use internal.Extractor.Matching.Counting.{times}
use internal.Extractor.Matching.Augmenting.Steps.{InRange}
use internal.Extractor.Matching.Complete.{IsComplete, has_complete_matching_iff}
use internal.Extractor.Matching.InTurn.{in_turn, length-in_turn, cell-in_turn, times-in_turn}
use internal.Extractor.Equivalence.{
  are_equivalent, same_types, adjacent, indices_where, members_match, is_rejected_by_key,
}
use internal.Extractor.Equivalence.Bindings.{Context}

mem_cases : (r i : ℕ) (is : List ℕ) → Memᴰ r (i ∷ is) → (r ≡ i) ⊎ Memᴰ r is
mem_cases r i is (Memᴰ.head e) = inl e
mem_cases r i is (Memᴰ.tail m) = inr m

mem_if : (b : Bool) (r i : ℕ) (is : List ℕ) → Memᴰ r is → Memᴰ r (if b then i ∷ is else is)
mem_if true r i is m = Memᴰ.tail m
mem_if false r i is m = m

indices_where-found :
    (p : SemanticType → Bool) (us : List SemanticType) (i r : ℕ)
    → Memᴰ r (indices_where p us i)
    → (k : ℕ) × (u : SemanticType) × (r ≡ i + k) × (entry us k ≡ some u) × (p u ≡ true)
unfolding indices_where entry
indices_where-found p [] i r m = absurd (elim m [ ])
indices_where-found p (u ∷ us) i r m = elim (Bool-cases (p u)) [
  | inl holds ↦ elim (mem_cases r i _ (rw holds at m)) [
    | inl same ↦ (0, u, omega arith, refl, holds)
    | inr later ↦
        let (k, v, e, at, passes) = indices_where-found p us (suc i) r later in
        (suc k, v, omega arith, at, passes)
  ]
  | inr fails ↦
      let (k, v, e, at, holds) = indices_where-found p us (suc i) r (rw fails at m) in
      (suc k, v, omega arith, at, holds)
]

indices_where-lists :
    (p : SemanticType → Bool) (us : List SemanticType) (i k : ℕ) (u : SemanticType)
    → entry us k ≡ some u
    → p u ≡ true
    → Memᴰ (i + k) (indices_where p us i)
unfolding indices_where entry
indices_where-lists p [] i k u at holds = absurd (cc)
indices_where-lists p (v ∷ us) i zero u at holds =
    let passes : p v ≡ true = cc in rw passes (Memᴰ.head (omega arith))
indices_where-lists p (v ∷ us) i (suc k) u at holds =
    mem_if (p v) (i + suc k) i (indices_where p us (suc i)) (
      subst (λ r. Memᴰ r (indices_where p us (suc i))) (omega arith)
        (indices_where-lists p us (suc i) k u at holds))

module _ (js : Runtime) (ctx : Context) where
  -- The left member at `l` and the right member at `r` are equivalent.
  abbrev pub IsPair : List SemanticType → List SemanticType → ℕ → ℕ → Type 0
  IsPair left right l r =
      (t : SemanticType) × (u : SemanticType) × (entry left l ≡ some t)
      × (entry right r ≡ some u)
      × (are_equivalent js t u ctx ≡ true)

  adjacent-Pair :
      (ts : Types) (right : List SemanticType) (l r : ℕ)
      → Memᴰ r (cell (adjacent js ts right ctx) l [])
      → IsPair (to_list ts) right l r
  unfolding adjacent to_list entry
  adjacent-Pair no_type right l r m = absurd (elim m [ ])
  adjacent-Pair (cons_type t ts) right zero r m =
      let (k, u, e, at, holds) = indices_where-found (λ u. are_equivalent js t u ctx) right 0 r m in
      (t, u, refl, subst (λ x. entry right x ≡ some u) (omega arith) at, holds)
  adjacent-Pair (cons_type t ts) right (suc l) r m = adjacent-Pair ts right l r m

  Pair-adjacent :
      (ts : Types) (right : List SemanticType) (l r : ℕ)
      → IsPair (to_list ts) right l r
      → Memᴰ r (cell (adjacent js ts right ctx) l [])
  unfolding adjacent to_list entry
  Pair-adjacent no_type right l r (t, u, at, there, holds) = absurd (cc)
  Pair-adjacent (cons_type t ts) right zero r (v, u, at, there, holds) =
      let passes : are_equivalent js t u ctx ≡ true = cc in
      subst (λ x. Memᴰ x (cell (adjacent js (cons_type t ts) right ctx) zero [])) (omega arith)
        (indices_where-lists (λ u. are_equivalent js t u ctx) right 0 r u there passes)
  Pair-adjacent (cons_type t ts) right (suc l) r pair = Pair-adjacent ts right l r pair

  -- For each right index a left index with an equivalent member, each left index once.
  abbrev pub IsPairing : List SemanticType → List SemanticType → List (Option ℕ) → Type 0
  IsPairing left right m =
      (length m ≡ length right)
      × ((r l : ℕ) → cell m r none ≡ some l → IsPair left right l r)
      × ((x : ℕ) → x < length left → times x m ≡ 1)

  -- Members that match in order are paired.
  IsPairing-in_order :
      (left right : List SemanticType)
      → length left ≡ length right
      → ((l : ℕ) → l < length left → IsPair left right l l)
      → (m : List (Option ℕ)) × IsPairing left right m
  IsPairing-in_order left right e pairs = (
    in_turn (length left) 0,
    (
      length-in_turn (length left) 0 ∙ e,
      λ r l own.
          let (same, below) = cell-in_turn (length left) 0 r l own in
          subst (λ x. IsPair left right x r) (omega arith) (pairs r below),
      λ x below. times-in_turn (length left) 0 x (omega arith) (omega arith),
    ),
  )

  same_types-Pair :
      (ts ts' : Types)
      → same_types js ts ts' ctx ≡ true
      → (l : ℕ) → l < length (to_list ts)
      → IsPair (to_list ts) (to_list ts') l l
  unfolding same_types to_list entry
  same_types-Pair no_type ts' h l below = absurd (omega arith)
  same_types-Pair (cons_type t ts) no_type h l below = absurd (cc)
  same_types-Pair (cons_type t ts) (cons_type u us) h zero below =
      (t, u, refl, refl, (both (are_equivalent js t u ctx) (same_types js ts us ctx) h).0)
  same_types-Pair (cons_type t ts) (cons_type u us) h (suc l) below =
      same_types-Pair ts us (both (are_equivalent js t u ctx) (same_types js ts us ctx) h).1 l
        (omega arith)

  adjacent-InRange :
      (ts : Types) (right : List SemanticType) → InRange (adjacent js ts right ctx) (length right)
  adjacent-InRange ts right l r m =
      let (t, u, at, there, holds) = adjacent-Pair ts right l r m in entry-within right r u there

  Complete-Pairing :
      (ts : Types) (right : List SemanticType) (m : List (Option ℕ))
      → length (to_list ts) ≡ length right
      → IsComplete (adjacent js ts right ctx) (length (to_list ts)) m
        ↔ IsPairing (to_list ts) right m
  Complete-Pairing ts right m e = (
    λ (entries, edges, once).
        (entries ∙ e, λ r l own. adjacent-Pair ts right l r (edges r l own), once),
    λ (entries, pairs, once).
        (entries ∙ sym e, λ r l own. Pair-adjacent ts right l r (pairs r l own), once),
  )

  IsPairing-none :
      (left right : List SemanticType)
      → length left ≡ length right
      → length left ≡ 0
      → (m : List (Option ℕ)) × IsPairing left right m
  IsPairing-none left right e empty =
      IsPairing-in_order left right e (λ l below. absurd (omega arith))

  matching_iff :
      (ts : Types) (right : List SemanticType)
      → length (to_list ts) ≡ length right
      → (has_complete_matching (adjacent js ts right ctx) (length (to_list ts)) ≡ true)
        ↔ ((m : List (Option ℕ)) × IsPairing (to_list ts) right m)
  matching_iff ts right e =
      let graph = adjacent js ts right ctx in
      let in_range : InRange graph (length (to_list ts)) =
        subst (InRange graph) (sym e) (adjacent-InRange ts right) in
      let (found, exists) = (has_complete_matching_iff graph (length (to_list ts)) in_range).1 in
      (
        λ h. let (m, complete) = found h in (m, (Complete-Pairing ts right m e).0 complete),
        λ (m, pairing). exists (m, (Complete-Pairing ts right m e).1 pairing),
      )

  -- If there are as many members on both sides, and the structural keys do not reject them, then the
  -- members are equivalent exactly if they can be paired, in whatever order, with each pair
  -- equivalent.
  pub members_match_iff :
      (ts ts' : Types)
      → length (to_list ts) ≡ length (to_list ts')
      → is_rejected_by_key js ctx (to_list ts) (to_list ts') ≡ false
      → (members_match js ctx
            (to_list ts)
            (to_list ts')
            (same_types js ts ts' ctx)
            (adjacent js ts (to_list ts') ctx)
          ≡ true)
        ↔ ((m : List (Option ℕ)) × IsPairing (to_list ts) (to_list ts') m)
  unfolding members_match
  members_match_iff ts ts' e kept =
      let left = to_list ts in
      let right = to_list ts' in
      let as_many : (not (length left == length right)) ≡ false = ground (arith, e) in
      elim (Bool-cases (length left == 0)) [
        | inl empty ↦
            rw (as_many, empty)
              (λ _. IsPairing-none left right e ((==_iff (length left) 0).0 empty), λ _. refl)
        | inr some_left ↦ elim (Bool-cases (same_types js ts ts' ctx)) [
          | inl in_order ↦
              rw (as_many, some_left, in_order)
                (λ _. IsPairing-in_order left right e (same_types-Pair ts ts' in_order), λ _. refl)
          | inr reordered ↦ rw (as_many, some_left, reordered, kept) (matching_iff ts right e)
        ]
      ]
