-- ===== src/Extractor/Canonicalize/Sorted.antt =====
-- The members that a canonicalization returns are sorted.
use internal.Prelude.{
  ◌≤◌, ◌≡◌, refl, sym, ap, subst, false, List, [], ◌∷◌, inl, inr, All, filter, arith, Bool-cases,
}
use internal.Extractor.Model.{null_type, undefined_type, SemanticType, Types}
use internal.Extractor.Render.{Runtime}
use internal.Extractor.Canonicalize.{canonicalize_union_members, canonicalize_intersection_members}
use internal.Extractor.Canonicalize.Members.{
  union_kind, intersection_kind, is_intrinsic, flatten_compound_members, sort_members,
  simplify_boolean_literals, remove_redundant_never,
}
use internal.Extractor.Canonicalize.Order.{is_other, exclusive, sorted, sort_members-sorted}
use internal.Extractor.Canonicalize.Ranks.{
  raise, rank, rank_null, rank_undefined, ranks, Ascending, sorted-Ascending, add_members-Ascending,
}
use internal.Extractor.Canonicalize.Deduplicate.{deduplicate_members, nothing_added}

none_other : (ts : List SemanticType) → All (λ m. 1 ≤ m) (ranks ts) → filter is_other ts ≡ []
unfolding rank is_other
none_other [] h = refl
none_other (t ∷ ts) (p, h) = ground (arith, none_other ts h)

none_null :
    (ts : List SemanticType) → All (λ m. 2 ≤ m) (ranks ts) → filter (is_intrinsic null_type) ts ≡ []
unfolding rank
none_null [] h = refl
none_null (t ∷ ts) (p, h) = ground (arith, none_null ts h, exclusive t)

Ascending-sorted : (ts : List SemanticType) → Ascending (ranks ts) → sorted ts ≡ ts
unfolding rank is_other
Ascending-sorted [] h = refl
Ascending-sorted (t ∷ ts) (p, h) =
    let rest = Ascending-sorted ts h in
    elim (Bool-cases (is_intrinsic undefined_type t)) [
      | inl last ↦
          let is_two = rank_undefined t last in
          let others = none_other ts (raise 1 (rank t) (ranks ts) (omega (arith, is_two)) p) in
          let nulls = none_null ts (raise 2 (rank t) (ranks ts) (omega (arith, is_two)) p) in
          let not_null : is_intrinsic null_type t ≡ false = ground (arith, exclusive t) in
          rw (last, not_null, others, nulls) (ap (λ us. t ∷ us) (rw (others, nulls) at rest))
      | inr early ↦ elim (Bool-cases (is_intrinsic null_type t)) [
        | inl null ↦
            let is_one = rank_null t null in
            let others = none_other ts (raise 1 (rank t) (ranks ts) (omega (arith, is_one)) p) in
            rw (early, null, others) (ap (λ us. t ∷ us) (rw others at rest))
        | inr other ↦ rw (early, other) (ap (λ us. t ∷ us) rest)
      ]
    ]

deduplicate-sorted :
    (js : Runtime) (ts : List SemanticType)
    → sorted (deduplicate_members js (sort_members ts)) ≡ deduplicate_members js (sort_members ts)
unfolding deduplicate_members
deduplicate-sorted js ts = Ascending-sorted (deduplicate_members js (sort_members ts)) (
    add_members-Ascending js (sort_members ts) nothing_added
      (subst (λ us. Ascending (ranks us)) (sym (sort_members-sorted ts)) (sorted-Ascending ts)))

-- A canonical union, and a canonical intersection, is the list of its members that are neither
-- `null` nor `undefined`, in their order, followed by its `null` members and then by its
-- `undefined` members.
pub canonicalize-sorted :
    (js : Runtime) (ts : Types)
    → (sorted (canonicalize_union_members js ts) ≡ canonicalize_union_members js ts)
      × (sorted (canonicalize_intersection_members js ts) ≡ canonicalize_intersection_members js ts)
unfolding canonicalize_union_members canonicalize_intersection_members
canonicalize-sorted js ts = (
  deduplicate-sorted js
      (remove_redundant_never (simplify_boolean_literals (flatten_compound_members union_kind ts))),
  deduplicate-sorted js (flatten_compound_members intersection_kind ts),
)
