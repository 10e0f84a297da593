-- ===== src/Extractor/Canonicalize/Form.antt =====
-- The members that `canonicalizeUnionMembers` and `canonicalizeIntersectionMembers` return.
use internal.Prelude.{
  true, false, not, List, [], ◌∷◌, ◌≡◌, refl, sym, subst, All, filter, arith, Bool-cases, inl, inr,
  ◌⊎◌, length, leb, ◌≤◌, Text, ===_refl, some, text,
}
use internal.Extractor.Filters.{filter-not-passes, filter-not-empty}
use internal.Extractor.Model.{never_type, SemanticType, intrinsic, unaliased, Types}
use internal.Extractor.Render.{Runtime, intrinsic_text}
use internal.Extractor.Canonicalize.{canonicalize_union_members, canonicalize_intersection_members}
use internal.Extractor.Canonicalize.Members.{
  union_kind, intersection_kind, flatten_compound_members, sort_members, simplify_boolean_literals,
  remaining_or, remove_redundant_never, is_plain_never,
}
use internal.Extractor.Canonicalize.Flat.{IsFlat, is_compound, flatten-IsFlat}
use internal.Extractor.Canonicalize.Deduplicate.{deduplicate_members, scalar_member_key}
use internal.Extractor.Canonicalize.Keys.{keys_of_members}
use internal.Extractor.Canonicalize.Distinct.{IsDistinct, deduplicate-IsDistinct}
use internal.Extractor.Canonicalize.Kept.{
  deduplicate-All, sort_members-All, simplify_boolean-All, remove_never-All,
}

-- No member is a union without a name, and no two scalar members have the same key.
pub canonicalize_union-IsFlat :
    (js : Runtime) (ts : Types)
    → IsFlat union_kind (canonicalize_union_members js ts)
      × IsDistinct (keys_of_members js (canonicalize_union_members js ts))
unfolding canonicalize_union_members is_compound
canonicalize_union-IsFlat js ts =
    let IsLeft : SemanticType → Type 0 = λ t. is_compound union_kind t ≡ false in
    let members = flatten_compound_members union_kind ts in
    let simple = simplify_boolean_literals members in
    let some_never = remove_redundant_never simple in
    (
      deduplicate-All IsLeft js (sort_members some_never) (
          sort_members-All IsLeft some_never (
            remove_never-All IsLeft simple
              (simplify_boolean-All IsLeft members refl (flatten-IsFlat union_kind ts)))),
      deduplicate-IsDistinct js (sort_members some_never),
    )

-- No member is an intersection without a name, and no two scalar members have the same key.
pub canonicalize_intersection-IsFlat :
    (js : Runtime) (ts : Types)
    → IsFlat intersection_kind (canonicalize_intersection_members js ts)
      × IsDistinct (keys_of_members js (canonicalize_intersection_members js ts))
unfolding canonicalize_intersection_members
canonicalize_intersection-IsFlat js ts =
    let IsLeft : SemanticType → Type 0 = λ t. is_compound intersection_kind t ≡ false in
    let members = flatten_compound_members intersection_kind ts in
    (
      deduplicate-All IsLeft js (sort_members members)
          (sort_members-All IsLeft members (flatten-IsFlat intersection_kind ts)),
      deduplicate-IsDistinct js (sort_members members),
    )

abbrev pub NoNever : List SemanticType → Type 0
NoNever ts = All (λ t. is_plain_never t ≡ false) ts

abbrev OnlyNever : List SemanticType → Type 0
OnlyNever ts = All (λ t. is_plain_never t ≡ true) ts

remaining_or-never :
    (ts rest : List SemanticType)
    → rest ≡ filter (λ t. not (is_plain_never t)) ts
    → NoNever (remaining_or ts rest) ⊎ OnlyNever (remaining_or ts rest)
unfolding remaining_or
remaining_or-never ts [] h = inr (filter-not-empty is_plain_never ts h)
remaining_or-never ts (t ∷ rest) h =
    inl (subst NoNever (sym h) (filter-not-passes is_plain_never ts))

never_key :
    (js : Runtime) (t : SemanticType)
    → is_plain_never t ≡ true
    → scalar_member_key js t ≡ some (text "intrinsic:never")
unfolding is_plain_never scalar_member_key intrinsic_text
never_key js (intrinsic unaliased never_type) h = refl
never_key js _ h = absurd (cc)

not_twice : (k : Text) (ks : List Text) → IsDistinct (k ∷ k ∷ ks) → ⊥
not_twice k ks (p, h) = ground (arith, ===_refl k)

single_never :
    (js : Runtime) (ts : List SemanticType)
    → OnlyNever ts
    → IsDistinct (keys_of_members js ts)
    → length ts ≤ 1
unfolding keys_of_members
single_never js [] h d = omega arith
single_never js (t ∷ []) h d = omega arith
single_never js (t ∷ u ∷ ts) (p, (q, h)) d =
    absurd (not_twice _ (keys_of_members js ts) (rw (never_key js t p, never_key js u q) at d))

all_or_none : (ts : List SemanticType) → length ts ≤ 1 → NoNever ts ⊎ OnlyNever ts
all_or_none [] h = inl tt
all_or_none (t ∷ []) h = elim (Bool-cases (is_plain_never t)) [
  | inl is ↦ inr (is, tt)
  | inr is_not ↦ inl (is_not, tt)
]
all_or_none (t ∷ u ∷ ts) h = absurd (omega arith)

remove_redundant-never :
    (ts : List SemanticType)
    → NoNever (remove_redundant_never ts) ⊎ OnlyNever (remove_redundant_never ts)
unfolding remove_redundant_never
remove_redundant-never ts = elim (Bool-cases (leb (length ts) 1)) [
  | inl short ↦ rw short (all_or_none ts (ground arith))
  | inr long ↦ rw long (remaining_or-never ts _ refl)
]

-- Either no member is an unaliased `never`, or there is at most one member.
pub canonicalize_union-NoNever :
    (js : Runtime) (ts : Types)
    → NoNever (canonicalize_union_members js ts) ⊎ (length (canonicalize_union_members js ts) ≤ 1)
unfolding canonicalize_union_members
canonicalize_union-NoNever js ts =
    let simple = simplify_boolean_literals (flatten_compound_members union_kind ts) in
    let some_never = remove_redundant_never simple in
    elim (remove_redundant-never simple) [
      | inl none_left ↦ inl (
          deduplicate-All (λ t. is_plain_never t ≡ false) js (sort_members some_never)
            (sort_members-All (λ t. is_plain_never t ≡ false) some_never none_left))
      | inr only ↦ inr (
          single_never js (deduplicate_members js (sort_members some_never))
            (deduplicate-All (λ t. is_plain_never t ≡ true) js (sort_members some_never)
              (sort_members-All (λ t. is_plain_never t ≡ true) some_never only))
            (deduplicate-IsDistinct js (sort_members some_never)))
    ]
