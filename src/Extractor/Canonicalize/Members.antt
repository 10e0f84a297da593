-- ===== src/Extractor/Canonicalize/Members.antt =====
-- packages/api-extractor/src/canonical/canonicalize.ts: the passes before deduplication.
use internal.Prelude.{
  ℕ, suc, Bool, true, false, Option, none, some, List, [], ◌∷◌, ◌++◌, Text, text, ◌===◌, ◌==◌, leb,
  not, if◌then◌else◌, filter, length,
}
use internal.Extractor.Model.{
  IntrinsicName, boolean_type, never_type, null_type, undefined_type, text_value, SemanticType,
  intersection, intrinsic, literal, union, unaliased, Types, no_type, cons_type, same_intrinsic,
}

pub data CompoundKind : Type 0 where
  union_kind intersection_kind : CompoundKind

unfoldable mutual
  pub flatten_compound_members : CompoundKind → Types → List SemanticType
  flatten_compound_members kind no_type = []
  flatten_compound_members kind (cons_type t ts) =
      flatten_member kind t ++ flatten_compound_members kind ts

  pub flatten_member : CompoundKind → SemanticType → List SemanticType
  flatten_member union_kind (union _ unaliased ts) = flatten_compound_members union_kind ts
  flatten_member intersection_kind (intersection _ unaliased ts _) =
      flatten_compound_members intersection_kind ts
  flatten_member _ t = t ∷ []

-- `isMatch`
unfoldable pub is_intrinsic : IntrinsicName → SemanticType → Bool
unfolding same_intrinsic
is_intrinsic name (intrinsic _ i) = same_intrinsic i name
is_intrinsic name _ = false

-- The rest and the matches, if there are any.
unfoldable pub moved : List SemanticType → List SemanticType → List SemanticType → List SemanticType
moved members rest [] = members
moved members rest (t ∷ ts) = rest ++ (t ∷ ts)

unfoldable pub move_intrinsic_to_end : List SemanticType → IntrinsicName → List SemanticType
unfolding is_intrinsic moved
move_intrinsic_to_end members name =
    moved members (filter (λ member. not (is_intrinsic name member)) members)
      (filter (is_intrinsic name) members)

unfoldable pub sort_members : List SemanticType → List SemanticType
unfolding move_intrinsic_to_end
sort_members members =
    move_intrinsic_to_end (move_intrinsic_to_end members null_type) undefined_type

unfoldable pub is_boolean_literal : SemanticType → Text → Bool
is_boolean_literal (literal _ (text_value s) _) value = s === value
is_boolean_literal _ value = false

-- `findIndex`, with `none` for -1.
unfoldable pub find_index : (SemanticType → Bool) → List SemanticType → Option ℕ
find_index p [] = none
find_index p (t ∷ ts) =
    if p t then some 0 else elim (find_index p ts) [ none ↦ none | some i ↦ some (suc i) ]

-- The `flatMap` over the members from the index `i` on.
unfoldable pub replace_pair : ℕ → ℕ → SemanticType → List SemanticType → ℕ → List SemanticType
replace_pair kept removed node [] i = []
replace_pair kept removed node (t ∷ ts) i =
    let rest = replace_pair kept removed node ts (suc i) in
    if i == removed then rest else if i == kept then node ∷ rest else t ∷ rest

unfoldable pub simplify_pair : List SemanticType → Option ℕ → Option ℕ → List SemanticType
unfolding replace_pair
simplify_pair members (some i) (some j) =
    if leb i j
    then replace_pair i j (intrinsic unaliased boolean_type) members 0
    else replace_pair j i (intrinsic unaliased boolean_type) members 0
simplify_pair members _ _ = members

unfoldable pub simplify_boolean_literals : List SemanticType → List SemanticType
unfolding simplify_pair find_index is_boolean_literal
simplify_boolean_literals members =
    simplify_pair members (find_index (λ member. is_boolean_literal member (text "true")) members)
      (find_index (λ member. is_boolean_literal member (text "false")) members)

-- `isPlainIntrinsic(type, "never")`
unfoldable pub is_plain_never : SemanticType → Bool
is_plain_never (intrinsic unaliased never_type) = true
is_plain_never _ = false

-- The remaining members, if there are any.
unfoldable pub remaining_or : List SemanticType → List SemanticType → List SemanticType
remaining_or members [] = members
remaining_or members (t ∷ ts) = t ∷ ts

unfoldable pub remove_redundant_never : List SemanticType → List SemanticType
unfolding is_plain_never remaining_or
remove_redundant_never members =
    if leb (length members) 1
    then members
    else remaining_or members (filter (λ member. not (is_plain_never member)) members)
