-- ===== src/Extractor/Canonicalize.antt =====
-- packages/api-extractor/src/canonical/canonicalize.ts: the canonical unions and intersections.
pub mod Members
pub mod Deduplicate
pub mod Flat
pub mod Order
pub mod Keys
pub mod Distinct
pub mod Kept
pub mod Ranks
pub mod Sorted
pub mod Form
mod Tests
use internal.Prelude.{ℕ, Option, none, some, List, [], ◌∷◌, Text, if◌then◌else◌}
use internal.Extractor.Model.{
  SemanticType, intersection, union, Alias, unaliased, aliased, type_name, Types, no_type,
  cons_type, Properties, of_list,
}
use internal.Extractor.Render.{Runtime}
use internal.Extractor.Canonicalize.Members.{
  union_kind, intersection_kind, flatten_compound_members, sort_members, simplify_boolean_literals,
  remove_redundant_never,
}
use internal.Extractor.Canonicalize.Deduplicate.{deduplicate_members}

unfoldable pub canonicalize_union_members : Runtime → Types → List SemanticType
unfolding deduplicate_members sort_members remove_redundant_never simplify_boolean_literals
    flatten_compound_members
canonicalize_union_members js types =
    let members = flatten_compound_members union_kind types in
    let with_boolean = simplify_boolean_literals members in
    let without_never = remove_redundant_never with_boolean in
    deduplicate_members js (sort_members without_never)

unfoldable pub canonicalize_intersection_members : Runtime → Types → List SemanticType
unfolding deduplicate_members sort_members flatten_compound_members
canonicalize_intersection_members js types =
    deduplicate_members js (sort_members (flatten_compound_members intersection_kind types))

unfoldable pub public_name : Alias → Alias
public_name unaliased = unaliased
public_name (aliased (type_name [] _ _)) = unaliased
public_name (aliased (type_name (c ∷ name) ns args)) = aliased (type_name (c ∷ name) ns args)

-- `node` is the identity of the node that is made, if one is.
unfoldable pub union_type : Runtime → ℕ → Alias → Types → SemanticType
unfolding canonicalize_union_members public_name of_list
union_type js node name (cons_type t no_type) = t
union_type js node name types =
    union node (public_name name) (of_list (canonicalize_union_members js types))

unfoldable pub intersection_type : Runtime → ℕ → Alias → Types → Properties → SemanticType
unfolding canonicalize_intersection_members public_name of_list
intersection_type js node name (cons_type t no_type) properties = t
intersection_type js node name types properties =
    intersection node (public_name name) (of_list (canonicalize_intersection_members js types))
      properties
