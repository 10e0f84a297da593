-- ===== src/Extractor/Canonicalize/Deduplicate.antt =====
-- packages/api-extractor/src/canonical/canonicalize.ts: `deduplicateMembers`, its loop as a fold over
-- the five variables of the function.
use internal.Prelude.{
  ℕ, zero, suc, Bool, true, false, Option, none, some, List, [], ◌∷◌, ◌++◌, Text, text, ◌===◌, ◌==◌,
  ◌&&◌, not, if◌then◌else◌, length, any,
}
use internal.Extractor.Model.{
  SemanticType, array, class_node, component, enum_node, external, function, intersection,
  intrinsic, literal, object, tuple, type_operator, type_parameter, type_query, union, Alias,
  unaliased, aliased, Signatures,
}
use internal.Extractor.Render.{Runtime, render_type_name, intrinsic_text, value_text}
use internal.Extractor.Matching.Cells.{put}
use internal.Extractor.Equivalence.{are_equivalent_strictly, are_functions_equivalent_ignoring_any}
use internal.Extractor.Equivalence.Wildcard.{contains_any}

pub record Deduplication : Type 0 where
  pub result : List SemanticType
  pub function_indexes : List ℕ
  pub type_operator_indexes : List ℕ
  pub seen_keys : List Text
  pub seen_identities : List ℕ

unfoldable pub scalar_member_key : Runtime → SemanticType → Option Text
unfolding value_text render_type_name intrinsic_text
scalar_member_key js (literal _ v _) = some (text "literal:" ++ value_text js v)
scalar_member_key js (external n) = some (text "external:" ++ render_type_name js n)
scalar_member_key js (type_parameter name _ _) = some (text "typeparam:" ++ name)
scalar_member_key js (intrinsic unaliased i) = some (text "intrinsic:" ++ intrinsic_text i)
scalar_member_key js (intrinsic (aliased n) i) = some (text "intrinsic:" ++ render_type_name js n)
scalar_member_key js _ = none

-- The identity of a node; a member that has a key, a function or a type operator is not asked for one.
unfoldable pub node_identity : SemanticType → ℕ
node_identity (array i _ _ _) = i
node_identity (class_node i _ _ _ _ _) = i
node_identity (component i _ _) = i
node_identity (enum_node i _ _ _) = i
node_identity (intersection i _ _ _) = i
node_identity (object i _ _ _ _) = i
node_identity (tuple i _ _ _) = i
node_identity (type_query i _) = i
node_identity (union i _ _) = i
node_identity _ = 0

-- `result[index]`
unfoldable pub member_at : ℕ → List SemanticType → Option SemanticType
member_at i [] = none
member_at zero (t ∷ ts) = some t
member_at (suc i) (t ∷ ts) = member_at i ts

unfoldable pub is_same_function : Runtime → Alias → Signatures → Option SemanticType → Bool
unfolding are_functions_equivalent_ignoring_any
is_same_function js a ss (some (function a' ss')) =
    are_functions_equivalent_ignoring_any js a' ss' a ss
is_same_function js a ss _ = false

-- `functionIndexes.find`
unfoldable pub existing_function :
    Runtime → Alias → Signatures → List SemanticType → List ℕ → Option ℕ
unfolding is_same_function member_at
existing_function js a ss result [] = none
existing_function js a ss result (i ∷ is) =
    if is_same_function js a ss (member_at i result)
    then some i
    else existing_function js a ss result is

unfoldable pub is_same_operator : Runtime → SemanticType → Option SemanticType → Bool
unfolding are_equivalent_strictly
is_same_operator js type none = false
is_same_operator js type (some existing) = are_equivalent_strictly js existing type

unfoldable pub has_operator : Runtime → SemanticType → List SemanticType → List ℕ → Bool
unfolding is_same_operator member_at
has_operator js type result is = any (λ i. is_same_operator js type (member_at i result)) is

unfoldable pub is_fallback : SemanticType → Option SemanticType → Bool
unfolding contains_any
is_fallback type none = false
is_fallback type (some existing) = contains_any existing && not (contains_any type)

unfoldable pub push : SemanticType → Deduplication → Deduplication
push type s = record s { result = s.result ++ (type ∷ []) }

unfoldable pub add_function : Option ℕ → SemanticType → Deduplication → Deduplication
unfolding push is_fallback member_at
add_function none type s =
    push type (record s { function_indexes = s.function_indexes ++ (length s.result ∷ []) })
add_function (some i) type s =
    if is_fallback type (member_at i s.result) then record s { result = put s.result i type } else s

unfoldable pub add_operator : Bool → SemanticType → Deduplication → Deduplication
unfolding push
add_operator true type s = s
add_operator false type s =
    push type
      (record s { type_operator_indexes = s.type_operator_indexes ++ (length s.result ∷ []) })

unfoldable pub add_keyed : Option Text → SemanticType → Deduplication → Deduplication
unfolding push node_identity
add_keyed none type s =
    if any (λ i. i == node_identity type) s.seen_identities
    then s
    else push type (record s { seen_identities = s.seen_identities ++ (node_identity type ∷ []) })
add_keyed (some key) type s =
    if any (λ k. k === key) s.seen_keys
    then s
    else push type (record s { seen_keys = s.seen_keys ++ (key ∷ []) })

unfoldable pub add_member : Runtime → SemanticType → Deduplication → Deduplication
unfolding existing_function has_operator add_function add_operator add_keyed scalar_member_key
add_member js (function a ss) s =
    add_function (existing_function js a ss s.result s.function_indexes) (function a ss) s
add_member js (type_operator a t resolved k) s =
    add_operator (has_operator js (type_operator a t resolved k) s.result s.type_operator_indexes)
      (type_operator a t resolved k) s
add_member js type s = add_keyed (scalar_member_key js type) type s

unfoldable pub add_members : Runtime → List SemanticType → Deduplication → Deduplication
unfolding add_member
add_members js [] s = s
add_members js (t ∷ ts) s = add_members js ts (add_member js t s)

abbrev pub nothing_added : Deduplication
nothing_added = record {
  result = [];
  function_indexes = [];
  type_operator_indexes = [];
  seen_keys = [];
  seen_identities = [];
}

unfoldable pub deduplicate_members : Runtime → List SemanticType → List SemanticType
unfolding add_members
deduplicate_members js types = (add_members js types nothing_added).result
