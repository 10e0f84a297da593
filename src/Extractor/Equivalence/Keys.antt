-- ===== src/Extractor/Equivalence/Keys.antt =====
-- packages/api-extractor/src/canonical/equivalence.ts: the structural keys of compound members, and
-- the keys of properties.
use internal.Prelude.{
  ℕ, suc, Bool, false, Option, none, some, List, [], ◌∷◌, ◌++◌, Text, text, ◌===◌, ◌==◌, ◌&&◌,
  if◌then◌else◌, get, set, length, all,
}
use internal.Extractor.Model.{
  SemanticType, array, class_node, component, enum_node, external, function, intersection,
  intrinsic, literal, object, tuple, type_operator, type_parameter, type_query, union, Properties,
  no_property, property,
}
use internal.Extractor.Render.{Runtime, value_text, intrinsic_text}

-- The field `kind`.
unfoldable pub kind_text : SemanticType → Text
kind_text (array _ _ _ _) = text "array"
kind_text (class_node _ _ _ _ _ _) = text "class"
kind_text (component _ _ _) = text "component"
kind_text (enum_node _ _ _ _) = text "enum"
kind_text (external _) = text "external"
kind_text (function _ _) = text "function"
kind_text (intersection _ _ _ _) = text "intersection"
kind_text (intrinsic _ _) = text "intrinsic"
kind_text (literal _ _ _) = text "literal"
kind_text (object _ _ _ _ _) = text "object"
kind_text (tuple _ _ _ _) = text "tuple"
kind_text (type_operator _ _ _ _) = text "typeOperator"
kind_text (type_parameter _ _ _) = text "typeParameter"
kind_text (type_query _ _) = text "typeQuery"
kind_text (union _ _ _) = text "union"

-- Only a type parameter has a field `name`.
unfoldable pub own_name : SemanticType → Text
own_name (type_parameter name _ _) = name
own_name _ = []

unfoldable pub own_value : Runtime → SemanticType → Text
unfolding value_text
own_value js (literal _ v _) = value_text js v
own_value js _ = []

unfoldable pub own_intrinsic : SemanticType → Text
unfolding intrinsic_text
own_intrinsic (intrinsic _ i) = text "|" ++ intrinsic_text i
own_intrinsic _ = []

unfoldable pub member_structural_key : Runtime → SemanticType → Text
unfolding kind_text own_name own_value own_intrinsic
member_structural_key js t =
    kind_text t ++ (text "|" ++ (own_name t ++ (text "|" ++ (own_value js t ++ own_intrinsic t))))

-- `(counts.get(key) ?? 0) + 1`
unfoldable pub one_more : Option ℕ → ℕ
one_more none = 1
one_more (some n) = suc n

unfoldable pub count_keys : List Text → List (Text × ℕ) → List (Text × ℕ)
unfolding one_more
count_keys [] counts = counts
count_keys (k ∷ ks) counts = count_keys ks (set k (one_more (get k counts)) counts)

unfoldable pub keys_of : Runtime → List SemanticType → List Text
unfolding member_structural_key
keys_of js [] = []
keys_of js (t ∷ ts) = member_structural_key js t ∷ keys_of js ts

unfoldable pub count_structural_keys : Runtime → List SemanticType → List (Text × ℕ)
unfolding count_keys keys_of
count_structural_keys js ts = count_keys (keys_of js ts) []

unfoldable pub has_count : List (Text × ℕ) → Text × ℕ → Bool
has_count counts (k, n) = elim (get k counts) [ none ↦ false | some m ↦ m == n ]

unfoldable pub structural_key_multisets_match :
    Runtime → List SemanticType → List SemanticType → Bool
unfolding count_structural_keys has_count
structural_key_multisets_match js left right =
    (length (count_structural_keys js left) == length (count_structural_keys js right))
    && all (has_count (count_structural_keys js right)) (count_structural_keys js left)

-- `propertyKey`
unfoldable pub property_key : Text → Bool → Text
property_key name is_optional =
    name ++ (text ":" ++ (if is_optional then text "true" else text "false"))

-- `rightProperties.get`: the last property with the key.
unfoldable pub property_at : Text → Properties → Option SemanticType
unfolding property_key
property_at k no_property = none
property_at k (property name t _ is_optional rest) = elim (property_at k rest) [
  | some u ↦ some u
  | none ↦ if property_key name is_optional === k then some t else none
]
