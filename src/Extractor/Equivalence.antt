-- ===== src/Extractor/Equivalence.antt =====
-- packages/api-extractor/src/canonical/equivalence.ts: the comparison of semantic types. The source's
-- recursion on the left type is the structural recursion here.
pub mod Bindings
pub mod Wildcard
pub mod Keys
mod Parts
pub mod Members
pub mod Keyed
pub mod Reflexive
mod Tests
unfoldable pub use internal.Extractor.Equivalence.Parts.{
  indices_where, same_texts, is_rejected_by_key, members_match, named_or, unless_parameter,
  compare_named, compare_parameter, same_rendering, no_name_against, names_allow, same_count,
}
use internal.Prelude.{
  ℕ, zero, suc, Bool, true, false, Option, none, some, List, [], ◌∷◌, ◌++◌, Text, ◌===◌, ◌==◌, ◌&&◌,
  ◌||◌, not, if◌then◌else◌, length, any,
}
use internal.Extractor.Model.{
  SemanticType, array, class_node, component, enum_node, external, function, intersection,
  intrinsic, literal, object, tuple, type_operator, type_parameter, type_query, union, Alias,
  unaliased, aliased, TypeName, type_name, TypeArguments, no_argument, argument, Types, no_type,
  cons_type, OptionalType, absent_type, present_type, Properties, no_property, property,
  IndexSignature, no_index, index, Parameters, no_parameter, parameter, TypeParameters,
  no_type_parameter, generic, Signatures, no_signature, signature, to_list, same_key,
  same_resolution, same_flag,
}
use internal.Extractor.Render.{Runtime, render_type, type_name_of}
use internal.Extractor.Matching.{has_complete_matching}
use internal.Extractor.Equivalence.Bindings.{
  Context, empty_context, without_wildcard, has_active_bindings, with_signature_bindings,
  type_parameter_names_equivalent,
}
use internal.Extractor.Equivalence.Wildcard.{is_unaliased_any}
use internal.Extractor.Equivalence.Keys.{structural_key_multisets_match, property_key, property_at}

unfoldable mutual
  unfolding to_list same_key same_resolution same_flag render_type type_name_of without_wildcard
      indices_where with_signature_bindings property_key property_at same_texts same_count
      members_match compare_named compare_parameter same_rendering names_allow no_name_against

  pub are_equivalent : Runtime → SemanticType → SemanticType → Context → Bool
  are_equivalent js (array i a e ro) right ctx =
      compare_named ctx (array i a e ro) right (same_alias js a (type_name_of right) ctx)
        (elim right [
          | array _ _ e' ro' ↦ are_equivalent js e e' ctx && same_flag ro ro'
          | other ↦ same_rendering js (array i a e ro) other
        ])
  are_equivalent js (class_node i a cs ps ms ts) right ctx =
      compare_named ctx (class_node i a cs ps ms ts) right
        (same_alias js a (type_name_of right) ctx)
        (same_rendering js (class_node i a cs ps ms ts) right)
  are_equivalent js (component i a ps) right ctx =
      compare_named ctx (component i a ps) right (same_alias js a (type_name_of right) ctx)
        (same_rendering js (component i a ps) right)
  are_equivalent js (enum_node i n ms d) right ctx =
      compare_named ctx (enum_node i n ms d) right (same_name js n (type_name_of right) ctx)
        (same_rendering js (enum_node i n ms d) right)
  are_equivalent js (external n) right ctx =
      compare_named ctx (external n) right (same_name js n (type_name_of right) ctx)
        (same_rendering js (external n) right)
  are_equivalent js (function a ss) right ctx =
      compare_named ctx (function a ss) right (same_alias js a (type_name_of right) ctx)
        (elim right [
          | function a' ss' ↦ names_allow (same_alias js a a' ctx) && same_signatures js ss ss' ctx
          | other ↦ same_rendering js (function a ss) other
        ])
  are_equivalent js (intersection i a ts ps) right ctx =
      compare_named ctx (intersection i a ts ps) right (same_alias js a (type_name_of right) ctx)
        (elim right [
          | intersection _ _ ts' _ ↦
              members_match js ctx (to_list ts) (to_list ts') (same_types js ts ts' ctx)
                (adjacent js ts (to_list ts') ctx)
          | other ↦ same_rendering js (intersection i a ts ps) other
        ])
  are_equivalent js (intrinsic a n) right ctx =
      compare_named ctx (intrinsic a n) right (same_alias js a (type_name_of right) ctx)
        (same_rendering js (intrinsic a n) right)
  are_equivalent js (literal a v d) right ctx =
      compare_named ctx (literal a v d) right (same_alias js a (type_name_of right) ctx)
        (same_rendering js (literal a v d) right)
  are_equivalent js (object i a ps d ix) right ctx =
      compare_named ctx (object i a ps d ix) right (same_alias js a (type_name_of right) ctx)
        (elim right [
          | object _ _ ps' _ ix' ↦
              same_count ps ps' && (same_index js ix ix' ctx && same_properties js ps ps' ctx)
          | other ↦ same_rendering js (object i a ps d ix) other
        ])
  are_equivalent js (tuple i a ts ro) right ctx =
      compare_named ctx (tuple i a ts ro) right (same_alias js a (type_name_of right) ctx)
        (elim right [
          | tuple _ _ ts' ro' ↦ same_flag ro ro' && same_types js ts ts' ctx
          | other ↦ same_rendering js (tuple i a ts ro) other
        ])
  are_equivalent js (type_operator a t resolved k) right ctx =
      compare_named ctx (type_operator a t resolved k) right
        (same_alias js a (type_name_of right) ctx)
        (elim right [
          | type_operator _ t' resolved' k' ↦
              same_resolution k k'
              && (are_equivalent js t t' (without_wildcard ctx)
                  && are_equivalent js resolved resolved' (without_wildcard ctx))
          | other ↦ same_rendering js (type_operator a t resolved k) other
        ])
  are_equivalent js (type_parameter name c d) right ctx = compare_parameter ctx name right
  are_equivalent js (type_query i n) right ctx =
      compare_named ctx (type_query i n) right (no_name_against (type_name_of right))
        (same_rendering js (type_query i n) right)
  are_equivalent js (union i a ts) right ctx =
      compare_named ctx (union i a ts) right (same_alias js a (type_name_of right) ctx)
        (elim right [
          | union _ _ ts' ↦
              members_match js ctx (to_list ts) (to_list ts') (same_types js ts ts' ctx)
                (adjacent js ts (to_list ts') ctx)
          | other ↦ same_rendering js (union i a ts) other
        ])

  -- `none` if neither has a name.
  pub same_alias : Runtime → Alias → Alias → Context → Option Bool
  same_alias js unaliased unaliased ctx = none
  same_alias js unaliased (aliased m) ctx = some false
  same_alias js (aliased n) m ctx = same_name js n m ctx

  -- `typeNamesAreEquivalent`; a name never matches a form that has none.
  pub same_name : Runtime → TypeName → Alias → Context → Option Bool
  same_name js (type_name n ns args) right ctx = elim right [
    | unaliased ↦ some false
    | aliased (type_name m ms args') ↦
        some ((n === m) && (same_texts ns ms && same_arguments js args args' ctx))
  ]

  pub same_arguments : Runtime → TypeArguments → TypeArguments → Context → Bool
  same_arguments js no_argument no_argument ctx = true
  same_arguments js (argument t _ rest) (argument t' _ rest') ctx =
      are_equivalent js t t' ctx && same_arguments js rest rest' ctx
  same_arguments js _ _ ctx = false

  -- The members pairwise, in order.
  pub same_types : Runtime → Types → Types → Context → Bool
  same_types js no_type no_type ctx = true
  same_types js (cons_type t ts) (cons_type t' ts') ctx =
      are_equivalent js t t' ctx && same_types js ts ts' ctx
  same_types js _ _ ctx = false

  -- For each left member the indices of the right members that are equivalent to it.
  pub adjacent : Runtime → Types → List SemanticType → Context → List (List ℕ)
  adjacent js no_type rights ctx = []
  adjacent js (cons_type t ts) rights ctx =
      indices_where (λ right. are_equivalent js t right ctx) rights 0 ∷ adjacent js ts rights ctx

  -- `signaturesAreEquivalent` for each signature.
  pub same_signatures : Runtime → Signatures → Signatures → Context → Bool
  same_signatures js no_signature no_signature ctx = true
  same_signatures js (signature ps t gs rest) (signature ps' t' gs' rest') ctx =
      elim (with_signature_bindings ctx gs gs') [
        | none ↦ false
        | some inner ↦
            same_generics js gs gs' inner
            && (are_equivalent js t t' inner && same_parameters js ps ps' inner)
      ]
      && same_signatures js rest rest' ctx
  same_signatures js _ _ ctx = false

  pub same_parameters : Runtime → Parameters → Parameters → Context → Bool
  same_parameters js no_parameter no_parameter ctx = true
  same_parameters js (parameter t n _ o _ rest) (parameter t' n' _ o' _ rest') ctx =
      ((n === n') && (same_flag o o' && are_equivalent js t t' ctx))
      && same_parameters js rest rest' ctx
  same_parameters js _ _ ctx = false

  -- `typeParametersAreEquivalent`
  pub same_generics : Runtime → TypeParameters → TypeParameters → Context → Bool
  same_generics js no_type_parameter _ ctx = true
  same_generics js (generic _ c d rest) (generic _ c' d' rest') ctx =
      (same_optional js c c' ctx && same_optional js d d' ctx) && same_generics js rest rest' ctx
  same_generics js (generic _ c d rest) no_type_parameter ctx = false

  -- `optionalTypesAreEquivalent`
  pub same_optional : Runtime → OptionalType → OptionalType → Context → Bool
  same_optional js absent_type absent_type ctx = true
  same_optional js (present_type t) (present_type t') ctx = are_equivalent js t t' ctx
  same_optional js _ _ ctx = false

  pub same_index : Runtime → IndexSignature → IndexSignature → Context → Bool
  same_index js no_index no_index ctx = true
  same_index js (index _ k t) (index _ k' t') ctx = same_key k k' && are_equivalent js t t' ctx
  same_index js _ _ ctx = false

  pub same_properties : Runtime → Properties → Properties → Context → Bool
  same_properties js no_property rights ctx = true
  same_properties js (property n t _ o rest) rights ctx =
      elim (property_at (property_key n o) rights) [
        | none ↦ false
        | some t' ↦ are_equivalent js t t' ctx
      ]
      && same_properties js rest rights ctx

-- `areFunctionsEquivalent`
unfoldable pub same_functions : Runtime → Alias → Signatures → Alias → Signatures → Context → Bool
unfolding names_allow same_alias
same_functions js a ss a' ss' ctx =
    names_allow (same_alias js a a' ctx) && same_signatures js ss ss' ctx

-- `areEquivalentIgnoringAny`, `areEquivalentStrictly` and `areFunctionsEquivalentIgnoringAny`.
unfoldable pub are_equivalent_ignoring_any : Runtime → SemanticType → SemanticType → Bool
unfolding are_equivalent empty_context
are_equivalent_ignoring_any js left right = are_equivalent js left right (empty_context true)

unfoldable pub are_equivalent_strictly : Runtime → SemanticType → SemanticType → Bool
unfolding are_equivalent empty_context
are_equivalent_strictly js left right = are_equivalent js left right (empty_context false)

unfoldable pub are_functions_equivalent_ignoring_any :
    Runtime → Alias → Signatures → Alias → Signatures → Bool
unfolding same_functions empty_context
are_functions_equivalent_ignoring_any js a ss a' ss' =
    same_functions js a ss a' ss' (empty_context true)
