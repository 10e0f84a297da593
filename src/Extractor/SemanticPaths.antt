-- ===== src/Extractor/SemanticPaths.antt =====
-- packages/api-extractor/src/parse/semantic-paths.ts: the paths into a semantic module model. The set
-- that a traversal adds to is the list of the paths that it adds, in their order.
pub mod Slots
pub mod Found
pub mod Listed
pub mod Places
pub mod Flattened
pub mod Props
mod Tests
use internal.Prelude.{
  ℕ, zero, suc, Bool, true, false, Option, none, some, List, [], ◌∷◌, ◌++◌, Text, text, ◌===◌, ◌&&◌,
  if◌then◌else◌, any, drop, length,
}
use internal.Extractor.Model.{
  EnumMember, SemanticType, array, class_node, component, enum_node, external, function,
  intersection, intrinsic, literal, object, tuple, type_operator, type_parameter, type_query, union,
  Types, no_type, cons_type, Properties, no_property, property, IndexSignature, no_index, index,
  Parameters, no_parameter, parameter, Signatures, no_signature, signature, Constructors,
  no_constructor, constructor, ClassProperties, no_class_property, class_property, Methods,
  no_method, method,
}
use internal.Extractor.Canonicalize.Keys.{add_keys}

abbrev pub SemanticPath : Type 0
SemanticPath = List Text

-- `String(index)`
abbrev pub IndexText : Type 0
IndexText = ℕ → Text

unfoldable pub export_semantic_path : Text → SemanticPath
export_semantic_path name = name ∷ []

unfoldable pub object_property_semantic_path : SemanticPath → Text → SemanticPath
object_property_semantic_path owner name = owner ++ (text "properties" ∷ name ∷ [])

unfoldable pub component_prop_semantic_path : SemanticPath → Text → SemanticPath
component_prop_semantic_path owner name = owner ++ (text "props" ∷ name ∷ [])

unfoldable pub method_semantic_path : SemanticPath → Text → SemanticPath
method_semantic_path owner name = owner ++ (text "methods" ∷ name ∷ [])

unfoldable pub call_signature_semantic_path : IndexText → SemanticPath → ℕ → SemanticPath
call_signature_semantic_path show owner i = owner ++ (text "callSignatures" ∷ show i ∷ [])

unfoldable pub construct_signature_semantic_path : IndexText → SemanticPath → ℕ → SemanticPath
construct_signature_semantic_path show owner i = owner ++ (text "constructSignatures" ∷ show i ∷ [])

unfoldable pub parameter_semantic_path : SemanticPath → Text → SemanticPath
parameter_semantic_path owner name = owner ++ (text "parameters" ∷ name ∷ [])

unfoldable pub return_value_semantic_path : SemanticPath → SemanticPath
return_value_semantic_path owner = owner ++ (text "returnValueType" ∷ [])

unfoldable pub enum_member_semantic_path : SemanticPath → Text → SemanticPath
enum_member_semantic_path owner name = owner ++ (text "members" ∷ name ∷ [])

unfoldable pub index_signature_key_semantic_path : SemanticPath → SemanticPath
index_signature_key_semantic_path owner = owner ++ (text "indexSignature" ∷ text "key" ∷ [])

unfoldable pub enum_member_paths : List EnumMember → SemanticPath → List SemanticPath
unfolding enum_member_semantic_path
enum_member_paths [] path = []
enum_member_paths (m ∷ ms) path = enum_member_semantic_path path m.name ∷ enum_member_paths ms path

-- `collectSemanticTypePaths`
unfoldable mutual
  unfolding object_property_semantic_path component_prop_semantic_path method_semantic_path
      call_signature_semantic_path construct_signature_semantic_path parameter_semantic_path
      return_value_semantic_path index_signature_key_semantic_path enum_member_paths

  pub type_paths : IndexText → SemanticType → SemanticPath → List SemanticPath
  type_paths show (array _ _ t _) path = type_paths show t path
  type_paths show (class_node _ _ cs ps ms _) path =
      constructor_paths show cs 0 path
      ++ (class_property_paths show ps path ++ method_paths show ms path)
  type_paths show (component _ _ ps) path = prop_paths show ps path
  type_paths show (enum_node _ _ ms _) path = enum_member_paths ms path
  type_paths show (function _ ss) path = signature_paths show ss 0 path
  type_paths show (intersection _ _ ts ps) path =
      property_paths show ps path ++ member_paths show ts path
  type_paths show (object _ _ ps _ ix) path =
      property_paths show ps path ++ index_paths show ix path
  type_paths show (tuple _ _ ts _) path = member_paths show ts path
  type_paths show (type_operator _ t resolved _) path =
      type_paths show t path ++ type_paths show resolved path
  type_paths show (union _ _ ts) path = member_paths show ts path
  type_paths show _ path = []

  pub member_paths : IndexText → Types → SemanticPath → List SemanticPath
  member_paths show no_type path = []
  member_paths show (cons_type t ts) path = type_paths show t path ++ member_paths show ts path

  pub property_paths : IndexText → Properties → SemanticPath → List SemanticPath
  property_paths show no_property path = []
  property_paths show (property name t _ _ rest) path =
      (object_property_semantic_path path name
        ∷ type_paths show t (object_property_semantic_path path name))
      ++ property_paths show rest path

  pub prop_paths : IndexText → Properties → SemanticPath → List SemanticPath
  prop_paths show no_property path = []
  prop_paths show (property name t _ _ rest) path =
      (component_prop_semantic_path path name
        ∷ type_paths show t (component_prop_semantic_path path name))
      ++ prop_paths show rest path

  pub index_paths : IndexText → IndexSignature → SemanticPath → List SemanticPath
  index_paths show no_index path = []
  index_paths show (index _ _ t) path =
      index_signature_key_semantic_path path ∷ type_paths show t path

  pub parameter_paths : IndexText → Parameters → SemanticPath → List SemanticPath
  parameter_paths show no_parameter path = []
  parameter_paths show (parameter t name _ _ _ rest) path =
      (parameter_semantic_path path name ∷ type_paths show t (parameter_semantic_path path name))
      ++ parameter_paths show rest path

  pub signature_paths : IndexText → Signatures → ℕ → SemanticPath → List SemanticPath
  signature_paths show no_signature i path = []
  signature_paths show (signature ps t _ rest) i path =
      let own = call_signature_semantic_path show path i in
      (own
        ∷ (parameter_paths show ps own
            ++ (return_value_semantic_path own
                ∷ type_paths show t (return_value_semantic_path own))))
      ++ signature_paths show rest (suc i) path

  pub constructor_paths : IndexText → Constructors → ℕ → SemanticPath → List SemanticPath
  constructor_paths show no_constructor i path = []
  constructor_paths show (constructor ps _ rest) i path =
      let own = construct_signature_semantic_path show path i in
      (own ∷ parameter_paths show ps own) ++ constructor_paths show rest (suc i) path

  pub class_property_paths : IndexText → ClassProperties → SemanticPath → List SemanticPath
  class_property_paths show no_class_property path = []
  class_property_paths show (class_property name t _ _ _ _ rest) path =
      (object_property_semantic_path path name
        ∷ type_paths show t (object_property_semantic_path path name))
      ++ class_property_paths show rest path

  pub method_paths : IndexText → Methods → SemanticPath → List SemanticPath
  method_paths show no_method path = []
  method_paths show (method name _ _ ss rest) path =
      (method_semantic_path path name ∷ signature_paths show ss 0 (method_semantic_path path name))
      ++ method_paths show rest path

-- The fields of `ExportNode` that are read here.
pub record ExportNode : Type 0 where
  pub name : Text
  pub type : SemanticType

-- The paths that the loop of `collectSemanticPaths` adds.
unfoldable pub export_paths : IndexText → List ExportNode → List SemanticPath
unfolding type_paths export_semantic_path
export_paths show [] = []
export_paths show (e ∷ es) =
    (export_semantic_path e.name ∷ type_paths show e.type (export_semantic_path e.name))
    ++ export_paths show es

-- `semanticPathKey` of each path; `key` is `JSON.stringify`.
unfoldable pub path_keys : (SemanticPath → Text) → List SemanticPath → List Text
path_keys key [] = []
path_keys key (path ∷ paths) = key path ∷ path_keys key paths

unfoldable pub collect_semantic_paths :
    (SemanticPath → Text) → IndexText → List ExportNode → List Text
unfolding export_paths path_keys
collect_semantic_paths key show es = add_keys (path_keys key (export_paths show es)) []

unfoldable pub starts_with_path : SemanticPath → SemanticPath → Bool
starts_with_path path [] = true
starts_with_path [] (q ∷ prefix) = false
starts_with_path (p ∷ path) (q ∷ prefix) = (p === q) && starts_with_path path prefix

unfoldable pub named_segment : SemanticPath → Option (Text × SemanticPath)
named_segment [] = none
named_segment (name ∷ rest) = some (name, rest)

-- The path of a property of a parameter of a call signature.
unfoldable pub parameter_property : SemanticPath → Option (Text × SemanticPath)
parameter_property (a ∷ b ∷ c ∷ d ∷ e ∷ name ∷ rest) =
    if (a === text "callSignatures") && ((c === text "parameters") && (e === text "properties"))
    then some (name, rest)
    else none
parameter_property _ = none

unfoldable pub component_property_from_provenance_path : SemanticPath → Option (Text × SemanticPath)
unfolding named_segment parameter_property
component_property_from_provenance_path [] = none
component_property_from_provenance_path (a ∷ rest) =
    if a === text "properties" then named_segment rest else parameter_property (a ∷ rest)

-- `names` is the set of the component's property names.
unfoldable pub rewritten_path :
    SemanticPath → List Text → Option (Text × SemanticPath) → Option SemanticPath
unfolding component_prop_semantic_path
rewritten_path owner names none = none
rewritten_path owner names (some (name, rest)) =
    if any (λ n. n === name) names
    then some (component_prop_semantic_path owner name ++ rest)
    else none

unfoldable pub component_prop_path_from_provenance_path :
    SemanticPath → SemanticPath → List Text → Option SemanticPath
unfolding starts_with_path component_property_from_provenance_path rewritten_path
component_prop_path_from_provenance_path path owner names =
    if starts_with_path path owner
    then rewritten_path owner names
        (component_property_from_provenance_path (drop (length owner) path))
    else none
