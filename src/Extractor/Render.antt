-- ===== src/Extractor/Render.antt =====
-- packages/api-extractor/src/canonical/render.ts: the text of a semantic type.
use internal.Prelude.{
  ℕ, Bool, true, false, Option, none, some, List, [], ◌∷◌, ◌++◌, Text, text, if◌then◌else◌,
}
use internal.Extractor.Model.{
  IntrinsicName, any_type, bigint_type, boolean_type, never_type, null_type, number_type,
  string_type, symbol_type, undefined_type, unknown_type, void_type, LiteralValue, text_value,
  number_value, boolean_value, IndexKey, string_key, number_key, SemanticType, array, class_node,
  component, enum_node, external, function, intersection, intrinsic, literal, object, tuple,
  type_operator, type_parameter, type_query, union, Alias, unaliased, aliased, TypeName, type_name,
  TypeArguments, no_argument, argument, Types, no_type, cons_type, Properties, no_property,
  property, IndexSignature, no_index, index, Parameters, no_parameter, parameter, TypeParameters,
  no_type_parameter, generic, Signatures, no_signature, signature,
}

-- `JSON.stringify` of a literal's value, and `String` of a number.
pub record Runtime : Type 0 where
  pub json : LiteralValue → Text
  pub number_text : ℕ → Text

-- `String(value)`
unfoldable pub value_text : Runtime → LiteralValue → Text
value_text js (text_value s) = s
value_text js (number_value n) = js.number_text n
value_text js (boolean_value true) = text "true"
value_text js (boolean_value false) = text "false"

-- `Array.join`
unfoldable pub join_with : Text → List Text → Text
join_with sep [] = []
join_with sep (p ∷ []) = p
join_with sep (p ∷ q ∷ ps) = p ++ (sep ++ join_with sep (q ∷ ps))

unfoldable pub intrinsic_text : IntrinsicName → Text
intrinsic_text any_type = text "any"
intrinsic_text bigint_type = text "bigint"
intrinsic_text boolean_type = text "boolean"
intrinsic_text never_type = text "never"
intrinsic_text null_type = text "null"
intrinsic_text number_type = text "number"
intrinsic_text string_type = text "string"
intrinsic_text symbol_type = text "symbol"
intrinsic_text undefined_type = text "undefined"
intrinsic_text unknown_type = text "unknown"
intrinsic_text void_type = text "void"

unfoldable pub index_key_text : IndexKey → Text
index_key_text string_key = text "string"
index_key_text number_key = text "number"

-- `typeNameOf`
unfoldable pub type_name_of : SemanticType → Alias
type_name_of (array _ a _ _) = a
type_name_of (class_node _ a _ _ _ _) = a
type_name_of (component _ a _) = a
type_name_of (enum_node _ n _ _) = aliased n
type_name_of (external n) = aliased n
type_name_of (function a _) = a
type_name_of (intersection _ a _ _) = a
type_name_of (intrinsic a _) = a
type_name_of (literal a _ _) = a
type_name_of (object _ a _ _ _) = a
type_name_of (tuple _ a _ _) = a
type_name_of (type_operator a _ _ _) = a
type_name_of (type_parameter _ _ _) = unaliased
type_name_of (type_query _ _) = unaliased
type_name_of (union _ a _) = a

unfoldable pub is_unaliased : Alias → Bool
is_unaliased unaliased = true
is_unaliased (aliased _) = false

unfoldable pub is_function : SemanticType → Bool
is_function (function _ _) = true
is_function _ = false

unfoldable pub requires_element_parentheses : SemanticType → Bool
unfolding is_unaliased
requires_element_parentheses (type_operator _ _ _ _) = true
requires_element_parentheses (function _ _) = true
requires_element_parentheses (array _ a _ ro) = if is_unaliased a then ro else false
requires_element_parentheses (tuple _ a _ ro) = if is_unaliased a then ro else false
requires_element_parentheses _ = false

unfoldable pub parenthesized : Bool → Text → Text
parenthesized true t = text "(" ++ (t ++ text ")")
parenthesized false t = t

unfoldable pub readonly_prefix : Bool → Text
readonly_prefix true = text "readonly "
readonly_prefix false = []

-- `name<arguments>` with its namespaces before it.
unfoldable pub qualified : List Text → Text → Text
unfolding join_with
qualified [] rendered = rendered
qualified (n ∷ ns) rendered = join_with (text ".") (n ∷ ns) ++ (text "." ++ rendered)

unfoldable pub bracketed : List Text → Text
unfolding join_with
bracketed [] = []
bracketed (t ∷ ts) = text "<" ++ (join_with (text ", ") (t ∷ ts) ++ text ">")

unfoldable pub generic_names : TypeParameters → List Text
generic_names no_type_parameter = []
generic_names (generic name _ _ rest) = name ∷ generic_names rest

unfoldable pub parameter_text : Text → Text → Bool → Option Text → Text
parameter_text name rendered is_optional initial =
    name
    ++ (text ": "
        ++ (rendered
            ++ ((if is_optional then text "?" else [])
                ++ elim initial [ none ↦ [] | some v ↦ text " = " ++ v ])))

unfoldable pub key_name : Option Text → Text
key_name none = text "key"
key_name (some name) = name

unfoldable mutual
  unfolding requires_element_parentheses parenthesized readonly_prefix join_with intrinsic_text
      is_function qualified bracketed generic_names parameter_text key_name index_key_text

  pub render_type : Runtime → SemanticType → Text
  render_type js (array _ (aliased n) _ _) = render_type_name js n
  render_type js (array _ unaliased e ro) =
      readonly_prefix ro
      ++ (parenthesized (requires_element_parentheses e) (render_type js e) ++ text "[]")
  render_type js (class_node _ (aliased n) _ _ _ _) = render_type_name js n
  render_type js (class_node _ unaliased _ _ _ _) = text "class"
  render_type js (component _ (aliased n) _) = render_type_name js n
  render_type js (component _ unaliased _) = []
  render_type js (enum_node _ n _ _) = render_type_name js n
  render_type js (external n) = render_type_name js n
  render_type js (function (aliased n) _) = render_type_name js n
  render_type js (function unaliased ss) = join_with (text " | ") (render_signatures js ss)
  render_type js (intersection _ (aliased n) _ _) = render_type_name js n
  render_type js (intersection _ unaliased ts _) =
      parenthesized true (join_with (text " & ") (render_types js ts))
  render_type js (intrinsic (aliased n) _) = render_type_name js n
  render_type js (intrinsic unaliased i) = intrinsic_text i
  render_type js (literal (aliased n) _ _) = render_type_name js n
  render_type js (literal unaliased v _) = js.json v
  render_type js (object _ (aliased n) _ _ _) = render_type_name js n
  render_type js (object _ unaliased ps _ ix) =
      text "{ "
      ++ (join_with (text ", ") (render_index js ix ++ render_properties js ps) ++ text " }")
  render_type js (tuple _ (aliased n) _ _) = render_type_name js n
  render_type js (tuple _ unaliased ts ro) =
      readonly_prefix ro ++ (text "[" ++ (join_with (text ", ") (render_types js ts) ++ text "]"))
  render_type js (type_operator (aliased n) _ _ _) = render_type_name js n
  render_type js (type_operator unaliased t _ _) =
      text "keyof " ++ parenthesized (is_function t) (render_type js t)
  render_type js (type_parameter name _ _) = name
  render_type js (type_query _ name) = text "typeof " ++ name
  render_type js (union _ (aliased n) _) = render_type_name js n
  render_type js (union _ unaliased ts) =
      parenthesized true (join_with (text " | ") (render_types js ts))

  pub render_type_name : Runtime → TypeName → Text
  render_type_name js (type_name name ns args) =
      qualified ns (name ++ bracketed (render_arguments js args))

  pub render_arguments : Runtime → TypeArguments → List Text
  render_arguments js no_argument = []
  render_arguments js (argument t _ rest) = render_type js t ∷ render_arguments js rest

  pub render_types : Runtime → Types → List Text
  render_types js no_type = []
  render_types js (cons_type t ts) = render_type js t ∷ render_types js ts

  -- `renderCallSignature`
  pub render_signatures : Runtime → Signatures → List Text
  render_signatures js no_signature = []
  render_signatures js (signature ps r gs rest) =
      (bracketed (generic_names gs)
        ++ (parenthesized true (join_with (text ", ") (render_parameters js ps))
            ++ (text " => " ++ render_type js r)))
      ∷ render_signatures js rest

  pub render_parameters : Runtime → Parameters → List Text
  render_parameters js no_parameter = []
  render_parameters js (parameter t name _ is_optional initial rest) =
      parameter_text name (render_type js t) is_optional initial ∷ render_parameters js rest

  pub render_properties : Runtime → Properties → List Text
  render_properties js no_property = []
  render_properties js (property name t _ is_optional rest) =
      (name ++ ((if is_optional then text "?: " else text ": ") ++ render_type js t))
      ∷ render_properties js rest

  pub render_index : Runtime → IndexSignature → List Text
  render_index js no_index = []
  render_index js (index name key t) =
      (text "["
        ++ (key_name name
            ++ (text ": " ++ (index_key_text key ++ (text "]: " ++ render_type js t)))))
      ∷ []
