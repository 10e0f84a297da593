-- ===== src/Extractor/Samples.antt =====
-- Semantic types for the tests.
use internal.Prelude.{false, true, none, List, [], ◌∷◌, Text, text}
use internal.Extractor.Model.{
  IntrinsicName, boolean_type, never_type, null_type, number_type, string_type, text_value,
  SemanticType, function, intrinsic, literal, union, unaliased, aliased, type_name, no_argument,
  Types, no_type, cons_type, no_parameter, parameter, any_type, no_type_parameter, no_signature,
  signature, object, property, no_property, no_index,
}
use internal.Extractor.Render.{Runtime}

-- The texts of literals do not matter here.
abbrev pub plain_runtime : Runtime
plain_runtime = record { json = λ v. text "literal"; number_text = λ n. n ∷ [] }

abbrev pub plain : IntrinsicName → SemanticType
plain name = intrinsic unaliased name

abbrev pub quoted : Text → SemanticType
quoted value = literal unaliased (text_value value) none

-- `(value: any) => string`
abbrev pub any_function : SemanticType
any_function = function unaliased (
    signature (parameter (plain any_type) (text "value") none false none no_parameter)
      (plain string_type) no_type_parameter no_signature)

-- `(value: number) => string`
abbrev pub number_function : SemanticType
number_function = function unaliased (
    signature (parameter (plain number_type) (text "value") none false none no_parameter)
      (plain string_type) no_type_parameter no_signature)

-- `null | ("true" | never) | "false" | string | string`
abbrev pub mixed_union : Types
mixed_union = cons_type (plain null_type) (
    cons_type
      (union 1 unaliased (cons_type (quoted (text "true")) (cons_type (plain never_type) no_type)))
      (cons_type (quoted (text "false"))
        (cons_type (plain string_type) (cons_type (plain string_type) no_type))))

-- `boolean | string | null`
abbrev pub simple_members : List SemanticType
simple_members = plain boolean_type ∷ plain string_type ∷ plain null_type ∷ []

-- `{ name: string; "size"?: number }`
abbrev pub sized_object : SemanticType
sized_object =
    object 2 unaliased
      (property (text "name") (plain string_type) none false
        (property (text "size") (plain number_type) none true no_property))
      none no_index

-- `string | number`, and the other way round.
abbrev pub text_first : Types
text_first = cons_type (plain string_type) (cons_type (plain number_type) no_type)

abbrev pub text_last : Types
text_last = cons_type (plain number_type) (cons_type (plain string_type) no_type)

-- `string` and a literal, both with the public name `Label`.
abbrev pub label_string : SemanticType
label_string = intrinsic (aliased (type_name (text "Label") [] no_argument)) string_type

abbrev pub label_literal : SemanticType
label_literal =
    literal (aliased (type_name (text "Label") [] no_argument)) (text_value (text "on")) none
