-- ===== src/Extractor/Model.antt =====
-- packages/api-extractor/src/model.ts: the semantic types that an API model is made of.
-- A node that canonicalization compares by object identity carries the identity as its first field.
-- An absent optional array of names, namespaces or type arguments is an empty one, which is how the
-- modelled code reads it.
use internal.Prelude.{ℕ, Bool, true, false, Option, List, [], ◌∷◌, Text}

pub data IntrinsicName : Type 0 where
  any_type bigint_type boolean_type never_type null_type number_type : IntrinsicName
  string_type symbol_type undefined_type unknown_type void_type : IntrinsicName

pub data Visibility : Type 0 where
  public_visibility private_visibility internal_visibility : Visibility

pub record DocumentationTag : Type 0 where
  pub name : Text
  pub value : Option Text

pub record Documentation : Type 0 where
  pub description : Option Text
  pub default_value : Option Text
  pub visibility : Option Visibility
  pub tags : List DocumentationTag

-- A number stands by its 64 bits.
pub data LiteralValue : Type 0 where
  text_value : Text → LiteralValue
  number_value : ℕ → LiteralValue
  boolean_value : Bool → LiteralValue

pub data EnumValue : Type 0 where
  enum_text : Text → EnumValue
  enum_number : ℕ → EnumValue

pub record EnumMember : Type 0 where
  pub name : Text
  pub value : EnumValue
  pub documentation : Option Documentation

pub data ResolutionKind : Type 0 where
  exact base_constraint fallback : ResolutionKind

pub data IndexKey : Type 0 where
  string_key number_key : IndexKey

mutual
  pub data SemanticType : Type 0 where
    array : ℕ → Alias → SemanticType → Bool → SemanticType
    class_node : ℕ → Alias → Constructors → ClassProperties → Methods → TypeNames → SemanticType
    component : ℕ → Alias → Properties → SemanticType
    enum_node : ℕ → TypeName → List EnumMember → Option Documentation → SemanticType
    external : TypeName → SemanticType
    function : Alias → Signatures → SemanticType
    intersection : ℕ → Alias → Types → Properties → SemanticType
    intrinsic : Alias → IntrinsicName → SemanticType
    literal : Alias → LiteralValue → Option Documentation → SemanticType
    object : ℕ → Alias → Properties → Option Documentation → IndexSignature → SemanticType
    tuple : ℕ → Alias → Types → Bool → SemanticType
    type_operator : Alias → SemanticType → SemanticType → ResolutionKind → SemanticType
    type_parameter : Text → OptionalType → OptionalType → SemanticType
    type_query : ℕ → Text → SemanticType
    union : ℕ → Alias → Types → SemanticType

  -- `typeName?: TypeName`
  pub data Alias : Type 0 where
    unaliased : Alias
    aliased : TypeName → Alias

  pub data TypeName : Type 0 where
    type_name : Text → List Text → TypeArguments → TypeName

  pub data TypeArguments : Type 0 where
    no_argument : TypeArguments
    argument : SemanticType → Bool → TypeArguments → TypeArguments

  pub data Types : Type 0 where
    no_type : Types
    cons_type : SemanticType → Types → Types

  pub data OptionalType : Type 0 where
    absent_type : OptionalType
    present_type : SemanticType → OptionalType

  pub data Properties : Type 0 where
    no_property : Properties
    property : Text → SemanticType → Option Documentation → Bool → Properties → Properties

  pub data IndexSignature : Type 0 where
    no_index : IndexSignature
    index : Option Text → IndexKey → SemanticType → IndexSignature

  pub data Parameters : Type 0 where
    no_parameter : Parameters
    parameter :
        SemanticType → Text → Option Documentation → Bool → Option Text → Parameters → Parameters

  pub data TypeParameters : Type 0 where
    no_type_parameter : TypeParameters
    generic : Text → OptionalType → OptionalType → TypeParameters → TypeParameters

  pub data Signatures : Type 0 where
    no_signature : Signatures
    signature : Parameters → SemanticType → TypeParameters → Signatures → Signatures

  pub data Constructors : Type 0 where
    no_constructor : Constructors
    constructor : Parameters → Option Documentation → Constructors → Constructors

  pub data ClassProperties : Type 0 where
    no_class_property : ClassProperties
    class_property :
        Text
        → SemanticType
        → Option Documentation
        → Bool
        → Bool
        → Bool
        → ClassProperties
        → ClassProperties

  pub data Methods : Type 0 where
    no_method : Methods
    method : Text → Option Documentation → Bool → Signatures → Methods → Methods

  pub data TypeNames : Type 0 where
    no_name : TypeNames
    cons_name : TypeName → TypeNames → TypeNames

-- The array of member types, and back.
unfoldable pub to_list : Types → List SemanticType
to_list no_type = []
to_list (cons_type t ts) = t ∷ to_list ts

unfoldable pub of_list : List SemanticType → Types
of_list [] = no_type
of_list (t ∷ ts) = cons_type t (of_list ts)

-- `===` on intrinsic names, on index keys and on resolution kinds.
unfoldable pub same_intrinsic : IntrinsicName → IntrinsicName → Bool
same_intrinsic any_type any_type = true
same_intrinsic bigint_type bigint_type = true
same_intrinsic boolean_type boolean_type = true
same_intrinsic never_type never_type = true
same_intrinsic null_type null_type = true
same_intrinsic number_type number_type = true
same_intrinsic string_type string_type = true
same_intrinsic symbol_type symbol_type = true
same_intrinsic undefined_type undefined_type = true
same_intrinsic unknown_type unknown_type = true
same_intrinsic void_type void_type = true
same_intrinsic _ _ = false

unfoldable pub same_key : IndexKey → IndexKey → Bool
same_key string_key string_key = true
same_key number_key number_key = true
same_key _ _ = false

unfoldable pub same_resolution : ResolutionKind → ResolutionKind → Bool
same_resolution exact exact = true
same_resolution base_constraint base_constraint = true
same_resolution fallback fallback = true
same_resolution _ _ = false

unfoldable pub same_flag : Bool → Bool → Bool
same_flag true true = true
same_flag false false = true
same_flag _ _ = false
