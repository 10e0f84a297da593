-- ===== src/Extractor/SemanticPaths/Slots.antt =====
-- What a type has below it, by its parts: the paths of `collectSemanticTypePaths` as a relation.
use internal.Prelude.{ℕ, suc, Option, none, some, List, [], ◌∷◌, ◌++◌, ◌≡◌, ◌⊎◌, Text, text}
use internal.Extractor.Model.{
  EnumMember, SemanticType, array, class_node, component, enum_node, function, intersection, object,
  tuple, type_operator, union, Types, no_type, cons_type, Properties, no_property, property,
  IndexSignature, no_index, index, Parameters, no_parameter, parameter, Signatures, no_signature,
  signature, Constructors, no_constructor, constructor, ClassProperties, no_class_property,
  class_property, Methods, no_method, method,
}
use internal.Extractor.SemanticPaths.{SemanticPath, IndexText}

abbrev pub HasType : Types → SemanticType → Type 0
HasType no_type u = ⊥
HasType (cons_type t ts) u = (u ≡ t) ⊎ HasType ts u

abbrev pub HasProperty : Properties → Text → SemanticType → Type 0
HasProperty no_property n u = ⊥
HasProperty (property name t _ _ rest) n u = ((n ≡ name) × (u ≡ t)) ⊎ HasProperty rest n u

abbrev pub HasClassProperty : ClassProperties → Text → SemanticType → Type 0
HasClassProperty no_class_property n u = ⊥
HasClassProperty (class_property name t _ _ _ _ rest) n u =
    ((n ≡ name) × (u ≡ t)) ⊎ HasClassProperty rest n u

abbrev pub HasParameter : Parameters → Text → SemanticType → Type 0
HasParameter no_parameter n u = ⊥
HasParameter (parameter t name _ _ _ rest) n u = ((n ≡ name) × (u ≡ t)) ⊎ HasParameter rest n u

abbrev pub HasEnumMember : List EnumMember → Text → Type 0
HasEnumMember [] n = ⊥
HasEnumMember (m ∷ ms) n = (n ≡ m.name) ⊎ HasEnumMember ms n

-- There is an index signature.
abbrev pub HasIndex : IndexSignature → Type 0
HasIndex no_index = ⊥
HasIndex (index _ _ t) = Unit {0}

-- The `j`-th of the signatures, which are numbered from `i` on.
abbrev pub SignatureAt : Signatures → ℕ → ℕ → Parameters → SemanticType → Type 0
SignatureAt no_signature i j ps u = ⊥
SignatureAt (signature own t _ rest) i j ps u =
    ((j ≡ i) × (ps ≡ own) × (u ≡ t)) ⊎ SignatureAt rest (suc i) j ps u

abbrev pub ConstructorAt : Constructors → ℕ → ℕ → Parameters → Type 0
ConstructorAt no_constructor i j ps = ⊥
ConstructorAt (constructor own _ rest) i j ps =
    ((j ≡ i) × (ps ≡ own)) ⊎ ConstructorAt rest (suc i) j ps

abbrev pub HasMethod : Methods → Text → Signatures → Type 0
HasMethod no_method n ss = ⊥
HasMethod (method name _ _ own rest) n ss = ((n ≡ name) × (ss ≡ own)) ⊎ HasMethod rest n ss

-- The type that an index signature gives.
abbrev pub indexed_by : IndexSignature → Types
indexed_by no_index = no_type
indexed_by (index _ _ t) = cons_type t no_type

-- The types whose paths are those of the type itself.
abbrev pub members_of : SemanticType → Types
members_of (array _ _ t _) = cons_type t no_type
members_of (intersection _ _ ts _) = ts
members_of (object _ _ _ _ ix) = indexed_by ix
members_of (tuple _ _ ts _) = ts
members_of (type_operator _ t resolved _) = cons_type t (cons_type resolved no_type)
members_of (union _ _ ts) = ts
members_of _ = no_type

abbrev pub properties_of : SemanticType → Properties
properties_of (intersection _ _ _ ps) = ps
properties_of (object _ _ ps _ _) = ps
properties_of _ = no_property

abbrev pub index_signature_of : SemanticType → IndexSignature
index_signature_of (object _ _ _ _ ix) = ix
index_signature_of _ = no_index

abbrev pub props_of : SemanticType → Properties
props_of (component _ _ ps) = ps
props_of _ = no_property

abbrev pub enum_members_of : SemanticType → List EnumMember
enum_members_of (enum_node _ _ ms _) = ms
enum_members_of _ = []

abbrev pub signatures_of : SemanticType → Signatures
signatures_of (function _ ss) = ss
signatures_of _ = no_signature

abbrev pub constructors_of : SemanticType → Constructors
constructors_of (class_node _ _ cs _ _ _) = cs
constructors_of _ = no_constructor

abbrev pub class_properties_of : SemanticType → ClassProperties
class_properties_of (class_node _ _ _ ps _ _) = ps
class_properties_of _ = no_class_property

abbrev pub methods_of : SemanticType → Methods
methods_of (class_node _ _ _ _ ms _) = ms
methods_of _ = no_method

module _ (show : IndexText) (ss : Signatures) (i : ℕ) where
  -- The places of signatures that are numbered from `i` on, each with the type that stands there.
  pub data SignatureSlot : SemanticPath → Option SemanticType → Type 0 where
    at_call :
        (j : ℕ) (ps : Parameters) (t : SemanticType)
        → SignatureAt ss i j ps t
        → SignatureSlot (text "callSignatures" ∷ show j ∷ []) none
    at_parameter :
        (j : ℕ) (ps : Parameters) (t : SemanticType) (name : Text) (u : SemanticType)
        → SignatureAt ss i j ps t
        → HasParameter ps name u
        → SignatureSlot (text "callSignatures" ∷ show j ∷ text "parameters" ∷ name ∷ []) (some u)
    at_return :
        (j : ℕ) (ps : Parameters) (t : SemanticType)
        → SignatureAt ss i j ps t
        → SignatureSlot (text "callSignatures" ∷ show j ∷ text "returnValueType" ∷ []) (some t)

module _ (show : IndexText) (cs : Constructors) (i : ℕ) where
  -- The places of constructors that are numbered from `i` on.
  pub data ConstructorSlot : SemanticPath → Option SemanticType → Type 0 where
    at_construct :
        (j : ℕ) (ps : Parameters)
        → ConstructorAt cs i j ps
        → ConstructorSlot (text "constructSignatures" ∷ show j ∷ []) none
    at_construct_parameter :
        (j : ℕ) (ps : Parameters) (name : Text) (u : SemanticType)
        → ConstructorAt cs i j ps
        → HasParameter ps name u
        → ConstructorSlot
            (text "constructSignatures" ∷ show j ∷ text "parameters" ∷ name ∷ [])
            (some u)

module _ (show : IndexText) (t : SemanticType) where
  -- The places right below a type.
  pub data Slot : SemanticPath → Option SemanticType → Type 0 where
    at_property :
        (name : Text) (u : SemanticType)
        → HasProperty (properties_of t) name u
        → Slot (text "properties" ∷ name ∷ []) (some u)
    at_class_property :
        (name : Text) (u : SemanticType)
        → HasClassProperty (class_properties_of t) name u
        → Slot (text "properties" ∷ name ∷ []) (some u)
    at_prop :
        (name : Text) (u : SemanticType)
        → HasProperty (props_of t) name u
        → Slot (text "props" ∷ name ∷ []) (some u)
    at_index_key :
        HasIndex (index_signature_of t) → Slot (text "indexSignature" ∷ text "key" ∷ []) none
    at_enum_member :
        (name : Text)
        → HasEnumMember (enum_members_of t) name
        → Slot (text "members" ∷ name ∷ []) none
    at_signature :
        (p : SemanticPath) (o : Option SemanticType)
        → SignatureSlot show (signatures_of t) 0 p o
        → Slot p o
    at_constructor :
        (p : SemanticPath) (o : Option SemanticType)
        → ConstructorSlot show (constructors_of t) 0 p o
        → Slot p o
    at_method :
        (name : Text) (ss : Signatures)
        → HasMethod (methods_of t) name ss
        → Slot (text "methods" ∷ name ∷ []) none
    at_method_signature :
        (name : Text) (ss : Signatures) (p : SemanticPath) (o : Option SemanticType)
        → HasMethod (methods_of t) name ss
        → SignatureSlot show ss 0 p o
        → Slot (text "methods" ∷ name ∷ p) o

-- The paths from a type to the places below it, to any depth.
pub data Below (show : IndexText) : SemanticType → SemanticPath → Type 0 where
  through :
      (t u : SemanticType) (p : SemanticPath)
      → HasType (members_of t) u
      → Below show u p
      → Below show t p
  ends :
      (t : SemanticType) (p : SemanticPath) (o : Option SemanticType)
      → Slot show t p o
      → Below show t p
  under :
      (t u : SemanticType) (p q : SemanticPath)
      → Slot show t p (some u)
      → Below show u q
      → Below show t (p ++ q)
