-- ===== src/Extractor/SemanticPaths/Found.antt =====
-- Each path that a traversal adds is the path of a place below the type.
pub mod Parts
use internal.Prelude.{
  ℕ, suc, Option, none, some, List, [], ◌∷◌, ◌++◌, ◌≡◌, refl, ◌∙◌, subst, ◌⊎◌, inl, inr, Memᴰ,
  append_assoc, Text, text,
}
use mathlib.Core.List.Memᴰ.{append_cases, cases_cons}
use internal.Extractor.Model.{
  EnumMember, SemanticType, array, class_node, component, enum_node, function, intersection, object,
  tuple, type_operator, union, Types, no_type, cons_type, Properties, no_property, property,
  IndexSignature, no_index, index, Parameters, no_parameter, parameter, Signatures, no_signature,
  signature, Constructors, no_constructor, constructor, ClassProperties, no_class_property,
  class_property, Methods, no_method, method, TypeParameters, Documentation,
}
use internal.Extractor.SemanticPaths.{
  SemanticPath, IndexText, object_property_semantic_path, component_prop_semantic_path,
  method_semantic_path, call_signature_semantic_path, construct_signature_semantic_path,
  parameter_semantic_path, return_value_semantic_path, enum_member_semantic_path,
  index_signature_key_semantic_path, enum_member_paths, type_paths, member_paths, property_paths,
  prop_paths, index_paths, parameter_paths, signature_paths, constructor_paths,
  class_property_paths, method_paths,
}
use internal.Extractor.SemanticPaths.Slots.{
  HasType, HasProperty, HasClassProperty, HasParameter, HasEnumMember, HasIndex, SignatureAt,
  HasMethod, members_of, indexed_by, index_signature_of, SignatureSlot, at_call, at_parameter,
  at_return, Slot, at_property, at_class_property, at_prop, at_index_key, at_enum_member,
  at_signature, at_constructor, ConstructorSlot, at_construct, at_construct_parameter, methods_of,
  at_method, at_method_signature, Below, through, ends, under,
}
use internal.Extractor.SemanticPaths.Found.Parts.{
  AtOrBelow, Placed, IsFound, node_cases, element, moved, slot-IsFound, member-IsFound, later_slot,
  enum_found, InMethod, method_place, AtIndex, index_place, later_constructor,
}

mutual
  unfolding type_paths member_paths property_paths prop_paths index_paths parameter_paths
      signature_paths constructor_paths class_property_paths method_paths
      object_property_semantic_path component_prop_semantic_path method_semantic_path
      call_signature_semantic_path construct_signature_semantic_path parameter_semantic_path
      return_value_semantic_path index_signature_key_semantic_path

  type-IsFound :
      (show : IndexText) (t : SemanticType) (path q : SemanticPath)
      → Memᴰ q (type_paths show t path)
      → IsFound show t path q
  type-IsFound show (array a b t c) path q m =
      member-IsFound show (array a b t c) t path q (inl refl) (type-IsFound show t path q m)
  type-IsFound show (class_node a b cs ps ms c) path q m =
      let here = class_node a b cs ps ms c in
      elim (append_cases (constructor_paths show cs 0 path) m) [
        | inl m' ↦
            let (p, o, slot, placed) = constructors_found show cs 0 path q m' in
            slot-IsFound show here path p q o (at_constructor p o slot) placed
        | inr r ↦ elim (append_cases (class_property_paths show ps path) r) [
          | inl m' ↦
              let (name, u, has, placed) = class_properties_found show ps path q m' in
              slot-IsFound show here path _ q _ (at_class_property name u has) placed
          | inr m' ↦
              let (name, ss, has, placed) = methods_found show ms path q m' in
              method_place show here path q name ss has placed
        ]
      ]
  type-IsFound show (component a b ps) path q m =
      let (name, u, has, placed) = props_found show ps path q m in
      slot-IsFound show (component a b ps) path _ q _ (at_prop name u has) placed
  type-IsFound show (enum_node a b ms c) path q m =
      let (name, has, placed) = enum_found ms path q m in
      slot-IsFound show (enum_node a b ms c) path _ q none (at_enum_member name has) placed
  type-IsFound show (function a ss) path q m =
      let (p, o, slot, placed) = signatures_found show ss 0 path q m in
      slot-IsFound show (function a ss) path p q o (at_signature p o slot) placed
  type-IsFound show (intersection a b ts ps) path q m =
      let here = intersection a b ts ps in
      elim (append_cases (property_paths show ps path) m) [
        | inl m' ↦
            let (name, u, has, placed) = properties_found show ps path q m' in
            slot-IsFound show here path _ q _ (at_property name u has) placed
        | inr m' ↦
            let (u, has, found) = members-IsFound show ts path q m' in
            member-IsFound show here u path q has found
      ]
  type-IsFound show (object a b ps c ix) path q m =
      let here = object a b ps c ix in
      elim (append_cases (property_paths show ps path) m) [
        | inl m' ↦
            let (name, u, has, placed) = properties_found show ps path q m' in
            slot-IsFound show here path _ q _ (at_property name u has) placed
        | inr m' ↦
            index_place show here ix path q (index_found show ix path q m') (λ h. h) (λ u h. h)
      ]
  type-IsFound show (tuple a b ts c) path q m =
      let (u, has, found) = members-IsFound show ts path q m in
      member-IsFound show (tuple a b ts c) u path q has found
  type-IsFound show (type_operator a t resolved c) path q m =
      let here = type_operator a t resolved c in
      elim (append_cases (type_paths show t path) m) [
        | inl m' ↦ member-IsFound show here t path q (inl refl) (type-IsFound show t path q m')
        | inr m' ↦
            member-IsFound show here resolved path q (inr (inl refl))
              (type-IsFound show resolved path q m')
      ]
  type-IsFound show (union a b ts) path q m =
      let (u, has, found) = members-IsFound show ts path q m in
      member-IsFound show (union a b ts) u path q has found
  type-IsFound show _ path q m = elim m [ ]

  members-IsFound :
      (show : IndexText) (ts : Types) (path q : SemanticPath)
      → Memᴰ q (member_paths show ts path)
      → (u : SemanticType) × HasType ts u × IsFound show u path q
  members-IsFound show no_type path q m = elim m [ ]
  members-IsFound show (cons_type t ts) path q m = elim (append_cases (type_paths show t path) m) [
    | inl m' ↦ (t, inl refl, type-IsFound show t path q m')
    | inr m' ↦ let (u, has, found) = members-IsFound show ts path q m' in (u, inr has, found)
  ]

  properties_found :
      (show : IndexText) (ps : Properties) (path q : SemanticPath)
      → Memᴰ q (property_paths show ps path)
      → (name : Text) × (u : SemanticType) × HasProperty ps name u
        × AtOrBelow show (path ++ (text "properties" ∷ name ∷ [])) u q
  properties_found show no_property path q m = elim m [ ]
  properties_found show (property name t _ _ rest) path q m =
      let own = object_property_semantic_path path name in
      elim (node_cases (type_paths show t own) (property_paths show rest path) m) [
        | inl here ↦
            (name, t, inl (refl, refl), element show t own q (type-IsFound show t own q) here)
        | inr m' ↦
            let (n, u, has, placed) = properties_found show rest path q m' in
            (n, u, inr has, placed)
      ]

  props_found :
      (show : IndexText) (ps : Properties) (path q : SemanticPath)
      → Memᴰ q (prop_paths show ps path)
      → (name : Text) × (u : SemanticType) × HasProperty ps name u
        × AtOrBelow show (path ++ (text "props" ∷ name ∷ [])) u q
  props_found show no_property path q m = elim m [ ]
  props_found show (property name t _ _ rest) path q m =
      let own = component_prop_semantic_path path name in
      elim (node_cases (type_paths show t own) (prop_paths show rest path) m) [
        | inl here ↦
            (name, t, inl (refl, refl), element show t own q (type-IsFound show t own q) here)
        | inr m' ↦
            let (n, u, has, placed) = props_found show rest path q m' in (n, u, inr has, placed)
      ]

  class_properties_found :
      (show : IndexText) (ps : ClassProperties) (path q : SemanticPath)
      → Memᴰ q (class_property_paths show ps path)
      → (name : Text) × (u : SemanticType) × HasClassProperty ps name u
        × AtOrBelow show (path ++ (text "properties" ∷ name ∷ [])) u q
  class_properties_found show no_class_property path q m = elim m [ ]
  class_properties_found show (class_property name t _ _ _ _ rest) path q m =
      let own = object_property_semantic_path path name in
      elim (node_cases (type_paths show t own) (class_property_paths show rest path) m) [
        | inl here ↦
            (name, t, inl (refl, refl), element show t own q (type-IsFound show t own q) here)
        | inr m' ↦
            let (n, u, has, placed) = class_properties_found show rest path q m' in
            (n, u, inr has, placed)
      ]

  parameters_found :
      (show : IndexText) (ps : Parameters) (path q : SemanticPath)
      → Memᴰ q (parameter_paths show ps path)
      → (name : Text) × (u : SemanticType) × HasParameter ps name u
        × AtOrBelow show (path ++ (text "parameters" ∷ name ∷ [])) u q
  parameters_found show no_parameter path q m = elim m [ ]
  parameters_found show (parameter t name _ _ _ rest) path q m =
      let own = parameter_semantic_path path name in
      elim (node_cases (type_paths show t own) (parameter_paths show rest path) m) [
        | inl here ↦
            (name, t, inl (refl, refl), element show t own q (type-IsFound show t own q) here)
        | inr m' ↦
            let (n, u, has, placed) = parameters_found show rest path q m' in
            (n, u, inr has, placed)
      ]

  index_found :
      (show : IndexText) (ix : IndexSignature) (path q : SemanticPath)
      → Memᴰ q (index_paths show ix path)
      → AtIndex show ix path q
  index_found show no_index path q m = elim m [ ]
  index_found show (index a b t) path q (Memᴰ.head e) = inl (tt, e)
  index_found show (index a b t) path q (Memᴰ.tail m) =
      inr (t, inl refl, type-IsFound show t path q m)

  signatures_found :
      (show : IndexText) (ss : Signatures) (i : ℕ) (path q : SemanticPath)
      → Memᴰ q (signature_paths show ss i path)
      → (p : SemanticPath) × (o : Option SemanticType) × SignatureSlot show ss i p o
        × Placed show (path ++ p) o q
  signatures_found show no_signature i path q m = elim m [ ]
  signatures_found show (signature ps t d rest) i path q m =
      let segments = text "callSignatures" ∷ show i ∷ [] in
      let own = path ++ segments in
      let back = return_value_semantic_path own in
      let first : SignatureAt (signature ps t d rest) i i ps t = inl (refl, refl, refl) in
      elim (node_cases (parameter_paths show ps own ++ (back ∷ type_paths show t back))
        (signature_paths show rest (suc i) path) m) [
          | inl (inl e) ↦ (segments, none, at_call i ps t first, e)
          | inl (inr below) ↦ elim (append_cases (parameter_paths show ps own) below) [
            | inl m' ↦
                let (name, u, has, placed) = parameters_found show ps own q m' in
                (
                  segments ++ (text "parameters" ∷ name ∷ []),
                  some u,
                  at_parameter i ps t name u first has,
                  moved show path segments (text "parameters" ∷ name ∷ []) q (some u) placed,
                )
            | inr m' ↦ (
              segments ++ (text "returnValueType" ∷ []),
              some t,
              at_return i ps t first,
              moved show path segments (text "returnValueType" ∷ []) q (some t)
                  (element show t back q (type-IsFound show t back q) (cases_cons m')),
            )
          ]
          | inr m' ↦
              let (p, o, slot, placed) = signatures_found show rest (suc i) path q m' in
              (p, o, later_slot show ps t d rest i p o slot, placed)
        ]

  constructors_found :
      (show : IndexText) (cs : Constructors) (i : ℕ) (path q : SemanticPath)
      → Memᴰ q (constructor_paths show cs i path)
      → (p : SemanticPath) × (o : Option SemanticType) × ConstructorSlot show cs i p o
        × Placed show (path ++ p) o q
  constructors_found show no_constructor i path q m = elim m [ ]
  constructors_found show (constructor ps d rest) i path q m =
      let segments = text "constructSignatures" ∷ show i ∷ [] in
      let own = path ++ segments in
      elim (node_cases (parameter_paths show ps own) (constructor_paths show rest (suc i) path) m) [
        | inl (inl e) ↦ (segments, none, at_construct i ps (inl (refl, refl)), e)
        | inl (inr m') ↦
            let (name, u, has, placed) = parameters_found show ps own q m' in
            (
              segments ++ (text "parameters" ∷ name ∷ []),
              some u,
              at_construct_parameter i ps name u (inl (refl, refl)) has,
              moved show path segments (text "parameters" ∷ name ∷ []) q (some u) placed,
            )
        | inr m' ↦
            let (p, o, slot, placed) = constructors_found show rest (suc i) path q m' in
            (p, o, later_constructor show ps d rest i p o slot, placed)
      ]

  methods_found :
      (show : IndexText) (ms : Methods) (path q : SemanticPath)
      → Memᴰ q (method_paths show ms path)
      → (name : Text) × (ss : Signatures) × HasMethod ms name ss
        × InMethod show (path ++ (text "methods" ∷ name ∷ [])) ss q
  methods_found show no_method path q m = elim m [ ]
  methods_found show (method name _ _ ss rest) path q m =
      let own = method_semantic_path path name in
      elim (node_cases (signature_paths show ss 0 own) (method_paths show rest path) m) [
        | inl (inl e) ↦ (name, ss, inl (refl, refl), inl e)
        | inl (inr m') ↦ (name, ss, inl (refl, refl), inr (signatures_found show ss 0 own q m'))
        | inr m' ↦
            let (n, ss', has, placed) = methods_found show rest path q m' in
            (n, ss', inr has, placed)
      ]

-- Each path that the traversal adds is that of a place below the type.
pub type_paths-found :
    (show : IndexText) (t : SemanticType) (path q : SemanticPath)
    → Memᴰ q (type_paths show t path)
    → (p : SemanticPath) × (q ≡ path ++ p) × Below show t p
type_paths-found show t path q m = type-IsFound show t path q m
