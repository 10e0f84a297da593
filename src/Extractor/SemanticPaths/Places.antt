-- ===== src/Extractor/SemanticPaths/Places.antt =====
-- `collectSemanticTypePaths`: its paths are those of the places below the type.
use internal.Prelude.{
  Option, none, some, [], ◌∷◌, ◌++◌, ◌≡◌, ◌↔◌, refl, sym, subst, inl, inr, Memᴰ, append_assoc, Text,
  text,
}
use mathlib.Core.List.Memᴰ.{append_left, append_right}
use internal.Extractor.Model.{
  SemanticType, array, class_node, component, enum_node, function, intersection, object, tuple,
  type_operator, union, IndexSignature, no_index, index,
}
use internal.Extractor.SemanticPaths.{
  SemanticPath, IndexText, type_paths, member_paths, property_paths, index_paths, signature_paths,
  constructor_paths, class_property_paths, method_paths, index_signature_key_semantic_path,
}
use internal.Extractor.SemanticPaths.Slots.{
  HasType, HasProperty, HasClassProperty, HasEnumMember, HasIndex, indexed_by, members_of,
  properties_of, index_signature_of, props_of, enum_members_of, signatures_of, constructors_of,
  class_properties_of, methods_of, Slot, at_property, at_class_property, at_prop, at_index_key,
  at_enum_member, at_signature, at_constructor, at_method, at_method_signature, Below, through,
  ends, under,
}
use internal.Extractor.SemanticPaths.Found.{type_paths-found}
use internal.Extractor.SemanticPaths.Listed.{
  AtOrListed, Placed, properties_listed, props_listed, class_properties_listed, enum_listed,
  members_listed, signature_slot_listed, constructor_slot_listed, methods_listed,
}

index_value_listed :
    (show : IndexText) (ix : IndexSignature) (path q : SemanticPath) (u : SemanticType)
    → HasType (indexed_by ix) u
    → Memᴰ q (type_paths show u path)
    → Memᴰ q (index_paths show ix path)
unfolding index_paths
index_value_listed show no_index path q u has m = absurd has
index_value_listed show (index a b t) path q u (inl e) m =
    Memᴰ.tail (subst (λ v. Memᴰ q (type_paths show v path)) e m)
index_value_listed show (index a b t) path q u (inr has) m = absurd has

index_key_listed :
    (show : IndexText) (ix : IndexSignature) (path q : SemanticPath)
    → HasIndex ix
    → q ≡ path ++ (text "indexSignature" ∷ text "key" ∷ [])
    → Memᴰ q (index_paths show ix path)
unfolding index_paths index_signature_key_semantic_path
index_key_listed show no_index path q has e = absurd has
index_key_listed show (index a b t) path q has e = Memᴰ.head e

module _ (show : IndexText) (path q : SemanticPath) where
  same_type :
      {u t : SemanticType}
      → u ≡ t
      → Memᴰ q (type_paths show u path)
      → Memᴰ q (type_paths show t path)
  same_type e m = subst (λ v. Memᴰ q (type_paths show v path)) e m

  member_listed :
      (t u : SemanticType)
      → HasType (members_of t) u
      → Memᴰ q (type_paths show u path)
      → Memᴰ q (type_paths show t path)
  unfolding type_paths
  member_listed (array _ _ t _) u (inl e) m = same_type e m
  member_listed (array _ _ t _) u (inr has) m = absurd has
  member_listed (intersection _ _ ts ps) u has m =
      append_right (property_paths show ps path) (members_listed show ts path q u has m)
  member_listed (object _ _ ps _ ix) u has m =
      append_right (property_paths show ps path) (index_value_listed show ix path q u has m)
  member_listed (tuple _ _ ts _) u has m = members_listed show ts path q u has m
  member_listed (type_operator _ t resolved _) u (inl e) m =
      append_left (type_paths show resolved path) (same_type e m)
  member_listed (type_operator _ t resolved _) u (inr (inl e)) m =
      append_right (type_paths show t path) (same_type e m)
  member_listed (type_operator _ t resolved _) u (inr (inr has)) m = absurd has
  member_listed (union _ _ ts) u has m = members_listed show ts path q u has m
  member_listed _ u has m = absurd has

  property_listed :
      (t : SemanticType) (n : Text) (u : SemanticType)
      → HasProperty (properties_of t) n u
      → AtOrListed show (path ++ (text "properties" ∷ n ∷ [])) u q
      → Memᴰ q (type_paths show t path)
  unfolding type_paths
  property_listed (intersection _ _ ts ps) n u has placed =
      append_left (member_paths show ts path) (properties_listed show ps path q n u has placed)
  property_listed (object _ _ ps _ ix) n u has placed =
      append_left (index_paths show ix path) (properties_listed show ps path q n u has placed)
  property_listed _ n u has placed = absurd has

  class_property_listed :
      (t : SemanticType) (n : Text) (u : SemanticType)
      → HasClassProperty (class_properties_of t) n u
      → AtOrListed show (path ++ (text "properties" ∷ n ∷ [])) u q
      → Memᴰ q (type_paths show t path)
  unfolding type_paths
  class_property_listed (class_node _ _ cs ps ms _) n u has placed =
      append_right (constructor_paths show cs 0 path) (
        append_left (method_paths show ms path)
          (class_properties_listed show ps path q n u has placed))
  class_property_listed _ n u has placed = absurd has

  prop_listed :
      (t : SemanticType) (n : Text) (u : SemanticType)
      → HasProperty (props_of t) n u
      → AtOrListed show (path ++ (text "props" ∷ n ∷ [])) u q
      → Memᴰ q (type_paths show t path)
  unfolding type_paths
  prop_listed (component _ _ ps) n u has placed = props_listed show ps path q n u has placed
  prop_listed _ n u has placed = absurd has

  key_listed :
      (t : SemanticType)
      → HasIndex (index_signature_of t)
      → q ≡ path ++ (text "indexSignature" ∷ text "key" ∷ [])
      → Memᴰ q (type_paths show t path)
  unfolding type_paths
  key_listed (object _ _ ps _ ix) has e =
      append_right (property_paths show ps path) (index_key_listed show ix path q has e)
  key_listed _ has e = absurd has

  enum_member_listed :
      (t : SemanticType) (n : Text)
      → HasEnumMember (enum_members_of t) n
      → q ≡ path ++ (text "members" ∷ n ∷ [])
      → Memᴰ q (type_paths show t path)
  unfolding type_paths
  enum_member_listed (enum_node _ _ ms _) n has e = enum_listed ms path q n has e
  enum_member_listed _ n has e = absurd has

  calls_listed :
      (t : SemanticType)
      → Memᴰ q (signature_paths show (signatures_of t) 0 path)
      → Memᴰ q (type_paths show t path)
  unfolding type_paths signature_paths
  calls_listed (function _ ss) m = m
  calls_listed _ m = absurd (elim m [ ])

  constructs_listed :
      (t : SemanticType)
      → Memᴰ q (constructor_paths show (constructors_of t) 0 path)
      → Memᴰ q (type_paths show t path)
  unfolding type_paths constructor_paths
  constructs_listed (class_node _ _ cs ps ms _) m = append_left _ m
  constructs_listed _ m = absurd (elim m [ ])

  method_listed :
      (t : SemanticType)
      → Memᴰ q (method_paths show (methods_of t) path)
      → Memᴰ q (type_paths show t path)
  unfolding type_paths method_paths
  method_listed (class_node _ _ cs ps ms _) m =
      append_right (constructor_paths show cs 0 path)
        (append_right (class_property_paths show ps path) m)
  method_listed _ m = absurd (elim m [ ])

slot_listed :
    (show : IndexText) (t : SemanticType) (path p q : SemanticPath) (o : Option SemanticType)
    → Slot show t p o
    → Placed show (path ++ p) o q
    → Memᴰ q (type_paths show t path)
slot_listed show t path _ q _ (at_property n u has) placed =
    property_listed show path q t n u has placed
slot_listed show t path _ q _ (at_class_property n u has) placed =
    class_property_listed show path q t n u has placed
slot_listed show t path _ q _ (at_prop n u has) placed = prop_listed show path q t n u has placed
slot_listed show t path _ q _ (at_index_key has) placed = key_listed show path q t has placed
slot_listed show t path _ q _ (at_enum_member n has) placed =
    enum_member_listed show path q t n has placed
slot_listed show t path _ q _ (at_signature p o slot) placed =
    calls_listed show path q t (signature_slot_listed show (signatures_of t) path p q o slot placed)
slot_listed show t path _ q _ (at_constructor p o slot) placed =
    constructs_listed show path q t
      (constructor_slot_listed show (constructors_of t) path p q o slot placed)
slot_listed show t path _ q _ (at_method n ss has) placed =
    method_listed show path q t
      (methods_listed show (methods_of t) path q n ss has (Memᴰ.head placed))
slot_listed show t path _ q _ (at_method_signature n ss p o has slot) placed =
    let own = path ++ (text "methods" ∷ n ∷ []) in
    method_listed show path q t (
      methods_listed show (methods_of t) path q n ss has (
        Memᴰ.tail (
          signature_slot_listed show ss own p q o slot (
            subst (λ r. Placed show r o q) (sym (append_assoc path (text "methods" ∷ n ∷ []) p))
              placed))))

here_placed : (show : IndexText) (r : SemanticPath) (o : Option SemanticType) → Placed show r o r
here_placed show r none = refl
here_placed show r (some u) = inl refl

Below-listed :
    (show : IndexText) (t : SemanticType) (p : SemanticPath)
    → Below show t p
    → (path : SemanticPath) → Memᴰ (path ++ p) (type_paths show t path)
Below-listed show _ _ (through t u p has below) path =
    member_listed show path (path ++ p) t u has (Below-listed show u p below path)
Below-listed show _ _ (ends t p o slot) path =
    slot_listed show t path p (path ++ p) o slot (here_placed show (path ++ p) o)
Below-listed show _ _ (under t u p q slot below) path =
    slot_listed show t path p (path ++ (p ++ q)) (some u) slot (
      inr (
        subst (λ r. Memᴰ r (type_paths show u (path ++ p))) (append_assoc path p q)
          (Below-listed show u q below (path ++ p))))

-- The paths that the traversal of a type adds from a path on are exactly those that lead from it to
-- a place below the type: each segment names the kind of a part (`properties`, `props`, `methods`,
-- `members`, `callSignatures`, `constructSignatures`, `parameters`, `returnValueType`, the key of
-- an index signature) and which part it is, by its name, or by its number from 0 for a signature;
-- array elements, members of tuples, unions and intersections, the types of an operator and the
-- values of an index signature add no segment.
pub type_paths-Below :
    (show : IndexText) (t : SemanticType) (path q : SemanticPath)
    → Memᴰ q (type_paths show t path) ↔ ((p : SemanticPath) × (q ≡ path ++ p) × Below show t p)
type_paths-Below show t path q = (
  λ m. type_paths-found show t path q m,
  λ below.
      subst (λ r. Memᴰ r (type_paths show t path)) (sym below.1)
        (Below-listed show t below.0 below.2 path),
)
