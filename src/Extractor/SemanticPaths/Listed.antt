-- ===== src/Extractor/SemanticPaths/Listed.antt =====
-- What the traversal of each list of parts adds: the paths at the places of the parts.
use internal.Prelude.{
  ℕ, suc, Option, none, some, List, [], ◌∷◌, ◌++◌, ◌≡◌, sym, ap, ◌∙◌, subst, ◌⊎◌, inl, inr, Memᴰ,
  append_assoc, Text, text,
}
use mathlib.Core.List.Memᴰ.{append_left, append_right}
use internal.Extractor.Model.{
  EnumMember, SemanticType, Types, no_type, cons_type, Properties, no_property, property,
  Parameters, no_parameter, parameter, Signatures, no_signature, signature, Constructors,
  no_constructor, constructor, ClassProperties, no_class_property, class_property, Methods,
  no_method, method,
}
use internal.Extractor.SemanticPaths.{
  SemanticPath, IndexText, object_property_semantic_path, component_prop_semantic_path,
  method_semantic_path, call_signature_semantic_path, construct_signature_semantic_path,
  parameter_semantic_path, return_value_semantic_path, enum_member_semantic_path, enum_member_paths,
  type_paths, member_paths, property_paths, prop_paths, parameter_paths, signature_paths,
  constructor_paths, class_property_paths, method_paths,
}
use internal.Extractor.SemanticPaths.Slots.{
  HasType, HasProperty, HasClassProperty, HasParameter, HasEnumMember, SignatureAt, ConstructorAt,
  HasMethod, SignatureSlot, at_call, at_parameter, at_return, ConstructorSlot, at_construct,
  at_construct_parameter,
}

-- A path at a place, or listed for the type that stands there.
abbrev pub AtOrListed : IndexText → SemanticPath → SemanticType → SemanticPath → Type 0
AtOrListed show r u q = (q ≡ r) ⊎ Memᴰ q (type_paths show u r)

abbrev pub Placed : IndexText → SemanticPath → Option SemanticType → SemanticPath → Type 0
Placed show r none q = q ≡ r
Placed show r (some u) q = AtOrListed show r u q

module _ {q own : SemanticPath} {inner : List SemanticPath} where
  node_listed : (q ≡ own) ⊎ Memᴰ q inner → Memᴰ q (own ∷ inner)
  node_listed (inl e) = Memᴰ.head e
  node_listed (inr m) = Memᴰ.tail m

same_place :
    (show : IndexText) (f : Text → SemanticPath) {n name : Text} {u t : SemanticType}
    (q : SemanticPath)
    → n ≡ name
    → u ≡ t
    → AtOrListed show (f n) u q
    → AtOrListed show (f name) t q
same_place show f {name = name} {u = u} q e e' h =
    subst (λ v. AtOrListed show (f name) v q) e' (subst (λ m. AtOrListed show (f m) u q) e h)

pub moved_back :
    (show : IndexText) (path a b q : SemanticPath) (u : SemanticType)
    → AtOrListed show (path ++ (a ++ b)) u q
    → AtOrListed show ((path ++ a) ++ b) u q
moved_back show path a b q u h = subst (λ r. AtOrListed show r u q) (sym (append_assoc path a b)) h

pub properties_listed :
    (show : IndexText) (ps : Properties) (path q : SemanticPath) (n : Text) (u : SemanticType)
    → HasProperty ps n u
    → AtOrListed show (path ++ (text "properties" ∷ n ∷ [])) u q
    → Memᴰ q (property_paths show ps path)
unfolding property_paths object_property_semantic_path
properties_listed show no_property path q n u has placed = absurd has
properties_listed show (property name t _ _ rest) path q n u (inl (e, e')) placed =
    append_left (property_paths show rest path)
      (node_listed (same_place show (λ m. path ++ (text "properties" ∷ m ∷ [])) q e e' placed))
properties_listed show (property name t _ _ rest) path q n u (inr has) placed =
    let own = object_property_semantic_path path name in
    append_right (own ∷ type_paths show t own) (properties_listed show rest path q n u has placed)

pub props_listed :
    (show : IndexText) (ps : Properties) (path q : SemanticPath) (n : Text) (u : SemanticType)
    → HasProperty ps n u
    → AtOrListed show (path ++ (text "props" ∷ n ∷ [])) u q
    → Memᴰ q (prop_paths show ps path)
unfolding prop_paths component_prop_semantic_path
props_listed show no_property path q n u has placed = absurd has
props_listed show (property name t _ _ rest) path q n u (inl (e, e')) placed =
    append_left (prop_paths show rest path)
      (node_listed (same_place show (λ m. path ++ (text "props" ∷ m ∷ [])) q e e' placed))
props_listed show (property name t _ _ rest) path q n u (inr has) placed =
    let own = component_prop_semantic_path path name in
    append_right (own ∷ type_paths show t own) (props_listed show rest path q n u has placed)

pub class_properties_listed :
    (show : IndexText) (ps : ClassProperties) (path q : SemanticPath) (n : Text) (u : SemanticType)
    → HasClassProperty ps n u
    → AtOrListed show (path ++ (text "properties" ∷ n ∷ [])) u q
    → Memᴰ q (class_property_paths show ps path)
unfolding class_property_paths object_property_semantic_path
class_properties_listed show no_class_property path q n u has placed = absurd has
class_properties_listed show (class_property name t _ _ _ _ rest) path q n u (inl (e, e')) placed =
    append_left (class_property_paths show rest path)
      (node_listed (same_place show (λ m. path ++ (text "properties" ∷ m ∷ [])) q e e' placed))
class_properties_listed show (class_property name t _ _ _ _ rest) path q n u (inr has) placed =
    let own = object_property_semantic_path path name in
    append_right (own ∷ type_paths show t own)
      (class_properties_listed show rest path q n u has placed)

parameters_listed :
    (show : IndexText) (ps : Parameters) (path q : SemanticPath) (n : Text) (u : SemanticType)
    → HasParameter ps n u
    → AtOrListed show (path ++ (text "parameters" ∷ n ∷ [])) u q
    → Memᴰ q (parameter_paths show ps path)
unfolding parameter_paths parameter_semantic_path
parameters_listed show no_parameter path q n u has placed = absurd has
parameters_listed show (parameter t name _ _ _ rest) path q n u (inl (e, e')) placed =
    append_left (parameter_paths show rest path)
      (node_listed (same_place show (λ m. path ++ (text "parameters" ∷ m ∷ [])) q e e' placed))
parameters_listed show (parameter t name _ _ _ rest) path q n u (inr has) placed =
    let own = parameter_semantic_path path name in
    append_right (own ∷ type_paths show t own) (parameters_listed show rest path q n u has placed)

pub enum_listed :
    (ms : List EnumMember) (path q : SemanticPath) (n : Text)
    → HasEnumMember ms n
    → q ≡ path ++ (text "members" ∷ n ∷ [])
    → Memᴰ q (enum_member_paths ms path)
unfolding enum_member_paths enum_member_semantic_path
enum_listed [] path q n has placed = absurd has
enum_listed (m ∷ ms) path q n (inl e) placed =
    Memᴰ.head (placed ∙ ap (λ name. path ++ (text "members" ∷ name ∷ [])) e)
enum_listed (m ∷ ms) path q n (inr has) placed = Memᴰ.tail (enum_listed ms path q n has placed)

pub members_listed :
    (show : IndexText) (ts : Types) (path q : SemanticPath) (u : SemanticType)
    → HasType ts u
    → Memᴰ q (type_paths show u path)
    → Memᴰ q (member_paths show ts path)
unfolding member_paths
members_listed show no_type path q u has m = absurd has
members_listed show (cons_type t ts) path q u (inl e) m =
    append_left (member_paths show ts path) (subst (λ v. Memᴰ q (type_paths show v path)) e m)
members_listed show (cons_type t ts) path q u (inr has) m =
    append_right (type_paths show t path) (members_listed show ts path q u has m)

-- The paths of one signature, and of one constructor.
abbrev call_paths : IndexText → ℕ → Parameters → SemanticType → SemanticPath → List SemanticPath
call_paths show j ps t path =
    let own = path ++ (text "callSignatures" ∷ show j ∷ []) in
    let back = own ++ (text "returnValueType" ∷ []) in
    own ∷ (parameter_paths show ps own ++ (back ∷ type_paths show t back))

abbrev construct_paths : IndexText → ℕ → Parameters → SemanticPath → List SemanticPath
construct_paths show j ps path =
    let own = path ++ (text "constructSignatures" ∷ show j ∷ []) in
    own ∷ parameter_paths show ps own

signature_listed :
    (show : IndexText) (ss : Signatures) (i j : ℕ) (ps : Parameters) (t : SemanticType)
    (path q : SemanticPath)
    → SignatureAt ss i j ps t
    → Memᴰ q (call_paths show j ps t path)
    → Memᴰ q (signature_paths show ss i path)
unfolding signature_paths call_signature_semantic_path return_value_semantic_path
signature_listed show no_signature i j ps t path q at m = absurd at
signature_listed show (signature own r d rest) i j ps t path q (inl (e, e', e'')) m =
    append_left (signature_paths show rest (suc i) path) (
      subst (λ x. Memᴰ q (call_paths show i own x path)) e''
        (subst (λ x. Memᴰ q (call_paths show i x t path)) e'
          (subst (λ x. Memᴰ q (call_paths show x ps t path)) e m)))
signature_listed show (signature own r d rest) i j ps t path q (inr at) m =
    append_right (call_paths show i own r path)
      (signature_listed show rest (suc i) j ps t path q at m)

constructor_listed :
    (show : IndexText) (cs : Constructors) (i j : ℕ) (ps : Parameters) (path q : SemanticPath)
    → ConstructorAt cs i j ps
    → Memᴰ q (construct_paths show j ps path)
    → Memᴰ q (constructor_paths show cs i path)
unfolding constructor_paths construct_signature_semantic_path
constructor_listed show no_constructor i j ps path q at m = absurd at
constructor_listed show (constructor own d rest) i j ps path q (inl (e, e')) m =
    append_left (constructor_paths show rest (suc i) path) (
      subst (λ x. Memᴰ q (construct_paths show i x path)) e'
        (subst (λ x. Memᴰ q (construct_paths show x ps path)) e m))
constructor_listed show (constructor own d rest) i j ps path q (inr at) m =
    append_right (construct_paths show i own path)
      (constructor_listed show rest (suc i) j ps path q at m)

pub signature_slot_listed :
    (show : IndexText) (ss : Signatures) (path p q : SemanticPath) (o : Option SemanticType)
    → SignatureSlot show ss 0 p o
    → Placed show (path ++ p) o q
    → Memᴰ q (signature_paths show ss 0 path)
signature_slot_listed show ss path _ q _ (at_call j ps t at) placed =
    signature_listed show ss 0 j ps t path q at (Memᴰ.head placed)
signature_slot_listed show ss path _ q _ (at_parameter j ps t name u at has) placed =
    let segments = text "callSignatures" ∷ show j ∷ [] in
    signature_listed show ss 0 j ps t path q at (
      Memᴰ.tail (
        append_left _ (
          parameters_listed show ps (path ++ segments) q name u has
            (moved_back show path segments (text "parameters" ∷ name ∷ []) q u placed))))
signature_slot_listed show ss path _ q _ (at_return j ps t at) placed =
    let segments = text "callSignatures" ∷ show j ∷ [] in
    signature_listed show ss 0 j ps t path q at (
      Memᴰ.tail (
        append_right (parameter_paths show ps (path ++ segments))
          (node_listed (moved_back show path segments (text "returnValueType" ∷ []) q t placed))))

pub constructor_slot_listed :
    (show : IndexText) (cs : Constructors) (path p q : SemanticPath) (o : Option SemanticType)
    → ConstructorSlot show cs 0 p o
    → Placed show (path ++ p) o q
    → Memᴰ q (constructor_paths show cs 0 path)
constructor_slot_listed show cs path _ q _ (at_construct j ps at) placed =
    constructor_listed show cs 0 j ps path q at (Memᴰ.head placed)
constructor_slot_listed show cs path _ q _ (at_construct_parameter j ps name u at has) placed =
    let segments = text "constructSignatures" ∷ show j ∷ [] in
    constructor_listed show cs 0 j ps path q at (
      Memᴰ.tail (
        parameters_listed show ps (path ++ segments) q name u has
          (moved_back show path segments (text "parameters" ∷ name ∷ []) q u placed)))

pub methods_listed :
    (show : IndexText) (ms : Methods) (path q : SemanticPath) (n : Text) (ss : Signatures)
    → HasMethod ms n ss
    → (let own = path ++ (text "methods" ∷ n ∷ []) in Memᴰ q (own ∷ signature_paths show ss 0 own))
    → Memᴰ q (method_paths show ms path)
unfolding method_paths method_semantic_path
methods_listed show no_method path q n ss has m = absurd has
methods_listed show (method name _ _ own rest) path q n ss (inl (e, e')) m =
    let below = λ (x : Text) (y : Signatures).
      (path ++ (text "methods" ∷ x ∷ []))
      ∷ signature_paths show y 0 (path ++ (text "methods" ∷ x ∷ [])) in
    append_left (method_paths show rest path)
      (subst (λ y. Memᴰ q (below name y)) e' (subst (λ x. Memᴰ q (below x ss)) e m))
methods_listed show (method name _ _ own rest) path q n ss (inr has) m =
    let here = method_semantic_path path name in
    append_right (here ∷ signature_paths show own 0 here)
      (methods_listed show rest path q n ss has m)
