-- ===== src/Extractor/SemanticPaths/Found/Parts.antt =====
-- What a listed path says of a part of a type, and of the type.
use internal.Prelude.{
  ℕ, suc, Option, none, some, List, [], ◌∷◌, ◌++◌, ◌≡◌, refl, ◌∙◌, subst, ◌⊎◌, inl, inr, Memᴰ,
  append_assoc, Text, text,
}
use mathlib.Core.List.Memᴰ.{append_cases}
use internal.Extractor.Model.{
  EnumMember, SemanticType, IndexSignature, Parameters, Signatures, signature, Constructors,
  constructor, TypeParameters, Documentation,
}
use internal.Extractor.SemanticPaths.{
  SemanticPath, IndexText, enum_member_semantic_path, enum_member_paths, type_paths,
}
use internal.Extractor.SemanticPaths.Slots.{
  HasType, HasEnumMember, HasIndex, HasMethod, members_of, indexed_by, index_signature_of,
  SignatureSlot, at_call, at_parameter, at_return, Slot, at_index_key, ConstructorSlot,
  at_construct, at_construct_parameter, methods_of, at_method, at_method_signature, Below, through,
  ends, under,
}

-- A path at a place, or below it if a type stands there.
abbrev pub AtOrBelow : IndexText → SemanticPath → SemanticType → SemanticPath → Type 0
AtOrBelow show r u q = (q ≡ r) ⊎ ((p : SemanticPath) × (q ≡ r ++ p) × Below show u p)

abbrev pub Placed : IndexText → SemanticPath → Option SemanticType → SemanticPath → Type 0
Placed show r none q = q ≡ r
Placed show r (some u) q = AtOrBelow show r u q

abbrev pub IsFound : IndexText → SemanticType → SemanticPath → SemanticPath → Type 0
IsFound show t path q = (p : SemanticPath) × (q ≡ path ++ p) × Below show t p

module _ {q own : SemanticPath} (inner later : List SemanticPath) where
  pub node_cases : Memᴰ q ((own ∷ inner) ++ later) → ((q ≡ own) ⊎ Memᴰ q inner) ⊎ Memᴰ q later
  node_cases (Memᴰ.head e) = inl (inl e)
  node_cases (Memᴰ.tail m) = elim (append_cases inner m) [
    | inl below ↦ inl (inr below)
    | inr after ↦ inr after
  ]

pub element :
    (show : IndexText) (t : SemanticType) (own q : SemanticPath)
    → (Memᴰ q (type_paths show t own) → IsFound show t own q)
    → (q ≡ own) ⊎ Memᴰ q (type_paths show t own)
    → AtOrBelow show own t q
element show t own q found (inl e) = inl e
element show t own q found (inr m) = inr (found m)

pub moved :
    (show : IndexText) (path a b q : SemanticPath) (o : Option SemanticType)
    → Placed show ((path ++ a) ++ b) o q
    → Placed show (path ++ (a ++ b)) o q
moved show path a b q o h = subst (λ r. Placed show r o q) (append_assoc path a b) h

pub slot-IsFound :
    (show : IndexText) (t : SemanticType) (path p q : SemanticPath) (o : Option SemanticType)
    → Slot show t p o
    → Placed show (path ++ p) o q
    → IsFound show t path q
slot-IsFound show t path p q none slot e = (p, e, ends t p none slot)
slot-IsFound show t path p q (some u) slot (inl e) = (p, e, ends t p (some u) slot)
slot-IsFound show t path p q (some u) slot (inr (r, e, below)) =
    (p ++ r, e ∙ append_assoc path p r, under t u p r slot below)

pub member-IsFound :
    (show : IndexText) (t u : SemanticType) (path q : SemanticPath)
    → HasType (members_of t) u
    → IsFound show u path q
    → IsFound show t path q
member-IsFound show t u path q has (p, e, below) = (p, e, through t u p has below)

-- A place of later signatures.
pub later_slot :
    (show : IndexText) (own : Parameters) (t : SemanticType) (d : TypeParameters)
    (rest : Signatures) (i : ℕ) (p : SemanticPath) (o : Option SemanticType)
    → SignatureSlot show rest (suc i) p o
    → SignatureSlot show (signature own t d rest) i p o
later_slot show own t d rest i _ _ (at_call j ps u at) = at_call j ps u (inr at)
later_slot show own t d rest i _ _ (at_parameter j ps u name v at has) =
    at_parameter j ps u name v (inr at) has
later_slot show own t d rest i _ _ (at_return j ps u at) = at_return j ps u (inr at)

pub enum_found :
    (ms : List EnumMember) (path q : SemanticPath)
    → Memᴰ q (enum_member_paths ms path)
    → (name : Text) × HasEnumMember ms name × (q ≡ path ++ (text "members" ∷ name ∷ []))
unfolding enum_member_paths enum_member_semantic_path
enum_found [] path q m = elim m [ ]
enum_found (e ∷ ms) path q (Memᴰ.head same) = (e.name, inl refl, same)
enum_found (e ∷ ms) path q (Memᴰ.tail m) =
    let (name, has, same) = enum_found ms path q m in (name, inr has, same)

-- A path of a method, or one of its signatures' places.
abbrev pub InMethod : IndexText → SemanticPath → Signatures → SemanticPath → Type 0
InMethod show r ss q =
    (q ≡ r)
    ⊎ ((p : SemanticPath) × (o : Option SemanticType) × SignatureSlot show ss 0 p o
        × Placed show (r ++ p) o q)

pub method_place :
    (show : IndexText) (t : SemanticType) (path q : SemanticPath) (name : Text) (ss : Signatures)
    → HasMethod (methods_of t) name ss
    → InMethod show (path ++ (text "methods" ∷ name ∷ [])) ss q
    → IsFound show t path q
method_place show t path q name ss has (inl e) =
    slot-IsFound show t path _ q none (at_method name ss has) e
method_place show t path q name ss has (inr (p, o, slot, placed)) =
    slot-IsFound show t path ((text "methods" ∷ name ∷ []) ++ p) q o
      (at_method_signature name ss p o has slot)
      (moved show path (text "methods" ∷ name ∷ []) p q o placed)

-- The key of an index signature, or a path of its values' type.
abbrev pub AtIndex : IndexText → IndexSignature → SemanticPath → SemanticPath → Type 0
AtIndex show ix path q =
    (HasIndex ix × (q ≡ path ++ (text "indexSignature" ∷ text "key" ∷ [])))
    ⊎ ((u : SemanticType) × HasType (indexed_by ix) u × IsFound show u path q)

pub index_place :
    (show : IndexText) (t : SemanticType) (ix : IndexSignature) (path q : SemanticPath)
    → AtIndex show ix path q
    → (HasIndex ix → HasIndex (index_signature_of t))
    → ((u : SemanticType) → HasType (indexed_by ix) u → HasType (members_of t) u)
    → IsFound show t path q
index_place show t ix path q (inl (has, e)) keys values =
    slot-IsFound show t path _ q none (at_index_key (keys has)) e
index_place show t ix path q (inr (u, has, found)) keys values =
    member-IsFound show t u path q (values u has) found

pub later_constructor :
    (show : IndexText) (own : Parameters) (d : Option Documentation) (rest : Constructors) (i : ℕ)
    (p : SemanticPath) (o : Option SemanticType)
    → ConstructorSlot show rest (suc i) p o
    → ConstructorSlot show (constructor own d rest) i p o
later_constructor show own d rest i _ _ (at_construct j ps at) = at_construct j ps (inr at)
later_constructor show own d rest i _ _ (at_construct_parameter j ps name u at has) =
    at_construct_parameter j ps name u (inr at) has
