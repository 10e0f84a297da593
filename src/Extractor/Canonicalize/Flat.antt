-- ===== src/Extractor/Canonicalize/Flat.antt =====
-- `flattenCompoundMembers` leaves no compound to flatten.
use internal.Prelude.{Bool, true, false, List, [], ◌∷◌, ◌≡◌, refl, All, All-append}
use internal.Extractor.Model.{
  SemanticType, intersection, union, unaliased, Types, no_type, cons_type, of_list,
}
use internal.Extractor.Canonicalize.Members.{
  CompoundKind, union_kind, intersection_kind, flatten_compound_members, flatten_member,
}

-- An unaliased compound of the kind.
unfoldable pub is_compound : CompoundKind → SemanticType → Bool
is_compound union_kind (union _ unaliased _) = true
is_compound intersection_kind (intersection _ unaliased _ _) = true
is_compound _ _ = false

abbrev pub IsFlat : CompoundKind → List SemanticType → Type 0
IsFlat kind ts = All (λ t. is_compound kind t ≡ false) ts

mutual
  unfolding flatten_compound_members flatten_member is_compound

  members_flat : (kind : CompoundKind) (ts : Types) → IsFlat kind (flatten_compound_members kind ts)
  members_flat kind no_type = tt
  members_flat kind (cons_type t ts) =
      All-append _ (flatten_member kind t) (flatten_compound_members kind ts) (member_flat kind t)
        (members_flat kind ts)

  member_flat : (kind : CompoundKind) (t : SemanticType) → IsFlat kind (flatten_member kind t)
  member_flat union_kind (union _ unaliased ts) = members_flat union_kind ts
  member_flat intersection_kind (intersection _ unaliased ts _) = members_flat intersection_kind ts
  member_flat _ _ = (refl, tt)

-- No member is a compound that would be flattened.
pub flatten-IsFlat :
    (kind : CompoundKind) (ts : Types) → IsFlat kind (flatten_compound_members kind ts)
flatten-IsFlat kind ts = members_flat kind ts

flatten_member-atom :
    (kind : CompoundKind) (t : SemanticType)
    → is_compound kind t ≡ false
    → flatten_member kind t ≡ t ∷ []
unfolding flatten_member is_compound
flatten_member-atom union_kind (union _ unaliased ts) h = absurd (cc)
flatten_member-atom intersection_kind (intersection _ unaliased ts _) h = absurd (cc)
flatten_member-atom _ _ h = refl

pub flatten-flat :
    (kind : CompoundKind) (ts : List SemanticType)
    → IsFlat kind ts
    → flatten_compound_members kind (of_list ts) ≡ ts
unfolding flatten_compound_members of_list
flatten-flat kind [] h = refl
flatten-flat kind (t ∷ ts) (p, h) = rw (flatten_member-atom kind t p, flatten-flat kind ts h)

-- Flattening once more changes nothing.
pub flatten-flatten :
    (kind : CompoundKind) (ts : Types)
    → flatten_compound_members kind (of_list (flatten_compound_members kind ts))
      ≡ flatten_compound_members kind ts
flatten-flatten kind ts =
    flatten-flat kind (flatten_compound_members kind ts) (members_flat kind ts)
