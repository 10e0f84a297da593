-- ===== src/Extractor/SemanticPaths/Flattened.antt =====
-- Flattening a union changes no path.
use internal.Prelude.{List, [], ◌∷◌, ◌++◌, ◌≡◌, refl, sym, ap, ◌∙◌, append_assoc, append-nil}
use internal.Extractor.Model.{SemanticType, union, unaliased, Types, no_type, cons_type, of_list}
use internal.Extractor.Canonicalize.Members.{union_kind, flatten_compound_members, flatten_member}
use internal.Extractor.SemanticPaths.{SemanticPath, IndexText, type_paths, member_paths}

members_append :
    (show : IndexText) (ts us : List SemanticType) (path : SemanticPath)
    → member_paths show (of_list (ts ++ us)) path
      ≡ member_paths show (of_list ts) path ++ member_paths show (of_list us) path
unfolding member_paths of_list
members_append show [] us path = refl
members_append show (t ∷ ts) us path =
    ap (λ paths. type_paths show t path ++ paths) (members_append show ts us path)
    ∙ sym (append_assoc (type_paths show t path) _ _)

mutual
  unfolding flatten_compound_members flatten_member member_paths type_paths of_list

  flattened_members :
      (show : IndexText) (ts : Types) (path : SemanticPath)
      → member_paths show (of_list (flatten_compound_members union_kind ts)) path
        ≡ member_paths show ts path
  flattened_members show no_type path = refl
  flattened_members show (cons_type t ts) path =
      members_append show (flatten_member union_kind t) (flatten_compound_members union_kind ts)
        path
      ∙ (ap
            (λ paths.
              paths ++ member_paths show (of_list (flatten_compound_members union_kind ts)) path)
            (flattened_member show t path)
          ∙ ap (λ paths. type_paths show t path ++ paths) (flattened_members show ts path))

  flattened_member :
      (show : IndexText) (t : SemanticType) (path : SemanticPath)
      → member_paths show (of_list (flatten_member union_kind t)) path ≡ type_paths show t path
  flattened_member show (union _ unaliased ts) path = flattened_members show ts path
  flattened_member show t path = append-nil (type_paths show t path)

-- The members of a union and the flattened members have the same paths, in the same order.
pub flatten-member_paths :
    (show : IndexText) (ts : Types) (path : SemanticPath)
    → member_paths show (of_list (flatten_compound_members union_kind ts)) path
      ≡ member_paths show ts path
flatten-member_paths show ts path = flattened_members show ts path
