-- ===== src/Extractor/SemanticPaths/Tests.antt =====
-- Runs of the traversal on the data of Extractor/Samples.
use internal.Prelude.{ℕ, ◌≡◌, ◌↔◌, refl, some, [], ◌∷◌, ◌++◌, Memᴰ, Text, text, ◌===◌}
use internal.Extractor.Model.{of_list}
use internal.Extractor.Samples.{number_function, sized_object, mixed_union}
use internal.Extractor.Canonicalize.Members.{union_kind, flatten_compound_members}
use internal.Extractor.SemanticPaths.{
  SemanticPath, type_paths, member_paths, component_prop_path_from_provenance_path,
}
use internal.Extractor.SemanticPaths.Slots.{Below}
use internal.Extractor.SemanticPaths.Places.{type_paths-Below}
use internal.Extractor.SemanticPaths.Flattened.{flatten-member_paths}
use internal.Extractor.SemanticPaths.Props.{IsRewritten, component_prop_path-IsRewritten}

-- The text of an index does not matter here.
abbrev any_index : ℕ → Text
any_index i = i ∷ []

abbrev widget : SemanticPath
widget = text "Widget" ∷ []

sized_paths :
    type_paths any_index sized_object widget
    ≡ (text "Widget" ∷ text "properties" ∷ text "name" ∷ [])
      ∷ (text "Widget" ∷ text "properties" ∷ text "size" ∷ [])
      ∷ []
unfolding type_paths
sized_paths = refl

function_paths :
    type_paths any_index number_function widget
    ≡ (text "Widget" ∷ text "callSignatures" ∷ any_index 0 ∷ [])
      ∷ (text "Widget"
          ∷ text "callSignatures"
          ∷ any_index 0
          ∷ text "parameters"
          ∷ text "value"
          ∷ [])
      ∷ (text "Widget" ∷ text "callSignatures" ∷ any_index 0 ∷ text "returnValueType" ∷ [])
      ∷ []
unfolding type_paths
function_paths = refl

abbrev result_path : SemanticPath
result_path = text "Widget" ∷ text "callSignatures" ∷ any_index 0 ∷ text "returnValueType" ∷ []

place_example :
    Memᴰ result_path (type_paths any_index number_function widget)
    ↔ ((p : SemanticPath) × (result_path ≡ widget ++ p) × Below any_index number_function p)
place_example = type_paths-Below any_index number_function widget result_path

flattened_example :
    member_paths any_index (of_list (flatten_compound_members union_kind mixed_union)) widget
    ≡ member_paths any_index mixed_union widget
flattened_example = flatten-member_paths any_index mixed_union widget

abbrev size_source : SemanticPath
size_source = text "Widget" ∷ text "properties" ∷ text "size" ∷ []

abbrev size_prop : SemanticPath
size_prop = text "Widget" ∷ text "props" ∷ text "size" ∷ []

size_rewritten :
    component_prop_path_from_provenance_path size_source widget (text "size" ∷ []) ≡ some size_prop
unfolding component_prop_path_from_provenance_path ◌===◌
size_rewritten = refl

prop_example :
    (component_prop_path_from_provenance_path size_source widget (text "size" ∷ [])
      ≡ some size_prop)
    ↔ IsRewritten size_source widget (text "size" ∷ []) size_prop
prop_example = component_prop_path-IsRewritten size_source widget (text "size" ∷ []) size_prop
