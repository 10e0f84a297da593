-- ===== src/Extractor/Equivalence/Parts.antt =====
-- packages/api-extractor/src/canonical/equivalence.ts: the parts of the comparison that do not
-- compare types themselves.
use internal.Prelude.{
  ℕ, suc, Bool, true, false, Option, none, some, List, [], ◌∷◌, ◌++◌, Text, ◌===◌, ◌==◌, ◌&&◌, ◌||◌,
  not, if◌then◌else◌, length, any,
}
use internal.Extractor.Model.{
  SemanticType, type_parameter, Alias, unaliased, aliased, Properties, no_property, property,
}
use internal.Extractor.Render.{Runtime, render_type}
use internal.Extractor.Matching.{has_complete_matching}
use internal.Extractor.Equivalence.Bindings.{
  Context, has_active_bindings, type_parameter_names_equivalent,
}
use internal.Extractor.Equivalence.Wildcard.{is_unaliased_any}
use internal.Extractor.Equivalence.Keys.{structural_key_multisets_match}

-- The indices, from `i` on, of the entries that pass the test.
unfoldable pub indices_where : (SemanticType → Bool) → List SemanticType → ℕ → List ℕ
indices_where p [] i = []
indices_where p (t ∷ ts) i = let rest = indices_where p ts (suc i) in if p t then i ∷ rest else rest

unfoldable pub same_texts : List Text → List Text → Bool
same_texts [] [] = true
same_texts (n ∷ ns) (m ∷ ms) = (n === m) && same_texts ns ms
same_texts _ _ = false

-- Not before the members are known to differ in order.
unfoldable pub is_rejected_by_key : Runtime → Context → List SemanticType → List SemanticType → Bool
unfolding is_unaliased_any has_active_bindings structural_key_multisets_match
is_rejected_by_key js ctx left right =
    not (ctx.any_is_wildcard && any is_unaliased_any (left ++ right))
    && (not (has_active_bindings ctx) && not (structural_key_multisets_match js left right))

-- `membersAreEquivalentUnordered`, given whether the members match in order and which left and right
-- members are equivalent.
unfoldable pub members_match :
    Runtime → Context → List SemanticType → List SemanticType → Bool → List (List ℕ) → Bool
unfolding is_rejected_by_key
members_match js ctx left right in_order adjacency =
    if not (length left == length right)
    then false
    else if length left == 0
    then true
    else if in_order
    then true
    else if is_rejected_by_key js ctx left right
    then false
    else has_complete_matching adjacency (length left)

-- What the public names decide, or else the structures.
unfoldable pub named_or : Option Bool → Bool → Bool
named_or none structure = structure
named_or (some same) structure = same

unfoldable pub unless_parameter : SemanticType → Bool → Bool
unless_parameter (type_parameter _ _ _) same = false
unless_parameter _ same = same

-- The start of `areEquivalent` for a left type that is no type parameter: `names` compares the public
-- names, `structure` the structures.
unfoldable pub compare_named : Context → SemanticType → SemanticType → Option Bool → Bool → Bool
unfolding is_unaliased_any named_or unless_parameter
compare_named ctx left right names structure =
    if ctx.any_is_wildcard && (is_unaliased_any left || is_unaliased_any right)
    then true
    else unless_parameter right (named_or names structure)

unfoldable pub compare_parameter : Context → Text → SemanticType → Bool
unfolding is_unaliased_any type_parameter_names_equivalent
compare_parameter ctx name right =
    if ctx.any_is_wildcard && is_unaliased_any right then true else elim right [
      | type_parameter other _ _ ↦ type_parameter_names_equivalent name other ctx
      | _ ↦ false
    ]

-- The comparison of the rendered texts.
unfoldable pub same_rendering : Runtime → SemanticType → SemanticType → Bool
unfolding render_type
same_rendering js left right = render_type js left === render_type js right

-- A left type that has no name against the name of the right type.
unfoldable pub no_name_against : Alias → Option Bool
no_name_against unaliased = none
no_name_against (aliased _) = some false

-- No names to compare, or equal ones.
unfoldable pub names_allow : Option Bool → Bool
names_allow none = true
names_allow (some same) = same

unfoldable pub same_count : Properties → Properties → Bool
same_count no_property no_property = true
same_count (property _ _ _ _ ps) (property _ _ _ _ qs) = same_count ps qs
same_count _ _ = false
