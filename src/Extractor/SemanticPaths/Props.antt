-- ===== src/Extractor/SemanticPaths/Props.antt =====
-- `componentPropSemanticPathFromProvenancePath`: which paths become paths of props.
use internal.Prelude.{
  true, ◌&&◌, Option, none, some, List, [], ◌∷◌, ◌++◌, ◌≡◌, ◌↔◌, ◌⊎◌, inl, inr, refl, Text, text,
  ◌===◌, ===_iff, ===_refl, any, drop, length, drop-length-append, Bool-cases, arith,
}
use internal.Extractor.Filters.{both}
use internal.Extractor.SemanticPaths.{
  SemanticPath, component_prop_semantic_path, starts_with_path, named_segment, parameter_property,
  component_property_from_provenance_path, rewritten_path, component_prop_path_from_provenance_path,
}

-- A property of the component itself, or of a parameter of one of its call signatures.
abbrev pub IsSource : SemanticPath → Text → SemanticPath → Type 0
IsSource path name rest =
    (path ≡ text "properties" ∷ name ∷ rest)
    ⊎ ((i : Text) × (parameter : Text) × (path
          ≡ text "callSignatures"
            ∷ i
            ∷ text "parameters"
            ∷ parameter
            ∷ text "properties"
            ∷ name
            ∷ rest))

starts_with_path-append : (p q : SemanticPath) → starts_with_path (p ++ q) p ≡ true
unfolding starts_with_path
starts_with_path-append [] q = refl
starts_with_path-append (s ∷ p) q = rw (===_refl s, starts_with_path-append p q) refl

starts_with_path-drop :
    (path p : SemanticPath) → starts_with_path path p ≡ true → path ≡ p ++ drop (length p) path
unfolding starts_with_path
starts_with_path-drop path [] h = refl
starts_with_path-drop [] (s ∷ p) h = cc
starts_with_path-drop (t ∷ path) (s ∷ p) h =
    ground (arith, ===_iff t s, starts_with_path-drop path p)

parameter_property-found :
    (path : SemanticPath) (name : Text) (rest : SemanticPath)
    → parameter_property path ≡ some (name, rest)
    → IsSource path name rest
unfolding parameter_property
parameter_property-found (a ∷ b ∷ c ∷ d ∷ e ∷ f ∷ path) name rest h =
    elim (Bool-cases
      ((a === text "callSignatures") && ((c === text "parameters") && (e === text "properties")))) [
        | inl same ↦
            let (same_a, same_ce) = both (a === text "callSignatures") _ same in
            let (same_c, same_e) = both (c === text "parameters") _ same_ce in
            inr (b, d, segments same_a same_c same_e (rw same at h))
        | inr other ↦ absurd (no_text (rw other at h))
      ]
  where
    segments :
        (a === text "callSignatures") ≡ true
        → (c === text "parameters") ≡ true
        → (e === text "properties") ≡ true
        → ◌≡◌ {A = Option (Text × SemanticPath)} (some (f, path)) (some (name, rest))
        → a ∷ b ∷ c ∷ d ∷ e ∷ f ∷ path
          ≡ text "callSignatures" ∷ b ∷ text "parameters" ∷ d ∷ text "properties" ∷ name ∷ rest
    segments same_a same_c same_e h = cc (
      (===_iff a (text "callSignatures")).0 same_a,
      (===_iff c (text "parameters")).0 same_c,
      (===_iff e (text "properties")).0 same_e,
      h,
    )

    no_text : ◌≡◌ {A = Option (Text × SemanticPath)} none (some (name, rest)) → ⊥
    no_text h = cc
parameter_property-found _ name rest h = absurd (cc)

segment-found :
    (path : SemanticPath) (name : Text) (rest : SemanticPath)
    → named_segment path ≡ some (name, rest)
    → path ≡ name ∷ rest
unfolding named_segment
segment-found [] name rest h = absurd (cc)
segment-found (n ∷ path) name rest h = cc

property-found :
    (path : SemanticPath) (name : Text) (rest : SemanticPath)
    → component_property_from_provenance_path path ≡ some (name, rest)
    → IsSource path name rest
unfolding component_property_from_provenance_path
property-found [] name rest h = absurd (cc)
property-found (a ∷ path) name rest h = elim (Bool-cases (a === text "properties")) [
  | inl here ↦
      inl (cc ((===_iff a (text "properties")).0 here, segment-found path name rest (rw here at h)))
  | inr other ↦ parameter_property-found (a ∷ path) name rest (rw other at h)
]

source_property :
    (path : SemanticPath) (name : Text) (rest : SemanticPath)
    → IsSource path name rest
    → component_property_from_provenance_path path ≡ some (name, rest)
unfolding component_property_from_provenance_path named_segment parameter_property ◌===◌
source_property path name rest (inl here) = rw here refl
source_property path name rest (inr (i, parameter, there)) = rw there refl

module _ (path owner : SemanticPath) (names : List Text) where
  -- The path of a prop of the owner that stands for the path.
  abbrev pub IsRewritten : SemanticPath → Type 0
  IsRewritten q =
      (source : SemanticPath) × (name : Text) × (rest : SemanticPath) × (path ≡ owner ++ source)
      × IsSource source name rest
      × (any (λ n. n === name) names ≡ true)
      × (q ≡ component_prop_semantic_path owner name ++ rest)

  rewritten_path-found :
      (o : Option (Text × SemanticPath)) (q : SemanticPath)
      → rewritten_path owner names o ≡ some q
      → (name : Text) × (rest : SemanticPath) × (o ≡ some (name, rest))
        × (any (λ n. n === name) names ≡ true)
        × (q ≡ component_prop_semantic_path owner name ++ rest)
  unfolding rewritten_path
  rewritten_path-found none q h = absurd (cc)
  rewritten_path-found (some (name, rest)) q h = elim (Bool-cases (any (λ n. n === name) names)) [
    | inl known ↦ (name, rest, refl, known, same (rw known at h))
    | inr unknown ↦ absurd (no_path (rw unknown at h))
  ]
    where
      same : {p : SemanticPath} → ◌≡◌ {A = Option SemanticPath} (some p) (some q) → q ≡ p
      same h = cc

      no_path : ◌≡◌ {A = Option SemanticPath} none (some q) → ⊥
      no_path h = cc

  -- The result is a path exactly if the path leads, below the owner, to a property of the owner or of
  -- a parameter of one of its call signatures whose name is one of the names; and it is then the path
  -- of that prop, with what follows the property's name kept.
  pub component_prop_path-IsRewritten :
      (q : SemanticPath)
      → (component_prop_path_from_provenance_path path owner names ≡ some q) ↔ IsRewritten q
  unfolding component_prop_path_from_provenance_path rewritten_path
  component_prop_path-IsRewritten q = (forward, backward)
    where
      no_path : ◌≡◌ {A = Option SemanticPath} none (some q) → ⊥
      no_path h = cc

      forward : component_prop_path_from_provenance_path path owner names ≡ some q → IsRewritten q
      forward h = elim (Bool-cases (starts_with_path path owner)) [
        | inl below ↦
            let source = drop (length owner) path in
            let (name, rest, found, known, e) =
              rewritten_path-found (component_property_from_provenance_path source) q
                (rw below at h) in
            (
              source,
              name,
              rest,
              starts_with_path-drop path owner below,
              property-found source name rest found,
              known,
              e,
            )
        | inr elsewhere ↦ absurd (no_path (rw elsewhere at h))
      ]

      backward : IsRewritten q → component_prop_path_from_provenance_path path owner names ≡ some q
      backward (source, name, rest, at, is_source, known, e) =
          rw
            (
              at,
              starts_with_path-append owner source,
              drop-length-append owner source,
              source_property source name rest is_source,
              known,
              e,
            )
            refl
