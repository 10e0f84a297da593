-- ===== src/Extractor/Equivalence/Reflexive/Parts.antt =====
-- The parts of the comparison, of equal arguments.
use internal.Prelude.{
  ℕ, ◌≡◌, refl, ap, ◌∙◌, subst, Bool, true, false, not, ◌&&◌, Option, none, some, List, [], ◌∷◌,
  ◌⊎◌, inl, inr, Text, ◌===◌, ===_refl, ◌==◌, ==_iff, length, get, set, if◌then◌else◌, Bool-cases,
  arith,
}
use internal.Extractor.Model.{
  SemanticType, type_parameter, OptionalType, Properties, no_property, property, TypeParameters,
  no_type_parameter, generic, IndexKey, string_key, number_key, same_key, ResolutionKind, exact,
  base_constraint, fallback, same_resolution, same_flag,
}
use internal.Extractor.Render.{Runtime, render_type}
use internal.Extractor.Equivalence.{
  same_texts, members_match, compare_named, compare_parameter, same_rendering, named_or,
  unless_parameter, same_count,
}
use internal.Extractor.Equivalence.Bindings.{
  Context, bind_pair, with_signature_bindings, same_binding, type_parameter_names_equivalent,
}

-- Both sides bind the same names to the same identities.
abbrev pub IsEven : Context → Type 0
IsEven ctx = ctx.left_bindings ≡ ctx.right_bindings

-- No public name on either side, or equal ones.
abbrev pub Agree : Option Bool → Type 0
Agree names = (names ≡ none) ⊎ (names ≡ some true)

pub flag_refl : (b : Bool) → same_flag b b ≡ true
unfolding same_flag
flag_refl true = refl
flag_refl false = refl

pub key_refl : (k : IndexKey) → same_key k k ≡ true
unfolding same_key
key_refl string_key = refl
key_refl number_key = refl

pub resolution_refl : (k : ResolutionKind) → same_resolution k k ≡ true
unfolding same_resolution
resolution_refl exact = refl
resolution_refl base_constraint = refl
resolution_refl fallback = refl

pub texts_refl : (ns : List Text) → same_texts ns ns ≡ true
unfolding same_texts
texts_refl [] = refl
texts_refl (n ∷ ns) = rw (===_refl n, texts_refl ns) refl

pub count_refl : (ps : Properties) → same_count ps ps ≡ true
unfolding same_count
count_refl no_property = refl
count_refl (property _ _ _ _ ps) = count_refl ps

pub rendering_refl : (js : Runtime) (t : SemanticType) → same_rendering js t t ≡ true
unfolding same_rendering
rendering_refl js t = ===_refl (render_type js t)

pub binding_refl : (o : Option ℕ) (b : Bool) → b ≡ true → same_binding o o b ≡ true
unfolding same_binding
binding_refl none b h = h
binding_refl (some i) b h = (==_iff i i).1 refl

pub members_refl :
    (js : Runtime) (ctx : Context) (left : List SemanticType) (b : Bool) (adjacency : List (List ℕ))
    → b ≡ true
    → members_match js ctx left left b adjacency ≡ true
unfolding members_match
members_refl js ctx left b adjacency h =
    let as_many : (not (length left == length left)) ≡ false = ground arith in
    elim (Bool-cases (length left == 0)) [
      | inl empty ↦ rw (as_many, empty) refl
      | inr some_left ↦ rw (as_many, some_left, h) refl
    ]

-- A type that is no type parameter.
abbrev pub is_parameter : SemanticType → Bool
is_parameter (type_parameter _ _ _) = true
is_parameter _ = false

pub not_parameter :
    (t : SemanticType) (b : Bool) → is_parameter t ≡ false → unless_parameter t b ≡ b
unfolding unless_parameter
not_parameter (type_parameter _ _ _) b h = absurd (cc)
not_parameter _ b h = refl

pub true_anyway : (wild b : Bool) → b ≡ true → (if wild then true else b) ≡ true
true_anyway true b h = refl
true_anyway false b h = h

pub agreed :
    (names : Option Bool) (structure : Bool)
    → Agree names
    → structure ≡ true
    → named_or names structure ≡ true
unfolding named_or
agreed names structure (inl no_names) h = rw no_names h
agreed names structure (inr equal) h = rw equal refl

pub named_refl :
    (ctx : Context) (t : SemanticType) (names : Option Bool) (structure : Bool)
    → is_parameter t ≡ false
    → Agree names
    → structure ≡ true
    → compare_named ctx t t names structure ≡ true
unfolding compare_named
named_refl ctx t names structure h agree same =
    true_anyway _ (unless_parameter t (named_or names structure))
      (not_parameter t (named_or names structure) h ∙ agreed names structure agree same)

pub parameter_refl :
    (ctx : Context) (name : Text) (c d : OptionalType)
    → IsEven ctx
    → compare_parameter ctx name (type_parameter name c d) ≡ true
unfolding compare_parameter type_parameter_names_equivalent
parameter_refl ctx name c d even = true_anyway _ (type_parameter_names_equivalent name name ctx) (
    subst
      (λ right. same_binding (get name ctx.left_bindings) (get name right) (name === name) ≡ true)
      even (binding_refl (get name ctx.left_bindings) (name === name) (===_refl name)))

pub bindings-IsEven :
    (gs : TypeParameters) (ctx : Context)
    → IsEven ctx
    → (inner : Context) × (with_signature_bindings ctx gs gs ≡ some inner) × IsEven inner
unfolding with_signature_bindings bind_pair
bindings-IsEven no_type_parameter ctx even = (ctx, refl, even)
bindings-IsEven (generic name c d rest) ctx even =
    bindings-IsEven rest (bind_pair name name ctx) (ap (set name ctx.next_identity) even)

pub both_true : {a b : Bool} → a ≡ true → b ≡ true → (a && b) ≡ true
both_true {a} {b} p q = rw (p, q) refl
