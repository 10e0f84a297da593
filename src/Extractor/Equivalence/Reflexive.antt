-- ===== src/Extractor/Equivalence/Reflexive.antt =====
-- The comparison of types is reflexive.
pub mod Parts
use internal.Prelude.{
  ℕ, suc, ◌≡◌, refl, sym, ap, ◌∙◌, subst, Bool, true, false, not, ◌&&◌, ◌||◌, Option, none, some,
  List, [], ◌∷◌, ◌⊎◌, inl, inr, Text, ◌===◌, ===_refl, ===_iff, ◌==◌, ==_iff, length, get, set,
  if◌then◌else◌, Bool-cases, Option-cases, arith,
}
use internal.Extractor.Model.{
  SemanticType, array, class_node, component, enum_node, external, function, intersection,
  intrinsic, literal, object, tuple, type_operator, type_parameter, type_query, union, Alias,
  unaliased, aliased, TypeName, type_name, TypeArguments, no_argument, argument, Types, no_type,
  cons_type, OptionalType, absent_type, present_type, Properties, no_property, property,
  IndexSignature, no_index, index, Parameters, no_parameter, parameter, TypeParameters,
  no_type_parameter, generic, Signatures, no_signature, signature, IndexKey, string_key, number_key,
  same_key, ResolutionKind, exact, base_constraint, fallback, same_resolution, same_flag, to_list,
}
use internal.Extractor.Render.{Runtime, render_type}
use internal.Extractor.Equivalence.{
  same_texts, members_match, compare_named, compare_parameter, same_rendering, names_allow,
  named_or, unless_parameter, no_name_against, same_count, are_equivalent, same_alias, same_name,
  same_arguments, same_types, adjacent, same_signatures, same_parameters, same_generics,
  same_optional, same_index, same_properties, is_rejected_by_key,
}
use internal.Extractor.Equivalence.Bindings.{
  Context, empty_context, without_wildcard, bind_pair, with_signature_bindings, same_binding,
  type_parameter_names_equivalent,
}
use internal.Extractor.Equivalence.Wildcard.{is_unaliased_any}
use internal.Extractor.Equivalence.Keyed.{
  IsKeyed, AliasKeyed, NameKeyed, ArgumentsKeyed, TypesKeyed, OptionalKeyed, PropertiesKeyed,
  IndexKeyed, ParametersKeyed, GenericsKeyed, SignaturesKeyed,
}
use internal.Extractor.Equivalence.Reflexive.Parts.{
  IsEven, Agree, flag_refl, key_refl, resolution_refl, texts_refl, count_refl, rendering_refl,
  binding_refl, members_refl, is_parameter, not_parameter, true_anyway, agreed, named_refl,
  parameter_refl, bindings-IsEven, both_true,
}

mutual
  unfolding are_equivalent same_alias same_name same_arguments same_types same_signatures
      same_parameters same_generics same_optional same_index same_properties names_allow
      no_name_against without_wildcard IsKeyed AliasKeyed NameKeyed ArgumentsKeyed TypesKeyed
      OptionalKeyed PropertiesKeyed IndexKeyed ParametersKeyed GenericsKeyed SignaturesKeyed

  type_refl :
      (js : Runtime) (t : SemanticType) (ctx : Context)
      → IsKeyed t
      → IsEven ctx
      → are_equivalent js t t ctx ≡ true
  type_refl js (array i a e ro) ctx (ka, ke) even =
      named_refl ctx (array i a e ro) _ _ refl (alias_refl js a ctx ka even)
        (both_true (type_refl js e ctx ke even) (flag_refl ro))
  type_refl js (class_node i a cs ps ms ts) ctx ka even =
      named_refl ctx (class_node i a cs ps ms ts) _ _ refl (alias_refl js a ctx ka even)
        (rendering_refl js (class_node i a cs ps ms ts))
  type_refl js (component i a ps) ctx ka even =
      named_refl ctx (component i a ps) _ _ refl (alias_refl js a ctx ka even)
        (rendering_refl js (component i a ps))
  type_refl js (enum_node i n ms d) ctx kn even =
      named_refl ctx (enum_node i n ms d) _ _ refl (inr (name_refl js n ctx kn even))
        (rendering_refl js (enum_node i n ms d))
  type_refl js (external n) ctx kn even =
      named_refl ctx (external n) _ _ refl (inr (name_refl js n ctx kn even))
        (rendering_refl js (external n))
  type_refl js (function a ss) ctx (ka, ks) even =
      named_refl ctx (function a ss) _ _ refl (alias_refl js a ctx ka even)
        (both_true (allow_refl js a ctx ka even) (signatures_refl js ss ctx ks even))
  type_refl js (intersection i a ts ps) ctx (ka, kt) even =
      named_refl ctx (intersection i a ts ps) _ _ refl (alias_refl js a ctx ka even)
        (members_refl js ctx (to_list ts) _ _ (types_refl js ts ctx kt even))
  type_refl js (intrinsic a n) ctx ka even =
      named_refl ctx (intrinsic a n) _ _ refl (alias_refl js a ctx ka even)
        (rendering_refl js (intrinsic a n))
  type_refl js (literal a v d) ctx ka even =
      named_refl ctx (literal a v d) _ _ refl (alias_refl js a ctx ka even)
        (rendering_refl js (literal a v d))
  type_refl js (object i a ps d ix) ctx (ka, (kp, ki)) even =
      named_refl ctx (object i a ps d ix) _ _ refl (alias_refl js a ctx ka even) (
        both_true (count_refl ps)
          (both_true (index_refl js ix ctx ki even) (properties_refl js ps ps ctx kp even)))
  type_refl js (tuple i a ts ro) ctx (ka, kt) even =
      named_refl ctx (tuple i a ts ro) _ _ refl (alias_refl js a ctx ka even)
        (both_true (flag_refl ro) (types_refl js ts ctx kt even))
  type_refl js (type_operator a t resolved k) ctx (ka, (kt, kr)) even =
      named_refl ctx (type_operator a t resolved k) _ _ refl (alias_refl js a ctx ka even) (
        both_true (resolution_refl k) (
          both_true (type_refl js t (without_wildcard ctx) kt even)
            (type_refl js resolved (without_wildcard ctx) kr even)))
  type_refl js (type_parameter name c d) ctx k even = parameter_refl ctx name c d even
  type_refl js (type_query i n) ctx k even =
      named_refl ctx (type_query i n) _ _ refl (inl refl) (rendering_refl js (type_query i n))
  type_refl js (union i a ts) ctx (ka, kt) even =
      named_refl ctx (union i a ts) _ _ refl (alias_refl js a ctx ka even)
        (members_refl js ctx (to_list ts) _ _ (types_refl js ts ctx kt even))

  alias_refl :
      (js : Runtime) (a : Alias) (ctx : Context)
      → AliasKeyed a
      → IsEven ctx
      → Agree (same_alias js a a ctx)
  alias_refl js unaliased ctx k even = inl refl
  alias_refl js (aliased n) ctx k even = inr (name_refl js n ctx k even)

  allow_refl :
      (js : Runtime) (a : Alias) (ctx : Context)
      → AliasKeyed a
      → IsEven ctx
      → names_allow (same_alias js a a ctx) ≡ true
  allow_refl js unaliased ctx k even = refl
  allow_refl js (aliased n) ctx k even = rw (name_refl js n ctx k even) refl

  name_refl :
      (js : Runtime) (n : TypeName) (ctx : Context)
      → NameKeyed n
      → IsEven ctx
      → same_name js n (aliased n) ctx ≡ some true
  name_refl js (type_name n ns args) ctx k even =
      ap some
        (both_true (===_refl n) (both_true (texts_refl ns) (arguments_refl js args ctx k even)))

  arguments_refl :
      (js : Runtime) (args : TypeArguments) (ctx : Context)
      → ArgumentsKeyed args
      → IsEven ctx
      → same_arguments js args args ctx ≡ true
  arguments_refl js no_argument ctx k even = refl
  arguments_refl js (argument t _ rest) ctx (k, ks) even =
      both_true (type_refl js t ctx k even) (arguments_refl js rest ctx ks even)

  types_refl :
      (js : Runtime) (ts : Types) (ctx : Context)
      → TypesKeyed ts
      → IsEven ctx
      → same_types js ts ts ctx ≡ true
  types_refl js no_type ctx k even = refl
  types_refl js (cons_type t ts) ctx (k, ks) even =
      both_true (type_refl js t ctx k even) (types_refl js ts ctx ks even)

  optional_refl :
      (js : Runtime) (t : OptionalType) (ctx : Context)
      → OptionalKeyed t
      → IsEven ctx
      → same_optional js t t ctx ≡ true
  optional_refl js absent_type ctx k even = refl
  optional_refl js (present_type t) ctx k even = type_refl js t ctx k even

  properties_refl :
      (js : Runtime) (ps all : Properties) (ctx : Context)
      → PropertiesKeyed ps all
      → IsEven ctx
      → same_properties js ps all ctx ≡ true
  properties_refl js no_property all ctx k even = refl
  properties_refl js (property n t _ o rest) all ctx (found, (k, ks)) even =
      both_true (rw found (type_refl js t ctx k even)) (properties_refl js rest all ctx ks even)

  index_refl :
      (js : Runtime) (ix : IndexSignature) (ctx : Context)
      → IndexKeyed ix
      → IsEven ctx
      → same_index js ix ix ctx ≡ true
  index_refl js no_index ctx k even = refl
  index_refl js (index _ key t) ctx k even = both_true (key_refl key) (type_refl js t ctx k even)

  parameters_refl :
      (js : Runtime) (ps : Parameters) (ctx : Context)
      → ParametersKeyed ps
      → IsEven ctx
      → same_parameters js ps ps ctx ≡ true
  parameters_refl js no_parameter ctx k even = refl
  parameters_refl js (parameter t n _ o _ rest) ctx (k, ks) even =
      both_true (both_true (===_refl n) (both_true (flag_refl o) (type_refl js t ctx k even)))
        (parameters_refl js rest ctx ks even)

  generics_refl :
      (js : Runtime) (gs : TypeParameters) (ctx : Context)
      → GenericsKeyed gs
      → IsEven ctx
      → same_generics js gs gs ctx ≡ true
  generics_refl js no_type_parameter ctx k even = refl
  generics_refl js (generic _ c d rest) ctx ((kc, kd), ks) even =
      both_true (both_true (optional_refl js c ctx kc even) (optional_refl js d ctx kd even))
        (generics_refl js rest ctx ks even)

  signatures_refl :
      (js : Runtime) (ss : Signatures) (ctx : Context)
      → SignaturesKeyed ss
      → IsEven ctx
      → same_signatures js ss ss ctx ≡ true
  signatures_refl js no_signature ctx k even = refl
  signatures_refl js (signature ps t gs rest) ctx ((kg, (kt, kp)), ks) even =
      let (inner, bound, inside) = bindings-IsEven gs ctx even in
      both_true
        (rw bound (
          both_true (generics_refl js gs inner kg inside)
            (both_true (type_refl js t inner kt inside) (parameters_refl js ps inner kp inside))))
        (signatures_refl js rest ctx ks even)

-- A type in which property lookups find their properties is equivalent to itself, whether `any` is a
-- wildcard or not.
pub are_equivalent_refl :
    (js : Runtime) (t : SemanticType) (wildcard : Bool)
    → IsKeyed t
    → are_equivalent js t t (empty_context wildcard) ≡ true
unfolding empty_context
are_equivalent_refl js t wildcard k = type_refl js t (empty_context wildcard) k refl
