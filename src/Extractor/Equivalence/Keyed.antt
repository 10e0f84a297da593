-- ===== src/Extractor/Equivalence/Keyed.antt =====
-- Types in which the lookup of each property's key finds that property, as it does where no object has
-- two properties with the same name.
use internal.Prelude.{◌≡◌, some}
use internal.Extractor.Model.{
  SemanticType, array, class_node, component, enum_node, external, function, intersection,
  intrinsic, literal, object, tuple, type_operator, type_parameter, type_query, union, Alias,
  unaliased, aliased, TypeName, type_name, TypeArguments, no_argument, argument, Types, no_type,
  cons_type, OptionalType, absent_type, present_type, Properties, no_property, property,
  IndexSignature, no_index, index, Parameters, no_parameter, parameter, TypeParameters,
  no_type_parameter, generic, Signatures, no_signature, signature,
}
use internal.Extractor.Equivalence.Keys.{property_key, property_at}

unfoldable mutual
  pub IsKeyed : SemanticType → Type 0
  IsKeyed (array _ a e _) = AliasKeyed a × IsKeyed e
  IsKeyed (class_node _ a _ _ _ _) = AliasKeyed a
  IsKeyed (component _ a _) = AliasKeyed a
  IsKeyed (enum_node _ n _ _) = NameKeyed n
  IsKeyed (external n) = NameKeyed n
  IsKeyed (function a ss) = AliasKeyed a × SignaturesKeyed ss
  IsKeyed (intersection _ a ts _) = AliasKeyed a × TypesKeyed ts
  IsKeyed (intrinsic a _) = AliasKeyed a
  IsKeyed (literal a _ _) = AliasKeyed a
  IsKeyed (object _ a ps _ ix) = AliasKeyed a × (PropertiesKeyed ps ps × IndexKeyed ix)
  IsKeyed (tuple _ a ts _) = AliasKeyed a × TypesKeyed ts
  IsKeyed (type_operator a t resolved _) = AliasKeyed a × (IsKeyed t × IsKeyed resolved)
  IsKeyed (type_parameter _ _ _) = Unit {0}
  IsKeyed (type_query _ _) = Unit {0}
  IsKeyed (union _ a ts) = AliasKeyed a × TypesKeyed ts

  pub AliasKeyed : Alias → Type 0
  AliasKeyed unaliased = Unit {0}
  AliasKeyed (aliased n) = NameKeyed n

  pub NameKeyed : TypeName → Type 0
  NameKeyed (type_name _ _ args) = ArgumentsKeyed args

  pub ArgumentsKeyed : TypeArguments → Type 0
  ArgumentsKeyed no_argument = Unit {0}
  ArgumentsKeyed (argument t _ rest) = IsKeyed t × ArgumentsKeyed rest

  pub TypesKeyed : Types → Type 0
  TypesKeyed no_type = Unit {0}
  TypesKeyed (cons_type t ts) = IsKeyed t × TypesKeyed ts

  pub OptionalKeyed : OptionalType → Type 0
  OptionalKeyed absent_type = Unit {0}
  OptionalKeyed (present_type t) = IsKeyed t

  -- The properties of the first list, as the second list finds them.
  pub PropertiesKeyed : Properties → Properties → Type 0
  PropertiesKeyed no_property all = Unit {0}
  PropertiesKeyed (property name t _ is_optional rest) all =
      (property_at (property_key name is_optional) all ≡ some t)
      × (IsKeyed t × PropertiesKeyed rest all)

  pub IndexKeyed : IndexSignature → Type 0
  IndexKeyed no_index = Unit {0}
  IndexKeyed (index _ _ t) = IsKeyed t

  pub ParametersKeyed : Parameters → Type 0
  ParametersKeyed no_parameter = Unit {0}
  ParametersKeyed (parameter t _ _ _ _ rest) = IsKeyed t × ParametersKeyed rest

  pub GenericsKeyed : TypeParameters → Type 0
  GenericsKeyed no_type_parameter = Unit {0}
  GenericsKeyed (generic _ c d rest) = (OptionalKeyed c × OptionalKeyed d) × GenericsKeyed rest

  pub SignaturesKeyed : Signatures → Type 0
  SignaturesKeyed no_signature = Unit {0}
  SignaturesKeyed (signature ps t gs rest) =
      (GenericsKeyed gs × (IsKeyed t × ParametersKeyed ps)) × SignaturesKeyed rest
