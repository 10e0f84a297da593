-- ===== src/Extractor/Equivalence/Wildcard.antt =====
-- packages/api-extractor/src/canonical/equivalence.ts: where a model has an intrinsic `any`.
use internal.Prelude.{Bool, true, false, ◌||◌}
use internal.Extractor.Model.{
  any_type, SemanticType, array, external, function, intersection, intrinsic, object, tuple,
  type_operator, union, unaliased, type_name, TypeArguments, no_argument, argument, Types, no_type,
  cons_type, OptionalType, absent_type, present_type, Properties, no_property, property,
  IndexSignature, no_index, index, Parameters, no_parameter, parameter, TypeParameters,
  no_type_parameter, generic, Signatures, no_signature, signature, same_intrinsic,
}

unfoldable pub is_unaliased_any : SemanticType → Bool
is_unaliased_any (intrinsic unaliased any_type) = true
is_unaliased_any _ = false

unfoldable mutual
  unfolding same_intrinsic

  pub contains_any : SemanticType → Bool
  contains_any (intrinsic _ name) = same_intrinsic name any_type
  contains_any (function _ ss) = some_signature_contains_any ss
  contains_any (union _ _ ts) = some_contains_any ts
  contains_any (intersection _ _ ts _) = some_contains_any ts
  contains_any (tuple _ _ ts _) = some_contains_any ts
  contains_any (array _ _ t _) = contains_any t
  contains_any (type_operator _ t resolved _) = contains_any t || contains_any resolved
  contains_any (object _ _ ps _ ix) = some_property_contains_any ps || index_contains_any ix
  contains_any (external (type_name _ _ args)) = some_argument_contains_any args
  contains_any _ = false

  pub some_contains_any : Types → Bool
  some_contains_any no_type = false
  some_contains_any (cons_type t ts) = contains_any t || some_contains_any ts

  pub some_argument_contains_any : TypeArguments → Bool
  some_argument_contains_any no_argument = false
  some_argument_contains_any (argument t _ rest) = contains_any t || some_argument_contains_any rest

  pub some_property_contains_any : Properties → Bool
  some_property_contains_any no_property = false
  some_property_contains_any (property _ t _ _ rest) =
      contains_any t || some_property_contains_any rest

  pub index_contains_any : IndexSignature → Bool
  index_contains_any no_index = false
  index_contains_any (index _ _ t) = contains_any t

  -- `signatureContainsAny` of some signature.
  pub some_signature_contains_any : Signatures → Bool
  some_signature_contains_any no_signature = false
  some_signature_contains_any (signature ps t gs rest) =
      (some_parameter_contains_any ps || (contains_any t || some_generic_contains_any gs))
      || some_signature_contains_any rest

  pub some_parameter_contains_any : Parameters → Bool
  some_parameter_contains_any no_parameter = false
  some_parameter_contains_any (parameter t _ _ _ _ rest) =
      contains_any t || some_parameter_contains_any rest

  pub some_generic_contains_any : TypeParameters → Bool
  some_generic_contains_any no_type_parameter = false
  some_generic_contains_any (generic _ c d rest) =
      (optional_contains_any c || optional_contains_any d) || some_generic_contains_any rest

  pub optional_contains_any : OptionalType → Bool
  optional_contains_any absent_type = false
  optional_contains_any (present_type t) = contains_any t
