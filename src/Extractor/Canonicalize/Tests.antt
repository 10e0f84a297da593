-- ===== src/Extractor/Canonicalize/Tests.antt =====
-- Runs of the canonicalization on the data of Extractor/Samples.
use internal.Prelude.{◌≡◌, refl, List, [], ◌∷◌, ◌⊎◌, ◌≤◌, length, text, ◌===◌}
use internal.Extractor.Model.{SemanticType, null_type, string_type}
use internal.Extractor.Samples.{
  plain_runtime, plain, any_function, number_function, mixed_union, simple_members,
}
use internal.Extractor.Canonicalize.{canonicalize_union_members, canonicalize_intersection_members}
use internal.Extractor.Canonicalize.Members.{union_kind, sort_members}
use internal.Extractor.Canonicalize.Deduplicate.{deduplicate_members}
use internal.Extractor.Canonicalize.Flat.{IsFlat}
use internal.Extractor.Canonicalize.Order.{sorted, sort_members-sorted}
use internal.Extractor.Canonicalize.Keys.{keys_of_members}
use internal.Extractor.Canonicalize.Distinct.{IsDistinct, has_key, deduplicate-has_key}
use internal.Extractor.Canonicalize.Sorted.{canonicalize-sorted}
use internal.Extractor.Canonicalize.Form.{
  NoNever, canonicalize_union-IsFlat, canonicalize_union-NoNever,
}

mixed_union_canonical : canonicalize_union_members plain_runtime mixed_union ≡ simple_members
unfolding canonicalize_union_members ◌===◌
mixed_union_canonical = refl

any_replaced :
    deduplicate_members plain_runtime (any_function ∷ plain string_type ∷ number_function ∷ [])
    ≡ number_function ∷ plain string_type ∷ []
unfolding deduplicate_members ◌===◌
any_replaced = refl

flat_union_example :
    IsFlat union_kind (canonicalize_union_members plain_runtime mixed_union)
    × IsDistinct
        (keys_of_members plain_runtime (canonicalize_union_members plain_runtime mixed_union))
flat_union_example = canonicalize_union-IsFlat plain_runtime mixed_union

never_example :
    NoNever (canonicalize_union_members plain_runtime mixed_union)
    ⊎ (length (canonicalize_union_members plain_runtime mixed_union) ≤ 1)
never_example = canonicalize_union-NoNever plain_runtime mixed_union

abbrev null_first : List SemanticType
null_first = plain null_type ∷ plain string_type ∷ plain string_type ∷ []

sorted_example : sort_members null_first ≡ sorted null_first
sorted_example = sort_members-sorted null_first

key_example :
    has_key
      (text "intrinsic:string")
      (keys_of_members plain_runtime (deduplicate_members plain_runtime null_first))
    ≡ has_key (text "intrinsic:string") (keys_of_members plain_runtime null_first)
key_example = deduplicate-has_key plain_runtime null_first (text "intrinsic:string")

order_example :
    (sorted (canonicalize_union_members plain_runtime mixed_union)
      ≡ canonicalize_union_members plain_runtime mixed_union)
    × (sorted (canonicalize_intersection_members plain_runtime mixed_union)
        ≡ canonicalize_intersection_members plain_runtime mixed_union)
order_example = canonicalize-sorted plain_runtime mixed_union
