-- ===== src/Extractor/Equivalence/Tests.antt =====
-- Runs of the comparison on the data of Extractor/Samples.
use internal.Prelude.{ℕ, ◌≡◌, ◌↔◌, refl, true, false, Option, List, ◌===◌, set, get}
use internal.Extractor.Model.{
  SemanticType, number_type, union, unaliased, no_type, cons_type, to_list,
}
use internal.Extractor.Samples.{
  plain_runtime, plain, label_string, label_literal, any_function, number_function, sized_object,
  text_first, text_last,
}
use internal.Extractor.Equivalence.{
  are_equivalent, are_equivalent_ignoring_any, are_equivalent_strictly, members_match, same_types,
  adjacent, is_rejected_by_key,
}
use internal.Extractor.Equivalence.Bindings.{empty_context}
use internal.Extractor.Equivalence.Members.{IsPairing, members_match_iff}
use internal.Extractor.Equivalence.Keyed.{IsKeyed}
use internal.Extractor.Equivalence.Keys.{property_at, property_key}
use internal.Extractor.Equivalence.Reflexive.{are_equivalent_refl}

any_is_equivalent : are_equivalent_ignoring_any plain_runtime any_function number_function ≡ true
unfolding are_equivalent_ignoring_any ◌===◌
any_is_equivalent = refl

any_is_different : are_equivalent_strictly plain_runtime any_function number_function ≡ false
unfolding are_equivalent_strictly ◌===◌
any_is_different = refl

text_kept :
    is_rejected_by_key plain_runtime (empty_context false) (to_list text_first) (to_list text_last)
    ≡ false
unfolding is_rejected_by_key empty_context to_list ◌===◌ set get
text_kept = refl

reordered_example :
    (members_match plain_runtime
        (empty_context false)
        (to_list text_first)
        (to_list text_last)
        (same_types plain_runtime text_first text_last (empty_context false))
        (adjacent plain_runtime text_first (to_list text_last) (empty_context false))
      ≡ true)
    ↔ ((m : List (Option ℕ)) × IsPairing plain_runtime
          (empty_context false)
          (to_list text_first)
          (to_list text_last)
          m)
unfolding to_list
reordered_example =
    members_match_iff plain_runtime (empty_context false) text_first text_last refl text_kept

sized_object-IsKeyed : IsKeyed sized_object
unfolding IsKeyed property_at property_key ◌===◌
sized_object-IsKeyed = (tt, ((refl, (tt, (refl, (tt, tt)))), tt))

same_example : are_equivalent plain_runtime sized_object sized_object (empty_context true) ≡ true
same_example = are_equivalent_refl plain_runtime sized_object true sized_object-IsKeyed

abbrev label_union : SemanticType → SemanticType → SemanticType
label_union first second = union 7 unaliased (cons_type first (cons_type second no_type))

-- Members that are equivalent by their public name match in order, whatever their kinds.
named_in_order :
    are_equivalent_strictly plain_runtime
      (label_union label_string (plain number_type))
      (label_union label_literal (plain number_type))
    ≡ true
unfolding are_equivalent_strictly ◌===◌
named_in_order = refl

-- In another order their structural keys tell them apart.
named_reordered :
    are_equivalent_strictly plain_runtime
      (label_union label_string (plain number_type))
      (label_union (plain number_type) label_literal)
    ≡ false
unfolding are_equivalent_strictly ◌===◌ set get
named_reordered = refl
