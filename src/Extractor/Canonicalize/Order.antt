-- ===== src/Extractor/Canonicalize/Order.antt =====
-- `sortMembers` against its description: the members that are neither `null` nor `undefined`, in their
-- order, then the `null` ones, then the `undefined` ones.
use internal.Prelude.{
  arith, Bool, true, false, not, ◌&&◌, List, [], ◌∷◌, ◌++◌, ◌≡◌, refl, sym, ◌∙◌, filter, append-nil,
  append_assoc,
}
use internal.Extractor.Filters.{
  filter-append, filter-filter, filter_narrower, filter_wider, filter_apart,
}
use internal.Extractor.Model.{
  IntrinsicName, null_type, undefined_type, SemanticType, intrinsic, same_intrinsic,
}
use internal.Extractor.Canonicalize.Members.{
  is_intrinsic, moved, move_intrinsic_to_end, sort_members,
}

abbrev pub without : (SemanticType → Bool) → List SemanticType → List SemanticType
without p ts = filter (λ t. not (p t)) ts

without_none :
    (p : SemanticType → Bool) (ts : List SemanticType) → filter p ts ≡ [] → without p ts ≡ ts
without_none p [] h = refl
without_none p (t ∷ ts) h = ground (arith, without_none p ts)

moved_lem :
    (name : IntrinsicName) (ts matches : List SemanticType)
    → filter (is_intrinsic name) ts ≡ matches
    → moved ts (without (is_intrinsic name) ts) matches ≡ without (is_intrinsic name) ts ++ matches
unfolding moved
moved_lem name ts [] h =
    sym (append-nil (without (is_intrinsic name) ts) ∙ without_none (is_intrinsic name) ts h)
moved_lem name ts (m ∷ ms) h = refl

-- Moving the matches to the end.
pub move_lem :
    (ts : List SemanticType) (name : IntrinsicName)
    → move_intrinsic_to_end ts name
      ≡ without (is_intrinsic name) ts ++ filter (is_intrinsic name) ts
unfolding move_intrinsic_to_end
move_lem ts name = moved_lem name ts (filter (is_intrinsic name) ts) refl

-- The members that are neither.
unfoldable pub is_other : SemanticType → Bool
unfolding is_intrinsic
is_other t = not (is_intrinsic null_type t) && not (is_intrinsic undefined_type t)

-- At most one of the names.
pub exclusive :
    (t : SemanticType) → is_intrinsic null_type t ≡ true → is_intrinsic undefined_type t ≡ false
unfolding is_intrinsic same_intrinsic
exclusive (intrinsic _ null_type) h = refl
exclusive _ h = cc

abbrev pub sorted : List SemanticType → List SemanticType
sorted ts =
    filter is_other ts
    ++ (filter (is_intrinsic null_type) ts ++ filter (is_intrinsic undefined_type) ts)

module _ (ts : List SemanticType) where
  null_stays :
      without (is_intrinsic undefined_type) (filter (is_intrinsic null_type) ts)
      ≡ filter (is_intrinsic null_type) ts
  null_stays = filter_narrower _ (is_intrinsic null_type) (λ t h. ground (arith, exclusive t)) ts

  no_undefined : filter (is_intrinsic undefined_type) (filter (is_intrinsic null_type) ts) ≡ []
  no_undefined = filter_apart (is_intrinsic undefined_type) (is_intrinsic null_type) exclusive ts

  undefined_stays :
      filter (is_intrinsic undefined_type) (without (is_intrinsic null_type) ts)
      ≡ filter (is_intrinsic undefined_type) ts
  undefined_stays =
      filter_wider (is_intrinsic undefined_type) _ (λ t h. ground (arith, exclusive t)) ts

  others_stay :
      without (is_intrinsic undefined_type) (without (is_intrinsic null_type) ts)
      ≡ filter is_other ts
  unfolding is_other
  others_stay = filter-filter _ (λ t. not (is_intrinsic null_type t)) ts

-- The sorted members are the other members in their order, then those that are `null` and then those
-- that are `undefined`, each in their order.
pub sort_members-sorted : (ts : List SemanticType) → sort_members ts ≡ sorted ts
unfolding sort_members
sort_members-sorted ts = rw (
  move_lem, move_lem, filter-append, filter-append, others_stay, null_stays, undefined_stays,
  no_undefined, append-nil, append_assoc,
)

module _ (ts : List SemanticType) where
  others_sorted : filter is_other (sorted ts) ≡ filter is_other ts
  unfolding is_other
  others_sorted = rw (
    filter-append,
    filter-append,
    filter_narrower is_other is_other (λ _ h. h) ts,
    filter_apart is_other (is_intrinsic null_type) (λ t h. ground (arith)) ts,
    filter_apart is_other (is_intrinsic undefined_type) (λ t h. ground (arith, exclusive t)) ts,
    append-nil,
  )

  null_sorted : filter (is_intrinsic null_type) (sorted ts) ≡ filter (is_intrinsic null_type) ts
  unfolding is_other
  null_sorted = rw (
    filter-append,
    filter-append,
    filter_apart (is_intrinsic null_type) is_other (λ t h. ground arith) ts,
    filter_narrower (is_intrinsic null_type) (is_intrinsic null_type) (λ _ h. h) ts,
    filter_apart (is_intrinsic null_type) (is_intrinsic undefined_type)
        (λ t h. ground (arith, exclusive t)) ts,
    append-nil,
  )

  undefined_sorted :
      filter (is_intrinsic undefined_type) (sorted ts) ≡ filter (is_intrinsic undefined_type) ts
  unfolding is_other
  undefined_sorted = rw (
    filter-append,
    filter-append,
    filter_apart (is_intrinsic undefined_type) is_other (λ t h. ground arith) ts,
    no_undefined ts,
    filter_narrower (is_intrinsic undefined_type) (is_intrinsic undefined_type) (λ _ h. h) ts,
  )

-- Sorting once more changes nothing.
pub sort_members-sort_members :
    (ts : List SemanticType) → sort_members (sort_members ts) ≡ sort_members ts
sort_members-sort_members ts = rw (
  sort_members-sorted ts,
  sort_members-sorted (sorted ts),
  others_sorted,
  null_sorted,
  undefined_sorted,
)
