-- ===== src/Extractor/Canonicalize/Kept.antt =====
-- What all members have that a canonicalization is given, the members that it leaves have.
use internal.Prelude.{
  ℕ, zero, suc, Bool, true, false, Option, none, some, List, [], ◌∷◌, sym, subst, inl, inr, any,
  All, All-append, Bool-cases, ◌===◌, ◌==◌, Text, text, leb, length,
}
use internal.Extractor.Filters.{filter-All}
use internal.Extractor.Model.{
  boolean_type, SemanticType, function, type_operator, intrinsic, unaliased,
}
use internal.Extractor.Render.{Runtime}
use internal.Extractor.Matching.Cells.{put}
use internal.Extractor.Canonicalize.Members.{
  find_index, is_boolean_literal, sort_members, replace_pair, simplify_pair,
  simplify_boolean_literals, remaining_or, remove_redundant_never,
}
use internal.Extractor.Canonicalize.Order.{sort_members-sorted}
use internal.Extractor.Canonicalize.Deduplicate.{
  Deduplication, push, add_function, add_operator, add_keyed, add_member, add_members,
  nothing_added, scalar_member_key, deduplicate_members, is_fallback, node_identity, member_at,
}

module _ {κ} (P : SemanticType → Type κ) where
  All-put :
      (ts : List SemanticType) (i : ℕ) (t : SemanticType) → P t → All P ts → All P (put ts i t)
  All-put [] i t p h = h
  All-put (u ∷ us) zero t p (q, h) = (p, h)
  All-put (u ∷ us) (suc i) t p (q, h) = (q, All-put us i t p h)

  add_function-All :
      (o : Option ℕ) (t : SemanticType) (s : Deduplication)
      → P t
      → All P s.result
      → All P (add_function o t s).result
  unfolding add_function push
  add_function-All none t s p h = All-append P s.result (t ∷ []) h (p, tt)
  add_function-All (some i) t s p h = elim (Bool-cases (is_fallback t (member_at i s.result))) [
    | inl fallback ↦ rw fallback (All-put s.result i t p h)
    | inr concrete ↦ rw concrete h
  ]

  add_operator-All :
      (b : Bool) (t : SemanticType) (s : Deduplication)
      → P t
      → All P s.result
      → All P (add_operator b t s).result
  unfolding add_operator push
  add_operator-All true t s p h = h
  add_operator-All false t s p h = All-append P s.result (t ∷ []) h (p, tt)

  add_keyed-All :
      (o : Option Text) (t : SemanticType) (s : Deduplication)
      → P t
      → All P s.result
      → All P (add_keyed o t s).result
  unfolding add_keyed push
  add_keyed-All none t s p h =
      elim (Bool-cases (any (λ i. i == node_identity t) s.seen_identities)) [
        | inl seen ↦ rw seen h
        | inr fresh ↦ rw fresh (All-append P s.result (t ∷ []) h (p, tt))
      ]
  add_keyed-All (some k) t s p h = elim (Bool-cases (any (λ j. j === k) s.seen_keys)) [
    | inl seen ↦ rw seen h
    | inr fresh ↦ rw fresh (All-append P s.result (t ∷ []) h (p, tt))
  ]

  add_member-All :
      (js : Runtime) (t : SemanticType) (s : Deduplication)
      → P t
      → All P s.result
      → All P (add_member js t s).result
  unfolding add_member
  add_member-All js (function a ss) s p h = add_function-All _ (function a ss) s p h
  add_member-All js (type_operator a t resolved k) s p h =
      add_operator-All _ (type_operator a t resolved k) s p h
  add_member-All js t s p h = add_keyed-All (scalar_member_key js t) t s p h

  add_members-All :
      (js : Runtime) (ts : List SemanticType) (s : Deduplication)
      → All P ts
      → All P s.result
      → All P (add_members js ts s).result
  unfolding add_members
  add_members-All js [] s hs h = h
  add_members-All js (t ∷ ts) s (p, hs) h =
      add_members-All js ts (add_member js t s) hs (add_member-All js t s p h)

  pub deduplicate-All :
      (js : Runtime) (ts : List SemanticType) → All P ts → All P (deduplicate_members js ts)
  unfolding deduplicate_members
  deduplicate-All js ts h = add_members-All js ts nothing_added h tt

  pub sort_members-All : (ts : List SemanticType) → All P ts → All P (sort_members ts)
  sort_members-All ts h = subst (All P) (sym (sort_members-sorted ts)) (
      All-append P _ _ (filter-All P _ ts h)
        (All-append P _ _ (filter-All P _ ts h) (filter-All P _ ts h)))

  replace_pair-All :
      (i j : ℕ) (t : SemanticType) (ts : List SemanticType) (k : ℕ)
      → P t
      → All P ts
      → All P (replace_pair i j t ts k)
  unfolding replace_pair
  replace_pair-All i j t [] k p h = tt
  replace_pair-All i j t (u ∷ us) k p (q, h) = elim (Bool-cases (k == j)) [
    | inl removed ↦ rw removed (replace_pair-All i j t us (suc k) p h)
    | inr other ↦ rw other (elim (Bool-cases (k == i)) [
      | inl kept ↦ rw kept (p, replace_pair-All i j t us (suc k) p h)
      | inr stays ↦ rw stays (q, replace_pair-All i j t us (suc k) p h)
    ])
  ]

  simplify_pair-All :
      (ts : List SemanticType) (o o' : Option ℕ)
      → P (intrinsic unaliased boolean_type)
      → All P ts
      → All P (simplify_pair ts o o')
  unfolding simplify_pair
  simplify_pair-All ts (some i) (some j) p h = elim (Bool-cases (leb i j)) [
    | inl before ↦ rw before (replace_pair-All i j _ ts 0 p h)
    | inr after ↦ rw after (replace_pair-All j i _ ts 0 p h)
  ]
  simplify_pair-All ts none o' p h = h
  simplify_pair-All ts (some i) none p h = h

  pub simplify_boolean-All :
      (ts : List SemanticType)
      → P (intrinsic unaliased boolean_type)
      → All P ts
      → All P (simplify_boolean_literals ts)
  unfolding simplify_boolean_literals
  simplify_boolean-All ts p h =
      simplify_pair-All ts (find_index (λ member. is_boolean_literal member (text "true")) ts)
        (find_index (λ member. is_boolean_literal member (text "false")) ts) p h

  remaining_or-All :
      (ts rest : List SemanticType) → All P ts → All P rest → All P (remaining_or ts rest)
  unfolding remaining_or
  remaining_or-All ts [] h k = h
  remaining_or-All ts (t ∷ rest) h k = k

  pub remove_never-All : (ts : List SemanticType) → All P ts → All P (remove_redundant_never ts)
  unfolding remove_redundant_never
  remove_never-All ts h = elim (Bool-cases (leb (length ts) 1)) [
    | inl short ↦ rw short h
    | inr long ↦ rw long (remaining_or-All ts _ h (filter-All P _ ts h))
  ]
