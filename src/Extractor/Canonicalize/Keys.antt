-- ===== src/Extractor/Canonicalize/Keys.antt =====
-- `deduplicateMembers`: the keys of the scalar members of its result.
use internal.Prelude.{
  ℕ, zero, suc, Bool, true, false, Option, none, some, List, [], ◌∷◌, ◌++◌, ◌≡◌, refl, sym, ap, ◌∙◌,
  inl, inr, Text, ◌===◌, any, arith, if◌then◌else◌, Bool-cases, append-nil, Option-cases, ◌==◌,
}
use internal.Extractor.Model.{
  SemanticType, ResolutionKind, function, type_operator, Alias, Signatures,
}
use internal.Extractor.Render.{Runtime}
use internal.Extractor.Matching.Cells.{put}
use internal.Extractor.Canonicalize.Deduplicate.{
  Deduplication, scalar_member_key, member_at, is_same_function, existing_function, push,
  add_function, add_operator, add_keyed, add_member, add_members, nothing_added,
  deduplicate_members, is_fallback, node_identity,
}

abbrev kept_key : Option Text → List Text → List Text
kept_key none ks = ks
kept_key (some k) ks = k ∷ ks

module _ (js : Runtime) where
  -- The keys of the scalar members, in order.
  unfoldable pub keys_of_members : List SemanticType → List Text
  unfolding scalar_member_key
  keys_of_members [] = []
  keys_of_members (t ∷ ts) = kept_key (scalar_member_key js t) (keys_of_members ts)

  keys_of_members-append :
      (ts us : List SemanticType)
      → keys_of_members (ts ++ us) ≡ keys_of_members ts ++ keys_of_members us
  unfolding keys_of_members
  keys_of_members-append [] us = refl
  keys_of_members-append (t ∷ ts) us = elim (Option-cases (scalar_member_key js t)) [
    | inl none_is ↦ rw (none_is, keys_of_members-append ts us)
    | inr (k, some_is) ↦ rw (some_is, keys_of_members-append ts us)
  ]

  -- A member without a key in the place of another one.
  keys_of_members-put :
      (ts : List SemanticType) (i : ℕ) (u : SemanticType)
      → scalar_member_key js u ≡ none
      → ((t : SemanticType) → member_at i ts ≡ some t → scalar_member_key js t ≡ none)
      → keys_of_members (put ts i u) ≡ keys_of_members ts
  unfolding keys_of_members member_at
  keys_of_members-put [] i u none_is h = refl
  keys_of_members-put (t ∷ ts) zero u none_is h = rw (none_is, h t refl)
  keys_of_members-put (t ∷ ts) (suc i) u none_is h =
      ap (kept_key (scalar_member_key js t)) (keys_of_members-put ts i u none_is h)

  pub existing_function-found :
      (a : Alias) (ss : Signatures) (ts : List SemanticType) (is : List ℕ) (i : ℕ)
      → existing_function js a ss ts is ≡ some i
      → is_same_function js a ss (member_at i ts) ≡ true
  unfolding existing_function
  existing_function-found a ss ts [] i h = cc
  existing_function-found a ss ts (j ∷ is) i h =
      elim (Bool-cases (is_same_function js a ss (member_at j ts))) [
        | inl same ↦ ground arith
        | inr other ↦ ground (arith, existing_function-found a ss ts is i)
      ]

  is_same_function-keyless :
      (a : Alias) (ss : Signatures) (o : Option SemanticType)
      → is_same_function js a ss o ≡ true
      → (t : SemanticType) → o ≡ some t
      → scalar_member_key js t ≡ none
  unfolding is_same_function scalar_member_key
  is_same_function-keyless a ss (some (function a' ss')) h t e = cc
  is_same_function-keyless a ss _ h t e = absurd (cc)

-- `Set.add`
unfoldable pub add_key : Text → List Text → List Text
add_key k ks = if any (λ j. j === k) ks then ks else ks ++ (k ∷ [])

abbrev pub add_optional : Option Text → List Text → List Text
add_optional none ks = ks
add_optional (some k) ks = add_key k ks

unfoldable pub add_keys : List Text → List Text → List Text
unfolding add_key
add_keys [] seen = seen
add_keys (k ∷ ks) seen = add_keys ks (add_key k seen)

add_keys-kept :
    (o : Option Text) (ks seen : List Text)
    → add_keys (kept_key o ks) seen ≡ add_keys ks (add_optional o seen)
unfolding add_keys
add_keys-kept none ks seen = refl
add_keys-kept (some k) ks seen = refl

module _ (js : Runtime) where
  -- The keys of the result are the seen keys.
  abbrev pub IsTracked : Deduplication → Type 0
  IsTracked s = keys_of_members js s.result ≡ s.seen_keys

  -- And the key is added, if there is one.
  abbrev Adds : Option Text → Deduplication → Deduplication → Type 0
  Adds o s s' = IsTracked s' × (s'.seen_keys ≡ add_optional o s.seen_keys)

  tracked_push :
      (t : SemanticType) (s : Deduplication)
      → IsTracked s
      → keys_of_members js (push t s).result ≡ s.seen_keys ++ keys_of_members js (t ∷ [])
  unfolding push
  tracked_push t s h = rw (keys_of_members-append js, h)

  add_keyed-IsTracked :
      (o : Option Text) (t : SemanticType) (s : Deduplication)
      → scalar_member_key js t ≡ o
      → IsTracked s
      → Adds o s (add_keyed o t s)
  unfolding add_keyed add_key push keys_of_members
  add_keyed-IsTracked none t s e h =
      elim (Bool-cases (any (λ i. i == node_identity t) s.seen_identities)) [
        | inl seen ↦ rw seen (h, refl)
        | inr fresh ↦ rw fresh (
          tracked_push t
                (record s { seen_identities = s.seen_identities ++ (node_identity t ∷ []) }) h
              ∙ (rw (e, append-nil)),
          refl,
        )
      ]
  add_keyed-IsTracked (some k) t s e h = elim (Bool-cases (any (λ j. j === k) s.seen_keys)) [
    | inl seen ↦ rw seen (h, refl)
    | inr fresh ↦ rw fresh (rw (keys_of_members-append js, h, e), refl)
  ]

  add_function-IsTracked :
      (a : Alias) (ss : Signatures) (s : Deduplication) (o : Option ℕ)
      → existing_function js a ss s.result s.function_indexes ≡ o
      → IsTracked s
      → Adds none s (add_function o (function a ss) s)
  unfolding add_function push keys_of_members scalar_member_key
  add_function-IsTracked a ss s none e h = (rw (keys_of_members-append js, h, append-nil), refl)
  add_function-IsTracked a ss s (some i) e h =
      elim (Bool-cases (is_fallback (function a ss) (member_at i s.result))) [
        | inl fallback ↦ rw fallback (
          keys_of_members-put js s.result i (function a ss) refl (
                is_same_function-keyless js a ss (member_at i s.result)
                  (existing_function-found js a ss s.result s.function_indexes i e))
              ∙ h,
          refl,
        )
        | inr concrete ↦ rw concrete (h, refl)
      ]

  add_operator-IsTracked :
      (b : Bool) (a : Alias) (t resolved : SemanticType) (k : ResolutionKind) (s : Deduplication)
      → IsTracked s
      → Adds none s (add_operator b (type_operator a t resolved k) s)
  unfolding add_operator push keys_of_members scalar_member_key
  add_operator-IsTracked true a t resolved k s h = (h, refl)
  add_operator-IsTracked false a t resolved k s h =
      (rw (keys_of_members-append js, h, append-nil), refl)

  add_member-IsTracked :
      (t : SemanticType) (s : Deduplication)
      → IsTracked s
      → Adds (scalar_member_key js t) s (add_member js t s)
  unfolding add_member scalar_member_key
  add_member-IsTracked (function a ss) s h = add_function-IsTracked a ss s _ refl h
  add_member-IsTracked (type_operator a t resolved k) s h =
      add_operator-IsTracked _ a t resolved k s h
  add_member-IsTracked t s h = add_keyed-IsTracked (scalar_member_key js t) t s refl h

  -- The keys of the input, added in turn.
  add_members-keys :
      (ts : List SemanticType) (s : Deduplication)
      → IsTracked s
      → keys_of_members js (add_members js ts s).result
        ≡ add_keys (keys_of_members js ts) s.seen_keys
  unfolding add_members keys_of_members add_keys
  add_members-keys [] s h = h
  add_members-keys (t ∷ ts) s h =
      let (tracked, added) = add_member-IsTracked t s h in
      add_members-keys ts (add_member js t s) tracked
      ∙ (ap (add_keys (keys_of_members js ts)) added
          ∙ sym (add_keys-kept (scalar_member_key js t) (keys_of_members js ts) s.seen_keys))

  pub deduplicate-keys :
      (ts : List SemanticType)
      → keys_of_members js (deduplicate_members js ts) ≡ add_keys (keys_of_members js ts) []
  unfolding deduplicate_members keys_of_members
  deduplicate-keys ts = add_members-keys ts nothing_added refl
