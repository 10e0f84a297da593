-- ===== src/Extractor/Canonicalize/Ranks.antt =====
-- Deduplication keeps members sorted.
use internal.Prelude.{
  ℕ, zero, suc, ◌≤◌, ◌≡◌, refl, sym, ap, ◌∙◌, subst, Bool, true, false, Option, none, some, List,
  [], ◌∷◌, ◌++◌, ◌⊎◌, inl, inr, All, any, arith, if◌then◌else◌, Bool-cases, Text, ◌===◌, ◌==◌,
  append_assoc, append-nil, filter,
}
use internal.Extractor.Filters.{filter-passes}
use internal.Extractor.Model.{
  null_type, undefined_type, SemanticType, function, type_operator, Alias, Signatures,
}
use internal.Extractor.Render.{Runtime}
use internal.Extractor.Matching.Cells.{put}
use internal.Extractor.Canonicalize.Members.{is_intrinsic}
use internal.Extractor.Canonicalize.Order.{is_other, exclusive, sorted}
use internal.Extractor.Canonicalize.Keys.{existing_function-found}
use internal.Extractor.Canonicalize.Deduplicate.{
  Deduplication, scalar_member_key, node_identity, member_at, is_same_function, existing_function,
  is_fallback, push, add_function, add_operator, add_keyed, add_member, add_members,
}

-- 0 for a member that stays, 1 for `null` and 2 for `undefined`.
unfoldable pub rank : SemanticType → ℕ
rank t = if is_intrinsic undefined_type t then 2 else if is_intrinsic null_type t then 1 else 0

abbrev pub ranks : List SemanticType → List ℕ
ranks [] = []
ranks (t ∷ ts) = rank t ∷ ranks ts

abbrev pub Ascending : List ℕ → Type 0
Ascending [] = Unit {0}
Ascending (n ∷ ns) = All (λ m. n ≤ m) ns × Ascending ns

-- Members of one rank before members of no lower rank.
block_before :
    (k : ℕ) (ts : List SemanticType) (ns : List ℕ)
    → All (λ t. rank t ≡ k) ts
    → All (λ m. k ≤ m) ns
    → Ascending ns
    → Ascending (ranks ts ++ ns) × All (λ m. k ≤ m) (ranks ts ++ ns)
block_before k [] ns h above asc = (asc, above)
block_before k (t ∷ ts) ns (e, h) above asc =
    let (rest, all) = block_before k ts ns h above asc in
    ((subst (λ r. All (λ m. r ≤ m) (ranks ts ++ ns)) (sym e) all, rest), (omega (arith, e), all))

ranks-append : (ts us : List SemanticType) → ranks (ts ++ us) ≡ ranks ts ++ ranks us
ranks-append [] us = refl
ranks-append (t ∷ ts) us = ap (λ ns. rank t ∷ ns) (ranks-append ts us)

filter-rank :
    (p : SemanticType → Bool) (k : ℕ) (ts : List SemanticType)
    → ((t : SemanticType) → p t ≡ true → rank t ≡ k)
    → All (λ t. rank t ≡ k) (filter p ts)
filter-rank p k ts h = go (filter p ts) (filter-passes p ts)
  where
    go : (us : List SemanticType) → All (λ t. p t ≡ true) us → All (λ t. rank t ≡ k) us
    go [] all = tt
    go (t ∷ us) (pt, all) = (h t pt, go us all)

pub raise : (j k : ℕ) (ns : List ℕ) → j ≤ k → All (λ m. k ≤ m) ns → All (λ m. j ≤ m) ns
raise j k [] h all = tt
raise j k (n ∷ ns) h (below, all) = (omega arith, raise j k ns h all)

rank_other : (t : SemanticType) → is_other t ≡ true → rank t ≡ 0
unfolding rank is_other
rank_other t h = ground arith

pub rank_undefined : (t : SemanticType) → is_intrinsic undefined_type t ≡ true → rank t ≡ 2
unfolding rank
rank_undefined t h = ground arith

pub rank_null : (t : SemanticType) → is_intrinsic null_type t ≡ true → rank t ≡ 1
unfolding rank
rank_null t h = ground (arith, exclusive t h)

pub sorted-Ascending : (ts : List SemanticType) → Ascending (ranks (sorted ts))
sorted-Ascending ts =
    let (last, above2) =
      block_before 2 (filter (is_intrinsic undefined_type) ts) []
        (filter-rank _ 2 ts rank_undefined) tt tt in
    let (middle, above1) =
      block_before 1 (filter (is_intrinsic null_type) ts) _ (filter-rank _ 1 ts rank_null)
        (raise 1 2 _ (omega arith) above2) last in
    let (all, above0) =
      block_before 0 (filter is_other ts) _ (filter-rank is_other 0 ts rank_other)
        (raise 0 1 _ (omega arith) above1) middle in
    subst Ascending
      (sym (
        ranks-append (filter is_other ts) _
        ∙ ap (λ ns. ranks (filter is_other ts) ++ ns)
            (ranks-append (filter (is_intrinsic null_type) ts)
                (filter (is_intrinsic undefined_type) ts)
              ∙ ap (λ ns. ranks (filter (is_intrinsic null_type) ts) ++ ns)
                  (sym (append-nil (ranks (filter (is_intrinsic undefined_type) ts)))))))
      all

-- One member more, or the same ranks.
abbrev Grew : List SemanticType → SemanticType → List SemanticType → Type 0
Grew ts t us = (ranks us ≡ ranks ts ++ (rank t ∷ [])) ⊎ (ranks us ≡ ranks ts)

ranks-put :
    (ts : List SemanticType) (i : ℕ) (u : SemanticType)
    → ((t : SemanticType) → member_at i ts ≡ some t → rank t ≡ rank u)
    → ranks (put ts i u) ≡ ranks ts
unfolding member_at
ranks-put [] i u h = refl
ranks-put (t ∷ ts) zero u h = ap (λ r. r ∷ ranks ts) (sym (h t refl))
ranks-put (t ∷ ts) (suc i) u h = ap (λ ns. rank t ∷ ns) (ranks-put ts i u h)

is_same_function-rank :
    (js : Runtime) (a : Alias) (ss : Signatures) (o : Option SemanticType)
    → is_same_function js a ss o ≡ true
    → (t : SemanticType) → o ≡ some t
    → rank t ≡ rank (function a ss)
unfolding is_same_function rank is_intrinsic
is_same_function-rank js a ss (some (function a' ss')) h t e = cc
is_same_function-rank js a ss _ h t e = absurd (cc)

module _ (js : Runtime) where
  push-Grew : (ts : List SemanticType) (t : SemanticType) → Grew ts t (ts ++ (t ∷ []))
  push-Grew ts t = inl (ranks-append ts (t ∷ []))

  add_function-Grew :
      (a : Alias) (ss : Signatures) (s : Deduplication) (o : Option ℕ)
      → existing_function js a ss s.result s.function_indexes ≡ o
      → Grew s.result (function a ss) (add_function o (function a ss) s).result
  unfolding add_function push
  add_function-Grew a ss s none e = push-Grew s.result (function a ss)
  add_function-Grew a ss s (some i) e =
      elim (Bool-cases (is_fallback (function a ss) (member_at i s.result))) [
        | inl fallback ↦ rw fallback (
            inr (
              ranks-put s.result i (function a ss) (
                is_same_function-rank js a ss (member_at i s.result)
                  (existing_function-found js a ss s.result s.function_indexes i e))))
        | inr concrete ↦ rw concrete (inr refl)
      ]

  add_operator-Grew :
      (b : Bool) (t : SemanticType) (s : Deduplication)
      → Grew s.result t (add_operator b t s).result
  unfolding add_operator push
  add_operator-Grew true t s = inr refl
  add_operator-Grew false t s = push-Grew s.result t

  add_keyed-Grew :
      (o : Option Text) (t : SemanticType) (s : Deduplication)
      → Grew s.result t (add_keyed o t s).result
  unfolding add_keyed push
  add_keyed-Grew none t s = elim (Bool-cases (any (λ i. i == node_identity t) s.seen_identities)) [
    | inl seen ↦ rw seen (inr refl)
    | inr fresh ↦ rw fresh (push-Grew s.result t)
  ]
  add_keyed-Grew (some k) t s = elim (Bool-cases (any (λ j. j === k) s.seen_keys)) [
    | inl seen ↦ rw seen (inr refl)
    | inr fresh ↦ rw fresh (push-Grew s.result t)
  ]

  add_member-Grew :
      (t : SemanticType) (s : Deduplication) → Grew s.result t (add_member js t s).result
  unfolding add_member
  add_member-Grew (function a ss) s = add_function-Grew a ss s _ refl
  add_member-Grew (type_operator a t resolved k) s =
      add_operator-Grew _ (type_operator a t resolved k) s
  add_member-Grew t s = add_keyed-Grew (scalar_member_key js t) t s

All_drop :
    (n : ℕ) (ms : List ℕ) (m : ℕ) (ns : List ℕ)
    → All (λ x. n ≤ x) (ms ++ (m ∷ ns))
    → All (λ x. n ≤ x) (ms ++ ns)
All_drop n [] m ns (p, h) = h
All_drop n (k ∷ ms) m ns (p, h) = (p, All_drop n ms m ns h)

Ascending-drop :
    (ms : List ℕ) (m : ℕ) (ns : List ℕ) → Ascending (ms ++ (m ∷ ns)) → Ascending (ms ++ ns)
Ascending-drop [] m ns (p, h) = h
Ascending-drop (k ∷ ms) m ns (p, h) = (All_drop k ms m ns p, Ascending-drop ms m ns h)

grown-Ascending :
    (ts us : List SemanticType) (t : SemanticType) (ns : List ℕ)
    → Grew ts t us
    → Ascending (ranks ts ++ (rank t ∷ ns))
    → Ascending (ranks us ++ ns)
grown-Ascending ts us t ns (inl more) h =
    subst Ascending (sym (ap (λ ms. ms ++ ns) more ∙ append_assoc (ranks ts) (rank t ∷ []) ns)) h
grown-Ascending ts us t ns (inr same) h =
    subst (λ ms. Ascending (ms ++ ns)) (sym same) (Ascending-drop (ranks ts) (rank t) ns h)

pub add_members-Ascending :
    (js : Runtime) (ts : List SemanticType) (s : Deduplication)
    → Ascending (ranks s.result ++ ranks ts)
    → Ascending (ranks (add_members js ts s).result)
unfolding add_members
add_members-Ascending js [] s h = subst Ascending (append-nil (ranks s.result)) h
add_members-Ascending js (t ∷ ts) s h =
    add_members-Ascending js ts (add_member js t s)
      (grown-Ascending s.result (add_member js t s).result t (ranks ts) (add_member-Grew js t s) h)
