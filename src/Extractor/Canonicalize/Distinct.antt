-- ===== src/Extractor/Canonicalize/Distinct.antt =====
-- `deduplicateMembers`: no key of a scalar member is lost, and none occurs twice.
use internal.Prelude.{
  Bool, true, false, ◌||◌, List, [], ◌∷◌, ◌++◌, ◌≡◌, refl, sym, ap, ◌∙◌, subst, Text, ◌===◌,
  ===_iff, any, arith, Bool-cases, inl, inr,
}
use internal.Extractor.Model.{SemanticType}
use internal.Extractor.Render.{Runtime}
use internal.Extractor.Canonicalize.Deduplicate.{deduplicate_members}
use internal.Extractor.Canonicalize.Keys.{keys_of_members, add_key, add_keys, deduplicate-keys}

abbrev pub has_key : Text → List Text → Bool
has_key k ks = any (λ j. j === k) ks

abbrev pub IsDistinct : List Text → Type 0
IsDistinct [] = Unit {0}
IsDistinct (k ∷ ks) = (has_key k ks ≡ false) × IsDistinct ks

has_key-snoc :
    (k j : Text) (ks : List Text) → has_key k (ks ++ (j ∷ [])) ≡ has_key k ks || (j === k)
has_key-snoc k j [] = ground arith
has_key-snoc k j (i ∷ ks) = ground (arith, has_key-snoc k j ks)

IsDistinct-snoc :
    (k : Text) (ks : List Text) → IsDistinct ks → has_key k ks ≡ false → IsDistinct (ks ++ (k ∷ []))
IsDistinct-snoc k [] h e = (refl, tt)
IsDistinct-snoc k (j ∷ ks) (p, h) e = (
  ground (arith, has_key-snoc j k ks, ===_iff j k, ===_iff k j),
  IsDistinct-snoc k ks h (ground arith),
)

add_key-IsDistinct : (k : Text) (ks : List Text) → IsDistinct ks → IsDistinct (add_key k ks)
unfolding add_key
add_key-IsDistinct k ks h = elim (Bool-cases (has_key k ks)) [
  | inl there ↦ rw there h
  | inr missing ↦ rw missing (IsDistinct-snoc k ks h missing)
]

add_keys-IsDistinct : (ks seen : List Text) → IsDistinct seen → IsDistinct (add_keys ks seen)
unfolding add_keys
add_keys-IsDistinct [] seen h = h
add_keys-IsDistinct (k ∷ ks) seen h =
    add_keys-IsDistinct ks (add_key k seen) (add_key-IsDistinct k seen h)

has_key-add_key :
    (k j : Text) (ks : List Text) → has_key k (add_key j ks) ≡ has_key k ks || (j === k)
unfolding add_key
has_key-add_key k j ks = elim (Bool-cases (has_key j ks)) [
  | inl there ↦ rw there (same_key_there there)
  | inr missing ↦ rw missing (has_key-snoc k j ks)
]
  where
    same_key_there : has_key j ks ≡ true → has_key k ks ≡ has_key k ks || (j === k)
    same_key_there there = elim (Bool-cases (j === k)) [
      | inl same ↦ rw (subst (λ i. has_key i ks ≡ true) ((===_iff j k).0 same) there) refl
      | inr other ↦ ground arith
    ]

has_key-add_keys :
    (k : Text) (ks seen : List Text) → has_key k (add_keys ks seen) ≡ has_key k seen || has_key k ks
unfolding add_keys
has_key-add_keys k [] seen = ground arith
has_key-add_keys k (j ∷ ks) seen =
    ground (arith, has_key-add_keys k ks (add_key j seen), has_key-add_key k j seen)

module _ (js : Runtime) (ts : List SemanticType) where
  -- No two scalar members that deduplication leaves have the same key.
  pub deduplicate-IsDistinct : IsDistinct (keys_of_members js (deduplicate_members js ts))
  deduplicate-IsDistinct =
      subst IsDistinct (sym (deduplicate-keys js ts))
        (add_keys-IsDistinct (keys_of_members js ts) [] tt)

  -- A text is the key of a scalar member that deduplication leaves exactly if it is the key of one of
  -- the members that it was given.
  pub deduplicate-has_key :
      (k : Text)
      → has_key k (keys_of_members js (deduplicate_members js ts))
        ≡ has_key k (keys_of_members js ts)
  deduplicate-has_key k =
      ap (has_key k) (deduplicate-keys js ts) ∙ has_key-add_keys k (keys_of_members js ts) []
