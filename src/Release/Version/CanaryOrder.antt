-- ===== src/Release/Version/CanaryOrder.antt =====
-- The order of canary versions: by their bases, then by their counters.
use internal.Prelude.{
  ◌≢◌, ◌⊎◌, inl, inr, ℕ, ◌<◌, ◌≡◌, ◌↔◌, refl, sym, ap, ◌∙◌, Ordering, true, false, is_gt, Text, ok,
  arith,
}
use internal.Release.Version.{
  ParsedCanaryVersion, is_stable_release_version, is_canary_release_version, parse_canary_version,
  canary_order, compare_canary_versions,
}
use internal.Release.Version.Order.{
  flip, stable_order, compare_stable_versions-eq, stable_order-flip, stable_order_refl,
  stable_order_eq,
}
use internal.Release.Version.Canary.{canary_text, parse_canary_of_is_canary}

-- The order that the comparison of two canaries returns, on their parts.
abbrev pub parts_order : ParsedCanaryVersion → ParsedCanaryVersion → Ordering
parts_order v w = canary_order (stable_order v.base w.base) v.n w.n

pub compare_canary_versions-eq :
    (s t : Text) (v w : ParsedCanaryVersion)
    → parse_canary_version s ≡ ok v
    → parse_canary_version t ≡ ok w
    → is_stable_release_version v.base ≡ true
    → is_stable_release_version w.base ≡ true
    → compare_canary_versions s t ≡ ok (parts_order v w)
unfolding compare_canary_versions
compare_canary_versions-eq s t v w p q h k =
    rw (compare_canary_versions, p, q, compare_stable_versions-eq v.base w.base h k)

canary_order-flip : (o : Ordering) (m n : ℕ) → canary_order (flip o) n m ≡ flip (canary_order o m n)
unfolding canary_order
canary_order-flip o m n = ground arith

canary_order_eq :
    (o : Ordering) (m n : ℕ) → canary_order o m n ≡ Ordering.eq → (o ≡ Ordering.eq) × (m ≡ n)
unfolding canary_order
canary_order_eq o m n h = ground arith

canary_order_refl : (n : ℕ) → canary_order Ordering.eq n n ≡ Ordering.eq
unfolding canary_order
canary_order_refl n = ground arith

parts_order_refl : (v : ParsedCanaryVersion) → parts_order v v ≡ Ordering.eq
parts_order_refl v = rw stable_order_refl (canary_order_refl v.n)

-- Two canaries on one base are ordered by their counters.
pub parts_order_same_base :
    (b : Text) (m n : ℕ)
    → m < n
    → parts_order (record { base = b; n = n }) (record { base = b; n = m }) ≡ Ordering.gt
unfolding canary_order
parts_order_same_base b m n h = rw stable_order_refl (ground arith)

-- A canary on a higher base is above, whatever the counters.
pub parts_order_higher_base :
    (v w : ParsedCanaryVersion)
    → stable_order v.base w.base ≡ Ordering.gt
    → parts_order v w ≡ Ordering.gt
unfolding canary_order
parts_order_higher_base v w h = rw h

text_of_order_eq :
    (v w : ParsedCanaryVersion)
    → is_stable_release_version v.base ≡ true
    → is_stable_release_version w.base ≡ true
    → parts_order v w ≡ Ordering.eq
    → canary_text v ≡ canary_text w
text_of_order_eq v w h k e =
    let (bases, counters) = canary_order_eq _ v.n w.n e in
    rw (stable_order_eq v.base w.base h k bases, counters)

-- Comparing two canary versions never throws; the comparison the other way round has the opposite
-- sign, and the sign is zero exactly for one and the same text.
pub compare_canary_versions-total :
    (s t : Text)
    → is_canary_release_version s ≡ true
    → is_canary_release_version t ≡ true
    → (o : Ordering) × (compare_canary_versions s t ≡ ok o)
      × (compare_canary_versions t s ≡ ok (flip o))
      × ((o ≡ Ordering.eq) ↔ (s ≡ t))
compare_canary_versions-total s t h k =
    let (v, parsed, same, stable) = parse_canary_of_is_canary s h in
    let (w, parsed', same', stable') = parse_canary_of_is_canary t k in
    let forth = compare_canary_versions-eq s t v w parsed parsed' stable stable' in
    let back = compare_canary_versions-eq t s w v parsed' parsed stable' stable in
    (
      parts_order v w,
      forth,
      back
          ∙ ap ok (
              ap (λ o. canary_order o w.n v.n) (stable_order-flip v.base w.base)
              ∙ canary_order-flip (stable_order v.base w.base) v.n w.n),
      (
        λ e. same ∙ text_of_order_eq v w stable stable' e ∙ sym same',
        λ e. same_parts s t v w parsed parsed' e ∙ parts_order_refl w,
      ),
    )
  where
    same_parts :
        (s t : Text) (v w : ParsedCanaryVersion)
        → parse_canary_version s ≡ ok v
        → parse_canary_version t ≡ ok w
        → s ≡ t
        → parts_order v w ≡ parts_order w w
    same_parts s t v w p q e = let same : v ≡ w = cc in rw same

above_by_order :
    (o : Ordering) (m n : ℕ)
    → is_gt o ≡ false
    → (o ≢ Ordering.eq) ⊎ (n < m)
    → canary_order (flip o) m n ≡ Ordering.gt
unfolding canary_order
above_by_order Ordering.lt m n h k = refl
above_by_order Ordering.eq m n h (inl ne) = absurd (ne refl)
above_by_order Ordering.eq m n h (inr lt) = ground arith
above_by_order Ordering.gt m n h k = cc

-- A canary is above one whose base is not above its own, and whose counter is smaller if the two
-- bases are one.
pub parts_order_above :
    (v w : ParsedCanaryVersion)
    → is_stable_release_version v.base ≡ true
    → is_stable_release_version w.base ≡ true
    → is_gt (stable_order w.base v.base) ≡ false
    → (w.base ≢ v.base) ⊎ (w.n < v.n)
    → parts_order v w ≡ Ordering.gt
parts_order_above v w hv hw below k =
    rw (stable_order-flip w.base v.base)
      (above_by_order (stable_order w.base v.base) v.n w.n below (differs k))
  where
    differs :
        (w.base ≢ v.base) ⊎ (w.n < v.n) → (stable_order w.base v.base ≢ Ordering.eq) ⊎ (w.n < v.n)
    differs (inl ne) = inl (λ e. ne (stable_order_eq w.base v.base hw hv e))
    differs (inr lt) = inr lt
