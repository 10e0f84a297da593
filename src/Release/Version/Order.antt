-- ===== src/Release/Version/Order.antt =====
-- The order of versions: `compareStableVersions` and `compareCanaryVersions` never throw on the
-- versions that they are given, and each is a total order on texts.
use internal.Prelude.{
  ◌+◌, ◌≡◌, ◌↔◌, sym, ap, ◌∙◌, subst, Ordering, true, is_gt, is_ge, Text, Result, ok, err,
  Result-cases, inl, inr, arith,
}
use internal.Release.Version.{
  ParsedStableVersion, is_stable_release_version, parse_stable_version, format_stable_version,
  assert_stable_release_version, compare_parsed_stable_versions, compare_stable_versions,
  next_patch_version,
}
use internal.Release.Version.Stable.{
  parse_stable_of_is_stable, is_stable_of_parse, is_stable-format,
  parse_stable_version-format_stable_version,
}

abbrev pub flip : Ordering → Ordering
flip Ordering.lt = Ordering.gt
flip Ordering.eq = Ordering.eq
flip Ordering.gt = Ordering.lt

compare_parsed_flip :
    (a b : ParsedStableVersion)
    → compare_parsed_stable_versions b a ≡ flip (compare_parsed_stable_versions a b)
unfolding compare_parsed_stable_versions
compare_parsed_flip a b = ground arith

compare_parsed_refl : (a : ParsedStableVersion) → compare_parsed_stable_versions a a ≡ Ordering.eq
unfolding compare_parsed_stable_versions
compare_parsed_refl a = ground arith

compare_parsed_eq :
    (a b : ParsedStableVersion) → compare_parsed_stable_versions a b ≡ Ordering.eq → a ≡ b
unfolding compare_parsed_stable_versions
compare_parsed_eq a b h = ground arith

compare_parsed_trans :
    (a b c : ParsedStableVersion)
    → is_gt (compare_parsed_stable_versions a b) ≡ true
    → is_ge (compare_parsed_stable_versions b c) ≡ true
    → is_gt (compare_parsed_stable_versions a c) ≡ true
unfolding compare_parsed_stable_versions
compare_parsed_trans a b c h k = ground arith

abbrev zero_version : ParsedStableVersion
zero_version = record { major = 0; minor = 0; patch = 0 }

abbrev parsed_or_zero : Result ParsedStableVersion → ParsedStableVersion
parsed_or_zero (ok v) = v
parsed_or_zero (err e) = zero_version

components : Text → ParsedStableVersion
components s = parsed_or_zero (parse_stable_version s)

-- The order that the comparison of two stable versions returns.
pub stable_order : Text → Text → Ordering
unfolding components
stable_order s t = compare_parsed_stable_versions (components s) (components t)

parse-components :
    (s : Text) → is_stable_release_version s ≡ true → parse_stable_version s ≡ ok (components s)
unfolding components
parse-components s h = let (v, parsed, _) = parse_stable_of_is_stable s h in rw parsed

format-components :
    (s : Text) → is_stable_release_version s ≡ true → s ≡ format_stable_version (components s)
unfolding components
format-components s h =
    let (v, parsed, same) = parse_stable_of_is_stable s h in
    same ∙ ap (λ r. format_stable_version (parsed_or_zero r)) (sym parsed)

pub compare_stable_versions-eq :
    (s t : Text)
    → is_stable_release_version s ≡ true
    → is_stable_release_version t ≡ true
    → compare_stable_versions s t ≡ ok (stable_order s t)
unfolding compare_stable_versions stable_order
compare_stable_versions-eq s t h k =
    rw (compare_stable_versions, parse-components s h, parse-components t k)

pub stable_order-flip : (s t : Text) → stable_order t s ≡ flip (stable_order s t)
unfolding stable_order
stable_order-flip s t = compare_parsed_flip (components s) (components t)

pub stable_order_refl : (s : Text) → stable_order s s ≡ Ordering.eq
unfolding stable_order
stable_order_refl s = compare_parsed_refl (components s)

pub stable_order_eq :
    (s t : Text)
    → is_stable_release_version s ≡ true
    → is_stable_release_version t ≡ true
    → stable_order s t ≡ Ordering.eq
    → s ≡ t
unfolding stable_order
stable_order_eq s t h k e =
    format-components s h
    ∙ ap format_stable_version (compare_parsed_eq (components s) (components t) e)
    ∙ sym (format-components t k)

pub stable_order_trans :
    (s t u : Text)
    → is_gt (stable_order s t) ≡ true
    → is_ge (stable_order t u) ≡ true
    → is_gt (stable_order s u) ≡ true
unfolding stable_order
stable_order_trans s t u h k = compare_parsed_trans (components s) (components t) (components u) h k

-- Comparing two stable versions never throws; the comparison the other way round has the opposite
-- sign, and the sign is zero exactly for one and the same text.
pub compare_stable_versions-total :
    (s t : Text)
    → is_stable_release_version s ≡ true
    → is_stable_release_version t ≡ true
    → (o : Ordering) × (compare_stable_versions s t ≡ ok o)
      × (compare_stable_versions t s ≡ ok (flip o))
      × ((o ≡ Ordering.eq) ↔ (s ≡ t))
compare_stable_versions-total s t h k = (
  stable_order s t,
  compare_stable_versions-eq s t h k,
  compare_stable_versions-eq t s k h ∙ ap ok (stable_order-flip s t),
  (stable_order_eq s t h k, λ e. ap (λ u. stable_order s u) (sym e) ∙ stable_order_refl s),
)

-- Among stable versions, what is above a version that is at least a third is above the third.
pub compare_stable_versions_trans :
    (s t u : Text) (o p : Ordering)
    → is_stable_release_version s ≡ true
    → is_stable_release_version t ≡ true
    → is_stable_release_version u ≡ true
    → compare_stable_versions s t ≡ ok o
    → compare_stable_versions t u ≡ ok p
    → is_gt o ≡ true
    → is_ge p ≡ true
    → compare_stable_versions s u ≡ ok Ordering.gt
compare_stable_versions_trans s t u o p hs ht hu h k above at_least =
    let first : stable_order s t ≡ o = cc (compare_stable_versions-eq s t hs ht) in
    let second : stable_order t u ≡ p = cc (compare_stable_versions-eq t u ht hu) in
    compare_stable_versions-eq s u hs hu
    ∙ ap ok (is_gt_eq (stable_order_trans s t u (rw first above) (rw second at_least)))
  where
    is_gt_eq : {q : Ordering} → is_gt q ≡ true → q ≡ Ordering.gt
    is_gt_eq h = ground arith

next_patch_above :
    (v : ParsedStableVersion)
    → compare_parsed_stable_versions (record v { patch = v.patch + 1 }) v ≡ Ordering.gt
unfolding compare_parsed_stable_versions
next_patch_above v = ground arith

next_patch_least :
    (v w : ParsedStableVersion)
    → is_gt (compare_parsed_stable_versions w v) ≡ true
    → is_ge (compare_parsed_stable_versions w (record v { patch = v.patch + 1 })) ≡ true
unfolding compare_parsed_stable_versions
next_patch_least v w h = ground arith

components-format : (v : ParsedStableVersion) → components (format_stable_version v) ≡ v
unfolding components
components-format v = ap parsed_or_zero (parse_stable_version-format_stable_version v)

abbrev bumped : Text → Text
bumped s = format_stable_version (record (components s) { patch = (components s).patch + 1 })

next_patch_version-eq :
    (s : Text) → is_stable_release_version s ≡ true → next_patch_version s ≡ ok (bumped s)
unfolding next_patch_version assert_stable_release_version
next_patch_version-eq s h =
    rw (next_patch_version, parse-components s h)
      (ground
        (arith, is_stable-format (record (components s) { patch = (components s).patch + 1 })))

pub next_patch_version-stable :
    (s t : Text)
    → is_stable_release_version s ≡ true
    → next_patch_version s ≡ ok t
    → is_stable_release_version t ≡ true
next_patch_version-stable s t h e =
    let same : bumped s ≡ t = cc (next_patch_version-eq s h, e) in
    subst (λ u. is_stable_release_version u ≡ true) same
      (is_stable-format (record (components s) { patch = (components s).patch + 1 }))

-- The next patch of a stable version is a stable version above it, and no stable version stands
-- between the two: any that is above the first is at least the next patch.
pub next_patch_version-least :
    (s u : Text)
    → is_stable_release_version s ≡ true
    → is_stable_release_version u ≡ true
    → compare_stable_versions u s ≡ ok Ordering.gt
    → (t : Text) × (o : Ordering) × (next_patch_version s ≡ ok t)
      × (is_stable_release_version t ≡ true)
      × (compare_stable_versions t s ≡ ok Ordering.gt)
      × (compare_stable_versions u t ≡ ok o)
      × (is_ge o ≡ true)
unfolding stable_order
next_patch_version-least s u h k above =
    let next = record (components s) { patch = (components s).patch + 1 } in
    let stable = is_stable-format next in
    let order : stable_order u s ≡ Ordering.gt = cc (compare_stable_versions-eq u s k h) in
    (
      bumped s,
      stable_order u (bumped s),
      next_patch_version-eq s h,
      stable,
      compare_stable_versions-eq (bumped s) s stable h
          ∙ ap ok (rw (components-format next) (next_patch_above (components s))),
      compare_stable_versions-eq u (bumped s) k stable,
      rw (components-format next) (next_patch_least (components s) (components u) (ap is_gt order)),
    )

-- Only stable versions are compared: anything else throws.
pub is_stable_of_compare :
    (s t : Text) (o : Ordering)
    → compare_stable_versions s t ≡ ok o
    → (is_stable_release_version s ≡ true) × (is_stable_release_version t ≡ true)
unfolding compare_stable_versions
is_stable_of_compare s t o h = elim (Result-cases (parse_stable_version s)) [
  | inr (e, failed) ↦ absurd (cc (rw (failed, compare_stable_versions) at h))
  | inl (v, parsed) ↦ elim (Result-cases (parse_stable_version t)) [
    | inr (e, failed) ↦ absurd (cc (rw (parsed, failed, compare_stable_versions) at h))
    | inl (w, parsed') ↦ (is_stable_of_parse s v parsed, is_stable_of_parse t w parsed')
  ]
]
