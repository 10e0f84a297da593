-- ===== src/Release/Version/Canary.antt =====
-- Canary versions: which texts are accepted, and the round trips of parsing and printing.
use internal.Prelude.{
  ℕ, ◌≡◌, refl, sym, ap, ◌∙◌, true, false, some, [], ◌∷◌, ◌++◌, Option-cases, inl, inr, Text, Lacks,
  index_of, index_of_slices, slices-append, text, index_of-append, ok, arith,
}
use internal.Release.Version.{
  big_int, decimal, is_numeric_identifier, canary_marker, ParsedCanaryVersion, canary_parts,
  canary_components, is_stable_release_version, is_canary_release_version, assert_release_version,
  assert_canary_release_version, assert_stable_release_version, parse_canary_version,
  format_canary_version,
}
use internal.Release.Version.Stable.{Lacks-is_stable}
use internal.Release.Version.Decimal.{decimal-big_int, big_int-decimal, numeric-decimal}

not_Lacks : (c : ℕ) (before m after : Text) → ¬ Lacks c (before ++ (c ∷ m) ++ after)
not_Lacks c [] m after (ne, h) = ne refl
not_Lacks c (d ∷ before) m after (ne, h) = not_Lacks c before m after h

-- A stable version, the marker and a numeral.
pub record IsCanaryText (s base suffix : Text) : Type 0 where
  pub base_stable : is_stable_release_version base ≡ true
  pub suffix_numeric : is_numeric_identifier suffix ≡ true
  pub parts : s ≡ base ++ canary_marker ++ suffix

canary_parts_sound :
    (a b base suffix : Text)
    → canary_parts a b ≡ some (base, suffix)
    → (a ≡ base)
      × (b ≡ suffix)
      × (is_stable_release_version a ≡ true)
      × (is_numeric_identifier b ≡ true)
unfolding canary_parts is_stable_release_version
canary_parts_sound a b base suffix h = ground arith

pub canary_components_sound :
    (s base suffix : Text) → canary_components s ≡ some (base, suffix) → IsCanaryText s base suffix
unfolding canary_components
canary_components_sound s base suffix h = elim (Option-cases (index_of canary_marker s)) [
  | inl missing ↦ cc (rw (missing, canary_components) at h)
  | inr (k, found) ↦
      let (same_base, same_suffix, stable, numeric) =
        canary_parts_sound _ _ base suffix (rw (found, canary_components) at h) in
      record {
        base_stable = rw (← same_base) stable;
        suffix_numeric = rw (← same_suffix) numeric;
        parts = rw (← same_base, ← same_suffix) (index_of_slices canary_marker s k found);
      }
]

canary_components-append :
    (base suffix : Text)
    → is_stable_release_version base ≡ true
    → is_numeric_identifier suffix ≡ true
    → canary_components (base ++ canary_marker ++ suffix) ≡ some (base, suffix)
unfolding canary_components canary_parts is_stable_release_version
canary_components-append base suffix stable numeric =
    rw
      (
        canary_components,
        index_of-append b'-' (text "canary.") base suffix (Lacks-is_stable base stable),
        (slices-append canary_marker base suffix).0,
        (slices-append canary_marker base suffix).1,
      )
      (ground arith)

pub canary_components_complete :
    (s base suffix : Text) → IsCanaryText s base suffix → canary_components s ≡ some (base, suffix)
canary_components_complete s base suffix h =
    ap canary_components h.parts
    ∙ canary_components-append base suffix h.base_stable h.suffix_numeric

-- No text is both a stable and a canary version.
pub stable_canary_exclusive :
    (s : Text) → is_stable_release_version s ≡ true → is_canary_release_version s ≡ false
unfolding is_canary_release_version
stable_canary_exclusive s h = elim (Option-cases (canary_components s)) [
  | inl missing ↦ rw missing
  | inr ((base, suffix), found) ↦
      let t = canary_components_sound s base suffix found in
      absurd (not_Lacks b'-' base (text "canary.") suffix (rw t.parts at (Lacks-is_stable s h)))
]

pub is_canary-append :
    (base suffix : Text)
    → is_stable_release_version base ≡ true
    → is_numeric_identifier suffix ≡ true
    → is_canary_release_version (base ++ canary_marker ++ suffix) ≡ true
unfolding is_canary_release_version
is_canary-append base suffix stable numeric =
    rw (canary_components-append base suffix stable numeric)

pub assert_canary_of_is_canary :
    (s : Text) → is_canary_release_version s ≡ true → assert_canary_release_version s ≡ ok s
unfolding assert_canary_release_version assert_release_version
assert_canary_of_is_canary s h = ground arith

-- The text that a canary's parts print.
abbrev pub canary_text : ParsedCanaryVersion → Text
canary_text v = v.base ++ canary_marker ++ decimal v.n

pub format_canary_version-eq :
    (v : ParsedCanaryVersion)
    → is_stable_release_version v.base ≡ true
    → format_canary_version v ≡ ok (canary_text v)
unfolding format_canary_version
format_canary_version-eq v h =
    assert_canary_of_is_canary _ (is_canary-append v.base (decimal v.n) h (numeric-decimal v.n))

parse_canary-append :
    (base suffix : Text)
    → is_stable_release_version base ≡ true
    → is_numeric_identifier suffix ≡ true
    → parse_canary_version (base ++ canary_marker ++ suffix)
      ≡ ok (record { base = base; n = big_int suffix })
unfolding parse_canary_version assert_stable_release_version
parse_canary-append base suffix stable numeric =
    rw (parse_canary_version, canary_components-append base suffix stable numeric) (ground arith)

-- A canary version parses into a stable base and a counter, and is the text that they print.
pub parse_canary_of_is_canary :
    (s : Text)
    → is_canary_release_version s ≡ true
    → (v : ParsedCanaryVersion) × (parse_canary_version s ≡ ok v)
      × (s ≡ canary_text v)
      × (is_stable_release_version v.base ≡ true)
unfolding is_canary_release_version
parse_canary_of_is_canary s h = elim (Option-cases (canary_components s)) [
  | inl missing ↦ cc (rw missing at h)
  | inr ((base, suffix), found) ↦
      let t = canary_components_sound s base suffix found in
      (
        record { base = base; n = big_int suffix },
        ap parse_canary_version t.parts
            ∙ parse_canary-append base suffix t.base_stable t.suffix_numeric,
        t.parts
            ∙ ap (λ (u : Text). base ++ canary_marker ++ u)
                (sym (decimal-big_int suffix t.suffix_numeric)),
        t.base_stable,
      )
]

pub is_canary_of_parse :
    (s : Text) (v : ParsedCanaryVersion)
    → parse_canary_version s ≡ ok v
    → is_canary_release_version s ≡ true
unfolding is_canary_release_version parse_canary_version
is_canary_of_parse s v h = elim (Option-cases (canary_components s)) [
  | inl missing ↦ cc (rw (missing, parse_canary_version) at h)
  | inr (t, found) ↦ rw found
]

-- A text that parses as a canary is exactly what printing its parts returns.
pub format_canary_version-parse_canary_version :
    (s : Text) (v : ParsedCanaryVersion)
    → parse_canary_version s ≡ ok v
    → format_canary_version v ≡ ok s
format_canary_version-parse_canary_version s v h =
    let (w, parsed, same, stable) = parse_canary_of_is_canary s (is_canary_of_parse s v h) in
    let e : w ≡ v = cc in rw (← e, same) (format_canary_version-eq w stable)

-- Printing a stable base with any counter succeeds, and parsing the text gives both back.
pub parse_canary_version-format_canary_version :
    (v : ParsedCanaryVersion)
    → is_stable_release_version v.base ≡ true
    → (s : Text) × (format_canary_version v ≡ ok s) × (parse_canary_version s ≡ ok v)
parse_canary_version-format_canary_version v h = (
  canary_text v,
  format_canary_version-eq v h,
  parse_canary-append v.base (decimal v.n) h (numeric-decimal v.n)
      ∙ ap (λ (n : ℕ). ok (record { base = v.base; n = n })) (big_int-decimal v.n),
)
