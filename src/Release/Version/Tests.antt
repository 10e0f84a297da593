-- ===== src/Release/Version/Tests.antt =====
-- The versions of the package's own tests, and instances of the theorems.
use internal.Prelude.{
  ◌≡◌, refl, Ordering, true, is_ge, Text, text, ok, err, unsupported_version, not_canary_version,
  split, index_of,
}
use internal.Release.Version.{
  ParsedStableVersion, ParsedCanaryVersion, is_stable_release_version, is_canary_release_version,
  assert_stable_release_version, compare_parsed_stable_versions, stable_components,
  canary_components, is_numeric_identifier, decimal, big_int, assert_release_version,
  assert_canary_release_version, parse_stable_version, parse_canary_version, format_stable_version,
  format_canary_version, compare_stable_versions, next_patch_version,
}
use internal.Release.Version.Stable.{parse_stable_version-format_stable_version}
use internal.Release.Version.Canary.{parse_canary_version-format_canary_version}
use internal.Release.Version.Order.{next_patch_version-least}

abbrev v1_2_3 : ParsedStableVersion
v1_2_3 = record { major = 1; minor = 2; patch = 3 }

abbrev canary_11 : ParsedCanaryVersion
canary_11 = record { base = text "0.2.0"; n = 11 }

accepts :
    (assert_release_version (text "0.1.0-canary.1") ≡ ok (text "0.1.0-canary.1"))
    × (assert_release_version (text "1.01.0") ≡ err (unsupported_version (text "1.01.0")))
    × (assert_release_version (text "1.0.0-canary")
        ≡ err (unsupported_version (text "1.0.0-canary")))
    × (assert_canary_release_version (text "0.1.0") ≡ err (not_canary_version (text "0.1.0")))
unfolding assert_release_version assert_canary_release_version is_stable_release_version
    is_canary_release_version stable_components canary_components is_numeric_identifier split
    index_of
accepts = (refl, refl, refl, refl)

parses : parse_canary_version (text "0.2.0-canary.11") ≡ ok canary_11
unfolding parse_canary_version stable_components canary_components is_numeric_identifier split
    index_of assert_stable_release_version is_stable_release_version big_int
parses = refl

next_patch_digits : next_patch_version (text "0.2.9") ≡ ok (text "0.2.10")
unfolding next_patch_version parse_stable_version stable_components is_numeric_identifier split
    assert_stable_release_version is_stable_release_version big_int format_stable_version decimal
next_patch_digits = refl

stable_0_2_0 : is_stable_release_version (text "0.2.0") ≡ true
unfolding is_stable_release_version stable_components is_numeric_identifier split
stable_0_2_0 = refl

stable_0_3_0 : is_stable_release_version (text "0.3.0") ≡ true
unfolding is_stable_release_version stable_components is_numeric_identifier split
stable_0_3_0 = refl

is_canary_1 : is_canary_release_version (text "0.2.0-canary.1") ≡ true
unfolding is_canary_release_version canary_components stable_components is_numeric_identifier split
    index_of
is_canary_1 = refl

is_canary_10 : is_canary_release_version (text "0.2.0-canary.10") ≡ true
unfolding is_canary_release_version canary_components stable_components is_numeric_identifier split
    index_of
is_canary_10 = refl

order_0_3_0 : compare_stable_versions (text "0.3.0") (text "0.2.0") ≡ ok Ordering.gt
unfolding compare_stable_versions parse_stable_version stable_components is_numeric_identifier split
    big_int compare_parsed_stable_versions
order_0_3_0 = refl

order_0_2_0 : compare_stable_versions (text "0.2.0") (text "0.2.0") ≡ ok Ordering.eq
unfolding compare_stable_versions parse_stable_version stable_components is_numeric_identifier split
    big_int compare_parsed_stable_versions
order_0_2_0 = refl

parsed_1_2_3 : parse_stable_version (text "1.2.3") ≡ ok v1_2_3
unfolding parse_stable_version stable_components is_numeric_identifier split big_int
parsed_1_2_3 = refl

stable_round_trip_example : parse_stable_version (format_stable_version v1_2_3) ≡ ok v1_2_3
stable_round_trip_example = parse_stable_version-format_stable_version v1_2_3

canary_round_trip_example :
    (s : Text) × (format_canary_version canary_11 ≡ ok s) × (parse_canary_version s ≡ ok canary_11)
canary_round_trip_example = parse_canary_version-format_canary_version canary_11 stable_0_2_0

next_patch_example :
    (t : Text) × (o : Ordering) × (next_patch_version (text "0.2.0") ≡ ok t)
    × (is_stable_release_version t ≡ true)
    × (compare_stable_versions t (text "0.2.0") ≡ ok Ordering.gt)
    × (compare_stable_versions (text "0.3.0") t ≡ ok o)
    × (is_ge o ≡ true)
next_patch_example =
    next_patch_version-least (text "0.2.0") (text "0.3.0") stable_0_2_0 stable_0_3_0 order_0_3_0
