-- ===== src/Release/Version.antt =====
-- packages/release/src/version.ts: the grammar of release versions and their order.
pub mod Decimal
pub mod Stable
pub mod Canary
pub mod Order
pub mod CanaryOrder
mod Tests
use internal.Prelude.{
  ℕ, zero, suc, ◌+◌, ◌-◌, ◌*◌, ◌/◌, ◌%◌, Ordering, Bool, true, false, ◌&&◌, ◌||◌, not, Option, none,
  some, List, [], ◌∷◌, ◌++◌, ltb, leb, ◌==◌, if◌then◌else◌, is_some, is_eq, Text, text, ◌===◌,
  split, index_of, length, take, drop, all, Result, ok, err, ◌>>=◌, unsupported_version,
  not_canary_version, not_stable_version,
}

-- `BigInt` of a text of decimal digits.
value_from : ℕ → Text → ℕ
value_from acc [] = acc
value_from acc (c ∷ s) = value_from (acc * 10 + (c - b'0')) s

unfoldable pub big_int : Text → ℕ
unfolding value_from
big_int s = value_from 0 s

-- The decimal digits of a bigint in a template literal, on fuel above the number.
digits : ℕ → ℕ → Text
digits zero n = []
digits (suc fuel) n =
    let front = digits fuel (n / 10) in
    if ltb n 10 then (b'0' + n) ∷ [] else front ++ (b'0' + n % 10) ∷ []

unfoldable pub decimal : ℕ → Text
unfolding digits
decimal n = digits (suc n) n

unfoldable pub is_digit : ℕ → Bool
is_digit c = leb b'0' c && leb c b'9'

-- `/^(?:0|[1-9]\d*)$/`
unfoldable pub is_numeric_identifier : Text → Bool
unfolding is_digit
is_numeric_identifier [] = false
is_numeric_identifier (c ∷ []) = is_digit c
is_numeric_identifier (c ∷ d ∷ s) = is_digit c && not (c == b'0') && all is_digit (d ∷ s)

abbrev pub canary_marker : Text
canary_marker = text "-canary."

pub record ParsedStableVersion : Type 0 where
  pub major : ℕ
  pub minor : ℕ
  pub patch : ℕ

pub record ParsedCanaryVersion : Type 0 where
  pub base : Text
  pub n : ℕ

three_pieces : List Text → Option (Text × Text × Text)
three_pieces (major ∷ minor ∷ patch ∷ []) =
    if is_numeric_identifier major && is_numeric_identifier minor && is_numeric_identifier patch
    then some (major, minor, patch)
    else none
three_pieces _ = none

unfoldable pub stable_components : Text → Option (Text × Text × Text)
unfolding three_pieces
stable_components version = three_pieces (split b'.' version)

canary_parts : Text → Text → Option (Text × Text)
canary_parts base suffix =
    if is_some (stable_components base) && is_numeric_identifier suffix
    then some (base, suffix)
    else none

unfoldable pub canary_components : Text → Option (Text × Text)
unfolding canary_parts
canary_components version = elim (index_of canary_marker version) [
  | none ↦ none
  | some marker ↦ canary_parts (take marker version) (drop (marker + length canary_marker) version)
]

unfoldable pub is_stable_release_version : Text → Bool
is_stable_release_version version = is_some (stable_components version)

unfoldable pub is_canary_release_version : Text → Bool
is_canary_release_version version = is_some (canary_components version)

is_supported_release_version : Text → Bool
unfolding is_stable_release_version is_canary_release_version
is_supported_release_version version =
    is_stable_release_version version || is_canary_release_version version

pub assert_release_version : Text → Result Text
unfolding is_supported_release_version
assert_release_version version =
    if not (is_supported_release_version version)
    then err (unsupported_version version)
    else ok version

unfoldable pub assert_canary_release_version : Text → Result Text
unfolding assert_release_version
assert_canary_release_version version = do
  supported ← assert_release_version version
  if not (is_canary_release_version supported)
      then err (not_canary_version version)
      else ok supported

unfoldable pub assert_stable_release_version : Text → Result Text
assert_stable_release_version version =
    if not (is_stable_release_version version) then err (not_stable_version version) else ok version

unfoldable pub parse_stable_version : Text → Result ParsedStableVersion
parse_stable_version version = elim (stable_components version) [
  | none ↦ err (not_stable_version version)
  | some (major, minor, patch) ↦
      ok (record { major = big_int major; minor = big_int minor; patch = big_int patch })
]

unfoldable pub parse_canary_version : Text → Result ParsedCanaryVersion
parse_canary_version version = elim (canary_components version) [
  | none ↦ err (not_canary_version version)
  | some (base, suffix) ↦ do
    base' ← assert_stable_release_version base
    ok (record { base = base'; n = big_int suffix })
]

unfoldable pub format_stable_version : ParsedStableVersion → Text
format_stable_version v = decimal v.major ++ b'.' ∷ (decimal v.minor ++ b'.' ∷ decimal v.patch)

unfoldable pub format_canary_version : ParsedCanaryVersion → Result Text
format_canary_version v = assert_canary_release_version (v.base ++ canary_marker ++ decimal v.n)

-- The signs of the source's results: 1 is `gt`, 0 is `eq` and -1 is `lt`.
unfoldable pub compare_parsed_stable_versions : ParsedStableVersion → ParsedStableVersion → Ordering
compare_parsed_stable_versions left right =
    if not (left.major == right.major)
    then (if ltb right.major left.major then Ordering.gt else Ordering.lt)
    else if not (left.minor == right.minor)
    then (if ltb right.minor left.minor then Ordering.gt else Ordering.lt)
    else if not (left.patch == right.patch)
    then (if ltb right.patch left.patch then Ordering.gt else Ordering.lt)
    else Ordering.eq

unfoldable pub compare_stable_versions : Text → Text → Result Ordering
compare_stable_versions left right = do
  parsed_left ← parse_stable_version left
  parsed_right ← parse_stable_version right
  ok (compare_parsed_stable_versions parsed_left parsed_right)

pub next_patch_version : Text → Result Text
next_patch_version version = do
  parsed ← parse_stable_version version
  assert_stable_release_version (format_stable_version (record parsed { patch = parsed.patch + 1 }))

-- By the bases first, then by the counters.
unfoldable pub canary_order : Ordering → ℕ → ℕ → Ordering
canary_order base_order left right =
    if not (is_eq base_order)
    then base_order
    else if left == right
    then Ordering.eq
    else if ltb right left
    then Ordering.gt
    else Ordering.lt

unfoldable pub compare_canary_versions : Text → Text → Result Ordering
compare_canary_versions left right = do
  parsed_left ← parse_canary_version left
  parsed_right ← parse_canary_version right
  base_order ← compare_stable_versions parsed_left.base parsed_right.base
  ok (canary_order base_order parsed_left.n parsed_right.n)
