-- ===== src/Release/Version/Stable.antt =====
-- Stable versions: which texts are accepted, and the round trips of parsing and printing.
use internal.Prelude.{
  ℕ, ◌≡◌, ◌≢◌, refl, sym, ap, ◌∙◌, true, false, some, List, [], ◌∷◌, ◌++◌, Option-cases, inl, inr,
  Text, Lacks, All-append, split, join, join-split, split-append, split_last, ok, arith,
}
use internal.Release.Version.{
  big_int, decimal, is_digit, is_numeric_identifier, ParsedStableVersion, three_pieces,
  stable_components, is_stable_release_version, assert_stable_release_version, parse_stable_version,
  format_stable_version,
}
use internal.Release.Version.Decimal.{
  decimal-big_int, big_int-decimal, numeric-decimal, Lacks-numeric,
}

-- Three numerals joined by dots.
pub record IsStableText (s major minor patch : Text) : Type 0 where
  pub major_numeric : is_numeric_identifier major ≡ true
  pub minor_numeric : is_numeric_identifier minor ≡ true
  pub patch_numeric : is_numeric_identifier patch ≡ true
  pub parts : s ≡ major ++ b'.' ∷ (minor ++ b'.' ∷ patch)

three_pieces_sound :
    (ps : List Text) (a b c : Text)
    → three_pieces ps ≡ some (a, b, c)
    → IsStableText (join b'.' ps) a b c
unfolding three_pieces join
three_pieces_sound [] a b c h = cc
three_pieces_sound (x ∷ []) a b c h = cc
three_pieces_sound (x ∷ y ∷ []) a b c h = cc
three_pieces_sound (x ∷ y ∷ z ∷ []) a b c h = ground arith
three_pieces_sound (x ∷ y ∷ z ∷ w ∷ ps) a b c h = cc

pub stable_components_sound :
    (s a b c : Text) → stable_components s ≡ some (a, b, c) → IsStableText s a b c
unfolding stable_components
stable_components_sound s a b c h = rw join-split at (three_pieces_sound (split b'.' s) a b c h)

split_parts :
    (a b c : Text)
    → Lacks b'.' a
    → Lacks b'.' b
    → Lacks b'.' c
    → split b'.' (a ++ b'.' ∷ (b ++ b'.' ∷ c)) ≡ a ∷ b ∷ c ∷ []
split_parts a b c la lb lc =
    split-append b'.' a (b ++ b'.' ∷ c) la
    ∙ ap (λ ps. a ∷ ps) (split-append b'.' b c lb ∙ ap (λ ps. b ∷ ps) (split_last b'.' c lc))

dot_no_digit : is_digit b'.' ≡ false
unfolding is_digit
dot_no_digit = refl

pub stable_components_complete :
    (s a b c : Text) → IsStableText s a b c → stable_components s ≡ some (a, b, c)
unfolding stable_components
stable_components_complete s a b c h =
    let la = Lacks-numeric b'.' a dot_no_digit h.major_numeric in
    let lb = Lacks-numeric b'.' b dot_no_digit h.minor_numeric in
    let lc = Lacks-numeric b'.' c dot_no_digit h.patch_numeric in
    rw (h.parts, split_parts a b c la lb lc)
      (unfold three_pieces in simp (h.major_numeric, h.minor_numeric, h.patch_numeric))

-- Printing three components and parsing the text gives them back.
pub parse_stable_version-format_stable_version :
    (v : ParsedStableVersion) → parse_stable_version (format_stable_version v) ≡ ok v
unfolding parse_stable_version format_stable_version
parse_stable_version-format_stable_version v =
    rw
      (
        parse_stable_version,
        stable_components_complete _ (decimal v.major) (decimal v.minor) (decimal v.patch) (record {
          major_numeric = numeric-decimal v.major;
          minor_numeric = numeric-decimal v.minor;
          patch_numeric = numeric-decimal v.patch;
          parts = refl;
        }),
      )
      (simp big_int-decimal)

-- A version that parses is the text that its components print.
pub format_stable_version-parse_stable_version :
    (s : Text) (v : ParsedStableVersion)
    → parse_stable_version s ≡ ok v
    → format_stable_version v ≡ s
unfolding parse_stable_version
format_stable_version-parse_stable_version s v h = elim (Option-cases (stable_components s)) [
  | inl missing ↦ cc (rw (missing, parse_stable_version) at h)
  | inr ((a, b, c), found) ↦
      let t = stable_components_sound s a b c found in
      let same = format_big_int a b c t.major_numeric t.minor_numeric t.patch_numeric in
      ground (arith, same, t.parts)
]
  where
    format_big_int :
        (a b c : Text)
        → is_numeric_identifier a ≡ true
        → is_numeric_identifier b ≡ true
        → is_numeric_identifier c ≡ true
        → format_stable_version (record { major = big_int a; minor = big_int b; patch = big_int c })
          ≡ a ++ b'.' ∷ (b ++ b'.' ∷ c)
    format_big_int a b c ha hb hc =
        unfold format_stable_version in
        simp (decimal-big_int a ha, decimal-big_int b hb, decimal-big_int c hc)

Lacks-stable :
    (c : ℕ) (s a b d : Text) → is_digit c ≡ false → c ≢ b'.' → IsStableText s a b d → Lacks c s
Lacks-stable c s a b d h ne t = rw t.parts (
    All-append _ a _ (Lacks-numeric c a h t.major_numeric) (
      λ e. ne (sym e),
      All-append _ b _ (Lacks-numeric c b h t.minor_numeric)
          (λ e. ne (sym e), Lacks-numeric c d h t.patch_numeric),
    ))

-- A stable version holds no hyphen.
pub Lacks-is_stable : (s : Text) → is_stable_release_version s ≡ true → Lacks b'-' s
unfolding is_stable_release_version
Lacks-is_stable s h = elim (Option-cases (stable_components s)) [
  | inl missing ↦ cc (rw missing at h)
  | inr ((a, b, c), found) ↦
      Lacks-stable b'-' s a b c (unfold is_digit in refl) (λ e. ground arith)
        (stable_components_sound s a b c found)
]

-- The components of a stable version print the version.
pub parse_stable_of_is_stable :
    (s : Text)
    → is_stable_release_version s ≡ true
    → (v : ParsedStableVersion) × (parse_stable_version s ≡ ok v) × (s ≡ format_stable_version v)
unfolding is_stable_release_version parse_stable_version
parse_stable_of_is_stable s h = elim (Option-cases (stable_components s)) [
  | inl missing ↦ cc (rw missing at h)
  | inr ((a, b, c), found) ↦
      let parsed : parse_stable_version s
          ≡ ok (record { major = big_int a; minor = big_int b; patch = big_int c }) =
        rw (found, parse_stable_version) in
      (_, parsed, sym (format_stable_version-parse_stable_version s _ parsed))
]

pub is_stable_of_parse :
    (s : Text) (v : ParsedStableVersion)
    → parse_stable_version s ≡ ok v
    → is_stable_release_version s ≡ true
unfolding is_stable_release_version parse_stable_version
is_stable_of_parse s v h = elim (Option-cases (stable_components s)) [
  | inl missing ↦ cc (rw (missing, parse_stable_version) at h)
  | inr (t, found) ↦ rw found
]

pub is_stable-format :
    (v : ParsedStableVersion) → is_stable_release_version (format_stable_version v) ≡ true
is_stable-format v = is_stable_of_parse _ v (parse_stable_version-format_stable_version v)

pub assert_stable_of_is_stable :
    (s : Text) → is_stable_release_version s ≡ true → assert_stable_release_version s ≡ ok s
unfolding assert_stable_release_version
assert_stable_of_is_stable s h = ground arith
