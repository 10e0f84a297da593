-- ===== src/Release/Version/Decimal.antt =====
-- Decimal numerals: `BigInt` of a text of digits and the template literal of a bigint are inverse.
use internal.Prelude.{
  ℕ, zero, suc, ◌+◌, ◌-◌, ◌*◌, ◌/◌, ◌%◌, ◌≤◌, ◌<◌, ◌≡◌, refl, sym, ap, ◌∙◌, true, false, [], ◌∷◌,
  ◌++◌, append_assoc, append-nil, ltb, Bool-cases, inl, inr, Text, all, Lacks, arith,
}
use internal.Release.Version.{value_from, big_int, digits, decimal, is_digit, is_numeric_identifier}

digits_fuel : (f g n : ℕ) → n < f → n < g → digits f n ≡ digits g n
unfolding digits
digits_fuel zero g n h k = absurd (omega arith)
digits_fuel (suc f) zero n h k = absurd (omega arith)
digits_fuel (suc f) (suc g) n h k = ground (arith, digits_fuel f g (n / 10))

-- The last digit of a number and the digits before it.
pub decimal-step : (n d : ℕ) → 0 < n → d < 10 → decimal (n * 10 + d) ≡ decimal n ++ (b'0' + d) ∷ []
unfolding decimal
decimal-step n d h k =
    ground (arith, digits_fuel (n * 10 + d) (suc n) ((n * 10 + d) / 10), div_step n d, mod_step n d)
  where
    div_step : (n d : ℕ) → d < 10 → (n * 10 + d) / 10 ≡ n
    div_step n d h = omega arith

    mod_step : (n d : ℕ) → d < 10 → (n * 10 + d) % 10 ≡ d
    mod_step n d h = omega arith

pub decimal_digit : (d : ℕ) → d < 10 → decimal d ≡ (b'0' + d) ∷ []
unfolding decimal
decimal_digit d h = ground arith

-- Digits read after a positive number stay at the end of its numeral.
decimal-value_from :
    (n : ℕ) (s : Text) → 0 < n → all is_digit s ≡ true → decimal (value_from n s) ≡ decimal n ++ s
unfolding value_from is_digit
decimal-value_from n [] h k = sym (append-nil _)
decimal-value_from n (c ∷ s) h k =
    let range : (b'0' ≤ c) × (c ≤ b'9') = (ground arith, ground arith) in
    decimal-value_from (n * 10 + (c - b'0')) s (omega arith) (ground arith)
    ∙ ap (λ (t : Text). t ++ s) (decimal-step n (c - b'0') h (omega arith))
    ∙ append_assoc (decimal n) ((b'0' + (c - b'0')) ∷ []) s
    ∙ ap (λ (d : ℕ). decimal n ++ d ∷ s) (omega arith)

-- A numeral in the grammar is the numeral of its value.
pub decimal-big_int : (s : Text) → is_numeric_identifier s ≡ true → decimal (big_int s) ≡ s
unfolding is_numeric_identifier big_int
decimal-big_int [] h = cc
decimal-big_int (c ∷ []) h =
    let range : (b'0' ≤ c) × (c ≤ b'9') = (ground arith, ground arith) in
    decimal_digit (0 * 10 + (c - b'0')) (omega arith) ∙ ap (λ (d : ℕ). d ∷ []) (omega arith)
decimal-big_int (c ∷ d ∷ s) h =
    let range : (b'0' < c) × (c ≤ b'9') = (ground arith, ground arith) in
    decimal-value_from (0 * 10 + (c - b'0')) (d ∷ s) (omega arith) (ground arith)
    ∙ ap (λ (t : Text). t ++ d ∷ s) (decimal_digit (0 * 10 + (c - b'0')) (omega arith))
    ∙ ap (λ (e : ℕ). e ∷ d ∷ s) (omega arith)

value_from-append : (n : ℕ) (s t : Text) → value_from n (s ++ t) ≡ value_from (value_from n s) t
unfolding value_from
value_from-append n [] t = refl
value_from-append n (c ∷ s) t = value_from-append (n * 10 + (c - b'0')) s t

value-digits : (f n : ℕ) → n < f → value_from 0 (digits f n) ≡ n
unfolding digits value_from
value-digits zero n h = absurd (omega arith)
value-digits (suc f) n h = elim (Bool-cases (ltb n 10)) [
  | inl small ↦ rw small (ground arith)
  | inr large ↦
      rw (large, value_from-append) (rw (value-digits f (n / 10) (ground arith)) (omega arith))
]

-- The value of a numeral is the number that it was made from.
pub big_int-decimal : (n : ℕ) → big_int (decimal n) ≡ n
unfolding big_int decimal
big_int-decimal n = value-digits (suc n) n (omega arith)

-- A text of digits whose first is not zero unless it stands alone.
all_append_digit :
    (s : Text) (d : ℕ) → all is_digit s ≡ true → d < 10 → all is_digit (s ++ (b'0' + d) ∷ []) ≡ true
unfolding is_digit
all_append_digit [] d h k = ground arith
all_append_digit (c ∷ s) d h k = ground (arith, all_append_digit s d)

-- A digit other than zero, and digits after it.
abbrev IsLeading : Text → Type 0
IsLeading t = (c : ℕ) × (s : Text) × (t ≡ c ∷ s) × (b'0' < c) × (c ≤ b'9') × (all is_digit s ≡ true)

IsLeading-append : (t : Text) (d : ℕ) → d < 10 → IsLeading t → IsLeading (t ++ (b'0' + d) ∷ [])
IsLeading-append t d h (c, s, e, low, high, rest) =
    (c, s ++ (b'0' + d) ∷ [], rw e, low, high, all_append_digit s d rest h)

digits-IsLeading : (f n : ℕ) → n < f → 0 < n → IsLeading (digits f n)
unfolding digits
digits-IsLeading zero n h k = absurd (omega arith)
digits-IsLeading (suc f) n h k = elim (Bool-cases (ltb n 10)) [
  | inl small ↦ (b'0' + n, [], rw small, omega arith, ground arith, refl)
  | inr large ↦ rw large (
      IsLeading-append _ (n % 10) (omega arith)
        (digits-IsLeading f (n / 10) (ground arith) (ground arith)))
]

IsLeading-numeric : (t : Text) → IsLeading t → is_numeric_identifier t ≡ true
unfolding is_numeric_identifier
IsLeading-numeric t (c, [], e, low, high, rest) = rw e (ground arith)
IsLeading-numeric t (c, d ∷ s, e, low, high, rest) = rw e (ground arith)

-- A printed number is in the grammar: digits without leading zeros.
pub numeric-decimal : (n : ℕ) → is_numeric_identifier (decimal n) ≡ true
unfolding decimal is_digit
numeric-decimal zero = unfold is_numeric_identifier digits in refl
numeric-decimal (suc n) =
    IsLeading-numeric _ (digits-IsLeading (suc (suc n)) (suc n) (omega arith) (omega arith))

-- What is no digit does not stand in a numeral.
Lacks-digits : (c : ℕ) (s : Text) → is_digit c ≡ false → all is_digit s ≡ true → Lacks c s
unfolding is_digit
Lacks-digits c [] h k = tt
Lacks-digits c (d ∷ s) h k = (λ e. ground arith, Lacks-digits c s h (ground arith))

pub Lacks-numeric :
    (c : ℕ) (s : Text) → is_digit c ≡ false → is_numeric_identifier s ≡ true → Lacks c s
unfolding is_numeric_identifier
Lacks-numeric c [] h k = tt
Lacks-numeric c (d ∷ []) h k = Lacks-digits c (d ∷ []) h (ground arith)
Lacks-numeric c (d ∷ e ∷ s) h k = Lacks-digits c (d ∷ e ∷ s) h (ground arith)
