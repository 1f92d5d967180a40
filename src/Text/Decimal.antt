-- ===== src/Text/Decimal.antt =====
-- strconv on decimal numbers: ParseUint(s, 10, bits), Atoi of a text with no sign, FormatUint.
use myrest.Prelude.{
  ℕ, zero, suc, ◌+◌, ◌-◌, ◌*◌, ◌/◌, ◌%◌, ◌^◌, ◌≤◌, ◌<◌, ◌≡◌, ◌≢◌, refl, ap, ◌∙◌, Option, none, some,
  [], ◌∷◌, arith, ltb, ◌==◌, if◌then◌else◌, inl, inr, Bool-cases, All, if-both,
}
use myrest.Text.{Text}
use myrest.Text.Unicode.{ascii_digit}

unfoldable pub digits_onto : ℕ → Text → Option ℕ
unfolding ascii_digit
digits_onto n [] = some n
digits_onto n (c ∷ s) =
    let rest = digits_onto (n * 10 + (c - b'0')) s in if ascii_digit c then rest else none

-- One digit at least, and nothing but digits.
unfoldable pub decimal : Text → Option ℕ
unfolding digits_onto
decimal [] = none
decimal (c ∷ s) = digits_onto 0 (c ∷ s)

abbrev in_range : ℕ → Option ℕ → Option ℕ
in_range bound none = none
in_range bound (some n) = if ltb n bound then some n else none

-- strconv.ParseUint(s, 10, 64).
unfoldable pub parse_uint : Text → Option ℕ
unfolding decimal
parse_uint s = in_range (2 ^ 64) (decimal s)

-- strconv.Atoi of a text with no sign, on a 64-bit platform.
unfoldable pub atoi : Text → Option ℕ
unfolding decimal
atoi s = in_range (2 ^ 63) (decimal s)

-- The digits of `n` before `rest`; `fuel` is above the number of divisions.
unfoldable pub format_onto : ℕ → ℕ → Text → Text
format_onto zero n rest = rest
format_onto (suc fuel) n rest =
    let low = (b'0' + n % 10) ∷ rest in
    let all = format_onto fuel (n / 10) low in if n / 10 == 0 then low else all

-- strconv.FormatUint(n, 10) and strconv.Itoa of a number that is not negative.
unfoldable pub format_uint : ℕ → Text
unfolding format_onto
format_uint n = format_onto (suc n) n []

digits_onto_digit :
    (m d : ℕ) (s : Text) → d < 10 → digits_onto m ((b'0' + d) ∷ s) ≡ digits_onto (m * 10 + d) s
unfolding digits_onto
digits_onto_digit m d s h = let e : b'0' + d - b'0' ≡ d = omega arith in ground (arith, e)

digits_onto-format_onto :
    (fuel n : ℕ) (rest : Text)
    → n < fuel
    → digits_onto 0 (format_onto fuel n rest) ≡ digits_onto n rest
unfolding format_onto
digits_onto-format_onto zero n rest h = elim h [ ]
digits_onto-format_onto (suc fuel) n rest h = elim (Bool-cases (n / 10 == 0)) [
  | inl last ↦ rw last (
      digits_onto_digit 0 (n % 10) rest (omega arith) ∙ ap (λ k. digits_onto k rest) (ground arith))
  | inr more ↦ rw more (
      digits_onto-format_onto fuel (n / 10) ((b'0' + n % 10) ∷ rest) (ground arith)
      ∙ digits_onto_digit (n / 10) (n % 10) rest (omega arith)
      ∙ ap (λ k. digits_onto k rest) (omega arith))
]

decimal-digits_onto : (s : Text) → s ≢ [] → decimal s ≡ digits_onto 0 s
unfolding decimal
decimal-digits_onto [] h = absurd (h refl)
decimal-digits_onto (c ∷ s) h = refl

format_onto-ne-nil : (fuel n : ℕ) (rest : Text) → rest ≢ [] → format_onto fuel n rest ≢ []
unfolding format_onto
format_onto-ne-nil zero n rest h = h
format_onto-ne-nil (suc fuel) n rest h =
    ground (arith, format_onto-ne-nil fuel (n / 10) ((b'0' + n % 10) ∷ rest))

format_uint-ne-nil : (n : ℕ) → format_uint n ≢ []
unfolding format_uint
format_uint-ne-nil n = ground (arith, format_onto-ne-nil n (n / 10) ((b'0' + n % 10) ∷ []))

-- A printed number is read back.
pub decimal-format_uint : (n : ℕ) → decimal (format_uint n) ≡ some n
unfolding format_uint digits_onto
decimal-format_uint n =
    decimal-digits_onto _ (format_uint-ne-nil n)
    ∙ digits_onto-format_onto (suc n) n [] (omega arith)

abbrev pub IsDigit : ℕ → Type 0
IsDigit c = (b'0' ≤ c) × (c ≤ b'9')

format_onto-IsDigit :
    (fuel n : ℕ) (rest : Text) → All IsDigit rest → All IsDigit (format_onto fuel n rest)
unfolding format_onto
format_onto-IsDigit zero n rest h = h
format_onto-IsDigit (suc fuel) n rest h =
    let low : All IsDigit ((b'0' + n % 10) ∷ rest) = ((omega arith, omega arith), h) in
    if-both (All IsDigit) (n / 10 == 0) low
      (format_onto-IsDigit fuel (n / 10) ((b'0' + n % 10) ∷ rest) low)

-- A printed number holds digits only.
pub format_uint-IsDigit : (n : ℕ) → All IsDigit (format_uint n)
unfolding format_uint
format_uint-IsDigit n = format_onto-IsDigit (suc n) n [] tt
