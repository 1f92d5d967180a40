-- ===== src/ReadQuery/Field/Plain.antt =====
-- Legs of JSON paths hold no code point of an arrow, so an arrow ends them.
use myrest.Prelude.{
  ℕ, ◌≡◌, ◌≢◌, refl, true, none, some, [], ◌∷◌, ◌++◌, arith, ok, All, inl, inr, Bool-cases,
  Option-cases,
}
use myrest.Text.{Text, cut_prefix, cut_at}
use myrest.Text.Unicode.{Unicode, is_letter, is_digit}
use myrest.ReadQuery.Query.{PathStep}
use myrest.ReadQuery.Field.{
  arrow, all_digits_from, is_all_digits, identifier_rest, is_json_path_identifier, step_of_leg,
}

-- A code point that no arrow, quote or wildcard begins with.
abbrev pub Plain : ℕ → Type 0
Plain c = (c ≢ b'-') × (c ≢ b'>') × (c ≢ b'"') × (c ≢ b'*')

module _ ⦃u : Unicode⦄ where
  digit-Plain : (c : ℕ) → is_digit c ≡ true → Plain c
  unfolding is_digit
  digit-Plain c h = ground arith

  letter-Plain : (c : ℕ) → is_letter c ≡ true → Plain c
  unfolding is_letter
  letter-Plain c h = ground arith

  digits-Plain : (s : Text) → all_digits_from s ≡ true → All Plain s
  unfolding all_digits_from
  digits-Plain [] h = tt
  digits-Plain (c ∷ s) h = elim (Bool-cases (is_digit c)) [
    | inl d ↦ (digit-Plain c d, digits-Plain s (ground arith))
    | inr d ↦ absurd (ground arith)
  ]

  identifier_rest-Plain : (s : Text) → identifier_rest s ≡ true → All Plain s
  unfolding identifier_rest
  identifier_rest-Plain [] h = tt
  identifier_rest-Plain (c ∷ s) h =
      (ground (arith, digit-Plain c, letter-Plain c), identifier_rest-Plain s (ground arith))

  identifier-Plain : (s : Text) → is_json_path_identifier s ≡ true → All Plain s
  unfolding is_json_path_identifier
  identifier-Plain [] h = tt
  identifier-Plain (c ∷ s) h =
      (ground (arith, letter-Plain c), identifier_rest-Plain s (ground arith))

  pub step_of_leg-Plain :
      (leg : Text) (step : PathStep) → step_of_leg leg ≡ ok step → All Plain leg × (leg ≢ [])
  unfolding step_of_leg is_all_digits
  step_of_leg-Plain [] step h = absurd (unfold is_json_path_identifier in ground arith)
  step_of_leg-Plain (c ∷ leg) step h = elim (Bool-cases (is_all_digits (c ∷ leg))) [
    | inl digits ↦ (digits-Plain (c ∷ leg) digits, cc)
    | inr other ↦ elim (Bool-cases (is_json_path_identifier (c ∷ leg))) [
      | inl name ↦ (identifier-Plain (c ∷ leg) name, cc)
      | inr bad ↦ absurd (ground arith)
    ]
  ]

pub cut_at-Plain : (leg : Text) → All Plain leg → cut_at leg arrow ≡ none
unfolding cut_at cut_prefix
cut_at-Plain [] h = refl
cut_at-Plain (c ∷ leg) h = ground (arith, cut_at-Plain leg h.1)

pub cut_at-Plain-arrow :
    (leg rest : Text)
    → All Plain leg
    → cut_at (leg ++ (arrow ++ rest)) arrow ≡ some (leg, arrow ++ rest)
unfolding cut_at cut_prefix
cut_at-Plain-arrow [] rest h = refl
cut_at-Plain-arrow (c ∷ leg) rest h = ground (arith, cut_at-Plain-arrow leg rest h.1)

pub cut_at-append :
    (s p : Text) {front rest : Text} → cut_at s p ≡ some (front, rest) → s ≡ front ++ rest
unfolding cut_at
cut_at-append [] p h = ground arith
cut_at-append (c ∷ s) p {front} {rest} h = elim (Option-cases (cut_at s p)) [
  | inl e ↦ ground arith
  | inr ((f, r), e) ↦ ground (arith, cut_at-append s p {front = f} {rest = r} e)
]
