-- ===== src/ReadQuery/Field/Fuel.antt =====
-- The fuel of parseJSONPath, the length of its text, never runs out.
use myrest.Prelude.{
  ℕ, zero, suc, ◌≤◌, ◌<◌, ◌≡◌, ◌≢◌, ap, Bool, true, false, List, [], ◌∷◌, ◌++◌, arith, length,
  length-append, ok, err, inl, inr, Option-cases, Result-cases,
}
use myrest.Text.{Text, cut_at, trim_space}
use myrest.Text.Unicode.{Unicode}
use myrest.ReadQuery.Query.{PathStep}
use myrest.ReadQuery.Failure.{exhausted}
use myrest.ReadQuery.Field.Grammar.{last_arrow}
use myrest.ReadQuery.Field.Sound.{read_arrow-eq-ok, read_path_step-eq-ok}
use myrest.ReadQuery.Field.{
  arrow, split_leg, step_of_leg, step_and_rest, read_path_step, read_arrow, path_loop,
  parse_json_path, path_field, field_of, parse_field,
}

module _ ⦃u : Unicode⦄ where
  step_of_leg-ne-exhausted : (leg : Text) → step_of_leg leg ≢ err exhausted
  unfolding step_of_leg
  step_of_leg-ne-exhausted leg = ground arith

  step_and_rest-ne-exhausted : (leg rest : Text) → step_and_rest leg rest ≢ err exhausted
  unfolding step_and_rest
  step_and_rest-ne-exhausted [] rest = ground arith
  step_and_rest-ne-exhausted (c ∷ leg) rest = ground (arith, step_of_leg-ne-exhausted (c ∷ leg))

  read_path_step-ne-exhausted : (raw : Text) → read_path_step raw ≢ err exhausted
  unfolding read_path_step
  read_path_step-ne-exhausted [] = ground arith
  read_path_step-ne-exhausted (c ∷ s) =
      ground (arith, step_and_rest-ne-exhausted (split_leg (c ∷ s)).0 (split_leg (c ∷ s)).1)

  read_arrow-ne-exhausted : (rest : Text) → read_arrow rest ≢ err exhausted
  unfolding read_arrow
  read_arrow-ne-exhausted rest = ground arith

  read_round_shorter :
      (c : ℕ) (s : Text) {t : Bool} {behind tail : Text} {step : PathStep}
      → read_arrow (c ∷ s) ≡ ok (t, behind)
      → read_path_step behind ≡ ok (step, tail)
      → length tail ≤ length s
  read_round_shorter c s {t} {behind} {tail} a r =
      let (leg, _, e) = read_path_step-eq-ok behind r in
      omega (
        arith,
        ap length (read_arrow-eq-ok (c ∷ s) a),
        length-append (last_arrow t) behind,
        last_arrow_pos t,
        ap length e,
        length-append leg tail,
      )
    where
      last_arrow_pos : (t : Bool) → 0 < length (last_arrow t)
      last_arrow_pos true = omega arith
      last_arrow_pos false = omega arith

  path_loop-ne-exhausted :
      (fuel : ℕ) (acc : List PathStep) (t : Bool) (rest : Text)
      → length rest ≤ fuel
      → path_loop fuel acc t rest ≢ err exhausted
  unfolding path_loop
  path_loop-ne-exhausted zero acc t [] h = ground arith
  path_loop-ne-exhausted (suc fuel) acc t [] h = ground arith
  path_loop-ne-exhausted zero acc t (c ∷ s) h = absurd (omega arith)
  path_loop-ne-exhausted (suc fuel) acc true (c ∷ s) h = ground arith
  path_loop-ne-exhausted (suc fuel) acc false (c ∷ s) h = elim (Result-cases (read_arrow (c ∷ s))) [
    | inr (e, a) ↦ ground (arith, read_arrow-ne-exhausted (c ∷ s))
    | inl ((t, behind), a) ↦ elim (Result-cases (read_path_step behind)) [
      | inr (e, r) ↦ ground (arith, read_path_step-ne-exhausted behind)
      | inl ((step, tail), r) ↦
          let shorter = read_round_shorter c s a r in
          ground (arith, path_loop-ne-exhausted fuel (acc ++ step ∷ []) t tail (omega arith))
    ]
  ]

  pub parse_json_path-ne-exhausted : (raw : Text) → parse_json_path raw ≢ err exhausted
  unfolding parse_json_path
  parse_json_path-ne-exhausted raw =
      ground (arith, path_loop-ne-exhausted (length raw) [] false raw (omega arith))

  path_field-ne-exhausted : (name rest : Text) → path_field name rest ≢ err exhausted
  unfolding path_field
  path_field-ne-exhausted name rest = ground (arith, parse_json_path-ne-exhausted rest)

  field_of-ne-exhausted : (raw : Text) → field_of raw ≢ err exhausted
  unfolding field_of
  field_of-ne-exhausted [] = ground arith
  field_of-ne-exhausted (c ∷ s) = elim (Option-cases (cut_at (c ∷ s) arrow)) [
    | inl e ↦ ground arith
    | inr ((name, rest), e) ↦ ground (arith, path_field-ne-exhausted name rest)
  ]

  -- Every field text is read or refused: the parser of JSON paths ends on it.
  pub parse_field-ne-exhausted : (raw : Text) → parse_field raw ≢ err exhausted
  unfolding parse_field
  parse_field-ne-exhausted raw = field_of-ne-exhausted (trim_space raw)
