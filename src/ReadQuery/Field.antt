-- ===== src/ReadQuery/Field.antt =====
-- internal/readquery/json_path.go: a select, filter or order field, a column name or a JSON path.
pub mod Plain
pub mod Grammar
pub mod Sound
pub mod Fuel
pub mod Names
use myrest.Prelude.{
  ℕ, zero, suc, Bool, true, false, ◌&&◌, ◌||◌, Option, none, some, List, [], ◌∷◌, ◌++◌, ◌==◌,
  if◌then◌else◌, length, Result, ok, err, ◌>>=◌,
}
use myrest.Text.{Text, codes, cut_prefix, cut_at, contains, trim_space}
use myrest.Text.Unicode.{Unicode, is_letter, is_digit}
use myrest.Text.Decimal.{atoi}
use myrest.ReadQuery.Query.{PathStep, key, index, JsonPath}
use myrest.ReadQuery.Failure.{
  Message, column_name_empty, hash_path_operators, arrow_not_final, path_needs_arrows,
  path_leg_empty, path_key_quoted, path_wildcard, path_index_out, path_no_leg, path_column_outside,
  path_key_outside, Failure, exhausted, Parsed, gap, refuse,
}

abbrev pub arrow : Text
arrow = codes "->"

abbrev pub text_arrow : Text
text_arrow = codes "->>"

abbrev pub index_or_gap : Option ℕ → Parsed PathStep
index_or_gap none = gap path_index_out
index_or_gap (some n) = ok (index n)

-- The leg and the rest: up to the next arrow, or all of it.
unfoldable pub split_leg : Text → Text × Text
unfolding cut_at
split_leg raw = elim (cut_at raw arrow) [ none ↦ (raw, []) | some p ↦ p ]

module _ ⦃u : Unicode⦄ where
  unfoldable pub all_digits_from : Text → Bool
  unfolding is_digit
  all_digits_from [] = true
  all_digits_from (c ∷ s) = is_digit c && all_digits_from s

  unfoldable pub is_all_digits : Text → Bool
  unfolding all_digits_from
  is_all_digits [] = false
  is_all_digits (c ∷ s) = all_digits_from (c ∷ s)

  unfoldable pub identifier_rest : Text → Bool
  unfolding is_digit is_letter
  identifier_rest [] = true
  identifier_rest (c ∷ s) = (is_letter c || is_digit c || c == b'_') && identifier_rest s

  unfoldable pub is_json_path_identifier : Text → Bool
  unfolding identifier_rest
  is_json_path_identifier [] = false
  is_json_path_identifier (c ∷ s) = (is_letter c || c == b'_') && identifier_rest s

  -- The end of readPathStep, on a leg that is not empty.
  unfoldable pub step_of_leg : Text → Parsed PathStep
  step_of_leg leg =
      if is_all_digits leg
      then index_or_gap (atoi leg)
      else if is_json_path_identifier leg
      then ok (key leg)
      else gap (path_key_outside leg)

  unfoldable pub step_and_rest : Text → Text → Parsed (PathStep × Text)
  step_and_rest [] rest = gap path_leg_empty
  step_and_rest (c ∷ leg) rest = do step ← step_of_leg (c ∷ leg); ok (step, rest)

  unfoldable pub read_path_step : Text → Parsed (PathStep × Text)
  unfolding step_and_rest
  read_path_step [] = gap path_leg_empty
  read_path_step (c ∷ s) =
      if c == b'"'
      then gap path_key_quoted
      else if c == b'*'
      then gap path_wildcard
      else (let (leg, rest) = split_leg (c ∷ s) in step_and_rest leg rest)

  -- The arrow at the front of `rest`: the flag of ->>, and what stands behind it.
  unfoldable pub read_arrow : Text → Parsed (Bool × Text)
  unfolding cut_prefix
  read_arrow rest = elim (cut_prefix rest text_arrow) [
    | some behind ↦ ok (true, behind)
    | none ↦ elim (cut_prefix rest arrow) [
      | some behind ↦ ok (false, behind)
      | none ↦ gap path_needs_arrows
    ]
  ]

  -- The loop of parseJSONPath on the steps so far, the AsText of the last one, and the rest.
  unfoldable pub path_loop : ℕ → List PathStep → Bool → Text → Parsed JsonPath
  path_loop fuel steps as_text [] = ok (record { steps = steps; as_text = as_text })
  path_loop fuel steps true (c ∷ s) = gap arrow_not_final
  path_loop zero steps false (c ∷ s) = err exhausted
  path_loop (suc fuel) steps false (c ∷ s) = do
    leg ← read_arrow (c ∷ s)
    read ← read_path_step leg.1
    path_loop fuel (steps ++ read.0 ∷ []) leg.0 read.1

  unfoldable pub some_leg : JsonPath → Parsed JsonPath
  some_leg path = elim path.steps [ [] ↦ gap path_no_leg | _ ∷ _ ↦ ok path ]

  -- Each round takes an arrow and a leg off the text, so its length is enough fuel.
  unfoldable pub parse_json_path : Text → Parsed JsonPath
  unfolding path_loop some_leg
  parse_json_path raw = do path ← path_loop (length raw) [] false raw; some_leg path

  unfoldable pub path_field : Text → Text → Parsed (Text × Option JsonPath)
  path_field name rest =
      if is_json_path_identifier name
      then (do path ← parse_json_path rest; ok (name, some path))
      else gap (path_column_outside name)

  unfoldable pub field_of : Text → Parsed (Text × Option JsonPath)
  unfolding path_field
  field_of [] = refuse column_name_empty
  field_of (c ∷ s) =
      if contains (c ∷ s) (codes "#>")
      then gap hash_path_operators
      else elim (cut_at (c ∷ s) arrow) [
        | none ↦ ok (c ∷ s, none)
        | some (name, rest) ↦ path_field name rest
      ]

  unfoldable pub parse_field : Text → Parsed (Text × Option JsonPath)
  unfolding field_of
  parse_field raw = field_of (trim_space raw)
