-- ===== src/ReadQuery/Filter/Ends.antt =====
-- The parser of a filter always reads or refuses.
use myrest.Prelude.{
  ℕ, ◌≢◌, Option, none, some, [], ◌∷◌, ◌++◌, arith, ok, err, inl, inr, Option-cases, Result-cases,
  if-ne,
}
use myrest.Text.{Text, codes, cut_prefix, cut_suffix}
use myrest.Text.Unicode.{Unicode}
use myrest.ReadQuery.Query.{
  Filter, Operator, op_in, op_is, full_match_operators, partial_match_operators,
}
use myrest.ReadQuery.Failure.{exhausted, Parsed}
use myrest.ReadQuery.Field.{parse_field}
use myrest.ReadQuery.Field.Fuel.{parse_field-ne-exhausted}
use myrest.ReadQuery.InList.{
  read_quoted, dequote_scalar_value, Csv, csv_step, csv_loop, csv_start, split_csv, parse_in_list,
}
use myrest.ReadQuery.Filter.{
  strip_not, operator_and_value, listed_operator, refuse_operator, classify_operator,
  parse_filter_value, parse_filter, is_full_text_search_operator, is_array_or_range_operator,
  is_regex_text_operator,
}

read_quoted-ne-exhausted : (literal s : Text) → read_quoted literal s ≢ err exhausted
unfolding read_quoted
read_quoted-ne-exhausted literal [] = ground arith
read_quoted-ne-exhausted literal (c ∷ []) = ground arith
read_quoted-ne-exhausted literal (c ∷ d ∷ s) = ground (
  arith,
  read_quoted-ne-exhausted (literal ++ b'"' ∷ []) s,
  read_quoted-ne-exhausted (literal ++ c ∷ []) (d ∷ s),
)

dequote_scalar_value-ne-exhausted : (value : Text) → dequote_scalar_value value ≢ err exhausted
unfolding dequote_scalar_value
dequote_scalar_value-ne-exhausted [] = ground arith
dequote_scalar_value-ne-exhausted (c ∷ body) = ground (arith, read_quoted-ne-exhausted [] body)

csv_step-ne-exhausted : (s : Csv) (ch : ℕ) → csv_step s ch ≢ err exhausted
unfolding csv_step
csv_step-ne-exhausted s ch = ground arith

csv_loop-ne-exhausted : (raw : Text) (s : Csv) → csv_loop s raw ≢ err exhausted
unfolding csv_loop
csv_loop-ne-exhausted [] s = ground arith
csv_loop-ne-exhausted (ch ∷ raw) s = elim (Result-cases (csv_step s ch)) [
  | inl (t, e) ↦ ground (arith, csv_loop-ne-exhausted raw t)
  | inr (f, e) ↦ ground (arith, csv_step-ne-exhausted s ch)
]

parse_in_list-ne-exhausted : (raw : Text) → parse_in_list raw ≢ err exhausted
unfolding parse_in_list split_csv
parse_in_list-ne-exhausted raw = elim (Option-cases (cut_prefix raw (codes "("))) [
  | inl e ↦ ground arith
  | inr (body, e) ↦ elim (Option-cases (cut_suffix body (codes ")"))) [
    | inl e' ↦ ground arith
    | inr ([], e') ↦ ground arith
    | inr (c ∷ inner, e') ↦ ground (arith, csv_loop-ne-exhausted (c ∷ inner) csv_start)
  ]
]

parse_filter_value-ne-exhausted :
    (op : Operator) (filter : Filter) (value : Text)
    → parse_filter_value op filter value ≢ err exhausted
unfolding parse_filter_value
parse_filter_value-ne-exhausted op_in filter value =
    ground (arith, parse_in_list-ne-exhausted value)
parse_filter_value-ne-exhausted op_is filter value = ground arith
parse_filter_value-ne-exhausted _ filter value =
    ground (arith, dequote_scalar_value-ne-exhausted value)

refuse_operator-ne-exhausted : (s : Text) → refuse_operator s ≢ err exhausted
unfolding refuse_operator
refuse_operator-ne-exhausted s = if-ne (is_full_text_search_operator s) (ground arith) (
    if-ne (is_array_or_range_operator s) (ground arith)
      (if-ne (is_regex_text_operator s) (ground arith) (ground arith)))

or_else-ne-exhausted :
    (first second : Option Operator) (last : Parsed Operator)
    → last ≢ err exhausted
    → elim first [ some op ↦ ok op | none ↦ elim second [ some op ↦ ok op | none ↦ last ] ]
      ≢ err exhausted
or_else-ne-exhausted (some op) second last h = ground arith
or_else-ne-exhausted none (some op) last h = ground arith
or_else-ne-exhausted none none last h = h

classify_operator-ne-exhausted : (s : Text) → classify_operator s ≢ err exhausted
unfolding classify_operator
classify_operator-ne-exhausted s =
    or_else-ne-exhausted (listed_operator s full_match_operators)
      (listed_operator s partial_match_operators) (refuse_operator s)
      (refuse_operator-ne-exhausted s)

operator_and_value-ne-exhausted :
    (column body : Text) → operator_and_value column body ≢ err exhausted
unfolding operator_and_value
operator_and_value-ne-exhausted column body = ground arith

module _ ⦃u : Unicode⦄ where
  pub parse_filter-ne-exhausted : (column raw : Text) → parse_filter column raw ≢ err exhausted
  unfolding parse_filter
  parse_filter-ne-exhausted column raw = elim (Result-cases (parse_field column)) [
    | inr (f, e) ↦ ground (arith, parse_field-ne-exhausted column)
    | inl (field, e) ↦ elim (Result-cases (operator_and_value column (strip_not raw).1)) [
      | inr (f, e') ↦ ground (arith, operator_and_value-ne-exhausted column (strip_not raw).1)
      | inl (parts, e') ↦ elim (Result-cases (classify_operator parts.0)) [
        | inr (f, e'') ↦ ground (arith, classify_operator-ne-exhausted parts.0)
        | inl (op, e'') ↦ rw (e, e', e'') (parse_filter_value-ne-exhausted op _ parts.1)
      ]
    ]
  ]
