-- ===== src/ReadQuery/Filter.antt =====
-- internal/readquery/filter_parse.go: one column filter.
pub mod Ends
pub mod Print
use myrest.Prelude.{
  ℕ, zero, suc, Bool, true, false, ◌&&◌, ◌||◌, Option, none, some, List, [], ◌∷◌, ◌++◌, ◌==◌,
  if◌then◌else◌, Result, ok, err, ◌>>=◌,
}
use myrest.Text.{Text, codes, equal, cut_prefix, has_prefix, cut}
use myrest.Text.Unicode.{Unicode}
use myrest.ReadQuery.Query.{
  JsonPath, Operator, op_eq, op_neq, op_gt, op_gte, op_lt, op_lte, op_like, op_ilike, op_in, op_is,
  op_is_distinct, op_text, full_match_operators, partial_match_operators, Filter,
}
use myrest.ReadQuery.Failure.{
  Message, filter_needs_operator, operator_unknown, full_text_operators, array_operators,
  regex_operators, is_value_wrong, Failure, Parsed, gap, refuse,
}
use myrest.ReadQuery.Field.{parse_field}
use myrest.ReadQuery.InList.{dequote_scalar_value, parse_in_list}

unfoldable pub is_listed : Text → List Text → Bool
unfolding equal
is_listed s [] = false
is_listed s (t ∷ ts) = equal s t || is_listed s ts

abbrev pub is_values : List Text
is_values = codes "null" ∷ codes "not_null" ∷ codes "true" ∷ codes "false" ∷ codes "unknown" ∷ []

unfoldable pub is_is_value : Text → Bool
unfolding is_listed
is_is_value value = is_listed value is_values

-- isListedOperator, with the operator that the text names.
unfoldable pub listed_operator : Text → List Operator → Option Operator
unfolding equal op_text
listed_operator s [] = none
listed_operator s (op ∷ ops) =
    let rest = listed_operator s ops in if equal s (op_text op) then some op else rest

unfoldable pub is_full_text_search_operator : Text → Bool
unfolding is_listed
is_full_text_search_operator s =
    is_listed s (codes "fts" ∷ codes "plfts" ∷ codes "phfts" ∷ codes "wfts" ∷ [])

unfoldable pub is_array_or_range_operator : Text → Bool
unfolding is_listed
is_array_or_range_operator s = is_listed s (
    codes "cs"
    ∷ codes "cd"
    ∷ codes "ov"
    ∷ codes "sl"
    ∷ codes "sr"
    ∷ codes "nxr"
    ∷ codes "nxl"
    ∷ codes "adj"
    ∷ [])

unfoldable pub is_regex_text_operator : Text → Bool
unfolding is_listed
is_regex_text_operator s = is_listed s (codes "match" ∷ codes "imatch" ∷ [])

refuse_operator : Text → Parsed Operator
unfolding is_full_text_search_operator is_array_or_range_operator is_regex_text_operator
refuse_operator s =
    if is_full_text_search_operator s
    then gap full_text_operators
    else if is_array_or_range_operator s
    then gap array_operators
    else if is_regex_text_operator s
    then gap regex_operators
    else refuse (operator_unknown s)

unfoldable pub classify_operator : Text → Parsed Operator
unfolding listed_operator refuse_operator
classify_operator s = elim (listed_operator s full_match_operators) [
  | some op ↦ ok op
  | none ↦ elim (listed_operator s partial_match_operators) [
    | some op ↦ ok op
    | none ↦ refuse_operator s
  ]
]

-- The three cases of parseFilterValue, on the filter's operator.
unfoldable pub parse_filter_value : Operator → Filter → Text → Parsed Filter
unfolding has_prefix
parse_filter_value op_in filter value = do
  values ← parse_in_list value
  ok (record filter { values = values })
parse_filter_value op_is filter value =
    if is_is_value value then ok (record filter { value = value }) else refuse is_value_wrong
parse_filter_value _ filter value = do
  literal ← dequote_scalar_value value
  ok (record filter { value = literal; value_quoted = has_prefix value (codes "\"") })

-- A leading "not.", and what stands behind it.
unfoldable pub strip_not : Text → Bool × Text
unfolding cut_prefix
strip_not raw = elim (cut_prefix raw (codes "not.")) [
  | none ↦ (false, raw)
  | some body ↦ (true, body)
]

unfoldable pub operator_and_value : Text → Text → Parsed (Text × Text)
unfolding cut
operator_and_value column body = elim (cut body b'.') [
  | none ↦ refuse (filter_needs_operator column)
  | some p ↦ ok p
]

module _ ⦃u : Unicode⦄ where
  unfoldable pub parse_filter : Text → Text → Parsed Filter
  parse_filter column raw = do
    field ← parse_field column
    let stripped = strip_not raw
    parts ← operator_and_value column stripped.1
    op ← classify_operator parts.0
    parse_filter_value op
        (record {
          column = field.0;
          path = field.1;
          op = op;
          value = [];
          values = [];
          negated = stripped.0;
          value_quoted = false;
        })
        parts.1
