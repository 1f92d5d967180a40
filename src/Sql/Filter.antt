-- ===== src/Sql/Filter.antt =====
-- internal/mysqldb/filter_sql.go: one filter as a condition with placeholders.
use myrest.Prelude.{
  Bool, ◌&&◌, not, none, some, List, [], ◌∷◌, ◌++◌, map, if◌then◌else◌, ok, err, ◌>>=◌,
}
use myrest.Text.{Text, codes, equal, has_suffix, replace}
use myrest.Text.Unicode.{Unicode, to_lower}
use myrest.ReadQuery.Query.{
  Operator, op_eq, op_neq, op_gt, op_gte, op_lt, op_lte, op_like, op_ilike, op_in, op_is,
  op_is_distinct, Filter,
}
use myrest.Schema.{Table, find_column}
use myrest.Sql.Failure.{
  column_not_found, unsupported_feature, ilike_collation, Built, Arg, text, null,
}
use myrest.Text.Unicode.{equal_fold}
use myrest.Sql.Expr.{column_expr}

-- A condition and its arguments.
abbrev pub Condition : Type 0
Condition = Text × List Arg

unfoldable pub comparison_op : Operator → Text
comparison_op op_eq = codes "="
comparison_op op_neq = codes "<>"
comparison_op op_gt = codes ">"
comparison_op op_gte = codes ">="
comparison_op op_lt = codes "<"
comparison_op op_lte = codes "<="
comparison_op _ = codes "="

unfoldable pub comparison_sql : Text → Filter → Condition
unfolding comparison_op
comparison_sql column filter =
    let sql = column ++ (codes " " ++ (comparison_op filter.op ++ codes " ?")) in
    ((if filter.negated then codes "NOT (" ++ (sql ++ codes ")") else sql), text filter.value ∷ [])

unfoldable pub like_sql : Text → Filter → Condition
unfolding replace
like_sql column filter = (
  (if filter.negated then column ++ codes " NOT LIKE ?" else column ++ codes " LIKE ?"),
  text (replace b'*' b'%' filter.value) ∷ [],
)

-- strings.Repeat("?,", n) without the last comma.
unfoldable pub placeholders : List Text → Text
placeholders [] = []
placeholders (v ∷ []) = codes "?"
placeholders (v ∷ w ∷ values) = codes "?," ++ placeholders (w ∷ values)

unfoldable pub in_sql_of : Text → Bool → List Text → Condition
unfolding placeholders
in_sql_of column negated [] = ((if negated then codes "1=1" else codes "0=1"), [])
in_sql_of column negated (v ∷ values) =
    let marks = placeholders (v ∷ values) in
    (
      (if negated
          then column ++ (codes " NOT IN (" ++ (marks ++ codes ")"))
          else column ++ (codes " IN (" ++ (marks ++ codes ")"))),
      map text (v ∷ values),
    )

unfoldable pub in_sql : Text → Filter → Condition
unfolding in_sql_of
in_sql column filter = in_sql_of column filter.negated filter.values

-- isPredicates: the plain and the negated predicate, both empty for a value that it lacks.
unfoldable pub is_predicates : Text → Text × Text
unfolding equal
is_predicates value =
    if equal value (codes "null")
    then (codes "IS NULL", codes "IS NOT NULL")
    else if equal value (codes "not_null")
    then (codes "IS NOT NULL", codes "IS NULL")
    else if equal value (codes "true")
    then (codes "IS TRUE", codes "IS NOT TRUE")
    else if equal value (codes "false")
    then (codes "IS FALSE", codes "IS NOT FALSE")
    else if equal value (codes "unknown")
    then (codes "IS UNKNOWN", codes "IS NOT UNKNOWN")
    else ([], [])

unfoldable pub is_sql : Text → Text → Bool → Text
unfolding is_predicates
is_sql column value negated =
    let predicate = is_predicates value in
    column ++ (codes " " ++ (if negated then predicate.1 else predicate.0))

unfoldable pub is_null_keyword : Filter → Bool
unfolding equal_fold
is_null_keyword filter = not filter.value_quoted && equal_fold filter.value (codes "null")

unfoldable pub distinct_sql : Text → Filter → Condition
unfolding is_null_keyword
distinct_sql column filter =
    let sql =
      if filter.negated
      then column ++ codes " <=> ?"
      else codes "NOT (" ++ (column ++ codes " <=> ?)") in
    (sql, (if is_null_keyword filter then null else text filter.value) ∷ [])

-- The switch of filterSQL, on the filter's operator and the column's expression.
unfoldable pub operator_sql : Operator → Text → Filter → Condition
unfolding comparison_sql like_sql in_sql is_sql distinct_sql
operator_sql op_like column filter = like_sql column filter
operator_sql op_ilike column filter = like_sql column filter
operator_sql op_in column filter = in_sql column filter
operator_sql op_is column filter = (is_sql column filter.value filter.negated, [])
operator_sql op_is_distinct column filter = distinct_sql column filter
operator_sql _ column filter = comparison_sql column filter

module _ ⦃u : Unicode⦄ where
  unfoldable pub is_case_insensitive_collation : Text → Bool
  unfolding to_lower has_suffix
  is_case_insensitive_collation collation = has_suffix (to_lower collation) (codes "_ci")

  unfoldable pub require_case_insensitive_collation : Table → Text → Built (Unit {0})
  unfolding is_case_insensitive_collation
  require_case_insensitive_collation table name = elim (find_column table.columns name) [
    | none ↦ err (column_not_found name)
    | some column ↦
        if is_case_insensitive_collation column.collation
        then ok tt
        else err (unsupported_feature ilike_collation)
  ]

  unfoldable pub check_operator : Operator → Table → Text → Built (Unit {0})
  unfolding require_case_insensitive_collation
  check_operator op_ilike table name = require_case_insensitive_collation table name
  check_operator _ table name = ok tt

  unfoldable pub filter_sql : Table → Filter → Built Condition
  filter_sql table filter = do
    column ← column_expr table filter.column filter.path
    checked ← check_operator filter.op table filter.column
    ok (operator_sql filter.op column filter)
