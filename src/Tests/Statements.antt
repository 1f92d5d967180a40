-- ===== src/Tests/Statements.antt =====
-- Examples of the SQL builders of internal/mysqldb.
use myrest.Prelude.{inr, ◌≡◌, refl, false, [], ◌∷◌, ok, length, arith}
use myrest.Text.{codes, equal}
use myrest.Text.Unicode.{only_ascii}
use myrest.ReadQuery.Groups.Print.{group_text}
use myrest.Schema.{find_column}
use myrest.Sql.Failure.{text}
use myrest.Text.Unicode.{equal_fold}
use myrest.Sql.Expr.{column_expr, is_json_data_type}
use myrest.Sql.Filter.{Condition, operator_sql, check_operator, filter_sql}
use myrest.Sql.Where.{
  add_group_part, close_parts, close_all, filters_sql, group_sql, build_where, order_parts,
  build_order,
}
use myrest.Sql.Columns.{resolve_column, resolve_columns}
use myrest.Sql.Select.{SqlParts, select_sql, output_names, count_sql, build_select, build_count}
use myrest.Sql.Marks.{plain, marks}
use myrest.ReadQuery.Query.{Filter}
use myrest.Sql.Values.{SameShape, filter_sql-SameShape}
use myrest.Sql.Known.Statements.{IsKnownQuery, build_select-IsKnownQuery}
use myrest.Sql.Marks.Statements.{SafeQuery, build_select-marks, build_count-marks}
use myrest.Sql.Marks.Trees.{group_sql-parse_group}
use myrest.Tests.Data.{named, tree, people, adults}
use myrest.Tests.Reading.{parse_group-tree}

adults-SafeQuery : SafeQuery adults
adults-SafeQuery = record {
  columns = (tt, (omega arith, tt));
  filters = (tt, tt);
  groups = (((tt, tt), (((tt, (tt, tt)), tt), tt)), tt);
  order = (tt, tt);
}

abbrev tree_condition : Condition
tree_condition = (
  codes "NOT (`age` >= ? AND (`name` NOT IN (?,?) OR `retired` IS NOT NULL))",
  text (codes "18") ∷ text (codes "Ann") ∷ text (codes "O,\"B") ∷ [],
)

tree_sql : group_sql ⦃u = only_ascii⦄ people tree ≡ ok tree_condition
unfolding group_sql filters_sql filter_sql column_expr check_operator close_parts add_group_part
    operator_sql
tree_sql = refl

group_sql-parse_group_example : marks plain tree_condition.0 ≡ length tree_condition.1
group_sql-parse_group_example =
    group_sql-parse_group ⦃u = only_ascii⦄ (group_text tree) false tree people tree_condition
      parse_group-tree tree_sql

abbrev adults_parts : SqlParts
adults_parts = record {
  statement =
      codes
        "SELECT `name` AS `who`, `data`->>'$.items[0]' FROM `shop`.`people` WHERE `age` >= ? AND NOT (`age` >= ? AND (`name` NOT IN (?,?) OR `retired` IS NOT NULL)) ORDER BY `age` DESC LIMIT 10 OFFSET 20";
  args = text (codes "18") ∷ text (codes "18") ∷ text (codes "Ann") ∷ text (codes "O,\"B") ∷ [];
  columns = codes "who" ∷ codes "0" ∷ [];
}

adults_select : build_select ⦃u = only_ascii⦄ people adults ≡ ok adults_parts
unfolding build_select build_where group_sql filters_sql filter_sql column_expr check_operator
    close_parts close_all add_group_part operator_sql resolve_columns resolve_column order_parts
    build_order select_sql output_names
adults_select = refl

build_select-marks_example : marks plain adults_parts.statement ≡ length adults_parts.args
build_select-marks_example =
    build_select-marks ⦃u = only_ascii⦄ people adults adults_parts adults-SafeQuery adults_select

abbrev adults_count_parts : SqlParts
adults_count_parts = record {
  statement =
      codes
        "SELECT COUNT(*) FROM `shop`.`people` WHERE `age` >= ? AND NOT (`age` >= ? AND (`name` NOT IN (?,?) OR `retired` IS NOT NULL))";
  args = adults_parts.args;
  columns = [];
}

adults_count : build_count ⦃u = only_ascii⦄ people adults ≡ ok adults_count_parts
unfolding build_count build_where group_sql filters_sql filter_sql column_expr check_operator
    close_parts close_all add_group_part operator_sql resolve_columns resolve_column count_sql
adults_count = refl

build_count-marks_example :
    marks plain adults_count_parts.statement ≡ length adults_count_parts.args
build_count-marks_example =
    build_count-marks ⦃u = only_ascii⦄ people adults adults_count_parts adults-SafeQuery
      adults_count

adults-IsKnownQuery : IsKnownQuery ⦃u = only_ascii⦄ people adults
unfolding find_column equal is_json_data_type equal_fold
adults-IsKnownQuery = record {
  columns = (inr (inr ((_, refl, tt), tt)), (inr (inr ((_, refl, refl), cc)), tt));
  filters = (((_, refl, tt), tt), tt);
  groups = (
    ((((_, refl, tt), tt), tt), ((((((_, refl, tt), tt), (((_, refl, tt), tt), tt)), tt)), tt)),
    tt,
  );
  order = ((_, refl, tt), tt);
}

build_select-IsKnownQuery_example :
    (parts : SqlParts) × (build_select ⦃u = only_ascii⦄ people adults ≡ ok parts)
build_select-IsKnownQuery_example =
    build_select-IsKnownQuery ⦃u = only_ascii⦄ people adults adults-IsKnownQuery

-- The values of another request.
abbrev renamed : Filter
renamed = record named { values = codes "Bo" ∷ codes "') OR 1=1 -- " ∷ [] }

abbrev named_condition : Condition
named_condition = (codes "`name` NOT IN (?,?)", text (codes "Ann") ∷ text (codes "O,\"B") ∷ [])

named_sql : filter_sql ⦃u = only_ascii⦄ people named ≡ ok named_condition
unfolding filter_sql column_expr find_column equal check_operator operator_sql
named_sql = refl

renamed-SameShape : SameShape named renamed
renamed-SameShape = record {
  column = refl;
  path = refl;
  op = refl;
  negated = refl;
  count = refl;
  is_value = λ e. cc;
}

filter_sql-SameShape_example :
    (b : Condition) × (filter_sql ⦃u = only_ascii⦄ people renamed ≡ ok b)
    × (named_condition.0 ≡ b.0)
filter_sql-SameShape_example =
    filter_sql-SameShape ⦃u = only_ascii⦄ people named renamed named_condition renamed-SameShape
      named_sql
