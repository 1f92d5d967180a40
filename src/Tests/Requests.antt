-- ===== src/Tests/Requests.antt =====
-- Examples of whole requests.
use myrest.Prelude.{◌≡◌, ◌≢◌, refl, true, false, none, some, [], ◌∷◌, ok, err, length}
use myrest.Text.{codes, cut, has_suffix, contains, trim_space, split}
use myrest.Text.Unicode.{only_ascii, to_lower}
use myrest.Prefer.{count_exact}
use myrest.ReadQuery.Query.{op_gte, Query, zero_query}
use myrest.ReadQuery.Failure.{exhausted}
use myrest.ReadQuery.Field.{parse_field}
use myrest.ReadQuery.InList.{dequote_scalar_value}
use myrest.ReadQuery.Filter.{
  is_listed, strip_not, operator_and_value, classify_operator, parse_filter_value, parse_filter,
}
use myrest.ReadQuery.Order.{
  suffix_of, split_order_direction, order_of, parse_order_part, add_order, add_orders, parse_order,
  parse_limit, parse_offset, apply_count_mode,
}
use myrest.ReadQuery.SelectParts.{head_and_inner, is_embed_part, split_select_parts}
use myrest.ReadQuery.Select.{
  parse_select_part, column_of_field, add_column, add_selected, add_all, parse_select_on,
  parse_select,
}
use myrest.ReadQuery.Select.Ends.{parse_select-ne-exhausted}
use myrest.ReadQuery.EmbedParams.{add_filters, add_groups}
use myrest.ReadQuery.Presence.{
  filters_presence, is_null_check, groups_presence, embeds_presence, query_presence,
}
use myrest.ReadQuery.Parse.{
  Values, get, parse_key, parse_keys, parse_column_filters, parse_logical_groups,
  refuse_embed_presence, parse_query,
}
use myrest.ReadQuery.Parse.Ends.{parse_query-ne-exhausted}
use myrest.Sql.Failure.{text}
use myrest.Sql.Expr.{column_expr}
use myrest.Sql.Filter.{operator_sql, check_operator, filter_sql}
use myrest.Sql.Where.{close_all, filters_sql, groups_sql, build_where, order_parts, build_order}
use myrest.Sql.Columns.{resolve_column, resolve_columns}
use myrest.Sql.Select.{SqlParts, select_sql, output_names, count_sql, build_select, build_count}
use myrest.Sql.Marks.{plain, marks}
use myrest.Sql.Marks.Requests.{build_select-parse_query, build_count-parse_query}
use myrest.Tests.Data.{people}

-- ?select=name&age=gte.18&order=age.desc&limit=10
abbrev request : Values
request =
    (codes "select", codes "name" ∷ [])
    ∷ (codes "age", codes "gte.18" ∷ [])
    ∷ (codes "order", codes "age.desc" ∷ [])
    ∷ (codes "limit", codes "10" ∷ [])
    ∷ []

abbrev requested : Query
requested = record zero_query {
  columns = record { name = codes "name"; alias = []; path = none; agg = none; star = false } ∷ [];
  filters =
      record {
        column = codes "age";
        path = none;
        op = op_gte;
        value = codes "18";
        values = [];
        negated = false;
        value_quoted = false;
      }
      ∷ [];
  order = record { column = codes "age"; path = none; desc = true } ∷ [];
  limit = some 10;
  exact_count = true;
}

parse_query-request : parse_query ⦃u = only_ascii⦄ request count_exact ≡ ok requested
unfolding parse_query get parse_select parse_select_on is_listed split_select_parts add_all
    add_selected is_embed_part head_and_inner add_column parse_select_part column_of_field
    parse_field parse_order add_orders add_order parse_order_part split_order_direction suffix_of
    has_suffix to_lower order_of parse_limit parse_offset apply_count_mode parse_column_filters
    parse_keys parse_key add_filters parse_filter strip_not operator_and_value classify_operator
    parse_filter_value dequote_scalar_value parse_logical_groups add_groups refuse_embed_presence
    query_presence filters_presence is_null_check groups_presence embeds_presence contains cut
    trim_space split
parse_query-request = refl

abbrev requested_select : SqlParts
requested_select = record {
  statement =
      codes "SELECT `name` FROM `shop`.`people` WHERE `age` >= ? ORDER BY `age` DESC LIMIT 10";
  args = text (codes "18") ∷ [];
  columns = codes "name" ∷ [];
}

build_select-requested : build_select ⦃u = only_ascii⦄ people requested ≡ ok requested_select
unfolding build_select build_where filters_sql groups_sql filter_sql column_expr check_operator
    close_all operator_sql resolve_columns resolve_column order_parts build_order select_sql
    output_names
build_select-requested = refl

build_select-parse_query_example :
    marks plain requested_select.statement ≡ length requested_select.args
build_select-parse_query_example =
    build_select-parse_query ⦃u = only_ascii⦄ request count_exact requested people requested_select
      parse_query-request build_select-requested

abbrev requested_count : SqlParts
requested_count = record {
  statement = codes "SELECT COUNT(*) FROM `shop`.`people` WHERE `age` >= ?";
  args = text (codes "18") ∷ [];
  columns = [];
}

build_count-requested : build_count ⦃u = only_ascii⦄ people requested ≡ ok requested_count
unfolding build_count build_where filters_sql groups_sql filter_sql column_expr check_operator
    close_all operator_sql resolve_columns resolve_column count_sql
build_count-requested = refl

build_count-parse_query_example :
    marks plain requested_count.statement ≡ length requested_count.args
build_count-parse_query_example =
    build_count-parse_query ⦃u = only_ascii⦄ request count_exact requested people requested_count
      parse_query-request build_count-requested

parse_query-ne-exhausted_example : parse_query ⦃u = only_ascii⦄ request count_exact ≢ err exhausted
parse_query-ne-exhausted_example = parse_query-ne-exhausted ⦃u = only_ascii⦄ request count_exact

parse_select-ne-exhausted_example :
    parse_select ⦃u = only_ascii⦄ (codes "id,orders(id,items(*))") ≢ err exhausted
parse_select-ne-exhausted_example =
    parse_select-ne-exhausted ⦃u = only_ascii⦄ (codes "id,orders(id,items(*))")
