-- ===== src/Sql/Select.antt =====
-- internal/mysqldb/query_sql.go: whole statements.
use myrest.Prelude.{
  ℕ, Option, none, some, List, [], ◌∷◌, ◌++◌, map, ltb, ◌==◌, if◌then◌else◌, ok, ◌>>=◌,
}
use myrest.Text.{Text, codes, join}
use myrest.Text.Decimal.{format_uint}
use myrest.Text.Unicode.{Unicode}
use myrest.ReadQuery.Query.{Query, effective_limit}
use myrest.Schema.{Table}
use myrest.Sql.Failure.{Built, Arg}
use myrest.Sql.Expr.{quote_identifier}
use myrest.Sql.Columns.{ResolvedColumn, or_text, resolve_columns, has_aggregate}
use myrest.Sql.Where.{build_where, build_order}

pub record SqlParts : Type 0 where
  pub statement : Text
  pub args : List Arg
  pub columns : List Text

-- " AS " with the alias, if there is one.
unfoldable pub as_alias : Text → Text
unfolding quote_identifier
as_alias [] = []
as_alias (c ∷ alias) = codes " AS " ++ quote_identifier (c ∷ alias)

unfoldable pub select_list : List ResolvedColumn → Text
unfolding as_alias join
select_list columns = join (map (λ c. c.expr ++ as_alias c.alias) columns) (codes ", ")

unfoldable pub plain_exprs : List ResolvedColumn → List Text
plain_exprs [] = []
plain_exprs (column ∷ columns) =
    let rest = plain_exprs columns in if column.aggregate then rest else column.expr ∷ rest

unfoldable pub group_by_sql : List ResolvedColumn → Text
unfolding has_aggregate plain_exprs join
group_by_sql columns = if has_aggregate columns then join (plain_exprs columns) (codes ", ") else []

unfoldable pub output_names : List ResolvedColumn → List Text
unfolding or_text
output_names columns = map (λ c. or_text c.alias c.output) columns

-- A clause behind its keyword, if there is one.
unfoldable pub with_clause : Text → Text → Text
with_clause keyword [] = []
with_clause keyword (c ∷ s) = keyword ++ (c ∷ s)

unfoldable pub page_sql_of : Option ℕ → ℕ → Text
unfolding format_uint
page_sql_of none offset =
    if offset == 0 then [] else codes " LIMIT 18446744073709551615 OFFSET " ++ format_uint offset
page_sql_of (some limit) offset =
    codes " LIMIT "
    ++ (format_uint limit ++ (if ltb 0 offset then codes " OFFSET " ++ format_uint offset else []))

unfoldable pub page_sql : Query → Text
unfolding page_sql_of effective_limit
page_sql query = page_sql_of (effective_limit query) query.offset

unfoldable pub table_name : Table → Text
unfolding quote_identifier
table_name table =
    quote_identifier table.id.database ++ (codes "." ++ quote_identifier table.id.name)

unfoldable pub select_sql : Table → List ResolvedColumn → Text → Text → Query → Text
unfolding select_list table_name with_clause group_by_sql page_sql
select_sql table columns where_sql order query =
    codes "SELECT "
    ++ (select_list columns
        ++ (codes " FROM "
            ++ (table_name table
                ++ (with_clause (codes " WHERE ") where_sql
                    ++ (with_clause (codes " GROUP BY ") (group_by_sql columns)
                        ++ (with_clause (codes " ORDER BY ") order ++ page_sql query))))))

-- A count over groups, or over the one row of an aggregate.
unfoldable pub count_groups : Table → Text → Text → Text
unfolding table_name with_clause
count_groups table where_sql [] =
    codes "SELECT COUNT(*) FROM (SELECT COUNT(*) FROM "
    ++ (table_name table
        ++ (with_clause (codes " WHERE ") where_sql ++ codes ") AS `_myrest_count`"))
count_groups table where_sql (c ∷ s) =
    codes "SELECT COUNT(*) FROM (SELECT 1 FROM "
    ++ (table_name table
        ++ (with_clause (codes " WHERE ") where_sql
            ++ (codes " GROUP BY " ++ ((c ∷ s) ++ codes ") AS `_myrest_count`"))))

unfoldable pub count_sql : Table → List ResolvedColumn → Text → Text
unfolding count_groups has_aggregate group_by_sql table_name with_clause
count_sql table columns where_sql =
    if has_aggregate columns
    then count_groups table where_sql (group_by_sql columns)
    else codes "SELECT COUNT(*) FROM "
      ++ (table_name table ++ with_clause (codes " WHERE ") where_sql)

module _ ⦃u : Unicode⦄ where
  unfoldable pub build_select : Table → Query → Built SqlParts
  build_select table query = do
    columns ← resolve_columns table query
    condition ← build_where table query
    order ← build_order table query.order
    ok (record {
      statement = select_sql table columns condition.0 order query;
      args = condition.1;
      columns = output_names columns;
    })

  unfoldable pub build_count : Table → Query → Built SqlParts
  build_count table query = do
    columns ← resolve_columns table query
    condition ← build_where table query
    ok (record {
      statement = count_sql table columns condition.0;
      args = condition.1;
      columns = [];
    })
