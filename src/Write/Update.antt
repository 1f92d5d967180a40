-- ===== src/Write/Update.antt =====
-- internal/mysqldb/write.go: the UPDATE and DELETE statements.
use myrest.Prelude.{Option, none, some, List, [], ◌∷◌, ◌++◌, if◌then◌else◌, ok, err, ◌>>=◌}
use myrest.Text.{Text, codes, join}
use myrest.Text.Unicode.{Unicode}
use myrest.Dict.{text_eq, find, keys}
use myrest.Json.{Value}
use myrest.ReadQuery.Query.{Query}
use myrest.Schema.{Table, Column, find_column}
use myrest.Sql.Failure.{
  Arg, Built, column_not_found, unsupported_feature, internal_error, update_generated,
}
use myrest.Sql.Expr.{quote_identifier}
use myrest.Sql.Filter.{Condition}
use myrest.Sql.Where.{Clause, no_clause, build_where}
use myrest.Sql.Select.{SqlParts, table_name, with_clause}
use myrest.Write.{Row, write_value}
use myrest.Write.Insert.{sort_names, or_null, with_argument}

unfoldable pub assignment : Text → Text
unfolding quote_identifier
assignment name = quote_identifier name ++ codes " = ?"

-- One column of the patch, ahead of the rest.
unfoldable pub set_column : Option Column → Text → Value → Built Clause → Built Clause
unfolding assignment with_argument
set_column none name value rest = err (column_not_found name)
set_column (some column) name value rest =
    if column.generated then err (unsupported_feature (update_generated name)) else do
      arg ← write_value column.data_type name value
      r ← rest
      ok (with_argument (assignment name) arg r)

unfoldable pub set_columns : List Text → Table → Row → Built Clause
set_columns [] table patch = ok no_clause
set_columns (name ∷ names) table patch =
    set_column (find_column table.columns name) name (or_null (find patch name))
      (set_columns names table patch)

-- The condition and its arguments, where there is a condition.
unfoldable pub where_args : Condition → List Arg
where_args ([], args) = []
where_args (c ∷ sql, args) = args

unfoldable pub update_sql : Table → List Text → Text → Text
unfolding table_name join with_clause
update_sql table sets where_sql =
    codes "UPDATE "
    ++ (table_name table
        ++ (codes " SET " ++ (join sets (codes ", ") ++ with_clause (codes " WHERE ") where_sql)))

unfoldable pub delete_sql : Table → Text → Text
unfolding table_name with_clause
delete_sql table where_sql =
    codes "DELETE FROM " ++ (table_name table ++ with_clause (codes " WHERE ") where_sql)

module _ ⦃u : Unicode⦄ where
  unfoldable pub build_update : Table → Row → Query → Built SqlParts
  unfolding sort_names
  build_update table [] query = err (internal_error (codes "update needs at least one column"))
  build_update table (f ∷ patch) query = do
    sets ← set_columns (sort_names (keys (f ∷ patch))) table (f ∷ patch)
    condition ← build_where table query
    ok (record {
      statement = update_sql table sets.parts condition.0;
      args = sets.args ++ where_args condition;
      columns = [];
    })

  unfoldable pub build_delete : Table → Query → Built SqlParts
  build_delete table query = do
    condition ← build_where table query
    ok (record { statement = delete_sql table condition.0; args = condition.1; columns = [] })
