-- ===== src/Sql/Expr.antt =====
-- internal/mysqldb/query_sql.go and read.go: identifiers, JSON paths and column expressions.
use myrest.Prelude.{Bool, Option, none, some, List, [], ◌∷◌, ◌++◌, ◌==◌, if◌then◌else◌, ok, err}
use myrest.Text.{Text, codes}
use myrest.Text.Unicode.{equal_fold}
use myrest.Text.Decimal.{format_uint}
use myrest.ReadQuery.Query.{PathStep, key, index, JsonPath}
use myrest.Schema.{Table, Column as TableColumn, find_column}
use myrest.Sql.Failure.{column_not_found, unsupported_feature, path_on_non_json, Built}

-- A back quote of the name is written twice.
unfoldable pub escape_ticks : Text → Text
escape_ticks [] = []
escape_ticks (c ∷ s) =
    let rest = escape_ticks s in if c == b'`' then b'`' ∷ b'`' ∷ rest else c ∷ rest

unfoldable pub quote_identifier : Text → Text
unfolding escape_ticks
quote_identifier name = b'`' ∷ (escape_ticks name ++ codes "`")

unfoldable pub is_json_data_type : Text → Bool
unfolding equal_fold
is_json_data_type data_type = equal_fold data_type (codes "json")

unfoldable pub step_sql : PathStep → Text
unfolding format_uint
step_sql (index n) = b'[' ∷ (format_uint n ++ codes "]")
step_sql (key k) = b'.' ∷ k

unfoldable pub steps_sql : List PathStep → Text
unfolding step_sql
steps_sql [] = []
steps_sql (step ∷ steps) = step_sql step ++ steps_sql steps

unfoldable pub mysql_json_path : JsonPath → Text
unfolding steps_sql
mysql_json_path path = b'$' ∷ steps_sql path.steps

unfoldable pub json_path_sql : Text → JsonPath → Text
unfolding quote_identifier mysql_json_path
json_path_sql column path =
    quote_identifier column
    ++ ((if path.as_text then codes "->>" else codes "->")
        ++ (codes "'" ++ (mysql_json_path path ++ codes "'")))

unfoldable pub path_expr : TableColumn → Text → Option JsonPath → Built Text
unfolding quote_identifier is_json_data_type json_path_sql
path_expr column name none = ok (quote_identifier name)
path_expr column name (some path) =
    if is_json_data_type column.data_type
    then ok (json_path_sql name path)
    else err (unsupported_feature path_on_non_json)

unfoldable pub found_expr : Text → Option JsonPath → Option TableColumn → Built Text
unfolding path_expr
found_expr name path none = err (column_not_found name)
found_expr name path (some column) = path_expr column name path

unfoldable pub column_expr : Table → Text → Option JsonPath → Built Text
unfolding found_expr find_column
column_expr table name path = found_expr name path (find_column table.columns name)
