-- ===== src/Sql/Columns.antt =====
-- internal/mysqldb/query_sql.go: the select list, with * parts and aggregates.
use myrest.Prelude.{
  ℕ, Bool, true, false, ◌&&◌, ◌||◌, Option, none, some, List, [], ◌∷◌, ◌++◌, map, ◌-◌, leb,
  if◌then◌else◌, ok, err, ◌>>=◌,
}
use myrest.Text.{Text, codes, equal}
use myrest.Text.Decimal.{format_uint}
use myrest.ReadQuery.Query.{
  PathStep, key, index, JsonPath, Aggregate, agg_count, agg_text, Column, Embeds, done, more, Query,
}
use myrest.Schema.{Table, Column as TableColumn}
use myrest.Sql.Failure.{out_of_range, Built}
use myrest.Sql.Expr.{quote_identifier, column_expr}

pub record ResolvedColumn : Type 0 where
  pub expr : Text
  pub output : Text
  pub alias : Text
  pub aggregate : Bool

unfoldable pub step_name : PathStep → Text
unfolding format_uint
step_name (index n) = format_uint n
step_name (key k) = k

-- The name of the last step, or `name` if there is no step.
unfoldable pub last_step_name : Text → List PathStep → Text
unfolding step_name
last_step_name name [] = name
last_step_name name (step ∷ []) = step_name step
last_step_name name (step ∷ next ∷ steps) = last_step_name name (next ∷ steps)

path_name : Text → Option JsonPath → Text
unfolding last_step_name
path_name name none = name
path_name name (some path) = last_step_name name path.steps

agg_or_path_name : Column → Option Aggregate → Text
unfolding path_name agg_text
agg_or_path_name column (some agg) = agg_text agg
agg_or_path_name column none = path_name column.name column.path

-- The text, or the other one if it is empty.
unfoldable pub or_text : Text → Text → Text
or_text [] other = other
or_text (c ∷ s) other = c ∷ s

-- Column.ResultName.
unfoldable pub result_name : Column → Text
unfolding or_text agg_or_path_name
result_name column = or_text column.alias (agg_or_path_name column column.agg)

-- A map[string]bool of which only the true keys are asked for.
unfoldable pub holds : List Text → Text → Bool
unfolding equal
holds [] name = false
holds (n ∷ names) name = equal n name || holds names name

unfoldable pub named_results : List Column → List Text
unfolding result_name
named_results [] = []
named_results (column ∷ columns) =
    let rest = named_results columns in if column.star then rest else result_name column ∷ rest

unfoldable pub star_columns : List TableColumn → List Text → List ResolvedColumn
unfolding holds quote_identifier
star_columns [] skip = []
star_columns (column ∷ columns) skip =
    let rest = star_columns columns skip in
    if holds skip column.name
    then rest
    else record {
      expr = quote_identifier column.name;
      output = column.name;
      alias = [];
      aggregate = false;
    }
      ∷ rest

-- strings.ToUpper of an aggregate's name.
unfoldable pub upper_rune : ℕ → ℕ
upper_rune c = if leb b'a' c && leb c b'z' then c - 32 else c

unfoldable pub aggregate_expr : Aggregate → Text → Text
unfolding upper_rune agg_text
aggregate_expr agg expr = map upper_rune (agg_text agg) ++ (codes "(" ++ (expr ++ codes ")"))

unfoldable pub aggregate_alias : Column → Aggregate → Text
unfolding or_text agg_text
aggregate_alias column agg = or_text column.alias (agg_text agg)

-- defaultJSONOutputName, which reads the last step.
unfoldable pub default_json_output_name : List PathStep → Built Text
unfolding last_step_name
default_json_output_name [] = err out_of_range
default_json_output_name (step ∷ steps) = ok (last_step_name [] (step ∷ steps))

unfoldable pub output_name : Column → Option JsonPath → Built Text
unfolding default_json_output_name
output_name column none = ok column.name
output_name column (some path) = default_json_output_name path.steps

-- count() with no column.
unfoldable pub is_bare_count : Column → Option Aggregate → Bool
is_bare_count column (some agg_count) = elim column.name [
  | [] ↦ elim column.path [ none ↦ true | some path ↦ false ]
  | c ∷ s ↦ false
]
is_bare_count column _ = false

unfoldable pub reduced : Column → Text → Option Aggregate → Built ResolvedColumn
unfolding aggregate_expr aggregate_alias result_name output_name
reduced column expr (some agg) = ok (record {
  expr = aggregate_expr agg expr;
  output = result_name column;
  alias = aggregate_alias column agg;
  aggregate = true;
})
reduced column expr none = do
  output ← output_name column column.path
  ok (record { expr = expr; output = output; alias = column.alias; aggregate = false })

unfoldable pub resolve_column : Table → Column → Built ResolvedColumn
unfolding is_bare_count reduced result_name aggregate_alias
resolve_column table column =
    if is_bare_count column column.agg
    then ok (record {
      expr = codes "COUNT(*)";
      output = result_name column;
      alias = aggregate_alias column agg_count;
      aggregate = true;
    })
    else do expr ← column_expr table column.name column.path; reduced column expr column.agg

unfoldable pub outputs : List ResolvedColumn → List Text
outputs columns = map (λ c. c.output) columns

-- The loop of resolveColumns; `named` holds the names that a * part leaves out.
unfoldable pub resolve_each : Table → List Text → List Column → Built (List ResolvedColumn)
unfolding star_columns outputs
resolve_each table named [] = ok []
resolve_each table named (column ∷ columns) =
    let expanded = star_columns table.columns named in
    let starred =
      resolve_each table (outputs expanded ++ named) columns >>= λ rest. ok (expanded ++ rest) in
    let plain = resolve_column table column >>= λ resolved.
    resolve_each table named columns >>= λ rest. ok (resolved ∷ rest) in
    if column.star then starred else plain

unfoldable pub has_embeds : Embeds → Bool
has_embeds done = false
has_embeds (more e es) = true

unfoldable pub columns_of : Table → Query → List Column → Built (List ResolvedColumn)
unfolding has_embeds resolve_each named_results star_columns
columns_of table query [] =
    if (if query.select_all then false else has_embeds query.embeds)
    then ok []
    else ok (star_columns table.columns [])
columns_of table query (column ∷ columns) =
    resolve_each table (named_results (column ∷ columns)) (column ∷ columns)

unfoldable pub resolve_columns : Table → Query → Built (List ResolvedColumn)
unfolding columns_of
resolve_columns table query = columns_of table query query.columns

unfoldable pub has_aggregate : List ResolvedColumn → Bool
has_aggregate [] = false
has_aggregate (column ∷ columns) = column.aggregate || has_aggregate columns
