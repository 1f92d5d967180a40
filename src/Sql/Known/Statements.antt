-- ===== src/Sql/Known/Statements.antt =====
-- When the statements of internal/mysqldb/query_sql.go can be built.
use myrest.Prelude.{
  ◌≡◌, ◌≢◌, ◌⊎◌, inl, inr, refl, Bool, true, false, Option, none, some, List, [], ◌∷◌, ◌++◌,
  if◌then◌else◌, ok, ◌>>=◌, All,
}
use myrest.Text.{Text}
use myrest.Text.Unicode.{Unicode}
use myrest.ReadQuery.Query.{PathStep, JsonPath, Aggregate, Column, Query}
use myrest.Schema.{Table}
use myrest.Sql.Failure.{Built}
use myrest.Sql.Expr.{column_expr}
use myrest.Sql.Where.{filters_sql, groups_sql, build_where, order_parts, build_order}
use myrest.Sql.Columns.{
  star_columns, outputs, default_json_output_name, output_name, is_bare_count, reduced,
  resolve_column, resolve_each, named_results, has_embeds, columns_of, resolve_columns,
}
use myrest.Sql.Select.{SqlParts, build_select}
use myrest.Sql.Known.{
  IsOk, IsOk-bind, IsKnown, column_expr-IsOk, IsKnownFilter, IsKnownGroups, filters_sql-IsOk,
  groups_sql-IsOk, order_parts-IsOk,
}

-- A path has a step to name its result.
abbrev pub HasStep : Option JsonPath → Type 0
HasStep none = Unit
HasStep (some path) = path.steps ≢ []

-- A * part, a bare count, or a known column.
abbrev pub IsKnownColumn : Table → Column → Type 0
IsKnownColumn table column =
    (column.star ≡ true)
    ⊎ (is_bare_count column column.agg ≡ true)
    ⊎ (IsKnown table column.name column.path × HasStep column.path)

output_name-IsOk :
    (column : Column) (path : Option JsonPath) → HasStep path → IsOk (output_name column path)
unfolding output_name
output_name-IsOk column none h = (_, refl)
output_name-IsOk column (some path) h = named path.steps h
  where
    named : (steps : List PathStep) → steps ≢ [] → IsOk (default_json_output_name steps)
    named [] ne = absurd (ne refl)
    named (step ∷ steps) ne = (_, refl)

reduced-IsOk :
    (column : Column) (expr : Text) (agg : Option Aggregate)
    → HasStep column.path
    → IsOk (reduced column expr agg)
unfolding reduced
reduced-IsOk column expr (some agg) h = (_, refl)
reduced-IsOk column expr none h =
    IsOk-bind (output_name column column.path) _ (output_name-IsOk column column.path h)
      (λ output. (_, refl))

-- A conditional has a value where its branch that is taken has one.
if-IsOk :
    {A : Type 0} (b : Bool) (x y : Built A)
    → (b ≡ true → IsOk x)
    → (b ≡ false → IsOk y)
    → IsOk (if b then x else y)
if-IsOk true x y h k = h refl
if-IsOk false x y h k = k refl

resolve_column-IsOk :
    (table : Table) (column : Column)
    → column.star ≡ false
    → IsKnownColumn table column
    → IsOk (resolve_column table column)
unfolding resolve_column
resolve_column-IsOk table column star h =
    if-IsOk (is_bare_count column column.agg) _ _ (λ e. (_, refl)) (λ e. expression e h)
  where
    expression :
        is_bare_count column column.agg ≡ false
        → IsKnownColumn table column
        → IsOk
            (column_expr table column.name column.path >>= λ expr. reduced column expr column.agg)
    expression e (inl s) = absurd (cc (s, star))
    expression e (inr (inl b)) = absurd (cc (b, e))
    expression e (inr (inr (known, step))) =
        IsOk-bind (column_expr table column.name column.path) _
          (column_expr-IsOk table column.name column.path known)
          (λ expr. reduced-IsOk column expr column.agg step)

resolve_each-IsOk :
    (table : Table) (columns : List Column) (named : List Text)
    → All (IsKnownColumn table) columns
    → IsOk (resolve_each table named columns)
unfolding resolve_each
resolve_each-IsOk table [] named h = (_, refl)
resolve_each-IsOk table (column ∷ columns) named h =
    if-IsOk column.star _ _
      (λ e.
        IsOk-bind (resolve_each table (outputs (star_columns table.columns named) ++ named) columns)
          _
          (resolve_each-IsOk table columns (outputs (star_columns table.columns named) ++ named)
            h.1)
          (λ rest. (_, refl)))
      (λ e.
        IsOk-bind (resolve_column table column) _ (resolve_column-IsOk table column e h.0)
          (λ resolved.
            IsOk-bind (resolve_each table named columns) _
              (resolve_each-IsOk table columns named h.1) (λ rest. (_, refl))))

columns_of-IsOk :
    (table : Table) (query : Query) (columns : List Column)
    → All (IsKnownColumn table) columns
    → IsOk (columns_of table query columns)
unfolding columns_of
columns_of-IsOk table query [] h =
    if-IsOk (if query.select_all then false else has_embeds query.embeds) _ _ (λ e. (_, refl))
      (λ e. (_, refl))
columns_of-IsOk table query (column ∷ columns) h =
    resolve_each-IsOk table (column ∷ columns) (named_results (column ∷ columns)) h

-- The table has every column that the query names, as the query uses it.
pub record IsKnownQuery ⦃u : Unicode⦄ (table : Table) (query : Query) : Type 0 where
  pub columns : All (IsKnownColumn table) query.columns
  pub filters : All (IsKnownFilter table) query.filters
  pub groups : IsKnownGroups table query.groups
  pub order : All (λ order. IsKnown table order.column order.path) query.order

module _ ⦃u : Unicode⦄ where
  build_where-IsOk :
      (table : Table) (query : Query) → IsKnownQuery table query → IsOk (build_where table query)
  unfolding build_where
  build_where-IsOk table query h =
      IsOk-bind (filters_sql table query.filters) _ (filters_sql-IsOk table query.filters h.filters)
        (λ c.
          IsOk-bind (groups_sql table query.groups) _ (groups_sql-IsOk table query.groups h.groups)
            (λ d. (_, refl)))

  -- A SELECT is built for every query whose columns the table has: a JSON path stands on a JSON
  -- column and has a step, and an ilike filter is on a column whose collation ignores case.
  pub build_select-IsKnownQuery :
      (table : Table) (query : Query)
      → IsKnownQuery table query
      → (parts : SqlParts) × (build_select table query ≡ ok parts)
  unfolding build_select resolve_columns build_order
  build_select-IsKnownQuery table query h =
      IsOk-bind (resolve_columns table query) _
        (columns_of-IsOk table query query.columns h.columns)
        (λ columns.
          IsOk-bind (build_where table query) _ (build_where-IsOk table query h) (λ condition.
            IsOk-bind (build_order table query.order) _
              (IsOk-bind (order_parts table query.order) _
                (order_parts-IsOk table query.order h.order) (λ parts. (_, refl)))
              (λ order. (_, refl))))
