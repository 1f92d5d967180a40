-- ===== src/Sql/Known.antt =====
-- When the conditions of internal/mysqldb/query_sql.go and filter_sql.go can be built.
pub mod Statements
use myrest.Prelude.{
  ℕ, ◌≡◌, ◌≢◌, ◌⊎◌, inl, inr, refl, sym, ap, ◌∙◌, subst, Bool, true, false, Option, none, some,
  List, [], ◌∷◌, ◌++◌, if◌then◌else◌, Result, ok, err, ◌>>=◌, All, Bool-cases,
}
use myrest.Text.{Text}
use myrest.Text.Unicode.{Unicode}
use myrest.ReadQuery.Query.{
  PathStep, JsonPath, Aggregate, agg_count, Column, Operator, op_eq, op_neq, op_gt, op_gte, op_lt,
  op_lte, op_like, op_ilike, op_in, op_is, op_is_distinct, Filter, Group, group, Groups, end, also,
  Order, Query,
}
use myrest.Schema.{Table, Column as TableColumn, find_column}
use myrest.Sql.Failure.{SqlFailure, Built}
use myrest.Sql.Expr.{is_json_data_type, json_path_sql, path_expr, found_expr, column_expr}
use myrest.Sql.Filter.{
  is_case_insensitive_collation, require_case_insensitive_collation, check_operator, filter_sql,
}
use myrest.Sql.Where.{filters_sql, group_sql, groups_sql, build_where, order_parts, build_order}
use myrest.Sql.Columns.{
  star_columns, outputs, default_json_output_name, output_name, is_bare_count, reduced,
  resolve_column, resolve_each, named_results, has_embeds, columns_of, resolve_columns,
}
use myrest.Sql.Select.{SqlParts, build_select, build_count}

-- The computation has a value.
abbrev pub IsOk : {A : Type 0} → Built A → Type 0
IsOk {A} m = (a : A) × (m ≡ ok a)

pub IsOk-bind :
    {A B : Type 0} (m : Built A) (f : A → Built B)
    → IsOk m
    → ((a : A) → IsOk (f a))
    → IsOk (m >>= f)
IsOk-bind m f (a, e) k = let (b, h) = k a in (b, ap (λ r. r >>= f) e ∙ h)

if-true : {A : Type 0} (b : Bool) (x y : A) → b ≡ true → (if b then x else y) ≡ x
if-true b x y h = ap (λ c. if c then x else y) h

-- The table has the column, and a path stands on a JSON column only.
abbrev pub PathFits : TableColumn → Option JsonPath → Type 0
PathFits column none = Unit
PathFits column (some path) = is_json_data_type column.data_type ≡ true

abbrev pub IsKnown : Table → Text → Option JsonPath → Type 0
IsKnown table name path =
    (column : TableColumn) × (find_column table.columns name ≡ some column) × PathFits column path

path_expr-IsOk :
    (column : TableColumn) (name : Text) (path : Option JsonPath)
    → PathFits column path
    → IsOk (path_expr column name path)
unfolding path_expr
path_expr-IsOk column name none h = (_, refl)
path_expr-IsOk column name (some path) h =
    (json_path_sql name path, if-true (is_json_data_type column.data_type) _ _ h)

pub column_expr-IsOk :
    (table : Table) (name : Text) (path : Option JsonPath)
    → IsKnown table name path
    → IsOk (column_expr table name path)
unfolding column_expr found_expr
column_expr-IsOk table name path (column, e, h) =
    let (sql, f) = path_expr-IsOk column name path h in (sql, ap (found_expr name path) e ∙ f)

module _ ⦃u : Unicode⦄ where
  -- An ilike filter wants a column whose collation ignores case.
  abbrev pub OperatorFits : Operator → Table → Text → Type 0
  OperatorFits op_ilike table name =
      (column : TableColumn) × (find_column table.columns name ≡ some column)
      × (is_case_insensitive_collation column.collation ≡ true)
  OperatorFits _ table name = Unit

  abbrev pub IsKnownFilter : Table → Filter → Type 0
  IsKnownFilter table filter =
      IsKnown table filter.column filter.path × OperatorFits filter.op table filter.column

  abbrev mutual
    pub IsKnownGroup : Table → Group → Type 0
    IsKnownGroup table (group is_or filters groups negated) =
        All (IsKnownFilter table) filters × IsKnownGroups table groups

    pub IsKnownGroups : Table → Groups → Type 0
    IsKnownGroups table end = Unit
    IsKnownGroups table (also g gs) = IsKnownGroup table g × IsKnownGroups table gs

  collation-IsOk :
      (table : Table) (name : Text)
      → OperatorFits op_ilike table name
      → IsOk (require_case_insensitive_collation table name)
  unfolding require_case_insensitive_collation
  collation-IsOk table name (column, e, h) = (
    tt,
    rw (e, require_case_insensitive_collation)
        (if-true (is_case_insensitive_collation column.collation) _ _ h),
  )

  check_operator-IsOk :
      (op : Operator) (table : Table) (name : Text)
      → OperatorFits op table name
      → IsOk (check_operator op table name)
  unfolding check_operator
  check_operator-IsOk op_ilike table name h = collation-IsOk table name h
  check_operator-IsOk op_eq table name h = (tt, refl)
  check_operator-IsOk op_neq table name h = (tt, refl)
  check_operator-IsOk op_gt table name h = (tt, refl)
  check_operator-IsOk op_gte table name h = (tt, refl)
  check_operator-IsOk op_lt table name h = (tt, refl)
  check_operator-IsOk op_lte table name h = (tt, refl)
  check_operator-IsOk op_like table name h = (tt, refl)
  check_operator-IsOk op_in table name h = (tt, refl)
  check_operator-IsOk op_is table name h = (tt, refl)
  check_operator-IsOk op_is_distinct table name h = (tt, refl)

  filter_sql-IsOk :
      (table : Table) (filter : Filter)
      → IsKnownFilter table filter
      → IsOk (filter_sql table filter)
  unfolding filter_sql
  filter_sql-IsOk table filter h =
      IsOk-bind (column_expr table filter.column filter.path) _
        (column_expr-IsOk table filter.column filter.path h.0)
        (λ column.
          IsOk-bind (check_operator filter.op table filter.column) _
            (check_operator-IsOk filter.op table filter.column h.1) (λ checked. (_, refl)))

  pub filters_sql-IsOk :
      (table : Table) (filters : List Filter)
      → All (IsKnownFilter table) filters
      → IsOk (filters_sql table filters)
  unfolding filters_sql
  filters_sql-IsOk table [] h = (_, refl)
  filters_sql-IsOk table (filter ∷ filters) h =
      IsOk-bind (filter_sql table filter) _ (filter_sql-IsOk table filter h.0) (λ condition.
        IsOk-bind (filters_sql table filters) _ (filters_sql-IsOk table filters h.1)
          (λ rest. (_, refl)))

  mutual
    unfolding group_sql

    pub group_sql-IsOk :
        (table : Table) (g : Group) → IsKnownGroup table g → IsOk (group_sql table g)
    group_sql-IsOk table (group is_or filters groups negated) h =
        IsOk-bind (filters_sql table filters) _ (filters_sql-IsOk table filters h.0) (λ c.
          IsOk-bind (groups_sql table groups) _ (groups_sql-IsOk table groups h.1) (λ d. (_, refl)))

    pub groups_sql-IsOk :
        (table : Table) (gs : Groups) → IsKnownGroups table gs → IsOk (groups_sql table gs)
    groups_sql-IsOk table end h = (_, refl)
    groups_sql-IsOk table (also g gs) h =
        IsOk-bind (group_sql table g) _ (group_sql-IsOk table g h.0) (λ condition.
          IsOk-bind (groups_sql table gs) _ (groups_sql-IsOk table gs h.1) (λ rest. (_, refl)))

pub order_parts-IsOk :
    (table : Table) (orders : List Order)
    → All (λ order. IsKnown table order.column order.path) orders
    → IsOk (order_parts table orders)
unfolding order_parts
order_parts-IsOk table [] h = (_, refl)
order_parts-IsOk table (order ∷ orders) h =
    IsOk-bind (column_expr table order.column order.path) _
      (column_expr-IsOk table order.column order.path h.0)
      (λ expr.
        IsOk-bind (order_parts table orders) _ (order_parts-IsOk table orders h.1)
          (λ rest. (_, refl)))
