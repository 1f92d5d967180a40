-- ===== src/Sql/Marks/Columns.antt =====
-- The select list and the GROUP BY and ORDER BY clauses hold no placeholder.
use myrest.Prelude.{
  ◌≡◌, refl, true, false, Option, none, some, List, [], ◌∷◌, ◌++◌, map, arith, if◌then◌else◌, All,
  All-append, AllOk, AllOk-bind, AllOk-any, if-both,
}
use myrest.Text.{Text, codes}
use myrest.ReadQuery.Query.{
  Aggregate, agg_count, agg_sum, agg_avg, agg_min, agg_max, agg_text, Column, Query, Order,
}
use myrest.Schema.{Table, Column as TableColumn}
use myrest.Sql.Expr.{column_expr}
use myrest.Sql.Columns.{
  ResolvedColumn, holds, star_columns, upper_rune, aggregate_expr, output_name, is_bare_count,
  reduced, resolve_column, outputs, resolve_each, named_results, has_embeds, columns_of,
  resolve_columns,
}
use myrest.Sql.Where.{direction, order_parts, build_order}
use myrest.Sql.Marks.{Marked, Marked-before, Marked-after}
use myrest.Sql.Marks.Pieces.{
  Marked-literal, Marked-quote_identifier, SafePath, column_expr-Marked, plain_text,
}
use myrest.Sql.Marks.Clauses.{PartsMarked, nil, cons, join-Marked}

-- The expression of a column holds no placeholder.
abbrev pub ExprMarked : ResolvedColumn → Type 0
ExprMarked column = Marked 0 column.expr

abbrev pub SafeColumn : Column → Type 0
SafeColumn column = SafePath column.path

star_columns-ExprMarked :
    (columns : List TableColumn) (skip : List Text) → All ExprMarked (star_columns columns skip)
unfolding star_columns
star_columns-ExprMarked [] skip = tt
star_columns-ExprMarked (column ∷ columns) skip =
    if-both (All ExprMarked) (holds skip column.name) (star_columns-ExprMarked columns skip)
      (Marked-quote_identifier column.name, star_columns-ExprMarked columns skip)

upper_name-plain : (agg : Aggregate) → plain_text (map upper_rune (agg_text agg)) ≡ true
unfolding upper_rune agg_text plain_text
upper_name-plain agg_count = refl
upper_name-plain agg_sum = refl
upper_name-plain agg_avg = refl
upper_name-plain agg_min = refl
upper_name-plain agg_max = refl

aggregate_expr-Marked :
    (agg : Aggregate) (expr : Text) → Marked 0 expr → Marked 0 (aggregate_expr agg expr)
unfolding aggregate_expr plain_text
aggregate_expr-Marked agg expr h =
    Marked-before (map upper_rune (agg_text agg)) _ (Marked-literal _ (upper_name-plain agg)) (
      Marked-before (codes "(") _ (Marked-literal (codes "(") refl)
        (Marked-after expr (codes ")") h (Marked-literal (codes ")") refl)))

reduced-ExprMarked :
    (column : Column) (expr : Text) (agg : Option Aggregate)
    → Marked 0 expr
    → AllOk ExprMarked (reduced column expr agg)
unfolding reduced
reduced-ExprMarked column expr (some agg) h = aggregate_expr-Marked agg expr h
reduced-ExprMarked column expr none h =
    AllOk-bind (λ x. Unit {0}) ExprMarked (output_name column column.path) _
      (AllOk-any _ (λ x. tt) _) (λ output x. h)

resolve_column-ExprMarked :
    (table : Table) (column : Column)
    → SafeColumn column
    → AllOk ExprMarked (resolve_column table column)
unfolding resolve_column plain_text
resolve_column-ExprMarked table column s =
    if-both (AllOk ExprMarked) (is_bare_count column column.agg)
      (Marked-literal (codes "COUNT(*)") refl)
      (AllOk-bind (Marked 0) ExprMarked (column_expr table column.name column.path) _
        (column_expr-Marked table column.name column.path s)
        (λ expr h. reduced-ExprMarked column expr column.agg h))

resolve_each-ExprMarked :
    (table : Table) (named : List Text) (columns : List Column)
    → All SafeColumn columns
    → AllOk (All ExprMarked) (resolve_each table named columns)
unfolding resolve_each
resolve_each-ExprMarked table named [] s = tt
resolve_each-ExprMarked table named (column ∷ columns) s =
    if-both (AllOk (All ExprMarked)) column.star
      (AllOk-bind (All ExprMarked) (All ExprMarked)
        (resolve_each table (outputs (star_columns table.columns named) ++ named) columns) _
        (resolve_each-ExprMarked table (outputs (star_columns table.columns named) ++ named) columns
          s.1)
        (λ rest h.
          All-append ExprMarked (star_columns table.columns named) rest
            (star_columns-ExprMarked table.columns named) h))
      (AllOk-bind ExprMarked (All ExprMarked) (resolve_column table column) _
        (resolve_column-ExprMarked table column s.0)
        (λ resolved h.
          AllOk-bind (All ExprMarked) (All ExprMarked) (resolve_each table named columns) _
            (resolve_each-ExprMarked table named columns s.1) (λ rest k. (h, k))))

columns_of-ExprMarked :
    (table : Table) (query : Query) (columns : List Column)
    → All SafeColumn columns
    → AllOk (All ExprMarked) (columns_of table query columns)
unfolding columns_of
columns_of-ExprMarked table query [] s =
    if-both (AllOk (All ExprMarked)) (if query.select_all then false else has_embeds query.embeds)
      tt (star_columns-ExprMarked table.columns [])
columns_of-ExprMarked table query (column ∷ columns) s =
    resolve_each-ExprMarked table (named_results (column ∷ columns)) (column ∷ columns) s

pub resolve_columns-ExprMarked :
    (table : Table) (query : Query)
    → All SafeColumn query.columns
    → AllOk (All ExprMarked) (resolve_columns table query)
unfolding resolve_columns
resolve_columns-ExprMarked table query s = columns_of-ExprMarked table query query.columns s

abbrev pub SafeOrder : Order → Type 0
SafeOrder order = SafePath order.path

order_parts-PartsMarked :
    (table : Table) (orders : List Order)
    → All SafeOrder orders
    → AllOk (PartsMarked 0) (order_parts table orders)
unfolding order_parts direction plain_text
order_parts-PartsMarked table [] s = nil
order_parts-PartsMarked table (order ∷ orders) s =
    AllOk-bind (Marked 0) (PartsMarked 0) (column_expr table order.column order.path) _
      (column_expr-Marked table order.column order.path s.0)
      (λ expr h.
        AllOk-bind (PartsMarked 0) (PartsMarked 0) (order_parts table orders) _
          (order_parts-PartsMarked table orders s.1)
          (λ rest k.
            cons
              (Marked-after expr _ h (
                if-both (Marked 0) order.desc (Marked-literal (codes " DESC") refl)
                  (Marked-literal (codes " ASC") refl)))
              k (omega arith)))

pub build_order-Marked :
    (table : Table) (orders : List Order)
    → All SafeOrder orders
    → AllOk (Marked 0) (build_order table orders)
unfolding build_order plain_text
build_order-Marked table orders s =
    AllOk-bind (PartsMarked 0) (Marked 0) (order_parts table orders) _
      (order_parts-PartsMarked table orders s)
      (λ parts h. join-Marked parts (codes ", ") (Marked-literal (codes ", ") refl) h)
