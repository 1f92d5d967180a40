-- ===== src/Sql/Marks/Statements.antt =====
-- A whole statement has one placeholder for each of its arguments, whatever the names hold.
use myrest.Prelude.{
  ℕ, ◌≡◌, refl, true, Option, none, some, List, [], ◌∷◌, ◌++◌, map, ltb, ◌==◌, arith, length, ok,
  All, AllOk, AllOk-bind, AllOk-ok, if-both,
}
use myrest.Text.{Text, codes}
use myrest.Text.Decimal.{format_uint}
use myrest.Text.Unicode.{Unicode}
use myrest.ReadQuery.Query.{Query, effective_limit}
use myrest.Schema.{Table}
use myrest.Sql.Expr.{quote_identifier}
use myrest.Sql.Columns.{ResolvedColumn, resolve_columns, has_aggregate}
use myrest.Sql.Where.{build_where, build_order}
use myrest.Sql.Select.{
  SqlParts, as_alias, select_list, plain_exprs, group_by_sql, with_clause, page_sql_of, page_sql,
  table_name, select_sql, count_groups, count_sql, build_select, build_count,
}
use myrest.Sql.Marks.{plain, marks, Marked, Marked-nil, Marked-before, Marked-after, marks-Marked}
use myrest.Sql.Marks.Pieces.{
  Marked-literal, Marked-quote_identifier, Marked-format_uint, plain_text,
}
use myrest.Sql.Marks.Conditions.{Fits, SafeFilter}
use myrest.Sql.Marks.Clauses.{PartsMarked, nil, cons, join-Marked, SafeGroups, build_where-Fits}
use myrest.Sql.Marks.Columns.{
  ExprMarked, SafeColumn, SafeOrder, resolve_columns-ExprMarked, build_order-Marked,
}

pub literal-before : {n : ℕ} (s t : Text) → plain_text s ≡ true → Marked n t → Marked n (s ++ t)
literal-before s t h k = Marked-before s t (Marked-literal s h) k

as_alias-Marked : (alias : Text) → Marked 0 (as_alias alias)
unfolding as_alias plain_text
as_alias-Marked [] = Marked-nil
as_alias-Marked (c ∷ alias) =
    literal-before (codes " AS ") _ refl (Marked-quote_identifier (c ∷ alias))

select_list-Marked :
    (columns : List ResolvedColumn) → All ExprMarked columns → Marked 0 (select_list columns)
unfolding select_list plain_text
select_list-Marked columns h =
    join-Marked (map (λ c. c.expr ++ as_alias c.alias) columns) (codes ", ")
      (Marked-literal (codes ", ") refl) (go columns h)
  where
    go :
        (columns : List ResolvedColumn)
        → All ExprMarked columns
        → PartsMarked 0 (map (λ c. c.expr ++ as_alias c.alias) columns)
    go [] h = nil
    go (c ∷ columns) h =
        cons (Marked-after c.expr _ h.0 (as_alias-Marked c.alias)) (go columns h.1) (omega arith)

plain_exprs-PartsMarked :
    (columns : List ResolvedColumn) → All ExprMarked columns → PartsMarked 0 (plain_exprs columns)
unfolding plain_exprs
plain_exprs-PartsMarked [] h = nil
plain_exprs-PartsMarked (column ∷ columns) h =
    if-both (PartsMarked 0) column.aggregate (plain_exprs-PartsMarked columns h.1)
      (cons h.0 (plain_exprs-PartsMarked columns h.1) (omega arith))

group_by_sql-Marked :
    (columns : List ResolvedColumn) → All ExprMarked columns → Marked 0 (group_by_sql columns)
unfolding group_by_sql plain_text
group_by_sql-Marked columns h =
    if-both (Marked 0) (has_aggregate columns)
      (join-Marked (plain_exprs columns) (codes ", ") (Marked-literal (codes ", ") refl)
        (plain_exprs-PartsMarked columns h))
      Marked-nil

pub with_clause-Marked :
    {n : ℕ} (keyword s : Text)
    → plain_text keyword ≡ true
    → Marked n s
    → Marked n (with_clause keyword s)
unfolding with_clause
with_clause-Marked keyword [] k h = h
with_clause-Marked keyword (c ∷ s) k h = literal-before keyword (c ∷ s) k h

page_sql_of-Marked : (limit : Option ℕ) (offset : ℕ) → Marked 0 (page_sql_of limit offset)
unfolding page_sql_of plain_text
page_sql_of-Marked none offset = if-both (Marked 0) (offset == 0) Marked-nil (
    literal-before (codes " LIMIT 18446744073709551615 OFFSET ") _ refl (Marked-format_uint offset))
page_sql_of-Marked (some limit) offset = literal-before (codes " LIMIT ") _ refl (
    Marked-before (format_uint limit) _ (Marked-format_uint limit) (
      if-both (Marked 0) (ltb 0 offset)
        (literal-before (codes " OFFSET ") _ refl (Marked-format_uint offset)) Marked-nil))

pub table_name-Marked : (table : Table) → Marked 0 (table_name table)
unfolding table_name plain_text
table_name-Marked table =
    Marked-before (quote_identifier table.id.database) _ (Marked-quote_identifier table.id.database)
      (literal-before (codes ".") _ refl (Marked-quote_identifier table.id.name))

select_sql-Marked :
    {n : ℕ} (table : Table) (columns : List ResolvedColumn) (where_sql order : Text) (query : Query)
    → All ExprMarked columns
    → Marked n where_sql
    → Marked 0 order
    → Marked n (select_sql table columns where_sql order query)
unfolding select_sql page_sql plain_text
select_sql-Marked table columns where_sql order query c w o =
    literal-before (codes "SELECT ") _ refl (
      Marked-before (select_list columns) _ (select_list-Marked columns c) (
        literal-before (codes " FROM ") _ refl (
          Marked-before (table_name table) _ (table_name-Marked table) (
            Marked-after (with_clause (codes " WHERE ") where_sql) _
              (with_clause-Marked (codes " WHERE ") where_sql refl w)
              (Marked-before (with_clause (codes " GROUP BY ") (group_by_sql columns)) _
                (with_clause-Marked (codes " GROUP BY ") (group_by_sql columns) refl
                  (group_by_sql-Marked columns c))
                (Marked-before (with_clause (codes " ORDER BY ") order) _
                  (with_clause-Marked (codes " ORDER BY ") order refl o)
                  (page_sql_of-Marked (effective_limit query) query.offset)))))))

-- What ends a count over groups.
count_end : Marked 0 (codes ") AS `_myrest_count`")
unfolding marks
count_end = record { counts = λ rest. omega arith }

count_groups-Marked :
    {n : ℕ} (table : Table) (where_sql group : Text)
    → Marked n where_sql
    → Marked 0 group
    → Marked n (count_groups table where_sql group)
unfolding count_groups plain_text
count_groups-Marked table where_sql [] w g =
    literal-before (codes "SELECT COUNT(*) FROM (SELECT COUNT(*) FROM ") _ refl (
      Marked-before (table_name table) _ (table_name-Marked table) (
        Marked-after (with_clause (codes " WHERE ") where_sql) _
          (with_clause-Marked (codes " WHERE ") where_sql refl w) count_end))
count_groups-Marked table where_sql (c ∷ s) w g =
    literal-before (codes "SELECT COUNT(*) FROM (SELECT 1 FROM ") _ refl (
      Marked-before (table_name table) _ (table_name-Marked table) (
        Marked-after (with_clause (codes " WHERE ") where_sql) _
          (with_clause-Marked (codes " WHERE ") where_sql refl w)
          (literal-before (codes " GROUP BY ") _ refl (Marked-after (c ∷ s) _ g count_end))))

count_sql-Marked :
    {n : ℕ} (table : Table) (columns : List ResolvedColumn) (where_sql : Text)
    → All ExprMarked columns
    → Marked n where_sql
    → Marked n (count_sql table columns where_sql)
unfolding count_sql plain_text
count_sql-Marked {n = n} table columns where_sql c w =
    if-both (Marked n) (has_aggregate columns)
      (count_groups-Marked table where_sql (group_by_sql columns) w (group_by_sql-Marked columns c))
      (literal-before (codes "SELECT COUNT(*) FROM ") _ refl (
        Marked-before (table_name table) _ (table_name-Marked table)
          (with_clause-Marked (codes " WHERE ") where_sql refl w)))

-- No key of a JSON path of the query holds a single quote or a backslash.
pub record SafeQuery (query : Query) : Type 0 where
  pub columns : All SafeColumn query.columns
  pub filters : All SafeFilter query.filters
  pub groups : SafeGroups query.groups
  pub order : All SafeOrder query.order

abbrev Balanced : SqlParts → Type 0
Balanced parts = marks plain parts.statement ≡ length parts.args

module _ ⦃u : Unicode⦄ where
  build_select-Balanced :
      (table : Table) (query : Query) → SafeQuery query → AllOk Balanced (build_select table query)
  unfolding build_select
  build_select-Balanced table query s =
      AllOk-bind (All ExprMarked) Balanced (resolve_columns table query) _
        (resolve_columns-ExprMarked table query s.columns)
        (λ columns c.
          AllOk-bind Fits Balanced (build_where table query) _
            (build_where-Fits table query s.filters s.groups)
            (λ condition w.
              AllOk-bind (Marked 0) Balanced (build_order table query.order) _
                (build_order-Marked table query.order s.order)
                (λ order o.
                  marks-Marked _ (select_sql-Marked table columns condition.0 order query c w o))))

  build_count-Balanced :
      (table : Table) (query : Query) → SafeQuery query → AllOk Balanced (build_count table query)
  unfolding build_count
  build_count-Balanced table query s =
      AllOk-bind (All ExprMarked) Balanced (resolve_columns table query) _
        (resolve_columns-ExprMarked table query s.columns)
        (λ columns c.
          AllOk-bind Fits Balanced (build_where table query) _
            (build_where-Fits table query s.filters s.groups)
            (λ condition w. marks-Marked _ (count_sql-Marked table columns condition.0 c w)))

  -- A SELECT statement that is built for a query whose JSON paths have no quote and no backslash
  -- in their keys has, outside its quoted identifiers and strings, exactly one placeholder for
  -- each of its arguments, whatever the names and values of the query hold.
  pub build_select-marks :
      (table : Table) (query : Query) (parts : SqlParts)
      → SafeQuery query
      → build_select table query ≡ ok parts
      → marks plain parts.statement ≡ length parts.args
  build_select-marks table query parts s e =
      AllOk-ok Balanced (build_select table query) (build_select-Balanced table query s) e

  -- A COUNT statement that is built for such a query, too, has exactly one placeholder for each of
  -- its arguments.
  pub build_count-marks :
      (table : Table) (query : Query) (parts : SqlParts)
      → SafeQuery query
      → build_count table query ≡ ok parts
      → marks plain parts.statement ≡ length parts.args
  build_count-marks table query parts s e =
      AllOk-ok Balanced (build_count table query) (build_count-Balanced table query s) e
