-- ===== src/Sql/Where.antt =====
-- internal/mysqldb/query_sql.go: the WHERE and ORDER BY clauses.
use myrest.Prelude.{Bool, List, [], ◌∷◌, ◌++◌, if◌then◌else◌, ok, ◌>>=◌}
use myrest.Text.{Text, codes, join}
use myrest.Text.Unicode.{Unicode}
use myrest.ReadQuery.Query.{Filter, Group, group, Groups, end, also, Order, Query}
use myrest.Schema.{Table}
use myrest.Sql.Failure.{Built, Arg}
use myrest.Sql.Expr.{column_expr}
use myrest.Sql.Filter.{Condition, filter_sql}

-- The conditions so far and their arguments, in order.
pub record Clause : Type 0 where
  pub parts : List Text
  pub args : List Arg

abbrev pub no_clause : Clause
no_clause = record { parts = []; args = [] }

abbrev pub add_part : Condition → Clause → Clause
add_part (sql, args) c = record { parts = sql ∷ c.parts; args = args ++ c.args }

-- `if sql == "" { continue }` of the loop over nested groups.
unfoldable pub add_group_part : Condition → Clause → Clause
add_group_part ([], args) c = c
add_group_part (ch ∷ sql, args) c = add_part (ch ∷ sql, args) c

abbrev pub join_clause : Clause → Clause → Clause
join_clause c d = record { parts = c.parts ++ d.parts; args = c.args ++ d.args }

-- The end of groupSQL.
unfoldable pub close_parts : Bool → Bool → List Text → List Arg → Condition
unfolding join
close_parts is_or negated [] args = ([], [])
close_parts is_or negated (p ∷ ps) args =
    let sql =
      codes "(" ++ (join (p ∷ ps) (if is_or then codes " OR " else codes " AND ") ++ codes ")") in
    ((if negated then codes "NOT " ++ sql else sql), args)

abbrev pub close_group : Bool → Bool → Clause → Condition
close_group is_or negated c = close_parts is_or negated c.parts c.args

-- The end of buildWhere.
unfoldable pub close_all : List Text → List Arg → Condition
unfolding join
close_all [] args = ([], [])
close_all (p ∷ ps) args = (join (p ∷ ps) (codes " AND "), args)

abbrev pub close_where : Clause → Condition
close_where c = close_all c.parts c.args

unfoldable pub direction : Bool → Text
direction desc = if desc then codes " DESC" else codes " ASC"

module _ ⦃u : Unicode⦄ where
  unfoldable pub filters_sql : Table → List Filter → Built Clause
  filters_sql table [] = ok no_clause
  filters_sql table (filter ∷ filters) = do
    condition ← filter_sql table filter
    rest ← filters_sql table filters
    ok (add_part condition rest)

  unfoldable mutual
    pub group_sql : Table → Group → Built Condition
    group_sql table (group is_or filters groups negated) = do
      c ← filters_sql table filters
      d ← groups_sql table groups
      ok (close_group is_or negated (join_clause c d))

    pub groups_sql : Table → Groups → Built Clause
    groups_sql table end = ok no_clause
    groups_sql table (also g gs) = do
      condition ← group_sql table g
      rest ← groups_sql table gs
      ok (add_group_part condition rest)

  unfoldable pub build_where : Table → Query → Built Condition
  build_where table query = do
    c ← filters_sql table query.filters
    d ← groups_sql table query.groups
    ok (close_where (join_clause c d))

unfoldable pub order_parts : Table → List Order → Built (List Text)
unfolding direction
order_parts table [] = ok []
order_parts table (order ∷ orders) = do
  expr ← column_expr table order.column order.path
  rest ← order_parts table orders
  ok ((expr ++ direction order.desc) ∷ rest)

unfoldable pub build_order : Table → List Order → Built Text
build_order table orders = do parts ← order_parts table orders; ok (join parts (codes ", "))
