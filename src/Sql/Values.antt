-- ===== src/Sql/Values.antt =====
-- internal/mysqldb/filter_sql.go: values go to the arguments of a condition, not into its text.
use myrest.Prelude.{
  ◌≡◌, refl, sym, ap, ◌∙◌, Bool, List, [], ◌∷◌, ◌++◌, arith, if◌then◌else◌, ok, ◌>>=◌, length,
  bind-eq-ok,
}
use myrest.Text.{Text, codes}
use myrest.Text.Unicode.{Unicode}
use myrest.ReadQuery.Query.{
  Operator, op_eq, op_neq, op_gt, op_gte, op_lt, op_lte, op_like, op_ilike, op_in, op_is,
  op_is_distinct, Filter,
}
use myrest.Schema.{Table}
use myrest.Sql.Expr.{column_expr}
use myrest.Sql.Filter.{
  Condition, comparison_op, comparison_sql, like_sql, placeholders, in_sql_of, in_sql, is_sql,
  distinct_sql, operator_sql, check_operator, filter_sql,
}

-- The filters differ in their values only: in the text of one value, or in those of as many.
pub record SameShape (f g : Filter) : Type 0 where
  pub column : f.column ≡ g.column
  pub path : f.path ≡ g.path
  pub op : f.op ≡ g.op
  pub negated : f.negated ≡ g.negated
  pub count : length f.values ≡ length g.values
  pub is_value : f.op ≡ op_is → f.value ≡ g.value

placeholders-length :
    (v w : Text) (vs ws : List Text)
    → length vs ≡ length ws
    → placeholders (v ∷ vs) ≡ placeholders (w ∷ ws)
unfolding placeholders
placeholders-length v w [] [] h = refl
placeholders-length v w [] (y ∷ ws) h = absurd (omega (arith, h))
placeholders-length v w (x ∷ vs) [] h = absurd (omega (arith, h))
placeholders-length v w (x ∷ vs) (y ∷ ws) h =
    ap (λ s. codes "?," ++ s) (placeholders-length x y vs ws (omega (arith, h)))

in_sql_of-length :
    (column : Text) (negated : Bool) (vs ws : List Text)
    → length vs ≡ length ws
    → (in_sql_of column negated vs).0 ≡ (in_sql_of column negated ws).0
unfolding in_sql_of
in_sql_of-length column negated [] [] h = refl
in_sql_of-length column negated [] (w ∷ ws) h = absurd (omega (arith, h))
in_sql_of-length column negated (v ∷ vs) [] h = absurd (omega (arith, h))
in_sql_of-length column negated (v ∷ vs) (w ∷ ws) h =
    ap
      (λ marks.
        if negated
        then column ++ (codes " NOT IN (" ++ (marks ++ codes ")"))
        else column ++ (codes " IN (" ++ (marks ++ codes ")")))
      (placeholders-length v w vs ws (omega (arith, h)))

module _ (column : Text) (f g : Filter) (same : SameShape f g) where
  comparison_sql-SameShape : (comparison_sql column f).0 ≡ (comparison_sql column g).0
  unfolding comparison_sql
  comparison_sql-SameShape =
      ap
        (λ op.
          let sql = column ++ (codes " " ++ (comparison_op op ++ codes " ?")) in
          if f.negated then codes "NOT (" ++ (sql ++ codes ")") else sql)
        same.op
      ∙ ap
          (λ b.
            let sql = column ++ (codes " " ++ (comparison_op g.op ++ codes " ?")) in
            if b then codes "NOT (" ++ (sql ++ codes ")") else sql)
          same.negated

  like_sql-SameShape : (like_sql column f).0 ≡ (like_sql column g).0
  unfolding like_sql
  like_sql-SameShape =
      ap (λ b. if b then column ++ codes " NOT LIKE ?" else column ++ codes " LIKE ?") same.negated

  in_sql-SameShape : (in_sql column f).0 ≡ (in_sql column g).0
  unfolding in_sql
  in_sql-SameShape =
      ap (λ b. (in_sql_of column b f.values).0) same.negated
      ∙ in_sql_of-length column g.negated f.values g.values same.count

  distinct_sql-SameShape : (distinct_sql column f).0 ≡ (distinct_sql column g).0
  unfolding distinct_sql
  distinct_sql-SameShape =
      ap (λ b. if b then column ++ codes " <=> ?" else codes "NOT (" ++ (column ++ codes " <=> ?)"))
        same.negated

  operator_sql-SameShape :
      (op : Operator) → f.op ≡ op → (operator_sql op column f).0 ≡ (operator_sql op column g).0
  unfolding operator_sql
  operator_sql-SameShape op_eq e = comparison_sql-SameShape
  operator_sql-SameShape op_neq e = comparison_sql-SameShape
  operator_sql-SameShape op_gt e = comparison_sql-SameShape
  operator_sql-SameShape op_gte e = comparison_sql-SameShape
  operator_sql-SameShape op_lt e = comparison_sql-SameShape
  operator_sql-SameShape op_lte e = comparison_sql-SameShape
  operator_sql-SameShape op_like e = like_sql-SameShape
  operator_sql-SameShape op_ilike e = like_sql-SameShape
  operator_sql-SameShape op_in e = in_sql-SameShape
  operator_sql-SameShape op_is e =
      ap (λ v. is_sql column v f.negated) (same.is_value e)
      ∙ ap (λ b. is_sql column g.value b) same.negated
  operator_sql-SameShape op_is_distinct e = distinct_sql-SameShape

module _ ⦃u : Unicode⦄ where
  -- The SQL text of a filter does not depend on its values: where it is built for one filter, it is
  -- built with the same text for every filter on the same column with the same operator, negation
  -- and number of listed values, and for is with the same keyword.
  pub filter_sql-SameShape :
      (table : Table) (f g : Filter) (a : Condition)
      → SameShape f g
      → filter_sql table f ≡ ok a
      → (b : Condition) × (filter_sql table g ≡ ok b) × (a.0 ≡ b.0)
  unfolding filter_sql
  filter_sql-SameShape table f g a same e =
      let (x, ex, rest) = bind-eq-ok (column_expr table f.column f.path) _ e in
      let (c, ec, last) = bind-eq-ok (check_operator f.op table f.column) _ rest in
      let gx : column_expr table g.column g.path ≡ ok x =
        ap (column_expr table g.column) (sym same.path)
        ∙ ap (λ name. column_expr table name f.path) (sym same.column)
        ∙ ex in
      let gc : check_operator g.op table g.column ≡ ok c =
        ap (check_operator g.op table) (sym same.column)
        ∙ ap (λ op. check_operator op table f.column) (sym same.op)
        ∙ ec in
      let built : filter_sql table g ≡ ok (operator_sql g.op x g) =
        ap
          (λ r. r >>= λ column.
            check_operator g.op table g.column >>= λ checked. ok (operator_sql g.op column g))
          gx
        ∙ ap (λ r. r >>= λ checked. ok (operator_sql g.op x g)) gc in
      let value : operator_sql f.op x f ≡ a = cc last in
      (
        operator_sql g.op x g,
        built,
        ap (λ condition. condition.0) (sym value)
            ∙ operator_sql-SameShape x f g same f.op refl
            ∙ ap (λ op. (operator_sql op x g).0) same.op,
      )
