-- ===== src/Sql/Marks/Conditions.antt =====
-- The placeholders of one condition, one for each of its arguments.
use myrest.Prelude.{
  ℕ, suc, ◌+◌, ◌≡◌, refl, sym, ap, subst, Bool, true, List, [], ◌∷◌, ◌++◌, arith, if◌then◌else◌,
  length, length-map, AllOk, AllOk-bind, AllOk-any, if-both,
}
use myrest.Text.{Text, codes, equal}
use myrest.Text.Unicode.{Unicode}
use myrest.ReadQuery.Query.{
  Operator, op_eq, op_neq, op_gt, op_gte, op_lt, op_lte, op_like, op_ilike, op_in, op_is,
  op_is_distinct, Filter,
}
use myrest.Schema.{Table}
use myrest.Sql.Failure.{text}
use myrest.Sql.Expr.{column_expr}
use myrest.Sql.Filter.{
  Condition, comparison_op, comparison_sql, like_sql, placeholders, in_sql_of, in_sql,
  is_predicates, is_sql, distinct_sql, operator_sql, check_operator, filter_sql,
}
use myrest.Sql.Marks.{Marked, Marked-nil, Marked-before, Marked-after, Marked-append}
use myrest.Sql.Marks.Pieces.{
  Marked-literal, Marked-placeholder, SafePath, column_expr-Marked, plain_text,
}

-- As many placeholders as arguments.
abbrev pub Fits : Condition → Type 0
Fits c = Marked (length c.1) c.0

Marked-around :
    {n : ℕ} (before s behind : Text)
    → plain_text before ≡ true
    → Marked n s
    → plain_text behind ≡ true
    → Marked n (before ++ (s ++ behind))
Marked-around before s behind b h e =
    Marked-before before _ (Marked-literal before b)
      (Marked-after s behind h (Marked-literal behind e))

-- A literal with one placeholder at its end.
Marked-one : (s : Text) → plain_text s ≡ true → Marked 1 (s ++ codes "?")
Marked-one s h = Marked-before s _ (Marked-literal s h) Marked-placeholder

Marked-next : {n : ℕ} (s t : Text) → Marked 1 s → Marked n t → Marked (suc n) (s ++ t)
Marked-next {n} s t a b =
    let e : 1 + n ≡ suc n = omega arith in subst (λ k. Marked k (s ++ t)) e (Marked-append s t a b)

module _ (column : Text) (c : Marked 0 column) where
  Marked-behind : {n : ℕ} (s : Text) → Marked n s → Marked n (column ++ s)
  Marked-behind s h = Marked-before column s c h

  comparison_op-plain : (op : Operator) → Marked 0 (comparison_op op)
  unfolding comparison_op plain_text
  comparison_op-plain op_eq = Marked-literal _ refl
  comparison_op-plain op_neq = Marked-literal _ refl
  comparison_op-plain op_gt = Marked-literal _ refl
  comparison_op-plain op_gte = Marked-literal _ refl
  comparison_op-plain op_lt = Marked-literal _ refl
  comparison_op-plain op_lte = Marked-literal _ refl
  comparison_op-plain op_like = Marked-literal _ refl
  comparison_op-plain op_ilike = Marked-literal _ refl
  comparison_op-plain op_in = Marked-literal _ refl
  comparison_op-plain op_is = Marked-literal _ refl
  comparison_op-plain op_is_distinct = Marked-literal _ refl

  comparison_sql-Fits : (filter : Filter) → Fits (comparison_sql column filter)
  unfolding comparison_sql plain_text
  comparison_sql-Fits filter =
      if-both (Marked 1) filter.negated
        (Marked-around (codes "NOT (") _ (codes ")") refl inner refl) inner
    where
      inner : Marked 1 (column ++ (codes " " ++ (comparison_op filter.op ++ codes " ?")))
      inner = Marked-behind _ (
          Marked-before (codes " ") _ (Marked-literal (codes " ") refl) (
            Marked-before (comparison_op filter.op) _ (comparison_op-plain filter.op)
              (Marked-one (codes " ") refl)))

  like_sql-Fits : (filter : Filter) → Fits (like_sql column filter)
  unfolding like_sql plain_text
  like_sql-Fits filter =
      if-both (Marked 1) filter.negated (Marked-behind _ (Marked-one (codes " NOT LIKE ") refl))
        (Marked-behind _ (Marked-one (codes " LIKE ") refl))

  placeholders-Marked :
      (v : Text) (values : List Text) → Marked (suc (length values)) (placeholders (v ∷ values))
  unfolding placeholders plain_text
  placeholders-Marked v [] = Marked-placeholder
  placeholders-Marked v (w ∷ values) =
      Marked-next (codes "?,") _
        (Marked-after (codes "?") (codes ",") Marked-placeholder (Marked-literal (codes ",") refl))
        (placeholders-Marked w values)

  in_sql_of-Fits : (negated : Bool) (values : List Text) → Fits (in_sql_of column negated values)
  unfolding in_sql_of plain_text
  in_sql_of-Fits negated [] =
      if-both (Marked 0) negated (Marked-literal (codes "1=1") refl)
        (Marked-literal (codes "0=1") refl)
  in_sql_of-Fits negated (v ∷ values) =
      subst (λ n. Marked n (in_sql_of column negated (v ∷ values)).0)
        (ap suc (sym (length-map text values)))
        (if-both (Marked (suc (length values))) negated
          (Marked-behind _ (
            Marked-around (codes " NOT IN (") _ (codes ")") refl (placeholders-Marked v values)
              refl))
          (Marked-behind _
            (Marked-around (codes " IN (") _ (codes ")") refl (placeholders-Marked v values) refl)))

  -- Both predicates are without placeholders.
  record Predicates (p : Text × Text) : Type 0 where
    straight : Marked 0 p.0
    reversed : Marked 0 p.1

  Predicates-if :
      (b : Bool) (s t : Text) {rest : Text × Text}
      → plain_text s ≡ true
      → plain_text t ≡ true
      → Predicates rest
      → Predicates (if b then (s, t) else rest)
  Predicates-if b s t h k r =
      if-both Predicates b (record { straight = Marked-literal s h; reversed = Marked-literal t k })
        r

  is_predicates-Predicates : (value : Text) → Predicates (is_predicates value)
  unfolding is_predicates plain_text
  is_predicates-Predicates value =
      Predicates-if (equal value (codes "null")) (codes "IS NULL") (codes "IS NOT NULL") refl refl (
        Predicates-if (equal value (codes "not_null")) (codes "IS NOT NULL") (codes "IS NULL") refl
          refl
          (Predicates-if (equal value (codes "true")) (codes "IS TRUE") (codes "IS NOT TRUE") refl
            refl
            (Predicates-if (equal value (codes "false")) (codes "IS FALSE") (codes "IS NOT FALSE")
              refl refl
              (Predicates-if (equal value (codes "unknown")) (codes "IS UNKNOWN")
                (codes "IS NOT UNKNOWN") refl refl
                (record { straight = Marked-nil; reversed = Marked-nil })))))

  is_sql-Marked : (value : Text) (negated : Bool) → Marked 0 (is_sql column value negated)
  unfolding is_sql plain_text
  is_sql-Marked value negated = Marked-behind _ (
      Marked-before (codes " ") _ (Marked-literal (codes " ") refl) (
        if-both (Marked 0) negated (is_predicates-Predicates value).reversed
          (is_predicates-Predicates value).straight))

  distinct_sql-Fits : (filter : Filter) → Fits (distinct_sql column filter)
  unfolding distinct_sql plain_text
  distinct_sql-Fits filter =
      if-both (Marked 1) filter.negated (Marked-behind _ (Marked-one (codes " <=> ") refl)) (
        Marked-before (codes "NOT (") _ (Marked-literal (codes "NOT (") refl) (
          Marked-behind _ (
            Marked-after (codes " <=> ?") (codes ")") (Marked-one (codes " <=> ") refl)
              (Marked-literal (codes ")") refl))))

  operator_sql-Fits : (op : Operator) (filter : Filter) → Fits (operator_sql op column filter)
  unfolding operator_sql in_sql
  operator_sql-Fits op_eq filter = comparison_sql-Fits filter
  operator_sql-Fits op_neq filter = comparison_sql-Fits filter
  operator_sql-Fits op_gt filter = comparison_sql-Fits filter
  operator_sql-Fits op_gte filter = comparison_sql-Fits filter
  operator_sql-Fits op_lt filter = comparison_sql-Fits filter
  operator_sql-Fits op_lte filter = comparison_sql-Fits filter
  operator_sql-Fits op_like filter = like_sql-Fits filter
  operator_sql-Fits op_ilike filter = like_sql-Fits filter
  operator_sql-Fits op_in filter = in_sql_of-Fits filter.negated filter.values
  operator_sql-Fits op_is filter = is_sql-Marked filter.value filter.negated
  operator_sql-Fits op_is_distinct filter = distinct_sql-Fits filter

abbrev pub SafeFilter : Filter → Type 0
SafeFilter filter = SafePath filter.path

module _ ⦃u : Unicode⦄ where
  -- The condition of a filter has one placeholder for each of its arguments.
  pub filter_sql-Fits :
      (table : Table) (filter : Filter) → SafeFilter filter → AllOk Fits (filter_sql table filter)
  unfolding filter_sql
  filter_sql-Fits table filter s =
      AllOk-bind (Marked 0) Fits (column_expr table filter.column filter.path) _
        (column_expr-Marked table filter.column filter.path s)
        (λ column c.
          AllOk-bind (λ x. Unit {0}) Fits (check_operator filter.op table filter.column) _
            (AllOk-any _ (λ x. tt) _) (λ x y. operator_sql-Fits column c filter.op filter))
