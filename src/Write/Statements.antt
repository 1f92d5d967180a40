-- ===== src/Write/Statements.antt =====
-- Every statement of a write has one placeholder for each of its arguments.
use myrest.Prelude.{
  Among, All-Among, ◌≡◌, refl, sym, subst, Option, none, some, List, [], ◌∷◌, arith, length,
  length-append, ok, All, AllOk, AllOk-bind, AllOk-any, AllOk-ok, if-both,
}
use myrest.Text.{Text, codes, join}
use myrest.Text.Unicode.{Unicode}
use myrest.Dict.{keys}
use myrest.Json.{Value}
use myrest.ReadQuery.Query.{Query}
use myrest.Schema.{Table, Column, find_column}
use myrest.Sql.Failure.{Arg, Built}
use myrest.Sql.Expr.{quote_identifier}
use myrest.Sql.Filter.{Condition}
use myrest.Sql.Where.{Clause, build_where}
use myrest.Sql.Select.{SqlParts, table_name, with_clause}
use myrest.Sql.Marks.{
  plain, marks, Marked, Marked-nil, Marked-before, Marked-after, Marked-append, marks-Marked,
}
use myrest.Sql.Marks.Pieces.{Marked-quote_identifier, Marked-placeholder, plain_text}
use myrest.Sql.Marks.Conditions.{Fits, SafeFilter}
use myrest.Sql.Marks.Clauses.{nil, join-Marked, ClauseFits, SafeGroups, build_where-Fits}
use myrest.Sql.Marks.Statements.{literal-before, with_clause-Marked, table_name-Marked}
use myrest.Write.{
  Row, OnDuplicate, duplicate_fails, duplicate_merges, duplicate_ignored, Options, write_value,
}
use myrest.Write.Insert.{
  sort_names, insert_columns, upsert_update_sets, insert_target, question_marks, upsert_args,
  upsert_values, upsert_parts, build_upsert,
}
use myrest.Write.Update.{
  assignment, set_column, set_columns, where_args, update_sql, delete_sql, build_update,
  build_delete,
}
use myrest.Write.Mutate.{Action, insert, update, delete, upsert, write_statements, alone}
use myrest.Write.Rows.Fits.{StatementsFit, insert_rows-Fit}
use myrest.Write.Marks.{
  comma, with_argument-ClauseFits, in_parentheses-Marked, insert_target-Marked,
  upsert_update_sets-Marked, on_duplicate_key-Marked, StatementFits, NoClaim,
}

question_marks-Marked : (args : List Arg) → Marked (length args) (question_marks args)
unfolding question_marks plain_text
question_marks-Marked [] = Marked-nil
question_marks-Marked (a ∷ []) = Marked-placeholder
question_marks-Marked (a ∷ b ∷ args) =
    subst (λ k. Marked k (question_marks (a ∷ b ∷ args))) (omega arith)
      (Marked-append (codes "?") _ Marked-placeholder
        (literal-before (codes ",") _ refl (question_marks-Marked (b ∷ args))))

upsert_values-Marked :
    (table : Table) (columns : List Text) (args : List Arg)
    → Marked (length args) (upsert_values table columns args)
unfolding upsert_values plain_text
upsert_values-Marked table columns args =
    Marked-before (insert_target table columns) _ (insert_target-Marked table columns) (
      literal-before (codes " VALUES ") _ refl
        (in_parentheses-Marked _ (question_marks-Marked args)))

upsert_parts-Fits :
    (resolution : OnDuplicate) (table : Table) (columns pk : List Text) (args : List Arg)
    → AllOk StatementFits (upsert_parts resolution table columns pk args)
unfolding upsert_parts plain_text
upsert_parts-Fits duplicate_fails table columns pk args = tt
upsert_parts-Fits duplicate_ignored table columns pk args =
    literal-before (codes "INSERT IGNORE INTO ") _ refl (upsert_values-Marked table columns args)
upsert_parts-Fits duplicate_merges table columns pk args =
    AllOk-bind (Marked 0) StatementFits (upsert_update_sets columns pk) _
      (upsert_update_sets-Marked columns pk)
      (λ sets h. literal-before (codes "INSERT INTO ") _ refl (
        Marked-after (upsert_values table columns args) _ (upsert_values-Marked table columns args)
          (on_duplicate_key-Marked sets h)))

build_upsert-Fits :
    (table : Table) (row : Row) (pk : List Text) (resolution : OnDuplicate)
    → AllOk StatementFits (build_upsert table row pk resolution)
unfolding build_upsert
build_upsert-Fits table [] pk resolution = tt
build_upsert-Fits table (f ∷ row) pk resolution =
    AllOk-bind NoClaim StatementFits (insert_columns table ((f ∷ row) ∷ [])) _
      (AllOk-any NoClaim (λ _. tt) (insert_columns table ((f ∷ row) ∷ [])))
      (λ columns _.
        AllOk-bind NoClaim StatementFits (upsert_args columns table (f ∷ row)) _
          (AllOk-any NoClaim (λ _. tt) (upsert_args columns table (f ∷ row)))
          (λ args _. upsert_parts-Fits resolution table columns pk args))

assignment-Marked : (name : Text) → Marked 1 (assignment name)
unfolding assignment plain_text
assignment-Marked name =
    Marked-before (quote_identifier name) _ (Marked-quote_identifier name)
      (literal-before (codes " = ") (codes "?") refl Marked-placeholder)

set_column-ClauseFits :
    (found : Option Column) (name : Text) (value : Value) (rest : Built Clause)
    → AllOk ClauseFits rest
    → AllOk ClauseFits (set_column found name value rest)
unfolding set_column
set_column-ClauseFits none name value rest h = tt
set_column-ClauseFits (some column) name value rest h =
    if-both (AllOk ClauseFits) column.generated tt (
      AllOk-bind NoClaim ClauseFits (write_value column.data_type name value) _
        (AllOk-any NoClaim (λ _. tt) (write_value column.data_type name value))
        (λ arg _.
          AllOk-bind ClauseFits ClauseFits rest _ h
            (λ r k. with_argument-ClauseFits (assignment name) arg r (assignment-Marked name) k)))

set_columns-ClauseFits :
    (names : List Text) (table : Table) (patch : Row)
    → AllOk ClauseFits (set_columns names table patch)
unfolding set_columns
set_columns-ClauseFits [] table patch = nil
set_columns-ClauseFits (name ∷ names) table patch =
    set_column-ClauseFits (find_column table.columns name) name _ _
      (set_columns-ClauseFits names table patch)

where_args-Marked :
    (condition : Condition)
    → Fits condition
    → Marked (length (where_args condition)) (with_clause (codes " WHERE ") condition.0)
unfolding where_args with_clause plain_text
where_args-Marked ([], args) h = Marked-nil
where_args-Marked (c ∷ sql, args) h = literal-before (codes " WHERE ") (c ∷ sql) refl h

-- No key of a JSON path of a filter holds a single quote or a backslash.
abbrev pub SafeConditions : Query → Type 0
SafeConditions query = All SafeFilter query.filters × SafeGroups query.groups

module _ ⦃u : Unicode⦄ where
  build_update-Fits :
      (table : Table) (patch : Row) (query : Query)
      → SafeConditions query
      → AllOk StatementFits (build_update table patch query)
  unfolding build_update update_sql plain_text
  build_update-Fits table [] query s = tt
  build_update-Fits table (f ∷ patch) query s =
      AllOk-bind ClauseFits StatementFits
        (set_columns (sort_names (keys (f ∷ patch))) table (f ∷ patch)) _
        (set_columns-ClauseFits (sort_names (keys (f ∷ patch))) table (f ∷ patch))
        (λ sets h.
          AllOk-bind Fits StatementFits (build_where table query) _
            (build_where-Fits table query s.0 s.1)
            (λ condition w.
              subst (λ k. Marked k (update_sql table sets.parts condition.0))
                (sym (length-append sets.args (where_args condition)))
                (literal-before (codes "UPDATE ") _ refl (
                  Marked-before (table_name table) _ (table_name-Marked table) (
                    literal-before (codes " SET ") _ refl (
                      Marked-append (join sets.parts (codes ", ")) _
                        (join-Marked sets.parts (codes ", ") comma h)
                        (where_args-Marked condition w)))))))

  build_delete-Fits :
      (table : Table) (query : Query)
      → SafeConditions query
      → AllOk StatementFits (build_delete table query)
  unfolding build_delete delete_sql plain_text
  build_delete-Fits table query s =
      AllOk-bind Fits StatementFits (build_where table query) _
        (build_where-Fits table query s.0 s.1)
        (λ condition w. literal-before (codes "DELETE FROM ") _ refl (
          Marked-before (table_name table) _ (table_name-Marked table)
            (with_clause-Marked (codes " WHERE ") condition.0 refl w)))

  alone-Fit :
      (built : Built SqlParts) → AllOk StatementFits built → AllOk StatementsFit (alone built)
  alone-Fit built h = AllOk-bind StatementFits StatementsFit built _ h (λ parts fits. (fits, tt))

  write_statements-Fit :
      (action : Action) (table : Table) (payload : List Row) (filter : Query) (options : Options)
      → SafeConditions filter
      → AllOk StatementsFit (write_statements action table payload filter options)
  unfolding write_statements
  write_statements-Fit insert table payload filter options s = insert_rows-Fit table payload options
  write_statements-Fit update table [] filter options s = tt
  write_statements-Fit update table (row ∷ payload) filter options s =
      alone-Fit (build_update table row filter) (build_update-Fits table row filter s)
  write_statements-Fit delete table payload filter options s =
      alone-Fit (build_delete table filter) (build_delete-Fits table filter s)
  write_statements-Fit upsert table [] filter options s = tt
  write_statements-Fit upsert table (row ∷ payload) filter options s =
      alone-Fit (build_upsert table row options.primary_key options.on_duplicate)
        (build_upsert-Fits table row options.primary_key options.on_duplicate)

  -- For every action, table, payload, filter and options, where no key of a JSON path of the filter
  -- holds a single quote or a backslash: each of the statements that are built for the write has,
  -- outside its quoted identifiers and strings, exactly one placeholder for each of its arguments,
  -- whatever the names and values of the payload hold.
  pub write_statements-marks :
      (action : Action) (table : Table) (payload : List Row) (filter : Query) (options : Options)
      (statements : List SqlParts) (parts : SqlParts)
      → SafeConditions filter
      → write_statements action table payload filter options ≡ ok statements
      → Among parts statements
      → marks plain parts.statement ≡ length parts.args
  write_statements-marks action table payload filter options statements parts s e among =
      marks-Marked parts.statement (
        All-Among StatementFits parts statements
          (AllOk-ok StatementsFit (write_statements action table payload filter options)
            (write_statements-Fit action table payload filter options s) e)
          among)
