-- ===== src/Write/Marks.antt =====
-- The INSERT statements have one placeholder for each of their arguments.
use myrest.Prelude.{
  ℕ, ◌≡◌, refl, Bool, true, false, List, [], ◌∷◌, ◌++◌, arith, length, length-append, AllOk,
  AllOk-bind, AllOk-any, if-both,
}
use myrest.Text.{Text, codes, trim_prefix, cut_prefix}
use myrest.Dict.{text_eq, holds, add_all}
use myrest.Schema.{Table}
use myrest.Sql.Failure.{Arg, Built}
use myrest.Sql.Expr.{quote_identifier}
use myrest.Sql.Where.{Clause}
use myrest.Sql.Select.{SqlParts, table_name}
use myrest.Sql.Marks.{Marked, Marked-before, Marked-after}
use myrest.Sql.Marks.Pieces.{
  Marked-literal, Marked-quote_identifier, Marked-placeholder, plain_text,
}
use myrest.Sql.Marks.Clauses.{PartsMarked, nil, cons, join-Marked, ClauseFits}
use myrest.Sql.Marks.Statements.{literal-before, table_name-Marked}
use myrest.Write.{Row, OnDuplicate, duplicate_fails, duplicate_merges, duplicate_ignored}
use myrest.Write.Insert.{
  with_argument, place, row_values, in_parentheses, with_row, rows_values, quoted_names, insert_sql,
  build_insert, update_set, update_sets, first_or, sets_or_first, upsert_update_sets,
  on_duplicate_key, merge_insert, on_duplicate_insert, insert_target,
}

pub comma : Marked 0 (codes ", ")
unfolding plain_text
comma = Marked-literal (codes ", ") refl

pub with_argument-ClauseFits :
    (placeholder : Text) (arg : Arg) (rest : Clause)
    → Marked 1 placeholder
    → ClauseFits rest
    → ClauseFits (with_argument placeholder arg rest)
unfolding with_argument
with_argument-ClauseFits placeholder arg rest h k = cons h k (omega arith)

place-ClauseFits :
    (missing : Bool) (arg : Built Arg) (rest : Built Clause)
    → AllOk ClauseFits rest
    → AllOk ClauseFits (place missing arg rest)
unfolding place plain_text
place-ClauseFits true arg rest h =
    AllOk-bind ClauseFits ClauseFits rest _ h
      (λ r k. cons (Marked-literal (codes "DEFAULT") refl) k (omega arith))
place-ClauseFits false arg rest h =
    AllOk-bind (λ _. Unit {0}) ClauseFits arg _ (AllOk-any (λ _. Unit {0}) (λ _. tt) arg)
      (λ a _.
        AllOk-bind ClauseFits ClauseFits rest _ h
          (λ r k. with_argument-ClauseFits (codes "?") a r Marked-placeholder k))

row_values-ClauseFits :
    (names : List Text) (table : Table) (missing_default : Bool) (row : Row)
    → AllOk ClauseFits (row_values names table missing_default row)
unfolding row_values
row_values-ClauseFits [] table missing_default row = nil
row_values-ClauseFits (name ∷ names) table missing_default row =
    place-ClauseFits _ _ _ (row_values-ClauseFits names table missing_default row)

pub in_parentheses-Marked : {n : ℕ} (s : Text) → Marked n s → Marked n (in_parentheses s)
unfolding plain_text
in_parentheses-Marked s h =
    literal-before (codes "(") _ refl (Marked-after s _ h (Marked-literal (codes ")") refl))

rows_values-ClauseFits :
    (rows : List Row) (table : Table) (columns : List Text) (missing_default : Bool)
    → AllOk ClauseFits (rows_values rows table columns missing_default)
unfolding rows_values with_row
rows_values-ClauseFits [] table columns missing_default = nil
rows_values-ClauseFits (row ∷ rows) table columns missing_default =
    AllOk-bind ClauseFits ClauseFits (row_values columns table missing_default row) _
      (row_values-ClauseFits columns table missing_default row)
      (λ one h.
        AllOk-bind ClauseFits ClauseFits (rows_values rows table columns missing_default) _
          (rows_values-ClauseFits rows table columns missing_default)
          (λ rest k.
            cons (in_parentheses-Marked _ (join-Marked one.parts (codes ", ") comma h)) k
              (length-append one.args rest.args)))

quoted_names-PartsMarked : (names : List Text) → PartsMarked 0 (quoted_names names)
unfolding quoted_names
quoted_names-PartsMarked [] = nil
quoted_names-PartsMarked (name ∷ names) =
    cons (Marked-quote_identifier name) (quoted_names-PartsMarked names) (omega arith)

pub insert_target-Marked :
    (table : Table) (columns : List Text) → Marked 0 (insert_target table columns)
unfolding insert_target plain_text
insert_target-Marked table columns = Marked-before (table_name table) _ (table_name-Marked table) (
    literal-before (codes " ") _ refl (
      in_parentheses-Marked _
        (join-Marked (quoted_names columns) (codes ", ") comma (quoted_names-PartsMarked columns))))

-- A statement with one placeholder for each argument; behind INSERT, where it is an insert.
abbrev pub StatementFits : SqlParts → Type 0
StatementFits parts = Marked (length parts.args) parts.statement

abbrev pub InsertFits : SqlParts → Type 0
InsertFits parts =
    (tail : Text) × (parts.statement ≡ codes "INSERT INTO " ++ tail)
    × Marked (length parts.args) tail

pub build_insert-InsertFits :
    (table : Table) (columns : List Text) (rows : List Row) (missing_default : Bool)
    → AllOk InsertFits (build_insert table columns rows missing_default)
unfolding build_insert insert_sql plain_text
build_insert-InsertFits table columns rows missing_default =
    AllOk-bind ClauseFits InsertFits (rows_values rows table columns missing_default) _
      (rows_values-ClauseFits rows table columns missing_default)
      (λ values h. (
        _,
        refl,
        Marked-before (insert_target table columns) _ (insert_target-Marked table columns) (
            literal-before (codes " VALUES ") _ refl
              (join-Marked values.parts (codes ", ") comma h)),
      ))

update_set-Marked : (name : Text) → Marked 0 (update_set name)
unfolding update_set plain_text
update_set-Marked name = Marked-before (quote_identifier name) _ (Marked-quote_identifier name) (
    literal-before (codes " = ") _ refl (
      Marked-before (quote_identifier (codes "new")) _ (Marked-quote_identifier (codes "new"))
        (literal-before (codes ".") _ refl (Marked-quote_identifier name))))

update_sets-PartsMarked : (columns pk : List Text) → PartsMarked 0 (update_sets columns pk)
unfolding update_sets
update_sets-PartsMarked [] pk = nil
update_sets-PartsMarked (name ∷ columns) pk =
    if-both (PartsMarked 0) (holds pk name) (update_sets-PartsMarked columns pk)
      (cons (update_set-Marked name) (update_sets-PartsMarked columns pk) (omega arith))

sets_or_first-Marked :
    (sets columns pk : List Text)
    → PartsMarked 0 sets
    → AllOk (Marked 0) (sets_or_first sets columns pk)
unfolding sets_or_first
sets_or_first-Marked (set ∷ sets) columns pk h = join-Marked (set ∷ sets) (codes ", ") comma h
sets_or_first-Marked [] columns [] h = tt
sets_or_first-Marked [] columns (key ∷ pk) h =
    join-Marked (update_set (first_or key columns) ∷ []) (codes ", ") comma
      (cons (update_set-Marked (first_or key columns)) nil (omega arith))

pub upsert_update_sets-Marked :
    (columns pk : List Text) → AllOk (Marked 0) (upsert_update_sets columns pk)
unfolding upsert_update_sets
upsert_update_sets-Marked columns pk =
    sets_or_first-Marked _ columns pk (update_sets-PartsMarked columns (add_all pk []))

pub on_duplicate_key-Marked : (sets : Text) → Marked 0 sets → Marked 0 (on_duplicate_key sets)
unfolding on_duplicate_key plain_text
on_duplicate_key-Marked sets h = literal-before (codes " AS ") _ refl (
    Marked-before (quote_identifier (codes "new")) _ (Marked-quote_identifier (codes "new"))
      (literal-before (codes " ON DUPLICATE KEY UPDATE ") _ refl h))

pub insert-Fits : (parts : SqlParts) → InsertFits parts → StatementFits parts
unfolding plain_text
insert-Fits parts (tail, e, h) = rw e (literal-before (codes "INSERT INTO ") tail refl h)

ignored-Fits :
    (parts : SqlParts)
    → InsertFits parts
    → Marked
        (length parts.args)
        (codes "INSERT IGNORE" ++ trim_prefix parts.statement (codes "INSERT"))
unfolding plain_text trim_prefix cut_prefix
ignored-Fits parts (tail, e, h) = rw e (literal-before (codes "INSERT IGNORE INTO ") tail refl h)

pub on_duplicate_insert-Fits :
    (resolution : OnDuplicate) (parts : SqlParts) (columns pk : List Text)
    → InsertFits parts
    → AllOk StatementFits (on_duplicate_insert resolution parts columns pk)
unfolding on_duplicate_insert merge_insert
on_duplicate_insert-Fits duplicate_fails parts columns pk h = insert-Fits parts h
on_duplicate_insert-Fits duplicate_ignored parts columns pk h = ignored-Fits parts h
on_duplicate_insert-Fits duplicate_merges parts columns [] h = tt
on_duplicate_insert-Fits duplicate_merges parts columns (key ∷ pk) h =
    AllOk-bind (Marked 0) StatementFits (upsert_update_sets columns (key ∷ pk)) _
      (upsert_update_sets-Marked columns (key ∷ pk))
      (λ sets k.
        Marked-after parts.statement _ (insert-Fits parts h) (on_duplicate_key-Marked sets k))

abbrev pub NoClaim {ℓ} : {A : Type ℓ} → A → Type 0
NoClaim a = Unit
