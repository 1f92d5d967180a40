-- ===== src/Write/Insert.antt =====
-- internal/mysqldb/write.go: the INSERT statements. The walk over the columns of a row takes them in
-- one order; Go leaves that order open, and it shows only in which error is the first.
use myrest.Prelude.{
  Bool, true, false, ◌&&◌, Option, none, some, List, [], ◌∷◌, ◌++◌, map, if◌then◌else◌, ok, err,
  ◌>>=◌,
}
use myrest.Text.{Text, codes, join, trim_prefix}
use myrest.Dict.{text_eq, holds, add_all, find}
use myrest.Json.{Value, null}
use myrest.ReadQuery.Parse.{insert_key}
use myrest.Schema.{Table, Column, find_column}
use myrest.Sql.Failure.{
  Arg, Built, column_not_found, unsupported_feature, internal_error, insert_generated,
  merge_needs_key, out_of_range,
}
use myrest.Sql.Expr.{quote_identifier}
use myrest.Sql.Where.{Clause, no_clause}
use myrest.Sql.Select.{SqlParts, table_name}
use myrest.Write.{
  Row, OnDuplicate, duplicate_fails, duplicate_merges, duplicate_ignored, write_value,
}

unfoldable pub sort_names : List Text → List Text
unfolding insert_key
sort_names [] = []
sort_names (name ∷ names) = insert_key name (sort_names names)

-- What insertColumns does with a name that it has not seen.
unfoldable pub new_column : Option Column → Text → List Text → Built (List Text)
new_column none name columns = err (column_not_found name)
new_column (some column) name columns =
    if column.generated
    then err (unsupported_feature (insert_generated name))
    else ok (columns ++ (name ∷ []))

unfoldable pub row_columns : Row → Table → List Text → Built (List Text)
row_columns [] table columns = ok columns
row_columns ((name, _) ∷ row) table columns = elim (holds columns name) [
  | true ↦ row_columns row table columns
  | false ↦ new_column (find_column table.columns name) name columns >>= row_columns row table
]

unfoldable pub rows_columns : List Row → Table → List Text → Built (List Text)
rows_columns [] table columns = ok columns
rows_columns (row ∷ rows) table columns = row_columns row table columns >>= rows_columns rows table

unfoldable pub some_columns : List Text → Built (List Text)
unfolding sort_names
some_columns [] = err (internal_error (codes "insert needs at least one column"))
some_columns (name ∷ names) = ok (sort_names (name ∷ names))

unfoldable pub insert_columns : Table → List Row → Built (List Text)
insert_columns table rows = rows_columns rows table [] >>= some_columns

abbrev pub or_null : Option Value → Value
or_null none = null
or_null (some v) = v

abbrev pub data_type_of : Option Column → Text
data_type_of none = []
data_type_of (some column) = column.data_type

unfoldable pub with_argument : Text → Arg → Clause → Clause
with_argument placeholder arg rest = record {
  parts = placeholder ∷ rest.parts;
  args = arg ∷ rest.args;
}

abbrev pub with_default : Clause → Clause
with_default rest = record { parts = codes "DEFAULT" ∷ rest.parts; args = rest.args }

abbrev pub is_missing : {A : Type 0} → Option A → Bool
is_missing none = true
is_missing (some a) = false

-- One column of a row: DEFAULT, or a placeholder and its argument.
unfoldable pub place : Bool → Built Arg → Built Clause → Built Clause
place true arg rest = rest >>= λ r. ok (with_default r)
place false arg rest = do a ← arg; r ← rest; ok (with_argument (codes "?") a r)

-- The placeholders of one row, in the order of the columns, and their arguments.
unfoldable pub row_values : List Text → Table → Bool → Row → Built Clause
row_values [] table missing_default row = ok no_clause
row_values (name ∷ names) table missing_default row =
    place (is_missing (find row name) && missing_default)
      (write_value (data_type_of (find_column table.columns name)) name (or_null (find row name)))
      (row_values names table missing_default row)

abbrev pub in_parentheses : Text → Text
in_parentheses s = codes "(" ++ (s ++ codes ")")

unfoldable pub with_row : Clause → Clause → Clause
unfolding join
with_row row rest = record {
  parts = in_parentheses (join row.parts (codes ", ")) ∷ rest.parts;
  args = row.args ++ rest.args;
}

unfoldable pub rows_values : List Row → Table → List Text → Bool → Built Clause
rows_values [] table columns missing_default = ok no_clause
rows_values (row ∷ rows) table columns missing_default = do
  one ← row_values columns table missing_default row
  rest ← rows_values rows table columns missing_default
  ok (with_row one rest)

unfoldable pub quoted_names : List Text → List Text
unfolding quote_identifier
quoted_names names = map quote_identifier names

-- The table and its columns in parentheses.
unfoldable pub insert_target : Table → List Text → Text
unfolding table_name join quoted_names
insert_target table columns =
    table_name table ++ (codes " " ++ in_parentheses (join (quoted_names columns) (codes ", ")))

unfoldable pub insert_sql : Table → List Text → List Text → Text
unfolding insert_target join
insert_sql table columns values =
    codes "INSERT INTO "
    ++ (insert_target table columns ++ (codes " VALUES " ++ join values (codes ", ")))

unfoldable pub build_insert : Table → List Text → List Row → Bool → Built SqlParts
build_insert table columns rows missing_default = do
  values ← rows_values rows table columns missing_default
  ok (record {
    statement = insert_sql table columns values.parts;
    args = values.args;
    columns = [];
  })

-- name = new.name
unfoldable pub update_set : Text → Text
unfolding quote_identifier
update_set name =
    quote_identifier name
    ++ (codes " = " ++ (quote_identifier (codes "new") ++ (codes "." ++ quote_identifier name)))

unfoldable pub update_sets : List Text → List Text → List Text
update_sets [] pk = []
update_sets (name ∷ columns) pk =
    let rest = update_sets columns pk in if holds pk name then rest else update_set name ∷ rest

abbrev pub first_or : Text → List Text → Text
first_or name [] = name
first_or name (column ∷ columns) = column

-- The sets of the columns outside the key, or else one set, on the first column.
unfoldable pub sets_or_first : List Text → List Text → List Text → Built Text
unfolding join
sets_or_first (set ∷ sets) columns pk = ok (join (set ∷ sets) (codes ", "))
sets_or_first [] columns [] = err out_of_range
sets_or_first [] columns (key ∷ pk) =
    ok (join (update_set (first_or key columns) ∷ []) (codes ", "))

unfoldable pub upsert_update_sets : List Text → List Text → Built Text
upsert_update_sets columns pk = sets_or_first (update_sets columns (add_all pk [])) columns pk

unfoldable pub on_duplicate_key : Text → Text
unfolding quote_identifier
on_duplicate_key sets =
    codes " AS " ++ (quote_identifier (codes "new") ++ (codes " ON DUPLICATE KEY UPDATE " ++ sets))

unfoldable pub merge_insert : SqlParts → List Text → List Text → Built SqlParts
merge_insert parts columns [] = err (unsupported_feature merge_needs_key)
merge_insert parts columns (key ∷ pk) = do
  sets ← upsert_update_sets columns (key ∷ pk)
  ok (record parts { statement = parts.statement ++ on_duplicate_key sets })

unfoldable pub on_duplicate_insert : OnDuplicate → SqlParts → List Text → List Text → Built SqlParts
unfolding trim_prefix
on_duplicate_insert duplicate_fails parts columns pk = ok parts
on_duplicate_insert duplicate_ignored parts columns pk = ok (record parts {
  statement = codes "INSERT IGNORE" ++ trim_prefix parts.statement (codes "INSERT");
})
on_duplicate_insert duplicate_merges parts columns pk = merge_insert parts columns pk

-- One "?" for each argument, with commas between them.
unfoldable pub question_marks : List Arg → Text
question_marks [] = []
question_marks (a ∷ []) = codes "?"
question_marks (a ∷ b ∷ args) = codes "?" ++ (codes "," ++ question_marks (b ∷ args))

unfoldable pub upsert_args : List Text → Table → Row → Built (List Arg)
upsert_args [] table row = ok []
upsert_args (name ∷ names) table row = do
  arg ← write_value (data_type_of (find_column table.columns name)) name (or_null (find row name))
  args ← upsert_args names table row
  ok (arg ∷ args)

unfoldable pub upsert_values : Table → List Text → List Arg → Text
unfolding insert_target question_marks
upsert_values table columns args =
    insert_target table columns ++ (codes " VALUES " ++ in_parentheses (question_marks args))

unfoldable pub upsert_parts :
    OnDuplicate → Table → List Text → List Text → List Arg → Built SqlParts
upsert_parts duplicate_fails table columns pk args =
    err (internal_error (codes "unknown upsert resolution"))
upsert_parts duplicate_ignored table columns pk args = ok (record {
  statement = codes "INSERT IGNORE INTO " ++ upsert_values table columns args;
  args = args;
  columns = [];
})
upsert_parts duplicate_merges table columns pk args = do
  sets ← upsert_update_sets columns pk
  ok (record {
    statement = codes "INSERT INTO " ++ (upsert_values table columns args ++ on_duplicate_key sets);
    args = args;
    columns = [];
  })

unfoldable pub build_upsert : Table → Row → List Text → OnDuplicate → Built SqlParts
build_upsert table [] pk resolution =
    err (internal_error (codes "upsert needs at least one column"))
build_upsert table (f ∷ row) pk resolution = do
  columns ← insert_columns table ((f ∷ row) ∷ [])
  args ← upsert_args columns table (f ∷ row)
  upsert_parts resolution table columns pk args
