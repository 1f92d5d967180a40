-- ===== src/Write/Rows.antt =====
-- internal/mysqldb/write.go: the statements of insertRows, one for all rows, or one for each row where
-- some rows bring their key and MySQL generates the others. In the source a row's statement runs
-- before the next one is built; where a later one is not built, the transaction is rolled back.
pub mod Fits
use myrest.Prelude.{
  Bool, true, false, ◌&&◌, ◌||◌, not, Option, none, some, List, [], ◌∷◌, if◌then◌else◌, ok, err,
  ◌>>=◌,
}
use myrest.Text.{Text, codes}
use myrest.Dict.{text_eq, find}
use myrest.Json.{Value, null}
use myrest.Schema.{Table, Column, find_column}
use myrest.Sql.Failure.{Built, internal_error}
use myrest.Sql.Select.{SqlParts}
use myrest.Write.{Row, OnDuplicate, duplicate_fails, duplicate_merges, duplicate_ignored, Options}
use myrest.Write.Insert.{insert_columns, build_insert, on_duplicate_insert}

abbrev pub held_not_null : Option Value → Bool
held_not_null none = false
held_not_null (some null) = false
held_not_null (some v) = true

unfoldable pub explicit_key : Text → Row → Bool
unfolding find
explicit_key column row = held_not_null (find row column)

unfoldable pub has_explicit_key : Text → List Row → Bool
unfolding explicit_key
has_explicit_key column [] = false
has_explicit_key column (row ∷ rows) = explicit_key column row || has_explicit_key column rows

unfoldable pub misses_key : Text → List Row → Bool
unfolding explicit_key
misses_key column [] = false
misses_key column (row ∷ rows) = not (explicit_key column row) || misses_key column rows

unfoldable pub mixed_key_presence : List Row → Text → Bool
unfolding has_explicit_key misses_key
mixed_key_presence rows column = has_explicit_key column rows && misses_key column rows

abbrev is_auto_increment : Option Column → Bool
is_auto_increment none = false
is_auto_increment (some column) = column.auto_increment

-- The key is the single column of a primary key.
unfoldable pub generated_key : OnDuplicate → List Text → Table → List Row → Bool
unfolding mixed_key_presence find_column
generated_key duplicate_fails (key ∷ []) table rows =
    is_auto_increment (find_column table.columns key) && mixed_key_presence rows key
generated_key duplicate_fails [] table rows = false
generated_key duplicate_fails (key ∷ next ∷ pk) table rows = false
generated_key duplicate_merges pk table rows = false
generated_key duplicate_ignored pk table rows = false

unfoldable pub use_per_row_keys : Table → List Row → Options → Bool
unfolding generated_key
use_per_row_keys table rows options =
    (options.return_representation || options.return_keys)
    && generated_key options.on_duplicate options.primary_key table rows

unfoldable pub insert_rows_by_key : Table → List Text → Bool → List Row → Built (List SqlParts)
insert_rows_by_key table columns missing_default [] = ok []
insert_rows_by_key table columns missing_default (row ∷ rows) = do
  parts ← build_insert table columns (row ∷ []) missing_default
  statements ← insert_rows_by_key table columns missing_default rows
  ok (parts ∷ statements)

unfoldable pub insert_at_once : Table → List Text → List Row → Options → Built (List SqlParts)
insert_at_once table columns rows options = do
  parts ← build_insert table columns rows options.missing_default
  statement ← on_duplicate_insert options.on_duplicate parts columns options.primary_key
  ok (statement ∷ [])

unfoldable pub insert_with : Table → List Row → Options → List Text → Built (List SqlParts)
insert_with table rows options columns =
    if use_per_row_keys table rows options
    then insert_rows_by_key table columns options.missing_default rows
    else insert_at_once table columns rows options

unfoldable pub insert_rows : Table → List Row → Options → Built (List SqlParts)
insert_rows table [] options = err (internal_error (codes "insert needs at least one row"))
insert_rows table (row ∷ rows) options =
    insert_columns table (row ∷ rows) >>= insert_with table (row ∷ rows) options
