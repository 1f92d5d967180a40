-- ===== src/Tests/Writing.antt =====
-- Examples of writes: a merge of two rows, the second without one of the columns; and an insert of
-- two rows, where the first brings its key.
use myrest.Prelude.{inl, inr, ◌≡◌, refl, true, false, none, [], ◌∷◌, ok, length}
use myrest.Text.{codes, equal, join}
use myrest.Text.Unicode.{only_ascii, equal_fold, fold_rune}
use myrest.Dict.{find, holds, add, add_all}
use myrest.Json.{number, string, array, item, end, marshal, marshal_items}
use myrest.ReadQuery.Query.{zero_query}
use myrest.ReadQuery.Parse.{text_less, insert_key}
use myrest.Schema.{Table, find_column}
use myrest.Sql.Failure.{text, number as number_arg}
use myrest.Sql.Expr.{escape_ticks, quote_identifier, is_json_data_type}
use myrest.Sql.Marks.{plain, marks}
use myrest.Sql.Select.{SqlParts, table_name}
use myrest.Write.{
  Row, Options, duplicate_fails, duplicate_merges, bind_value, refuse_kind, write_value,
}
use myrest.Write.Insert.{
  sort_names, new_column, row_columns, rows_columns, some_columns, insert_columns, with_argument,
  place, row_values, with_row, rows_values, quoted_names, insert_target, insert_sql, build_insert,
  update_set, update_sets, sets_or_first, upsert_update_sets, on_duplicate_key, merge_insert,
  on_duplicate_insert,
}
use myrest.Write.Rows.{
  explicit_key, has_explicit_key, misses_key, mixed_key_presence, generated_key, use_per_row_keys,
  insert_rows_by_key, insert_at_once, insert_with, insert_rows,
}
use myrest.Write.Mutate.{insert, write_statements}
use myrest.Write.Statements.{write_statements-marks}
use myrest.Write.Columns.{ColumnsOf, insert_columns-ColumnsOf}
use myrest.Tests.Data.{people}

abbrev ann : Row
ann = (codes "name", string (codes "Ann")) ∷ (codes "age", number (codes "41")) ∷ []

abbrev bob : Row
bob =
    (codes "name", string (codes "Bob"))
    ∷ (codes "data", array (item (number (codes "1")) end))
    ∷ []

abbrev merging : Options
merging = record {
  primary_key = codes "name" ∷ [];
  return_representation = false;
  return_keys = false;
  missing_default = true;
  max_affected = none;
  prefer_tx = [];
  on_duplicate = duplicate_merges;
}

abbrev merged : SqlParts
merged = record {
  statement =
      codes
        "INSERT INTO `shop`.`people` (`age`, `data`, `name`) VALUES (?, DEFAULT, ?), (DEFAULT, ?, ?) AS `new` ON DUPLICATE KEY UPDATE `age` = `new`.`age`, `data` = `new`.`data`";
  args =
      number_arg (codes "41") ∷ text (codes "Ann") ∷ text (codes "[1]") ∷ text (codes "Bob") ∷ [];
  columns = [];
}

three_columns :
    insert_columns people (ann ∷ bob ∷ []) ≡ ok (codes "age" ∷ codes "data" ∷ codes "name" ∷ [])
unfolding insert_columns rows_columns row_columns some_columns sort_names insert_key text_less
    new_column find_column equal holds
three_columns = refl

merge_built :
    write_statements ⦃u = only_ascii⦄ insert people (ann ∷ bob ∷ []) zero_query merging
    ≡ ok (merged ∷ [])
unfolding write_statements insert_rows insert_with use_per_row_keys generated_key insert_at_once
    insert_columns rows_columns row_columns some_columns sort_names insert_key text_less new_column
    find_column equal holds add add_all find build_insert rows_values row_values with_row place
    write_value bind_value refuse_kind is_json_data_type equal_fold fold_rune marshal marshal_items
    with_argument insert_sql insert_target quoted_names quote_identifier escape_ticks join
    table_name on_duplicate_insert merge_insert upsert_update_sets update_sets update_set
    sets_or_first on_duplicate_key
merge_built = refl

abbrev keyed : Table
keyed = record {
  id = record { database = codes "shop"; name = codes "orders" };
  columns =
      record {
        name = codes "id";
        data_type = codes "int";
        collation = [];
        nullable = false;
        default = none;
        comment = [];
        generated = false;
        auto_increment = true;
      }
      ∷ [];
}

abbrev returning : Options
returning = record {
  primary_key = codes "id" ∷ [];
  return_representation = true;
  return_keys = false;
  missing_default = true;
  max_affected = none;
  prefer_tx = [];
  on_duplicate = duplicate_fails;
}

abbrev seventh : Row
seventh = (codes "id", number (codes "7")) ∷ []

abbrev seventh_insert : SqlParts
seventh_insert = record {
  statement = codes "INSERT INTO `shop`.`orders` (`id`) VALUES (?)";
  args = number_arg (codes "7") ∷ [];
  columns = [];
}

abbrev next_insert : SqlParts
next_insert = record {
  statement = codes "INSERT INTO `shop`.`orders` (`id`) VALUES (DEFAULT)";
  args = [];
  columns = [];
}

by_key_built :
    write_statements ⦃u = only_ascii⦄ insert keyed (seventh ∷ [] ∷ []) zero_query returning
    ≡ ok (seventh_insert ∷ next_insert ∷ [])
unfolding write_statements insert_rows insert_with use_per_row_keys generated_key mixed_key_presence
    has_explicit_key misses_key explicit_key insert_rows_by_key insert_columns rows_columns
    row_columns some_columns sort_names insert_key text_less new_column find_column equal holds add
    find build_insert rows_values row_values with_row place write_value bind_value refuse_kind
    with_argument insert_sql insert_target quoted_names quote_identifier escape_ticks join
    table_name
by_key_built = refl

write_statements-marks_example : marks plain next_insert.statement ≡ length next_insert.args
write_statements-marks_example =
    write_statements-marks ⦃u = only_ascii⦄ insert keyed (seventh ∷ [] ∷ []) zero_query returning
      (seventh_insert ∷ next_insert ∷ []) next_insert (tt, tt) by_key_built (inr (inl refl))

insert_columns-ColumnsOf_example :
    ColumnsOf people (ann ∷ bob ∷ []) (codes "age" ∷ codes "data" ∷ codes "name" ∷ [])
insert_columns-ColumnsOf_example = insert_columns-ColumnsOf people (ann ∷ bob ∷ []) three_columns
