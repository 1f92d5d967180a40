-- ===== src/Write/Rows/Fits.antt =====
-- Every statement of an insert has one placeholder for each of its arguments.
use myrest.Prelude.{Bool, List, [], ◌∷◌, All, AllOk, AllOk-bind, AllOk-any, if-both}
use myrest.Text.{Text}
use myrest.Schema.{Table}
use myrest.Sql.Select.{SqlParts}
use myrest.Write.{Row, Options}
use myrest.Write.Insert.{insert_columns, build_insert, on_duplicate_insert}
use myrest.Write.Marks.{
  NoClaim, StatementFits, InsertFits, insert-Fits, build_insert-InsertFits,
  on_duplicate_insert-Fits,
}
use myrest.Write.Rows.{
  use_per_row_keys, insert_rows_by_key, insert_at_once, insert_with, insert_rows,
}

abbrev pub StatementsFit : List SqlParts → Type 0
StatementsFit = All StatementFits

insert_rows_by_key-Fit :
    (table : Table) (columns : List Text) (missing_default : Bool) (rows : List Row)
    → AllOk StatementsFit (insert_rows_by_key table columns missing_default rows)
unfolding insert_rows_by_key
insert_rows_by_key-Fit table columns missing_default [] = tt
insert_rows_by_key-Fit table columns missing_default (row ∷ rows) =
    AllOk-bind InsertFits StatementsFit (build_insert table columns (row ∷ []) missing_default) _
      (build_insert-InsertFits table columns (row ∷ []) missing_default)
      (λ parts h.
        AllOk-bind StatementsFit StatementsFit
          (insert_rows_by_key table columns missing_default rows) _
          (insert_rows_by_key-Fit table columns missing_default rows)
          (λ statements hs. (insert-Fits parts h, hs)))

insert_at_once-Fit :
    (table : Table) (columns : List Text) (rows : List Row) (options : Options)
    → AllOk StatementsFit (insert_at_once table columns rows options)
unfolding insert_at_once
insert_at_once-Fit table columns rows options =
    AllOk-bind InsertFits StatementsFit (build_insert table columns rows options.missing_default) _
      (build_insert-InsertFits table columns rows options.missing_default)
      (λ parts h.
        AllOk-bind StatementFits StatementsFit
          (on_duplicate_insert options.on_duplicate parts columns options.primary_key) _
          (on_duplicate_insert-Fits options.on_duplicate parts columns options.primary_key h)
          (λ statement k. (k, tt)))

insert_with-Fit :
    (table : Table) (rows : List Row) (options : Options) (columns : List Text)
    → AllOk StatementsFit (insert_with table rows options columns)
unfolding insert_with
insert_with-Fit table rows options columns =
    if-both (AllOk StatementsFit) (use_per_row_keys table rows options)
      (insert_rows_by_key-Fit table columns options.missing_default rows)
      (insert_at_once-Fit table columns rows options)

pub insert_rows-Fit :
    (table : Table) (rows : List Row) (options : Options)
    → AllOk StatementsFit (insert_rows table rows options)
unfolding insert_rows
insert_rows-Fit table [] options = tt
insert_rows-Fit table (row ∷ rows) options =
    AllOk-bind NoClaim StatementsFit (insert_columns table (row ∷ rows)) _
      (AllOk-any NoClaim (λ _. tt) (insert_columns table (row ∷ rows)))
      (λ columns _. insert_with-Fit table (row ∷ rows) options columns)
