-- ===== src/Sql/Failure.antt =====
-- The errors of the SQL builders: ColumnNotFound and UnsupportedFeature of internal/readquery.
use myrest.Prelude.{Bool, Result}
use myrest.Text.{Text}

pub data Feature : Type 0 where
  path_on_non_json ilike_collation merge_needs_key : Feature
  json_object_into json_array_into insert_generated update_generated : Text → Feature

-- `out_of_range` is the run-time panic of an index past the end of a slice, and `internal_error` an
-- error that only has a text.
pub data SqlFailure : Type 0 where
  column_not_found : Text → SqlFailure
  unsupported_feature : Feature → SqlFailure
  out_of_range : SqlFailure
  internal_error : Text → SqlFailure

abbrev pub Built : Type 0 → Type 0
Built A = Result SqlFailure A

-- An argument of a statement: a text, nil, or a boolean or a number of a body.
pub data Arg : Type 0 where
  text : Text → Arg
  null : Arg
  boolean : Bool → Arg
  number : Text → Arg
