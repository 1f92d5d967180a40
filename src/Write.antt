-- ===== src/Write.antt =====
-- internal/writequery and internal/mysqldb: the rows and options of a write, and how a value is
-- bound to a column (binding.go and write.go).
pub mod Insert
pub mod Rows
pub mod Update
pub mod Marks
pub mod Mutate
pub mod Statements
pub mod Columns
use myrest.Prelude.{ℕ, Bool, Option, none, some, List, if◌then◌else◌, Result, ok, err}
use myrest.Text.{Text}
use myrest.Dict.{Dict}
use myrest.Json.{Value, null, boolean, number, string, array, object, marshal}
use myrest.Schema.{Column}
use myrest.Sql.Failure as Failure
use myrest.Sql.Failure.{Arg, text, json_object_into, json_array_into, unsupported_feature, Built}
use myrest.Sql.Expr.{is_json_data_type}

-- A row of a body, by column name.
abbrev pub Row : Type 0
Row = Dict Text Value

pub data OnDuplicate : Type 0 where
  duplicate_fails duplicate_merges duplicate_ignored : OnDuplicate

pub record Options : Type 0 where
  pub primary_key : List Text
  pub return_representation : Bool
  pub return_keys : Bool
  pub missing_default : Bool
  pub max_affected : Option ℕ
  pub prefer_tx : Text
  pub on_duplicate : OnDuplicate

-- nonJSONTarget: what kind of value does not fit.
pub data NonJsonTarget : Type 0 where
  object_kind array_kind : NonJsonTarget

unfoldable pub bind_value : Text → Value → Result NonJsonTarget Arg
unfolding is_json_data_type marshal
bind_value data_type null = ok Failure.null
bind_value data_type (boolean b) = ok (Failure.boolean b)
bind_value data_type (number literal) = ok (Failure.number literal)
bind_value data_type (string s) = ok (text s)
bind_value data_type (array values) =
    if is_json_data_type data_type then ok (text (marshal (array values))) else err array_kind
bind_value data_type (object fields) =
    if is_json_data_type data_type then ok (text (marshal (object fields))) else err object_kind

unfoldable pub refuse_kind : Text → Result NonJsonTarget Arg → Built Arg
refuse_kind name (ok arg) = ok arg
refuse_kind name (err object_kind) = err (unsupported_feature (json_object_into name))
refuse_kind name (err array_kind) = err (unsupported_feature (json_array_into name))

-- The data type is that of the column; it is empty when the table has no such column.
unfoldable pub write_value : Text → Text → Value → Built Arg
write_value data_type name value = refuse_kind name (bind_value data_type value)
