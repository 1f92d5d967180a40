-- ===== src/ReadQuery/Filter/Print.antt =====
-- A spelling of filters in the URL, and that parseFilter reads it back.
use myrest.Prelude.{◌≡◌, ◌≢◌, refl, Bool, true, false, none, [], ◌∷◌, ◌++◌, map, arith, ok}
use myrest.Text.{Text, codes, join}
use myrest.Text.Trim.{IsName}
use myrest.Text.Unicode.{Unicode}
use myrest.ReadQuery.Query.{Operator, op_eq, op_in, op_is, op_text, Filter}
use myrest.ReadQuery.Field.Names.{parse_field-name}
use myrest.ReadQuery.InList.Quoting.{quoted, dequote_scalar_value-quoted, parse_in_list-quoted}
use myrest.ReadQuery.Filter.{
  is_is_value, classify_operator, strip_not, operator_and_value, parse_filter_value, parse_filter,
}

-- The value behind the operator: a quoted scalar, a list of quoted values, or an is value.
abbrev pub value_text : Operator → Filter → Text
value_text op_in f = b'(' ∷ (join (map quoted f.values) (codes ",") ++ codes ")")
value_text op_is f = f.value
value_text _ f = quoted f.value

abbrev pub not_text : Bool → Text
not_text true = codes "not."
not_text false = []

abbrev pub operand : Filter → Text
operand f = not_text f.negated ++ (op_text f.op ++ b'.' ∷ value_text f.op f)

-- The values that a filter of the operator holds, and those that it leaves unset.
abbrev pub HasValue : Operator → Filter → Type 0
HasValue op_in f = (f.values ≢ []) × (f.value ≡ []) × (f.value_quoted ≡ false)
HasValue op_is f = (is_is_value f.value ≡ true) × (f.values ≡ []) × (f.value_quoted ≡ false)
HasValue _ f = (f.values ≡ []) × (f.value_quoted ≡ true)

pub record IsPrintable (f : Filter) : Type 0 where
  pub name : IsName f.column
  pub no_path : f.path ≡ none
  pub value : HasValue f.op f

strip_not-operand :
    (negated : Bool) (op : Operator) (value : Text)
    → strip_not (not_text negated ++ (op_text op ++ b'.' ∷ value))
      ≡ (negated, op_text op ++ b'.' ∷ value)
unfolding strip_not op_text
strip_not-operand true op value = refl
strip_not-operand false op_eq value = refl
strip_not-operand false _ value = refl

operator_and_value-op_text :
    (column : Text) (op : Operator) (value : Text)
    → operator_and_value column (op_text op ++ b'.' ∷ value) ≡ ok (op_text op, value)
unfolding operator_and_value op_text
operator_and_value-op_text column op_eq value = refl
operator_and_value-op_text column _ value = refl

pub classify_operator-op_text : (op : Operator) → classify_operator (op_text op) ≡ ok op
unfolding classify_operator op_text
classify_operator-op_text op_eq = refl
classify_operator-op_text _ = refl

-- The filter of parseFilter before its value is read.
abbrev unread : Filter → Filter
unread f = record f { path = none; value = []; values = []; value_quoted = false }

parse_filter_value-value_text :
    (op : Operator) (f : Filter)
    → f.op ≡ op
    → f.path ≡ none
    → HasValue op f
    → parse_filter_value op (unread f) (value_text op f) ≡ ok f
unfolding parse_filter_value
parse_filter_value-value_text op_in f e p h = ground (arith, parse_in_list-quoted f.values)
parse_filter_value-value_text op_is f e p h = ground arith
parse_filter_value-value_text _ f e p h = ground (arith, dequote_scalar_value-quoted f.value)

module _ ⦃u : Unicode⦄ where
  -- A filter whose column is a plain name is spelled by its operator and its value in quotes
  -- (a list of such values, or an is value), and parseFilter reads that spelling as the filter.
  pub parse_filter-operand : (f : Filter) → IsPrintable f → parse_filter f.column (operand f) ≡ ok f
  unfolding parse_filter
  parse_filter-operand f h =
      rw
        (
          parse_field-name f.column h.name,
          strip_not-operand f.negated f.op (value_text f.op f),
          operator_and_value-op_text f.column f.op (value_text f.op f),
          classify_operator-op_text f.op,
        )
        (parse_filter_value-value_text f.op f refl h.no_path h.value)
