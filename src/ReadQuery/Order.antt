-- ===== src/ReadQuery/Order.antt =====
-- internal/readquery/parse.go: the order, limit and offset parameters, and the Prefer count.
use myrest.Prelude.{
  ℕ, ◌-◌, Bool, true, false, Option, none, some, List, [], ◌∷◌, ◌++◌, if◌then◌else◌, length, take,
  ok, ◌>>=◌,
}
use myrest.Text.{Text, codes, equal, has_suffix, trim_prefix, contains, cut, split, trim_space}
use myrest.Text.Unicode.{Unicode, to_lower}
use myrest.Text.Decimal.{parse_uint}
use myrest.Prefer.{CountMode, count_none, count_exact, count_planned, count_estimated}
use myrest.ReadQuery.Query.{JsonPath, Order}
use myrest.ReadQuery.Failure.{
  Message, order_nulls, order_direction_unknown, limit_not_integer, offset_not_integer, count_modes,
  Parsed, gap, refuse,
}
use myrest.ReadQuery.Field.{parse_field}
use myrest.ReadQuery.Filter.{is_listed}

abbrev pub order_suffixes : List Text
order_suffixes =
    codes ".asc.nullsfirst"
    ∷ codes ".asc.nullslast"
    ∷ codes ".desc.nullsfirst"
    ∷ codes ".desc.nullslast"
    ∷ codes ".nullsfirst"
    ∷ codes ".nullslast"
    ∷ codes ".asc"
    ∷ codes ".desc"
    ∷ []

-- The first suffix of the list that the text ends in.
unfoldable pub suffix_of : Text → List Text → Option Text
suffix_of lower [] = none
suffix_of lower (suffix ∷ suffixes) =
    let rest = suffix_of lower suffixes in if has_suffix lower suffix then some suffix else rest

-- The field and the direction, where no suffix of the list stands.
unfoldable pub split_at_dot : Text → Text × Text
unfolding contains cut
split_at_dot part =
    if contains part (codes "->")
    then (part, [])
    else elim (cut part b'.') [ none ↦ (part, []) | some p ↦ p ]

unfoldable pub split_by_suffix : Text → Option Text → Text × Text
unfolding split_at_dot trim_prefix
split_by_suffix part none = split_at_dot part
split_by_suffix part (some suffix) =
    (take (length part - length suffix) part, trim_prefix suffix (codes "."))

abbrev pub nulls_directions : List Text
nulls_directions =
    codes "asc.nullsfirst"
    ∷ codes "asc.nullslast"
    ∷ codes "desc.nullsfirst"
    ∷ codes "desc.nullslast"
    ∷ codes "nullsfirst"
    ∷ codes "nullslast"
    ∷ []

-- The switch of parseOrderPart.
unfoldable pub order_of : Text × Option JsonPath → Text → Parsed Order
unfolding is_listed
order_of field direction =
    if is_listed direction ([] ∷ codes "asc" ∷ [])
    then ok (record { column = field.0; path = field.1; desc = false })
    else if equal direction (codes "desc")
    then ok (record { column = field.0; path = field.1; desc = true })
    else if is_listed direction nulls_directions
    then gap order_nulls
    else refuse (order_direction_unknown direction)

module _ ⦃u : Unicode⦄ where
  unfoldable pub split_order_direction : Text → Text × Text
  unfolding split_by_suffix
  split_order_direction part = split_by_suffix part (suffix_of (to_lower part) order_suffixes)

  unfoldable pub parse_order_part : Text → Parsed Order
  parse_order_part part = do
    let halves = split_order_direction part
    field ← parse_field halves.0
    order_of field halves.1

  -- One round of the loop of parseOrder, on a part that is trimmed.
  unfoldable pub add_order : List Order → Text → Parsed (List Order)
  add_order orders [] = ok orders
  add_order orders (c ∷ part) = do order ← parse_order_part (c ∷ part); ok (orders ++ order ∷ [])

  unfoldable pub add_orders : List Order → List Text → Parsed (List Order)
  add_orders orders [] = ok orders
  add_orders orders (part ∷ parts) = do
    orders' ← add_order orders (trim_space part)
    add_orders orders' parts

  -- parseOrder, on the orders that the query has.
  unfoldable pub parse_order : Text → List Order → Parsed (List Order)
  parse_order [] orders = ok orders
  parse_order (c ∷ raw) orders = add_orders orders (split (c ∷ raw) b',')

abbrev some_or : {A : Type 0} → Message → Option A → Parsed (Option A)
some_or message none = refuse message
some_or message (some a) = ok (some a)

-- The limit of parseLimitOffset; an empty value leaves it.
unfoldable pub parse_limit : Text → Option ℕ → Parsed (Option ℕ)
unfolding parse_uint
parse_limit [] limit = ok limit
parse_limit (c ∷ raw) limit = some_or limit_not_integer (parse_uint (c ∷ raw))

abbrev number_or : Message → Option ℕ → Parsed ℕ
number_or message none = refuse message
number_or message (some n) = ok n

unfoldable pub parse_offset : Text → ℕ → Parsed ℕ
unfolding parse_uint
parse_offset [] offset = ok offset
parse_offset (c ∷ raw) offset = number_or offset_not_integer (parse_uint (c ∷ raw))

-- applyCount, on ExactCount.
unfoldable pub apply_count_mode : CountMode → Bool → Parsed Bool
apply_count_mode count_none exact = ok exact
apply_count_mode count_exact exact = ok true
apply_count_mode count_planned exact = gap count_modes
apply_count_mode count_estimated exact = gap count_modes
