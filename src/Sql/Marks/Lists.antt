-- ===== src/Sql/Marks/Lists.antt =====
-- The order and select lists that the parsers accept cannot end a string of a statement.
use myrest.Prelude.{
  Option, none, some, List, [], ◌∷◌, length, All, All-append, AllOk, AllOk-bind, AllOk-any, if-both,
}
use myrest.Text.{Text, codes, equal, contains, cut, has_suffix, split, trim_space}
use myrest.Text.Unicode.{Unicode}
use myrest.ReadQuery.Query.{JsonPath, Aggregate, full_match_aggregates, Column, Order}
use myrest.ReadQuery.Failure.{Parsed}
use myrest.ReadQuery.Field.{parse_field}
use myrest.ReadQuery.Filter.{is_listed}
use myrest.ReadQuery.Order.{
  order_of, nulls_directions, split_order_direction, parse_order_part, add_order, add_orders,
  parse_order,
}
use myrest.ReadQuery.SelectParts.{is_embed_part, split_select_parts}
use myrest.ReadQuery.Select.{
  Selected, star_column, split_aggregate, alias_and_field, parse_embed_part, column_of_field,
  parse_select_part, all_stars, record_select_all, add_column, add_embed, add_selected, add_all,
  parse_select_on, parse_select,
}
use myrest.Sql.Marks.Columns.{SafeColumn, SafeOrder}
use myrest.Sql.Marks.Accepted.{SafeField, parse_field-SafeField}

module _ ⦃u : Unicode⦄ where
  order_of-SafeOrder :
      (field : Text × Option JsonPath) (direction : Text)
      → SafeField field
      → AllOk SafeOrder (order_of field direction)
  unfolding order_of
  order_of-SafeOrder field direction h =
      if-both (AllOk SafeOrder) (is_listed direction ([] ∷ codes "asc" ∷ [])) h (
        if-both (AllOk SafeOrder) (equal direction (codes "desc")) h
          (if-both (AllOk SafeOrder) (is_listed direction nulls_directions) tt tt))

  add_order-SafeOrder :
      (orders : List Order) (part : Text)
      → All SafeOrder orders
      → AllOk (All SafeOrder) (add_order orders part)
  unfolding add_order parse_order_part
  add_order-SafeOrder orders [] h = h
  add_order-SafeOrder orders (c ∷ part) h =
      let field = (split_order_direction (c ∷ part)).0 in
      AllOk-bind SafeOrder (All SafeOrder) (parse_order_part (c ∷ part)) _
        (AllOk-bind SafeField SafeOrder (parse_field field) _ (parse_field-SafeField field)
          (λ read r. order_of-SafeOrder read (split_order_direction (c ∷ part)).1 r))
        (λ order o. All-append SafeOrder orders (order ∷ []) h (o, tt))

  add_orders-SafeOrder :
      (parts : List Text) (orders : List Order)
      → All SafeOrder orders
      → AllOk (All SafeOrder) (add_orders orders parts)
  unfolding add_orders
  add_orders-SafeOrder [] orders h = h
  add_orders-SafeOrder (part ∷ parts) orders h =
      AllOk-bind (All SafeOrder) (All SafeOrder) (add_order orders (trim_space part)) _
        (add_order-SafeOrder orders (trim_space part) h)
        (λ orders' k. add_orders-SafeOrder parts orders' k)

  pub parse_order-SafeOrder : (raw : Text) → AllOk (All SafeOrder) (parse_order raw [])
  unfolding parse_order
  parse_order-SafeOrder [] = tt
  parse_order-SafeOrder (c ∷ raw) = add_orders-SafeOrder (split (c ∷ raw) b',') [] tt

  column_of_field-SafeColumn :
      (alias field : Text) (found : Option (Text × Aggregate))
      → AllOk SafeColumn (column_of_field alias field found)
  unfolding column_of_field
  column_of_field-SafeColumn alias field (some (source, agg)) =
      AllOk-bind SafeField SafeColumn (parse_field source) _ (parse_field-SafeField source)
        (λ read r. r)
  column_of_field-SafeColumn alias field none =
      if-both (AllOk SafeColumn) (has_suffix field (codes "()")) tt (
        AllOk-bind SafeField SafeColumn (parse_field field) _ (parse_field-SafeField field)
          (λ read r. r))

  parse_select_part-SafeColumn : (part : Text) → AllOk SafeColumn (parse_select_part part)
  unfolding parse_select_part
  parse_select_part-SafeColumn part =
      let halves = alias_and_field part (cut part b':') in
      if-both (AllOk SafeColumn) (contains part (codes "::")) tt (
        if-both (AllOk SafeColumn) (equal halves.1 (codes "count()")) tt (
          column_of_field-SafeColumn halves.0 halves.1
            (split_aggregate halves.1 full_match_aggregates)))

  abbrev pub SafeSelected : Selected → Type 0
  SafeSelected s = All SafeColumn s.columns

  add_selected-SafeSelected :
      (parse : Text → Parsed Selected) (s : Selected) (part : Text)
      → SafeSelected s
      → AllOk SafeSelected (add_selected parse s part)
  unfolding add_selected add_column add_embed
  add_selected-SafeSelected parse s [] h = h
  add_selected-SafeSelected parse s (c ∷ part) h =
      if-both (AllOk SafeSelected) (equal (c ∷ part) (codes "*"))
        (All-append SafeColumn s.columns (star_column ∷ []) h (tt, tt))
        (if-both (AllOk SafeSelected) (is_embed_part (c ∷ part))
          (AllOk-bind (λ x. Unit {0}) SafeSelected (parse_embed_part parse (c ∷ part)) _
            (AllOk-any _ (λ x. tt) _) (λ e x. h))
          (AllOk-bind SafeColumn SafeSelected (parse_select_part (c ∷ part)) _
            (parse_select_part-SafeColumn (c ∷ part))
            (λ column k. All-append SafeColumn s.columns (column ∷ []) h (k, tt))))

  record_select_all-SafeSelected :
      (s : Selected) (columns : List Column)
      → SafeSelected s
      → SafeSelected (record_select_all s columns)
  unfolding record_select_all
  record_select_all-SafeSelected s [] h = h
  record_select_all-SafeSelected s (column ∷ columns) h =
      if-both SafeSelected (all_stars (column ∷ columns)) tt h

  add_all-SafeSelected :
      (parse : Text → Parsed Selected) (parts : List Text) (s : Selected)
      → SafeSelected s
      → AllOk SafeSelected (add_all parse s parts)
  unfolding add_all
  add_all-SafeSelected parse [] s h = record_select_all-SafeSelected s s.columns h
  add_all-SafeSelected parse (part ∷ parts) s h =
      AllOk-bind SafeSelected SafeSelected (add_selected parse s (trim_space part)) _
        (add_selected-SafeSelected parse s (trim_space part) h)
        (λ t k. add_all-SafeSelected parse parts t k)

  pub parse_select-SafeSelected : (raw : Text) → AllOk SafeSelected (parse_select raw)
  unfolding parse_select parse_select_on
  parse_select-SafeSelected raw =
      if-both (AllOk SafeSelected) (is_listed raw ([] ∷ codes "*" ∷ [])) tt
        (add_all-SafeSelected (parse_select_on (length raw)) (split_select_parts raw) _ tt)
