-- ===== src/ReadQuery/Parse/Params.antt =====
-- The parameters of a query and of its embeds: no recursion on them runs out of fuel.
use myrest.Prelude.{
  ℕ, zero, suc, ◌<◌, ◌≢◌, Bool, true, false, Option, none, some, List, [], ◌∷◌, ◌++◌, arith, length,
  err, if-ne, Option-cases, inl, inr,
}
use myrest.Text.{Text, codes, equal, cut, split, trim_space}
use myrest.Text.Decimal.{parse_uint}
use myrest.Text.Unicode.{Unicode}
use myrest.Prefer.{CountMode, count_none, count_exact, count_planned, count_estimated}
use myrest.ReadQuery.Query.{
  JsonPath, Filter, Groups, append_group, Order, EmbedFields, Embed, embed, Embeds, done, more,
}
use myrest.ReadQuery.Failure.{exhausted, Parsed, bind-ne-exhausted}
use myrest.ReadQuery.Field.{parse_field}
use myrest.ReadQuery.Field.Fuel.{parse_field-ne-exhausted}
use myrest.ReadQuery.Filter.{is_listed, parse_filter}
use myrest.ReadQuery.Filter.Ends.{parse_filter-ne-exhausted}
use myrest.ReadQuery.Groups.{parse_group}
use myrest.ReadQuery.Groups.Fuel.{parse_group-ne-exhausted}
use myrest.ReadQuery.Order.{
  nulls_directions, order_of, split_order_direction, parse_order_part, add_order, add_orders,
  parse_order, parse_limit, parse_offset, apply_count_mode,
}
use myrest.ReadQuery.Select.Ends.{length-cut}
use myrest.ReadQuery.EmbedParams.{
  Place, nested_of, child_embed, child_at, is_embed_directive, find_top_embed, resolve_loop,
  resolve_from, resolve_embed_param, change_at, first_value, add_filters, add_groups, attach_orders,
  attach_groups, attach_filters, attach,
}

-- The computation ends with a value or a failure of the source.
abbrev pub Ends : {A : Type 0} → Parsed A → Type 0
Ends m = m ≢ err exhausted

order_of-Ends :
    (field : Text × Option JsonPath) (direction : Text) → Ends (order_of field direction)
unfolding order_of
order_of-Ends field direction = if-ne (is_listed direction ([] ∷ codes "asc" ∷ [])) (cc) (
    if-ne (equal direction (codes "desc")) (cc)
      (if-ne (is_listed direction nulls_directions) (cc) (cc)))

pub parse_limit-Ends : (raw : Text) (limit : Option ℕ) → Ends (parse_limit raw limit)
unfolding parse_limit
parse_limit-Ends [] limit = cc
parse_limit-Ends (c ∷ raw) limit = elim (Option-cases (parse_uint (c ∷ raw))) [
  | inl e ↦ rw e (cc)
  | inr (n, e) ↦ rw e (cc)
]

pub parse_offset-Ends : (raw : Text) (offset : ℕ) → Ends (parse_offset raw offset)
unfolding parse_offset
parse_offset-Ends [] offset = cc
parse_offset-Ends (c ∷ raw) offset = elim (Option-cases (parse_uint (c ∷ raw))) [
  | inl e ↦ rw e (cc)
  | inr (n, e) ↦ rw e (cc)
]

pub apply_count_mode-Ends : (count : CountMode) (exact : Bool) → Ends (apply_count_mode count exact)
unfolding apply_count_mode
apply_count_mode-Ends count_none exact = cc
apply_count_mode-Ends count_exact exact = cc
apply_count_mode-Ends count_planned exact = cc
apply_count_mode-Ends count_estimated exact = cc

resolve_loop-Ends :
    (fuel : ℕ) (key head : Text) (found : Option (Place × Embed)) (rest : Text)
    → length rest < fuel
    → Ends (resolve_loop fuel key head found rest)
unfolding resolve_loop
resolve_loop-Ends fuel key head none rest h = cc
resolve_loop-Ends zero key head (some (place, e)) rest h = absurd (omega arith)
resolve_loop-Ends (suc fuel) key head (some (place, e)) rest h =
    if-ne (is_embed_directive rest) (cc) (elim (Option-cases (cut rest b'.')) [
      | inl none_left ↦ rw none_left (cc)
      | inr ((next, tail), step) ↦ rw step (
          if-ne (equal tail []) (cc) (
            resolve_loop-Ends fuel key next (child_at place (child_embed 0 (nested_of e) next)) tail
              (omega (arith, length-cut rest b'.' {head = next} {rest = tail} step))))
    ])

pub resolve_embed_param-Ends :
    (embeds : Embeds) (key : Text) → Ends (resolve_embed_param embeds key)
unfolding resolve_embed_param
resolve_embed_param-Ends embeds key = from (cut key b'.')
  where
    from : (halves : Option (Text × Text)) → Ends (resolve_from embeds key halves)
    from none = cc
    from (some (head, rest)) = if-ne (equal rest []) (cc) (
        resolve_loop-Ends (suc (length rest)) key head (find_top_embed embeds head) rest
          (omega arith))

pub change_at-Ends :
    (place : Place) (change : EmbedFields → Parsed EmbedFields) (embeds : Embeds)
    → ((e : EmbedFields) → Ends (change e))
    → Ends (change_at place change embeds)
unfolding change_at
change_at-Ends [] change embeds h = cc
change_at-Ends (i ∷ place) change done h = cc
change_at-Ends (suc i ∷ place) change (more e es) h =
    bind-ne-exhausted (change_at (i ∷ place) change es) _ (change_at-Ends (i ∷ place) change es h)
      (λ es' p. cc)
change_at-Ends (zero ∷ []) change (more (embed e nested) es) h =
    bind-ne-exhausted (change e) _ (h e) (λ e' p. cc)
change_at-Ends (zero ∷ j ∷ place) change (more (embed e nested) es) h =
    bind-ne-exhausted (change_at (j ∷ place) change nested) _
      (change_at-Ends (j ∷ place) change nested h) (λ nested' p. cc)

module _ ⦃u : Unicode⦄ where
  add_order-Ends : (orders : List Order) (part : Text) → Ends (add_order orders part)
  unfolding add_order parse_order_part
  add_order-Ends orders [] = cc
  add_order-Ends orders (c ∷ part) =
      let halves = split_order_direction (c ∷ part) in
      bind-ne-exhausted (parse_order_part (c ∷ part)) _
        (bind-ne-exhausted (parse_field halves.0) _ (parse_field-ne-exhausted halves.0)
          (λ read p. order_of-Ends read halves.1))
        (λ order p. cc)

  add_orders-Ends : (parts : List Text) (orders : List Order) → Ends (add_orders orders parts)
  unfolding add_orders
  add_orders-Ends [] orders = cc
  add_orders-Ends (part ∷ parts) orders =
      bind-ne-exhausted (add_order orders (trim_space part)) _
        (add_order-Ends orders (trim_space part)) (λ orders' p. add_orders-Ends parts orders')

  pub parse_order-Ends : (raw : Text) (orders : List Order) → Ends (parse_order raw orders)
  unfolding parse_order
  parse_order-Ends [] orders = cc
  parse_order-Ends (c ∷ raw) orders = add_orders-Ends (split (c ∷ raw) b',') orders

  pub add_filters-Ends :
      (column : Text) (values : List Text) (filters : List Filter)
      → Ends (add_filters column values filters)
  unfolding add_filters
  add_filters-Ends column [] filters = cc
  add_filters-Ends column (raw ∷ values) filters =
      bind-ne-exhausted (parse_filter column raw) _ (parse_filter-ne-exhausted column raw)
        (λ filter p. add_filters-Ends column values (filters ++ filter ∷ []))

  pub add_groups-Ends :
      (prefix : Text) (is_or : Bool) (values : List Text) (groups : Groups)
      → Ends (add_groups prefix is_or values groups)
  unfolding add_groups
  add_groups-Ends prefix is_or [] groups = cc
  add_groups-Ends prefix is_or (raw ∷ values) groups =
      bind-ne-exhausted (parse_group (prefix ++ raw) is_or) _
        (parse_group-ne-exhausted (prefix ++ raw) is_or)
        (λ g p. add_groups-Ends prefix is_or values (append_group groups g))

  attach_orders-Ends : (values : List Text) (e : EmbedFields) → Ends (attach_orders values e)
  unfolding attach_orders
  attach_orders-Ends [] e = cc
  attach_orders-Ends (raw ∷ values) e =
      bind-ne-exhausted (parse_order raw e.order) _ (parse_order-Ends raw e.order)
        (λ order p. attach_orders-Ends values (record e { order = order }))

  attach_groups-Ends :
      (prefix : Text) (is_or : Bool) (values : List Text) (e : EmbedFields)
      → Ends (attach_groups prefix is_or values e)
  unfolding attach_groups
  attach_groups-Ends prefix is_or values e =
      bind-ne-exhausted (add_groups prefix is_or values e.groups) _
        (add_groups-Ends prefix is_or values e.groups) (λ groups p. cc)

  attach_filters-Ends :
      (column : Text) (values : List Text) (e : EmbedFields) → Ends (attach_filters column values e)
  unfolding attach_filters
  attach_filters-Ends column values e =
      bind-ne-exhausted (add_filters column values e.filters) _
        (add_filters-Ends column values e.filters) (λ filters p. cc)

  pub attach-Ends :
      (rest : Text) (values : List Text) (e : EmbedFields) → Ends (attach rest values e)
  unfolding attach
  attach-Ends rest values e = if-ne (equal rest (codes "order")) (attach_orders-Ends values e) (
      if-ne (equal rest (codes "limit"))
        (bind-ne-exhausted (parse_limit (first_value values) e.limit) _
          (parse_limit-Ends (first_value values) e.limit) (λ limit p. cc))
        (if-ne (equal rest (codes "offset"))
          (bind-ne-exhausted (parse_offset (first_value values) e.offset) _
            (parse_offset-Ends (first_value values) e.offset) (λ offset p. cc))
          (if-ne (equal rest (codes "and")) (attach_groups-Ends [] false values e) (
            if-ne (equal rest (codes "or")) (attach_groups-Ends [] true values e) (
              if-ne (equal rest (codes "not.and"))
                (attach_groups-Ends (codes "not.") false values e)
                (if-ne (equal rest (codes "not.or"))
                  (attach_groups-Ends (codes "not.") true values e)
                  (attach_filters-Ends rest values e)))))))
