-- ===== src/ReadQuery/EmbedParams.antt =====
-- internal/readquery/parse.go: the dotted parameters that shape the rows of an embed.
use myrest.Prelude.{
  ℕ, zero, suc, Bool, true, false, ◌||◌, Option, none, some, List, [], ◌∷◌, ◌++◌, if◌then◌else◌,
  length, ok, err, ◌>>=◌,
}
use myrest.Text.{Text, codes, equal, cut}
use myrest.Text.Unicode.{Unicode}
use myrest.ReadQuery.Query.{
  Filter, Groups, append_group, EmbedFields, Embed, embed, Embeds, done, more, embed_key,
}
use myrest.ReadQuery.Failure.{
  embed_parameter_incomplete, embed_not_found, exhausted, Parsed, refuse,
}
use myrest.ReadQuery.Filter.{is_listed, parse_filter}
use myrest.ReadQuery.Groups.{parse_group}
use myrest.ReadQuery.Order.{parse_order, parse_limit, parse_offset}

-- The place of an embed, as the index at each level of the nesting.
abbrev pub Place : Type 0
Place = List ℕ

abbrev pub resource_of : Embed → Text
resource_of (embed e nested) = e.resource

abbrev pub nested_of : Embed → Embeds
nested_of (embed e nested) = nested

-- childEmbed, with the index of the embed from `i` on.
unfoldable pub child_embed : ℕ → Embeds → Text → Option (ℕ × Embed)
unfolding equal embed_key
child_embed i done name = none
child_embed i (more e es) name =
    let rest = child_embed (suc i) es name in
    if equal (embed_key e) name || equal (resource_of e) name then some (i, e) else rest

abbrev at_top : ℕ × Embed → Place × Embed
at_top (i, e) = (i ∷ [], e)

abbrev below : ℕ → Place × Embed → Place × Embed
below i (place, e) = (i ∷ place, e)

-- The second loop of findTopEmbed: the first nested embed of the name, in depth-first order.
unfoldable pub find_nested : ℕ → Embeds → Text → Option (Place × Embed)
unfolding child_embed
find_nested i done name = none
find_nested i (more (embed e nested) es) name = elim (child_embed 0 nested name) [
  | some found ↦ some (below i (at_top found))
  | none ↦ elim (find_nested 0 nested name) [
    | some found ↦ some (below i found)
    | none ↦ find_nested (suc i) es name
  ]
]

unfoldable pub find_top_embed : Embeds → Text → Option (Place × Embed)
unfolding child_embed find_nested
find_top_embed embeds name = elim (child_embed 0 embeds name) [
  | some found ↦ some (at_top found)
  | none ↦ find_nested 0 embeds name
]

unfoldable pub is_embed_directive : Text → Bool
unfolding is_listed
is_embed_directive rest = is_listed rest (codes "not.and" ∷ codes "not.or" ∷ [])

abbrev pub child_at : Place → Option (ℕ × Embed) → Option (Place × Embed)
child_at place none = none
child_at place (some (i, e)) = some (place ++ i ∷ [], e)

-- The loop of resolveEmbedParam; each round takes a step off the rest.
unfoldable pub resolve_loop :
    ℕ → Text → Text → Option (Place × Embed) → Text → Parsed (Place × Text)
unfolding is_embed_directive cut child_embed
resolve_loop fuel key head none rest = refuse (embed_not_found head key)
resolve_loop zero key head (some (place, e)) rest = err exhausted
resolve_loop (suc fuel) key head (some (place, e)) rest =
    if is_embed_directive rest then ok (place, rest) else elim (cut rest b'.') [
      | none ↦ ok (place, rest)
      | some (next, tail) ↦
          if equal tail []
          then refuse (embed_parameter_incomplete key)
          else resolve_loop fuel key next (child_at place (child_embed 0 (nested_of e) next)) tail
    ]

unfoldable pub resolve_from : Embeds → Text → Option (Text × Text) → Parsed (Place × Text)
unfolding find_top_embed resolve_loop
resolve_from embeds key none = refuse (embed_parameter_incomplete key)
resolve_from embeds key (some (head, rest)) =
    if equal rest []
    then refuse (embed_parameter_incomplete key)
    else resolve_loop (suc (length rest)) key head (find_top_embed embeds head) rest

unfoldable pub resolve_embed_param : Embeds → Text → Parsed (Place × Text)
unfolding resolve_from
resolve_embed_param embeds key = resolve_from embeds key (cut key b'.')

-- A change of the embed at a place, which the source makes through a pointer to it.
unfoldable pub change_at : Place → (EmbedFields → Parsed EmbedFields) → Embeds → Parsed Embeds
change_at [] change embeds = ok embeds
change_at (i ∷ place) change done = ok done
change_at (suc i ∷ place) change (more e es) = do
  es' ← change_at (i ∷ place) change es
  ok (more e es')
change_at (zero ∷ []) change (more (embed e nested) es) = do
  e' ← change e
  ok (more (embed e' nested) es)
change_at (zero ∷ j ∷ place) change (more (embed e nested) es) = do
  nested' ← change_at (j ∷ place) change nested
  ok (more (embed e nested') es)

abbrev pub first_value : List Text → Text
first_value [] = []
first_value (value ∷ values) = value

module _ ⦃u : Unicode⦄ where
  unfoldable pub add_filters : Text → List Text → List Filter → Parsed (List Filter)
  add_filters column [] filters = ok filters
  add_filters column (raw ∷ values) filters = do
    filter ← parse_filter column raw
    add_filters column values (filters ++ filter ∷ [])

  -- A loop of parseLogicalGroups; `prefix` is the "not." that it puts in front of the value.
  unfoldable pub add_groups : Text → Bool → List Text → Groups → Parsed Groups
  add_groups prefix is_or [] groups = ok groups
  add_groups prefix is_or (raw ∷ values) groups = do
    g ← parse_group (prefix ++ raw) is_or
    add_groups prefix is_or values (append_group groups g)

  unfoldable pub attach_orders : List Text → EmbedFields → Parsed EmbedFields
  attach_orders [] e = ok e
  attach_orders (raw ∷ values) e = do
    order ← parse_order raw e.order
    attach_orders values (record e { order = order })

  unfoldable pub attach_groups : Text → Bool → List Text → EmbedFields → Parsed EmbedFields
  attach_groups prefix is_or values e = do
    groups ← add_groups prefix is_or values e.groups
    ok (record e { groups = groups })

  unfoldable pub attach_filters : Text → List Text → EmbedFields → Parsed EmbedFields
  attach_filters column values e = do
    filters ← add_filters column values e.filters
    ok (record e { filters = filters })

  -- The switch of attachEmbedParam.
  unfoldable pub attach : Text → List Text → EmbedFields → Parsed EmbedFields
  unfolding equal
  attach rest values e =
      if equal rest (codes "order")
      then attach_orders values e
      else if equal rest (codes "limit")
      then (parse_limit (first_value values) e.limit >>= λ limit. ok (record e { limit = limit }))
      else if equal rest (codes "offset")
      then (parse_offset (first_value values) e.offset >>= λ offset.
          ok (record e { offset = offset }))
      else if equal rest (codes "and")
      then attach_groups [] false values e
      else if equal rest (codes "or")
      then attach_groups [] true values e
      else if equal rest (codes "not.and")
      then attach_groups (codes "not.") false values e
      else if equal rest (codes "not.or")
      then attach_groups (codes "not.") true values e
      else attach_filters rest values e

  unfoldable pub attach_embed_param : Embeds → Text → List Text → Parsed Embeds
  attach_embed_param embeds key values = do
    found ← resolve_embed_param embeds key
    change_at found.0 (attach found.1 values) embeds
