-- ===== src/ReadQuery/Presence.antt =====
-- internal/readquery/embed_presence.go and aggregate.go: what a whole query asks of its embeds.
use myrest.Prelude.{Bool, true, false, ◌&&◌, ◌||◌, not, Option, none, some, List, [], ◌∷◌}
use myrest.Text.{Text, codes, equal}
use myrest.ReadQuery.Query.{
  JsonPath, Aggregate, Column, Operator, op_is, Filter, Group, group, Groups, end, also, embed,
  Embeds, done, more, embed_key, Query,
}

abbrev is_op_is : Operator → Bool
is_op_is op_is = true
is_op_is _ = false

abbrev has_path : Option JsonPath → Bool
has_path none = false
has_path (some path) = true

unfoldable pub is_null_check : Filter → Bool
unfolding equal
is_null_check filter =
    is_op_is filter.op
    && equal filter.value (codes "null")
    && not (has_path filter.path)
    && not filter.value_quoted

unfoldable pub has_embed_key : Embeds → Text → Bool
unfolding equal embed_key
has_embed_key done name = false
has_embed_key (more e es) name = equal name (embed_key e) || has_embed_key es name

unfoldable pub filters_presence : Embeds → List Filter → Bool
filters_presence embeds [] = false
filters_presence embeds (filter ∷ filters) =
    (is_null_check filter && has_embed_key embeds filter.column) || filters_presence embeds filters

-- Whether refuseEmbedPresenceGroup refuses the tree: there is one message for every refusal.
unfoldable mutual
  pub group_presence : Embeds → Group → Bool
  group_presence embeds (group is_or filters groups negated) =
      filters_presence embeds filters || groups_presence embeds groups

  pub groups_presence : Embeds → Groups → Bool
  groups_presence embeds end = false
  groups_presence embeds (also g gs) = group_presence embeds g || groups_presence embeds gs

-- The nested queries of refuseEmbedPresence.
unfoldable pub embeds_presence : Embeds → Bool
embeds_presence done = false
embeds_presence (more (embed e nested) es) =
    filters_presence nested e.filters
    || groups_presence nested e.groups
    || embeds_presence nested
    || embeds_presence es

unfoldable pub query_presence : Query → Bool
query_presence query =
    filters_presence query.embeds query.filters
    || groups_presence query.embeds query.groups
    || embeds_presence query.embeds

abbrev is_reduced : Option Aggregate → Bool
is_reduced none = false
is_reduced (some agg) = true

unfoldable pub columns_aggregate : List Column → Bool
columns_aggregate [] = false
columns_aggregate (column ∷ columns) = is_reduced column.agg || columns_aggregate columns

unfoldable pub embeds_aggregate : Embeds → Bool
embeds_aggregate done = false
embeds_aggregate (more (embed e nested) es) =
    columns_aggregate e.columns || embeds_aggregate nested || embeds_aggregate es

-- HasAggregates.
unfoldable pub has_aggregates : Query → Bool
has_aggregates query = columns_aggregate query.columns || embeds_aggregate query.embeds
