-- ===== src/ReadQuery/Parse.antt =====
-- internal/readquery/parse.go: Parse, from the values of the URL to a query.
pub mod Params
pub mod Ends
use myrest.Prelude.{
  ℕ, Bool, true, false, ◌&&◌, ◌||◌, Option, none, some, List, [], ◌∷◌, ◌++◌, ltb, ◌==◌,
  if◌then◌else◌, Result, ok, err, ◌>>=◌,
}
use myrest.Text.{Text, codes, equal, contains}
use myrest.Text.Unicode.{Unicode}
use myrest.Prefer.{CountMode}
use myrest.ReadQuery.Query.{Embeds, Groups, Query, zero_query}
use myrest.ReadQuery.Failure.{Message, embed_presence, Failure, Parsed, gap}
use myrest.ReadQuery.Filter.{is_listed}
use myrest.ReadQuery.Order.{parse_order, parse_limit, parse_offset, apply_count_mode}
use myrest.ReadQuery.Select.{Selected, parse_select}
use myrest.ReadQuery.EmbedParams.{first_value, add_filters, add_groups, attach_embed_param}
use myrest.ReadQuery.Presence.{query_presence}

-- url.Values: the keys of the map, each with its values.
abbrev pub Values : Type 0
Values = List (Text × List Text)

unfoldable pub values_of : Values → Text → List Text
unfolding equal
values_of [] key = []
values_of ((k, values) ∷ rest) key =
    let others = values_of rest key in if equal k key then values else others

-- url.Values.Get.
unfoldable pub get : Values → Text → Text
unfolding values_of
get values key = first_value (values_of values key)

abbrev pub reserved_query_keys : List Text
reserved_query_keys =
    codes "select"
    ∷ codes "order"
    ∷ codes "limit"
    ∷ codes "offset"
    ∷ codes "and"
    ∷ codes "not.and"
    ∷ codes "or"
    ∷ codes "not.or"
    ∷ codes "columns"
    ∷ []

-- The order of sort.Strings, which on valid UTF-8 is that of the code points.
unfoldable pub text_less : Text → Text → Bool
text_less a [] = false
text_less [] (d ∷ b) = true
text_less (c ∷ a) (d ∷ b) = ltb c d || (c == d && text_less a b)

unfoldable pub insert_key : Text → List Text → List Text
unfolding text_less
insert_key key [] = key ∷ []
insert_key key (k ∷ keys) =
    let rest = insert_key key keys in if text_less k key then k ∷ rest else key ∷ k ∷ keys

unfoldable pub sorted_keys : Values → List Text
unfolding insert_key
sorted_keys [] = []
sorted_keys ((key, values) ∷ rest) = insert_key key (sorted_keys rest)

module _ ⦃u : Unicode⦄ where
  -- One round of the loop of parseColumnFilters.
  unfoldable pub parse_key : Values → Query → Text → Parsed Query
  unfolding is_listed
  parse_key values query key =
      if is_listed key reserved_query_keys
      then ok query
      else if contains key (codes ".")
      then (attach_embed_param query.embeds key (values_of values key) >>= λ embeds.
          ok (record query { embeds = embeds }))
      else (add_filters key (values_of values key) query.filters >>= λ filters.
          ok (record query { filters = filters }))

  unfoldable pub parse_keys : Values → Query → List Text → Parsed Query
  parse_keys values query [] = ok query
  parse_keys values query (key ∷ keys) = do
    query' ← parse_key values query key
    parse_keys values query' keys

  unfoldable pub parse_column_filters : Values → Query → Parsed Query
  unfolding sorted_keys
  parse_column_filters values query = parse_keys values query (sorted_keys values)

  unfoldable pub parse_logical_groups : Values → Groups → Parsed Groups
  parse_logical_groups values groups = do
    a ← add_groups [] true (values_of values (codes "or")) groups
    b ← add_groups (codes "not.") true (values_of values (codes "not.or")) a
    c ← add_groups [] false (values_of values (codes "and")) b
    add_groups (codes "not.") false (values_of values (codes "not.and")) c

  unfoldable pub refuse_embed_presence : Query → Parsed Query
  refuse_embed_presence query = if query_presence query then gap embed_presence else ok query

  -- Parse; the fields that a step of it does not name are those of Query{}.
  unfoldable pub parse_query : Values → CountMode → Parsed Query
  unfolding get
  parse_query values count = do
    selected ← parse_select (get values (codes "select"))
    order ← parse_order (get values (codes "order")) []
    limit ← parse_limit (get values (codes "limit")) none
    offset ← parse_offset (get values (codes "offset")) 0
    exact ← apply_count_mode count false
    let query = record zero_query {
      columns = selected.columns;
      embeds = selected.embeds;
      select_all = selected.select_all;
      order = order;
      limit = limit;
      offset = offset;
      exact_count = exact;
    }
    filtered ← parse_column_filters values query
    groups ← parse_logical_groups values filtered.groups
    refuse_embed_presence (record filtered { groups = groups })
