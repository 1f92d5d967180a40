-- ===== src/Sql/Marks/Requests.antt =====
-- From a whole request to its statement: what Parse accepts, the builders turn into a statement
-- with one placeholder for each argument.
use myrest.Prelude.{
  ℕ, suc, ◌≡◌, Bool, true, false, Option, none, List, [], ◌∷◌, ◌++◌, length, ok, ◌>>=◌, All,
  All-append, AllOk, AllOk-bind, AllOk-any, AllOk-ok, if-both,
}
use myrest.Text.{Text, codes, contains}
use myrest.Text.Unicode.{Unicode}
use myrest.Prefer.{CountMode}
use myrest.ReadQuery.Query.{Filter, Groups, append_group, Order, Query, zero_query}
use myrest.ReadQuery.Filter.{is_listed, parse_filter}
use myrest.ReadQuery.Groups.{parse_group}
use myrest.ReadQuery.Order.{parse_order, parse_limit, parse_offset, apply_count_mode}
use myrest.ReadQuery.Select.{Selected, parse_select}
use myrest.ReadQuery.EmbedParams.{add_filters, add_groups, attach_embed_param}
use myrest.ReadQuery.Presence.{query_presence}
use myrest.ReadQuery.Parse.{
  Values, get, values_of, reserved_query_keys, parse_key, parse_keys, sorted_keys,
  parse_column_filters, parse_logical_groups, refuse_embed_presence, parse_query,
}
use myrest.Schema.{Table}
use myrest.Sql.Select.{SqlParts, build_select, build_count}
use myrest.Sql.Marks.{plain, marks}
use myrest.Sql.Marks.Conditions.{SafeFilter}
use myrest.Sql.Marks.Clauses.{SafeGroup, SafeGroups}
use myrest.Sql.Marks.Columns.{SafeOrder}
use myrest.Sql.Marks.Accepted.{parse_filter-SafeFilter}
use myrest.Sql.Marks.Trees.{append_group-SafeGroups, parse_group_on-SafeGroup}
use myrest.Sql.Marks.Statements.{SafeQuery, build_select-marks, build_count-marks}
use myrest.Sql.Marks.Lists.{parse_order-SafeOrder, SafeSelected, parse_select-SafeSelected}

module _ ⦃u : Unicode⦄ where
  add_filters-SafeFilter :
      (column : Text) (values : List Text) (filters : List Filter)
      → All SafeFilter filters
      → AllOk (All SafeFilter) (add_filters column values filters)
  unfolding add_filters
  add_filters-SafeFilter column [] filters h = h
  add_filters-SafeFilter column (raw ∷ values) filters h =
      AllOk-bind SafeFilter (All SafeFilter) (parse_filter column raw) _
        (parse_filter-SafeFilter column raw)
        (λ filter k.
          add_filters-SafeFilter column values (filters ++ filter ∷ [])
            (All-append SafeFilter filters (filter ∷ []) h (k, tt)))

  add_groups-SafeGroups :
      (prefix : Text) (is_or : Bool) (values : List Text) (groups : Groups)
      → SafeGroups groups
      → AllOk SafeGroups (add_groups prefix is_or values groups)
  unfolding add_groups parse_group
  add_groups-SafeGroups prefix is_or [] groups h = h
  add_groups-SafeGroups prefix is_or (raw ∷ values) groups h =
      AllOk-bind SafeGroup SafeGroups (parse_group (prefix ++ raw) is_or) _
        (parse_group_on-SafeGroup (suc (length (prefix ++ raw))) (prefix ++ raw) is_or)
        (λ g k.
          add_groups-SafeGroups prefix is_or values (append_group groups g)
            (append_group-SafeGroups groups g h k))

  parse_logical_groups-SafeGroups :
      (values : Values) (groups : Groups)
      → SafeGroups groups
      → AllOk SafeGroups (parse_logical_groups values groups)
  unfolding parse_logical_groups
  parse_logical_groups-SafeGroups values groups h =
      AllOk-bind SafeGroups SafeGroups (add_groups [] true _ groups) _
        (add_groups-SafeGroups [] true _ groups h)
        (λ a ha.
          AllOk-bind SafeGroups SafeGroups (add_groups (codes "not.") true _ a) _
            (add_groups-SafeGroups (codes "not.") true _ a ha)
            (λ b hb.
              AllOk-bind SafeGroups SafeGroups (add_groups [] false _ b) _
                (add_groups-SafeGroups [] false _ b hb)
                (λ c hc. add_groups-SafeGroups (codes "not.") false _ c hc)))

  parse_key-SafeQuery :
      (values : Values) (query : Query) (key : Text)
      → SafeQuery query
      → AllOk SafeQuery (parse_key values query key)
  unfolding parse_key
  parse_key-SafeQuery values query key h =
      if-both (AllOk SafeQuery) (is_listed key reserved_query_keys) h (
        if-both (AllOk SafeQuery) (contains key (codes "."))
          (AllOk-bind (λ x. Unit {0}) SafeQuery
            (attach_embed_param query.embeds key (values_of values key)) _ (AllOk-any _ (λ x. tt) _)
            (λ embeds x. record {
              columns = h.columns;
              filters = h.filters;
              groups = h.groups;
              order = h.order;
            }))
          (AllOk-bind (All SafeFilter) SafeQuery
            (add_filters key (values_of values key) query.filters) _
            (add_filters-SafeFilter key (values_of values key) query.filters h.filters)
            (λ filters k. record {
              columns = h.columns;
              filters = k;
              groups = h.groups;
              order = h.order;
            })))

  parse_keys-SafeQuery :
      (values : Values) (keys : List Text) (query : Query)
      → SafeQuery query
      → AllOk SafeQuery (parse_keys values query keys)
  unfolding parse_keys
  parse_keys-SafeQuery values [] query h = h
  parse_keys-SafeQuery values (key ∷ keys) query h =
      AllOk-bind SafeQuery SafeQuery (parse_key values query key) _
        (parse_key-SafeQuery values query key h)
        (λ query' k. parse_keys-SafeQuery values keys query' k)

  refuse_embed_presence-SafeQuery :
      (query : Query) → SafeQuery query → AllOk SafeQuery (refuse_embed_presence query)
  unfolding refuse_embed_presence
  refuse_embed_presence-SafeQuery query h = if-both (AllOk SafeQuery) (query_presence query) tt h

  parse_query-SafeQuery :
      (values : Values) (count : CountMode) → AllOk SafeQuery (parse_query values count)
  unfolding parse_query parse_column_filters
  parse_query-SafeQuery values count =
      AllOk-bind SafeSelected SafeQuery (parse_select (get values (codes "select"))) _
        (parse_select-SafeSelected (get values (codes "select")))
        (λ selected s.
          AllOk-bind (All SafeOrder) SafeQuery (parse_order (get values (codes "order")) []) _
            (parse_order-SafeOrder (get values (codes "order")))
            (λ order o.
              AllOk-bind Any SafeQuery (parse_limit (get values (codes "limit")) none) _
                (AllOk-any Any (λ x. tt) _)
                (λ limit x.
                  AllOk-bind Any SafeQuery (parse_offset (get values (codes "offset")) 0) _
                    (AllOk-any Any (λ x. tt) _)
                    (λ offset y.
                      AllOk-bind Any SafeQuery (apply_count_mode count false) _
                        (AllOk-any Any (λ x. tt) _)
                        (λ exact z. filtered selected order limit offset exact s o)))))
    where
      Any : {A : Type 0} → A → Type 0
      Any x = Unit {0}

      filtered :
          (selected : Selected) (order : List Order) (limit : Option ℕ) (offset : ℕ) (exact : Bool)
          → SafeSelected selected
          → All SafeOrder order
          → AllOk SafeQuery (
              parse_column_filters values (record zero_query {
                columns = selected.columns;
                embeds = selected.embeds;
                select_all = selected.select_all;
                order = order;
                limit = limit;
                offset = offset;
                exact_count = exact;
              })
              >>= λ filtered. parse_logical_groups values filtered.groups >>= λ groups.
                  refuse_embed_presence (record filtered { groups = groups }))
      filtered selected order limit offset exact s o =
          AllOk-bind SafeQuery SafeQuery (parse_column_filters values _) _
            (parse_keys-SafeQuery values (sorted_keys values) _
              (record { columns = s; filters = tt; groups = tt; order = o }))
            (λ query h.
              AllOk-bind SafeGroups SafeQuery (parse_logical_groups values query.groups) _
                (parse_logical_groups-SafeGroups values query.groups h.groups)
                (λ groups g. refuse_embed_presence-SafeQuery _ (record {
                  columns = h.columns;
                  filters = h.filters;
                  groups = g;
                  order = h.order;
                })))

  -- From the URL to SQL: when Parse accepts the parameters of a request and a SELECT is built for
  -- the query on a table, the statement has, outside its quoted identifiers and strings, exactly
  -- one placeholder for each of its arguments, whatever the parameters hold.
  pub build_select-parse_query :
      (values : Values) (count : CountMode) (query : Query) (table : Table) (parts : SqlParts)
      → parse_query values count ≡ ok query
      → build_select table query ≡ ok parts
      → marks plain parts.statement ≡ length parts.args
  build_select-parse_query values count query table parts e f =
      build_select-marks table query parts
        (AllOk-ok SafeQuery (parse_query values count) (parse_query-SafeQuery values count) e) f

  -- The same holds for the COUNT statement of the query.
  pub build_count-parse_query :
      (values : Values) (count : CountMode) (query : Query) (table : Table) (parts : SqlParts)
      → parse_query values count ≡ ok query
      → build_count table query ≡ ok parts
      → marks plain parts.statement ≡ length parts.args
  build_count-parse_query values count query table parts e f =
      build_count-marks table query parts
        (AllOk-ok SafeQuery (parse_query values count) (parse_query-SafeQuery values count) e) f
