-- ===== src/ReadQuery/Parse/Ends.antt =====
-- Parse ends: none of its recursions runs out of fuel.
use myrest.Prelude.{◌≢◌, true, false, none, List, [], ◌∷◌, err, if-ne}
use myrest.Text.{Text, codes, contains}
use myrest.Text.Unicode.{Unicode}
use myrest.Prefer.{CountMode}
use myrest.ReadQuery.Query.{Groups, Query}
use myrest.ReadQuery.Failure.{exhausted, bind-ne-exhausted}
use myrest.ReadQuery.Filter.{is_listed}
use myrest.ReadQuery.Order.{parse_order, parse_limit, parse_offset, apply_count_mode}
use myrest.ReadQuery.Select.{parse_select}
use myrest.ReadQuery.Select.Ends.{parse_select-ne-exhausted}
use myrest.ReadQuery.EmbedParams.{
  resolve_embed_param, add_filters, add_groups, attach, attach_embed_param,
}
use myrest.ReadQuery.Presence.{query_presence}
use myrest.ReadQuery.Parse.{
  Values, get, values_of, reserved_query_keys, sorted_keys, parse_key, parse_keys,
  parse_column_filters, parse_logical_groups, refuse_embed_presence, parse_query,
}
use myrest.ReadQuery.Parse.Params.{
  Ends, parse_limit-Ends, parse_offset-Ends, apply_count_mode-Ends, resolve_embed_param-Ends,
  change_at-Ends, parse_order-Ends, add_filters-Ends, add_groups-Ends, attach-Ends,
}

refuse_embed_presence-Ends : ⦃u : Unicode⦄ (query : Query) → Ends (refuse_embed_presence query)
unfolding refuse_embed_presence
refuse_embed_presence-Ends query = if-ne (query_presence query) (cc) (cc)

module _ ⦃u : Unicode⦄ where
  parse_key-Ends :
      (values : Values) (query : Query) (key : Text) → Ends (parse_key values query key)
  unfolding parse_key attach_embed_param
  parse_key-Ends values query key = if-ne (is_listed key reserved_query_keys) (cc) (
      if-ne (contains key (codes "."))
        (bind-ne-exhausted (attach_embed_param query.embeds key (values_of values key)) _
          (bind-ne-exhausted (resolve_embed_param query.embeds key) _
            (resolve_embed_param-Ends query.embeds key)
            (λ found p.
              change_at-Ends found.0 (attach found.1 (values_of values key)) query.embeds
                (attach-Ends found.1 (values_of values key))))
          (λ embeds p. cc))
        (bind-ne-exhausted (add_filters key (values_of values key) query.filters) _
          (add_filters-Ends key (values_of values key) query.filters) (λ filters p. cc)))

  parse_keys-Ends :
      (values : Values) (keys : List Text) (query : Query) → Ends (parse_keys values query keys)
  unfolding parse_keys
  parse_keys-Ends values [] query = cc
  parse_keys-Ends values (key ∷ keys) query =
      bind-ne-exhausted (parse_key values query key) _ (parse_key-Ends values query key)
        (λ query' p. parse_keys-Ends values keys query')

  parse_logical_groups-Ends :
      (values : Values) (groups : Groups) → Ends (parse_logical_groups values groups)
  unfolding parse_logical_groups
  parse_logical_groups-Ends values groups =
      bind-ne-exhausted (add_groups [] true _ groups) _ (add_groups-Ends [] true _ groups) (λ a p.
        bind-ne-exhausted (add_groups (codes "not.") true _ a) _
          (add_groups-Ends (codes "not.") true _ a)
          (λ b q.
            bind-ne-exhausted (add_groups [] false _ b) _ (add_groups-Ends [] false _ b)
              (λ c r. add_groups-Ends (codes "not.") false _ c)))

  -- Parse ends on all parameters, with a query or with a failure of the source: the fuel of its
  -- recursions, on the nesting of selects, paths and trees and on dotted keys, never runs out.
  pub parse_query-ne-exhausted :
      (values : Values) (count : CountMode) → parse_query values count ≢ err exhausted
  unfolding parse_query parse_column_filters
  parse_query-ne-exhausted values count =
      bind-ne-exhausted (parse_select (get values (codes "select"))) _
        (parse_select-ne-exhausted (get values (codes "select")))
        (λ selected a.
          bind-ne-exhausted (parse_order (get values (codes "order")) []) _
            (parse_order-Ends (get values (codes "order")) [])
            (λ order b.
              bind-ne-exhausted (parse_limit (get values (codes "limit")) none) _
                (parse_limit-Ends (get values (codes "limit")) none)
                (λ limit c.
                  bind-ne-exhausted (parse_offset (get values (codes "offset")) 0) _
                    (parse_offset-Ends (get values (codes "offset")) 0)
                    (λ offset d.
                      bind-ne-exhausted (apply_count_mode count false) _
                        (apply_count_mode-Ends count false)
                        (λ exact e.
                          bind-ne-exhausted (parse_column_filters values _) _
                            (parse_keys-Ends values (sorted_keys values) _)
                            (λ query f.
                              bind-ne-exhausted (parse_logical_groups values query.groups) _
                                (parse_logical_groups-Ends values query.groups)
                                (λ groups g. refuse_embed_presence-Ends _)))))))
