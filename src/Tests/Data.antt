-- ===== src/Tests/Data.antt =====
-- A table, filters, a logical tree and queries for the examples.
use myrest.Prelude.{true, false, none, some, List, [], ◌∷◌}
use myrest.Text.{Text, codes}
use myrest.ReadQuery.Query.{
  PathStep, key, index, op_gte, op_in, op_is, Filter, Group, group, end, also, Query, zero_query,
}
use myrest.Schema.{Table, Column as TableColumn}

abbrev pub at_least_18 : Filter
at_least_18 = record {
  column = codes "age";
  path = none;
  op = op_gte;
  value = codes "18";
  values = [];
  negated = false;
  value_quoted = true;
}

-- The second value holds a comma and a quote.
abbrev pub named : Filter
named = record {
  column = codes "name";
  path = none;
  op = op_in;
  value = [];
  values = codes "Ann" ∷ codes "O,\"B" ∷ [];
  negated = true;
  value_quoted = false;
}

abbrev pub retired : Filter
retired = record {
  column = codes "retired";
  path = none;
  op = op_is;
  value = codes "not_null";
  values = [];
  negated = false;
  value_quoted = false;
}

-- not.(age.gte."18",or(name.not.in.(...),retired.is.not_null))
abbrev pub tree : Group
tree = group false (at_least_18 ∷ []) (also (group true (named ∷ retired ∷ []) end false) end) true

abbrev pub legs : List Text
legs = codes "items" ∷ codes "0" ∷ []

abbrev pub leg_steps : List PathStep
leg_steps = key (codes "items") ∷ index 0 ∷ []

abbrev plain_column : Text → Text → TableColumn
plain_column name data_type = record {
  name = name;
  data_type = data_type;
  collation = [];
  nullable = false;
  default = none;
  comment = [];
  generated = false;
  auto_increment = false;
}

abbrev pub people : Table
people = record {
  id = record { database = codes "shop"; name = codes "people" };
  columns =
      plain_column (codes "age") (codes "int")
      ∷ plain_column (codes "name") (codes "text")
      ∷ plain_column (codes "retired") (codes "date")
      ∷ plain_column (codes "data") (codes "json")
      ∷ [];
}

-- select=name,data->items->>0, the tree above, order=age.desc, limit=10, offset=20
abbrev pub adults : Query
adults = record zero_query {
  columns =
      record { name = codes "name"; alias = codes "who"; path = none; agg = none; star = false }
      ∷ record {
        name = codes "data";
        alias = [];
        path = some (record { steps = leg_steps; as_text = true });
        agg = none;
        star = false;
      }
      ∷ [];
  filters = at_least_18 ∷ [];
  groups = also tree end;
  order = record { column = codes "age"; path = none; desc = true } ∷ [];
  limit = some 10;
  offset = 20;
}
