-- ===== src/Tests/Granting.antt =====
-- Examples of the schema cache: a catalogue whose role grants run in a circle, and its embeds.
use myrest.Prelude.{
  ◌≡◌, ◌↔◌, refl, inl, true, false, none, some, ok, [], ◌∷◌, ◌&&◌, Among, if◌then◌else◌,
}
use myrest.Text.{Text, codes, cut, equal}
use myrest.Dict.{find, holds, gather, append_at, add_at, items, put, put_each, keys, add, add_all}
use myrest.Schema.{TableId}
use myrest.Schema.Facts.{ColumnFact, ForeignKeyFact, RoutineFact, Catalog, table_id_eq}
use myrest.Schema.Grants.{
  bare_name, select_privilege, privilege_graph, routine_privilege_graph, grant_graph,
  direct_privileges, direct_routine_privileges, expand, expand_missing, expand_roles, held_by, walk,
  visit_each, mark,
}
use myrest.Schema.Privileges.{HoldsTable, has_table_privilege_from-HoldsTable, HoldsRoutine}
use myrest.Schema.Snapshot.{
  build_snapshot, has_table_privilege_from, table_with_privilege_from, routine_from,
  has_routine_privilege_from, columns_by_table, tables_from, keys_by_table, index_routines,
  column_of_fact,
}
use myrest.Schema.Tables.{is_listed, listed_columns, table_with_privilege_from-build_snapshot}
use myrest.Schema.Routines.{execute, routine_from-HoldsRoutine}
use myrest.Schema.Relationship.{
  many_to_one_from, resolve_embed_in, relationships, fk_paths, relationship_from_fk,
  many_to_many_paths, many_to_many_loop, join_path, join_table_fks, join_loop, both_fks,
  covered_path, pk_covers_fks, choose, one_to_many_from, primary_key_columns,
}
use myrest.Schema.Resolve.{Explains, resolve_embed_in-Explains, resolve_embed_in_only}

abbrev in_shop : Text → TableId
in_shop name = record { database = codes "shop"; name = name }

abbrev orders : TableId
orders = in_shop (codes "orders")

abbrev customers : TableId
customers = in_shop (codes "customers")

abbrev customer_id : ColumnFact
customer_id = record {
  table = orders;
  name = codes "customer_id";
  data_type = codes "int";
  collation = [];
  nullable = false;
  default = none;
  comment = [];
  generated = false;
  auto_increment = false;
}

abbrev by_customer : ForeignKeyFact
by_customer = record {
  name = codes "by_customer";
  table = orders;
  columns = codes "customer_id" ∷ [];
  referenced_table = customers;
  referenced_columns = codes "id" ∷ [];
  update_rule = codes "CASCADE";
  delete_rule = codes "RESTRICT";
}

abbrev ship : RoutineFact
ship = record {
  id = record { database = codes "shop"; name = codes "ship" };
  kind = codes "PROCEDURE";
  comment = [];
  return_type = [];
  sql_data_access = codes "MODIFIES SQL DATA";
  parameters = [];
}

-- The web role holds the reader role, and the reader role the web role.
abbrev pub shop : Catalog
shop = record {
  tables = orders ∷ customers ∷ [];
  views = in_shop (codes "totals") ∷ [];
  updatable_views = [];
  relation_comments = [];
  columns = customer_id ∷ [];
  keys = [];
  foreign_keys = by_customer ∷ [];
  routines = ship ∷ [];
  selects = record { role = codes "reader@%"; table = customers } ∷ [];
  table_privileges = [];
  routine_privileges =
      record {
        role = codes "web@localhost";
        routine = record { database = codes "shop"; name = codes "ship" };
        privilege = codes "EXECUTE";
      }
      ∷ [];
  roles =
      record { holder = codes "web@localhost"; granted = codes "reader@%" }
      ∷ record { holder = codes "reader"; granted = codes "web" }
      ∷ [];
}

has_table_privilege_from-HoldsTable_example :
    (has_table_privilege_from
        (build_snapshot shop)
        (codes "web@10.0.0.1")
        customers
        (codes "SELECT")
      ≡ true)
    ↔ HoldsTable shop
        (record { table = customers; privilege = codes "SELECT" })
        (bare_name (codes "web@10.0.0.1"))
has_table_privilege_from-HoldsTable_example =
    has_table_privilege_from-HoldsTable shop (codes "web@10.0.0.1") customers (codes "SELECT")

table_with_privilege_from-build_snapshot_example :
    table_with_privilege_from (build_snapshot shop) (codes "web") orders (codes "INSERT") ≡ (
      if is_listed shop orders
        && has_table_privilege_from (build_snapshot shop) (codes "web") orders (codes "INSERT")
      then some (record { id = orders; columns = listed_columns shop orders })
      else none)
table_with_privilege_from-build_snapshot_example =
    table_with_privilege_from-build_snapshot shop (codes "web") orders (codes "INSERT")

ship_found : routine_from (build_snapshot shop) (codes "web") ship.id ≡ some ship
unfolding has_table_privilege_from has_routine_privilege_from build_snapshot privilege_graph
    routine_privilege_graph grant_graph direct_privileges direct_routine_privileges expand
    expand_missing expand_roles held_by walk visit_each mark gather append_at add_at items find put
    put_each keys holds add add_all bare_name cut equal columns_by_table tables_from keys_by_table
    index_routines column_of_fact routine_from
ship_found = refl

web_reads_customers :
    has_table_privilege_from (build_snapshot shop) (codes "web") customers select_privilege ≡ true
unfolding has_table_privilege_from has_routine_privilege_from build_snapshot privilege_graph
    routine_privilege_graph grant_graph direct_privileges direct_routine_privileges expand
    expand_missing expand_roles held_by walk visit_each mark gather append_at add_at items find put
    put_each keys holds add add_all bare_name cut equal columns_by_table tables_from keys_by_table
    index_routines column_of_fact
web_reads_customers = refl

routine_from-HoldsRoutine_example :
    (ship.id ≡ ship.id)
    × (Among ship shop.routines)
    × HoldsRoutine shop
        (record { routine = ship.id; privilege = execute })
        (bare_name (codes "web"))
routine_from-HoldsRoutine_example = routine_from-HoldsRoutine shop (codes "web") ship.id ship_found

resolve_embed_in-Explains_example :
    Explains (build_snapshot shop) (codes "web") orders (codes "customers") (codes "by_customer") (
      resolve_embed_in
        (build_snapshot shop)
        (codes "web")
        orders
        (codes "customers")
        (codes "by_customer"))
resolve_embed_in-Explains_example =
    resolve_embed_in-Explains (build_snapshot shop) (codes "web") orders (codes "customers")
      (codes "by_customer")

customers_embedded :
    resolve_embed_in (build_snapshot shop) (codes "web") orders (codes "customers") []
    ≡ ok (many_to_one_from by_customer)
unfolding has_table_privilege_from has_routine_privilege_from build_snapshot privilege_graph
    routine_privilege_graph grant_graph direct_privileges direct_routine_privileges expand
    expand_missing expand_roles held_by walk visit_each mark gather append_at add_at items find put
    put_each keys holds add add_all bare_name cut equal columns_by_table tables_from keys_by_table
    index_routines column_of_fact resolve_embed_in relationships fk_paths relationship_from_fk
    many_to_many_paths many_to_many_loop join_path join_table_fks join_loop both_fks covered_path
    pk_covers_fks choose many_to_one_from one_to_many_from primary_key_columns
customers_embedded = refl

by_customer_held : Among by_customer (build_snapshot shop).foreign_keys
unfolding build_snapshot
by_customer_held = inl refl

resolve_embed_in_only_example : many_to_one_from by_customer ≡ many_to_one_from by_customer
resolve_embed_in_only_example =
    resolve_embed_in_only (build_snapshot shop) (codes "web") orders (codes "customers") by_customer
      customers_embedded by_customer_held (refl, refl)
