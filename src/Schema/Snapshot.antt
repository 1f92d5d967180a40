-- ===== src/Schema/Snapshot.antt =====
-- internal/schemacache/cache.go: the snapshot that is built from a catalogue, and the questions
-- that requests ask it. The lock of the cache is not modelled: a request reads one snapshot, and
-- Replace puts a whole one in its place.
use myrest.Prelude.{Bool, true, false, not, Option, none, some, List, [], is_some, if◌then◌else◌}
use myrest.Text.{Text, codes}
use myrest.Dict.{text_eq, Dict, holds, add_all, keys, find, items, append_at, gather, put_each}
use myrest.Schema.{TableId, Column, Table}
use myrest.Schema.Facts.{
  ColumnFact, CommentFact, KeyFact, ForeignKeyFact, RoutineId, RoutineFact, Catalog, TablePrivilege,
  RoutinePrivilege, table_id_eq, routine_id_eq, table_privilege_eq, routine_privilege_eq,
}
use myrest.Schema.Grants.{bare_name, select_privilege, privilege_graph, routine_privilege_graph}

pub record Snapshot : Type 0 where
  pub tables : Dict TableId Table
  pub views : List TableId
  pub view_set : List TableId
  pub updatable_views : List TableId
  pub comments : Dict TableId Text
  pub columns : Dict TableId (List Column)
  pub keys : Dict TableId (List KeyFact)
  pub foreign_keys : List ForeignKeyFact
  pub routines : List RoutineFact
  pub routines_by_id : Dict RoutineId RoutineFact
  pub table_privileges : Dict Text (List TablePrivilege)
  pub routine_privileges : Dict Text (List RoutinePrivilege)

unfoldable pub column_of_fact : ColumnFact → Column
column_of_fact fact = record {
  name = fact.name;
  data_type = fact.data_type;
  collation = fact.collation;
  nullable = fact.nullable;
  default = fact.default;
  comment = fact.comment;
  generated = fact.generated;
  auto_increment = fact.auto_increment;
}

unfoldable pub columns_by_table : List ColumnFact → Dict TableId (List Column)
columns_by_table facts = gather append_at (λ (f : ColumnFact). f.table) column_of_fact facts []

-- The loop over the tables, and then over the views.
unfoldable pub tables_from :
    Dict TableId (List Column) → List TableId → Dict TableId Table → Dict TableId Table
tables_from columns =
    put_each (λ (id : TableId). id) (λ id. record { id = id; columns = items columns id })

unfoldable pub keys_by_table : List KeyFact → Dict TableId (List KeyFact)
keys_by_table facts = gather append_at (λ (f : KeyFact). f.table) (λ f. f) facts []

-- indexRoutines: a later fact of the same id replaces an earlier one.
unfoldable pub index_routines : List RoutineFact → Dict RoutineId RoutineFact
index_routines facts = put_each (λ (f : RoutineFact). f.id) (λ f. f) facts []

unfoldable pub build_snapshot : Catalog → Snapshot
build_snapshot catalog =
    let columns = columns_by_table catalog.columns in
    record {
      tables = tables_from columns catalog.views (tables_from columns catalog.tables []);
      views = catalog.views;
      view_set = add_all catalog.views [];
      updatable_views = add_all catalog.updatable_views [];
      comments =
          put_each (λ (f : CommentFact). f.relation) (λ f. f.comment) catalog.relation_comments [];
      columns = columns;
      keys = keys_by_table catalog.keys;
      foreign_keys = catalog.foreign_keys;
      routines = catalog.routines;
      routines_by_id = index_routines catalog.routines;
      table_privileges = privilege_graph catalog;
      routine_privileges = routine_privilege_graph catalog;
    }

unfoldable pub has_table_privilege_from : Snapshot → Text → TableId → Text → Bool
has_table_privilege_from snapshot role id privilege =
    holds (items snapshot.table_privileges (bare_name role))
      (record { table = id; privilege = privilege })

unfoldable pub has_routine_privilege_from : Snapshot → Text → RoutineId → Text → Bool
has_routine_privilege_from snapshot role id privilege =
    holds (items snapshot.routine_privileges (bare_name role))
      (record { routine = id; privilege = privilege })

abbrev pub granted_only {ℓ} : {A : Type ℓ} → Option A → Bool → Option A
granted_only none held = none
granted_only (some a) held = if held then some a else none

unfoldable pub table_with_privilege_from : Snapshot → Text → TableId → Text → Option Table
table_with_privilege_from snapshot role id privilege =
    granted_only (find snapshot.tables id) (has_table_privilege_from snapshot role id privilege)

-- Cache.Resource
unfoldable pub resource : Snapshot → Text → TableId → Option Table
resource snapshot role id = table_with_privilege_from snapshot role id select_privilege

unfoldable pub routine_from : Snapshot → Text → RoutineId → Option RoutineFact
routine_from snapshot role id =
    granted_only (find snapshot.routines_by_id id)
      (has_routine_privilege_from snapshot role id (codes "EXECUTE"))

unfoldable pub table_ids_from : Snapshot → List TableId
table_ids_from snapshot = keys snapshot.tables

unfoldable pub has_table_in : Snapshot → TableId → Bool
has_table_in snapshot id = is_some (find snapshot.tables id)

unfoldable pub is_writable_in : Snapshot → TableId → Bool
is_writable_in snapshot id =
    if not (has_table_in snapshot id)
    then false
    else (if holds snapshot.view_set id then holds snapshot.updatable_views id else true)

abbrev or_empty : Option Text → Text
or_empty none = []
or_empty (some text) = text

unfoldable pub comment_from : Snapshot → TableId → Text
comment_from snapshot id = or_empty (find snapshot.comments id)

unfoldable pub columns_from : Snapshot → TableId → List Column
columns_from snapshot id = items snapshot.columns id

unfoldable pub keys_from : Snapshot → TableId → List KeyFact
keys_from snapshot id = items snapshot.keys id
