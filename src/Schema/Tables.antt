-- ===== src/Schema/Tables.antt =====
-- The tables of a snapshot are the tables and views of the catalogue, each with its columns.
use myrest.Prelude.{
  ◌≡◌, refl, Bool, true, false, ◌&&◌, ◌||◌, not, none, some, List, [], if◌then◌else◌, arith,
}
use myrest.Text.{Text}
use myrest.Dict.{holds, find, items}
use myrest.Dict.Laws.{holds-add_all}
use myrest.Dict.Lists.{gather-values_at, values_at, or_else, last_at-holds, put_each-last_at}
use myrest.Schema.{TableId, Column, Table}
use myrest.Schema.Facts.{ColumnFact, Catalog, table_id_eq}
use myrest.Schema.Snapshot.{
  column_of_fact, columns_by_table, tables_from, build_snapshot, has_table_privilege_from,
  table_with_privilege_from, has_table_in, is_writable_in, granted_only,
}

either_list :
    {A : Type 0} (t v : Bool) (x : A)
    → or_else (if v then some x else none) (or_else (if t then some x else none) none)
      ≡ (if t || v then some x else none)
either_list true true x = refl
either_list true false x = refl
either_list false true x = refl
either_list false false x = refl

module _ (catalog : Catalog) where
  -- What the catalogue lists, and with which columns.
  abbrev pub is_listed : TableId → Bool
  is_listed id = holds catalog.tables id || holds catalog.views id

  abbrev pub listed_columns : TableId → List Column
  listed_columns id = values_at (λ (f : ColumnFact). f.table) column_of_fact catalog.columns id

  find-tables :
      (id : TableId)
      → find (build_snapshot catalog).tables id
        ≡ (if is_listed id then some (record { id = id; columns = listed_columns id }) else none)
  unfolding build_snapshot tables_from columns_by_table items find
  find-tables id =
      rw
        (
          put_each-last_at (λ (i : TableId). i) table catalog.views _ id,
          put_each-last_at (λ (i : TableId). i) table catalog.tables [] id,
          last_at-holds table catalog.views id,
          last_at-holds table catalog.tables id,
          gather-values_at (λ (f : ColumnFact). f.table) column_of_fact catalog.columns [] id,
        )
        (either_list (holds catalog.tables id) (holds catalog.views id) _)
    where
      table : TableId → Table
      table id = record { id = id; columns = items (columns_by_table catalog.columns) id }

  -- For every catalogue, role, table and privilege: the snapshot answers with the table exactly when
  -- the catalogue lists it as a table or as a view and the role holds the privilege, and the answer
  -- has the columns of the column facts of that table, in their order.
  pub table_with_privilege_from-build_snapshot :
      (role : Text) (id : TableId) (privilege : Text)
      → table_with_privilege_from (build_snapshot catalog) role id privilege ≡ (
          if is_listed id && has_table_privilege_from (build_snapshot catalog) role id privilege
          then some (record { id = id; columns = listed_columns id })
          else none)
  unfolding table_with_privilege_from
  table_with_privilege_from-build_snapshot role id privilege =
      rw (find-tables id) (granted_listed (is_listed id) _ _)
    where
      granted_listed :
          (listed held : Bool) (t : Table)
          → granted_only (if listed then some t else none) held
            ≡ (if listed && held then some t else none)
      granted_listed true held t = refl
      granted_listed false held t = refl

  -- For every catalogue and relation: a write may target exactly a table or a view of the catalogue
  -- that is no view or is an updatable one.
  pub is_writable_in-build_snapshot :
      (id : TableId)
      → is_writable_in (build_snapshot catalog) id
        ≡ (is_listed id && (not (holds catalog.views id) || holds catalog.updatable_views id))
  unfolding is_writable_in has_table_in build_snapshot
  is_writable_in-build_snapshot id =
      rw (find-tables id, holds-add_all catalog.views id, holds-add_all catalog.updatable_views id)
        (ground arith)
