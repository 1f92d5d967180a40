-- ===== src/Schema/Copy.antt =====
-- internal/schemacache/cache.go: the assignment of a Snapshot, field by field. Another goroutine may
-- run between the fields.
use myrest.Prelude.{◌≡◌, refl, Option, none, some}
use myrest.Schema.Snapshot.{Snapshot}

pub data Field : Type 0 where
  the_tables the_views the_view_set the_updatable_views the_comments the_columns the_keys : Field
  the_foreign_keys the_routines the_routines_by_id the_table_privileges : Field
  the_routine_privileges : Field

abbrev pub next_field : Field → Option Field
next_field the_tables = some the_views
next_field the_views = some the_view_set
next_field the_view_set = some the_updatable_views
next_field the_updatable_views = some the_comments
next_field the_comments = some the_columns
next_field the_columns = some the_keys
next_field the_keys = some the_foreign_keys
next_field the_foreign_keys = some the_routines
next_field the_routines = some the_routines_by_id
next_field the_routines_by_id = some the_table_privileges
next_field the_table_privileges = some the_routine_privileges
next_field the_routine_privileges = none

abbrev pub copy_field : Field → Snapshot → Snapshot → Snapshot
copy_field the_tables from into = record into { tables = from.tables }
copy_field the_views from into = record into { views = from.views }
copy_field the_view_set from into = record into { view_set = from.view_set }
copy_field the_updatable_views from into = record into { updatable_views = from.updatable_views }
copy_field the_comments from into = record into { comments = from.comments }
copy_field the_columns from into = record into { columns = from.columns }
copy_field the_keys from into = record into { keys = from.keys }
copy_field the_foreign_keys from into = record into { foreign_keys = from.foreign_keys }
copy_field the_routines from into = record into { routines = from.routines }
copy_field the_routines_by_id from into = record into { routines_by_id = from.routines_by_id }
copy_field the_table_privileges from into = record into { table_privileges = from.table_privileges }
copy_field the_routine_privileges from into = record into {
  routine_privileges = from.routine_privileges;
}

module _ (a b : Snapshot) where
  -- The fields are the same up to the one named.
  abbrev ToTables : Type 0
  ToTables = a.tables ≡ b.tables

  abbrev ToViews : Type 0
  ToViews = (a.views ≡ b.views) × ToTables

  abbrev ToViewSet : Type 0
  ToViewSet = (a.view_set ≡ b.view_set) × ToViews

  abbrev ToUpdatableViews : Type 0
  ToUpdatableViews = (a.updatable_views ≡ b.updatable_views) × ToViewSet

  abbrev ToComments : Type 0
  ToComments = (a.comments ≡ b.comments) × ToUpdatableViews

  abbrev ToColumns : Type 0
  ToColumns = (a.columns ≡ b.columns) × ToComments

  abbrev ToKeys : Type 0
  ToKeys = (a.keys ≡ b.keys) × ToColumns

  abbrev ToForeignKeys : Type 0
  ToForeignKeys = (a.foreign_keys ≡ b.foreign_keys) × ToKeys

  abbrev ToRoutines : Type 0
  ToRoutines = (a.routines ≡ b.routines) × ToForeignKeys

  abbrev ToRoutinesById : Type 0
  ToRoutinesById = (a.routines_by_id ≡ b.routines_by_id) × ToRoutines

  abbrev ToTablePrivileges : Type 0
  ToTablePrivileges = (a.table_privileges ≡ b.table_privileges) × ToRoutinesById

  -- The fields before this one are the same.
  abbrev pub SameBefore : Field → Type 0
  SameBefore the_tables = Unit
  SameBefore the_views = ToTables
  SameBefore the_view_set = ToViews
  SameBefore the_updatable_views = ToViewSet
  SameBefore the_comments = ToUpdatableViews
  SameBefore the_columns = ToComments
  SameBefore the_keys = ToColumns
  SameBefore the_foreign_keys = ToKeys
  SameBefore the_routines = ToForeignKeys
  SameBefore the_routines_by_id = ToRoutines
  SameBefore the_table_privileges = ToRoutinesById
  SameBefore the_routine_privileges = ToTablePrivileges

  -- The second has the fields of the first, up to the one that is copied next.
  abbrev pub Copied : Option Field → Type 0
  Copied none = a ≡ b
  Copied (some field) = SameBefore field

SameBefore-last :
    (a b : Snapshot)
    → SameBefore a b the_routine_privileges
    → a ≡ copy_field the_routine_privileges a b
SameBefore-last a b h = λ i. record {
  tables = h.1.1.1.1.1.1.1.1.1.1 i;
  views = h.1.1.1.1.1.1.1.1.1.0 i;
  view_set = h.1.1.1.1.1.1.1.1.0 i;
  updatable_views = h.1.1.1.1.1.1.1.0 i;
  comments = h.1.1.1.1.1.1.0 i;
  columns = h.1.1.1.1.1.0 i;
  keys = h.1.1.1.1.0 i;
  foreign_keys = h.1.1.1.0 i;
  routines = h.1.1.0 i;
  routines_by_id = h.1.0 i;
  table_privileges = h.0 i;
  routine_privileges = a.routine_privileges;
}

pub copy_field-Copied :
    (field : Field) (a b : Snapshot)
    → Copied a b (some field)
    → Copied a (copy_field field a b) (next_field field)
copy_field-Copied the_tables a b h = refl
copy_field-Copied the_views a b h = (refl, h)
copy_field-Copied the_view_set a b h = (refl, h)
copy_field-Copied the_updatable_views a b h = (refl, h)
copy_field-Copied the_comments a b h = (refl, h)
copy_field-Copied the_columns a b h = (refl, h)
copy_field-Copied the_keys a b h = (refl, h)
copy_field-Copied the_foreign_keys a b h = (refl, h)
copy_field-Copied the_routines a b h = (refl, h)
copy_field-Copied the_routines_by_id a b h = (refl, h)
copy_field-Copied the_table_privileges a b h = (refl, h)
copy_field-Copied the_routine_privileges a b h = SameBefore-last a b h
