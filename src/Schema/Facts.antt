-- ===== src/Schema/Facts.antt =====
-- internal/schemacache: the facts of the catalogue from which a cache is built (facts.go and
-- cache.go). The counters that a fact holds are numbers that the code never computes with.
use myrest.Prelude.{ℕ, Bool, ◌||◌, refl, Option, List}
use myrest.Text.{Text, codes, equal, trim_space}
use myrest.Text.Unicode.{Unicode, to_upper}
use myrest.Dict.{text_eq, Eq}
use myrest.Dict.Pairs.{pair_eq}
use myrest.Schema.{TableId}

pub record ColumnFact : Type 0 where
  pub table : TableId
  pub name : Text
  pub data_type : Text
  pub collation : Text
  pub nullable : Bool
  pub default : Option Text
  pub comment : Text
  pub generated : Bool
  pub auto_increment : Bool

pub record SelectFact : Type 0 where
  pub role : Text
  pub table : TableId

pub record RoleFact : Type 0 where
  pub holder : Text
  pub granted : Text

pub record CommentFact : Type 0 where
  pub relation : TableId
  pub comment : Text

pub record KeyFact : Type 0 where
  pub table : TableId
  pub name : Text
  pub kind : Text
  pub columns : List Text

pub record ForeignKeyFact : Type 0 where
  pub name : Text
  pub table : TableId
  pub columns : List Text
  pub referenced_table : TableId
  pub referenced_columns : List Text
  pub update_rule : Text
  pub delete_rule : Text

pub record RoutineId : Type 0 where
  pub database : Text
  pub name : Text

pub record ParameterFact : Type 0 where
  pub name : Text
  pub mode : Text
  pub ordinal : ℕ
  pub data_type : Text

pub record RoutineFact : Type 0 where
  pub id : RoutineId
  pub kind : Text
  pub comment : Text
  pub return_type : Text
  pub sql_data_access : Text
  pub parameters : List ParameterFact

pub record TablePrivilegeFact : Type 0 where
  pub role : Text
  pub table : TableId
  pub privilege : Text

pub record RoutinePrivilegeFact : Type 0 where
  pub role : Text
  pub routine : RoutineId
  pub privilege : Text

pub record Catalog : Type 0 where
  pub tables : List TableId
  pub views : List TableId
  pub updatable_views : List TableId
  pub relation_comments : List CommentFact
  pub columns : List ColumnFact
  pub keys : List KeyFact
  pub foreign_keys : List ForeignKeyFact
  pub routines : List RoutineFact
  pub selects : List SelectFact
  pub table_privileges : List TablePrivilegeFact
  pub routine_privileges : List RoutinePrivilegeFact
  pub roles : List RoleFact

-- The keys of the privilege sets.
pub record TablePrivilege : Type 0 where
  pub table : TableId
  pub privilege : Text

pub record RoutinePrivilege : Type 0 where
  pub routine : RoutineId
  pub privilege : Text

instance abbrev pub table_id_eq : Eq TableId
table_id_eq =
    pair_eq (λ t. t.database) (λ t. t.name) (λ d n. record { database = d; name = n }) (λ t. refl)

instance abbrev pub routine_id_eq : Eq RoutineId
routine_id_eq =
    pair_eq (λ t. t.database) (λ t. t.name) (λ d n. record { database = d; name = n }) (λ t. refl)

instance abbrev pub table_privilege_eq : Eq TablePrivilege
table_privilege_eq =
    pair_eq (λ t. t.table) (λ t. t.privilege) (λ i p. record { table = i; privilege = p })
      (λ t. refl)

instance abbrev pub routine_privilege_eq : Eq RoutinePrivilege
routine_privilege_eq =
    pair_eq (λ t. t.routine) (λ t. t.privilege) (λ i p. record { routine = i; privilege = p })
      (λ t. refl)

module _ ⦃u : Unicode⦄ where
  unfoldable pub is_read_only : Text → Bool
  unfolding equal
  is_read_only access =
      equal access (codes "NO SQL")
      || equal access (codes "CONTAINS SQL")
      || equal access (codes "READS SQL DATA")

  -- RoutineFact.ReadSafe
  unfoldable pub read_safe : RoutineFact → Bool
  unfolding is_read_only to_upper trim_space
  read_safe r = is_read_only (to_upper (trim_space r.sql_data_access))
