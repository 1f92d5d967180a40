-- ===== src/Schema/Relationship.antt =====
-- internal/schemacache/relationship.go: the relationships that declared foreign keys make between
-- two tables, and the one that an embed names. The walk over the tables of the snapshot takes them
-- in one order; Go leaves that order open.
use myrest.Prelude.{
  Bool, true, false, not, ◌&&◌, ◌||◌, Option, none, some, List, [], ◌∷◌, ◌++◌, Result, ok, err,
  is_some, if◌then◌else◌,
}
use myrest.Text.{Text, codes, equal}
use myrest.Text.Unicode.{equal_fold}
use myrest.Dict.{text_eq, holds, add_all, find, items, keys}
use myrest.Schema.{TableId}
use myrest.Schema.Facts.{ForeignKeyFact, KeyFact, RoutineId, table_id_eq, routine_id_eq}
use myrest.Schema.Grants.{select_privilege}
use myrest.Schema.Snapshot.{Snapshot, has_table_privilege_from}

pub data Cardinality : Type 0 where
  many_to_one one_to_many many_to_many : Cardinality

pub record Relationship : Type 0 where
  pub cardinality : Cardinality
  pub name : Text
  pub origin : TableId
  pub target : TableId
  pub origin_columns : List Text
  pub target_columns : List Text
  pub join_table : TableId
  pub join_origin_columns : List Text
  pub join_target_columns : List Text

pub data EmbedFailure : Type 0 where
  relationship_ambiguous : TableId → Text → List Relationship → EmbedFailure
  relationship_missing : TableId → Text → EmbedFailure
  computed_relationship : Text → EmbedFailure

-- The zero value of the join table.
abbrev pub no_table : TableId
no_table = record { database = []; name = [] }

unfoldable pub many_to_one_from : ForeignKeyFact → Relationship
many_to_one_from fk = record {
  cardinality = many_to_one;
  name = fk.name;
  origin = fk.table;
  target = fk.referenced_table;
  origin_columns = fk.columns;
  target_columns = fk.referenced_columns;
  join_table = no_table;
  join_origin_columns = [];
  join_target_columns = [];
}

unfoldable pub one_to_many_from : ForeignKeyFact → Relationship
one_to_many_from fk = record {
  cardinality = one_to_many;
  name = fk.name;
  origin = fk.referenced_table;
  target = fk.table;
  origin_columns = fk.referenced_columns;
  target_columns = fk.columns;
  join_table = no_table;
  join_origin_columns = [];
  join_target_columns = [];
}

unfoldable pub relationship_from_fk : ForeignKeyFact → Cardinality → Relationship
relationship_from_fk fk many_to_one = many_to_one_from fk
relationship_from_fk fk one_to_many = one_to_many_from fk
relationship_from_fk fk many_to_many = one_to_many_from fk

abbrev pub append_if : {A : Type 0} → Bool → List A → A → List A
append_if test found a = if test then found ++ (a ∷ []) else found

abbrev pub joins : ForeignKeyFact → TableId → TableId → Bool
joins fk from to = table_id_eq.beq fk.table from && table_id_eq.beq fk.referenced_table to

unfoldable pub fk_paths :
    List ForeignKeyFact → TableId → TableId → List Relationship → List Relationship
unfolding relationship_from_fk
fk_paths [] origin target found = found
fk_paths (fk ∷ fks) origin target found = fk_paths fks origin target (
    append_if (joins fk target origin)
      (append_if (joins fk origin target) found (relationship_from_fk fk many_to_one))
      (relationship_from_fk fk one_to_many))

unfoldable pub primary_key_columns : List KeyFact → List Text
unfolding equal_fold
primary_key_columns [] = []
primary_key_columns (key ∷ keys) =
    let rest = primary_key_columns keys in
    if equal_fold key.kind (codes "primary") then key.columns else rest

unfoldable pub all_held : List Text → List Text → Bool
all_held set [] = true
all_held set (name ∷ have) = holds set name && all_held set have

abbrev pub is_empty_list : {A : Type 0} → List A → Bool
is_empty_list [] = true
is_empty_list (x ∷ xs) = false

unfoldable pub columns_subset : List Text → List Text → Bool
columns_subset have all = all_held (add_all all []) have && not (is_empty_list have)

-- The foreign keys of the join table to the origin and to the target: the last ones stay.
unfoldable pub join_loop :
    List ForeignKeyFact
    → TableId
    → TableId
    → TableId
    → Option ForeignKeyFact
    → Option ForeignKeyFact
    → Option ForeignKeyFact × Option ForeignKeyFact
join_loop [] join origin target to_origin to_target = (to_origin, to_target)
join_loop (fk ∷ fks) join origin target to_origin to_target =
    join_loop fks join origin target (if joins fk join origin then some fk else to_origin)
      (if joins fk join target then some fk else to_target)

unfoldable pub both_fks :
    Option ForeignKeyFact × Option ForeignKeyFact → Option (ForeignKeyFact × ForeignKeyFact)
both_fks (some a, some b) = some (a, b)
both_fks _ = none

unfoldable pub join_table_fks :
    Snapshot → TableId → TableId → TableId → Option (ForeignKeyFact × ForeignKeyFact)
join_table_fks snapshot join origin target =
    both_fks (join_loop snapshot.foreign_keys join origin target none none)

unfoldable pub pk_covers_fks : Snapshot → TableId → ForeignKeyFact → ForeignKeyFact → Bool
pk_covers_fks snapshot join a b =
    let pk = primary_key_columns (items snapshot.keys join) in
    if is_empty_list pk then false else columns_subset a.columns pk && columns_subset b.columns pk

unfoldable pub joined :
    Snapshot → TableId → TableId → TableId → ForeignKeyFact → ForeignKeyFact → Relationship
joined snapshot join origin target to_origin to_target = record {
  cardinality = many_to_many;
  name = join.name;
  origin = origin;
  target = target;
  origin_columns = primary_key_columns (items snapshot.keys origin);
  target_columns = primary_key_columns (items snapshot.keys target);
  join_table = join;
  join_origin_columns = to_origin.columns;
  join_target_columns = to_target.columns;
}

unfoldable pub covered_path :
    Snapshot
    → TableId
    → TableId
    → TableId
    → Option (ForeignKeyFact × ForeignKeyFact)
    → List Relationship
    → List Relationship
covered_path snapshot join origin target none found = found
covered_path snapshot join origin target (some (a, b)) found =
    append_if (pk_covers_fks snapshot join a b) found (joined snapshot join origin target a b)

-- One round of the loop over the tables.
unfoldable pub join_path :
    Snapshot → TableId → TableId → TableId → List Relationship → List Relationship
join_path snapshot join origin target found =
    if table_id_eq.beq join origin || table_id_eq.beq join target
    then found
    else covered_path snapshot join origin target (join_table_fks snapshot join origin target) found

unfoldable pub many_to_many_loop :
    List TableId → Snapshot → TableId → TableId → List Relationship → List Relationship
many_to_many_loop [] snapshot origin target found = found
many_to_many_loop (join ∷ tables) snapshot origin target found =
    many_to_many_loop tables snapshot origin target (join_path snapshot join origin target found)

unfoldable pub many_to_many_paths : Snapshot → TableId → TableId → List Relationship
many_to_many_paths snapshot origin target =
    many_to_many_loop (keys snapshot.tables) snapshot origin target []

unfoldable pub relationships : Snapshot → TableId → TableId → List Relationship
relationships snapshot origin target =
    fk_paths snapshot.foreign_keys origin target [] ++ many_to_many_paths snapshot origin target

unfoldable pub self_relationship : Relationship → Bool
self_relationship rel = table_id_eq.beq rel.origin rel.target

abbrev pub is_many_to_one : Cardinality → Bool
is_many_to_one many_to_one = true
is_many_to_one one_to_many = false
is_many_to_one many_to_many = false

unfoldable pub self_hint_matches : Relationship → Text → Bool
unfolding equal
self_hint_matches rel hint =
    if is_many_to_one rel.cardinality then equal rel.name hint else holds rel.target_columns hint

unfoldable pub hint_matches : Relationship → Text → Bool
unfolding equal
hint_matches rel hint =
    equal rel.name hint
    || holds rel.origin_columns hint
    || holds rel.target_columns hint
    || holds rel.join_origin_columns hint
    || holds rel.join_target_columns hint

unfoldable pub is_hinted : Relationship → Text → Bool
is_hinted rel hint =
    if self_relationship rel then self_hint_matches rel hint else hint_matches rel hint

unfoldable pub filter_by_hint : List Relationship → Text → List Relationship
filter_by_hint [] hint = []
filter_by_hint (rel ∷ candidates) hint =
    let rest = filter_by_hint candidates hint in if is_hinted rel hint then rel ∷ rest else rest

abbrev pub by_hint : Text → List Relationship → List Relationship
by_hint [] candidates = candidates
by_hint (c ∷ hint) candidates = filter_by_hint candidates (c ∷ hint)

unfoldable pub choose : TableId → Text → List Relationship → Result EmbedFailure Relationship
choose origin target_name [] = err (relationship_missing origin target_name)
choose origin target_name (rel ∷ []) = ok rel
choose origin target_name (rel ∷ other ∷ more) =
    err (relationship_ambiguous origin target_name (rel ∷ other ∷ more))

abbrev pub beside : TableId → Text → TableId
beside origin name = record { database = origin.database; name = name }

abbrev pub beside_routine : TableId → Text → RoutineId
beside_routine origin name = record { database = origin.database; name = name }

unfoldable pub resolve_embed_in :
    Snapshot → Text → TableId → Text → Text → Result EmbedFailure Relationship
resolve_embed_in snapshot role origin target_name hint =
    if not (is_some (find snapshot.tables (beside origin target_name)))
    then (if is_some (find snapshot.routines_by_id (beside_routine origin target_name))
        then err (computed_relationship target_name)
        else err (relationship_missing origin target_name))
    else if not
        (has_table_privilege_from snapshot role (beside origin target_name) select_privilege)
    then err (relationship_missing origin target_name)
    else choose origin target_name
        (by_hint hint (relationships snapshot origin (beside origin target_name)))
