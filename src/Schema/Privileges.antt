-- ===== src/Schema/Privileges.antt =====
-- A role of a snapshot holds exactly the privileges that the facts of the catalogue give it.
use myrest.Prelude.{◌≡◌, ◌↔◌, inl, inr, subst, true, [], Among}
use myrest.Text.{Text}
use myrest.Dict.{text_eq, find, items, append_at, add_at}
use myrest.Dict.Lists.{append_at-PutsOne, add_at-PutsOne, gather-old, gather-new, gather-only}
use myrest.Schema.{TableId}
use myrest.Schema.Facts.{
  SelectFact, RoleFact, TablePrivilegeFact, RoutinePrivilegeFact, RoutineId, Catalog,
  TablePrivilege, RoutinePrivilege, table_privilege_eq, routine_privilege_eq,
}
use myrest.Schema.Grants.{
  bare_name, grant_graph, privilege_of, selected, direct_privileges, privilege_graph,
  routine_privilege_of, direct_routine_privileges, routine_privilege_graph,
}
use myrest.Schema.Walk.{Reaches, own, via}
use myrest.Schema.Expand.{expand-Reaches}
use myrest.Schema.Snapshot.{build_snapshot, has_table_privilege_from, has_routine_privilege_from}

module _ (catalog : Catalog) where
  granted-of_fact :
      (holder next : Text)
      → Among next (items (grant_graph catalog) holder)
      → (f : RoleFact) × (Among f catalog.roles)
        × (bare_name f.holder ≡ holder)
        × (next ≡ bare_name f.granted)
  unfolding grant_graph items find
  granted-of_fact holder next m =
      elim (gather-only append_at append_at-PutsOne (λ (f : RoleFact). bare_name f.holder)
        (λ f. bare_name f.granted) catalog.roles [] holder next m) [
          | inl found ↦ found
          | inr nothing ↦ absurd nothing
        ]

  fact-granted :
      (f : RoleFact)
      → Among f catalog.roles
      → Among (bare_name f.granted) (items (grant_graph catalog) (bare_name f.holder))
  unfolding grant_graph
  fact-granted f m =
      gather-new append_at append_at-PutsOne (λ (f : RoleFact). bare_name f.holder)
        (λ f. bare_name f.granted) catalog.roles [] f m

  -- What the grants of the database give to a role, told from the facts alone. A privilege is held
  -- under the name of the role, without its host.
  module _ (p : TablePrivilege) where
    pub data HoldsTable : Text → Type 0 where
      of_itself :
          {role : Text} (f : TablePrivilegeFact)
          → Among f catalog.table_privileges
          → bare_name f.role ≡ role
          → p ≡ privilege_of f
          → HoldsTable role
      of_select :
          {role : Text} (f : SelectFact)
          → Among f catalog.selects
          → bare_name f.role ≡ role
          → p ≡ selected f
          → HoldsTable role
      through :
          {role : Text} (f : RoleFact)
          → Among f catalog.roles
          → bare_name f.holder ≡ role
          → HoldsTable (bare_name f.granted)
          → HoldsTable role

    direct-HoldsTable :
        (role : Text) → Among p (items (direct_privileges catalog) role) → HoldsTable role
    unfolding direct_privileges items find
    direct-HoldsTable role m =
        elim (gather-only add_at add_at-PutsOne (λ (f : SelectFact). bare_name f.role) selected
          catalog.selects _ role p m) [
            | inl (f, among, named, same) ↦ of_select f among named same
            | inr before ↦
                elim (gather-only add_at add_at-PutsOne
                  (λ (f : TablePrivilegeFact). bare_name f.role) privilege_of
                  catalog.table_privileges [] role p before) [
                    | inl (f, among, named, same) ↦ of_itself f among named same
                    | inr nothing ↦ absurd nothing
                  ]
          ]

    Reaches-HoldsTable :
        (role : Text)
        → Reaches (grant_graph catalog) (direct_privileges catalog) p role
        → HoldsTable role
    Reaches-HoldsTable role (own m) = direct-HoldsTable role m
    Reaches-HoldsTable role (via m rest) =
        let (f, among, named, same) = granted-of_fact role _ m in
        through f among named (subst HoldsTable same (Reaches-HoldsTable _ rest))

    HoldsTable-Reaches :
        (role : Text)
        → HoldsTable role
        → Reaches (grant_graph catalog) (direct_privileges catalog) p role
    unfolding direct_privileges
    HoldsTable-Reaches role (of_itself f m named same) =
        rw (same, ← named)
          (own (
            gather-old add_at add_at-PutsOne (λ (s : SelectFact). bare_name s.role) selected
              catalog.selects _ _ _
              (gather-new add_at add_at-PutsOne (λ (t : TablePrivilegeFact). bare_name t.role)
                privilege_of catalog.table_privileges [] f m)))
    HoldsTable-Reaches role (of_select f m named same) =
        rw (same, ← named)
          (own (
            gather-new add_at add_at-PutsOne (λ (s : SelectFact). bare_name s.role) selected
              catalog.selects _ f m))
    HoldsTable-Reaches role (through f m named rest) =
        rw (← named) (via (fact-granted f m) (HoldsTable-Reaches _ rest))

  -- For every catalogue, role, table and privilege: the snapshot built from the catalogue says that
  -- the role holds the privilege on the table exactly when the facts give it to the role's name, of
  -- itself or through a chain of role grants, which may run in circles.
  pub has_table_privilege_from-HoldsTable :
      (role : Text) (id : TableId) (privilege : Text)
      → (has_table_privilege_from (build_snapshot catalog) role id privilege ≡ true)
        ↔ HoldsTable (record { table = id; privilege = privilege }) (bare_name role)
  unfolding has_table_privilege_from build_snapshot privilege_graph
  has_table_privilege_from-HoldsTable role id privilege =
      let reach =
        expand-Reaches (grant_graph catalog) (direct_privileges catalog) (bare_name role)
          (record { table = id; privilege = privilege }) in
      (λ h. Reaches-HoldsTable _ _ (reach.0 h), λ h. reach.1 (HoldsTable-Reaches _ _ h))

  -- The same for routines.
  module _ (p : RoutinePrivilege) where
    pub data HoldsRoutine : Text → Type 0 where
      routine_of_itself :
          {role : Text} (f : RoutinePrivilegeFact)
          → Among f catalog.routine_privileges
          → bare_name f.role ≡ role
          → p ≡ routine_privilege_of f
          → HoldsRoutine role
      routine_through :
          {role : Text} (f : RoleFact)
          → Among f catalog.roles
          → bare_name f.holder ≡ role
          → HoldsRoutine (bare_name f.granted)
          → HoldsRoutine role

    Reaches-HoldsRoutine :
        (role : Text)
        → Reaches (grant_graph catalog) (direct_routine_privileges catalog) p role
        → HoldsRoutine role
    unfolding direct_routine_privileges items find
    Reaches-HoldsRoutine role (own m) =
        elim (gather-only add_at add_at-PutsOne (λ (f : RoutinePrivilegeFact). bare_name f.role)
          routine_privilege_of catalog.routine_privileges [] role p m) [
            | inl (f, among, named, same) ↦ routine_of_itself f among named same
            | inr nothing ↦ absurd nothing
          ]
    Reaches-HoldsRoutine role (via m rest) =
        let (f, among, named, same) = granted-of_fact role _ m in
        routine_through f among named (subst HoldsRoutine same (Reaches-HoldsRoutine _ rest))

    HoldsRoutine-Reaches :
        (role : Text)
        → HoldsRoutine role
        → Reaches (grant_graph catalog) (direct_routine_privileges catalog) p role
    unfolding direct_routine_privileges
    HoldsRoutine-Reaches role (routine_of_itself f m named same) =
        rw (same, ← named)
          (own (
            gather-new add_at add_at-PutsOne (λ (t : RoutinePrivilegeFact). bare_name t.role)
              routine_privilege_of catalog.routine_privileges [] f m))
    HoldsRoutine-Reaches role (routine_through f m named rest) =
        rw (← named) (via (fact-granted f m) (HoldsRoutine-Reaches _ rest))

  pub has_routine_privilege_from-HoldsRoutine :
      (role : Text) (id : RoutineId) (privilege : Text)
      → (has_routine_privilege_from (build_snapshot catalog) role id privilege ≡ true)
        ↔ HoldsRoutine (record { routine = id; privilege = privilege }) (bare_name role)
  unfolding has_routine_privilege_from build_snapshot routine_privilege_graph
  has_routine_privilege_from-HoldsRoutine role id privilege =
      let reach =
        expand-Reaches (grant_graph catalog) (direct_routine_privileges catalog) (bare_name role)
          (record { routine = id; privilege = privilege }) in
      (λ h. Reaches-HoldsRoutine _ _ (reach.0 h), λ h. reach.1 (HoldsRoutine-Reaches _ _ h))
