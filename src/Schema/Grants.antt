-- ===== src/Schema/Grants.antt =====
-- internal/schemacache/cache.go: the privileges of every role, of itself and through the roles
-- granted to it. The walk over the grants has fuel for every role that holds another one.
use myrest.Prelude.{
  ℕ, zero, suc, true, false, none, some, List, [], ◌∷◌, is_some, length, if◌then◌else◌,
}
use myrest.Text.{Text, codes, cut}
use myrest.Dict.{
  text_eq, Eq, Dict, holds, add, add_all, keys, find, put, items, append_at, add_at, gather,
}
use myrest.Schema.Facts.{
  SelectFact, RoleFact, TablePrivilegeFact, RoutinePrivilegeFact, Catalog, TablePrivilege,
  RoutinePrivilege, table_privilege_eq, routine_privilege_eq,
}

unfoldable pub bare_name : Text → Text
bare_name role = elim (cut role b'@') [ none ↦ role | some (name, _) ↦ name ]

-- The roles walked so far, and the privileges found on them.
pub record Visits (P : Type 0) : Type 0 where
  pub walked : List Text
  pub found : List P

module _ {P : Type 0} where
  unfoldable pub visit_each : (Text → Visits P → Visits P) → List Text → Visits P → Visits P
  visit_each visit [] s = s
  visit_each visit (role ∷ roles) s = visit_each visit roles (visit role s)

  abbrev pub no_visits : Visits P
  no_visits = record { walked = []; found = [] }

  module _ ⦃e : Eq P⦄ (granted : Dict Text (List Text)) (direct : Dict Text (List P)) where
    unfoldable pub mark : Text → Visits P → Visits P
    mark role s = record { walked = add s.walked role; found = add_all (items direct role) s.found }

    unfoldable pub walk : ℕ → Text → Visits P → Visits P
    walk zero role s = s
    walk (suc fuel) role s = elim (holds s.walked role) [
      | true ↦ s
      | false ↦ visit_each (walk fuel) (items granted role) (mark role s)
    ]

    unfoldable pub held_by : Text → List P
    held_by role = (walk (suc (length granted)) role no_visits).found

    unfoldable pub expand_roles : List Text → Dict Text (List P) → Dict Text (List P)
    expand_roles [] found = found
    expand_roles (role ∷ roles) found = expand_roles roles (put found role (held_by role))

    unfoldable pub expand_missing : List Text → Dict Text (List P) → Dict Text (List P)
    expand_missing [] found = found
    expand_missing (role ∷ roles) found =
        expand_missing roles
          (if is_some (find found role) then found else put found role (held_by role))

    unfoldable pub expand : Dict Text (List P)
    expand = expand_missing (keys direct) (expand_roles (keys granted) [])

unfoldable pub grant_graph : Catalog → Dict Text (List Text)
grant_graph catalog =
    gather append_at (λ (f : RoleFact). bare_name f.holder) (λ f. bare_name f.granted) catalog.roles
      []

abbrev pub select_privilege : Text
select_privilege = codes "SELECT"

abbrev pub privilege_of : TablePrivilegeFact → TablePrivilege
privilege_of fact = record { table = fact.table; privilege = fact.privilege }

abbrev pub selected : SelectFact → TablePrivilege
selected fact = record { table = fact.table; privilege = select_privilege }

-- The privileges of each role of itself: the two loops over the facts.
unfoldable pub direct_privileges : Catalog → Dict Text (List TablePrivilege)
direct_privileges catalog =
    gather add_at (λ (f : SelectFact). bare_name f.role) selected catalog.selects
      (gather add_at (λ (f : TablePrivilegeFact). bare_name f.role) privilege_of
        catalog.table_privileges [])

unfoldable pub privilege_graph : Catalog → Dict Text (List TablePrivilege)
privilege_graph catalog = expand (grant_graph catalog) (direct_privileges catalog)

abbrev pub routine_privilege_of : RoutinePrivilegeFact → RoutinePrivilege
routine_privilege_of fact = record { routine = fact.routine; privilege = fact.privilege }

unfoldable pub direct_routine_privileges : Catalog → Dict Text (List RoutinePrivilege)
direct_routine_privileges catalog =
    gather add_at (λ (f : RoutinePrivilegeFact). bare_name f.role) routine_privilege_of
      catalog.routine_privileges []

unfoldable pub routine_privilege_graph : Catalog → Dict Text (List RoutinePrivilege)
routine_privilege_graph catalog = expand (grant_graph catalog) (direct_routine_privileges catalog)
