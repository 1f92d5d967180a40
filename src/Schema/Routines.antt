-- ===== src/Schema/Routines.antt =====
-- The routines of a snapshot that a role may call.
use myrest.Prelude.{◌≡◌, refl, Bool, true, false, Option, none, some, [], is_some, Among}
use myrest.Text.{Text, codes}
use myrest.Dict.Lists.{last_at, or_else, put_each-last_at, last_at-Among, last_at-some}
use myrest.Dict.{find}
use myrest.Schema.Facts.{RoutineId, RoutineFact, Catalog, routine_id_eq}
use myrest.Schema.Grants.{bare_name}
use myrest.Schema.Privileges.{HoldsRoutine, has_routine_privilege_from-HoldsRoutine}
use myrest.Schema.Snapshot.{build_snapshot, index_routines, routine_from, granted_only}

abbrev pub execute : Text
execute = codes "EXECUTE"

module _ (catalog : Catalog) where
  find-routines :
      (id : RoutineId)
      → find (build_snapshot catalog).routines_by_id id
        ≡ last_at (λ (f : RoutineFact). f.id) (λ f. f) catalog.routines id
  unfolding build_snapshot index_routines find
  find-routines id =
      rw (put_each-last_at (λ (f : RoutineFact). f.id) (λ f. f) catalog.routines [] id)
        (unchanged _)
    where
      unchanged : (o : Option RoutineFact) → or_else o none ≡ o
      unchanged none = refl
      unchanged (some f) = refl

  granted-some :
      (o : Option RoutineFact) (held : Bool) {f : RoutineFact}
      → granted_only o held ≡ some f
      → (o ≡ some f) × (held ≡ true)
  granted-some none held h = cc
  granted-some (some f) true h = (h, refl)
  granted-some (some f) false h = cc

  -- For every catalogue, role and routine: a routine that the snapshot gives to the role has the id
  -- that was asked for, is a fact of the catalogue, and the grants give the role EXECUTE on it.
  pub routine_from-HoldsRoutine :
      (role : Text) (id : RoutineId) {f : RoutineFact}
      → routine_from (build_snapshot catalog) role id ≡ some f
      → (f.id ≡ id)
        × (Among f catalog.routines)
        × HoldsRoutine catalog (record { routine = id; privilege = execute }) (bare_name role)
  unfolding routine_from
  routine_from-HoldsRoutine role id h =
      let (found, held) = granted-some _ _ h in
      let (f, among, named, same) =
        last_at-Among (λ (f : RoutineFact). f.id) (λ f. f) catalog.routines id
          (rw (find-routines id) at found) in
      (
        rw same named,
        rw same among,
        (has_routine_privilege_from-HoldsRoutine catalog role id execute).0 held,
      )

  -- For every catalogue and role: a routine of the catalogue on which the grants give the role
  -- EXECUTE is a resource of that role.
  pub HoldsRoutine-routine_from :
      (role : Text) (f : RoutineFact)
      → Among f catalog.routines
      → HoldsRoutine catalog (record { routine = f.id; privilege = execute }) (bare_name role)
      → is_some (routine_from (build_snapshot catalog) role f.id) ≡ true
  unfolding routine_from
  HoldsRoutine-routine_from role f among holds =
      let held = (has_routine_privilege_from-HoldsRoutine catalog role f.id execute).1 holds in
      let (g, found) = last_at-some (λ (f : RoutineFact). f.id) (λ f. f) catalog.routines f among in
      rw (find-routines f.id, found, held) refl
