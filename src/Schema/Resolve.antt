-- ===== src/Schema/Resolve.antt =====
-- What each answer to an embed says about the snapshot.
use myrest.Prelude.{
  ◌≡◌, ◌⊎◌, ◌≤◌, refl, sym, subst, inl, inr, Bool, true, false, List, [], ◌∷◌, is_some, length,
  Result, ok, err, Bool-cases, Among, arith,
}
use myrest.Text.{Text}
use myrest.Dict.{find}
use myrest.Schema.{TableId}
use myrest.Schema.Facts.{ForeignKeyFact, table_id_eq, routine_id_eq}
use myrest.Schema.Grants.{select_privilege}
use myrest.Schema.Snapshot.{Snapshot, has_table_privilege_from}
use myrest.Schema.Relationship.{
  Relationship, EmbedFailure, relationship_ambiguous, relationship_missing, computed_relationship,
  many_to_one_from, relationships, by_hint, choose, beside, beside_routine, resolve_embed_in,
}
use myrest.Schema.Embed.{
  Joins, IsDeclared, relationships-IsDeclared, relationships-new, by_hint-Among,
}

module _ (s : Snapshot) (role : Text) (origin : TableId) (target_name hint : Text) where
  -- The paths between the two tables that the hint leaves.
  abbrev pub candidates : List Relationship
  candidates = by_hint hint (relationships s origin (beside origin target_name))

  abbrev pub is_readable : Bool
  is_readable = has_table_privilege_from s role (beside origin target_name) select_privilege

  abbrev pub Explains : Result EmbedFailure Relationship → Type 0
  Explains (ok rel) =
      (is_some (find s.tables (beside origin target_name)) ≡ true)
      × (is_readable ≡ true)
      × (candidates ≡ rel ∷ [])
      × IsDeclared s origin (beside origin target_name) rel
  Explains (err (relationship_ambiguous from name options)) =
      (is_readable ≡ true)
      × (options ≡ candidates)
      × (2 ≤ length options)
      × ((rel : Relationship)
          → Among rel options
          → IsDeclared s origin (beside origin target_name) rel)
  Explains (err (relationship_missing from name)) =
      (is_some (find s.tables (beside origin target_name)) ≡ false)
      ⊎ (is_readable ≡ false)
      ⊎ (candidates ≡ [])
  Explains (err (computed_relationship name)) =
      (is_some (find s.tables (beside origin target_name)) ≡ false)
      × (is_some (find s.routines_by_id (beside_routine origin target_name)) ≡ true)

  candidates-IsDeclared :
      (rel : Relationship)
      → Among rel candidates
      → IsDeclared s origin (beside origin target_name) rel
  candidates-IsDeclared rel m =
      relationships-IsDeclared s origin (beside origin target_name) rel (by_hint-Among hint _ rel m)

  choose-Explains :
      (found : List Relationship)
      → is_some (find s.tables (beside origin target_name)) ≡ true
      → is_readable ≡ true
      → candidates ≡ found
      → Explains (choose origin target_name found)
  unfolding choose
  choose-Explains [] held readable e = inr (inr e)
  choose-Explains (rel ∷ []) held readable e =
      (held, readable, e, candidates-IsDeclared rel (rw e (inl refl)))
  choose-Explains (rel ∷ other ∷ more) held readable e =
      (readable, sym e, omega arith, λ r m. candidates-IsDeclared r (rw e m))

  -- For every snapshot, role, origin, target name and hint: when an embed is resolved, the target is a
  -- table on which the role holds SELECT, and the answer is the only candidate and is declared by
  -- foreign keys; when it is ambiguous, the role holds SELECT on the target and there are at least two
  -- candidates, all declared; when it is missing, there is no table, no SELECT on it or no candidate;
  -- and a computed one names a routine that is no table. The privileges of the role on the origin and
  -- on a table that joins the two are not part of it.
  pub resolve_embed_in-Explains : Explains (resolve_embed_in s role origin target_name hint)
  unfolding resolve_embed_in
  resolve_embed_in-Explains =
      elim (Bool-cases (is_some (find s.tables (beside origin target_name)))) [
        | inl held ↦ elim (Bool-cases is_readable) [
          | inl readable ↦ rw (held, readable) (choose-Explains candidates held readable refl)
          | inr hidden ↦ rw (held, hidden) (inr (inl hidden))
        ]
        | inr missing ↦
            elim (Bool-cases
              (is_some (find s.routines_by_id (beside_routine origin target_name)))) [
                | inl routine ↦ rw (missing, routine) (missing, routine)
                | inr neither ↦ rw (missing, neither) (inl missing)
              ]
      ]

-- For every snapshot, role, origin and target name, and without a hint: when an embed is resolved,
-- every foreign key from the origin to the target is the one of the answer.
pub resolve_embed_in_only :
    (s : Snapshot) (role : Text) (origin : TableId) (target_name : Text) {rel : Relationship}
    (fk : ForeignKeyFact)
    → resolve_embed_in s role origin target_name [] ≡ ok rel
    → Among fk s.foreign_keys
    → Joins fk origin (beside origin target_name)
    → many_to_one_from fk ≡ rel
resolve_embed_in_only s role origin target_name {rel} fk resolved m j =
    let found : Explains s role origin target_name [] (ok rel) =
      subst (Explains s role origin target_name []) resolved
        (resolve_embed_in-Explains s role origin target_name []) in
    let among : Among (many_to_one_from fk) (rel ∷ []) =
      rw (found.2, Among) at (relationships-new s origin (beside origin target_name) fk m j) in
    elim among [ inl same ↦ same | inr nothing ↦ absurd nothing ]
