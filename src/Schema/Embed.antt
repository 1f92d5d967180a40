-- ===== src/Schema/Embed.antt =====
-- Every relationship that an embed can name is declared by foreign keys of the snapshot.
use myrest.Prelude.{
  ◌≡◌, ◌≢◌, ◌⊎◌, refl, inl, inr, Bool, true, false, ◌||◌, Option, none, some, List, [], ◌∷◌,
  if◌then◌else◌, Bool-cases, both_true, neither_true, Among, Among-append, Among-append_left,
  Among-append_right,
}
use myrest.Text.{Text}
use myrest.Dict.{keys}
use myrest.Dict.Laws.{beq_refl}
use myrest.Schema.{TableId}
use myrest.Schema.Facts.{ForeignKeyFact, table_id_eq}
use myrest.Schema.Snapshot.{Snapshot}
use myrest.Schema.Relationship.{
  Relationship, many_to_one_from, one_to_many_from, relationship_from_fk, append_if, joins,
  fk_paths, join_loop, both_fks, join_table_fks, pk_covers_fks, joined, covered_path, join_path,
  many_to_many_loop, many_to_many_paths, relationships, is_hinted, filter_by_hint, by_hint,
}

module _ {A : Type 0} where
  Among-append_if :
      (test : Bool) (found : List A) (a x : A)
      → Among x (append_if test found a)
      → ((test ≡ true) × (x ≡ a)) ⊎ Among x found
  Among-append_if false found a x h = inr h
  Among-append_if true found a x h = elim (Among-append x found (a ∷ []) h) [
    | inl old ↦ inr old
    | inr (inl new) ↦ inl (refl, new)
    | inr (inr nothing) ↦ absurd nothing
  ]

  append_if-old :
      (test : Bool) (found : List A) (a x : A) → Among x found → Among x (append_if test found a)
  append_if-old false found a x h = h
  append_if-old true found a x h = Among-append_left x found (a ∷ []) h

  append_if-new :
      (test : Bool) (found : List A) (a : A) → test ≡ true → Among a (append_if test found a)
  append_if-new false found a h = cc
  append_if-new true found a h = Among-append_right a found (a ∷ []) (inl refl)

abbrev pub Joins : ForeignKeyFact → TableId → TableId → Type 0
Joins fk from to = (fk.table ≡ from) × (fk.referenced_table ≡ to)

joins-Joins : (fk : ForeignKeyFact) (from to : TableId) → joins fk from to ≡ true → Joins fk from to
joins-Joins fk from to h =
    let (f, t) =
      both_true (table_id_eq.beq fk.table from) (table_id_eq.beq fk.referenced_table to) h in
    ((table_id_eq.beq_iff fk.table from).0 f, (table_id_eq.beq_iff fk.referenced_table to).0 t)

Joins-joins : (fk : ForeignKeyFact) (from to : TableId) → Joins fk from to → joins fk from to ≡ true
Joins-joins fk from to (f, t) = rw (f, t, beq_refl from, beq_refl to) refl

module _ (s : Snapshot) (origin target : TableId) where
  -- The ways to declare a relationship between the tables.
  pub data IsDeclared (rel : Relationship) : Type 0 where
    direct :
        (fk : ForeignKeyFact)
        → Among fk s.foreign_keys
        → Joins fk origin target
        → rel ≡ many_to_one_from fk
        → IsDeclared rel
    inverse :
        (fk : ForeignKeyFact)
        → Among fk s.foreign_keys
        → Joins fk target origin
        → rel ≡ one_to_many_from fk
        → IsDeclared rel
    through_join :
        (join : TableId) (a b : ForeignKeyFact)
        → Among join (keys s.tables)
        → (join ≢ origin) × (join ≢ target)
        → Among a s.foreign_keys
        → Among b s.foreign_keys
        → Joins a join origin
        → Joins b join target
        → pk_covers_fks s join a b ≡ true
        → rel ≡ joined s join origin target a b
        → IsDeclared rel

  -- The loop over the foreign keys.
  abbrev ByFk : List ForeignKeyFact → Relationship → Type 0
  ByFk fks rel =
      (fk : ForeignKeyFact) × (Among fk fks)
      × ((Joins fk origin target × (rel ≡ many_to_one_from fk))
          ⊎ (Joins fk target origin × (rel ≡ one_to_many_from fk)))

  fk_paths-ByFk :
      (fks : List ForeignKeyFact) (found : List Relationship) (rel : Relationship)
      → Among rel (fk_paths fks origin target found)
      → ByFk fks rel ⊎ Among rel found
  unfolding fk_paths relationship_from_fk
  fk_paths-ByFk [] found rel h = inr h
  fk_paths-ByFk (fk ∷ fks) found rel h = elim (fk_paths-ByFk fks _ rel h) [
    | inl (later, among, how) ↦ inl (later, inr among, how)
    | inr now ↦ elim (Among-append_if (joins fk target origin) _ (one_to_many_from fk) rel now) [
      | inl (test, same) ↦ inl (fk, inl refl, inr (joins-Joins fk target origin test, same))
      | inr first ↦
          elim (Among-append_if (joins fk origin target) found (many_to_one_from fk) rel first) [
            | inl (test, same) ↦ inl (fk, inl refl, inl (joins-Joins fk origin target test, same))
            | inr old ↦ inr old
          ]
    ]
  ]

  fk_paths-old :
      (fks : List ForeignKeyFact) (found : List Relationship) (rel : Relationship)
      → Among rel found
      → Among rel (fk_paths fks origin target found)
  unfolding fk_paths
  fk_paths-old [] found rel h = h
  fk_paths-old (fk ∷ fks) found rel h = fk_paths-old fks _ rel (
      append_if-old (joins fk target origin) _ _ rel
        (append_if-old (joins fk origin target) found _ rel h))

  neither :
      (join : TableId)
      → table_id_eq.beq join origin || table_id_eq.beq join target ≡ false
      → (join ≢ origin) × (join ≢ target)
  neither join h =
      let (o, t) = neither_true (table_id_eq.beq join origin) (table_id_eq.beq join target) h in
      (
        λ e. let same = (table_id_eq.beq_iff join origin).1 e in cc,
        λ e. let same = (table_id_eq.beq_iff join target).1 e in cc,
      )

  -- Every foreign key from the origin to the target makes a path.
  fk_paths-new :
      (fks : List ForeignKeyFact) (found : List Relationship) (fk : ForeignKeyFact)
      → Among fk fks
      → Joins fk origin target
      → Among (many_to_one_from fk) (fk_paths fks origin target found)
  unfolding fk_paths relationship_from_fk
  fk_paths-new [] found fk m j = absurd m
  fk_paths-new (first ∷ fks) found fk (inl same) j = rw same (
      fk_paths-old fks _ (many_to_one_from first) (
        append_if-old (joins first target origin) _ _ (many_to_one_from first) (
          append_if-new (joins first origin target) found (many_to_one_from first)
            (rw (← same) (Joins-joins fk origin target j)))))
  fk_paths-new (first ∷ fks) found fk (inr m) j = fk_paths-new fks _ fk m j

  -- The foreign keys of the loop over a join table.
  abbrev IsFk : TableId → TableId → Option ForeignKeyFact → Type 0
  IsFk join to none = Unit
  IsFk join to (some fk) = Among fk s.foreign_keys × Joins fk join to

  if-IsFk :
      (join to : TableId) (fk : ForeignKeyFact) (before : Option ForeignKeyFact)
      → Among fk s.foreign_keys
      → IsFk join to before
      → IsFk join to (if joins fk join to then some fk else before)
  if-IsFk join to fk before m h = elim (Bool-cases (joins fk join to)) [
    | inl test ↦ rw (test, IsFk) (m, joins-Joins fk join to test)
    | inr other ↦ rw (other, IsFk) h
  ]

  join_loop-IsFk :
      (fks : List ForeignKeyFact) (join : TableId) (a b : Option ForeignKeyFact)
      → ((fk : ForeignKeyFact) → Among fk fks → Among fk s.foreign_keys)
      → IsFk join origin a
      → IsFk join target b
      → IsFk join origin (join_loop fks join origin target a b).0
        × IsFk join target (join_loop fks join origin target a b).1
  unfolding join_loop
  join_loop-IsFk [] join a b all ha hb = (ha, hb)
  join_loop-IsFk (fk ∷ fks) join a b all ha hb =
      join_loop-IsFk fks join _ _ (λ f m. all f (inr m))
        (if-IsFk join origin fk a (all fk (inl refl)) ha)
        (if-IsFk join target fk b (all fk (inl refl)) hb)

  covered_path-IsDeclared :
      (join : TableId) (fks : Option ForeignKeyFact × Option ForeignKeyFact)
      (found : List Relationship) (rel : Relationship)
      → Among join (keys s.tables)
      → (join ≢ origin) × (join ≢ target)
      → IsFk join origin fks.0 × IsFk join target fks.1
      → Among rel (covered_path s join origin target (both_fks fks) found)
      → IsDeclared rel ⊎ Among rel found
  unfolding covered_path both_fks
  covered_path-IsDeclared join (none, _) found rel m apart fks h = inr h
  covered_path-IsDeclared join (some a, none) found rel m apart fks h = inr h
  covered_path-IsDeclared join (some a, some b) found rel m apart (fa, fb) h =
      elim (Among-append_if (pk_covers_fks s join a b) found (joined s join origin target a b) rel
        h) [
          | inl (covers, same) ↦ inl (through_join join a b m apart fa.0 fb.0 fa.1 fb.1 covers same)
          | inr old ↦ inr old
        ]

  join_path-IsDeclared :
      (join : TableId) (found : List Relationship) (rel : Relationship)
      → Among join (keys s.tables)
      → Among rel (join_path s join origin target found)
      → IsDeclared rel ⊎ Among rel found
  unfolding join_path join_table_fks
  join_path-IsDeclared join found rel m h =
      elim (Bool-cases (table_id_eq.beq join origin || table_id_eq.beq join target)) [
        | inl same ↦ inr (rw (same, Among) at h)
        | inr apart ↦
            covered_path-IsDeclared join _ found rel m (neither join apart)
              (join_loop-IsFk s.foreign_keys join none none (λ f m. m) tt tt)
              (rw (apart, Among) at h)
      ]

  many_to_many_loop-IsDeclared :
      (tables : List TableId) (found : List Relationship) (rel : Relationship)
      → ((join : TableId) → Among join tables → Among join (keys s.tables))
      → Among rel (many_to_many_loop tables s origin target found)
      → IsDeclared rel ⊎ Among rel found
  unfolding many_to_many_loop
  many_to_many_loop-IsDeclared [] found rel all h = inr h
  many_to_many_loop-IsDeclared (join ∷ tables) found rel all h =
      elim (many_to_many_loop-IsDeclared tables _ rel (λ j m. all j (inr m)) h) [
        | inl declared ↦ inl declared
        | inr now ↦ join_path-IsDeclared join found rel (all join (inl refl)) now
      ]

  -- Every candidate is declared.
  pub relationships-IsDeclared :
      (rel : Relationship) → Among rel (relationships s origin target) → IsDeclared rel
  unfolding relationships many_to_many_paths
  relationships-IsDeclared rel h =
      elim (Among-append rel (fk_paths s.foreign_keys origin target []) _ h) [
        | inl by_key ↦ elim (fk_paths-ByFk s.foreign_keys [] rel by_key) [
          | inl (fk, among, inl (j, same)) ↦ direct fk among j same
          | inl (fk, among, inr (j, same)) ↦ inverse fk among j same
          | inr nothing ↦ absurd nothing
        ]
        | inr joined_path ↦
            elim (many_to_many_loop-IsDeclared (keys s.tables) [] rel (λ j m. m) joined_path) [
              | inl declared ↦ declared
              | inr nothing ↦ absurd nothing
            ]
      ]

  pub relationships-new :
      (fk : ForeignKeyFact)
      → Among fk s.foreign_keys
      → Joins fk origin target
      → Among (many_to_one_from fk) (relationships s origin target)
  unfolding relationships
  relationships-new fk m j =
      Among-append_left (many_to_one_from fk) (fk_paths s.foreign_keys origin target []) _
        (fk_paths-new s.foreign_keys [] fk m j)

pub filter_by_hint-Among :
    (candidates : List Relationship) (hint : Text) (rel : Relationship)
    → Among rel (filter_by_hint candidates hint)
    → Among rel candidates × (is_hinted rel hint ≡ true)
unfolding filter_by_hint
filter_by_hint-Among [] hint rel h = absurd h
filter_by_hint-Among (first ∷ candidates) hint rel h = elim (Bool-cases (is_hinted first hint)) [
  | inl hinted ↦ elim (rw (hinted, Among) at h) [
    | inl same ↦ (inl same, rw same hinted)
    | inr later ↦ let (m, t) = filter_by_hint-Among candidates hint rel later in (inr m, t)
  ]
  | inr other ↦
      let (m, t) = filter_by_hint-Among candidates hint rel (rw (other, Among) at h) in (inr m, t)
]

pub by_hint-Among :
    (hint : Text) (candidates : List Relationship) (rel : Relationship)
    → Among rel (by_hint hint candidates)
    → Among rel candidates
by_hint-Among [] candidates rel h = h
by_hint-Among (c ∷ hint) candidates rel h = (filter_by_hint-Among candidates (c ∷ hint) rel h).0
