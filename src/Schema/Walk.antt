-- ===== src/Schema/Walk.antt =====
-- The walk over the role grants finds the privileges of exactly the roles that it can reach.
use myrest.Prelude.{
  ℕ, zero, suc, ◌≤◌, ◌<◌, ◌≡◌, ◌⊎◌, inl, inr, refl, ap, true, false, none, some, List, [], ◌∷◌,
  length, if◌then◌else◌, arith, Bool-cases, Option-cases, Among,
}
use myrest.Text.{Text}
use myrest.Dict.{text_eq, Eq, Dict, holds, add, keys, find, items}
use myrest.Dict.Laws.{
  holds-Among, Among-holds, Among-add_new, Among-add_old, Among-add, Among-add_all_old,
  Among-add_all_new, Among-add_all, find-keys,
}
use myrest.Schema.Grants.{Visits, visit_each, no_visits, mark, walk, held_by}

-- How many keys have not been walked: the measure below the fuel.
abbrev fresh : List Text → List Text → ℕ
fresh [] walked = 0
fresh (k ∷ ks) walked = let rest = fresh ks walked in if holds walked k then rest else suc rest

fresh_mono : (ks w v : List Text) → ((x : Text) → Among x w → Among x v) → fresh ks v ≤ fresh ks w
fresh_mono [] w v h = omega arith
fresh_mono (k ∷ ks) w v h = elim (Bool-cases (holds w k)) [
  | inl old ↦
      let kept : holds v k ≡ true = Among-holds v k (h k (holds-Among w k old)) in
      rw (old, kept) (fresh_mono ks w v h)
  | inr new ↦ ground (arith, fresh_mono ks w v h)
]

fresh-add :
    (ks w : List Text) (role : Text)
    → holds w role ≡ false
    → Among role ks
    → fresh ks (add w role) < fresh ks w
fresh-add [] w role new m = absurd m
fresh-add (k ∷ ks) w role new (inl e) =
    let now : holds (add w role) k ≡ true =
      rw (← e) (Among-holds (add w role) role (Among-add_new w role)) in
    let was : holds w k ≡ false = rw (← e) new in
    rw (now, was)
      (let le = fresh_mono ks w (add w role) (λ x. Among-add_old w role x) in omega arith)
fresh-add (k ∷ ks) w role new (inr m) =
    let lt = fresh-add ks w role new m in
    elim (Bool-cases (holds w k)) [
      | inl old ↦
          let kept : holds (add w role) k ≡ true =
            Among-holds (add w role) k (Among-add_old w role k (holds-Among w k old)) in
          rw (old, kept) lt
      | inr unseen ↦ ground arith
    ]

fresh_bound : (ks w : List Text) → fresh ks w ≤ length ks
fresh_bound [] w = omega arith
fresh_bound (k ∷ ks) w = ground (arith, fresh_bound ks w)

module _ {P : Type 0} ⦃e : Eq P⦄ (granted : Dict Text (List Text))
    (direct : Dict Text (List P)) where
  -- The role holds the privilege, of itself or by a chain of grants.
  pub data Reaches (p : P) : Text → Type 0 where
    own : {role : Text} → Among p (items direct role) → Reaches p role
    via : {role next : Text} → Among next (items granted role) → Reaches p next → Reaches p role

  abbrev AllReached : Visits P → Text → Visits P → Type 0
  AllReached s role t = (p : P) → Among p t.found → Reaches p role ⊎ Among p s.found

  visit_each-AllReached :
      (visit : Text → Visits P → Visits P)
      → ((r : Text) (s : Visits P) → AllReached s r (visit r s))
      → (roles : List Text) (s : Visits P) (p : P) → Among p (visit_each visit roles s).found
      → ((r : Text) × (Among r roles) × Reaches p r) ⊎ Among p s.found
  unfolding visit_each
  visit_each-AllReached visit h [] s p m = inr m
  visit_each-AllReached visit h (role ∷ roles) s p m =
      elim (visit_each-AllReached visit h roles (visit role s) p m) [
        | inl (r, among, reaches) ↦ inl (r, inr among, reaches)
        | inr before ↦ elim (h role s p before) [
          | inl reaches ↦ inl (role, inl refl, reaches)
          | inr older ↦ inr older
        ]
      ]

  mark-AllReached : (role : Text) (s : Visits P) → AllReached s role (mark granted direct role s)
  unfolding mark
  mark-AllReached role s p m = elim (Among-add_all (items direct role) s.found p m) [
    | inl new ↦ inl (own new)
    | inr old ↦ inr old
  ]

  pub walk-AllReached :
      (fuel : ℕ) (role : Text) (s : Visits P) → AllReached s role (walk granted direct fuel role s)
  unfolding walk
  walk-AllReached zero role s p m = inr m
  walk-AllReached (suc fuel) role s p m = elim (Bool-cases (holds s.walked role)) [
    | inl old ↦ inr (rw (old, Among) at m)
    | inr new ↦
        elim (visit_each-AllReached (walk granted direct fuel) (walk-AllReached fuel) _ _ p
          (rw (new, Among) at m)) [
            | inl (r, among, reaches) ↦ inl (via among reaches)
            | inr marked ↦ mark-AllReached role s p marked
          ]
  ]

  -- What the role and its grants hold has been found, or at least marked.
  abbrev IsDone : Visits P → Text → Type 0
  IsDone t x =
      ((p : P) → Among p (items direct x) → Among p t.found)
      × ((n : Text) → Among n (items granted x) → Among n t.walked)

  record Grows (s t : Visits P) : Type 0 where
    walked : (x : Text) → Among x s.walked → Among x t.walked
    found : (p : P) → Among p s.found → Among p t.found
    done : (x : Text) → Among x t.walked → Among x s.walked ⊎ IsDone t x

  Grows-IsDone : (s t : Visits P) (x : Text) → Grows s t → IsDone s x → IsDone t x
  Grows-IsDone s t x g d = (λ p m. g.found p (d.0 p m), λ n m. g.walked n (d.1 n m))

  Grows-refl : (s : Visits P) → Grows s s
  Grows-refl s = record { walked = λ x m. m; found = λ p m. m; done = λ x m. inl m }

  Grows-trans : (s t u : Visits P) → Grows s t → Grows t u → Grows s u
  Grows-trans s t u g h = record {
    walked = λ x m. h.walked x (g.walked x m);
    found = λ p m. h.found p (g.found p m);
    done = λ x m. elim (h.done x m) [
      | inl old ↦ elim (g.done x old) [
        | inl older ↦ inl older
        | inr d ↦ inr (Grows-IsDone t u x h d)
      ]
      | inr d ↦ inr d
    ];
  }

  -- The walk from a role marks the role and keeps all it met.
  Walked : Visits P → Text → Visits P → Type 0
  Walked s role t = Grows s t × Among role t.walked

  measure : Visits P → ℕ
  measure s = fresh (keys granted) s.walked

  visit_each-Grows :
      (visit : Text → Visits P → Visits P) (fuel : ℕ)
      → ((r : Text) (s : Visits P) → measure s < fuel → Walked s r (visit r s))
      → (roles : List Text) (s : Visits P) → measure s < fuel
      → Grows s (visit_each visit roles s)
        × ((r : Text) → Among r roles → Among r (visit_each visit roles s).walked)
  unfolding visit_each Walked measure
  visit_each-Grows visit fuel h [] s lt = (Grows-refl s, λ r m. absurd m)
  visit_each-Grows visit fuel h (role ∷ roles) s lt =
      let (g, marked) = h role s lt in
      let le = fresh_mono (keys granted) s.walked (visit role s).walked g.walked in
      let (rest, all) = visit_each-Grows visit fuel h roles (visit role s) (omega arith) in
      (
        Grows-trans _ _ _ g rest,
        λ r m. elim m [ inl e ↦ rw e (rest.walked role marked) | inr later ↦ all r later ],
      )

  -- Marking a role and then its grants walks it.
  Walked-mark :
      (role : Text) (s t : Visits P)
      → Grows (mark granted direct role s) t
      → ((n : Text) → Among n (items granted role) → Among n t.walked)
      → Walked s role t
  unfolding mark Walked
  Walked-mark role s t g next = (
    record {
      walked = λ x m. g.walked x (Among-add_old s.walked role x m);
      found = λ p m. g.found p (Among-add_all_old (items direct role) s.found p m);
      done = λ x m. elim (g.done x m) [
        | inl marked ↦ elim (Among-add s.walked role x marked) [
          | inl e ↦ inr (rw e (here, next))
          | inr old ↦ inl old
        ]
        | inr d ↦ inr d
      ];
    },
    g.walked role (Among-add_new s.walked role),
  )
    where
      here : (p : P) → Among p (items direct role) → Among p t.found
      here p m = g.found p (Among-add_all_new (items direct role) s.found p m)

  walk_old :
      (fuel : ℕ) (role : Text) (s : Visits P)
      → holds s.walked role ≡ true
      → walk granted direct (suc fuel) role s ≡ s
  unfolding walk
  walk_old fuel role s old = rw (old, walk) refl

  walk_new :
      (fuel : ℕ) (role : Text) (s : Visits P)
      → holds s.walked role ≡ false
      → walk granted direct (suc fuel) role s
        ≡ visit_each (walk granted direct fuel) (items granted role) (mark granted direct role s)
  unfolding walk
  walk_new fuel role s new = rw (new, walk) refl

  measure-mark :
      (role : Text) (s : Visits P)
      → holds s.walked role ≡ false
      → Among role (keys granted)
      → measure (mark granted direct role s) < measure s
  unfolding measure mark
  measure-mark role s new key = fresh-add (keys granted) s.walked role new key

  find-Among_keys :
      (role : Text) {roles : List Text} → find granted role ≡ some roles → Among role (keys granted)
  find-Among_keys role e = holds-Among (keys granted) role (rw (← find-keys granted role, e) refl)

  Walked-old : (role : Text) (s : Visits P) → holds s.walked role ≡ true → Walked s role s
  unfolding Walked
  Walked-old role s old = (Grows-refl s, holds-Among s.walked role old)

  Walked-leaf :
      (visit : Text → Visits P → Visits P) (role : Text) (s : Visits P)
      → find granted role ≡ none
      → Walked s role (visit_each visit (items granted role) (mark granted direct role s))
  unfolding items visit_each
  Walked-leaf visit role s leaf =
      rw leaf (Walked-mark role s _ (Grows-refl (mark granted direct role s)) next)
    where
      next : (n : Text) → Among n (items granted role) → Among n (mark granted direct role s).walked
      next n m = absurd (rw (leaf, Among) at m)

  walk-Walked :
      (fuel : ℕ) (role : Text) (s : Visits P)
      → measure s < fuel
      → Walked s role (walk granted direct fuel role s)
  walk-Walked zero role s lt = absurd (omega arith)
  walk-Walked (suc fuel) role s lt = elim (Bool-cases (holds s.walked role)) [
    | inl old ↦ rw (walk_old fuel role s old) (Walked-old role s old)
    | inr new ↦ rw (walk_new fuel role s new) (elim (Option-cases (find granted role)) [
      | inl leaf ↦ Walked-leaf (walk granted direct fuel) role s leaf
      | inr (roles, e) ↦
          let less = measure-mark role s new (find-Among_keys role e) in
          let (g, all) =
            visit_each-Grows (walk granted direct fuel) fuel (walk-Walked fuel) (items granted role)
              (mark granted direct role s) (omega arith) in
          Walked-mark role s _ g all
    ])
  ]

  pub held_by-Reaches :
      (role : Text) (p : P) → Among p (held_by granted direct role) → Reaches p role
  unfolding held_by
  held_by-Reaches role p m = elim (walk-AllReached _ role no_visits p m) [
    | inl reaches ↦ reaches
    | inr nothing ↦ absurd nothing
  ]

  length-keys : (m : Dict Text (List Text)) → length (keys m) ≡ length m
  unfolding keys
  length-keys [] = refl
  length-keys (k ∷ m) = ap suc (length-keys m)

  Reaches-walked :
      (t : Visits P)
      → Grows no_visits t
      → (p : P) (role : Text) → Among role t.walked
      → Reaches p role
      → Among p t.found
  Reaches-walked t g p role m (own direct_one) = elim (g.done role m) [
    | inl never ↦ absurd never
    | inr d ↦ d.0 p direct_one
  ]
  Reaches-walked t g p role m (via next rest) = elim (g.done role m) [
    | inl never ↦ absurd never
    | inr d ↦ Reaches-walked t g p _ (d.1 _ next) rest
  ]

  pub Reaches-held_by :
      (role : Text) (p : P) → Reaches p role → Among p (held_by granted direct role)
  unfolding held_by Walked measure
  Reaches-held_by role p reaches =
      let (g, m) = walk-Walked (suc (length granted)) role no_visits enough in
      Reaches-walked _ g p role m reaches
    where
      enough : measure no_visits < suc (length granted)
      enough = let le = fresh_bound (keys granted) [] in let eq = length-keys granted in omega arith
