-- ===== src/Execute/Allowed.antt =====
-- Which writes are allowed.
use myrest.Prelude.{
  ℕ, ◌≡◌, ◌≢◌, ◌⊎◌, ap, inl, inr, refl, Bool, true, false, not, ◌&&◌, ◌||◌, Option, none, some,
  List, [], ◌∷◌, ok, err, bind-eq-ok, if◌then◌else◌, arith,
}
use myrest.Text.{Text}
use myrest.Prefer.{surface_write}
use myrest.Prefer.Rules.{refusal}
use myrest.ReadQuery.Query.{Groups, end, also}
use myrest.Write.Mutate.{Action, insert, update, delete, upsert}
use myrest.Execute.{
  Intent, Checked, WriteFailure, is_nil, no_groups, changes_matching, needs_rows, is_insert,
  is_upsert, is_update, unbounded_filter, check_action, wants_representation, ignores_duplicates,
  representation_problem, missing_key_message, refuse_message, check_representation,
  refuse_preferences, check_intent, Outcome,
}
use myrest.Execute.Transaction.{TxEnd, Adapter}
use myrest.Execute.Run.{execute_checked, execute}

-- The conditions of each action, told one by one.
abbrev pub IsBounded : Intent → Type 0
IsBounded intent =
    (intent.preferences.all_rows ≡ true)
    ⊎ (intent.filter.filters ≢ [])
    ⊎ (intent.filter.groups ≢ end)

abbrev pub IsActionAllowed : Action → Intent → Type 0
IsActionAllowed insert intent = (intent.payload ≢ []) × (intent.preferences.bad_resolution ≡ false)
IsActionAllowed update intent = IsBounded intent × (intent.payload ≢ [])
IsActionAllowed delete intent = IsBounded intent
IsActionAllowed upsert intent = (intent.payload ≢ []) × (intent.preferences.bad_resolution ≡ false)

-- When the affected rows can be returned.
abbrev pub IsHonest : Action → Intent → Type 0
IsHonest insert intent =
    (intent.primary_key ≢ [])
    × (intent.can_select ≡ true)
    × (ignores_duplicates intent.preferences ≡ false)
IsHonest update intent = (intent.primary_key ≢ []) × (intent.can_select ≡ true)
IsHonest delete intent = intent.can_select ≡ true
IsHonest upsert intent = ⊥

-- A chain of refusals that ends well has passed each of its tests.
refused_unless :
    {E : Type 0} (b : Bool) (e : WriteFailure E) (r : Checked E)
    → (if b then err e else r) ≡ ok tt
    → (b ≡ false) × (r ≡ ok tt)
refused_unless true e r h = cc
refused_unless false e r h = (refl, h)

silent_unless :
    (b : Bool) (c : ℕ) (s t : Text) → (if b then c ∷ s else t) ≡ [] → (b ≡ false) × (t ≡ [])
silent_unless true c s t h = cc
silent_unless false c s t h = (refl, h)

is_nil-ne : {A : Type 0} (xs : List A) → is_nil xs ≡ false → xs ≢ []
is_nil-ne [] h = cc
is_nil-ne (x ∷ xs) h = cc

no_groups-ne : (groups : Groups) → no_groups groups ≡ false → groups ≢ end
no_groups-ne end h = cc
no_groups-ne (also g gs) h = cc

and_false : (a b : Bool) → a && b ≡ false → (a ≡ false) ⊎ (b ≡ false)
and_false true b h = inr h
and_false false b h = inl refl

not-false : (b : Bool) → not b ≡ false → b ≡ true
not-false true h = refl
not-false false h = cc

unbounded_filter-IsBounded :
    (intent : Intent)
    → unbounded_filter intent.filter && not intent.preferences.all_rows ≡ false
    → IsBounded intent
unfolding unbounded_filter
unbounded_filter-IsBounded intent h =
    elim (and_false (is_nil intent.filter.filters && no_groups intent.filter.groups)
      (not intent.preferences.all_rows) h) [
        | inl conditions ↦
            elim (and_false (is_nil intent.filter.filters) (no_groups intent.filter.groups)
              conditions) [
                | inl filters ↦ inr (inl (is_nil-ne intent.filter.filters filters))
                | inr groups ↦ inr (inr (no_groups-ne intent.filter.groups groups))
              ]
        | inr rows ↦ inl (not-false intent.preferences.all_rows rows)
      ]

module _ {E : Type 0} (intent : Intent) where
  check_action-IsActionAllowed :
      check_action {E = E} intent ≡ ok tt → IsActionAllowed intent.action intent
  unfolding check_action
  check_action-IsActionAllowed h =
      let (bounded, h1) = refused_unless _ _ _ h in
      let (rows, h2) = refused_unless _ _ _ h1 in
      let (resolution, h3) = refused_unless _ _ _ h2 in
      by_action intent.action bounded rows resolution
    where
      by_action :
          (action : Action)
          → changes_matching action
              && (unbounded_filter intent.filter && not intent.preferences.all_rows)
            ≡ false
          → needs_rows action && is_nil intent.payload ≡ false
          → (is_insert action || is_upsert action) && intent.preferences.bad_resolution ≡ false
          → IsActionAllowed action intent
      by_action insert b r p = (is_nil-ne intent.payload r, p)
      by_action update b r p = (unbounded_filter-IsBounded intent b, is_nil-ne intent.payload r)
      by_action delete b r p = unbounded_filter-IsBounded intent b
      by_action upsert b r p = (is_nil-ne intent.payload r, p)

  refuse_message-nil : (message : Text) → refuse_message {E = E} message ≡ ok tt → message ≡ []
  unfolding refuse_message
  refuse_message-nil [] h = refl
  refuse_message-nil (c ∷ message) h = cc

problem-IsHonest :
    (intent : Intent) → representation_problem intent ≡ [] → IsHonest intent.action intent
unfolding representation_problem missing_key_message
problem-IsHonest intent h =
    let (no_upsert, h1) = silent_unless _ _ _ _ h in
    let (keyed, h2) = silent_unless _ _ _ _ h1 in
    let (readable, h3) = silent_unless _ _ _ _ h2 in
    let (told, h4) = silent_unless _ _ _ _ h3 in
    by_action intent.action no_upsert keyed (not-false intent.can_select readable) told
  where
    by_action :
        (action : Action)
        → is_upsert action ≡ false
        → is_nil intent.primary_key && (is_insert action || is_update action) ≡ false
        → intent.can_select ≡ true
        → is_insert action && ignores_duplicates intent.preferences ≡ false
        → IsHonest action intent
    by_action insert u k r t = (is_nil-ne intent.primary_key (keyed k), r, t)
      where
        keyed : is_nil intent.primary_key && true ≡ false → is_nil intent.primary_key ≡ false
        keyed k = ground arith
    by_action update u k r t = (is_nil-ne intent.primary_key (ground arith), r)
    by_action delete u k r t = r
    by_action upsert u k r t = cc

abbrev pub IsAllowed : Intent → Type 0
IsAllowed intent =
    (refusal intent.preferences surface_write ≡ none)
    × IsActionAllowed intent.action intent
    × (wants_representation intent.preferences ≡ true → IsHonest intent.action intent)

module _ {E : Type 0} where
  refuse_preferences-none :
      (found : Option (List Text)) {r : Unit {0}}
      → refuse_preferences {E = E} found ≡ ok r
      → found ≡ none
  unfolding refuse_preferences
  refuse_preferences-none none h = refl
  refuse_preferences-none (some tokens) h = cc

  check_representation-IsHonest :
      (intent : Intent)
      → check_representation {E = E} intent ≡ ok tt
      → wants_representation intent.preferences ≡ true
      → IsHonest intent.action intent
  unfolding check_representation
  check_representation-IsHonest intent h wants =
      problem-IsHonest intent
        (refuse_message-nil intent (representation_problem intent) (rw wants at h))

  check_intent-IsAllowed :
      (intent : Intent) → check_intent {E = E} intent ≡ ok tt → IsAllowed intent
  unfolding check_intent
  check_intent-IsAllowed intent h =
      let (a, honoured, h1) =
        bind-eq-ok (refuse_preferences (refusal intent.preferences surface_write)) _ h in
      let (b, acted, represented) = bind-eq-ok (check_action intent) _ h1 in
      (
        refuse_preferences-none (refusal intent.preferences surface_write) honoured,
        check_action-IsActionAllowed intent acted,
        check_representation-IsHonest intent represented,
      )

module _ {Db E : Type 0} (adapter : Adapter Db E) (pre_request : Text) (tx_end : TxEnd) where
  checked_first :
      (checked : Checked E) (intent : Intent) (db : Db) {outcome : Outcome} {after : Db}
      → execute_checked adapter pre_request tx_end checked intent db ≡ (ok outcome, after)
      → checked ≡ ok tt
  unfolding execute_checked
  checked_first (err e) intent db h = let r = ap (λ p. p.0) h in cc
  checked_first (ok tt) intent db h = refl

  -- For every adapter, pre-request hook, db-tx-end, write and database state: a write that succeeds
  -- has preferences that are not refused; an update or a delete has a filter, a logical tree or the
  -- all-rows preference; an insert, an update and an upsert have a row, and an insert and an upsert
  -- no unknown resolution; and where the affected rows are asked for, the role can select, an insert
  -- and an update have a primary key, an insert does not ignore duplicates, and it is no upsert.
  pub execute-IsAllowed :
      (intent : Intent) (db : Db) {outcome : Outcome} {after : Db}
      → execute adapter pre_request tx_end intent db ≡ (ok outcome, after)
      → IsAllowed intent
  unfolding execute
  execute-IsAllowed intent db h =
      check_intent-IsAllowed intent (checked_first (check_intent intent) intent db h)
