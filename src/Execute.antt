-- ===== src/Execute.antt =====
-- internal/writeexec/executor.go: the checks of a write, its options, and the preferences that an
-- answer names. A row that the database gives back is a list of names and one of values.
pub mod Transaction
pub mod Run
pub mod Allowed
pub mod Quiet
pub mod Settled
use myrest.Prelude.{
  ℕ, Bool, true, false, not, ◌&&◌, ◌||◌, Option, none, some, List, [], ◌∷◌, ◌++◌, Result, ok, err,
  ◌>>=◌, if◌then◌else◌, length, ◌==◌,
}
use myrest.Text.{Text, codes, equal}
use myrest.Text.Decimal.{format_uint}
use myrest.Json.{Value}
use myrest.Prefer.{surface_write, Preferences}
use myrest.Prefer.Rules.{refusal}
use myrest.ReadQuery.Query.{Query, Filter, Groups, end, also}
use myrest.Schema.{Table}
use myrest.Sql.Failure.{SqlFailure}
use myrest.Write.{Row, OnDuplicate, duplicate_fails, duplicate_merges, duplicate_ignored, Options}
use myrest.Write.Mutate.{Action, insert, update, delete, upsert}

pub record ResultRow : Type 0 where
  pub columns : List Text
  pub values : List Value

-- What the client asks for; `singular` is a representation of one object.
pub record Intent : Type 0 where
  pub action : Action
  pub role : Text
  pub target : Table
  pub payload : List Row
  pub filter : Query
  pub preferences : Preferences
  pub primary_key : List Text
  pub can_select : Bool
  pub singular : Bool

pub record Outcome : Type 0 where
  pub affected : ℕ
  pub rows : List ResultRow
  pub keys : List Row
  pub applied : List Text
  pub inserted : Bool

pub data WriteFailure (E : Type 0) : Type 0 where
  invalid_preferences : List Text → WriteFailure E
  unbounded bad_resolution bad_role bad_pre_request : WriteFailure E
  needs_payload : Action → WriteFailure E
  dishonest_representation : Text → WriteFailure E
  singular_refused : ℕ → WriteFailure E
  max_affected_exceeded : ℕ → ℕ → WriteFailure E
  not_built : SqlFailure → WriteFailure E
  from_database : E → WriteFailure E

abbrev pub Checked : Type 0 → Type 0
Checked E = Result (WriteFailure E) (Unit {0})

abbrev pub is_nil : {A : Type 0} → List A → Bool
is_nil [] = true
is_nil (x ∷ xs) = false

abbrev pub no_groups : Groups → Bool
no_groups end = true
no_groups (also g gs) = false

unfoldable pub unbounded_filter : Query → Bool
unbounded_filter query = is_nil query.filters && no_groups query.groups

abbrev pub changes_matching : Action → Bool
changes_matching insert = false
changes_matching update = true
changes_matching delete = true
changes_matching upsert = false

abbrev pub needs_rows : Action → Bool
needs_rows insert = true
needs_rows update = true
needs_rows delete = false
needs_rows upsert = true

abbrev pub is_insert : Action → Bool
is_insert insert = true
is_insert update = false
is_insert delete = false
is_insert upsert = false

abbrev pub is_upsert : Action → Bool
is_upsert insert = false
is_upsert update = false
is_upsert delete = false
is_upsert upsert = true

abbrev pub is_update : Action → Bool
is_update insert = false
is_update update = true
is_update delete = false
is_update upsert = false

abbrev pub is_delete : Action → Bool
is_delete insert = false
is_delete update = false
is_delete delete = true
is_delete upsert = false

module _ {E : Type 0} where
  unfoldable pub check_action : Intent → Checked E
  check_action intent =
      if changes_matching intent.action
        && (unbounded_filter intent.filter && not intent.preferences.all_rows)
      then err unbounded
      else if needs_rows intent.action && is_nil intent.payload
      then err (needs_payload intent.action)
      else if (is_insert intent.action || is_upsert intent.action)
          && intent.preferences.bad_resolution
      then err bad_resolution
      else ok tt

unfoldable pub wants_representation : Preferences → Bool
unfolding equal
wants_representation p = equal p.return_value (codes "representation")

unfoldable pub ignores_duplicates : Preferences → Bool
unfolding equal
ignores_duplicates p = equal p.resolution (codes "ignore-duplicates")

unfoldable pub missing_key_message : Action → Text
missing_key_message action =
    codes "Prefer return=representation needs a primary key to return "
    ++ ((if is_update action then codes "updated" else codes "inserted") ++ codes " rows honestly")

-- The empty message means that there is no problem.
unfoldable pub representation_problem : Intent → Text
unfolding missing_key_message
representation_problem intent =
    if is_upsert intent.action
    then codes "Prefer return=representation cannot return affected rows honestly"
    else if is_nil intent.primary_key && (is_insert intent.action || is_update intent.action)
    then missing_key_message intent.action
    else if not intent.can_select
    then codes "Prefer return=representation needs SELECT to return affected rows honestly"
    else if is_insert intent.action && ignores_duplicates intent.preferences
    then codes "Prefer return=representation cannot tell inserted rows from ignored rows honestly"
    else []

module _ {E : Type 0} where
  unfoldable pub refuse_message : Text → Checked E
  refuse_message [] = ok tt
  refuse_message (c ∷ message) = err (dishonest_representation (c ∷ message))

  unfoldable pub check_representation : Intent → Checked E
  check_representation intent =
      if wants_representation intent.preferences
      then refuse_message (representation_problem intent)
      else ok tt

  unfoldable pub refuse_preferences : Option (List Text) → Checked E
  refuse_preferences none = ok tt
  refuse_preferences (some tokens) = err (invalid_preferences tokens)

  unfoldable pub check_intent : Intent → Checked E
  check_intent intent = do
    honoured ← refuse_preferences (refusal intent.preferences surface_write)
    acted ← check_action intent
    check_representation intent

unfoldable pub duplicates_of : Preferences → Action → OnDuplicate
unfolding equal
duplicates_of p action =
    if ignores_duplicates p
    then duplicate_ignored
    else if equal p.resolution (codes "merge-duplicates") || is_upsert action
    then duplicate_merges
    else duplicate_fails

unfoldable pub write_options : Intent → Options
unfolding equal
write_options intent = record {
  primary_key = intent.primary_key;
  return_representation = wants_representation intent.preferences;
  return_keys =
      equal intent.preferences.return_value (codes "headers-only")
      || wants_representation intent.preferences;
  missing_default = intent.preferences.missing_default;
  max_affected =
      if intent.preferences.strict && not (is_insert intent.action)
      then intent.preferences.max_affected
      else none;
  prefer_tx = intent.preferences.tx;
  on_duplicate = duplicates_of intent.preferences intent.action;
}
