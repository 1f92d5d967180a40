-- ===== src/Tests/Executing.antt =====
-- Examples of writes in their transactions, on a database that is the number of its rows, with the
-- number that the open transaction leaves of them.
use myrest.Prelude.{
  ℕ, ◌+◌, ◌≡◌, refl, Bool, true, false, Option, none, some, is_some, [], ◌∷◌, ok, err,
}
use myrest.Text.{Text, codes, equal}
use myrest.Prefer.{Preferences, count_none}
use myrest.ReadQuery.Query.{zero_query}
use myrest.Write.Mutate.{delete}
use myrest.Execute.{Intent, Outcome, from_database, check_intent}
use myrest.Execute.Transaction.{Adapter, tx_commit_allow_override}
use myrest.Execute.Run.{execute}
use myrest.Execute.Quiet.{Begun, IsTransactional}
use myrest.Execute.Settled.{Settles, execute-Settles}
use myrest.Execute.Allowed.{IsAllowed, execute-IsAllowed}
use myrest.Execute.Run.{execute_checked, action_preferences, applied}
use myrest.Execute.{
  refuse_preferences, check_action, unbounded_filter, check_representation, wants_representation,
  duplicates_of, ignores_duplicates, write_options,
}
use myrest.Prefer.Rules.{refusal, invalid_on, raw_tokens}
use myrest.Execute.Transaction.{
  within_transaction, role_switch_statement, quote_role, call_statement, decide_allow_override,
  decide_tx_end, commit_if, end_tx, execute_transaction, pre_request_call_statement,
  run_pre_request, started, switched, validate, validate_if, with_request_tx,
}
use myrest.Names.{
  parse_role, check_role, check_quotable, cut_last, all_quotable, is_quotable_rune, check_host,
  split_pre_request, two_parts,
}
use myrest.Text.{split}
use myrest.Tests.Data.{people}

abbrev one_row : Outcome
one_row = record { affected = 1; rows = []; keys = []; applied = []; inserted = true }

abbrev Rows : Type 0
Rows = ℕ × Option ℕ

abbrev begin_tx : Rows → Option Text × Rows
begin_tx (n, pending) = (none, (n, some n))

-- A row more; outside of a transaction it is stored at once.
abbrev add_row : Rows → Rows
add_row (n, none) = (n + 1, none)
add_row (n, some m) = (n, some (m + 1))

-- The commit is stored, but its answer is lost.
abbrev lose_answer : Rows → Option Text × Rows
lose_answer (n, none) = (some (codes "no transaction"), (n, none))
lose_answer (n, some m) = (some (codes "connection lost"), (m, none))

abbrev roll_back : Rows → Option Text × Rows
roll_back (n, none) = (some (codes "no transaction"), (n, none))
roll_back (n, some m) = (none, (n, none))

abbrev counter : Adapter Rows Text
counter = record {
  set_role = λ statement. none;
  start = begin_tx;
  call = λ statement db. (none, db);
  read_delete = λ intent db. (ok [], db);
  mutate = λ intent options db. (ok one_row, add_row db);
  project = λ rows intent. none;
  commit = lose_answer;
  rollback = roll_back;
}

abbrev stored_rows : Rows → ℕ
stored_rows db = db.0

abbrev has_tx : Rows → Bool
has_tx db = is_some db.1

begin_tx-Begun : (db : Rows) → Begun stored_rows has_tx db (begin_tx db)
begin_tx-Begun (n, pending) = (refl, refl)

add_row-Kept :
    (db : Rows)
    → has_tx db ≡ true
    → (stored_rows (add_row db) ≡ stored_rows db) × (has_tx (add_row db) ≡ true)
add_row-Kept (n, none) h = cc
add_row-Kept (n, some m) h = (refl, refl)

roll_back-closes :
    (db : Rows)
    → (stored_rows (roll_back db).1 ≡ stored_rows db) × (has_tx (roll_back db).1 ≡ false)
roll_back-closes (n, none) = (refl, refl)
roll_back-closes (n, some m) = (refl, refl)

counter_laws : IsTransactional stored_rows has_tx counter
counter_laws = record {
  start_begins = begin_tx-Begun;
  call_keeps = λ statement db opened. (refl, opened);
  read_delete_keeps = λ intent db opened. (refl, opened);
  mutate_keeps = λ intent options db opened. add_row-Kept db opened;
  rollback_stores = λ db. (roll_back-closes db).0;
  rollback_closes = λ db. (roll_back-closes db).1;
}

abbrev preferring : Text → Preferences
preferring tx = record {
  strict = true;
  count = count_none;
  return_value = [];
  missing_default = false;
  max_affected = none;
  tx = tx;
  resolution = [];
  bad_resolution = false;
  all_rows = true;
  row_security = false;
  jwt_claims = false;
  timezone = false;
  invalid = [];
}

abbrev delete_all : Text → Intent
delete_all tx = record {
  action = delete;
  role = codes "web";
  target = people;
  payload = [];
  filter = zero_query;
  preferences = preferring tx;
  primary_key = codes "name" ∷ [];
  can_select = true;
  singular = false;
}

execute-Settles_example :
    Settles counter stored_rows has_tx counter_laws
      (codes "shop.check")
      tx_commit_allow_override
      (delete_all (codes "commit"))
      (7, none)
      (execute counter
        (codes "shop.check")
        tx_commit_allow_override
        (delete_all (codes "commit"))
        (7, none))
execute-Settles_example =
    execute-Settles counter stored_rows has_tx counter_laws (codes "shop.check")
      tx_commit_allow_override (delete_all (codes "commit")) (7, none) refl

-- The write fails, though its row is stored.
answer_lost :
    execute counter
      (codes "shop.check")
      tx_commit_allow_override
      (delete_all (codes "commit"))
      (7, none)
    ≡ (err (from_database (codes "connection lost")), (8, none))
unfolding execute execute_checked check_intent refuse_preferences refusal check_action
    unbounded_filter check_representation wants_representation within_transaction
    role_switch_statement quote_role parse_role check_role check_quotable cut_last all_quotable
    is_quotable_rune action_preferences applied call_statement decide_allow_override decide_tx_end
    end_tx commit_if execute_transaction pre_request_call_statement run_pre_request started switched
    validate validate_if with_request_tx duplicates_of ignores_duplicates write_options check_host
    split_pre_request two_parts invalid_on raw_tokens equal split
answer_lost = refl

abbrev deleted : Outcome
deleted = record one_row { applied = codes "handling=strict" ∷ codes "tx=rollback" ∷ [] }

rolled_back :
    execute counter
      (codes "shop.check")
      tx_commit_allow_override
      (delete_all (codes "rollback"))
      (7, none)
    ≡ (ok deleted, (7, none))
unfolding execute execute_checked check_intent refuse_preferences refusal check_action
    unbounded_filter check_representation wants_representation within_transaction
    role_switch_statement quote_role parse_role check_role check_quotable cut_last all_quotable
    is_quotable_rune action_preferences applied call_statement decide_allow_override decide_tx_end
    end_tx commit_if execute_transaction pre_request_call_statement run_pre_request started switched
    validate validate_if with_request_tx duplicates_of ignores_duplicates write_options check_host
    split_pre_request two_parts invalid_on raw_tokens equal split
rolled_back = refl

execute-IsAllowed_example : IsAllowed (delete_all (codes "rollback"))
execute-IsAllowed_example =
    execute-IsAllowed counter (codes "shop.check") tx_commit_allow_override
      (delete_all (codes "rollback")) (7, none) rolled_back
