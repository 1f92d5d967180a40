-- ===== src/Execute/Transaction.antt =====
-- internal/config/txend.go, internal/mysqldb/tx.go, prerequest.go and role.go, and Execute of
-- internal/writeexec: a write inside its transaction. The state is that of the database, with the
-- transaction that is open; each call of the driver takes it and gives it back.
use myrest.Prelude.{
  Bool, true, false, not, ◌&&◌, Option, none, some, List, [], ◌∷◌, ◌++◌, Result, ok, err, ◌>>=◌,
  if◌then◌else◌, length, ◌==◌,
}
use myrest.Text.{Text, codes, equal}
use myrest.Names.{NameFailure, Role, parse_role, split_pre_request}
use myrest.Sql.Expr.{quote_identifier}
use myrest.Write.{Options}
use myrest.Execute.{
  ResultRow, Intent, Outcome, WriteFailure, bad_role, bad_pre_request, singular_refused,
  from_database, is_delete, wants_representation,
}

-- The values of the knob db-tx-end; the empty one and unknown ones end as commit does.
pub data TxEnd : Type 0 where
  tx_commit tx_commit_allow_override tx_rollback tx_rollback_allow_override : TxEnd

unfoldable pub decide_allow_override : Bool → Text → Bool × Bool
unfolding equal
decide_allow_override default_commit prefer_tx =
    if equal prefer_tx (codes "commit")
    then (true, true)
    else if equal prefer_tx (codes "rollback")
    then (false, true)
    else (default_commit, false)

-- Whether to commit, and whether the preference was applied.
unfoldable pub decide_tx_end : TxEnd → Text → Bool × Bool
decide_tx_end tx_commit prefer_tx = (true, false)
decide_tx_end tx_commit_allow_override prefer_tx = decide_allow_override true prefer_tx
decide_tx_end tx_rollback prefer_tx = (false, false)
decide_tx_end tx_rollback_allow_override prefer_tx = decide_allow_override false prefer_tx

abbrev quoted_role : Role → Text
quoted_role role =
    if role.has_host
    then codes "'" ++ (role.name ++ (codes "'@'" ++ (role.host ++ codes "'")))
    else codes "'" ++ (role.name ++ codes "'")

unfoldable pub quote_role : Text → Result NameFailure Text
quote_role role = do parsed ← parse_role role; ok (quoted_role parsed)

unfoldable pub role_switch_statement : Text → Result NameFailure Text
role_switch_statement role = do quoted ← quote_role role; ok (codes "SET ROLE " ++ quoted)

unfoldable pub pre_request_call_statement : Text → Result NameFailure Text
pre_request_call_statement name = do
  parts ← split_pre_request name
  ok (
      codes "CALL "
      ++ (quote_identifier parts.0 ++ (codes "." ++ (quote_identifier parts.1 ++ codes "()"))))

-- The calls of the driver, and the Transaction of internal/writeexec: what each gives, and the state
-- that it leaves. `set_role` takes a connection from the pool and runs the role switch on it, `start` is
-- BeginTx, and `project` is readquery.Project, of which only the error counts here.
pub record Adapter (Db E : Type 0) : Type 0 where
  pub set_role : Text → Option E
  pub start : Db → Option E × Db
  pub call : Text → Db → Option E × Db
  pub read_delete : Intent → Db → Result (WriteFailure E) (List ResultRow) × Db
  pub mutate : Intent → Options → Db → Result (WriteFailure E) Outcome × Db
  pub project : List ResultRow → Intent → Option E
  pub commit : Db → Option E × Db
  pub rollback : Db → Option E × Db

-- A statement of a transaction: an error or a value, and the state in the transaction.
abbrev pub Step : Type 0 → Type 0 → Type 0 → Type 0
Step Db E A = Db → Result (WriteFailure E) A × Db

module _ {Db E : Type 0} where
  abbrev pub continue :
      {A B : Type 0}
      → Result (WriteFailure E) A × Db
      → (A → Step Db E B)
      → Result (WriteFailure E) B × Db
  continue (ok a, db) f = f a db
  continue (err e, db) f = (err e, db)

  infixl 5 ◌>=>◌
  abbrev pub ◌>=>◌ : {A B : Type 0} → Step Db E A → (A → Step Db E B) → Step Db E B
  (m >=> f) db = continue (m db) f

  abbrev pub done : {A : Type 0} → A → Step Db E A
  done a db = (ok a, db)

  abbrev pub fails : {A : Type 0} → WriteFailure E → Step Db E A
  fails e db = (err e, db)

  abbrev pub or_fails : {A : Type 0} → Result (WriteFailure E) A → Step Db E A
  or_fails r db = (r, db)

  module _ (adapter : Adapter Db E) where
    abbrev from_project : Option E → Result (WriteFailure E) (Unit {0})
    from_project none = ok tt
    from_project (some e) = err (from_database e)

    unfoldable pub validate : Intent → List ResultRow → Result (WriteFailure E) (Unit {0})
    validate intent rows =
        if intent.singular && not (length rows == 1)
        then err (singular_refused (length rows))
        else from_project (adapter.project rows intent)

    -- The rows that a DELETE with a representation reads first.
    unfoldable pub read_before : Intent → Step Db E (List ResultRow)
    read_before intent = adapter.read_delete intent >=> λ rows.
        or_fails (validate intent rows) >=> λ valid. done rows

    unfoldable pub validate_if : Bool → Intent → Outcome → Step Db E Outcome
    validate_if true intent outcome =
        or_fails (validate intent outcome.rows) >=> λ valid. done outcome
    validate_if false intent outcome = done outcome

    unfoldable pub execute_transaction : Intent → Options → Step Db E Outcome
    execute_transaction intent options =
        if is_delete intent.action && options.return_representation
        then (read_before intent >=> λ rows.
            adapter.mutate intent (record options { return_representation = false }) >=> λ outcome.
            done (
              if wants_representation intent.preferences
              then record outcome { rows = rows }
              else outcome))
        else (adapter.mutate intent options >=> λ outcome.
            validate_if options.return_representation intent (
              if is_delete intent.action && wants_representation intent.preferences
              then record outcome { rows = [] }
              else outcome))

    abbrev pub from_call : Option E × Db → Result (WriteFailure E) (Unit {0}) × Db
    from_call (none, db) = (ok tt, db)
    from_call (some e, db) = (err (from_database e), db)

    unfoldable pub call_statement : Result NameFailure Text → Step Db E (Unit {0})
    call_statement (err e) db = (err bad_pre_request, db)
    call_statement (ok statement) db = from_call (adapter.call statement db)

    unfoldable pub run_pre_request : Text → Step Db E (Unit {0})
    run_pre_request [] db = (ok tt, db)
    run_pre_request (c ∷ name) db = call_statement (pre_request_call_statement (c ∷ name)) db

    abbrev pub committed : {A : Type 0} → A → Option E × Db → Result (WriteFailure E) A × Db
    committed a (none, after) = (ok a, after)
    committed a (some e, after) = (err (from_database e), after)

    -- tx.Commit, where the statements gave no error and the transaction is to be committed.
    unfoldable pub commit_if :
        {A : Type 0} → Bool → Result (WriteFailure E) A × Db → Result (WriteFailure E) A × Db
    commit_if commit (err e, after) = (err e, after)
    commit_if false (ok a, after) = (ok a, after)
    commit_if true (ok a, after) = committed a (adapter.commit after)

    -- The deferred tx.Rollback comes last on every path, and its error is dropped.
    unfoldable pub end_tx :
        {A : Type 0} → Bool → Result (WriteFailure E) A × Db → Result (WriteFailure E) A × Db
    unfolding commit_if
    end_tx commit inside =
        let (answer, after) = commit_if commit inside in (answer, (adapter.rollback after).1)

    unfoldable pub started :
        {A : Type 0} → Option E × Db → Text → Bool → Step Db E A → Result (WriteFailure E) A × Db
    started (some e, db) pre_request commit work = (err (from_database e), db)
    started (none, db) pre_request commit work =
        end_tx commit ((run_pre_request pre_request >=> λ called. work) db)

    unfoldable pub with_request_tx : {A : Type 0} → Text → TxEnd → Text → Step Db E A → Step Db E A
    with_request_tx pre_request tx_end prefer_tx work db =
        started (adapter.start db) pre_request (decide_tx_end tx_end prefer_tx).0 work

    unfoldable pub switched : {A : Type 0} → Option E → Step Db E A → Step Db E A
    switched (some e) work db = (err (from_database e), db)
    switched none work db = work db

    -- WithinTransaction: the role is activated on the connection first.
    unfoldable pub within_transaction :
        {A : Type 0} → Result NameFailure Text → Text → TxEnd → Text → Step Db E A → Step Db E A
    within_transaction (err e) pre_request tx_end prefer_tx work db = (err bad_role, db)
    within_transaction (ok statement) pre_request tx_end prefer_tx work db =
        switched (adapter.set_role statement) (with_request_tx pre_request tx_end prefer_tx work) db
