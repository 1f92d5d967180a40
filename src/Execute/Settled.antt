-- ===== src/Execute/Settled.antt =====
-- internal/writeexec and internal/mysqldb/tx.go: a write changes what the database stores when all of
-- its statements succeed and the transaction is committed, and in no other case.
use myrest.Prelude.{
  ◌≡◌, ◌⊎◌, inl, inr, refl, ◌∙◌, Bool, true, false, Option, none, some, Result, ok, err,
}
use myrest.Text.{Text}
use myrest.Names.{NameFailure}
use myrest.Execute.{
  Intent, Outcome, WriteFailure, from_database, Checked, check_intent, write_options,
}
use myrest.Execute.Transaction.{
  TxEnd, decide_tx_end, role_switch_statement, Adapter, Step, ◌>=>◌, execute_transaction,
  run_pre_request, committed, commit_if, end_tx, started, with_request_tx, switched,
  within_transaction,
}
use myrest.Execute.Run.{applied, with_applied, execute_checked, execute}
use myrest.Execute.Quiet.{Kept, Begun, IsTransactional, statements-IsQuiet}

module _ {Db E S : Type 0} (adapter : Adapter Db E) (stored : Db → S) (is_open : Db → Bool)
    (laws : IsTransactional stored is_open adapter) where
  -- The statements succeed from a state and leave another; their commit, if there is one, answers.
  abbrev pub Commits : {A : Type 0} → Step Db E A → Db → A → Option E → Db → Type 0
  Commits inside db a answer after =
      (changed : Db) × (inside db ≡ (ok a, changed))
      × ((adapter.commit changed).0 ≡ answer)
      × (stored after ≡ stored (adapter.commit changed).1)

  -- How a transaction whose statements are `inside` ends, from its begin in the state `db`.
  abbrev pub Ends : {A : Type 0} → Bool → Step Db E A → Db → Result (WriteFailure E) A × Db → Type 0
  Ends {A} commit inside db (err e, after) =
      (is_open after ≡ false)
      × ((stored after ≡ stored db)
          ⊎ ((commit ≡ true)
              × (a : A) × (failure : E) × (e ≡ from_database failure)
              × Commits inside db a (some failure) after))
  Ends {A} commit inside db (ok a, after) =
      (is_open after ≡ false)
      × (((commit ≡ true) × Commits inside db a none after)
          ⊎ ((commit ≡ false)
              × (stored after ≡ stored db)
              × (changed : Db) × (inside db ≡ (ok a, changed))))

  committed-Ends :
      {A : Type 0} (inside : Step Db E A) (db changed : Db) (a : A) (answer : Option E × Db)
      → inside db ≡ (ok a, changed)
      → adapter.commit changed ≡ answer
      → Ends true inside db
          (let (r, after) = committed adapter a answer in (r, (adapter.rollback after).1))
  committed-Ends inside db changed a (none, after) ran answered = (
    laws.rollback_closes after,
    inl (refl, (changed, ran, rw answered refl, rw answered (laws.rollback_stores after))),
  )
  committed-Ends inside db changed a (some failure, after) ran answered = (
    laws.rollback_closes after,
    inr (
      refl,
      a,
      failure,
      refl,
      (changed, ran, rw answered refl, rw answered (laws.rollback_stores after)),
    ),
  )

  end_tx-Ends :
      {A : Type 0} (commit : Bool) (inside : Step Db E A) (db : Db)
      (r : Result (WriteFailure E) A × Db)
      → inside db ≡ r
      → Kept stored is_open db r
      → Ends commit inside db (end_tx adapter commit r)
  unfolding end_tx commit_if
  end_tx-Ends commit inside db (err e, changed) ran same =
      (laws.rollback_closes changed, inl (laws.rollback_stores changed ∙ same))
  end_tx-Ends false inside db (ok a, changed) ran (same, opened) =
      (laws.rollback_closes changed, inr (refl, laws.rollback_stores changed ∙ same, changed, ran))
  end_tx-Ends true inside db (ok a, changed) ran kept =
      committed-Ends inside db changed a (adapter.commit changed) ran refl

  module _ (pre_request : Text) (tx_end : TxEnd) (intent : Intent) where
    abbrev pub work : Step Db E Outcome
    work = execute_transaction adapter intent (write_options intent)

    -- The statements between the begin of the transaction and its end.
    abbrev pub statements : Step Db E Outcome
    statements = run_pre_request adapter pre_request >=> λ called. work

    abbrev pub commits : Bool
    commits = (decide_tx_end tx_end intent.preferences.tx).0

    -- What a write has done, by how it ended, when it began in the state `db`.
    abbrev pub Settles : Db → Result (WriteFailure E) Outcome × Db → Type 0
    Settles db (err e, after) =
        (is_open after ≡ false)
        × ((stored after ≡ stored db)
            ⊎ ((commits ≡ true)
                × (raw : Outcome) × (failure : E) × (e ≡ from_database failure)
                × Commits statements (adapter.start db).1 raw (some failure) after))
    Settles db (ok outcome, after) =
        (check_intent {E = E} intent ≡ ok tt)
        × (is_open after ≡ false)
        × (raw : Outcome) × (outcome
            ≡ record raw { applied = applied intent.preferences tx_end intent.action })
        × (((commits ≡ true) × Commits statements (adapter.start db).1 raw none after)
            ⊎ ((commits ≡ false)
                × (stored after ≡ stored db)
                × (changed : Db) × (statements (adapter.start db).1 ≡ (ok raw, changed))))

    -- The same before the preferences that were applied are set.
    abbrev Ended : Db → Result (WriteFailure E) Outcome × Db → Type 0
    Ended db (err e, after) = Settles db (err e, after)
    Ended db (ok raw, after) =
        (is_open after ≡ false)
        × (((commits ≡ true) × Commits statements (adapter.start db).1 raw none after)
            ⊎ ((commits ≡ false)
                × (stored after ≡ stored db)
                × (changed : Db) × (statements (adapter.start db).1 ≡ (ok raw, changed))))

    Ends-Ended :
        (db begun : Db) (r : Result (WriteFailure E) Outcome × Db)
        → (adapter.start db).1 ≡ begun
        → stored begun ≡ stored db
        → Ends commits statements begun r
        → Ended db r
    Ends-Ended db begun (err e, after) same kept (closed, inl back) = (closed, inl (back ∙ kept))
    Ends-Ended db begun (err e, after) same kept (closed, inr failed) =
        (closed, inr (rw same failed))
    Ends-Ended db begun (ok raw, after) same kept (closed, inl stays) =
        (closed, inl (rw same stays))
    Ends-Ended db begun (ok raw, after) same kept (closed, inr (off, back, changed, ran)) =
        (closed, inr (off, back ∙ kept, changed, rw same ran))

    started-Ended :
        (db : Db) (answer : Option E × Db)
        → is_open db ≡ false
        → adapter.start db ≡ answer
        → Begun stored is_open db answer
        → Ended db (started adapter answer pre_request commits work)
    unfolding started
    started-Ended db (some e, begun) closed same (kept, as_before) = (as_before ∙ closed, inl kept)
    started-Ended db (none, begun) closed same (kept, opened) =
        Ends-Ended db begun _ (rw same refl) kept (
          end_tx-Ends commits statements begun (statements begun) refl (
            statements-IsQuiet stored is_open laws pre_request intent (write_options intent) begun
              opened))

    switched-Ended :
        (answer : Option E) (db : Db)
        → is_open db ≡ false
        → Ended db (
            switched adapter answer
              (with_request_tx adapter pre_request tx_end intent.preferences.tx work)
              db)
    unfolding switched with_request_tx
    switched-Ended (some e) db closed = (closed, inl refl)
    switched-Ended none db closed =
        started-Ended db (adapter.start db) closed refl (laws.start_begins db)

    within_transaction-Ended :
        (role : Result NameFailure Text) (db : Db)
        → is_open db ≡ false
        → Ended db
            (within_transaction adapter role pre_request tx_end intent.preferences.tx work db)
    unfolding within_transaction
    within_transaction-Ended (err e) db closed = (closed, inl refl)
    within_transaction-Ended (ok statement) db closed =
        switched-Ended (adapter.set_role statement) db closed

    with_applied-Settles :
        (db : Db) (r : Result (WriteFailure E) Outcome × Db)
        → check_intent {E = E} intent ≡ ok tt
        → Ended db r
        → Settles db (with_applied adapter pre_request tx_end intent r)
    with_applied-Settles db (err e, after) checked h = h
    with_applied-Settles db (ok raw, after) checked (closed, how) =
        (checked, closed, raw, refl, how)

    execute_checked-Settles :
        (checked : Checked E) (db : Db)
        → is_open db ≡ false
        → check_intent intent ≡ checked
        → Settles db (execute_checked adapter pre_request tx_end checked intent db)
    unfolding execute_checked
    execute_checked-Settles (err e) db closed h = (closed, inl refl)
    execute_checked-Settles (ok tt) db closed h =
        with_applied-Settles db _ h
          (within_transaction-Ended (role_switch_statement intent.role) db closed)

    -- For every driver with transactions, in which a statement stores nothing before the commit, every
    -- pre-request hook, db-tx-end and write, and a database without an open transaction: after the
    -- write no transaction is open. A write that succeeds was allowed, and ran the hook and then its
    -- statements without an error; either it was to be committed, the commit gave no error, and the
    -- database stores what the commit left, or it was to be rolled back, and the database stores what
    -- it did. A write that fails leaves what the database stores, unless all of its statements
    -- succeeded and it is their commit that failed: then the database stores what that commit left.
    pub execute-Settles :
        (db : Db) → is_open db ≡ false → Settles db (execute adapter pre_request tx_end intent db)
    unfolding execute
    execute-Settles db closed = execute_checked-Settles (check_intent intent) db closed refl
