-- ===== src/Execute/Quiet.antt =====
-- internal/mysqldb/tx.go: what the work of a transaction does to what the database stores, before the
-- transaction ends.
use myrest.Prelude.{
  ◌≡◌, refl, ◌∙◌, Bool, true, false, ◌&&◌, Option, none, some, [], ◌∷◌, Result, ok, err, if-both,
}
use myrest.Text.{Text}
use myrest.Names.{NameFailure}
use myrest.Write.{Options}
use myrest.Execute.{Intent, Outcome, WriteFailure, is_delete}
use myrest.Execute.Transaction.{
  Adapter, Step, continue, ◌>=>◌, or_fails, validate, read_before, validate_if, execute_transaction,
  from_call, call_statement, pre_request_call_statement, run_pre_request,
}

module _ {Db E S : Type 0} (stored : Db → S) (is_open : Db → Bool) where
  -- What a statement leaves: nothing is stored, and the transaction is still open after a success.
  abbrev pub Kept : {A : Type 0} → Db → Result (WriteFailure E) A × Db → Type 0
  Kept db (ok a, after) = (stored after ≡ stored db) × (is_open after ≡ true)
  Kept db (err e, after) = stored after ≡ stored db

  abbrev pub KeptCall : Db → Option E × Db → Type 0
  KeptCall db (none, after) = (stored after ≡ stored db) × (is_open after ≡ true)
  KeptCall db (some e, after) = stored after ≡ stored db

  -- What BeginTx leaves.
  abbrev pub Begun : Db → Option E × Db → Type 0
  Begun db (none, after) = (stored after ≡ stored db) × (is_open after ≡ true)
  Begun db (some e, after) = (stored after ≡ stored db) × (is_open after ≡ is_open db)

  abbrev pub IsQuiet : {A : Type 0} → Step Db E A → Type 0
  IsQuiet step = (db : Db) → is_open db ≡ true → Kept db (step db)

  -- Transactions as database/sql and MySQL have them: BeginTx opens one; a statement in an open one
  -- stores nothing, where it does not commit by itself; a rollback stores nothing, and after it the
  -- transaction is not open, also where it was committed already. Nothing is said of a commit.
  pub record IsTransactional (adapter : Adapter Db E) : Type 0 where
    pub start_begins : (db : Db) → Begun db (adapter.start db)
    pub call_keeps :
        (statement : Text) (db : Db) → is_open db ≡ true → KeptCall db (adapter.call statement db)
    pub read_delete_keeps : (intent : Intent) → IsQuiet (adapter.read_delete intent)
    pub mutate_keeps :
        (intent : Intent) (options : Options) → IsQuiet (adapter.mutate intent options)
    pub rollback_stores : (db : Db) → stored (adapter.rollback db).1 ≡ stored db
    pub rollback_closes : (db : Db) → is_open (adapter.rollback db).1 ≡ false

  Kept-later :
      {B : Type 0} {db after : Db} (r : Result (WriteFailure E) B × Db)
      → stored after ≡ stored db
      → Kept after r
      → Kept db r
  Kept-later (ok b, last) same (later, opened) = (later ∙ same, opened)
  Kept-later (err e, last) same later = later ∙ same

  continue-Kept :
      {A B : Type 0} (f : A → Step Db E B) (db : Db) (r : Result (WriteFailure E) A × Db)
      → ((a : A) → IsQuiet (f a))
      → Kept db r
      → Kept db (continue r f)
  continue-Kept f db (err e, after) quiet h = h
  continue-Kept f db (ok a, after) quiet (same, opened) =
      Kept-later (f a after) same (quiet a after opened)

  then-IsQuiet :
      {A B : Type 0} (m : Step Db E A) (f : A → Step Db E B)
      → IsQuiet m
      → ((a : A) → IsQuiet (f a))
      → IsQuiet (m >=> f)
  then-IsQuiet m f quiet next db opened = continue-Kept f db (m db) next (quiet db opened)

  or_fails-IsQuiet : {A : Type 0} (r : Result (WriteFailure E) A) → IsQuiet (or_fails r)
  or_fails-IsQuiet (ok a) db opened = (refl, opened)
  or_fails-IsQuiet (err e) db opened = refl

  module _ {adapter : Adapter Db E} (laws : IsTransactional adapter) where
    validate_if-IsQuiet :
        (test : Bool) (intent : Intent) (outcome : Outcome)
        → IsQuiet (validate_if adapter test intent outcome)
    unfolding validate_if
    validate_if-IsQuiet true intent outcome =
        then-IsQuiet _ _ (or_fails-IsQuiet (validate adapter intent outcome.rows))
          (λ valid db opened. (refl, opened))
    validate_if-IsQuiet false intent outcome = λ db opened. (refl, opened)

    read_before-IsQuiet : (intent : Intent) → IsQuiet (read_before adapter intent)
    unfolding read_before
    read_before-IsQuiet intent =
        then-IsQuiet (adapter.read_delete intent) _ (laws.read_delete_keeps intent) (λ rows.
          then-IsQuiet _ _ (or_fails-IsQuiet (validate adapter intent rows))
            (λ valid db opened. (refl, opened)))

    execute_transaction-IsQuiet :
        (intent : Intent) (options : Options) → IsQuiet (execute_transaction adapter intent options)
    unfolding execute_transaction
    execute_transaction-IsQuiet intent options =
        if-both IsQuiet (is_delete intent.action && options.return_representation)
          (then-IsQuiet _ _ (read_before-IsQuiet intent) (λ rows.
            then-IsQuiet _ _
              (laws.mutate_keeps intent (record options { return_representation = false }))
              (λ outcome db opened. (refl, opened))))
          (then-IsQuiet _ _ (laws.mutate_keeps intent options)
            (λ outcome. validate_if-IsQuiet options.return_representation intent _))

    from_call-Kept :
        (db : Db) (answer : Option E × Db) → KeptCall db answer → Kept db (from_call adapter answer)
    from_call-Kept db (none, after) h = h
    from_call-Kept db (some e, after) h = h

    call_statement-IsQuiet :
        (statement : Result NameFailure Text) → IsQuiet (call_statement adapter statement)
    unfolding call_statement
    call_statement-IsQuiet (err e) db opened = refl
    call_statement-IsQuiet (ok statement) db opened =
        from_call-Kept db (adapter.call statement db) (laws.call_keeps statement db opened)

    run_pre_request-IsQuiet : (name : Text) → IsQuiet (run_pre_request adapter name)
    unfolding run_pre_request
    run_pre_request-IsQuiet [] = λ db opened. (refl, opened)
    run_pre_request-IsQuiet (c ∷ name) =
        call_statement-IsQuiet (pre_request_call_statement (c ∷ name))

    -- The pre-request hook and the work.
    pub statements-IsQuiet :
        (name : Text) (intent : Intent) (options : Options)
        → IsQuiet
            (run_pre_request adapter name >=> λ called. execute_transaction adapter intent options)
    statements-IsQuiet name intent options =
        then-IsQuiet _ _ (run_pre_request-IsQuiet name)
          (λ called. execute_transaction-IsQuiet intent options)
