-- ===== src/Execute/Run.antt =====
-- internal/writeexec/executor.go: Execute, and the preferences that its answer names as applied.
use myrest.Prelude.{
  ℕ, not, ◌&&◌, ◌||◌, Option, none, some, List, [], ◌∷◌, ◌++◌, Result, ok, err, if◌then◌else◌,
}
use myrest.Text.{Text, codes}
use myrest.Text.Decimal.{format_uint}
use myrest.Prefer.{Preferences}
use myrest.Write.Mutate.{Action}
use myrest.Execute.{
  Intent, Outcome, WriteFailure, Checked, is_insert, is_upsert, check_intent, write_options,
}
use myrest.Execute.Transaction.{
  TxEnd, decide_tx_end, role_switch_statement, Adapter, Step, execute_transaction,
  within_transaction,
}

abbrev prefixed : Text → Text → List Text
prefixed name [] = []
prefixed name (c ∷ value) = (name ++ (c ∷ value)) ∷ []

abbrev max_affected_text : Option ℕ → List Text
max_affected_text none = []
max_affected_text (some n) = (codes "max-affected=" ++ format_uint n) ∷ []

unfoldable pub action_preferences : Preferences → Action → List Text
unfolding format_uint
action_preferences p action =
    (if p.missing_default && is_insert action then codes "missing=default" ∷ [] else [])
    ++ (if p.strict && not (is_insert action) then max_affected_text p.max_affected else [])

unfoldable pub applied : Preferences → TxEnd → Action → List Text
applied p tx_end action =
    (if p.strict then codes "handling=strict" ∷ [] else [])
    ++ (prefixed (codes "return=") p.return_value
        ++ (action_preferences p action
            ++ ((if (decide_tx_end tx_end p.tx).1 then (codes "tx=" ++ p.tx) ∷ [] else [])
                ++ (if is_insert action || is_upsert action
                    then prefixed (codes "resolution=") p.resolution
                    else []))))

module _ {Db E : Type 0} (adapter : Adapter Db E) (pre_request : Text) (tx_end : TxEnd) where
  abbrev pub with_applied :
      Intent → Result (WriteFailure E) Outcome × Db → Result (WriteFailure E) Outcome × Db
  with_applied intent (err e, db) = (err e, db)
  with_applied intent (ok outcome, db) =
      (ok (record outcome { applied = applied intent.preferences tx_end intent.action }), db)

  unfoldable pub execute_checked : Checked E → Intent → Step Db E Outcome
  execute_checked (err e) intent db = (err e, db)
  execute_checked (ok checked) intent db = with_applied intent (
      within_transaction adapter (role_switch_statement intent.role) pre_request tx_end
        intent.preferences.tx (execute_transaction adapter intent (write_options intent)) db)

  -- Service.Execute
  unfoldable pub execute : Intent → Step Db E Outcome
  execute intent = execute_checked (check_intent intent) intent
