-- ===== src/Tests/Reloading.antt =====
-- An example of the cache under concurrency: a reload that waits for a request, and a request that
-- waits for the reload.
use myrest.Prelude.{◌≡◌, refl, ok, List, [], ◌∷◌, ◌++◌}
use myrest.Text.{Text}
use myrest.Schema.Facts.{Catalog}
use myrest.Schema.Snapshot.{build_snapshot}
use myrest.Schema.Reload.{
  installed, read, calls_reload, calls_read, built_cache, System, here, reload, lock_replace, store,
  lock_read, load, step_thread,
}
use myrest.Schema.Reload.Atomic.{ReadsInstalled, Reach-ReadsInstalled}
use myrest.Schema.Reload.Runs.{Choice, begins, advances, advance, run, run-Reach}
use myrest.Tests.Granting.{shop}

abbrev empty_shop : Catalog
empty_shop = record shop { tables = []; columns = []; foreign_keys = [] }

-- The twelve fields of a snapshot.
abbrev all_fields : Choice Text → List (Choice Text)
all_fields c = c ∷ c ∷ c ∷ c ∷ c ∷ c ∷ c ∷ c ∷ c ∷ c ∷ c ∷ c ∷ []

abbrev schedule : List (Choice Text)
schedule =
    begins calls_read
      ∷ begins (calls_reload (ok shop))
      ∷ advances 1
      ∷ advances 0
      ∷ advances 0
      ∷ all_fields (advances 1)
    ++ advances 1 ∷ advances 0 ∷ begins calls_read ∷ advances 0 ∷ all_fields (advances 1)
    ++ advances 1 ∷ advances 0 ∷ all_fields (advances 0)
    ++ advances 0 ∷ []

abbrev last_state : System Text
last_state = run schedule (built_cache empty_shop)

both_read :
    last_state.log
    ≡ read (build_snapshot shop) ∷ installed shop ∷ read (build_snapshot empty_shop) ∷ []
unfolding run advance step_thread reload lock_replace store lock_read load
both_read = refl

Reach-ReadsInstalled_example : ReadsInstalled empty_shop last_state.log
Reach-ReadsInstalled_example =
    Reach-ReadsInstalled empty_shop
      (run-Reach schedule (built_cache empty_shop) (built_cache empty_shop) here)
