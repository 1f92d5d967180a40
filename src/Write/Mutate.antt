-- ===== src/Write/Mutate.antt =====
-- internal/mysqldb/write.go: the statements that Mutate runs for each action of internal/writeexec.
use myrest.Prelude.{List, [], ◌∷◌, ok, err, ◌>>=◌}
use myrest.Text.Unicode.{Unicode}
use myrest.ReadQuery.Query.{Query}
use myrest.Schema.{Table}
use myrest.Sql.Failure.{Built, out_of_range}
use myrest.Sql.Select.{SqlParts}
use myrest.Write.{Row, Options}
use myrest.Write.Insert.{build_upsert}
use myrest.Write.Rows.{insert_rows}
use myrest.Write.Update.{build_update, build_delete}

pub data Action : Type 0 where
  insert update delete upsert : Action

abbrev pub alone : Built SqlParts → Built (List SqlParts)
alone built = built >>= (λ parts. ok (parts ∷ []))

module _ ⦃u : Unicode⦄ where
  -- Only an insert runs more than one statement. An update and an upsert take the first row of the
  -- payload.
  unfoldable pub write_statements :
      Action → Table → List Row → Query → Options → Built (List SqlParts)
  write_statements insert table payload filter options = insert_rows table payload options
  write_statements update table [] filter options = err out_of_range
  write_statements update table (row ∷ payload) filter options =
      alone (build_update table row filter)
  write_statements delete table payload filter options = alone (build_delete table filter)
  write_statements upsert table [] filter options = err out_of_range
  write_statements upsert table (row ∷ payload) filter options =
      alone (build_upsert table row options.primary_key options.on_duplicate)
