-- ===== src/Schema/Transactions.antt =====
-- schema/sqlgen.go: runInsert, runUpdate and runDelete, each in one transaction.
pub mod Atomic
pub mod Statements
pub mod Counting
mod Tests
use titanium_graph_api.Base.{
  ℕ, zero, suc, ◌+◌, List, [], ◌∷◌, ◌++◌, Text, Bool, true, false, Option, none, some,
  if◌then◌else◌, codes, join, map, length,
}
use titanium_graph_api.Value.{Value, Values, nil, cons, Fields, as_obj}
use titanium_graph_api.Results.{
  Error, Result, ok, err, ◌>>=◌, not_permitted, empty_objects, no_columns, not_an_object,
  database_error, no_rows,
}
use titanium_graph_api.Catalog.{Column, Table}
use titanium_graph_api.Rbac.Resolve.{OpAccess}
use titanium_graph_api.Sql.{Condition, quote_ident, quote_list, placeholders, combine_conds, parens}
use titanium_graph_api.Schema.{TableInfo}
use titanium_graph_api.Schema.Scalars.{Marshal}
use titanium_graph_api.Schema.Queries.{qualified_table, rbac_cond, granted}
use titanium_graph_api.Schema.Mutations.{ByCol, merged_row_values, set_clause}
use titanium_graph_api.Schema.Hooks.{
  MutationOp, op_insert, op_update, op_delete, MutationEvent, Hooks, run_before, run_after,
}
use titanium_graph_api.Schema.Plans.{
  InsertRow, names, values_of, row_map, non_empty_row, merge_item, merge_rows, insert_query,
  update_query, delete_query, some_objects, insert_plan, update_plan, delete_plan,
}

-- What a statement returns: the rows affected and the last insert id.
pub record Executed (S : Type 0) : Type 0 where
  pub rows : ℕ
  pub last_id : ℕ
  pub state : S

-- The SQL driver (database/sql over the MySQL driver), on states `S` of the database.
pub record Driver (S : Type 0) : Type 0 where
  pub begin_tx : S → Result (Unit {0})
  pub exec : Condition → S → Result (Executed S)
  pub commit_tx : S → Result (Unit {0})

-- The committed state, and the state of the open transaction.
pub record Db (S : Type 0) : Type 0 where
  pub committed : S
  pub open_tx : Option S

-- Errors of the database are hidden from clients unless `server.debug` is set.
unfoldable pub db_err : Bool → Error → Error
db_err true e = e
db_err false no_rows = no_rows
db_err false _ = database_error

abbrev pub hide {ℓ} : {A : Type ℓ} → Bool → Result A → Result A
hide debug (ok a) = ok a
hide debug (err e) = err (db_err debug e)

pub record Inserted : Type 0 where
  pub affected : ℕ
  pub last_id : ℕ
  pub last_values : ByCol

module _ {S : Type 0} (driver : Driver S) (debug : Bool) where
  abbrev pub Body : Type 0 → Type 0
  Body A = S → Result (A × S)

  -- `defer tx.Rollback()`: it discards a transaction that is still open.
  abbrev pub rollback : Db S → Db S
  rollback d = record d { open_tx = none }

  abbrev pub committing : {A : Type 0} → Db S → A → S → Result (Unit {0}) → Db S × Result A
  committing d a s (err e) = (rollback (record d { open_tx = some s }), err (db_err debug e))
  committing d a s (ok u) = (rollback (record { committed = s; open_tx = none }), ok a)

  abbrev pub running : {A : Type 0} → Db S → Result (A × S) → Db S × Result A
  running d (err e) = (rollback d, err e)
  running d (ok (a, s)) = committing d a s (driver.commit_tx s)

  abbrev pub beginning : {A : Type 0} → Db S → Body A → Result (Unit {0}) → Db S × Result A
  beginning d body (err e) = (d, err (db_err debug e))
  beginning d body (ok u) = running (record d { open_tx = some d.committed }) (body d.committed)

  -- The body works on the state of the transaction; its error rolls back.
  unfoldable pub exec_in_tx : {A : Type 0} → Body A → Db S → Db S × Result A
  exec_in_tx body d = beginning d body (driver.begin_tx d.committed)

  -- One INSERT for each row.
  unfoldable pub insert_rows :
      Text → TableInfo → List InsertRow → Inserted → S → Result (Inserted × S)
  insert_rows schema_name ti [] acc s = ok (acc, s)
  insert_rows schema_name ti (row ∷ rows) acc s = do
    done ← hide debug (driver.exec (insert_query schema_name ti row) s)
    insert_rows schema_name ti rows
        (record {
          affected = acc.affected + done.rows;
          last_id = done.last_id;
          last_values = row_map row;
        })
        done.state

  abbrev pub none_inserted : Inserted
  none_inserted = record { affected = 0; last_id = 0; last_values = [] }

  -- Before-hooks, the statements, after-hooks with the number of rows.
  unfoldable pub insert_body :
      Option (Hooks S)
      → Text
      → TableInfo
      → MutationEvent
      → List InsertRow
      → S
      → Result (Inserted × S)
  insert_body hooks schema_name ti ev rows s = do
    s1 ← run_before S hooks ev s
    done ← insert_rows schema_name ti rows none_inserted s1
    s3 ← run_after S hooks (record ev { affected = done.0.affected }) done.1
    ok (done.0, s3)

  unfoldable pub write_body : Option (Hooks S) → MutationEvent → Condition → S → Result (ℕ × S)
  write_body hooks ev query s = do
    s1 ← run_before S hooks ev s
    done ← hide debug (driver.exec query s1)
    s3 ← run_after S hooks (record ev { affected = done.rows }) done.state
    ok (done.rows, s3)

  abbrev pub event : MutationOp → TableInfo → Text → Fields → List ByCol → MutationEvent
  event op ti role claims values = record {
    op = op;
    table = ti.table.name;
    role = role;
    claims = claims;
    values = values;
    affected = 0;
  }

  -- A failure before the transaction leaves the database alone.
  abbrev pub prepared : {A B : Type 0} → Result B → (B → Body A) → Db S → Db S × Result A
  prepared (err e) body d = (d, err e)
  prepared (ok b) body d = exec_in_tx (body b) d

  unfoldable pub run_insert :
      Marshal
      → Option (Hooks S)
      → Text
      → TableInfo
      → Text
      → Fields
      → Values
      → Db S
      → Db S × Result Inserted
  run_insert marshal hooks schema_name ti role claims objects d =
      prepared (insert_plan marshal ti claims objects)
        (λ rows.
          insert_body hooks schema_name ti (event op_insert ti role claims (map row_map rows)) rows)
        d

  unfoldable pub run_update :
      Marshal
      → Option (Hooks S)
      → Text
      → TableInfo
      → Text
      → Fields
      → Fields
      → Option Condition
      → Db S
      → Db S × Result ℕ
  run_update marshal hooks schema_name ti role claims set user_where d =
      prepared (update_plan marshal schema_name ti claims set user_where)
        (λ plan. write_body hooks (event op_update ti role claims (plan.1 ∷ [])) plan.0) d

  unfoldable pub run_delete :
      Option (Hooks S)
      → Text
      → TableInfo
      → Text
      → Fields
      → Option Condition
      → Db S
      → Db S × Result ℕ
  run_delete hooks schema_name ti role claims user_where d =
      prepared (delete_plan schema_name ti claims user_where)
        (λ query. write_body hooks (event op_delete ti role claims []) query) d
