-- ===== src/Schema/Transactions/Atomic.antt =====
-- Every mutation is one transaction: it happens whole or not at all.
use titanium_graph_api.Base.{◌≡◌, refl, [], Text, Bool, Option, none, some, map}
use titanium_graph_api.Value.{Values, Fields}
use titanium_graph_api.Results.{Result, ok, err}
use titanium_graph_api.Sql.{Condition}
use titanium_graph_api.Schema.{TableInfo}
use titanium_graph_api.Schema.Scalars.{Marshal}
use titanium_graph_api.Schema.Hooks.{Hooks, op_insert, op_delete}
use titanium_graph_api.Schema.Plans.{row_map, insert_plan, delete_plan}
use titanium_graph_api.Schema.Transactions.{
  Driver, Db, rollback, committing, running, beginning, exec_in_tx, insert_body, write_body, event,
  prepared, run_insert, run_delete,
}

module _ {S : Type 0} where
  -- After an error the database is as before, with no transaction open. After a success it holds
  -- exactly the state that the body of the transaction left, and no transaction is open.
  abbrev pub IsTransacted :
      {A B : Type 0} → Result B → (B → S → Result (A × S)) → Db S → Db S × Result A → Type 0
  IsTransacted plan body d (d', err e) = d' ≡ d
  IsTransacted plan body d (d', ok a) =
      (b : _) × (s : S) × (plan ≡ ok b)
      × (body b d.committed ≡ ok (a, s))
      × (d' ≡ record { committed = s; open_tx = none })

module _ {S : Type 0} (driver : Driver S) (debug : Bool) where
  discarded :
      (d : Db S) (o : Option S)
      → d.open_tx ≡ none
      → rollback driver debug (record d { open_tx = o }) ≡ d
  discarded d o h = rw h refl

  module _ {A B : Type 0} (plan : Result B) (b : B) (body : B → S → Result (A × S)) where
    committing-IsTransacted :
        (d : Db S) (a : A) (s : S) (r : Result (Unit {0}))
        → d.open_tx ≡ none
        → plan ≡ ok b
        → body b d.committed ≡ ok (a, s)
        → IsTransacted plan body d
            (committing driver debug (record d { open_tx = some d.committed }) a s r)
    committing-IsTransacted d a s (err e) h p k = discarded d (some s) h
    committing-IsTransacted d a s (ok u) h p k = (b, s, p, k, refl)

    running-IsTransacted :
        (d : Db S) (r : Result (A × S))
        → d.open_tx ≡ none
        → plan ≡ ok b
        → body b d.committed ≡ r
        → IsTransacted plan body d
            (running driver debug (record d { open_tx = some d.committed }) r)
    running-IsTransacted d (err e) h p k = discarded d (some d.committed) h
    running-IsTransacted d (ok (a, s)) h p k =
        committing-IsTransacted d a s (driver.commit_tx s) h p k

    beginning-IsTransacted :
        (d : Db S) (r : Result (Unit {0}))
        → d.open_tx ≡ none
        → plan ≡ ok b
        → IsTransacted plan body d (beginning driver debug d (body b) r)
    beginning-IsTransacted d (err e) h p = refl
    beginning-IsTransacted d (ok u) h p = running-IsTransacted d (body b d.committed) h p refl

    exec_in_tx-IsTransacted :
        (d : Db S)
        → d.open_tx ≡ none
        → plan ≡ ok b
        → IsTransacted plan body d (exec_in_tx driver debug (body b) d)
    unfolding exec_in_tx
    exec_in_tx-IsTransacted d h p = beginning-IsTransacted d (driver.begin_tx d.committed) h p

  prepared-IsTransacted :
      {A B : Type 0} (plan r : Result B) (body : B → S → Result (A × S)) (d : Db S)
      → plan ≡ r
      → d.open_tx ≡ none
      → IsTransacted plan body d (prepared driver debug r body d)
  prepared-IsTransacted plan (err e) body d p h = refl
  prepared-IsTransacted plan (ok b) body d p h = exec_in_tx-IsTransacted plan b body d h p

  -- An insert that fails, at any object, hook, statement or at the commit, leaves the database as it
  -- was. One that succeeds commits exactly the state that the before-hooks, the statements for all
  -- rows and the after-hooks lead to. Either way no transaction stays open, if none was open.
  pub run_insert-IsTransacted :
      (marshal : Marshal) (hooks : Option (Hooks S)) (schema_name : Text) (ti : TableInfo)
      (role : Text) (claims : Fields) (objects : Values) (d : Db S)
      → d.open_tx ≡ none
      → IsTransacted
          (insert_plan marshal ti claims objects)
          (λ rows.
            insert_body driver debug hooks schema_name ti
              (event driver debug op_insert ti role claims (map row_map rows))
              rows)
          d
          (run_insert driver debug marshal hooks schema_name ti role claims objects d)
  unfolding run_insert
  run_insert-IsTransacted marshal hooks schema_name ti role claims objects d h =
      prepared-IsTransacted (insert_plan marshal ti claims objects) _ _ d refl h

  -- A delete that fails, before the transaction, at a hook, at the statement or at the commit, leaves
  -- the database as it was. One that succeeds commits exactly the state that the before-hooks, the
  -- statement and the after-hooks lead to. Either way no transaction stays open, if none was open.
  run_delete-IsTransacted :
      (hooks : Option (Hooks S)) (schema_name : Text) (ti : TableInfo) (role : Text)
      (claims : Fields) (user_where : Option Condition) (d : Db S)
      → d.open_tx ≡ none
      → IsTransacted
          (delete_plan schema_name ti claims user_where)
          (λ query.
            write_body driver debug hooks (event driver debug op_delete ti role claims []) query)
          d
          (run_delete driver debug hooks schema_name ti role claims user_where d)
  unfolding run_delete
  run_delete-IsTransacted hooks schema_name ti role claims user_where d h =
      prepared-IsTransacted (delete_plan schema_name ti claims user_where) _ _ d refl h
