-- ===== src/Schema/Transactions/Counting.antt =====
-- runInsert: the statements that a successful insert has executed, and what it counts.
use titanium_graph_api.Base.{ℕ, ◌+◌, ◌≡◌, refl, List, [], ◌∷◌, Text, Bool, Option, map, arith}
use titanium_graph_api.Results.{Result, ok, err, Ensures, Ensures-bind, Ensures-map, Ensures-eq-ok}
use titanium_graph_api.Sql.{Condition}
use titanium_graph_api.Schema.{TableInfo}
use titanium_graph_api.Schema.Hooks.{MutationEvent, Hooks, run_before, run_after}
use titanium_graph_api.Schema.Plans.{InsertRow, row_map, insert_query}
use titanium_graph_api.Schema.Transactions.{
  Executed, Driver, hide, Inserted, insert_rows, insert_body,
}

-- The driver executes the statements one after the other, from the first state to the last, and
-- reports `n` rows in all.
pub data Executes {S : Type 0} (driver : Driver S) : List Condition → S → ℕ → S → Type 0 where
  done : (s : S) → Executes driver [] s 0 s
  next :
      (q : Condition) (qs : List Condition) (s : S) (e : Executed S) (n : ℕ) (last : S)
      → driver.exec q s ≡ ok e
      → Executes driver qs e.state n last
      → Executes driver (q ∷ qs) s (e.rows + n) last

module _ {S : Type 0} (driver : Driver S) (debug : Bool) (schema_name : Text) (ti : TableInfo) where
  abbrev statements : List InsertRow → List Condition
  statements rows = map (insert_query schema_name ti) rows

  -- From the count so far, the statements add the rows that they report.
  abbrev Counts : List InsertRow → ℕ → S → Inserted × S → Type 0
  Counts rows before s (result, last) =
      (n : ℕ) × Executes driver (statements rows) s n last × (result.affected ≡ before + n)

  hidden-Ensures :
      (q : Condition) (s : S) (r : Result (Executed S))
      → driver.exec q s ≡ r
      → Ensures (λ e. driver.exec q s ≡ ok e) (hide debug r)
  hidden-Ensures q s (ok e) h = h
  hidden-Ensures q s (err x) h = tt

  abbrev after_row : Inserted → InsertRow → Executed S → Inserted
  after_row acc row e = record {
    affected = acc.affected + e.rows;
    last_id = e.last_id;
    last_values = row_map row;
  }

  insert_rows-Counts :
      (rows : List InsertRow) (acc : Inserted) (s : S)
      → Ensures (Counts rows acc.affected s) (insert_rows driver debug schema_name ti rows acc s)
  unfolding insert_rows
  insert_rows-Counts [] acc s = (0, done s, omega arith)
  insert_rows-Counts (row ∷ rows) acc s =
      Ensures-bind (λ e. driver.exec (insert_query schema_name ti row) s ≡ ok e)
        (Counts (row ∷ rows) acc.affected s)
        (hide debug (driver.exec (insert_query schema_name ti row) s)) _
        (hidden-Ensures (insert_query schema_name ti row) s
          (driver.exec (insert_query schema_name ti row) s) refl)
        (λ e h.
          Ensures-map (Counts rows (acc.affected + e.rows) e.state)
            (Counts (row ∷ rows) acc.affected s)
            (insert_rows driver debug schema_name ti rows (after_row acc row e) e.state)
            (insert_rows-Counts rows (after_row acc row e) e.state)
            (λ out (n, x, same). (e.rows + n, next _ _ s e n out.1 h x, omega arith)))

  -- A successful body: before-hooks, the statements in order, after-hooks that see the count.
  pub record IsInserted (hooks : Option (Hooks S)) (ev : MutationEvent) (rows : List InsertRow)
      (s : S) (out : Inserted × S) : Type 0 where
    pub ready : S
    pub written : S
    pub before : run_before S hooks ev s ≡ ok ready
    pub executed : Executes driver (statements rows) ready out.0.affected written
    pub after : run_after S hooks (record ev { affected = out.0.affected }) written ≡ ok out.1

  self-Ensures : {A : Type 0} (r : Result A) → Ensures (λ a. r ≡ ok a) r
  self-Ensures (ok a) = refl
  self-Ensures (err e) = tt

  -- If the transaction of an insert runs to its end, the before-hooks succeeded on the state at
  -- its begin, then every row was inserted by one statement, in order, the rows affected are the
  -- sum of what the driver reported, and the after-hooks saw that sum.
  pub insert_body-IsInserted :
      (hooks : Option (Hooks S)) (ev : MutationEvent) (rows : List InsertRow) (s : S)
      {out : Inserted × S}
      → insert_body driver debug hooks schema_name ti ev rows s ≡ ok out
      → IsInserted hooks ev rows s out
  unfolding insert_body
  insert_body-IsInserted hooks ev rows s h =
      Ensures-eq-ok (IsInserted hooks ev rows s) _
        (Ensures-bind (λ s1. run_before S hooks ev s ≡ ok s1) (IsInserted hooks ev rows s)
          (run_before S hooks ev s) _ (self-Ensures (run_before S hooks ev s))
          (λ s1 b.
            Ensures-bind (Counts rows 0 s1) (IsInserted hooks ev rows s)
              (insert_rows driver debug schema_name ti rows start s1) _
              (insert_rows-Counts rows start s1)
              (λ out (n, x, same).
                Ensures-bind (λ s3. run_after S hooks (seen ev out.0) out.1 ≡ ok s3)
                  (IsInserted hooks ev rows s) (run_after S hooks (seen ev out.0) out.1) _
                  (self-Ensures _)
                  (λ s3 a. record {
                    ready = s1;
                    written = out.1;
                    before = b;
                    executed = counted rows s1 n out same x;
                    after = a;
                  }))))
        h
    where
      start : Inserted
      start = record { affected = 0; last_id = 0; last_values = [] }

      seen : MutationEvent → Inserted → MutationEvent
      seen ev r = record ev { affected = r.affected }

      counted :
          (rows : List InsertRow) (s1 : S) (n : ℕ) (out : Inserted × S)
          → out.0.affected ≡ 0 + n
          → Executes driver (statements rows) s1 n out.1
          → Executes driver (statements rows) s1 out.0.affected out.1
      counted rows s1 n out same x = let e : out.0.affected ≡ n = omega arith in rw e x
