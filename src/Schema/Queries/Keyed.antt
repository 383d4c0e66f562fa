-- ===== src/Schema/Queries/Keyed.antt =====
-- runSelectByKeys: the query for a batch of keys has as many placeholders as arguments.
use titanium_graph_api.Base.{
  ℕ, zero, suc, ◌≡◌, refl, List, [], ◌∷◌, Text, Option, some, codes, length, length-append,
  append-nil,
}
use titanium_graph_api.Base.Int.{pos}
use titanium_graph_api.Value.{Value, int, Fields, Values}
use titanium_graph_api.Results.{ok, Ensures, Ensures-bind, Ensures-eq-ok}
use titanium_graph_api.Rbac.Resolve.{OpAccess}
use titanium_graph_api.Sql.{Condition, quote_list}
use titanium_graph_api.Sql.Lexer.{scan, marks, Reads, Reads-append}
use titanium_graph_api.Sql.Bound.{
  IsBound, Reads-prepend, Reads-extend, quote_list-Reads, combine_conds-IsBound,
}
use titanium_graph_api.Schema.{TableInfo}
use titanium_graph_api.Schema.Scalars.{Marshal}
use titanium_graph_api.Schema.Order.{order_sql, window_order}
use titanium_graph_api.Schema.Queries.Keys.{in_condition}
use titanium_graph_api.Schema.Queries.Keys.Bound.{AreKeys, in_condition-IsBound}
use titanium_graph_api.Schema.Queries.{
  qualified_table, select_list, select_from, granted, ranked, window_head, keyed_query,
  run_select_by_keys,
}
use titanium_graph_api.Schema.Queries.Clauses.{
  IsClosedAccess, select_from-IsBound, qualified_table-Reads, select_list-Reads, order_sql-Reads,
  window_order-Reads, granted-Ensures,
}
use titanium_graph_api.Schema.Queries.Bound.{conds_Ensures}

plain_select-Reads :
    (head from_table : Text) (w : Condition)
    → Reads head 0
    → Reads from_table 0
    → IsBound w
    → Reads (select_from head from_table w ([], [])).sql (length w.args)
unfolding scan marks
plain_select-Reads head from_table w h t b =
    rw⁻¹ (append-nil w.args) (
      select_from-IsBound head from_table w ([], []) h t b (record { closed = refl; count = refl }))

module _ (marshal : Marshal) (schema_name : Text) (ti : TableInfo) (claims : Fields) where
  window_head-Reads :
      (sel : OpAccess) (join_cols : List Text) (win_order : Text)
      → Reads win_order 0
      → Reads (window_head marshal schema_name ti claims sel join_cols win_order) 0
  unfolding scan marks
  window_head-Reads sel join_cols win_order h =
      Reads-prepend (select_list sel.columns) _ 0 (select_list-Reads sel.columns) (
        Reads-prepend (codes ", ROW_NUMBER() OVER (PARTITION BY ") _ 0
          (record { closed = refl; count = refl })
          (Reads-prepend (quote_list join_cols) _ 0 (quote_list-Reads join_cols) (
            Reads-prepend (codes " ORDER BY ") _ 0 (record { closed = refl; count = refl })
              (Reads-extend win_order _ 0 h (record { closed = refl; count = refl })))))

  ranked-IsBound :
      (sel : OpAccess) (join_cols : List Text) (win_order order : Text) (w : Condition) (n : ℕ)
      → Reads win_order 0
      → Reads order 0
      → IsBound w
      → IsBound (ranked marshal schema_name ti claims sel join_cols win_order order w n)
  unfolding scan marks
  ranked-IsBound sel join_cols win_order order w n h k b =
      let head = window_head marshal schema_name ti claims sel join_cols win_order in
      let from_table = qualified_table schema_name ti.table in
      rw (length-append w.args (int (pos n) ∷ [])) (
        Reads-prepend (codes "SELECT ") _ _ (record { closed = refl; count = refl })
          (Reads-prepend (select_list sel.columns) _ _ (select_list-Reads sel.columns) (
            Reads-prepend (codes " FROM (") _ _ (record { closed = refl; count = refl })
              (Reads-append (select_from head from_table w ([], [])).sql _ (length w.args) 1
                (plain_select-Reads head from_table w (window_head-Reads sel join_cols win_order h)
                  (qualified_table-Reads schema_name ti.table) b)
                (Reads-extend (codes ") AS __gqlgate_w WHERE __gqlgate_rn <= ?") order 1
                  (record { closed = refl; count = refl }) k)))))

  keyed_query-IsBound :
      (sel : OpAccess) (join_cols : List Text) (order_by : Values) (order : Text) (w : Condition)
      (n : ℕ)
      → Reads order 0
      → IsBound w
      → Ensures IsBound (keyed_query marshal schema_name ti claims sel join_cols order_by order w n)
  keyed_query-IsBound sel join_cols order_by order w zero k b =
      select_from-IsBound _ _ w (order, []) (select_list-Reads sel.columns)
        (qualified_table-Reads schema_name ti.table) b k
  keyed_query-IsBound sel join_cols order_by order w (suc n) k b =
      Ensures-bind (λ s. Reads s 0) IsBound (window_order ti order_by join_cols) _
        (window_order-Reads ti order_by join_cols)
        (λ win_order h. ranked-IsBound sel join_cols win_order order w (suc n) h k b)

  -- The query for a batch of keys is closed text with one placeholder for each argument, if the row
  -- filter's text is closed and every key has a value for each join column.
  run_select_by_keys-IsBound :
      (join_cols : List Text) (keys : List (List Value)) (user_where : Option Fields)
      (order_by : Values) (n : ℕ) {q : Condition}
      → ((sel : OpAccess) → ti.access.select ≡ some sel → IsClosedAccess sel)
      → AreKeys join_cols keys
      → run_select_by_keys marshal schema_name ti claims join_cols keys user_where order_by n ≡ ok q
      → IsBound q
  unfolding run_select_by_keys
  run_select_by_keys-IsBound join_cols keys user_where order_by n closed ks h =
      Ensures-eq-ok IsBound _
        (Ensures-bind IsClosedAccess IsBound (granted ti.table ti.access.select) _
          (granted-Ensures ti.table ti.access.select closed)
          (λ sel c.
            conds_Ensures marshal schema_name ti claims sel user_where _ c (λ user filter u f.
              Ensures-bind (λ s. Reads s 0) IsBound (order_sql ti order_by) _
                (order_sql-Reads ti order_by)
                (λ order o. keyed_query-IsBound sel join_cols order_by order _ n o (
                  combine_conds-IsBound (some (in_condition join_cols keys) ∷ user ∷ filter ∷ [])
                    (in_condition-IsBound join_cols keys ks, (u, (f, tt))))))))
        h
