-- ===== src/Schema/Queries/Bound.antt =====
-- Every query that reads a table is closed text with as many placeholders as arguments.
use titanium_graph_api.Base.{
  ◌≡◌, refl, List, [], ◌∷◌, ◌++◌, Text, Bool, Option, some, codes, length, All,
}
use titanium_graph_api.Base.Int.{ℤ}
use titanium_graph_api.Value.{Fields}
use titanium_graph_api.Results.{Result, ok, ◌>>=◌, Ensures, Ensures-bind, Ensures-eq-ok}
use titanium_graph_api.Config.{SchemaGen}
use titanium_graph_api.Rbac.Resolve.{OpAccess}
use titanium_graph_api.Sql.{Condition, combine_conds}
use titanium_graph_api.Sql.Lexer.{scan, marks, Reads}
use titanium_graph_api.Sql.Bound.{IsBound, IsBound?, Reads-prepend, combine_conds-IsBound}
use titanium_graph_api.Schema.{TableInfo}
use titanium_graph_api.Schema.Scalars.{Marshal}
use titanium_graph_api.Schema.Paging.{ListArgs, Clause}
use titanium_graph_api.Schema.Queries.Keys.{pk_order_clause}
use titanium_graph_api.Schema.Queries.Keys.Bound.{pk_order_clause-Reads}
use titanium_graph_api.Schema.Queries.{
  qualified_table, rbac_cond, user_cond, select_list, order_or_none, select_from, page_clause,
  granted, run_select, run_keyset_page, run_count,
}
use titanium_graph_api.Schema.Queries.Clauses.{
  IsClosedAccess, rbac_cond-IsBound, user_cond-IsBound, qualified_table-Reads, select_list-Reads,
  IsClause, select_from-IsBound, order_or_none-Reads, page_clause-IsClause, granted-Ensures,
}

module _ (marshal : Marshal) (schema_name : Text) (ti : TableInfo) (claims : Fields) where
  -- The conditions that every read shares.
  pub conds_Ensures :
      (sel : OpAccess) (user_where : Option Fields)
      (k : Option Condition → Option Condition → Result Condition)
      → IsClosedAccess sel
      → ((user filter : Option Condition)
          → IsBound? user
          → IsBound? filter
          → Ensures IsBound (k user filter))
      → Ensures IsBound (
          user_cond marshal ti user_where >>= λ user.
          rbac_cond sel claims >>= λ filter. k user filter)
  conds_Ensures sel user_where k closed next =
      Ensures-bind IsBound? IsBound (user_cond marshal ti user_where) _
        (user_cond-IsBound marshal ti user_where)
        (λ user u.
          Ensures-bind IsBound? IsBound (rbac_cond sel claims) _
            (rbac_cond-IsBound sel claims closed) (λ filter f. next user filter u f))

  select_Reads :
      (sel : OpAccess) (conds : List (Option Condition)) (tail : Clause)
      → All IsBound? conds
      → IsClause tail
      → IsBound (
          select_from
            (select_list sel.columns)
            (qualified_table schema_name ti.table)
            (combine_conds conds)
            tail)
  select_Reads sel conds tail h k =
      select_from-IsBound _ _ (combine_conds conds) tail (select_list-Reads sel.columns)
        (qualified_table-Reads schema_name ti.table) (combine_conds-IsBound conds h) k

  select_rest :
      (gen : SchemaGen) (la : ListArgs) (extra : Option Condition) (single : Bool) (sel : OpAccess)
      → IsClosedAccess sel
      → IsBound? extra
      → Ensures IsBound (
          user_cond marshal ti la.where_arg >>= λ user. rbac_cond sel claims >>= λ filter.
          order_or_none ti la.order_by >>= λ order. page_clause gen la single >>= λ limit. ok (
            select_from
              (select_list sel.columns)
              (qualified_table schema_name ti.table)
              (combine_conds (user ∷ filter ∷ extra ∷ []))
              (order ++ limit.0, limit.1)))
  select_rest gen la extra single sel closed e =
      conds_Ensures sel la.where_arg _ closed (λ user filter u f.
        Ensures-bind (λ s. Reads s 0) IsBound (order_or_none ti la.order_by) _
          (order_or_none-Reads ti la.order_by)
          (λ order o.
            Ensures-bind IsClause IsBound (page_clause gen la single) _
              (page_clause-IsClause gen la single)
              (λ limit l.
                select_Reads sel (user ∷ filter ∷ extra ∷ []) (order ++ limit.0, limit.1)
                  (u, (f, (e, tt))) (Reads-prepend order limit.0 (length limit.1) o l))))

  -- A list or single-row query is closed text with one placeholder for each argument, if the row
  -- filter's text and the caller's extra condition are.
  pub run_select-IsBound :
      (gen : SchemaGen) (la : ListArgs) (extra : Option Condition) (single : Bool) {q : Condition}
      → ((sel : OpAccess) → ti.access.select ≡ some sel → IsClosedAccess sel)
      → IsBound? extra
      → run_select marshal schema_name ti claims gen la extra single ≡ ok q
      → IsBound q
  unfolding run_select
  run_select-IsBound gen la extra single closed e h =
      Ensures-eq-ok IsBound _
        (Ensures-bind IsClosedAccess IsBound (granted ti.table ti.access.select) _
          (granted-Ensures ti.table ti.access.select closed)
          (λ sel c. select_rest gen la extra single sel c e))
        h

  -- A keyset page is closed text with one placeholder for each argument, if the row filter's text
  -- and the condition on the cursor are.
  run_keyset_page-IsBound :
      (user_where : Option Fields) (after : Option Condition) (limit : ℤ) {q : Condition}
      → ((sel : OpAccess) → ti.access.select ≡ some sel → IsClosedAccess sel)
      → IsBound? after
      → run_keyset_page marshal schema_name ti claims user_where after limit ≡ ok q
      → IsBound q
  unfolding run_keyset_page scan marks
  run_keyset_page-IsBound user_where after limit closed e h =
      Ensures-eq-ok IsBound _
        (Ensures-bind IsClosedAccess IsBound (granted ti.table ti.access.select) _
          (granted-Ensures ti.table ti.access.select closed)
          (λ sel c. conds_Ensures sel user_where _ c (λ user filter u f.
            select_Reads sel (user ∷ filter ∷ after ∷ []) _ (u, (f, (e, tt)))
              (Reads-prepend (pk_order_clause ti.table.primary_key) _ 1
                (pk_order_clause-Reads ti.table.primary_key)
                (record { closed = refl; count = refl })))))
        h

  -- The count is closed text with one placeholder for each argument, if the row filter's text is.
  run_count-IsBound :
      (sel : OpAccess) (user_where : Option Fields)
      → IsClosedAccess sel
      → Ensures IsBound (run_count marshal schema_name ti claims sel user_where)
  unfolding run_count scan marks
  run_count-IsBound sel user_where c = conds_Ensures sel user_where _ c (λ user filter u f.
      select_from-IsBound (codes "COUNT(*)") _ (combine_conds (user ∷ filter ∷ [])) ([], [])
        (record { closed = refl; count = refl }) (qualified_table-Reads schema_name ti.table)
        (combine_conds-IsBound (user ∷ filter ∷ []) (u, (f, tt)))
        (record { closed = refl; count = refl }))
