-- ===== src/Schema/Queries/Filtered/Reads.antt =====
-- The queries that read a table are restricted by the row filter of the select grant.
use titanium_graph_api.Base.{◌≡◌, refl, inl, inr, List, [], ◌∷◌, ◌++◌, Text, Option, some, codes}
use titanium_graph_api.Base.Int.{ℤ}
use titanium_graph_api.Value.{Value, int, Fields}
use titanium_graph_api.Results.{Result, ok, ◌>>=◌, Ensures, Ensures-bind, Ensures-eq-ok}
use titanium_graph_api.Rbac.Resolve.{OpAccess}
use titanium_graph_api.Sql.{Condition, combine_conds}
use titanium_graph_api.Schema.{TableInfo}
use titanium_graph_api.Schema.Scalars.{Marshal}
use titanium_graph_api.Schema.Paging.{Clause}
use titanium_graph_api.Schema.Queries.Keys.{pk_order_clause}
use titanium_graph_api.Schema.Queries.{
  qualified_table, rbac_cond, user_cond, select_list, select_from, granted, run_keyset_page,
}
use titanium_graph_api.Schema.Queries.Clauses.{granted-Ensures, any_Ensures}
use titanium_graph_api.Schema.Queries.Filtered.{
  Contains, IsFilteredBy, Renders, Among, filtered_by, rbac_cond-Renders, Contains-left,
}

pub select_from-Contains :
    (head from_table : Text) (w : Condition) (tail : Clause)
    → Contains w.sql (select_from head from_table w tail).sql
select_from-Contains head from_table w (tail, args) = Contains-left (codes "SELECT ") _ _ (
    Contains-left head _ _ (
      Contains-left (codes " FROM ") _ _
        (Contains-left from_table _ _ (codes " WHERE ", tail, refl))))

-- The query that reads under a grant is restricted by its filter.
abbrev pub IsFilteredRead : TableInfo → Fields → Condition → Type 0
IsFilteredRead ti claims q =
    (sel : OpAccess) × (ti.access.select ≡ some sel) × IsFilteredBy sel.filter claims q.sql

module _ (marshal : Marshal) (schema_name : Text) (ti : TableInfo) (claims : Fields) where
  pub conds-Renders :
      (oa : OpAccess) (user_where : Option Fields) (Q : Condition → Type 0)
      (k : Option Condition → Option Condition → Result Condition)
      → ((user filter : Option Condition)
          → Renders oa.filter claims filter
          → Ensures Q (k user filter))
      → Ensures Q (
          user_cond marshal ti user_where >>= λ user.
          rbac_cond oa claims >>= λ filter. k user filter)
  conds-Renders oa user_where Q k next =
      Ensures-bind (λ u. Unit {0}) Q (user_cond marshal ti user_where) _
        (any_Ensures (user_cond marshal ti user_where))
        (λ user u.
          Ensures-bind (Renders oa.filter claims) Q (rbac_cond oa claims) _
            (rbac_cond-Renders oa claims) (λ filter f. next user filter f))

  abbrev pub IsOf : OpAccess → Type 0
  IsOf sel = ti.access.select ≡ some sel

  abbrev pub Q : Condition → Type 0
  Q q = IsFilteredRead ti claims q

  under_grant :
      (k : OpAccess → Result Condition)
      → ((sel : OpAccess) → IsOf sel → Ensures Q (k sel))
      → Ensures Q (granted ti.table ti.access.select >>= k)
  under_grant k next =
      Ensures-bind IsOf Q (granted ti.table ti.access.select) k
        (granted-Ensures ti.table ti.access.select (λ sel e. e)) next

  pub skip :
      {A : Type 0} (r : Result A) (k : A → Result Condition)
      → ((a : A) → Ensures Q (k a))
      → Ensures Q (r >>= k)
  skip r k next = Ensures-bind (λ a. Unit {0}) Q r k (any_Ensures r) (λ a h. next a)

  filtered_read :
      (sel : OpAccess) (filter : Option Condition) (conds : List (Option Condition)) (head : Text)
      (tail : Clause)
      → IsOf sel
      → Renders sel.filter claims filter
      → Among filter conds
      → Q (select_from head (qualified_table schema_name ti.table) (combine_conds conds) tail)
  filtered_read sel filter conds head tail e f a = (
    sel,
    e,
    filtered_by sel.filter claims filter conds _ f a
        (select_from-Contains head _ (combine_conds conds) tail),
  )

  -- A successful keyset page has the rendered row filter of the role's select grant as one of the
  -- parenthesised conjuncts of its WHERE condition.
  run_keyset_page-IsFiltered :
      (user_where : Option Fields) (after : Option Condition) (limit : ℤ) {q : Condition}
      → run_keyset_page marshal schema_name ti claims user_where after limit ≡ ok q
      → IsFilteredRead ti claims q
  unfolding run_keyset_page
  run_keyset_page-IsFiltered user_where after limit h =
      Ensures-eq-ok Q _
        (under_grant _ (λ sel e. conds-Renders sel user_where Q _ (λ user filter f.
          filtered_read sel filter (user ∷ filter ∷ after ∷ []) (select_list sel.columns)
            (pk_order_clause ti.table.primary_key ++ codes " LIMIT ?", int limit ∷ []) e f
            (inr (inl refl)))))
        h
