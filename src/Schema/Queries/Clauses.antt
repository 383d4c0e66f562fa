-- ===== src/Schema/Queries/Clauses.antt =====
-- The parts of a query: each is closed text with a placeholder for each of its arguments.
use titanium_graph_api.Base.{
  ◌≡◌, refl, List, [], ◌∷◌, Text, Bool, true, false, Option, none, some, codes, length,
  length-append, All, Bool-cases, inl, inr,
}
use titanium_graph_api.Base.Int.{ℤ, pos, ltb_ℤ}
use titanium_graph_api.Value.{Fields, Values, nil}
use titanium_graph_api.Results.{Result, ok, err, Ensures, Ensures-bind}
use titanium_graph_api.Catalog.{Column, Table}
use titanium_graph_api.Config.{SchemaGen}
use titanium_graph_api.Rbac.Filter.{RowFilter, filter_sql}
use titanium_graph_api.Rbac.Filter.Render.{filter_sql-IsBound}
use titanium_graph_api.Rbac.Resolve.{OpAccess, names_of}
use titanium_graph_api.Sql.{Condition, quote_ident, quote_list}
use titanium_graph_api.Sql.Lexer.{scan, marks, Reads, Reads-append}
use titanium_graph_api.Sql.Quoting.{quote_ident-Reads}
use titanium_graph_api.Sql.Bound.{IsBound, IsBound?, Reads-prepend, quote_list-Reads}
use titanium_graph_api.Schema.{TableInfo}
use titanium_graph_api.Schema.Scalars.{Marshal}
use titanium_graph_api.Schema.Where.{where_sql}
use titanium_graph_api.Schema.Where.Bound.{where_sql-IsBound}
use titanium_graph_api.Schema.Order.{
  order_columns, order_clause, order_sql, window_order, or_columns, or_fallback,
}
use titanium_graph_api.Schema.Order.Readable.{order_columns-Reads}
use titanium_graph_api.Schema.Paging.{ListArgs, Clause, clause_of, page_bounds, limit_clause}
use titanium_graph_api.Schema.Queries.Keys.Bound.{order_by_Reads}
use titanium_graph_api.Schema.Queries.{
  qualified_table, filter_cond, rbac_cond, user_cond, select_list, order_or_none, select_from,
  page_clause, granted,
}

-- The static text of an operation's row filter has closed quotes and no placeholder of its own.
abbrev pub IsClosedFilter : Option RowFilter → Type 0
IsClosedFilter none = Unit
IsClosedFilter (some f) = All (λ seg. Reads seg 0) f.segments

abbrev pub IsClosedAccess : OpAccess → Type 0
IsClosedAccess oa = IsClosedFilter oa.filter

pub any_Ensures {ℓ} : {A : Type ℓ} (r : Result A) → Ensures (λ a. Unit {0}) r
any_Ensures (ok a) = tt
any_Ensures (err e) = tt

ok-Ensures {ℓ κ} :
    {A : Type ℓ} (P : A → Type κ) (r : Result A) → ((a : A) → r ≡ ok a → P a) → Ensures P r
ok-Ensures P (ok a) h = h a refl
ok-Ensures P (err e) h = tt

pub rbac_cond-IsBound :
    (oa : OpAccess) (claims : Fields) → IsClosedAccess oa → Ensures IsBound? (rbac_cond oa claims)
unfolding rbac_cond
rbac_cond-IsBound oa claims h = filter_cond-IsBound oa.filter claims h
  where
    filter_cond-IsBound :
        (o : Option RowFilter) (claims : Fields)
        → IsClosedFilter o
        → Ensures IsBound? (filter_cond o claims)
    filter_cond-IsBound none claims h = tt
    filter_cond-IsBound (some f) claims h =
        Ensures-bind IsBound IsBound? (filter_sql f claims) _
          (ok-Ensures IsBound (filter_sql f claims) (λ c e. (filter_sql-IsBound f claims h e).0))
          (λ c b. b)

pub user_cond-IsBound :
    (marshal : Marshal) (ti : TableInfo) (o : Option Fields)
    → Ensures IsBound? (user_cond marshal ti o)
unfolding user_cond
user_cond-IsBound marshal ti none = tt
user_cond-IsBound marshal ti (some expr) =
    Ensures-bind IsBound IsBound? (where_sql marshal ti expr) _
      (ok-Ensures IsBound (where_sql marshal ti expr) (λ c e. where_sql-IsBound marshal ti expr e))
      (λ c b. b)

pub qualified_table-Reads :
    (schema_name : Text) (t : Table) → Reads (qualified_table schema_name t) 0
unfolding qualified_table scan marks
qualified_table-Reads schema_name t =
    Reads-prepend (quote_ident schema_name) _ 0 (quote_ident-Reads schema_name) (
      Reads-prepend (codes ".") _ 0 (record { closed = refl; count = refl })
        (quote_ident-Reads t.name))

pub select_list-Reads : (cols : List Column) → Reads (select_list cols) 0
unfolding select_list
select_list-Reads cols = quote_list-Reads (names_of cols)

-- A clause with its own arguments.
abbrev pub IsClause : Clause → Type 0
IsClause (tail, args) = Reads tail (length args)

pub select_from-IsBound :
    (head from_table : Text) (w : Condition) (tail : Clause)
    → Reads head 0
    → Reads from_table 0
    → IsBound w
    → IsClause tail
    → IsBound (select_from head from_table w tail)
unfolding scan marks
select_from-IsBound head from_table w (tail, args) h t b k = rw (length-append w.args args) (
    Reads-prepend (codes "SELECT ") _ _ (record { closed = refl; count = refl })
      (Reads-prepend head _ _ h (
        Reads-prepend (codes " FROM ") _ _ (record { closed = refl; count = refl })
          (Reads-prepend from_table _ _ t (
            Reads-prepend (codes " WHERE ") _ _ (record { closed = refl; count = refl })
              (Reads-append w.sql tail (length w.args) (length args) b k))))))

order_clause-Reads : (s : Text) → Reads s 0 → Reads (order_clause s) 0
unfolding scan marks
order_clause-Reads [] h = record { closed = refl; count = refl }
order_clause-Reads (c ∷ s) h = order_by_Reads (c ∷ s) h

pub order_sql-Reads : (ti : TableInfo) (vs : Values) → Ensures (λ s. Reads s 0) (order_sql ti vs)
unfolding order_sql
order_sql-Reads ti vs =
    Ensures-bind (λ s. Reads s 0) (λ s. Reads s 0) (order_columns ti vs) _
      (order_columns-Reads ti vs) order_clause-Reads

pub order_or_none-Reads :
    (ti : TableInfo) (o : Option Values) → Ensures (λ s. Reads s 0) (order_or_none ti o)
order_or_none-Reads ti none = order_sql-Reads ti nil
order_or_none-Reads ti (some vs) = order_sql-Reads ti vs

or_fallback-Reads : (s : Text) (names : List Text) → Reads s 0 → Reads (or_fallback s names) 0
unfolding quote_list
or_fallback-Reads [] names h = quote_list-Reads names
or_fallback-Reads (c ∷ s) names h = h

pub window_order-Reads :
    (ti : TableInfo) (vs : Values) (cols : List Text)
    → Ensures (λ s. Reads s 0) (window_order ti vs cols)
unfolding window_order
window_order-Reads ti vs cols =
    Ensures-bind (λ s. Reads s 0) (λ s. Reads s 0) (order_columns ti vs) _
      (order_columns-Reads ti vs)
      (λ s h. or_fallback-Reads s (or_columns ti.table.primary_key cols) h)

clause_of-IsClause : (bounds : ℤ × ℤ) → IsClause (clause_of bounds)
unfolding scan marks
clause_of-IsClause (limit, offset) = elim (Bool-cases (ltb_ℤ (pos 0) offset)) [
  | inl e ↦ rw e (record { closed = refl; count = refl })
  | inr e ↦ rw e (record { closed = refl; count = refl })
]

pub page_clause-IsClause :
    (gen : SchemaGen) (la : ListArgs) (single : Bool) → Ensures IsClause (page_clause gen la single)
unfolding limit_clause scan marks
page_clause-IsClause gen la true = record { closed = refl; count = refl }
page_clause-IsClause gen la false =
    Ensures-bind (λ b. Unit {0}) IsClause (page_bounds gen la) _ (any_Ensures (page_bounds gen la))
      (λ bounds h. clause_of-IsClause bounds)

-- The operation that a query reads under.
pub granted-Ensures :
    (t : Table) (o : Option OpAccess) {P : OpAccess → Type 0}
    → ((oa : OpAccess) → o ≡ some oa → P oa)
    → Ensures P (granted t o)
granted-Ensures t none h = tt
granted-Ensures t (some oa) h = h oa refl
