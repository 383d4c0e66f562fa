-- ===== src/Schema/Queries.antt =====
-- schema/sqlgen.go: the queries that read a table. Each is the text and arguments handed to the
-- database; the rows come back from outside.
pub mod Keys
pub mod Clauses
pub mod Bound
pub mod Keyed
pub mod Filtered
pub mod Samples
mod Tests
use titanium_graph_api.Base.{
  ℕ, zero, suc, List, [], ◌∷◌, ◌++◌, Text, Bool, true, false, Option, none, some, codes, join, map,
  length,
}
use titanium_graph_api.Base.Int.{ℤ, pos}
use titanium_graph_api.Value.{Value, int, Values, nil, Fields}
use titanium_graph_api.Results.{Result, ok, err, ◌>>=◌, not_permitted}
use titanium_graph_api.Catalog.{Column, Table}
use titanium_graph_api.Config.{SchemaGen}
use titanium_graph_api.Rbac.Filter.{RowFilter, filter_sql}
use titanium_graph_api.Rbac.Resolve.{OpAccess, names_of}
use titanium_graph_api.Sql.{Condition, quote_ident, quote_list, combine_conds, comma}
use titanium_graph_api.Schema.{TableInfo}
use titanium_graph_api.Schema.Scalars.{Marshal}
use titanium_graph_api.Schema.Where.{where_sql}
use titanium_graph_api.Schema.Order.{order_sql, window_order}
use titanium_graph_api.Schema.Paging.{ListArgs, Clause, limit_clause}
use titanium_graph_api.Schema.Queries.Keys.{in_condition, pk_order_clause}

-- `schema_name` is `b.opt.Catalog.SchemaName`.
unfoldable pub qualified_table : Text → Table → Text
qualified_table schema_name t = quote_ident schema_name ++ (codes "." ++ quote_ident t.name)

abbrev pub filter_cond : Option RowFilter → Fields → Result (Option Condition)
filter_cond none claims = ok none
filter_cond (some f) claims = do c ← filter_sql f claims; ok (some c)

-- The row filter of an operation for the caller's claims.
unfoldable pub rbac_cond : OpAccess → Fields → Result (Option Condition)
rbac_cond oa claims = filter_cond oa.filter claims

unfoldable pub user_cond : Marshal → TableInfo → Option Fields → Result (Option Condition)
user_cond marshal ti none = ok none
user_cond marshal ti (some expr) = do c ← where_sql marshal ti expr; ok (some c)

unfoldable pub select_list : List Column → Text
select_list cols = quote_list (names_of cols)

abbrev pub order_or_none : TableInfo → Option Values → Result Text
order_or_none ti none = order_sql ti nil
order_or_none ti (some vs) = order_sql ti vs

-- `SELECT head FROM table WHERE where tail`.
abbrev pub select_from : Text → Text → Condition → Clause → Condition
select_from head from_table w (tail, args) = record {
  sql =
      codes "SELECT "
      ++ (head ++ (codes " FROM " ++ (from_table ++ (codes " WHERE " ++ (w.sql ++ tail)))));
  args = w.args ++ args;
}

abbrev pub page_clause : SchemaGen → ListArgs → Bool → Result Clause
page_clause gen la true = ok (codes " LIMIT 1", [])
page_clause gen la false = limit_clause gen la

abbrev pub granted : Table → Option OpAccess → Result OpAccess
granted t none = err (not_permitted t.name)
granted t (some oa) = ok oa

module _ (marshal : Marshal) (schema_name : Text) (ti : TableInfo) (claims : Fields) where
  -- runSelect; `extra` is a condition of the caller's, such as a primary key or a foreign key.
  unfoldable pub run_select : SchemaGen → ListArgs → Option Condition → Bool → Result Condition
  run_select gen la extra single = do
    sel ← granted ti.table ti.access.select
    user ← user_cond marshal ti la.where_arg
    filter ← rbac_cond sel claims
    order ← order_or_none ti la.order_by
    limit ← page_clause gen la single
    let w = combine_conds (user ∷ filter ∷ extra ∷ [])
    ok (
        select_from (select_list sel.columns) (qualified_table schema_name ti.table) w
          (order ++ limit.0, limit.1))

  unfoldable pub run_keyset_page : Option Fields → Option Condition → ℤ → Result Condition
  run_keyset_page user_where after limit = do
    sel ← granted ti.table ti.access.select
    user ← user_cond marshal ti user_where
    filter ← rbac_cond sel claims
    let w = combine_conds (user ∷ filter ∷ after ∷ [])
    ok (
        select_from (select_list sel.columns) (qualified_table schema_name ti.table) w
          (pk_order_clause ti.table.primary_key ++ codes " LIMIT ?", int limit ∷ []))

  -- The columns, and the rank of a row among those of its parent.
  abbrev pub window_head : OpAccess → List Text → Text → Text
  window_head sel join_cols win_order =
      select_list sel.columns
      ++ (codes ", ROW_NUMBER() OVER (PARTITION BY "
          ++ (quote_list join_cols
              ++ (codes " ORDER BY " ++ (win_order ++ codes ") AS __gqlgate_rn"))))

  -- The ranked rows of each parent; only the first `per_key_limit` of each are kept.
  abbrev pub ranked : OpAccess → List Text → Text → Text → Condition → ℕ → Condition
  ranked sel join_cols win_order order w n = record {
    sql =
        codes "SELECT "
        ++ (select_list sel.columns
            ++ (codes " FROM ("
                ++ ((select_from (window_head sel join_cols win_order)
                      (qualified_table schema_name ti.table) w ([], [])).sql
                    ++ (codes ") AS __gqlgate_w WHERE __gqlgate_rn <= ?" ++ order))));
    args = w.args ++ int (pos n) ∷ [];
  }

  abbrev pub keyed_query : OpAccess → List Text → Values → Text → Condition → ℕ → Result Condition
  keyed_query sel join_cols order_by order w zero =
      ok
        (select_from (select_list sel.columns) (qualified_table schema_name ti.table) w (order, []))
  keyed_query sel join_cols order_by order w (suc n) = do
    win_order ← window_order ti order_by join_cols
    ok (ranked sel join_cols win_order order w (suc n))

  unfoldable pub run_select_by_keys :
      List Text → List (List Value) → Option Fields → Values → ℕ → Result Condition
  run_select_by_keys join_cols keys user_where order_by per_key_limit = do
    sel ← granted ti.table ti.access.select
    user ← user_cond marshal ti user_where
    filter ← rbac_cond sel claims
    order ← order_sql ti order_by
    let w = combine_conds (some (in_condition join_cols keys) ∷ user ∷ filter ∷ [])
    keyed_query sel join_cols order_by order w per_key_limit

  -- runCount; the code reads the select grant, which its caller has checked.
  unfoldable pub run_count : OpAccess → Option Fields → Result Condition
  run_count sel user_where = do
    user ← user_cond marshal ti user_where
    filter ← rbac_cond sel claims
    let w = combine_conds (user ∷ filter ∷ [])
    ok (select_from (codes "COUNT(*)") (qualified_table schema_name ti.table) w ([], []))
