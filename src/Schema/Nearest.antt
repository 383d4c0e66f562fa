-- ===== src/Schema/Nearest.antt =====
-- schema/vector.go: nearest-neighbour search over a vector column.
pub mod Query
mod Tests
use titanium_graph_api.Base.{
  ℕ, List, [], ◌∷◌, ◌++◌, Text, Bool, true, false, Option, none, some, codes, lookup, text_eq,
  insert, if◌then◌else◌,
}
use titanium_graph_api.Base.Int.{ℤ, pos, ltb_ℤ}
use titanium_graph_api.Value.{Value, str, int, Fields, entries, as_obj, as_str, as_int}
use titanium_graph_api.Results.{Error, Result, ok, err, ◌>>=◌, unknown_metric, negative_first}
use titanium_graph_api.Config.{SchemaGen}
use titanium_graph_api.Catalog.{Column}
use titanium_graph_api.Rbac.Resolve.{OpAccess}
use titanium_graph_api.Sql.{Condition, quote_ident, combine_conds}
use titanium_graph_api.Schema.{TableInfo}
use titanium_graph_api.Schema.Scalars.{Marshal}
use titanium_graph_api.Schema.Scalars.Formats.{Formats}
use titanium_graph_api.Schema.Scalars.Convert.{convert_value, Row}
use titanium_graph_api.Schema.Paging.{arg, or_else, clamp}
use titanium_graph_api.Schema.Queries.{
  qualified_table, rbac_cond, user_cond, select_list, select_from,
}
use titanium_graph_api.Schema.Transactions.{hide}
use titanium_graph_api.Schema.Aggregates.{to_float}

abbrev pub vector_metric_sql : List (Text × Text)
vector_metric_sql =
    (codes "COSINE", codes "VEC_COSINE_DISTANCE")
    ∷ (codes "L2", codes "VEC_L2_DISTANCE")
    ∷ (codes "L1", codes "VEC_L1_DISTANCE")
    ∷ (codes "INNER_PRODUCT", codes "VEC_NEGATIVE_INNER_PRODUCT")
    ∷ []

unfoldable pub vectors_among : List Column → List Column
vectors_among [] = []
vectors_among (c ∷ cs) =
    if text_eq c.data_type (codes "vector") then c ∷ vectors_among cs else vectors_among cs

abbrev pub vectors_of : Option OpAccess → List Column
vectors_of none = []
vectors_of (some sel) = vectors_among sel.columns

-- The readable vector columns.
unfoldable pub vector_columns : TableInfo → List Column
unfolding vectors_among
vector_columns ti = vectors_of ti.access.select

abbrev pub distance_function : Text → Option Text → Result Text
distance_function metric none = err (unknown_metric metric)
distance_function metric (some fn) = ok fn

-- The page size of a field that pages forward: the default, no negative number, and the maximum.
unfoldable pub first_of : SchemaGen → Option ℤ → Result ℤ
first_of gen asked =
    let first = or_else asked gen.default_page_size in
    if ltb_ℤ first (pos 0) then err negative_first else ok (clamp first gen.max_page_size)

abbrev pub not_null : Column → Condition
not_null col = record { sql = quote_ident col.name ++ codes " IS NOT NULL"; args = [] }

abbrev pub distance_of : Text → Column → Text
distance_of fn col = fn ++ (codes "(" ++ (quote_ident col.name ++ codes ", ?)"))

module _ (marshal : Marshal) (schema_name : Text) (ti : TableInfo) (claims : Fields) where
  -- The distance comes before the WHERE condition, and so does its argument.
  unfoldable pub nearest_query :
      OpAccess → Column → Text → Text → Option Fields → ℤ → Result Condition
  nearest_query sel col fn to user_where first = do
    user ← user_cond marshal ti user_where
    filter ← rbac_cond sel claims
    let w = combine_conds (user ∷ filter ∷ some (not_null col) ∷ [])
    let q =
        select_from
          (select_list sel.columns
            ++ (codes ", " ++ (distance_of fn col ++ codes " AS __gqlgate_dist")))
          (qualified_table schema_name ti.table) w
          (codes " ORDER BY __gqlgate_dist ASC LIMIT ?", int first ∷ [])
    ok (record { sql = q.sql; args = str to ∷ q.args })

  -- The resolver of `<t>_nearest_by_<col>`, up to the query.
  unfoldable pub nearest : SchemaGen → OpAccess → Column → Fields → Result Condition
  unfolding first_of nearest_query
  nearest gen sel col args = do
    let metric = or_else (arg as_str (lookup (codes "metric") (entries args))) (codes "COSINE")
    fn ← distance_function metric (lookup metric vector_metric_sql)
    first ← first_of gen (arg as_int (lookup (codes "first") (entries args)))
    nearest_query sel col fn (or_else (arg as_str (lookup (codes "to") (entries args))) [])
        (arg as_obj (lookup (codes "where") (entries args))) first

-- A row with its distance, `node` and `distance`.
abbrev pub Neighbor : Type 0
Neighbor = Row × Value

module _ (fmt : Formats) where
  -- The last cell is the distance.
  unfoldable pub scan_neighbor : Error → List Column → List Value → Row → Result Neighbor
  scan_neighbor mismatch [] [] node = err mismatch
  scan_neighbor mismatch [] (d ∷ []) node = ok (node, to_float fmt d)
  scan_neighbor mismatch [] (d ∷ v ∷ vs) node = err mismatch
  scan_neighbor mismatch (c ∷ cs) [] node = err mismatch
  scan_neighbor mismatch (c ∷ cs) (v ∷ vs) node = do
    w ← convert_value fmt c v
    scan_neighbor mismatch cs vs (insert c.name w node)

  unfoldable pub scan_neighbors : Error → List Column → List (List Value) → Result (List Neighbor)
  unfolding scan_neighbor
  scan_neighbors mismatch cols [] = ok []
  scan_neighbors mismatch cols (vs ∷ rest) = do
    n ← scan_neighbor mismatch cols vs []
    ns ← scan_neighbors mismatch cols rest
    ok (n ∷ ns)

  -- runNearest with the database behind it.
  unfoldable pub run_nearest :
      Bool
      → (Condition → Result (List (List Value)))
      → Error
      → OpAccess
      → Condition
      → Result (List Neighbor)
  unfolding scan_neighbors
  run_nearest debug query mismatch sel q = do
    rows ← hide debug (query q)
    hide debug (scan_neighbors mismatch sel.columns rows)
