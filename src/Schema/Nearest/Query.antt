-- ===== src/Schema/Nearest/Query.antt =====
-- The nearest-neighbour query is closed text, restricted by the row filter, and bounded.
use titanium_graph_api.Base.{◌≡◌, List, [], ◌∷◌, ◌++◌, Text, Option, codes, lookup, arith}
use titanium_graph_api.Base.Int.{ℤ, pos, ltb_ℤ, ◌≤ℤ◌}
use titanium_graph_api.Value.{Value, str, int, Fields, entries, as_obj, as_str, as_int}
use titanium_graph_api.Results.{Result, ok, err, Ensures, Ensures-if, negative_first}
use titanium_graph_api.Config.{SchemaGen}
use titanium_graph_api.Catalog.{Column}
use titanium_graph_api.Rbac.Resolve.{OpAccess}
use titanium_graph_api.Sql.{Condition}
use titanium_graph_api.Sql.Lexer.{Reads}
use titanium_graph_api.Sql.Bound.{IsBound}
use titanium_graph_api.Schema.{TableInfo}
use titanium_graph_api.Schema.Scalars.{Marshal}
use titanium_graph_api.Schema.Paging.{arg, or_else, clamp}
use titanium_graph_api.Schema.Queries.{select_list}
use titanium_graph_api.Schema.Queries.Filtered.{IsFilteredBy}
use titanium_graph_api.Schema.Nearest.{first_of, distance_of, nearest_query}

-- What bounds a page size.
abbrev pub IsFirst : SchemaGen → Option ℤ → ℤ → Type 0
IsFirst gen asked n = (n ≤ℤ gen.max_page_size) × (n ≤ℤ or_else asked gen.default_page_size)

clamp-bounds : (n m : ℤ) → (clamp n m ≤ℤ m) × (clamp n m ≤ℤ n)
clamp-bounds n m = (ground arith, ground arith)

pub first_of-IsFirst :
    (gen : SchemaGen) (asked : Option ℤ) → Ensures (IsFirst gen asked) (first_of gen asked)
unfolding first_of
first_of-IsFirst gen asked =
    Ensures-if (IsFirst gen asked) (ltb_ℤ (or_else asked gen.default_page_size) (pos 0))
      (err negative_first) (ok (clamp (or_else asked gen.default_page_size) gen.max_page_size))
      (λ e. tt) (λ e. clamp-bounds (or_else asked gen.default_page_size) gen.max_page_size)

module _ (marshal : Marshal) (schema_name : Text) (ti : TableInfo) (claims : Fields) where
  abbrev head_of : OpAccess → Column → Text → Text
  head_of sel col fn =
      select_list sel.columns ++ (codes ", " ++ (distance_of fn col ++ codes " AS __gqlgate_dist"))

  -- The vector comes first, the page size last.
  abbrev pub HasEnds : Text → ℤ → Condition → Type 0
  HasEnds to first q = (mid : List Value) × (q.args ≡ str to ∷ (mid ++ int first ∷ []))

  abbrev pub IsNearest : SchemaGen → OpAccess → Fields → Condition → Type 0
  IsNearest gen sel args q =
      IsFilteredBy sel.filter claims q.sql
      × IsBound q
      × ((n : ℤ) × IsFirst gen (arg as_int (lookup (codes "first") (entries args))) n
          × HasEnds (or_else (arg as_str (lookup (codes "to") (entries args))) []) n q)

  abbrev metric_of : Fields → Text
  metric_of args = or_else (arg as_str (lookup (codes "metric") (entries args))) (codes "COSINE")

  abbrev first_asked : Fields → Option ℤ
  first_asked args = arg as_int (lookup (codes "first") (entries args))

  abbrev vector_of : Fields → Text
  vector_of args = or_else (arg as_str (lookup (codes "to") (entries args))) []

  abbrev where_of : Fields → Option Fields
  where_of args = arg as_obj (lookup (codes "where") (entries args))

  abbrev query_of : OpAccess → Column → Text → Fields → ℤ → Result Condition
  query_of sel col fn args n =
      nearest_query marshal schema_name ti claims sel col fn (vector_of args) (where_of args) n
