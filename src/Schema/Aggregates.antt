-- ===== src/Schema/Aggregates.antt =====
-- schema/aggregate.go: which aggregates a request selects, the one query that computes them, and
-- the shape of its answer.
pub mod Collected
pub mod Query
pub mod Slots
pub mod Answered
mod Tests
use titanium_graph_api.Base.{
  ℕ, List, [], ◌∷◌, ◌++◌, Text, Bool, true, false, not, ◌&&◌, Option, none, some, codes, join, map,
  lookup, insert, member, text_eq, if◌then◌else◌,
}
use titanium_graph_api.Base.Int.{ℤ, pos}
use titanium_graph_api.Base.Numbers.{show_int}
use titanium_graph_api.Value.{Value, null, int, int64, float, str, bytes, Fields}
use titanium_graph_api.Results.{Error, Result, ok, err, ◌>>=◌}
use titanium_graph_api.Config.{is_nil}
use titanium_graph_api.Catalog.{Column}
use titanium_graph_api.Rbac.Resolve.{OpAccess}
use titanium_graph_api.Sql.{Condition, quote_ident, combine_conds, comma}
use titanium_graph_api.Schema.{TableInfo}
use titanium_graph_api.Schema.Scalars.{Marshal}
use titanium_graph_api.Schema.Scalars.Formats.{Formats, parse_int_anyway}
use titanium_graph_api.Schema.Scalars.Convert.{convert_value, Row}
use titanium_graph_api.Schema.Selections.{Nodes, Field, Fragments, flatten_fields, field_names}
use titanium_graph_api.Schema.Queries.{qualified_table, rbac_cond, user_cond, select_from}
use titanium_graph_api.Schema.Transactions.{db_err, hide}

abbrev pub numeric_types : List Text
numeric_types =
    codes "tinyint"
    ∷ codes "smallint"
    ∷ codes "mediumint"
    ∷ codes "int"
    ∷ codes "integer"
    ∷ codes "bigint"
    ∷ codes "decimal"
    ∷ codes "numeric"
    ∷ codes "float"
    ∷ codes "double"
    ∷ codes "real"
    ∷ codes "year"
    ∷ codes "bit"
    ∷ []

unfoldable pub is_numeric : Column → Bool
is_numeric c = member c.data_type numeric_types

-- The parts of an aggregate.
pub data Bucket : Type 0 where
  counts sums avgs mins maxs : Bucket

pub record AggRequest : Type 0 where
  pub count : Bool
  pub sum : List Column
  pub avg : List Column
  pub min : List Column
  pub max : List Column

abbrev pub no_request : AggRequest
no_request = record { count = false; sum = []; avg = []; min = []; max = [] }

unfoldable pub is_empty_request : AggRequest → Bool
is_empty_request r =
    not r.count && (is_nil r.sum && (is_nil r.avg && (is_nil r.min && is_nil r.max)))

abbrev pub bucket_of : Text → Option Bucket
bucket_of name =
    if text_eq name (codes "count")
    then some counts
    else if text_eq name (codes "sum")
    then some sums
    else if text_eq name (codes "avg")
    then some avgs
    else if text_eq name (codes "min")
    then some mins
    else if text_eq name (codes "max")
    then some maxs
    else none

abbrev pub add_column : Option Column → List Column → List Column
add_column none cs = cs
add_column (some c) cs = c ∷ cs

unfoldable pub columns_named : TableInfo → List Text → List Column
columns_named ti [] = []
columns_named ti (name ∷ names) = add_column (lookup name ti.field_to_col) (columns_named ti names)

-- `req.sum = cols(f.SelectionSet)`, and so on.
abbrev pub set_bucket : Option Bucket → List Column → AggRequest → AggRequest
set_bucket none cols req = req
set_bucket (some counts) cols req = record req { count = true }
set_bucket (some sums) cols req = record req { sum = cols }
set_bucket (some avgs) cols req = record req { avg = cols }
set_bucket (some mins) cols req = record req { min = cols }
set_bucket (some maxs) cols req = record req { max = cols }

abbrev pub bucket_named : Option Text → Option Bucket
bucket_named none = none
bucket_named (some name) = bucket_of name

module _ (ti : TableInfo) (fragments : Fragments) where
  unfoldable pub collect_fields : AggRequest → List Field → AggRequest
  unfolding columns_named field_names
  collect_fields req [] = req
  collect_fields req (f ∷ fs) =
      collect_fields
        (set_bucket (bucket_named f.name) (columns_named ti (field_names fragments f.selections))
          req)
        fs

  -- The field may stand in the query several times; `sets` are their selection sets.
  unfoldable pub collect_sets : AggRequest → List Nodes → AggRequest
  unfolding collect_fields flatten_fields
  collect_sets req [] = req
  collect_sets req (ns ∷ sets) =
      collect_sets (collect_fields req (flatten_fields fragments ns)) sets

  unfoldable pub collect_agg_selections : List Nodes → AggRequest
  unfolding collect_sets
  collect_agg_selections sets = collect_sets no_request sets

-- A SELECT column, and where its result is stored.
pub data Slot : Type 0 where
  count_slot : Slot
  slot : Bucket → Column → Slot

abbrev pub function_of : Bucket → Text
function_of counts = codes "COUNT"
function_of sums = codes "SUM"
function_of avgs = codes "AVG"
function_of mins = codes "MIN"
function_of maxs = codes "MAX"

abbrev pub expression : Slot → Text
expression count_slot = codes "COUNT(*)"
expression (slot b c) = function_of b ++ (codes "(" ++ (quote_ident c.name ++ codes ")"))

unfoldable pub slots_for : Bucket → List Column → List Slot
slots_for b [] = []
slots_for b (c ∷ cs) = slot b c ∷ slots_for b cs

unfoldable pub plan_of : AggRequest → List Slot
unfolding slots_for
plan_of r =
    (if r.count then count_slot ∷ [] else [])
    ++ (slots_for sums r.sum
        ++ (slots_for avgs r.avg ++ (slots_for mins r.min ++ slots_for maxs r.max)))

-- An empty selection still counts.
abbrev pub completed : AggRequest → AggRequest
completed req = if is_empty_request req then record req { count = true } else req

-- The nested source that the aggregate types read.
pub record AggResult : Type 0 where
  pub count : ℤ
  pub sum : Row
  pub avg : Row
  pub min : Row
  pub max : Row

abbrev pub no_result : AggResult
no_result = record { count = pos 0; sum = []; avg = []; min = []; max = [] }

abbrev pub float_or_null : Option ℕ → Value
float_or_null none = null
float_or_null (some v) = float v

module _ (fmt : Formats) where
  unfoldable pub to_int64 : Value → ℤ
  unfolding parse_int_anyway
  to_int64 (int64 n) = n
  to_int64 (bytes b) = parse_int_anyway b
  to_int64 (float v) = fmt.int_of_float v
  to_int64 _ = pos 0

  unfoldable pub to_float : Value → Value
  to_float (float v) = float v
  to_float (int64 n) = float (fmt.float_of_int n)
  to_float (bytes b) = float_or_null (fmt.parse_float b)
  to_float _ = null

  unfoldable pub agg_scalar : Value → Value
  agg_scalar (bytes b) = str b
  agg_scalar (int64 n) = str (show_int n)
  agg_scalar (float v) = str (fmt.format_float v)
  agg_scalar _ = null

  -- The answer of one slot.
  unfoldable pub store_slot : Slot → Value → AggResult → Result AggResult
  unfolding to_int64 to_float agg_scalar
  store_slot count_slot v out = ok (record out { count = to_int64 v })
  store_slot (slot counts c) v out = ok (record out { count = to_int64 v })
  store_slot (slot sums c) v out = ok (record out { sum = insert c.name (agg_scalar v) out.sum })
  store_slot (slot avgs c) v out = ok (record out { avg = insert c.name (to_float v) out.avg })
  store_slot (slot mins c) v out = do
    w ← convert_value fmt c v
    ok (record out { min = insert c.name w out.min })
  store_slot (slot maxs c) v out = do
    w ← convert_value fmt c v
    ok (record out { max = insert c.name w out.max })

  -- Scan refuses a row of another length.
  unfoldable pub store_slots : Error → List Slot → List Value → AggResult → Result AggResult
  unfolding store_slot
  store_slots mismatch [] [] out = ok out
  store_slots mismatch [] (_ ∷ _) out = err mismatch
  store_slots mismatch (_ ∷ _) [] out = err mismatch
  store_slots mismatch (s ∷ ss) (v ∷ vs) out = do
    next ← store_slot s v out
    store_slots mismatch ss vs next

module _ (marshal : Marshal) (schema_name : Text) (ti : TableInfo) (claims : Fields) where
  -- The code reads the select grant, under which its field exists.
  unfoldable pub aggregate_query : OpAccess → Option Fields → List Slot → Result Condition
  aggregate_query sel user_where plan = do
    user ← user_cond marshal ti user_where
    filter ← rbac_cond sel claims
    let w = combine_conds (user ∷ filter ∷ [])
    ok (
        select_from (join comma (map expression plan)) (qualified_table schema_name ti.table) w
          ([], []))

  -- `query_row` is the database.
  abbrev pub answered :
      Formats
      → Bool
      → (Condition → Result (List Value))
      → Error
      → OpAccess
      → Option Fields
      → List Slot
      → Result AggResult
  answered fmt debug query_row mismatch sel user_where [] = ok no_result
  answered fmt debug query_row mismatch sel user_where (s ∷ plan) = do
    q ← aggregate_query sel user_where (s ∷ plan)
    vals ← hide debug (query_row q)
    hide debug (store_slots fmt mismatch (s ∷ plan) vals no_result)

  unfoldable pub run_aggregate :
      Formats
      → Bool
      → (Condition → Result (List Value))
      → Error
      → OpAccess
      → Option Fields
      → AggRequest
      → Result AggResult
  unfolding aggregate_query store_slots plan_of is_empty_request
  run_aggregate fmt debug query_row mismatch sel user_where req =
      answered fmt debug query_row mismatch sel user_where (plan_of (completed req))
