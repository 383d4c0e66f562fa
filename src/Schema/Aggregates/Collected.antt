-- ===== src/Schema/Aggregates/Collected.antt =====
-- collectAggSelections: of the selections of one part, the last one counts.
use titanium_graph_api.Base.{
  List, [], ◌∷◌, ◌++◌, Bool, true, false, Option, none, some, if◌then◌else◌,
}
use titanium_graph_api.Catalog.{Column}
use titanium_graph_api.Schema.{TableInfo}
use titanium_graph_api.Schema.Selections.{Nodes, Field, Fragments, flatten_fields, field_names}
use titanium_graph_api.Schema.Aggregates.{
  Bucket, counts, sums, avgs, mins, maxs, AggRequest, columns_named, bucket_named,
}

abbrev pub is_bucket : Bucket → Option Bucket → Bool
is_bucket counts (some counts) = true
is_bucket sums (some sums) = true
is_bucket avgs (some avgs) = true
is_bucket mins (some mins) = true
is_bucket maxs (some maxs) = true
is_bucket _ _ = false

abbrev pub columns_in : Bucket → AggRequest → List Column
columns_in counts r = []
columns_in sums r = r.sum
columns_in avgs r = r.avg
columns_in mins r = r.min
columns_in maxs r = r.max

abbrev pub later_or : Option Nodes → Option Nodes → Option Nodes
later_or none earlier = earlier
later_or (some ns) earlier = some ns

-- The selection set of the last field that names the part.
unfoldable pub last_in : Bucket → List Field → Option Nodes
last_in b [] = none
last_in b (f ∷ fs) =
    later_or (last_in b fs) (if is_bucket b (bucket_named f.name) then some f.selections else none)

module _ (ti : TableInfo) (fragments : Fragments) where
  -- The fields that all occurrences select, in order.
  unfoldable pub all_fields : List Nodes → List Field
  all_fields [] = []
  all_fields (ns ∷ sets) = flatten_fields fragments ns ++ all_fields sets

  abbrev pub columns_of : Nodes → List Column
  columns_of ns = columns_named ti (field_names fragments ns)

  abbrev pub selected_or : List Column → Option Nodes → List Column
  selected_or before none = before
  selected_or before (some ns) = columns_of ns

  abbrev pub counted_or : Bool → Option Nodes → Bool
  counted_or before none = before
  counted_or before (some ns) = true
