-- ===== src/Schema/Order.antt =====
-- schema/sqlgen.go: ORDER BY lists. The loop over one object runs in the order of the map that the
-- input gives; the columns it finds are sorted by their ordinals.
pub mod Readable
use titanium_graph_api.Base.{
  ℕ, List, [], ◌∷◌, ◌++◌, Text, Bool, true, false, ◌||◌, Option, none, some, if◌then◌else◌, codes,
  join, text_eq, ltb, map,
}
use titanium_graph_api.Value.{Value, null, Values, nil, cons, Fields, end, field, as_obj, as_str}
use titanium_graph_api.Results.{
  Result, ok, err, ◌>>=◌, not_an_object, unknown_order_column, bad_direction,
}
use titanium_graph_api.Catalog.{Column}
use titanium_graph_api.Sql.{quote_ident, comma}
use titanium_graph_api.Schema.{TableInfo, readable_column}

abbrev pub SortKey : Type 0
SortKey = Column × Text

unfoldable pub is_direction : Text → Bool
is_direction dir = text_eq dir (codes "ASC") || text_eq dir (codes "DESC")

abbrev pub order_key : Text → Column → Option Text → Result (List SortKey)
order_key name col none = err (bad_direction name)
order_key name col (some dir) =
    if is_direction dir then ok ((col, dir) ∷ []) else err (bad_direction name)

abbrev pub order_column : Text → Value → Option Column → Result (List SortKey)
order_column name v none = err (unknown_order_column name)
order_column name v (some col) = order_key name col (as_str v)

-- One entry of an order_by object; a null direction is passed over.
unfoldable pub order_entry : TableInfo → Text → Value → Result (List SortKey)
order_entry ti name null = ok []
order_entry ti name v = order_column name v (readable_column ti name)

unfoldable pub insert_by_ordinal : SortKey → List SortKey → List SortKey
insert_by_ordinal p [] = p ∷ []
insert_by_ordinal p (q ∷ qs) =
    if ltb q.0.ordinal p.0.ordinal then q ∷ insert_by_ordinal p qs else p ∷ q ∷ qs

unfoldable pub sort_by_ordinal : List SortKey → List SortKey
unfolding insert_by_ordinal
sort_by_ordinal [] = []
sort_by_ordinal (p ∷ ps) = insert_by_ordinal p (sort_by_ordinal ps)

unfoldable pub order_object : TableInfo → Fields → Result (List SortKey)
unfolding order_entry
order_object ti end = ok []
order_object ti (field name v fs) = do
  here ← order_entry ti name v
  rest ← order_object ti fs
  ok (here ++ rest)

abbrev pub order_item : TableInfo → Option Fields → Result (List SortKey)
order_item ti none = err (not_an_object (codes "order_by"))
order_item ti (some fs) = do pairs ← order_object ti fs; ok (sort_by_ordinal pairs)

-- The sort keys of an order_by list: the objects in order, the keys of one object by ordinal.
unfoldable pub order_keys : TableInfo → Values → Result (List SortKey)
unfolding order_object sort_by_ordinal
order_keys ti nil = ok []
order_keys ti (cons v vs) = do
  here ← order_item ti (as_obj v)
  rest ← order_keys ti vs
  ok (here ++ rest)

abbrev pub order_text : SortKey → Text
order_text (col, dir) = quote_ident col.name ++ (codes " " ++ dir)

unfoldable pub order_columns : TableInfo → Values → Result Text
unfolding order_keys
order_columns ti order_by = do keys ← order_keys ti order_by; ok (join comma (map order_text keys))

abbrev pub order_clause : Text → Text
order_clause [] = []
order_clause (c ∷ s) = codes " ORDER BY " ++ (c ∷ s)

unfoldable pub order_sql : TableInfo → Values → Result Text
order_sql ti order_by = do cols ← order_columns ti order_by; ok (order_clause cols)

abbrev pub or_columns : List Text → List Text → List Text
or_columns [] cols = cols
or_columns (n ∷ ns) cols = n ∷ ns

abbrev pub or_fallback : Text → List Text → Text
or_fallback [] fallback = join comma (map quote_ident fallback)
or_fallback (c ∷ s) fallback = c ∷ s

-- The order of a window: what was asked for, or else the primary key, or else the join columns.
unfoldable pub window_order : TableInfo → Values → List Text → Result Text
window_order ti order_by join_cols = do
  cols ← order_columns ti order_by
  ok (or_fallback cols (or_columns ti.table.primary_key join_cols))
