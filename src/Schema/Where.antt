-- ===== src/Schema/Where.antt =====
-- schema/sqlgen.go: whereSQL, the translation of a GraphQL filter object into SQL. The entries of
-- an object are translated first, and put in the order of their keys afterwards; the translation
-- has no effects, so the first error in key order is the one that the code reports.
pub mod Bound
pub mod Access
use titanium_graph_api.Base.{
  ℕ, List, [], ◌∷◌, ◌++◌, Text, Bool, true, false, ◌||◌, Option, none, some, if◌then◌else◌, codes,
  join, text_eq, map,
}
use titanium_graph_api.Value.{
  Value, null, bool, int, int64, float, str, bytes, time, arr, obj, Values, nil, cons, Fields, end,
  field, entries,
}
use titanium_graph_api.Results.{
  Result, ok, err, ◌>>=◌, not_a_list, not_an_object, unknown_filter_column,
}
use titanium_graph_api.Catalog.{Column}
use titanium_graph_api.Sql.{Condition, parens, conjunction}
use titanium_graph_api.Schema.{TableInfo, readable_column}
use titanium_graph_api.Schema.Scalars.{Marshal}
use titanium_graph_api.Schema.Sorting.{sort_entries}
use titanium_graph_api.Schema.Columns.{column_cond}

-- The fragments and the arguments that a loop has appended.
abbrev pub Parts : Type 0
Parts = List Text × List Value

abbrev pub no_parts : Parts
no_parts = ([], [])

abbrev pub add_parts : Parts → Parts → Parts
add_parts (ps, as1) (qs, as2) = (ps ++ qs, as1 ++ as2)

abbrev pub one_part : Text → List Value → Parts
one_part p args = (p ∷ [], args)

-- The loop over the entries in key order; the first error ends it.
unfoldable pub gather : List (Text × Result Parts) → Result Parts
gather [] = ok no_parts
gather ((k, r) ∷ rest) = do here ← r; later ← gather rest; ok (add_parts here later)

unfoldable pub finish_where : List (Text × Result Parts) → Result Condition
unfolding gather sort_entries
finish_where rs = do parts ← gather (sort_entries rs); ok (conjunction parts)

abbrev pub and_key : Text
and_key = codes "_and"

abbrev pub or_key : Text
or_key = codes "_or"

abbrev pub not_key : Text
not_key = codes "_not"

unfoldable pub is_list_key : Text → Bool
is_list_key key = text_eq key and_key || text_eq key or_key

abbrev pub joiner : Text → Text
joiner key = if text_eq key or_key then codes " OR " else codes " AND "

-- An empty list adds nothing; any other is one part, in parentheses.
abbrev pub join_items : Text → Parts → Parts
join_items key ([], args) = no_parts
join_items key (s ∷ ss, args) = one_part (parens (join (joiner key) (s ∷ ss))) args

abbrev pub negate : Condition → Parts
negate c = one_part (codes "NOT " ++ parens c.sql) c.args

abbrev pub add_item : Condition → Parts → Parts
add_item c (ss, args) = (parens c.sql ∷ ss, c.args ++ args)

abbrev pub as_parts : Result Condition → Result Parts
as_parts r = do c ← r; ok (one_part c.sql c.args)

-- The operators on one column, each with its value.
unfoldable pub operators : Marshal → Column → Fields → List (Text × Result Parts)
operators marshal col end = []
operators marshal col (field op v fs) =
    (op, as_parts (column_cond marshal col op v)) ∷ operators marshal col fs

abbrev pub on_column : Marshal → Text → Fields → Option Column → Result Parts
on_column marshal key ops none = err (unknown_filter_column key)
on_column marshal key ops (some col) = gather (sort_entries (operators marshal col ops))

abbrev pub not_operators : Text → Option Column → Result Parts
not_operators key none = err (unknown_filter_column key)
not_operators key (some col) = err (not_an_object key)

-- An entry whose value is no object and no list.
unfoldable pub plain_entry : TableInfo → Text → Result Parts
plain_entry ti key =
    if is_list_key key
    then err (not_a_list key)
    else if text_eq key not_key
    then err (not_an_object key)
    else not_operators key (readable_column ti key)

unfoldable mutual
  -- One entry of the filter object.
  pub where_entry : Marshal → TableInfo → Text → Value → Result Parts
  where_entry marshal ti key null = ok no_parts
  where_entry marshal ti key (arr vs) =
      let items = where_items marshal ti key vs in
      if is_list_key key then (items >>= λ parts. ok (join_items key parts)) else plain_entry ti key
  where_entry marshal ti key (obj fs) =
      let inner = finish_where (where_fields marshal ti fs) in
      if is_list_key key
      then err (not_a_list key)
      else if text_eq key not_key
      then (inner >>= λ c. ok (negate c))
      else on_column marshal key fs (readable_column ti key)
  where_entry marshal ti key v = plain_entry ti key

  -- The items of an "_and" or "_or" list, each of which must be an object.
  pub where_items : Marshal → TableInfo → Text → Values → Result Parts
  where_items marshal ti key nil = ok no_parts
  where_items marshal ti key (cons v vs) = where_item marshal ti key v >>= λ c.
      where_items marshal ti key vs >>= λ rest. ok (add_item c rest)

  pub where_item : Marshal → TableInfo → Text → Value → Result Condition
  where_item marshal ti key (obj fs) = finish_where (where_fields marshal ti fs)
  where_item marshal ti key v = err (not_an_object key)

  pub where_fields : Marshal → TableInfo → Fields → List (Text × Result Parts)
  where_fields marshal ti end = []
  where_fields marshal ti (field k v fs) =
      (k, where_entry marshal ti k v) ∷ where_fields marshal ti fs

unfoldable pub where_sql : Marshal → TableInfo → Fields → Result Condition
where_sql marshal ti expr = finish_where (where_fields marshal ti expr)
