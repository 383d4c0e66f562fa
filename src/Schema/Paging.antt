-- ===== src/Schema/Paging.antt =====
-- schema/sqlgen.go: the list arguments of a field, and its page of the rows.
pub mod Bounds
use titanium_graph_api.Base.{
  ℕ, List, [], ◌∷◌, Text, Bool, true, false, Option, none, some, if◌then◌else◌, codes, lookup, leb,
  ltb, length, take, drop,
}
use titanium_graph_api.Base.Int.{ℤ, pos, negsuc, pos_part, ltb_ℤ}
use titanium_graph_api.Value.{Value, int, Values, Fields, entries, as_obj, as_arr, as_int}
use titanium_graph_api.Results.{
  Result, ok, err, ◌>>=◌, negative_limit, negative_offset, slice_bounds,
}
use titanium_graph_api.Config.{SchemaGen}

pub record ListArgs : Type 0 where
  pub where_arg : Option Fields
  pub order_by : Option Values
  pub limit : Option ℤ
  pub offset : Option ℤ

-- A missing argument and one of another type are both left out.
abbrev pub arg {ℓ} : {A : Type ℓ} → (Value → Option A) → Option Value → Option A
arg cast none = none
arg cast (some v) = cast v

unfoldable pub extract_list_args : Fields → ListArgs
extract_list_args args = record {
  where_arg = arg as_obj (lookup (codes "where") (entries args));
  order_by = arg as_arr (lookup (codes "order_by") (entries args));
  limit = arg as_int (lookup (codes "limit") (entries args));
  offset = arg as_int (lookup (codes "offset") (entries args));
}

abbrev pub or_else {ℓ} : {A : Type ℓ} → Option A → A → A
or_else none d = d
or_else (some a) d = a

abbrev pub clamp : ℤ → ℤ → ℤ
clamp n maximum = if ltb_ℤ maximum n then maximum else n

abbrev pub bounds_of : SchemaGen → ℤ → ℤ → Result (ℤ × ℤ)
bounds_of gen limit offset =
    if ltb_ℤ limit (pos 0)
    then err negative_limit
    else if ltb_ℤ offset (pos 0)
    then err negative_offset
    else ok (clamp limit gen.max_page_size, offset)

-- The effective limit and offset: the default, the maximum, and no negative number.
unfoldable pub page_bounds : SchemaGen → ListArgs → Result (ℤ × ℤ)
page_bounds gen la =
    bounds_of gen (or_else la.limit gen.default_page_size) (or_else la.offset (pos 0))

abbrev pub Clause : Type 0
Clause = Text × List Value

abbrev pub clause_of : ℤ × ℤ → Clause
clause_of (limit, offset) =
    if ltb_ℤ (pos 0) offset
    then (codes " LIMIT ? OFFSET ?", int limit ∷ int offset ∷ [])
    else (codes " LIMIT ?", int limit ∷ [])

unfoldable pub limit_clause : SchemaGen → ListArgs → Result Clause
limit_clause gen la = do bounds ← page_bounds gen la; ok (clause_of bounds)

module _ {ℓ} {A : Type ℓ} where
  -- `rows[:limit]` if there are more; a negative bound panics.
  abbrev pub slice_to : ℤ → List A → Result (List A)
  slice_to (pos n) rows = if ltb n (length rows) then ok (take n rows) else ok rows
  slice_to (negsuc n) rows = err slice_bounds

  -- `rows[offset:]`; `pageBounds` never returns a negative offset.
  abbrev pub slice_page : List A → ℤ × ℤ → Result (List A)
  slice_page rows (limit, pos o) =
      if leb (length rows) o then ok [] else slice_to limit (drop o rows)
  slice_page rows (limit, negsuc o) = err slice_bounds

  -- The page of a group of rows that was fetched whole.
  unfoldable pub apply_page : SchemaGen → List A → ListArgs → Result (List A)
  apply_page gen rows la = do bounds ← page_bounds gen la; slice_page rows bounds
