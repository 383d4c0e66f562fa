-- ===== src/Schema/Connections.antt =====
-- schema/builder.go: addConnectionField, the resolver of a keyset-paginated connection.
pub mod Pages
pub mod Walk
mod Tests
use titanium_graph_api.Base.{
  ℕ, zero, suc, ◌-◌, List, [], ◌∷◌, Text, Bool, true, false, Option, none, some, codes, length,
  lookup, take, if◌then◌else◌,
}
use titanium_graph_api.Base.Int.{ℤ, pos, negsuc, ltb_ℤ}
use titanium_graph_api.Value.{Value, null, Fields, entries, as_obj, as_str, as_int}
use titanium_graph_api.Results.{Error, Result, ok, err, ◌>>=◌, slice_bounds}
use titanium_graph_api.Catalog.{Table}
use titanium_graph_api.Config.{SchemaGen}
use titanium_graph_api.Rbac.Resolve.{OpAccess}
use titanium_graph_api.Sql.{Condition}
use titanium_graph_api.Schema.{TableInfo}
use titanium_graph_api.Schema.Scalars.{Marshal}
use titanium_graph_api.Schema.Scalars.Formats.{Formats}
use titanium_graph_api.Schema.Scalars.Convert.{Row}
use titanium_graph_api.Schema.Paging.{arg}
use titanium_graph_api.Schema.Queries.{run_keyset_page}
use titanium_graph_api.Schema.Queries.Keys.{keyset_condition}
use titanium_graph_api.Schema.Nearest.{first_of}
use titanium_graph_api.Schema.Cursors.{
  Codec, encode_cursor, decode_cursor, cursor_shape, stringify_key,
}

-- What the connection's fields read; the count is asked for separately.
pub record Page : Type 0 where
  pub nodes : List Row
  pub has_next_page : Bool
  pub end_cursor : Option Text

abbrev pub plus_one : ℤ → ℤ
plus_one (pos n) = pos (suc n)
plus_one (negsuc zero) = pos 0
plus_one (negsuc (suc n)) = negsuc n

-- `rows[:first]`, where there are more rows; a negative bound panics.
abbrev pub cut_to : ℤ → List Row → Result (List Row)
cut_to (pos n) rows = ok (take n rows)
cut_to (negsuc n) rows = err slice_bounds

-- A key that the row does not have is nil.
abbrev pub cell_or_null : Option Value → Value
cell_or_null none = null
cell_or_null (some v) = v

abbrev pub condition_behind : List Text → Option (List Text) → Option Condition
condition_behind primary_key none = none
condition_behind primary_key (some keys) = some (keyset_condition primary_key keys)

module _ (codec : Codec) (fmt : Formats) where
  unfoldable pub keys_of : List Text → Row → List Text
  keys_of [] row = []
  keys_of (pk ∷ pks) row = stringify_key codec fmt (cell_or_null (lookup pk row)) ∷ keys_of pks row

  -- The cursor of the last row.
  unfoldable pub end_cursor_of : List Text → Text → List Row → Option Text
  unfolding keys_of
  end_cursor_of primary_key shape [] = none
  end_cursor_of primary_key shape (row ∷ []) =
      some (encode_cursor codec (keys_of primary_key row) shape)
  end_cursor_of primary_key shape (row ∷ next ∷ rows) =
      end_cursor_of primary_key shape (next ∷ rows)

  abbrev pub page_from : List Text → Text → Bool → List Row → Page
  page_from primary_key shape has_next [] = record {
    nodes = [];
    has_next_page = false;
    end_cursor = none;
  }
  page_from primary_key shape has_next (row ∷ rows) = record {
    nodes = row ∷ rows;
    has_next_page = has_next;
    end_cursor = end_cursor_of primary_key shape (row ∷ rows);
  }

  -- One row more than the page was fetched. An empty page has no next one.
  unfoldable pub page_of : List Text → Text → ℤ → List Row → Result Page
  unfolding end_cursor_of
  page_of primary_key shape first rows =
      if ltb_ℤ first (pos (length rows))
      then (do nodes ← cut_to first rows; ok (page_from primary_key shape true nodes))
      else ok (page_from primary_key shape false rows)

  -- The keys behind which the page starts; an absent or empty cursor starts at the first row.
  unfoldable pub after_keys : List Text → Text → Option Text → Result (Option (List Text))
  after_keys primary_key shape none = ok none
  after_keys primary_key shape (some []) = ok none
  after_keys primary_key shape (some (c ∷ s)) = do
    keys ← decode_cursor codec (c ∷ s) shape (length primary_key)
    ok (some keys)

  module _ (marshal : Marshal) (schema_name : Text) (ti : TableInfo) (claims : Fields) where
    -- `fetch` runs the query and scans its rows.
    unfoldable pub connection : SchemaGen → (Condition → Result (List Row)) → Fields → Result Page
    unfolding after_keys page_of first_of
    connection gen fetch args = do
      let user_where = arg as_obj (lookup (codes "where") (entries args))
      first ← first_of gen (arg as_int (lookup (codes "first") (entries args)))
      let shape = cursor_shape codec ti.table.name user_where
      keys ←
          after_keys ti.table.primary_key shape (arg as_str (lookup (codes "after") (entries args)))
      q ←
          run_keyset_page marshal schema_name ti claims user_where
            (condition_behind ti.table.primary_key keys) (plus_one first)
      rows ← fetch q
      page_of ti.table.primary_key shape first rows
