-- ===== src/Schema/Mutations.antt =====
-- schema/sqlgen.go: the column values that an insert or an update writes.
pub mod Written
use titanium_graph_api.Base.{
  ℕ, List, [], ◌∷◌, ◌++◌, Text, Bool, true, false, ◌&&◌, ◌||◌, not, Option, none, some,
  if◌then◌else◌, codes, join, map, lookup, insert, member, text_eq,
}
use titanium_graph_api.Value.{Value, Fields, end, field}
use titanium_graph_api.Results.{Result, ok, err, ◌>>=◌, not_writable, empty_set}
use titanium_graph_api.Catalog.{Column}
use titanium_graph_api.Rbac.Resolve.{Preset, preset_value, OpAccess}
use titanium_graph_api.Sql.{Condition, quote_ident, comma}
use titanium_graph_api.Schema.{TableInfo}
use titanium_graph_api.Schema.Scalars.{Marshal, bind_value}
use titanium_graph_api.Schema.Queries.Keys.{equals}

-- Values by column name.
abbrev pub ByCol : Type 0
ByCol = List (Text × Value)

unfoldable pub is_preset : Text → List Preset → Bool
is_preset name [] = false
is_preset name (p ∷ ps) = text_eq p.column.name name || is_preset name ps

-- The grant covers the column, no preset forces it, and the database does not generate it.
unfoldable pub is_writable : OpAccess → Column → Bool
unfolding is_preset
is_writable oa col =
    member col.name oa.column_set && not (is_preset col.name oa.presets) && not col.generated

abbrev pub write_to : Marshal → OpAccess → Text → Value → ByCol → Option Column → Result ByCol
write_to marshal oa name v m none = err (not_writable name)
write_to marshal oa name v m (some col) =
    if is_writable oa col
    then (bind_value marshal col v >>= λ bound. ok (insert col.name bound m))
    else err (not_writable name)

-- The loop over the fields that the client gave.
unfoldable pub client_values : Marshal → TableInfo → OpAccess → Fields → ByCol → Result ByCol
client_values marshal ti oa end m = ok m
client_values marshal ti oa (field name v fs) m = do
  m' ← write_to marshal oa name v m (lookup name ti.field_to_col)
  client_values marshal ti oa fs m'

-- The loop over the presets, which overwrite.
unfoldable pub preset_values : List Preset → Fields → ByCol → Result ByCol
preset_values [] claims m = ok m
preset_values (p ∷ ps) claims m = do
  v ← preset_value p claims
  preset_values ps claims (insert p.column.name v m)

unfoldable pub written_values : Marshal → TableInfo → OpAccess → Fields → Fields → Result ByCol
unfolding client_values preset_values
written_values marshal ti oa obj claims = do
  m ← client_values marshal ti oa obj []
  preset_values oa.presets claims m

abbrev pub with_value : Column → Option Value → List (Column × Value) → List (Column × Value)
with_value c none rest = rest
with_value c (some v) rest = (c, v) ∷ rest

-- The columns that have a value, in the order of the table.
unfoldable pub in_table_order : List Column → ByCol → List (Column × Value)
in_table_order [] m = []
in_table_order (c ∷ cs) m = with_value c (lookup c.name m) (in_table_order cs m)

unfoldable pub merged_row_values :
    Marshal → TableInfo → OpAccess → Fields → Fields → Result (List (Column × Value))
unfolding written_values in_table_order
merged_row_values marshal ti oa obj claims = do
  m ← written_values marshal ti oa obj claims
  ok (in_table_order ti.table.columns m)

abbrev pub assignments : List (Column × Value) → Condition
assignments pairs = record { sql = join comma (map equals pairs); args = map (λ p. p.1) pairs }

abbrev pub set_of : TableInfo → ByCol → Result (Condition × ByCol)
set_of ti [] = err empty_set
set_of ti (e ∷ m) = ok (assignments (in_table_order ti.table.columns (e ∷ m)), e ∷ m)

-- The SET part of an update with its arguments, and the values by column for the hooks.
unfoldable pub set_clause :
    Marshal → TableInfo → OpAccess → Fields → Fields → Result (Condition × ByCol)
unfolding written_values in_table_order
set_clause marshal ti oa set claims = do m ← written_values marshal ti oa set claims; set_of ti m
