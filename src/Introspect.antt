-- ===== src/Introspect.antt =====
-- introspect/introspect.go: how Load fills the catalog from the rows of information_schema.
pub mod Columns
pub mod Keys
pub mod Fresh
pub mod Exposed
mod Tests
use titanium_graph_api.Base.{
  ℕ, List, [], ◌∷◌, ◌++◌, Text, Bool, true, false, ◌&&◌, ◌||◌, not, Option, none, some, codes,
  length, lookup, insert, member, if◌then◌else◌,
}
use titanium_graph_api.Base.Spaces.{to_lower, equal_fold}
use titanium_graph_api.Results.{Result, ok, err, ◌>>=◌, ◌>>◌, guard, no_tables, nil_table}
use titanium_graph_api.Config.{is_nil}
use titanium_graph_api.Schema.Scalars.{contains}
use titanium_graph_api.Schema.Sorting.{sort_entries}
use titanium_graph_api.Catalog.{Column, ForeignKey, Table, Catalog, is_some}

-- A row of information_schema.columns.
pub record ColumnRow : Type 0 where
  pub column_name : Text
  pub data_type : Text
  pub column_type : Text
  pub is_nullable : Text
  pub column_key : Text
  pub extra : Text
  pub has_default : Bool

-- A row of information_schema.key_column_usage.
pub record KeyRow : Type 0 where
  pub constraint : Text
  pub table : Text
  pub column : Text
  pub ref_table : Text
  pub ref_column : Text

-- The rows of the three queries, with all columns scanned, or the error that ends a query.
pub record Information : Type 0 where
  pub table_names : Text → Result (List Text)
  pub columns_of : Text → Text → Result (List ColumnRow)
  pub keys_of : Text → Result (List KeyRow)

unfoldable pub column_of : ℕ → ColumnRow → Column
column_of ordinal row =
    let extra = to_lower row.extra in
    let auto = contains (codes "auto_increment") extra in
    let generated =
      contains (codes "stored generated") extra || contains (codes "virtual generated") extra in
    record {
      name = row.column_name;
      ordinal = ordinal;
      data_type = to_lower row.data_type;
      column_type = to_lower row.column_type;
      nullable = equal_fold row.is_nullable (codes "YES");
      is_primary = equal_fold row.column_key (codes "PRI");
      auto_increment = auto;
      has_default =
          row.has_default || auto || generated || contains (codes "default_generated") extra;
      generated = generated;
    }

unfoldable pub add_column : Table → Column → Table
add_column t c = record t {
  columns = t.columns ++ c ∷ [];
  column_map = insert c.name c t.column_map;
  primary_key = if c.is_primary then t.primary_key ++ c.name ∷ [] else t.primary_key;
}

unfoldable pub add_columns : List ColumnRow → Table → Table
unfolding column_of add_column
add_columns [] t = t
add_columns (row ∷ rows) t = add_columns rows (add_column t (column_of (length t.columns) row))

unfoldable pub load_columns : Information → Text → Table → Result Table
unfolding add_columns
load_columns info schema t = do rows ← info.columns_of schema t.name; ok (add_columns rows t)

abbrev pub new_table : Text → Table
new_table name = record {
  name = name;
  columns = [];
  column_map = [];
  primary_key = [];
  foreign_keys = [];
  incoming_fks = [];
}

abbrev pub Tables : Type 0
Tables = List (Text × Table)

-- An empty include list means every table; excluding wins over including.
unfoldable pub is_exposed : List Text → List Text → Text → Bool
is_exposed include exclude name =
    not (member name exclude) && (is_nil include || member name include)

unfoldable pub exposed : List Text → List Text → List Text → List Text
unfolding is_exposed
exposed include exclude [] = []
exposed include exclude (name ∷ names) =
    let rest = exposed include exclude names in
    if is_exposed include exclude name then name ∷ rest else rest

unfoldable pub new_tables : List Text → Tables → Tables
new_tables [] tables = tables
new_tables (name ∷ names) tables = new_tables names (insert name (new_table name) tables)

abbrev pub at_table : {A : Type 0} → Option Table → (Table → Result A) → Result A
at_table none next = err nil_table
at_table (some t) next = next t

-- The tables are pointers in a map: loading the columns of one changes it in place.
unfoldable pub load_all_columns : Information → Text → List Text → Tables → Result Tables
unfolding load_columns
load_all_columns info schema [] tables = ok tables
load_all_columns info schema (name ∷ names) tables = do
  t ← at_table (lookup name tables) (load_columns info schema)
  load_all_columns info schema names (insert name t tables)

abbrev pub new_key : KeyRow → ForeignKey
new_key row = record {
  constraint_name = row.constraint;
  table = row.table;
  columns = [];
  ref_table = row.ref_table;
  ref_columns = [];
}

abbrev pub key_so_far : KeyRow → Option ForeignKey → ForeignKey
key_so_far row none = new_key row
key_so_far row (some fk) = fk

abbrev pub with_pair : KeyRow → ForeignKey → ForeignKey
with_pair row fk = record fk {
  columns = fk.columns ++ row.column ∷ [];
  ref_columns = fk.ref_columns ++ row.ref_column ∷ [];
}

unfoldable pub constraint_key : KeyRow → Text
constraint_key row = row.table ++ (0 ∷ row.constraint)

abbrev pub Constraints : Type 0
Constraints = List (Text × ForeignKey)

unfoldable pub add_key_row : KeyRow → Constraints → Constraints
unfolding constraint_key
add_key_row row by_constraint =
    insert (constraint_key row)
      (with_pair row (key_so_far row (lookup (constraint_key row) by_constraint))) by_constraint

-- Only the rows between two exposed tables count.
unfoldable pub group_keys : Tables → List KeyRow → Constraints → Constraints
unfolding add_key_row
group_keys tables [] by_constraint = by_constraint
group_keys tables (row ∷ rows) by_constraint = group_keys tables rows (
    if is_some (lookup row.table tables) && is_some (lookup row.ref_table tables)
    then add_key_row row by_constraint
    else by_constraint)

abbrev pub outgoing : ForeignKey → Table → Table
outgoing fk t = record t { foreign_keys = t.foreign_keys ++ fk ∷ [] }

abbrev pub incoming : ForeignKey → Table → Table
incoming fk t = record t { incoming_fks = t.incoming_fks ++ fk ∷ [] }

-- A table that is not in the map is a nil pointer.
abbrev pub change : Text → (Table → Table) → Tables → Option Table → Result Tables
change name f tables none = err nil_table
change name f tables (some t) = ok (insert name (f t) tables)

unfoldable pub attach : ForeignKey → Tables → Result Tables
attach fk tables = do
  tables1 ← change fk.table (outgoing fk) tables (lookup fk.table tables)
  change fk.ref_table (incoming fk) tables1 (lookup fk.ref_table tables1)

unfoldable pub attach_all : Constraints → Tables → Result Tables
unfolding attach
attach_all [] tables = ok tables
attach_all ((key, fk) ∷ fks) tables = do tables1 ← attach fk tables; attach_all fks tables1

-- The constraints in the order of their keys.
unfoldable pub load_foreign_keys : Information → Text → Tables → Result Tables
unfolding group_keys attach_all
load_foreign_keys info schema tables = do
  rows ← info.keys_of schema
  attach_all (sort_entries (group_keys tables rows [])) tables

unfoldable pub load : Information → Text → List Text → List Text → Result Catalog
unfolding exposed new_tables load_all_columns load_foreign_keys
load info schema include exclude = do
  names ← info.table_names schema
  let order = exposed include exclude names
  guard (not (is_nil order)) no_tables
  with_columns ← load_all_columns info schema order (new_tables order [])
  tables ← load_foreign_keys info schema with_columns
  ok (record { schema_name = schema; tables = tables; table_order = order })

-- The set of the column names of a table, exposed or not.
unfoldable pub column_names : List ColumnRow → List Text
column_names [] = []
column_names (row ∷ rows) = row.column_name ∷ column_names rows

unfoldable pub table_columns : Information → Text → Text → Result (List Text)
unfolding column_names
table_columns info schema name = do rows ← info.columns_of schema name; ok (column_names rows)
