-- ===== src/Schema.antt =====
-- schema/: the per-role view of one table, and the values that its SQL is built from.
pub mod Scalars
pub mod Sorting
pub mod Columns
pub mod Where
pub mod Loader
pub mod Paging
pub mod Order
pub mod Queries
pub mod Mutations
pub mod Hooks
pub mod Plans
pub mod Selections
pub mod Aggregates
pub mod Nearest
pub mod Cursors
pub mod Connections
pub mod Objects
pub mod Transactions
mod Tests
use titanium_graph_api.Base.{
  ℕ, List, [], ◌∷◌, Text, Bool, true, false, Option, none, some, lookup, insert, member,
}
use titanium_graph_api.Naming.{graphql_name}
use titanium_graph_api.Catalog.{Column, Table}
use titanium_graph_api.Rbac.Resolve.{OpAccess, TableAccess}

pub record TableInfo : Type 0 where
  pub table : Table
  pub access : TableAccess
  pub type_name : Text
  pub field_to_col : List (Text × Column)
  pub col_to_field : List (Text × Text)

-- `for _, c := range t.Columns { ti.fieldToCol[f] = c; ti.colToField[c.Name] = f }`
unfoldable pub fields_of : List Column → List (Text × Column) → List (Text × Column)
fields_of [] m = m
fields_of (c ∷ cs) m = fields_of cs (insert (graphql_name c.name) c m)

unfoldable pub names_for : List Column → List (Text × Text) → List (Text × Text)
names_for [] m = m
names_for (c ∷ cs) m = names_for cs (insert c.name (graphql_name c.name) m)

unfoldable pub table_info : Table → TableAccess → TableInfo
unfolding fields_of names_for
table_info t access = record {
  table = t;
  access = access;
  type_name = graphql_name t.name;
  field_to_col = fields_of t.columns [];
  col_to_field = names_for t.columns [];
}

abbrev pub in_set : Option OpAccess → Text → Bool
in_set none name = false
in_set (some oa) name = member name oa.column_set

-- The column behind a GraphQL field, if the role may read it.
abbrev pub readable_col : Option OpAccess → Option Column → Option Column
readable_col select none = none
readable_col none (some col) = none
readable_col (some sel) (some col) = elim (member col.name sel.column_set) [
  | true ↦ some col
  | false ↦ none
]

unfoldable pub readable_column : TableInfo → Text → Option Column
readable_column ti field = readable_col ti.access.select (lookup field ti.field_to_col)
