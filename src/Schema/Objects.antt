-- ===== src/Schema/Objects.antt =====
-- schema/builder.go: the fields of a table's object type, its columns and its relations.
pub mod FreeNames
pub mod Relations
pub mod Readable
mod Tests
use titanium_graph_api.Base.{
  ℕ, zero, suc, ◌-◌, List, [], ◌∷◌, ◌++◌, Text, Bool, true, false, not, ◌&&◌, Option, none, some,
  codes, join, map, length, lookup, insert, member, take, drop, text_eq, ltb, if◌then◌else◌,
}
use titanium_graph_api.Base.Int.{pos}
use titanium_graph_api.Base.Numbers.{show_int}
use titanium_graph_api.Naming.{graphql_name}
use titanium_graph_api.Catalog.{Column, ForeignKey, Table, is_some}
use titanium_graph_api.Rbac.Resolve.{OpAccess}
use titanium_graph_api.Schema.{TableInfo}
use titanium_graph_api.Schema.Scalars.{Scalar, json, scalar_for}
use titanium_graph_api.Schema.Loader.{columns_readable}
use titanium_graph_api.Schema.Queries.Keys.{key_name}

-- What stands behind a field of an object type.
pub data ObjectField : Type 0 where
  column_field : Column → Bool → ObjectField
  to_one : ForeignKey → Bool → ObjectField
  to_many : ForeignKey → Bool → ObjectField

abbrev pub ObjectFields : Type 0
ObjectFields = List (Text × ObjectField)

-- The name that the loop tries in its round `i`: the candidate, and then the candidate with a number.
unfoldable pub numbered : Text → ℕ → Text
numbered candidate zero = candidate
numbered candidate (suc i) = candidate ++ (codes "_" ++ show_int (pos (suc i)))

-- The loop has no end of its own; `fuel` rounds are enough where more names than `fuel` are tried
-- than are taken.
unfoldable pub first_free : ℕ → (Text → Bool) → Text → ℕ → Text
unfolding numbered
first_free zero taken candidate i = numbered candidate i
first_free (suc fuel) taken candidate i =
    let rest = first_free fuel taken candidate (suc i) in
    if taken (numbered candidate i) then rest else numbered candidate i

abbrev pub is_taken : ObjectFields → Text → Bool
is_taken fields name = is_some (lookup name fields)

abbrev pub by_columns : Text → ForeignKey → Text
by_columns candidate fk =
    candidate ++ (codes "_by_" ++ join (codes "_") (map graphql_name fk.columns))

unfoldable pub rel_field_name : ObjectFields → Text → ForeignKey → Text
unfolding first_free
rel_field_name fields candidate fk =
    if is_taken fields candidate
    then first_free (length fields) (is_taken fields) (by_columns candidate fk) 0
    else candidate

-- `strings.TrimSuffix(s, "_id")` for a text that is longer, and nothing where it has no such suffix.
abbrev pub without_id : Text → Option Text
without_id s =
    if text_eq (drop (length s - 3) s) (codes "_id") && ltb 3 (length s)
    then some (take (length s - 3) s)
    else none

abbrev pub named_after : Text → Option Text → Text
named_after ref_table none = graphql_name ref_table
named_after ref_table (some s) = graphql_name s

unfoldable pub outgoing_candidate : ForeignKey → List Text → Text
outgoing_candidate fk (c ∷ []) = named_after fk.ref_table (without_id c)
outgoing_candidate fk _ = graphql_name fk.ref_table

unfoldable pub all_in : List Text → List Text → Bool
all_in set [] = true
all_in set (c ∷ cs) = member c set && all_in set cs

abbrev pub is_json : Scalar → Bool
is_json json = true
is_json _ = false

-- A JSON column may hold the JSON null, so its field is always nullable.
unfoldable pub non_null : Column → Bool
non_null col = not col.nullable && not (is_json (scalar_for col))

unfoldable pub column_fields : TableInfo → List Column → ObjectFields → ObjectFields
unfolding non_null
column_fields ti [] fields = fields
column_fields ti (c ∷ cs) fields =
    column_fields ti cs (insert (key_name ti c.name) (column_field c (non_null c)) fields)

-- The role's views of the tables, by table name.
abbrev pub Infos : Type 0
Infos = List (Text × TableInfo)

abbrev pub is_selectable : Option TableInfo → Bool
is_selectable none = false
is_selectable (some ti) = is_some ti.access.select

-- Batched only where the grouping key is readable too.
abbrev pub is_batchable : Option TableInfo → List Text → Bool
is_batchable none cols = false
is_batchable (some ti) cols = columns_readable ti cols

module _ (infos : Infos) (sel : OpAccess) where
  unfoldable pub add_outgoing : List ForeignKey → ObjectFields → ObjectFields
  unfolding rel_field_name outgoing_candidate all_in
  add_outgoing [] fields = fields
  add_outgoing (fk ∷ fks) fields =
      let target = lookup fk.ref_table infos in
      let name = rel_field_name fields (outgoing_candidate fk fk.columns) fk in
      add_outgoing fks (
        if is_selectable target && all_in sel.column_set fk.columns
        then insert name (to_one fk (is_batchable target fk.ref_columns)) fields
        else fields)

  unfoldable pub add_incoming : List ForeignKey → ObjectFields → ObjectFields
  unfolding rel_field_name all_in
  add_incoming [] fields = fields
  add_incoming (fk ∷ fks) fields =
      let child = lookup fk.table infos in
      let name = rel_field_name fields (graphql_name fk.table) fk in
      add_incoming fks (
        if is_selectable child && all_in sel.column_set fk.ref_columns
        then insert name (to_many fk (is_batchable child fk.columns)) fields
        else fields)

  -- buildObjectType with addRelationFields.
  unfoldable pub object_fields : TableInfo → ObjectFields
  unfolding column_fields add_outgoing add_incoming
  object_fields ti =
      add_incoming ti.table.incoming_fks
        (add_outgoing ti.table.foreign_keys (column_fields ti sel.columns []))
