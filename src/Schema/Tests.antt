-- ===== src/Schema/Tests.antt =====
-- A sample table and filters on it.
use titanium_graph_api.Base.{
  ◌≡◌, refl, [], ◌∷◌, Text, codes, some, none, false, All, lookup, insert, text_eq, text_lt, join,
  member, has_prefix,
}
use titanium_graph_api.Value.{str, arr, cons, nil, obj, Fields, field, end}
use titanium_graph_api.Results.{ok, err, unknown_filter_column}
use titanium_graph_api.Catalog.{Column, Table}
use titanium_graph_api.Rbac.Resolve.{OpAccess, TableAccess}
use titanium_graph_api.Naming.{graphql_name, sanitize_byte, lead, strip}
use titanium_graph_api.Sql.{Condition, quote_ident, placeholders}
use titanium_graph_api.Schema.{TableInfo, table_info, readable_column}
use titanium_graph_api.Schema.Scalars.{Marshal, scalar_for, bind_value}
use titanium_graph_api.Schema.Sorting.{sort_entries}
use titanium_graph_api.Schema.Columns.{column_cond, binary_ops, binary_cond, special_cond, bind_all}
use titanium_graph_api.Schema.Where.{
  where_sql, where_entry, finish_where, operators, is_list_key, plain_entry,
}
use titanium_graph_api.Schema.Where.Access.{
  IsReadable, named_fields, where_sql-IsReadable, named_in,
}

run : Unit {0}
unfolding lookup insert text_eq text_lt join member has_prefix graphql_name sanitize_byte lead strip
    quote_ident placeholders table_info readable_column scalar_for bind_value sort_entries
    column_cond binary_ops binary_cond special_cond bind_all where_sql where_entry finish_where
    operators is_list_key plain_entry named_in
run = tt

abbrev column : Text → Column
column name = record {
  name = name;
  ordinal = 0;
  data_type = codes "int";
  column_type = codes "int(11)";
  nullable = false;
  is_primary = false;
  auto_increment = false;
  has_default = false;
  generated = false;
}

abbrev posts : Table
posts = record {
  name = codes "posts";
  columns = column (codes "id") ∷ column (codes "body") ∷ column (codes "secret") ∷ [];
  column_map =
      (codes "id", column (codes "id"))
      ∷ (codes "body", column (codes "body"))
      ∷ (codes "secret", column (codes "secret"))
      ∷ [];
  primary_key = codes "id" ∷ [];
  foreign_keys = [];
  incoming_fks = [];
}

abbrev reading : OpAccess
reading = record {
  columns = column (codes "id") ∷ column (codes "body") ∷ [];
  column_set = codes "id" ∷ codes "body" ∷ [];
  filter = none;
  presets = [];
}

abbrev access : TableAccess
access = record { select = some reading; insert = none; update = none; delete = none }

abbrev info : TableInfo
info = table_info posts access

abbrev no_json : Marshal
no_json v = none

-- {"body": {"_in": ["a", "b"]}, "_not": {"id": {"_eq": "1"}}}
abbrev filter : Fields
filter =
    field (codes "body")
      (obj (field (codes "_in") (arr (cons (str (codes "a")) (cons (str (codes "b")) nil))) end))
      (field (codes "_not")
        (obj (field (codes "id") (obj (field (codes "_eq") (str (codes "1")) end)) end)) end)

abbrev translated : Condition
translated = record {
  sql = codes "NOT (`id` = ?) AND `body` IN (?, ?)";
  args = str (codes "1") ∷ str (codes "a") ∷ str (codes "b") ∷ [];
}

translates : where_sql no_json info filter ≡ ok translated
unfolding run
translates = refl

hidden :
    where_sql no_json info (field (codes "secret") (obj end) end)
    ≡ err (unknown_filter_column (codes "secret"))
unfolding run
hidden = refl

where_sql-IsReadable_example : All (IsReadable info) (named_fields filter)
where_sql-IsReadable_example = where_sql-IsReadable no_json info filter translates
