-- ===== src/Introspect/Tests.antt =====
-- A schema with a foreign key, and the theorem at it.
use titanium_graph_api.Base.{
  ◌≡◌, refl, List, [], ◌∷◌, Text, codes, true, false, Bool, lookup, insert, member, text_eq,
  text_lt, has_prefix,
}
use titanium_graph_api.Base.Spaces.{fold_from, equal_fold}
use titanium_graph_api.Results.{Result, ok, err, ◌>>=◌, no_tables}
use titanium_graph_api.Schema.Scalars.{contains}
use titanium_graph_api.Schema.Sorting.{sort_entries, insert_entry}
use titanium_graph_api.Catalog.{ForeignKey}
use titanium_graph_api.Introspect.{
  ColumnRow, Information, column_of, add_column, add_columns, load_columns, is_exposed, exposed,
  new_tables, load_all_columns, constraint_key, add_key_row, group_keys, attach, attach_all,
  load_foreign_keys, load, column_names, table_columns,
}

run : Unit {0}
unfolding lookup insert member text_eq text_lt has_prefix fold_from equal_fold contains sort_entries
    insert_entry column_of add_column add_columns load_columns is_exposed exposed new_tables
    load_all_columns constraint_key add_key_row group_keys attach attach_all load_foreign_keys load
    column_names table_columns
run = tt

abbrev int_row : Text → Text → Text → ColumnRow
int_row name key extra = record {
  column_name = name;
  data_type = codes "BIGINT";
  column_type = codes "bigint(20) UNSIGNED";
  is_nullable = codes "NO";
  column_key = key;
  extra = extra;
  has_default = false;
}

abbrev rows_of : Bool → Result (List ColumnRow)
rows_of true = ok (
    int_row (codes "id") (codes "PRI") (codes "AUTO_INCREMENT")
    ∷ int_row (codes "author_id") [] []
    ∷ [])
rows_of false = ok (int_row (codes "id") (codes "PRI") [] ∷ [])

abbrev information : Information
information = record {
  table_names = λ schema. ok (codes "authors" ∷ codes "logs" ∷ codes "posts" ∷ []);
  columns_of = λ schema name. rows_of (text_eq name (codes "posts"));
  keys_of = λ schema. ok (
      record {
        constraint = codes "fk_author";
        table = codes "posts";
        column = codes "author_id";
        ref_table = codes "authors";
        ref_column = codes "id";
      }
      ∷ record {
        constraint = codes "fk_log";
        table = codes "posts";
        column = codes "id";
        ref_table = codes "logs";
        ref_column = codes "id";
      }
      ∷ []);
}

abbrev fk_author : ForeignKey
fk_author = record {
  constraint_name = codes "fk_author";
  table = codes "posts";
  columns = codes "author_id" ∷ [];
  ref_table = codes "authors";
  ref_columns = codes "id" ∷ [];
}

order_test :
    (load information (codes "blog") [] (codes "logs" ∷ []) >>= λ cat. ok cat.table_order)
    ≡ ok (codes "authors" ∷ codes "posts" ∷ [])
unfolding run
order_test = refl

none_test : load information (codes "blog") (codes "users" ∷ []) [] ≡ err no_tables
unfolding run
none_test = refl

columns_test : table_columns information (codes "blog") (codes "authors") ≡ ok (codes "id" ∷ [])
unfolding run
columns_test = refl
