-- ===== src/Schema/Objects/Tests.antt =====
-- Names of relations where the names that they should have are taken.
use titanium_graph_api.Base.{
  ◌≡◌, refl, arith, List, [], ◌∷◌, Text, codes, true, join, map, lookup, insert, member, text_eq,
}
use titanium_graph_api.Base.Numbers.{show_int, digits_before}
use titanium_graph_api.Naming.{graphql_name, sanitize_byte, lead, strip}
use titanium_graph_api.Catalog.{ForeignKey}
use titanium_graph_api.Schema.{TableInfo, table_info}
use titanium_graph_api.Schema.Scalars.{scalar_for, contains}
use titanium_graph_api.Schema.Loader.{columns_readable}
use titanium_graph_api.Schema.Queries.Samples.{id, owner, posts, reading, info}
use titanium_graph_api.Schema.Objects.{
  column_field, ObjectFields, numbered, first_free, rel_field_name, outgoing_candidate, all_in,
  non_null, column_fields, add_outgoing, add_incoming, object_fields,
}
use titanium_graph_api.Schema.Objects.FreeNames.{IsFreeName, rel_field_name-IsFreeName}

run : Unit {0}
unfolding join lookup insert member text_eq show_int digits_before graphql_name sanitize_byte lead
    strip table_info scalar_for contains columns_readable numbered first_free rel_field_name
    outgoing_candidate all_in non_null column_fields add_outgoing add_incoming object_fields
run = tt

-- A post refers to another post by its owner.
abbrev by_owner : ForeignKey
by_owner = record {
  constraint_name = codes "fk";
  table = codes "posts";
  columns = codes "owner" ∷ [];
  ref_table = codes "posts";
  ref_columns = codes "id" ∷ [];
}

abbrev names_in : ObjectFields → List Text
names_in fields = map (λ e. e.0) fields

abbrev taken_twice : ObjectFields
taken_twice =
    (codes "posts", column_field id true) ∷ (codes "posts_by_owner", column_field owner true) ∷ []

third_name : rel_field_name taken_twice (codes "posts") by_owner ≡ codes "posts_by_owner_1"
unfolding run
third_name = refl

trimmed : outgoing_candidate by_owner (codes "author_id" ∷ []) ≡ codes "author"
unfolding run
trimmed = refl

rel_field_name-IsFreeName_example :
    IsFreeName taken_twice
      (codes "posts")
      by_owner
      (rel_field_name taken_twice (codes "posts") by_owner)
rel_field_name-IsFreeName_example =
    rel_field_name-IsFreeName taken_twice (codes "posts") by_owner (omega arith)

abbrev linked : TableInfo
linked = record info {
  table = record posts { foreign_keys = by_owner ∷ []; incoming_fks = by_owner ∷ [] };
}

both_ends :
    names_in (object_fields ((codes "posts", linked) ∷ []) reading linked)
    ≡ codes "id" ∷ codes "owner" ∷ codes "posts" ∷ codes "posts_by_owner" ∷ []
unfolding run
both_ends = refl
