-- ===== src/Collisions/Tests.antt =====
-- Catalogs with names that clash, and one without.
use titanium_graph_api.Base.{
  ◌≡◌, refl, List, [], ◌∷◌, Text, codes, lookup, member, text_eq, has_prefix, join, map,
}
use titanium_graph_api.Naming.{graphql_name, sanitize_byte, lead, strip}
use titanium_graph_api.Results.{err, name_collision, generated_collision}
use titanium_graph_api.Catalog.{Table, Catalog}
use titanium_graph_api.Collisions.{
  see_columns, see_tables, claim, claim_all, nearest_fields, query_of, mut_of, type_of,
  claim_tables, check_name_collisions,
}

run : Unit {0}
unfolding lookup member text_eq has_prefix join graphql_name sanitize_byte lead strip see_columns
    see_tables claim claim_all nearest_fields query_of mut_of type_of claim_tables
    check_name_collisions
run = tt

abbrev table : Text → Text × Table
table name = (
  name,
  record {
    name = name;
    columns = [];
    column_map = [];
    primary_key = [];
    foreign_keys = [];
    incoming_fks = [];
  },
)

abbrev catalog : List Text → Catalog
catalog names = record {
  schema_name = codes "appdb";
  tables = map table names;
  table_order = names;
}

base_names :
    check_name_collisions (catalog (codes "user-events" ∷ codes "user_events" ∷ []))
    ≡ err (name_collision (codes "user-events") (codes "user_events"))
unfolding run
base_names = refl

connection :
    check_name_collisions (catalog (codes "users" ∷ codes "users_connection" ∷ []))
    ≡ err (generated_collision (codes "users_connection") (codes "users_connection"))
unfolding run
connection = refl
