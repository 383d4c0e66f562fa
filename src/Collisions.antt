-- ===== src/Collisions.antt =====
-- schema/builder.go: checkNameCollisions, which refuses catalogs whose generated names clash.
pub mod Distinct
mod Tests
use titanium_graph_api.Base.{
  List, [], ◌∷◌, ◌++◌, Text, Bool, true, false, Option, none, some, codes, map, lookup, insert,
  text_eq, if◌then◌else◌,
}
use titanium_graph_api.Naming.{graphql_name}
use titanium_graph_api.Results.{
  Result, ok, err, ◌>>=◌, ◌>>◌, name_collision, column_collision, generated_collision,
}
use titanium_graph_api.Catalog.{Column, Table, Catalog}

-- A name with what it belongs to.
abbrev pub Owners : Type 0
Owners = List (Text × Text)

abbrev pub see : (Text → Result Owners) → Text → Text → Owners → Option Text → Result Owners
see clash name owner seen none = ok ((name, owner) ∷ seen)
see clash name owner seen (some other) = clash other

-- No two columns of a table have the same GraphQL name.
unfoldable pub see_columns : List Column → Owners → Result Owners
see_columns [] seen = ok seen
see_columns (c ∷ cs) seen = do
  let name = graphql_name c.name
  seen' ← see (λ other. err (column_collision other c.name)) name c.name seen (lookup name seen)
  see_columns cs seen'

abbrev pub columns_of : Option Table → List Column
columns_of none = []
columns_of (some t) = t.columns

-- Nor do two tables; `tables` holds every table of `table_order`.
unfoldable pub see_tables : Catalog → List Text → Owners → Result Owners
unfolding see_columns
see_tables cat [] seen = ok seen
see_tables cat (tn ∷ tns) seen = do
  let name = graphql_name tn
  seen' ← see (λ other. err (name_collision other tn)) name tn seen (lookup name seen)
  cols ← see_columns (columns_of (lookup tn cat.tables)) []
  see_tables cat tns seen'

unfoldable pub claim : Owners → Text → Text → Result Owners
claim ns name owner =
    see (λ other. err (generated_collision name owner)) name (codes "table " ++ owner) ns
      (lookup name ns)

unfoldable pub claim_all : List Text → Text → Owners → Result Owners
unfolding claim
claim_all [] owner ns = ok ns
claim_all (name ∷ names) owner ns = do ns' ← claim ns name owner; claim_all names owner ns'

unfoldable pub nearest_fields : Text → List Column → List Text
nearest_fields n [] = []
nearest_fields n (c ∷ cs) =
    let rest = nearest_fields n cs in
    if text_eq c.data_type (codes "vector")
    then (n ++ (codes "_nearest_by_" ++ graphql_name c.name)) ∷ rest
    else rest

abbrev pub with_suffixes : Text → List Text → List Text
with_suffixes n suffixes = map (λ s. n ++ s) suffixes

unfoldable pub query_of : Catalog → Text → List Text
unfolding nearest_fields
query_of cat tn =
    with_suffixes (graphql_name tn) (codes "_by_pk" ∷ codes "_connection" ∷ codes "_aggregate" ∷ [])
    ++ nearest_fields (graphql_name tn) (columns_of (lookup tn cat.tables))

unfoldable pub mut_of : Text → List Text
mut_of tn =
    let n = graphql_name tn in
    (codes "insert_" ++ n)
    ∷ (codes "insert_" ++ (n ++ codes "_one"))
    ∷ (codes "update_" ++ n)
    ∷ (codes "update_" ++ (n ++ codes "_by_pk"))
    ∷ (codes "delete_" ++ n)
    ∷ (codes "delete_" ++ (n ++ codes "_by_pk"))
    ∷ []

unfoldable pub type_of : Text → List Text
type_of tn = with_suffixes (graphql_name tn) (
    []
    ∷ codes "_bool_exp"
    ∷ codes "_order_by"
    ∷ codes "_insert_input"
    ∷ codes "_set_input"
    ∷ codes "_connection"
    ∷ codes "_aggregate_result"
    ∷ codes "_sum_fields"
    ∷ codes "_avg_fields"
    ∷ codes "_min_fields"
    ∷ codes "_max_fields"
    ∷ codes "_neighbor"
    ∷ [])

-- The three namespaces of a schema.
pub record Namespaces : Type 0 where
  pub query_fields : Owners
  pub mutation_fields : Owners
  pub types : Owners

unfoldable pub claim_tables : Catalog → List Text → Namespaces → Result Namespaces
unfolding claim_all query_of mut_of type_of
claim_tables cat [] spaces = ok spaces
claim_tables cat (tn ∷ tns) spaces = do
  q ← claim_all (query_of cat tn) tn spaces.query_fields
  m ← claim_all (mut_of tn) tn spaces.mutation_fields
  t ← claim_all (type_of tn) tn spaces.types
  claim_tables cat tns (record { query_fields = q; mutation_fields = m; types = t })

abbrev pub built_in : List Text → Owners
built_in names = map (λ n. (n, codes "(built-in)")) names

abbrev pub fixed_types : List Text
fixed_types =
    codes "Query"
    ∷ codes "Mutation"
    ∷ codes "order_by"
    ∷ codes "mutation_response"
    ∷ codes "page_info"
    ∷ codes "vector_metric"
    ∷ []

abbrev pub scalar_type_names : List Text
scalar_type_names =
    codes "String"
    ∷ codes "Int"
    ∷ codes "Float"
    ∷ codes "Boolean"
    ∷ codes "ID"
    ∷ codes "BigInt"
    ∷ codes "Decimal"
    ∷ codes "DateTime"
    ∷ codes "Date"
    ∷ codes "JSON"
    ∷ codes "Bytes"
    ∷ codes "Vector"
    ∷ []

abbrev pub start_spaces : Namespaces
start_spaces = record {
  query_fields = built_in (codes "_role" ∷ []);
  mutation_fields = [];
  types = built_in (
      fixed_types
      ++ (scalar_type_names ++ map (λ s. s ++ codes "_comparison_exp") scalar_type_names));
}

unfoldable pub check_name_collisions : Catalog → Result (Unit {0})
unfolding see_tables claim_tables
check_name_collisions cat = do
  seen ← see_tables cat cat.table_order []
  spaces ← claim_tables cat cat.table_order start_spaces
  ok tt
