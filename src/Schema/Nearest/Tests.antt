-- ===== src/Schema/Nearest/Tests.antt =====
-- A search among the posts, and the theorem at it.
use titanium_graph_api.Base.{
  ◌≡◌, refl, [], ◌∷◌, codes, lookup, insert, text_eq, join, member, has_prefix, cut_prefix,
}
use titanium_graph_api.Base.Int.{pos, negsuc}
use titanium_graph_api.Value.{str, int, Fields, field, end}
use titanium_graph_api.Results.{err, negative_first, unknown_metric}
use titanium_graph_api.Catalog.{Column}
use titanium_graph_api.Naming.{graphql_name, sanitize_byte, lead, strip}
use titanium_graph_api.Rbac.{lookup_claim, lookup_nested, try_splits, attempt}
use titanium_graph_api.Rbac.Filter.{filter_sql, bind_claim}
use titanium_graph_api.Sql.{Condition, quote_ident, quote_list, combine_conds}
use titanium_graph_api.Schema.{table_info}
use titanium_graph_api.Schema.Queries.{qualified_table, rbac_cond, user_cond, select_list}
use titanium_graph_api.Schema.Queries.Samples.{column, reading, info, no_json, claims, db, gen}
use titanium_graph_api.Schema.Nearest.{
  vectors_among, vector_columns, first_of, nearest_query, nearest,
}

run : Unit {0}
unfolding lookup insert text_eq join member has_prefix cut_prefix graphql_name sanitize_byte lead
    strip lookup_claim lookup_nested try_splits attempt filter_sql bind_claim quote_ident quote_list
    combine_conds table_info qualified_table rbac_cond user_cond select_list vectors_among
    vector_columns first_of nearest_query nearest
run = tt

abbrev embedding : Column
embedding = record (column (codes "embedding")) { data_type = codes "vector" }

abbrev asked : Fields
asked = field (codes "to") (str (codes "[1,2]")) (field (codes "first") (int (pos 1000)) end)

abbrev query : Condition
query = record {
  sql =
      codes
        "SELECT `id`, `owner`, VEC_COSINE_DISTANCE(`embedding`, ?) AS __gqlgate_dist FROM `blog`.`posts` WHERE (owner = ?) AND (`embedding` IS NOT NULL) ORDER BY __gqlgate_dist ASC LIMIT ?";
  args = str (codes "[1,2]") ∷ str (codes "ada") ∷ int (pos 100) ∷ [];
}

negative_test :
    nearest no_json db info claims gen reading embedding
      (field (codes "first") (int (negsuc 0)) end)
    ≡ err negative_first
unfolding run
negative_test = refl

metric_test :
    nearest no_json db info claims gen reading embedding
      (field (codes "metric") (str (codes "L3")) end)
    ≡ err (unknown_metric (codes "L3"))
unfolding run
metric_test = refl

no_vectors : vector_columns info ≡ []
unfolding run
no_vectors = refl
