-- ===== src/Schema/Queries/Tests.antt =====
-- Queries on a table of posts whose rows belong to an owner.
use titanium_graph_api.Base.{
  ℕ, arith, ◌≡◌, refl, List, [], ◌∷◌, codes, some, none, false, lookup, insert, text_eq, text_lt,
  join, member, has_prefix, cut_prefix,
}
use titanium_graph_api.Base.Int.{pos}
use titanium_graph_api.Value.{Value, str, cons, nil, obj, Values, field, end, int}
use titanium_graph_api.Results.{ok}
use titanium_graph_api.Naming.{graphql_name, sanitize_byte, lead, strip}
use titanium_graph_api.Rbac.{lookup_claim, lookup_nested, try_splits, attempt}
use titanium_graph_api.Rbac.Filter.{filter_sql, bind_claim}
use titanium_graph_api.Sql.{Condition, quote_ident, placeholders, quote_list, combine_conds}
use titanium_graph_api.Sql.Lexer.{scan, marks}
use titanium_graph_api.Sql.Bound.{IsBound}
use titanium_graph_api.Schema.{table_info, readable_column}
use titanium_graph_api.Schema.Scalars.{scalar_for, bind_value}
use titanium_graph_api.Schema.Sorting.{sort_entries}
use titanium_graph_api.Schema.Columns.{column_cond, binary_ops, binary_cond}
use titanium_graph_api.Schema.Where.{
  where_sql, where_entry, finish_where, operators, is_list_key, plain_entry,
}
use titanium_graph_api.Schema.Order.{
  order_keys, order_columns, order_sql, window_order, is_direction,
}
use titanium_graph_api.Schema.Paging.{
  ListArgs, page_bounds, limit_clause, apply_page, extract_list_args,
}
use titanium_graph_api.Schema.Paging.Bounds.{apply_page_lem}
use titanium_graph_api.Schema.Queries.{
  qualified_table, rbac_cond, user_cond, select_list, run_select, run_keyset_page,
  run_select_by_keys, run_count,
}
use titanium_graph_api.Schema.Queries.Keys.{
  in_condition, pk_order_clause, keyset_condition, pk_cond,
}
use titanium_graph_api.Schema.Queries.Keys.Bound.{AreKeys}
use titanium_graph_api.Schema.Queries.Bound.{run_select-IsBound}
use titanium_graph_api.Schema.Queries.Samples.{id, info, no_json, claims, gen, db, closed}

run : Unit {0}
unfolding lookup insert text_eq text_lt join member has_prefix cut_prefix graphql_name sanitize_byte
    lead strip lookup_claim lookup_nested try_splits attempt filter_sql bind_claim quote_ident
    placeholders quote_list combine_conds table_info readable_column scalar_for bind_value
    sort_entries column_cond binary_ops binary_cond where_sql where_entry finish_where operators
    is_list_key plain_entry order_keys order_columns order_sql window_order is_direction page_bounds
    limit_clause apply_page extract_list_args qualified_table rbac_cond user_cond select_list
    run_select run_keyset_page run_select_by_keys run_count in_condition pk_order_clause
    keyset_condition pk_cond
run = tt

abbrev newest : Values
newest = cons (obj (field (codes "id") (str (codes "DESC")) end)) nil

abbrev asked : ListArgs
asked = record {
  where_arg = some (field (codes "id") (obj (field (codes "_gt") (int (pos 7)) end)) end);
  order_by = some newest;
  limit = some (pos 500);
  offset = some (pos 5);
}

abbrev listed : Condition
listed = record {
  sql =
      codes
        "SELECT `id`, `owner` FROM `blog`.`posts` WHERE (`id` > ?) AND (owner = ?) ORDER BY `id` DESC LIMIT ? OFFSET ?";
  args = int (pos 7) ∷ str (codes "ada") ∷ int (pos 100) ∷ int (pos 5) ∷ [];
}

lists : run_select no_json db info claims gen asked none false ≡ ok listed
unfolding run
lists = refl

bounds_hold : page_bounds gen asked ≡ ok (pos 100, pos 5)
unfolding run
bounds_hold = refl

abbrev small : ListArgs
small = record { where_arg = none; order_by = none; limit = some (pos 2); offset = some (pos 1) }

small_bounds : page_bounds gen small ≡ ok (pos 2, pos 1)
unfolding run
small_bounds = refl

apply_page_lem_example : apply_page {A = ℕ} gen (3 ∷ 4 ∷ 5 ∷ 6 ∷ []) small ≡ ok (4 ∷ 5 ∷ [])
apply_page_lem_example =
    apply_page_lem gen (3 ∷ 4 ∷ 5 ∷ 6 ∷ []) small (pos 2) (pos 1) (omega arith) small_bounds

ordered : order_keys info newest ≡ ok ((id, codes "DESC") ∷ [])
unfolding run
ordered = refl

run_select-IsBound_example : IsBound listed
run_select-IsBound_example =
    run_select-IsBound no_json db info claims gen asked none false closed tt lists

abbrev paged : Condition
paged = record {
  sql =
      codes
        "SELECT `id`, `owner` FROM `blog`.`posts` WHERE (owner = ?) AND (`id` > ?) ORDER BY `id` ASC LIMIT ?";
  args = str (codes "ada") ∷ str (codes "41") ∷ int (pos 21) ∷ [];
}

abbrev behind : Condition
behind = record { sql = codes "`id` > ?"; args = str (codes "41") ∷ [] }

seeks : keyset_condition (codes "id" ∷ []) (codes "41" ∷ []) ≡ behind
unfolding run
seeks = refl

pages : run_keyset_page no_json db info claims none (some behind) (pos 21) ≡ ok paged
unfolding run
pages = refl

behind-IsBound : IsBound behind
unfolding scan marks
behind-IsBound = record { closed = refl; count = refl }

abbrev keyed : Condition
keyed = record {
  sql =
      codes
        "SELECT `id`, `owner` FROM (SELECT `id`, `owner`, ROW_NUMBER() OVER (PARTITION BY `owner` ORDER BY `id` DESC) AS __gqlgate_rn FROM `blog`.`posts` WHERE (`owner` IN (?, ?)) AND (owner = ?)) AS __gqlgate_w WHERE __gqlgate_rn <= ? ORDER BY `id` DESC";
  args = str (codes "ada") ∷ str (codes "bob") ∷ str (codes "ada") ∷ int (pos 3) ∷ [];
}

abbrev owners : List (List Value)
owners = (str (codes "ada") ∷ []) ∷ (str (codes "bob") ∷ []) ∷ []

owners-AreKeys : AreKeys (codes "owner" ∷ []) owners
owners-AreKeys = (refl, (refl, tt))
