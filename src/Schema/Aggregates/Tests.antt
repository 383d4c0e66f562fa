-- ===== src/Schema/Aggregates/Tests.antt =====
-- Aggregates over the posts, and the theorems at them.
use mathlib.Core.Path.{subst}
use titanium_graph_api.Base.{
  ℕ, ◌≡◌, refl, List, [], ◌∷◌, Text, codes, some, none, true, false, lookup, insert, text_eq,
  text_lt, join, member, has_prefix, cut_prefix, Bool-cases, inl, inr, Option,
}
use titanium_graph_api.Base.Int.{pos}
use titanium_graph_api.Base.Numbers.{show_int, digits_before}
use titanium_graph_api.Value.{Value, int64, bytes, str}
use titanium_graph_api.Results.{Result, ok, database_error}
use titanium_graph_api.Naming.{graphql_name, sanitize_byte, lead, strip}
use titanium_graph_api.Rbac.{lookup_claim, lookup_nested, try_splits, attempt}
use titanium_graph_api.Rbac.Filter.{filter_sql, bind_claim}
use titanium_graph_api.Rbac.Resolve.{names_of}
use titanium_graph_api.Sql.{Condition, quote_ident, combine_conds}
use titanium_graph_api.Schema.{table_info}
use titanium_graph_api.Schema.Scalars.{scalar_for, contains}
use titanium_graph_api.Schema.Scalars.Formats.{Formats, parse_int, parse_int_anyway}
use titanium_graph_api.Schema.Scalars.Convert.{convert_value}
use titanium_graph_api.Schema.Selections.{
  Nodes, no_nodes, node, field_node, spread_node, Fragments, flatten_set, flatten_spread,
  flatten_fields, names_in, field_names,
}
use titanium_graph_api.Schema.Selections.Flattened.{Spreads, IsAcyclic}
use titanium_graph_api.Schema.Queries.{qualified_table, rbac_cond, user_cond}
use titanium_graph_api.Schema.Queries.Samples.{id, reading, info, no_json, claims, db}
use titanium_graph_api.Schema.Aggregates.{
  sums, AggRequest, AggResult, is_numeric, columns_named, collect_fields, collect_sets,
  collect_agg_selections, slots_for, plan_of, is_empty_request, to_int64, to_float, agg_scalar,
  store_slot, store_slots, aggregate_query, run_aggregate,
}
use titanium_graph_api.Schema.Aggregates.Collected.{columns_in, last_in, all_fields}
use titanium_graph_api.Schema.Aggregates.Slots.{has}
use titanium_graph_api.Schema.Aggregates.Answered.{run_aggregate-has}

run : Unit {0}
unfolding lookup insert text_eq text_lt join member has_prefix cut_prefix show_int digits_before
    graphql_name sanitize_byte lead strip lookup_claim lookup_nested try_splits attempt filter_sql
    bind_claim quote_ident combine_conds table_info scalar_for contains parse_int parse_int_anyway
    convert_value flatten_set flatten_spread flatten_fields names_in field_names qualified_table
    rbac_cond user_cond is_numeric columns_named collect_fields collect_sets collect_agg_selections
    slots_for plan_of is_empty_request to_int64 to_float agg_scalar store_slot store_slots
    aggregate_query run_aggregate last_in all_fields Spreads
run = tt

-- `{ count ...Sums sum { id } }`, with `fragment Sums { sum { owner } }`.
abbrev fragments : Fragments
fragments =
    (
      codes "Sums",
      node
          (field_node (some (codes "sum"))
            (node (field_node (some (codes "owner")) no_nodes) no_nodes))
          no_nodes,
    )
    ∷ []

abbrev selected : Nodes
selected = node (field_node (some (codes "count")) no_nodes) (
    node (spread_node (some (codes "Sums"))) (
      node
        (field_node (some (codes "sum")) (node (field_node (some (codes "id")) no_nodes) no_nodes))
        no_nodes))

abbrev request : AggRequest
request = record { count = true; sum = id ∷ []; avg = []; min = []; max = [] }

-- The sum of the owners is lost.
collects : collect_agg_selections info fragments (selected ∷ []) ≡ request
unfolding run
collects = refl

abbrev rank : Text → ℕ
rank name = 0

abbrev sums_body : Nodes
sums_body =
    node
      (field_node (some (codes "sum")) (node (field_node (some (codes "owner")) no_nodes) no_nodes))
      no_nodes

same_body : {a b : Nodes} → ◌≡◌ {A = Option Nodes} (some a) (some b) → a ≡ b
same_body e = cc

Spreads-sums_body : Spreads rank 0 sums_body
unfolding Spreads
Spreads-sums_body = (tt, tt)

acyclic : IsAcyclic fragments rank
unfolding lookup
acyclic name body e = elim (Bool-cases (text_eq (codes "Sums") name)) [
  | inl a ↦ subst (λ b. Spreads rank 0 b) (same_body (rw a at e)) Spreads-sums_body
  | inr a ↦ absurd (cc (rw a at e))
]

abbrev query : Condition
query = record {
  sql = codes "SELECT COUNT(*), SUM(`id`) FROM `blog`.`posts` WHERE (owner = ?)";
  args = str (codes "ada") ∷ [];
}

abbrev formats : Formats
formats = record {
  parse_float = λ s. none;
  format_float = λ v. [];
  print_float = λ v. [];
  widen = λ v. v;
  float_of_int = λ n. 0;
  int_of_float = λ v. pos 1;
  parse_json = λ s. none;
  parse_time = λ layout s. none;
  format_time = λ layout t. layout;
  print_time = λ t. [];
  encode_base64 = λ b. b;
  decode_base64 = λ s. some s;
}

abbrev database : Condition → Result (List Value)
database q = ok (int64 (pos 3) ∷ bytes (codes "12") ∷ [])

abbrev result : AggResult
result = record {
  count = pos 3;
  sum = (codes "id", str (codes "12")) ∷ [];
  avg = [];
  min = [];
  max = [];
}

answers :
    run_aggregate no_json db info claims formats false database database_error reading none request
    ≡ ok result
unfolding run
answers = refl

run_aggregate-has_example :
    has sums (codes "owner") result ≡ member (codes "owner") (names_of (columns_in sums request))
run_aggregate-has_example =
    run_aggregate-has no_json db info claims formats false database database_error reading none
      request sums (codes "owner") answers
