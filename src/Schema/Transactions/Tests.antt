-- ===== src/Schema/Transactions/Tests.antt =====
-- Mutations of a table of posts whose owner is a preset, on a database that counts statements.
use mathlib.Core.Path.{subst}
use titanium_graph_api.Base.{
  ℕ, ◌+◌, ◌≡◌, Option, refl, [], ◌∷◌, Text, codes, some, none, false, lookup, insert, text_eq,
  text_lt, join, member, has_prefix, cut_prefix, map,
}
use titanium_graph_api.Value.{str, obj, cons, nil, Fields, Values, field, end}
use titanium_graph_api.Results.{ok, err, hook_failed, not_writable}
use titanium_graph_api.Catalog.{Column, Table}
use titanium_graph_api.Naming.{graphql_name, sanitize_byte, lead, strip}
use titanium_graph_api.Rbac.{lookup_claim, lookup_nested, try_splits, attempt}
use titanium_graph_api.Rbac.Filter.{filter_sql, bind_claim}
use titanium_graph_api.Rbac.Resolve.{OpAccess, Preset, preset_value}
use titanium_graph_api.Sql.{Condition, quote_ident, placeholders, quote_list, combine_conds}
use titanium_graph_api.Sql.Lexer.{scan, marks}
use titanium_graph_api.Schema.{TableInfo, table_info}
use titanium_graph_api.Schema.Scalars.{Marshal, scalar_for, bind_value}
use titanium_graph_api.Schema.Queries.{qualified_table, rbac_cond}
use titanium_graph_api.Schema.Queries.Clauses.{IsClosedAccess}
use titanium_graph_api.Schema.Mutations.{
  ByCol, is_preset, is_writable, client_values, preset_values, written_values, in_table_order,
  merged_row_values, set_clause,
}
use titanium_graph_api.Schema.Hooks.{
  MutationEvent, MutationHook, HookMap, Hooks, op_insert, hook_key, run_each, run_hook_list,
  run_before, run_after,
}
use titanium_graph_api.Schema.Plans.{
  InsertRow, row_map, insert_query, update_query, delete_query, merge_rows, insert_plan,
  update_plan, delete_plan,
}
use titanium_graph_api.Schema.Transactions.{
  Driver, Db, Inserted, exec_in_tx, insert_rows, insert_body, write_body, event, run_insert,
  run_update, run_delete,
}
use titanium_graph_api.Schema.Transactions.Atomic.{IsTransacted, run_insert-IsTransacted}
use titanium_graph_api.Schema.Transactions.Counting.{IsInserted, insert_body-IsInserted}

run : Unit {0}
unfolding lookup insert text_eq text_lt join member has_prefix cut_prefix graphql_name sanitize_byte
    lead strip lookup_claim lookup_nested try_splits attempt filter_sql bind_claim preset_value
    quote_ident placeholders quote_list combine_conds table_info scalar_for bind_value
    qualified_table rbac_cond is_preset is_writable client_values preset_values written_values
    in_table_order merged_row_values set_clause hook_key run_each run_hook_list run_before run_after
    insert_query update_query delete_query exec_in_tx insert_rows insert_body write_body merge_rows
    run_insert update_plan run_update delete_plan run_delete
run = tt

abbrev column : Text → ℕ → Column
column name ordinal = record {
  name = name;
  ordinal = ordinal;
  data_type = codes "int";
  column_type = codes "int(11)";
  nullable = false;
  is_primary = false;
  auto_increment = false;
  has_default = false;
  generated = false;
}

abbrev body : Column
body = column (codes "body") 0

abbrev owner : Column
owner = column (codes "owner") 1

abbrev posts : Table
posts = record {
  name = codes "posts";
  columns = body ∷ owner ∷ [];
  column_map = (codes "body", body) ∷ (codes "owner", owner) ∷ [];
  primary_key = codes "body" ∷ [];
  foreign_keys = [];
  incoming_fks = [];
}

abbrev by_owner : Preset
by_owner = record { column = owner; claim_path = codes "sub"; literal = [] }

abbrev writing : OpAccess
writing = record {
  columns = body ∷ owner ∷ [];
  column_set = codes "body" ∷ codes "owner" ∷ [];
  filter = some (record { segments = codes "owner = " ∷ [] ∷ []; paths = codes "sub" ∷ [] });
  presets = by_owner ∷ [];
}

abbrev info : TableInfo
info =
    table_info posts (record {
      select = none;
      insert = some writing;
      update = some writing;
      delete = some writing;
    })

abbrev no_json : Marshal
no_json v = none

abbrev claims : Fields
claims = field (codes "sub") (str (codes "ada")) end

abbrev post : Fields
post = field (codes "body") (str (codes "hi")) end

abbrev row : InsertRow
row = (body, str (codes "hi")) ∷ (owner, str (codes "ada")) ∷ []

abbrev clause : Condition × ByCol
clause = (
  record {
    sql = codes "`body` = ?, `owner` = ?";
    args = str (codes "hi") ∷ str (codes "ada") ∷ [];
  },
  (codes "body", str (codes "hi")) ∷ (codes "owner", str (codes "ada")) ∷ [],
)

-- A forged owner is refused.
forged :
    merged_row_values no_json info writing (field (codes "owner") (str (codes "eve")) end) claims
    ≡ err (not_writable (codes "owner"))
unfolding run
forged = refl

abbrev counter : Driver ℕ
counter = record {
  begin_tx = λ s. ok tt;
  exec = λ q s. ok (record { rows = 1; last_id = s + 1; state = s + 1 });
  commit_tx = λ s. ok tt;
}

abbrev db : Db ℕ
db = record { committed = 5; open_tx = none }

abbrev refusing : MutationHook ℕ
refusing ev s = err (hook_failed ev.affected)

abbrev after_insert : HookMap ℕ
after_insert = (hook_key (codes "*") op_insert, refusing ∷ []) ∷ []

abbrev hooks : Hooks ℕ
hooks = record { before = []; after = after_insert; fields = [] }

abbrev objects : Values
objects = cons (obj post) (cons (obj post) nil)

abbrev blog : Text
blog = codes "blog"

abbrev user : Text
user = codes "user"

abbrev ev : MutationEvent
ev = event counter false op_insert info user claims (row_map row ∷ row_map row ∷ [])

-- The hook sees both rows, and its error undoes them.
undone :
    run_insert counter false no_json (some hooks) blog info user claims objects db
    ≡ (db, err (hook_failed 2))
unfolding run
undone = refl

abbrev two : Inserted
two = record { affected = 2; last_id = 7; last_values = row_map row }

inserted :
    run_insert counter false no_json none blog info user claims objects db
    ≡ (record { committed = 7; open_tx = none }, ok two)
unfolding run
inserted = refl

run_insert-IsTransacted_example :
    IsTransacted
      (insert_plan no_json info claims objects)
      (λ rows.
        insert_body counter false
          (some hooks)
          blog
          info
          (event counter false op_insert info user claims (map row_map rows))
          rows)
      db
      (run_insert counter false no_json (some hooks) blog info user claims objects db)
run_insert-IsTransacted_example =
    run_insert-IsTransacted counter false no_json (some hooks) blog info user claims objects db refl

body_runs : insert_body counter false none blog info ev (row ∷ row ∷ []) 5 ≡ ok (two, 7)
unfolding run
body_runs = refl

insert_body-IsInserted_example :
    IsInserted counter false blog info none ev (row ∷ row ∷ []) 5 (two, 7)
insert_body-IsInserted_example =
    insert_body-IsInserted counter false blog info none ev (row ∷ row ∷ []) 5 body_runs

closed_writing : IsClosedAccess writing
unfolding scan marks
closed_writing =
    (record { closed = refl; count = refl }, (record { closed = refl; count = refl }, tt))

same_grant : (oa : OpAccess) → ◌≡◌ {A = Option OpAccess} (some writing) (some oa) → writing ≡ oa
same_grant oa e = cc

closed : (oa : OpAccess) → ◌≡◌ {A = Option OpAccess} (some writing) (some oa) → IsClosedAccess oa
closed oa e = subst IsClosedAccess (same_grant oa e) closed_writing

abbrev deletion : Condition
deletion = record {
  sql = codes "DELETE FROM `blog`.`posts` WHERE (owner = ?)";
  args = str (codes "ada") ∷ [];
}

abbrev change : Condition
change = record {
  sql = codes "UPDATE `blog`.`posts` SET `body` = ?, `owner` = ? WHERE (owner = ?)";
  args = str (codes "hi") ∷ str (codes "ada") ∷ str (codes "ada") ∷ [];
}
