-- ===== src/Rbac/Tests.antt =====
-- Claims, filters and rules of a sample token and role.
use titanium_graph_api.Base.{
  ◌≡◌, refl, [], ◌∷◌, Text, codes, some, none, true, false, All, lookup, text_eq,
}
use titanium_graph_api.Value.{str, arr, cons, nil, obj, Fields, field, end}
use titanium_graph_api.Results.{ok}
use titanium_graph_api.Catalog.{Column, Table}
use titanium_graph_api.Config.Roles.{OpPerm}
use titanium_graph_api.Sql.{Condition, placeholders}
use titanium_graph_api.Sql.Lexer.{scan, marks, Reads}
use titanium_graph_api.Rbac.{lookup_claim}
use titanium_graph_api.Rbac.Claims.{Greedy, Resolves, lookup_claim-Greedy, lookup_claim_complete}
use titanium_graph_api.Rbac.Filter.{RowFilter, is_claim_path, compile_filter, filter_sql}
use titanium_graph_api.Rbac.Filter.Compile.{weave, AreClean, compile_filter_lem}
use titanium_graph_api.Rbac.Filter.Render.{shapes_at, filter_sql-shapes}
use titanium_graph_api.Rbac.Resolve.{Preset, OpAccess}
use titanium_graph_api.Rbac.Resolve.Grants.{Grants}

run : Unit {0}
unfolding lookup_claim lookup text_eq compile_filter filter_sql placeholders
run = tt

-- {"sub": "7", "https://x.com/claims": {"role": "admin"}, "tenants": ["a", "b"]}
abbrev token : Fields
token = field (codes "sub") (str (codes "7")) (
    field (codes "https://x.com/claims") (obj (field (codes "role") (str (codes "admin")) end))
      (field (codes "tenants") (arr (cons (str (codes "a")) (cons (str (codes "b")) nil))) end))

dotted_name : lookup_claim token (codes "https://x.com/claims.role") ≡ some (str (codes "admin"))
unfolding run
dotted_name = refl

missing : lookup_claim token (codes "sub.role") ≡ none
unfolding run
missing = refl

lookup_claim-Greedy_example : Greedy token (codes "https://x.com/claims.role") (str (codes "admin"))
lookup_claim-Greedy_example =
    lookup_claim-Greedy token (codes "https://x.com/claims.role") dotted_name

lookup_claim_complete_example : ¬ Resolves token (codes "sub.role") (str (codes "7"))
lookup_claim_complete_example =
    lookup_claim_complete token (codes "sub.role") missing (str (codes "7"))

abbrev own_rows : Text
own_rows = codes "author = :jwt.sub AND tenant IN (:jwt.tenants)"

abbrev own_filter : RowFilter
own_filter = record {
  segments = codes "author = " ∷ codes " AND tenant IN (" ∷ codes ")" ∷ [];
  paths = codes "sub" ∷ codes "tenants" ∷ [];
}

own_compiles : compile_filter own_rows ≡ ok own_filter
unfolding run
own_compiles = refl

compile_filter_lem_example :
    (weave own_filter.segments own_filter.paths ≡ own_rows)
    × All (λ p. is_claim_path p ≡ true) own_filter.paths
    × AreClean own_filter.segments own_filter.paths
compile_filter_lem_example = compile_filter_lem own_rows own_compiles

abbrev own_condition : Condition
own_condition = record {
  sql = codes "author = ? AND tenant IN (?, ?)";
  args = str (codes "7") ∷ str (codes "a") ∷ str (codes "b") ∷ [];
}

own_renders : filter_sql own_filter token ≡ ok own_condition
unfolding run
own_renders = refl

own_closed : All (λ seg. Reads seg 0) own_filter.segments
unfolding scan marks
own_closed = (
  record { closed = refl; count = refl },
  (record { closed = refl; count = refl }, (record { closed = refl; count = refl }, tt)),
)

-- Another token with claims of the same shapes.
abbrev hostile : Fields
hostile =
    field (codes "sub") (str (codes "7 OR 1=1"))
      (field (codes "tenants") (arr (cons (str (codes "')")) (cons (str (codes "?")) nil))) end)

abbrev hostile_condition : Condition
hostile_condition = record {
  sql = codes "author = ? AND tenant IN (?, ?)";
  args = str (codes "7 OR 1=1") ∷ str (codes "')") ∷ str (codes "?") ∷ [];
}

hostile_renders : filter_sql own_filter hostile ≡ ok hostile_condition
unfolding run
hostile_renders = refl

same_shapes : shapes_at token own_filter.paths ≡ shapes_at hostile own_filter.paths
unfolding run
same_shapes = refl

filter_sql-shapes_example : own_condition.sql ≡ hostile_condition.sql
filter_sql-shapes_example =
    filter_sql-shapes own_filter token hostile same_shapes own_renders hostile_renders

abbrev column : Text → Column
column name = record {
  name = name;
  ordinal = 0;
  data_type = codes "int";
  column_type = codes "int(11)";
  nullable = false;
  is_primary = false;
  auto_increment = false;
  has_default = false;
  generated = false;
}

abbrev posts : Table
posts = record {
  name = codes "posts";
  columns = column (codes "id") ∷ column (codes "body") ∷ column (codes "author") ∷ [];
  column_map =
      (codes "id", column (codes "id"))
      ∷ (codes "body", column (codes "body"))
      ∷ (codes "author", column (codes "author"))
      ∷ [];
  primary_key = codes "id" ∷ [];
  foreign_keys = [];
  incoming_fks = [];
}

abbrev rule : OpPerm
rule = record {
  allow = true;
  columns = codes "body" ∷ codes "author" ∷ [];
  filter = codes "author = :jwt.sub";
  presets = (codes "id", codes "3") ∷ (codes "author", codes ":jwt.sub") ∷ [];
}

abbrev by_author : Preset
by_author = record { column = column (codes "author"); claim_path = codes "sub"; literal = [] }

abbrev by_id : Preset
by_id = record { column = column (codes "id"); claim_path = []; literal = codes "3" }

abbrev posts_access : OpAccess
posts_access = record {
  columns = column (codes "body") ∷ column (codes "author") ∷ [];
  column_set = codes "body" ∷ codes "author" ∷ [];
  filter = some (record { segments = codes "author = " ∷ [] ∷ []; paths = codes "sub" ∷ [] });
  presets = by_author ∷ by_id ∷ [];
}
