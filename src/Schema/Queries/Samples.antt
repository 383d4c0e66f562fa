-- ===== src/Schema/Queries/Samples.antt =====
-- The table that the tests of the queries share: posts, whose rows belong to an owner.
use mathlib.Core.Path.{subst}
use titanium_graph_api.Base.{
  ◌≡◌, refl, [], ◌∷◌, Text, codes, some, none, false, lookup, insert, text_eq,
}
use titanium_graph_api.Base.Int.{pos}
use titanium_graph_api.Value.{str, Fields, field, end}
use titanium_graph_api.Catalog.{Column, Table}
use titanium_graph_api.Config.{SchemaGen}
use titanium_graph_api.Naming.{graphql_name, sanitize_byte, lead, strip}
use titanium_graph_api.Rbac.Filter.{RowFilter}
use titanium_graph_api.Rbac.Resolve.{OpAccess}
use titanium_graph_api.Sql.Lexer.{scan, marks}
use titanium_graph_api.Schema.{TableInfo, table_info}
use titanium_graph_api.Schema.Scalars.{Marshal}
use titanium_graph_api.Schema.Queries.Clauses.{IsClosedAccess}

run : Unit {0}
unfolding lookup insert text_eq graphql_name sanitize_byte lead strip table_info
run = tt

abbrev pub column : Text → Column
column name = record {
  name = name;
  ordinal = 0;
  data_type = codes "int";
  column_type = codes "int(11)";
  nullable = false;
  is_primary = false;
  auto_increment = false;
  has_default = false;
  generated = false;
}

abbrev pub id : Column
id = column (codes "id")

abbrev pub owner : Column
owner = record (column (codes "owner")) { ordinal = 1 }

abbrev pub posts : Table
posts = record {
  name = codes "posts";
  columns = id ∷ owner ∷ [];
  column_map = (codes "id", id) ∷ (codes "owner", owner) ∷ [];
  primary_key = codes "id" ∷ [];
  foreign_keys = [];
  incoming_fks = [];
}

abbrev pub own_rows : RowFilter
own_rows = record { segments = codes "owner = " ∷ [] ∷ []; paths = codes "sub" ∷ [] }

abbrev pub reading : OpAccess
reading = record {
  columns = id ∷ owner ∷ [];
  column_set = codes "id" ∷ codes "owner" ∷ [];
  filter = some own_rows;
  presets = [];
}

abbrev pub info : TableInfo
info =
    table_info posts (record { select = some reading; insert = none; update = none; delete = none })

abbrev pub no_json : Marshal
no_json v = none

abbrev pub claims : Fields
claims = field (codes "sub") (str (codes "ada")) end

abbrev pub gen : SchemaGen
gen = record { include = []; exclude = []; default_page_size = pos 20; max_page_size = pos 100 }

abbrev pub db : Text
db = codes "blog"

granted_reading : (sel : OpAccess) → info.access.select ≡ some sel → reading ≡ sel
unfolding run
granted_reading sel e = cc

pub closed_reading : IsClosedAccess reading
unfolding scan marks
closed_reading =
    (record { closed = refl; count = refl }, (record { closed = refl; count = refl }, tt))

pub closed : (sel : OpAccess) → info.access.select ≡ some sel → IsClosedAccess sel
closed sel e = subst IsClosedAccess (granted_reading sel e) closed_reading
