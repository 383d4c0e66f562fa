-- ===== src/Schema/Aggregates/Query.antt =====
-- The aggregate query is closed text, restricted by the row filter of the select grant.
use titanium_graph_api.Base.{List, Text, join, map}
use titanium_graph_api.Value.{Fields}
use titanium_graph_api.Sql.{comma}
use titanium_graph_api.Sql.Lexer.{Reads}
use titanium_graph_api.Schema.{TableInfo}
use titanium_graph_api.Schema.Scalars.{Marshal}
use titanium_graph_api.Schema.Aggregates.{Slot, expression}

module _ (marshal : Marshal) (schema_name : Text) (ti : TableInfo) (claims : Fields) where
  abbrev heads : List Slot → Text
  heads plan = join comma (map expression plan)
