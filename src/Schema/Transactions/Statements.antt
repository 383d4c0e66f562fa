-- ===== src/Schema/Transactions/Statements.antt =====
-- The statements of a mutation: their text, and the rows that they count.
use titanium_graph_api.Base.{◌≡◌, refl, Text, Option, some, codes, length, length-map}
use titanium_graph_api.Value.{Value, Fields}
use titanium_graph_api.Rbac.Resolve.{OpAccess}
use titanium_graph_api.Sql.{Condition, quote_list, parens}
use titanium_graph_api.Sql.Lexer.{scan, marks}
use titanium_graph_api.Sql.Bound.{
  IsBound, IsBound?, Reads-prepend, quote_list-Reads, parens-Reads, placeholders-Reads,
}
use titanium_graph_api.Schema.{TableInfo}
use titanium_graph_api.Schema.Queries.{qualified_table}
use titanium_graph_api.Schema.Queries.Clauses.{IsClosedAccess, qualified_table-Reads}
use titanium_graph_api.Schema.Queries.Filtered.{IsFilteredBy, Renders}
use titanium_graph_api.Schema.Plans.{InsertRow, names, insert_query}

insert_query-IsBound :
    (schema_name : Text) (ti : TableInfo) (row : InsertRow)
    → IsBound (insert_query schema_name ti row)
unfolding insert_query scan marks
insert_query-IsBound schema_name ti row = rw (length-map row (λ p. p.1)) (
    Reads-prepend (codes "INSERT INTO ") _ _ (record { closed = refl; count = refl })
      (Reads-prepend (qualified_table schema_name ti.table) _ _
        (qualified_table-Reads schema_name ti.table)
        (Reads-prepend (codes " ") _ _ (record { closed = refl; count = refl })
          (Reads-prepend (parens (quote_list (names row))) _ _
            (parens-Reads _ 0 (quote_list-Reads (names row)))
            (Reads-prepend (codes " VALUES ") _ _ (record { closed = refl; count = refl })
              (parens-Reads _ _ (placeholders-Reads (length row))))))))

-- A write under a grant: bound, and restricted by the grant's row filter.
abbrev pub IsGuarded : Option OpAccess → Fields → Condition → Type 0
IsGuarded grant claims q =
    (oa : OpAccess) × (grant ≡ some oa) × IsBound q × IsFilteredBy oa.filter claims q.sql

module _ (schema_name : Text) (ti : TableInfo) (claims : Fields) where
  abbrev Both : OpAccess → Option Condition → Type 0
  Both oa filter = IsBound? filter × Renders oa.filter claims filter

  abbrev Grant : Option OpAccess → OpAccess → Type 0
  Grant grant oa = (grant ≡ some oa) × IsClosedAccess oa
