-- ===== src/Schema/Plans.antt =====
-- schema/sqlgen.go: what runInsert, runUpdate and runDelete prepare before their transaction: the
-- rows to insert, and the statements.
use titanium_graph_api.Base.{List, [], ◌∷◌, ◌++◌, Text, Option, none, some, codes, map, length}
use titanium_graph_api.Value.{Value, Values, nil, cons, Fields, as_obj}
use titanium_graph_api.Results.{Result, ok, err, ◌>>=◌, empty_objects, no_columns, not_an_object}
use titanium_graph_api.Catalog.{Column}
use titanium_graph_api.Rbac.Resolve.{OpAccess}
use titanium_graph_api.Sql.{Condition, quote_list, placeholders, combine_conds, parens}
use titanium_graph_api.Schema.{TableInfo}
use titanium_graph_api.Schema.Scalars.{Marshal}
use titanium_graph_api.Schema.Queries.{qualified_table, rbac_cond, granted}
use titanium_graph_api.Schema.Mutations.{ByCol, merged_row_values, set_clause}

abbrev pub InsertRow : Type 0
InsertRow = List (Column × Value)

abbrev pub names : InsertRow → List Text
names row = map (λ p. p.0.name) row

abbrev pub values_of : InsertRow → List Value
values_of row = map (λ p. p.1) row

abbrev pub row_map : InsertRow → ByCol
row_map row = map (λ p. (p.0.name, p.1)) row

abbrev pub non_empty_row : TableInfo → InsertRow → Result InsertRow
non_empty_row ti [] = err no_columns
non_empty_row ti (p ∷ row) = ok (p ∷ row)

abbrev pub merge_item : Marshal → TableInfo → OpAccess → Fields → Option Fields → Result InsertRow
merge_item marshal ti oa claims none = err (not_an_object (codes "objects"))
merge_item marshal ti oa claims (some obj) =
    merged_row_values marshal ti oa obj claims >>= λ row. non_empty_row ti row

-- Every object is resolved before anything is written.
unfoldable pub merge_rows :
    Marshal → TableInfo → OpAccess → Fields → Values → Result (List InsertRow)
merge_rows marshal ti oa claims nil = ok []
merge_rows marshal ti oa claims (cons v vs) = do
  row ← merge_item marshal ti oa claims (as_obj v)
  rows ← merge_rows marshal ti oa claims vs
  ok (row ∷ rows)

unfoldable pub insert_query : Text → TableInfo → InsertRow → Condition
insert_query schema_name ti row = record {
  sql =
      codes "INSERT INTO "
      ++ (qualified_table schema_name ti.table
          ++ (codes " "
              ++ (parens (quote_list (names row))
                  ++ (codes " VALUES " ++ parens (placeholders (length row))))));
  args = values_of row;
}

unfoldable pub update_query : Text → TableInfo → Condition → Condition → Condition
update_query schema_name ti set w = record {
  sql =
      codes "UPDATE "
      ++ (qualified_table schema_name ti.table
          ++ (codes " SET " ++ (set.sql ++ (codes " WHERE " ++ w.sql))));
  args = set.args ++ w.args;
}

unfoldable pub delete_query : Text → TableInfo → Condition → Condition
delete_query schema_name ti w = record {
  sql =
      codes "DELETE FROM " ++ (qualified_table schema_name ti.table ++ (codes " WHERE " ++ w.sql));
  args = w.args;
}

abbrev pub some_objects : Values → Result Values
some_objects nil = err empty_objects
some_objects (cons v vs) = ok (cons v vs)

abbrev pub insert_plan : Marshal → TableInfo → Fields → Values → Result (List InsertRow)
insert_plan marshal ti claims objects = do
  oa ← granted ti.table ti.access.insert
  items ← some_objects objects
  merge_rows marshal ti oa claims items

unfoldable pub update_plan :
    Marshal → Text → TableInfo → Fields → Fields → Option Condition → Result (Condition × ByCol)
update_plan marshal schema_name ti claims set user_where = do
  oa ← granted ti.table ti.access.update
  clause ← set_clause marshal ti oa set claims
  filter ← rbac_cond oa claims
  ok (update_query schema_name ti clause.0 (combine_conds (user_where ∷ filter ∷ [])), clause.1)

unfoldable pub delete_plan : Text → TableInfo → Fields → Option Condition → Result Condition
delete_plan schema_name ti claims user_where = do
  oa ← granted ti.table ti.access.delete
  filter ← rbac_cond oa claims
  ok (delete_query schema_name ti (combine_conds (user_where ∷ filter ∷ [])))
