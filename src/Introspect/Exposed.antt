-- ===== src/Introspect/Exposed.antt =====
-- Load: which tables the catalog exposes, and what holds of each of them.
use titanium_graph_api.Base.{
  ◌≡◌, ◌≢◌, ◌⊎◌, refl, List, [], ◌∷◌, Text, true, not, some, lookup, member,
}
use titanium_graph_api.Results.{Error, Result, ok, err, no_tables}
use titanium_graph_api.Config.{is_nil}
use titanium_graph_api.Catalog.{Table, Catalog, is_some}
use titanium_graph_api.Introspect.{Tables, Constraints, Information, exposed, new_tables}
use titanium_graph_api.Introspect.Columns.{IsTable}
use titanium_graph_api.Introspect.Keys.{IsIn, AreBetween, keys_from, keys_to}
use titanium_graph_api.Introspect.Fresh.{new_tables-IsIn}

module _ (info : Information) (schema : Text) where
  -- A table of the catalog, with all constraints `fks` between exposed tables.
  pub record IsLoaded (fks : Constraints) (name : Text) (t : Table) : Type 0 where
    pub named : t.name ≡ name
    pub table : IsTable t
    pub referencing : t.foreign_keys ≡ keys_from name fks
    pub referenced : t.incoming_fks ≡ keys_to name fks

  -- What Load makes of the answers of information_schema.
  pub record IsCatalog (include exclude : List Text) (cat : Catalog) : Type 0 where
    pub names : List Text
    pub listed : info.table_names schema ≡ ok names
    pub schema_name : cat.schema_name ≡ schema
    pub order : cat.table_order ≡ exposed include exclude names
    pub not_empty : cat.table_order ≢ []
    pub tables : (j : Text) → is_some (lookup j cat.tables) ≡ member j cat.table_order
    pub constraints : Constraints
    pub between : AreBetween cat.tables constraints
    pub loaded : (j : Text) (t : Table) → lookup j cat.tables ≡ some t → IsLoaded constraints j t

  -- A query that failed, or nothing to expose.
  abbrev pub Fails : List Text → List Text → Error → Type 0
  Fails include exclude e =
      (info.table_names schema ≡ err e)
      ⊎ ((name : Text) × (info.columns_of schema name ≡ err e))
      ⊎ (info.keys_of schema ≡ err e)
      ⊎ ((e ≡ no_tables)
          × ((names : List Text) × (info.table_names schema ≡ ok names)
              × (exposed include exclude names ≡ [])))

  abbrev pub Explains : List Text → List Text → Result Catalog → Type 0
  Explains include exclude (ok cat) = IsCatalog include exclude cat
  Explains include exclude (err e) = Fails include exclude e

no_member : (names : List Text) → names ≢ [] → not (is_nil names) ≡ true
no_member [] h = absurd (h refl)
no_member (name ∷ names) h = refl

module _ (info : Information) (schema : Text) (include exclude : List Text) where
  abbrev catalog_of : List Text → Tables → Catalog
  catalog_of order tables = record { schema_name = schema; tables = tables; table_order = order }

  all_in : (order : List Text) (j : Text) → member j order ≡ true → IsIn (new_tables order []) j
  all_in order j h = rw (new_tables-IsIn order [] j, h) refl
