-- ===== src/Catalog.antt =====
-- introspect/introspect.go: the introspected shape of one schema. A `map[string]*Column` is an
-- association list.
use titanium_graph_api.Base.{ℕ, List, Text, Bool, true, false, Option, none, some, lookup}

pub record Column : Type 0 where
  pub name : Text
  pub ordinal : ℕ
  pub data_type : Text
  pub column_type : Text
  pub nullable : Bool
  pub is_primary : Bool
  pub auto_increment : Bool
  pub has_default : Bool
  pub generated : Bool

pub record ForeignKey : Type 0 where
  pub constraint_name : Text
  pub table : Text
  pub columns : List Text
  pub ref_table : Text
  pub ref_columns : List Text

pub record Table : Type 0 where
  pub name : Text
  pub columns : List Column
  pub column_map : List (Text × Column)
  pub primary_key : List Text
  pub foreign_keys : List ForeignKey
  pub incoming_fks : List ForeignKey

pub record Catalog : Type 0 where
  pub schema_name : Text
  pub tables : List (Text × Table)
  pub table_order : List Text

abbrev pub is_some {ℓ} : {A : Type ℓ} → Option A → Bool
is_some none = false
is_some (some a) = true

unfoldable pub has_column : Table → Text → Bool
has_column t name = is_some (lookup name t.column_map)
