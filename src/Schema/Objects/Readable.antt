-- ===== src/Schema/Objects/Readable.antt =====
-- The fields of an object type: those of its columns, and the relations that a role may follow.
use mathlib.Core.List.{Memᴰ}
use titanium_graph_api.Base.{◌≡◌, ◌⊎◌, List, [], Text, Bool, true, none, some, lookup, ◌&&◌}
use titanium_graph_api.Catalog.{ForeignKey}
use titanium_graph_api.Rbac.Resolve.{OpAccess}
use titanium_graph_api.Schema.{TableInfo}
use titanium_graph_api.Schema.Objects.{
  ObjectField, to_one, to_many, ObjectFields, Infos, all_in, column_fields, is_selectable,
  is_batchable,
}
use titanium_graph_api.Schema.Objects.Relations.{Keeps}

-- A reference may be followed if the table it leads to can be selected and its columns can be read;
-- a list of referring rows, if their table can be selected and the referenced columns can be read.
module _ (infos : Infos) (sel : OpAccess) where
  abbrev pub reference_allowed : ForeignKey → Bool
  reference_allowed fk =
      is_selectable (lookup fk.ref_table infos) && all_in sel.column_set fk.columns

  abbrev pub referrers_allowed : ForeignKey → Bool
  referrers_allowed fk =
      is_selectable (lookup fk.table infos) && all_in sel.column_set fk.ref_columns

  abbrev pub reference_field : ForeignKey → ObjectField
  reference_field fk = to_one fk (is_batchable (lookup fk.ref_table infos) fk.ref_columns)

  abbrev pub referrers_field : ForeignKey → ObjectField
  referrers_field fk = to_many fk (is_batchable (lookup fk.table infos) fk.columns)

  abbrev pub columns_of : TableInfo → ObjectFields
  columns_of ti = column_fields ti sel.columns []

  pub record IsObjectOf (ti : TableInfo) (fields : ObjectFields) : Type 0 where
    pub columns : Keeps (columns_of ti) fields
    pub references :
        (fk : ForeignKey)
        → Memᴰ fk ti.table.foreign_keys
        → reference_allowed fk ≡ true
        → (n : Text) × (lookup n (columns_of ti) ≡ none)
          × (lookup n fields ≡ some (reference_field fk))
    pub referrers :
        (fk : ForeignKey)
        → Memᴰ fk ti.table.incoming_fks
        → referrers_allowed fk ≡ true
        → (n : Text) × (lookup n (columns_of ti) ≡ none)
          × (lookup n fields ≡ some (referrers_field fk))
    pub only :
        (n : Text) (f : ObjectField)
        → lookup n fields ≡ some f
        → (lookup n (columns_of ti) ≡ some f)
          ⊎ ((fk : ForeignKey) × Memᴰ fk ti.table.foreign_keys
              × (reference_allowed fk ≡ true)
              × (f ≡ reference_field fk))
          ⊎ ((fk : ForeignKey) × Memᴰ fk ti.table.incoming_fks
              × (referrers_allowed fk ≡ true)
              × (f ≡ referrers_field fk))
