-- ===== src/Schema/Queries/Keys.antt =====
-- schema/sqlgen.go: conditions on keys.
pub mod Bound
use titanium_graph_api.Base.{
  ℕ, zero, suc, List, [], ◌∷◌, ◌++◌, Text, Bool, true, false, Option, none, some, codes, join, map,
  length, lookup, replicate,
}
use titanium_graph_api.Value.{Value, null, str, Fields, entries}
use titanium_graph_api.Results.{Result, ok, err, ◌>>=◌, missing_key}
use titanium_graph_api.Catalog.{Column}
use titanium_graph_api.Sql.{Condition, quote_ident, quote_list, placeholders, comma, parens}
use titanium_graph_api.Schema.{TableInfo}
use titanium_graph_api.Schema.Scalars.{Marshal, bind_value}

abbrev pub ascending : Text → Text
ascending pk = quote_ident pk ++ codes " ASC"

unfoldable pub pk_order_clause : List Text → Text
pk_order_clause primary_key = codes " ORDER BY " ++ join comma (map ascending primary_key)

-- Everything behind the cursor row.
unfoldable pub keyset_condition : List Text → List Text → Condition
keyset_condition (c ∷ []) vals = record { sql = quote_ident c ++ codes " > ?"; args = map str vals }
keyset_condition cols vals = record {
  sql = parens (quote_list cols) ++ (codes " > " ++ parens (placeholders (length cols)));
  args = map str vals;
}

-- `k[0]` of each key: the caller gives a value for each join column.
abbrev pub first_values : List (List Value) → List Value
first_values [] = []
first_values ([] ∷ ks) = null ∷ first_values ks
first_values ((v ∷ vs) ∷ ks) = v ∷ first_values ks

abbrev pub concat : List (List Value) → List Value
concat [] = []
concat (k ∷ ks) = k ++ concat ks

abbrev pub in_keys : List Text → List (List Value) → Condition
in_keys (c ∷ []) keys = record {
  sql = quote_ident c ++ (codes " IN " ++ parens (placeholders (length keys)));
  args = first_values keys;
}
in_keys cols keys = record {
  sql =
      parens (quote_list cols)
      ++ (codes " IN "
          ++ parens (join comma (replicate (length keys) (parens (placeholders (length cols))))));
  args = concat keys;
}

-- An empty set of keys matches nothing.
unfoldable pub in_condition : List Text → List (List Value) → Condition
in_condition cols [] = record { sql = codes "1=0"; args = [] }
in_condition cols (k ∷ ks) = in_keys cols (k ∷ ks)

abbrev pub field_name : Option Text → Text
field_name none = []
field_name (some s) = s

abbrev pub bind_key : Marshal → Text → Column → Option Value → Result Value
bind_key marshal name col none = err (missing_key name)
bind_key marshal name col (some null) = err (missing_key name)
bind_key marshal name col (some v) = bind_value marshal col v

abbrev pub key_name : TableInfo → Text → Text
key_name ti pk = field_name (lookup pk ti.col_to_field)

abbrev pub pk_column :
    Marshal
    → TableInfo
    → Fields
    → Text
    → Option Column
    → Result (List (Column × Value))
    → Result (List (Column × Value))
pk_column marshal ti args pk none rest = err (missing_key pk)
pk_column marshal ti args pk (some col) rest = do
  v ← bind_key marshal (key_name ti pk) col (lookup (key_name ti pk) (entries args))
  pairs ← rest
  ok ((col, v) ∷ pairs)

-- The column of each primary-key name with the value of its argument. A primary key names
-- columns of its table; `missing_key` stands where the code would find none.
unfoldable pub pk_values : Marshal → TableInfo → Fields → List Text → Result (List (Column × Value))
pk_values marshal ti args [] = ok []
pk_values marshal ti args (pk ∷ pks) =
    pk_column marshal ti args pk (lookup pk ti.table.column_map) (pk_values marshal ti args pks)

abbrev pub equals : Column × Value → Text
equals p = quote_ident p.0.name ++ codes " = ?"

-- Equality with every column of the primary key.
unfoldable pub pk_cond : Marshal → TableInfo → Fields → Result Condition
unfolding pk_values
pk_cond marshal ti args = do
  pairs ← pk_values marshal ti args ti.table.primary_key
  ok (record { sql = join (codes " AND ") (map equals pairs); args = map (λ p. p.1) pairs })
