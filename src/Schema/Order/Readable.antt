-- ===== src/Schema/Order/Readable.antt =====
-- An ORDER BY list names readable columns only, and is closed text.
use titanium_graph_api.Base.{
  ◌≡◌, ◌⊎◌, refl, List, [], ◌∷◌, ◌++◌, Text, true, Option, none, some, codes, text_eq, text_eq_iff,
  ltb, map, All, All-append, Bool-cases, inl, inr, arith, lookup,
}
use titanium_graph_api.Value.{Value, null, Values, nil, cons, Fields, end, field, as_obj, as_str}
use titanium_graph_api.Results.{
  Result, ok, err, ◌>>=◌, Ensures, Ensures-bind, Ensures-if, Ensures-eq-ok,
}
use titanium_graph_api.Catalog.{Column}
use titanium_graph_api.Rbac.Resolve.{OpAccess}
use titanium_graph_api.Sql.{quote_ident, comma}
use titanium_graph_api.Sql.Lexer.{scan, marks, Reads}
use titanium_graph_api.Sql.Quoting.{quote_ident-Reads}
use titanium_graph_api.Sql.Bound.{ReadsAll, Reads-join, Reads-extend, comma-Reads}
use titanium_graph_api.Schema.{TableInfo, readable_column, readable_col, in_set}
use titanium_graph_api.Schema.Order.{
  SortKey, is_direction, order_key, order_column, order_entry, insert_by_ordinal, sort_by_ordinal,
  order_object, order_item, order_keys, order_text, order_columns,
}

-- A column in the role's select grant, with one of the two directions.
pub record IsSortKey (ti : TableInfo) (key : SortKey) : Type 0 where
  pub in_grant : in_set ti.access.select key.0.name ≡ true
  pub direction : (key.1 ≡ codes "ASC") ⊎ (key.1 ≡ codes "DESC")

direction_cases :
    (dir : Text) → is_direction dir ≡ true → (dir ≡ codes "ASC") ⊎ (dir ≡ codes "DESC")
unfolding is_direction
direction_cases dir h = elim (Bool-cases (text_eq dir (codes "ASC"))) [
  | inl e ↦ inl ((text_eq_iff dir (codes "ASC")).0 e)
  | inr e ↦ inr ((text_eq_iff dir (codes "DESC")).0 (rw e at h))
]

readable_col_granted :
    (select : Option OpAccess) (o : Option Column) {col : Column}
    → readable_col select o ≡ some col
    → in_set select col.name ≡ true
readable_col_granted select none h = cc
readable_col_granted none (some c) h = cc
readable_col_granted (some sel) (some c) h = ground arith

-- The keys that a step finds are in_grant.
abbrev AreSortKeys : TableInfo → List SortKey → Type 0
AreSortKeys ti keys = All (IsSortKey ti) keys

abbrev Yields : TableInfo → Result (List SortKey) → Type 0
Yields ti r = Ensures (AreSortKeys ti) r

module _ (ti : TableInfo) where
  order_key-Yields :
      (name : Text) (col : Column) (o : Option Text)
      → in_set ti.access.select col.name ≡ true
      → Yields ti (order_key name col o)
  order_key-Yields name col none g = tt
  order_key-Yields name col (some dir) g =
      Ensures-if (AreSortKeys ti) (is_direction dir) _ _
        (λ e. (record { in_grant = g; direction = direction_cases dir e }, tt)) (λ e. tt)

  order_column-Yields :
      (name : Text) (v : Value) (o : Option Column)
      → readable_column ti name ≡ o
      → Yields ti (order_column name v o)
  unfolding readable_column
  order_column-Yields name v none e = tt
  order_column-Yields name v (some col) e =
      order_key-Yields name col (as_str v)
        (readable_col_granted ti.access.select (lookup name ti.field_to_col) e)

  order_entry-Yields : (name : Text) (v : Value) → Yields ti (order_entry ti name v)
  unfolding order_entry
  order_entry-Yields name null = tt
  order_entry-Yields name v = order_column-Yields name v (readable_column ti name) refl

  append-Yields :
      (r s : Result (List SortKey))
      → Yields ti r
      → Yields ti s
      → Yields ti (r >>= λ here. s >>= λ rest. ok (here ++ rest))
  append-Yields (ok a) (ok b) h k = All-append (IsSortKey ti) a b h k
  append-Yields (ok a) (err e) h k = tt
  append-Yields (err e) s h k = tt

  order_object-Yields : (fs : Fields) → Yields ti (order_object ti fs)
  unfolding order_object
  order_object-Yields end = tt
  order_object-Yields (field name v fs) =
      append-Yields (order_entry ti name v) (order_object ti fs) (order_entry-Yields name v)
        (order_object-Yields fs)

  insert_by_ordinal-AreSortKeys :
      (p : SortKey) (ps : List SortKey)
      → IsSortKey ti p
      → AreSortKeys ti ps
      → AreSortKeys ti (insert_by_ordinal p ps)
  unfolding insert_by_ordinal
  insert_by_ordinal-AreSortKeys p [] h k = (h, tt)
  insert_by_ordinal-AreSortKeys p (q ∷ qs) h (g, k) =
      elim (Bool-cases (ltb q.0.ordinal p.0.ordinal)) [
        | inl e ↦ rw e (g, insert_by_ordinal-AreSortKeys p qs h k)
        | inr e ↦ rw e (h, (g, k))
      ]

  sort_by_ordinal-AreSortKeys :
      (ps : List SortKey) → AreSortKeys ti ps → AreSortKeys ti (sort_by_ordinal ps)
  unfolding sort_by_ordinal
  sort_by_ordinal-AreSortKeys [] h = tt
  sort_by_ordinal-AreSortKeys (p ∷ ps) (h, k) =
      insert_by_ordinal-AreSortKeys p (sort_by_ordinal ps) h (sort_by_ordinal-AreSortKeys ps k)

  order_item-Yields : (o : Option Fields) → Yields ti (order_item ti o)
  order_item-Yields none = tt
  order_item-Yields (some fs) =
      Ensures-bind (AreSortKeys ti) (AreSortKeys ti) (order_object ti fs) _ (order_object-Yields fs)
        sort_by_ordinal-AreSortKeys

  order_keys-Yields : (vs : Values) → Yields ti (order_keys ti vs)
  unfolding order_keys
  order_keys-Yields nil = tt
  order_keys-Yields (cons v vs) =
      append-Yields (order_item ti (as_obj v)) (order_keys ti vs) (order_item-Yields (as_obj v))
        (order_keys-Yields vs)

  -- If an order_by list is translated, each of its sort keys is a column of the role's select
  -- grant with the direction ASC or DESC.
  order_keys-IsSortKey :
      (vs : Values) {keys : List SortKey} → order_keys ti vs ≡ ok keys → All (IsSortKey ti) keys
  order_keys-IsSortKey vs h =
      Ensures-eq-ok (AreSortKeys ti) (order_keys ti vs) (order_keys-Yields vs) h

  direction-Reads :
      (dir : Text) → (dir ≡ codes "ASC") ⊎ (dir ≡ codes "DESC") → Reads (codes " " ++ dir) 0
  unfolding scan marks
  direction-Reads dir (inl e) = rw e (record { closed = refl; count = refl })
  direction-Reads dir (inr e) = rw e (record { closed = refl; count = refl })

  order_text-ReadsAll :
      (keys : List SortKey) → AreSortKeys ti keys → ReadsAll (map order_text keys) 0
  order_text-ReadsAll [] h = refl
  order_text-ReadsAll ((col, dir) ∷ keys) (h, k) = (
    0,
    0,
    Reads-extend (quote_ident col.name) (codes " " ++ dir) 0 (quote_ident-Reads col.name)
        (direction-Reads dir h.direction),
    order_text-ReadsAll keys k,
    refl,
  )

  -- The text of an ORDER BY list is closed and has no placeholder.
  pub order_columns-Reads : (vs : Values) → Ensures (λ s. Reads s 0) (order_columns ti vs)
  unfolding order_columns
  order_columns-Reads vs =
      Ensures-bind (AreSortKeys ti) (λ s. Reads s 0) (order_keys ti vs) _ (order_keys-Yields vs)
        (λ keys h.
          Reads-join comma (map order_text keys) 0 comma-Reads (order_text-ReadsAll keys h))
