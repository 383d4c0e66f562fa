-- ===== src/Schema/Where/Access.antt =====
-- A filter that is translated names readable columns only, at every depth.
use titanium_graph_api.Base.{
  ◌≡◌, refl, List, [], ◌∷◌, ◌++◌, Text, true, Option, none, some, if◌then◌else◌, text_eq, lookup,
  member, arith, All, All-append, Bool-cases, inl, inr,
}
use titanium_graph_api.Value.{Value, arr, obj, Values, nil, cons, Fields, end, field}
use titanium_graph_api.Results.{Result, ok, err, ◌>>=◌}
use titanium_graph_api.Catalog.{Column}
use titanium_graph_api.Rbac.Resolve.{OpAccess}
use titanium_graph_api.Sql.{Condition}
use titanium_graph_api.Schema.{TableInfo, readable_col, readable_column}
use titanium_graph_api.Schema.Scalars.{Marshal}
use titanium_graph_api.Schema.Sorting.{sort_entries, sort_entries-All_inv}
use titanium_graph_api.Schema.Where.{
  Parts, gather, finish_where, is_list_key, not_key, on_column, plain_entry, where_entry,
  where_items, where_item, where_fields, where_sql,
}

-- The field is a column of the table that the role's select grant includes.
abbrev pub IsReadable : TableInfo → Text → Type 0
IsReadable ti key =
    (col : Column) × (sel : OpAccess) × (lookup key ti.field_to_col ≡ some col)
    × (ti.access.select ≡ some sel)
    × (member col.name sel.column_set ≡ true)

unfoldable mutual
  -- The fields that a filter compares, under any nesting of "_and", "_or" and "_not".
  pub named_in : Text → Value → List Text
  named_in key (arr vs) = named_items vs
  named_in key (obj fs) = if text_eq key not_key then named_fields fs else key ∷ []
  named_in key v = []

  pub named_items : Values → List Text
  named_items nil = []
  named_items (cons v vs) = named_item v ++ named_items vs

  pub named_item : Value → List Text
  named_item (obj fs) = named_fields fs
  named_item v = []

  pub named_fields : Fields → List Text
  named_fields end = []
  named_fields (field k v fs) = named_in k v ++ named_fields fs

abbrev Succeeds {ℓ} : {A : Type ℓ} → Result A → Type 0
Succeeds (ok a) = Unit
Succeeds (err e) = ⊥

>>=-Succeeds {ℓ κ} :
    {A : Type ℓ} {B : Type κ} (m : Result A) (f : A → Result B) → Succeeds (m >>= f) → Succeeds m
>>=-Succeeds (ok a) f h = tt
>>=-Succeeds (err e) f h = h

>>=-Succeeds_both {ℓ κ ι} :
    {A : Type ℓ} {B : Type κ} {C : Type ι} (m : Result A) (n : Result B) (f : A → B → Result C)
    → Succeeds (m >>= λ a. n >>= f a)
    → Succeeds m × Succeeds n
>>=-Succeeds_both (ok a) (ok b) f h = (tt, tt)
>>=-Succeeds_both (ok a) (err e) f h = absurd h
>>=-Succeeds_both (err e) n f h = absurd h

abbrev EntrySucceeds : Text × Result Parts → Type 0
EntrySucceeds (k, r) = Succeeds r

gather-Succeeds : (rs : List (Text × Result Parts)) → Succeeds (gather rs) → All EntrySucceeds rs
unfolding gather
gather-Succeeds [] h = tt
gather-Succeeds ((k, r) ∷ rest) h =
    let (here, later) = >>=-Succeeds_both r (gather rest) _ h in (here, gather-Succeeds rest later)

finish_where-Succeeds :
    (rs : List (Text × Result Parts)) → Succeeds (finish_where rs) → All EntrySucceeds rs
unfolding finish_where
finish_where-Succeeds rs h =
    sort_entries-All_inv EntrySucceeds rs (gather-Succeeds (sort_entries rs) (>>=-Succeeds _ _ h))

plain_entry-fails : (ti : TableInfo) (key : Text) → ¬ Succeeds (plain_entry ti key)
unfolding plain_entry
plain_entry-fails ti key h = ground arith

readable_col-eq-some :
    (select : Option OpAccess) (o : Option Column) {col : Column}
    → readable_col select o ≡ some col
    → (c : Column) × (sel : OpAccess) × (o ≡ some c)
      × (select ≡ some sel)
      × (member c.name sel.column_set ≡ true)
readable_col-eq-some select none h = cc
readable_col-eq-some none (some c) h = cc
readable_col-eq-some (some sel) (some c) h = (c, sel, refl, refl, ground arith)

readable_column-IsReadable :
    (ti : TableInfo) (key : Text) {col : Column}
    → readable_column ti key ≡ some col
    → IsReadable ti key
unfolding readable_column
readable_column-IsReadable ti key h =
    readable_col-eq-some ti.access.select (lookup key ti.field_to_col) h

module _ (marshal : Marshal) (ti : TableInfo) where
  on_column-IsReadable :
      (key : Text) (ops : Fields) (o : Option Column)
      → readable_column ti key ≡ o
      → Succeeds (on_column marshal key ops o)
      → IsReadable ti key
  on_column-IsReadable key ops none e h = absurd h
  on_column-IsReadable key ops (some col) e h = readable_column-IsReadable ti key e

  mutual
    unfolding where_entry named_in

    where_entry-names :
        (key : Text) (v : Value)
        → Succeeds (where_entry marshal ti key v)
        → All (IsReadable ti) (named_in key v)
    where_entry-names key (arr vs) h = elim (Bool-cases (is_list_key key)) [
      | inl e ↦
          where_items-names key vs (>>=-Succeeds (where_items marshal ti key vs) _ (rw e at h))
      | inr e ↦ absurd (plain_entry-fails ti key (rw e at h))
    ]
    where_entry-names key (obj fs) h = elim (Bool-cases (is_list_key key)) [
      | inl e ↦ absurd (rw e at h)
      | inr e ↦ elim (Bool-cases (text_eq key not_key)) [
        | inl n ↦ rw n (
            where_fields-names fs (
              finish_where-Succeeds _
                (>>=-Succeeds (finish_where (where_fields marshal ti fs)) _ (rw (e, n) at h))))
        | inr n ↦
            rw n (on_column-IsReadable key fs (readable_column ti key) refl (rw (e, n) at h), tt)
      ]
    ]
    where_entry-names key v h = tt

    where_items-names :
        (key : Text) (vs : Values)
        → Succeeds (where_items marshal ti key vs)
        → All (IsReadable ti) (named_items vs)
    where_items-names key nil h = tt
    where_items-names key (cons v vs) h =
        let (here, later) =
          >>=-Succeeds_both (where_item marshal ti key v) (where_items marshal ti key vs) _ h in
        All-append (IsReadable ti) (named_item v) (named_items vs) (where_item-names key v here)
          (where_items-names key vs later)

    where_item-names :
        (key : Text) (v : Value)
        → Succeeds (where_item marshal ti key v)
        → All (IsReadable ti) (named_item v)
    where_item-names key (obj fs) h = where_fields-names fs (finish_where-Succeeds _ h)
    where_item-names key v h = tt

    where_fields-names :
        (fs : Fields)
        → All EntrySucceeds (where_fields marshal ti fs)
        → All (IsReadable ti) (named_fields fs)
    where_fields-names end h = tt
    where_fields-names (field k v fs) (p, h) =
        All-append (IsReadable ti) (named_in k v) (named_fields fs) (where_entry-names k v p)
          (where_fields-names fs h)

  -- A filter is translated only if every field that it compares, at any depth, is a column that the
  -- role's select grant includes: no hidden column can be probed.
  pub where_sql-IsReadable :
      (expr : Fields) {c : Condition}
      → where_sql marshal ti expr ≡ ok c
      → All (IsReadable ti) (named_fields expr)
  unfolding where_sql
  where_sql-IsReadable expr h = where_fields-names expr (finish_where-Succeeds _ (rw h tt))
