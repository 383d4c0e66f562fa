-- ===== src/Introspect/Fresh.antt =====
-- What the column queries make of the tables that Load exposes, before it attaches the constraints.
use titanium_graph_api.Base.{
  ◌≡◌, inl, inr, refl, ◌∙◌, List, [], ◌∷◌, Text, true, Option, some, length, lookup, insert,
  lookup-insert, member, text_eq, text_eq_iff, text_eq_refl, if◌then◌else◌, Bool-cases,
  Option-cases, arith,
}
use titanium_graph_api.Results.{Result, ok, err, ◌>>=◌}
use titanium_graph_api.Catalog.{Table, is_some}
use titanium_graph_api.Introspect.{
  Tables, ColumnRow, Information, column_of, add_column, add_columns, load_columns, new_table,
  new_tables, load_all_columns,
}
use titanium_graph_api.Introspect.Columns.{IsTable, add_columns-IsTable, new_table-IsTable}
use titanium_graph_api.Introspect.Keys.{IsIn}

-- A table before its constraints are attached.
pub record IsFresh (name : Text) (t : Table) : Type 0 where
  pub named : t.name ≡ name
  pub table : IsTable t
  pub no_keys : t.foreign_keys ≡ []
  pub no_incoming : t.incoming_fks ≡ []

abbrev pub AllFresh : Tables → Type 0
AllFresh tables = (j : Text) (t : Table) → lookup j tables ≡ some t → IsFresh j t

pub table_eq : {a b : Table} → ◌≡◌ {A = Option Table} (some a) (some b) → b ≡ a
table_eq e = cc

insert-AllFresh :
    (name : Text) (t : Table) (tables : Tables)
    → IsFresh name t
    → AllFresh tables
    → AllFresh (insert name t tables)
insert-AllFresh name t tables f h j s e = elim (Bool-cases (text_eq name j)) [
  | inl same ↦
      let it = table_eq (rw (lookup-insert name j t tables, same) at e) in
      rw (it, ← (text_eq_iff name j).0 same) f
  | inr other ↦ h j s (rw (lookup-insert name j t tables, other) at e)
]

insert-IsIn :
    (name : Text) (t : Table) (tables : Tables) (j : Text)
    → is_some (lookup j (insert name t tables))
      ≡ (if text_eq name j then true else is_some (lookup j tables))
insert-IsIn name t tables j = ground (arith, lookup-insert name j t tables)

pub new_tables-AllFresh :
    (names : List Text) (tables : Tables) → AllFresh tables → AllFresh (new_tables names tables)
unfolding new_tables
new_tables-AllFresh [] tables h = h
new_tables-AllFresh (name ∷ names) tables h =
    new_tables-AllFresh names (insert name (new_table name) tables) (
      insert-AllFresh name (new_table name) tables
        (record {
          named = refl;
          table = new_table-IsTable name;
          no_keys = refl;
          no_incoming = refl;
        })
        h)

pub new_tables-IsIn :
    (names : List Text) (tables : Tables) (j : Text)
    → is_some (lookup j (new_tables names tables))
      ≡ (if member j names then true else is_some (lookup j tables))
unfolding new_tables member
new_tables-IsIn [] tables j = refl
new_tables-IsIn (name ∷ names) tables j = ground (
  arith,
  new_tables-IsIn names (insert name (new_table name) tables) j,
  insert-IsIn name (new_table name) tables j,
)

add_columns-keeps :
    (rows : List ColumnRow) (t : Table)
    → ((add_columns rows t).name ≡ t.name)
      × ((add_columns rows t).foreign_keys ≡ t.foreign_keys)
      × ((add_columns rows t).incoming_fks ≡ t.incoming_fks)
unfolding add_columns add_column
add_columns-keeps [] t = (refl, refl, refl)
add_columns-keeps (row ∷ rows) t =
    add_columns-keeps rows (add_column t (column_of (length t.columns) row))

add_columns-IsFresh :
    (rows : List ColumnRow) (name : Text) (t : Table)
    → IsFresh name t
    → IsFresh name (add_columns rows t)
add_columns-IsFresh rows name t f =
    let (a, b, c) = add_columns-keeps rows t in
    record {
      named = a ∙ f.named;
      table = add_columns-IsTable rows t f.table;
      no_keys = b ∙ f.no_keys;
      no_incoming = c ∙ f.no_incoming;
    }

-- What the column queries make of the tables, or the query that failed.
abbrev pub Loaded : Information → Text → Tables → Result Tables → Type 0
Loaded info schema before (ok after) =
    AllFresh after × ((j : Text) → is_some (lookup j after) ≡ is_some (lookup j before))
Loaded info schema before (err e) = (name : Text) × (info.columns_of schema name ≡ err e)

member_first : (name : Text) (names : List Text) → member name (name ∷ names) ≡ true
unfolding member
member_first name names = rw (text_eq_refl name) refl

member_rest :
    (j name : Text) (names : List Text) → member j names ≡ true → member j (name ∷ names) ≡ true
unfolding member
member_rest j name names h = elim (Bool-cases (text_eq name j)) [
  | inl e ↦ rw e refl
  | inr e ↦ rw e h
]

-- The table itself is in the map already.
reinsert-IsIn :
    (name : Text) (t : Table) (tables : Tables) (j : Text)
    → IsIn tables name
    → is_some (lookup j (insert name t tables)) ≡ is_some (lookup j tables)
reinsert-IsIn name t tables j h = elim (Bool-cases (text_eq name j)) [
  | inl same ↦ rw (insert-IsIn name t tables j, same, ← (text_eq_iff name j).0 same, h) refl
  | inr other ↦ rw (insert-IsIn name t tables j, other) refl
]

module _ (info : Information) (schema : Text) where
  Loaded-before :
      (one two : Tables) (r : Result Tables)
      → ((j : Text) → is_some (lookup j two) ≡ is_some (lookup j one))
      → Loaded info schema two r
      → Loaded info schema one r
  Loaded-before one two (ok after) h (a, b) = (a, λ j. b j ∙ h j)
  Loaded-before one two (err e) h l = l

  load_columns-then :
      (name : Text) (t : Table) (tables : Tables) (next : Table → Result Tables)
      → IsIn tables name
      → ((rows : List ColumnRow)
          → Loaded info schema
              (insert name (add_columns rows t) tables)
              (next (add_columns rows t)))
      → (r : Result (List ColumnRow)) → info.columns_of schema t.name ≡ r
      → Loaded info schema tables (r >>= (λ rows. ok (add_columns rows t)) >>= next)
  load_columns-then name t tables next h k (err e) q = (t.name, q)
  load_columns-then name t tables next h k (ok rows) q =
      Loaded-before tables (insert name (add_columns rows t) tables) (next (add_columns rows t))
        (λ j. reinsert-IsIn name (add_columns rows t) tables j h) (k rows)

  pub load_all_columns-Loaded :
      (names : List Text) (tables : Tables)
      → AllFresh tables
      → ((j : Text) → member j names ≡ true → IsIn tables j)
      → Loaded info schema tables (load_all_columns info schema names tables)
  unfolding load_all_columns load_columns
  load_all_columns-Loaded [] tables h k = (h, λ j. refl)
  load_all_columns-Loaded (name ∷ names) tables h k = elim (Option-cases (lookup name tables)) [
    | inl e ↦ cc (rw e at (k name (member_first name names)))
    | inr (t, e) ↦ rw e (
        load_columns-then name t tables
          (λ s. load_all_columns info schema names (insert name s tables))
          (k name (member_first name names))
          (λ rows.
            load_all_columns-Loaded names (insert name (add_columns rows t) tables)
              (insert-AllFresh name (add_columns rows t) tables
                (add_columns-IsFresh rows name t (h name t e)) h)
              (λ j m.
                rw
                  (reinsert-IsIn name (add_columns rows t) tables j
                    (k name (member_first name names)))
                  (k j (member_rest j name names m))))
          (info.columns_of schema t.name) refl)
  ]
