-- ===== src/Introspect/Columns.antt =====
-- loadColumns: the three views of a table's columns agree.
use titanium_graph_api.Base.{
  ℕ, zero, suc, ◌≡◌, ◌≢◌, ◌⊎◌, inl, inr, refl, sym, ap, ◌∙◌, List, [], ◌∷◌, ◌++◌, Text, true,
  Option, none, some, get_elem?, length, lookup, insert, lookup-insert, text_eq, text_eq_iff,
  if◌then◌else◌, Bool-cases, arith,
}
use titanium_graph_api.Catalog.{Column, Table}
use titanium_graph_api.Introspect.{ColumnRow, column_of, add_column, add_columns, new_table}

-- The names of the primary columns, in the order of the columns.
unfoldable pub primary_names : List Column → List Text
primary_names [] = []
primary_names (c ∷ cs) = if c.is_primary then c.name ∷ primary_names cs else primary_names cs

pub record IsTable (t : Table) : Type 0 where
  pub positions : (i : ℕ) (c : Column) → get_elem? t.columns i ≡ some c → c.ordinal ≡ i
  pub mapped :
      (name : Text) (c : Column)
      → lookup name t.column_map ≡ some c
      → (c.name ≡ name) × (get_elem? t.columns c.ordinal ≡ some c)
  pub complete :
      (i : ℕ) (c : Column) → get_elem? t.columns i ≡ some c → lookup c.name t.column_map ≢ none
  pub primary : t.primary_key ≡ primary_names t.columns
  pub computed :
      (i : ℕ) (c : Column)
      → get_elem? t.columns i ≡ some c
      → (c.auto_increment ≡ true) ⊎ (c.generated ≡ true)
      → c.has_default ≡ true

module _ {ℓ} {A : Type ℓ} where
  get_elem?-length : (xs : List A) (x : A) → get_elem? (xs ++ x ∷ []) (length xs) ≡ some x
  get_elem?-length [] x = refl
  get_elem?-length (y ∷ ys) x = get_elem?-length ys x

  get_elem?-at : (xs : List A) (x : A) (i : ℕ) → i ≡ length xs → get_elem? (xs ++ x ∷ []) i ≡ some x
  get_elem?-at xs x i e = rw e (get_elem?-length xs x)

  get_elem?-append :
      (xs : List A) (x : A) (i : ℕ) (y : A)
      → get_elem? xs i ≡ some y
      → get_elem? (xs ++ x ∷ []) i ≡ some y
  get_elem?-append [] x i y h = cc
  get_elem?-append (z ∷ zs) x zero y h = h
  get_elem?-append (z ∷ zs) x (suc i) y h = get_elem?-append zs x i y h

  get_elem?-snoc :
      (xs : List A) (x : A) (i : ℕ) (y : A)
      → get_elem? (xs ++ x ∷ []) i ≡ some y
      → (get_elem? xs i ≡ some y) ⊎ ((i ≡ length xs) × (x ≡ y))
  get_elem?-snoc [] x zero y h = inr (refl, cc)
  get_elem?-snoc [] x (suc i) y h = cc
  get_elem?-snoc (z ∷ zs) x zero y h = inl h
  get_elem?-snoc (z ∷ zs) x (suc i) y h = elim (get_elem?-snoc zs x i y h) [
    | inl e ↦ inl e
    | inr (e, f) ↦ inr (ap suc e, f)
  ]

primary_names-snoc :
    (cs : List Column) (c : Column)
    → primary_names (cs ++ c ∷ [])
      ≡ (if c.is_primary then primary_names cs ++ c.name ∷ [] else primary_names cs)
unfolding primary_names
primary_names-snoc [] c = refl
primary_names-snoc (d ∷ cs) c = ground (arith, primary_names-snoc cs c)

-- A column that takes the next position, and has a default if the database computes it.
record IsNext (t : Table) (c : Column) : Type 0 where
  position : c.ordinal ≡ length t.columns
  default : (c.auto_increment ≡ true) ⊎ (c.generated ≡ true) → c.has_default ≡ true

some_eq : {a b : Column} → ◌≡◌ {A = Option Column} (some a) (some b) → a ≡ b
some_eq e = cc

module _ (t : Table) (c : Column) (h : IsTable t) (n : IsNext t c) where
  next_positions : (i : ℕ) (d : Column) → get_elem? (t.columns ++ c ∷ []) i ≡ some d → d.ordinal ≡ i
  next_positions i d e = elim (get_elem?-snoc t.columns c i d e) [
    | inl old ↦ h.positions i d old
    | inr (at, same) ↦ rw (← same) (n.position ∙ sym at)
  ]

  next_mapped :
      (name : Text) (d : Column)
      → lookup name (insert c.name c t.column_map) ≡ some d
      → (d.name ≡ name) × (get_elem? (t.columns ++ c ∷ []) d.ordinal ≡ some d)
  next_mapped name d e = elim (Bool-cases (text_eq c.name name)) [
    | inl same ↦
        let it = some_eq (rw (lookup-insert c.name name c t.column_map, same) at e) in
        rw (← it) ((text_eq_iff c.name name).0 same, get_elem?-at t.columns c c.ordinal n.position)
    | inr other ↦
        let (f, g) = h.mapped name d (rw (lookup-insert c.name name c t.column_map, other) at e) in
        (f, get_elem?-append t.columns c d.ordinal d g)
  ]

  next_complete :
      (i : ℕ) (d : Column)
      → get_elem? (t.columns ++ c ∷ []) i ≡ some d
      → lookup d.name (insert c.name c t.column_map) ≢ none
  next_complete i d e k = elim (get_elem?-snoc t.columns c i d e) [
    | inl old ↦ ground (arith, lookup-insert c.name d.name c t.column_map, h.complete i d old, k)
    | inr (at, same) ↦
        let own : c.name ≡ d.name = ap (λ x. x.name) same in
        ground
          (arith, lookup-insert c.name d.name c t.column_map, text_eq_iff c.name d.name, own, k)
  ]

  next_computed :
      (i : ℕ) (d : Column)
      → get_elem? (t.columns ++ c ∷ []) i ≡ some d
      → (d.auto_increment ≡ true) ⊎ (d.generated ≡ true)
      → d.has_default ≡ true
  next_computed i d e k = elim (get_elem?-snoc t.columns c i d e) [
    | inl old ↦ h.computed i d old k
    | inr (at, same) ↦ rw (← same) (n.default (rw (← same) at k))
  ]

  add_column-IsTable : IsTable (add_column t c)
  unfolding add_column
  add_column-IsTable = record {
    positions = next_positions;
    mapped = next_mapped;
    complete = next_complete;
    primary = rw (h.primary) (sym (primary_names-snoc t.columns c));
    computed = next_computed;
  }

column_of-IsNext : (t : Table) (row : ColumnRow) → IsNext t (column_of (length t.columns) row)
unfolding column_of
column_of-IsNext t row = record { position = refl; default = λ h. ground arith }

pub add_columns-IsTable :
    (rows : List ColumnRow) (t : Table) → IsTable t → IsTable (add_columns rows t)
unfolding add_columns
add_columns-IsTable [] t h = h
add_columns-IsTable (row ∷ rows) t h =
    add_columns-IsTable rows (add_column t (column_of (length t.columns) row))
      (add_column-IsTable t (column_of (length t.columns) row) h (column_of-IsNext t row))

pub new_table-IsTable : (name : Text) → IsTable (new_table name)
unfolding lookup primary_names
new_table-IsTable name = record {
  positions = λ i c e. cc;
  mapped = λ n c e. cc;
  complete = λ i c e. cc;
  primary = refl;
  computed = λ i c e k. cc;
}
