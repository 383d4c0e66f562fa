-- ===== src/Introspect/Keys.antt =====
-- loadForeignKeys: which constraints each table ends up with, and how they are put together.
use titanium_graph_api.Base.{
  ◌<◌, ◌≡◌, inl, inr, refl, List, [], ◌∷◌, ◌++◌, Text, Bool, true, false, ◌&&◌, Option, none, some,
  length, length-append, lookup, insert, lookup-insert, lookup-All, text_eq, text_eq_iff,
  append-nil, append_assoc, if◌then◌else◌, Bool-cases, Option-cases, All, arith,
}
use titanium_graph_api.Results.{ok}
use titanium_graph_api.Catalog.{ForeignKey, Table, is_some}
use titanium_graph_api.Introspect.{
  Tables, KeyRow, key_so_far, with_pair, constraint_key, Constraints, add_key_row, group_keys,
  outgoing, incoming, change, attach, attach_all,
}

-- The constraints of which the table is the referencing, or the referenced, one.
unfoldable pub keys_from : Text → Constraints → List ForeignKey
keys_from name [] = []
keys_from name ((key, fk) ∷ fks) =
    if text_eq fk.table name then fk ∷ keys_from name fks else keys_from name fks

unfoldable pub keys_to : Text → Constraints → List ForeignKey
keys_to name [] = []
keys_to name ((key, fk) ∷ fks) =
    if text_eq fk.ref_table name then fk ∷ keys_to name fks else keys_to name fks

-- A table with all its constraints added at the end.
abbrev pub linked : Constraints → Text → Option Table → Option Table
linked fks name none = none
linked fks name (some t) = some (record t {
  foreign_keys = t.foreign_keys ++ keys_from name fks;
  incoming_fks = t.incoming_fks ++ keys_to name fks;
})

abbrev pub IsIn : Tables → Text → Type 0
IsIn tables name = is_some (lookup name tables) ≡ true

-- Both ends are exposed, and the pairs of columns match up.
abbrev pub IsBetween : Tables → ForeignKey → Type 0
IsBetween tables fk =
    IsIn tables fk.table
    × IsIn tables fk.ref_table
    × (length fk.columns ≡ length fk.ref_columns)
    × (0 < length fk.columns)

abbrev changed : (Table → Table) → Option Table → Option Table
changed f none = none
changed f (some t) = some (f t)

-- What a change of one table makes of each.
abbrev Changes : Tables → Text → (Table → Table) → Tables → Type 0
Changes tables name f after =
    (j : Text)
    → lookup j after ≡ (if text_eq name j then changed f (lookup j tables) else lookup j tables)

change-Changes :
    (name : Text) (f : Table → Table) (tables : Tables)
    → IsIn tables name
    → (after : Tables) × (change name f tables (lookup name tables) ≡ ok after)
      × Changes tables name f after
change-Changes name f tables h = elim (Option-cases (lookup name tables)) [
  | inl e ↦ cc (rw e at h)
  | inr (t, e) ↦ (
    insert name (f t) tables,
    rw e refl,
    λ j. elim (Bool-cases (text_eq name j)) [
      | inl same ↦
          rw (lookup-insert name j (f t) tables, same, ← (text_eq_iff name j).0 same, e) refl
      | inr other ↦ rw (lookup-insert name j (f t) tables, other) refl
    ],
  )
]

changed-is_some : (f : Table → Table) (o : Option Table) → is_some (changed f o) ≡ is_some o
changed-is_some f none = refl
changed-is_some f (some t) = refl

Changes-IsIn :
    (tables after : Tables) (name : Text) (f : Table → Table) (j : Text)
    → Changes tables name f after
    → IsIn tables j
    → IsIn after j
Changes-IsIn tables after name f j c h = elim (Bool-cases (text_eq name j)) [
  | inl same ↦ rw (c j, same, changed-is_some f (lookup j tables)) h
  | inr other ↦ rw (c j, other) h
]

-- Both ends in turn.
abbrev linked_one : ForeignKey → Text → Option Table → Option Table
linked_one fk j o =
    let from = if text_eq fk.table j then changed (outgoing fk) o else o in
    if text_eq fk.ref_table j then changed (incoming fk) from else from

attach-linked_one :
    (fk : ForeignKey) (tables : Tables)
    → IsIn tables fk.table
    → IsIn tables fk.ref_table
    → (after : Tables) × (attach fk tables ≡ ok after)
      × ((j : Text) → lookup j after ≡ linked_one fk j (lookup j tables))
unfolding attach
attach-linked_one fk tables h k =
    let (one, e, c) = change-Changes fk.table (outgoing fk) tables h in
    let (two, f, d) =
      change-Changes fk.ref_table (incoming fk) one
        (Changes-IsIn tables one fk.table (outgoing fk) fk.ref_table c k) in
    (two, rw (e, f) refl, λ j. rw (d j, c j) refl)

linked-cons :
    (key : Text) (fk : ForeignKey) (fks : Constraints) (j : Text) (o : Option Table)
    → linked fks j (linked_one fk j o) ≡ linked ((key, fk) ∷ fks) j o
unfolding keys_from keys_to
linked-cons key fk fks j none = ground arith
linked-cons key fk fks j (some t) = elim (Bool-cases (text_eq fk.table j)) [
  | inl a ↦ elim (Bool-cases (text_eq fk.ref_table j)) [
    | inl b ↦ rw (a, b) (simp append_assoc)
    | inr b ↦ rw (a, b) (simp append_assoc)
  ]
  | inr a ↦ elim (Bool-cases (text_eq fk.ref_table j)) [
    | inl b ↦ rw (a, b) (simp append_assoc)
    | inr b ↦ rw (a, b) refl
  ]
]

linked-nil : (j : Text) (o : Option Table) → o ≡ linked [] j o
unfolding keys_from keys_to
linked-nil j none = refl
linked-nil j (some t) = simp append-nil

linked_one-IsIn :
    (fk : ForeignKey) (j : Text) (o : Option Table) → is_some (linked_one fk j o) ≡ is_some o
linked_one-IsIn fk j o = ground (arith, changed-is_some (outgoing fk) o)

abbrev pub AreBetween : Tables → Constraints → Type 0
AreBetween tables fks = All (λ e. IsBetween tables e.1) fks

AreBetween-after :
    (tables after : Tables) (fk : ForeignKey) (fks : Constraints)
    → ((j : Text) → lookup j after ≡ linked_one fk j (lookup j tables))
    → AreBetween tables fks
    → AreBetween after fks
AreBetween-after tables after fk [] c h = tt
AreBetween-after tables after fk ((key, g) ∷ fks) c ((a, b, e, n), h) = (
  (
    rw (c g.table, linked_one-IsIn fk g.table (lookup g.table tables)) a,
    rw (c g.ref_table, linked_one-IsIn fk g.ref_table (lookup g.ref_table tables)) b,
    e,
    n,
  ),
  AreBetween-after tables after fk fks c h,
)

-- Constraints between exposed tables are all attached, in their order, to both ends.
pub attach_all-linked :
    (fks : Constraints) (tables : Tables)
    → AreBetween tables fks
    → (after : Tables) × (attach_all fks tables ≡ ok after)
      × ((j : Text) → lookup j after ≡ linked fks j (lookup j tables))
unfolding attach_all
attach_all-linked [] tables h = (tables, refl, λ j. linked-nil j (lookup j tables))
attach_all-linked ((key, fk) ∷ fks) tables ((a, b, e, n), h) =
    let (one, f, c) = attach-linked_one fk tables a b in
    let (two, g, d) = attach_all-linked fks one (AreBetween-after tables one fk fks c h) in
    (two, rw (f, g) refl, λ j. rw (d j, c j) (linked-cons key fk fks j (lookup j tables)))

insert-AreBetween :
    (tables : Tables) (key : Text) (fk : ForeignKey) (m : Constraints)
    → IsBetween tables fk
    → AreBetween tables m
    → AreBetween tables (insert key fk m)
unfolding insert
insert-AreBetween tables key fk [] b h = (b, tt)
insert-AreBetween tables key fk ((j, g) ∷ m) b (c, h) = elim (Bool-cases (text_eq j key)) [
  | inl same ↦ rw same (b, h)
  | inr other ↦ rw other (c, insert-AreBetween tables key fk m b h)
]

add_key_row-AreBetween :
    (tables : Tables) (row : KeyRow) (m : Constraints)
    → IsIn tables row.table
    → IsIn tables row.ref_table
    → AreBetween tables m
    → AreBetween tables (add_key_row row m)
unfolding add_key_row
add_key_row-AreBetween tables row m a b h =
    insert-AreBetween tables (constraint_key row) _ m
      (with_pair-IsBetween (lookup (constraint_key row) m) refl) h
  where
    with_pair-IsBetween :
        (o : Option ForeignKey)
        → lookup (constraint_key row) m ≡ o
        → IsBetween tables (with_pair row (key_so_far row o))
    with_pair-IsBetween none e = (a, b, refl, omega arith)
    with_pair-IsBetween (some fk) e =
        let (c, d, n, p) = lookup-All (IsBetween tables) (constraint_key row) m h e in
        (
          c,
          d,
          omega (
            arith,
            n,
            length-append fk.columns (row.column ∷ []),
            length-append fk.ref_columns (row.ref_column ∷ []),
          ),
          omega (arith, length-append fk.columns (row.column ∷ [])),
        )

both : (a b : Bool) → (a && b) ≡ true → (a ≡ true) × (b ≡ true)
both true true h = (refl, refl)
both true false h = cc
both false b h = cc

-- Only constraints between exposed tables are grouped, and each has as many columns on the one side
-- as on the other.
pub group_keys-AreBetween :
    (tables : Tables) (rows : List KeyRow) (m : Constraints)
    → AreBetween tables m
    → AreBetween tables (group_keys tables rows m)
unfolding group_keys
group_keys-AreBetween tables [] m h = h
group_keys-AreBetween tables (row ∷ rows) m h =
    elim (Bool-cases (is_some (lookup row.table tables) && is_some (lookup row.ref_table tables))) [
      | inl e ↦
          let (a, b) =
            both (is_some (lookup row.table tables)) (is_some (lookup row.ref_table tables)) e in
          rw e (
            group_keys-AreBetween tables rows (add_key_row row m)
              (add_key_row-AreBetween tables row m a b h))
      | inr e ↦ rw e (group_keys-AreBetween tables rows m h)
    ]
