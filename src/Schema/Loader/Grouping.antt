-- ===== src/Schema/Loader/Grouping.antt =====
-- The groups of a loader: the bucket of a signature, and what a lookup finds after a merge.
use titanium_graph_api.Base.{
  ◌≡◌, refl, List, [], ◌∷◌, ◌++◌, Text, Bool, true, false, if◌then◌else◌, text_eq, Bool-cases, inl,
  inr, lookup-insert, append_assoc, append-nil, lookup, Option, none, some, sym, ◌∙◌, text_eq_iff,
}
use titanium_graph_api.Schema.Loader.{
  Key, Row, Groups, rows_at, row_key, add_row, group_onto, group_by_columns, merge,
}

abbrev pub first_of : Option (List Row) → Option (List Row) → Option (List Row)
first_of (some r) o = some r
first_of none o = o

pub lookup-merge :
    (s : Text) (res m : Groups) → lookup s (merge res m) ≡ first_of (lookup s res) (lookup s m)
unfolding lookup merge
lookup-merge s [] m = refl
lookup-merge s ((t, rows) ∷ res) m = elim (Bool-cases (text_eq t s)) [
  | inl e ↦ rw (lookup-insert t s rows (merge res m), e) refl
  | inr e ↦ rw (lookup-insert t s rows (merge res m), e) (lookup-merge s res m)
]

module _ (key_sig : Key → Text) (cols : List Text) where
  -- The rows with the given signature, in order.
  unfoldable pub with_sig : Text → List Row → List Row
  with_sig s [] = []
  with_sig s (row ∷ rows) =
      if text_eq (key_sig (row_key key_sig cols row)) s
      then row ∷ with_sig s rows
      else with_sig s rows

  bucket_cons :
      (b : Bool) (kept old : List Row) (row : Row) (rest : List Row)
      → kept ≡ (if b then old ++ row ∷ [] else old)
      → kept ++ rest ≡ old ++ (if b then row ∷ rest else rest)
  bucket_cons true kept old row rest e = rw e (append_assoc old (row ∷ []) rest)
  bucket_cons false kept old row rest e = rw e refl

  rows_at-add_row :
      (s t : Text) (row : Row) (m : Groups)
      → rows_at s (add_row key_sig t row m)
        ≡ (if text_eq t s then rows_at t m ++ row ∷ [] else rows_at s m)
  rows_at-add_row s t row m = elim (Bool-cases (text_eq t s)) [
    | inl e ↦ rw (lookup-insert t s (rows_at t m ++ row ∷ []) m, e) refl
    | inr e ↦ rw (lookup-insert t s (rows_at t m ++ row ∷ []) m, e) refl
  ]

  same_bucket :
      (s t : Text) (row : Row) (m : Groups)
      → rows_at s (add_row key_sig t row m)
        ≡ (if text_eq t s then rows_at s m ++ row ∷ [] else rows_at s m)
  same_bucket s t row m = elim (Bool-cases (text_eq t s)) [
    | inl e ↦ cc (rows_at-add_row s t row m, e, (text_eq_iff t s).0 e)
    | inr e ↦ rw (rows_at-add_row s t row m, e) refl
  ]

  group_onto_lem :
      (s : Text) (rows : List Row) (m : Groups)
      → rows_at s (group_onto key_sig cols rows m) ≡ rows_at s m ++ with_sig s rows
  unfolding group_onto with_sig
  group_onto_lem s [] m = sym (append-nil (rows_at s m))
  group_onto_lem s (row ∷ rows) m =
      let t = key_sig (row_key key_sig cols row) in
      group_onto_lem s rows (add_row key_sig t row m)
      ∙ bucket_cons (text_eq t s) _ (rows_at s m) row (with_sig s rows) (same_bucket s t row m)

  -- The bucket of a signature holds exactly the rows whose join columns have that signature, in
  -- the order in which the query returned them.
  group_by_columns_lem :
      (s : Text) (rows : List Row)
      → rows_at s (group_by_columns key_sig rows cols) ≡ with_sig s rows
  unfolding group_by_columns lookup
  group_by_columns_lem s rows = group_onto_lem s rows []
