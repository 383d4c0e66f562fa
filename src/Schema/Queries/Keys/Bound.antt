-- ===== src/Schema/Queries/Keys/Bound.antt =====
-- The conditions on keys have as many placeholders as arguments.
use titanium_graph_api.Base.{
  ℕ, suc, ◌≡◌, refl, ap, List, [], ◌∷◌, ◌++◌, Text, codes, join, map, length, replicate, arith,
  length-map, length-append, All,
}
use titanium_graph_api.Value.{Value, str, Fields}
use titanium_graph_api.Results.{Result, ok, err, Ensures, Ensures-bind}
use titanium_graph_api.Catalog.{Column}
use titanium_graph_api.Sql.{quote_ident, quote_list, placeholders, comma, parens}
use titanium_graph_api.Sql.Lexer.{scan, marks, Reads}
use titanium_graph_api.Sql.Quoting.{quote_ident-Reads}
use titanium_graph_api.Sql.Bound.{
  literal, IsBound, ReadsAll, Reads-join, Reads-prepend, Reads-extend, comma-Reads, parens-Reads,
  placeholders-Reads, quote_list-Reads, and_Reads,
}
use titanium_graph_api.Schema.Scalars.{Marshal}
use titanium_graph_api.Schema.{TableInfo}
use titanium_graph_api.Schema.Queries.Keys.{
  ascending, pk_order_clause, keyset_condition, first_values, concat, in_keys, in_condition,
  pk_values, pk_cond, equals,
}

gt_Reads : Reads (codes " > ") 0
unfolding scan marks
gt_Reads = literal _ 0 refl refl

in_Reads : Reads (codes " IN ") 0
unfolding scan marks
in_Reads = literal _ 0 refl refl

tuple_Reads :
    (cols : List Text) (op right : Text) (n : ℕ)
    → Reads op 0
    → Reads right n
    → Reads (parens (quote_list cols) ++ (op ++ parens right)) n
tuple_Reads cols op right n h k =
    Reads-prepend (parens (quote_list cols)) (op ++ parens right) n
      (parens-Reads (quote_list cols) 0 (quote_list-Reads cols))
      (Reads-prepend op (parens right) n h (parens-Reads right n k))

keyset_tuple :
    (cols vals : List Text)
    → length vals ≡ length cols
    → Reads
        (parens (quote_list cols) ++ (codes " > " ++ parens (placeholders (length cols))))
        (length (map str vals))
keyset_tuple cols vals e =
    rw (length-map vals str, e)
      (tuple_Reads cols (codes " > ") _ _ gt_Reads (placeholders-Reads (length cols)))

gt_mark : Reads (codes " > ?") 1
unfolding scan marks
gt_mark = literal _ 1 refl refl

-- A cursor with a value for each key column gives a bound condition.
keyset_condition-IsBound :
    (cols vals : List Text) → length vals ≡ length cols → IsBound (keyset_condition cols vals)
unfolding keyset_condition
keyset_condition-IsBound (c ∷ []) vals e =
    rw (length-map vals str, e)
      (Reads-prepend (quote_ident c) (codes " > ?") 1 (quote_ident-Reads c) gt_mark)
keyset_condition-IsBound [] vals e = keyset_tuple [] vals e
keyset_condition-IsBound (c ∷ d ∷ cols) vals e = keyset_tuple (c ∷ d ∷ cols) vals e

-- Every key has a value for each join column.
abbrev pub AreKeys : List Text → List (List Value) → Type 0
AreKeys cols keys = All (λ k. length k ≡ length cols) keys

first_values-length : (keys : List (List Value)) → length (first_values keys) ≡ length keys
first_values-length [] = refl
first_values-length ([] ∷ ks) = ap suc (first_values-length ks)
first_values-length ((v ∷ vs) ∷ ks) = ap suc (first_values-length ks)

tuples_Reads :
    (cols : List Text) (keys : List (List Value))
    → AreKeys cols keys
    → ReadsAll
        (replicate (length keys) (parens (placeholders (length cols))))
        (length (concat keys))
tuples_Reads cols [] h = refl
tuples_Reads cols (k ∷ keys) (e, h) = (
  length cols,
  length (concat keys),
  parens-Reads _ _ (placeholders-Reads (length cols)),
  tuples_Reads cols keys h,
  rw (length-append k (concat keys), e) refl,
)

in_tuple :
    (cols : List Text) (keys : List (List Value))
    → AreKeys cols keys
    → Reads
        (parens (quote_list cols)
          ++ (codes " IN "
              ++ parens
                  (join comma (replicate (length keys) (parens (placeholders (length cols)))))))
        (length (concat keys))
in_tuple cols keys h =
    tuple_Reads cols (codes " IN ") _ _ in_Reads
      (Reads-join comma _ _ comma-Reads (tuples_Reads cols keys h))

in_keys-IsBound :
    (cols : List Text) (keys : List (List Value)) → AreKeys cols keys → IsBound (in_keys cols keys)
in_keys-IsBound (c ∷ []) keys h = rw (first_values-length keys) (
    Reads-prepend (quote_ident c) _ (length keys) (quote_ident-Reads c) (
      Reads-prepend (codes " IN ") _ (length keys) in_Reads
        (parens-Reads _ _ (placeholders-Reads (length keys)))))
in_keys-IsBound [] keys h = in_tuple [] keys h
in_keys-IsBound (c ∷ d ∷ cols) keys h = in_tuple (c ∷ d ∷ cols) keys h

never_Reads : Reads (codes "1=0") 0
unfolding scan marks
never_Reads = literal _ 0 refl refl

-- Keys with a value for each join column give a bound condition.
pub in_condition-IsBound :
    (cols : List Text) (keys : List (List Value))
    → AreKeys cols keys
    → IsBound (in_condition cols keys)
unfolding in_condition
in_condition-IsBound cols [] h = never_Reads
in_condition-IsBound cols (k ∷ keys) h = in_keys-IsBound cols (k ∷ keys) h

equals-Reads : (p : Column × Value) → Reads (equals p) 1
unfolding scan marks
equals-Reads (col, v) =
    Reads-prepend (quote_ident col.name) (codes " = ?") 1 (quote_ident-Reads col.name)
      (literal _ 1 refl refl)

-- Text of the form `col = ?` for each pair.
pub equals-ReadsAll :
    (ps : List (Column × Value)) → ReadsAll (map equals ps) (length (map (λ p. p.1) ps))
equals-ReadsAll [] = refl
equals-ReadsAll (p ∷ ps) =
    (1, length (map (λ q. q.1) ps), equals-Reads p, equals-ReadsAll ps, omega arith)

pk_cond-IsBound :
    (marshal : Marshal) (ti : TableInfo) (args : Fields) → Ensures IsBound (pk_cond marshal ti args)
unfolding pk_cond
pk_cond-IsBound marshal ti args =
    Ensures-bind (λ ps. Unit {0}) IsBound (pk_values marshal ti args ti.table.primary_key) _ (any _)
      (λ ps h. Reads-join (codes " AND ") _ _ and_Reads (equals-ReadsAll ps))
  where
    any : (r : Result (List (Column × Value))) → Ensures (λ ps. Unit {0}) r
    any (ok ps) = tt
    any (err e) = tt

ascending-ReadsAll : (pks : List Text) → ReadsAll (map ascending pks) 0
unfolding scan marks
ascending-ReadsAll [] = refl
ascending-ReadsAll (pk ∷ pks) = (
  0,
  0,
  Reads-extend (quote_ident pk) (codes " ASC") 0 (quote_ident-Reads pk) (literal _ 0 refl refl),
  ascending-ReadsAll pks,
  refl,
)

pub order_by_Reads : (s : Text) → Reads s 0 → Reads (codes " ORDER BY " ++ s) 0
unfolding scan marks
order_by_Reads s h = Reads-prepend (codes " ORDER BY ") s 0 (literal _ 0 refl refl) h

pub pk_order_clause-Reads : (pks : List Text) → Reads (pk_order_clause pks) 0
unfolding pk_order_clause
pk_order_clause-Reads pks =
    order_by_Reads _ (Reads-join comma _ 0 comma-Reads (ascending-ReadsAll pks))
