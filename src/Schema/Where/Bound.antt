-- ===== src/Schema/Where/Bound.antt =====
-- The SQL of a filter has exactly one placeholder for each of its arguments.
use titanium_graph_api.Base.{
  ℕ, ◌≡◌, refl, List, [], ◌∷◌, Text, Bool, true, false, Option, none, some, if◌then◌else◌, codes,
  length, length-append, text_eq, arith, All,
}
use titanium_graph_api.Value.{Value, null, arr, obj, Values, nil, cons, Fields, end, field}
use titanium_graph_api.Results.{Result, ok, Ensures, Ensures-bind, Ensures-if, Ensures-eq-ok}
use titanium_graph_api.Catalog.{Column}
use titanium_graph_api.Sql.{Condition}
use titanium_graph_api.Sql.Lexer.{scan, marks, Reads}
use titanium_graph_api.Sql.Bound.{
  IsBound, ReadsAll, ReadsAll-append, Reads-prepend, Reads-join, parens-Reads, conjunction-IsBound,
}
use titanium_graph_api.Schema.{TableInfo, readable_column}
use titanium_graph_api.Schema.Scalars.{Marshal}
use titanium_graph_api.Schema.Sorting.{sort_entries, sort_entries-All}
use titanium_graph_api.Schema.Columns.{column_cond}
use titanium_graph_api.Schema.Columns.Bound.{column_cond-IsBound}
use titanium_graph_api.Schema.Where.{
  Parts, gather, finish_where, is_list_key, or_key, not_key, joiner, join_items, negate, add_item,
  operators, on_column, plain_entry, not_operators, where_entry, where_items, where_item,
  where_fields, where_sql,
}

-- The fragments hold one placeholder for each argument, taken together.
abbrev AreBound : Parts → Type 0
AreBound (ss, args) = ReadsAll ss (length args)

abbrev EntryBound : Text × Result Parts → Type 0
EntryBound (k, r) = Ensures AreBound r

gather-AreBound :
    (rs : List (Text × Result Parts)) → All EntryBound rs → Ensures AreBound (gather rs)
unfolding gather
gather-AreBound [] h = refl
gather-AreBound ((k, r) ∷ rest) (p, h) = Ensures-bind AreBound AreBound r _ p (λ (ss, args) b.
    Ensures-bind AreBound AreBound (gather rest) _ (gather-AreBound rest h)
      (λ (ts, more) c. rw (length-append args more) (ReadsAll-append ss ts _ _ b c)))

finish_where-IsBound :
    (rs : List (Text × Result Parts)) → All EntryBound rs → Ensures IsBound (finish_where rs)
unfolding finish_where
finish_where-IsBound rs h =
    Ensures-bind AreBound IsBound (gather (sort_entries rs)) _
      (gather-AreBound (sort_entries rs) (sort_entries-All EntryBound rs h))
      (λ (ss, args) b. conjunction-IsBound ss args b)

operators-AreBound :
    (marshal : Marshal) (col : Column) (ops : Fields) → All EntryBound (operators marshal col ops)
unfolding operators
operators-AreBound marshal col end = tt
operators-AreBound marshal col (field op v fs) = (
  Ensures-bind IsBound AreBound (column_cond marshal col op v) _
      (column_cond-IsBound marshal col op v) (λ c b. (length c.args, 0, b, refl, omega arith)),
  operators-AreBound marshal col fs,
)

joiner_Reads : (b : Bool) → Reads (if b then codes " OR " else codes " AND ") 0
unfolding scan marks
joiner_Reads true = record { closed = refl; count = refl }
joiner_Reads false = record { closed = refl; count = refl }

single : (s : Text) (n : ℕ) → Reads s n → ReadsAll (s ∷ []) n
single s n h = (n, 0, h, refl, omega arith)

join_items-AreBound :
    (key : Text) (parts : Parts) → AreBound parts → AreBound (join_items key parts)
join_items-AreBound key ([], args) h = refl
join_items-AreBound key (s ∷ ss, args) h = single _ (length args) (
    parens-Reads _ (length args)
      (Reads-join (joiner key) (s ∷ ss) (length args) (joiner_Reads (text_eq key or_key)) h))

negate-AreBound : (c : Condition) → IsBound c → AreBound (negate c)
unfolding scan marks
negate-AreBound c h = single _ (length c.args) (
    Reads-prepend (codes "NOT ") _ (length c.args) (record { closed = refl; count = refl })
      (parens-Reads c.sql (length c.args) h))

add_item-AreBound : (c : Condition) (p : Parts) → IsBound c → AreBound p → AreBound (add_item c p)
add_item-AreBound c (ss, args) h k =
    (length c.args, length args, parens-Reads c.sql _ h, k, length-append c.args args)

plain_entry-AreBound : (ti : TableInfo) (key : Text) → Ensures AreBound (plain_entry ti key)
unfolding plain_entry
plain_entry-AreBound ti key =
    Ensures-if AreBound (is_list_key key) _ _ (λ _. tt)
      (λ _.
        Ensures-if AreBound (text_eq key not_key) _ _ (λ _. tt)
          (λ _. refused (readable_column ti key)))
  where
    refused : (o : Option Column) → Ensures AreBound (not_operators key o)
    refused none = tt
    refused (some col) = tt

on_column-AreBound :
    (marshal : Marshal) (key : Text) (ops : Fields) (o : Option Column)
    → Ensures AreBound (on_column marshal key ops o)
on_column-AreBound marshal key ops none = tt
on_column-AreBound marshal key ops (some col) =
    gather-AreBound (sort_entries (operators marshal col ops))
      (sort_entries-All EntryBound _ (operators-AreBound marshal col ops))

module _ (marshal : Marshal) (ti : TableInfo) where
  mutual
    unfolding where_entry

    where_entry-AreBound :
        (key : Text) (v : Value) → Ensures AreBound (where_entry marshal ti key v)
    where_entry-AreBound key null = refl
    where_entry-AreBound key (arr vs) =
        Ensures-if AreBound (is_list_key key) _ _
          (λ _.
            Ensures-bind AreBound AreBound (where_items marshal ti key vs) _
              (where_items-AreBound key vs) (λ parts b. join_items-AreBound key parts b))
          (λ _. plain_entry-AreBound ti key)
    where_entry-AreBound key (obj fs) =
        Ensures-if AreBound (is_list_key key) _ _ (λ _. tt)
          (λ _.
            Ensures-if AreBound (text_eq key not_key) _ _
              (λ _.
                Ensures-bind IsBound AreBound (finish_where (where_fields marshal ti fs)) _
                  (finish_where-IsBound _ (where_fields-AreBound fs)) negate-AreBound)
              (λ _. on_column-AreBound marshal key fs (readable_column ti key)))
    where_entry-AreBound key v = plain_entry-AreBound ti key

    where_items-AreBound :
        (key : Text) (vs : Values) → Ensures AreBound (where_items marshal ti key vs)
    where_items-AreBound key nil = refl
    where_items-AreBound key (cons v vs) =
        Ensures-bind IsBound AreBound (where_item marshal ti key v) _ (where_item-IsBound key v)
          (λ c b.
            Ensures-bind AreBound AreBound (where_items marshal ti key vs) _
              (where_items-AreBound key vs) (λ rest k. add_item-AreBound c rest b k))

    where_item-IsBound : (key : Text) (v : Value) → Ensures IsBound (where_item marshal ti key v)
    where_item-IsBound key (obj fs) = finish_where-IsBound _ (where_fields-AreBound fs)
    where_item-IsBound key v = tt

    where_fields-AreBound : (fs : Fields) → All EntryBound (where_fields marshal ti fs)
    where_fields-AreBound end = tt
    where_fields-AreBound (field k v fs) = (where_entry-AreBound k v, where_fields-AreBound fs)

  pub where_sql-IsBound :
      (expr : Fields) {c : Condition} → where_sql marshal ti expr ≡ ok c → IsBound c
  unfolding where_sql
  where_sql-IsBound expr h =
      Ensures-eq-ok IsBound (finish_where (where_fields marshal ti expr))
        (finish_where-IsBound _ (where_fields-AreBound expr)) h
