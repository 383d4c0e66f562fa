-- ===== src/Schema/Columns.antt =====
-- schema/sqlgen.go: columnCond, one comparison on one column.
pub mod Bound
use titanium_graph_api.Base.{
  ℕ, List, [], ◌∷◌, ◌++◌, Text, Bool, true, false, Option, none, some, if◌then◌else◌, codes, length,
  lookup, text_eq,
}
use titanium_graph_api.Value.{
  Value, Values, nil, cons, elems, is_null, as_arr, as_bool, as_str, str,
}
use titanium_graph_api.Results.{
  Result, ok, err, ◌>>=◌, null_comparison, unsupported_operator, not_a_list, not_a_bool,
  not_a_string,
}
use titanium_graph_api.Catalog.{Column}
use titanium_graph_api.Sql.{Condition, quote_ident, placeholders, parens}
use titanium_graph_api.Schema.Scalars.{Marshal, bind_value}

unfoldable pub binary_ops : List (Text × Text)
binary_ops =
    (codes "_eq", codes "= ?")
    ∷ (codes "_neq", codes "<> ?")
    ∷ (codes "_gt", codes "> ?")
    ∷ (codes "_gte", codes ">= ?")
    ∷ (codes "_lt", codes "< ?")
    ∷ (codes "_lte", codes "<= ?")
    ∷ (codes "_like", codes "LIKE ?")
    ∷ (codes "_nlike", codes "NOT LIKE ?")
    ∷ (codes "_regex", codes "REGEXP ?")
    ∷ (codes "_nregex", codes "NOT REGEXP ?")
    ∷ []

abbrev pub one_arg : Text → Value → Condition
one_arg sql v = record { sql = sql; args = v ∷ [] }

abbrev pub no_arg : Text → Condition
no_arg sql = record { sql = sql; args = [] }

unfoldable pub binary_cond : Marshal → Column → Text → Text → Value → Result Condition
binary_cond marshal col op tmpl val = if is_null val then err (null_comparison col.name op) else (do
  bound ← bind_value marshal col val
  ok (one_arg (quote_ident col.name ++ (codes " " ++ tmpl)) bound))

unfoldable pub bind_all : Marshal → Column → Values → Result (List Value)
bind_all marshal col nil = ok []
bind_all marshal col (cons v vs) = do
  bound ← bind_value marshal col v
  rest ← bind_all marshal col vs
  ok (bound ∷ rest)

abbrev pub in_text : Column → Text → List Value → Text
in_text col kw args =
    quote_ident col.name
    ++ (codes " " ++ (kw ++ (codes " " ++ parens (placeholders (length args)))))

-- `IN ()` matches nothing, `NOT IN ()` everything.
abbrev pub in_items : Marshal → Column → Bool → Values → Result Condition
in_items marshal col negated nil = ok (no_arg (if negated then codes "1=1" else codes "1=0"))
in_items marshal col negated (cons v vs) = do
  args ← bind_all marshal col (cons v vs)
  ok (record {
    sql = in_text col (if negated then codes "NOT IN" else codes "IN") args;
    args = args;
  })

abbrev pub in_cond : Marshal → Column → Bool → Option Values → Result Condition
in_cond marshal col negated none = err (not_a_list col.name)
in_cond marshal col negated (some vs) = in_items marshal col negated vs

abbrev pub null_cond : Column → Option Bool → Result Condition
null_cond col none = err (not_a_bool col.name)
null_cond col (some true) = ok (no_arg (quote_ident col.name ++ codes " IS NULL"))
null_cond col (some false) = ok (no_arg (quote_ident col.name ++ codes " IS NOT NULL"))

abbrev pub contains_cond : Marshal → Column → Value → Result Condition
contains_cond marshal col val = do
  bound ← bind_value marshal col val
  ok (one_arg (codes "JSON_CONTAINS(" ++ (quote_ident col.name ++ codes ", ?)")) bound)

abbrev pub key_text : Column → Text
key_text col =
    codes "JSON_CONTAINS_PATH(" ++ (quote_ident col.name ++ codes ", 'one', CONCAT('$.', ?))")

abbrev pub key_cond : Column → Option Text → Result Condition
key_cond col none = err (not_a_string col.name)
key_cond col (some key) = ok (one_arg (key_text col) (str key))

unfoldable pub special_cond : Marshal → Column → Text → Value → Result Condition
special_cond marshal col op val =
    if text_eq op (codes "_in")
    then in_cond marshal col false (as_arr val)
    else if text_eq op (codes "_nin")
    then in_cond marshal col true (as_arr val)
    else if text_eq op (codes "_is_null")
    then null_cond col (as_bool val)
    else if text_eq op (codes "_contains")
    then contains_cond marshal col val
    else if text_eq op (codes "_has_key")
    then key_cond col (as_str val)
    else err (unsupported_operator col.name op)

abbrev pub choose_cond : Marshal → Column → Text → Value → Option Text → Result Condition
choose_cond marshal col op val (some tmpl) = binary_cond marshal col op tmpl val
choose_cond marshal col op val none = special_cond marshal col op val

unfoldable pub column_cond : Marshal → Column → Text → Value → Result Condition
column_cond marshal col op val = choose_cond marshal col op val (lookup op binary_ops)
