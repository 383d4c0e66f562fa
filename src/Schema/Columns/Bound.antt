-- ===== src/Schema/Columns/Bound.antt =====
-- Every comparison has one placeholder for each of its arguments.
use titanium_graph_api.Base.{
  ℕ, ◌≡◌, refl, ◌++◌, Text, Bool, true, false, Option, none, some, if◌then◌else◌, codes, length,
  lookup, lookup-All, text_eq, All,
}
use titanium_graph_api.Value.{Value, Values, nil, cons, as_arr, as_bool, as_str, is_null}
use titanium_graph_api.Results.{Result, ok, err, Ensures, Ensures-bind, Ensures-if}
use titanium_graph_api.Catalog.{Column}
use titanium_graph_api.Sql.{quote_ident, placeholders}
use titanium_graph_api.Sql.Lexer.{scan, marks, Reads}
use titanium_graph_api.Sql.Quoting.{quote_ident-Reads}
use titanium_graph_api.Sql.Bound.{IsBound, Reads-prepend, parens-Reads, placeholders-Reads}
use titanium_graph_api.Schema.Scalars.{Marshal, bind_value}
use titanium_graph_api.Schema.Columns.{
  binary_ops, binary_cond, bind_all, in_items, in_cond, null_cond, contains_cond, key_cond,
  special_cond, choose_cond, column_cond,
}

anything {ℓ} : {A : Type ℓ} (r : Result A) → Ensures (λ _. Unit {0}) r
anything (ok a) = tt
anything (err e) = tt

-- A text behind a quoted name.
behind_name : (name s : Text) (n : ℕ) → Reads s n → Reads (quote_ident name ++ s) n
behind_name name s n h = Reads-prepend (quote_ident name) s n (quote_ident-Reads name) h

templates-Reads : All (λ e. Reads e.1 1) binary_ops
unfolding binary_ops scan marks
templates-Reads = (
  record { closed = refl; count = refl },
  (
    record { closed = refl; count = refl },
    (
      record { closed = refl; count = refl },
      (
        record { closed = refl; count = refl },
        (
          record { closed = refl; count = refl },
          (
            record { closed = refl; count = refl },
            (
              record { closed = refl; count = refl },
              (
                record { closed = refl; count = refl },
                (
                  record { closed = refl; count = refl },
                  (record { closed = refl; count = refl }, tt),
                ),
              ),
            ),
          ),
        ),
      ),
    ),
  ),
)

template_Reads : (op : Text) {tmpl : Text} → lookup op binary_ops ≡ some tmpl → Reads tmpl 1
template_Reads op h = lookup-All (λ s. Reads s 1) op binary_ops templates-Reads h

binary_cond-IsBound :
    (marshal : Marshal) (col : Column) (op tmpl : Text) (val : Value)
    → Reads tmpl 1
    → Ensures IsBound (binary_cond marshal col op tmpl val)
unfolding binary_cond scan marks
binary_cond-IsBound marshal col op tmpl val h =
    Ensures-if IsBound (is_null val) _ _ (λ _. tt)
      (λ _.
        Ensures-bind _ IsBound (bind_value marshal col val) _
          (anything (bind_value marshal col val))
          (λ bound _.
            behind_name col.name _ 1
              (Reads-prepend (codes " ") tmpl 1 (record { closed = refl; count = refl }) h)))

in_items-IsBound :
    (marshal : Marshal) (col : Column) (negated : Bool) (vs : Values)
    → Ensures IsBound (in_items marshal col negated vs)
unfolding scan marks
in_items-IsBound marshal col true nil = record { closed = refl; count = refl }
in_items-IsBound marshal col false nil = record { closed = refl; count = refl }
in_items-IsBound marshal col negated (cons v vs) =
    Ensures-bind _ IsBound (bind_all marshal col (cons v vs)) _
      (anything (bind_all marshal col (cons v vs)))
      (λ args _. behind_name col.name _ (length args) (
        Reads-prepend (codes " ") _ (length args) (record { closed = refl; count = refl })
          (Reads-prepend (if negated then codes "NOT IN" else codes "IN") _ (length args)
            (keyword negated)
            (Reads-prepend (codes " ") _ (length args) (record { closed = refl; count = refl })
              (parens-Reads (placeholders (length args)) (length args)
                (placeholders-Reads (length args)))))))
  where
    keyword : (b : Bool) → Reads (if b then codes "NOT IN" else codes "IN") 0
    keyword true = record { closed = refl; count = refl }
    keyword false = record { closed = refl; count = refl }

in_cond-IsBound :
    (marshal : Marshal) (col : Column) (negated : Bool) (o : Option Values)
    → Ensures IsBound (in_cond marshal col negated o)
in_cond-IsBound marshal col negated none = tt
in_cond-IsBound marshal col negated (some vs) = in_items-IsBound marshal col negated vs

null_cond-IsBound : (col : Column) (o : Option Bool) → Ensures IsBound (null_cond col o)
unfolding scan marks
null_cond-IsBound col none = tt
null_cond-IsBound col (some true) =
    behind_name col.name _ 0 (record { closed = refl; count = refl })
null_cond-IsBound col (some false) =
    behind_name col.name _ 0 (record { closed = refl; count = refl })

contains_cond-IsBound :
    (marshal : Marshal) (col : Column) (val : Value)
    → Ensures IsBound (contains_cond marshal col val)
unfolding scan marks
contains_cond-IsBound marshal col val =
    Ensures-bind _ IsBound (bind_value marshal col val) _ (anything (bind_value marshal col val))
      (λ bound _.
        Reads-prepend (codes "JSON_CONTAINS(") _ 1 (record { closed = refl; count = refl })
          (behind_name col.name _ 1 (record { closed = refl; count = refl })))

key_cond-IsBound : (col : Column) (o : Option Text) → Ensures IsBound (key_cond col o)
unfolding scan marks
key_cond-IsBound col none = tt
key_cond-IsBound col (some key) =
    Reads-prepend (codes "JSON_CONTAINS_PATH(") _ 1 (record { closed = refl; count = refl })
      (behind_name col.name _ 1 (record { closed = refl; count = refl }))

special_cond-IsBound :
    (marshal : Marshal) (col : Column) (op : Text) (val : Value)
    → Ensures IsBound (special_cond marshal col op val)
unfolding special_cond
special_cond-IsBound marshal col op val =
    Ensures-if IsBound (text_eq op (codes "_in")) _ _
      (λ _. in_cond-IsBound marshal col false (as_arr val))
      (λ _.
        Ensures-if IsBound (text_eq op (codes "_nin")) _ _
          (λ _. in_cond-IsBound marshal col true (as_arr val))
          (λ _.
            Ensures-if IsBound (text_eq op (codes "_is_null")) _ _
              (λ _. null_cond-IsBound col (as_bool val))
              (λ _.
                Ensures-if IsBound (text_eq op (codes "_contains")) _ _
                  (λ _. contains_cond-IsBound marshal col val)
                  (λ _.
                    Ensures-if IsBound (text_eq op (codes "_has_key")) _ _
                      (λ _. key_cond-IsBound col (as_str val)) (λ _. tt)))))

choose_cond-IsBound :
    (marshal : Marshal) (col : Column) (op : Text) (val : Value) (o : Option Text)
    → lookup op binary_ops ≡ o
    → Ensures IsBound (choose_cond marshal col op val o)
choose_cond-IsBound marshal col op val (some tmpl) e =
    binary_cond-IsBound marshal col op tmpl val (template_Reads op e)
choose_cond-IsBound marshal col op val none e = special_cond-IsBound marshal col op val

-- Whatever the column, the operator and the value, a comparison that is accepted holds exactly as
-- many placeholders as arguments.
pub column_cond-IsBound :
    (marshal : Marshal) (col : Column) (op : Text) (val : Value)
    → Ensures IsBound (column_cond marshal col op val)
unfolding column_cond
column_cond-IsBound marshal col op val =
    choose_cond-IsBound marshal col op val (lookup op binary_ops) refl
