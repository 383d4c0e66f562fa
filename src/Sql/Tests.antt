-- ===== src/Sql/Tests.antt =====
-- Quoting and combining on concrete text.
use titanium_graph_api.Base.{◌≡◌, refl, [], ◌∷◌, ◌++◌, Text, codes, join, some, none}
use titanium_graph_api.Value.{str}
use titanium_graph_api.Sql.{Condition, backtick, quote_ident, combine_conds}
use titanium_graph_api.Sql.Lexer.{scan, marks}
use titanium_graph_api.Sql.Quoting.{read_ident, read_ident-quote_ident}
use titanium_graph_api.Sql.Bound.{IsBound}

injection : quote_ident (codes "a` OR ?") ≡ codes "`a`` OR ?`"
unfolding quote_ident
injection = refl

read_ident-quote_ident_example :
    (t : Text) × (quote_ident (codes "a`b") ++ codes " = ?" ≡ backtick ∷ t)
    × (read_ident t ≡ some (codes "a`b", codes " = ?"))
read_ident-quote_ident_example = read_ident-quote_ident (codes "a`b") (codes " = ?") (λ e. cc)

abbrev by_name : Condition
by_name = record { sql = codes "`name` = ?"; args = str (codes "x") ∷ [] }

by_name-IsBound : IsBound by_name
unfolding scan marks
by_name-IsBound = record { closed = refl; count = refl }

combined :
    (combine_conds (some by_name ∷ none ∷ some by_name ∷ [])).sql
    ≡ codes "(`name` = ?) AND (`name` = ?)"
unfolding combine_conds join
combined = refl
