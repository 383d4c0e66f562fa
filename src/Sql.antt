-- ===== src/Sql.antt =====
-- The pieces of SQL text that schema/sqlgen.go puts together: quoted identifiers, conditions with
-- their bound arguments, and lists of placeholders.
pub mod Lexer
pub mod Quoting
pub mod Bound
mod Tests
use titanium_graph_api.Base.{
  ℕ, zero, suc, List, [], ◌∷◌, ◌++◌, Text, codes, join, map, Option, none, some, ◌==◌,
  if◌then◌else◌,
}
use titanium_graph_api.Value.{Value}

abbrev pub backtick : ℕ
backtick = b'`'

-- `strings.ReplaceAll(name, "`", "``")`
unfoldable pub double_backticks : Text → Text
double_backticks [] = []
double_backticks (c ∷ s) =
    (if c == backtick then backtick ∷ backtick ∷ [] else c ∷ []) ++ double_backticks s

unfoldable pub quote_ident : Text → Text
unfolding double_backticks
quote_ident name = backtick ∷ (double_backticks name ++ backtick ∷ [])

-- A SQL fragment plus its bound arguments.
pub record Condition : Type 0 where
  pub sql : Text
  pub args : List Value

abbrev pub comma : Text
comma = codes ", "

-- `strings.TrimSuffix(strings.Repeat("?, ", n), ", ")`
unfoldable pub placeholders : ℕ → Text
placeholders zero = []
placeholders (suc zero) = codes "?"
placeholders (suc (suc n)) = codes "?, " ++ placeholders (suc n)

unfoldable pub quote_list : List Text → Text
quote_list names = join comma (map quote_ident names)

abbrev pub parens : Text → Text
parens s = codes "(" ++ (s ++ codes ")")

abbrev pub always : Condition
always = record { sql = codes "1=1"; args = [] }

abbrev pub add_part : Text → List Value → List Text × List Value → List Text × List Value
add_part [] args collected = collected
add_part (c ∷ s) args (parts, all_args) = (parens (c ∷ s) ∷ parts, args ++ all_args)

-- The fragments and arguments that `combineConds` collects: nil and empty conditions are skipped.
unfoldable pub collect : List (Option Condition) → List Text × List Value
collect [] = ([], [])
collect (none ∷ cs) = collect cs
collect (some c ∷ cs) = add_part c.sql c.args (collect cs)

abbrev pub conjunction : List Text × List Value → Condition
conjunction ([], args) = always
conjunction (p ∷ ps, args) = record { sql = join (codes " AND ") (p ∷ ps); args = args }

unfoldable pub combine_conds : List (Option Condition) → Condition
unfolding collect
combine_conds cs = conjunction (collect cs)
