-- ===== src/Schema/Selections.antt =====
-- schema/aggregate.go: the fields that a selection set names, with fragments followed.
pub mod Flattened
use titanium_graph_api.Base.{
  ℕ, zero, suc, List, [], ◌∷◌, ◌++◌, Text, Option, none, some, length, lookup,
}

-- The nodes of graphql-go's syntax tree; a missing set is the empty one. An alias is not read.
mutual
  pub data Node : Type 0 where
    field_node : Option Text → Nodes → Node
    inline_node : Nodes → Node
    spread_node : Option Text → Node

  pub data Nodes : Type 0 where
    no_nodes : Nodes
    node : Node → Nodes → Nodes

-- An `*ast.Field`.
pub record Field : Type 0 where
  pub name : Option Text
  pub selections : Nodes

-- The fragment definitions of the request, by name.
abbrev pub Fragments : Type 0
Fragments = List (Text × Nodes)

abbrev pub Spread : Type 0
Spread = Text → List Field

unfoldable mutual
  pub flatten_set : Spread → Nodes → List Field
  flatten_set spread no_nodes = []
  flatten_set spread (node n ns) = flatten_one spread n ++ flatten_set spread ns

  pub flatten_one : Spread → Node → List Field
  flatten_one spread (field_node name ss) = record { name = name; selections = ss } ∷ []
  flatten_one spread (inline_node ss) = flatten_set spread ss
  flatten_one spread (spread_node none) = []
  flatten_one spread (spread_node (some name)) = spread name

abbrev pub flatten_body : Spread → Option Nodes → List Field
flatten_body spread none = []
flatten_body spread (some body) = flatten_set spread body

-- The fields of a fragment, on fuel: fragments nest at most as deep as there are fragments, since
-- graphql-go refuses cycles.
unfoldable pub flatten_spread : ℕ → Fragments → Text → List Field
unfolding flatten_set
flatten_spread zero fragments name = []
flatten_spread (suc n) fragments name =
    flatten_body (flatten_spread n fragments) (lookup name fragments)

unfoldable pub flatten_fields : Fragments → Nodes → List Field
unfolding flatten_set flatten_spread
flatten_fields fragments ns = flatten_set (flatten_spread (suc (length fragments)) fragments) ns

abbrev pub add_name : Option Text → List Text → List Text
add_name none names = names
add_name (some n) names = n ∷ names

unfoldable pub names_in : List Field → List Text
names_in [] = []
names_in (f ∷ fs) = add_name f.name (names_in fs)

-- `fieldNames`
unfoldable pub field_names : Fragments → Nodes → List Text
unfolding names_in flatten_fields
field_names fragments ns = names_in (flatten_fields fragments ns)
