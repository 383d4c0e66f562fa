-- ===== src/Collisions/Distinct.antt =====
-- A catalog that passes has no two generated names alike.
use titanium_graph_api.Base.{◌≡◌, List, [], ◌∷◌, ◌++◌, Text, map}
use titanium_graph_api.Catalog.{Catalog}
use titanium_graph_api.Collisions.{Owners, query_of, mut_of, type_of, Namespaces, start_spaces}
use titanium_graph_api.Schema.Loader.Distinct.{AllDistinct}

abbrev pub claimed : Owners → List Text
claimed ns = map (λ e. e.0) ns

-- The names of a list, one after the other on top of those that are there.
abbrev pub on_top : List Text → List Text → List Text
on_top [] there = there
on_top (n ∷ names) there = on_top names (n ∷ there)

-- A namespace that claims exactly the given names, all of them distinct.
record Holds (names : List Text) (ns : Owners) : Type 0 where
  names_are : claimed ns ≡ names
  distinct : AllDistinct names

-- All names that the tables claim, in order.
abbrev pub all_claims : (Text → List Text) → List Text → List Text
all_claims names_of [] = []
all_claims names_of (tn ∷ tns) = names_of tn ++ all_claims names_of tns

record HoldsAll (q m t : List Text) (spaces : Namespaces) : Type 0 where
  queries : Holds q spaces.query_fields
  mutations : Holds m spaces.mutation_fields
  type_names : Holds t spaces.types

-- The names that a schema for the catalog has: those that its tables claim, on top of the built-in.
pub record IsUnambiguous (cat : Catalog) : Type 0 where
  pub queries :
      AllDistinct
        (on_top (all_claims (query_of cat) cat.table_order) (claimed start_spaces.query_fields))
  pub mutations : AllDistinct (on_top (all_claims mut_of cat.table_order) [])
  pub type_names :
      AllDistinct (on_top (all_claims type_of cat.table_order) (claimed start_spaces.types))
