-- ===== src/Rbac/Resolve/Grants.antt =====
-- What one resolved operation grants: exactly the columns of its rule, its row filter and its
-- presets; nothing of the rule is dropped.
use mathlib.Core.List.{Permᴰ}
use titanium_graph_api.Base.{
  ◌≡◌, List, [], ◌∷◌, Text, Bool, true, ◌&&◌, Option, none, some, member, All,
}
use titanium_graph_api.Catalog.{Table, has_column}
use titanium_graph_api.Config.Roles.{OpPerm}
use titanium_graph_api.Results.{ok, Ensures, Ensures-bind, Ensures-if}
use titanium_graph_api.Rbac.Filter.{RowFilter, compile_filter}
use titanium_graph_api.Rbac.Resolve.{Preset, OpAccess, wanted, make_presets, names_of}
use titanium_graph_api.Rbac.Resolve.Presets.{IsSorted}

-- The columns of the rule that the table has.
abbrev pub is_listed : Table → List Text → Text → Bool
is_listed t names k = member k names && has_column t k

-- A column is granted if the table has it and the rule lists it, or lists no columns at all.
abbrev pub is_granted : Table → List Text → Text → Bool
is_granted t [] k = member k (names_of t.columns)
is_granted t (n ∷ ns) k = is_listed t (n ∷ ns) k && member k (names_of t.columns)

abbrev pub FilterKept : Text → Option RowFilter → Type 0
FilterKept [] o = o ≡ none
FilterKept (c ∷ s) o = (f : RowFilter) × (o ≡ some f) × (compile_filter (c ∷ s) ≡ ok f)

abbrev pub PresetsKept : Table → Bool → List (Text × Text) → List Preset → Type 0
PresetsKept t explicit rules ps =
    (qs : List Preset) × (make_presets t explicit rules ≡ ok qs) × Permᴰ qs ps × IsSorted ps

pub record Grants (t : Table) (perm : OpPerm) (explicit : Bool) (oa : OpAccess) : Type 0 where
  pub allowed : perm.allow ≡ true
  pub columns : (k : Text) → member k oa.column_set ≡ is_granted t perm.columns k
  pub set : oa.column_set ≡ names_of oa.columns
  pub filter : FilterKept perm.filter oa.filter
  pub presets : PresetsKept t explicit perm.presets oa.presets

-- The meaning of a resolved operation, allowed or denied.
abbrev GrantsOrDenies : Table → OpPerm → Bool → Option OpAccess → Type 0
GrantsOrDenies t perm explicit none = Unit
GrantsOrDenies t perm explicit (some oa) = Grants t perm explicit oa

-- An explicit rule that resolves names columns of the table only: a misspelt column is an error,
-- never a grant of nothing.
wanted_explicit-Ensures :
    (t : Table) (cs : List Text)
    → Ensures (λ names. All (λ c. has_column t c ≡ true) cs) (wanted t true cs)
unfolding wanted
wanted_explicit-Ensures t [] = tt
wanted_explicit-Ensures t (c ∷ cs) =
    Ensures-if _ (has_column t c) _ _
      (λ has.
        Ensures-bind _ _ (wanted t true cs) _ (wanted_explicit-Ensures t cs)
          (λ names ih. (has, ih)))
      (λ lacks. tt)
